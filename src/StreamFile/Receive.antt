-- ===== src/StreamFile/Receive.antt =====
-- The receiving half of src/proto/stream_file.c: `sf_process_frame` and `sf_on_data`.
use hwphonelink.Vtp.Frame.{parse_common_frame, Fields}
use hwphonelink.StreamFile.Names.{is_h264_name, c_str, bad_name, expected_sha_of}
use hwphonelink.StreamFile.Clip.{h264_verify, sha_matches}
use hwphonelink.StreamFile.State.{
  write_at, rx_meta, sf_rx_wait, vtp_chunk, truncate_file, sf_rx_failed, sf_rx_data, sf_done,
  sf_rx_done, SfOutput, StreamFile, Rx, SfIo, RxState, sf_fail, Halves,
}
use hwphonelink.Prelude.{
  get_u64, ◌||◌, not, ◌^◌, get_u32, skip, ◌%◌, ◌∷◌, copy, ltb, get_u16, length, ◌+◌, if◌then◌else◌,
  ◌++◌, ◌==◌, ℕ, Bool, List, Option, [], some, none, false, true, suc, zero,
}

-- The halves behind a frame, the outputs, and the result of `sf_process_frame`.
pub record Processed : Type 0 where
  pub halves : Halves
  pub out : List SfOutput
  pub cont : Bool

-- `sf_fail` and FALSE.
unfoldable pub failing : Halves → Processed
unfolding sf_fail
failing c = record { halves = (sf_fail c).0; out = (sf_fail c).1; cont = false }

abbrev pub rx_over : RxState → Bool
rx_over sf_rx_done = true
rx_over sf_rx_failed = true
rx_over _ = false

abbrev pub wrote_all : Option ℕ → ℕ → Bool
wrote_all none len = false
wrote_all (some w) len = w == len

abbrev pub bytes_of : Option (List ℕ) → List ℕ
bytes_of none = []
bytes_of (some bytes) = bytes

-- The receiving half with one more chunk in its file.
unfoldable pub stored : Rx → List ℕ → Rx
stored r chunk = record r {
  rx_sha = some (bytes_of r.rx_sha ++ chunk);
  rx_received = (r.rx_received + length chunk) % 2 ^ 64;
}

-- What one turn of the loop of `sf_on_data` finds at the head of the buffer: nothing to do yet,
-- or the 32-bit number of the first four bytes.
unfoldable pub head_frame : RxState → List ℕ → Option ℕ
head_frame st buf =
    if rx_over st
    then none
    else if ltb (length buf) 4
    then none
    else if ltb (length buf) ((4 + get_u32 buf) % 2 ^ 32)
    then none
    else some (get_u32 buf % 2 ^ 32)

module _ (io : SfIo) where
  -- `okv`: a clip is checked in full, another file by the checksum that its name holds, if it does.
  unfoldable pub verdict : Rx → Bool
  unfolding sha_matches h264_verify is_h264_name
  verdict r =
      if is_h264_name r.rx_name
      then h264_verify io.sha256 (io.get_contents (bytes_of r.rx_path)) r.rx_name
      else sha_matches r.rx_expected_sha (io.sha256 (bytes_of r.rx_sha))

  -- The test for completion behind a data frame.
  unfoldable pub finish : Halves → List SfOutput → Processed
  unfolding verdict
  finish c out =
      if c.rx.rx_received == c.rx.rx_total
      then record {
        halves = record c {
          rx = record c.rx { rx_fd = false; rx_sha = none; rx_state = sf_rx_done };
        };
        out = out ++ (sf_done false (verdict c.rx) ∷ []);
        cont = true;
      }
      else record { halves = c; out = out; cont = true }

  -- A frame in the state SF_RX_DATA.
  unfoldable pub on_chunk : Halves → List ℕ → Processed
  unfolding failing finish stored
  on_chunk c chunk =
      if length chunk == 0
      then finish c []
      else if ltb c.rx.rx_total ((c.rx.rx_received + length chunk) % 2 ^ 64)
      then failing c
      else if not (wrote_all (io.pwrite chunk c.rx.rx_received) (length chunk))
      then failing c
      else finish (record c { rx = stored c.rx chunk }) (write_at chunk c.rx.rx_received ∷ [])

  -- A metadata frame with a name that is accepted.
  unfoldable pub open_received : Halves → List ℕ → ℕ → List ℕ → Processed
  unfolding failing expected_sha_of
  open_received c dir total name =
      let path = io.build_filename dir name in
      if io.can_open path
      then record {
        halves = record c {
          rx = record c.rx {
            rx_name = name;
            rx_path = some path;
            rx_fd = true;
            rx_sha = some [];
            rx_total = total;
            rx_received = 0;
            rx_expected_sha = expected_sha_of name;
            rx_state = sf_rx_data;
          };
        };
        out = truncate_file path ∷ rx_meta name total ∷ [];
        cont = true;
      }
      else failing (record c { rx = record c.rx { rx_name = name; rx_path = none; rx_fd = false } })

  -- A frame in the state SF_RX_WAIT, for a session with a receive directory.
  unfoldable pub on_meta : Halves → List ℕ → List ℕ → Processed
  unfolding failing open_received bad_name c_str
  on_meta c dir payload =
      let name_len = get_u16 (skip 8 payload) in
      let name = c_str (copy name_len (skip 10 payload)) in
      if ltb (length payload) 10
      then failing c
      else if not (length payload == 10 + name_len)
      then failing c
      else if name_len == 0 || bad_name name
      then failing c
      else open_received c dir (get_u64 payload) name

  -- A frame without a receive directory to put it in.
  unfoldable pub on_first : Halves → Option (List ℕ) → List ℕ → Processed
  unfolding failing on_meta
  on_first c none payload = failing c
  on_first c (some dir) payload = on_meta c dir payload

  -- Behind `vtp_parse_common_frame`.
  unfoldable pub on_parsed : RxState → Halves → Option (Fields × List ℕ) → Processed
  unfolding failing on_first on_chunk
  on_parsed st c none = failing c
  on_parsed sf_rx_wait c (some p) = on_first c c.rx.recv_dir p.1
  on_parsed sf_rx_data c (some p) = on_chunk c p.1
  on_parsed sf_rx_done c (some p) = on_chunk c p.1
  on_parsed sf_rx_failed c (some p) = on_chunk c p.1

  -- `sf_process_frame`.
  unfoldable pub process_frame : Halves → List ℕ → Processed
  unfolding on_parsed
  process_frame c frame =
      if rx_over c.rx.rx_state
      then record { halves = c; out = []; cont = true }
      else on_parsed c.rx.rx_state c (parse_common_frame io.decrypt frame c.key vtp_chunk)

  -- The loop of `sf_on_data`, which uses one unit of fuel in each turn: the halves, what stays in the
  -- buffer, and the outputs. `g_byte_array_remove_range` takes the number of bytes as a `guint`. A
  -- sum that wraps gives a frame longer than the buffer, which the parser refuses by its length.
  unfoldable pub drain : ℕ → Halves → List ℕ → Halves × List ℕ × List SfOutput
  unfolding head_frame process_frame
  drain zero c buf = (c, buf, [])
  drain (suc fuel) c buf = elim (head_frame c.rx.rx_state buf) [
    | none ↦ (c, buf, [])
    | some n ↦
        let r = process_frame c (copy (4 + n) buf) in
        let left = skip ((4 + n) % 2 ^ 32) buf in
        let rest = drain fuel r.halves left in
        if r.cont then (rest.0, rest.1, r.out ++ rest.2) else (r.halves, left, r.out)
  ]

  -- `sf_on_data`.
  unfoldable pub sf_on_data : StreamFile → List ℕ → StreamFile × List SfOutput
  unfolding drain
  sf_on_data s bytes =
      let buf = s.rxbuf ++ bytes in
      let d = drain (length buf) s.halves buf in
      if s.closed then (s, []) else (record s { halves = d.0; rxbuf = d.1 }, d.2)
