-- ===== src/Transfer/Sender.antt =====
-- The sender of src/proto/dfile_conn.c: `send_files_impl`, the header frames and `tx_pump`.
use hwphonelink.Dfile.Header.{max_file_num, max_size}
use hwphonelink.Dfile.Encode.{encode_file_header, Entry}
use hwphonelink.Transfer.State.{
  tx_wait_confirm_req, send_frame, is_some, max_file_size, is_ready, none_acked, Step, Output, Conn,
  Trans, TransFile, trans_new, Io,
}
use hwphonelink.Prelude.{
  ◌||◌, ◌==◌, length, leb, ltb, ◌^◌, ◌/◌, ◌&&◌, not, if◌then◌else◌, ◌%◌, ◌-◌, Bool, ◌+◌, ◌∷◌,
  Option, ℕ, List, [], some, none, false, true, suc, zero,
}

-- `tx_all_sent` and `tx_all_acked`.
unfoldable pub all_sent : List TransFile → Bool
all_sent [] = true
all_sent (f ∷ fs) = not (ltb f.next_seq f.total_blocks || ltb 0 (length f.retrans)) && all_sent fs

unfoldable pub all_acked : List TransFile → Bool
all_acked [] = true
all_acked (f ∷ fs) = f.acked_all && all_acked fs

unfoldable pub header_entries : List TransFile → List Entry
header_entries [] = []
header_entries (f ∷ fs) =
    record { file_id = f.file_id; file_size = f.size; name = f.name } ∷ header_entries fs

-- The loop of `tx_send_header`, from entry `start` on. A frame takes an entry or more, so the number
-- of entries is fuel enough.
unfoldable pub send_headers : ℕ → Io → ℕ → List Entry → ℕ → Bool × List Output
send_headers zero io trans_id ents start = (true, [])
send_headers (suc fuel) io trans_id ents start =
    if leb (length ents) start
    then (true, [])
    else elim (encode_file_header io.old_buf (max_size + 16) trans_id (length ents % 2 ^ 16) ents
        start (length ents - start)) [
          | none ↦ (false, [])
          | some fw ↦
              let rest = send_headers fuel io trans_id ents (start + fw.1) in
              if fw.1 == 0 || not (io.can_send fw.0)
              then (false, [])
              else (rest.0, send_frame fw.0 ∷ rest.1)
        ]

-- `tx_send_header`.
unfoldable pub send_header : Io → Trans → Bool × List Output
unfolding send_headers
send_header io t =
    let ents = header_entries t.files in send_headers (length ents) io t.trans_id ents 0

-- `DFileSendItem`, with what the system says of its path: the size of a regular file that opens.
pub record SendItem : Type 0 where
  pub name : Option (List ℕ)
  pub size : ℕ
  pub stat_size : Option ℕ

abbrev pub wire_name : Option (List ℕ) → List ℕ
wire_name none = b'u' ∷ b'n' ∷ b'n' ∷ b'a' ∷ b'm' ∷ b'e' ∷ b'd' ∷ []
wire_name (some name) = name

-- The number of blocks of a file.
abbrev pub blocks : ℕ → ℕ → ℕ
blocks size block_size = (size + block_size - 1) / block_size % 2 ^ 32

abbrev pub sized_file : ℕ → ℕ → SendItem → ℕ → TransFile
sized_file block_size i item size = record {
  file_id = suc i % 2 ^ 16;
  size = size;
  name = wire_name item.name;
  total_blocks = blocks size block_size;
  next_seq = 0;
  retrans = [];
  last_acked = none_acked;
  acked_all = blocks size block_size == 0;
  confirmed = false;
  expected_seq = 0;
  write_complete = false;
  hashed = [];
  expected_sha = none;
}

-- The loop of `send_files_impl` over the items from the `i`-th on; `none` is a return of FALSE.
unfoldable pub open_files : ℕ → ℕ → List SendItem → Option (List TransFile)
open_files block_size i [] = some []
open_files block_size i (item ∷ items) =
    let rest = open_files block_size (suc i) items in
    elim item.stat_size [
      | none ↦ none
      | some size ↦
          if not (item.size == 0) && not (item.size == size)
          then none
          else if ltb max_file_size size
          then none
          else elim rest [
            | none ↦ none
            | some files ↦ some (sized_file block_size i item size ∷ files)
          ]
    ]

-- The end of `send_files_impl`, for the files that were opened.
unfoldable pub start_sending : Io → Conn → Option (List TransFile) → Bool × Step
unfolding trans_new send_header
start_sending io c none = (false, (record c { next_trans_id = suc c.next_trans_id % 2 ^ 16 }, []))
start_sending io c (some files) =
    let c' = record c { next_trans_id = suc c.next_trans_id % 2 ^ 16 } in
    let t = record (trans_new true c.next_trans_id io.now) { files = files } in
    let sent = send_header io t in
    if sent.0
    then (true, (record c' { tx = some (record t { phase = tx_wait_confirm_req }) }, sent.1))
    else (false, (c', sent.1))

-- `send_files_impl`: whether it starts a transfer, and the step.
unfoldable pub send_files : Io → List SendItem → Conn → Bool × Step
unfolding start_sending
send_files io items c =
    if not (is_ready c.state) || is_some c.tx
    then (false, (c, []))
    else if length items == 0 || ltb max_file_num (length items)
    then (false, (c, []))
    else start_sending io c (open_files c.block_size 0 items)
