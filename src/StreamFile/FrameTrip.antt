-- ===== src/StreamFile/FrameTrip.antt =====
-- One frame of src/proto/stream_file.c from `sf_send_frame` to `sf_process_frame`.
use hwphonelink.StreamFile.Turns.{
  head_frame-nil, drain-none, drain-some, drain-fuel, parse_common_frame-some,
}
use mathlib.Core.List.{append-nil}
use hwphonelink.Vtp.Frame.{sealed_plain, parse_common_frame, nonce_len, Fields, common_frame_size}
use hwphonelink.Vtp.RoundTrip.{parse_common_frame-build_common_frame, Seals, FitsFields}
use hwphonelink.StreamFile.Receive.{
  drain, process_frame, head_frame, on_parsed, rx_over, Processed, sf_on_data,
}
use hwphonelink.StreamFile.Sends.{frame_fields, sf_send_frame, Draw}
use hwphonelink.StreamFile.State.{RxState, Halves, vtp_chunk, StreamFile, SfIo}
use hwphonelink.Prelude.{
  ◌∙◌, ap, copy-all, copy, ◌^◌, ◌%◌, get_u32, skip-append, ◌+◌, sym, skip, refl, suc, ◌≤◌, arith,
  ◌≡◌, length, List, ℕ, [], some, false, true,
}

-- What the session relies on in the cipher, under one key: the ciphertext is as long as the
-- plaintext, the tag has 16 bytes, and the same nonce of 12 bytes opens what it sealed.
pub record IsCipher (io : SfIo) (key : List ℕ) : Type 0 where
  pub seals :
      (nonce plain : List ℕ) (nonce_12 : length nonce ≡ nonce_len)
      → (ct : List ℕ) × (tag : List ℕ) × Seals io.encrypt io.decrypt key nonce nonce_12 plain ct tag

-- The random generator gives a nonce.
abbrev pub HasNonce : Draw → Type 0
HasNonce d = (nonce : List ℕ) × (d.nonce ≡ some nonce) × (length nonce ≡ nonce_len)

frame_fields-FitsFields : (now : ℕ) → FitsFields (frame_fields now)
frame_fields-FitsFields now = record {
  mode = omega arith;
  stream_type = omega arith;
  scene = omega arith;
  timestamp_ns = omega arith;
}

-- A payload that fits a frame is queued in a frame that parses back to it.
pub sf_send_frame-some :
    (io : SfIo) (d : Draw) (key payload : List ℕ)
    → IsCipher io key
    → HasNonce d
    → length payload ≤ vtp_chunk
    → (msg : List ℕ) × (sf_send_frame io d key payload ≡ some msg)
      × (parse_common_frame io.decrypt msg key vtp_chunk ≡ some (frame_fields d.now, payload))
unfolding sf_send_frame common_frame_size
sf_send_frame-some io d key payload h (nonce, e, n) l =
    let (ct, tag, s) = h.seals nonce (sealed_plain (frame_fields d.now) payload) n in
    let (msg, b, _, p) =
      parse_common_frame-build_common_frame io.encrypt io.decrypt key nonce n (frame_fields d.now)
        payload ct tag (common_frame_size (length payload)) vtp_chunk
        (frame_fields-FitsFields d.now) s (omega arith) (omega arith) l in
    (msg, rw e b, p)

skip-all : (n : ℕ) (xs : List ℕ) → length xs ≡ n → skip n xs ≡ []
skip-all n xs h = rw (sym (append-nil xs)) (skip-append n xs [] h)

head_frame-whole :
    (st : RxState) (msg : List ℕ)
    → rx_over st ≡ false
    → 48 ≤ length msg
    → length msg ≡ (4 + get_u32 msg) % 2 ^ 32
    → head_frame st msg ≡ some (get_u32 msg % 2 ^ 32)
unfolding head_frame
head_frame-whole st msg o l e = ground (arith, o, l, e)

process_frame-parsed :
    (io : SfIo) (c : Halves) (msg : List ℕ) (p : Fields × List ℕ)
    → rx_over c.rx.rx_state ≡ false
    → parse_common_frame io.decrypt msg c.key vtp_chunk ≡ some p
    → process_frame io c msg ≡ on_parsed io c.rx.rx_state c (some p)
unfolding process_frame
process_frame-parsed io c msg p o e = rw (o, e) refl

drain-frame :
    (io : SfIo) (c : Halves) (msg : List ℕ) (p : Fields × List ℕ) (r : Processed)
    → rx_over c.rx.rx_state ≡ false
    → parse_common_frame io.decrypt msg c.key vtp_chunk ≡ some p
    → on_parsed io c.rx.rx_state c (some p) ≡ r
    → r.cont ≡ true
    → drain io (length msg) c msg ≡ (r.halves, [], r.out)
drain-frame io c msg p r o e q t =
    let (l, g) = parse_common_frame-some io.decrypt msg c.key vtp_chunk p e in
    let m = length msg in
    let n = get_u32 msg % 2 ^ 32 in
    let size : length msg ≡ 4 + n = omega arith in
    let whole : copy (4 + n) msg ≡ msg = copy-all (4 + n) msg size in
    let got : process_frame io c (copy (4 + n) msg) ≡ r =
      ap (process_frame io c) whole ∙ process_frame-parsed io c msg p o e ∙ q in
    let left : skip ((4 + n) % 2 ^ 32) msg ≡ [] = skip-all ((4 + n) % 2 ^ 32) msg (omega arith) in
    drain-fuel io m (suc m) c msg (omega arith) (omega arith)
    ∙ drain-some io m c msg n (head_frame-whole c.rx.rx_state msg o l g)
    ∙ rw
        (
          got,
          left,
          t,
          drain-none io m r.halves [] (head_frame-nil r.halves.rx.rx_state),
          append-nil r.out,
        )
        refl

-- A frame that arrives alone at an open session with an empty buffer is processed, and leaves the
-- buffer empty.
pub sf_on_data-frame :
    (io : SfIo) (s : StreamFile) (msg : List ℕ) (p : Fields × List ℕ) (r : Processed)
    → s.closed ≡ false
    → s.rxbuf ≡ []
    → rx_over s.halves.rx.rx_state ≡ false
    → parse_common_frame io.decrypt msg s.halves.key vtp_chunk ≡ some p
    → on_parsed io s.halves.rx.rx_state s.halves (some p) ≡ r
    → r.cont ≡ true
    → sf_on_data io s msg ≡ (record s { halves = r.halves; rxbuf = [] }, r.out)
unfolding sf_on_data
sf_on_data-frame io s msg p r c b o e q t = rw (c, b, drain-frame io s.halves msg p r o e q t) refl
