-- ===== src/Transfer/Fuel.antt =====
-- The fuel of the loops of src/proto/dfile_conn.c.
use hwphonelink.Transfer.Accounts.{handle_frame-Keeps}
use hwphonelink.Dfile.Header.{max_size, header_unpack, header_len, header, Unpacked}
use hwphonelink.Dfile.Encode.{encode_file_header, Entry}
use hwphonelink.Transfer.State.{is_shut, Step, Conn, Io}
use hwphonelink.Transfer.Engine.{handle_frame, drain_frames, drain_header}
use hwphonelink.Transfer.Sender.{send_headers}
use hwphonelink.Prelude.{
  ◌==◌, ◌-◌, ◌^◌, ◌%◌, ◌++◌, ap, length-drop, Option-cases, ltb, Bool-cases, drop, take, ◌+◌, ◌<◌,
  ◌≤◌, ◌≡◌, length, List, ℕ, inr, inl, false, refl, suc, zero,
}
use hwphonelink.Prelude.{arith}
use hwphonelink.Dfile.Header.{header, incomplete, invalid}

send_headers_fuel :
    (a b : ℕ) (io : Io) (trans_id : ℕ) (ents : List Entry) (start : ℕ)
    → length ents ≤ start + a
    → length ents ≤ start + b
    → send_headers a io trans_id ents start ≡ send_headers b io trans_id ents start
unfolding send_headers
send_headers_fuel zero zero io trans_id ents start ha hb = refl
send_headers_fuel zero (suc b) io trans_id ents start ha hb = ground arith
send_headers_fuel (suc a) zero io trans_id ents start ha hb = ground arith
send_headers_fuel (suc a) (suc b) io trans_id ents start ha hb =
    elim (Option-cases (
      encode_file_header io.old_buf (max_size + 16) trans_id (length ents % 2 ^ 16) ents start
        (length ents - start))) [
          | inl e ↦ rw (e, send_headers) refl
          | inr (fw, e) ↦ elim (Bool-cases (fw.1 == 0)) [
            | inl z ↦ rw (e, z, send_headers) refl
            | inr z ↦
                rw
                  (
                    e,
                    send_headers_fuel a b io trans_id ents (start + fw.1) (ground arith)
                        (ground arith),
                    send_headers,
                  )
                  refl
          ]
        ]

drain_header_same :
    (io : Io) (c : Conn) (p q : Conn → Step) (u : Unpacked)
    → is_shut c.state ≡ false
    → ((d : Conn) → is_shut d.state ≡ false → length d.rxbuf < length c.rxbuf → p d ≡ q d)
    → drain_header io c p u ≡ drain_header io c q u
unfolding drain_header
drain_header_same io c p q incomplete up h = refl
drain_header_same io c p q invalid up h = refl
drain_header_same io c p q (header u) up h =
    let total = header_len + u.payload_len in
    let s = handle_frame io c (take total c.rxbuf) in
    let k = handle_frame-Keeps io c (take total c.rxbuf) up in
    let d = record s.0 { rxbuf = drop total s.0.rxbuf } in
    elim (Bool-cases (ltb (length c.rxbuf) total)) [
      | inl e ↦ rw (e, drain_header) refl
      | inr e ↦ elim (Bool-cases (is_shut s.0.state)) [
        | inl e' ↦ rw (e, e', drain_header) refl
        | inr e' ↦
            let shorter : length (drop total s.0.rxbuf) < length c.rxbuf =
              rw k.buffer (ground (arith, length-drop total c.rxbuf, e)) in
            let same = h d e' shorter in
            rw (e, e', drain_header) (ap (λ (r : Step). (r.0, s.1 ++ r.1)) same)
      ]
    ]

short_incomplete : (buf : List ℕ) → length buf ≤ 0 → header_unpack buf ≡ incomplete
unfolding header_unpack
short_incomplete buf h = ground arith

-- The loop over the complete frames of the buffer ends by itself: any two amounts of fuel that are
-- at least the buffer's length give the same result, on a connection that is not closing.
pub drain_frames_fuel :
    (a b : ℕ) (io : Io) (c : Conn)
    → is_shut c.state ≡ false
    → length c.rxbuf ≤ a
    → length c.rxbuf ≤ b
    → drain_frames a io c ≡ drain_frames b io c
unfolding drain_frames
drain_frames_fuel zero zero io c up ha hb = refl
drain_frames_fuel zero (suc b) io c up ha hb = rw (short_incomplete c.rxbuf ha, drain_header) refl
drain_frames_fuel (suc a) zero io c up ha hb = rw (short_incomplete c.rxbuf hb, drain_header) refl
drain_frames_fuel (suc a) (suc b) io c up ha hb =
    drain_header_same io c (drain_frames a io) (drain_frames b io) (header_unpack c.rxbuf) up
      (λ d up' less. drain_frames_fuel a b io d up' (omega arith) (omega arith))
