-- ===== src/StreamFile/Arrival.antt =====
-- The data frames of a transfer at the receiver of src/proto/stream_file.c.
use hwphonelink.StreamFile.Run.{IsDelivered, IsReceiving, accepts}
use mathlib.Core.Path.{subst}
use hwphonelink.Vtp.Frame.{parse_common_frame, Fields}
use mathlib.Core.List.{append-nil}
use hwphonelink.StreamFile.Receive.{
  stored, rx_over, sf_on_data, on_parsed, wrote_all, finish, verdict, stored, on_chunk,
}
use hwphonelink.StreamFile.Backed.{write_file-end, file_after}
use hwphonelink.StreamFile.FrameTrip.{sf_on_data-frame}
use hwphonelink.StreamFile.State.{
  write_at, sf_done, vtp_chunk, sf_rx_done, SfOutput, sf_rx_data, StreamFile, Halves, SfIo,
}
use hwphonelink.Prelude.{
  none, sym, ltb, ◌==◌, ◌∙◌, ◌%◌, ap, length-append, ◌+◌, refl, arith, ◌^◌, ◌∷◌, ◌<◌, length, ◌++◌,
  ◌≡◌, ℕ, List, [], some, false, true,
}

module _ (io : SfIo) (key content name path : List ℕ) (small : length content < 2 ^ 63)
    (writes : (bytes : List ℕ) (at : ℕ)
      → at + length bytes < 2 ^ 63
      → io.pwrite bytes at ≡ some (length bytes)) where
  -- One data frame at the receiver.
  stores_chunk :
      (pre chunk rest : List ℕ) (s : StreamFile)
      → IsReceiving key name path (length content) pre s
      → content ≡ (pre ++ chunk) ++ rest
      → 0 < length chunk
      → on_chunk io s.halves chunk
        ≡ finish io
            (record s.halves { rx = stored s.halves.rx chunk })
            (write_at chunk s.halves.rx.rx_received ∷ [])
  unfolding on_chunk
  stores_chunk pre chunk rest s h e p =
      let la = length-append pre chunk in
      let lb = length-append (pre ++ chunk) rest in
      let e1 : (length chunk == 0) ≡ false = ground (arith, p) in
      let e2 : ltb s.halves.rx.rx_total ((s.halves.rx.rx_received + length chunk) % 2 ^ 64)
          ≡ false =
        ground (arith, h.announced, h.counted, ap length e, small) in
      let fits : s.halves.rx.rx_received + length chunk < 2 ^ 63 =
        omega (arith, h.counted, ap length e, small) in
      let e3 : wrote_all (io.pwrite chunk s.halves.rx.rx_received) (length chunk) ≡ true =
        rw (writes chunk s.halves.rx.rx_received fits) (ground arith) in
      rw (e1, on_chunk) (rw e2 (rw e3 refl))

  pub stored-IsReceiving :
      (pre chunk rest : List ℕ) (s : StreamFile)
      → IsReceiving key name path (length content) pre s
      → content ≡ (pre ++ chunk) ++ rest
      → IsReceiving key name path
          (length content)
          (pre ++ chunk)
          (record s { halves = record s.halves { rx = stored s.halves.rx chunk }; rxbuf = [] })
  unfolding stored
  stored-IsReceiving pre chunk rest s h e =
      let la = length-append pre chunk in
      let lb = length-append (pre ++ chunk) rest in
      record {
        not_closed = h.not_closed;
        no_rest = refl;
        rx_key = h.rx_key;
        receives = h.receives;
        announced = h.announced;
        counted = omega (arith, h.counted, ap length e, small);
        hashed_pre = rw h.hashed_pre refl;
        named = h.named;
        at_path = h.at_path;
        wants_sha = h.wants_sha;
      }

  verdict-accepts :
      (s : StreamFile)
      → IsReceiving key name path (length content) content s
      → verdict io s.halves.rx ≡ accepts io name path content
  unfolding verdict accepts
  verdict-accepts s h = rw (h.named, h.at_path, h.wants_sha, h.hashed_pre) refl

  finish-done :
      (c : Halves) (out : List SfOutput)
      → c.rx.rx_received ≡ c.rx.rx_total
      → finish io c out ≡ record {
        halves = record c {
          rx = record c.rx { rx_fd = false; rx_sha = none; rx_state = sf_rx_done };
        };
        out = out ++ (sf_done false (verdict io c.rx) ∷ []);
        cont = true;
      }
  unfolding finish
  finish-done c out e =
      let q : (c.rx.rx_received == c.rx.rx_total) ≡ true = ground (arith, e) in rw (q, finish) refl

  finish-more :
      (c : Halves) (out : List SfOutput)
      → c.rx.rx_received < c.rx.rx_total
      → finish io c out ≡ record { halves = c; out = out; cont = true }
  unfolding finish
  finish-more c out e =
      let q : (c.rx.rx_received == c.rx.rx_total) ≡ false = ground (arith, e) in rw (q, finish) refl

  on_parsed-data :
      (c : Halves) (p : Fields × List ℕ)
      → c.rx.rx_state ≡ sf_rx_data
      → on_parsed io c.rx.rx_state c (some p) ≡ on_chunk io c p.1
  unfolding on_parsed
  on_parsed-data c p e = ap (λ st. on_parsed io st c (some p)) e

  -- A data frame arrives at the receiver: one with more to come, and the last one.
  pub arrives_more :
      (pre chunk rest msg : List ℕ) (f : Fields) (s : StreamFile)
      → IsReceiving key name path (length content) pre s
      → content ≡ (pre ++ chunk) ++ rest
      → 0 < length chunk
      → 0 < length rest
      → parse_common_frame io.decrypt msg key vtp_chunk ≡ some (f, chunk)
      → sf_on_data io s msg ≡ (
        record s { halves = record s.halves { rx = stored s.halves.rx chunk }; rxbuf = [] },
        write_at chunk s.halves.rx.rx_received ∷ [],
      )
  unfolding stored
  arrives_more pre chunk rest msg f s h e p q parsed =
      let c = record s.halves { rx = stored s.halves.rx chunk } in
      let g = stored-IsReceiving pre chunk rest s h e in
      let lb = length-append (pre ++ chunk) rest in
      let out = write_at chunk s.halves.rx.rx_received ∷ [] in
      let o : rx_over s.halves.rx.rx_state ≡ false = ap rx_over h.receives in
      let less : c.rx.rx_received < c.rx.rx_total =
        omega (arith, g.counted, g.announced, ap length e, q) in
      sf_on_data-frame io s msg (f, chunk) (record { halves = c; out = out; cont = true })
        h.not_closed h.no_rest o (rw h.rx_key parsed)
        (on_parsed-data s.halves (f, chunk) h.receives
          ∙ stores_chunk pre chunk rest s h e p
          ∙ finish-more c out less)
        refl

  pub arrives_last :
      (pre chunk msg : List ℕ) (f : Fields) (s : StreamFile)
      → IsReceiving key name path (length content) pre s
      → content ≡ (pre ++ chunk) ++ []
      → 0 < length chunk
      → parse_common_frame io.decrypt msg key vtp_chunk ≡ some (f, chunk)
      → IsDelivered io name path content pre (sf_on_data io s msg)
  unfolding stored file_after
  arrives_last pre chunk msg f s h e p parsed =
      let e' : content ≡ pre ++ chunk = e ∙ append-nil (pre ++ chunk) in
      let c = record s.halves { rx = stored s.halves.rx chunk } in
      let g = stored-IsReceiving pre chunk [] s h e in
      let out = write_at chunk s.halves.rx.rx_received ∷ [] in
      let o : rx_over s.halves.rx.rx_state ≡ false = ap rx_over h.receives in
      let same : c.rx.rx_received ≡ c.rx.rx_total =
        g.counted ∙ sym (ap length e') ∙ sym g.announced in
      let r = finish-done c out same in
      let s' = record s {
        halves = record s.halves { rx = stored s.halves.rx chunk };
        rxbuf = [];
      } in
      let g' = subst (λ z. IsReceiving key name path (length content) z s') (sym e') g in
      let q =
        sf_on_data-frame io s msg (f, chunk)
          (record {
            halves = record c {
              rx = record c.rx { rx_fd = false; rx_sha = none; rx_state = sf_rx_done };
            };
            out = out ++ (sf_done false (verdict io c.rx) ∷ []);
            cont = true;
          })
          h.not_closed h.no_rest o (rw h.rx_key parsed)
          (on_parsed-data s.halves (f, chunk) h.receives ∙ stores_chunk pre chunk [] s h e p ∙ r)
          refl in
      rw q (record {
        is_done = refl;
        nothing_left = refl;
        written = write_file-end pre chunk s.halves.rx.rx_received h.counted ∙ sym e';
        before = out;
        reported = ap (λ v. out ++ (sf_done false v ∷ [])) (verdict-accepts s' g');
      })
