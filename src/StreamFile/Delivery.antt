-- ===== src/StreamFile/Delivery.antt =====
-- A file of src/proto/stream_file.c from the calls of `sf_fill` on one side to the received file on
-- the other.
use hwphonelink.StreamFile.Arrival.{arrives_more, stored-IsReceiving, arrives_last}
use hwphonelink.StreamFile.Departure.{fill-end, fill-chunk}
use hwphonelink.StreamFile.Run.{
  fill_all-end, fill_all-sent, fill_all, IsReceiving, IsSending, IsDelivered, IsReader,
}
use mathlib.Core.Path.{subst}
use mathlib.Core.List.{append-nil, append_assoc}
use hwphonelink.StreamFile.Invariant.{sf_on_data_all}
use hwphonelink.StreamFile.Receive.{sf_on_data, stored}
use hwphonelink.StreamFile.Backed.{write_file-end, file_after}
use hwphonelink.StreamFile.FrameTrip.{sf_send_frame-some, HasNonce, IsCipher}
use hwphonelink.StreamFile.Sends.{frame_fields, sf_fill, Draw}
use hwphonelink.StreamFile.State.{write_at, StreamFile, Halves, SfIo}
use hwphonelink.Prelude.{
  ◌⊎◌, inr, inl, sym, ◌∙◌, ap, length-append, ◌+◌, refl, arith, ◌^◌, ◌∷◌, ◌≤◌, ◌<◌, length, ◌++◌,
  ◌≡◌, ℕ, List, [], some, true, suc, zero,
}

module _ (io : SfIo) (key content name path : List ℕ) (cipher : IsCipher io key)
    (reader : IsReader io content) (small : length content < 2 ^ 63)
    (writes : (bytes : List ℕ) (at : ℕ)
      → at + length bytes < 2 ^ 63
      → io.pwrite bytes at ≡ some (length bytes)) where
  nil_or_cons : (xs : List ℕ) → (xs ≡ []) ⊎ (0 < length xs)
  nil_or_cons [] = inl refl
  nil_or_cons (x ∷ xs) = inr (omega arith)

  module _ (draws : ℕ → Draw) (random : (n : ℕ) → HasNonce (draws n)) where
    frames_one :
        (s : StreamFile) (msg : List ℕ) → sf_on_data_all io s (msg ∷ []) ≡ sf_on_data io s msg
    unfolding sf_on_data_all
    frames_one s msg =
        ap (λ out. ((sf_on_data io s msg).0, out)) (append-nil (sf_on_data io s msg).1)

    -- A frame that only writes, and then the frames that complete the file.
    frames_more :
        (pre chunk msg : List ℕ) (frames : List (List ℕ)) (s t : StreamFile) (at : ℕ)
        → sf_on_data io s msg ≡ (t, write_at chunk at ∷ [])
        → at ≡ length pre
        → IsDelivered io name path content (pre ++ chunk) (sf_on_data_all io t frames)
        → IsDelivered io name path content pre (sf_on_data_all io s (msg ∷ frames))
    unfolding sf_on_data_all file_after
    frames_more pre chunk msg frames s t at e a d =
        let eq : sf_on_data_all io s (msg ∷ frames)
            ≡ ((sf_on_data_all io t frames).0, write_at chunk at ∷ (sf_on_data_all io t frames).1) =
          ap (λ r. ((sf_on_data_all io r.0 frames).0, r.1 ++ (sf_on_data_all io r.0 frames).1)) e in
        rw eq (record {
          is_done = d.is_done;
          nothing_left = d.nothing_left;
          written =
              ap (λ z. file_after z (sf_on_data_all io t frames).1) (write_file-end pre chunk at a)
              ∙ d.written;
          before = write_at chunk at ∷ d.before;
          reported = ap (λ out. write_at chunk at ∷ out) d.reported;
        })

    -- From here on, the rest of the file.
    pub deliver_rest :
        (n : ℕ) (pre post : List ℕ) (c : Halves) (s : StreamFile)
        → content ≡ pre ++ post
        → 0 < length post
        → length post ≤ n
        → IsSending key pre c
        → IsReceiving key name path (length content) pre s
        → let f = fill_all io draws (suc n) c in
          (f.ended ≡ true) × IsDelivered io name path content pre (sf_on_data_all io s f.frames)
    deliver_rest zero pre post c s e p l hc hs = absurd (omega arith)
    deliver_rest (suc n) pre post c s e p l hc hs =
        let (chunk, rest, split, pos, cap, rd) = reader.more pre post e p in
        let e' : content ≡ (pre ++ chunk) ++ rest =
          e ∙ ap (λ z. pre ++ z) split ∙ sym (append_assoc pre chunk rest) in
        let (msg, sent, parsed) =
          sf_send_frame-some io (draws (suc n)) key chunk cipher (random (suc n)) cap in
        let (q, hc') =
          fill-chunk io key content reader small (draws (suc n)) pre chunk rest c msg hc e' pos rd
            sent in
        let eq = fill_all-sent io draws (suc n) c msg q in
        let c' = (sf_fill io (draws (suc n)) c).0 in
        let ls = ap length split in
        let la = length-append chunk rest in
        elim (nil_or_cons rest) [
          | inl z ↦
              let e0 = subst (λ y. content ≡ (pre ++ chunk) ++ y) z e' in
              let t : content ≡ pre ++ chunk = e0 ∙ append-nil (pre ++ chunk) in
              let fs = frame_fields (draws (suc n)).now in
              let g = fill_all-end io draws n c' (
                fill-end io key content reader small (draws n) c'
                  (subst (λ y. IsSending key y c') (sym t) hc')) in
              rw (eq, g)
                (
                  refl,
                  rw (frames_one s msg) (
                      arrives_last io key content name path small writes pre chunk msg fs s hs e0
                        pos parsed),
                )
          | inr z ↦
              let i =
                deliver_rest n (pre ++ chunk) rest c'
                  (record s {
                    halves = record s.halves { rx = stored s.halves.rx chunk };
                    rxbuf = [];
                  })
                  e' z (omega arith) hc'
                  (stored-IsReceiving io key content name path small writes pre chunk rest s hs
                    e') in
              rw eq (
                i.0,
                frames_more pre chunk msg (fill_all io draws (suc n) c').frames s
                    (record s {
                      halves = record s.halves { rx = stored s.halves.rx chunk };
                      rxbuf = [];
                    })
                    s.halves.rx.rx_received
                    (arrives_more io key content name path small writes pre chunk rest msg
                      (frame_fields (draws (suc n)).now) s hs e' pos z parsed)
                    hs.counted i.1,
              )
        ]
