-- ===== src/StreamFile/Departure.antt =====
-- The calls of `sf_fill` in src/proto/stream_file.c behind the metadata frame.
use hwphonelink.StreamFile.Run.{IsSending, IsReader}
use hwphonelink.StreamFile.Sends.{
  FillResult, meta_payload, fill_sent, sf_send_frame, fill_none, fill_chunk, fill_end, fill_active,
  fill_queued, sf_fill, Draw,
}
use hwphonelink.StreamFile.State.{
  sf_tx_idle, sf_tx_done, sf_tx_failed, TxState, vtp_chunk, SfOutput, sf_tx_active, Halves, SfIo,
}
use hwphonelink.Prelude.{
  not, ◌∙◌, ◌%◌, ap, length-append, ◌+◌, refl, arith, ◌^◌, ◌∷◌, ◌<◌, length, if◌then◌else◌, ◌++◌,
  Bool, ◌≡◌, ℕ, List, [], some, true,
}

module _ (io : SfIo) (key content : List ℕ) (reader : IsReader io content)
    (small : length content < 2 ^ 63) where
  pub fill_at :
      (d : Draw) (c : Halves) (st : TxState)
      → c.tx.tx_state ≡ st
      → st ≡ sf_tx_active
      → sf_fill io d c ≡ fill_active io d c
  unfolding sf_fill
  fill_at d c st e f =
      ap
        (λ u. elim u [
          | sf_tx_active ↦ fill_active io d c
          | sf_tx_done ↦ (c, fill_end, [])
          | sf_tx_idle ↦ (c, fill_none, [])
          | sf_tx_failed ↦ (c, fill_none, [])
        ])
        (e ∙ f)

  fill_reads :
      (d : Draw) (pre : List ℕ) (c : Halves)
      → IsSending key pre c
      → sf_fill io d c ≡ fill_chunk io d c (io.pread vtp_chunk (length pre))
  unfolding fill_active
  fill_reads d pre c h =
      let behind : Bool → Bool → ℕ → Halves × FillResult × List SfOutput = λ b. λ k. λ o.
        if not b
        then fill_sent c (record c.tx { tx_meta_sent = true })
            (sf_send_frame io d c.key (meta_payload c.tx))
        else if not k
        then (c, fill_end, [])
        else fill_chunk io d c (io.pread vtp_chunk o) in
      fill_at d c sf_tx_active h.sends refl
      ∙ ap (λ b. behind b c.tx.tx_fd c.tx.tx_offset) h.meta_sent
      ∙ ap (λ b. behind true b c.tx.tx_offset) h.has_fd
      ∙ ap (λ o. behind true true o) h.offset

  fill_chunk-some :
      (d : Draw) (c : Halves) (chunk msg : List ℕ)
      → 0 < length chunk
      → sf_send_frame io d c.key chunk ≡ some msg
      → fill_chunk io d c (some chunk) ≡ (
        record c { tx = record c.tx { tx_offset = (c.tx.tx_offset + length chunk) % 2 ^ 64 } },
        fill_queued msg,
        [],
      )
  unfolding fill_chunk
  fill_chunk-some d c [] msg p f = absurd (omega arith)
  fill_chunk-some d c (x ∷ xs) msg p f = rw (f, fill_chunk) refl

  -- One call of `sf_fill` behind the metadata.
  pub fill-chunk :
      (d : Draw) (pre chunk rest : List ℕ) (c : Halves) (msg : List ℕ)
      → IsSending key pre c
      → content ≡ (pre ++ chunk) ++ rest
      → 0 < length chunk
      → io.pread vtp_chunk (length pre) ≡ some chunk
      → sf_send_frame io d key chunk ≡ some msg
      → ((sf_fill io d c).1 ≡ fill_queued msg) × IsSending key (pre ++ chunk) (sf_fill io d c).0
  fill-chunk d pre chunk rest c msg h e p r f =
      let la = length-append pre chunk in
      let lb = length-append (pre ++ chunk) rest in
      let q =
        fill_reads d pre c h
        ∙ ap (fill_chunk io d c) r
        ∙ fill_chunk-some d c chunk msg p (rw h.tx_key f) in
      rw q (
        refl,
        record {
          sends = h.sends;
          meta_sent = h.meta_sent;
          has_fd = h.has_fd;
          offset = omega (arith, h.offset, small, ap length e);
          tx_key = h.tx_key;
        },
      )

  pub fill-end : (d : Draw) (c : Halves) → IsSending key content c → (sf_fill io d c).1 ≡ fill_end
  unfolding fill_chunk
  fill-end d c h = ap (λ r. r.1) (fill_reads d content c h ∙ ap (fill_chunk io d c) reader.at_end)
