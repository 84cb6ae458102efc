-- ===== src/StreamFile/Stream.antt =====
-- The byte stream of a session of src/proto/stream_file.c, in the pieces in which the FILLP engine
-- delivers it.
use hwphonelink.StreamFile.Stops.{FrameOutcome-Stops}
use hwphonelink.StreamFile.Invariant.{sf_on_data_all, sf_on_data-Inv}
use hwphonelink.StreamFile.Chunks.{drain-append}
use hwphonelink.StreamFile.Receive.{sf_on_data}
use mathlib.Core.List.{append-nil, append_assoc, flatten}
use hwphonelink.StreamFile.State.{StreamFile, SfIo}
use hwphonelink.Prelude.{
  arith, ◌∙◌, sym, ap, Bool-cases, ◌++◌, length, ◌∷◌, ◌≡◌, ℕ, List, [], inr, inl, some, refl,
}

module _ (io : SfIo) (dir : List ℕ) where
  sf_on_data-dir :
      (s : StreamFile) (bytes : List ℕ)
      → s.halves.rx.recv_dir ≡ some dir
      → (sf_on_data io s bytes).0.halves.rx.recv_dir ≡ some dir
  sf_on_data-dir s bytes d =
      sf_on_data-Inv io (λ c past. c.rx.recv_dir ≡ some dir)
        (λ c past r i o f. (FrameOutcome-Stops io dir c r i o f).same_dir) s [] bytes d

  sf_on_data-append :
      (s : StreamFile) (xs ys : List ℕ)
      → s.halves.rx.recv_dir ≡ some dir
      → let a = sf_on_data io s xs in
        let b = sf_on_data io a.0 ys in sf_on_data io s (xs ++ ys) ≡ (b.0, a.1 ++ b.1)
  unfolding sf_on_data
  sf_on_data-append s xs ys d = elim (Bool-cases s.closed) [
    | inl e ↦ rw (e, sf_on_data) refl
    | inr e ↦
        rw
          (
            sym (append_assoc s.rxbuf xs ys),
            e,
            sf_on_data,
            drain-append io dir (length (s.rxbuf ++ xs)) s.halves (s.rxbuf ++ xs) ys d
                (omega arith),
          )
          refl
  ]

-- A session with a receive directory handles a byte stream in the same way in whatever pieces it is
-- delivered: the deliveries one by one make the same calls in the same order, and leave the same
-- session, as one delivery of all bytes.
pub sf_on_data_all-flatten :
    (io : SfIo) (s : StreamFile) (dir chunk : List ℕ) (chunks : List (List ℕ))
    → s.halves.rx.recv_dir ≡ some dir
    → sf_on_data_all io s (chunk ∷ chunks) ≡ sf_on_data io s (flatten (chunk ∷ chunks))
unfolding sf_on_data_all flatten
sf_on_data_all-flatten io s dir chunk [] d =
    rw (append-nil (sf_on_data io s chunk).1, append-nil chunk) refl
sf_on_data_all-flatten io s dir chunk (next ∷ chunks) d =
    let a = sf_on_data io s chunk in
    ap (λ r. (r.0, a.1 ++ r.1))
      (sf_on_data_all-flatten io a.0 dir next chunks (sf_on_data-dir io dir s chunk d))
    ∙ sym (sf_on_data-append io dir s chunk (flatten (next ∷ chunks)) d)
