-- ===== src/StreamFile/Invariant.antt =====
-- Invariants of a session of src/proto/stream_file.c and of the calls that it has made, over
-- everything that `sf_on_data` is given.
use hwphonelink.StreamFile.Turns.{drain-some, head_frame-some, drain-none}
use mathlib.Core.List.{append_assoc, append-nil}
use hwphonelink.StreamFile.Outcome.{process_frame-FrameOutcome, FrameOutcome}
use hwphonelink.StreamFile.Receive.{
  process_frame, head_frame, drain, rx_over, sf_on_data, Processed,
}
use hwphonelink.StreamFile.State.{SfOutput, Halves, StreamFile, SfIo}
use hwphonelink.Prelude.{
  ◌^◌, ◌%◌, skip, ◌+◌, copy, sym, Bool-cases, Option-cases, length, ◌≡◌, ◌++◌, ◌∷◌, ℕ, List, [],
  inr, inl, false, suc, zero,
}

-- The deliveries one after the other, with the outputs of all.
unfoldable pub sf_on_data_all : SfIo → StreamFile → List (List ℕ) → StreamFile × List SfOutput
sf_on_data_all io s [] = (s, [])
sf_on_data_all io s (chunk ∷ chunks) =
    let first = sf_on_data io s chunk in
    let rest = sf_on_data_all io first.0 chunks in (rest.0, first.1 ++ rest.1)

-- A relation between the halves and the calls so far that each frame keeps.
module _ (io : SfIo) (Inv : Halves → List SfOutput → Type 0)
    (step : (c : Halves) (past : List SfOutput) (r : Processed)
      → Inv c past
      → rx_over c.rx.rx_state ≡ false
      → FrameOutcome io c r
      → Inv r.halves (past ++ r.out)) where
  pub drain-Inv :
      (m : ℕ) (c : Halves) (past : List SfOutput) (buf : List ℕ)
      → Inv c past
      → Inv (drain io m c buf).0 (past ++ (drain io m c buf).2)
  unfolding drain
  drain-Inv zero c past buf i = rw (append-nil past) i
  drain-Inv (suc m) c past buf i = elim (Option-cases (head_frame c.rx.rx_state buf)) [
    | inl q ↦ rw (drain-none io (suc m) c buf q, append-nil past) i
    | inr (k, q) ↦
        let r = process_frame io c (copy (4 + k) buf) in
        let o = (head_frame-some c.rx.rx_state buf k q).0 in
        let t = step c past r i o (process_frame-FrameOutcome io c (copy (4 + k) buf) o) in
        let left = skip ((4 + k) % 2 ^ 32) buf in
        elim (Bool-cases r.cont) [
          | inl e ↦
              rw
                (
                  drain-some io m c buf k q,
                  e,
                  sym (append_assoc past r.out (drain io m r.halves left).2),
                )
                (drain-Inv m r.halves (past ++ r.out) left t)
          | inr e ↦ rw (drain-some io m c buf k q, e) t
        ]
  ]

  pub sf_on_data-Inv :
      (s : StreamFile) (past : List SfOutput) (bytes : List ℕ)
      → Inv s.halves past
      → Inv (sf_on_data io s bytes).0.halves (past ++ (sf_on_data io s bytes).1)
  unfolding sf_on_data
  sf_on_data-Inv s past bytes i =
      let j = drain-Inv (length (s.rxbuf ++ bytes)) s.halves past (s.rxbuf ++ bytes) i in
      elim (Bool-cases s.closed) [
        | inl e ↦ rw (e, sf_on_data, append-nil past) i
        | inr e ↦ rw (e, sf_on_data) j
      ]

  pub sf_on_data_all-Inv :
      (s : StreamFile) (past : List SfOutput) (chunks : List (List ℕ))
      → Inv s.halves past
      → Inv (sf_on_data_all io s chunks).0.halves (past ++ (sf_on_data_all io s chunks).1)
  unfolding sf_on_data_all
  sf_on_data_all-Inv s past [] i = rw (append-nil past) i
  sf_on_data_all-Inv s past (chunk ∷ chunks) i =
      let a = sf_on_data io s chunk in
      rw (sym (append_assoc past a.1 (sf_on_data_all io a.0 chunks).1))
        (sf_on_data_all-Inv a.0 (past ++ a.1) chunks (sf_on_data-Inv s past chunk i))
