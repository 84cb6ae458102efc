-- ===== src/StreamFile/Stops.antt =====
-- A frame that `sf_process_frame` of src/proto/stream_file.c refuses ends the receiving half.
use hwphonelink.StreamFile.Outcome.{refused, opened, no_bytes, chunk_stored, FrameOutcome}
use hwphonelink.StreamFile.Receive.{stored, open_received, finish, failing, rx_over, Processed}
use hwphonelink.StreamFile.State.{
  sf_rx_failed, sf_rx_done, sf_rx_data, sf_rx_wait, fail_rx, rx_expects, SfOutput, sf_fail, Halves,
  SfIo, RxState,
}
use hwphonelink.Prelude.{
  ◌==◌, Bool-cases, ◌≡◌, ℕ, List, [], inr, inl, some, none, false, true, refl,
}

-- A failed frame ends the receiving half of a session with a receive directory, and no frame changes
-- the directory.
pub record Stops (dir : List ℕ) (r : Processed) : Type 0 where
  pub same_dir : r.halves.rx.recv_dir ≡ some dir
  pub ends : r.cont ≡ false → rx_over r.halves.rx.rx_state ≡ true

pub expects : (st : RxState) (dir : List ℕ) → rx_over st ≡ false → rx_expects st (some dir) ≡ true
expects sf_rx_wait dir o = refl
expects sf_rx_data dir o = refl
expects sf_rx_done dir o = absurd (cc)
expects sf_rx_failed dir o = absurd (cc)

module _ (io : SfIo) (dir : List ℕ) where
  Stops-failing :
      (c : Halves)
      → c.rx.recv_dir ≡ some dir
      → rx_over c.rx.rx_state ≡ false
      → Stops dir (failing c)
  unfolding failing sf_fail fail_rx
  Stops-failing c d o =
      let e : rx_expects c.rx.rx_state c.rx.recv_dir ≡ true = rw d (expects c.rx.rx_state dir o) in
      record { same_dir = rw (e, fail_rx) d; ends = λ _. rw (e, fail_rx) refl }

  Stops-finish :
      (c : Halves) (out : List SfOutput) → c.rx.recv_dir ≡ some dir → Stops dir (finish io c out)
  unfolding finish
  Stops-finish c out d = elim (Bool-cases (c.rx.rx_received == c.rx.rx_total)) [
    | inl q ↦ rw (q, finish) (record { same_dir = d; ends = λ e. absurd (cc) })
    | inr q ↦ rw (q, finish) (record { same_dir = d; ends = λ e. absurd (cc) })
  ]

  Stops-open_received :
      (c : Halves) (d : List ℕ) (total : ℕ) (name : List ℕ)
      → c.rx.recv_dir ≡ some dir
      → rx_over c.rx.rx_state ≡ false
      → Stops dir (open_received io c d total name)
  unfolding open_received
  Stops-open_received c d total name e o =
      elim (Bool-cases (io.can_open (io.build_filename d name))) [
        | inl q ↦ rw (q, open_received) (record { same_dir = e; ends = λ e. absurd (cc) })
        | inr q ↦
            rw (q, open_received)
              (Stops-failing
                (record c { rx = record c.rx { rx_name = name; rx_path = none; rx_fd = false } }) e
                o)
      ]

  pub FrameOutcome-Stops :
      (c : Halves) (r : Processed)
      → c.rx.recv_dir ≡ some dir
      → rx_over c.rx.rx_state ≡ false
      → FrameOutcome io c r
      → Stops dir r
  unfolding stored
  FrameOutcome-Stops c r d o refused = Stops-failing c d o
  FrameOutcome-Stops c r d o (opened dir' total name s e b) =
      Stops-open_received c dir' total name d o
  FrameOutcome-Stops c r d o (no_bytes s) = Stops-finish c [] d
  FrameOutcome-Stops c r d o (chunk_stored chunk s l w) =
      Stops-finish (record c { rx = stored c.rx chunk }) _ d
