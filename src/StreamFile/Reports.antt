-- ===== src/StreamFile/Reports.antt =====
-- The reports of the receiving half of a session of src/proto/stream_file.c.
use hwphonelink.StreamFile.Stops.{FrameOutcome-Stops, expects}
use hwphonelink.StreamFile.Outcome.{refused, chunk_stored, no_bytes, opened, FrameOutcome}
use hwphonelink.StreamFile.Invariant.{sf_on_data_all-Inv, sf_on_data_all}
use hwphonelink.StreamFile.Receive.{
  verdict, stored, open_received, finish, failing, rx_over, Processed,
}
use hwphonelink.StreamFile.State.{
  set_fill_func, set_stream_cbs, write_at, sf_rx_failed, rx_expects, is_active, truncate_file,
  sf_rx_done, fail_rx, rx_meta, sf_rx_data, Halves, sf_fail, Tx, sf_done, sf_rx_wait, StreamFile,
  fail_tx, SfOutput, SfIo, RxState,
}
use hwphonelink.Prelude.{
  sym, ap, ◌∙◌, ◌==◌, Bool-cases, arith, ◌+◌, ◌++◌, ◌∷◌, ◌≡◌, ℕ, List, [], inr, inl, some, none,
  false, true, refl, suc,
}

-- The calls of `on_done` for the receiving half.
unfoldable pub reports : List SfOutput → ℕ
reports [] = 0
reports (sf_done false ok ∷ out) = suc (reports out)
reports (sf_done true ok ∷ out) = reports out
reports (rx_meta name size ∷ out) = reports out
reports (truncate_file path ∷ out) = reports out
reports (write_at bytes at ∷ out) = reports out
reports (set_stream_cbs ∷ out) = reports out
reports (set_fill_func ∷ out) = reports out

pub reports-append : (xs ys : List SfOutput) → reports (xs ++ ys) ≡ reports xs + reports ys
unfolding reports
reports-append [] ys = omega arith
reports-append (sf_done false ok ∷ xs) ys = omega (arith, reports-append xs ys)
reports-append (sf_done true ok ∷ xs) ys = reports-append xs ys
reports-append (rx_meta name size ∷ xs) ys = reports-append xs ys
reports-append (truncate_file path ∷ xs) ys = reports-append xs ys
reports-append (write_at bytes at ∷ xs) ys = reports-append xs ys
reports-append (set_stream_cbs ∷ xs) ys = reports-append xs ys
reports-append (set_fill_func ∷ xs) ys = reports-append xs ys

-- One report if the receiving half is over, and none before.
abbrev pub due : RxState → ℕ
due sf_rx_wait = 0
due sf_rx_data = 0
due sf_rx_done = 1
due sf_rx_failed = 1

due-open : (st : RxState) → rx_over st ≡ false → due st ≡ 0
due-open sf_rx_wait o = refl
due-open sf_rx_data o = refl
due-open sf_rx_done o = absurd (cc)
due-open sf_rx_failed o = absurd (cc)

abbrev IsDue : Processed → Type 0
IsDue r = reports r.out ≡ due r.halves.rx.rx_state

module _ (io : SfIo) (dir : List ℕ) where
  reports-fail_tx : (t : Tx) → reports (fail_tx t).1 ≡ 0
  unfolding reports fail_tx
  reports-fail_tx t = elim (Bool-cases (is_active t.tx_state)) [
    | inl q ↦ rw (q, fail_tx) refl
    | inr q ↦ rw (q, fail_tx) refl
  ]

  failing-IsDue :
      (c : Halves) → c.rx.recv_dir ≡ some dir → rx_over c.rx.rx_state ≡ false → IsDue (failing c)
  unfolding failing sf_fail fail_rx reports
  failing-IsDue c d o =
      let e : rx_expects c.rx.rx_state c.rx.recv_dir ≡ true = rw d (expects c.rx.rx_state dir o) in
      rw (e, fail_rx) (ap suc (reports-fail_tx c.tx))

  finish-IsDue :
      (c : Halves) (out : List SfOutput)
      → rx_over c.rx.rx_state ≡ false
      → reports out ≡ 0
      → IsDue (finish io c out)
  unfolding finish reports
  finish-IsDue c out o n = elim (Bool-cases (c.rx.rx_received == c.rx.rx_total)) [
    | inl q ↦ rw (q, finish) (reports-append out (sf_done false (verdict io c.rx) ∷ []) ∙ rw n refl)
    | inr q ↦ rw (q, finish) (n ∙ sym (due-open c.rx.rx_state o))
  ]

  open_received-IsDue :
      (c : Halves) (d : List ℕ) (total : ℕ) (name : List ℕ)
      → c.rx.recv_dir ≡ some dir
      → rx_over c.rx.rx_state ≡ false
      → IsDue (open_received io c d total name)
  unfolding open_received reports
  open_received-IsDue c d total name e o =
      elim (Bool-cases (io.can_open (io.build_filename d name))) [
        | inl q ↦ rw (q, open_received) refl
        | inr q ↦
            rw (q, open_received)
              (failing-IsDue
                (record c { rx = record c.rx { rx_name = name; rx_path = none; rx_fd = false } }) e
                o)
      ]

  FrameOutcome-IsDue :
      (c : Halves) (r : Processed)
      → c.rx.recv_dir ≡ some dir
      → rx_over c.rx.rx_state ≡ false
      → FrameOutcome io c r
      → IsDue r
  unfolding stored reports
  FrameOutcome-IsDue c r d o refused = failing-IsDue c d o
  FrameOutcome-IsDue c r d o (opened dir' total name s e b) =
      open_received-IsDue c dir' total name d o
  FrameOutcome-IsDue c r d o (no_bytes s) = finish-IsDue c [] o refl
  FrameOutcome-IsDue c r d o (chunk_stored chunk s l w) =
      finish-IsDue (record c { rx = stored c.rx chunk }) _ o refl

-- A session with a receive directory that waits for a file, whatever bytes it then receives in
-- whatever pieces: it has reported the end of the receiving half once if that half is done or
-- failed, and not at all before.
pub sf_on_data_all-reports :
    (io : SfIo) (dir : List ℕ) (s : StreamFile) (chunks : List (List ℕ))
    → s.halves.rx.recv_dir ≡ some dir
    → s.halves.rx.rx_state ≡ sf_rx_wait
    → let r = sf_on_data_all io s chunks in reports r.1 ≡ due r.0.halves.rx.rx_state
unfolding reports
sf_on_data_all-reports io dir s chunks d w =
    (sf_on_data_all-Inv io
      (λ c past. (c.rx.recv_dir ≡ some dir) × (reports past ≡ due c.rx.rx_state))
      (λ c past r i o f. (
        (FrameOutcome-Stops io dir c r i.0 o f).same_dir,
        reports-append past r.out
            ∙ omega (arith, i.1, due-open c.rx.rx_state o, FrameOutcome-IsDue io dir c r i.0 o f),
      ))
      s [] chunks (d, rw w refl)).1
