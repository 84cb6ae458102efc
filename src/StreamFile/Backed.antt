-- ===== src/StreamFile/Backed.antt =====
-- The file that a session of src/proto/stream_file.c writes, and what the session says of it.
use hwphonelink.StreamFile.Invariant.{sf_on_data_all-Inv, sf_on_data_all}
use hwphonelink.StreamFile.Outcome.{refused, chunk_stored, no_bytes, opened, FrameOutcome}
use mathlib.Core.List.{append-nil}
use hwphonelink.StreamFile.State.{
  StreamFile, sf_rx_failed, sf_rx_wait, rx_expects, RxState, set_fill_func, set_stream_cbs,
  sf_rx_done, sf_done, write_at, rx_meta, sf_rx_data, truncate_file, Halves, fail_rx, Rx, SfOutput,
  sf_fail, SfIo,
}
use hwphonelink.StreamFile.Receive.{
  open_received, wrote_all, Processed, stored, verdict, rx_over, finish, failing,
}
use hwphonelink.Prelude.{
  take-all, length-append, arith, ==_iff, ◌∙◌, ◌%◌, sym, ◌⊎◌, ◌^◌, ◌==◌, Option, ap, ◌<◌,
  Bool-cases, inr, inl, none, true, suc, zero, ◌+◌, drop, ◌≤◌, ◌-◌, replicate, ◌≡◌, ◌∷◌, ◌++◌,
  length, take, ℕ, List, [], some, false, refl,
}

-- A file of these bytes after `pwrite` of others at an offset; a gap is filled with zeros.
unfoldable pub write_file : List ℕ → List ℕ → ℕ → List ℕ
write_file file bytes at =
    take at file ++ (replicate (at - length file) 0 ++ (bytes ++ drop (at + length bytes) file))

-- The received file after the calls, where it was `file` before.
unfoldable pub file_after : List ℕ → List SfOutput → List ℕ
unfolding write_file
file_after file [] = file
file_after file (truncate_file path ∷ out) = file_after [] out
file_after file (write_at bytes at ∷ out) = file_after (write_file file bytes at) out
file_after file (rx_meta name size ∷ out) = file_after file out
file_after file (sf_done sends ok ∷ out) = file_after file out
file_after file (set_stream_cbs ∷ out) = file_after file out
file_after file (set_fill_func ∷ out) = file_after file out

-- While the session receives, its checksum is over the bytes of the file, its counter is their
-- number, and they are not more than announced. Once it is done, they are as many as announced.
pub record IsBacked (file : List ℕ) (r : Rx) : Type 0 where
  pub receiving :
      r.rx_state ≡ sf_rx_data
      → (r.rx_sha ≡ some file) × (r.rx_received ≡ length file) × (length file ≤ r.rx_total)
  pub complete : r.rx_state ≡ sf_rx_done → length file ≡ r.rx_total

pub file_after-append :
    (file : List ℕ) (xs ys : List SfOutput)
    → file_after file (xs ++ ys) ≡ file_after (file_after file xs) ys
unfolding file_after
file_after-append file [] ys = refl
file_after-append file (rx_meta name size ∷ xs) ys = file_after-append file xs ys
file_after-append file (sf_done sends ok ∷ xs) ys = file_after-append file xs ys
file_after-append file (truncate_file path ∷ xs) ys = file_after-append [] xs ys
file_after-append file (write_at bytes at ∷ xs) ys = file_after-append _ xs ys
file_after-append file (set_stream_cbs ∷ xs) ys = file_after-append file xs ys
file_after-append file (set_fill_func ∷ xs) ys = file_after-append file xs ys

drop_past : (n : ℕ) (xs : List ℕ) → length xs ≤ n → drop n xs ≡ []
drop_past zero [] h = refl
drop_past zero (x ∷ xs) h = absurd (omega arith)
drop_past (suc n) [] h = refl
drop_past (suc n) (x ∷ xs) h = drop_past n xs (omega arith)

-- A write at the end of the file appends.
pub write_file-end :
    (file bytes : List ℕ) (at : ℕ) → at ≡ length file → write_file file bytes at ≡ file ++ bytes
unfolding write_file
write_file-end file bytes at e =
    let z : at - length file ≡ 0 = omega arith in
    rw
      (
        take-all at file (sym e),
        z,
        drop_past (at + length bytes) file (omega arith),
        append-nil bytes,
      )
      refl

wrote_all_lem : (o : Option ℕ) (n : ℕ) → wrote_all o n ≡ true → o ≡ some n
wrote_all_lem none n h = absurd (cc)
wrote_all_lem (some w) n h = ap some ((==_iff w n).0 h)

expects_or_waits :
    (st : RxState) (dir : Option (List ℕ))
    → rx_over st ≡ false
    → (rx_expects st dir ≡ true) ⊎ ((rx_expects st dir ≡ false) × (st ≡ sf_rx_wait))
expects_or_waits sf_rx_wait none o = inr (refl, refl)
expects_or_waits sf_rx_wait (some dir) o = inl refl
expects_or_waits sf_rx_data dir o = inl refl
expects_or_waits sf_rx_done dir o = absurd (cc)
expects_or_waits sf_rx_failed dir o = absurd (cc)

-- The receiving half after a failure is neither receiving nor done.
IsBacked-failing :
    (c : Halves) (file : List ℕ)
    → rx_over c.rx.rx_state ≡ false
    → IsBacked file (failing c).halves.rx
unfolding failing sf_fail fail_rx
IsBacked-failing c file o = elim (expects_or_waits c.rx.rx_state c.rx.recv_dir o) [
  | inl q ↦ rw (q, fail_rx) (record { receiving = λ e. absurd (cc); complete = λ e. absurd (cc) })
  | inr (q, w) ↦
      rw (q, fail_rx) (record { receiving = λ e. absurd (cc); complete = λ e. absurd (cc) })
]

module _ (io : SfIo) where
  IsBacked-finish :
      (c : Halves) (file : List ℕ) (out : List SfOutput)
      → c.rx.rx_state ≡ sf_rx_data
      → IsBacked (file_after file out) c.rx
      → IsBacked (file_after file (finish io c out).out) (finish io c out).halves.rx
  unfolding finish file_after
  IsBacked-finish c file out s b =
      let (h, n, l) = b.receiving s in
      elim (Bool-cases (c.rx.rx_received == c.rx.rx_total)) [
        | inl q ↦
            rw (q, finish, file_after-append file out (sf_done false (verdict io c.rx) ∷ []))
              (record {
                receiving = λ e. absurd (cc);
                complete = λ e. sym n ∙ (==_iff c.rx.rx_received c.rx.rx_total).0 q;
              })
        | inr q ↦ rw (q, finish) b
      ]

  -- `pwrite` does not write past the largest offset.
  module _
      (limit : (bytes : List ℕ) (at w : ℕ)
        → io.pwrite bytes at ≡ some w
        → at + length bytes < 2 ^ 63) where
    IsBacked-stored :
        (c : Halves) (file chunk : List ℕ)
        → c.rx.rx_state ≡ sf_rx_data
        → IsBacked file c.rx
        → (c.rx.rx_received + length chunk) % 2 ^ 64 ≤ c.rx.rx_total
        → wrote_all (io.pwrite chunk c.rx.rx_received) (length chunk) ≡ true
        → IsBacked (write_file file chunk c.rx.rx_received) (stored c.rx chunk)
    unfolding stored
    IsBacked-stored c file chunk s b l w =
        let (h, n, t) = b.receiving s in
        let g =
          limit chunk c.rx.rx_received (length chunk)
            (wrote_all_lem (io.pwrite chunk c.rx.rx_received) (length chunk) w) in
        let la = length-append file chunk in
        rw (write_file-end file chunk c.rx.rx_received n) (record {
          receiving = λ _. (rw h refl, omega (arith, la, n, g), omega (arith, la, n, g, l));
          complete = λ e. absurd (cc);
        })

    step :
        (c : Halves) (past : List SfOutput) (r : Processed)
        → IsBacked (file_after [] past) c.rx
        → rx_over c.rx.rx_state ≡ false
        → FrameOutcome io c r
        → IsBacked (file_after [] (past ++ r.out)) r.halves.rx
    unfolding file_after open_received stored
    step c past r b o refused = IsBacked-failing c _ o
    step c past r b o (opened dir total name s e q) =
        rw (file_after-append [] past (open_received io c dir total name).out)
          (elim (Bool-cases (io.can_open (io.build_filename dir name))) [
            | inl q ↦
                rw (q, open_received)
                  (record {
                    receiving = λ _. (refl, refl, omega arith);
                    complete = λ e. absurd (cc);
                  })
            | inr q ↦
                rw (q, open_received)
                  (IsBacked-failing
                    (record c {
                      rx = record c.rx { rx_name = name; rx_path = none; rx_fd = false };
                    })
                    _ o)
          ])
    step c past r b o (no_bytes s) =
        rw (file_after-append [] past (finish io c []).out)
          (IsBacked-finish c (file_after [] past) [] s b)
    step c past r b o (chunk_stored chunk s l w) =
        let c' = record c { rx = stored c.rx chunk } in
        let out = write_at chunk c.rx.rx_received ∷ [] in
        rw (file_after-append [] past (finish io c' out).out) (
          IsBacked-finish c' (file_after [] past) out s
            (IsBacked-stored c (file_after [] past) chunk s b l w))

-- A session that waits for a file, whatever bytes it then receives in whatever pieces: while it
-- receives, its checksum is over the bytes that the file on disk has, its counter is their number,
-- and they are not more than announced; and when it is done, the file on disk has as many bytes as
-- announced. `pwrite` fails where the offset behind the bytes would not fit 63 bits.
pub sf_on_data_all-IsBacked :
    (io : SfIo) (s : StreamFile) (chunks : List (List ℕ))
    → ((bytes : List ℕ) (at w : ℕ) → io.pwrite bytes at ≡ some w → at + length bytes < 2 ^ 63)
    → s.halves.rx.rx_state ≡ sf_rx_wait
    → let r = sf_on_data_all io s chunks in IsBacked (file_after [] r.1) r.0.halves.rx
unfolding file_after
sf_on_data_all-IsBacked io s chunks limit w =
    sf_on_data_all-Inv io (λ c past. IsBacked (file_after [] past) c.rx) (step io limit) s [] chunks
      (record { receiving = λ e. absurd (cc); complete = λ e. absurd (cc) })
