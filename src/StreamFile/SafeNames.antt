-- ===== src/StreamFile/SafeNames.antt =====
-- The names under which a session of src/proto/stream_file.c creates files.
use hwphonelink.StreamFile.Stops.{FrameOutcome-Stops}
use hwphonelink.StreamFile.Outcome.{refused, chunk_stored, no_bytes, opened, FrameOutcome}
use hwphonelink.StreamFile.Invariant.{sf_on_data_all-Inv, sf_on_data_all}
use hwphonelink.StreamFile.Receive.{stored, rx_over, Processed, open_received, finish, failing}
use hwphonelink.StreamFile.Names.{has_dots, bad_name, has_byte}
use hwphonelink.StreamFile.State.{
  is_active, rx_expects, fail_tx, write_at, fail_rx, sf_done, sf_fail, rx_meta, StreamFile, Halves,
  set_stream_cbs, set_fill_func, truncate_file, SfOutput, SfIo,
}
use hwphonelink.Prelude.{
  ◌==◌, Bool-cases, ◌++◌, inr, inl, none, refl, arith, ◌∷◌, ◌≢◌, ◌≡◌, get_elem?, ℕ, List, [], some,
  false, suc, zero,
}

-- A name of one entry of a directory: no separator in it, and neither "." nor "..".
pub record IsEntry (name : List ℕ) : Type 0 where
  pub no_separator : (i : ℕ) → get_elem? name i ≢ some b'/'
  pub not_here : name ≢ b'.' ∷ []
  pub not_parent : name ≢ b'.' ∷ b'.' ∷ []

-- Every file that is created stands in the directory, under the name of one entry.
abbrev pub AllInside : SfIo → List ℕ → List SfOutput → Type 0
AllInside io dir [] = Unit
AllInside io dir (truncate_file path ∷ out) =
    ((name : List ℕ) × IsEntry name × (path ≡ io.build_filename dir name)) × AllInside io dir out
AllInside io dir (_ ∷ out) = AllInside io dir out

has_byte-get_elem? :
    (ch : ℕ) (name : List ℕ) (i : ℕ) → has_byte ch name ≡ false → get_elem? name i ≢ some ch
unfolding has_byte
has_byte-get_elem? ch [] i h = λ e. absurd (cc)
has_byte-get_elem? ch (x ∷ xs) zero h = λ e. absurd (ground (arith, h, e))
has_byte-get_elem? ch (x ∷ xs) (suc i) h = has_byte-get_elem? ch xs i (ground (arith, h))

bad_name-IsEntry : (name : List ℕ) → bad_name name ≡ false → IsEntry name
unfolding bad_name has_byte has_dots
bad_name-IsEntry name h = record {
  no_separator = λ i. has_byte-get_elem? b'/' name i (ground (arith, h));
  not_here = λ e. absurd (ground (arith, rw e at h));
  not_parent = λ e. absurd (ground (arith, rw e at h));
}

module _ (io : SfIo) (dir : List ℕ) where
  AllInside-append :
      (xs ys : List SfOutput)
      → AllInside io dir xs
      → AllInside io dir ys
      → AllInside io dir (xs ++ ys)
  AllInside-append [] ys p q = q
  AllInside-append (rx_meta name size ∷ xs) ys p q = AllInside-append xs ys p q
  AllInside-append (sf_done sends ok ∷ xs) ys p q = AllInside-append xs ys p q
  AllInside-append (truncate_file path ∷ xs) ys p q = (p.0, AllInside-append xs ys p.1 q)
  AllInside-append (write_at bytes at ∷ xs) ys p q = AllInside-append xs ys p q
  AllInside-append (set_stream_cbs ∷ xs) ys p q = AllInside-append xs ys p q
  AllInside-append (set_fill_func ∷ xs) ys p q = AllInside-append xs ys p q

  AllInside-failing : (c : Halves) → AllInside io dir (failing c).out
  unfolding failing sf_fail fail_rx fail_tx
  AllInside-failing c =
      AllInside-append (fail_rx c.rx).1 (fail_tx c.tx).1
        (elim (Bool-cases (rx_expects c.rx.rx_state c.rx.recv_dir)) [
          | inl q ↦ rw (q, fail_rx) tt
          | inr q ↦ rw (q, fail_rx) tt
        ])
        (elim (Bool-cases (is_active c.tx.tx_state)) [
          | inl q ↦ rw (q, fail_tx) tt
          | inr q ↦ rw (q, fail_tx) tt
        ])

  AllInside-finish :
      (c : Halves) (out : List SfOutput)
      → AllInside io dir out
      → AllInside io dir (finish io c out).out
  unfolding finish
  AllInside-finish c out h = elim (Bool-cases (c.rx.rx_received == c.rx.rx_total)) [
    | inl q ↦ rw (q, finish) (AllInside-append out _ h tt)
    | inr q ↦ rw (q, finish) h
  ]

  AllInside-open_received :
      (c : Halves) (total : ℕ) (name : List ℕ)
      → bad_name name ≡ false
      → AllInside io dir (open_received io c dir total name).out
  unfolding open_received
  AllInside-open_received c total name e =
      elim (Bool-cases (io.can_open (io.build_filename dir name))) [
        | inl q ↦ rw (q, open_received) ((name, bad_name-IsEntry name e, refl), tt)
        | inr q ↦
            rw (q, open_received)
              (AllInside-failing
                (record c { rx = record c.rx { rx_name = name; rx_path = none; rx_fd = false } }))
      ]

  inside_step :
      (c : Halves) (past : List SfOutput) (r : Processed)
      → (c.rx.recv_dir ≡ some dir) × AllInside io dir past
      → rx_over c.rx.rx_state ≡ false
      → FrameOutcome io c r
      → (r.halves.rx.recv_dir ≡ some dir) × AllInside io dir (past ++ r.out)
  inside_step c past r i o f = (
    (FrameOutcome-Stops io dir c r i.0 o f).same_dir,
    AllInside-append past r.out i.1 (inside r f),
  )
    where
      inside : (r : Processed) → FrameOutcome io c r → AllInside io dir r.out
      inside r refused = AllInside-failing c
      inside r (opened dir' total name s e b) =
          let q : dir' ≡ dir = cc in rw q (AllInside-open_received c total name b)
      inside r (no_bytes s) = AllInside-finish c [] tt
      inside r (chunk_stored chunk s l w) =
          AllInside-finish (record c { rx = stored c.rx chunk }) _ tt

-- Whatever bytes the peer sends, in whatever pieces, a session with a receive directory creates
-- files only in that directory: the name in the path has no '/' in it and is neither "." nor "..".
pub sf_on_data_all-AllInside :
    (io : SfIo) (dir : List ℕ) (s : StreamFile) (chunks : List (List ℕ))
    → s.halves.rx.recv_dir ≡ some dir
    → AllInside io dir (sf_on_data_all io s chunks).1
sf_on_data_all-AllInside io dir s chunks d =
    (sf_on_data_all-Inv io (λ c past. (c.rx.recv_dir ≡ some dir) × AllInside io dir past)
      (inside_step io dir) s [] chunks (d, tt)).1
