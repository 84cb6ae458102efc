-- ===== src/StreamFile/ClipForm.antt =====
-- The form of the clips that `h264_testfile_verify` of src/proto/h264_testfile.c accepts.
use hwphonelink.StreamFile.Clip.{
  check_clip, h264_verify, is_in_body, expect_pps, first_or, starts_code, expect_sps, pre_idr,
  in_body, bad, Scan, nal_step, scan, ScanState,
}
use hwphonelink.Prelude.{
  some, none, true, ◌^◌, arith, ◌+◌, ◌%◌, ==_iff, ◌||◌, ◌∙◌, byte_at, ◌==◌, sym, ◌≢◌, Bool-cases,
  ◌⊎◌, if◌then◌else◌, ◌≡◌, ◌∷◌, List, ℕ, [], inr, inl, refl, suc, zero,
}

-- The types of the NAL units behind the start codes of a file.
unfoldable pub nal_types : ℕ → List ℕ → List ℕ
nal_types pause [] = []
nal_types (suc pause) (x ∷ xs) = nal_types pause xs
nal_types zero (x ∷ xs) =
    let found = nal_types 2 xs in
    let rest = nal_types zero xs in
    if starts_code (x ∷ xs) then (byte_at xs 2 % 2 ^ 5) ∷ found else rest

-- The units of the body: slices, IDR slices, SEI, SPS and PPS.
pub data IsBody : List ℕ → Type 0 where
  no_more : IsBody []
  unit_more :
      {t : ℕ} {ts : List ℕ}
      → (t ≡ 1) ⊎ ((t ≡ 5) ⊎ ((t ≡ 6) ⊎ ((t ≡ 7) ⊎ (t ≡ 8))))
      → IsBody ts
      → IsBody (t ∷ ts)

-- Behind SPS and PPS: any number of SEI units, an IDR slice, and the body.
pub data IsLedByIdr : List ℕ → Type 0 where
  sei : {ts : List ℕ} → IsLedByIdr ts → IsLedByIdr (6 ∷ ts)
  idr : {ts : List ℕ} → IsBody ts → IsLedByIdr (5 ∷ ts)

-- The units of a clip: SPS, PPS, and then led by an IDR slice.
pub record IsClip (types : List ℕ) : Type 0 where
  pub units : List ℕ
  pub led : types ≡ 7 ∷ 8 ∷ units
  pub by_idr : IsLedByIdr units

run_types : ScanState → List ℕ → ScanState
run_types s [] = s
run_types s (t ∷ ts) = run_types (nal_step s t) ts

scan-run_types :
    (i pause : ℕ) (bytes : List ℕ) (s : Scan)
    → (scan i pause bytes s).st ≡ run_types s.st (nal_types pause bytes)
unfolding scan nal_types run_types
scan-run_types i pause [] s = refl
scan-run_types i (suc pause) (x ∷ xs) s = scan-run_types (suc i) pause xs s
scan-run_types i zero (x ∷ xs) s = elim (Bool-cases (starts_code (x ∷ xs))) [
  | inl q ↦
      rw (q, scan, nal_types)
        (scan-run_types (suc i) 2 xs (record {
          first_nal = first_or i s.first_nal;
          nals = (s.nals + 1) % 2 ^ 32;
          st = nal_step s.st (byte_at xs 2 % 2 ^ 5);
        }))
  | inr q ↦ rw (q, scan, nal_types) (scan-run_types (suc i) zero xs s)
]

run_types-bad : (ts : List ℕ) → run_types bad ts ≡ bad
unfolding run_types nal_step
run_types-bad [] = refl
run_types-bad (t ∷ ts) = run_types-bad ts

bad_end : (ts : List ℕ) → run_types bad ts ≢ in_body
bad_end ts e = let z : bad ≡ in_body = sym (run_types-bad ts) ∙ e in absurd (cc)

run_types-IsBody : (ts : List ℕ) → run_types in_body ts ≡ in_body → IsBody ts
unfolding run_types nal_step
run_types-IsBody [] e = no_more
run_types-IsBody (t ∷ ts) e =
    elim (Bool-cases (t == 1 || (t == 5 || (t == 6 || (t == 7 || t == 8))))) [
      | inl q ↦ unit_more (ground (arith, q)) (run_types-IsBody ts (rw (q, nal_step) at e))
      | inr q ↦ absurd (bad_end ts (rw (q, nal_step) at e))
    ]

run_types-IsLedByIdr : (ts : List ℕ) → run_types pre_idr ts ≡ in_body → IsLedByIdr ts
unfolding run_types nal_step
run_types-IsLedByIdr [] e = absurd (cc)
run_types-IsLedByIdr (t ∷ ts) e = elim (Bool-cases (t == 5)) [
  | inl q ↦
      let z : t ≡ 5 = (==_iff t 5).0 q in rw z (idr (run_types-IsBody ts (rw (q, nal_step) at e)))
  | inr q ↦ elim (Bool-cases (t == 6)) [
    | inl r ↦
        let z : t ≡ 6 = (==_iff t 6).0 r in
        rw z (sei (run_types-IsLedByIdr ts (rw (q, r, nal_step) at e)))
    | inr r ↦ absurd (bad_end ts (rw (q, r, nal_step) at e))
  ]
]

run_types-IsClip : (ts : List ℕ) → run_types expect_sps ts ≡ in_body → IsClip ts
unfolding run_types nal_step
run_types-IsClip [] e = absurd (cc)
run_types-IsClip (t ∷ []) e = elim (Bool-cases (t == 7)) [
  | inl q ↦ absurd (let z : expect_pps ≡ in_body = rw (q, nal_step) at e in absurd (cc))
  | inr q ↦ absurd (bad_end [] (rw (q, nal_step) at e))
]
run_types-IsClip (t ∷ u ∷ ts) e = elim (Bool-cases (t == 7)) [
  | inr q ↦ absurd (bad_end (u ∷ ts) (rw (q, nal_step) at e))
  | inl q ↦ elim (Bool-cases (u == 8)) [
    | inr r ↦ absurd (bad_end ts (rw (q, r, nal_step) at e))
    | inl r ↦ record {
      units = ts;
      led = rw ((==_iff t 7).0 q, (==_iff u 8).0 r) refl;
      by_idr = run_types-IsLedByIdr ts (rw (q, r, nal_step) at e);
    }
  ]
]

is_in_body_lem : (st : ScanState) → is_in_body st ≡ true → st ≡ in_body
is_in_body_lem in_body e = refl
is_in_body_lem expect_sps e = absurd (cc)
is_in_body_lem expect_pps e = absurd (cc)
is_in_body_lem pre_idr e = absurd (cc)
is_in_body_lem bad e = absurd (cc)

-- A file that `h264_testfile_verify` accepts has the form of a clip: the types behind its start
-- codes are SPS, PPS, any number of SEI, an IDR slice, and then only slices, IDR slices, SEI, SPS
-- and PPS.
pub h264_verify-IsClip :
    (sha256 : List ℕ → List ℕ) (bytes name : List ℕ)
    → h264_verify sha256 (some bytes) name ≡ true
    → IsClip (nal_types zero bytes)
unfolding h264_verify check_clip
h264_verify-IsClip sha256 bytes name e =
    let s : Scan = record { first_nal = none; nals = 0; st = expect_sps } in
    let b : is_in_body (scan 0 zero bytes s).st ≡ true = ground (arith, e) in
    run_types-IsClip (nal_types zero bytes)
      (sym (scan-run_types 0 zero bytes s) ∙ is_in_body_lem (scan 0 zero bytes s).st b)
