-- ===== src/StreamFile/Chunks.antt =====
-- `sf_on_data` of src/proto/stream_file.c over a byte stream that arrives in pieces.
use hwphonelink.StreamFile.Stops.{FrameOutcome-Stops}
use mathlib.Core.List.{append-nil, append_assoc}
use native.Mathlib.Decide.{dec_lt}
use hwphonelink.Vtp.Frame.{parse_common_frame}
use hwphonelink.StreamFile.Turns.{
  drain-fuel, length-skip, turn_takes, drain-some, head_frame-nil, drain-none, get_u32-copy,
  parse_common_frame-some, head_frame-some,
}
use hwphonelink.StreamFile.Outcome.{process_frame-FrameOutcome}
use hwphonelink.StreamFile.Receive.{on_parsed, drain, process_frame, head_frame, rx_over}
use hwphonelink.StreamFile.State.{vtp_chunk, SfOutput, Halves, SfIo, RxState}
use hwphonelink.Prelude.{
  suc, zero, if◌then◌else◌, drop-append_le, ap, sym, Option-cases, ◌∙◌, length-append, ◌∷◌, ◌<◌,
  arith, get_u16, take-append_le, get_u32, ◌^◌, ◌%◌, skip, ◌+◌, copy, ◌≤◌, length, ◌++◌, Bool-cases,
  ◌≡◌, ℕ, List, [], inr, inl, some, none, true, refl,
}

get_u32-append : (buf more : List ℕ) → 4 ≤ length buf → get_u32 (buf ++ more) ≡ get_u32 buf
unfolding get_u32 get_u16
get_u32-append [] more h = absurd (omega arith)
get_u32-append (a ∷ []) more h = absurd (omega arith)
get_u32-append (a ∷ b ∷ []) more h = absurd (omega arith)
get_u32-append (a ∷ b ∷ d ∷ []) more h = absurd (omega arith)
get_u32-append (a ∷ b ∷ d ∷ e ∷ rest) more h = refl

head_frame-over : (st : RxState) (buf : List ℕ) → rx_over st ≡ true → head_frame st buf ≡ none
unfolding head_frame
head_frame-over st buf o = ground (arith, o)

copy-append_le : (k : ℕ) (buf more : List ℕ) → k ≤ length buf → copy k (buf ++ more) ≡ copy k buf
unfolding copy
copy-append_le k buf more h = take-append_le k buf more h

head_frame-grown :
    (st : RxState) (buf more : List ℕ) (n : ℕ)
    → head_frame st buf ≡ some n
    → head_frame st (buf ++ more) ≡ some n
unfolding head_frame
head_frame-grown st buf more n h =
    let (o, e, l, b) = head_frame-some st buf n h in
    rw (o, get_u32-append buf more l) (ground (arith, length-append buf more, e, l, b))

module _ (io : SfIo) (dir : List ℕ) where
  -- A frame that does not parse under two readings fails under both.
  process_frame-none :
      (c : Halves) (xs ys : List ℕ)
      → parse_common_frame io.decrypt xs c.key vtp_chunk ≡ none
      → parse_common_frame io.decrypt ys c.key vtp_chunk ≡ none
      → process_frame io c xs ≡ process_frame io c ys
  unfolding process_frame
  process_frame-none c xs ys hx hy =
      let e = hx ∙ sym hy in
      ap
        (λ o.
          if rx_over c.rx.rx_state
          then record { halves = c; out = []; cont = true }
          else on_parsed io c.rx.rx_state c o)
        e

  -- A frame that the buffer does not hold in full, its length having wrapped, does not parse.
  parse-wrapped :
      (key buf : List ℕ) (n : ℕ)
      → n ≡ get_u32 buf % 2 ^ 32
      → 4 ≤ length buf
      → length buf < 4 + n
      → (4 + n) % 2 ^ 32 ≤ 3
      → (whole : List ℕ) → get_u32 whole ≡ get_u32 buf
      → parse_common_frame io.decrypt whole key vtp_chunk ≡ none
  parse-wrapped key buf n e l h w whole g =
      elim (Option-cases (parse_common_frame io.decrypt whole key vtp_chunk)) [
        | inl q ↦ q
        | inr (p, q) ↦
            let (a, b) = parse_common_frame-some io.decrypt whole key vtp_chunk p q in
            absurd (omega (arith, g))
      ]

  head_frame-append :
      (c : Halves) (buf more : List ℕ) (n : ℕ)
      → head_frame c.rx.rx_state buf ≡ some n
      → (head_frame c.rx.rx_state (buf ++ more) ≡ some n)
        × (process_frame io c (copy (4 + n) (buf ++ more)) ≡ process_frame io c (copy (4 + n) buf))
        × (skip ((4 + n) % 2 ^ 32) (buf ++ more) ≡ skip ((4 + n) % 2 ^ 32) buf ++ more)
  unfolding skip
  head_frame-append c buf more n h =
      let k = (4 + n) % 2 ^ 32 in
      let (o, e, l, b) = head_frame-some c.rx.rx_state buf n h in
      let u = get_u32-append buf more l in
      (
        head_frame-grown c.rx.rx_state buf more n h,
        elim (dec_lt (length buf) (4 + n)) [
          | no q ↦ rw (copy-append_le (4 + n) buf more (omega arith)) refl
          | yes q ↦
              let w : (4 + n) % 2 ^ 32 ≤ 3 = omega arith in
              let la = length-append buf more in
              process_frame-none c (copy (4 + n) (buf ++ more)) (copy (4 + n) buf)
                (parse-wrapped c.key buf n e l q w (copy (4 + n) (buf ++ more))
                  (get_u32-copy n (buf ++ more) (omega arith) ∙ u))
                (parse-wrapped c.key buf n e l q w (copy (4 + n) buf) (get_u32-copy n buf l))
        ],
        drop-append_le k buf more b,
      )

  -- What the loop does with a buffer that grew: the loop over the buffer, and then over what it left
  -- with the new bytes.
  abbrev pub continued : Halves × List ℕ × List SfOutput → List ℕ → Halves × List ℕ × List SfOutput
  continued d more =
      let e = drain io (length (d.1 ++ more)) d.0 (d.1 ++ more) in (e.0, e.1, d.2 ++ e.2)

  drain-cons :
      (c : Halves) (buf more : List ℕ) (n : ℕ)
      → 1 ≤ length buf
      → head_frame c.rx.rx_state buf ≡ some n
      → let r = process_frame io c (copy (4 + n) buf) in
        let left = skip ((4 + n) % 2 ^ 32) buf in
        let rest = drain io (length (left ++ more)) r.halves (left ++ more) in
        drain io (length (buf ++ more)) c (buf ++ more)
        ≡ (if r.cont then (rest.0, rest.1, r.out ++ rest.2) else (r.halves, left ++ more, r.out))
  drain-cons c [] more n b h = absurd (omega arith)
  drain-cons c (x ∷ xs) more n b h =
      let buf = x ∷ xs in
      let r = process_frame io c (copy (4 + n) buf) in
      let left = skip ((4 + n) % 2 ^ 32) buf in
      let (h', p, s) = head_frame-append c buf more n h in
      let q = length (xs ++ more) in
      drain-some io q c (buf ++ more) n h'
      ∙ ap
          (λ z.
            if z.cont
            then (
              (drain io q z.halves (skip ((4 + n) % 2 ^ 32) (buf ++ more))).0,
              (drain io q z.halves (skip ((4 + n) % 2 ^ 32) (buf ++ more))).1,
              z.out ++ (drain io q z.halves (skip ((4 + n) % 2 ^ 32) (buf ++ more))).2,
            )
            else (z.halves, skip ((4 + n) % 2 ^ 32) (buf ++ more), z.out))
          p
      ∙ ap
          (λ z.
            if r.cont
            then (
              (drain io q r.halves z).0,
              (drain io q r.halves z).1,
              r.out ++ (drain io q r.halves z).2,
            )
            else (r.halves, z, r.out))
          s
      ∙ elim (Bool-cases r.cont) [
        | inl e ↦
            let t = turn_takes io c buf n h e in
            let la = length-append left more in
            let lb = length-append buf more in
            let ls = length-skip ((4 + n) % 2 ^ 32) buf in
            let (_, _, l4, lk) = head_frame-some c.rx.rx_state buf n h in
            ap (λ z. if r.cont then (z.0, z.1, r.out ++ z.2) else (r.halves, left ++ more, r.out))
              (drain-fuel io q (length (left ++ more)) r.halves (left ++ more) (omega arith)
                (omega arith))
        | inr e ↦ rw e refl
      ]

  pub drain-append :
      (m : ℕ) (c : Halves) (buf more : List ℕ)
      → c.rx.recv_dir ≡ some dir
      → length buf ≤ m
      → drain io (length (buf ++ more)) c (buf ++ more) ≡ continued (drain io m c buf) more
  drain-append m c [] more d l =
      let h = drain-none io m c [] (head_frame-nil c.rx.rx_state) in rw h refl
  drain-append zero c (x ∷ xs) more d l = absurd (omega arith)
  drain-append (suc m) c (x ∷ xs) more d l =
      let buf = x ∷ xs in
      elim (Option-cases (head_frame c.rx.rx_state buf)) [
        | inl q ↦ rw (drain-none io (suc m) c buf q) refl
        | inr (k, q) ↦
            let r = process_frame io c (copy (4 + k) buf) in
            let left = skip ((4 + k) % 2 ^ 32) buf in
            let t = FrameOutcome-Stops io dir c r d (head_frame-some c.rx.rx_state buf k q).0 (
              process_frame-FrameOutcome io c (copy (4 + k) buf)
                (head_frame-some c.rx.rx_state buf k q).0) in
            elim (Bool-cases r.cont) [
              | inl e ↦
                  let rest = drain io m r.halves left in
                  let f = continued rest more in
                  let turn : drain io (suc m) c buf ≡ (rest.0, rest.1, r.out ++ rest.2) =
                    drain-some io m c buf k q ∙ rw e refl in
                  let ls = length-skip ((4 + k) % 2 ^ 32) buf in
                  let tk = turn_takes io c buf k q e in
                  let i = drain-append m r.halves left more t.same_dir (omega arith) in
                  let g = drain io (length (rest.1 ++ more)) rest.0 (rest.1 ++ more) in
                  drain-cons c buf more k (omega arith) q
                  ∙ rw e refl
                  ∙ ap (λ z. (z.0, z.1, r.out ++ z.2)) i
                  ∙ ap (λ z. (g.0, g.1, z)) (sym (append_assoc r.out rest.2 g.2))
                  ∙ ap (λ z. continued z more) (sym turn)
              | inr e ↦
                  let turn : drain io (suc m) c buf ≡ (r.halves, left, r.out) =
                    drain-some io m c buf k q ∙ rw e refl in
                  drain-cons c buf more k (omega arith) q
                  ∙ rw e refl
                  ∙ ap (λ z. (r.halves, left ++ more, z)) (sym (append-nil r.out))
                  ∙ ap (λ z. (z.0, z.1, r.out ++ z.2))
                      (sym (
                        drain-none io (length (left ++ more)) r.halves (left ++ more)
                          (head_frame-over r.halves.rx.rx_state (left ++ more) (t.ends e))))
                  ∙ ap (λ z. continued z more) (sym turn)
            ]
      ]
