-- ===== src/StreamFile/Turns.antt =====
-- The turns of the loop of `sf_on_data` in src/proto/stream_file.c.
use hwphonelink.StreamFile.Receive.{drain, rx_over, failing, head_frame, process_frame, on_parsed}
use hwphonelink.StreamFile.State.{
  vtp_chunk, sf_rx_failed, sf_rx_done, sf_rx_data, sf_rx_wait, Halves, RxState, SfIo,
}
use hwphonelink.Vtp.Frame.{Fields, parse_common_frame}
use hwphonelink.Prelude.{
  Bool-cases, sym, length-drop, ◌++◌, ◌∷◌, ◌∙◌, ◌-◌, if◌then◌else◌, get_u16, skip, copy, [], suc,
  zero, arith, Option-cases, ◌^◌, ◌+◌, ◌%◌, length, get_u32, ◌≤◌, ◌≡◌, Option, ℕ, List, inr, inl,
  some, none, false, true, refl,
}

pub parse_common_frame-some :
    (decrypt : List ℕ → List ℕ → List ℕ → List ℕ → Option (List ℕ)) (msg key : List ℕ) (cap : ℕ)
    (p : Fields × List ℕ)
    → parse_common_frame decrypt msg key cap ≡ some p
    → (48 ≤ length msg) × (length msg ≡ (4 + get_u32 msg) % 2 ^ 32)
unfolding parse_common_frame
parse_common_frame-some decrypt msg key cap p e = ground (arith)

pub head_frame-some :
    (st : RxState) (buf : List ℕ) (n : ℕ)
    → head_frame st buf ≡ some n
    → (rx_over st ≡ false)
      × (n ≡ get_u32 buf % 2 ^ 32)
      × (4 ≤ length buf)
      × ((4 + n) % 2 ^ 32 ≤ length buf)
unfolding head_frame
head_frame-some st buf n e = ground arith

pub get_u32-copy :
    (k : ℕ) (buf : List ℕ) → 4 ≤ length buf → get_u32 (copy (4 + k) buf) ≡ get_u32 buf
unfolding copy get_u32 get_u16
get_u32-copy k [] h = absurd (omega arith)
get_u32-copy k (a ∷ []) h = absurd (omega arith)
get_u32-copy k (a ∷ b ∷ []) h = absurd (omega arith)
get_u32-copy k (a ∷ b ∷ d ∷ []) h = absurd (omega arith)
get_u32-copy k (a ∷ b ∷ d ∷ e ∷ rest) h =
    let q : 4 + k ≡ suc (suc (suc (suc k))) = omega arith in rw q refl

pub length-skip : (k : ℕ) (buf : List ℕ) → length (skip k buf) ≡ length buf - k
unfolding skip
length-skip k buf = length-drop k buf

pub head_frame-nil : (st : RxState) → head_frame st [] ≡ none
unfolding head_frame
head_frame-nil st = ground arith

module _ (io : SfIo) where
  -- Without a parsed frame the result is FALSE.
  pub on_parsed-none : (st : RxState) (c : Halves) → on_parsed io st c none ≡ failing c
  unfolding on_parsed
  on_parsed-none sf_rx_wait c = refl
  on_parsed-none sf_rx_data c = refl
  on_parsed-none sf_rx_done c = refl
  on_parsed-none sf_rx_failed c = refl

  pub process_frame-cont :
      (c : Halves) (msg : List ℕ)
      → rx_over c.rx.rx_state ≡ false
      → (process_frame io c msg).cont ≡ true
      → (48 ≤ length msg) × (length msg ≡ (4 + get_u32 msg) % 2 ^ 32)
  unfolding process_frame failing
  process_frame-cont c msg o e =
      elim (Option-cases (parse_common_frame io.decrypt msg c.key vtp_chunk)) [
        | inl q ↦ ground (arith, q, o, e)
        | inr q ↦ parse_common_frame-some io.decrypt msg c.key vtp_chunk q.0 q.1
      ]

  -- A frame that is processed with TRUE takes bytes off the buffer.
  pub turn_takes :
      (c : Halves) (buf : List ℕ) (n : ℕ)
      → head_frame c.rx.rx_state buf ≡ some n
      → (process_frame io c (copy (4 + n) buf)).cont ≡ true
      → 1 ≤ (4 + n) % 2 ^ 32
  turn_takes c buf n h e =
      let (o, a, b, d) = head_frame-some c.rx.rx_state buf n h in
      let (x, y) = process_frame-cont c (copy (4 + n) buf) o e in
      omega (arith, get_u32-copy n buf b)

  pub drain-none :
      (m : ℕ) (c : Halves) (buf : List ℕ)
      → head_frame c.rx.rx_state buf ≡ none
      → drain io m c buf ≡ (c, buf, [])
  unfolding drain
  drain-none zero c buf h = refl
  drain-none (suc m) c buf h = rw (h, drain) refl

  pub drain-some :
      (m : ℕ) (c : Halves) (buf : List ℕ) (n : ℕ)
      → head_frame c.rx.rx_state buf ≡ some n
      → let r = process_frame io c (copy (4 + n) buf) in
        let left = skip ((4 + n) % 2 ^ 32) buf in
        let rest = drain io m r.halves left in
        drain io (suc m) c buf
        ≡ (if r.cont then (rest.0, rest.1, r.out ++ rest.2) else (r.halves, left, r.out))
  unfolding drain
  drain-some m c buf n h = rw (h, drain) refl

  -- The fuel is enough when it is at least the length of the buffer.
  pub drain-fuel :
      (m n : ℕ) (c : Halves) (buf : List ℕ)
      → length buf ≤ m
      → length buf ≤ n
      → drain io m c buf ≡ drain io n c buf
  drain-fuel m n c [] hm hn =
      let h = head_frame-nil c.rx.rx_state in drain-none m c [] h ∙ sym (drain-none n c [] h)
  drain-fuel zero n c (x ∷ xs) hm hn = absurd (omega arith)
  drain-fuel (suc m) zero c (x ∷ xs) hm hn = absurd (omega arith)
  drain-fuel (suc m) (suc n) c (x ∷ xs) hm hn =
      let buf = x ∷ xs in
      elim (Option-cases (head_frame c.rx.rx_state buf)) [
        | inl q ↦ drain-none (suc m) c buf q ∙ sym (drain-none (suc n) c buf q)
        | inr (k, q) ↦
            let r = process_frame io c (copy (4 + k) buf) in
            let left = skip ((4 + k) % 2 ^ 32) buf in
            elim (Bool-cases r.cont) [
              | inl e ↦
                  let l = length-skip ((4 + k) % 2 ^ 32) buf in
                  let t = turn_takes c buf k q e in
                  let i = drain-fuel m n r.halves left (omega arith) (omega arith) in
                  drain-some m c buf k q ∙ rw (e, i) (sym (drain-some n c buf k q ∙ rw e refl))
              | inr e ↦ drain-some m c buf k q ∙ rw e (sym (drain-some n c buf k q ∙ rw e refl))
            ]
      ]
