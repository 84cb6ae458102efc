-- ===== src/Softbus/Hex.antt =====
-- `softbus_to_hex` and `softbus_from_hex` of src/proto/softbus_crypto.c.
use hwphonelink.Softbus.Auth.{auth_done, fail_step, Auth, auth_fail}
use hwphonelink.Prelude.{
  Bool-cases, Option-cases, ◌≢◌, inr, inl, ap, ◌>>=◌, ◌==◌, ◌-◌, ◌*◌, arith, ◌%◌, ◌&&◌, ◌^◌, ◌+◌,
  ◌≤◌, ◌≡◌, not, leb, ◌/◌, ltb, AllBytes, length, ◌<◌, Option, ◌∷◌, if◌then◌else◌, List, ℕ, [],
  some, none, false, refl,
}

abbrev pub hex_digit : ℕ → ℕ
hex_digit n = if ltb n 10 then b'0' + n else b'a' + (n - 10)

-- `softbus_to_hex`.
unfoldable pub to_hex : List ℕ → List ℕ
to_hex [] = []
to_hex (x ∷ xs) = hex_digit (x / 2 ^ 4) ∷ hex_digit (x % 2 ^ 4) ∷ to_hex xs

unfoldable pub nibble : ℕ → Option ℕ
nibble ch =
    if leb b'0' ch && leb ch b'9'
    then some (ch - b'0')
    else if leb b'a' ch && leb ch b'f'
    then some (ch - b'a' + 10)
    else if leb b'A' ch && leb ch b'F'
    then some (ch - b'A' + 10)
    else none

-- The loop over the pairs of digits, for a string of even length.
unfoldable pub hex_bytes : List ℕ → Option (List ℕ)
unfolding nibble
hex_bytes [] = some []
hex_bytes (h ∷ []) = none
hex_bytes (h ∷ l ∷ rest) = do
  hi ← nibble h
  lo ← nibble l
  bytes ← hex_bytes rest
  some ((hi * 2 ^ 4 + lo) ∷ bytes)

-- `softbus_from_hex`: the bytes that it stores, or `none` for FALSE.
unfoldable pub from_hex : List ℕ → ℕ → Option (List ℕ)
unfolding hex_bytes
from_hex hex out_cap =
    if not (length hex % 2 == 0)
    then none
    else if ltb out_cap (length hex / 2)
    then none
    else hex_bytes hex

nibble-hex_digit : (n : ℕ) → n < 16 → nibble (hex_digit n) ≡ some n
unfolding nibble
nibble-hex_digit n h = ground (arith, h)

length-to_hex : (xs : List ℕ) → length (to_hex xs) ≡ 2 * length xs
unfolding to_hex
length-to_hex [] = refl
length-to_hex (x ∷ xs) = omega (arith, length-to_hex xs)

hex_bytes-to_hex : (xs : List ℕ) → AllBytes xs → hex_bytes (to_hex xs) ≡ some xs
unfolding hex_bytes to_hex
hex_bytes-to_hex [] h = refl
hex_bytes-to_hex (x ∷ xs) h =
    let z : x / 2 ^ 4 * 2 ^ 4 + x % 2 ^ 4 ≡ x = omega arith in
    rw
      (
        nibble-hex_digit (x / 2 ^ 4) (omega (arith, h.0)),
        nibble-hex_digit (x % 2 ^ 4) (omega arith),
        hex_bytes-to_hex xs h.1,
      )
      (ap (λ b. some (b ∷ xs)) z)

-- Bytes that fit the buffer are read back from their digits.
pub from_hex-to_hex :
    (xs : List ℕ) (out_cap : ℕ)
    → AllBytes xs
    → length xs ≤ out_cap
    → from_hex (to_hex xs) out_cap ≡ some xs
unfolding from_hex
from_hex-to_hex xs out_cap h l =
    let e1 : not (length (to_hex xs) % 2 == 0) ≡ false = ground (arith, length-to_hex xs) in
    let e2 : ltb out_cap (length (to_hex xs) / 2) ≡ false = ground (arith, length-to_hex xs, l) in
    rw (e1, e2) (hex_bytes-to_hex xs h)

nibble-bound : (ch n : ℕ) → nibble ch ≡ some n → n < 16
unfolding nibble
nibble-bound ch n e = ground (arith, e)

pub none_ne : (bytes : List ℕ) → none ≢ some bytes
none_ne bytes e = absurd (cc)

bytes_eq : (xs bytes : List ℕ) → some xs ≡ some bytes → xs ≡ bytes
bytes_eq xs bytes e = cc

hex_bytes-AllBytes : (hex bytes : List ℕ) → hex_bytes hex ≡ some bytes → AllBytes bytes
unfolding hex_bytes
hex_bytes-AllBytes [] bytes e = let q = bytes_eq [] bytes e in rw⁻¹ q tt
hex_bytes-AllBytes (h ∷ []) bytes e = absurd (cc)
hex_bytes-AllBytes (h ∷ l ∷ rest) bytes e = elim (Option-cases (nibble h)) [
  | inl q ↦ absurd (none_ne bytes (rw q at e))
  | inr (x, q) ↦ elim (Option-cases (nibble l)) [
    | inl r ↦ absurd (none_ne bytes (rw (q, r) at e))
    | inr (y, r) ↦ elim (Option-cases (hex_bytes rest)) [
      | inl t ↦ absurd (none_ne bytes (rw (q, r, t) at e))
      | inr (bs, t) ↦
          let hx = nibble-bound h x q in
          let hy = nibble-bound l y r in
          let z = bytes_eq ((x * 2 ^ 4 + y) ∷ bs) bytes (rw (q, r, t) at e) in
          rw⁻¹ z (omega arith, hex_bytes-AllBytes rest bs t)
    ]
  ]
]

fails_not_done : (a : Auth) → (fail_step a).0.auth_state ≢ auth_done
unfolding auth_fail
fails_not_done a e = absurd (cc)

pub from_hex-AllBytes :
    (hex bytes : List ℕ) (cap : ℕ) → from_hex hex cap ≡ some bytes → AllBytes bytes
unfolding from_hex
from_hex-AllBytes hex bytes cap e = elim (Bool-cases (not (length hex % 2 == 0))) [
  | inl q ↦ absurd (none_ne bytes (rw q at e))
  | inr q ↦ elim (Bool-cases (ltb cap (length hex / 2))) [
    | inl r ↦ absurd (none_ne bytes (rw (q, r) at e))
    | inr r ↦ hex_bytes-AllBytes hex bytes (rw (q, r) at e)
  ]
]
