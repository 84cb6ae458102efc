-- ===== src/Prelude/Bits.antt =====
-- `^` and `|` on bytes, from tables of all pairs.
use Prim.Native.Nat.{ℕ, zero, suc, ◌<◌, bit_or, bit_xor}
use mathlib.Core.Path.{◌≡◌, refl}
use mathlib.Core.Bool.{Bool, true, ◌&&◌}
use native.Mathlib.Omega.{arith}
use hwphonelink.Prelude.Tests.{ltb, ◌==◌, if◌then◌else◌}

-- The test holds of every number below the bound.
scan : (ℕ → Bool) → ℕ → Bool
scan test zero = true
scan test (suc bound) = if scan test bound then test bound else 0 == 1

scan-at : (test : ℕ → Bool) (bound k : ℕ) → k < bound → scan test bound ≡ true → test k ≡ true
unfolding scan
scan-at test zero k below passed = absurd (omega arith)
scan-at test (suc bound) k below passed = ground (arith, scan-at test bound k)

-- The two tests give the same answer, and the result is a byte.
xor_row : ℕ → ℕ → Bool
xor_row x y =
    (if bit_xor x y == 0 then x == y else (if x == y then 0 == 1 else 0 == 0))
    && ltb (bit_xor x y) 256

or_row : ℕ → ℕ → Bool
or_row x y =
    (if bit_or x y == 0
      then x == 0 && y == 0
      else (if x == 0 then (if y == 0 then 0 == 1 else 0 == 0) else 0 == 0))
    && ltb (bit_or x y) 256

byte_pairs : (ℕ → ℕ → Bool) → Bool
byte_pairs row = scan (λ a. scan (row a) 256) 256

byte_pairs-at :
    (row : ℕ → ℕ → Bool) (a b : ℕ) → byte_pairs row ≡ true → a < 256 → b < 256 → row a b ≡ true
unfolding byte_pairs
byte_pairs-at row a b passed ha hb =
    scan-at (row a) 256 b hb (scan-at (λ c. scan (row c) 256) 256 a ha passed)

xor_at : (x y : ℕ) → x < 256 → y < 256 → xor_row x y ≡ true
unfolding byte_pairs scan xor_row
xor_at x y hx hy = byte_pairs-at xor_row x y refl hx hy

or_at : (x y : ℕ) → x < 256 → y < 256 → or_row x y ≡ true
unfolding byte_pairs scan or_row
or_at x y hx hy = byte_pairs-at or_row x y refl hx hy

pub bit_xor-byte :
    (x y : ℕ)
    → x < 256
    → y < 256
    → (bit_xor x y < 256) × (bit_xor x y ≡ 0 → x ≡ y) × (x ≡ y → bit_xor x y ≡ 0)
unfolding xor_row
bit_xor-byte x y hx hy = ground (arith, xor_at x y hx hy)

pub bit_or-byte :
    (x y : ℕ)
    → x < 256
    → y < 256
    → (bit_or x y < 256) × (bit_or x y ≡ 0 → (x ≡ 0) × (y ≡ 0)) × (x ≡ 0 → y ≡ 0 → bit_or x y ≡ 0)
unfolding or_row
bit_or-byte x y hx hy = ground (arith, or_at x y hx hy)
