-- ===== src/Prelude/Bytes.antt =====
-- Big-endian integers in byte buffers. The codecs keep private copies of these helpers:
-- `put_u16` to `get_u64` of fillp_frame.c and dfile_frame.c, `put_u32`/`get_u32` of vtp_frame.c
-- and `put_u16be`/`put_u32be` of remote_input.c. A pointer `p` into a buffer is the list of the
-- bytes from `p` on, and a byte is a number below 256.
use Prim.Native.Nat.{ℕ, zero, suc, ◌+◌, ◌-◌, ◌*◌, ◌/◌, ◌%◌, ◌^◌, ◌<◌}
use mathlib.Core.Path.{◌≡◌, refl}
use mathlib.Core.List.{List, [], ◌∷◌, ◌++◌}
use native.Mathlib.Omega.{arith}
use hwphonelink.Prelude.Lists.{length, get_or, take, drop, take-append, take-all, drop-append}

-- `guint64` subtraction.
unfoldable pub sub64 : ℕ → ℕ → ℕ
sub64 a b = (a + 2 ^ 64 - b) % 2 ^ 64

-- The bytes that `put_u16(p, v)` stores.
unfoldable pub put_u16 : ℕ → List ℕ
put_u16 v = (v / 2 ^ 8 % 256) ∷ (v % 256) ∷ []

unfoldable pub put_u32 : ℕ → List ℕ
put_u32 v = (v / 2 ^ 24 % 256) ∷ (v / 2 ^ 16 % 256) ∷ (v / 2 ^ 8 % 256) ∷ (v % 256) ∷ []

unfoldable pub put_u64 : ℕ → List ℕ
unfolding put_u32
put_u64 v = put_u32 (v / 2 ^ 32 % 2 ^ 32) ++ put_u32 (v % 2 ^ 32)

-- `p[i]`. The callers check the length first, so the default is never read.
abbrev pub byte_at : List ℕ → ℕ → ℕ
byte_at p i = get_or p i 0

-- The shifted bytes have no bit in common, so `|` is `+`.
unfoldable pub get_u16 : List ℕ → ℕ
get_u16 p = byte_at p 0 * 2 ^ 8 + byte_at p 1

unfoldable pub get_u32 : List ℕ → ℕ
unfolding get_u16
get_u32 p = get_u16 p * 2 ^ 16 + get_u16 (drop 2 p)

unfoldable pub get_u64 : List ℕ → ℕ
unfolding get_u32
get_u64 p = get_u32 p * 2 ^ 32 + get_u32 (drop 4 p)

-- An integer that fits its width is read back, whatever follows it.
pub get_u16-put_u16 : (v : ℕ) (rest : List ℕ) → v < 2 ^ 16 → get_u16 (put_u16 v ++ rest) ≡ v
unfolding get_u16 put_u16
get_u16-put_u16 v rest h = omega arith

pub get_u32-put_u32 : (v : ℕ) (rest : List ℕ) → v < 2 ^ 32 → get_u32 (put_u32 v ++ rest) ≡ v
unfolding get_u32 put_u32
get_u32-put_u32 v rest h = omega arith

pub get_u64-put_u64 : (v : ℕ) (rest : List ℕ) → v < 2 ^ 64 → get_u64 (put_u64 v ++ rest) ≡ v
unfolding get_u64 put_u64
get_u64-put_u64 v rest h = omega arith

pub length-put_u16 : (v : ℕ) → length (put_u16 v) ≡ 2
unfolding put_u16
length-put_u16 v = refl

pub length-put_u32 : (v : ℕ) → length (put_u32 v) ≡ 4
unfolding put_u32
length-put_u32 v = refl

pub length-put_u64 : (v : ℕ) → length (put_u64 v) ≡ 8
unfolding put_u64
length-put_u64 v = refl

-- The `n` bytes that `memcpy(dst, p, n)` copies, and the pointer `p + n` past a field of `n` bytes.
-- Both are shut, so that a field of a hundred bytes stays one term.
unfoldable pub copy : ℕ → List ℕ → List ℕ
copy n p = take n p

unfoldable pub skip : ℕ → List ℕ → List ℕ
skip n p = drop n p

pub copy-append : (n : ℕ) (xs ys : List ℕ) → length xs ≡ n → copy n (xs ++ ys) ≡ xs
unfolding copy
copy-append n xs ys h = take-append n xs ys h

pub copy-all : (n : ℕ) (xs : List ℕ) → length xs ≡ n → copy n xs ≡ xs
unfolding copy
copy-all n xs h = take-all n xs h

pub skip-append : (n : ℕ) (xs ys : List ℕ) → length xs ≡ n → skip n (xs ++ ys) ≡ ys
unfolding skip
skip-append n xs ys h = drop-append n xs ys h

-- Reading past a field of known length.
pub skip-past : (m k : ℕ) (xs ys : List ℕ) → m ≡ length xs + k → skip m (xs ++ ys) ≡ skip k ys
unfolding skip
skip-past m k [] ys h = let e : m ≡ k = omega arith in rw e
skip-past zero k (x ∷ xs) ys h = absurd (omega arith)
skip-past (suc m) k (x ∷ xs) ys h = skip-past m k xs ys (omega arith)
