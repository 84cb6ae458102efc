-- ===== src/Dfile/Buffer.antt =====
-- The bounds-checked writer `W` and reader `R` of src/proto/dfile_frame.c.
use hwphonelink.Dfile.Header.{header_len}
use hwphonelink.Prelude.{
  skip, copy, ◌++◌, length, ◌+◌, ltb, ◌||◌, not, get_u64, get_u32, get_u16, Option, ◌∷◌, put_u64,
  put_u32, put_u16, if◌then◌else◌, Bool, List, ℕ, [], some, none, false, true, suc, zero,
}

-- `W`: the bytes `base[8..pos)` that are stored so far, the capacity and the flag.
pub record Writer : Type 0 where
  pub cap : ℕ
  pub pos : ℕ
  pub ok : Bool
  pub placed : List ℕ

-- `w_init`.
unfoldable pub w_init : ℕ → Writer
w_init cap = record { cap = cap; pos = header_len; ok = true; placed = [] }

-- `w_bytes`, with `w_at`: it fails for good once the bytes do not fit.
unfoldable pub w_bytes : List ℕ → Writer → Writer
w_bytes bytes w =
    if not w.ok || ltb w.cap (w.pos + length bytes)
    then record w { ok = false }
    else record w { pos = w.pos + length bytes; placed = w.placed ++ bytes }

-- `w_u16`, `w_u32`, `w_u64`.
unfoldable pub w_u16 : ℕ → Writer → Writer
w_u16 v w = w_bytes (put_u16 v) w

unfoldable pub w_u32 : ℕ → Writer → Writer
w_u32 v w = w_bytes (put_u32 v) w

unfoldable pub w_u64 : ℕ → Writer → Writer
w_u64 v w = w_bytes (put_u64 v) w

-- A loop of `w_u16` over an array.
unfoldable pub w_u16s : List ℕ → Writer → Writer
w_u16s [] w = w
w_u16s (v ∷ vs) w = w_u16s vs (w_u16 v w)

-- `R`: the bytes `base[pos..len)` that are left, and the flag.
pub record Reader : Type 0 where
  pub left : List ℕ
  pub ok : Bool

-- `r_init`.
unfoldable pub r_init : List ℕ → Reader
r_init payload = record { left = payload; ok = true }

-- `r_take`: the bytes, or `none` for NULL.
unfoldable pub r_take : ℕ → Reader → Option (List ℕ) × Reader
r_take n r =
    if not r.ok || ltb (length r.left) n
    then (none, record r { ok = false })
    else (some (copy n r.left), record r { left = skip n r.left })

abbrev pub number : (List ℕ → ℕ) → Option (List ℕ) → ℕ
number get none = 0
number get (some p) = get p

-- `r_u16`, `r_u32`, `r_u64`.
unfoldable pub r_u16 : Reader → ℕ × Reader
r_u16 r = let t = r_take 2 r in (number get_u16 t.0, t.1)

unfoldable pub r_u32 : Reader → ℕ × Reader
r_u32 r = let t = r_take 4 r in (number get_u32 t.0, t.1)

unfoldable pub r_u64 : Reader → ℕ × Reader
r_u64 r = let t = r_take 8 r in (number get_u64 t.0, t.1)

-- A loop of `n` rounds of `r_u16`.
unfoldable pub r_u16s : ℕ → Reader → List ℕ × Reader
r_u16s zero r = ([], r)
r_u16s (suc n) r = let a = r_u16 r in let rest = r_u16s n a.1 in (a.0 ∷ rest.0, rest.1)
