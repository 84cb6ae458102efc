-- ===== src/Softbus/Keys.antt =====
-- `softbus_hkdf_session_keys` of src/proto/softbus_crypto.c. `softbus_hkdf_sha256`, which wraps
-- OpenSSL, is a parameter: the key material, the salt and the info string give 32 bytes, or `none` for
-- FALSE.
use hwphonelink.Prelude.{
  ◌>>=◌, arith, ltb, ◌⊎◌, ◌==◌, ◌≡◌, Option, ◌++◌, ◌∷◌, if◌then◌else◌, Bool, ℕ, List, [], inr, inl,
  some, false, true, refl,
}

-- `g_strcmp0(a, b) > 0`.
unfoldable pub str_after : List ℕ → List ℕ → Bool
str_after [] ys = false
str_after (x ∷ xs) [] = true
str_after (x ∷ xs) (y ∷ ys) = if x == y then str_after xs ys else ltb y x

-- The salt: the two ids in their order, one behind the other.
unfoldable pub sorted_salt : List ℕ → List ℕ → List ℕ
unfolding str_after
sorted_salt a b = if str_after a b then b ++ a else a ++ b

-- SOFTBUS_HKDF_INFO_CONTROL and SOFTBUS_HKDF_INFO_DATA.
abbrev pub info_key : List ℕ
info_key = b'-' ∷ b'k' ∷ b'e' ∷ b'y' ∷ []

abbrev pub info_softbus : List ℕ
info_softbus = b's' ∷ b'o' ∷ b'f' ∷ b't' ∷ b'b' ∷ b'u' ∷ b's' ∷ b'-' ∷ []

abbrev pub info_control : List ℕ
info_control = info_softbus ++ (b'c' ∷ b'o' ∷ b'n' ∷ b't' ∷ b'r' ∷ b'o' ∷ b'l' ∷ info_key)

abbrev pub info_data : List ℕ
info_data = info_softbus ++ (b'd' ∷ b'a' ∷ b't' ∷ b'a' ∷ info_key)

module _ (hkdf : List ℕ → List ℕ → List ℕ → Option (List ℕ)) where
  -- `softbus_hkdf_session_keys`, for ids and key material that are not NULL: the control key and the
  -- data key.
  unfoldable pub session_keys : List ℕ → List ℕ → List ℕ → Option (List ℕ × List ℕ)
  unfolding sorted_salt
  session_keys id_a id_b ikm = do
    control_key ← hkdf ikm (sorted_salt id_a id_b) info_control
    data_key ← hkdf ikm (sorted_salt id_a id_b) info_data
    some (control_key, data_key)

-- Of two different strings one comes after the other.
str_after-cases :
    (a b : List ℕ)
    → (a ≡ b)
      ⊎ (((str_after a b ≡ true) × (str_after b a ≡ false))
          ⊎ ((str_after a b ≡ false) × (str_after b a ≡ true)))
unfolding str_after
str_after-cases [] [] = inl refl
str_after-cases [] (y ∷ ys) = inr (inr (refl, refl))
str_after-cases (x ∷ xs) [] = inr (inl (refl, refl))
str_after-cases (x ∷ xs) (y ∷ ys) = ground (arith, str_after-cases xs ys)

sorted_salt_comm : (a b : List ℕ) → sorted_salt a b ≡ sorted_salt b a
unfolding sorted_salt
sorted_salt_comm a b = elim (str_after-cases a b) [
  | inl e ↦ rw e refl
  | inr (inl (p, q)) ↦ rw (p, q) refl
  | inr (inr (p, q)) ↦ rw (p, q) refl
]

-- The two sides of a connection derive the same keys, whichever of the two ids is their own.
pub session_keys_comm :
    (hkdf : List ℕ → List ℕ → List ℕ → Option (List ℕ)) (a b ikm : List ℕ)
    → session_keys hkdf a b ikm ≡ session_keys hkdf b a ikm
unfolding session_keys
session_keys_comm hkdf a b ikm = rw (sorted_salt_comm a b) refl
