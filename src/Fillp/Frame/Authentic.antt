-- ===== src/Fillp/Frame/Authentic.antt =====
-- What `fillp_cookie_verify` of src/proto/fillp_frame.c accepts.
use mathlib.Core.Path.{ap₂}
use Prim.Native.Nat.{bit_or, bit_xor}
use hwphonelink.Fillp.Frame.{drop, addr_len, cookie_len}
use hwphonelink.Prelude.{
  replicate, skip-append, [], refl, zero, ap, sym, bit_or-byte, take-all, bit_xor-byte, ◌∙◌, ◌∷◌,
  ==_iff, suc, arith, ◌++◌, skip, ◌↔◌, true, copy, ◌≤◌, take, ◌≡◌, ◌<◌, length, AllBytes, ℕ, List,
}
use hwphonelink.Fillp.Frame.Cookie.{
  cookie_body, CookieFields, cookie_fill, cookie_hmac, cookie_verify, diff_bits,
}

-- The accumulator is zero exactly if it was, and the next `n` bytes agree.
pub diff_bits-zero :
    (n : ℕ) (a b : List ℕ) (acc : ℕ)
    → AllBytes a
    → AllBytes b
    → acc < 256
    → n ≤ length a
    → n ≤ length b
    → diff_bits n a b acc ≡ 0
    → (acc ≡ 0) × (take n a ≡ take n b)
unfolding diff_bits
diff_bits-zero zero a b acc ha hb h la lb e = (e, refl)
diff_bits-zero (suc n) [] b acc ha hb h la lb e = absurd (omega arith)
diff_bits-zero (suc n) (x ∷ a) [] acc ha hb h la lb e = absurd (omega arith)
diff_bits-zero (suc n) (x ∷ a) (y ∷ b) acc ha hb h la lb e =
    let px = bit_xor-byte x y ha.0 hb.0 in
    let po = bit_or-byte acc (bit_xor x y) h px.0 in
    let (z, r) =
      diff_bits-zero n a b (bit_or acc (bit_xor x y)) ha.1 hb.1 po.0 (omega arith) (omega arith)
        e in
    ((po.1 z).0, ap₂ ◌∷◌ (px.1 (po.1 z).1) r)

pub diff_bits_self :
    (n : ℕ) (a b : List ℕ) (acc : ℕ)
    → AllBytes a
    → AllBytes b
    → acc ≡ 0
    → take n a ≡ take n b
    → diff_bits n a b acc ≡ 0
unfolding diff_bits
diff_bits_self zero a b acc ha hb h e = h
diff_bits_self (suc n) [] b acc ha hb h e = h
diff_bits_self (suc n) (x ∷ a) [] acc ha hb h e = h
diff_bits_self (suc n) (x ∷ a) (y ∷ b) acc ha hb h e =
    let px = bit_xor-byte x y ha.0 hb.0 in
    let po = bit_or-byte acc (bit_xor x y) (omega arith) px.0 in
    diff_bits_self n a b (bit_or acc (bit_xor x y)) ha.1 hb.1 (po.2 h (px.2 (cc))) (ap (drop 1) e)

module _ (hmac : List ℕ → List ℕ → List ℕ) (digest_len : (k d : List ℕ) → length (hmac k d) ≡ 32)
    (digest_bytes : (k d : List ℕ) → AllBytes (hmac k d)) where
  -- A cookie of 108 bytes is accepted exactly if its first 32 bytes are the digest of its other
  -- bytes and the local address under the key; the digest is 32 bytes.
  pub cookie_verify_iff :
      (cookie mac_key local_addr : List ℕ)
      → AllBytes cookie
      → length cookie ≡ cookie_len
      → (cookie_verify hmac cookie mac_key local_addr ≡ true)
        ↔ (copy 32 cookie ≡ cookie_hmac hmac cookie local_addr mac_key)
  unfolding cookie_verify cookie_hmac copy
  cookie_verify_iff cookie mac_key local_addr hb hl =
      let key = copy 32 mac_key in
      let input = copy 76 (skip 32 cookie) ++ copy addr_len local_addr in
      (
        (λ e.
            (diff_bits-zero 32 cookie (hmac key input) 0 hb (digest_bytes key input) (omega arith)
              (omega arith) (omega (arith, digest_len key input)) ((==_iff _ 0).0 e)).1
            ∙ take-all 32 (hmac key input) (digest_len key input)),
        (λ e. (==_iff _ 0).1 (
            diff_bits_self 32 cookie (hmac key input) 0 hb (digest_bytes key input) refl
              (e ∙ sym (take-all 32 (hmac key input) (digest_len key input))))),
      )

diff_bits_prefix :
    (n : ℕ) (d r : List ℕ) (acc : ℕ) → AllBytes d → acc ≡ 0 → diff_bits n (d ++ r) d acc ≡ 0
unfolding diff_bits
diff_bits_prefix zero d r acc hd h = h
diff_bits_prefix (suc n) [] [] acc hd h = h
diff_bits_prefix (suc n) [] (y ∷ r) acc hd h = h
diff_bits_prefix (suc n) (x ∷ d) r acc hd h =
    let px = bit_xor-byte x x hd.0 hd.0 in
    let po = bit_or-byte acc (bit_xor x x) (omega arith) px.0 in
    diff_bits_prefix n d r (bit_or acc (bit_xor x x)) hd.1 (po.2 h (px.2 refl))

module _ (hmac : List ℕ → List ℕ → List ℕ) (digest_len : (k d : List ℕ) → length (hmac k d) ≡ 32)
    (digest_bytes : (k d : List ℕ) → AllBytes (hmac k d)) where
  -- The cookie that the server fills is accepted under the same key and local address; the digest
  -- is 32 bytes.
  pub cookie_verify-cookie_fill :
      (mac_key : List ℕ) (c : CookieFields) (local_addr : List ℕ)
      → cookie_verify hmac (cookie_fill hmac mac_key c local_addr) mac_key local_addr ≡ true
  unfolding cookie_verify cookie_fill cookie_hmac
  cookie_verify-cookie_fill mac_key c local_addr =
      let key = copy 32 mac_key in
      let body = cookie_body c in
      let input = copy 76 body ++ copy addr_len local_addr in
      rw
        (
          skip-append 32 (replicate 32 0) body refl,
          skip-append 32 (hmac key input) body (digest_len key input),
        )
        ((==_iff _ 0).1 (diff_bits_prefix 32 (hmac key input) body 0 (digest_bytes key input) refl))
