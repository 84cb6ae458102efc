-- ===== src/Vtp/RoundTrip.antt =====
-- src/proto/vtp_frame.c: parsing a frame that was built.
use hwphonelink.Vtp.Frame.{
  parse_opened, parse_common_frame, common_frame_size, seal_message, build_with, build_common_frame,
  tag_len, nonce_len, parse_plain, sealed_plain, Fields,
}
use hwphonelink.Prelude.{
  copy-append, length-append, get_u32-put_u32, ◌∙◌, skip-past, skip-append, length-put_u32,
  copy-all, ◌-◌, ◌/◌, copy, ◌*◌, Option, ◌%◌, ◌++◌, refl, arith, ◌+◌, ◌≤◌, ◌≡◌, skip, length,
  get_u16, ℕ, get_u32, List, ◌^◌, put_u32, ◌<◌, some,
}

pub record FitsFields (f : Fields) : Type 0 where
  pub mode : f.mode < 2 ^ 4
  pub stream_type : f.stream_type < 2 ^ 16
  pub scene : f.scene < 2 ^ 16
  pub timestamp_ns : f.timestamp_ns < 2 ^ 32

pub length-sealed_plain :
    (f : Fields) (payload : List ℕ) → length (sealed_plain f payload) ≡ 16 + length payload
unfolding sealed_plain put_u32
length-sealed_plain f payload = omega arith

-- Four numbers at the front of the plaintext.
four_numbers :
    (a b c d : ℕ) (rest : List ℕ)
    → a < 2 ^ 32
    → b < 2 ^ 32
    → c < 2 ^ 32
    → d < 2 ^ 32
    → let q = put_u32 a ++ (put_u32 b ++ (put_u32 c ++ (put_u32 d ++ rest))) in
      (get_u32 q ≡ a)
      × (get_u32 (skip 4 q) ≡ b)
      × (get_u32 (skip 8 q) ≡ c)
      × (get_u32 (skip 12 q) ≡ d)
      × (skip 16 q ≡ rest)
unfolding skip put_u32 get_u32 get_u16
four_numbers a b c d rest ha hb hc hd = (omega arith, omega arith, omega arith, omega arith, refl)

pub parse_plain-sealed_plain :
    (f : Fields) (payload : List ℕ) (out_cap : ℕ)
    → FitsFields f
    → length payload < 2 ^ 32
    → length payload ≤ out_cap
    → parse_plain (sealed_plain f payload) (16 + length payload) out_cap ≡ some (f, payload)
unfolding parse_plain sealed_plain
parse_plain-sealed_plain f payload out_cap h hl hc =
    let flags = f.mode % 2 ^ 4 * 2 ^ 24 + f.stream_type % 2 ^ 16 in
    let n = length payload in
    let hi = f.scene % 2 ^ 16 * 2 ^ 16 in
    let (q0, q4, q8, q12, q16) =
      four_numbers flags f.timestamp_ns (n % 2 ^ 32) hi payload (omega arith) h.timestamp_ns
        (omega arith) (omega arith) in
    let e0 : flags / 2 ^ 28 % 2 ≡ 0 = omega (arith, h.mode) in
    let e1 : flags / 2 ^ 24 % 2 ^ 4 ≡ f.mode = omega (arith, h.mode) in
    let e2 : flags % 2 ^ 16 ≡ f.stream_type = omega (arith, h.stream_type) in
    let e3 : hi / 2 ^ 16 % 2 ^ 16 ≡ f.scene = omega (arith, h.scene) in
    let e4 : n % 2 ^ 32 ≡ n = omega arith in
    rw (q0, q4, q8, q12, q16, e0, e1, e2, e3, e4, copy-all n payload refl) (ground arith)

-- The parts of a message, read at the places where the parser looks for them.
message_parts :
    (n : ℕ) (nonce ct tag : List ℕ)
    → length nonce ≡ 12
    → length tag ≡ 16
    → n ≡ 28 + length ct
    → n < 2 ^ 32
    → let q = put_u32 n ++ (nonce ++ (ct ++ tag)) in
      (get_u32 q ≡ n)
      × (length q ≡ 4 + n)
      × (copy 12 (skip 4 q) ≡ nonce)
      × (copy (length ct) (skip 16 q) ≡ ct)
      × (copy 16 (skip (4 + n - 16) q) ≡ tag)
message_parts n nonce ct tag hn ht e h =
    let l4 = length-put_u32 n in
    let r = ct ++ tag in
    let m = 4 + n - 16 in
    let s4 = skip-append 4 (put_u32 n) (nonce ++ r) l4 in
    let s16 =
      skip-past 16 12 (put_u32 n) (nonce ++ r) (omega (arith, l4)) ∙ skip-append 12 nonce r hn in
    let sm =
      skip-past m (12 + length ct) (put_u32 n) (nonce ++ r) (omega (arith, l4))
      ∙ skip-past (12 + length ct) (length ct) nonce r (omega arith)
      ∙ skip-append (length ct) ct tag refl in
    (
      get_u32-put_u32 n (nonce ++ r) h,
      omega (
        arith,
        length-append (put_u32 n) (nonce ++ r),
        length-append nonce r,
        length-append ct tag,
        l4,
      ),
      rw s4 (copy-append 12 nonce r hn),
      rw s16 (copy-append (length ct) ct tag refl),
      rw sm (copy-all 16 tag ht),
    )

-- The tests on the lengths pass for a message of the length that it says.
parse_at :
    (decrypt : List ℕ → List ℕ → List ℕ → List ℕ → Option (List ℕ)) (msg key : List ℕ)
    (n out_cap : ℕ)
    → get_u32 msg ≡ n
    → length msg ≡ 4 + n
    → 44 ≤ n
    → 4 + n < 2 ^ 32
    → parse_common_frame decrypt msg key out_cap
      ≡ parse_opened
          (decrypt key
            (copy 12 (skip 4 msg))
            (copy (n - 12 - 16) (skip 16 msg))
            (copy 16 (skip (4 + n - 16) msg)))
          (n - 12 - 16)
          out_cap
unfolding parse_common_frame
parse_at decrypt msg key n out_cap e l h1 h2 = rw (e, l) (ground arith)

module _ (encrypt : List ℕ → List ℕ → List ℕ → Option (List ℕ × List ℕ))
    (decrypt : List ℕ → List ℕ → List ℕ → List ℕ → Option (List ℕ)) (key nonce : List ℕ)
    (nonce_12 : length nonce ≡ nonce_len) where
  -- The sealed box: the ciphertext is as long as the plaintext, the tag has 16 bytes, and under the
  -- same key and nonce they open to the plaintext.
  pub record Seals (plain ct tag : List ℕ) : Type 0 where
    pub sealed : encrypt key nonce plain ≡ some (ct, tag)
    pub ct_len : length ct ≡ length plain
    pub tag_16 : length tag ≡ tag_len
    pub opened : decrypt key nonce ct tag ≡ some plain

  -- A frame that is built from fields of their widths parses back to them and to the payload, under
  -- the same key, if the nonce has 12 bytes, the cipher opens what it seals, the ciphertext is as
  -- long as the plaintext, the tag has 16 bytes, the frame's size is below 2 ^ 32 and fits the
  -- builder's buffer, and the payload fits the parser's.
  pub parse_common_frame-build_common_frame :
      (f : Fields) (payload ct tag : List ℕ) (cap out_cap : ℕ)
      → FitsFields f
      → Seals (sealed_plain f payload) ct tag
      → common_frame_size (length payload) < 2 ^ 32
      → common_frame_size (length payload) ≤ cap
      → length payload ≤ out_cap
      → (msg : List ℕ) × (build_common_frame encrypt (some nonce) cap key f payload ≡ some msg)
        × (length msg ≡ common_frame_size (length payload))
        × (parse_common_frame decrypt msg key out_cap ≡ some (f, payload))
  unfolding build_common_frame build_with seal_message common_frame_size parse_common_frame
      parse_opened
  parse_common_frame-build_common_frame f payload ct tag cap out_cap h s hl hc ho =
      let len = length payload in
      let lp = length-sealed_plain f payload in
      let n = 44 + len in
      let lc : length ct ≡ 16 + len = s.ct_len ∙ lp in
      let (p0, p1, p2, p3, p4) =
        message_parts n nonce ct tag nonce_12 s.tag_16 (omega arith) (omega arith) in
      let msg = put_u32 n ++ (nonce ++ (ct ++ tag)) in
      let m : (32 + len + 16 - 4) % 2 ^ 32 ≡ n = omega arith in
      let c : n - 12 - 16 ≡ length ct = omega arith in
      (
        msg,
        rw (s.sealed, m) (ground arith),
        omega (arith, p1),
        rw
            (
              parse_at decrypt msg key n out_cap p0 p1 (omega arith) (omega arith),
              p2,
              c,
              p3,
              p4,
              s.opened,
              lc,
            )
            (parse_plain-sealed_plain f payload out_cap h (omega arith) ho),
      )
