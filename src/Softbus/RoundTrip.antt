-- ===== src/Softbus/RoundTrip.antt =====
-- src/proto/softbus_frame.c: unpacking a packed frame, whole or cut off.
use mathlib.Core.List.{append_assoc}
use hwphonelink.Softbus.Frame.{
  consumed, unpack_body, incomplete, max_payload, min_size, frame_header, payload_bytes,
  frame_unpack, frame_pack, Frame,
}
use hwphonelink.Prelude.{
  skip-past, ◌-◌, ◌∙◌, copy-append, get_u16, skip, refl, drop-append, ◌%◌, drop, get_u32-put_u32,
  length-put_u32, get_u32, length-put_u16, length-replicate, length-append, ltb, arith,
  if◌then◌else◌, sym, put_u16, replicate, copy-all, ◌∷◌, ◌^◌, ◌+◌, put_u32, ◌≡◌, ◌<◌, ◌≤◌, ◌++◌,
  length, ℕ, List, [], some,
}

-- The fields have their widths, and the payload and the extension together keep to the bound that
-- the unpacker sets.
pub record FitsFrame (f : Frame) (bytes : List ℕ) : Type 0 where
  pub session_id : length f.session_id ≡ 8
  pub seq : f.seq < 2 ^ 32
  pub type : f.type < 2 ^ 8
  pub flags : f.flags < 2 ^ 8
  pub pkt_flags : f.pkt_flags < 2 ^ 8
  pub ext_len : f.ext_len < 2 ^ 16
  pub payload : f.payload ≡ some bytes
  pub payload_len : f.payload_len ≡ length bytes
  pub bounded : f.payload_len + f.ext_len ≤ max_payload

-- What the packer stores behind the header.
unfoldable pub frame_body : Frame → List ℕ → List ℕ
frame_body f bytes =
    f.session_id
    ++ (put_u32 f.seq
        ++ ((f.type ∷ f.pkt_flags ∷ []) ++ (put_u16 f.ext_len ++ (bytes ++ replicate f.ext_len 0))))

unfoldable pub frame_total : Frame → ℕ
frame_total f = min_size + f.payload_len + f.ext_len

unfoldable pub frame_wire : Frame → List ℕ → List ℕ
frame_wire f bytes = frame_header f.flags (frame_total f) ++ frame_body f bytes

pub frame_pack_lem :
    (f : Frame) (bytes : List ℕ) (cap : ℕ)
    → FitsFrame f bytes
    → frame_total f ≤ cap
    → frame_pack f cap ≡ some (frame_wire f bytes)
unfolding frame_pack frame_wire frame_body frame_total payload_bytes
frame_pack_lem f bytes cap h hc =
    let t : f.type % 256 ≡ f.type = omega (arith, h.type) in
    let k : f.pkt_flags % 256 ≡ f.pkt_flags = omega (arith, h.pkt_flags) in
    rw
      (
        h.payload,
        copy-all 8 f.session_id h.session_id,
        copy-all f.payload_len bytes (sym h.payload_len),
        t,
        k,
      )
      (ground (arith, h.bounded))

pub length-frame_body :
    (f : Frame) (bytes : List ℕ)
    → FitsFrame f bytes
    → length (frame_body f bytes) + 8 ≡ frame_total f
unfolding frame_body frame_total
length-frame_body f bytes h =
    let b1 = bytes ++ replicate f.ext_len 0 in
    let b2 = put_u16 f.ext_len ++ b1 in
    let b3 = (f.type ∷ f.pkt_flags ∷ []) ++ b2 in
    let b4 = put_u32 f.seq ++ b3 in
    omega (
      arith,
      h.session_id,
      h.payload_len,
      length-append bytes (replicate f.ext_len 0),
      length-replicate {A = ℕ} f.ext_len 0,
      length-append (put_u16 f.ext_len) b1,
      length-put_u16 f.ext_len,
      length-append (put_u32 f.seq) b3,
      length-put_u32 f.seq,
      length-append f.session_id b4,
    )

pub length-frame_header : (flags total : ℕ) → length (frame_header flags total) ≡ 8
unfolding frame_header put_u32
length-frame_header flags total = refl

pub length-frame_wire :
    (f : Frame) (bytes : List ℕ) → FitsFrame f bytes → length (frame_wire f bytes) ≡ frame_total f
unfolding frame_wire
length-frame_wire f bytes h = omega (
  arith,
  length-append (frame_header f.flags (frame_total f)) (frame_body f bytes),
  length-frame_header f.flags (frame_total f),
  length-frame_body f bytes h,
)

-- Fewer bytes than a header are an incomplete frame.
pub frame_unpack-short :
    (p : List ℕ) (g : Frame) → length p < 8 → frame_unpack p g ≡ (incomplete, g)
unfolding frame_unpack
frame_unpack-short p g h = ground arith

-- The header is read back, and the tests before the body pass.
unpack_at :
    (flags total : ℕ) (q p : List ℕ) (g : Frame)
    → get_u32 q ≡ total
    → drop 4 q ≡ p
    → length q ≡ 4 + length p
    → min_size ≤ total
    → total ≤ max_payload + min_size
    → frame_unpack (0x53 ∷ 0x42 ∷ 1 ∷ flags ∷ q) g
      ≡ (if ltb (8 + length p) total then (incomplete, g) else unpack_body flags total p)
unfolding frame_unpack
unpack_at flags total q p g e d l h1 h2 = rw (e, d, l) (ground arith)

pub frame_unpack-header :
    (flags total : ℕ) (p : List ℕ) (g : Frame)
    → flags < 2 ^ 8
    → min_size ≤ total
    → total ≤ max_payload + min_size
    → frame_unpack (frame_header flags total ++ p) g
      ≡ (if ltb (8 + length p) total then (incomplete, g) else unpack_body flags total p)
unfolding frame_header
frame_unpack-header flags total p g hf h1 h2 =
    let m : flags % 256 ≡ flags = omega arith in
    rw m (
      unpack_at flags total (put_u32 total ++ p) p g (get_u32-put_u32 total p (omega arith))
        (drop-append 4 (put_u32 total) p (length-put_u32 total))
        (omega (arith, length-append (put_u32 total) p, length-put_u32 total)) h1 h2)

-- What the caller has after it unpacks: the payload is a pointer into the input.
abbrev pub unpacked : Frame → List ℕ → List ℕ → Frame
unpacked f bytes rest = record f { payload = some (bytes ++ rest) }

after_seq :
    (seq type pkt_flags ext_len : ℕ) (body : List ℕ)
    → seq < 2 ^ 32
    → ext_len < 2 ^ 16
    → let q = put_u32 seq ++ ((type ∷ pkt_flags ∷ []) ++ (put_u16 ext_len ++ body)) in
      (get_u32 (skip 0 q) ≡ seq)
      × (skip 4 q ≡ type ∷ pkt_flags ∷ (put_u16 ext_len ++ body))
      × (get_u16 (skip 6 q) ≡ ext_len)
      × (skip 8 q ≡ body)
unfolding skip put_u32 put_u16 get_u32 get_u16
after_seq seq type pkt_flags ext_len body h1 h2 = (omega arith, refl, omega arith, refl)

unpack_body-frame_body :
    (f : Frame) (bytes rest : List ℕ)
    → FitsFrame f bytes
    → unpack_body f.flags (frame_total f) (frame_body f bytes ++ rest)
      ≡ (consumed (frame_total f), unpacked f bytes (replicate f.ext_len 0 ++ rest))
unfolding unpack_body frame_body frame_total
unpack_body-frame_body f bytes rest h =
    let zeros = replicate f.ext_len 0 in
    let body = bytes ++ (zeros ++ rest) in
    let q = put_u32 f.seq ++ ((f.type ∷ f.pkt_flags ∷ []) ++ (put_u16 f.ext_len ++ body)) in
    let (r0, r4, r6, r8) = after_seq f.seq f.type f.pkt_flags f.ext_len body h.seq h.ext_len in
    let past : (m k : ℕ) → m ≡ length f.session_id + k → skip m (f.session_id ++ q) ≡ skip k q =
      λ m k e. skip-past m k f.session_id q e in
    rw (front f.session_id (put_u32 f.seq) (put_u16 f.ext_len) bytes zeros) (
      rw
        (
          copy-append 8 f.session_id q h.session_id,
          past 8 0 (omega (arith, h.session_id)),
          past 12 4 (omega (arith, h.session_id)),
          past 14 6 (omega (arith, h.session_id)),
          past 16 8 (omega (arith, h.session_id)),
          r0,
          r4,
          r6,
          r8,
        )
        (let n : (frame_total f - min_size) % 2 ^ 16 ≡ f.payload_len + f.ext_len =
            omega (arith, h.bounded) in
          let l : frame_total f - min_size - f.ext_len ≡ f.payload_len = omega arith in
          rw (n, l) (ground arith)))
  where
    front :
        (a b c d e : List ℕ)
        → (a ++ (b ++ (f.type ∷ f.pkt_flags ∷ (c ++ (d ++ e))))) ++ rest
          ≡ a ++ (b ++ (f.type ∷ f.pkt_flags ∷ (c ++ (d ++ (e ++ rest)))))
    front a b c d e = simp (append_assoc)

pub frame_total_bounds :
    (f : Frame)
    → f.payload_len + f.ext_len ≤ max_payload
    → (min_size ≤ frame_total f) × (frame_total f ≤ max_payload + min_size)
unfolding frame_total
frame_total_bounds f h = (omega arith, omega arith)

-- A frame that fits is read back from its bytes, whatever follows them, and its bytes are used up.
pub frame_unpack-frame_pack :
    (f : Frame) (bytes rest : List ℕ) (g : Frame)
    → FitsFrame f bytes
    → frame_unpack (frame_wire f bytes ++ rest) g
      ≡ (consumed (frame_total f), unpacked f bytes (replicate f.ext_len 0 ++ rest))
unfolding frame_wire
frame_unpack-frame_pack f bytes rest g h =
    let total = frame_total f in
    let body = frame_body f bytes in
    rw (append_assoc (frame_header f.flags total) body rest) (
      frame_unpack-header f.flags total (body ++ rest) g h.flags (frame_total_bounds f h.bounded).0
        (frame_total_bounds f h.bounded).1
      ∙ rw (unpack_body-frame_body f bytes rest h)
          (ground (arith, length-append body rest, length-frame_body f bytes h)))
