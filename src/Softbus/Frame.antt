-- ===== src/Softbus/Frame.antt =====
-- src/proto/softbus_frame.h and softbus_frame.c: packing and unpacking one frame.
use hwphonelink.Prelude.{
  ◌||◌, ◌==◌, ◌^◌, not, ◌-◌, put_u16, length, get_u16, put_u32, byte_at, ltb, ◌++◌, drop, skip,
  if◌then◌else◌, ◌%◌, get_u32, ◌+◌, copy, ◌∷◌, replicate, Option, List, ℕ, [], some, none,
}

abbrev pub header_size : ℕ
header_size = 8

abbrev pub min_size : ℕ
min_size = 24

abbrev pub max_payload : ℕ
max_payload = 65507

-- `SoftbusFrame`. `payload` is the pointer: `none` for NULL, else the bytes from it on.
pub record Frame : Type 0 where
  pub session_id : List ℕ
  pub seq : ℕ
  pub type : ℕ
  pub flags : ℕ
  pub pkt_flags : ℕ
  pub ext_len : ℕ
  pub payload : Option (List ℕ)
  pub payload_len : ℕ

-- The eight bytes from the magic number to the length.
unfoldable pub frame_header : ℕ → ℕ → List ℕ
frame_header flags total = (0x53 ∷ 0x42 ∷ 1 ∷ flags % 256 ∷ []) ++ put_u32 total

unfoldable pub payload_bytes : Option (List ℕ) → ℕ → List ℕ
payload_bytes none n = []
payload_bytes (some p) n = copy n p

-- `softbus_frame_pack`: the bytes stored from the start of `out` on, and `none` for the result 0.
unfoldable pub frame_pack : Frame → ℕ → Option (List ℕ)
frame_pack f out_cap =
    let total = min_size + f.payload_len + f.ext_len in
    if ltb max_payload f.payload_len
    then none
    else if ltb out_cap total
    then none
    else some (
        frame_header f.flags total
        ++ (copy 8 f.session_id
            ++ (put_u32 f.seq
                ++ ((f.type % 256 ∷ f.pkt_flags % 256 ∷ [])
                    ++ (put_u16 f.ext_len
                        ++ (payload_bytes f.payload f.payload_len ++ replicate f.ext_len 0))))))

-- The results of `softbus_frame_unpack`: -1, -2 and the number of bytes.
pub data UnpackResult : Type 0 where
  corrupt : UnpackResult
  incomplete : UnpackResult
  consumed : ℕ → UnpackResult

-- `memset(frame, 0, sizeof(*frame))`.
abbrev pub zero_frame : Frame
zero_frame = record {
  session_id = replicate 8 0;
  seq = 0;
  type = 0;
  flags = 0;
  pkt_flags = 0;
  ext_len = 0;
  payload = none;
  payload_len = 0;
}

-- The part of `softbus_frame_unpack` behind the length tests, with `p` behind the header.
unfoldable pub unpack_body : ℕ → ℕ → List ℕ → UnpackResult × Frame
unpack_body flags total p =
    let f = record zero_frame {
      flags = flags;
      session_id = copy 8 p;
      seq = get_u32 (skip 8 p);
      type = byte_at (skip 12 p) 0;
      pkt_flags = byte_at (skip 12 p) 1;
      ext_len = get_u16 (skip 14 p);
    } in
    if ltb ((total - min_size) % 2 ^ 16) f.ext_len then (corrupt, f) else (
      consumed total,
      record f { payload = some (skip 16 p); payload_len = total - min_size - f.ext_len },
    )

-- `softbus_frame_unpack`: the result, and what `*frame` holds after it.
unfoldable pub frame_unpack : List ℕ → Frame → UnpackResult × Frame
frame_unpack bytes frame =
    let total = get_u32 (drop 4 bytes) in
    if ltb (length bytes) header_size
    then (incomplete, frame)
    else if not (byte_at bytes 0 == 0x53) || not (byte_at bytes 1 == 0x42)
    then (corrupt, frame)
    else if not (byte_at bytes 2 == 1)
    then (corrupt, frame)
    else if ltb total min_size || ltb (max_payload + min_size) total
    then (corrupt, frame)
    else if ltb (length bytes) total
    then (incomplete, frame)
    else unpack_body (byte_at bytes 3) total (drop 8 bytes)
