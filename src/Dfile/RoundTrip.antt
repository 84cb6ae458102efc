-- ===== src/Dfile/RoundTrip.antt =====
-- Decoding what src/proto/dfile_frame.c encodes: settings, id lists, data blocks and resets.
use hwphonelink.Dfile.Decode.{decode_data}
use hwphonelink.Dfile.Encode.{encode_data}
use hwphonelink.Dfile.Buffer.{r_init, r_take, w_init, r_u32, w_u32, r_u16, w_u16, Writer, w_bytes}
use hwphonelink.Dfile.Header.{
  FrameHeader, header, file_data, max_size, max_len, header_len, header_unpack, header_pack,
  write_header, frame_payload,
}
use hwphonelink.Prelude.{
  refl, get_u32, skip, copy, ap, ◌%◌, ◌∷◌, suc, put_u32, arith, ltb, ◌++◌, ◌≤◌, length, get_u16,
  ◌+◌, put_u16, ◌^◌, ◌≡◌, ◌<◌, ℕ, List, some, false, true,
}

-- The header bytes of a length that the codec allows.
write_header_ok :
    (out : List ℕ) (type flag trans_id len : ℕ)
    → 0 < len
    → len ≤ max_len
    → write_header out type flag trans_id len
      ≡ type ∷ flag ∷ (put_u16 0 ++ (put_u16 trans_id ++ put_u16 len))
unfolding write_header header_pack
write_header_ok out type flag trans_id len hp hm = ground arith

-- The frame of a payload of allowed length is taken apart into its header and that payload.
pub frame_payload-write_header :
    (out : List ℕ) (type flag trans_id : ℕ) (payload : List ℕ)
    → trans_id < 2 ^ 16
    → 0 < length payload
    → length payload ≤ max_len
    → frame_payload (write_header out type flag trans_id (length payload) ++ payload) type
      ≡ some (
        record {
          type = type;
          flag = flag;
          session_id = 0;
          trans_id = trans_id;
          payload_len = length payload;
        },
        payload,
      )
frame_payload-write_header out type flag trans_id payload ht hp hm =
    rw (write_header_ok out type flag trans_id (length payload) hp hm)
      (unfold frame_payload header_unpack put_u16 get_u16 in ground arith)

-- A writer takes bytes that fit behind what it has.
pub w_bytes_fits :
    (bytes : List ℕ) (w : Writer)
    → w.ok ≡ true
    → w.pos + length bytes ≤ w.cap
    → w_bytes bytes w ≡ record w { pos = w.pos + length bytes; placed = w.placed ++ bytes }
unfolding w_bytes
w_bytes_fits bytes w k h =
    let t : ltb w.cap (w.pos + length bytes) ≡ false = ground arith in rw (k, t)

encode_data_lem :
    (out : List ℕ) (cap trans_id flag file_id block_seq : ℕ) (payload : List ℕ)
    → header_len + 6 + length payload ≤ cap
    → header_len + 6 + length payload ≤ max_size
    → let body = put_u16 file_id ++ (put_u32 block_seq ++ payload) in
      encode_data out cap trans_id flag file_id block_seq payload
      ≡ some (write_header out file_data flag trans_id (length body) ++ body)
unfolding encode_data w_bytes w_u16 w_u32 w_init put_u16 put_u32
encode_data_lem out cap trans_id flag file_id block_seq payload hc hs =
    let m : (6 + length payload) % 2 ^ 16 ≡ suc (suc (suc (suc (suc (suc (length payload)))))) =
      omega arith in
    ground (arith, ap (write_header out file_data flag trans_id) m)

decode_data_lem :
    (out : List ℕ) (trans_id flag file_id block_seq : ℕ) (payload : List ℕ)
    → file_id < 2 ^ 16
    → block_seq < 2 ^ 32
    → let body = put_u16 file_id ++ (put_u32 block_seq ++ payload) in
      let frame = write_header out file_data flag trans_id (length body) ++ body in
      frame_payload frame file_data
        ≡ some (
          record {
            type = file_data;
            flag = flag;
            session_id = 0;
            trans_id = trans_id;
            payload_len = length body;
          },
          body,
        )
      → decode_data frame
        ≡ some (record {
          trans_id = trans_id;
          flag = flag;
          file_id = file_id;
          block_seq = block_seq;
          payload = payload;
        })
unfolding decode_data r_u16 r_u32 r_take r_init copy skip get_u16 get_u32 put_u16 put_u32
decode_data_lem out trans_id flag file_id block_seq payload hf hb e = ground arith

-- A FILE_DATA frame that fits the caller's buffer and 14720 bytes decodes to its block, if the ids
-- and the block number fit their widths.
pub data-roundtrip :
    (out : List ℕ) (cap trans_id flag file_id block_seq : ℕ) (payload : List ℕ)
    → trans_id < 2 ^ 16
    → file_id < 2 ^ 16
    → block_seq < 2 ^ 32
    → header_len + 6 + length payload ≤ cap
    → header_len + 6 + length payload ≤ max_size
    → (frame : List ℕ) × (encode_data out cap trans_id flag file_id block_seq payload ≡ some frame)
      × (decode_data frame
          ≡ some (record {
            trans_id = trans_id;
            flag = flag;
            file_id = file_id;
            block_seq = block_seq;
            payload = payload;
          }))
data-roundtrip out cap trans_id flag file_id block_seq payload ht hf hb hc hs =
    let body = put_u16 file_id ++ (put_u32 block_seq ++ payload) in
    let len : length body ≡ 6 + length payload = unfold put_u16 put_u32 in omega arith in
    (
      write_header out file_data flag trans_id (length body) ++ body,
      encode_data_lem out cap trans_id flag file_id block_seq payload hc hs,
      decode_data_lem out trans_id flag file_id block_seq payload hf hb (
          frame_payload-write_header out file_data flag trans_id body ht (omega arith)
            (omega arith)),
    )

-- What the header of a frame is, if the frame has a payload.
frame_payload-header_unpack :
    (frame : List ℕ) (type : ℕ) (h : FrameHeader) (p : List ℕ)
    → frame_payload frame type ≡ some (h, p)
    → header_unpack frame ≡ header h
unfolding frame_payload
frame_payload-header_unpack frame type h p e = ground (arith, e)

-- The frame of a block, with what its receiver reads of it.
pub data_sent :
    (out : List ℕ) (cap trans_id flag file_id block_seq : ℕ) (payload : List ℕ)
    → trans_id < 2 ^ 16
    → file_id < 2 ^ 16
    → block_seq < 2 ^ 32
    → header_len + 6 + length payload ≤ cap
    → header_len + 6 + length payload ≤ max_size
    → (frame : List ℕ) × (h : FrameHeader) × (encode_data out cap trans_id flag file_id block_seq
          payload
        ≡ some frame)
      × (header_unpack frame ≡ header h)
      × (h.type ≡ file_data)
      × (decode_data frame
          ≡ some (record {
            trans_id = trans_id;
            flag = flag;
            file_id = file_id;
            block_seq = block_seq;
            payload = payload;
          }))
data_sent out cap trans_id flag file_id block_seq payload ht hf hb hc hs =
    let body = put_u16 file_id ++ (put_u32 block_seq ++ payload) in
    let len : length body ≡ 6 + length payload = unfold put_u16 put_u32 in omega arith in
    let frame = write_header out file_data flag trans_id (length body) ++ body in
    let h : FrameHeader = record {
      type = file_data;
      flag = flag;
      session_id = 0;
      trans_id = trans_id;
      payload_len = length body;
    } in
    let e =
      frame_payload-write_header out file_data flag trans_id body ht (omega arith) (omega arith) in
    (
      frame,
      h,
      encode_data_lem out cap trans_id flag file_id block_seq payload hc hs,
      frame_payload-header_unpack frame file_data h body e,
      refl,
      decode_data_lem out trans_id flag file_id block_seq payload hf hb e,
    )
