-- ===== src/Dfile/Header.antt =====
-- The frame header of src/proto/dfile_frame.c. Pointers are not NULL in the model: the guards
-- against NULL have no counterpart.
use hwphonelink.Prelude.{
  ◌+◌, ◌++◌, ltb, length, drop, put_u16, ◌||◌, not, get_u16, ◌∷◌, ◌==◌, take, byte_at,
  if◌then◌else◌, Bool, List, Option, ℕ, some, none,
}

abbrev pub header_len : ℕ
header_len = 8

abbrev pub max_len : ℕ
max_len = 29433

abbrev pub max_size : ℕ
max_size = 14720

abbrev pub max_file_num : ℕ
max_file_num = 500

abbrev pub max_file_name_len : ℕ
max_file_name_len = 256

abbrev pub max_ack_entries : ℕ
max_ack_entries = 39

abbrev pub setting_payload_len : ℕ
setting_payload_len = 100

-- `DFileFrameType`; the header's type is a byte.
abbrev pub file_header : ℕ
file_header = 1

abbrev pub file_data : ℕ
file_data = 4

abbrev pub file_data_ack : ℕ
file_data_ack = 5

abbrev pub setting : ℕ
setting = 8

abbrev pub rst : ℕ
rst = 9

abbrev pub file_back_pressure : ℕ
file_back_pressure = 13

-- `DFileFrameHeader`.
pub record FrameHeader : Type 0 where
  pub type : ℕ
  pub flag : ℕ
  pub session_id : ℕ
  pub trans_id : ℕ
  pub payload_len : ℕ

abbrev pub bad_len : ℕ → Bool
bad_len n = n == 0 || ltb max_len n

-- `dfile_frame_header_pack`: the eight bytes, or `none` for the result -1, which stores nothing.
unfoldable pub header_pack : FrameHeader → Option (List ℕ)
header_pack h =
    if bad_len h.payload_len
    then none
    else some
        (h.type ∷ h.flag ∷ (put_u16 h.session_id ++ (put_u16 h.trans_id ++ put_u16 h.payload_len)))

-- The results of `dfile_frame_header_unpack`: -1, -2, and 0 with the header.
pub data Unpacked : Type 0 where
  incomplete invalid : Unpacked
  header : FrameHeader → Unpacked

-- `dfile_frame_header_unpack`.
unfoldable pub header_unpack : List ℕ → Unpacked
header_unpack buf =
    let h : FrameHeader = record {
      type = byte_at buf 0;
      flag = byte_at buf 1;
      session_id = get_u16 (drop 2 buf);
      trans_id = get_u16 (drop 4 buf);
      payload_len = get_u16 (drop 6 buf);
    } in
    if ltb (length buf) header_len
    then incomplete
    else if bad_len h.payload_len
    then invalid
    else header h

-- `frame_payload`, with the header that every decoder unpacks once more.
unfoldable pub frame_payload : List ℕ → ℕ → Option (FrameHeader × List ℕ)
frame_payload frame type = elim (header_unpack frame) [
  | incomplete ↦ none
  | invalid ↦ none
  | header h ↦
      if not (h.type == type)
      then none
      else if not (length frame == header_len + h.payload_len)
      then none
      else some (h, drop header_len frame)
]

-- `write_header`: what the buffer's first eight bytes are afterwards, `old` before. The result of
-- the packing is ignored.
unfoldable pub write_header : List ℕ → ℕ → ℕ → ℕ → ℕ → List ℕ
write_header old type flag trans_id len =
    elim (header_pack (record {
      type = type;
      flag = flag;
      session_id = 0;
      trans_id = trans_id;
      payload_len = len;
    })) [ none ↦ take header_len old | some bytes ↦ bytes ]
