-- ===== src/Dfile/Decode.antt =====
-- The decoders of src/proto/dfile_frame.c: `none` is FALSE, and `some` holds what is stored through
-- the output pointers.
use hwphonelink.Dfile.Header.{
  max_file_name_len, setting_payload_len, max_file_num, rst, file_data, file_header, setting,
  frame_payload,
}
use hwphonelink.Dfile.Encode.{c_string, Setting, Entry}
use hwphonelink.Dfile.Buffer.{r_u16s, r_init, r_take, r_u64, r_u32, r_u16, Reader}
use hwphonelink.Prelude.{
  leb, byte_at, ◌∷◌, ◌||◌, ◌%◌, ◌==◌, ◌++◌, ◌-◌, ltb, ◌+◌, not, copy, ◌/◌, if◌then◌else◌, length,
  Option, ℕ, List, [], some, none, suc, zero,
}

unfoldable pub read_setting : Reader → Option Setting
read_setting r0 =
    let mtu = r_u16 r0 in
    let conn_type = r_u16 mtu.1 in
    let dfile_version = r_u32 conn_type.1 in
    let abm_capability = r_u32 dfile_version.1 in
    let capability = r_u32 abm_capability.1 in
    let data_frame_size = r_u32 capability.1 in
    let caps_check = r_u32 data_frame_size.1 in
    let pv = r_take 64 caps_check.1 in
    let b = r_take 4 pv.1 in
    let mtp_capability = r_u32 b.1 in
    let cipher_capability = r_u32 mtp_capability.1 in
    elim pv.0 [
      | none ↦ none
      | some chars ↦ elim b.0 [
        | none ↦ none
        | some flags ↦
            if cipher_capability.1.ok
            then some (record {
              mtu = mtu.0;
              conn_type = conn_type.0;
              dfile_version = dfile_version.0;
              abm_capability = abm_capability.0;
              capability = capability.0;
              data_frame_size = data_frame_size.0;
              caps_check = caps_check.0;
              product_version = copy 63 chars ++ (0 ∷ []);
              is_support_160m = byte_at flags 0;
              is_support_mtp = byte_at flags 1;
              mtp_port = byte_at flags 2;
              header_enc = byte_at flags 3;
              mtp_capability = mtp_capability.0;
              cipher_capability = cipher_capability.0;
            })
            else none
      ]
    ]

-- `dfile_decode_setting`.
unfoldable pub decode_setting : List ℕ → Option Setting
decode_setting frame = elim (frame_payload frame setting) [
  | none ↦ none
  | some hp ↦ if not (length hp.1 == setting_payload_len) then none else read_setting (r_init hp.1)
]

-- The loop of `dfile_decode_file_header`: entries up to the end of the frame or a UserDataUnit.
-- `none` is the exit with `r.ok` false, and `n` counts the entries so far. A round takes at least
-- twelve bytes, so the bytes left are fuel enough.
unfoldable pub read_entries : ℕ → ℕ → ℕ → Reader → Option (List Entry)
read_entries zero cap_entries n r = none
read_entries (suc fuel) cap_entries n r =
    let id = r_u16 r in
    let size = r_u64 id.1 in
    let name_len = r_u16 size.1 in
    let name = r_take name_len.0 name_len.1 in
    let rest = read_entries fuel cap_entries (n + 1) name.1 in
    if not r.ok
    then none
    else if length r.left == 0
    then some []
    else if ltb (length r.left) 12
    then none
    else if id.0 == 0
    then (if ltb (length name_len.1.left) 2 then none else some [])
    else if name_len.0 == 0 || ltb max_file_name_len name_len.0
    then none
    else elim name.0 [
      | none ↦ none
      | some chars ↦ if leb cap_entries n then none else elim rest [
        | none ↦ none
        | some es ↦ some (record { file_id = id.0; file_size = size.0; name = c_string chars } ∷ es)
      ]
    ]

-- `*trans_id`, `*node_number` and the entries.
pub record FileHeader : Type 0 where
  pub trans_id : ℕ
  pub node_number : ℕ
  pub entries : List Entry

-- `dfile_decode_file_header`.
unfoldable pub decode_file_header : List ℕ → Option FileHeader
decode_file_header frame = elim (frame_payload frame file_header) [
  | none ↦ none
  | some hp ↦
      let node = r_u16 (r_init hp.1) in
      let cap_entries = if ltb 0 node.0 then node.0 else max_file_num in
      if ltb (length hp.1) 2
      then none
      else elim (read_entries (suc (length hp.1)) cap_entries 0 node.1) [
        | none ↦ none
        | some es ↦ some (record { trans_id = hp.0.trans_id; node_number = node.0; entries = es })
      ]
]

-- `*trans_id`, `*flag` and the ids.
pub record IdList : Type 0 where
  pub trans_id : ℕ
  pub flag : ℕ
  pub ids : List ℕ

-- `dfile_decode_idlist`.
unfoldable pub decode_idlist : List ℕ → ℕ → Option IdList
decode_idlist frame expect_type = elim (frame_payload frame expect_type) [
  | none ↦ none
  | some hp ↦
      let n = length hp.1 / 2 in
      let ids = r_u16s n (r_init hp.1) in
      if not (length hp.1 % 2 == 0)
      then none
      else if ltb max_file_num n
      then none
      else if not ids.1.ok
      then none
      else some (record { trans_id = hp.0.trans_id; flag = hp.0.flag; ids = ids.0 })
]

-- What `dfile_decode_data` stores; the payload is borrowed from the frame.
pub record DataBlock : Type 0 where
  pub trans_id : ℕ
  pub flag : ℕ
  pub file_id : ℕ
  pub block_seq : ℕ
  pub payload : List ℕ

-- `dfile_decode_data`.
unfoldable pub decode_data : List ℕ → Option DataBlock
decode_data frame = elim (frame_payload frame file_data) [
  | none ↦ none
  | some hp ↦
      let id = r_u16 (r_init hp.1) in
      let seq = r_u32 id.1 in
      if ltb (length hp.1) 6
      then none
      else if not seq.1.ok
      then none
      else some (record {
        trans_id = hp.0.trans_id;
        flag = hp.0.flag;
        file_id = id.0;
        block_seq = seq.0;
        payload = seq.1.left;
      })
]

pub record Reset : Type 0 where
  pub trans_id : ℕ
  pub code : ℕ
  pub ids : List ℕ

-- `dfile_decode_rst`.
unfoldable pub decode_rst : List ℕ → Option Reset
decode_rst frame = elim (frame_payload frame rst) [
  | none ↦ none
  | some hp ↦
      let code = r_u16 (r_init hp.1) in
      let n = (length hp.1 - 2) / 2 in
      let ids = r_u16s n code.1 in
      if ltb (length hp.1) 2 || not (length hp.1 % 2 == 0)
      then none
      else if ltb max_file_num n
      then none
      else if not ids.1.ok
      then none
      else some (record { trans_id = hp.0.trans_id; code = code.0; ids = ids.0 })
]
