-- ===== src/Dfile/Encode.antt =====
-- The encoders of src/proto/dfile_frame.c. `out` is the caller's buffer before the call, of `cap`
-- bytes; the result is what `out[0..n)` holds after it, for the returned length `n`, and `none` for
-- the result -1.
use hwphonelink.Dfile.Header.{
  file_back_pressure, rst, file_data, file_header, setting, write_header, max_size, max_file_num,
  max_file_name_len, setting_payload_len, header_len,
}
use hwphonelink.Dfile.Buffer.{w_u64, w_u16s, w_init, w_u16, w_u32, w_bytes, Writer}
use hwphonelink.Prelude.{
  not, ◌^◌, ◌||◌, ◌%◌, leb, ltb, ◌-◌, length, replicate, ◌==◌, ◌*◌, drop, ◌+◌, ◌++◌, if◌then◌else◌,
  Option, take, ◌∷◌, ℕ, List, [], some, none, suc, zero,
}

-- A C string in a char array: the bytes before the first NUL.
unfoldable pub c_string : List ℕ → List ℕ
c_string [] = []
c_string (c ∷ s) = if c == 0 then [] else c ∷ c_string s

-- `DFileSetting`; `product_version` is the array of 64 chars.
pub record Setting : Type 0 where
  pub mtu : ℕ
  pub conn_type : ℕ
  pub dfile_version : ℕ
  pub abm_capability : ℕ
  pub capability : ℕ
  pub data_frame_size : ℕ
  pub caps_check : ℕ
  pub product_version : List ℕ
  pub is_support_160m : ℕ
  pub is_support_mtp : ℕ
  pub mtp_port : ℕ
  pub header_enc : ℕ
  pub mtp_capability : ℕ
  pub cipher_capability : ℕ

-- The NUL-padded copy of at most 63 characters.
unfoldable pub padded_version : List ℕ → List ℕ
padded_version chars = let name = take 63 (c_string chars) in name ++ replicate (64 - length name) 0

-- `dfile_encode_setting`.
unfoldable pub encode_setting : List ℕ → ℕ → Setting → Option (List ℕ)
encode_setting out cap s =
    let w = w_u32 s.cipher_capability (
      w_u32 s.mtp_capability (
        w_bytes (s.is_support_160m ∷ s.is_support_mtp ∷ s.mtp_port ∷ s.header_enc ∷ []) (
          w_bytes (padded_version s.product_version) (
            w_u32 s.caps_check (
              w_u32 s.data_frame_size (
                w_u32 s.capability (
                  w_u32 s.abm_capability
                    (w_u32 s.dfile_version (w_u16 s.conn_type (w_u16 s.mtu (w_init cap))))))))))) in
    if ltb cap (header_len + setting_payload_len)
    then none
    else if not w.ok || not (w.pos == setting_payload_len + header_len)
    then none
    else some (write_header out setting 0 0 setting_payload_len ++ w.placed)

-- `DFileHeaderEntry`; `name` is the text before its NUL.
pub record Entry : Type 0 where
  pub file_id : ℕ
  pub file_size : ℕ
  pub name : List ℕ

-- The first loop of `dfile_encode_file_header`: how many entries fit behind `pos`. `none` is the
-- return -1 for a name that is too long.
unfoldable pub count_fit : ℕ → ℕ → List Entry → Option ℕ
count_fit cap pos [] = some 0
count_fit cap pos (e ∷ es) =
    let rest = count_fit cap (pos + (12 + length e.name)) es in
    if leb max_file_name_len (length e.name)
    then none
    else if ltb cap (pos + (12 + length e.name))
    then some 0
    else elim rest [ none ↦ none | some n ↦ some (suc n) ]

unfoldable pub w_entry : Entry → Writer → Writer
w_entry e w =
    w_bytes e.name (w_u16 (length e.name % 2 ^ 16) (w_u64 e.file_size (w_u16 e.file_id w)))

-- The second loop of `dfile_encode_file_header`.
unfoldable pub w_entries : List Entry → Writer → Writer
w_entries [] w = w
w_entries (e ∷ es) w = w_entries es (w_entry e w)

-- `dfile_encode_file_header`: the frame and `*n_written`.
unfoldable pub encode_file_header : List ℕ → ℕ → ℕ → ℕ → List Entry → ℕ → ℕ → Option (List ℕ × ℕ)
encode_file_header out cap trans_id node_number entries start count =
    let chosen = take count (drop start entries) in
    if count == 0 || ltb max_file_num (start + count)
    then none
    else elim (count_fit cap (header_len + 2) chosen) [
      | none ↦ none
      | some zero ↦ none
      | some (suc n) ↦
          let w = w_entries (take (suc n) chosen) (w_u16 node_number (w_init cap)) in
          if not w.ok
          then none
          else some (
            write_header out file_header 0 trans_id ((w.pos - header_len) % 2 ^ 16) ++ w.placed,
            suc n,
          )
    ]

-- `dfile_encode_idlist`.
unfoldable pub encode_idlist : List ℕ → ℕ → ℕ → ℕ → ℕ → List ℕ → Option (List ℕ)
encode_idlist out cap type flag trans_id ids =
    let payload = 2 * length ids in
    let w = w_u16s ids (w_init cap) in
    if ltb max_file_num (length ids)
    then none
    else if ltb cap (header_len + payload)
    then none
    else if not w.ok
    then none
    else some (write_header out type flag trans_id (payload % 2 ^ 16) ++ w.placed)

-- `dfile_encode_data`.
unfoldable pub encode_data : List ℕ → ℕ → ℕ → ℕ → ℕ → ℕ → List ℕ → Option (List ℕ)
encode_data out cap trans_id flag file_id block_seq payload =
    let frame_len = header_len + 6 + length payload in
    let w = w_bytes payload (w_u32 block_seq (w_u16 file_id (w_init cap))) in
    if ltb max_size frame_len
    then none
    else if ltb cap frame_len
    then none
    else if not w.ok
    then none
    else some (write_header out file_data flag trans_id ((6 + length payload) % 2 ^ 16) ++ w.placed)

-- `dfile_encode_rst`.
unfoldable pub encode_rst : List ℕ → ℕ → ℕ → ℕ → List ℕ → Option (List ℕ)
encode_rst out cap trans_id code ids =
    let payload = 2 + 2 * length ids in
    let w = w_u16s ids (w_u16 code (w_init cap)) in
    if ltb max_file_num (length ids)
    then none
    else if ltb cap (header_len + payload)
    then none
    else if not w.ok
    then none
    else some (write_header out rst 0 trans_id (payload % 2 ^ 16) ++ w.placed)

-- `dfile_encode_backpressure`.
unfoldable pub encode_backpressure : List ℕ → ℕ → ℕ → ℕ → ℕ → ℕ → Option (List ℕ)
encode_backpressure out cap trans_id recv_list_over_io recv_buf_threshold stop_send_period =
    let w =
      w_u32 stop_send_period (w_bytes (recv_list_over_io ∷ recv_buf_threshold ∷ []) (w_init cap)) in
    if ltb cap (header_len + 6)
    then none
    else if not w.ok
    then none
    else some (write_header out file_back_pressure 0 trans_id 6 ++ w.placed)
