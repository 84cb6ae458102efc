-- ===== src/Dfile/Acks.antt =====
-- FILE_DATA_ACK of src/proto/dfile_frame.c. Its length field encodes the number of entries: 6 + 37 n
-- or, in version 2, 12 + 37 n.
use hwphonelink.Dfile.Header.{
  write_header, header_len, max_ack_entries, file_data_ack, frame_payload,
}
use hwphonelink.Prelude.{
  ◌/◌, ◌-◌, leb, ◌&&◌, not, skip, ◌==◌, length, drop, ltb, ◌*◌, ◌^◌, put_u32, get_u32, ◌+◌, ◌%◌,
  ◌++◌, get_u16, Option, replicate, if◌then◌else◌, put_u16, ◌∷◌, Bool, List, ℕ, [], some, none, suc,
  zero,
}

-- `DFileAckEntry`.
pub record AckEntry : Type 0 where
  pub file_id : ℕ
  pub last_seq : ℕ
  pub c : ℕ
  pub d : ℕ

-- A write of bytes into a buffer, from its start and from an offset.
unfoldable pub overwrite : List ℕ → List ℕ → List ℕ
overwrite [] p = p
overwrite (b ∷ bs) [] = []
overwrite (b ∷ bs) (x ∷ p) = b ∷ overwrite bs p

unfoldable pub store : ℕ → List ℕ → List ℕ → List ℕ
store zero bs p = overwrite bs p
store (suc off) bs [] = []
store (suc off) bs (x ∷ p) = x ∷ store off bs p

abbrev pub entry_bytes : AckEntry → List ℕ
entry_bytes e = put_u16 e.file_id ++ put_u32 e.last_seq

-- The first entry at offset 0; version 2 adds the two feedback words.
unfoldable pub store_first : Bool → AckEntry → List ℕ → List ℕ
store_first v2 e p =
    let q = store 0 (entry_bytes e) p in
    if v2 then store 8 (put_u16 e.d) (store 6 (put_u16 (e.c % 2 ^ 16)) q) else q

-- The loops for the entries 1 to n - 1: six bytes each, from `off` on.
unfoldable pub store_rest : ℕ → List AckEntry → List ℕ → List ℕ
store_rest off [] p = p
store_rest off (e ∷ es) p = store_rest (off + 6) es (store off (entry_bytes e) p)

abbrev pub first_len : Bool → ℕ
first_len v2 = if v2 then 12 else 6

-- The payload, zeroed first.
unfoldable pub ack_payload : Bool → ℕ → List AckEntry → List ℕ
ack_payload v2 size [] = replicate size 0
ack_payload v2 size (e ∷ es) = store_rest (first_len v2) es (store_first v2 e (replicate size 0))

-- `dfile_encode_ack`.
unfoldable pub encode_ack : List ℕ → ℕ → Bool → ℕ → ℕ → List AckEntry → Option (List ℕ)
encode_ack out cap v2 trans_id flag entries =
    let count_field = (first_len v2 + 37 * length entries) % 2 ^ 16 in
    if ltb max_ack_entries (length entries)
    then none
    else if ltb cap (header_len + count_field)
    then none
    else some (
        write_header out file_data_ack flag trans_id count_field
        ++ ack_payload v2 count_field entries)

-- What `dfile_decode_ack` stores.
pub record AckFrame : Type 0 where
  pub trans_id : ℕ
  pub flag : ℕ
  pub v2 : Bool
  pub entries : List AckEntry

-- The loops of `dfile_decode_ack`; `none` is the return FALSE inside them.
unfoldable pub read_rest : ℕ → ℕ → List ℕ → Option (List AckEntry)
read_rest zero off p = some []
read_rest (suc k) off p =
    let rest = read_rest k (off + 6) p in
    if ltb (length p) (off + 6) then none else elim rest [
      | none ↦ none
      | some es ↦ some (
          record {
            file_id = get_u16 (skip off p);
            last_seq = get_u32 (drop 2 (skip off p));
            c = 0;
            d = 0;
          }
          ∷ es)
    ]

unfoldable pub read_first : Bool → List ℕ → AckEntry
read_first v2 p = record {
  file_id = get_u16 p;
  last_seq = get_u32 (drop 2 p);
  c = if v2 then get_u16 (drop 6 p) else 0;
  d = if v2 then get_u16 (drop 8 p) else 0;
}

unfoldable pub read_acks : Bool → ℕ → List ℕ → Option (List AckEntry)
read_acks v2 zero p = some []
read_acks v2 (suc k) p = elim (read_rest k (first_len v2) p) [
  | none ↦ none
  | some es ↦ some (read_first v2 p ∷ es)
]

-- `dfile_decode_ack`.
unfoldable pub decode_ack : List ℕ → Option AckFrame
decode_ack frame = elim (frame_payload frame file_data_ack) [
  | none ↦ none
  | some hp ↦
      let len_field = hp.0.payload_len in
      let is_v2 = len_field % 37 == 12 in
      let is_v1 = len_field % 37 == 6 in
      if not is_v1 && not is_v2
      then none
      else if leb 0x5c1 len_field
      then none
      else elim (read_acks is_v2 ((len_field - first_len is_v2) / 37) hp.1) [
        | none ↦ none
        | some es ↦
            some (record { trans_id = hp.0.trans_id; flag = hp.0.flag; v2 = is_v2; entries = es })
      ]
]
