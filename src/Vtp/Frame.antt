-- ===== src/Vtp/Frame.antt =====
-- src/proto/vtp_frame.h and vtp_frame.c: building and parsing one COMMON frame.
--
-- The functions of src/proto/softbus_crypto.c that wrap OpenSSL are parameters: `random` is what
-- `softbus_random_bytes` gives for the nonce, `encrypt key nonce plain` the ciphertext and tag of
-- `softbus_aes_gcm_encrypt`, `decrypt key nonce ct tag` the plaintext of
-- `softbus_aes_gcm_decrypt`, each `none` for FALSE.
use hwphonelink.Prelude.{
  copy, ◌++◌, ◌==◌, ◌*◌, not, ◌/◌, ◌^◌, ltb, ◌-◌, skip, ◌%◌, if◌then◌else◌, length, get_u32,
  put_u32, ◌+◌, Option, List, ℕ, some, none,
}

abbrev pub nonce_len : ℕ
nonce_len = 12

abbrev pub tag_len : ℕ
tag_len = 16

abbrev pub vtp_header_len : ℕ
vtp_header_len = 16

-- `vtp_common_frame_size`.
unfoldable pub common_frame_size : ℕ → ℕ
common_frame_size data_len = 4 + nonce_len + vtp_header_len + data_len + tag_len

-- The fields of the sealed header, as the builder takes them and the parser stores them.
pub record Fields : Type 0 where
  pub mode : ℕ
  pub stream_type : ℕ
  pub scene : ℕ
  pub timestamp_ns : ℕ

-- The plaintext that `vtp_build_common_frame` seals. The parts of the flags have no bit in common,
-- so `|` is `+`.
unfoldable pub sealed_plain : Fields → List ℕ → List ℕ
sealed_plain f payload =
    put_u32 (f.mode % 2 ^ 4 * 2 ^ 24 + f.stream_type % 2 ^ 16)
    ++ (put_u32 f.timestamp_ns
        ++ (put_u32 (length payload % 2 ^ 32) ++ (put_u32 (f.scene % 2 ^ 16 * 2 ^ 16) ++ payload)))

-- The part of `vtp_parse_common_frame` behind the decryption.
unfoldable pub parse_plain : List ℕ → ℕ → ℕ → Option (Fields × List ℕ)
parse_plain plain ct_len out_cap =
    let flags = get_u32 plain in
    let payload_len = get_u32 (skip 8 plain) in
    if flags / 2 ^ 28 % 2 == 1
    then none
    else if not (payload_len == ct_len - vtp_header_len)
    then none
    else if ltb out_cap payload_len
    then none
    else some (
      record {
        mode = flags / 2 ^ 24 % 2 ^ 4;
        stream_type = flags % 2 ^ 16;
        scene = get_u32 (skip 12 plain) / 2 ^ 16 % 2 ^ 16;
        timestamp_ns = get_u32 (skip 4 plain);
      },
      copy payload_len (skip 16 plain),
    )

unfoldable pub seal_message : ℕ → List ℕ → Option (List ℕ × List ℕ) → Option (List ℕ)
seal_message total nonce none = none
seal_message total nonce (some s) = some (put_u32 ((total - 4) % 2 ^ 32) ++ (nonce ++ (s.0 ++ s.1)))

module _ (encrypt : List ℕ → List ℕ → List ℕ → Option (List ℕ × List ℕ)) where
  unfoldable pub build_with : List ℕ → Fields → List ℕ → Option (List ℕ) → Option (List ℕ)
  build_with key f payload none = none
  build_with key f payload (some nonce) =
      seal_message (common_frame_size (length payload)) nonce
        (encrypt key nonce (sealed_plain f payload))

  -- `vtp_build_common_frame`: the message, or `none` for -1.
  unfoldable pub build_common_frame :
      Option (List ℕ) → ℕ → List ℕ → Fields → List ℕ → Option (List ℕ)
  unfolding build_with
  build_common_frame random cap key f payload =
      if ltb cap (common_frame_size (length payload)) then none else build_with key f payload random

unfoldable pub parse_opened : Option (List ℕ) → ℕ → ℕ → Option (Fields × List ℕ)
parse_opened none ct_len out_cap = none
parse_opened (some plain) ct_len out_cap = parse_plain plain ct_len out_cap

module _ (decrypt : List ℕ → List ℕ → List ℕ → List ℕ → Option (List ℕ)) where
  -- `vtp_parse_common_frame`: the fields and the data, or `none` for FALSE. The sum `4 + n` is one
  -- of 32-bit numbers.
  unfoldable pub parse_common_frame : List ℕ → List ℕ → ℕ → Option (Fields × List ℕ)
  parse_common_frame msg key out_cap =
      let n = get_u32 msg in
      let ct_len = n - nonce_len - tag_len in
      if ltb (length msg) (4 + nonce_len + vtp_header_len + tag_len)
      then none
      else if ltb n (nonce_len + vtp_header_len + tag_len)
      then none
      else if not (length msg == (4 + n) % 2 ^ 32)
      then none
      else parse_opened
          (decrypt key (copy nonce_len (skip 4 msg)) (copy ct_len (skip 16 msg))
            (copy tag_len (skip (4 + n - tag_len) msg)))
          ct_len out_cap
