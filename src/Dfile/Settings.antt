-- ===== src/Dfile/Settings.antt =====
-- The SETTING frame of src/proto/dfile_frame.c read back.
use hwphonelink.Dfile.Decode.{decode_setting, read_setting}
use mathlib.Core.List.{append-nil, append_assoc}
use hwphonelink.Dfile.RoundTrip.{frame_payload-write_header, w_bytes_fits}
use hwphonelink.Dfile.Header.{frame_payload, setting, write_header, header_len, setting_payload_len}
use hwphonelink.Dfile.Buffer.{r_init, r_take, r_u32, r_u16, Writer, w_init, w_u32, w_u16, w_bytes}
use hwphonelink.Dfile.Encode.{c_string, encode_setting, padded_version, Setting}
use hwphonelink.Prelude.{
  skip-append, get_u32, copy-append, get_u16, ltb, skip, copy, false, ap, ◌∙◌, length-put_u32,
  length-put_u16, true, refl, length-replicate, length-take, ◌-◌, ◌≤◌, replicate, ◌+◌,
  length-append, arith, ◌∷◌, take, ◌++◌, ◌≡◌, length, ℕ, ◌^◌, put_u32, List, ◌<◌, put_u16, [], some,
  zero,
}

pub record FitsSetting (s : Setting) : Type 0 where
  pub mtu : s.mtu < 2 ^ 16
  pub conn_type : s.conn_type < 2 ^ 16
  pub dfile_version : s.dfile_version < 2 ^ 32
  pub abm_capability : s.abm_capability < 2 ^ 32
  pub capability : s.capability < 2 ^ 32
  pub data_frame_size : s.data_frame_size < 2 ^ 32
  pub caps_check : s.caps_check < 2 ^ 32
  pub mtp_capability : s.mtp_capability < 2 ^ 32
  pub cipher_capability : s.cipher_capability < 2 ^ 32

length-padded_version : (chars : List ℕ) → length (padded_version chars) ≡ 64
unfolding padded_version
length-padded_version chars =
    let name = take 63 (c_string chars) in
    omega (
      arith,
      length-append name (replicate (64 - length name) 0),
      length-take 63 (c_string chars),
      length-replicate (64 - length name) (zero),
    )

abbrev setting_bytes : Setting → List ℕ
setting_bytes s =
    put_u16 s.mtu
    ++ (put_u16 s.conn_type
        ++ (put_u32 s.dfile_version
            ++ (put_u32 s.abm_capability
                ++ (put_u32 s.capability
                    ++ (put_u32 s.data_frame_size
                        ++ (put_u32 s.caps_check
                            ++ (padded_version s.product_version
                                ++ (s.is_support_160m
                                    ∷ s.is_support_mtp
                                    ∷ s.mtp_port
                                    ∷ s.header_enc
                                    ∷ (put_u32 s.mtp_capability
                                        ++ (put_u32 s.cipher_capability ++ []))))))))))

length-setting_bytes : (s : Setting) → length (setting_bytes s) ≡ setting_payload_len
unfolding put_u16 put_u32
length-setting_bytes s = omega (
  arith,
  length-padded_version s.product_version,
  length-append (padded_version s.product_version) (
      s.is_support_160m
      ∷ s.is_support_mtp
      ∷ s.mtp_port
      ∷ s.header_enc
      ∷ (put_u32 s.mtp_capability ++ (put_u32 s.cipher_capability ++ []))),
)

-- A writer that has not failed.
abbrev writing : ℕ → ℕ → List ℕ → Writer
writing cap pos placed = record { cap = cap; pos = pos; ok = true; placed = placed }

wrote :
    (bytes : List ℕ) (cap pos pos' : ℕ) (placed : List ℕ) (w : Writer)
    → w ≡ writing cap pos placed
    → pos + length bytes ≡ pos'
    → pos' ≤ cap
    → w_bytes bytes w ≡ writing cap pos' (placed ++ bytes)
wrote bytes cap pos pos' placed w e l h = rw e (
    w_bytes_fits bytes (writing cap pos placed) refl (omega arith)
    ∙ ap (λ k. writing cap k (placed ++ bytes)) l)

setting_writer :
    (cap : ℕ) (s : Setting)
    → 108 ≤ cap
    → w_u32 s.cipher_capability (
        w_u32 s.mtp_capability (
          w_bytes (s.is_support_160m ∷ s.is_support_mtp ∷ s.mtp_port ∷ s.header_enc ∷ []) (
            w_bytes (padded_version s.product_version) (
              w_u32 s.caps_check (
                w_u32 s.data_frame_size (
                  w_u32 s.capability (
                    w_u32 s.abm_capability
                      (w_u32 s.dfile_version (w_u16 s.conn_type (w_u16 s.mtu (w_init cap)))))))))))
      ≡ writing cap 108 (setting_bytes s)
unfolding w_u16 w_u32 w_init
setting_writer cap s h =
    let l16 = λ (v : ℕ). length-put_u16 v in
    let l32 = λ (v : ℕ). length-put_u32 v in
    let e1 =
      wrote (put_u16 s.mtu) cap 8 10 [] (writing cap 8 []) refl (omega (arith, l16 s.mtu))
        (omega arith) in
    let e2 =
      wrote (put_u16 s.conn_type) cap 10 12 _ _ e1 (omega (arith, l16 s.conn_type)) (omega arith) in
    let e3 =
      wrote (put_u32 s.dfile_version) cap 12 16 _ _ e2 (omega (arith, l32 s.dfile_version))
        (omega arith) in
    let e4 =
      wrote (put_u32 s.abm_capability) cap 16 20 _ _ e3 (omega (arith, l32 s.abm_capability))
        (omega arith) in
    let e5 =
      wrote (put_u32 s.capability) cap 20 24 _ _ e4 (omega (arith, l32 s.capability))
        (omega arith) in
    let e6 =
      wrote (put_u32 s.data_frame_size) cap 24 28 _ _ e5 (omega (arith, l32 s.data_frame_size))
        (omega arith) in
    let e7 =
      wrote (put_u32 s.caps_check) cap 28 32 _ _ e6 (omega (arith, l32 s.caps_check))
        (omega arith) in
    let e8 =
      wrote (padded_version s.product_version) cap 32 96 _ _ e7
        (omega (arith, length-padded_version s.product_version)) (omega arith) in
    let e9 =
      wrote (s.is_support_160m ∷ s.is_support_mtp ∷ s.mtp_port ∷ s.header_enc ∷ []) cap 96 100 _ _
        e8 (omega arith) (omega arith) in
    let e10 =
      wrote (put_u32 s.mtp_capability) cap 100 104 _ _ e9 (omega (arith, l32 s.mtp_capability))
        (omega arith) in
    let e11 =
      wrote (put_u32 s.cipher_capability) cap 104 108 _ _ e10
        (omega (arith, l32 s.cipher_capability)) (omega arith) in
    e11 ∙ ap (writing cap 108) (simp (append_assoc, append-nil))

encode_setting_lem :
    (out : List ℕ) (cap : ℕ) (s : Setting)
    → header_len + setting_payload_len ≤ cap
    → encode_setting out cap s
      ≡ some (write_header out setting 0 0 setting_payload_len ++ setting_bytes s)
unfolding encode_setting
encode_setting_lem out cap s h = rw (setting_writer cap s h) (ground arith)

read16 :
    (v : ℕ) (rest : List ℕ)
    → v < 2 ^ 16
    → r_u16 (record { left = put_u16 v ++ rest; ok = true })
      ≡ (v, record { left = rest; ok = true })
unfolding r_u16 r_take copy skip get_u16 put_u16
read16 v rest h = ground arith

read32 :
    (v : ℕ) (rest : List ℕ)
    → v < 2 ^ 32
    → r_u32 (record { left = put_u32 v ++ rest; ok = true })
      ≡ (v, record { left = rest; ok = true })
unfolding r_u32 r_take copy skip get_u16 get_u32 put_u32
read32 v rest h = ground arith

read64_bytes :
    (bytes rest : List ℕ)
    → length bytes ≡ 64
    → r_take 64 (record { left = bytes ++ rest; ok = true })
      ≡ (some bytes, record { left = rest; ok = true })
unfolding r_take
read64_bytes bytes rest h =
    let t : ltb (length (bytes ++ rest)) 64 ≡ false = ground (arith, length-append bytes rest) in
    rw (t, copy-append 64 bytes rest h, skip-append 64 bytes rest h)

four_bytes :
    (a b c d : ℕ) (rest : List ℕ)
    → r_take 4 (record { left = a ∷ b ∷ c ∷ d ∷ rest; ok = true })
      ≡ (some (a ∷ b ∷ c ∷ d ∷ []), record { left = rest; ok = true })
unfolding r_take copy skip
four_bytes a b c d rest = ground arith

-- What the receiver's record is: the version without what the sender's array has behind its NUL.
abbrev pub decoded_setting : Setting → Setting
decoded_setting s = record s {
  product_version = copy 63 (padded_version s.product_version) ++ (0 ∷ []);
}

read_setting_lem :
    (s : Setting)
    → FitsSetting s
    → read_setting (r_init (setting_bytes s)) ≡ some (decoded_setting s)
unfolding read_setting r_init
read_setting_lem s f =
    let t10 = put_u32 s.cipher_capability ++ [] in
    let t9 = put_u32 s.mtp_capability ++ t10 in
    let t8 : List ℕ = s.is_support_160m ∷ s.is_support_mtp ∷ s.mtp_port ∷ s.header_enc ∷ t9 in
    let t7 = padded_version s.product_version ++ t8 in
    let t6 = put_u32 s.caps_check ++ t7 in
    let t5 = put_u32 s.data_frame_size ++ t6 in
    let t4 = put_u32 s.capability ++ t5 in
    let t3 = put_u32 s.abm_capability ++ t4 in
    let t2 = put_u32 s.dfile_version ++ t3 in
    let t1 = put_u16 s.conn_type ++ t2 in
    let b : r_take 4 (record { left = t8; ok = true }) ≡ (
      some (s.is_support_160m ∷ s.is_support_mtp ∷ s.mtp_port ∷ s.header_enc ∷ []),
      record { left = t9; ok = true },
    ) =
      four_bytes s.is_support_160m s.is_support_mtp s.mtp_port s.header_enc t9 in
    ground (
      arith,
      read16 s.mtu t1 f.mtu,
      read16 s.conn_type t2 f.conn_type,
      read32 s.dfile_version t3 f.dfile_version,
      read32 s.abm_capability t4 f.abm_capability,
      read32 s.capability t5 f.capability,
      read32 s.data_frame_size t6 f.data_frame_size,
      read32 s.caps_check t7 f.caps_check,
      read64_bytes (padded_version s.product_version) t8 (length-padded_version s.product_version),
      b,
      read32 s.mtp_capability t10 f.mtp_capability,
      read32 s.cipher_capability [] f.cipher_capability,
    )

-- A SETTING frame that fits the caller's buffer, with integers of their widths, is read back field
-- by field; the version comes cut to 63 characters and padded.
pub setting-roundtrip :
    (out : List ℕ) (cap : ℕ) (s : Setting)
    → header_len + setting_payload_len ≤ cap
    → FitsSetting s
    → (frame : List ℕ) × (encode_setting out cap s ≡ some frame)
      × (decode_setting frame ≡ some (decoded_setting s))
unfolding decode_setting
setting-roundtrip out cap s h f =
    let l = length-setting_bytes s in
    let fp : frame_payload (write_header out setting 0 0 setting_payload_len ++ setting_bytes s)
          setting
        ≡ some (
          record {
            type = setting;
            flag = 0;
            session_id = 0;
            trans_id = 0;
            payload_len = setting_payload_len;
          },
          setting_bytes s,
        ) =
      rw l at (
        frame_payload-write_header out setting 0 0 (setting_bytes s) (omega arith) (omega arith)
          (omega arith)) in
    (
      write_header out setting 0 0 setting_payload_len ++ setting_bytes s,
      encode_setting_lem out cap s h,
      ground (arith, fp, l, read_setting_lem s f),
    )
