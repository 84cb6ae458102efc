-- ===== src/Dfile/Tests.antt =====
-- Runs of the frame codec of src/proto/dfile_frame.c.
use hwphonelink.Dfile.Settings.{decoded_setting, setting-roundtrip}
use hwphonelink.Dfile.Header.{header_len}
use hwphonelink.Dfile.Ids.{idlist-empty}
use hwphonelink.Dfile.RoundTrip.{data-roundtrip}
use hwphonelink.Dfile.Decode.{decode_setting, decode_data}
use hwphonelink.Dfile.Encode.{encode_setting, encode_data, Setting, encode_idlist}
use hwphonelink.Prelude.{arith, take, ◌≡◌, ◌∷◌, replicate, ℕ, List, [], some}

data-roundtrip_example :
    (frame : List ℕ) × (encode_data (replicate 32 0) 32 5 1 2 9 (7 ∷ 8 ∷ []) ≡ some frame)
    × (decode_data frame
        ≡ some
            (record { trans_id = 5; flag = 1; file_id = 2; block_seq = 9; payload = 7 ∷ 8 ∷ [] }))
data-roundtrip_example =
    data-roundtrip (replicate 32 0) 32 5 1 2 9 (7 ∷ 8 ∷ []) (omega arith) (omega arith)
      (omega arith) (omega arith) (omega arith)

idlist-empty_example :
    encode_idlist (replicate 20 9) 20 5 1 3 [] ≡ some (take header_len (replicate 20 9))
idlist-empty_example = idlist-empty (replicate 20 9) 20 5 1 3 (omega arith)

abbrev hello : Setting
hello = record {
  mtu = 1400;
  conn_type = 1;
  dfile_version = 3;
  abm_capability = 0;
  capability = 5;
  data_frame_size = 1400;
  caps_check = 0;
  product_version = 65 ∷ 66 ∷ 0 ∷ [];
  is_support_160m = 0;
  is_support_mtp = 0;
  mtp_port = 0;
  header_enc = 0;
  mtp_capability = 0;
  cipher_capability = 1;
}

setting-roundtrip_example :
    (frame : List ℕ) × (encode_setting (replicate 200 0) 200 hello ≡ some frame)
    × (decode_setting frame ≡ some (decoded_setting hello))
setting-roundtrip_example = setting-roundtrip (replicate 200 0) 200 hello (omega arith) (record {
  mtu = omega arith;
  conn_type = omega arith;
  dfile_version = omega arith;
  abm_capability = omega arith;
  capability = omega arith;
  data_frame_size = omega arith;
  caps_check = omega arith;
  mtp_capability = omega arith;
  cipher_capability = omega arith;
})
