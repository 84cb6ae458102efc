-- ===== src/Vtp/Tests.antt =====
-- A run of the frame codec of src/proto/vtp_frame.c with a toy cipher.
use hwphonelink.Vtp.RoundTrip.{parse_common_frame-build_common_frame}
use hwphonelink.Vtp.Frame.{
  parse_common_frame, build_common_frame, common_frame_size, sealed_plain, Fields,
}
use hwphonelink.Prelude.{
  arith, length, ◌≡◌, ◌∷◌, replicate, ◌-◌, map, Option, put_u32, ℕ, List, [], some, refl,
}

encrypt : List ℕ → List ℕ → List ℕ → Option (List ℕ × List ℕ)
encrypt key nonce plain = some (map (λ x. 255 - x) plain, replicate 16 3)

decrypt : List ℕ → List ℕ → List ℕ → List ℕ → Option (List ℕ)
decrypt key nonce ct tag = some (map (λ x. 255 - x) ct)

abbrev fields : Fields
fields = record { mode = 1; stream_type = 2; scene = 3; timestamp_ns = 4 }

parse_common_frame-build_common_frame_example :
    (msg : List ℕ) × (build_common_frame encrypt
        (some (replicate 12 6))
        100
        (9 ∷ [])
        fields
        (1 ∷ 2 ∷ [])
      ≡ some msg)
    × (length msg ≡ common_frame_size 2)
    × (parse_common_frame decrypt msg (9 ∷ []) 10 ≡ some (fields, 1 ∷ 2 ∷ []))
unfolding encrypt decrypt sealed_plain put_u32 common_frame_size
parse_common_frame-build_common_frame_example =
    parse_common_frame-build_common_frame encrypt decrypt (9 ∷ []) (replicate 12 6) refl fields
      (1 ∷ 2 ∷ []) (map (λ x. 255 - x) (sealed_plain fields (1 ∷ 2 ∷ []))) (replicate 16 3) 100 10
      (record {
        mode = omega arith;
        stream_type = omega arith;
        scene = omega arith;
        timestamp_ns = omega arith;
      })
      (record { sealed = refl; ct_len = refl; tag_16 = refl; opened = refl }) (omega arith)
      (omega arith) (omega arith)
