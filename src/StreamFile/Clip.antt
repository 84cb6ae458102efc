-- ===== src/StreamFile/Clip.antt =====
-- `h264_testfile_name_sha` and `h264_testfile_verify` of src/proto/h264_testfile.c.
--
-- GLib is a parameter: `sha256` is the hexadecimal text of a checksum, and the file's content is what
-- `g_file_get_contents` gives, `none` for FALSE. The text of the details is left out.
use hwphonelink.Transfer.Listing.{all_xdigits, same_bytes}
use hwphonelink.Prelude.{
  ◌-◌, byte_at, drop, ◌^◌, take, ◌%◌, ◌&&◌, ◌||◌, not, ltb, ◌+◌, ◌==◌, length, leb, ◌∷◌,
  if◌then◌else◌, Bool, List, Option, ℕ, [], some, none, false, true, suc, zero,
}

-- The 64 hexadecimal digits of a name of the form hs-<sha256>.h264.
unfoldable pub h264_name_sha : List ℕ → Option (List ℕ)
unfolding same_bytes all_xdigits
h264_name_sha name =
    let len = length name in
    if ltb len 72
    then none
    else if not (same_bytes (take 3 name) (b'h' ∷ b's' ∷ b'-' ∷ []))
    then none
    else if not (same_bytes (drop (len - 5) name) (b'.' ∷ b'h' ∷ b'2' ∷ b'6' ∷ b'4' ∷ []))
    then none
    else if not (len - 3 - 5 == 64)
    then none
    else if all_xdigits (take 64 (drop 3 name))
    then some (take 64 (drop 3 name))
    else none

-- The states of the scan: 0, 1, 2, 3 and 100 of `st`.
pub data ScanState : Type 0 where
  expect_sps expect_pps pre_idr in_body bad : ScanState

-- The `switch` over `st`, for a NAL of type `t`.
unfoldable pub nal_step : ScanState → ℕ → ScanState
nal_step expect_sps t = if t == 7 then expect_pps else bad
nal_step expect_pps t = if t == 8 then pre_idr else bad
nal_step pre_idr t = if t == 5 then in_body else if t == 6 then pre_idr else bad
nal_step in_body t = if t == 1 || (t == 5 || (t == 6 || (t == 7 || t == 8))) then in_body else bad
nal_step bad t = bad

pub record Scan : Type 0 where
  pub first_nal : Option ℕ
  pub nals : ℕ
  pub st : ScanState

abbrev pub starts_code : List ℕ → Bool
starts_code (x ∷ y ∷ z ∷ rest) = x == 0 && (y == 0 && z == 1)
starts_code _ = false

abbrev pub first_or : ℕ → Option ℕ → Option ℕ
first_or i none = some i
first_or i (some j) = some j

-- The loop over the bytes, from index `i` on, where the next `pause` bytes are passed over. The byte
-- behind the last one is the terminator that `g_file_get_contents` appends.
unfoldable pub scan : ℕ → ℕ → List ℕ → Scan → Scan
unfolding nal_step
scan i pause [] s = s
scan i (suc pause) (x ∷ xs) s = scan (suc i) pause xs s
scan i zero (x ∷ xs) s =
    let found = scan (suc i) 2 xs (record {
      first_nal = first_or i s.first_nal;
      nals = (s.nals + 1) % 2 ^ 32;
      st = nal_step s.st (byte_at xs 2 % 2 ^ 5);
    }) in
    let rest = scan (suc i) zero xs s in if starts_code (x ∷ xs) then found else rest

abbrev pub is_in_body : ScanState → Bool
is_in_body in_body = true
is_in_body _ = false

abbrev pub at_head : Option ℕ → Bool
at_head none = false
at_head (some i) = leb i 1

-- `expected_sha` is NULL, or the text of the checksum.
unfoldable pub sha_matches : Option (List ℕ) → List ℕ → Bool
unfolding same_bytes
sha_matches none hex = true
sha_matches (some expected) hex = same_bytes hex expected

module _ (sha256 : List ℕ → List ℕ) where
  unfoldable pub check_clip : List ℕ → List ℕ → Bool
  unfolding sha_matches h264_name_sha scan
  check_clip name bytes =
      let s = scan 0 zero bytes (record { first_nal = none; nals = 0; st = expect_sps }) in
      if ltb (length bytes) 10
      then false
      else sha_matches (h264_name_sha name) (sha256 bytes)
        && (at_head s.first_nal && (is_in_body s.st && not (ltb s.nals 3)))

  -- `h264_testfile_verify`.
  unfoldable pub h264_verify : Option (List ℕ) → List ℕ → Bool
  unfolding check_clip
  h264_verify none name = false
  h264_verify (some bytes) name = check_clip name bytes
