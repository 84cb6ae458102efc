-- ===== src/StreamFile/Names.antt =====
-- The name of a received file in `sf_process_frame` of src/proto/stream_file.c, with the C library's
-- and GLib's string functions that it calls written out.
use hwphonelink.StreamFile.Clip.{h264_name_sha}
use hwphonelink.Transfer.Listing.{name_sha, same_bytes}
use hwphonelink.Prelude.{
  ◌-◌, drop, length, ltb, ◌&&◌, Option, not, ◌||◌, ◌==◌, if◌then◌else◌, Bool, ◌∷◌, ℕ, List, [],
  some, none, false,
}

-- The string that `g_strndup` copies: the bytes up to the first NUL.
unfoldable pub c_str : List ℕ → List ℕ
c_str [] = []
c_str (x ∷ xs) = if x == 0 then [] else x ∷ c_str xs

-- `strchr(name, ch) != NULL`.
unfoldable pub has_byte : ℕ → List ℕ → Bool
has_byte ch [] = false
has_byte ch (x ∷ xs) = x == ch || has_byte ch xs

-- `strstr(name, "..") != NULL`.
unfoldable pub has_dots : List ℕ → Bool
has_dots [] = false
has_dots (x ∷ []) = false
has_dots (x ∷ y ∷ ys) = (x == b'.' && y == b'.') || has_dots (y ∷ ys)

abbrev pub leads_dot : List ℕ → Bool
leads_dot [] = false
leads_dot (x ∷ xs) = x == b'.'

-- The test on a name, without the one on its length.
unfoldable pub bad_name : List ℕ → Bool
unfolding has_byte has_dots
bad_name name = has_byte b'/' name || (has_dots name || leads_dot name)

-- `g_str_has_suffix(name, ".h264")`.
unfoldable pub is_h264_name : List ℕ → Bool
unfolding same_bytes
is_h264_name name =
    not (ltb (length name) 5)
    && same_bytes (drop (length name - 5) name) (b'.' ∷ b'h' ∷ b'2' ∷ b'6' ∷ b'4' ∷ [])

-- `rx_expected_sha`: the digits of an hs- name, or of an ft- name.
unfoldable pub expected_sha_of : List ℕ → Option (List ℕ)
unfolding h264_name_sha name_sha
expected_sha_of name = elim (h264_name_sha name) [ none ↦ name_sha name | some hex ↦ some hex ]
