-- ===== src/StreamFile/Metadata.antt =====
-- The metadata frame of a transfer in src/proto/stream_file.c.
use hwphonelink.StreamFile.Receive.{open_received, on_meta}
use hwphonelink.StreamFile.Names.{bad_name, c_str}
use hwphonelink.StreamFile.State.{Halves, vtp_chunk, SfIo}
use hwphonelink.Prelude.{
  length-append, ◌||◌, skip-past, ◌==◌, get_u16-put_u16, not, skip-append, ltb, get_u64-put_u64,
  copy-all, length-put_u16, copy, length-put_u64, get_u64, ◌∙◌, ◌+◌, put_u16, arith, skip, ◌++◌,
  get_u16, put_u64, ◌-◌, ◌^◌, ◌≤◌, ◌<◌, length, ◌≡◌, ℕ, List, false, refl,
}

-- A name that the receiver takes: a C string that fits the metadata frame, with no separator, no "..",
-- and no dot in front.
pub record IsFileName (name : List ℕ) : Type 0 where
  pub no_nul : c_str name ≡ name
  pub some_byte : 0 < length name
  pub fits : length name ≤ vtp_chunk - 10
  pub not_bad : bad_name name ≡ false

-- The parts of a metadata frame, read at the places where the receiver looks for them.
pub meta_parts :
    (total len : ℕ) (name : List ℕ)
    → total < 2 ^ 64
    → len < 2 ^ 16
    → let q = put_u64 total ++ (put_u16 len ++ name) in
      (get_u64 q ≡ total)
      × (get_u16 (skip 8 q) ≡ len)
      × (skip 10 q ≡ name)
      × (length q ≡ 10 + length name)
meta_parts total len name ht hl =
    let l8 = length-put_u64 total in
    let l2 = length-put_u16 len in
    (
      get_u64-put_u64 total (put_u16 len ++ name) ht,
      rw (skip-append 8 (put_u64 total) (put_u16 len ++ name) l8) (get_u16-put_u16 len name hl),
      skip-past 10 2 (put_u64 total) (put_u16 len ++ name) (omega arith)
          ∙ skip-append 2 (put_u16 len) name l2,
      omega (
        arith,
        length-append (put_u64 total) (put_u16 len ++ name),
        length-append (put_u16 len) name,
        l8,
        l2,
      ),
    )

pub on_meta-good :
    (io : SfIo) (c : Halves) (dir payload name : List ℕ)
    → IsFileName name
    → get_u16 (skip 8 payload) ≡ length name
    → skip 10 payload ≡ name
    → length payload ≡ 10 + length name
    → on_meta io c dir payload ≡ open_received io c dir (get_u64 payload) name
unfolding on_meta
on_meta-good io c dir payload name h e s l =
    let w : c_str (copy (get_u16 (skip 8 payload)) (skip 10 payload)) ≡ name =
      rw (e, s, copy-all (length name) name refl) h.no_nul in
    let e1 : ltb (length payload) 10 ≡ false = ground (arith, l) in
    let e2 : not (length payload == 10 + get_u16 (skip 8 payload)) ≡ false = ground (arith, l, e) in
    let e3 : (get_u16 (skip 8 payload) == 0 || bad_name name) ≡ false =
      ground (arith, e, h.some_byte, h.not_bad) in
    rw (w, on_meta) (rw (e1, e2, e3) refl)
