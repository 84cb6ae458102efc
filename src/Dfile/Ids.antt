-- ===== src/Dfile/Ids.antt =====
-- The id lists of src/proto/dfile_frame.c: the frames of types 2, 3, 6, 7, and RST.
use hwphonelink.Dfile.Header.{
  rst, header_pack, frame_payload, write_header, header_len, max_file_num,
}
use hwphonelink.Dfile.Decode.{decode_rst, decode_idlist}
use hwphonelink.Dfile.Encode.{encode_rst, encode_idlist}
use hwphonelink.Dfile.RoundTrip.{frame_payload-write_header, w_bytes_fits}
use mathlib.Core.List.{append_assoc, append-nil}
use hwphonelink.Dfile.Buffer.{w_init, r_init, w_u16, r_take, r_u16, Writer, r_u16s, w_u16s}
use hwphonelink.Prelude.{
  ◌-◌, take, suc, ◌/◌, ◌%◌, some, ◌∙◌, get_u16, skip, copy, ◌≤◌, arith, ◌+◌, ◌*◌, ◌^◌, ◌≡◌, ◌<◌,
  ◌++◌, length, ◌∷◌, ℕ, put_u16, List, [], true, refl,
}

abbrev pub u16s : List ℕ → List ℕ
u16s [] = []
u16s (v ∷ vs) = put_u16 v ++ u16s vs

abbrev pub AllU16 : List ℕ → Type 0
AllU16 [] = Unit
AllU16 (v ∷ vs) = (v < 2 ^ 16) × AllU16 vs

length-u16s : (vs : List ℕ) → length (u16s vs) ≡ 2 * length vs
unfolding put_u16
length-u16s [] = omega arith
length-u16s (v ∷ vs) = omega (arith, length-u16s vs)

-- A loop of `w_u16` whose words fit places them all.
w_u16s_fits :
    (vs : List ℕ) (w : Writer)
    → w.ok ≡ true
    → w.pos + 2 * length vs ≤ w.cap
    → w_u16s vs w ≡ record w { pos = w.pos + 2 * length vs; placed = w.placed ++ u16s vs }
unfolding w_u16s
w_u16s_fits [] w k h = ground (arith, append-nil w.placed)
w_u16s_fits (v ∷ vs) w k h =
    let step : w_u16 v w ≡ record w { pos = w.pos + 2; placed = w.placed ++ put_u16 v } =
      unfold w_u16 put_u16 in w_bytes_fits (put_u16 v) w k (omega arith) in
    rw step (
      w_u16s_fits vs (record w { pos = w.pos + 2; placed = w.placed ++ put_u16 v }) k (omega arith)
      ∙ ground (arith, append_assoc w.placed (put_u16 v) (u16s vs)))

-- The reader takes them back.
r_u16s_lem :
    (vs rest : List ℕ)
    → AllU16 vs
    → r_u16s (length vs) (record { left = u16s vs ++ rest; ok = true })
      ≡ (vs, record { left = rest; ok = true })
unfolding r_u16s
r_u16s_lem [] rest h = refl
r_u16s_lem (v ∷ vs) rest h =
    let step : r_u16 (record { left = put_u16 v ++ (u16s vs ++ rest); ok = true })
        ≡ (v, record { left = u16s vs ++ rest; ok = true }) =
      unfold r_u16 r_take copy skip get_u16 put_u16 in ground (arith, h.0) in
    rw (append_assoc (put_u16 v) (u16s vs) rest, step) (ground (arith, r_u16s_lem vs rest h.1))

encode_idlist_lem :
    (out : List ℕ) (cap type flag trans_id : ℕ) (ids : List ℕ)
    → length ids ≤ max_file_num
    → header_len + 2 * length ids ≤ cap
    → encode_idlist out cap type flag trans_id ids
      ≡ some (write_header out type flag trans_id (length (u16s ids)) ++ u16s ids)
unfolding encode_idlist
encode_idlist_lem out cap type flag trans_id ids hm hc =
    let m : (2 * length ids) % 2 ^ 16 ≡ length (u16s ids) = omega (arith, length-u16s ids) in
    let w : w_u16s ids (w_init cap)
        ≡ record { cap = cap; pos = 8 + 2 * length ids; ok = true; placed = u16s ids } =
      unfold w_init in
      w_u16s_fits ids (record { cap = cap; pos = 8; ok = true; placed = [] }) refl hc in
    rw (w, m) (ground arith)

decode_idlist_lem :
    (frame : List ℕ) (type flag trans_id : ℕ) (ids : List ℕ)
    → AllU16 ids
    → length ids ≤ max_file_num
    → frame_payload frame type
      ≡ some (
        record {
          type = type;
          flag = flag;
          session_id = 0;
          trans_id = trans_id;
          payload_len = length (u16s ids);
        },
        u16s ids,
      )
    → decode_idlist frame type ≡ some (record { trans_id = trans_id; flag = flag; ids = ids })
unfolding decode_idlist r_init
decode_idlist_lem frame type flag trans_id ids ha hm e =
    let l = length-u16s ids in
    let half : length (u16s ids) / 2 ≡ length ids = omega arith in
    let even : length (u16s ids) % 2 ≡ 0 = omega arith in
    let read : r_u16s (length (u16s ids) / 2) (record { left = u16s ids; ok = true })
        ≡ (ids, record { left = []; ok = true }) =
      rw half (rw (append-nil (u16s ids)) at (r_u16s_lem ids [] ha)) in
    ground (arith, e, read)

-- A list of 1 to 500 ids of 16 bits that fits the buffer is read back, with the transfer id of 16
-- bits and the flag.
pub idlist-roundtrip :
    (out : List ℕ) (cap type flag trans_id : ℕ) (ids : List ℕ)
    → trans_id < 2 ^ 16
    → AllU16 ids
    → 0 < length ids
    → length ids ≤ max_file_num
    → header_len + 2 * length ids ≤ cap
    → (frame : List ℕ) × (encode_idlist out cap type flag trans_id ids ≡ some frame)
      × (decode_idlist frame type ≡ some (record { trans_id = trans_id; flag = flag; ids = ids }))
idlist-roundtrip out cap type flag trans_id ids ht ha hp hm hc =
    let l = length-u16s ids in
    let fp =
      frame_payload-write_header out type flag trans_id (u16s ids) ht (omega arith) (omega arith) in
    (
      write_header out type flag trans_id (length (u16s ids)) ++ u16s ids,
      encode_idlist_lem out cap type flag trans_id ids hm hc,
      decode_idlist_lem _ type flag trans_id ids ha hm fp,
    )

encode_rst_lem :
    (out : List ℕ) (cap trans_id code : ℕ) (ids : List ℕ)
    → length ids ≤ max_file_num
    → header_len + (2 + 2 * length ids) ≤ cap
    → encode_rst out cap trans_id code ids
      ≡ some (write_header out rst 0 trans_id (length (u16s (code ∷ ids))) ++ u16s (code ∷ ids))
unfolding encode_rst
encode_rst_lem out cap trans_id code ids hm hc =
    let m : (2 + 2 * length ids) % 2 ^ 16 ≡ length (u16s (code ∷ ids)) =
      omega (arith, length-u16s (code ∷ ids)) in
    let w : w_u16s ids (w_u16 code (w_init cap)) ≡ record {
      cap = cap;
      pos = 8 + 2 * suc (length ids);
      ok = true;
      placed = u16s (code ∷ ids);
    } =
      unfold w_init w_u16s in
      w_u16s_fits (code ∷ ids) (record { cap = cap; pos = 8; ok = true; placed = [] }) refl
        (omega arith) in
    rw (w, m) (ground arith)

decode_rst_lem :
    (frame : List ℕ) (trans_id code : ℕ) (ids : List ℕ)
    → code < 2 ^ 16
    → AllU16 ids
    → length ids ≤ max_file_num
    → frame_payload frame rst
      ≡ some (
        record {
          type = rst;
          flag = 0;
          session_id = 0;
          trans_id = trans_id;
          payload_len = length (u16s (code ∷ ids));
        },
        u16s (code ∷ ids),
      )
    → decode_rst frame ≡ some (record { trans_id = trans_id; code = code; ids = ids })
unfolding decode_rst r_init
decode_rst_lem frame trans_id code ids hc ha hm e =
    let l : length (u16s (code ∷ ids)) ≡ 2 + 2 * length ids =
      length-u16s (code ∷ ids) ∙ omega arith in
    let half : (length (u16s (code ∷ ids)) - 2) / 2 ≡ length ids = omega arith in
    let even : length (u16s (code ∷ ids)) % 2 ≡ 0 = omega arith in
    let first : r_u16 (record { left = u16s (code ∷ ids); ok = true })
        ≡ (code, record { left = u16s ids; ok = true }) =
      unfold r_u16 r_take copy skip get_u16 put_u16 in ground arith in
    let read : r_u16s ((length (u16s (code ∷ ids)) - 2) / 2) (record { left = u16s ids; ok = true })
        ≡ (ids, record { left = []; ok = true }) =
      rw half (rw (append-nil (u16s ids)) at (r_u16s_lem ids [] ha)) in
    ground (arith, e, first, read)

-- A reset with up to 500 ids that fits the buffer is read back, with its code and transfer id; all
-- are of 16 bits.
pub rst-roundtrip :
    (out : List ℕ) (cap trans_id code : ℕ) (ids : List ℕ)
    → trans_id < 2 ^ 16
    → code < 2 ^ 16
    → AllU16 ids
    → length ids ≤ max_file_num
    → header_len + (2 + 2 * length ids) ≤ cap
    → (frame : List ℕ) × (encode_rst out cap trans_id code ids ≡ some frame)
      × (decode_rst frame ≡ some (record { trans_id = trans_id; code = code; ids = ids }))
rst-roundtrip out cap trans_id code ids ht hc ha hm hcap =
    let l = length-u16s ids in
    let lb : length (u16s (code ∷ ids)) ≡ 2 + 2 * length ids =
      length-u16s (code ∷ ids) ∙ omega arith in
    let fp =
      frame_payload-write_header out rst 0 trans_id (u16s (code ∷ ids)) ht (omega arith)
        (omega arith) in
    (
      write_header out rst 0 trans_id (length (u16s (code ∷ ids))) ++ u16s (code ∷ ids),
      encode_rst_lem out cap trans_id code ids hm hcap,
      decode_rst_lem _ trans_id code ids hc ha hm fp,
    )

-- An empty id list is not sent as a frame: the call reports eight bytes, but the header is not
-- written, so that the buffer keeps the bytes that it had.
pub idlist-empty :
    (out : List ℕ) (cap type flag trans_id : ℕ)
    → header_len ≤ cap
    → encode_idlist out cap type flag trans_id [] ≡ some (take header_len out)
unfolding encode_idlist w_u16s w_init write_header header_pack
idlist-empty out cap type flag trans_id h = ground (arith, append-nil (take header_len out))
