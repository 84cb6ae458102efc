-- ===== src/Input/Build.antt =====
-- src/proto/remote_input.c: the packet of an event.
use hwphonelink.Input.Event.{
  wheel, mouse, scroll, message, zoom, vkey, key, input7, touch, body_len, Event,
}
use hwphonelink.Prelude.{
  ◌*◌, ◌/◌, replicate, put_u32, put_u16, ltb, ◌==◌, ◌++◌, ◌-◌, if◌then◌else◌, ◌∷◌, get_or, copy,
  ◌+◌, ◌^◌, List, ◌%◌, Option, ℕ, [], some, none, suc, zero,
}

-- `d16`.
abbrev pub d16 : ℕ → ℕ
d16 v = v % 2 ^ 16

-- `lenfield`.
unfoldable pub lenfield : ℕ → ℕ
lenfield l = (l % 2 + (l - 3)) % 2 ^ 16

-- The bytes that `memcpy(dst, p, n)` copies.
unfoldable pub copied : Option (List ℕ) → ℕ → List ℕ
copied none n = []
copied (some p) n = copy n p

-- The loop over the touch points `i` to `i + n`.
unfoldable pub touch_points : ℕ → ℕ → Event → List ℕ
touch_points zero i ev = []
touch_points (suc n) i ev =
    (get_or ev.touch_ids i 0 % 256 ∷ [])
    ++ (put_u16 (d16 (get_or ev.touch_x i 0))
        ++ (put_u16 (d16 (get_or ev.touch_y i 0)) ++ touch_points n (suc i) ev))

-- The cases of `remote_input_build`: the `l` bytes of the body, where a byte that the source leaves
-- zero is 0.
unfoldable pub touch_body : ℕ → Event → List ℕ
touch_body l ev =
    (get_or (0x0e ∷ 0x0f ∷ 0x02 ∷ []) ev.subtype 0 ∷ [])
    ++ (put_u16 (lenfield l)
        ++ ((ev.touch_cnt ∷ [])
            ++ (touch_points ev.touch_cnt 0 ev ++ replicate (4 * ev.touch_cnt) 0)))

unfoldable pub key_body : Event → List ℕ
key_body ev =
    ((3 + ev.subtype) % 256 ∷ [])
    ++ (put_u16 9
        ++ ((0 ∷ []) ++ (put_u16 ev.key_f16a ++ (put_u16 ev.key_f16b ++ put_u32 ev.key_f32))))

unfoldable pub zoom_body : Event → List ℕ
zoom_body ev =
    (0x05 ∷ [])
    ++ (put_u16 7
        ++ (put_u16 (d16 ev.zoom_x)
            ++ (put_u16 (d16 ev.zoom_y)
                ++ (ev.zoom_pressure % 256 ∷ ev.zoom_pressure / 2 ^ 8 % 256 ∷ []))))

unfoldable pub scroll_body : Event → List ℕ
scroll_body ev =
    ((0x06 + ev.subtype) % 256 ∷ []) ++ (put_u16 3 ++ (ev.scroll_axis ∷ ev.scroll_delta % 256 ∷ []))

-- One leading byte and four coordinates, behind an action and the length field 9.
unfoldable pub four_coordinates : ℕ → ℕ → ℕ → ℕ → ℕ → ℕ → List ℕ
four_coordinates action first x y z w =
    (action ∷ [])
    ++ (put_u16 9
        ++ ((first ∷ [])
            ++ (put_u16 (d16 x) ++ (put_u16 (d16 y) ++ (put_u16 (d16 z) ++ put_u16 (d16 w))))))

unfoldable pub mouse_body : Event → List ℕ
mouse_body ev =
    four_coordinates (get_or (0x0e ∷ 0x0f ∷ 0x10 ∷ []) ev.subtype 0) ev.mouse_button ev.mouse_x
      ev.mouse_y ev.mouse_z ev.mouse_w

unfoldable pub input7_body : ℕ → Event → List ℕ
input7_body l ev =
    if ev.subtype == 0
    then (0x00 ∷ [])
      ++ (put_u16 (lenfield l) ++ (put_u16 ev.content_len ++ copied ev.content ev.content_len))
    else four_coordinates 0x01 ev.focus_f1 ev.focus_f2 ev.focus_f3 ev.focus_f4 ev.focus_f5

-- The parts of the byte for the direction have no bit in common, so `|` is `+`.
unfoldable pub wheel_body : Event → List ℕ
wheel_body ev =
    ((0x0c + ev.subtype) % 256 ∷ [])
    ++ (put_u16 7
        ++ (((ev.wheel_dir / 2 % 4 * 4 + ev.wheel_dir % 2) % 256 ∷ [])
            ++ (put_u16 ev.wheel_f1 ++ (put_u16 (d16 ev.wheel_x) ++ put_u16 (d16 ev.wheel_y)))))

unfoldable pub vkey_body : Event → List ℕ
vkey_body ev =
    ((2 + ev.subtype) % 256 ∷ [])
    ++ (put_u16 5 ++ (put_u16 (d16 ev.vkey_x) ++ put_u16 (d16 ev.vkey_y)))

unfoldable pub message_body : ℕ → Event → List ℕ
message_body l ev =
    ((6 + ev.subtype) % 256 ∷ [])
    ++ (put_u16 (lenfield l)
        ++ (put_u16 (ev.msg_len % 2 ^ 16)
            ++ (put_u16 (ev.msg_len / 2 ^ 16 % 2 ^ 16) ++ copied ev.msg_payload (ev.msg_len - 2))))

unfoldable pub event_body : ℕ → Event → List ℕ
event_body l ev =
    if ev.type == touch
    then touch_body l ev
    else if ev.type == key
    then key_body ev
    else if ev.type == zoom
    then zoom_body ev
    else if ev.type == scroll
    then scroll_body ev
    else if ev.type == mouse
    then mouse_body ev
    else if ev.type == input7
    then input7_body l ev
    else if ev.type == wheel
    then wheel_body ev
    else if ev.type == vkey
    then vkey_body ev
    else message_body l ev

-- The ten bytes of the header.
unfoldable pub packet_header : Event → ℕ → List ℕ
packet_header ev total =
    let class =
      if ev.type == input7
      then 2
      else if ev.type == vkey
      then 3
      else if ev.type == message
      then 4
      else 0 in
    ((ev.flags1 / 2 ^ 6 % 2 * 2 + ev.flags1 / 2 ^ 5 % 2 * 4 + ev.flags1 / 2 ^ 3 % 2 * 8)
      ∷ class
      ∷ [])
    ++ (put_u16 (total % 2 ^ 16) ++ (ev.flags2 ∷ 0 ∷ 0 ∷ 0 ∷ 0 ∷ 0 ∷ []))

unfoldable pub build_body : Event → ℕ → ℕ → ℕ → Option (List ℕ)
build_body ev ts cap l =
    let pad = (l + 4) % 2 in
    let total = 10 + l + 4 + pad in
    if ltb cap total
    then none
    else some (packet_header ev total ++ (event_body l ev ++ (put_u32 ts ++ replicate pad 0)))

-- `remote_input_build` with pointers that are not NULL: the packet, or `none` for -1.
unfoldable pub build_of_len : Event → ℕ → ℕ → Option ℕ → Option (List ℕ)
build_of_len ev ts cap none = none
build_of_len ev ts cap (some l) = build_body ev ts cap l

unfoldable pub remote_input_build : Event → ℕ → ℕ → Option (List ℕ)
remote_input_build ev ts cap = build_of_len ev ts cap (body_len ev)
