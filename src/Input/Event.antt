-- ===== src/Input/Event.antt =====
-- src/proto/remote_input.h and remote_input.c: the event and the length of its body.
use hwphonelink.Prelude.{
  ◌*◌, ◌+◌, ◌&&◌, ◌||◌, ltb, ◌==◌, Bool, if◌then◌else◌, List, Option, ℕ, some, none, false, true,
}

-- The type numbers.
abbrev pub touch : ℕ
touch = 0

abbrev pub key : ℕ
key = 1

abbrev pub zoom : ℕ
zoom = 2

abbrev pub scroll : ℕ
scroll = 3

abbrev pub mouse : ℕ
mouse = 6

abbrev pub input7 : ℕ
input7 = 7

abbrev pub wheel : ℕ
wheel = 8

abbrev pub vkey : ℕ
vkey = 9

abbrev pub message : ℕ
message = 0xa

-- `RemoteInputEvent`. A `gdouble` that goes through `d16` stands as the 32 bits of
-- `(gint32)v`, and `zoom_pressure` as the 64 bits of its pattern. A pointer is `none` for NULL, else
-- the bytes from it on.
pub record Event : Type 0 where
  pub type : ℕ
  pub subtype : ℕ
  pub flags1 : ℕ
  pub flags2 : ℕ
  pub touch_cnt : ℕ
  pub touch_ids : List ℕ
  pub touch_x : List ℕ
  pub touch_y : List ℕ
  pub key_f16a : ℕ
  pub key_f16b : ℕ
  pub key_f32 : ℕ
  pub zoom_x : ℕ
  pub zoom_y : ℕ
  pub zoom_pressure : ℕ
  pub scroll_axis : ℕ
  pub scroll_delta : ℕ
  pub mouse_button : ℕ
  pub mouse_x : ℕ
  pub mouse_y : ℕ
  pub mouse_z : ℕ
  pub mouse_w : ℕ
  pub content : Option (List ℕ)
  pub content_len : ℕ
  pub focus_f1 : ℕ
  pub focus_f2 : ℕ
  pub focus_f3 : ℕ
  pub focus_f4 : ℕ
  pub focus_f5 : ℕ
  pub wheel_dir : ℕ
  pub wheel_f1 : ℕ
  pub wheel_x : ℕ
  pub wheel_y : ℕ
  pub vkey_x : ℕ
  pub vkey_y : ℕ
  pub msg_len : ℕ
  pub msg_payload : Option (List ℕ)

abbrev pub is_null : Option (List ℕ) → Bool
is_null none = true
is_null (some p) = false

unfoldable pub input7_len : Event → Option ℕ
input7_len ev =
    if ev.subtype == 0
    then (if ltb 472 ev.content_len || ltb 0 ev.content_len && is_null ev.content
        then none
        else some (ev.content_len + 5))
    else if ev.subtype == 1
    then some 12
    else none

unfoldable pub message_len : Event → Option ℕ
message_len ev =
    if ltb 1 ev.subtype || ltb ev.msg_len 2 || ltb 472 ev.msg_len || is_null ev.msg_payload
    then none
    else some (ev.msg_len + 5)

-- A body of fixed length whose subtype has a greatest value.
unfoldable pub bounded_len : ℕ → ℕ → Event → Option ℕ
bounded_len most len ev = if ltb most ev.subtype then none else some len

-- `body_len`: `none` for the result -1.
unfoldable pub body_len : Event → Option ℕ
body_len ev =
    if ev.type == touch
    then (if ltb ev.touch_cnt 1 || ltb 4 ev.touch_cnt || ltb 2 ev.subtype
        then none
        else some (9 * ev.touch_cnt + 4))
    else if ev.type == key
    then bounded_len 1 12 ev
    else if ev.type == zoom
    then some 9
    else if ev.type == scroll
    then bounded_len 1 5 ev
    else if ev.type == mouse
    then bounded_len 2 12 ev
    else if ev.type == input7
    then input7_len ev
    else if ev.type == wheel
    then bounded_len 1 10 ev
    else if ev.type == vkey
    then bounded_len 3 7 ev
    else if ev.type == message
    then message_len ev
    else none
