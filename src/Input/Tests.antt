-- ===== src/Input/Tests.antt =====
-- A run of the packet builder of src/proto/remote_input.c.
use hwphonelink.Input.Size.{remote_input_build-size}
use hwphonelink.Input.Build.{remote_input_build}
use hwphonelink.Input.Event.{body_len, Event}
use hwphonelink.Prelude.{
  arith, get_u32, skip, get_u16, ◌≤◌, ◌%◌, length, ◌≡◌, ℕ, List, ◌∷◌, [], some, none, refl,
}

abbrev two_fingers : Event
two_fingers = record {
  type = 0;
  subtype = 2;
  flags1 = 8;
  flags2 = 1;
  touch_cnt = 2;
  touch_ids = 0 ∷ 1 ∷ 0 ∷ 0 ∷ [];
  touch_x = 100 ∷ 200 ∷ 0 ∷ 0 ∷ [];
  touch_y = 300 ∷ 400 ∷ 0 ∷ 0 ∷ [];
  key_f16a = 0;
  key_f16b = 0;
  key_f32 = 0;
  zoom_x = 0;
  zoom_y = 0;
  zoom_pressure = 0;
  scroll_axis = 0;
  scroll_delta = 0;
  mouse_button = 0;
  mouse_x = 0;
  mouse_y = 0;
  mouse_z = 0;
  mouse_w = 0;
  content = none;
  content_len = 0;
  focus_f1 = 0;
  focus_f2 = 0;
  focus_f3 = 0;
  focus_f4 = 0;
  focus_f5 = 0;
  wheel_dir = 0;
  wheel_f1 = 0;
  wheel_x = 0;
  wheel_y = 0;
  vkey_x = 0;
  vkey_y = 0;
  msg_len = 0;
  msg_payload = none;
}

remote_input_build-size_example :
    (pkt : List ℕ) × (remote_input_build two_fingers 1000 512 ≡ some pkt)
    × (length pkt ≡ 36)
    × (length pkt % 2 ≡ 0)
    × (length pkt ≤ 492)
    × (get_u16 (skip 2 pkt) ≡ length pkt)
    × (get_u32 (skip 32 pkt) ≡ 1000)
unfolding body_len
remote_input_build-size_example =
    remote_input_build-size two_fingers 1000 512 22
      (record { content_bytes = λ p e. cc; message_bytes = λ p e. cc }) (omega arith) refl
      (omega arith)
