-- ===== src/Input/Size.antt =====
-- src/proto/remote_input.c: the sizes of the packets.
use hwphonelink.Input.Build.{
  build_body, build_of_len, remote_input_build, packet_header, vkey_body, wheel_body, mouse_body,
  four_coordinates, scroll_body, event_body, message_body, input7_body, zoom_body, key_body,
  touch_body, touch_points, copied,
}
use hwphonelink.Input.Event.{is_null, bounded_len, body_len, message_len, input7_len, Event}
use hwphonelink.Prelude.{
  get_u32-put_u32, skip-append, skip-past, ◌∙◌, length-put_u32, get_u32, ◌%◌, ◌++◌, ◌^◌, ◌<◌, skip,
  get_u16, length-replicate, replicate, put_u32, length-append, length-take, ◌+◌, arith, sym, ◌-◌,
  ◌*◌, ◌≤◌, length, ◌≡◌, Option, ℕ, put_u16, copy, List, some, none, true, refl, suc, zero,
}

-- A pointer that is not NULL has the bytes that its length field says.
pub record Backed (ev : Event) : Type 0 where
  pub content_bytes : (p : List ℕ) → ev.content ≡ some p → ev.content_len ≤ length p
  pub message_bytes : (p : List ℕ) → ev.msg_payload ≡ some p → ev.msg_len - 2 ≤ length p

length-copied :
    (o : Option (List ℕ)) (n : ℕ)
    → (is_null o ≡ true → n ≡ 0)
    → ((p : List ℕ) → o ≡ some p → n ≤ length p)
    → length (copied o n) ≡ n
unfolding copied copy
length-copied none n h k = sym (h refl)
length-copied (some p) n h k = omega (arith, length-take n p, k p refl)

length-touch_points : (n i : ℕ) (ev : Event) → length (touch_points n i ev) ≡ 5 * n
unfolding touch_points put_u16
length-touch_points zero i ev = refl
length-touch_points (suc n) i ev = omega (arith, length-touch_points n (suc i) ev)

length-touch_body : (l : ℕ) (ev : Event) → length (touch_body l ev) ≡ 9 * ev.touch_cnt + 4
unfolding touch_body put_u16
length-touch_body l ev = omega (
  arith,
  length-append (touch_points ev.touch_cnt 0 ev) (replicate (4 * ev.touch_cnt) 0),
  length-touch_points ev.touch_cnt 0 ev,
  length-replicate {A = ℕ} (4 * ev.touch_cnt) 0,
)

length-fixed_bodies :
    (ev : Event)
    → (length (key_body ev) ≡ 12)
      × (length (zoom_body ev) ≡ 9)
      × (length (scroll_body ev) ≡ 5)
      × (length (mouse_body ev) ≡ 12)
      × (length (wheel_body ev) ≡ 10)
      × (length (vkey_body ev) ≡ 7)
unfolding key_body zoom_body scroll_body mouse_body wheel_body vkey_body four_coordinates put_u16
    put_u32
length-fixed_bodies ev = (refl, refl, refl, refl, refl, refl)

length-input7_body :
    (ev : Event) (l m : ℕ)
    → Backed ev
    → input7_len ev ≡ some l
    → (length (input7_body m ev) ≡ l) × (l ≤ 477)
unfolding input7_len input7_body four_coordinates put_u16
length-input7_body ev l m h e =
    ground (arith, length-copied ev.content ev.content_len, h.content_bytes)

length-message_body :
    (ev : Event) (l m : ℕ)
    → Backed ev
    → message_len ev ≡ some l
    → (length (message_body m ev) ≡ l) × (l ≤ 477)
unfolding message_len message_body put_u16
length-message_body ev l m h e =
    ground (arith, length-copied ev.msg_payload (ev.msg_len - 2), h.message_bytes)

length-event_body :
    (ev : Event) (l : ℕ)
    → Backed ev
    → body_len ev ≡ some l
    → (length (event_body l ev) ≡ l) × (l ≤ 477)
unfolding body_len event_body bounded_len
length-event_body ev l h e = ground (
  arith,
  length-touch_body l ev,
  length-fixed_bodies ev,
  length-input7_body ev l l h,
  length-message_body ev l l h,
)

length-packet_header : (ev : Event) (total : ℕ) → length (packet_header ev total) ≡ 10
unfolding packet_header put_u16
length-packet_header ev total = refl

size_field :
    (ev : Event) (total : ℕ) (rest : List ℕ)
    → total < 2 ^ 16
    → get_u16 (skip 2 (packet_header ev total ++ rest)) ≡ total
unfolding packet_header put_u16 get_u16 skip
size_field ev total rest h = omega arith

-- An event with a valid body of `l` bytes makes, if the caller's buffer holds it, a packet of `14 +
-- l` bytes and the padding to an even number, at most 492 in all; its bytes 2 and 3 say this size,
-- and the four bytes behind the body are the timestamp. Pointers that are not NULL have as many
-- bytes as their length fields say.
pub remote_input_build-size :
    (ev : Event) (ts cap l : ℕ)
    → Backed ev
    → ts < 2 ^ 32
    → body_len ev ≡ some l
    → 14 + l + (l + 4) % 2 ≤ cap
    → (pkt : List ℕ) × (remote_input_build ev ts cap ≡ some pkt)
      × (length pkt ≡ 14 + l + (l + 4) % 2)
      × (length pkt % 2 ≡ 0)
      × (length pkt ≤ 492)
      × (get_u16 (skip 2 pkt) ≡ length pkt)
      × (get_u32 (skip (10 + l) pkt) ≡ ts)
unfolding remote_input_build build_of_len build_body
remote_input_build-size ev ts cap l h ht e c =
    let (lb, most) = length-event_body ev l h e in
    let total = 10 + l + 4 + (l + 4) % 2 in
    let hd = packet_header ev total in
    let lh = length-packet_header ev total in
    let pad : List ℕ = replicate ((l + 4) % 2) 0 in
    let tail = put_u32 ts ++ pad in
    let b = event_body l ev in
    let pkt = hd ++ (b ++ tail) in
    let size : length pkt ≡ total = omega (
      arith,
      lh,
      lb,
      length-append hd (b ++ tail),
      length-append b tail,
      length-append (put_u32 ts) pad,
      length-put_u32 ts,
      length-replicate {A = ℕ} ((l + 4) % 2) 0,
    ) in
    (
      pkt,
      rw e (ground arith),
      omega (arith, size),
      omega (arith, size),
      omega (arith, size),
      size_field ev total (b ++ tail) (omega arith) ∙ sym size,
      rw (skip-past (10 + l) l hd (b ++ tail) (omega (arith, lh)), skip-append l b tail lb)
          (get_u32-put_u32 ts pad ht),
    )
