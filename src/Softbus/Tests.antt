-- ===== src/Softbus/Tests.antt =====
-- Runs of the frame codec and stream buffer of src/proto/softbus_frame.c.
use hwphonelink.Softbus.AuthSafety.{auth_feed-IsVerified, IsVerified}
use hwphonelink.Softbus.Hex.{nibble, hex_bytes, from_hex, to_hex}
use hwphonelink.Softbus.Handshake.{handshake-completes, auth_side, IsBytes, handshake}
use hwphonelink.Softbus.Sends.{pump_chunks-send_messages, message_of, send_messages, Session}
use hwphonelink.Softbus.AuthFeed.{
  stored_sig, nonce_of, complete_active, sig_matches, verify, response_of, on_auth_response,
  on_auth_msg, AuthDraw, auth_feed,
}
use hwphonelink.Softbus.Auth.{
  const_time_eq, state_num, derived, derive_keys, compute_sig, result_complete, auth_done,
  device_auth, new_msg, auth_new, AuthMsg, Auth,
}
use hwphonelink.Softbus.Keys.{session_keys}
use hwphonelink.Prelude.{
  take-append-drop, ◌∙◌, ◌++◌, ap, AllBytes, ◌<◌, Option, ℕ, List, none, true, suc, zero, arith,
  map,
}
use hwphonelink.Softbus.Session.{pump_chunks}
use hwphonelink.Softbus.Buffer.{buf_new}
use mathlib.Core.List.{append-nil, flatten}
use hwphonelink.Softbus.Frame.{zero_frame, Frame}
use hwphonelink.Prelude.{◌≡◌, drop, take, ◌∷◌, replicate, [], some, refl}

abbrev frame : Frame
frame = record {
  session_id = replicate 8 1;
  seq = 5;
  type = 1;
  flags = 3;
  pkt_flags = 0;
  ext_len = 2;
  payload = some (7 ∷ 8 ∷ 9 ∷ []);
  payload_len = 3;
}

abbrev empty : Frame
empty = record {
  session_id = replicate 8 2;
  seq = 6;
  type = 2;
  flags = 0;
  pkt_flags = 0;
  ext_len = 0;
  payload = some [];
  payload_len = 0;
}

toy_hmac : List ℕ → List ℕ → Option (List ℕ)
toy_hmac k x = some (replicate 32 1)

toy_hkdf : List ℕ → List ℕ → List ℕ → Option (List ℕ)
toy_hkdf ikm salt info = some (replicate 32 2)

draws : ℕ → AuthDraw
draws n = record { auth_now = n; nonce_p = replicate 16 5; stale = replicate 32 0 }

abbrev psk : List ℕ
psk = 9 ∷ []

abbrev id_a : List ℕ
id_a = b'a' ∷ []

abbrev id_p : List ℕ
id_p = b'p' ∷ []

all_small : (n b : ℕ) → b < 256 → AllBytes (replicate n b)
all_small zero b h = tt
all_small (suc n) b h = (h, all_small n b h)

handshake-completes_example :
    let h =
      handshake
        (auth_side toy_hmac toy_hkdf psk id_a none 0)
        (auth_side toy_hmac toy_hkdf psk id_p none 0)
        7
        draws
        (auth_new 12 (replicate 16 4))
        (auth_new 33 (replicate 16 8)) in
    (h.active_end.auth_state ≡ auth_done)
    × (h.active_result ≡ result_complete)
    × (h.passive_end.auth_state ≡ auth_done)
    × (h.passive_result ≡ result_complete)
    × (h.active_end.keys ≡ some (replicate 32 2, replicate 32 2))
    × (h.passive_end.keys ≡ some (replicate 32 2, replicate 32 2))
unfolding draws toy_hmac toy_hkdf session_keys
handshake-completes_example =
    handshake-completes toy_hmac toy_hkdf psk id_a id_p none none 0 0 12 33 7 (replicate 16 4)
      (replicate 16 8) draws (replicate 32 1) (replicate 32 2) (replicate 32 2)
      (refl, all_small 16 4 (omega arith)) (refl, all_small 16 5 (omega arith))
      (refl, all_small 32 1 (omega arith)) refl refl refl

abbrev waiting : Auth
waiting = record (auth_new 12 (replicate 16 4)) {
  auth_state = device_auth;
  active = true;
  peer_device_id = some id_p;
}

abbrev response_msg : AuthMsg
response_msg = record (new_msg device_auth waiting) {
  msg_nonce = some (to_hex (replicate 16 5));
  msg_sig = some (to_hex (replicate 32 1));
}

toy_hmac-IsBytes : (k x s : List ℕ) → toy_hmac k x ≡ some s → IsBytes 32 s
unfolding toy_hmac
toy_hmac-IsBytes k x s e =
    let q : replicate 32 1 ≡ s = cc in rw⁻¹ q (refl, all_small 32 1 (omega arith))

auth_feed-IsVerified_example :
    IsVerified (auth_side toy_hmac toy_hkdf psk id_a none 0) (draws 2) response_msg waiting
unfolding draws toy_hmac toy_hkdf auth_feed on_auth_msg on_auth_response response_of verify
    sig_matches complete_active compute_sig derive_keys derived session_keys auth_new new_msg
    state_num to_hex nonce_of from_hex hex_bytes nibble stored_sig const_time_eq
auth_feed-IsVerified_example =
    auth_feed-IsVerified (auth_side toy_hmac toy_hkdf psk id_a none 0) (draws 2) response_msg
      waiting (refl, all_small 32 0 (omega arith)) toy_hmac-IsBytes refl refl refl

abbrev sender_session : Session
sender_session = record {
  own_session_id = replicate 8 1;
  session_type = 1;
  session_seq = 0;
  running = true;
}

abbrev messages : List (List ℕ)
messages = (1 ∷ 2 ∷ []) ∷ [] ∷ []

pump_chunks-send_messages_example :
    let bytes = send_messages (λ b. true) messages sender_session in
    let r = pump_chunks (take 5 bytes ∷ drop 5 bytes ∷ []) buf_new zero_frame in
    (map message_of r.0 ≡ messages) × (r.1 ≡ [])
unfolding flatten
pump_chunks-send_messages_example =
    let bytes = send_messages (λ b. true) messages sender_session in
    pump_chunks-send_messages (λ b. true) messages (take 5 bytes ∷ drop 5 bytes ∷ []) sender_session
      zero_frame (λ b. refl) refl (omega arith) refl (omega arith, (omega arith, tt))
      (ap (λ z. take 5 bytes ++ z) (append-nil (drop 5 bytes)) ∙ take-append-drop 5 bytes)
