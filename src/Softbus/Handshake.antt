-- ===== src/Softbus/Handshake.antt =====
-- A whole authentication of src/proto/softbus_auth.c, where each message that one side returns is fed
-- to the other.
use mathlib.Core.List.{append-nil}
use hwphonelink.Softbus.Keys.{session_keys_comm, session_keys}
use hwphonelink.Fillp.Frame.Authentic.{diff_bits_self}
use hwphonelink.Softbus.Hex.{from_hex-to_hex, to_hex}
use hwphonelink.Softbus.AuthFeed.{
  complete_active, sig_matches, verify, respond, response_of, sign, on_device_info,
  on_auth_response, on_auth_request, learn_peer, on_device_id, on_negotiation, on_auth_msg,
  auth_feed, AuthDraw, stored_sig, nonce_of,
}
use hwphonelink.Softbus.Auth.{
  keep_or, derive_keys, compute_sig, result_complete, derived, result_send, new_msg,
  sync_device_info, device_auth, sync_device_id, sync_negotiation, AuthMsg, auth_done, enter_state,
  begin_active, AuthResult, auth_new, Auth, const_time_eq, AuthIo,
}
use hwphonelink.Prelude.{
  ap, ◌+◌, ◌*◌, ◌/◌, ◌∙◌, ◌^◌, ◌%◌, ◌∷◌, ◌++◌, drop, [], none, false, suc, zero, arith, ◌≡◌, Option,
  ◌==◌, AllBytes, length, List, ℕ, some, true, refl,
}

-- The two contexts behind the five messages, each with the result of its last call.
pub record Authenticated : Type 0 where
  pub active_end : Auth
  pub active_result : AuthResult
  pub passive_end : Auth
  pub passive_result : AuthResult

unfoldable pub handshake : AuthIo → AuthIo → ℕ → (ℕ → AuthDraw) → Auth → Auth → Authenticated
handshake io_a io_p now draws a p =
    let negotiation = begin_active now a in
    let device_id = auth_feed io_p (draws 0) negotiation.2 p in
    let request = auth_feed io_a (draws 1) device_id.2 negotiation.0 in
    let response = auth_feed io_p (draws 2) request.2 device_id.0 in
    let info = auth_feed io_a (draws 3) response.2 request.0 in
    let last = auth_feed io_p (draws 4) info.2 response.0 in
    record {
      active_end = info.0;
      active_result = info.1;
      passive_end = last.0;
      passive_result = last.1;
    }

-- A string of bytes of this length.
abbrev pub IsBytes : ℕ → List ℕ → Type 0
IsBytes n xs = (length xs ≡ n) × AllBytes xs

const_time_eq_refl : (sig : List ℕ) → AllBytes sig → const_time_eq sig sig 32 ≡ true
unfolding const_time_eq
const_time_eq_refl sig h = rw (diff_bits_self 32 sig sig 0 h h refl refl) refl

eq_self : (n : ℕ) → (n == n) ≡ true
eq_self n = ground arith

nonce_of-to_hex : (nonce : List ℕ) → IsBytes 16 nonce → nonce_of (to_hex nonce) ≡ some nonce
unfolding nonce_of
nonce_of-to_hex nonce h = rw (from_hex-to_hex nonce 16 h.1 (omega (arith, h.0)), h.0) refl

drop-all : (n : ℕ) (xs : List ℕ) → length xs ≡ n → drop n xs ≡ []
drop-all zero [] h = refl
drop-all zero (x ∷ xs) h = absurd (omega arith)
drop-all (suc n) [] h = absurd (omega arith)
drop-all (suc n) (x ∷ xs) h = drop-all n xs (omega arith)

stored_sig-whole :
    (stale sig : List ℕ) → length stale ≡ 32 → length sig ≡ 32 → stored_sig stale sig ≡ sig
unfolding stored_sig
stored_sig-whole stale sig hs hl = rw (hl, drop-all 32 stale hs, append-nil sig) refl

-- One side, with the secret `k`.
abbrev pub auth_side :
    (List ℕ → List ℕ → Option (List ℕ))
    → (List ℕ → List ℕ → List ℕ → Option (List ℕ))
    → List ℕ
    → List ℕ
    → Option (List ℕ)
    → ℕ
    → AuthIo
auth_side hmac hkdf k id name cap = record {
  psk = some k;
  local_id = some id;
  local_name = name;
  capabilities = cap;
  hmac = hmac;
  hkdf = hkdf;
}

module _ (hmac : List ℕ → List ℕ → Option (List ℕ))
    (hkdf : List ℕ → List ℕ → List ℕ → Option (List ℕ)) (k id_a id_p : List ℕ)
    (name_a name_p : Option (List ℕ)) (cap_a cap_p r_a r_p now : ℕ) (n_a n_p : List ℕ)
    (draws : ℕ → AuthDraw) (sig control_key data_key : List ℕ) where
  abbrev io_a : AuthIo
  io_a = auth_side hmac hkdf k id_a name_a cap_a

  abbrev io_p : AuthIo
  io_p = auth_side hmac hkdf k id_p name_p cap_p

  abbrev keys_of : Option (List ℕ × List ℕ)
  keys_of = some (control_key, data_key)

  abbrev a1 : Auth
  a1 =
      enter_state now sync_negotiation
        (record (auth_new r_a n_a) { active = true; awaiting_reply = true })

  abbrev p1 : Auth
  p1 =
      enter_state (draws 0).auth_now sync_device_id
        (record (auth_new r_p n_p) { auth_id = a1.auth_id; active = false; awaiting_reply = true })

  abbrev a2 : Auth
  a2 =
      enter_state (draws 1).auth_now device_auth
        (record a1 { peer_device_id = some id_p; awaiting_reply = true })

  abbrev p2 : Auth
  p2 =
      enter_state (draws 2).auth_now sync_device_info
        (record p1 { peer_device_id = some id_a; keys = keys_of; awaiting_reply = true })

  abbrev a3 : Auth
  a3 = record a2 { keys = keys_of; auth_state = auth_done; awaiting_reply = false }

  abbrev p3 : Auth
  p3 = enter_state (draws 4).auth_now auth_done (record p2 { awaiting_reply = false })

  abbrev m0 : AuthMsg
  m0 = record (new_msg sync_negotiation a1) { proto_version = some 1 }

  abbrev m1 : AuthMsg
  m1 = record (new_msg sync_device_id p1) { msg_device_id = some id_p }

  abbrev m2 : AuthMsg
  m2 = record (new_msg device_auth a2) {
    auth_type = some 3;
    msg_nonce = some (to_hex n_a);
    msg_device_id = some id_a;
  }

  abbrev m3 : AuthMsg
  m3 = record (new_msg device_auth p2) {
    auth_type = some 3;
    msg_nonce = some (to_hex (draws 2).nonce_p);
    msg_sig = some (to_hex sig);
  }

  abbrev m4 : AuthMsg
  m4 = record (new_msg sync_device_info a3) {
    device_name = name_a;
    msg_capabilities = some cap_a;
    session_key_len = some 32;
  }

  step1 : auth_feed io_p (draws 0) (some m0) (auth_new r_p n_p) ≡ (p1, result_send, some m1)
  unfolding auth_feed on_auth_msg on_negotiation auth_new enter_state new_msg
  step1 = refl

  step2 : auth_feed io_a (draws 1) (some m1) a1 ≡ (a2, result_send, some m2)
  unfolding auth_feed on_auth_msg on_device_id learn_peer auth_new enter_state new_msg
  step2 = rw (eq_self (r_a % 2 ^ 31 / 2 * 2 + 1)) refl

  module _ (a_16 : IsBytes 16 n_a) (p_16 : IsBytes 16 (draws 2).nonce_p) (sig_32 : IsBytes 32 sig)
      (stale_32 : length (draws 3).stale ≡ 32)
      (signed : hmac k (n_a ++ ((draws 2).nonce_p ++ (id_a ++ id_p))) ≡ some sig)
      (derives : session_keys hkdf id_a id_p k ≡ some (control_key, data_key)) where
    derives_p : derived io_p (some id_a) ≡ keys_of
    unfolding derived
    derives_p = session_keys_comm hkdf id_p id_a k ∙ derives

    step3 : auth_feed io_p (draws 2) (some m2) p1 ≡ (p2, result_send, some m3)
    unfolding auth_feed on_auth_msg on_auth_request sign respond compute_sig derive_keys auth_new
        enter_state new_msg
    step3 =
        rw (eq_self (r_a % 2 ^ 31 / 2 * 2 + 1), nonce_of-to_hex n_a a_16, signed, derives_p) refl

    step4 : auth_feed io_a (draws 3) (some m3) a2 ≡ (a3, result_complete, some m4)
    unfolding auth_feed on_auth_msg on_auth_response response_of verify sig_matches compute_sig
        complete_active derive_keys auth_new enter_state new_msg
    step4 =
        rw
          (
            eq_self (r_a % 2 ^ 31 / 2 * 2 + 1),
            nonce_of-to_hex (draws 2).nonce_p p_16,
            from_hex-to_hex sig 32 sig_32.1 (omega (arith, sig_32.0)),
            signed,
            stored_sig-whole (draws 3).stale sig stale_32 sig_32.0,
            const_time_eq_refl sig sig_32.1,
            derives,
          )
          (ap
            (λ o. (
              record a2 { keys = keep_or none o; auth_state = auth_done; awaiting_reply = false },
              result_complete,
              some m4,
            ))
            derives)

    step5 : auth_feed io_p (draws 4) (some m4) p2 ≡ (p3, result_complete, none)
    unfolding auth_feed on_auth_msg on_device_info auth_new enter_state new_msg
    step5 = rw (eq_self (r_a % 2 ^ 31 / 2 * 2 + 1)) refl

    ends : handshake io_a io_p now draws (auth_new r_a n_a) (auth_new r_p n_p) ≡ record {
      active_end = a3;
      active_result = result_complete;
      passive_end = p3;
      passive_result = result_complete;
    }
    unfolding handshake begin_active auth_new
    ends = rw (step1, step2, step3, step4, step5) refl

-- An active and a passive context, both new, with the same secret and the same library: if each
-- message that one side returns is fed to the other, the call of `begin_active` and the five calls
-- of `feed` complete the authentication on both sides, and both hold the same keys. The nonces are
-- 16 bytes, the signature of the two nonces and the two ids is 32 bytes, and the keys can be
-- derived.
pub handshake-completes :
    (hmac : List ℕ → List ℕ → Option (List ℕ)) (hkdf : List ℕ → List ℕ → List ℕ → Option (List ℕ))
    (k id_a id_p : List ℕ) (name_a name_p : Option (List ℕ)) (cap_a cap_p r_a r_p now : ℕ)
    (n_a n_p : List ℕ) (draws : ℕ → AuthDraw) (sig control_key data_key : List ℕ)
    → IsBytes 16 n_a
    → IsBytes 16 (draws 2).nonce_p
    → IsBytes 32 sig
    → length (draws 3).stale ≡ 32
    → hmac k (n_a ++ ((draws 2).nonce_p ++ (id_a ++ id_p))) ≡ some sig
    → session_keys hkdf id_a id_p k ≡ some (control_key, data_key)
    → let h =
        handshake
          (auth_side hmac hkdf k id_a name_a cap_a)
          (auth_side hmac hkdf k id_p name_p cap_p)
          now
          draws
          (auth_new r_a n_a)
          (auth_new r_p n_p) in
      (h.active_end.auth_state ≡ auth_done)
      × (h.active_result ≡ result_complete)
      × (h.passive_end.auth_state ≡ auth_done)
      × (h.passive_result ≡ result_complete)
      × (h.active_end.keys ≡ some (control_key, data_key))
      × (h.passive_end.keys ≡ some (control_key, data_key))
unfolding enter_state
handshake-completes hmac hkdf k id_a id_p name_a name_p cap_a cap_p r_a r_p now n_a n_p draws sig
      control_key data_key a p s t e f =
    let q =
      ends hmac hkdf k id_a id_p name_a name_p cap_a cap_p r_a r_p now n_a n_p draws sig control_key
        data_key a p s t e f in
    rw q (refl, refl, refl, refl, refl, refl)
