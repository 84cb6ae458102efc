-- ===== src/Softbus/AuthFeed.antt =====
-- `softbus_auth_feed` of src/proto/softbus_auth.c, with an `out_json` that is not NULL as all its
-- callers have it.
use hwphonelink.Softbus.Auth.{
  auth_failed, auth_over, result_complete, result_send, sync_negotiation, auth_done,
  sync_device_info, device_auth, result_noop, fail_step, sync_device_id, derive_keys, AuthStep,
  auth_idle, new_msg, compute_sig, Auth, enter_state, auth_fail, AuthMsg, AuthIo, AuthState,
  const_time_eq,
}
use hwphonelink.Softbus.Hex.{to_hex, from_hex}
use hwphonelink.Prelude.{
  ◌>>=◌, ◌&&◌, ◌||◌, if◌then◌else◌, ◌==◌, length, not, drop, Bool, ◌++◌, Option, List, ℕ, some,
  none, false, true,
}

-- What a call takes from outside: the clock, the nonce that `softbus_random_bytes` stores, and what
-- was on the stack in `rx_sig`.
pub record AuthDraw : Type 0 where
  pub auth_now : ℕ
  pub nonce_p : List ℕ
  pub stale : List ℕ

-- The nonce in a message: 16 bytes, or `none`.
unfoldable pub nonce_of : List ℕ → Option (List ℕ)
unfolding from_hex
nonce_of hex = do nonce ← from_hex hex 16; if length nonce == 16 then some nonce else none

-- The 32 bytes of `rx_sig` once the digits are stored: a signature that is too short leaves the bytes
-- behind it as they were.
unfoldable pub stored_sig : List ℕ → List ℕ → List ℕ
stored_sig stale sig = sig ++ drop (length sig) stale

abbrev pub or_keep : Option (List ℕ) → Option (List ℕ) → Option (List ℕ)
or_keep none old = old
or_keep (some new_id) old = some new_id

abbrev pub unsupported : Option ℕ → Bool
unsupported none = false
unsupported (some version) = not (version == 1)

unfoldable pub sig_matches : Option (List ℕ) → List ℕ → Bool
unfolding const_time_eq
sig_matches none rx = false
sig_matches (some expected) rx = const_time_eq rx expected 32

-- The two members of a response, where both are there and decode.
unfoldable pub response_of : AuthMsg → Option (List ℕ × List ℕ)
unfolding nonce_of from_hex
response_of m = do
  nonce_hex ← m.msg_nonce
  sig_hex ← m.msg_sig
  nonce ← nonce_of nonce_hex
  sig ← from_hex sig_hex 32
  some (nonce, sig)

abbrev pub is_idle_state : AuthState → Bool
is_idle_state auth_idle = true
is_idle_state _ = false

module _ (io : AuthIo) (d : AuthDraw) where
  -- The passive side, in state SOFTBUS_AUTH_STATE_IDLE.
  unfoldable pub on_negotiation : AuthMsg → Auth → AuthStep
  unfolding auth_fail enter_state new_msg
  on_negotiation m a =
      let b =
        enter_state d.auth_now sync_device_id
          (record a { active = false; awaiting_reply = true }) in
      if a.active || not (m.msg_state == 1)
      then fail_step a
      else if unsupported m.proto_version
      then fail_step a
      else (
        b,
        result_send,
        some (record (new_msg sync_device_id b) { msg_device_id = io.local_id }),
      )

  -- The active side, in state SOFTBUS_AUTH_STATE_SYNC_NEGOTIATION.
  unfoldable pub learn_peer : Option (List ℕ) → Auth → AuthStep
  unfolding auth_fail enter_state new_msg to_hex
  learn_peer none a = fail_step a
  learn_peer (some peer_id) a =
      let b =
        enter_state d.auth_now device_auth
          (record a { peer_device_id = some peer_id; awaiting_reply = true }) in
      (
        b,
        result_send,
        some (record (new_msg device_auth b) {
          auth_type = some 3;
          msg_nonce = some (to_hex a.active_nonce);
          msg_device_id = io.local_id;
        }),
      )

  unfoldable pub on_device_id : AuthMsg → Auth → AuthStep
  unfolding auth_fail learn_peer
  on_device_id m a =
      if not a.active || not (m.msg_state == 2) then fail_step a else learn_peer m.msg_device_id a

  -- The passive side, in state SOFTBUS_AUTH_STATE_SYNC_DEVICE_ID: behind `_compute_sig`.
  unfoldable pub respond : Auth → Option (List ℕ) → AuthStep
  unfolding auth_fail enter_state new_msg derive_keys to_hex
  respond a none = fail_step a
  respond a (some sig) =
      let b =
        enter_state d.auth_now sync_device_info
          (record (derive_keys io a) { awaiting_reply = true }) in
      (
        b,
        result_send,
        some (record (new_msg device_auth b) {
          auth_type = some 3;
          msg_nonce = some (to_hex d.nonce_p);
          msg_sig = some (to_hex sig);
        }),
      )

  -- The request has a good nonce, and `a` the peer's id if the request or the context has one.
  unfoldable pub sign : List ℕ → List ℕ → Auth → AuthStep
  unfolding auth_fail respond compute_sig
  sign local_id nonce_a a = elim a.peer_device_id [
    | none ↦ fail_step a
    | some peer_id ↦ respond a (compute_sig io nonce_a d.nonce_p peer_id local_id)
  ]

  unfoldable pub on_auth_request : AuthMsg → Auth → AuthStep
  unfolding auth_fail sign nonce_of
  on_auth_request m a =
      if a.active || not (m.msg_state == 3) then fail_step a else elim io.local_id [
        | none ↦ fail_step a
        | some local_id ↦ elim (m.msg_nonce >>= nonce_of) [
          | none ↦ fail_step a
          | some nonce_a ↦
              sign local_id nonce_a
                (record a { peer_device_id = or_keep m.msg_device_id a.peer_device_id })
        ]
      ]

  -- The active side, in state SOFTBUS_AUTH_STATE_DEVICE_AUTH: behind the check of the signature.
  unfoldable pub complete_active : Auth → AuthStep
  unfolding auth_fail new_msg
  complete_active a = elim a.keys [
    | none ↦ fail_step a
    | some k ↦ (
      record a { auth_state = auth_done; awaiting_reply = false },
      result_complete,
      some (record (new_msg sync_device_info a) {
        device_name = io.local_name;
        msg_capabilities = some io.capabilities;
        session_key_len = some 32;
      }),
    )
  ]

  -- The nonce and the signature of a response.
  unfoldable pub verify : List ℕ → List ℕ → List ℕ → List ℕ → Auth → AuthStep
  unfolding auth_fail complete_active sig_matches compute_sig derive_keys stored_sig
  verify local_id peer_id nonce_p' sig a =
      if sig_matches (compute_sig io a.active_nonce nonce_p' local_id peer_id)
        (stored_sig d.stale sig)
      then complete_active (derive_keys io a)
      else fail_step a

  unfoldable pub on_auth_response : AuthMsg → Auth → AuthStep
  unfolding auth_fail verify response_of
  on_auth_response m a =
      if not a.active || not (m.msg_state == 3) then fail_step a else elim io.local_id [
        | none ↦ fail_step a
        | some local_id ↦ elim a.peer_device_id [
          | none ↦ fail_step a
          | some peer_id ↦ elim (response_of m) [
            | none ↦ fail_step a
            | some r ↦ verify local_id peer_id r.0 r.1 a
          ]
        ]
      ]

  -- The passive side, in state SOFTBUS_AUTH_STATE_SYNC_DEVICE_INFO.
  unfoldable pub on_device_info : AuthMsg → Auth → AuthStep
  unfolding auth_fail enter_state
  on_device_info m a = if a.active || not (m.msg_state == 4) then fail_step a else elim a.keys [
    | none ↦ fail_step a
    | some k ↦ (
      enter_state d.auth_now auth_done (record a { awaiting_reply = false }),
      result_complete,
      none,
    )
  ]

  -- The `switch` over the state.
  unfoldable pub on_auth_msg : AuthState → AuthMsg → Auth → AuthStep
  unfolding on_negotiation on_device_id on_auth_request on_auth_response on_device_info
  on_auth_msg auth_idle m a = on_negotiation m a
  on_auth_msg sync_negotiation m a = on_device_id m a
  on_auth_msg sync_device_id m a = on_auth_request m a
  on_auth_msg device_auth m a = on_auth_response m a
  on_auth_msg sync_device_info m a = on_device_info m a
  on_auth_msg auth_done m a = (a, result_noop, none)
  on_auth_msg auth_failed m a = (a, result_noop, none)

  -- `softbus_auth_feed`; the message is `none` where it is empty or no JSON object.
  unfoldable pub auth_feed : Option AuthMsg → Auth → AuthStep
  unfolding on_auth_msg auth_fail
  auth_feed none a = (a, result_noop, none)
  auth_feed (some m) a =
      if a.active && is_idle_state a.auth_state
      then (a, result_noop, none)
      else if auth_over a.auth_state
      then (a, result_noop, none)
      else if not a.active && is_idle_state a.auth_state
      then on_auth_msg a.auth_state m (record a { auth_id = m.msg_auth_id })
      else if not (m.msg_auth_id == a.auth_id)
      then fail_step a
      else on_auth_msg a.auth_state m a
