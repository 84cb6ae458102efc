-- ===== src/Softbus/Auth.antt =====
-- `struct _SoftbusAuth` of src/proto/softbus_auth.c with its helpers, and its messages.
--
-- The JSON text of a message is json-glib's: a message is here the record of the members that it has,
-- where a member that is absent is `none`. The local device's fields and the cryptographic functions
-- of OpenSSL are those of `AuthIo`.
use hwphonelink.Softbus.Keys.{session_keys}
use hwphonelink.Fillp.Frame.Cookie.{diff_bits}
use hwphonelink.Prelude.{
  ◌++◌, ◌>>=◌, leb, ◌+◌, ◌-◌, ◌*◌, ltb, ◌/◌, not, ◌^◌, if◌then◌else◌, ◌==◌, ◌%◌, List, Bool, Option,
  ℕ, some, none, false, true,
}

-- `SoftbusAuthState`.
pub data AuthState : Type 0 where
  auth_idle sync_negotiation sync_device_id device_auth sync_device_info auth_done auth_failed :
      AuthState

-- The number of a state in a message.
unfoldable pub state_num : AuthState → ℕ
state_num auth_idle = 0
state_num sync_negotiation = 1
state_num sync_device_id = 2
state_num device_auth = 3
state_num sync_device_info = 4
state_num auth_done = 5
state_num auth_failed = 6

-- `SoftbusAuthResult`.
pub data AuthResult : Type 0 where
  result_noop result_send result_complete result_failed : AuthResult

-- A message. The number of the state and the id are 0 where the member is absent, as
-- `json_object_get_int_member` has it.
pub record AuthMsg : Type 0 where
  pub msg_state : ℕ
  pub msg_auth_id : ℕ
  pub proto_version : Option ℕ
  pub msg_device_id : Option (List ℕ)
  pub auth_type : Option ℕ
  pub msg_nonce : Option (List ℕ)
  pub msg_sig : Option (List ℕ)
  pub device_name : Option (List ℕ)
  pub msg_capabilities : Option ℕ
  pub session_key_len : Option ℕ

pub record AuthIo : Type 0 where
  pub psk : Option (List ℕ)
  pub local_id : Option (List ℕ)
  pub local_name : Option (List ℕ)
  pub capabilities : ℕ
  pub hmac : List ℕ → List ℕ → Option (List ℕ)
  pub hkdf : List ℕ → List ℕ → List ℕ → Option (List ℕ)

-- `keys` are the control key and the data key once `keys_ready` is set.
pub record Auth : Type 0 where
  pub auth_state : AuthState
  pub active : Bool
  pub awaiting_reply : Bool
  pub auth_id : ℕ
  pub retry_count : ℕ
  pub state_entered_ms : ℕ
  pub peer_device_id : Option (List ℕ)
  pub active_nonce : List ℕ
  pub keys : Option (List ℕ × List ℕ)

-- `softbus_auth_new`: `random` is what `g_random_int` gives and `nonce` what `softbus_random_bytes`
-- stores. The `|` with 1 makes the id odd.
unfoldable pub auth_new : ℕ → List ℕ → Auth
auth_new random nonce = record {
  auth_state = auth_idle;
  active = false;
  awaiting_reply = false;
  auth_id = random % 2 ^ 31 / 2 * 2 + 1;
  retry_count = 0;
  state_entered_ms = 0;
  peer_device_id = none;
  active_nonce = nonce;
  keys = none;
}

-- `_enter_state`, at `now` milliseconds.
unfoldable pub enter_state : ℕ → AuthState → Auth → Auth
enter_state now st a = record a { auth_state = st; retry_count = 0; state_entered_ms = now }

-- `_new_msg`.
unfoldable pub new_msg : AuthState → Auth → AuthMsg
unfolding state_num
new_msg st a = record {
  msg_state = state_num st;
  msg_auth_id = a.auth_id;
  proto_version = none;
  msg_device_id = none;
  auth_type = none;
  msg_nonce = none;
  msg_sig = none;
  device_name = none;
  msg_capabilities = none;
  session_key_len = none;
}

-- `_compute_sig`, for ids that are not NULL.
unfoldable pub compute_sig : AuthIo → List ℕ → List ℕ → List ℕ → List ℕ → Option (List ℕ)
compute_sig io nonce_a nonce_p id_a id_p = do
  psk ← io.psk
  io.hmac psk (nonce_a ++ (nonce_p ++ (id_a ++ id_p)))

-- `_const_time_eq` over `n` bytes.
unfoldable pub const_time_eq : List ℕ → List ℕ → ℕ → Bool
unfolding diff_bits
const_time_eq x y n = diff_bits n x y 0 == 0

-- The keys that `_derive_keys` computes, `none` where it returns or fails.
unfoldable pub derived : AuthIo → Option (List ℕ) → Option (List ℕ × List ℕ)
unfolding session_keys
derived io peer = do
  psk ← io.psk
  peer_id ← peer
  local_id ← io.local_id
  session_keys io.hkdf local_id peer_id psk

abbrev pub keep_or : Option (List ℕ × List ℕ) → Option (List ℕ × List ℕ) → Option (List ℕ × List ℕ)
keep_or old none = old
keep_or old (some new_keys) = some new_keys

-- `_derive_keys`. Where it fails the keys and `keys_ready` stay as they are.
unfoldable pub derive_keys : AuthIo → Auth → Auth
unfolding derived
derive_keys io a = record a { keys = keep_or a.keys (derived io a.peer_device_id) }

-- `_fail`.
unfoldable pub auth_fail : Auth → Auth
auth_fail a = record a { auth_state = auth_failed; awaiting_reply = false }

-- What a call leaves: the context, the result, and the message in `*out_json`.
abbrev pub AuthStep : Type 0
AuthStep = Auth × AuthResult × Option AuthMsg

abbrev pub fail_step : Auth → AuthStep
fail_step a = (auth_fail a, result_failed, none)

-- `softbus_auth_begin_active`, with an `out_json` that is not NULL as all its callers have it.
unfoldable pub begin_active : ℕ → Auth → AuthStep
unfolding enter_state new_msg
begin_active now a = elim a.auth_state [
  | auth_idle ↦
      let b =
        enter_state now sync_negotiation (record a { active = true; awaiting_reply = true }) in
      (b, result_send, some (record (new_msg sync_negotiation b) { proto_version = some 1 }))
  | _ ↦ (a, result_noop, none)
]

abbrev pub auth_over : AuthState → Bool
auth_over auth_done = true
auth_over auth_failed = true
auth_over _ = false

-- `softbus_auth_retry_due`.
unfoldable pub retry_due : ℕ → Auth → Auth × Bool
unfolding auth_fail
retry_due now a =
    if auth_over a.auth_state
    then (a, false)
    else if not a.awaiting_reply
    then (a, false)
    else if ltb now a.state_entered_ms
    then (a, false)
    else if ltb (now - a.state_entered_ms) 30000
    then (a, false)
    else if leb 3 a.retry_count
    then (auth_fail a, false)
    else (record a { retry_count = a.retry_count + 1; state_entered_ms = now }, true)
