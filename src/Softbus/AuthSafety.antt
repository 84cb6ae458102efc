-- ===== src/Softbus/AuthSafety.antt =====
-- When a context of src/proto/softbus_auth.c completes.
use hwphonelink.Softbus.Handshake.{IsBytes}
use hwphonelink.Fillp.Frame.Cookie.{diff_bits}
use hwphonelink.Fillp.Frame.Authentic.{diff_bits-zero}
use hwphonelink.Softbus.AuthFeed.{
  on_device_info, on_auth_request, is_idle_state, on_device_id, on_negotiation, nonce_of, auth_feed,
  on_auth_msg, learn_peer, complete_active, sig_matches, on_auth_response, verify, stored_sig,
  response_of, AuthDraw,
}
use hwphonelink.Softbus.Hex.{from_hex-AllBytes, none_ne, from_hex}
use hwphonelink.Softbus.Auth.{
  auth_failed, result_noop, sync_device_info, sync_device_id, sync_negotiation, auth_idle,
  AuthState, auth_over, enter_state, derive_keys, compute_sig, auth_done, device_auth, fail_step,
  AuthMsg, Auth, auth_fail, const_time_eq, AuthIo,
}
use hwphonelink.Prelude.{
  ◌∙◌, sym, ◌&&◌, ap, if◌then◌else◌, Option, bind-some, false, refl, length-drop, length-append,
  AllBytes-drop, ◌||◌, drop, AllBytes-append, ◌++◌, ◌==◌, not, Bool-cases, none, ==_iff, take,
  Option-cases, arith, length, ◌≢◌, ◌≤◌, ◌≡◌, AllBytes, ℕ, List, inr, inl, some, true,
}

-- A message that completes the active side: a response to its own nonce, from the peer whose id it
-- learned, with the signature that the secret gives.
pub record IsVerified (io : AuthIo) (d : AuthDraw) (m : AuthMsg) (a : Auth) : Type 0 where
  pub in_auth : a.auth_state ≡ device_auth
  pub own_id : List ℕ
  pub has_own_id : io.local_id ≡ some own_id
  pub peer_id : List ℕ
  pub has_peer_id : a.peer_device_id ≡ some peer_id
  pub response : List ℕ × List ℕ
  pub has_response : response_of m ≡ some response
  pub expected : List ℕ
  pub signs : compute_sig io a.active_nonce response.0 own_id peer_id ≡ some expected
  pub agrees : take 32 (stored_sig d.stale response.1) ≡ take 32 expected
  pub has_keys : (k : List ℕ × List ℕ) × ((derive_keys io a).keys ≡ some k)

const_time_eq-take :
    (x y : List ℕ)
    → AllBytes x
    → AllBytes y
    → 32 ≤ length x
    → 32 ≤ length y
    → const_time_eq x y 32 ≡ true
    → take 32 x ≡ take 32 y
unfolding const_time_eq
const_time_eq-take x y hx hy lx ly e =
    (diff_bits-zero 32 x y 0 hx hy (omega arith) lx ly ((==_iff (diff_bits 32 x y 0) 0).0 e)).1

fails_not_done : (a : Auth) → (fail_step a).0.auth_state ≢ auth_done
unfolding auth_fail
fails_not_done a e = absurd (cc)

module _ (io : AuthIo) (d : AuthDraw) (stale_32 : IsBytes 32 d.stale)
    (digests : (k x s : List ℕ) → io.hmac k x ≡ some s → IsBytes 32 s) where
  compute_sig-IsBytes :
      (n_a n_p id_a id_p s : List ℕ) → compute_sig io n_a n_p id_a id_p ≡ some s → IsBytes 32 s
  unfolding compute_sig
  compute_sig-IsBytes n_a n_p id_a id_p s e = elim (Option-cases io.psk) [
    | inl q ↦ absurd (none_ne s (rw q at e))
    | inr (k, q) ↦ digests k (n_a ++ (n_p ++ (id_a ++ id_p))) s (rw q at e)
  ]

  stored_sig-IsBytes :
      (sig : List ℕ)
      → AllBytes sig
      → AllBytes (stored_sig d.stale sig) × (32 ≤ length (stored_sig d.stale sig))
  unfolding stored_sig
  stored_sig-IsBytes sig h = (
    AllBytes-append sig (drop (length sig) d.stale) h
        (AllBytes-drop (length sig) d.stale stale_32.1),
    omega (
      arith,
      length-append sig (drop (length sig) d.stale),
      length-drop (length sig) d.stale,
      stale_32.0,
    ),
  )

  verify-done :
      (own peer nonce sig : List ℕ) (a : Auth)
      → AllBytes sig
      → (verify io d own peer nonce sig a).0.auth_state ≡ auth_done
      → (expected : List ℕ) × (compute_sig io a.active_nonce nonce own peer ≡ some expected)
        × (take 32 (stored_sig d.stale sig) ≡ take 32 expected)
        × ((k : List ℕ × List ℕ) × ((derive_keys io a).keys ≡ some k))
  unfolding verify sig_matches complete_active
  verify-done own peer nonce sig a hs e =
      elim (Option-cases (compute_sig io a.active_nonce nonce own peer)) [
        | inl q ↦ absurd (fails_not_done a (rw (q, verify) at e))
        | inr (s, q) ↦ elim (Bool-cases (const_time_eq (stored_sig d.stale sig) s 32)) [
          | inr r ↦ absurd (fails_not_done a (rw (q, r, verify) at e))
          | inl r ↦ elim (Option-cases (derive_keys io a).keys) [
            | inl t ↦ absurd (fails_not_done (derive_keys io a) (rw (q, r, t, verify) at e))
            | inr (k, t) ↦
                let h = compute_sig-IsBytes a.active_nonce nonce own peer s q in
                let (b, l) = stored_sig-IsBytes sig hs in
                (
                  s,
                  q,
                  const_time_eq-take (stored_sig d.stale sig) s b h.1 l (omega (arith, h.0)) r,
                  (k, t),
                )
          ]
        ]
      ]

  response_of-AllBytes : (m : AuthMsg) (r : List ℕ × List ℕ) → response_of m ≡ some r → AllBytes r.1
  unfolding response_of
  response_of-AllBytes m r e =
      let (nonce_hex, _, e1) = bind-some m.msg_nonce _ r e in
      let (sig_hex, _, e2) = bind-some m.msg_sig _ r e1 in
      let (nonce, _, e3) = bind-some (nonce_of nonce_hex) _ r e2 in
      let (sig, f, e4) = bind-some (from_hex sig_hex 32) _ r e3 in
      let q : (nonce, sig) ≡ r = cc in rw⁻¹ q (from_hex-AllBytes sig_hex sig 32 f)

  on_auth_response-done :
      (m : AuthMsg) (a : Auth)
      → a.auth_state ≡ device_auth
      → (on_auth_response io d m a).0.auth_state ≡ auth_done
      → IsVerified io d m a
  unfolding on_auth_response
  on_auth_response-done m a st e = elim (Bool-cases (not a.active || not (m.msg_state == 3))) [
    | inl q ↦ absurd (fails_not_done a (rw (q, on_auth_response) at e))
    | inr q ↦ elim (Option-cases io.local_id) [
      | inl o ↦ absurd (fails_not_done a (rw (q, o, on_auth_response) at e))
      | inr (own, o) ↦ elim (Option-cases a.peer_device_id) [
        | inl p ↦ absurd (fails_not_done a (rw (q, o, p, on_auth_response) at e))
        | inr (peer, p) ↦ elim (Option-cases (response_of m)) [
          | inl r ↦ absurd (fails_not_done a (rw (q, o, p, r, on_auth_response) at e))
          | inr (resp, r) ↦
              let (s, signs, agrees, k) =
                verify-done own peer resp.0 resp.1 a (response_of-AllBytes m resp r)
                  (rw (q, o, p, r, on_auth_response) at e) in
              record {
                in_auth = st;
                own_id = own;
                has_own_id = o;
                peer_id = peer;
                has_peer_id = p;
                response = resp;
                has_response = r;
                expected = s;
                signs = signs;
                agrees = agrees;
                has_keys = k;
              }
        ]
      ]
    ]
  ]

  learn_peer-not_done :
      (o : Option (List ℕ)) (a : Auth) → (learn_peer io d o a).0.auth_state ≢ auth_done
  unfolding learn_peer enter_state
  learn_peer-not_done none a e = fails_not_done a e
  learn_peer-not_done (some peer) a e = absurd (cc)

  -- No other state takes the active side to its end.
  on_auth_msg-done :
      (st : AuthState) (m : AuthMsg) (a : Auth)
      → a.active ≡ true
      → a.auth_state ≡ st
      → auth_over st ≡ false
      → (on_auth_msg io d st m a).0.auth_state ≡ auth_done
      → IsVerified io d m a
  unfolding on_auth_msg on_negotiation on_device_id on_auth_request on_device_info
  on_auth_msg-done auth_idle m a h st o e = absurd (fails_not_done a (rw (h, on_negotiation) at e))
  on_auth_msg-done sync_negotiation m a h st o e = elim (Bool-cases (not (m.msg_state == 2))) [
    | inl q ↦ absurd (fails_not_done a (rw (h, q, on_device_id) at e))
    | inr q ↦ absurd (
        learn_peer-not_done m.msg_device_id (record a { active = true })
          (rw (h, q, on_device_id) at e))
  ]
  on_auth_msg-done sync_device_id m a h st o e =
      absurd (fails_not_done a (rw (h, on_auth_request) at e))
  on_auth_msg-done device_auth m a h st o e = on_auth_response-done m a st e
  on_auth_msg-done sync_device_info m a h st o e =
      absurd (fails_not_done a (rw (h, on_device_info) at e))
  on_auth_msg-done auth_done m a h st o e = absurd (cc)
  on_auth_msg-done auth_failed m a h st o e = absurd (cc)

over_done : (st : AuthState) → st ≡ auth_done → auth_over st ≢ false
over_done st e o = let z : true ≡ false = rw e at o in absurd (cc)

auth_feed-message :
    (io : AuthIo) (d : AuthDraw) (m : AuthMsg) (a : Auth)
    → a.active ≡ true
    → is_idle_state a.auth_state ≡ false
    → auth_over a.auth_state ≡ false
    → auth_feed io d (some m) a ≡ (
        if not (m.msg_auth_id == a.auth_id) then fail_step a else on_auth_msg io d a.auth_state m a)
unfolding auth_feed
auth_feed-message io d m a h q o =
    let e1 : (a.active && is_idle_state a.auth_state) ≡ false = ground (arith, q) in
    let e2 : (not a.active && is_idle_state a.auth_state) ≡ false = ground (arith, q) in
    rw (e1, auth_feed) (rw (o, e2) refl)

auth_feed-idle :
    (io : AuthIo) (d : AuthDraw) (m : AuthMsg) (a : Auth)
    → a.active ≡ true
    → is_idle_state a.auth_state ≡ true
    → auth_feed io d (some m) a ≡ (a, result_noop, none)
unfolding auth_feed
auth_feed-idle io d m a h q =
    let e1 : (a.active && is_idle_state a.auth_state) ≡ true = ground (arith, h, q) in
    rw (e1, auth_feed) refl

-- An active context that is neither done nor failed is done after a message only if the message is
-- verified: the context waits for a response and knows its own id and the peer's, the message has a
-- nonce and a signature, the 32 bytes compared agree with the digest of the two nonces and the two
-- ids under the secret, and the keys are there. The bytes compared are those of the signature and,
-- behind a shorter one, the bytes that stood in the buffer. The digest function gives 32 bytes.
pub auth_feed-IsVerified :
    (io : AuthIo) (d : AuthDraw) (m : AuthMsg) (a : Auth)
    → IsBytes 32 d.stale
    → ((k x s : List ℕ) → io.hmac k x ≡ some s → IsBytes 32 s)
    → a.active ≡ true
    → auth_over a.auth_state ≡ false
    → (auth_feed io d (some m) a).0.auth_state ≡ auth_done
    → IsVerified io d m a
auth_feed-IsVerified io d m a stale digests h o e = elim (Bool-cases (is_idle_state a.auth_state)) [
  | inl q ↦
      let t : a.auth_state ≡ auth_done =
        ap (λ r. r.0.auth_state) (sym (auth_feed-idle io d m a h q)) ∙ e in
      absurd (over_done a.auth_state t o)
  | inr q ↦ elim (Bool-cases (not (m.msg_auth_id == a.auth_id))) [
    | inl r ↦ absurd (fails_not_done a (rw (auth_feed-message io d m a h q o, r) at e))
    | inr r ↦
        on_auth_msg-done io d stale digests a.auth_state m a h refl o
          (rw (auth_feed-message io d m a h q o, r) at e)
  ]
]
