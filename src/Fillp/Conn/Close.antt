-- ===== src/Fillp/Conn/Close.antt =====
-- Establishing and closing a peer: `fp_peer_established`, `fp_peer_request_close`,
-- `fp_peer_finalize` and `fillp_peer_send` of src/proto/fillp_conn.c.
use hwphonelink.Fillp.Frame.{hlen}
use hwphonelink.Fillp.Frame.Acks.{fin_len, encode_fin}
use hwphonelink.Fillp.Conn.State.{
  emit, closing, notify_closed, is_closing, closed, notify_established, is_established, is_closed,
  established, Effect, Peer,
}
use hwphonelink.Prelude.{◌+◌, ◌∷◌, ◌++◌, ◌||◌, if◌then◌else◌, List, ℕ, []}

-- `fp_peer_established`.
unfoldable pub peer_established : ℕ → Peer → Peer × List Effect
peer_established now p =
    (record p { state = established; t_stage_ms = now }, notify_established ∷ [])

-- `fp_peer_request_close`.
unfoldable pub peer_request_close : ℕ → Peer → Peer × List Effect
peer_request_close now p = if is_closed p.state || is_closing p.state then (p, []) else (
  record p { state = closing; t_stage_ms = now },
  if is_established p.state then emit (encode_fin (hlen + fin_len) 0) else [],
)

-- `fp_peer_finalize`: the queues are freed and the application told. The engine drops the peer from
-- its table (`Engine`).
unfoldable pub peer_finalize : Peer → Peer × List Effect
peer_finalize p = if is_closed p.state then (p, []) else (
  record p { state = closed; txq = []; inflight = []; inflight_bytes = 0; ofo = []; ofo_bytes = 0 },
  notify_closed ∷ [],
)

-- `fillp_peer_send`.
unfoldable pub peer_send : List ℕ → Peer → Peer
peer_send bytes p = if is_established p.state then record p { txq = p.txq ++ bytes } else p
