-- ===== src/Fillp/Conn/Lifecycle.antt =====
-- The states of a peer of src/proto/fillp_conn.c: which moves a datagram and a tick can make.
use hwphonelink.Fillp.Frame.Cookie.{cookie_verify}
use hwphonelink.Fillp.Frame.Handshake.{decode_conn_confirm, ConnConfirm}
use hwphonelink.Fillp.Conn.Close.{peer_send, peer_request_close, peer_established}
use hwphonelink.Fillp.Conn.Handshake.{
  Server, handle_conn_confirm_ack, handle_conn_confirm, handle_conn_req_ack,
}
use hwphonelink.Fillp.Frame.{pkt_conn_confirm, Head, hlen, decode_head}
use hwphonelink.Fillp.Conn.Engine.{close_is_due, tick_peer, Draws, on_fin, dispatch}
use hwphonelink.Fillp.Conn.Send.{
  pump_stall, pump_fin, pump_complete, Fill, pump_fill, packetize_one, pump, packetize, on_pack,
  on_nack,
}
use hwphonelink.Fillp.Conn.Receive.{
  send_pack, maybe_nack, maybe_pack, on_duplicate, next_num, buffer_gap, ofo_lookup, on_gap, accept,
  on_next, on_data, on_packet, flush,
}
use hwphonelink.Fillp.Conn.State.{
  Pkt, send_budget, close_timeout_ms, pending, established, closing, closed, closing, established,
  pending, Peer, PeerState,
}
use hwphonelink.Prelude.{==_iff, ◌==◌, Bool-cases, Option, none, sub64}
use hwphonelink.Prelude.{
  ◌∙◌, ◌+◌, ◌^◌, ◌<◌, ◌≤◌, some, drop, copy, arith, Option-cases, ℕ, ◌≡◌, Bool, List, inr, inl,
  false, true, refl, suc, zero,
}

-- The moves that a datagram can make: a pending peer is established or closing, an established one
-- closing; nothing leaves `closing` or `closed`.
abbrev pub allowed : PeerState → PeerState → Bool
allowed pending closed = false
allowed pending t = true
allowed established established = true
allowed established closing = true
allowed established t = false
allowed closing closing = true
allowed closing t = false
allowed closed closed = true
allowed closed t = false

allowed_refl : (s : PeerState) → allowed s s ≡ true
allowed_refl pending = refl
allowed_refl established = refl
allowed_refl closing = refl
allowed_refl closed = refl

-- What the data plane leaves alone.
flush-state : (now : ℕ) (o : Option Pkt) (p : Peer) → (flush now o p).0.state ≡ p.state
unfolding flush maybe_pack send_pack
flush-state now none p = ground arith
flush-state now (some q) p = refl

on_packet-state :
    (now random : ℕ) (h : Head) (payload : List ℕ) (p : Peer)
    → (on_packet now random h payload p).0.state ≡ p.state
unfolding on_packet on_next on_gap buffer_gap on_duplicate maybe_pack maybe_nack send_pack accept
on_packet-state now random h payload p =
    let a = accept h.pkt_num h.seq_num h.data_len p in
    ground (arith, flush-state now (ofo_lookup (next_num a) a.ofo) a)

on_data-state :
    (now random : ℕ) (p : Peer) (buf : List ℕ) → (on_data now random p buf).0.state ≡ p.state
unfolding on_data
on_data-state now random p buf = elim (Option-cases (decode_head buf)) [
  | inl e ↦ ground arith
  | inr (h, e) ↦ ground (arith, on_packet-state now random h (copy h.data_len (drop hlen buf)) p)
]

on_nack-state : (now : ℕ) (p : Peer) (buf : List ℕ) → (on_nack now p buf).0.state ≡ p.state
unfolding on_nack
on_nack-state now p buf = ground arith

on_pack-state : (p : Peer) (buf : List ℕ) → (on_pack p buf).state ≡ p.state
unfolding on_pack
on_pack-state p buf = ground arith

module _ (hmac : List ℕ → List ℕ → List ℕ) where
  -- Whatever datagram a known peer sends, the state moves only so: a pending peer may become
  -- established or closing, an established one closing, and a closing or closed peer stays what it
  -- is.
  pub dispatch-allowed :
      (e : Server) (now : ℕ) (d : Draws) (type : ℕ) (p : Peer) (buf : List ℕ)
      → allowed p.state (dispatch hmac e now d type p buf).0.state ≡ true
  unfolding dispatch handle_conn_req_ack handle_conn_confirm handle_conn_confirm_ack
      peer_established peer_request_close on_fin
  dispatch-allowed e now d type p buf = ground (
    arith,
    allowed_refl p.state,
    on_data-state now d.nack_number p buf,
    on_nack-state now p buf,
    on_pack-state p buf,
  )

  -- A server's pending peer is established only by a datagram of the type CONN_CONFIRM whose cookie
  -- passes the check under the server's key and address.
  pub dispatch-authentic :
      (e : Server) (now : ℕ) (d : Draws) (type : ℕ) (p : Peer) (buf : List ℕ)
      → p.is_client ≡ false
      → p.state ≡ pending
      → (dispatch hmac e now d type p buf).0.state ≡ established
      → (type ≡ pkt_conn_confirm)
        × (m : ConnConfirm) × (decode_conn_confirm buf ≡ some m)
        × (cookie_verify hmac m.cookie e.mac_key e.local_addr ≡ true)
  unfolding dispatch handle_conn_req_ack handle_conn_confirm handle_conn_confirm_ack
      peer_established peer_request_close on_fin
  dispatch-authentic e now d type p buf server wait up =
      elim (Bool-cases (type == pkt_conn_confirm)) [
        | inr other ↦ absurd (
            ground (
              arith,
              on_data-state now d.nack_number p buf,
              on_nack-state now p buf,
              on_pack-state p buf,
            ))
        | inl q ↦ elim (Option-cases (decode_conn_confirm buf)) [
          | inl none_ ↦ absurd (ground arith)
          | inr (m, got) ↦ ((==_iff type pkt_conn_confirm).0 q, m, got, ground arith)
        ]
      ]

maybe_pack-state :
    (now : ℕ) (p : Peer)
    → ((maybe_pack now p).0.state ≡ p.state)
      × ((maybe_pack now p).0.t_stage_ms ≡ p.t_stage_ms)
      × ((maybe_pack now p).0.fill_done ≡ p.fill_done)
unfolding maybe_pack send_pack
maybe_pack-state now p = ground arith

packetize-state :
    (budget now : ℕ) (p : Peer)
    → ((packetize budget now p).0.state ≡ p.state)
      × ((packetize budget now p).0.t_stage_ms ≡ p.t_stage_ms)
      × ((packetize budget now p).0.fill_done ≡ p.fill_done)
unfolding packetize packetize_one
packetize-state zero now p = ground arith
packetize-state (suc budget) now p =
    ground (arith, packetize-state budget now (packetize_one now p))

pump_complete-state :
    (p : Peer)
    → ((pump_complete p).0.state ≡ p.state)
      × ((pump_complete p).0.t_stage_ms ≡ p.t_stage_ms)
      × ((pump_complete p).0.fill_done ≡ p.fill_done)
unfolding pump_complete
pump_complete-state p = ground arith

pump_fin-state :
    (p : Peer)
    → ((pump_fin p).0.state ≡ p.state)
      × ((pump_fin p).0.t_stage_ms ≡ p.t_stage_ms)
      × ((pump_fin p).0.fill_done ≡ p.fill_done)
unfolding pump_fin
pump_fin-state p = ground arith

pump_fill-state :
    (f : Fill) (p : Peer)
    → ((pump_fill f p).state ≡ p.state)
      × ((pump_fill f p).t_stage_ms ≡ p.t_stage_ms)
      × (p.has_fill_fn ≡ false → (pump_fill f p).fill_done ≡ p.fill_done)
unfolding pump_fill peer_send
pump_fill-state f p = (ground arith, ground arith, λ h. ground arith)

-- The pump leaves the state and its time alone; without a fill function it leaves `fill_done` too.
pump-state :
    (now : ℕ) (f : Fill) (p : Peer)
    → ((pump now f p).0.state ≡ p.state)
      × ((pump now f p).0.t_stage_ms ≡ p.t_stage_ms)
      × (p.has_fill_fn ≡ false → (pump now f p).0.fill_done ≡ p.fill_done)
unfolding pump
pump-state now f p =
    let p1 = pump_fill f p in
    let p2 : Peer = record p1 { inflight = (pump_stall now p1.inflight).0 } in
    let sent = packetize send_budget now p2 in
    let done = pump_complete sent.0 in
    let packed = maybe_pack now done.0 in
    let a = pump_fill-state f p in
    let b = packetize-state send_budget now p2 in
    let c = pump_complete-state sent.0 in
    let d = maybe_pack-state now done.0 in
    let e = pump_fin-state packed.0 in
    (e.0 ∙ d.0 ∙ c.0 ∙ b.0 ∙ a.0, e.1 ∙ d.1 ∙ c.1 ∙ b.1 ∙ a.1, λ h. e.2 ∙ d.2 ∙ c.2 ∙ b.2 ∙ a.2 h)

-- A tick finds that a peer that was closing for 2 s or more is due for its end, whatever the peer
-- at the other end does and whatever is left to send, while the clock is below 2 ^ 64.
pub tick_peer-ends :
    (e : Server) (now : ℕ) (f : Fill) (p : Peer)
    → p.state ≡ closing
    → p.t_stage_ms + close_timeout_ms ≤ now
    → now < 2 ^ 64
    → (tick_peer e now f p).1 ≡ true
unfolding tick_peer peer_request_close close_is_due sub64
tick_peer-ends e now f p s h k = ground (arith, pump-state now f p)

-- A peer without a fill function is never drained: its end is due only by the 2 s limit, also when
-- the other end has sent its FIN and nothing is left to send.
pub tick_peer-needs_fill :
    (e : Server) (now : ℕ) (f : Fill) (p : Peer)
    → p.has_fill_fn ≡ false
    → p.fill_done ≡ false
    → (tick_peer e now f p).1 ≡ true
    → (p.state ≡ closing) × (close_timeout_ms ≤ sub64 now p.t_stage_ms)
unfolding tick_peer close_is_due
tick_peer-needs_fill e now f p none_ more due = ground (arith, pump-state now f p)
