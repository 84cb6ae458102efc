-- ===== src/Fillp/Conn/Engine.antt =====
-- The dispatch and the tick of src/proto/fillp_conn.c, over the engine's table of peers.
use hwphonelink.Fillp.Conn.Receive.{on_data}
use hwphonelink.Fillp.Frame.{
  pkt_fin, pkt_pack, pkt_nack, pkt_data, pkt_conn_confirm_ack, pkt_conn_confirm, pkt_conn_req_ack,
  pkt_conn_req, decode_head,
}
use hwphonelink.Fillp.Conn.Send.{on_pack, on_nack, pump, is_drained, Fill}
use hwphonelink.Fillp.Conn.Close.{peer_finalize, peer_request_close}
use hwphonelink.Fillp.Conn.Handshake.{
  handle_conn_confirm_ack, resend_conn_req, handle_conn_confirm, resend_conn_confirm,
  handle_conn_req, handle_conn_req_ack, Server, Randoms,
}
use hwphonelink.Fillp.Conn.State.{
  hs_retrans_ms, handshake_timeout_ms, close_timeout_ms, is_pending, closing, is_closed, is_closing,
  Effect, is_established, PeerState, Peer,
}
use hwphonelink.Prelude.{sub64}
use hwphonelink.Prelude.{
  leb, ◌/◌, ◌++◌, get_u32, ◌||◌, ◌&&◌, if◌then◌else◌, ◌∷◌, ◌==◌, Option, List, Bool, ℕ, [], some,
  none, false, true,
}

-- The table's key, the text "ip:port", as the numbers that it prints.
pub record PeerKey : Type 0 where
  pub ip : ℕ
  pub port : ℕ

abbrev pub same_key : PeerKey → PeerKey → Bool
same_key a b = a.ip == b.ip && a.port == b.port

abbrev pub Table : Type 0
Table = List (PeerKey × Peer)

unfoldable pub table_lookup : PeerKey → Table → Option Peer
table_lookup k [] = none
table_lookup k ((j, p) ∷ t) = if same_key j k then some p else table_lookup k t

-- `g_hash_table_insert`, and the update of a peer in place.
unfoldable pub table_insert : PeerKey → Peer → Table → Table
table_insert k p [] = (k, p) ∷ []
table_insert k p ((j, q) ∷ t) = if same_key j k then (j, p) ∷ t else (j, q) ∷ table_insert k p t

-- What the engine draws at random for one datagram.
pub record Draws : Type 0 where
  pub cookie_seqs : Randoms
  pub nack_number : ℕ

-- The case FP_PKT_FIN of `fp_handle_datagram`.
unfoldable pub on_fin : ℕ → Peer → Peer
on_fin now p =
    if is_closed p.state
    then p
    else let q = record p { peer_fin = true; pending_fin = true } in
      if is_closing p.state then q else record q { state = closing; t_stage_ms = now }

abbrev pub is_open : PeerState → Bool
is_open s = is_established s || is_closing s

module _ (hmac : List ℕ → List ℕ → List ℕ) where
  -- The cases of `fp_handle_datagram` for a peer that the table has, but CONN_REQ.
  unfoldable pub dispatch : Server → ℕ → Draws → ℕ → Peer → List ℕ → Peer × List Effect
  dispatch e now d type p buf =
      if type == pkt_conn_req_ack
      then handle_conn_req_ack e now p buf
      else if type == pkt_conn_confirm
      then handle_conn_confirm hmac e now p buf
      else if type == pkt_conn_confirm_ack
      then handle_conn_confirm_ack now p buf
      else if type == pkt_data
      then (if is_open p.state then on_data now d.nack_number p buf else (p, []))
      else if type == pkt_nack
      then (if is_established p.state then on_nack now p buf else (p, []))
      else if type == pkt_pack
      then (if is_open p.state then (on_pack p buf, []) else (p, []))
      else if type == pkt_fin
      then (on_fin now p, [])
      else (p, [])

  -- `fp_handle_datagram`: the peer of the sender's key before and after. Without a peer every case
  -- but CONN_REQ does nothing.
  unfoldable pub handle_datagram :
      Server → ℕ → Draws → List ℕ → ℕ → Option Peer → List ℕ → Option Peer × List Effect
  handle_datagram e now_us d from_ip from_port known buf = elim (decode_head buf) [
    | none ↦ (known, [])
    | some h ↦
        if h.pkt_type == pkt_conn_req
        then handle_conn_req hmac e now_us d.cookie_seqs from_ip from_port known buf
        else elim known [
          | none ↦ (none, [])
          | some p ↦ let r = dispatch e (now_us / 1000) d h.pkt_type p buf in (some r.0, r.1)
        ]
  ]

  -- The same on the whole table.
  unfoldable pub engine_receive :
      Server → ℕ → Draws → List ℕ → ℕ → Table → List ℕ → Table × List Effect
  engine_receive e now_us d from_ip from_port t buf =
      let k : PeerKey = record { ip = get_u32 from_ip; port = from_port } in
      let r = handle_datagram e now_us d from_ip from_port (table_lookup k t) buf in
      (elim r.0 [ none ↦ t | some p ↦ table_insert k p t ], r.1)

-- Whether the tick finalizes a peer that it has pumped.
unfoldable pub close_is_due : ℕ → Peer → Bool
close_is_due now p =
    is_closing p.state
    && ((p.peer_fin && (is_drained p && p.delivered_since_pack == 0))
        || leb close_timeout_ms (sub64 now p.t_stage_ms))

-- What `fp_on_tick` does for one peer: the peer, whether it is to be finalized, the effects.
unfoldable pub tick_peer : Server → ℕ → Fill → Peer → Peer × Bool × List Effect
tick_peer e now f p =
    let pumped = pump now f p in
    if is_pending p.state
    then if leb handshake_timeout_ms (sub64 now p.t_stage_ms)
      then ((peer_request_close now p).0, false, (peer_request_close now p).1)
      else if p.is_client && leb hs_retrans_ms (sub64 now p.t_hs_retrans_ms)
      then (
        record p { t_hs_retrans_ms = now },
        false,
        if p.hs_confirm_sent then resend_conn_confirm e p else resend_conn_req p,
      )
      else (p, false, [])
    else if is_open p.state
    then (pumped.0, close_is_due now pumped.0, pumped.1)
    else (p, false, [])

-- `fp_on_tick`: first every peer has its turn, then those that are due are finalized and leave the
-- table. `fills` answers the call of the peer's `fill_fn`.
unfoldable pub tick_all :
    Server → ℕ → (PeerKey → Fill) → Table → List (PeerKey × (Peer × Bool)) × List Effect
tick_all e now fills [] = ([], [])
tick_all e now fills ((k, p) ∷ t) =
    let r = tick_peer e now (fills k) p in
    let rest = tick_all e now fills t in ((k, (r.0, r.1)) ∷ rest.0, r.2 ++ rest.1)

unfoldable pub finalize_due : List (PeerKey × (Peer × Bool)) → Table × List Effect
finalize_due [] = ([], [])
finalize_due ((k, pd) ∷ t) =
    let rest = finalize_due t in
    if pd.1 then (rest.0, (peer_finalize pd.0).1 ++ rest.1) else ((k, pd.0) ∷ rest.0, rest.1)

unfoldable pub on_tick : Server → ℕ → (PeerKey → Fill) → Table → Table × List Effect
on_tick e now fills t =
    let ticked = tick_all e now fills t in
    let left = finalize_due ticked.0 in (left.0, ticked.1 ++ left.1)
