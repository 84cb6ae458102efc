-- ===== src/Fillp/Conn/Send.antt =====
-- The sending half of the data plane of src/proto/fillp_conn.c: the answers to NACK and PACK, and
-- the pump.
use hwphonelink.Fillp.Frame.Acks.{fin_len, encode_fin, decode_nack, decode_pack}
use hwphonelink.Fillp.Frame.{hlen, num_isbigger, pkt_data, encode_head}
use Prim.Native.Nat.{min}
use hwphonelink.Fillp.Conn.Receive.{maybe_pack}
use hwphonelink.Fillp.Conn.Close.{peer_send}
use hwphonelink.Fillp.Conn.State.{
  notify_tx_complete, txq_watermark, emit, send_cache_bytes, pkt_data_max, stall_timeout_ms, send,
  send_budget, Effect, Peer, Pkt,
}
use hwphonelink.Prelude.{sub64}
use hwphonelink.Prelude.{
  take, ◌^◌, ◌%◌, ◌+◌, ◌==◌, not, copy, ltb, ◌++◌, length, leb, ◌&&◌, drop, if◌then◌else◌, Bool,
  ◌∷◌, List, ℕ, [], some, none, false, true, suc, zero,
}

-- The DATA datagram of a packet, as the engine builds it to send or resend.
unfoldable pub data_packet : Pkt → List ℕ
data_packet q = encode_head pkt_data 0 q.len q.pkt_num q.seq_num ++ copy q.len q.bytes

-- The loop of `fp_on_nack`: every packet in flight strictly between the two numbers is resent.
unfoldable pub resend_between : ℕ → ℕ → ℕ → List Pkt → List Pkt × List Effect
resend_between now begin end_pkt [] = ([], [])
resend_between now begin end_pkt (q ∷ l) =
    let rest = resend_between now begin end_pkt l in
    if num_isbigger q.pkt_num begin && num_isbigger end_pkt q.pkt_num
    then ((record q { t_sent_ms = now }) ∷ rest.0, send (data_packet q) ∷ rest.1)
    else (q ∷ rest.0, rest.1)

-- `fp_on_nack`.
unfoldable pub on_nack : ℕ → Peer → List ℕ → Peer × List Effect
on_nack now p buf = elim (decode_nack buf) [
  | none ↦ (p, [])
  | some m ↦
      let resent = resend_between now m.begin_pkt m.end_pkt p.inflight in
      (record p { inflight = resent.0 }, resent.1)
]

-- The loop of `fp_on_pack`: the list ascends, so it stops at the first packet ahead of the ack.
unfoldable pub drop_acked : ℕ → List Pkt → ℕ → List Pkt × ℕ
drop_acked ack_pkt [] bytes = ([], bytes)
drop_acked ack_pkt (q ∷ l) bytes =
    let rest = drop_acked ack_pkt l (sub64 bytes q.len) in
    if num_isbigger q.pkt_num ack_pkt then (q ∷ l, bytes) else rest

-- `fp_on_pack`.
unfoldable pub on_pack : Peer → List ℕ → Peer
on_pack p buf = elim (decode_pack buf) [
  | none ↦ p
  | some m ↦
      let left = drop_acked m.ack_pkt p.inflight p.inflight_bytes in
      record p { inflight = left.0; inflight_bytes = left.1 }
]

-- What a call of `fill_fn` does: the bytes that it queues through `fillp_peer_send`, and whether it
-- returns a negative number.
pub record Fill : Type 0 where
  pub queued : List ℕ
  pub finished : Bool

-- Step 1 of `fp_pump`.
unfoldable pub pump_fill : Fill → Peer → Peer
unfolding peer_send
pump_fill f p =
    let q = peer_send f.queued p in
    if p.has_fill_fn && (not p.fill_done && ltb (length p.txq) txq_watermark)
    then (if f.finished then record q { fill_done = true } else q)
    else p

-- Step 2 of `fp_pump`, on the packets in flight.
unfoldable pub pump_stall : ℕ → List Pkt → List Pkt × List Effect
pump_stall now [] = ([], [])
pump_stall now (q ∷ l) =
    if leb stall_timeout_ms (sub64 now q.t_sent_ms)
    then ((record q { t_sent_ms = now }) ∷ l, send (data_packet q) ∷ [])
    else (q ∷ l, [])

-- One round of step 3 of `fp_pump`: the packet cut off the queue's front.
unfoldable pub cut_packet : ℕ → Peer → Pkt
cut_packet now p =
    let n = min (length p.txq) pkt_data_max in
    record {
      pkt_num = (p.send_pkt_num + 1) % 2 ^ 32;
      seq_num = (p.send_seq_num + n) % 2 ^ 32;
      len = n;
      t_sent_ms = now;
      bytes = take n p.txq;
    }

unfoldable pub packetize_one : ℕ → Peer → Peer
packetize_one now p =
    let q = cut_packet now p in
    record p {
      send_pkt_num = q.pkt_num;
      send_seq_num = q.seq_num;
      txq = drop q.len p.txq;
      inflight = p.inflight ++ (q ∷ []);
      inflight_bytes = p.inflight_bytes + q.len;
    }

-- Step 3 of `fp_pump`, with the budget of rounds left.
unfoldable pub packetize : ℕ → ℕ → Peer → Peer × List Effect
packetize zero now p = (p, [])
packetize (suc budget) now p =
    let rest = packetize budget now (packetize_one now p) in
    if ltb 0 (length p.txq) && ltb p.inflight_bytes send_cache_bytes
    then (rest.0, send (data_packet (cut_packet now p)) ∷ rest.1)
    else (p, [])

abbrev pub is_empty {ℓ} : {A : Type ℓ} → List A → Bool
is_empty [] = true
is_empty (x ∷ xs) = false

-- Everything queued is sent and acknowledged, and the application has no more.
abbrev pub is_drained : Peer → Bool
is_drained p = p.fill_done && (length p.txq == 0 && is_empty p.inflight)

-- Step 4 of `fp_pump`.
unfoldable pub pump_complete : Peer → Peer × List Effect
pump_complete p =
    if is_drained p && not p.tx_notified
    then (record p { tx_notified = true }, notify_tx_complete ∷ [])
    else (p, [])

-- Step 6 of `fp_pump`.
unfoldable pub pump_fin : Peer → Peer × List Effect
pump_fin p =
    if p.pending_fin && is_drained p
    then (record p { pending_fin = false }, emit (encode_fin (hlen + fin_len) 0))
    else (p, [])

-- `fp_pump`, its six steps in order.
unfoldable pub pump : ℕ → Fill → Peer → Peer × List Effect
pump now f p =
    let p1 = pump_fill f p in
    let stalled = pump_stall now p1.inflight in
    let sent = packetize send_budget now (record p1 { inflight = stalled.0 }) in
    let completed = pump_complete sent.0 in
    let packed = maybe_pack now completed.0 in
    let finished = pump_fin packed.0 in
    (finished.0, stalled.1 ++ (sent.1 ++ (completed.1 ++ (packed.1 ++ finished.1))))
