-- ===== src/Fillp/Conn/Receive.antt =====
-- The receiving half of the data plane of src/proto/fillp_conn.c: `fp_on_data` with its
-- out-of-order table, and the PACK and NACK that it sends.
use hwphonelink.Fillp.Frame.Acks.{nack_len, encode_nack, pack_len, encode_pack}
use hwphonelink.Fillp.Frame.{pkt_nack, num_isbigger, hlen, decode_head, Head}
use hwphonelink.Fillp.Conn.State.{
  use_after_free, pack_interval_ms, pkt_data_max, ofo_max_bytes, nack_interval_ms, pack_flush_bytes,
  deliver, emit, Effect, Peer, Pkt,
}
use hwphonelink.Prelude.{sub64}
use hwphonelink.Prelude.{
  drop, copy, ◌&&◌, not, leb, ltb, ◌==◌, length, ◌^◌, if◌then◌else◌, ◌%◌, ◌∷◌, Option, ◌+◌, List, ℕ,
  [], some, none,
}

-- The table `ofo` maps the packet number to the packet, so it is a list of packets with distinct
-- numbers: `g_hash_table_lookup`, `g_hash_table_remove` and `g_hash_table_replace`.
unfoldable pub ofo_lookup : ℕ → List Pkt → Option Pkt
ofo_lookup k [] = none
ofo_lookup k (q ∷ t) = if q.pkt_num == k then some q else ofo_lookup k t

unfoldable pub ofo_remove : ℕ → List Pkt → List Pkt
ofo_remove k [] = []
ofo_remove k (q ∷ t) = if q.pkt_num == k then ofo_remove k t else q ∷ ofo_remove k t

unfoldable pub ofo_replace : Pkt → List Pkt → List Pkt
ofo_replace q t = q ∷ ofo_remove q.pkt_num t

-- `fp_send_pack`.
unfoldable pub send_pack : ℕ → Peer → Peer × List Effect
send_pack now p = (
  record p { delivered_since_pack = 0; t_last_pack_ms = now },
  emit (
      encode_pack (hlen + pack_len) (record {
        ack_seq = p.recv_seq_num;
        ack_pkt = p.recv_pkt_num;
        lost_seq = p.recv_seq_num;
        rcv_list_bytes = p.ofo_bytes % 2 ^ 32;
      })),
)

-- `fp_maybe_pack`.
unfoldable pub maybe_pack : ℕ → Peer → Peer × List Effect
unfolding send_pack
maybe_pack now p =
    if p.delivered_since_pack == 0
    then (p, [])
    else if ltb p.delivered_since_pack pack_flush_bytes
        && ltb (sub64 now p.t_last_pack_ms) pack_interval_ms
    then (p, [])
    else send_pack now p

-- `fp_maybe_nack`; `random` is the 64-bit number from the two calls of `g_random_int`.
unfoldable pub maybe_nack : ℕ → ℕ → Peer → Peer × List Effect
maybe_nack now random p = if ltb (sub64 now p.t_last_nack_ms) nack_interval_ms then (p, []) else (
  record p { t_last_nack_ms = now },
  emit (
      encode_nack (hlen + nack_len) pkt_nack
        (record {
          begin_pkt = p.recv_pkt_num;
          end_pkt = (p.recv_pkt_num + 2) % 2 ^ 32;
          seq_num = p.recv_seq_num;
        })
        random),
)

-- The number of the packet that is next in order.
abbrev pub next_num : Peer → ℕ
next_num p = (p.recv_pkt_num + 1) % 2 ^ 32

-- The counters after the next packet in order.
unfoldable pub accept : ℕ → ℕ → ℕ → Peer → Peer
accept pkt_num seq_num len p = record p {
  recv_pkt_num = pkt_num;
  recv_seq_num = seq_num;
  delivered_since_pack = p.delivered_since_pack + len;
}

-- The flush loop of `fp_on_data`, with the buffered packet that is next in order, and the PACK behind
-- it. `ofo` was made with `fp_pkt_free` as the destructor of its values, so that
-- `g_hash_table_remove` frees the packet; the loop goes on to read it, and frees it again. What C does
-- from that read on is undefined: the handler ends there with the effect `use_after_free`.
unfoldable pub flush : ℕ → Option Pkt → Peer → Peer × List Effect
flush now none p = maybe_pack now p
flush now (some q) p = (record p { ofo = ofo_remove (next_num p) p.ofo }, use_after_free ∷ [])

-- The branch of `fp_on_data` for the next packet in order.
unfoldable pub on_next : ℕ → Head → List ℕ → Peer → Peer × List Effect
unfolding flush
on_next now h payload p =
    let a = accept h.pkt_num h.seq_num h.data_len p in
    let rest = flush now (ofo_lookup (next_num a) a.ofo) a in (rest.0, deliver payload ∷ rest.1)

-- The packet that the branch for a gap buffers.
abbrev pub gap_packet : Head → List ℕ → Pkt
gap_packet h payload = record {
  pkt_num = h.pkt_num;
  seq_num = h.seq_num;
  len = h.data_len;
  t_sent_ms = 0;
  bytes = payload;
}

-- A packet ahead of a gap is buffered, up to the cap on the bytes.
unfoldable pub buffer_gap : Head → List ℕ → Peer → Peer
buffer_gap h payload p =
    if leb (p.ofo_bytes + h.data_len) ofo_max_bytes
    then record p {
      ofo = ofo_replace (gap_packet h payload) p.ofo;
      ofo_bytes = p.ofo_bytes + h.data_len;
    }
    else p

-- The branch of `fp_on_data` for a gap.
unfoldable pub on_gap : ℕ → ℕ → Head → List ℕ → Peer → Peer × List Effect
on_gap now random h payload p = maybe_nack now random (buffer_gap h payload p)

-- The branch of `fp_on_data` for a duplicate: re-ack, but not more often than the NACK interval.
unfoldable pub on_duplicate : ℕ → Peer → Peer × List Effect
unfolding send_pack
on_duplicate now p =
    if leb nack_interval_ms (sub64 now p.t_last_pack_ms) then send_pack now p else (p, [])

-- What `fp_on_data` does once the head is read and the length checked.
unfoldable pub on_packet : ℕ → ℕ → Head → List ℕ → Peer → Peer × List Effect
on_packet now random h payload p =
    if not (num_isbigger h.pkt_num p.recv_pkt_num)
    then on_duplicate now p
    else if h.pkt_num == next_num p
    then on_next now h payload p
    else on_gap now random h payload p

-- `fp_on_data`.
unfoldable pub on_data : ℕ → ℕ → Peer → List ℕ → Peer × List Effect
on_data now random p buf = elim (decode_head buf) [
  | none ↦ (p, [])
  | some h ↦
      if ltb (length buf) (hlen + h.data_len)
      then (p, [])
      else if ltb pkt_data_max h.data_len
      then (p, [])
      else on_packet now random h (copy h.data_len (drop hlen buf)) p
]
