-- ===== src/Fillp/Conn/Tests.antt =====
-- Runs of the connection engine of src/proto/fillp_conn.c.
use Prim.Native.Nat.{min, max}
use hwphonelink.Fillp.Conn.Resend.{on_pack-IsSending, on_nack-resends_gap, flying}
use hwphonelink.Fillp.Conn.Pump.{pump-IsSending, added}
use hwphonelink.Fillp.Conn.Stream.{receive_all-prefix, FromSender, receive_all, Arrival}
use hwphonelink.Fillp.Conn.Reorder.{on_data-reads_freed, receive_all-in_order, receive_all-swapped}
use hwphonelink.Fillp.Conn.Buffered.{buffer_gap-counts_twice, on_data-IsCovered, IsCovered}
use hwphonelink.Fillp.Frame.{num_isbigger, decode_head, encode_head, Head}
use hwphonelink.Fillp.Frame.Acks.{
  encode_nack, nack_bytes, pack_bytes, decode_nack, Nack, decode_pack, Pack,
}
use hwphonelink.Fillp.Conn.Send.{on_pack, pump, on_nack, data_packet, Fill}
use hwphonelink.Fillp.Conn.Window.{sum_len, IsSending}
use hwphonelink.Fillp.Conn.Receive.{maybe_nack, on_gap, on_packet, buffer_gap, ofo_lookup, on_data}
use hwphonelink.Fillp.Conn.State.{send, peer_new, Pkt, Peer}
use hwphonelink.Fillp.Conn.InOrder.{reads_freed, stream, delivered}
use hwphonelink.Prelude.{
  sub64, copy, suc, ◌↔◌, some, get_u16, put_u64, get_u32, put_u32, ◌+◌, put_u16, ◌≤◌, ◌^◌, ◌*◌, ◌≡◌,
  ◌++◌, arith, ◌∷◌, ◌<◌, ◌%◌, List, ℕ, [], false, true, refl,
}

abbrev chunk : ℕ → List ℕ
chunk n = (n % 256) ∷ 7 ∷ []

abbrev pkt : ℕ → Pkt
pkt n = record { pkt_num = n; seq_num = 2 * n; len = 2; t_sent_ms = 0; bytes = chunk n }

pkt-FromSender : (n : ℕ) → n < 2 ^ 31 → FromSender chunk (pkt n)
pkt-FromSender n h = record {
  num_fits = h;
  seq_fits = omega arith;
  part = refl;
  measured = refl;
  small = omega arith;
}

-- Packet 3 is ahead of a gap, and packet 1 comes twice.
abbrev arrivals : List Arrival
arrivals =
    record { now = 100; random = 1; pkt = pkt 3 }
    ∷ record { now = 110; random = 2; pkt = pkt 1 }
    ∷ record { now = 120; random = 3; pkt = pkt 1 }
    ∷ []

receive_all-prefix_example :
    delivered (receive_all arrivals (peer_new false 90)).1
    ≡ stream chunk (receive_all arrivals (peer_new false 90)).0.recv_pkt_num
receive_all-prefix_example = receive_all-prefix chunk arrivals 90 false (
  pkt-FromSender 3 (omega arith),
  (pkt-FromSender 1 (omega arith), (pkt-FromSender 1 (omega arith), tt)),
)

abbrev ordered : List Arrival
ordered =
    record { now = 100; random = 1; pkt = pkt 1 }
    ∷ record { now = 110; random = 2; pkt = pkt 2 }
    ∷ []

receive_all-in_order_example :
    let r = receive_all ordered (peer_new false 90) in
    (delivered r.1 ≡ stream chunk 2) × (r.0.recv_pkt_num ≡ 2) × (reads_freed r.1 ≡ false)
receive_all-in_order_example =
    receive_all-in_order chunk ordered 90 false
      (pkt-FromSender 1 (omega arith), (pkt-FromSender 2 (omega arith), tt)) (refl, (refl, tt))

abbrev fresh : Peer
fresh = peer_new false 90

abbrev gapped : Peer
gapped = record fresh { ofo = pkt 2 ∷ []; ofo_bytes = 2 }

on_data-reads_freed_example :
    (reads_freed (on_data 110 2 gapped (data_packet (pkt 1))).1 ≡ true)
    ↔ (((pkt 1).pkt_num ≡ suc gapped.recv_pkt_num) × (e : Pkt) × (ofo_lookup 2 gapped.ofo ≡ some e))
unfolding peer_new
on_data-reads_freed_example =
    on_data-reads_freed chunk 110 2 gapped (pkt 1) (pkt-FromSender 1 (omega arith)) (omega arith)

receive_all-swapped_example :
    reads_freed
      (receive_all
        (record { now = 100; random = 1; pkt = pkt 2 }
          ∷ record { now = 110; random = 2; pkt = pkt 1 }
          ∷ [])
        fresh).1
    ≡ true
unfolding peer_new
receive_all-swapped_example =
    receive_all-swapped chunk (record { now = 100; random = 1; pkt = pkt 2 })
      (record { now = 110; random = 2; pkt = pkt 1 }) [] fresh (pkt-FromSender 1 (omega arith))
      (pkt-FromSender 2 (omega arith)) refl refl (omega arith)

-- Two packets in flight, and a queue.
abbrev sender : Peer
sender = record (peer_new true 90) {
  send_pkt_num = 3;
  txq = 1 ∷ 2 ∷ 3 ∷ [];
  inflight = pkt 2 ∷ pkt 3 ∷ [];
  inflight_bytes = 4;
  has_fill_fn = true;
}

abbrev whole : List ℕ
whole = 1 ∷ 7 ∷ 2 ∷ 7 ∷ 3 ∷ 7 ∷ 1 ∷ 2 ∷ 3 ∷ []

abbrev acked : List ℕ
acked = 1 ∷ 7 ∷ []

sender-IsSending : IsSending 1 acked whole sender
sender-IsSending = record {
  numbered = (refl, refl, omega arith, omega arith, (refl, refl, omega arith, omega arith, refl));
  counted = refl;
  window = omega arith;
  kept = refl;
}

abbrev fill : Fill
fill = record { queued = 4 ∷ 5 ∷ []; finished = true }

pump-IsSending_example : IsSending 1 acked (whole ++ added fill sender) (pump 200 fill sender).0
pump-IsSending_example = pump-IsSending 1 200 acked whole fill sender sender-IsSending (omega arith)

abbrev pack : Pack
pack = record { ack_seq = 4; ack_pkt = 2; lost_seq = 4; rcv_list_bytes = 0 }

on_pack-IsSending_example :
    (gone : List ℕ) × IsSending
      (max 1 (min 2 3))
      (acked ++ gone)
      whole
      (on_pack sender (pack_bytes pack))
unfolding decode_pack decode_head pack_bytes encode_head put_u16 put_u32 get_u32 get_u16
on_pack-IsSending_example =
    on_pack-IsSending 1 acked whole sender (pack_bytes pack) pack sender-IsSending (omega arith)
      refl (omega arith)

abbrev nack : Nack
nack = record { begin_pkt = 1; end_pkt = 3; seq_num = 2 }

on_nack-resends_gap_example :
    (q : Pkt) × (flying 2 sender.inflight ≡ q ∷ [])
    × (q.pkt_num ≡ 2)
    × ((on_nack 200 sender (nack_bytes 3 nack 5)).1 ≡ send (data_packet q) ∷ [])
unfolding decode_nack nack_bytes decode_head encode_head put_u16 put_u32 put_u64 get_u16 get_u32
on_nack-resends_gap_example =
    on_nack-resends_gap 1 200 acked whole sender (nack_bytes 3 nack 5) nack sender-IsSending
      (omega arith) refl refl (omega arith) (omega arith)

gapped-IsCovered : IsCovered gapped
gapped-IsCovered = record { covers = omega arith; capped = omega arith }

ahead_safe : reads_freed (on_data 110 2 gapped (data_packet (pkt 3))).1 ≡ false
unfolding peer_new data_packet encode_head decode_head on_data on_packet on_gap maybe_nack
    buffer_gap num_isbigger put_u16 put_u32 copy get_u16 get_u32 sub64 encode_nack
ahead_safe = refl

on_data-IsCovered_example : IsCovered (on_data 110 2 gapped (data_packet (pkt 3))).0
on_data-IsCovered_example =
    on_data-IsCovered 110 2 gapped (data_packet (pkt 3)) gapped-IsCovered ahead_safe

abbrev head : Head
head = record { pkt_type = 1; flags = 0; data_len = 2; pkt_num = 4; seq_num = 8 }

buffer_gap-counts_twice_example :
    let r = buffer_gap head (chunk 4) (buffer_gap head (chunk 4) gapped) in
    (r.ofo_bytes ≡ 6) × (sum_len r.ofo + 2 ≤ r.ofo_bytes)
buffer_gap-counts_twice_example =
    buffer_gap-counts_twice head (chunk 4) gapped gapped-IsCovered (omega arith)
