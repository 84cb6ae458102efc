-- ===== src/Fillp/Conn/Buffered.antt =====
-- The account of the out-of-order table of src/proto/fillp_conn.c: `ofo_bytes`, its cap, and what a
-- repeated packet does to it.
use hwphonelink.Fillp.Conn.InOrder.{reads_freed}
use hwphonelink.Fillp.Frame.{hlen, decode_head, Head}
use hwphonelink.Fillp.Conn.Window.{sum_len}
use hwphonelink.Fillp.Conn.Receive.{
  gap_packet, next_num, maybe_nack, ofo_replace, send_pack, flush, accept, ofo_lookup, on_data,
  on_packet, on_next, on_gap, buffer_gap, on_duplicate, maybe_pack, ofo_remove,
}
use hwphonelink.Fillp.Conn.State.{ofo_max_bytes, Pkt, Peer}
use hwphonelink.Prelude.{false, Option, none}
use hwphonelink.Prelude.{
  leb, ap, true, refl, drop, copy, ◌*◌, ◌≡◌, ◌∷◌, ◌+◌, arith, Option-cases, ◌≤◌, List, ℕ, [], inr,
  inl, some,
}

-- The counter covers the buffered packets, and respects the cap.
pub record IsCovered (p : Peer) : Type 0 where
  pub covers : sum_len p.ofo ≤ p.ofo_bytes
  pub capped : p.ofo_bytes ≤ ofo_max_bytes

sum_len-ofo_remove : (k : ℕ) (t : List Pkt) → sum_len (ofo_remove k t) ≤ sum_len t
unfolding ofo_remove
sum_len-ofo_remove k [] = omega arith
sum_len-ofo_remove k (q ∷ t) = ground (arith, sum_len-ofo_remove k t)

maybe_pack-IsCovered : (now : ℕ) (p : Peer) → IsCovered p → IsCovered (maybe_pack now p).0
unfolding maybe_pack send_pack
maybe_pack-IsCovered now p c = ground arith

on_duplicate-IsCovered : (now : ℕ) (p : Peer) → IsCovered p → IsCovered (on_duplicate now p).0
unfolding on_duplicate send_pack
on_duplicate-IsCovered now p c = ground arith

buffer_gap-IsCovered :
    (h : Head) (payload : List ℕ) (p : Peer) → IsCovered p → IsCovered (buffer_gap h payload p)
unfolding buffer_gap ofo_replace
buffer_gap-IsCovered h payload p c = ground (arith, sum_len-ofo_remove h.pkt_num p.ofo)

on_gap-IsCovered :
    (now random : ℕ) (h : Head) (payload : List ℕ) (p : Peer)
    → IsCovered p
    → IsCovered (on_gap now random h payload p).0
unfolding on_gap maybe_nack
on_gap-IsCovered now random h payload p c = ground (arith, buffer_gap-IsCovered h payload p c)

flush-IsCovered : (now : ℕ) (o : Option Pkt) (p : Peer) → IsCovered p → IsCovered (flush now o p).0
unfolding flush
flush-IsCovered now none p c = maybe_pack-IsCovered now p c
flush-IsCovered now (some q) p c = record {
  covers = omega (arith, sum_len-ofo_remove (next_num p) p.ofo, c.covers);
  capped = c.capped;
}

on_next-IsCovered :
    (now : ℕ) (h : Head) (payload : List ℕ) (p : Peer)
    → IsCovered p
    → IsCovered (on_next now h payload p).0
unfolding on_next accept
on_next-IsCovered now h payload p c =
    let a = accept h.pkt_num h.seq_num h.data_len p in
    flush-IsCovered now (ofo_lookup (next_num a) a.ofo) a
      (record { covers = c.covers; capped = c.capped })

on_packet-IsCovered :
    (now random : ℕ) (h : Head) (payload : List ℕ) (p : Peer)
    → IsCovered p
    → IsCovered (on_packet now random h payload p).0
unfolding on_packet
on_packet-IsCovered now random h payload p c = ground (
  arith,
  on_duplicate-IsCovered now p c,
  on_next-IsCovered now h payload p c,
  on_gap-IsCovered now random h payload p c,
)

-- Whatever datagram arrives, if its handler reads no freed packet: the bytes counted as buffered
-- cover those in the table if they did before, and do not pass the cap of 2 MB if they did not
-- before.
pub on_data-IsCovered :
    (now random : ℕ) (p : Peer) (buf : List ℕ)
    → IsCovered p
    → reads_freed (on_data now random p buf).1 ≡ false
    → IsCovered (on_data now random p buf).0
unfolding on_data
on_data-IsCovered now random p buf c safe = elim (Option-cases (decode_head buf)) [
  | inl e ↦ ground arith
  | inr (h, e) ↦
      ground (arith, on_packet-IsCovered now random h (copy h.data_len (drop hlen buf)) p c)
]

buffer_gap_taken :
    (h : Head) (payload : List ℕ) (p : Peer)
    → p.ofo_bytes + h.data_len ≤ ofo_max_bytes
    → buffer_gap h payload p ≡ record p {
      ofo = gap_packet h payload ∷ ofo_remove h.pkt_num p.ofo;
      ofo_bytes = p.ofo_bytes + h.data_len;
    }
unfolding buffer_gap ofo_replace
buffer_gap_taken h payload p b =
    let t : leb (p.ofo_bytes + h.data_len) ofo_max_bytes ≡ true = ground arith in rw t

ofo_remove_head :
    (k : ℕ) (q : Pkt) (t : List Pkt) → q.pkt_num ≡ k → ofo_remove k (q ∷ t) ≡ ofo_remove k t
unfolding ofo_remove
ofo_remove_head k q t e = ground arith

-- A packet ahead of a gap that arrives twice, with room below the cap and a count that covers the
-- table, is counted twice, though the table holds it once: the counter then exceeds the table by at
-- least the packet's length.
pub buffer_gap-counts_twice :
    (h : Head) (payload : List ℕ) (p : Peer)
    → IsCovered p
    → p.ofo_bytes + 2 * h.data_len ≤ ofo_max_bytes
    → let r = buffer_gap h payload (buffer_gap h payload p) in
      (r.ofo_bytes ≡ p.ofo_bytes + 2 * h.data_len) × (sum_len r.ofo + h.data_len ≤ r.ofo_bytes)
buffer_gap-counts_twice h payload p c b =
    let q = buffer_gap h payload p in
    let first = buffer_gap_taken h payload p (omega arith) in
    let bytes : q.ofo_bytes ≡ p.ofo_bytes + h.data_len = ap Peer.ofo_bytes first in
    let held : q.ofo ≡ gap_packet h payload ∷ ofo_remove h.pkt_num p.ofo = ap Peer.ofo first in
    let second = buffer_gap_taken h payload q (omega arith) in
    let same : ofo_remove h.pkt_num q.ofo ≡ ofo_remove h.pkt_num (ofo_remove h.pkt_num p.ofo) =
      rw held
        (ofo_remove_head h.pkt_num (gap_packet h payload) (ofo_remove h.pkt_num p.ofo) refl) in
    rw second (
      omega arith,
      omega (
        arith,
        ap sum_len same,
        sum_len-ofo_remove h.pkt_num (ofo_remove h.pkt_num p.ofo),
        sum_len-ofo_remove h.pkt_num p.ofo,
        c.covers,
      ),
    )
