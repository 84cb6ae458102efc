-- ===== src/Fillp/Conn/Stream.antt =====
-- The datagrams that the sender of src/proto/fillp_conn.c builds, as its receiver takes them.
use hwphonelink.Fillp.Conn.Delivery.{on_packet-After}
use hwphonelink.Fillp.Frame.RoundTrip.{decode_head-encode_head}
use hwphonelink.Fillp.Conn.InOrder.{
  reads_freed, After-then, stream, Done, delivered, After, InOrder,
}
use hwphonelink.Fillp.Frame.{num_isbigger, hlen, pkt_data, encode_head, decode_head, Head}
use hwphonelink.Fillp.Conn.Receive.{
  on_duplicate, maybe_nack, send_pack, on_next, maybe_pack, on_packet, on_data,
}
use hwphonelink.Fillp.Conn.Send.{data_packet}
use hwphonelink.Fillp.Conn.State.{emit, pkt_data_max, Effect, peer_new, Peer, Pkt}
use hwphonelink.Prelude.{
  Bool-cases, Option, if◌then◌else◌, false, sym, ap, ◌+◌, copy-all, arith, drop, copy, ◌≤◌, ◌++◌,
  put_u32, length, Bool, put_u16, ◌≡◌, ◌^◌, ◌∷◌, ◌<◌, List, ℕ, [], inr, inl, some, none, refl, suc,
}

-- The packet carries its part of the stream.
pub record FromSender (chunk : ℕ → List ℕ) (q : Pkt) : Type 0 where
  pub num_fits : q.pkt_num < 2 ^ 31
  pub seq_fits : q.seq_num < 2 ^ 32
  pub part : q.bytes ≡ chunk q.pkt_num
  pub measured : q.len ≡ length q.bytes
  pub small : q.len ≤ pkt_data_max

abbrev pub head_of : Pkt → Head
head_of q = record {
  pkt_type = pkt_data;
  flags = 0;
  data_len = q.len;
  pkt_num = q.pkt_num;
  seq_num = q.seq_num;
}

decode_head-data_packet :
    (chunk : ℕ → List ℕ) (q : Pkt)
    → FromSender chunk q
    → decode_head (data_packet q) ≡ some (head_of q)
unfolding data_packet
decode_head-data_packet chunk q f =
    decode_head-encode_head pkt_data 0 q.len q.pkt_num q.seq_num (copy q.len q.bytes) (omega arith)
      (omega arith) (omega (arith, f.small)) (omega (arith, f.num_fits)) f.seq_fits

payload-data_packet : (q : Pkt) → q.len ≡ length q.bytes → drop hlen (data_packet q) ≡ q.bytes
unfolding data_packet encode_head put_u16 put_u32
payload-data_packet q h = copy-all q.len q.bytes (sym h)

length-data_packet : (q : Pkt) → q.len ≡ length q.bytes → length (data_packet q) ≡ hlen + q.len
unfolding data_packet encode_head put_u16 put_u32
length-data_packet q h = rw (copy-all q.len q.bytes (sym h)) (omega arith)

-- The receiver reads the sender's datagram as its head and payload.
pub on_data-data_packet :
    (chunk : ℕ → List ℕ) (now random : ℕ) (p : Peer) (q : Pkt)
    → FromSender chunk q
    → on_data now random p (data_packet q) ≡ on_packet now random (head_of q) q.bytes p
unfolding on_data
on_data-data_packet chunk now random p q f =
    let l = length-data_packet q f.measured in
    ground (
      arith,
      decode_head-data_packet chunk q f,
      f.small,
      l,
      ap (copy q.len) (payload-data_packet q f.measured),
      copy-all q.len q.bytes (sym f.measured),
    )

-- A datagram arrives at a time, with the number that a NACK in answer would carry.
pub record Arrival : Type 0 where
  pub now : ℕ
  pub random : ℕ
  pub pkt : Pkt

-- The data plane under a run of arrivals: any packets, in any order, as often as the net repeats
-- them. The run ends where a handler comes to read a packet that was freed.
unfoldable pub receive_all : List Arrival → Peer → Peer × List Effect
receive_all [] p = (p, [])
receive_all (a ∷ l) p =
    let r = on_data a.now a.random p (data_packet a.pkt) in
    let rest = receive_all l r.0 in if reads_freed r.1 then r else (rest.0, r.1 ++ rest.1)

abbrev pub AllFromSender : (ℕ → List ℕ) → List Arrival → Type 0
AllFromSender chunk [] = Unit
AllFromSender chunk (a ∷ l) = FromSender chunk a.pkt × AllFromSender chunk l

reads_freed-emit : (o : Option (List ℕ)) → reads_freed (emit o) ≡ false
reads_freed-emit none = refl
reads_freed-emit (some b) = refl

-- `fp_maybe_pack` leaves the number and the table, and reads no packet.
pub maybe_pack-keeps :
    (now : ℕ) (p : Peer)
    → ((maybe_pack now p).0.recv_pkt_num ≡ p.recv_pkt_num)
      × ((maybe_pack now p).0.ofo ≡ p.ofo)
      × (reads_freed (maybe_pack now p).1 ≡ false)
unfolding maybe_pack send_pack
maybe_pack-keeps now p = (ground arith, ground arith, grind (arith, reads_freed-emit))

pub maybe_nack-safe : (now random : ℕ) (p : Peer) → reads_freed (maybe_nack now random p).1 ≡ false
unfolding maybe_nack
maybe_nack-safe now random p = grind (arith, reads_freed-emit)

pub on_duplicate-safe : (now : ℕ) (p : Peer) → reads_freed (on_duplicate now p).1 ≡ false
unfolding on_duplicate send_pack
on_duplicate-safe now p = grind (arith, reads_freed-emit)

pub on_packet-next :
    (now random : ℕ) (h : Head) (payload : List ℕ) (p : Peer)
    → p.recv_pkt_num < 2 ^ 31
    → h.pkt_num ≡ suc p.recv_pkt_num
    → on_packet now random h payload p ≡ on_next now h payload p
unfolding on_packet num_isbigger
on_packet-next now random h payload p b e = ground arith

module _ (chunk : ℕ → List ℕ) where
  receive_all-After :
      (l : List Arrival) (p : Peer) (out : List ℕ)
      → InOrder chunk p out
      → AllFromSender chunk l
      → After chunk out (receive_all l p)
  unfolding receive_all
  receive_all-After [] p out i f = Done chunk p out i
  receive_all-After (a ∷ l) p out i f =
      let r = on_data a.now a.random p (data_packet a.pkt) in
      let first : After chunk out r = rw (on_data-data_packet chunk a.now a.random p a.pkt f.0) (
        on_packet-After chunk a.now a.random (head_of a.pkt) a.pkt.bytes p out i f.0.num_fits
          f.0.part) in
      elim (Bool-cases (reads_freed r.1)) [
        | inl e ↦ rw e first
        | inr e ↦ rw e (
            After-then chunk out r (receive_all l r.0)
              (receive_all-After l r.0 (out ++ delivered r.1) first f.1))
      ]

  -- Whatever packets of a stream of fewer than 2 ^ 31 packets reach a new peer, lost, repeated and
  -- reordered at will, in a run that ends where a handler comes to read a freed packet: the
  -- application is given exactly the bytes of the first packets of the stream, in order, up to the
  -- packet number that the peer acknowledges.
  pub receive_all-prefix :
      (l : List Arrival) (now : ℕ) (is_client : Bool)
      → AllFromSender chunk l
      → delivered (receive_all l (peer_new is_client now)).1
        ≡ stream chunk (receive_all l (peer_new is_client now)).0.recv_pkt_num
  unfolding peer_new
  receive_all-prefix l now is_client f =
      (receive_all-After l (peer_new is_client now) []
        (record { below = omega arith; prefix = refl; buffered = tt }) f).prefix
