-- ===== src/Fillp/Conn/Reorder.antt =====
-- When `fp_on_data` of src/proto/fillp_conn.c reads a packet that `g_hash_table_remove` has freed.
use hwphonelink.Fillp.Conn.Stream.{
  maybe_pack-keeps, maybe_nack-safe, on_duplicate-safe, on_packet-next, on_data-data_packet,
  AllFromSender, Arrival, FromSender, head_of, receive_all, receive_all-prefix,
}
use hwphonelink.Fillp.Conn.InOrder.{delivered, reads_freed, stream}
use hwphonelink.Fillp.Conn.Receive.{
  gap_packet, accept, buffer_gap, flush, maybe_nack, next_num, ofo_lookup, ofo_replace, on_data,
  on_gap, on_next, on_packet,
}
use hwphonelink.Fillp.Conn.Send.{data_packet}
use hwphonelink.Fillp.Conn.State.{
  use_after_free, notify_closed, notify_tx_complete, notify_established, deliver, send, Effect,
  ofo_max_bytes, peer_new, Peer, Pkt,
}
use hwphonelink.Fillp.Frame.{num_isbigger, Head}
use hwphonelink.Prelude.{
  ◌++◌, ==_iff, arith, Bool, Bool-cases, length, List, ℕ, Option-cases, ap, sym, ◌+◌, ◌<◌, ◌==◌,
  ◌^◌, ◌∙◌, ◌∷◌, ◌≡◌, ◌≤◌, ◌↔◌, [], false, inl, inr, none, refl, some, suc, true,
}

module _ (now : ℕ) (h : Head) (payload : List ℕ) (p : Peer) (fits : h.pkt_num < 2 ^ 31) where
  next_num-accept : next_num (accept h.pkt_num h.seq_num h.data_len p) ≡ suc h.pkt_num
  unfolding accept
  next_num-accept = omega (arith, fits)

  on_next_last :
      ofo_lookup (suc h.pkt_num) p.ofo ≡ none
      → let r = on_next now h payload p in
        (r.0.recv_pkt_num ≡ h.pkt_num) × (r.0.ofo ≡ p.ofo) × (reads_freed r.1 ≡ false)
  unfolding on_next flush accept
  on_next_last e =
      rw (next_num-accept, e) (maybe_pack-keeps now (accept h.pkt_num h.seq_num h.data_len p))

  on_next_more :
      (q : Pkt)
      → ofo_lookup (suc h.pkt_num) p.ofo ≡ some q
      → reads_freed (on_next now h payload p).1 ≡ true
  unfolding on_next flush accept
  on_next_more q e = rw (next_num-accept, e) refl

module _ (chunk : ℕ → List ℕ) (now random : ℕ) (p : Peer) (q : Pkt) (f : FromSender chunk q) where
  on_data-on_next :
      q.pkt_num ≡ suc p.recv_pkt_num
      → on_data now random p (data_packet q) ≡ on_next now (head_of q) q.bytes p
  on_data-on_next e =
      on_data-data_packet chunk now random p q f
      ∙ on_packet-next now random (head_of q) q.bytes p (omega (arith, f.num_fits)) e

  on_data-cause :
      p.recv_pkt_num < 2 ^ 31
      → reads_freed (on_data now random p (data_packet q)).1 ≡ true
      → (q.pkt_num ≡ suc p.recv_pkt_num) × (e : Pkt) × (ofo_lookup (suc q.pkt_num) p.ofo ≡ some e)
  unfolding on_packet on_gap
  on_data-cause b r =
      let t : reads_freed (on_packet now random (head_of q) q.bytes p).1 ≡ true =
        rw (sym (on_data-data_packet chunk now random p q f)) r in
      elim (Bool-cases (num_isbigger q.pkt_num p.recv_pkt_num)) [
        | inr old ↦ absurd (cc (on_duplicate-safe now p, rw old at t))
        | inl new ↦ elim (Bool-cases (q.pkt_num == next_num p)) [
          | inr gap ↦ absurd (
              cc
                (maybe_nack-safe now random (buffer_gap (head_of q) q.bytes p), rw (new, gap) at t))
          | inl e ↦
              let n : q.pkt_num ≡ suc p.recv_pkt_num =
                omega (arith, (==_iff q.pkt_num (next_num p)).0 e, b, f.num_fits) in
              elim (Option-cases (ofo_lookup (suc q.pkt_num) p.ofo)) [
                | inr (m, more) ↦ (n, m, more)
                | inl last ↦ absurd (
                    cc (
                      (on_next_last now (head_of q) q.bytes p f.num_fits last).2,
                      rw (new, e) at t,
                    ))
              ]
        ]
      ]

  -- A packet of a stream of fewer than 2 ^ 31 packets makes the receiver read a freed packet if and
  -- only if it is the next one in order and the one behind it is buffered, when fewer than 2 ^ 31
  -- packets were delivered.
  pub on_data-reads_freed :
      p.recv_pkt_num < 2 ^ 31
      → (reads_freed (on_data now random p (data_packet q)).1 ≡ true) ↔ (
          (q.pkt_num ≡ suc p.recv_pkt_num)
          × (e : Pkt) × (ofo_lookup (suc q.pkt_num) p.ofo ≡ some e))
  on_data-reads_freed b = (
    on_data-cause b,
    λ (n, e, l). rw (on_data-on_next n) (on_next_more now (head_of q) q.bytes p f.num_fits e l),
  )

-- The packets come one after the other, from the one behind `n` on.
abbrev pub Numbered : ℕ → List Arrival → Type 0
Numbered n [] = Unit
Numbered n (a ∷ l) = (a.pkt.pkt_num ≡ suc n) × Numbered (suc n) l

reads_freed-append :
    (l m : List Effect) → reads_freed l ≡ false → reads_freed (l ++ m) ≡ reads_freed m
reads_freed-append [] m e = refl
reads_freed-append (send b ∷ l) m e = reads_freed-append l m e
reads_freed-append (deliver b ∷ l) m e = reads_freed-append l m e
reads_freed-append (notify_established ∷ l) m e = reads_freed-append l m e
reads_freed-append (notify_tx_complete ∷ l) m e = reads_freed-append l m e
reads_freed-append (notify_closed ∷ l) m e = reads_freed-append l m e
reads_freed-append (use_after_free ∷ l) m e = absurd (cc)

receive_all_safe :
    (a : Arrival) (l : List Arrival) (p : Peer)
    → let r = on_data a.now a.random p (data_packet a.pkt) in
      reads_freed r.1 ≡ false
      → (receive_all (a ∷ l) p ≡ ((receive_all l r.0).0, r.1 ++ (receive_all l r.0).1))
        × (reads_freed (receive_all (a ∷ l) p).1 ≡ reads_freed (receive_all l r.0).1)
unfolding receive_all
receive_all_safe a l p e =
    let r = on_data a.now a.random p (data_packet a.pkt) in
    (rw e refl, rw e (reads_freed-append r.1 (receive_all l r.0).1 e))

receive_all_stop :
    (a : Arrival) (l : List Arrival) (p : Peer)
    → reads_freed (on_data a.now a.random p (data_packet a.pkt)).1 ≡ true
    → reads_freed (receive_all (a ∷ l) p).1 ≡ true
unfolding receive_all
receive_all_stop a l p e = rw e e

maybe_nack-keeps :
    (now random : ℕ) (p : Peer)
    → ((maybe_nack now random p).0.recv_pkt_num ≡ p.recv_pkt_num)
      × ((maybe_nack now random p).0.ofo ≡ p.ofo)
unfolding maybe_nack
maybe_nack-keeps now random p = ground arith

buffer_gap_room :
    (h : Head) (payload : List ℕ) (p : Peer)
    → p.ofo_bytes + h.data_len ≤ ofo_max_bytes
    → let b = buffer_gap h payload p in
      (b.recv_pkt_num ≡ p.recv_pkt_num) × (ofo_lookup h.pkt_num b.ofo ≡ some (gap_packet h payload))
unfolding buffer_gap ofo_replace ofo_lookup
buffer_gap_room h payload p b = ground arith

on_packet-gap :
    (now random : ℕ) (h : Head) (payload : List ℕ) (p : Peer)
    → h.pkt_num < 2 ^ 31
    → h.pkt_num ≡ suc (suc p.recv_pkt_num)
    → on_packet now random h payload p ≡ maybe_nack now random (buffer_gap h payload p)
unfolding on_packet num_isbigger on_gap
on_packet-gap now random h payload p b e = ground arith

module _ (chunk : ℕ → List ℕ) where
  run_in_order :
      (l : List Arrival) (n : ℕ) (p : Peer)
      → AllFromSender chunk l
      → Numbered n l
      → p.recv_pkt_num ≡ n
      → p.ofo ≡ []
      → ((receive_all l p).0.recv_pkt_num ≡ n + length l)
        × (reads_freed (receive_all l p).1 ≡ false)
  unfolding ofo_lookup
  run_in_order [] n p f s e o = unfold receive_all in (omega arith, refl)
  run_in_order (a ∷ l) n p f s e o =
      let r = on_data a.now a.random p (data_packet a.pkt) in
      let q = on_data-on_next chunk a.now a.random p a.pkt f.0 (s.0 ∙ ap suc (sym e)) in
      let (num, table, safe) =
        on_next_last a.now (head_of a.pkt) a.pkt.bytes p f.0.num_fits (rw o refl) in
      let (all, calm) = receive_all_safe a l p (rw q safe) in
      let rest = run_in_order l (suc n) r.0 f.1 s.1 (rw q num ∙ s.0) (rw q table ∙ o) in
      (rw all (omega (arith, rest.0)), calm ∙ rest.1)

  -- Packets 1, 2, 3 and so on of a stream of fewer than 2 ^ 31 packets, that reach a new peer in
  -- this order, are all delivered: the application is given the bytes of all of them in order, the
  -- peer acknowledges the last, and no packet is read after it was freed.
  pub receive_all-in_order :
      (l : List Arrival) (now : ℕ) (is_client : Bool)
      → AllFromSender chunk l
      → Numbered 0 l
      → let r = receive_all l (peer_new is_client now) in
        (delivered r.1 ≡ stream chunk (length l))
        × (r.0.recv_pkt_num ≡ length l)
        × (reads_freed r.1 ≡ false)
  receive_all-in_order l now is_client f s =
      let (n, safe) =
        run_in_order l 0 (peer_new is_client now) f s (unfold peer_new in refl)
          (unfold peer_new in refl) in
      let m : (receive_all l (peer_new is_client now)).0.recv_pkt_num ≡ length l =
        omega (arith, n) in
      (receive_all-prefix chunk l now is_client f ∙ ap (stream chunk) m, m, safe)

  -- Two neighbouring packets of a stream, the next ones of the peer, that arrive in the wrong
  -- order, the one ahead with room in the table: the run comes to read a freed packet, whatever
  -- follows.
  pub receive_all-swapped :
      (b a : Arrival) (l : List Arrival) (p : Peer)
      → FromSender chunk a.pkt
      → FromSender chunk b.pkt
      → a.pkt.pkt_num ≡ suc p.recv_pkt_num
      → b.pkt.pkt_num ≡ suc a.pkt.pkt_num
      → p.ofo_bytes + b.pkt.len ≤ ofo_max_bytes
      → reads_freed (receive_all (b ∷ a ∷ l) p).1 ≡ true
  receive_all-swapped b a l p fa fb na nb room =
      let g = buffer_gap (head_of b.pkt) b.pkt.bytes p in
      let r = on_data b.now b.random p (data_packet b.pkt) in
      let q : r ≡ maybe_nack b.now b.random g =
        on_data-data_packet chunk b.now b.random p b.pkt fb
        ∙ on_packet-gap b.now b.random (head_of b.pkt) b.pkt.bytes p fb.num_fits (nb ∙ ap suc na) in
      let (same, held) = buffer_gap_room (head_of b.pkt) b.pkt.bytes p room in
      let (num, table) = maybe_nack-keeps b.now b.random g in
      let n : r.0.recv_pkt_num ≡ p.recv_pkt_num = rw q num ∙ same in
      let there : ofo_lookup (suc a.pkt.pkt_num) r.0.ofo
          ≡ some (gap_packet (head_of b.pkt) b.pkt.bytes) =
        rw (q, table, ← nb) held in
      let second =
        (on_data-reads_freed chunk a.now a.random r.0 a.pkt fa (omega (arith, fa.num_fits))).1
          (na ∙ ap suc (sym n), gap_packet (head_of b.pkt) b.pkt.bytes, there) in
      (receive_all_safe b (a ∷ l) p (rw q (maybe_nack-safe b.now b.random g))).1
      ∙ receive_all_stop a l r.0 second
