-- ===== src/Fillp/Conn/Delivery.antt =====
-- `fp_on_data` of src/proto/fillp_conn.c keeps the stream in order, step by step and over a run.
use mathlib.Core.List.{append-nil, append_assoc}
use hwphonelink.Fillp.Frame.{num_isbigger, Head}
use hwphonelink.Fillp.Conn.InOrder.{Genuine-remove, Done, Quiet, After, InOrder, delivered}
use hwphonelink.Fillp.Conn.State.{ofo_max_bytes, nack_interval_ms, emit, Pkt, Peer}
use hwphonelink.Prelude.{sub64}
use hwphonelink.Fillp.Conn.Receive.{
  ofo_replace, buffer_gap, on_duplicate, on_packet, on_gap, maybe_nack, accept, flush, next_num,
  send_pack, on_next, maybe_pack, ofo_lookup,
}
use hwphonelink.Prelude.{
  ◌+◌, leb, ==_iff, ◌==◌, Bool-cases, ◌++◌, ◌^◌, arith, ◌<◌, ◌≡◌, List, ℕ, Option, [], inr, inl,
  some, none, refl, suc,
}

pub delivered-emit : (o : Option (List ℕ)) → delivered (emit o) ≡ []
delivered-emit none = refl
delivered-emit (some b) = refl

module _ (chunk : ℕ → List ℕ) where
  maybe_pack-After :
      (now : ℕ) (p : Peer) (out : List ℕ) → InOrder chunk p out → After chunk out (maybe_pack now p)
  unfolding maybe_pack send_pack
  maybe_pack-After now p out i =
      Quiet chunk p out (maybe_pack now p) i (ground arith) (ground arith)
        (grind (arith, delivered-emit))

  send_pack-After :
      (now : ℕ) (p : Peer) (out : List ℕ) → InOrder chunk p out → After chunk out (send_pack now p)
  unfolding send_pack
  send_pack-After now p out i = Quiet chunk p out (send_pack now p) i refl refl (delivered-emit _)

  maybe_nack-After :
      (now random : ℕ) (p : Peer) (out : List ℕ)
      → InOrder chunk p out
      → After chunk out (maybe_nack now random p)
  unfolding maybe_nack
  maybe_nack-After now random p out i =
      Quiet chunk p out (maybe_nack now random p) i (ground arith) (ground arith)
        (grind (arith, delivered-emit))

  pub accept-InOrder :
      (h : Head) (payload : List ℕ) (p : Peer) (out : List ℕ)
      → InOrder chunk p out
      → h.pkt_num ≡ next_num p
      → h.pkt_num < 2 ^ 31
      → payload ≡ chunk h.pkt_num
      → InOrder chunk (accept h.pkt_num h.seq_num h.data_len p) (out ++ payload)
  unfolding accept
  accept-InOrder h payload p out i e b c =
      let m : h.pkt_num ≡ suc p.recv_pkt_num = omega (arith, i.below) in
      record { below = b; prefix = rw (c, m, i.prefix); buffered = i.buffered }

  flush-After :
      (now : ℕ) (o : Option Pkt) (p : Peer) (out : List ℕ)
      → InOrder chunk p out
      → After chunk out (flush now o p)
  unfolding flush
  flush-After now none p out i = maybe_pack-After now p out i
  flush-After now (some q) p out i = record {
    below = i.below;
    prefix = rw (append-nil out) i.prefix;
    buffered = Genuine-remove chunk (next_num p) p.ofo i.buffered;
  }

  on_next-After :
      (now : ℕ) (h : Head) (payload : List ℕ) (p : Peer) (out : List ℕ)
      → InOrder chunk p out
      → h.pkt_num ≡ next_num p
      → h.pkt_num < 2 ^ 31
      → payload ≡ chunk h.pkt_num
      → After chunk out (on_next now h payload p)
  unfolding on_next
  on_next-After now h payload p out i e b c =
      let a = accept h.pkt_num h.seq_num h.data_len p in
      let rest = flush now (ofo_lookup (next_num a) a.ofo) a in
      rw (← append_assoc out payload (delivered rest.1)) (
        flush-After now (ofo_lookup (next_num a) a.ofo) a (out ++ payload)
          (accept-InOrder h payload p out i e b c))

  buffer_gap-InOrder :
      (h : Head) (payload : List ℕ) (p : Peer) (out : List ℕ)
      → InOrder chunk p out
      → h.pkt_num < 2 ^ 31
      → payload ≡ chunk h.pkt_num
      → InOrder chunk (buffer_gap h payload p) out
  unfolding buffer_gap ofo_replace
  buffer_gap-InOrder h payload p out i b c =
      elim (Bool-cases (leb (p.ofo_bytes + h.data_len) ofo_max_bytes)) [
        | inl e ↦ rw e (record {
          below = i.below;
          prefix = i.prefix;
          buffered = (c, b, Genuine-remove chunk h.pkt_num p.ofo i.buffered);
        })
        | inr e ↦ rw e i
      ]

  on_gap-After :
      (now random : ℕ) (h : Head) (payload : List ℕ) (p : Peer) (out : List ℕ)
      → InOrder chunk p out
      → h.pkt_num < 2 ^ 31
      → payload ≡ chunk h.pkt_num
      → After chunk out (on_gap now random h payload p)
  unfolding on_gap
  on_gap-After now random h payload p out i b c =
      maybe_nack-After now random (buffer_gap h payload p) out
        (buffer_gap-InOrder h payload p out i b c)

  -- Whatever packet of the stream arrives, what is delivered stays a prefix of the stream.
  pub on_packet-After :
      (now random : ℕ) (h : Head) (payload : List ℕ) (p : Peer) (out : List ℕ)
      → InOrder chunk p out
      → h.pkt_num < 2 ^ 31
      → payload ≡ chunk h.pkt_num
      → After chunk out (on_packet now random h payload p)
  unfolding on_packet on_duplicate
  on_packet-After now random h payload p out i b c =
      elim (Bool-cases (num_isbigger h.pkt_num p.recv_pkt_num)) [
        | inl new ↦ elim (Bool-cases (h.pkt_num == next_num p)) [
          | inl e ↦ rw (new, e) (on_next-After now h payload p out i ((==_iff _ _).0 e) b c)
          | inr e ↦ rw (new, e) (on_gap-After now random h payload p out i b c)
        ]
        | inr old ↦ elim (Bool-cases (leb nack_interval_ms (sub64 now p.t_last_pack_ms))) [
          | inl e ↦ rw (old, e) (send_pack-After now p out i)
          | inr e ↦ rw (old, e) (Done chunk p out i)
        ]
      ]
