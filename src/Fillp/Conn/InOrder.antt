-- ===== src/Fillp/Conn/InOrder.antt =====
-- The receiver of src/proto/fillp_conn.c delivers the sender's stream in order: whatever is lost,
-- repeated or reordered, what `fp_on_data` has delivered is a prefix of the stream.
use mathlib.Core.List.{append-nil, append_assoc}
use hwphonelink.Fillp.Conn.Receive.{ofo_remove}
use hwphonelink.Fillp.Conn.State.{
  use_after_free, notify_closed, notify_tx_complete, notify_established, deliver, send, Peer, Pkt,
  Effect,
}
use hwphonelink.Prelude.{
  Bool, false, true, sym, ◌∙◌, ap, arith, ◌^◌, ◌<◌, ◌≡◌, ◌∷◌, ◌++◌, List, ℕ, [], refl, suc, zero,
}

-- The bytes of the first `n` packets; packet numbers start at 1.
abbrev pub stream : (ℕ → List ℕ) → ℕ → List ℕ
stream chunk zero = []
stream chunk (suc n) = stream chunk n ++ chunk (suc n)

-- The bytes that a handler's effects deliver to the application.
abbrev pub delivered : List Effect → List ℕ
delivered [] = []
delivered (send b ∷ l) = delivered l
delivered (deliver b ∷ l) = b ++ delivered l
delivered (notify_established ∷ l) = delivered l
delivered (notify_tx_complete ∷ l) = delivered l
delivered (notify_closed ∷ l) = delivered l
delivered (use_after_free ∷ l) = delivered l

-- Whether a handler came to read a packet that was freed.
abbrev pub reads_freed : List Effect → Bool
reads_freed [] = false
reads_freed (use_after_free ∷ l) = true
reads_freed (send b ∷ l) = reads_freed l
reads_freed (deliver b ∷ l) = reads_freed l
reads_freed (notify_established ∷ l) = reads_freed l
reads_freed (notify_tx_complete ∷ l) = reads_freed l
reads_freed (notify_closed ∷ l) = reads_freed l

-- Every buffered packet is one of the stream's, ahead of the last one in order.
abbrev pub Genuine : (ℕ → List ℕ) → ℕ → List Pkt → Type 0
Genuine chunk n [] = Unit
Genuine chunk n (q ∷ t) = (q.bytes ≡ chunk q.pkt_num) × (q.pkt_num < 2 ^ 31) × Genuine chunk n t

pub delivered-append : (l m : List Effect) → delivered (l ++ m) ≡ delivered l ++ delivered m
delivered-append [] m = refl
delivered-append (send b ∷ l) m = delivered-append l m
delivered-append (deliver b ∷ l) m =
    ap (λ r. b ++ r) (delivered-append l m) ∙ sym (append_assoc b (delivered l) (delivered m))
delivered-append (notify_established ∷ l) m = delivered-append l m
delivered-append (notify_tx_complete ∷ l) m = delivered-append l m
delivered-append (notify_closed ∷ l) m = delivered-append l m
delivered-append (use_after_free ∷ l) m = delivered-append l m

-- The receiver has delivered the first `recv_pkt_num` packets.
pub record InOrder (chunk : ℕ → List ℕ) (p : Peer) (out : List ℕ) : Type 0 where
  pub below : p.recv_pkt_num < 2 ^ 31
  pub prefix : out ≡ stream chunk p.recv_pkt_num
  pub buffered : Genuine chunk 0 p.ofo

module _ (chunk : ℕ → List ℕ) where
  pub Genuine-remove : (k : ℕ) (t : List Pkt) → Genuine chunk 0 t → Genuine chunk 0 (ofo_remove k t)
  unfolding ofo_remove
  Genuine-remove k [] g = tt
  Genuine-remove k (q ∷ t) g = ground (arith, Genuine-remove k t g.2)

  -- What holds of the state and the effects that a handler returns, after `out` was delivered.
  abbrev pub After : List ℕ → Peer × List Effect → Type 0
  After out r = InOrder chunk r.0 (out ++ delivered r.1)

  pub Done : (p : Peer) (out : List ℕ) → InOrder chunk p out → After out (p, [])
  Done p out i = rw (append-nil out) i

  -- What changes neither the receive counters nor the table, and delivers nothing.
  pub Quiet :
      (p : Peer) (out : List ℕ) (r : Peer × List Effect)
      → InOrder chunk p out
      → r.0.recv_pkt_num ≡ p.recv_pkt_num
      → r.0.ofo ≡ p.ofo
      → delivered r.1 ≡ []
      → After out r
  Quiet p out r i e f d = record {
    below = omega (arith, i.below);
    prefix = rw (d, append-nil out, e) i.prefix;
    buffered = rw f i.buffered;
  }

  -- One handler's effects after another's.
  pub After-then :
      (out : List ℕ) (r s : Peer × List Effect)
      → After (out ++ delivered r.1) s
      → After out (s.0, r.1 ++ s.1)
  After-then out r s i =
      rw (delivered-append r.1 s.1, ← append_assoc out (delivered r.1) (delivered s.1)) i
