-- ===== src/Fillp/Conn/Window.antt =====
-- The sender of src/proto/fillp_conn.c: its packets in flight, its window, and where every byte that
-- the application queued is.
use Prim.Native.Nat.{min}
use hwphonelink.Fillp.Conn.Send.{packetize, cut_packet, packetize_one}
use mathlib.Core.List.{append-nil, append_assoc}
use hwphonelink.Fillp.Conn.State.{send_cache_bytes, pkt_data_max, Peer, Pkt}
use hwphonelink.Prelude.{
  ◌&&◌, ltb, Bool-cases, ap, ◌∙◌, inr, inl, zero, take-append-drop, drop, length-take, ◌^◌, sym,
  arith, ◌<◌, length, ◌+◌, ◌≤◌, ◌++◌, ◌≡◌, ◌∷◌, ℕ, List, [], refl, suc,
}

abbrev pub sum_len : List Pkt → ℕ
sum_len [] = 0
sum_len (q ∷ l) = q.len + sum_len l

abbrev pub bytes_of : List Pkt → List ℕ
bytes_of [] = []
bytes_of (q ∷ l) = q.bytes ++ bytes_of l

-- The packets are numbered `a + 1`, `a + 2` and so on up to `b`, each with 1 to 1400 bytes.
abbrev pub Numbered : ℕ → List Pkt → ℕ → Type 0
Numbered a [] b = a ≡ b
Numbered a (q ∷ l) b =
    (q.pkt_num ≡ suc a)
    × (q.len ≡ length q.bytes)
    × (0 < q.len)
    × (q.len ≤ pkt_data_max)
    × Numbered (suc a) l b

-- `base` packets are acknowledged, with the bytes `acked`; `whole` is all that was ever queued.
pub record IsSending (base : ℕ) (acked whole : List ℕ) (p : Peer) : Type 0 where
  pub numbered : Numbered base p.inflight p.send_pkt_num
  pub counted : p.inflight_bytes ≡ sum_len p.inflight
  pub window : p.inflight_bytes < send_cache_bytes + pkt_data_max
  pub kept : whole ≡ acked ++ (bytes_of p.inflight ++ p.txq)

sum_len-append : (l m : List Pkt) → sum_len (l ++ m) ≡ sum_len l + sum_len m
sum_len-append [] m = omega arith
sum_len-append (q ∷ l) m = omega (arith, sum_len-append l m)

bytes_of-append : (l m : List Pkt) → bytes_of (l ++ m) ≡ bytes_of l ++ bytes_of m
bytes_of-append [] m = refl
bytes_of-append (q ∷ l) m =
    rw (bytes_of-append l m) (sym (append_assoc q.bytes (bytes_of l) (bytes_of m)))

Numbered-append :
    (a b c : ℕ) (l : List Pkt) (q : Pkt)
    → Numbered a l b
    → Numbered b (q ∷ []) c
    → Numbered a (l ++ (q ∷ [])) c
Numbered-append a b c [] q n m = ground arith
Numbered-append a b c (r ∷ l) q n m = (n.0, n.1, n.2, n.3, Numbered-append (suc a) b c l q n.4 m)

pub Numbered-le : (a b : ℕ) (l : List Pkt) → Numbered a l b → a ≤ b
Numbered-le a b [] n = omega arith
Numbered-le a b (q ∷ l) n = omega (arith, Numbered-le (suc a) b l n.4)

regroup :
    (l : List Pkt) (q : Pkt) (rest queue : List ℕ)
    → q.bytes ++ rest ≡ queue
    → bytes_of l ++ queue ≡ bytes_of (l ++ (q ∷ [])) ++ rest
regroup l q rest queue e =
    rw (bytes_of-append l (q ∷ []), append-nil q.bytes, append_assoc (bytes_of l) q.bytes rest, e)

pub packetize_one-IsSending :
    (base now : ℕ) (acked whole : List ℕ) (p : Peer)
    → IsSending base acked whole p
    → p.send_pkt_num + 1 < 2 ^ 32
    → 0 < length p.txq
    → p.inflight_bytes < send_cache_bytes
    → IsSending base acked whole (packetize_one now p)
packetize_one-IsSending base now acked whole p s b t w =
    let q = cut_packet now p in
    let num : q.pkt_num ≡ suc p.send_pkt_num = unfold cut_packet in omega arith in
    let len_eq : q.len ≡ length q.bytes =
      unfold cut_packet in omega (arith, length-take (min (length p.txq) pkt_data_max) p.txq) in
    let pos : 0 < q.len = unfold cut_packet in omega arith in
    let small : q.len ≤ pkt_data_max = unfold cut_packet in omega arith in
    let split : q.bytes ++ drop q.len p.txq ≡ p.txq =
      unfold cut_packet in take-append-drop (min (length p.txq) pkt_data_max) p.txq in
    unfold packetize_one in
    record {
      numbered =
          Numbered-append base p.send_pkt_num q.pkt_num p.inflight q s.numbered
            (num, len_eq, pos, small, sym num);
      counted = omega (arith, sum_len-append p.inflight (q ∷ []), s.counted);
      window = omega arith;
      kept = s.kept ∙ ap (λ r. acked ++ r) (regroup p.inflight q (drop q.len p.txq) p.txq split);
    }

-- The pump's third step cuts packets off the queue's front while the window is open and the packet
-- numbers are below 2 ^ 32: every byte stays accounted for, and the bytes in flight stay below the
-- window plus one packet.
pub packetize-IsSending :
    (budget base now : ℕ) (acked whole : List ℕ) (p : Peer)
    → IsSending base acked whole p
    → p.send_pkt_num + budget < 2 ^ 32
    → IsSending base acked whole (packetize budget now p).0
unfolding packetize
packetize-IsSending zero base now acked whole p s b = s
packetize-IsSending (suc budget) base now acked whole p s b =
    elim (Bool-cases (ltb 0 (length p.txq) && ltb p.inflight_bytes send_cache_bytes)) [
      | inl e ↦
          let open_ : (0 < length p.txq) × (p.inflight_bytes < send_cache_bytes) = ground arith in
          let num : (packetize_one now p).send_pkt_num ≡ suc p.send_pkt_num =
            unfold packetize_one cut_packet in omega arith in
          rw e (
            packetize-IsSending budget base now acked whole (packetize_one now p)
              (packetize_one-IsSending base now acked whole p s (omega arith) open_.0 open_.1)
              (omega arith))
      | inr e ↦ rw e s
    ]
