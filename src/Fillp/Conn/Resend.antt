-- ===== src/Fillp/Conn/Resend.antt =====
-- How the sender of src/proto/fillp_conn.c answers acknowledgements and requests to resend.
use hwphonelink.Fillp.Frame.Acks.{Nack, decode_nack, decode_pack, Pack}
use mathlib.Core.List.{append_assoc}
use native.Mathlib.Decide.{ℕ_discrete, dec_lt}
use Prim.Native.Nat.{min, max}
use hwphonelink.Fillp.Conn.Window.{IsSending, Numbered-le, sum_len, Numbered, bytes_of}
use hwphonelink.Fillp.Conn.Send.{data_packet, on_nack, resend_between, on_pack, drop_acked}
use hwphonelink.Fillp.Conn.State.{send, Peer, Pkt}
use hwphonelink.Prelude.{sub64}
use hwphonelink.Fillp.Frame.{num_isbigger}
use hwphonelink.Prelude.{
  none, sym, ◌∙◌, Option-cases, ap, ◌&&◌, ◌+◌, ◌==◌, Bool-cases, if◌then◌else◌, inr, inl, some,
  lt→ltb, ◌∷◌, arith, ◌++◌, ◌-◌, ltb, ◌≡◌, ◌^◌, List, ◌≤◌, ◌<◌, ℕ, [], false, refl, suc,
}

-- For 32-bit numbers less than half the range apart the wrap-around comparison is the plain one.
pub num_isbigger-lt :
    (a b : ℕ)
    → a < 2 ^ 32
    → b < 2 ^ 32
    → a < b + 2 ^ 31
    → b ≤ a + 2 ^ 31
    → num_isbigger a b ≡ ltb b a
unfolding num_isbigger
num_isbigger-lt a b ha hb h k = ground arith

sub64_lem : (a b : ℕ) → b ≤ a → a < 2 ^ 64 → sub64 a b ≡ a - b
unfolding sub64
sub64_lem a b h k = omega arith

-- What the loop of `fp_on_pack` leaves of the packets `a + 1` to `b` in flight.
pub record Left (a b ack : ℕ) (l : List Pkt) (r : List Pkt × ℕ) : Type 0 where
  pub gone : List ℕ
  pub split : bytes_of l ≡ gone ++ bytes_of r.0
  pub counted : r.1 ≡ sum_len r.0
  pub fewer : r.1 ≤ sum_len l
  pub numbered : Numbered (max a (min ack b)) r.0 b

drop_acked-Left :
    (a b ack bytes : ℕ) (l : List Pkt)
    → Numbered a l b
    → b < 2 ^ 31
    → ack < 2 ^ 31
    → bytes ≡ sum_len l
    → bytes < 2 ^ 64
    → Left a b ack l (drop_acked ack l bytes)
unfolding drop_acked
drop_acked-Left a b ack bytes [] n hb ha e k = record {
  gone = [];
  split = refl;
  counted = e;
  fewer = omega arith;
  numbered = omega arith;
}
drop_acked-Left a b ack bytes (q ∷ l) n hb ha e k =
    let le = Numbered-le (suc a) b l n.4 in
    let big =
      num_isbigger-lt q.pkt_num ack (omega (arith, n.0)) (omega arith) (omega (arith, n.0))
        (omega arith) in
    elim (dec_lt ack q.pkt_num) [
      | yes h ↦
          rw (big, lt→ltb ack q.pkt_num h)
            (record {
              gone = [];
              split = refl;
              counted = e;
              fewer = omega arith;
              numbered = let m : max a (min ack b) ≡ a = omega (arith, n.0) in rw m n;
            })
      | no h ↦
          let rest : Left (suc a) b ack l (drop_acked ack l (sub64 bytes q.len)) =
            drop_acked-Left (suc a) b ack (sub64 bytes q.len) l n.4 hb ha
              (omega (arith, sub64_lem bytes q.len (omega arith) k))
              (omega (arith, sub64_lem bytes q.len (omega arith) k)) in
          let f : ltb ack q.pkt_num ≡ false = ground arith in
          rw (big, f)
            (record {
              gone = q.bytes ++ rest.gone;
              split = rw (append_assoc q.bytes rest.gone, ← rest.split);
              counted = rest.counted;
              fewer = omega (arith, rest.fewer);
              numbered =
                  let m : max a (min ack b) ≡ max (suc a) (min ack b) = omega (arith, n.0) in
                  rw m rest.numbered;
            })
    ]

on_pack_lem :
    (p : Peer) (buf : List ℕ) (m : Pack)
    → decode_pack buf ≡ some m
    → let left = drop_acked m.ack_pkt p.inflight p.inflight_bytes in
      on_pack p buf ≡ record p { inflight = left.0; inflight_bytes = left.1 }
unfolding on_pack
on_pack_lem p buf m e = ground arith

on_nack_lem :
    (now : ℕ) (p : Peer) (buf : List ℕ) (m : Nack)
    → decode_nack buf ≡ some m
    → let r = resend_between now m.begin_pkt m.end_pkt p.inflight in
      on_nack now p buf ≡ (record p { inflight = r.0 }, r.1)
unfolding on_nack
on_nack_lem now p buf m e = ground arith

on_nack_bad :
    (now : ℕ) (p : Peer) (buf : List ℕ) → decode_nack buf ≡ none → on_nack now p buf ≡ (p, [])
unfolding on_nack
on_nack_bad now p buf e = ground arith

-- A PACK that acknowledges packet `ack_pkt` takes exactly the packets up to it out of flight, if
-- the numbers are below 2 ^ 31: their bytes count as acknowledged, the rest stays numbered, counted
-- and kept.
pub on_pack-IsSending :
    (base : ℕ) (acked whole : List ℕ) (p : Peer) (buf : List ℕ) (m : Pack)
    → IsSending base acked whole p
    → p.send_pkt_num < 2 ^ 31
    → decode_pack buf ≡ some m
    → m.ack_pkt < 2 ^ 31
    → (gone : List ℕ) × IsSending
        (max base (min m.ack_pkt p.send_pkt_num))
        (acked ++ gone)
        whole
        (on_pack p buf)
on_pack-IsSending base acked whole p buf m s b e k =
    let left =
      drop_acked-Left base p.send_pkt_num m.ack_pkt p.inflight_bytes p.inflight s.numbered b k
        s.counted (omega (arith, s.window)) in
    rw (on_pack_lem p buf m e) (
      left.gone,
      record {
        numbered = left.numbered;
        counted = left.counted;
        window = omega (arith, left.fewer, s.window, s.counted);
        kept =
            s.kept
            ∙ rw (
              append_assoc acked left.gone,
              left.split,
              append_assoc left.gone (bytes_of (drop_acked m.ack_pkt p.inflight p.inflight_bytes).0)
                  p.txq,
            );
      },
    )

-- Resending changes no packet but for the time.
resend_between-sum_len :
    (now begin end_pkt : ℕ) (l : List Pkt)
    → sum_len (resend_between now begin end_pkt l).0 ≡ sum_len l
unfolding resend_between
resend_between-sum_len now begin end_pkt [] = refl
resend_between-sum_len now begin end_pkt (q ∷ l) =
    ground (arith, resend_between-sum_len now begin end_pkt l)

resend_between-bytes_of :
    (now begin end_pkt : ℕ) (l : List Pkt)
    → bytes_of (resend_between now begin end_pkt l).0 ≡ bytes_of l
unfolding resend_between
resend_between-bytes_of now begin end_pkt [] = refl
resend_between-bytes_of now begin end_pkt (q ∷ l) =
    elim (Bool-cases (num_isbigger q.pkt_num begin && num_isbigger end_pkt q.pkt_num)) [
      | inl e ↦ rw e (ap (λ r. q.bytes ++ r) (resend_between-bytes_of now begin end_pkt l))
      | inr e ↦ rw e (ap (λ r. q.bytes ++ r) (resend_between-bytes_of now begin end_pkt l))
    ]

resend_between-Numbered :
    (now begin end_pkt a b : ℕ) (l : List Pkt)
    → Numbered a l b
    → Numbered a (resend_between now begin end_pkt l).0 b
unfolding resend_between
resend_between-Numbered now begin end_pkt a b [] n = n
resend_between-Numbered now begin end_pkt a b (q ∷ l) n =
    let rest = resend_between-Numbered now begin end_pkt (suc a) b l n.4 in
    elim (Bool-cases (num_isbigger q.pkt_num begin && num_isbigger end_pkt q.pkt_num)) [
      | inl e ↦ rw e (n.0, n.1, n.2, n.3, rest)
      | inr e ↦ rw e (n.0, n.1, n.2, n.3, rest)
    ]

-- A NACK leaves everything that a sender has queued, in flight and acknowledged where it is.
pub on_nack-IsSending :
    (base now : ℕ) (acked whole : List ℕ) (p : Peer) (buf : List ℕ)
    → IsSending base acked whole p
    → IsSending base acked whole (on_nack now p buf).0
on_nack-IsSending base now acked whole p buf s = elim (Option-cases (decode_nack buf)) [
  | inl e ↦ rw (on_nack_bad now p buf e) s
  | inr (m, e) ↦ rw (on_nack_lem now p buf m e) (record {
    numbered =
        resend_between-Numbered now m.begin_pkt m.end_pkt base p.send_pkt_num p.inflight s.numbered;
    counted = s.counted ∙ sym (resend_between-sum_len now m.begin_pkt m.end_pkt p.inflight);
    window = s.window;
    kept = rw (resend_between-bytes_of now m.begin_pkt m.end_pkt p.inflight) s.kept;
  })
]

-- The packet in flight with a number.
abbrev pub flying : ℕ → List Pkt → List Pkt
flying k [] = []
flying k (q ∷ l) = if q.pkt_num == k then q ∷ [] else flying k l

resent_none :
    (now r a b : ℕ) (l : List Pkt)
    → Numbered a l b
    → b < 2 ^ 31
    → r < a
    → (resend_between now r (r + 2) l).1 ≡ []
unfolding resend_between
resent_none now r a b [] n hb h = refl
resent_none now r a b (q ∷ l) n hb h = ground (
  arith,
  Numbered-le (suc a) b l n.4,
  num_isbigger-lt q.pkt_num r,
  num_isbigger-lt (r + 2) q.pkt_num,
  resent_none now r (suc a) b l n.4 hb (omega arith),
)

resent_one :
    (now r a b : ℕ) (l : List Pkt)
    → Numbered a l b
    → b < 2 ^ 31
    → a ≤ r
    → r < b
    → (q : Pkt) × (flying (suc r) l ≡ q ∷ [])
      × (q.pkt_num ≡ suc r)
      × ((resend_between now r (r + 2) l).1 ≡ send (data_packet q) ∷ [])
unfolding resend_between
resent_one now r a b [] n hb h k = absurd (omega arith)
resent_one now r a b (q ∷ l) n hb h k =
    let le = Numbered-le (suc a) b l n.4 in
    let from_r =
      num_isbigger-lt q.pkt_num r (omega (arith, n.0)) (omega arith) (omega (arith, n.0))
        (omega arith) in
    let to_end = num_isbigger-lt (r + 2) q.pkt_num in
    elim (ℕ_discrete a r) [
      | yes e ↦ (
        q,
        ground (arith, n.0),
        omega (arith, n.0),
        ground (arith, n.0, from_r, to_end, resent_none now r (suc a) b l n.4 hb (omega arith)),
      )
      | no e ↦
          let rest = resent_one now r (suc a) b l n.4 hb (omega arith) k in
          (rest.0, ground (arith, n.0, rest.1), rest.2, ground (arith, n.0, from_r, to_end, rest.3))
    ]

-- The receiver's NACK, `(begin, end) = (r, r + 2)` for a packet `r` from the acknowledged one on
-- and before the last one sent, makes a sender whose numbers are below 2 ^ 31 resend exactly packet
-- `r + 1`, which is in flight.
pub on_nack-resends_gap :
    (base now : ℕ) (acked whole : List ℕ) (p : Peer) (buf : List ℕ) (m : Nack)
    → IsSending base acked whole p
    → p.send_pkt_num < 2 ^ 31
    → decode_nack buf ≡ some m
    → m.end_pkt ≡ m.begin_pkt + 2
    → base ≤ m.begin_pkt
    → m.begin_pkt < p.send_pkt_num
    → (q : Pkt) × (flying (m.begin_pkt + 1) p.inflight ≡ q ∷ [])
      × (q.pkt_num ≡ m.begin_pkt + 1)
      × ((on_nack now p buf).1 ≡ send (data_packet q) ∷ [])
on_nack-resends_gap base now acked whole p buf m s b e f g h =
    let one = resent_one now m.begin_pkt base p.send_pkt_num p.inflight s.numbered b g h in
    let next : m.begin_pkt + 1 ≡ suc m.begin_pkt = omega arith in
    (one.0, rw next one.1, rw next one.2, rw (on_nack_lem now p buf m e, f) one.3)
