-- ===== src/Fillp/Conn/Pump.antt =====
-- One round of `fp_pump` of src/proto/fillp_conn.c on the sender's account of its bytes.
use hwphonelink.Fillp.Conn.Receive.{send_pack, maybe_pack}
use mathlib.Core.List.{append_assoc, append-nil}
use hwphonelink.Fillp.Conn.Window.{packetize-IsSending, Numbered, bytes_of, sum_len, IsSending}
use hwphonelink.Fillp.Conn.Close.{peer_send}
use hwphonelink.Fillp.Conn.Send.{
  packetize, pump, pump_fin, pump_complete, pump_stall, pump_fill, Fill,
}
use hwphonelink.Fillp.Conn.State.{
  stall_timeout_ms, send_budget, Pkt, txq_watermark, is_established, Peer,
}
use hwphonelink.Prelude.{sub64}
use hwphonelink.Prelude.{
  ◌^◌, leb, ◌<◌, ◌∷◌, sym, ap, ◌+◌, ◌∙◌, arith, ◌≡◌, refl, Bool-cases, length, ◌++◌, ltb,
  if◌then◌else◌, not, ℕ, ◌&&◌, List, Bool, [], inr, inl,
}

-- Whether step 1 asks the application, and what its answer adds to the queue.
abbrev pub is_asked : Peer → Bool
is_asked p = p.has_fill_fn && (not p.fill_done && ltb (length p.txq) txq_watermark)

abbrev pub added : Fill → Peer → List ℕ
added f p = if is_asked p && is_established p.state then f.queued else []

-- Only the queue grew.
IsSending-queue :
    (base : ℕ) (acked whole extra : List ℕ) (p q : Peer)
    → IsSending base acked whole p
    → q.inflight ≡ p.inflight
    → q.inflight_bytes ≡ p.inflight_bytes
    → q.send_pkt_num ≡ p.send_pkt_num
    → q.txq ≡ p.txq ++ extra
    → IsSending base acked (whole ++ extra) q
IsSending-queue base acked whole extra p q s ef eb en et = record {
  numbered = rw (ef, en) s.numbered;
  counted = eb ∙ s.counted ∙ ap sum_len (sym ef);
  window = omega (arith, s.window);
  kept = rw (
    ef,
    et,
    s.kept,
    append_assoc acked (bytes_of p.inflight ++ p.txq) extra,
    append_assoc (bytes_of p.inflight) p.txq extra,
  );
}

-- The parts of the sender's account are all the same.
IsSending-same :
    (base : ℕ) (acked whole : List ℕ) (p q : Peer)
    → IsSending base acked whole p
    → q.inflight ≡ p.inflight
    → q.inflight_bytes ≡ p.inflight_bytes
    → q.send_pkt_num ≡ p.send_pkt_num
    → q.txq ≡ p.txq
    → IsSending base acked whole q
IsSending-same base acked whole p q s ef eb en et =
    rw (append-nil whole) at
      (IsSending-queue base acked whole [] p q s ef eb en (et ∙ sym (append-nil p.txq)))

pump_fill-IsSending :
    (base : ℕ) (acked whole : List ℕ) (f : Fill) (p : Peer)
    → IsSending base acked whole p
    → IsSending base acked (whole ++ added f p) (pump_fill f p)
unfolding pump_fill peer_send
pump_fill-IsSending base acked whole f p s =
    IsSending-queue base acked whole (added f p) p (pump_fill f p) s (ground arith) (ground arith)
      (ground arith) (ground (arith, append-nil p.txq))

stall-sum_len : (now : ℕ) (l : List Pkt) → sum_len (pump_stall now l).0 ≡ sum_len l
unfolding pump_stall
stall-sum_len now [] = refl
stall-sum_len now (q ∷ l) = ground arith

stall-bytes_of : (now : ℕ) (l : List Pkt) → bytes_of (pump_stall now l).0 ≡ bytes_of l
unfolding pump_stall
stall-bytes_of now [] = refl
stall-bytes_of now (q ∷ l) = ground arith

stall-Numbered : (now a b : ℕ) (l : List Pkt) → Numbered a l b → Numbered a (pump_stall now l).0 b
unfolding pump_stall
stall-Numbered now a b [] n = n
stall-Numbered now a b (q ∷ l) n =
    elim (Bool-cases (leb stall_timeout_ms (sub64 now q.t_sent_ms))) [
      | inl e ↦ rw e n
      | inr e ↦ rw e n
    ]

after_complete :
    (base : ℕ) (acked whole : List ℕ) (p : Peer)
    → IsSending base acked whole p
    → IsSending base acked whole (pump_complete p).0
unfolding pump_complete
after_complete base acked whole p s =
    IsSending-same base acked whole p (pump_complete p).0 s (ground arith) (ground arith)
      (ground arith) (ground arith)

after_pack :
    (base now : ℕ) (acked whole : List ℕ) (p : Peer)
    → IsSending base acked whole p
    → IsSending base acked whole (maybe_pack now p).0
unfolding maybe_pack send_pack
after_pack base now acked whole p s =
    IsSending-same base acked whole p (maybe_pack now p).0 s (ground arith) (ground arith)
      (ground arith) (ground arith)

after_fin :
    (base : ℕ) (acked whole : List ℕ) (p : Peer)
    → IsSending base acked whole p
    → IsSending base acked whole (pump_fin p).0
unfolding pump_fin
after_fin base acked whole p s =
    IsSending-same base acked whole p (pump_fin p).0 s (ground arith) (ground arith) (ground arith)
      (ground arith)

pump_stall-IsSending :
    (base now : ℕ) (acked whole : List ℕ) (p : Peer)
    → IsSending base acked whole p
    → IsSending base acked whole (record p { inflight = (pump_stall now p.inflight).0 })
pump_stall-IsSending base now acked whole p s =
    let l = p.inflight in
    record {
      numbered = stall-Numbered now base p.send_pkt_num l s.numbered;
      counted = s.counted ∙ sym (stall-sum_len now l);
      window = s.window;
      kept = rw (stall-bytes_of now l) s.kept;
    }

-- A round of the pump keeps the account of every byte while the packet numbers stay below 2 ^ 32:
-- what the application adds in it is queued, and what was queued, in flight or acknowledged stays
-- so, with the window kept.
pub pump-IsSending :
    (base now : ℕ) (acked whole : List ℕ) (f : Fill) (p : Peer)
    → IsSending base acked whole p
    → p.send_pkt_num + send_budget < 2 ^ 32
    → IsSending base acked (whole ++ added f p) (pump now f p).0
unfolding pump
pump-IsSending base now acked whole f p s b =
    let p1 = pump_fill f p in
    let p2 : Peer = record p1 { inflight = (pump_stall now p1.inflight).0 } in
    let sent = packetize send_budget now p2 in
    let done = pump_complete sent.0 in
    let packed = maybe_pack now done.0 in
    let num : p1.send_pkt_num ≡ p.send_pkt_num = unfold pump_fill peer_send in ground arith in
    let s3 =
      packetize-IsSending send_budget base now acked (whole ++ added f p) p2
        (pump_stall-IsSending base now acked (whole ++ added f p) p1
          (pump_fill-IsSending base acked whole f p s))
        (omega arith) in
    after_fin base acked (whole ++ added f p) packed.0 (
      after_pack base now acked (whole ++ added f p) done.0
        (after_complete base acked (whole ++ added f p) sent.0 s3))
