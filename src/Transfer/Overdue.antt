-- ===== src/Transfer/Overdue.antt =====
-- The receiver's part of the tick of src/proto/dfile_conn.c leaves the sender's transfer alone, and a
-- transfer that takes too long fails.
use hwphonelink.Transfer.Tick.{
  on_tick, is_overdue, tick_header, tick_tx, check_timeout, tick_rx, tick_done, tick_acks,
}
use hwphonelink.Transfer.Control.{is_waiting_confirm, is_pumping}
use hwphonelink.Dfile.Header.{max_ack_entries}
use hwphonelink.Transfer.Receiver.{ack_entries, rx_send_done, flush_ack}
use hwphonelink.Transfer.Common.{fail_trans, trans_fail}
use hwphonelink.Transfer.State.{
  negotiate_timeout_ms, ctrl_retry_interval_ms, is_shut, is_over, failed, ◌then_do◌, Output, Trans,
  Io, Step, Conn,
}
use hwphonelink.Prelude.{
  sub64, ltb, ◌&&◌, not, ap, ℕ, arith, ◌==◌, length, ◌∙◌, ◌++◌, if◌then◌else◌, ◌≡◌, List, Option,
  Bool, [], some, none, false, true, refl,
}

pub record SameTx (c : Conn) (s : Step) : Type 0 where
  pub same : s.0.tx ≡ c.tx

SameTx-if :
    (c : Conn) (b : Bool) {x y : Step} → SameTx c x → SameTx c y → SameTx c (if b then x else y)
SameTx-if c true p q = p
SameTx-if c false p q = q

SameTx-elim {ℓ} :
    {A : Type ℓ} (c : Conn) (o : Option A) {x : Step} {f : A → Step}
    → SameTx c x
    → ((a : A) → SameTx c (f a))
    → SameTx c (elim o [ none ↦ x | some a ↦ f a ])
SameTx-elim c none p q = p
SameTx-elim c (some a) p q = q a

SameTx-rx : (c : Conn) (o : Option Trans) (os : List Output) → SameTx c (record c { rx = o }, os)
SameTx-rx c o os = record { same = refl }

SameTx-same : (c : Conn) (os : List Output) → SameTx c (c, os)
SameTx-same c os = record { same = refl }

SameTx-before : (c : Conn) (os : List Output) (s : Step) → SameTx c s → SameTx c (s.0, os ++ s.1)
SameTx-before c os s p = record { same = p.same }

SameTx-then :
    (c : Conn) {s : Step} {k : Conn → Step}
    → SameTx c s
    → ((d : Conn) → SameTx d (k d))
    → SameTx c (s then_do k)
SameTx-then c {s} p q = record { same = (q s.0).same ∙ p.same }

fail_trans-SameTx :
    (rst : Bool) (io : Io) (c : Conn) (o : Option Trans) → SameTx c (fail_trans false io c rst o)
fail_trans-SameTx rst io c none = SameTx-same c []
fail_trans-SameTx rst io c (some t) = search (SameTx-if, SameTx-same, SameTx-rx)

trans_fail-SameTx : (rst : Bool) (io : Io) (c : Conn) → SameTx c (trans_fail false rst io c)
unfolding trans_fail
trans_fail-SameTx rst io c = fail_trans-SameTx rst io c c.rx

ruleset same_tx = (SameTx-if, SameTx-same, SameTx-rx, SameTx-before, SameTx-then, trans_fail-SameTx)

pub flush_ack-SameTx : (io : Io) (t : Trans) (c : Conn) → SameTx c (flush_ack io t c)
unfolding flush_ack
flush_ack-SameTx io t c =
    let d = record c { rx = some (record t { ack_pending = false }) } in
    let failing : SameTx c (trans_fail false false io d) = record {
      same = (trans_fail-SameTx false io d).same;
    } in
    SameTx-if c (length (ack_entries max_ack_entries t.files) == 0) (SameTx-rx c _ [])
      (SameTx-if c _ (SameTx-rx c _ _) failing)

pub rx_send_done-SameTx : (io : Io) (t : Trans) (c : Conn) → SameTx c (rx_send_done io t c)
unfolding rx_send_done
rx_send_done-SameTx io t c = search same_tx

tick_acks-SameTx : (io : Io) (c : Conn) → SameTx c (tick_acks io c)
unfolding tick_acks
tick_acks-SameTx io c = search (same_tx, SameTx-elim c c.rx, flush_ack-SameTx)

tick_done-SameTx : (io : Io) (c : Conn) → SameTx c (tick_done io c)
unfolding tick_done
tick_done-SameTx io c = search (same_tx, SameTx-elim c c.rx, rx_send_done-SameTx)

pub tick_rx-SameTx : (io : Io) (c : Conn) → SameTx c (tick_rx io c)
unfolding tick_rx
tick_rx-SameTx io c = search (same_tx, SameTx-elim c c.rx, tick_acks-SameTx, tick_done-SameTx)

check_timeout-SameTx : (io : Io) (c : Conn) → SameTx c (check_timeout false io c)
unfolding check_timeout
check_timeout-SameTx io c = search same_tx

SameTx-elim_known {ℓ} :
    {A : Type ℓ} (c : Conn) (o : Option A) {x : Step} {f : A → Step}
    → SameTx c x
    → ((a : A) → o ≡ some a → SameTx c (f a))
    → SameTx c (elim o [ none ↦ x | some a ↦ f a ])
SameTx-elim_known c none p q = p
SameTx-elim_known c (some a) p q = q a refl

SameTx-unless : (c : Conn) (b : Bool) (x : Step) → b ≡ false → SameTx c (if b then x else (c, []))
SameTx-unless c true x e = absurd (ground (arith, e))
SameTx-unless c false x e = SameTx-same c []

phase_of : (u t : Trans) (o : Option Trans) → o ≡ some t → o ≡ some u → u.phase ≡ t.phase
phase_of u t o e e' = cc

-- A transfer that failed stays so for the rest of the tick.
tick_tx_failed :
    (io : Io) (c : Conn) (t : Trans) → c.tx ≡ some t → t.phase ≡ failed → SameTx c (tick_tx io c)
unfolding tick_tx
tick_tx_failed io c t e h =
    SameTx-elim_known c c.tx (SameTx-same c [])
      (λ u e'. SameTx-unless c (is_pumping u.phase) _ (rw (phase_of u t c.tx e e', h) refl))

tick_header_failed :
    (io : Io) (c : Conn) (t : Trans)
    → c.tx ≡ some t
    → t.phase ≡ failed
    → SameTx c (tick_header io c)
unfolding tick_header
tick_header_failed io c t e h = SameTx-elim_known c c.tx (SameTx-same c []) (λ u e'.
    SameTx-unless c
      (is_waiting_confirm u.phase && ltb ctrl_retry_interval_ms (sub64 io.now u.last_ctrl_ms)) _
      (rw (phase_of u t c.tx e e', h) refl))

fail_trans_over :
    (rst : Bool) (io : Io) (c : Conn) (t : Trans)
    → is_over t.phase ≡ false
    → (fail_trans true io c rst (some t)).0.tx ≡ some (record t { phase = failed })
fail_trans_over rst io c t h = rw h refl

if_true {ℓ} : {A : Type ℓ} (b : Bool) (x y : A) → b ≡ true → (if b then x else y) ≡ x
if_true b x y e = rw e refl

if_false {ℓ} : {A : Type ℓ} (b : Bool) (x y : A) → b ≡ false → (if b then x else y) ≡ y
if_false b x y e = rw e refl

not_over : (now : ℕ) (t : Trans) → is_overdue now (some t) ≡ true → is_over t.phase ≡ false
not_over now t h = ground (arith, h)

overdue_fails :
    (io : Io) (c : Conn) (t : Trans)
    → c.tx ≡ some t
    → is_overdue io.now (some t) ≡ true
    → (check_timeout true io c).0.tx ≡ some (record t { phase = failed })
unfolding check_timeout trans_fail
overdue_fails io c t e h =
    ap (λ (s : Step). s.0.tx) (if_true (is_overdue io.now c.tx) _ _ (ap (is_overdue io.now) e ∙ h))
    ∙ ap (λ (o : Option Trans). (fail_trans true io c true o).0.tx) e
    ∙ fail_trans_over true io c t (not_over io.now t h)

-- A tick of a negotiated connection that is not closing fails the sender's transfer if that is not
-- over and took more than 30 s, and leaves it otherwise as it is.
pub on_tick-fails_overdue :
    (io : Io) (c : Conn) (t : Trans)
    → is_shut c.state ≡ false
    → c.negotiated ≡ true
    → c.tx ≡ some t
    → is_overdue io.now (some t) ≡ true
    → (on_tick io c).0.tx ≡ some (record t { phase = failed })
unfolding on_tick
on_tick-fails_overdue io c t up n e h =
    let u = record t { phase = failed } in
    let early : (not c.negotiated && ltb negotiate_timeout_ms (sub64 io.now c.t_connect_ms))
        ≡ false =
      ground (arith, n) in
    let s1 = check_timeout true io c in
    let s2 = check_timeout false io s1.0 in
    let s3 = tick_rx io s2.0 in
    let s4 = tick_tx io s3.0 in
    let e1 = overdue_fails io c t e h in
    let e3 = (tick_rx-SameTx io s2.0).same ∙ (check_timeout-SameTx io s1.0).same ∙ e1 in
    let e4 = (tick_tx_failed io s3.0 u e3 refl).same ∙ e3 in
    let e5 = (tick_header_failed io s4.0 u e4 refl).same ∙ e4 in
    ap (λ (s : Step). s.0.tx) (if_false (is_shut c.state) _ _ up ∙ if_false _ _ _ early) ∙ e5
