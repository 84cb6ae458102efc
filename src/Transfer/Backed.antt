-- ===== src/Transfer/Backed.antt =====
-- When the sender of src/proto/dfile_conn.c is done.
-- A transfer that is done has got the receiver's DONE, and all its files are acknowledged.
use hwphonelink.Transfer.Sender.{all_acked}
use hwphonelink.Transfer.Control.{
  ids_of, send_ids, is_failed, is_tx_done, tx_finish, finish_if_done,
}
use hwphonelink.Transfer.Common.{
  transfer_done_ack, trans_of, fail_trans, reset_and_shutdown, shutdown, trans_fail,
}
use hwphonelink.Transfer.State.{
  notify_result, tx_done, notify_end, failed, is_shut, is_over, shut, ◌then_do◌, Output, Io, Step,
  Trans, Conn,
}
use hwphonelink.Prelude.{
  ◌∷◌, ap, ◌&&◌, ◌∙◌, ◌||◌, ◌++◌, if◌then◌else◌, ◌⊎◌, ℕ, ◌≡◌, not, List, Bool, Option, [], inr, inl,
  some, none, false, true, refl,
}

unfoldable pub backed : Option Trans → Bool
backed none = true
backed (some t) = not (is_tx_done t.phase) || (t.done_received && all_acked t.files)

-- A step leaves the sender's transfer as it was, or makes one that is backed.
pub record Backs (c : Conn) (s : Step) : Type 0 where
  pub kept : (s.0.tx ≡ c.tx) ⊎ (backed s.0.tx ≡ true)

pub Backs-if :
    (c : Conn) (b : Bool) {x y : Step}
    → (b ≡ true → Backs c x)
    → (b ≡ false → Backs c y)
    → Backs c (if b then x else y)
Backs-if c true p q = p refl
Backs-if c false p q = q refl

pub Backs-elim {ℓ} :
    {A : Type ℓ} (c : Conn) (o : Option A) {x : Step} {f : A → Step}
    → Backs c x
    → ((a : A) → o ≡ some a → Backs c (f a))
    → Backs c (elim o [ none ↦ x | some a ↦ f a ])
Backs-elim c none p q = p
Backs-elim c (some a) p q = q a refl

pub Backs-same : (c : Conn) (os : List Output) → Backs c (c, os)
Backs-same c os = record { kept = inl refl }

pub Backs-out : (c d : Conn) (os : List Output) → d.tx ≡ c.tx → Backs c (d, os)
Backs-out c d os e = record { kept = inl e }

pub Backs-rx : (c : Conn) (o : Option Trans) (os : List Output) → Backs c (record c { rx = o }, os)
Backs-rx c o os = record { kept = inl refl }

pub Backs-tx :
    (c : Conn) (t : Trans) (os : List Output)
    → (some t ≡ c.tx) ⊎ (backed (some t) ≡ true)
    → Backs c (record c { tx = some t }, os)
Backs-tx c t os h = record { kept = h }

pub Backs-before : (c : Conn) (os : List Output) (s : Step) → Backs c s → Backs c (s.0, os ++ s.1)
Backs-before c os s p = record { kept = p.kept }

pub Backs-after : (c : Conn) (s : Step) (os : List Output) → Backs c s → Backs c (s.0, s.1 ++ os)
Backs-after c s os p = record { kept = p.kept }

Backs_kept :
    (o p q : Option Trans)
    → (p ≡ o) ⊎ (backed p ≡ true)
    → (q ≡ p) ⊎ (backed q ≡ true)
    → (q ≡ o) ⊎ (backed q ≡ true)
Backs_kept o p q (inl e) (inl f) = inl (f ∙ e)
Backs_kept o p q (inr b) (inl f) = inr (ap backed f ∙ b)
Backs_kept o p q h (inr b) = inr b

pub Backs-then :
    (c : Conn) {s : Step} {k : Conn → Step}
    → Backs c s
    → ((d : Conn) → Backs d (k d))
    → Backs c (s then_do k)
Backs-then c {s} {k} p q = record { kept = Backs_kept c.tx s.0.tx (k s.0).0.tx p.kept (q s.0).kept }

pub Backs-from :
    (c d : Conn) {s : Step} → (d.tx ≡ c.tx) ⊎ (backed d.tx ≡ true) → Backs d s → Backs c s
Backs-from c d {s} h p = record { kept = Backs_kept c.tx d.tx s.0.tx h p.kept }

fail_trans-Backs :
    (side rst : Bool) (io : Io) (c : Conn) (o : Option Trans) → Backs c (fail_trans side io c rst o)
unfolding backed
fail_trans-Backs side rst io c none = Backs-same c []
fail_trans-Backs true rst io c (some t) =
    Backs-if c (is_over t.phase) (λ h. Backs-same c [])
      (λ h. Backs-tx c (record t { phase = failed }) _ (inr refl))
fail_trans-Backs false rst io c (some t) =
    Backs-if c (is_over t.phase) (λ h. Backs-same c []) (λ h. Backs-rx c _ _)

pub trans_fail-Backs : (side rst : Bool) (io : Io) (c : Conn) → Backs c (trans_fail side rst io c)
unfolding trans_fail
trans_fail-Backs side rst io c = fail_trans-Backs side rst io c (trans_of side c)

pub shutdown-Backs : (io : Io) (c : Conn) → Backs c (shutdown io c)
unfolding shutdown
shutdown-Backs io c =
    let d = record c { state = shut } in
    let both =
      Backs-then d (trans_fail-Backs true false io d) (λ e. trans_fail-Backs false false io e) in
    Backs-if c (is_shut c.state) (λ h. Backs-same c [])
      (λ h. Backs-from c d (inl refl) (Backs-after d _ (notify_end ∷ []) both))

pub reset_and_shutdown-Backs :
    (io : Io) (id code : ℕ) (c : Conn) → Backs c (reset_and_shutdown io id code c)
unfolding reset_and_shutdown
reset_and_shutdown-Backs io id code c = Backs-before c _ _ (shutdown-Backs io c)

pub ruleset backs = (
  Backs-same, Backs-if, Backs-elim, Backs-rx, Backs-then, Backs-before, trans_fail-Backs,
  shutdown-Backs, reset_and_shutdown-Backs,
)

pub finish_if_done-Backs :
    (io : Io) (t : Trans) (c : Conn)
    → (some t ≡ c.tx) ⊎ (backed (some t) ≡ true)
    → Backs c (finish_if_done io t c)
unfolding finish_if_done tx_finish backed
finish_if_done-Backs io t c h =
    let d = record c { tx = some t } in
    let u = record t { doneack_sent = true; phase = tx_done } in
    let sent = send_ids io transfer_done_ack t.trans_id (ids_of t.files) in
    Backs-if c (t.done_received && all_acked t.files)
      (λ b.
        let done : backed (some u) ≡ true = b in
        Backs-if c (t.doneack_sent || is_tx_done t.phase || is_failed t.phase)
          (λ e. Backs-tx c t [] h)
          (λ e.
            Backs-if c sent.0
              (λ e'. Backs-tx c u (sent.1 ++ (notify_result true true ∷ [])) (inr done))
              (λ e'. Backs-from c d h (trans_fail-Backs true false io d))))
      (λ b. Backs-tx c t [] h)
