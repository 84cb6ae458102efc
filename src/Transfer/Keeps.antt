-- ===== src/Transfer/Keeps.antt =====
-- What no handler of src/proto/dfile_conn.c changes, and what each of them accounts for.
-- The callbacks for the end of the connection.
use hwphonelink.Dfile.Header.{max_file_num, header_len}
use hwphonelink.Dfile.Encode.{encode_rst}
use hwphonelink.Transfer.Engine.{max_block}
use hwphonelink.Transfer.Common.{
  reset_and_shutdown, trans_of, fail_trans, put_trans, rst_cancel, shutdown, send_rst, trans_fail,
  send_if,
}
use hwphonelink.Transfer.State.{
  failed, shut, is_over, Trans, notify_negotiated, notify_end, notify_result, notify_file_list,
  write_block, is_shut, send_frame, ◌then_do◌, min_mtu_size, Io, Step, Output, Conn,
}
use hwphonelink.Prelude.{
  ◌*◌, some, none, ap, sym, ◌∙◌, ◌⊎◌, arith, ◌&&◌, ◌≡◌, Option, if◌then◌else◌, ◌+◌, ◌++◌, ◌∷◌, leb,
  ℕ, Bool, List, [], inr, inl, false, true, refl, suc,
}

abbrev pub end_count : List Output → ℕ
end_count [] = 0
end_count (notify_end ∷ os) = suc (end_count os)
end_count (send_frame frame ∷ os) = end_count os
end_count (write_block id off bytes ∷ os) = end_count os
end_count (notify_negotiated ∷ os) = end_count os
end_count (notify_file_list es ∷ os) = end_count os
end_count (notify_result sender ok ∷ os) = end_count os

pub end_count-append : (xs ys : List Output) → end_count (xs ++ ys) ≡ end_count xs + end_count ys
end_count-append [] ys = omega arith
end_count-append (notify_end ∷ os) ys = omega (arith, end_count-append os ys)
end_count-append (send_frame frame ∷ os) ys = end_count-append os ys
end_count-append (write_block id off bytes ∷ os) ys = end_count-append os ys
end_count-append (notify_negotiated ∷ os) ys = end_count-append os ys
end_count-append (notify_file_list es ∷ os) ys = end_count-append os ys
end_count-append (notify_result sender ok ∷ os) ys = end_count-append os ys

abbrev pub flag : Bool → ℕ
flag true = 1
flag false = 0

-- A block size that a peer's SETTING can lead to.
abbrev pub is_usable : ℕ → Bool
is_usable size = leb min_mtu_size size && leb size max_block

-- The end is reported once, with the shutdown; the buffer stays; the block size changes only
-- with the negotiation, to a usable one.
pub record Keeps (c : Conn) (s : Step) : Type 0 where
  pub ended : end_count s.1 + flag (is_shut c.state) ≡ flag (is_shut s.0.state)
  pub buffer : s.0.rxbuf ≡ c.rxbuf
  pub setting :
      ((s.0.negotiated ≡ c.negotiated) × (s.0.block_size ≡ c.block_size))
      ⊎ ((c.negotiated ≡ false) × (is_usable s.0.block_size ≡ true))

pub Keeps-if :
    (c : Conn) (b : Bool) {x y : Step} → Keeps c x → Keeps c y → Keeps c (if b then x else y)
Keeps-if c true p q = p
Keeps-if c false p q = q

pub Keeps-if_step :
    (c : Conn) (b : Bool) (x y : Bool × Step)
    → Keeps c x.1
    → Keeps c y.1
    → Keeps c (if b then x else y).1
Keeps-if_step c true x y p q = p
Keeps-if_step c false x y p q = q

pub Keeps-same : (c : Conn) → Keeps c (c, [])
Keeps-same c = record { ended = omega arith; buffer = refl; setting = inl (refl, refl) }

-- The settings over two steps.
pub setting_then :
    (c d e : Conn)
    → ((d.negotiated ≡ c.negotiated) × (d.block_size ≡ c.block_size))
      ⊎ ((c.negotiated ≡ false) × (is_usable d.block_size ≡ true))
    → ((e.negotiated ≡ d.negotiated) × (e.block_size ≡ d.block_size))
      ⊎ ((d.negotiated ≡ false) × (is_usable e.block_size ≡ true))
    → ((e.negotiated ≡ c.negotiated) × (e.block_size ≡ c.block_size))
      ⊎ ((c.negotiated ≡ false) × (is_usable e.block_size ≡ true))
setting_then c d e (inl (n, b)) (inl (n', b')) = inl (n' ∙ n, b' ∙ b)
setting_then c d e (inl (n, b)) (inr (n', u)) = inr (sym n ∙ n', u)
setting_then c d e (inr (n, u)) (inl (n', b')) = inr (n, ap is_usable b' ∙ u)
setting_then c d e (inr (n, u)) (inr (n', u')) = inr (n, u')

pub Keeps-then :
    (c : Conn) {s : Step} {k : Conn → Step}
    → Keeps c s
    → ((d : Conn) → Keeps d (k d))
    → Keeps c (s then_do k)
Keeps-then c {s} {k} p q = record {
  ended = omega (arith, end_count-append s.1 (k s.0).1, p.ended, (q s.0).ended);
  buffer = (q s.0).buffer ∙ p.buffer;
  setting = setting_then c s.0 (k s.0).0 p.setting (q s.0).setting;
}

pub end_count-send_if : (io : Io) (o : Option (List ℕ)) → end_count (send_if io o).1 ≡ 0
unfolding send_if
end_count-send_if io o = ground arith

pub end_count-send_rst : (io : Io) (id code : ℕ) → end_count (send_rst io id code) ≡ 0
unfolding send_rst
end_count-send_rst io id code =
    end_count-send_if io (encode_rst io.old_buf (header_len + 2 + 2 * max_file_num) id code [])

-- A handler that puts a new transfer and sends frames or other output that is not the end.
pub Keeps-out :
    (c d : Conn) (os : List Output)
    → end_count os ≡ 0
    → d.state ≡ c.state
    → d.rxbuf ≡ c.rxbuf
    → d.negotiated ≡ c.negotiated
    → d.block_size ≡ c.block_size
    → Keeps c (d, os)
Keeps-out c d os e s b n z = record {
  ended = rw s (omega (arith, e));
  buffer = b;
  setting = inl (n, z);
}

fail_out :
    (rst : Bool) (io : Io) (t : Trans)
    → end_count (
        (if rst then send_rst io t.trans_id rst_cancel else [])
        ++ (notify_result t.is_sender false ∷ []))
      ≡ 0
fail_out true io t =
    end_count-append (send_rst io t.trans_id rst_cancel) (notify_result t.is_sender false ∷ [])
    ∙ omega (arith, end_count-send_rst io t.trans_id rst_cancel)
fail_out false io t = refl

pub Keeps-elim {ℓ} :
    {A : Type ℓ} (c : Conn) (o : Option A) {x : Step} {f : A → Step}
    → Keeps c x
    → ((a : A) → Keeps c (f a))
    → Keeps c (elim o [ none ↦ x | some a ↦ f a ])
Keeps-elim c none p q = p
Keeps-elim c (some a) p q = q a

fail_trans-Keeps :
    (side rst : Bool) (io : Io) (c : Conn) (o : Option Trans) → Keeps c (fail_trans side io c rst o)
fail_trans-Keeps side rst io c none = Keeps-same c
fail_trans-Keeps true rst io c (some t) = Keeps-if c (is_over t.phase) (Keeps-same c) (
    Keeps-out c (put_trans true (record t { phase = failed }) c) _ (fail_out rst io t) refl refl
      refl refl)
fail_trans-Keeps false rst io c (some t) = Keeps-if c (is_over t.phase) (Keeps-same c) (
    Keeps-out c (put_trans false (record t { phase = failed }) c) _ (fail_out rst io t) refl refl
      refl refl)

pub trans_fail-Keeps : (side rst : Bool) (io : Io) (c : Conn) → Keeps c (trans_fail side rst io c)
unfolding trans_fail
trans_fail-Keeps side rst io c = fail_trans-Keeps side rst io c (trans_of side c)

-- Closing an open connection, once.
Keeps-close :
    (c : Conn) (b : Bool) (s : Step)
    → is_shut c.state ≡ b
    → Keeps (record c { state = shut }) s
    → Keeps c (if b then (c, []) else (s.0, s.1 ++ (notify_end ∷ [])))
Keeps-close c true s h k = Keeps-same c
Keeps-close c false s h k = record {
  ended = rw h (omega (arith, end_count-append s.1 (notify_end ∷ []), k.ended));
  buffer = k.buffer;
  setting = k.setting;
}

pub shutdown-Keeps : (io : Io) (c : Conn) → Keeps c (shutdown io c)
unfolding shutdown
shutdown-Keeps io c = Keeps-close c (is_shut c.state) _ refl (
    Keeps-then (record c { state = shut })
      (trans_fail-Keeps true false io (record c { state = shut }))
      (λ e. trans_fail-Keeps false false io e))

-- Output before a step.
pub Keeps-before :
    (c : Conn) (os : List Output) (s : Step)
    → end_count os ≡ 0
    → Keeps c s
    → Keeps c (s.0, os ++ s.1)
Keeps-before c os s e k = record {
  ended = omega (arith, end_count-append os s.1, e, k.ended);
  buffer = k.buffer;
  setting = k.setting;
}

pub reset_and_shutdown-Keeps :
    (io : Io) (id code : ℕ) (c : Conn) → Keeps c (reset_and_shutdown io id code c)
unfolding reset_and_shutdown
reset_and_shutdown-Keeps io id code c =
    Keeps-before c _ _ (end_count-send_rst io id code) (shutdown-Keeps io c)

pub Keeps-from :
    (c d : Conn) {s : Step}
    → d.state ≡ c.state
    → d.rxbuf ≡ c.rxbuf
    → d.negotiated ≡ c.negotiated
    → d.block_size ≡ c.block_size
    → Keeps d s
    → Keeps c s
Keeps-from c d s b n z k = record {
  ended = rw (sym s) k.ended;
  buffer = k.buffer ∙ b;
  setting = rw (sym n) (rw (sym z) k.setting);
}

pub end_count-none :
    (xs ys : List Output) → end_count xs ≡ 0 → end_count ys ≡ 0 → end_count (xs ++ ys) ≡ 0
end_count-none xs ys hx hy = omega (arith, end_count-append xs ys, hx, hy)

-- A new transfer, and output.
pub Keeps-tx :
    (c : Conn) (o : Option Trans) (os : List Output)
    → end_count os ≡ 0
    → Keeps c (record c { tx = o }, os)
Keeps-tx c o os e = Keeps-out c (record c { tx = o }) os e refl refl refl refl

pub Keeps-rx :
    (c : Conn) (o : Option Trans) (os : List Output)
    → end_count os ≡ 0
    → Keeps c (record c { rx = o }, os)
Keeps-rx c o os e = Keeps-out c (record c { rx = o }) os e refl refl refl refl

pub ruleset keeps = (
  Keeps-same, Keeps-if, Keeps-elim, Keeps-tx, Keeps-rx, Keeps-then, Keeps-before, trans_fail-Keeps,
  shutdown-Keeps, reset_and_shutdown-Keeps, end_count-none, end_count-send_if, end_count-send_rst,
  refl,
)
