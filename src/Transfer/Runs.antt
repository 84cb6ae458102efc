-- ===== src/Transfer/Runs.antt =====
-- Runs of a connection of src/proto/dfile_conn.c: what holds after any sequence of events.
use hwphonelink.Transfer.Tick.{tick_header, tick_tx, on_tick}
use hwphonelink.Transfer.Common.{trans_fail}
use hwphonelink.Transfer.Sends.{send_header-end_count, pump_files-end_count}
use hwphonelink.Transfer.Accounts.{
  handle_frame-Keeps, send_local_setting-Keeps, tick_rx-Keeps, after_pump-Keeps,
  check_timeout-Keeps,
}
use hwphonelink.Transfer.Keeps.{
  end_count, shutdown-Keeps, Keeps-out, Keeps-if_step, is_usable, setting_then, end_count-append,
  flag, Keeps-if, Keeps-from, Keeps-same, trans_fail-Keeps, Keeps-then, Keeps-tx, Keeps-elim, keeps,
  Keeps,
}
use hwphonelink.Transfer.State.{
  conn_new, min_mtu_size, tx_wait_confirm_req, is_some, trans_new, is_ready, is_shut, TransFile,
  ◌then_do◌, block_budget, Step, Conn, Trans, Io,
}
use hwphonelink.Transfer.Sender.{start_sending, SendItem, send_header, send_files}
use hwphonelink.Transfer.Engine.{max_block, handle_frame, drain_header, close_conn, Event, step}
use hwphonelink.Transfer.Pump.{pump_files, pump_trans}
use hwphonelink.Prelude.{
  ◌≤◌, inr, inl, drop, ltb, take, ◌==◌, ◌||◌, ◌^◌, ◌%◌, length, not, if◌then◌else◌, none, ◌⊎◌, ◌≡◌,
  arith, ◌+◌, ℕ, ◌++◌, zero, Bool, Option, some, false, refl, suc, ◌∷◌, List, [], true,
}
use hwphonelink.Transfer.Engine.{step, drain_frames, receive_chunk}
use hwphonelink.Dfile.Header.{
  max_file_num, header_len, Unpacked, header_unpack, incomplete, invalid, header,
}
use hwphonelink.Transfer.Engine.{starts, ticks, receives, ends, closes, sends}

pump_trans-Keeps : (io : Io) (t : Trans) (c : Conn) → Keeps c (pump_trans io t c)
unfolding pump_trans
pump_trans-Keeps io t c =
    let r = pump_files block_budget io c.block_size t.trans_id t.last_retran_ms t.files in
    let quiet =
      pump_files-end_count block_budget io c.block_size t.trans_id t.last_retran_ms t.files in
    Keeps-elim c r.failure (Keeps-tx c _ r.out quiet)
      (λ rst. Keeps-then c (Keeps-tx c _ r.out quiet) (λ d. trans_fail-Keeps true rst io d))

tick_tx-Keeps : (io : Io) (c : Conn) → Keeps c (tick_tx io c)
unfolding tick_tx
tick_tx-Keeps io c = search (keeps, Keeps-elim c c.tx, pump_trans-Keeps, after_pump-Keeps)

tx_from : (c : Conn) (o : Option Trans) {s : Step} → Keeps (record c { tx = o }) s → Keeps c s
tx_from c o k = Keeps-from c (record c { tx = o }) refl refl refl refl k

tick_header-Keeps : (io : Io) (c : Conn) → Keeps c (tick_header io c)
unfolding tick_header
tick_header-Keeps io c = Keeps-elim c c.tx (Keeps-same c) (λ t.
    let u = record t { ctrl_retries = suc t.ctrl_retries } in
    let d = record c { tx = some u } in
    let failing : (rst : Bool) → Keeps c (trans_fail true rst io d) =
      λ rst. tx_from c (some u) (trans_fail-Keeps true rst io d) in
    Keeps-if c _
      (Keeps-if c _ (failing true) (
        Keeps-if c _ (Keeps-tx c _ _ (send_header-end_count io t)) (
          Keeps-then c (Keeps-tx c _ _ (send_header-end_count io t))
            (λ e. trans_fail-Keeps true false io e))))
      (Keeps-same c))

on_tick-Keeps : (io : Io) (c : Conn) → Keeps c (on_tick io c)
unfolding on_tick
on_tick-Keeps io c =
    search (keeps, check_timeout-Keeps, tick_rx-Keeps, tick_tx-Keeps, tick_header-Keeps) depth 12

-- A result that keeps what Keeps says but for the buffer.
pub record Accounts (c : Conn) (s : Step) : Type 0 where
  pub ended : end_count s.1 + flag (is_shut c.state) ≡ flag (is_shut s.0.state)
  pub setting :
      ((s.0.negotiated ≡ c.negotiated) × (s.0.block_size ≡ c.block_size))
      ⊎ ((c.negotiated ≡ false) × (is_usable s.0.block_size ≡ true))

Keeps-Accounts : (c : Conn) (s : Step) → Keeps c s → Accounts c s
Keeps-Accounts c s k = record { ended = k.ended; setting = k.setting }

Accounts-then :
    (c : Conn) (s t : Step) → Accounts c s → Accounts s.0 t → Accounts c (t.0, s.1 ++ t.1)
Accounts-then c s t p q = record {
  ended = omega (arith, end_count-append s.1 t.1, p.ended, q.ended);
  setting = setting_then c s.0 t.0 p.setting q.setting;
}

start_sending-Keeps :
    (io : Io) (c : Conn) (o : Option (List TransFile)) → Keeps c (start_sending io c o).1
unfolding start_sending
start_sending-Keeps io c none =
    Keeps-out c (record c { next_trans_id = suc c.next_trans_id % 2 ^ 16 }) [] refl refl refl refl
      refl
start_sending-Keeps io c (some files) =
    let d = record c { next_trans_id = suc c.next_trans_id % 2 ^ 16 } in
    let t = record (trans_new true c.next_trans_id io.now) { files = files } in
    let quiet = send_header-end_count io t in
    Keeps-if_step c (send_header io t).0 _ _
      (Keeps-out c (record d { tx = some (record t { phase = tx_wait_confirm_req }) }) _ quiet refl
        refl refl refl)
      (Keeps-out c d _ quiet refl refl refl refl)

send_files-Keeps : (io : Io) (items : List SendItem) (c : Conn) → Keeps c (send_files io items c).1
unfolding send_files
send_files-Keeps io items c =
    Keeps-if_step c (not (is_ready c.state) || is_some c.tx) _ _ (Keeps-same c) (
      Keeps-if_step c (length items == 0 || ltb max_file_num (length items)) _ _ (Keeps-same c)
        (start_sending-Keeps io c _))

Accounts-if :
    (c : Conn) (b : Bool) {x y : Step}
    → Accounts c x
    → (b ≡ false → Accounts c y)
    → Accounts c (if b then x else y)
Accounts-if c true p q = p
Accounts-if c false p q = q refl

-- The frames of the loop, if the rest of the loop accounts.
drain_header-Accounts :
    (io : Io) (c : Conn) (rest : Conn → Step) (u : Unpacked)
    → ((d : Conn) → is_shut d.state ≡ false → Accounts d (rest d))
    → is_shut c.state ≡ false
    → Accounts c (drain_header io c rest u)
unfolding drain_header
drain_header-Accounts io c rest incomplete h up = Keeps-Accounts c _ (Keeps-same c)
drain_header-Accounts io c rest invalid h up = Keeps-Accounts c _ (shutdown-Keeps io c)
drain_header-Accounts io c rest (header u) h up =
    let total = header_len + u.payload_len in
    let s = handle_frame io c (take total c.rxbuf) in
    let d = record s.0 { rxbuf = drop total s.0.rxbuf } in
    let k = Keeps-Accounts c s (handle_frame-Keeps io c (take total c.rxbuf) up) in
    Accounts-if c (ltb (length c.rxbuf) total) (Keeps-Accounts c _ (Keeps-same c)) (λ e.
      Accounts-if c (is_shut s.0.state) k (λ up'.
        let r = h d up' in
        Accounts-then c s (rest d) k (record { ended = r.ended; setting = r.setting })))

drain_frames-Accounts :
    (fuel : ℕ) (io : Io) (c : Conn) → is_shut c.state ≡ false → Accounts c (drain_frames fuel io c)
unfolding drain_frames
drain_frames-Accounts zero io c up = Keeps-Accounts c _ (Keeps-same c)
drain_frames-Accounts (suc fuel) io c up =
    drain_header-Accounts io c (drain_frames fuel io) (header_unpack c.rxbuf)
      (drain_frames-Accounts fuel io) up

step-Accounts : (io : Io) (e : Event) (c : Conn) → Accounts c (step io e c)
unfolding step receive_chunk close_conn
step-Accounts io starts c = Keeps-Accounts c _ (send_local_setting-Keeps io c)
step-Accounts io ticks c = Keeps-Accounts c _ (on_tick-Keeps io c)
step-Accounts io (receives chunk) c =
    Accounts-if c (is_shut c.state) (Keeps-Accounts c _ (Keeps-same c)) (λ up.
      let d = record c { rxbuf = c.rxbuf ++ chunk } in
      let a = drain_frames-Accounts (length (c.rxbuf ++ chunk)) io d up in
      record { ended = a.ended; setting = a.setting })
step-Accounts io ends c = Keeps-Accounts c _ (shutdown-Keeps io c)
step-Accounts io closes c = Keeps-Accounts c _ (shutdown-Keeps io c)
step-Accounts io (sends items) c = Keeps-Accounts c _ (send_files-Keeps io items c)

-- Any number of events, each with the answers of the system at its time.
unfoldable pub run : List (Io × Event) → Conn → Step
unfolding step
run [] c = (c, [])
run (e ∷ es) c = step e.0 e.1 c then_do run es

run-Accounts : (es : List (Io × Event)) (c : Conn) → Accounts c (run es c)
unfolding run
run-Accounts [] c = Keeps-Accounts c _ (Keeps-same c)
run-Accounts (e ∷ es) c =
    Accounts-then c _ _ (step-Accounts e.0 e.1 c) (run-Accounts es (step e.0 e.1 c).0)

-- Over any sequence of events of a connection that is not closing, the callback for its end fires
-- once if the connection is closing afterwards, and else never.
pub run-ends_once :
    (es : List (Io × Event)) (c : Conn)
    → is_shut c.state ≡ false
    → end_count (run es c).1 ≡ flag (is_shut (run es c).0.state)
run-ends_once es c up = let a = rw up at (run-Accounts es c).ended in omega (arith, a)

usable_lem : (size : ℕ) → is_usable size ≡ true → (min_mtu_size ≤ size) × (size ≤ max_block)
usable_lem size h = ground arith

-- Once a new connection has negotiated, the block size is from 64 to 14706, and no event changes
-- it.
pub run-block_size :
    (now : ℕ) (es fs : List (Io × Event))
    → (run es (conn_new now)).0.negotiated ≡ true
    → let c = (run es (conn_new now)).0 in
      (min_mtu_size ≤ c.block_size)
      × (c.block_size ≤ max_block)
      × ((run fs c).0.block_size ≡ c.block_size)
unfolding conn_new
run-block_size now es fs h =
    let c = (run es (conn_new now)).0 in
    let usable : is_usable c.block_size ≡ true = elim (run-Accounts es (conn_new now)).setting [
      | inl (n, b) ↦ absurd (ground (arith, h, n))
      | inr (n, u) ↦ u
    ] in
    let fixed : (run fs c).0.block_size ≡ c.block_size = elim (run-Accounts fs c).setting [
      | inl (n, b) ↦ b
      | inr (n, u) ↦ absurd (ground (arith, h, n))
    ] in
    let (low, high) = usable_lem c.block_size usable in (low, high, fixed)
