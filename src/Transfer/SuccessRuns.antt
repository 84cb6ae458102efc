-- ===== src/Transfer/SuccessRuns.antt =====
-- The sender's transfer of src/proto/dfile_conn.c over any sequence of events.
use hwphonelink.Transfer.Tick.{tick_rx, tick_header, tick_tx, after_pump, check_timeout, on_tick}
use hwphonelink.Transfer.Success.{handle_frame-Backs, waiting_backed, pumping_backed, waits_backed}
use hwphonelink.Transfer.Overdue.{tick_rx-SameTx}
use hwphonelink.Transfer.Control.{is_waiting_confirm, is_pumping}
use hwphonelink.Transfer.Backed.{
  Backs-from, trans_fail-Backs, Backs-tx, shutdown-Backs, Backs-then, finish_if_done-Backs,
  Backs-out, Backs-same, Backs-elim, backs, Backs-if, Backs, backed,
}
use hwphonelink.Transfer.Runs.{run}
use hwphonelink.Transfer.Sender.{
  open_files, all_acked, send_header, SendItem, send_files, start_sending,
}
use hwphonelink.Transfer.Pump.{pump_files, pump_trans}
use hwphonelink.Transfer.State.{
  ctrl_max_retries, is_some, ctrl_retry_interval_ms, is_ready, trans_new, is_shut, block_budget,
  tx_done, TransFile, Step, Trans, Conn, conn_new, Io,
}
use hwphonelink.Prelude.{
  drop, ◌==◌, take, sub64, ◌∙◌, sym, ◌||◌, ◌+◌, ltb, ap, length, ◌∷◌, not, ◌++◌, Bool-cases, arith,
  Option, ◌≡◌, List, ℕ, ◌&&◌, Bool, [], inr, inl, some, none, false, true, refl, suc, zero,
}
use hwphonelink.Dfile.Header.{
  max_file_num, header_len, header_unpack, Unpacked, incomplete, invalid, header,
}
use hwphonelink.Transfer.Engine.{
  handle_frame, Event, close_conn, receive_chunk, drain_frames, drain_header, send_local_setting,
  step, starts, ticks, receives, ends, closes, sends,
}

send_local_setting-Backs : (io : Io) (c : Conn) → Backs c (send_local_setting io c)
unfolding send_local_setting
send_local_setting-Backs io c =
    Backs-if c c.local_setting_sent (λ h. Backs-same c [])
      (λ h. search (Backs-if, Backs-out, shutdown-Backs))

check_timeout-Backs : (side : Bool) (io : Io) (c : Conn) → Backs c (check_timeout side io c)
unfolding check_timeout
check_timeout-Backs side io c = search backs

tick_rx-Backs : (io : Io) (c : Conn) → Backs c (tick_rx io c)
tick_rx-Backs io c = record { kept = inl (tick_rx-SameTx io c).same }

after_pump-Backs : (io : Io) (c : Conn) → Backs c (after_pump io c)
unfolding after_pump
after_pump-Backs io c =
    Backs-elim c c.tx (Backs-same c []) (λ t e. finish_if_done-Backs io _ c (waits_backed t c.tx e))

pump_trans-Backs :
    (io : Io) (t : Trans) (c : Conn) → is_pumping t.phase ≡ true → Backs c (pump_trans io t c)
unfolding pump_trans
pump_trans-Backs io t c h =
    let r = pump_files block_budget io c.block_size t.trans_id t.last_retran_ms t.files in
    let u = record t { files = r.files; last_retran_ms = r.last_retran_ms } in
    let pumped = Backs-tx c u r.out (inr (pumping_backed u h)) in
    Backs-elim c r.failure pumped
      (λ rst e. Backs-then c pumped (λ d. trans_fail-Backs true rst io d))

tick_tx-Backs : (io : Io) (c : Conn) → Backs c (tick_tx io c)
unfolding tick_tx
tick_tx-Backs io c = Backs-elim c c.tx (Backs-same c []) (λ t e.
    Backs-if c (is_pumping t.phase)
      (λ h. Backs-then c (pump_trans-Backs io t c h) (after_pump-Backs io)) (λ h. Backs-same c []))

and_left : (a b : Bool) → (a && b) ≡ true → a ≡ true
and_left a b h = ground (arith, h)

tick_header-Backs : (io : Io) (c : Conn) → Backs c (tick_header io c)
unfolding tick_header
tick_header-Backs io c = Backs-elim c c.tx (Backs-same c []) (λ t e.
    let u = record t { ctrl_retries = suc t.ctrl_retries } in
    let d = record c { tx = some u } in
    let sent = send_header io t in
    Backs-if c
      (is_waiting_confirm t.phase && ltb ctrl_retry_interval_ms (sub64 io.now t.last_ctrl_ms))
      (λ h.
        let fits = waiting_backed u (and_left _ _ h) in
        let v = record u { last_ctrl_ms = io.now } in
        Backs-if c (ltb ctrl_max_retries u.ctrl_retries)
          (λ h'. Backs-from c d (inr fits) (trans_fail-Backs true true io d))
          (λ h'.
            Backs-if c sent.0 (λ k. Backs-tx c v sent.1 (inr (waiting_backed v (and_left _ _ h))))
              (λ k.
                Backs-then c (Backs-tx c u sent.1 (inr fits))
                  (λ d'. trans_fail-Backs true false io d'))))
      (λ h. Backs-same c []))

on_tick-Backs : (io : Io) (c : Conn) → Backs c (on_tick io c)
unfolding on_tick
on_tick-Backs io c =
    search (backs, check_timeout-Backs, tick_rx-Backs, tick_tx-Backs, tick_header-Backs) depth 12

drain_header-Backs :
    (io : Io) (c : Conn) (rest : Conn → Step) (u : Unpacked)
    → ((d : Conn) → Backs d (rest d))
    → Backs c (drain_header io c rest u)
unfolding drain_header
drain_header-Backs io c rest incomplete h = Backs-same c []
drain_header-Backs io c rest invalid h = shutdown-Backs io c
drain_header-Backs io c rest (header u) h =
    let total = header_len + u.payload_len in
    let s = handle_frame io c (take total c.rxbuf) in
    let d = record s.0 { rxbuf = drop total s.0.rxbuf } in
    let k = handle_frame-Backs io c (take total c.rxbuf) in
    Backs-if c (ltb (length c.rxbuf) total) (λ e. Backs-same c [])
      (λ e.
        Backs-if c (is_shut s.0.state) (λ e'. k)
          (λ e'. record { kept = (Backs-from c d k.kept (h d)).kept }))

drain_frames-Backs : (fuel : ℕ) (io : Io) (c : Conn) → Backs c (drain_frames fuel io c)
unfolding drain_frames
drain_frames-Backs zero io c = Backs-same c []
drain_frames-Backs (suc fuel) io c =
    drain_header-Backs io c (drain_frames fuel io) (header_unpack c.rxbuf)
      (drain_frames-Backs fuel io)

start_sending-Backs :
    (io : Io) (c : Conn) (o : Option (List TransFile)) → Backs c (start_sending io c o).1
unfolding start_sending backed
start_sending-Backs io c none = Backs-out c _ [] refl
start_sending-Backs io c (some files) =
    elim (Bool-cases
      (send_header io (record (trans_new true c.next_trans_id io.now) { files = files })).0) [
        | inl e ↦ rw (e, start_sending) (record { kept = inr refl })
        | inr e ↦ rw (e, start_sending) (record { kept = inl refl })
      ]

send_files-Backs : (io : Io) (items : List SendItem) (c : Conn) → Backs c (send_files io items c).1
unfolding send_files
send_files-Backs io items c = elim (Bool-cases (not (is_ready c.state) || is_some c.tx)) [
  | inl e ↦ rw (e, send_files) (Backs-same c [])
  | inr e ↦ elim (Bool-cases (length items == 0 || ltb max_file_num (length items))) [
    | inl e' ↦ rw (e, e', send_files) (Backs-same c [])
    | inr e' ↦ rw (e, e', send_files) (start_sending-Backs io c (open_files c.block_size 0 items))
  ]
]

step-Backs : (io : Io) (e : Event) (c : Conn) → Backs c (step io e c)
unfolding step receive_chunk close_conn
step-Backs io starts c = send_local_setting-Backs io c
step-Backs io ticks c = on_tick-Backs io c
step-Backs io (receives chunk) c =
    let d = record c { rxbuf = c.rxbuf ++ chunk } in
    Backs-if c (is_shut c.state) (λ h. Backs-same c [])
      (λ h. record { kept = (drain_frames-Backs (length (c.rxbuf ++ chunk)) io d).kept })
step-Backs io ends c = shutdown-Backs io c
step-Backs io closes c = shutdown-Backs io c
step-Backs io (sends items) c = send_files-Backs io items c

run-Backs : (es : List (Io × Event)) (c : Conn) → Backs c (run es c)
unfolding run
run-Backs [] c = Backs-same c []
run-Backs (e ∷ es) c = Backs-then c (step-Backs e.0 e.1 c) (run-Backs es)

backed_done :
    (t : Trans)
    → backed (some t) ≡ true
    → t.phase ≡ tx_done
    → (t.done_received ≡ true) × (all_acked t.files ≡ true)
unfolding backed
backed_done t h e = ground (arith, h, e)

-- Whatever happens to a new connection, in any order, a sender's transfer in the phase DONE has got
-- the receiver's DONE, and all its files are acknowledged.
pub run-done_acked :
    (now : ℕ) (es : List (Io × Event)) (t : Trans)
    → (run es (conn_new now)).0.tx ≡ some t
    → t.phase ≡ tx_done
    → (t.done_received ≡ true) × (all_acked t.files ≡ true)
unfolding conn_new backed
run-done_acked now es t e h = elim (run-Backs es (conn_new now)).kept [
  | inl same ↦ absurd (ground (arith, e, same))
  | inr b ↦ backed_done t (ap backed (sym e) ∙ b) h
]
