-- ===== src/Transfer/Tick.antt =====
-- `on_tick` of src/proto/dfile_conn.c.
use hwphonelink.Transfer.Receiver.{rx_send_done, flush_ack, is_waiting_data}
use hwphonelink.Transfer.Common.{shutdown, trans_fail, trans_of}
use hwphonelink.Transfer.Control.{is_waiting_confirm, is_pumping, is_sending, finish_if_done}
use hwphonelink.Transfer.Pump.{pump_trans}
use hwphonelink.Transfer.Sender.{send_header, all_sent}
use hwphonelink.Prelude.{
  sub64, length, ltb, ◌&&◌, if◌then◌else◌, not, ◌∷◌, Option, List, Bool, ℕ, [], some, none, false,
  true, suc,
}
use hwphonelink.Transfer.State.{
  ctrl_max_retries, negotiate_timeout_ms, ctrl_retry_interval_ms, tx_wait_done, transfer_timeout_ms,
  is_shut, is_over, Step, Trans, TransFile, Conn, Io, ◌then_do◌,
}

-- Whether a transfer that is not over has lasted more than 30 s.
abbrev pub is_overdue : ℕ → Option Trans → Bool
is_overdue now none = false
is_overdue now (some t) = not (is_over t.phase) && ltb transfer_timeout_ms (sub64 now t.t0_ms)

-- A transfer that lasts too long fails, with a reset.
unfoldable pub check_timeout : Bool → Io → Conn → Step
check_timeout side io c =
    if is_overdue io.now (trans_of side c) then trans_fail side true io c else (c, [])

unfoldable pub all_written : List TransFile → Bool
all_written [] = true
all_written (f ∷ fs) = f.write_complete && all_written fs

-- The receiver's part of the tick: acknowledge, then look whether all is written.
unfoldable pub tick_acks : Io → Conn → Step
tick_acks io c = elim c.rx [
  | none ↦ (c, [])
  | some t ↦ if is_waiting_data t.phase && t.ack_pending then flush_ack io t c else (c, [])
]

unfoldable pub tick_done : Io → Conn → Step
tick_done io c = elim c.rx [
  | none ↦ (c, [])
  | some t ↦
      if not t.done_sent && (ltb 0 (length t.files) && all_written t.files)
      then rx_send_done io t c
      else (c, [])
]

-- The block of `on_tick` under the test of the receiver's phase.
unfoldable pub tick_rx : Io → Conn → Step
unfolding tick_acks tick_done
tick_rx io c = elim c.rx [
  | none ↦ (c, [])
  | some t ↦ if is_waiting_data t.phase then tick_acks io c then_do tick_done io else (c, [])
]

-- The sender's part: pump, then look whether all was sent or acknowledged.
unfoldable pub after_pump : Io → Conn → Step
unfolding all_sent finish_if_done
after_pump io c = elim c.tx [
  | none ↦ (c, [])
  | some t ↦
      finish_if_done io
        (if is_sending t.phase && all_sent t.files then record t { phase = tx_wait_done } else t) c
]

unfoldable pub tick_tx : Io → Conn → Step
unfolding pump_trans after_pump
tick_tx io c = elim c.tx [
  | none ↦ (c, [])
  | some t ↦ if is_pumping t.phase then pump_trans io t c then_do after_pump io else (c, [])
]

-- The retransmission of the header frames, at most three times.
unfoldable pub tick_header : Io → Conn → Step
unfolding send_header
tick_header io c = elim c.tx [
  | none ↦ (c, [])
  | some t ↦
      let u = record t { ctrl_retries = suc t.ctrl_retries } in
      let c' = record c { tx = some u } in
      let sent = send_header io t in
      if is_waiting_confirm t.phase && ltb ctrl_retry_interval_ms (sub64 io.now t.last_ctrl_ms)
      then (if ltb ctrl_max_retries u.ctrl_retries
          then trans_fail true true io c'
          else if sent.0
          then (record c { tx = some (record u { last_ctrl_ms = io.now }) }, sent.1)
          else (c', sent.1) then_do trans_fail true false io)
      else (c, [])
]

-- `on_tick`. None of its steps shuts the connection down, so the tests of the state between them
-- find what the first one found.
unfoldable pub on_tick : Io → Conn → Step
unfolding check_timeout tick_rx tick_tx tick_header
on_tick io c =
    if is_shut c.state
    then (c, [])
    else if not c.negotiated && ltb negotiate_timeout_ms (sub64 io.now c.t_connect_ms)
    then shutdown io c
    else check_timeout true io c
      then_do check_timeout false io
      then_do tick_rx io
      then_do tick_tx io
      then_do tick_header io
