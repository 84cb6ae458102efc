-- ===== src/Transfer/Success.antt =====
-- Every handler of src/proto/dfile_conn.c leaves the sender's transfer backed.
use hwphonelink.Transfer.Listing.{header_trans, is_finished, handle_file_header, header_complete}
use hwphonelink.Transfer.Sender.{all_sent}
use hwphonelink.Dfile.Acks.{decode_ack}
use hwphonelink.Transfer.Overdue.{rx_send_done-SameTx, flush_ack-SameTx}
use hwphonelink.Dfile.Header.{header_unpack}
use hwphonelink.Transfer.Common.{
  transfer_done, find_file, transfer_done_ack, rst_internal_error, shutdown,
}
use hwphonelink.Dfile.Decode.{
  decode_file_header, decode_setting, decode_rst, decode_data, decode_idlist, DataBlock,
}
use hwphonelink.Transfer.Engine.{handle_frame, dispatch_frame, handle_setting, handle_rst}
use hwphonelink.Transfer.Receiver.{
  rx_send_done, flush_ack, handle_data, data_for, data_block, handle_doneack,
}
use hwphonelink.Transfer.State.{tx_wait_done, TransFile, Step, Trans, Conn, Io}
use hwphonelink.Transfer.Control.{
  is_sending, is_tx_done, ack_files, is_failed, is_waiting_confirm, is_pumping, tx_ctrl,
  handle_done, handle_ack, handle_tx_ctrl,
}
use hwphonelink.Transfer.Backed.{
  finish_if_done-Backs, Backs-tx, Backs-out, shutdown-Backs, Backs-if, Backs-same,
  reset_and_shutdown-Backs, Backs-from, backs, Backs-elim, Backs, backed,
}
use hwphonelink.Prelude.{
  sym, Bool-cases, ◌⊎◌, ◌&&◌, if◌then◌else◌, ◌||◌, ◌==◌, arith, ◌≡◌, Option, List, ℕ, not, Bool, [],
  inr, inl, some, none, false, true, refl,
}
use hwphonelink.Dfile.Header.{incomplete, invalid, header}

pub pumping_backed : (t : Trans) → is_pumping t.phase ≡ true → backed (some t) ≡ true
unfolding backed
pumping_backed t h = ground (arith, h)

pub waiting_backed : (t : Trans) → is_waiting_confirm t.phase ≡ true → backed (some t) ≡ true
unfolding backed
waiting_backed t h = ground (arith, h)

tx_ctrl-backed :
    (now type : ℕ) (ids : List ℕ) (t : Trans)
    → is_waiting_confirm t.phase ≡ true
    → backed (some (tx_ctrl now type ids t)) ≡ true
unfolding backed tx_ctrl
tx_ctrl-backed now type ids t h = ground (arith, h)

negation_false : (b : Bool) → not b ≡ false → b ≡ true
negation_false b h = ground (arith, h)

handle_tx_ctrl-Backs :
    (io : Io) (type : ℕ) (c : Conn) (frame : List ℕ) → Backs c (handle_tx_ctrl io type c frame)
unfolding handle_tx_ctrl
handle_tx_ctrl-Backs io type c frame = Backs-elim c c.tx (Backs-same c []) (λ t e.
    Backs-if c (not (is_waiting_confirm t.phase)) (λ h. Backs-same c [])
      (λ h. Backs-elim c (decode_idlist frame type) (shutdown-Backs io c) (λ m e'.
        Backs-if c (not (m.trans_id == t.trans_id)) (λ k. shutdown-Backs io c)
          (λ k.
            Backs-tx c (tx_ctrl io.now type m.ids t) []
              (inr (tx_ctrl-backed io.now type m.ids t (negation_false _ h)))))))

handle_ack-Backs : (io : Io) (c : Conn) (frame : List ℕ) → Backs c (handle_ack io c frame)
unfolding handle_ack
handle_ack-Backs io c frame = Backs-elim c c.tx (Backs-same c []) (λ t e.
    Backs-if c (not (is_pumping t.phase)) (λ h. Backs-same c [])
      (λ h. Backs-elim c (decode_ack frame) (shutdown-Backs io c) (λ m e'.
        Backs-if c (not (m.trans_id == t.trans_id)) (λ k. shutdown-Backs io c)
          (λ k.
            let u = record t { last_ack_ms = io.now; files = ack_files m.entries t.files } in
            finish_if_done-Backs io u c (inr (pumping_backed u (negation_false _ h)))))))

handle_done-Backs : (io : Io) (c : Conn) (frame : List ℕ) → Backs c (handle_done io c frame)
unfolding handle_done
handle_done-Backs io c frame = Backs-elim c c.tx (Backs-same c []) (λ t e.
    Backs-if c (is_failed t.phase || is_tx_done t.phase) (λ h. Backs-same c [])
      (λ h. Backs-elim c (decode_idlist frame transfer_done) (shutdown-Backs io c) (λ m e'.
        let u = record t {
          done_received = true;
          phase = if is_sending t.phase then tx_wait_done else t.phase;
        } in
        Backs-if c (not (m.trans_id == t.trans_id)) (λ k. shutdown-Backs io c)
          (λ k. finish_if_done-Backs io u c (inr (unfold backed in ground (arith, h)))))))

flush_ack-Backs : (io : Io) (t : Trans) (c : Conn) → Backs c (flush_ack io t c)
flush_ack-Backs io t c = record { kept = inl (flush_ack-SameTx io t c).same }

rx_send_done-Backs : (io : Io) (t : Trans) (c : Conn) → Backs c (rx_send_done io t c)
rx_send_done-Backs io t c = record { kept = inl (rx_send_done-SameTx io t c).same }

handle_doneack-Backs : (io : Io) (c : Conn) (frame : List ℕ) → Backs c (handle_doneack io c frame)
unfolding handle_doneack
handle_doneack-Backs io c frame =
    search (backs, Backs-elim c c.rx, Backs-elim c (decode_idlist frame transfer_done_ack)) depth 10

header_complete-Backs : (io : Io) (t : Trans) (c : Conn) → Backs c (header_complete io t c)
unfolding header_complete
header_complete-Backs io t c = search backs depth 10

rx_from : (c : Conn) (o : Option Trans) {s : Step} → Backs (record c { rx = o }) s → Backs c s
rx_from c o k = Backs-from c (record c { rx = o }) (inl refl) k

handle_file_header-Backs :
    (io : Io) (c : Conn) (frame : List ℕ) → Backs c (handle_file_header io c frame)
unfolding handle_file_header
handle_file_header-Backs io c frame =
    let closing : (o : Option Trans) → Backs c (shutdown io (record c { rx = o })) =
      λ o. rx_from c o (shutdown-Backs io _) in
    let completing : (t : Trans) → Backs c (header_complete io t (record c { rx = some t })) =
      λ t. rx_from c (some t) (header_complete-Backs io t _) in
    Backs-if c (is_finished c.rx) (λ h. Backs-same c [])
      (λ h. Backs-elim c (decode_file_header frame) (shutdown-Backs io c) (λ m e.
        Backs-if c (m.node_number == 0) (λ h. shutdown-Backs io c)
          (λ h.
            Backs-elim c (header_trans io c.rx m) (shutdown-Backs io c)
              (λ t e'. search (backs, closing, completing)))))

data_block-Backs :
    (io : Io) (t : Trans) (c : Conn) (f : TransFile) (seq : ℕ) (payload : List ℕ)
    → Backs c (data_block io t c f seq payload)
unfolding data_block
data_block-Backs io t c f seq payload = search backs depth 14

data_for-Backs :
    (io : Io) (c : Conn) (m : DataBlock) (o : Option Trans) → Backs c (data_for io c m o)
unfolding data_for
data_for-Backs io c m none = reset_and_shutdown-Backs io m.trans_id rst_internal_error c
data_for-Backs io c m (some t) =
    search (backs, Backs-elim c (find_file m.file_id t.files), data_block-Backs)

handle_data-Backs : (io : Io) (c : Conn) (frame : List ℕ) → Backs c (handle_data io c frame)
unfolding handle_data
handle_data-Backs io c frame = search (backs, Backs-elim c (decode_data frame), data_for-Backs)

handle_rst-Backs : (io : Io) (c : Conn) (frame : List ℕ) → Backs c (handle_rst io c frame)
unfolding handle_rst
handle_rst-Backs io c frame = search (backs, Backs-elim c (decode_rst frame)) depth 10

handle_setting-Backs : (io : Io) (c : Conn) (frame : List ℕ) → Backs c (handle_setting io c frame)
unfolding handle_setting
handle_setting-Backs io c frame =
    search (backs, Backs-elim c (decode_setting frame), Backs-out) depth 10

dispatch_frame-Backs :
    (io : Io) (c : Conn) (type : ℕ) (frame : List ℕ) → Backs c (dispatch_frame io c type frame)
unfolding dispatch_frame
dispatch_frame-Backs io c type frame =
    search
      (
        Backs-same, Backs-if, handle_setting-Backs, handle_file_header-Backs, handle_tx_ctrl-Backs,
        handle_data-Backs, handle_ack-Backs, handle_done-Backs, handle_doneack-Backs,
        handle_rst-Backs,
      )
      depth 20

pub handle_frame-Backs : (io : Io) (c : Conn) (frame : List ℕ) → Backs c (handle_frame io c frame)
unfolding handle_frame
handle_frame-Backs io c frame =
    elim (header_unpack frame)
      as (λ u. Backs c (elim u [
        | incomplete ↦ shutdown io c
        | invalid ↦ shutdown io c
        | header h ↦ dispatch_frame io c h.type frame
      ])) [
        | incomplete ↦ shutdown-Backs io c
        | invalid ↦ shutdown-Backs io c
        | header h ↦ dispatch_frame-Backs io c h.type frame
      ]

-- The transfer after the pump, which waits for the end once all is sent.
pub waits_backed :
    (t : Trans) (o : Option Trans)
    → o ≡ some t
    → let u =
        if is_sending t.phase && all_sent t.files then record t { phase = tx_wait_done } else t in
      (some u ≡ o) ⊎ (backed (some u) ≡ true)
unfolding backed
waits_backed t o e = elim (Bool-cases (is_sending t.phase && all_sent t.files)) [
  | inl h ↦ rw h (inr refl)
  | inr h ↦ rw h (inl (sym e))
]
