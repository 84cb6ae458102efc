-- ===== src/Transfer/Handlers.antt =====
-- Every handler of src/proto/dfile_conn.c keeps what Keeps says.
use hwphonelink.Transfer.Listing.{
  header_trans, handle_file_header, header_complete, send_confirm_req,
}
use hwphonelink.Dfile.Header.{max_ack_entries}
use hwphonelink.Transfer.Sender.{all_acked}
use hwphonelink.Dfile.Acks.{decode_ack}
use hwphonelink.Dfile.Decode.{DataBlock, decode_file_header, FileHeader, decode_data, decode_idlist}
use hwphonelink.Transfer.Common.{
  rst_internal_error, find_file, header_confirm, transfer_done_ack, transfer_done, shutdown,
}
use hwphonelink.Transfer.Keeps.{
  trans_fail-Keeps, Keeps-rx, end_count-none, Keeps-tx, reset_and_shutdown-Keeps, shutdown-Keeps,
  end_count-send_if, Keeps-elim, Keeps-from, Keeps-if, keeps, Keeps, end_count,
}
use hwphonelink.Transfer.State.{TransFile, Step, Trans, Io, Conn}
use hwphonelink.Transfer.Receiver.{
  data_for, ack_entries, handle_data, data_block, handle_doneack, rx_send_done, flush_ack,
}
use hwphonelink.Transfer.Control.{
  handle_done, handle_ack, handle_tx_ctrl, finish_if_done, tx_finish, send_ids,
}
use hwphonelink.Prelude.{
  ◌==◌, Bool-cases, length, ◌&&◌, ◌≡◌, List, ℕ, Option, [], inr, inl, some, none, false, refl,
}

send_ids-end_count :
    (io : Io) (type id : ℕ) (ids : List ℕ) → end_count (send_ids io type id ids).1 ≡ 0
unfolding send_ids
send_ids-end_count io type id ids = end_count-send_if io _

tx_finish-Keeps : (io : Io) (t : Trans) (c : Conn) → Keeps c (tx_finish io t c)
unfolding tx_finish
tx_finish-Keeps io t c = search keeps depth 8

pub finish_if_done-Keeps : (io : Io) (t : Trans) (c : Conn) → Keeps c (finish_if_done io t c)
unfolding finish_if_done
finish_if_done-Keeps io t c =
    Keeps-if c (t.done_received && all_acked t.files)
      (Keeps-from c (record c { tx = some t }) refl refl refl refl
        (tx_finish-Keeps io t (record c { tx = some t })))
      (Keeps-tx c (some t) [] refl)

pub handle_tx_ctrl-Keeps :
    (io : Io) (type : ℕ) (c : Conn) (frame : List ℕ) → Keeps c (handle_tx_ctrl io type c frame)
unfolding handle_tx_ctrl
handle_tx_ctrl-Keeps io type c frame =
    search (keeps, Keeps-elim c (c.tx), Keeps-elim c (decode_idlist frame type)) depth 8

pub handle_ack-Keeps : (io : Io) (c : Conn) (frame : List ℕ) → Keeps c (handle_ack io c frame)
unfolding handle_ack
handle_ack-Keeps io c frame =
    search (keeps, Keeps-elim c (c.tx), Keeps-elim c (decode_ack frame), finish_if_done-Keeps) depth
      8

pub handle_done-Keeps : (io : Io) (c : Conn) (frame : List ℕ) → Keeps c (handle_done io c frame)
unfolding handle_done
handle_done-Keeps io c frame =
    search
      (
        keeps,
        Keeps-elim c (c.tx),
        Keeps-elim c (decode_idlist frame transfer_done),
        finish_if_done-Keeps,
      )
      depth 8

pub flush_ack-Keeps : (io : Io) (t : Trans) (c : Conn) → Keeps c (flush_ack io t c)
unfolding flush_ack
flush_ack-Keeps io t c =
    let d = record c { rx = some (record t { ack_pending = false }) } in
    Keeps-if c (length (ack_entries max_ack_entries t.files) == 0) (Keeps-rx c _ [] refl) (
      Keeps-if c _ (Keeps-rx c _ _ (end_count-send_if io _))
        (Keeps-from c d refl refl refl refl (trans_fail-Keeps false false io d)))

pub rx_send_done-Keeps : (io : Io) (t : Trans) (c : Conn) → Keeps c (rx_send_done io t c)
unfolding rx_send_done
rx_send_done-Keeps io t c = search keeps depth 8

pub handle_doneack-Keeps :
    (io : Io) (c : Conn) (frame : List ℕ) → Keeps c (handle_doneack io c frame)
unfolding handle_doneack
handle_doneack-Keeps io c frame =
    search (keeps, Keeps-elim c (c.rx), Keeps-elim c (decode_idlist frame transfer_done_ack)) depth
      8

send_confirm_req-end_count :
    (io : Io) (id : ℕ) (ids : List ℕ) → end_count (send_confirm_req io id ids).1 ≡ 0
unfolding send_confirm_req
send_confirm_req-end_count io id ids = elim (Bool-cases (send_ids io header_confirm id ids).0) [
  | inl e ↦ rw e (search (end_count-none, send_ids-end_count))
  | inr e ↦ rw e refl
]

header_complete-Keeps : (io : Io) (t : Trans) (c : Conn) → Keeps c (header_complete io t c)
unfolding header_complete
header_complete-Keeps io t c = search (keeps, send_confirm_req-end_count) depth 8

rx_from : (c : Conn) (o : Option Trans) {s : Step} → Keeps (record c { rx = o }) s → Keeps c s
rx_from c o k = Keeps-from c (record c { rx = o }) refl refl refl refl k

pub handle_file_header-Keeps :
    (io : Io) (c : Conn) (frame : List ℕ) → Keeps c (handle_file_header io c frame)
unfolding handle_file_header
handle_file_header-Keeps io c frame =
    let closing : (o : Option Trans) → Keeps c (shutdown io (record c { rx = o })) =
      λ o. rx_from c o (shutdown-Keeps io _) in
    let completing : (t : Trans) → Keeps c (header_complete io t (record c { rx = some t })) =
      λ t. rx_from c (some t) (header_complete-Keeps io t _) in
    let splitting : (m : FileHeader) (x : Step) (f : Trans → Step)
        → Keeps c x
        → ((t : Trans) → Keeps c (f t))
        → Keeps c (elim (header_trans io c.rx m) [ none ↦ x | some t ↦ f t ]) =
      λ m x f. Keeps-elim c (header_trans io c.rx m) in
    search (keeps, Keeps-elim c (decode_file_header frame), splitting, closing, completing) depth 12

data_block-Keeps :
    (io : Io) (t : Trans) (c : Conn) (f : TransFile) (seq : ℕ) (payload : List ℕ)
    → Keeps c (data_block io t c f seq payload)
unfolding data_block
data_block-Keeps io t c f seq payload = search (keeps) depth 8

data_for-Keeps :
    (io : Io) (c : Conn) (m : DataBlock) (o : Option Trans) → Keeps c (data_for io c m o)
unfolding data_for
data_for-Keeps io c m none = reset_and_shutdown-Keeps io m.trans_id rst_internal_error c
data_for-Keeps io c m (some t) =
    search (keeps, Keeps-elim c (find_file m.file_id t.files), data_block-Keeps)

pub handle_data-Keeps : (io : Io) (c : Conn) (frame : List ℕ) → Keeps c (handle_data io c frame)
unfolding handle_data
handle_data-Keeps io c frame = search (keeps, Keeps-elim c (decode_data frame), data_for-Keeps)
