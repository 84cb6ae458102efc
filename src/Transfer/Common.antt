-- ===== src/Transfer/Common.antt =====
-- The helpers of src/proto/dfile_conn.c: resets, failed transfers, the shutdown.
use hwphonelink.Dfile.Header.{max_file_num, header_len}
use hwphonelink.Dfile.Encode.{encode_rst}
use hwphonelink.Transfer.State.{
  notify_end, notify_result, is_shut, failed, ◌then_do◌, is_over, send_frame, shut, Step, Output,
  Trans, Conn, TransFile, Io,
}
use hwphonelink.Prelude.{
  ◌*◌, ◌+◌, ◌==◌, ◌++◌, if◌then◌else◌, ◌∷◌, List, Option, Bool, ℕ, [], some, none, false, true,
}

-- Codes of a reset.
abbrev pub rst_without_setting : ℕ
rst_without_setting = 201

abbrev pub rst_file_write_error : ℕ
rst_file_write_error = 202

abbrev pub rst_no_enough_storage : ℕ
rst_no_enough_storage = 204

abbrev pub rst_internal_error : ℕ
rst_internal_error = 209

abbrev pub rst_cancel : ℕ
rst_cancel = 210

-- The types of the frames that carry lists of ids.
abbrev pub header_confirm : ℕ
header_confirm = 2

abbrev pub transfer_req : ℕ
transfer_req = 3

abbrev pub transfer_done : ℕ
transfer_done = 6

abbrev pub transfer_done_ack : ℕ
transfer_done_ack = 7

-- Encode a frame and send it: whether both went well, with the frame if it went out. `dc_send` fails
-- when `g_poll` does, or when no byte is sent and there is no error; on a hard error of the socket it
-- stores through `error`, which all callers but one leave NULL, so that a run with one is outside the model.
unfoldable pub send_if : Io → Option (List ℕ) → Bool × List Output
send_if io none = (false, [])
send_if io (some frame) = if io.can_send frame then (true, send_frame frame ∷ []) else (false, [])

-- `dc_send_rst`; the callers ignore its result.
unfoldable pub send_rst : Io → ℕ → ℕ → List Output
unfolding send_if
send_rst io trans_id code =
    (send_if io (encode_rst io.old_buf (header_len + 2 + 2 * max_file_num) trans_id code [])).1

-- `find_file`, and the update of the file that it finds.
unfoldable pub find_file : ℕ → List TransFile → Option TransFile
find_file id [] = none
find_file id (f ∷ fs) = if f.file_id == id then some f else find_file id fs

unfoldable pub update_file : TransFile → List TransFile → List TransFile
update_file g [] = []
update_file g (f ∷ fs) = if f.file_id == g.file_id then g ∷ fs else f ∷ update_file g fs

-- The transfer that is sent, for true, or received.
abbrev pub trans_of : Bool → Conn → Option Trans
trans_of true c = c.tx
trans_of false c = c.rx

abbrev pub put_trans : Bool → Trans → Conn → Conn
put_trans true t c = record c { tx = some t }
put_trans false t c = record c { rx = some t }

abbrev pub fail_trans : Bool → Io → Conn → Bool → Option Trans → Step
fail_trans side io c rst none = (c, [])
fail_trans side io c rst (some t) = if is_over t.phase then (c, []) else (
  put_trans side (record t { phase = failed }) c,
  (if rst then send_rst io t.trans_id rst_cancel else []) ++ (notify_result t.is_sender false ∷ []),
)

-- `trans_fail` on the transfer of that direction.
unfoldable pub trans_fail : Bool → Bool → Io → Conn → Step
trans_fail side rst io c = fail_trans side io c rst (trans_of side c)

-- `shutdown_common`.
unfoldable pub shutdown : Io → Conn → Step
unfolding trans_fail
shutdown io c =
    let failed_all =
      trans_fail true false io (record c { state = shut }) then_do trans_fail false false io in
    if is_shut c.state then (c, []) else (failed_all.0, failed_all.1 ++ (notify_end ∷ []))

-- A reset of a transfer, then the shutdown.
unfoldable pub reset_and_shutdown : Io → ℕ → ℕ → Conn → Step
unfolding send_rst
reset_and_shutdown io trans_id code c =
    let s = shutdown io c in (s.0, send_rst io trans_id code ++ s.1)
