-- ===== src/Transfer/RunTests.antt =====
-- Runs of a connection of src/proto/dfile_conn.c from its start.
use hwphonelink.Transfer.Common.{send_if}
use hwphonelink.Dfile.Buffer.{
  w_u16s, w_bytes, w_u64, r_u16s, w_u16, r_u16, w_init, r_u32, r_take, r_init,
}
use hwphonelink.Transfer.Control.{send_ids, tx_finish, finish_if_done, handle_done}
use hwphonelink.Dfile.Encode.{encode_idlist, w_entry, w_entries, count_fit, encode_file_header}
use hwphonelink.Dfile.Decode.{read_setting, decode_idlist, decode_setting}
use hwphonelink.Dfile.Header.{frame_payload, header_unpack}
use hwphonelink.Transfer.SuccessRuns.{run-done_acked}
use hwphonelink.Transfer.Samples.{file_new, io_at, trans_at, conn_at}
use hwphonelink.Transfer.Sender.{
  header_entries, send_headers, send_header, wire_name, open_files, all_acked, start_sending,
  send_files,
}
use hwphonelink.Transfer.Runs.{run-block_size, run}
use hwphonelink.Transfer.State.{trans_new, tx_done, tx_wait_confirm_req, conn_new, Io, Trans, Conn}
use hwphonelink.Prelude.{
  put_u64, put_u16, get_u32, copy, skip, get_u16, ◌∙◌, replicate, ◌≤◌, ap, ◌∷◌, ℕ, ◌≡◌, List, [],
  some, none, false, true, refl,
}
use hwphonelink.Transfer.Engine.{
  negotiated_block, handle_setting, dispatch_frame, handle_frame, drain_header, Event, drain_frames,
  receive_chunk, step, receives, sends,
}

-- A peer's SETTING, an empty file to send, and the receiver's DONE.
abbrev setting_frame : List ℕ
setting_frame = 8 ∷ 0 ∷ 0 ∷ 0 ∷ 0 ∷ 0 ∷ 0 ∷ 100 ∷ replicate 100 1

abbrev done_frame : List ℕ
done_frame = 6 ∷ 0 ∷ 0 ∷ 0 ∷ 0 ∷ 1 ∷ 0 ∷ 2 ∷ 0 ∷ 1 ∷ []

abbrev negotiating : List (Io × Event)
negotiating = (io_at 1, receives setting_frame) ∷ []

abbrev tail_of : List (Io × Event) → List (Io × Event)
tail_of [] = []
tail_of (e ∷ es) = es

abbrev sending : List (Io × Event)
sending =
    (io_at 1, receives setting_frame)
    ∷ (io_at 2, sends (record { name = none; size = 0; stat_size = some 0 } ∷ []))
    ∷ (io_at 3, receives done_frame)
    ∷ []

abbrev ready_conn : Conn
ready_conn = record (conn_at 1472 none none) { local_setting_sent = false; has_recv_dir = false }

negotiates : (step (io_at 1) (receives setting_frame) (conn_new 0)).0 ≡ ready_conn
unfolding step receive_chunk drain_frames drain_header handle_frame dispatch_frame handle_setting
    header_unpack conn_new get_u16 decode_setting frame_payload read_setting r_take r_u32 r_u16
    r_init skip copy negotiated_block get_u32
negotiates = refl

has_negotiated : (run negotiating (conn_new 0)).0.negotiated ≡ true
unfolding run
has_negotiated = ap (λ (c : Conn). c.negotiated) negotiates

run-block_size_example :
    let c = (run negotiating (conn_new 0)).0 in
    (64 ≤ c.block_size) × (c.block_size ≤ 14706) × ((run sending c).0.block_size ≡ c.block_size)
run-block_size_example = run-block_size 0 negotiating sending has_negotiated

abbrev sent : Trans
sent =
    record (trans_at true tx_done (
      record (file_new 1) { size = 0; name = wire_name none; total_blocks = 0; acked_all = true }
      ∷ [])) {
        trans_id = 1;
        t0_ms = 2;
        last_ctrl_ms = 2;
        last_ack_ms = 2;
        done_received = true;
        doneack_sent = true;
      }

abbrev sending_conn : Conn
sending_conn = record ready_conn {
  tx =
      some
        (record sent { phase = tx_wait_confirm_req; done_received = false; doneack_sent = false });
  next_trans_id = 2;
}

starts_sending :
    (step
      (io_at 2)
      (sends (record { name = none; size = 0; stat_size = some 0 } ∷ []))
      ready_conn).0
    ≡ sending_conn
unfolding step send_files start_sending open_files trans_new send_header send_headers header_entries
    encode_file_header count_fit w_entries w_entry w_init w_u16 w_u64 w_bytes put_u16 put_u64
starts_sending = refl

finishes : (step (io_at 3) (receives done_frame) sending_conn).0.tx ≡ some sent
unfolding step receive_chunk drain_frames drain_header handle_frame dispatch_frame header_unpack
    get_u16 handle_done decode_idlist frame_payload r_init r_take r_u16 r_u16s skip copy
    finish_if_done tx_finish all_acked send_ids send_if encode_idlist w_init w_u16s w_u16 w_bytes
    put_u16
finishes = refl

has_sent : (run sending (conn_new 0)).0.tx ≡ some sent
unfolding run
has_sent =
    ap (λ (c : Conn). (run (tail_of sending) c).0.tx) negotiates
    ∙ ap (λ (c : Conn). (run (tail_of (tail_of sending)) c).0.tx) starts_sending
    ∙ finishes

run-done_acked_example : (sent.done_received ≡ true) × (all_acked sent.files ≡ true)
run-done_acked_example = run-done_acked 0 sending sent has_sent refl
