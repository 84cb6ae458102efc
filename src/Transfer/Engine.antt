-- ===== src/Transfer/Engine.antt =====
-- The SETTING exchange, the dispatch of frames, the reading loop and the events of
-- src/proto/dfile_conn.c.
use hwphonelink.Transfer.Tick.{on_tick}
use hwphonelink.Transfer.Listing.{handle_file_header}
use hwphonelink.Transfer.Receiver.{handle_doneack, handle_data}
use hwphonelink.Dfile.Decode.{decode_rst, decode_setting}
use hwphonelink.Transfer.Control.{handle_done, handle_ack, handle_tx_ctrl}
use hwphonelink.Dfile.Header.{
  Unpacked, incomplete, invalid, header, rst, file_data_ack, file_data, file_header,
  setting_payload_len, setting, header_unpack, header_len, max_size,
}
use hwphonelink.Transfer.Sender.{SendItem, send_files}
use hwphonelink.Transfer.State.{
  notify_negotiated, ready, is_shut, min_mtu_size, Trans, Step, Conn, default_frame_size, Io,
}
use hwphonelink.Transfer.Common.{
  transfer_done_ack, transfer_done, transfer_req, header_confirm, rst_without_setting, trans_fail,
  reset_and_shutdown, shutdown, send_if,
}
use hwphonelink.Dfile.Encode.{encode_setting, Setting}
use hwphonelink.Prelude.{
  drop, take, ◌||◌, length, ltb, ◌+◌, ◌++◌, ◌&&◌, ◌==◌, replicate, leb, ◌-◌, ◌∷◌, Option,
  if◌then◌else◌, List, Bool, ℕ, [], some, none, false, true, suc, zero,
}

abbrev pub local_setting : Setting
local_setting = record {
  mtu = default_frame_size;
  conn_type = 1;
  dfile_version = 1;
  abm_capability = 0;
  capability = 0;
  data_frame_size = 0;
  caps_check = 0;
  product_version =
      b'h'
      ∷ b'w'
      ∷ b'p'
      ∷ b'h'
      ∷ b'o'
      ∷ b'n'
      ∷ b'e'
      ∷ b'l'
      ∷ b'i'
      ∷ b'n'
      ∷ b'k'
      ∷ b' '
      ∷ b'0'
      ∷ b'.'
      ∷ b'1'
      ∷ b'.'
      ∷ b'0'
      ∷ replicate 47 0;
  is_support_160m = 0;
  is_support_mtp = 0;
  mtp_port = 0;
  header_enc = 0;
  mtp_capability = 0;
  cipher_capability = 0;
}

-- `dc_send_local_setting`.
unfoldable pub send_local_setting : Io → Conn → Step
unfolding send_if
send_local_setting io c =
    let sent =
      send_if io (encode_setting io.old_buf (header_len + setting_payload_len) local_setting) in
    if c.local_setting_sent
    then (c, [])
    else if sent.0
    then (record c { local_setting_sent = true }, sent.1)
    else shutdown io c

-- The greatest block: a data frame has 14 bytes besides it.
abbrev pub max_block : ℕ
max_block = max_size - header_len - 6

unfoldable pub negotiated_block : ℕ → ℕ
negotiated_block data_frame_size =
    if leb min_mtu_size data_frame_size && leb data_frame_size max_block
    then data_frame_size
    else default_frame_size

-- `handle_setting`.
unfoldable pub handle_setting : Io → Conn → List ℕ → Step
unfolding negotiated_block
handle_setting io c frame = if c.negotiated then (c, []) else elim (decode_setting frame) [
  | none ↦ shutdown io c
  | some s ↦ if s.mtu == 0 then reset_and_shutdown io 0 rst_without_setting c else (
    record c { block_size = negotiated_block s.data_frame_size; negotiated = true; state = ready },
    notify_negotiated ∷ [],
  )
]

abbrev pub has_trans_id : ℕ → Option Trans → Bool
has_trans_id id none = false
has_trans_id id (some t) = t.trans_id == id

-- `handle_rst`.
unfoldable pub handle_rst : Io → Conn → List ℕ → Step
handle_rst io c frame = elim (decode_rst frame) [
  | none ↦ shutdown io c
  | some m ↦
      if has_trans_id m.trans_id c.tx
      then trans_fail true false io c
      else if has_trans_id m.trans_id c.rx
      then trans_fail false false io c
      else (c, [])
]

-- The `switch` of `handle_frame`.
unfoldable pub dispatch_frame : Io → Conn → ℕ → List ℕ → Step
dispatch_frame io c type frame =
    if type == setting
    then handle_setting io c frame
    else if type == file_header
    then handle_file_header io c frame
    else if type == header_confirm || type == transfer_req
    then handle_tx_ctrl io type c frame
    else if type == file_data
    then handle_data io c frame
    else if type == file_data_ack
    then handle_ack io c frame
    else if type == transfer_done
    then handle_done io c frame
    else if type == transfer_done_ack
    then handle_doneack io c frame
    else if type == rst
    then handle_rst io c frame
    else (c, [])

-- `handle_frame`.
unfoldable pub handle_frame : Io → Conn → List ℕ → Step
unfolding dispatch_frame
handle_frame io c frame = elim (header_unpack frame) [
  | incomplete ↦ shutdown io c
  | invalid ↦ shutdown io c
  | header h ↦ dispatch_frame io c h.type frame
]

-- What the inner loop of `dc_drain` does with the header at the front of the buffer, where `rest`
-- is the rest of the loop. A connection that is shut keeps its buffer.
unfoldable pub drain_header : Io → Conn → (Conn → Step) → Unpacked → Step
unfolding handle_frame
drain_header io c rest incomplete = (c, [])
drain_header io c rest invalid = shutdown io c
drain_header io c rest (header h) =
    let total = header_len + h.payload_len in
    let s = handle_frame io c (take total c.rxbuf) in
    let r = rest (record s.0 { rxbuf = drop total s.0.rxbuf }) in
    if ltb (length c.rxbuf) total
    then (c, [])
    else if is_shut s.0.state
    then s
    else (r.0, s.1 ++ r.1)

-- The inner loop of `dc_drain`: handle the frames that are complete. A frame has more than eight
-- bytes, so the length of the buffer is fuel enough.
unfoldable pub drain_frames : ℕ → Io → Conn → Step
unfolding drain_header
drain_frames zero io c = (c, [])
drain_frames (suc fuel) io c = drain_header io c (drain_frames fuel io) (header_unpack c.rxbuf)

-- `dc_drain` for a chunk that the socket gives, and for its end.
unfoldable pub receive_chunk : Io → List ℕ → Conn → Step
unfolding drain_frames
receive_chunk io chunk c =
    let buf = c.rxbuf ++ chunk in drain_frames (length buf) io (record c { rxbuf = buf })

-- `dfile_conn_close`, on the engine's thread.
unfoldable pub close_conn : Io → Conn → Step
close_conn io c = shutdown io c

-- What happens to a connection: the tick, a chunk of bytes, the end of the socket's stream, and the
-- application's calls.
pub data Event : Type 0 where
  starts : Event
  ticks : Event
  receives : List ℕ → Event
  ends : Event
  closes : Event
  sends : List SendItem → Event

-- One event. After the shutdown the main loop has ended, and only the guards are left.
unfoldable pub step : Io → Event → Conn → Step
unfolding send_local_setting on_tick receive_chunk close_conn send_files
step io starts c = send_local_setting io c
step io ticks c = on_tick io c
step io (receives chunk) c = if is_shut c.state then (c, []) else receive_chunk io chunk c
step io ends c = shutdown io c
step io closes c = close_conn io c
step io (sends items) c = (send_files io items c).1
