-- ===== src/Transfer/Receiver.antt =====
-- The receiver of src/proto/dfile_conn.c: acknowledgements, its DONE, and the blocks that it gets.
use hwphonelink.Transfer.State.{rx_done}
use hwphonelink.Transfer.Pump.{block_len}
use hwphonelink.Dfile.Header.{header_len, max_ack_entries}
use hwphonelink.Dfile.Decode.{DataBlock, decode_idlist, decode_data}
use hwphonelink.Dfile.Acks.{encode_ack, AckEntry}
use hwphonelink.Transfer.Control.{ids_of, send_ids}
use hwphonelink.Transfer.State.{
  write_block, notify_result, rx_done, rx_wait_data, rx_wait_doneack, Step, Conn, Trans, TransFile,
  Phase, Io,
}
use hwphonelink.Transfer.Common.{
  update_file, rst_file_write_error, find_file, transfer_done_ack, rst_internal_error, shutdown,
  trans_fail, transfer_done, reset_and_shutdown, send_rst, send_if,
}
use hwphonelink.Prelude.{
  ◌+◌, ◌-◌, ◌*◌, ◌||◌, not, ltb, ◌==◌, ◌++◌, if◌then◌else◌, ◌∷◌, leb, length, Bool, Option, List, ℕ,
  [], some, none, false, true, suc, zero,
}

-- The entries of `rx_flush_ack`: the files that have blocks, the first 39 of them.
unfoldable pub ack_entries : ℕ → List TransFile → List AckEntry
ack_entries room [] = []
ack_entries zero (f ∷ fs) = []
ack_entries (suc room) (f ∷ fs) =
    if ltb 0 f.expected_seq
    then record { file_id = f.file_id; last_seq = f.expected_seq - 1; c = 0; d = 0 }
      ∷ ack_entries room fs
    else ack_entries (suc room) fs

-- `rx_flush_ack`, where `t` is the transfer that `c` receives.
unfoldable pub flush_ack : Io → Trans → Conn → Step
unfolding ack_entries send_if
flush_ack io t c =
    let c' = record c { rx = some (record t { ack_pending = false }) } in
    let ents = ack_entries max_ack_entries t.files in
    let sent =
      send_if io
        (encode_ack io.old_buf (header_len + 12 + 37 * max_ack_entries) false t.trans_id 0 ents) in
    if length ents == 0
    then (c', [])
    else if sent.0
    then (c', sent.1)
    else trans_fail false false io c'

-- The files whose digest is not the one of their name.
unfoldable pub any_mismatch : Io → List TransFile → Bool
any_mismatch io [] = false
any_mismatch io (f ∷ fs) =
    elim f.expected_sha [ none ↦ false | some hex ↦ not (io.sha_matches f.hashed hex) ]
    || any_mismatch io fs

-- `rx_send_done`, where `t` is the transfer that `c` receives.
unfoldable pub rx_send_done : Io → Trans → Conn → Step
unfolding any_mismatch send_ids send_rst
rx_send_done io t c =
    let sent = send_ids io transfer_done t.trans_id (ids_of t.files) in
    let failing = trans_fail false false io c in
    if t.done_sent
    then (c, [])
    else if any_mismatch io t.files
    then (failing.0, send_rst io t.trans_id rst_internal_error ++ failing.1)
    else if sent.0
    then (record c { rx = some (record t { done_sent = true; phase = rx_wait_doneack }) }, sent.1)
    else failing

abbrev pub is_waiting_doneack : Phase → Bool
is_waiting_doneack rx_wait_doneack = true
is_waiting_doneack _ = false

-- `handle_doneack`.
unfoldable pub handle_doneack : Io → Conn → List ℕ → Step
handle_doneack io c frame = elim c.rx [
  | none ↦ (c, [])
  | some t ↦
      if not (is_waiting_doneack t.phase)
      then (c, [])
      else elim (decode_idlist frame transfer_done_ack) [
        | none ↦ shutdown io c
        | some m ↦ if not (m.trans_id == t.trans_id) then shutdown io c else (
          record c { rx = some (record t { phase = rx_done }) },
          notify_result false true ∷ [],
        )
      ]
]

abbrev pub is_waiting_data : Phase → Bool
is_waiting_data rx_wait_data = true
is_waiting_data _ = false

-- The file after its next block.
abbrev pub take_block : List ℕ → TransFile → TransFile
take_block payload f = record f {
  hashed = f.hashed ++ payload;
  expected_seq = suc f.expected_seq;
  write_complete = f.write_complete || leb f.total_blocks (suc f.expected_seq);
}

-- The part of `handle_data` for a block of a file of the transfer `t` that `c` receives.
unfoldable pub data_block : Io → Trans → Conn → TransFile → ℕ → List ℕ → Step
unfolding reset_and_shutdown
data_block io t c f seq payload =
    let off = seq * c.block_size in
    if leb f.total_blocks seq
    then reset_and_shutdown io t.trans_id rst_internal_error c
    else if ltb seq f.expected_seq
    then (c, [])
    else if ltb f.expected_seq seq
    then reset_and_shutdown io t.trans_id rst_internal_error c
    else if not (length payload == block_len c.block_size f seq)
    then reset_and_shutdown io t.trans_id rst_internal_error c
    else if not (io.can_write f.file_id off payload)
    then reset_and_shutdown io t.trans_id rst_file_write_error c
    else (
      record c {
        rx =
            some
              (record t { files = update_file (take_block payload f) t.files; ack_pending = true });
      },
      write_block f.file_id off payload ∷ [],
    )

-- The part of `handle_data` after the decoding, where `rx` is what `c` receives.
unfoldable pub data_for : Io → Conn → DataBlock → Option Trans → Step
unfolding data_block
data_for io c m none = reset_and_shutdown io m.trans_id rst_internal_error c
data_for io c m (some t) =
    if not (is_waiting_data t.phase) || not (m.trans_id == t.trans_id)
    then reset_and_shutdown io m.trans_id rst_internal_error c
    else elim (find_file m.file_id t.files) [
      | none ↦ reset_and_shutdown io t.trans_id rst_internal_error c
      | some f ↦ data_block io t c f m.block_seq m.payload
    ]

-- `handle_data`.
unfoldable pub handle_data : Io → Conn → List ℕ → Step
unfolding data_for
handle_data io c frame = elim (decode_data frame) [
  | none ↦ shutdown io c
  | some m ↦ data_for io c m c.rx
]
