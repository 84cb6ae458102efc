-- ===== src/Transfer/Control.antt =====
-- The control frames that the sender of src/proto/dfile_conn.c gets and sends: `tx_finish`,
-- `handle_tx_ctrl`, `handle_ack` and `handle_done`. A handler gets the frame that the engine cut off
-- its buffer.
use hwphonelink.Dfile.Decode.{decode_idlist}
use hwphonelink.Dfile.Header.{max_file_num, header_len}
use hwphonelink.Transfer.Sender.{all_acked}
use hwphonelink.Dfile.Encode.{encode_idlist}
use hwphonelink.Dfile.Acks.{decode_ack, AckEntry}
use hwphonelink.Transfer.State.{
  notify_result, none_acked, tx_wait_done, tx_sending, tx_wait_confirm_req, failed, tx_done, Step,
  Output, Conn, Trans, TransFile, Io, Phase,
}
use hwphonelink.Transfer.Common.{
  trans_fail, transfer_done, shutdown, header_confirm, update_file, transfer_done_ack, find_file,
  send_if,
}
use hwphonelink.Prelude.{
  ◌^◌, ◌%◌, ◌*◌, ltb, ◌+◌, ◌++◌, ◌||◌, leb, not, ◌==◌, if◌then◌else◌, ◌&&◌, ◌∷◌, Bool, ℕ, List, [],
  some, none, false, true,
}

abbrev pub ids_of : List TransFile → List ℕ
ids_of [] = []
ids_of (f ∷ fs) = f.file_id ∷ ids_of fs

-- A list of ids, encoded in a buffer for 500 of them and sent.
unfoldable pub send_ids : Io → ℕ → ℕ → List ℕ → Bool × List Output
unfolding send_if
send_ids io type trans_id ids =
    send_if io (encode_idlist io.old_buf (header_len + 2 * max_file_num) type 0 trans_id ids)

abbrev pub is_tx_done : Phase → Bool
is_tx_done tx_done = true
is_tx_done _ = false

abbrev pub is_failed : Phase → Bool
is_failed failed = true
is_failed _ = false

-- `tx_finish`, where `t` is the transfer that `c` sends.
unfoldable pub tx_finish : Io → Trans → Conn → Step
unfolding send_ids
tx_finish io t c =
    let sent = send_ids io transfer_done_ack t.trans_id (ids_of t.files) in
    if t.doneack_sent || is_tx_done t.phase || is_failed t.phase
    then (c, [])
    else if sent.0
    then (
      record c { tx = some (record t { doneack_sent = true; phase = tx_done }) },
      sent.1 ++ (notify_result true true ∷ []),
    )
    else trans_fail true false io c

-- `tx_finish` once DONE was received and all is acknowledged.
unfoldable pub finish_if_done : Io → Trans → Conn → Step
unfolding tx_finish
finish_if_done io t c =
    if t.done_received && all_acked t.files
    then tx_finish io t (record c { tx = some t })
    else (record c { tx = some t }, [])

unfoldable pub confirm_files : List ℕ → List TransFile → List TransFile
confirm_files [] fs = fs
confirm_files (id ∷ ids) fs =
    confirm_files ids (elim (find_file id fs) [
      | none ↦ fs
      | some f ↦ update_file (record f { confirmed = true }) fs
    ])

unfoldable pub all_confirmed_files : List TransFile → Bool
all_confirmed_files [] = true
all_confirmed_files (f ∷ fs) = f.confirmed && all_confirmed_files fs

abbrev pub is_waiting_confirm : Phase → Bool
is_waiting_confirm tx_wait_confirm_req = true
is_waiting_confirm _ = false

-- The transfer after a HEADER_CONFIRM or TRANSFER_REQ with the ids: it is armed once both came.
unfoldable pub tx_ctrl : ℕ → ℕ → List ℕ → Trans → Trans
unfolding confirm_files
tx_ctrl now type ids t =
    let files = confirm_files ids t.files in
    let u : Trans =
      if type == header_confirm
      then record t { files = files; all_confirmed = all_confirmed_files files; last_ctrl_ms = now }
      else record t { req_received = true; last_ctrl_ms = now } in
    if u.all_confirmed && u.req_received then record u { phase = tx_sending } else u

-- `handle_tx_ctrl`.
unfoldable pub handle_tx_ctrl : Io → ℕ → Conn → List ℕ → Step
unfolding tx_ctrl
handle_tx_ctrl io type c frame = elim c.tx [
  | none ↦ (c, [])
  | some t ↦ if not (is_waiting_confirm t.phase) then (c, []) else elim (decode_idlist frame type) [
    | none ↦ shutdown io c
    | some m ↦
        if not (m.trans_id == t.trans_id)
        then shutdown io c
        else (record c { tx = some (tx_ctrl io.now type m.ids t) }, [])
  ]
]

-- The blocks up to `last_seq` leave the front of the list of those to send again.
unfoldable pub drop_upto : ℕ → List ℕ → List ℕ
drop_upto last_seq [] = []
drop_upto last_seq (seq ∷ rest) = if leb seq last_seq then drop_upto last_seq rest else seq ∷ rest

-- What an entry does to its file.
unfoldable pub ack_file : ℕ → TransFile → TransFile
unfolding drop_upto
ack_file last_seq f =
    if f.last_acked == none_acked || ltb f.last_acked last_seq
    then record f {
      last_acked = last_seq;
      retrans = drop_upto last_seq f.retrans;
      acked_all =
          f.acked_all || (f.total_blocks == 0 || leb f.total_blocks ((last_seq + 1) % 2 ^ 32));
    }
    else f

-- The loop of `handle_ack` over the entries.
unfoldable pub ack_files : List AckEntry → List TransFile → List TransFile
unfolding ack_file
ack_files [] fs = fs
ack_files (e ∷ es) fs = ack_files es (elim (find_file e.file_id fs) [
  | none ↦ fs
  | some f ↦ if e.last_seq == none_acked then fs else update_file (ack_file e.last_seq f) fs
])

abbrev pub is_pumping : Phase → Bool
is_pumping tx_sending = true
is_pumping tx_wait_done = true
is_pumping _ = false

-- `handle_ack`.
unfoldable pub handle_ack : Io → Conn → List ℕ → Step
unfolding ack_files finish_if_done
handle_ack io c frame = elim c.tx [
  | none ↦ (c, [])
  | some t ↦ if not (is_pumping t.phase) then (c, []) else elim (decode_ack frame) [
    | none ↦ shutdown io c
    | some m ↦
        if not (m.trans_id == t.trans_id)
        then shutdown io c
        else finish_if_done io
            (record t { last_ack_ms = io.now; files = ack_files m.entries t.files }) c
  ]
]

abbrev pub is_sending : Phase → Bool
is_sending tx_sending = true
is_sending _ = false

-- `handle_done`.
unfoldable pub handle_done : Io → Conn → List ℕ → Step
unfolding finish_if_done
handle_done io c frame = elim c.tx [
  | none ↦ (c, [])
  | some t ↦
      if is_failed t.phase || is_tx_done t.phase
      then (c, [])
      else elim (decode_idlist frame transfer_done) [
        | none ↦ shutdown io c
        | some m ↦
            let u = record t {
              done_received = true;
              phase = if is_sending t.phase then tx_wait_done else t.phase;
            } in
            if not (m.trans_id == t.trans_id) then shutdown io c else finish_if_done io u c
      ]
]
