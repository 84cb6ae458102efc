-- ===== src/Transfer/Samples.antt =====
-- States and answers of the system for the small runs of the model of src/proto/dfile_conn.c.
use hwphonelink.Transfer.State.{ready, Conn, Trans, none_acked, Phase, TransFile, Io}
use hwphonelink.Prelude.{drop, take, Option, ◌∷◌, Bool, ℕ, List, [], some, none, false, true}

abbrev pub content : List ℕ
content = 10 ∷ 11 ∷ 12 ∷ 13 ∷ 14 ∷ []

abbrev pub io_at : ℕ → Io
io_at now = record {
  now = now;
  old_buf = [];
  can_send = λ frame. true;
  read = λ id off len. some (take len (drop off content));
  can_write = λ id off bytes. true;
  can_create = λ e. true;
  sha_matches = λ bytes hex. true;
}

abbrev pub file_new : ℕ → TransFile
file_new id = record {
  file_id = id;
  size = 5;
  name = [];
  total_blocks = 3;
  next_seq = 0;
  retrans = [];
  last_acked = none_acked;
  acked_all = false;
  confirmed = false;
  expected_seq = 0;
  write_complete = false;
  hashed = [];
  expected_sha = none;
}

abbrev pub trans_at : Bool → Phase → List TransFile → Trans
trans_at is_sender phase files = record {
  is_sender = is_sender;
  trans_id = 7;
  phase = phase;
  files = files;
  node_number = 0;
  hdr = [];
  t0_ms = 0;
  last_ctrl_ms = 0;
  ctrl_retries = 0;
  last_ack_ms = 0;
  last_retran_ms = 0;
  req_received = false;
  all_confirmed = false;
  done_received = false;
  doneack_sent = false;
  ack_pending = false;
  done_sent = false;
}

abbrev pub conn_at : ℕ → Option Trans → Option Trans → Conn
conn_at block_size tx rx = record {
  state = ready;
  t_connect_ms = 0;
  rxbuf = [];
  local_setting_sent = true;
  negotiated = true;
  block_size = block_size;
  tx = tx;
  rx = rx;
  next_trans_id = 1;
  has_recv_dir = true;
}
