-- ===== src/Transfer/State.antt =====
-- The constants, `DCState`, `DCPhase`, `DCFile`, `DCTrans` and `struct _DFileConn` of
-- src/proto/dfile_conn.c.
--
-- Not in the model: the socket, the main loop with its sources and the thread; the texts that are
-- logged and handed to callbacks; callbacks that call back into the connection; the memory of
-- freed structures.
use hwphonelink.Dfile.Encode.{Entry}
use hwphonelink.Prelude.{some, Option, ◌++◌, List, Bool, ℕ, [], none, false, true}

abbrev pub negotiate_timeout_ms : ℕ
negotiate_timeout_ms = 5000

abbrev pub transfer_timeout_ms : ℕ
transfer_timeout_ms = 30000

abbrev pub ctrl_retry_interval_ms : ℕ
ctrl_retry_interval_ms = 3000

abbrev pub ctrl_max_retries : ℕ
ctrl_max_retries = 3

abbrev pub retran_interval_ms : ℕ
retran_interval_ms = 500

abbrev pub block_budget : ℕ
block_budget = 64

-- `DFILE_DEFAULT_FRAME_SIZE`, `DFILE_MIN_MTU_SIZE`, `DFILE_MAX_FILE_SIZE`.
abbrev pub default_frame_size : ℕ
default_frame_size = 1472

abbrev pub min_mtu_size : ℕ
min_mtu_size = 64

abbrev pub max_file_size : ℕ
max_file_size = 0x7FFFFFFFFF

-- `G_MAXUINT32`: no block is acknowledged.
abbrev pub none_acked : ℕ
none_acked = 0xFFFFFFFF

pub data ConnState : Type 0 where
  negotiating ready shut : ConnState

pub data Phase : Type 0 where
  idle tx_wait_confirm_req tx_sending tx_wait_done tx_done : Phase
  rx_wait_data rx_wait_doneack rx_done failed : Phase

-- `DCFile`. The descriptor, the path and the digest's state are the environment's (`Io`), but for
-- `hashed`, the bytes that went into the digest so far.
pub record TransFile : Type 0 where
  pub file_id : ℕ
  pub size : ℕ
  pub name : List ℕ
  pub total_blocks : ℕ
  pub next_seq : ℕ
  pub retrans : List ℕ
  pub last_acked : ℕ
  pub acked_all : Bool
  pub confirmed : Bool
  pub expected_seq : ℕ
  pub write_complete : Bool
  pub hashed : List ℕ
  pub expected_sha : Option (List ℕ)

-- `DCTrans`.
pub record Trans : Type 0 where
  pub is_sender : Bool
  pub trans_id : ℕ
  pub phase : Phase
  pub files : List TransFile
  pub node_number : ℕ
  pub hdr : List Entry
  pub t0_ms : ℕ
  pub last_ctrl_ms : ℕ
  pub ctrl_retries : ℕ
  pub last_ack_ms : ℕ
  pub last_retran_ms : ℕ
  pub req_received : Bool
  pub all_confirmed : Bool
  pub done_received : Bool
  pub doneack_sent : Bool
  pub ack_pending : Bool
  pub done_sent : Bool

-- `struct _DFileConn`; `has_recv_dir` says whether `recv_dir` is set.
pub record Conn : Type 0 where
  pub state : ConnState
  pub t_connect_ms : ℕ
  pub rxbuf : List ℕ
  pub local_setting_sent : Bool
  pub negotiated : Bool
  pub block_size : ℕ
  pub tx : Option Trans
  pub rx : Option Trans
  pub next_trans_id : ℕ
  pub has_recv_dir : Bool

-- What the system answers to the calls of one handler. `can_send` is the result of `dc_send` on a
-- frame, `read` what `pread` gives of a file when it gives all that was asked for, `can_write`
-- whether `pwrite` stores all, `can_create` whether a destination is opened and sized. `sha_matches`
-- compares the digest of bytes with the text in a file's name, as `g_ascii_strcasecmp` does.
-- `old_buf` is what a fresh frame buffer on the stack holds.
pub record Io : Type 0 where
  pub now : ℕ
  pub old_buf : List ℕ
  pub can_send : List ℕ → Bool
  pub read : ℕ → ℕ → ℕ → Option (List ℕ)
  pub can_write : ℕ → ℕ → List ℕ → Bool
  pub can_create : Entry → Bool
  pub sha_matches : List ℕ → List ℕ → Bool

-- What a handler does to the outside: frames sent, blocks written, callbacks fired.
pub data Output : Type 0 where
  send_frame : List ℕ → Output
  write_block : ℕ → ℕ → List ℕ → Output
  notify_negotiated : Output
  notify_file_list : List Entry → Output
  notify_result : Bool → Bool → Output
  notify_end : Output

abbrev pub Step : Type 0
Step = Conn × List Output

-- One step after another.
infixl 5 ◌then_do◌
abbrev pub ◌then_do◌ : Step → (Conn → Step) → Step
s then_do k = let r = k s.0 in (r.0, s.1 ++ r.1)

-- `dc_alloc`, at the time `now`.
unfoldable pub conn_new : ℕ → Conn
conn_new now = record {
  state = negotiating;
  t_connect_ms = now;
  rxbuf = [];
  local_setting_sent = false;
  negotiated = false;
  block_size = 0;
  tx = none;
  rx = none;
  next_trans_id = 1;
  has_recv_dir = false;
}

-- `trans_new`.
unfoldable pub trans_new : Bool → ℕ → ℕ → Trans
trans_new is_sender trans_id now = record {
  is_sender = is_sender;
  trans_id = trans_id;
  phase = idle;
  files = [];
  node_number = 0;
  hdr = [];
  t0_ms = now;
  last_ctrl_ms = now;
  ctrl_retries = 0;
  last_ack_ms = now;
  last_retran_ms = 0;
  req_received = false;
  all_confirmed = false;
  done_received = false;
  doneack_sent = false;
  ack_pending = false;
  done_sent = false;
}

-- The phases in which a transfer is over.
abbrev pub is_over : Phase → Bool
is_over failed = true
is_over tx_done = true
is_over rx_done = true
is_over _ = false

abbrev pub is_shut : ConnState → Bool
is_shut shut = true
is_shut _ = false

abbrev pub is_ready : ConnState → Bool
is_ready ready = true
is_ready _ = false

abbrev pub is_some {ℓ} : {A : Type ℓ} → Option A → Bool
is_some none = false
is_some (some a) = true
