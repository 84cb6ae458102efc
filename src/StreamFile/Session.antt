-- ===== src/StreamFile/Session.antt =====
-- The public functions of src/proto/stream_file.c. A NULL session is not modelled, and the callbacks
-- that `stream_file_set_callbacks` stores are those that take the outputs.
use hwphonelink.StreamFile.State.{
  sf_rx_failed, sf_tx_failed, sf_tx_done, sf_rx_done, set_fill_func, set_stream_cbs, sf_rx_data,
  sf_tx_active, sf_tx_idle, Tx, SfOutput, sf_rx_wait, TxState, RxState, StreamFile,
}
use hwphonelink.Prelude.{if◌then◌else◌, ◌∷◌, Bool, ℕ, Option, List, [], some, none, false, true}

-- `stream_file_new`.
unfoldable pub stream_file_new : List ℕ → StreamFile
stream_file_new key = record {
  closed = false;
  rxbuf = [];
  halves = record {
    key = key;
    rx = record {
      recv_dir = none;
      rx_state = sf_rx_wait;
      rx_total = 0;
      rx_received = 0;
      rx_name = [];
      rx_path = none;
      rx_expected_sha = none;
      rx_fd = false;
      rx_sha = none;
    };
    tx = record {
      tx_state = sf_tx_idle;
      tx_wire = [];
      tx_fd = false;
      tx_total = 0;
      tx_offset = 0;
      tx_meta_sent = false;
    };
  };
}

-- `stream_file_set_recv_dir`.
unfoldable pub set_recv_dir : Option (List ℕ) → StreamFile → StreamFile
set_recv_dir dir s = record s {
  halves = record s.halves { rx = record s.halves.rx { recv_dir = dir } };
}

-- `stream_file_attach`.
unfoldable pub attach : StreamFile → StreamFile × List SfOutput
attach s = if s.closed then (s, []) else (s, set_stream_cbs ∷ [])

-- The sending half of a file of `size` bytes that is to be sent as `wire_name`.
abbrev pub tx_started : ℕ → List ℕ → Tx
tx_started size wire_name = record {
  tx_state = sf_tx_active;
  tx_wire = wire_name;
  tx_fd = true;
  tx_total = size;
  tx_offset = 0;
  tx_meta_sent = false;
}

-- `stream_file_start_send`: `size` is what `stat` says of a regular file, `none` if it fails, and
-- `opened` is the result of `open`. The Boolean is the function's.
unfoldable pub start_send :
    Option ℕ → Bool → List ℕ → StreamFile → StreamFile × Bool × List SfOutput
start_send none opened wire_name s = (s, false, [])
start_send (some size) opened wire_name s =
    if s.closed then (s, false, []) else elim s.halves.tx.tx_state [
      | sf_tx_idle ↦
          if opened
          then (
            record s { halves = record s.halves { tx = tx_started size wire_name } },
            true,
            set_fill_func ∷ set_stream_cbs ∷ [],
          )
          else (s, false, [])
      | sf_tx_active ↦ (s, false, [])
      | sf_tx_done ↦ (s, false, [])
      | sf_tx_failed ↦ (s, false, [])
    ]

-- `stream_file_close`, before the memory goes.
unfoldable pub stream_file_close : StreamFile → StreamFile
stream_file_close s = record s { closed = true }

-- `stream_file_rx_state_name` and `stream_file_tx_state_name`.
unfoldable pub rx_state_name : RxState → List ℕ
rx_state_name sf_rx_wait = b'w' ∷ b'a' ∷ b'i' ∷ b't' ∷ b'-' ∷ b'm' ∷ b'e' ∷ b't' ∷ b'a' ∷ []
rx_state_name sf_rx_data = b'd' ∷ b'a' ∷ b't' ∷ b'a' ∷ []
rx_state_name sf_rx_done = b'd' ∷ b'o' ∷ b'n' ∷ b'e' ∷ []
rx_state_name sf_rx_failed = b'f' ∷ b'a' ∷ b'i' ∷ b'l' ∷ b'e' ∷ b'd' ∷ []

unfoldable pub tx_state_name : TxState → List ℕ
tx_state_name sf_tx_idle = b'i' ∷ b'd' ∷ b'l' ∷ b'e' ∷ []
tx_state_name sf_tx_active = b'a' ∷ b'c' ∷ b't' ∷ b'i' ∷ b'v' ∷ b'e' ∷ []
tx_state_name sf_tx_done = b'd' ∷ b'o' ∷ b'n' ∷ b'e' ∷ []
tx_state_name sf_tx_failed = b'f' ∷ b'a' ∷ b'i' ∷ b'l' ∷ b'e' ∷ b'd' ∷ []
