-- ===== src/StreamFile/State.antt =====
-- `SFRxState`, `SFTxState` and `struct _StreamFile` of src/proto/stream_file.c, and `sf_fail`.
--
-- The outputs are the calls that leave the session: the callbacks `on_rx_meta` and `on_done` (a
-- session without them drops the call), the file calls on the receiving side, and the calls of the
-- FILLP peer. The texts of the messages are left out.
use hwphonelink.Prelude.{
  ◌∷◌, ◌++◌, if◌then◌else◌, ℕ, Bool, Option, List, [], some, none, false, true,
}

pub data RxState : Type 0 where
  sf_rx_wait sf_rx_data sf_rx_done sf_rx_failed : RxState

pub data TxState : Type 0 where
  sf_tx_idle sf_tx_active sf_tx_done sf_tx_failed : TxState

pub data SfOutput : Type 0 where
  rx_meta : List ℕ → ℕ → SfOutput
  sf_done : Bool → Bool → SfOutput
  truncate_file : List ℕ → SfOutput
  write_at : List ℕ → ℕ → SfOutput
  set_stream_cbs : SfOutput
  set_fill_func : SfOutput

-- The receiving half. `rx_fd` says whether the file is open, and `rx_sha` holds the bytes that went
-- into the checksum.
pub record Rx : Type 0 where
  pub recv_dir : Option (List ℕ)
  pub rx_state : RxState
  pub rx_total : ℕ
  pub rx_received : ℕ
  pub rx_name : List ℕ
  pub rx_path : Option (List ℕ)
  pub rx_expected_sha : Option (List ℕ)
  pub rx_fd : Bool
  pub rx_sha : Option (List ℕ)

-- The sending half. `tx_fd` says whether the file is open.
pub record Tx : Type 0 where
  pub tx_state : TxState
  pub tx_wire : List ℕ
  pub tx_fd : Bool
  pub tx_total : ℕ
  pub tx_offset : ℕ
  pub tx_meta_sent : Bool

pub record Halves : Type 0 where
  pub key : List ℕ
  pub rx : Rx
  pub tx : Tx

pub record StreamFile : Type 0 where
  pub closed : Bool
  pub rxbuf : List ℕ
  pub halves : Halves

-- Whether a failure is reported for the receiving half.
abbrev pub rx_expects : RxState → Option (List ℕ) → Bool
rx_expects sf_rx_wait none = false
rx_expects sf_rx_wait (some dir) = true
rx_expects sf_rx_data dir = true
rx_expects sf_rx_done dir = false
rx_expects sf_rx_failed dir = false

abbrev pub is_active : TxState → Bool
is_active sf_tx_active = true
is_active _ = false

unfoldable pub fail_rx : Rx → Rx × List SfOutput
fail_rx r =
    if rx_expects r.rx_state r.recv_dir
    then (record r { rx_state = sf_rx_failed }, sf_done false false ∷ [])
    else (r, [])

unfoldable pub fail_tx : Tx → Tx × List SfOutput
fail_tx t =
    if is_active t.tx_state
    then (record t { tx_state = sf_tx_failed }, sf_done true false ∷ [])
    else (t, [])

-- `sf_fail`.
unfoldable pub sf_fail : Halves → Halves × List SfOutput
unfolding fail_rx fail_tx
sf_fail c = (
  record c { rx = (fail_rx c.rx).0; tx = (fail_tx c.tx).0 },
  (fail_rx c.rx).1 ++ (fail_tx c.tx).1,
)

-- What the session calls: the cipher, the files and the checksum. `pwrite` gives `none` for -1, and
-- `pread` at an offset the bytes that it read, `none` for -1.
pub record SfIo : Type 0 where
  pub encrypt : List ℕ → List ℕ → List ℕ → Option (List ℕ × List ℕ)
  pub decrypt : List ℕ → List ℕ → List ℕ → List ℕ → Option (List ℕ)
  pub build_filename : List ℕ → List ℕ → List ℕ
  pub can_open : List ℕ → Bool
  pub pwrite : List ℕ → ℕ → Option ℕ
  pub pread : ℕ → ℕ → Option (List ℕ)
  pub sha256 : List ℕ → List ℕ
  pub get_contents : List ℕ → Option (List ℕ)

-- `SF_VTP_CHUNK`.
abbrev pub vtp_chunk : ℕ
vtp_chunk = 32768
