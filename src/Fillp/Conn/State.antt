-- ===== src/Fillp/Conn/State.antt =====
-- `FpState`, `FpPkt`, `struct _FillpPeer` and the tuning constants of src/proto/fillp_conn.c.
use hwphonelink.Fillp.Frame.{cookie_len}
use hwphonelink.Prelude.{replicate, ◌∷◌, ◌*◌, Option, List, Bool, ℕ, [], some, none, false, true}

abbrev pub pkt_data_max : ℕ
pkt_data_max = 1400

abbrev pub send_cache_bytes : ℕ
send_cache_bytes = 256 * 1024

abbrev pub recv_cache_bytes : ℕ
recv_cache_bytes = 1024 * 1024

abbrev pub ofo_max_bytes : ℕ
ofo_max_bytes = 2 * 1024 * 1024

abbrev pub txq_watermark : ℕ
txq_watermark = 64 * 1024

abbrev pub handshake_timeout_ms : ℕ
handshake_timeout_ms = 5000

abbrev pub hs_retrans_ms : ℕ
hs_retrans_ms = 500

abbrev pub close_timeout_ms : ℕ
close_timeout_ms = 2000

abbrev pub stall_timeout_ms : ℕ
stall_timeout_ms = 1000

abbrev pub nack_interval_ms : ℕ
nack_interval_ms = 20

abbrev pub pack_interval_ms : ℕ
pack_interval_ms = 10

abbrev pub pack_flush_bytes : ℕ
pack_flush_bytes = 65536

abbrev pub send_budget : ℕ
send_budget = 32

abbrev pub cookie_lifetime_us : ℕ
cookie_lifetime_us = 10 * 1000 * 1000

abbrev pub preserve_max_us : ℕ
preserve_max_us = 20 * 1000 * 1000

abbrev pub client_preserve_us : ℕ
client_preserve_us = 10 * 1000 * 1000

pub data PeerState : Type 0 where
  pending established closing closed : PeerState

-- `FpPkt`.
pub record Pkt : Type 0 where
  pub pkt_num : ℕ
  pub seq_num : ℕ
  pub len : ℕ
  pub t_sent_ms : ℕ
  pub bytes : List ℕ

-- `struct _FillpPeer`. Left out are the engine pointer, the socket address with its key (they are
-- the engine's table), and the callbacks; `has_fill_fn` says whether `fill_fn` is set.
pub record Peer : Type 0 where
  pub is_client : Bool
  pub state : PeerState
  pub cookie : List ℕ
  pub t_stage_ms : ℕ
  pub req_preserve_us : ℕ
  pub req_send_cache : ℕ
  pub req_recv_cache : ℕ
  pub req_ts : ℕ
  pub hs_tag : ℕ
  pub hs_confirm_sent : Bool
  pub t_hs_retrans_ms : ℕ
  pub send_pkt_num : ℕ
  pub send_seq_num : ℕ
  pub txq : List ℕ
  pub inflight : List Pkt
  pub inflight_bytes : ℕ
  pub fill_done : Bool
  pub tx_notified : Bool
  pub recv_pkt_num : ℕ
  pub recv_seq_num : ℕ
  pub ofo : List Pkt
  pub ofo_bytes : ℕ
  pub delivered_since_pack : ℕ
  pub t_last_pack_ms : ℕ
  pub t_last_nack_ms : ℕ
  pub has_fill_fn : Bool
  pub peer_fin : Bool
  pub pending_fin : Bool

-- What a handler does to the outside.
pub data Effect : Type 0 where
  send : List ℕ → Effect
  deliver : List ℕ → Effect
  notify_established : Effect
  notify_tx_complete : Effect
  notify_closed : Effect
  use_after_free : Effect

-- `fp_sendto` of what an encoder stored. The handlers' buffers have the encoder's size, so `none`
-- does not come up.
abbrev pub emit : Option (List ℕ) → List Effect
emit none = []
emit (some buf) = send buf ∷ []

-- `fp_peer_new`, at the time `now`.
unfoldable pub peer_new : Bool → ℕ → Peer
peer_new is_client now = record {
  is_client = is_client;
  state = pending;
  cookie = replicate cookie_len 0;
  t_stage_ms = now;
  req_preserve_us = 0;
  req_send_cache = 0;
  req_recv_cache = 0;
  req_ts = 0;
  hs_tag = 0;
  hs_confirm_sent = false;
  t_hs_retrans_ms = now;
  send_pkt_num = 0;
  send_seq_num = 0;
  txq = [];
  inflight = [];
  inflight_bytes = 0;
  fill_done = false;
  tx_notified = false;
  recv_pkt_num = 0;
  recv_seq_num = 0;
  ofo = [];
  ofo_bytes = 0;
  delivered_since_pack = 0;
  t_last_pack_ms = 0;
  t_last_nack_ms = 0;
  has_fill_fn = false;
  peer_fin = false;
  pending_fin = false;
}

abbrev pub is_pending : PeerState → Bool
is_pending pending = true
is_pending _ = false

abbrev pub is_established : PeerState → Bool
is_established established = true
is_established _ = false

abbrev pub is_closing : PeerState → Bool
is_closing closing = true
is_closing _ = false

abbrev pub is_closed : PeerState → Bool
is_closed closed = true
is_closed _ = false
