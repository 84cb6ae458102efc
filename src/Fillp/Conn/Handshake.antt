-- ===== src/Fillp/Conn/Handshake.antt =====
-- The handshake handlers of src/proto/fillp_conn.c. The clock is in microseconds here, as
-- `g_get_monotonic_time` gives it; `fp_now_ms` is its thousandth.
use hwphonelink.Fillp.Frame.{hlen}
use hwphonelink.Fillp.Frame.Cookie.{addr_fill_ipv4, cookie_verify, cookie_fill, CookieFields}
use hwphonelink.Fillp.Conn.Close.{peer_request_close, peer_established}
use hwphonelink.Fillp.Frame.Handshake.{
  conn_confirm_ack_len, encode_conn_confirm_ack, decode_conn_confirm, conn_confirm_len,
  conn_req_len, conn_req_ack_len, decode_conn_confirm_ack, decode_conn_req_ack, encode_conn_confirm,
  encode_conn_req, encode_conn_req_ack, decode_conn_req, ConnReq,
}
use hwphonelink.Fillp.Conn.State.{
  client_preserve_us, pkt_data_max, recv_cache_bytes, send_cache_bytes, preserve_max_us,
  is_established, peer_new, is_pending, cookie_lifetime_us, emit, Effect, Peer,
}
use hwphonelink.Prelude.{
  Bool, ◌++◌, ◌^◌, ◌%◌, ◌/◌, ltb, ◌+◌, not, ◌||◌, if◌then◌else◌, Option, ℕ, List, [], some, none,
  false, true,
}

-- What the handlers read of `struct _FillpEngine`.
pub record Server : Type 0 where
  pub mac_key : List ℕ
  pub local_addr : List ℕ
  pub port : ℕ

-- `fp_send_conn_req_ack`.
unfoldable pub send_conn_req_ack : ℕ → Peer → List Effect
send_conn_req_ack now_us p = emit (
    encode_conn_req_ack (hlen + conn_req_ack_len)
      (record { tag_cookie = 1; cookie = p.cookie; timestamp_us = now_us }))

-- `fp_resend_conn_req`.
unfoldable pub resend_conn_req : Peer → List Effect
resend_conn_req p = emit (
    encode_conn_req (hlen + conn_req_len) (record {
      cookie_preserve_time_us = p.req_preserve_us;
      send_cache = p.req_send_cache;
      recv_cache = p.req_recv_cache;
      timestamp_us = p.req_ts;
    }))

-- `fp_resend_conn_confirm`.
unfoldable pub resend_conn_confirm : Server → Peer → List Effect
resend_conn_confirm e p = emit (
    encode_conn_confirm (hlen + conn_confirm_len)
      (record { tag_cookie = p.hs_tag; cookie = p.cookie; local_addr = e.local_addr }))

-- The two calls of `g_random_int` for a new peer.
pub record Randoms : Type 0 where
  pub pkt_seq : ℕ
  pub msg_seq : ℕ

-- The fields of the cookie that answers a CONN_REQ.
unfoldable pub req_cookie : Server → ℕ → Randoms → List ℕ → ℕ → ConnReq → CookieFields
req_cookie e now_us rnd from_ip from_port m = record {
  gen_time_us = now_us;
  life_time_us =
      cookie_lifetime_us
      + (if ltb preserve_max_us m.cookie_preserve_time_us
          then preserve_max_us
          else m.cookie_preserve_time_us);
  local_pkt_seq = rnd.pkt_seq;
  local_msg_seq = rnd.msg_seq;
  remote_pkt_seq = 0;
  remote_msg_seq = 0;
  remote_send_cache = m.send_cache;
  remote_recv_cache = m.recv_cache;
  src_port = e.port % 2 ^ 16;
  addr_type = 2;
  remote_addr = addr_fill_ipv4 from_port from_ip;
}

module _ (hmac : List ℕ → List ℕ → List ℕ) where
  -- `fp_handle_conn_req`: the peer that the table has for the sender afterwards, if any.
  unfoldable pub handle_conn_req :
      Server → ℕ → Randoms → List ℕ → ℕ → Option Peer → List ℕ → Option Peer × List Effect
  unfolding send_conn_req_ack
  handle_conn_req e now_us rnd from_ip from_port known buf = elim (decode_conn_req buf) [
    | none ↦ (known, [])
    | some m ↦ elim known [
      | some p ↦ (some p, if is_pending p.state then send_conn_req_ack now_us p else [])
      | none ↦
          let np = record (peer_new false (now_us / 1000)) {
            cookie =
                cookie_fill hmac e.mac_key (req_cookie e now_us rnd from_ip from_port m)
                  e.local_addr;
          } in
          (some np, send_conn_req_ack now_us np)
    ]
  ]

  -- `fp_handle_conn_confirm`, for a peer that the table has.
  unfoldable pub handle_conn_confirm : Server → ℕ → Peer → List ℕ → Peer × List Effect
  unfolding peer_established
  handle_conn_confirm e now p buf =
      if p.is_client || not (is_pending p.state || is_established p.state)
      then (p, [])
      else elim (decode_conn_confirm buf) [
        | none ↦ (p, [])
        | some m ↦
            if not (cookie_verify hmac m.cookie e.mac_key e.local_addr)
            then peer_request_close now p
            else let ack = emit (
                encode_conn_confirm_ack (hlen + conn_confirm_ack_len) (record {
                  send_cache = send_cache_bytes;
                  recv_cache = recv_cache_bytes;
                  pkt_size = pkt_data_max;
                  local_addr = e.local_addr;
                })) in
              if is_pending p.state
              then ((peer_established now p).0, ack ++ (peer_established now p).1)
              else (p, ack)
      ]

-- `fp_handle_conn_req_ack`, for a peer that the table has.
unfoldable pub handle_conn_req_ack : Server → ℕ → Peer → List ℕ → Peer × List Effect
handle_conn_req_ack e now p buf =
    if not (is_pending p.state) || not p.is_client
    then (p, [])
    else elim (decode_conn_req_ack buf) [
      | none ↦ (p, [])
      | some m ↦ (
        record p {
          cookie = m.cookie;
          hs_tag = m.tag_cookie;
          hs_confirm_sent = true;
          t_stage_ms = now;
        },
        emit (
            encode_conn_confirm (hlen + conn_confirm_len)
              (record { tag_cookie = m.tag_cookie; cookie = m.cookie; local_addr = e.local_addr })),
      )
    ]

-- `fp_handle_conn_confirm_ack`, for a peer that the table has.
unfoldable pub handle_conn_confirm_ack : ℕ → Peer → List ℕ → Peer × List Effect
handle_conn_confirm_ack now p buf =
    if not (is_pending p.state) || not p.is_client
    then (p, [])
    else elim (decode_conn_confirm_ack buf) [ none ↦ (p, []) | some m ↦ peer_established now p ]

-- `fillp_engine_connect` for a host that GLib reads as an IPv4 address; `is_down` says that the
-- engine is closing or its thread has ended. The client's first CONN_REQ goes out at once, with the
-- parameters that it keeps to resend it.
unfoldable pub engine_connect : Bool → ℕ → Option (Peer × List Effect)
engine_connect is_down now_us =
    let p = record (peer_new true (now_us / 1000)) {
      req_preserve_us = client_preserve_us;
      req_send_cache = send_cache_bytes;
      req_recv_cache = recv_cache_bytes;
      req_ts = now_us;
    } in
    if is_down then none else some (p, resend_conn_req p)
