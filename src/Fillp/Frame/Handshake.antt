-- ===== src/Fillp/Frame/Handshake.antt =====
-- The handshake messages of src/proto/fillp_frame.c: CONN_REQ, CONN_REQ_ACK, CONN_CONFIRM and
-- CONN_CONFIRM_ACK, whole datagrams with their head.
use hwphonelink.Prelude.{
  ℕ, ◌+◌, Option, none, some, List, ◌++◌, ltb, ◌==◌, not, if◌then◌else◌, length, drop, copy, skip,
  put_u16, put_u32, put_u64, get_u16, get_u32, get_u64,
}
use hwphonelink.Fillp.Frame.{
  hlen, cookie_len, addr_len, pkt_conn_req, pkt_conn_req_ack, pkt_conn_confirm,
  pkt_conn_confirm_ack, encode_head,
}

abbrev pub conn_req_len : ℕ
conn_req_len = 20

abbrev pub conn_req_ack_len : ℕ
conn_req_ack_len = 120

abbrev pub conn_confirm_len : ℕ
conn_confirm_len = 140

abbrev pub conn_confirm_ack_len : ℕ
conn_confirm_ack_len = 40

pub record ConnReq : Type 0 where
  pub cookie_preserve_time_us : ℕ
  pub send_cache : ℕ
  pub recv_cache : ℕ
  pub timestamp_us : ℕ

-- The bytes that `fillp_encode_conn_req` stores.
unfoldable pub conn_req_bytes : ConnReq → List ℕ
conn_req_bytes m =
    encode_head pkt_conn_req 0 conn_req_len 0 0
    ++ (put_u32 m.cookie_preserve_time_us
        ++ (put_u32 m.send_cache ++ (put_u32 m.recv_cache ++ put_u64 m.timestamp_us)))

-- `fillp_encode_conn_req`, with the capacity first.
unfoldable pub encode_conn_req : ℕ → ConnReq → Option (List ℕ)
unfolding conn_req_bytes
encode_conn_req cap m = if ltb cap (hlen + conn_req_len) then none else some (conn_req_bytes m)

-- `fillp_decode_conn_req`.
unfoldable pub decode_conn_req : List ℕ → Option ConnReq
decode_conn_req buf =
    let p = drop hlen buf in
    if not (length buf == hlen + conn_req_len)
    then none
    else some (record {
      cookie_preserve_time_us = get_u32 p;
      send_cache = get_u32 (drop 4 p);
      recv_cache = get_u32 (drop 8 p);
      timestamp_us = get_u64 (drop 12 p);
    })

pub record ConnReqAck : Type 0 where
  pub tag_cookie : ℕ
  pub cookie : List ℕ
  pub timestamp_us : ℕ

-- The bytes that `fillp_encode_conn_req_ack` stores.
unfoldable pub conn_req_ack_bytes : ConnReqAck → List ℕ
conn_req_ack_bytes m =
    encode_head pkt_conn_req_ack 0 conn_req_ack_len 0 0
    ++ (put_u16 m.tag_cookie
        ++ (put_u16 cookie_len ++ (copy cookie_len m.cookie ++ put_u64 m.timestamp_us)))

-- `fillp_encode_conn_req_ack`.
unfoldable pub encode_conn_req_ack : ℕ → ConnReqAck → Option (List ℕ)
unfolding conn_req_ack_bytes
encode_conn_req_ack cap m =
    if ltb cap (hlen + conn_req_ack_len) then none else some (conn_req_ack_bytes m)

-- `fillp_decode_conn_req_ack`.
unfoldable pub decode_conn_req_ack : List ℕ → Option ConnReqAck
decode_conn_req_ack buf =
    let p = drop hlen buf in
    if not (length buf == hlen + conn_req_ack_len)
    then none
    else if not (get_u16 (drop 2 p) == cookie_len)
    then none
    else some (record {
      tag_cookie = get_u16 p;
      cookie = copy cookie_len (drop 4 p);
      timestamp_us = get_u64 (skip cookie_len (drop 4 p));
    })

pub record ConnConfirm : Type 0 where
  pub tag_cookie : ℕ
  pub cookie : List ℕ
  pub local_addr : List ℕ

-- The bytes that `fillp_encode_conn_confirm` stores.
unfoldable pub conn_confirm_bytes : ConnConfirm → List ℕ
conn_confirm_bytes m =
    encode_head pkt_conn_confirm 0 conn_confirm_len 0 0
    ++ (put_u16 m.tag_cookie
        ++ (put_u16 cookie_len ++ (copy cookie_len m.cookie ++ copy addr_len m.local_addr)))

-- `fillp_encode_conn_confirm`.
unfoldable pub encode_conn_confirm : ℕ → ConnConfirm → Option (List ℕ)
unfolding conn_confirm_bytes
encode_conn_confirm cap m =
    if ltb cap (hlen + conn_confirm_len) then none else some (conn_confirm_bytes m)

-- `fillp_decode_conn_confirm`.
unfoldable pub decode_conn_confirm : List ℕ → Option ConnConfirm
decode_conn_confirm buf =
    let p = drop hlen buf in
    if not (length buf == hlen + conn_confirm_len)
    then none
    else if not (get_u16 (drop 2 p) == cookie_len)
    then none
    else some (record {
      tag_cookie = get_u16 p;
      cookie = copy cookie_len (drop 4 p);
      local_addr = copy addr_len (skip cookie_len (drop 4 p));
    })

pub record ConnConfirmAck : Type 0 where
  pub send_cache : ℕ
  pub recv_cache : ℕ
  pub pkt_size : ℕ
  pub local_addr : List ℕ

-- The bytes that `fillp_encode_conn_confirm_ack` stores.
unfoldable pub conn_confirm_ack_bytes : ConnConfirmAck → List ℕ
conn_confirm_ack_bytes m =
    encode_head pkt_conn_confirm_ack 0 conn_confirm_ack_len 0 0
    ++ (put_u32 m.send_cache
        ++ (put_u32 m.recv_cache ++ (put_u32 m.pkt_size ++ copy addr_len m.local_addr)))

-- `fillp_encode_conn_confirm_ack`.
unfoldable pub encode_conn_confirm_ack : ℕ → ConnConfirmAck → Option (List ℕ)
unfolding conn_confirm_ack_bytes
encode_conn_confirm_ack cap m =
    if ltb cap (hlen + conn_confirm_ack_len) then none else some (conn_confirm_ack_bytes m)

-- `fillp_decode_conn_confirm_ack`.
unfoldable pub decode_conn_confirm_ack : List ℕ → Option ConnConfirmAck
decode_conn_confirm_ack buf =
    let p = drop hlen buf in
    if not (length buf == hlen + conn_confirm_ack_len)
    then none
    else some (record {
      send_cache = get_u32 p;
      recv_cache = get_u32 (drop 4 p);
      pkt_size = get_u32 (drop 8 p);
      local_addr = copy addr_len (drop 12 p);
    })
