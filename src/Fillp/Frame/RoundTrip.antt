-- ===== src/Fillp/Frame/RoundTrip.antt =====
-- Decoding what src/proto/fillp_frame.c encodes: heads, handshake messages and acknowledgements.
use hwphonelink.Prelude.{
  [], skip-append, copy-append, copy-all, ℕ, ◌+◌, ◌^◌, ◌≤◌, ◌<◌, ◌≡◌, refl, arith, some, List, ◌++◌,
  length, length-append, put_u16, put_u32, put_u64, get_u16, get_u32, get_u64, length-put_u64,
  get_u64-put_u64,
}
use mathlib.Core.List.{append-nil}
use hwphonelink.Fillp.Frame.{hlen, cookie_len, addr_len, encode_head, decode_head}
use hwphonelink.Fillp.Frame.Handshake.{
  ConnReq, conn_req_bytes, conn_req_ack_bytes, conn_confirm_bytes, conn_confirm_ack_bytes,
  conn_req_len, encode_conn_req, decode_conn_req, ConnReqAck, conn_req_ack_len, encode_conn_req_ack,
  decode_conn_req_ack, ConnConfirm, conn_confirm_len, encode_conn_confirm, decode_conn_confirm,
  ConnConfirmAck, conn_confirm_ack_len, encode_conn_confirm_ack, decode_conn_confirm_ack,
}
use hwphonelink.Fillp.Frame.Acks.{
  Nack, nack_bytes, pack_bytes, nack_len, encode_nack, decode_nack, Pack, pack_len, encode_pack,
  decode_pack,
}

-- A head whose fields fit their widths is read back, whatever payload follows it.
pub decode_head-encode_head :
    (type extra data_len pkt_num seq_num : ℕ) (rest : List ℕ)
    → type < 2 ^ 4
    → extra < 2 ^ 8
    → data_len < 2 ^ 16
    → pkt_num < 2 ^ 32
    → seq_num < 2 ^ 32
    → decode_head (encode_head type extra data_len pkt_num seq_num ++ rest)
      ≡ some (record {
        pkt_type = type;
        flags = extra;
        data_len = data_len;
        pkt_num = pkt_num;
        seq_num = seq_num;
      })
unfolding decode_head encode_head put_u16 put_u32 get_u16 get_u32
decode_head-encode_head type extra data_len pkt_num seq_num rest ht he hd hp hs = ground arith

-- What the fields of a message must satisfy to fit the wire: integers their widths, byte fields
-- their lengths.
pub record FitsConnReq (m : ConnReq) : Type 0 where
  pub preserve : m.cookie_preserve_time_us < 2 ^ 32
  pub send : m.send_cache < 2 ^ 32
  pub recv : m.recv_cache < 2 ^ 32
  pub timestamp : m.timestamp_us < 2 ^ 64

pub record FitsConnReqAck (m : ConnReqAck) : Type 0 where
  pub tag : m.tag_cookie < 2 ^ 16
  pub cookie : length m.cookie ≡ cookie_len
  pub timestamp : m.timestamp_us < 2 ^ 64

pub record FitsConnConfirm (m : ConnConfirm) : Type 0 where
  pub tag : m.tag_cookie < 2 ^ 16
  pub cookie : length m.cookie ≡ cookie_len
  pub addr : length m.local_addr ≡ addr_len

pub record FitsConnConfirmAck (m : ConnConfirmAck) : Type 0 where
  pub send : m.send_cache < 2 ^ 32
  pub recv : m.recv_cache < 2 ^ 32
  pub size : m.pkt_size < 2 ^ 32
  pub addr : length m.local_addr ≡ addr_len

pub decode-conn_req_bytes :
    (m : ConnReq) → FitsConnReq m → decode_conn_req (conn_req_bytes m) ≡ some m
unfolding conn_req_bytes decode_conn_req encode_head put_u16 put_u32 get_u16 get_u32 put_u64 get_u64
decode-conn_req_bytes m h = ground arith

-- A CONN_REQ datagram with integers of their widths has 32 bytes, fits a buffer of that size, and
-- decodes to the message.
pub conn_req-roundtrip :
    (cap : ℕ) (m : ConnReq)
    → hlen + conn_req_len ≤ cap
    → FitsConnReq m
    → (buf : List ℕ) × (encode_conn_req cap m ≡ some buf)
      × (length buf ≡ hlen + conn_req_len)
      × (decode_conn_req buf ≡ some m)
unfolding encode_conn_req conn_req_bytes encode_head put_u16 put_u32 put_u64
conn_req-roundtrip cap m hc h = (conn_req_bytes m, ground arith, refl, decode-conn_req_bytes m h)

pub decode-conn_req_ack_bytes :
    (m : ConnReqAck) → FitsConnReqAck m → decode_conn_req_ack (conn_req_ack_bytes m) ≡ some m
unfolding conn_req_ack_bytes decode_conn_req_ack encode_head put_u16 put_u32 get_u16
decode-conn_req_ack_bytes m h =
    let ts = put_u64 m.timestamp_us in
    rw (copy-all 108 m.cookie h.cookie) (
      ground (
        arith,
        length-append m.cookie ts,
        copy-append 108 m.cookie ts h.cookie,
        skip-append 108 m.cookie ts h.cookie,
        append-nil ts,
        length-put_u64 m.timestamp_us,
        get_u64-put_u64 m.timestamp_us [],
      ))

-- A CONN_REQ_ACK datagram, for a cookie of 108 bytes and integers of their widths, fits a buffer of
-- 132 bytes and decodes to the message, its cookie included.
pub conn_req_ack-roundtrip :
    (cap : ℕ) (m : ConnReqAck)
    → hlen + conn_req_ack_len ≤ cap
    → FitsConnReqAck m
    → (buf : List ℕ) × (encode_conn_req_ack cap m ≡ some buf) × (decode_conn_req_ack buf ≡ some m)
unfolding encode_conn_req_ack
conn_req_ack-roundtrip cap m hc h =
    (conn_req_ack_bytes m, ground arith, decode-conn_req_ack_bytes m h)

pub decode-conn_confirm_bytes :
    (m : ConnConfirm) → FitsConnConfirm m → decode_conn_confirm (conn_confirm_bytes m) ≡ some m
unfolding conn_confirm_bytes decode_conn_confirm encode_head put_u16 put_u32 get_u16
decode-conn_confirm_bytes m h =
    rw (copy-all 108 m.cookie h.cookie, copy-all 28 m.local_addr h.addr)
      (ground (
        arith,
        length-append m.cookie m.local_addr,
        copy-append 108 m.cookie m.local_addr h.cookie,
        skip-append 108 m.cookie m.local_addr h.cookie,
        copy-all 28 m.local_addr h.addr,
      ))

-- A CONN_CONFIRM datagram, for a cookie of 108 and an address of 28 bytes and a tag of its width,
-- fits a buffer of 152 bytes and decodes to the message.
pub conn_confirm-roundtrip :
    (cap : ℕ) (m : ConnConfirm)
    → hlen + conn_confirm_len ≤ cap
    → FitsConnConfirm m
    → (buf : List ℕ) × (encode_conn_confirm cap m ≡ some buf) × (decode_conn_confirm buf ≡ some m)
unfolding encode_conn_confirm
conn_confirm-roundtrip cap m hc h =
    (conn_confirm_bytes m, ground arith, decode-conn_confirm_bytes m h)

pub decode-conn_confirm_ack_bytes :
    (m : ConnConfirmAck)
    → FitsConnConfirmAck m
    → decode_conn_confirm_ack (conn_confirm_ack_bytes m) ≡ some m
unfolding conn_confirm_ack_bytes decode_conn_confirm_ack encode_head put_u16 put_u32 get_u16 get_u32
decode-conn_confirm_ack_bytes m h =
    rw (copy-all 28 m.local_addr h.addr) (ground (arith, copy-all 28 m.local_addr h.addr))

-- A CONN_CONFIRM_ACK datagram, for an address of 28 bytes and integers of their widths, fits a
-- buffer of 52 bytes and decodes to the message.
pub conn_confirm_ack-roundtrip :
    (cap : ℕ) (m : ConnConfirmAck)
    → hlen + conn_confirm_ack_len ≤ cap
    → FitsConnConfirmAck m
    → (buf : List ℕ) × (encode_conn_confirm_ack cap m ≡ some buf)
      × (decode_conn_confirm_ack buf ≡ some m)
unfolding encode_conn_confirm_ack
conn_confirm_ack-roundtrip cap m hc h =
    (conn_confirm_ack_bytes m, ground arith, decode-conn_confirm_ack_bytes m h)

pub record FitsNack (m : Nack) : Type 0 where
  pub begin_fits : m.begin_pkt < 2 ^ 32
  pub end_fits : m.end_pkt < 2 ^ 32
  pub seq_fits : m.seq_num < 2 ^ 32

decode-nack_bytes :
    (type : ℕ) (m : Nack) (random_num : ℕ)
    → type < 2 ^ 4
    → FitsNack m
    → decode_nack (nack_bytes type m random_num) ≡ some m
unfolding nack_bytes decode_nack decode_head encode_head put_u16 put_u32 put_u64 get_u16 get_u32
decode-nack_bytes type m random_num ht h = ground arith

-- A NACK of either type with integers of their widths fits a buffer of 24 bytes and decodes to the
-- message, whatever the random number; `end_pkt = 0` makes the wire field wrap below zero and back.
pub nack-roundtrip :
    (cap type : ℕ) (m : Nack) (random_num : ℕ)
    → hlen + nack_len ≤ cap
    → type < 2 ^ 4
    → FitsNack m
    → (buf : List ℕ) × (encode_nack cap type m random_num ≡ some buf) × (decode_nack buf ≡ some m)
unfolding encode_nack
nack-roundtrip cap type m random_num hc ht h =
    (nack_bytes type m random_num, ground arith, decode-nack_bytes type m random_num ht h)

pub record FitsPack (m : Pack) : Type 0 where
  pub seq_fits : m.ack_seq < 2 ^ 32
  pub pkt_fits : m.ack_pkt < 2 ^ 32
  pub lost_fits : m.lost_seq < 2 ^ 32
  pub list_fits : m.rcv_list_bytes < 2 ^ 32

decode-pack_bytes : (m : Pack) → FitsPack m → decode_pack (pack_bytes m) ≡ some m
unfolding pack_bytes decode_pack decode_head encode_head put_u16 put_u32 get_u16 get_u32
decode-pack_bytes m h = ground arith

-- A PACK with integers of their widths fits a buffer of 58 bytes and decodes to the message.
pub pack-roundtrip :
    (cap : ℕ) (m : Pack)
    → hlen + pack_len ≤ cap
    → FitsPack m
    → (buf : List ℕ) × (encode_pack cap m ≡ some buf) × (decode_pack buf ≡ some m)
unfolding encode_pack
pack-roundtrip cap m hc h = (pack_bytes m, ground arith, decode-pack_bytes m h)
