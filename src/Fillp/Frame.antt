-- ===== src/Fillp/Frame.antt =====
-- src/proto/fillp_frame.h and fillp_frame.c: the 12-byte head of a datagram and the wrap-around
-- comparison of packet numbers. The payloads are in the children.
--
-- An encoder is given the capacity of the caller's buffer and returns the bytes that it stores from
-- the buffer's start on, with `none` for the result -1. A decoder reads the list of `len` bytes and
-- returns all that it can store through its pointers, with `none` for FALSE.
pub mod Handshake
pub mod Acks
pub mod Cookie
pub mod RoundTrip
pub mod Authentic
mod Tests
use hwphonelink.Prelude.{
  ℕ, ◌+◌, ◌-◌, ◌*◌, ◌/◌, ◌%◌, ◌^◌, Bool, ◌&&◌, Option, none, some, List, ◌++◌, ltb, ◌==◌, not,
  if◌then◌else◌, length, drop, put_u16, put_u32, get_u16, get_u32,
}

abbrev pub hlen : ℕ
hlen = 12

abbrev pub cookie_len : ℕ
cookie_len = 108

abbrev pub addr_len : ℕ
addr_len = 28

-- `FpPktType`. The decoder casts any four bits to it, so a type is a number.
abbrev pub pkt_data : ℕ
pkt_data = 0x1

abbrev pub pkt_conn_req : ℕ
pkt_conn_req = 0x2

abbrev pub pkt_nack : ℕ
pkt_nack = 0x3

abbrev pub pkt_pack : ℕ
pkt_pack = 0x5

abbrev pub pkt_fin : ℕ
pkt_fin = 0x6

abbrev pub pkt_conn_req_ack : ℕ
pkt_conn_req_ack = 0xA

abbrev pub pkt_conn_confirm : ℕ
pkt_conn_confirm = 0xB

abbrev pub pkt_conn_confirm_ack : ℕ
pkt_conn_confirm_ack = 0xC

-- What `fillp_decode_head` stores.
pub record Head : Type 0 where
  pub pkt_type : ℕ
  pub flags : ℕ
  pub data_len : ℕ
  pub pkt_num : ℕ
  pub seq_num : ℕ

-- `fillp_encode_head`.
unfoldable pub encode_head : ℕ → ℕ → ℕ → ℕ → ℕ → List ℕ
encode_head type extra data_len pkt_num seq_num =
    put_u16 (type % 2 ^ 4 * 2 ^ 8 + extra % 2 ^ 8)
    ++ (put_u16 data_len ++ (put_u32 pkt_num ++ put_u32 seq_num))

-- `fillp_decode_head`.
unfoldable pub decode_head : List ℕ → Option Head
decode_head buf =
    let flag : ℕ = get_u16 buf in
    if ltb (length buf) hlen
    then none
    else if not (flag / 2 ^ 12 % 2 ^ 4 == 0)
    then none
    else some (record {
      pkt_type = flag / 2 ^ 8 % 2 ^ 4;
      flags = flag % 2 ^ 8;
      data_len = get_u16 (drop 2 buf);
      pkt_num = get_u32 (drop 4 buf);
      seq_num = get_u32 (drop 8 buf);
    })

-- `fp_num_isbigger`: the difference of two `guint32`, read as a `gint32`, is positive.
unfoldable pub num_isbigger : ℕ → ℕ → Bool
num_isbigger a b = let d = (a + 2 ^ 32 - b) % 2 ^ 32 in ltb 0 d && ltb d (2 ^ 31)
