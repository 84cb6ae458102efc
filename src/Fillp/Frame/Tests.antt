-- ===== src/Fillp/Frame/Tests.antt =====
-- Runs of the frame codec of src/proto/fillp_frame.c.
use hwphonelink.Fillp.Frame.Authentic.{cookie_verify_iff}
use hwphonelink.Fillp.Frame.Cookie.{cookie_hmac, CookieFields, cookie_verify}
use hwphonelink.Fillp.Frame.{length, ℕ}
use hwphonelink.Fillp.Frame.Acks.{Pack, Nack}
use hwphonelink.Fillp.Frame.Handshake.{ConnConfirmAck, ConnConfirm, ConnReqAck, ConnReq}
use hwphonelink.Prelude.{
  ◌%◌, copy, ◌+◌, ◌↔◌, arith, ◌≡◌, AllBytes, byte_at, ◌∷◌, replicate, List, [], true, refl,
}

abbrev req : ConnReq
req = record {
  cookie_preserve_time_us = 10000000;
  send_cache = 262144;
  recv_cache = 1048576;
  timestamp_us = 1234567890123;
}

abbrev req_ack : ConnReqAck
req_ack = record { tag_cookie = 7; cookie = replicate 108 9; timestamp_us = 1000 }

abbrev confirm : ConnConfirm
confirm = record { tag_cookie = 7; cookie = replicate 108 9; local_addr = replicate 28 3 }

abbrev confirm_ack : ConnConfirmAck
confirm_ack = record {
  send_cache = 5;
  recv_cache = 6;
  pkt_size = 1400;
  local_addr = replicate 28 3;
}

abbrev nack : Nack
nack = record { begin_pkt = 4; end_pkt = 0; seq_num = 900 }

abbrev pack : Pack
pack = record { ack_seq = 1; ack_pkt = 2; lost_seq = 3; rcv_list_bytes = 4 }

-- A digest that depends on the key and on the data.
digest : List ℕ → List ℕ → List ℕ
digest key bytes = (byte_at key 0 + byte_at bytes 0) % 256 ∷ replicate 31 7

digest_32 : (k d : List ℕ) → length (digest k d) ≡ 32
unfolding digest
digest_32 k d = refl

digest-AllBytes : (k d : List ℕ) → AllBytes (digest k d)
unfolding digest
digest-AllBytes k d = ground arith

abbrev cookie : List ℕ
cookie = replicate 108 9

cookie_verify_iff_example :
    (cookie_verify digest cookie (1 ∷ 2 ∷ []) (replicate 28 3) ≡ true)
    ↔ (copy 32 cookie ≡ cookie_hmac digest cookie (replicate 28 3) (1 ∷ 2 ∷ []))
cookie_verify_iff_example =
    cookie_verify_iff digest digest_32 digest-AllBytes cookie (1 ∷ 2 ∷ []) (replicate 28 3)
      (ground arith) refl

abbrev fields : CookieFields
fields = record {
  gen_time_us = 100;
  life_time_us = 200;
  local_pkt_seq = 1;
  local_msg_seq = 2;
  remote_pkt_seq = 3;
  remote_msg_seq = 4;
  remote_send_cache = 5;
  remote_recv_cache = 6;
  src_port = 7;
  addr_type = 2;
  remote_addr = replicate 28 1;
}
