-- ===== src/Fillp/Conn/LifecycleTests.antt =====
-- Runs of the handshake, the dispatch and the tick of src/proto/fillp_conn.c.
use hwphonelink.Fillp.Frame.Cookie.{cookie_hmac, diff_bits, cookie_verify}
use hwphonelink.Fillp.Conn.Close.{peer_established}
use hwphonelink.Fillp.Frame.{decode_head, encode_head, pkt_conn_confirm}
use hwphonelink.Fillp.Conn.Send.{Fill}
use hwphonelink.Fillp.Conn.Lifecycle.{
  dispatch-authentic, tick_peer-needs_fill, dispatch-allowed, tick_peer-ends, allowed,
}
use hwphonelink.Fillp.Frame.Handshake.{decode_conn_confirm, conn_confirm_bytes, ConnConfirm}
use hwphonelink.Fillp.Conn.State.{
  established, notify_established, close_timeout_ms, send, closing, peer_new, Peer,
}
use hwphonelink.Prelude.{sub64}
use hwphonelink.Fillp.Conn.Connect.{handshake-establishes, Exchange}
use hwphonelink.Fillp.Conn.Engine.{handle_datagram, dispatch, tick_peer, Draws}
use hwphonelink.Fillp.Conn.Handshake.{handle_conn_confirm, engine_connect, Server}
use hwphonelink.Prelude.{
  skip, copy, get_u32, get_u16, put_u32, put_u16, ◌%◌, ◌≤◌, arith, ◌+◌, ◌++◌, ◌∷◌, AllBytes, length,
  byte_at, ◌≡◌, replicate, ℕ, List, [], some, none, false, true, refl,
}

-- A digest that depends on the key and on the data.
digest : List ℕ → List ℕ → List ℕ
digest key bytes = (byte_at key 0 + byte_at bytes 0) % 256 ∷ replicate 31 7

digest_len : (k d : List ℕ) → length (digest k d) ≡ 32
unfolding digest
digest_len k d = refl

digest_bytes : (k d : List ℕ) → AllBytes (digest k d)
unfolding digest
digest_bytes k d = ground arith

abbrev server : Server
server = record { mac_key = replicate 32 5; local_addr = replicate 28 1; port = 7001 }

abbrev client : Server
client = record { mac_key = replicate 32 6; local_addr = replicate 28 2; port = 7002 }

abbrev d : Draws
d = record { cookie_seqs = record { pkt_seq = 11; msg_seq = 12 }; nack_number = 13 }

abbrev ip : List ℕ
ip = 10 ∷ 0 ∷ 0 ∷ 1 ∷ []

handshake-establishes_example :
    (x : Exchange) × (engine_connect false 1000 ≡ some (x.client0, send x.req ∷ []))
    × (handle_datagram digest server 2000 d ip 7002 none x.req
        ≡ (some x.server1, send x.req_ack ∷ []))
    × (handle_datagram digest client 3000 d ip 7001 (some x.client0) x.req_ack
        ≡ (some x.client1, send x.confirm ∷ []))
    × (handle_datagram digest server 4000 d ip 7002 (some x.server1) x.confirm
        ≡ (some x.server2, send x.confirm_ack ∷ notify_established ∷ []))
    × (handle_datagram digest client 5000 d ip 7001 (some x.client1) x.confirm_ack
        ≡ (some x.client2, notify_established ∷ []))
    × (x.server2.state ≡ established)
    × (x.client2.state ≡ established)
handshake-establishes_example =
    handshake-establishes digest digest_len digest_bytes server client 1000 2000 3000 4000 5000 d ip
      ip 7001 7002 (omega arith) (omega arith) refl refl refl

abbrev waiting : Peer
waiting = peer_new false 90

abbrev confirm : ConnConfirm
confirm = record {
  tag_cookie = 1;
  cookie = digest (replicate 32 5) (replicate 76 9) ++ replicate 76 9;
  local_addr = replicate 28 2;
}

dispatch-allowed_example :
    allowed waiting.state
      (dispatch digest server 200 d pkt_conn_confirm waiting (conn_confirm_bytes confirm)).0.state
    ≡ true
dispatch-allowed_example =
    dispatch-allowed digest server 200 d pkt_conn_confirm waiting (conn_confirm_bytes confirm)

dispatch-authentic_example :
    (pkt_conn_confirm ≡ pkt_conn_confirm)
    × (m : ConnConfirm) × (decode_conn_confirm (conn_confirm_bytes confirm) ≡ some m)
    × (cookie_verify digest m.cookie server.mac_key server.local_addr ≡ true)
unfolding peer_new dispatch handle_conn_confirm peer_established decode_conn_confirm
    conn_confirm_bytes encode_head decode_head put_u16 put_u32 get_u16 get_u32 copy skip
    cookie_verify cookie_hmac diff_bits digest
dispatch-authentic_example =
    dispatch-authentic digest server 200 d pkt_conn_confirm waiting (conn_confirm_bytes confirm)
      refl refl refl

abbrev idle : Fill
idle = record { queued = []; finished = true }

abbrev leaving : Peer
leaving = record waiting { state = closing; t_stage_ms = 1000; txq = 1 ∷ []; peer_fin = true }

tick_peer-ends_example : (tick_peer server 3000 idle leaving).1 ≡ true
tick_peer-ends_example = tick_peer-ends server 3000 idle leaving refl (omega arith) (omega arith)

tick_peer-needs_fill_example :
    (leaving.state ≡ closing) × (close_timeout_ms ≤ sub64 3000 leaving.t_stage_ms)
unfolding peer_new
tick_peer-needs_fill_example =
    tick_peer-needs_fill server 3000 idle leaving refl refl
      (tick_peer-ends server 3000 idle leaving refl (omega arith) (omega arith))
