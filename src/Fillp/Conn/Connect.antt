-- ===== src/Fillp/Conn/Connect.antt =====
-- The handshake of src/proto/fillp_conn.c from end to end: four datagrams that arrive in order
-- establish both peers.
use hwphonelink.Fillp.Frame.Authentic.{cookie_verify-cookie_fill}
use hwphonelink.Fillp.Conn.Close.{peer_established}
use hwphonelink.Fillp.Frame.Cookie.{
  addr_fill_ipv4, CookieFields, cookie_verify, cookie_body, cookie_hmac, cookie_fill,
}
use hwphonelink.Fillp.Frame.Handshake.{
  encode_conn_req, conn_confirm_len, conn_confirm_ack_len, conn_confirm_ack_bytes, ConnConfirmAck,
  ConnConfirm, encode_conn_confirm_ack, conn_req_ack_len, conn_req_len, conn_confirm_bytes,
  conn_req_ack_bytes, conn_req_bytes, ConnReqAck, encode_conn_confirm, encode_conn_req_ack, ConnReq,
}
use hwphonelink.Fillp.Conn.Engine.{Draws, dispatch, handle_datagram}
use hwphonelink.Fillp.Conn.Handshake.{
  resend_conn_req, engine_connect, handle_conn_confirm_ack, handle_conn_confirm, req_cookie,
  handle_conn_req_ack, send_conn_req_ack, handle_conn_req, Randoms, Server,
}
use hwphonelink.Fillp.Frame.RoundTrip.{
  decode-conn_confirm_bytes, decode-conn_confirm_ack_bytes, FitsConnConfirmAck, FitsConnConfirm,
  decode-conn_req_ack_bytes, decode-conn_req_bytes, FitsConnReqAck, FitsConnReq,
  decode_head-encode_head,
}
use hwphonelink.Fillp.Frame.{
  Head, pkt_conn_confirm, pkt_conn_confirm_ack, cookie_len, addr_len, pkt_conn_req_ack,
  pkt_conn_req, decode_head,
}
use hwphonelink.Fillp.Conn.State.{
  client_preserve_us, pkt_data_max, recv_cache_bytes, notify_established, send_cache_bytes,
  established, pending, send, peer_new, Peer,
}
use hwphonelink.Prelude.{
  ◌∙◌, replicate, length-append, skip, copy-all, copy, put_u64, refl, put_u32, put_u16, ◌∷◌, ◌/◌,
  arith, AllBytes, ◌++◌, ◌≡◌, ◌^◌, length, ◌<◌, List, ℕ, [], some, none, false, true,
}

-- The head of a handshake message.
abbrev mgmt_head : ℕ → ℕ → Head
mgmt_head type len = record { pkt_type = type; flags = 0; data_len = len; pkt_num = 0; seq_num = 0 }

head-conn_req :
    (m : ConnReq) → decode_head (conn_req_bytes m) ≡ some (mgmt_head pkt_conn_req conn_req_len)
unfolding conn_req_bytes
head-conn_req m =
    decode_head-encode_head pkt_conn_req 0 conn_req_len 0 0 _ (omega arith) (omega arith)
      (omega arith) (omega arith) (omega arith)

head-conn_req_ack :
    (m : ConnReqAck)
    → decode_head (conn_req_ack_bytes m) ≡ some (mgmt_head pkt_conn_req_ack conn_req_ack_len)
unfolding conn_req_ack_bytes
head-conn_req_ack m =
    decode_head-encode_head pkt_conn_req_ack 0 conn_req_ack_len 0 0 _ (omega arith) (omega arith)
      (omega arith) (omega arith) (omega arith)

head-conn_confirm :
    (m : ConnConfirm)
    → decode_head (conn_confirm_bytes m) ≡ some (mgmt_head pkt_conn_confirm conn_confirm_len)
unfolding conn_confirm_bytes
head-conn_confirm m =
    decode_head-encode_head pkt_conn_confirm 0 conn_confirm_len 0 0 _ (omega arith) (omega arith)
      (omega arith) (omega arith) (omega arith)

head-conn_confirm_ack :
    (m : ConnConfirmAck)
    → decode_head (conn_confirm_ack_bytes m)
      ≡ some (mgmt_head pkt_conn_confirm_ack conn_confirm_ack_len)
unfolding conn_confirm_ack_bytes
head-conn_confirm_ack m =
    decode_head-encode_head pkt_conn_confirm_ack 0 conn_confirm_ack_len 0 0 _ (omega arith)
      (omega arith) (omega arith) (omega arith) (omega arith)

-- The states of the two ends and the datagrams of one handshake.
pub record Exchange : Type 0 where
  pub client0 : Peer
  pub req : List ℕ
  pub server1 : Peer
  pub req_ack : List ℕ
  pub client1 : Peer
  pub confirm : List ℕ
  pub server2 : Peer
  pub confirm_ack : List ℕ
  pub client2 : Peer

length-cookie_body :
    (c : CookieFields) → length c.remote_addr ≡ addr_len → length (cookie_body c) ≡ 76
unfolding cookie_body put_u16 put_u32 put_u64
length-cookie_body c h = rw (copy-all addr_len c.remote_addr h) (omega (arith, h))

length-addr_fill :
    (port : ℕ) (ip : List ℕ) → length ip ≡ 4 → length (addr_fill_ipv4 port ip) ≡ addr_len
unfolding addr_fill_ipv4 put_u16
length-addr_fill port ip h = rw (copy-all 4 ip h) (omega (arith, length-append ip (replicate 20 0)))

module _ (hmac : List ℕ → List ℕ → List ℕ) (digest_len : (k d : List ℕ) → length (hmac k d) ≡ 32)
    (digest_bytes : (k d : List ℕ) → AllBytes (hmac k d)) where
  unfoldable pub new_server : Server → ℕ → Randoms → List ℕ → ℕ → ConnReq → Peer
  new_server e now_us rnd ip port m = record (peer_new false (now_us / 1000)) {
    cookie = cookie_fill hmac e.mac_key (req_cookie e now_us rnd ip port m) e.local_addr;
  }

  server_answers :
      (e : Server) (now_us : ℕ) (d : Draws) (ip : List ℕ) (port : ℕ) (m : ConnReq)
      → FitsConnReq m
      → handle_datagram hmac e now_us d ip port none (conn_req_bytes m) ≡ (
        some (new_server e now_us d.cookie_seqs ip port m),
        send (
              conn_req_ack_bytes (record {
                tag_cookie = 1;
                cookie = (new_server e now_us d.cookie_seqs ip port m).cookie;
                timestamp_us = now_us;
              }))
            ∷ [],
      )
  unfolding handle_datagram handle_conn_req send_conn_req_ack new_server encode_conn_req_ack
  server_answers e now_us d ip port m f = ground (arith, head-conn_req m, decode-conn_req_bytes m f)

  client_confirms :
      (e : Server) (now_us : ℕ) (d : Draws) (ip : List ℕ) (port : ℕ) (p : Peer) (m : ConnReqAck)
      → FitsConnReqAck m
      → p.state ≡ pending
      → p.is_client ≡ true
      → handle_datagram hmac e now_us d ip port (some p) (conn_req_ack_bytes m) ≡ (
        some (record p {
          cookie = m.cookie;
          hs_tag = m.tag_cookie;
          hs_confirm_sent = true;
          t_stage_ms = now_us / 1000;
        }),
        send (
              conn_confirm_bytes (record {
                tag_cookie = m.tag_cookie;
                cookie = m.cookie;
                local_addr = e.local_addr;
              }))
            ∷ [],
      )
  unfolding handle_datagram dispatch handle_conn_req_ack encode_conn_confirm
  client_confirms e now_us d ip port p m f s c =
      ground (arith, head-conn_req_ack m, decode-conn_req_ack_bytes m f)

  server_establishes :
      (e : Server) (now_us : ℕ) (d : Draws) (ip : List ℕ) (port : ℕ) (p : Peer) (m : ConnConfirm)
      → FitsConnConfirm m
      → p.state ≡ pending
      → p.is_client ≡ false
      → cookie_verify hmac m.cookie e.mac_key e.local_addr ≡ true
      → handle_datagram hmac e now_us d ip port (some p) (conn_confirm_bytes m) ≡ (
        some (record p { state = established; t_stage_ms = now_us / 1000 }),
        send (
              conn_confirm_ack_bytes (record {
                send_cache = send_cache_bytes;
                recv_cache = recv_cache_bytes;
                pkt_size = pkt_data_max;
                local_addr = e.local_addr;
              }))
            ∷ notify_established
            ∷ [],
      )
  unfolding handle_datagram dispatch handle_conn_confirm encode_conn_confirm_ack peer_established
  server_establishes e now_us d ip port p m f s c v =
      ground (arith, head-conn_confirm m, decode-conn_confirm_bytes m f)

  client_establishes :
      (e : Server) (now_us : ℕ) (d : Draws) (ip : List ℕ) (port : ℕ) (p : Peer) (m : ConnConfirmAck)
      → FitsConnConfirmAck m
      → p.state ≡ pending
      → p.is_client ≡ true
      → handle_datagram hmac e now_us d ip port (some p) (conn_confirm_ack_bytes m) ≡ (
        some (record p { state = established; t_stage_ms = now_us / 1000 }),
        notify_established ∷ [],
      )
  unfolding handle_datagram dispatch handle_conn_confirm_ack peer_established
  client_establishes e now_us d ip port p m f s c =
      ground (arith, head-conn_confirm_ack m, decode-conn_confirm_ack_bytes m f)

  length-cookie_fill :
      (mac_key : List ℕ) (c : CookieFields) (local_addr : List ℕ)
      → length c.remote_addr ≡ addr_len
      → length (cookie_fill hmac mac_key c local_addr) ≡ cookie_len
  unfolding cookie_fill cookie_hmac
  length-cookie_fill mac_key c local_addr h =
      let digest =
        hmac (copy 32 mac_key)
          (copy 76 (skip 32 (replicate 32 0 ++ cookie_body c)) ++ copy addr_len local_addr) in
      length-append digest (cookie_body c)
      ∙ omega (
        arith,
        length-cookie_body c h,
        digest_len (copy 32 mac_key)
            (copy 76 (skip 32 (replicate 32 0 ++ cookie_body c)) ++ copy addr_len local_addr),
      )

  -- A client's first datagram and the three answers, each delivered once, establish both peers: the
  -- server on the third datagram, the client on the fourth. The clock stays below 2 ^ 64, addresses
  -- have their lengths, and the digest has 32 bytes.
  pub handshake-establishes :
      (server client : Server) (t0 t1 t2 t3 t4 : ℕ) (d : Draws) (server_ip client_ip : List ℕ)
      (server_port client_port : ℕ)
      → t0 < 2 ^ 64
      → t1 < 2 ^ 64
      → length client_ip ≡ 4
      → length server.local_addr ≡ addr_len
      → length client.local_addr ≡ addr_len
      → (x : Exchange) × (engine_connect false t0 ≡ some (x.client0, send x.req ∷ []))
        × (handle_datagram hmac server t1 d client_ip client_port none x.req
            ≡ (some x.server1, send x.req_ack ∷ []))
        × (handle_datagram hmac client t2 d server_ip server_port (some x.client0) x.req_ack
            ≡ (some x.client1, send x.confirm ∷ []))
        × (handle_datagram hmac server t3 d client_ip client_port (some x.server1) x.confirm
            ≡ (some x.server2, send x.confirm_ack ∷ notify_established ∷ []))
        × (handle_datagram hmac client t4 d server_ip server_port (some x.client1) x.confirm_ack
            ≡ (some x.client2, notify_established ∷ []))
        × (x.server2.state ≡ established)
        × (x.client2.state ≡ established)
  unfolding new_server
  handshake-establishes server client t0 t1 t2 t3 t4 d server_ip client_ip server_port client_port
        h0 h1 hip hs hc =
      let req : ConnReq = record {
        cookie_preserve_time_us = client_preserve_us;
        send_cache = send_cache_bytes;
        recv_cache = recv_cache_bytes;
        timestamp_us = t0;
      } in
      let p0 : Peer = record (peer_new true (t0 / 1000)) {
        req_preserve_us = client_preserve_us;
        req_send_cache = send_cache_bytes;
        req_recv_cache = recv_cache_bytes;
        req_ts = t0;
      } in
      let fields = req_cookie server t1 d.cookie_seqs client_ip client_port req in
      let s1 = new_server server t1 d.cookie_seqs client_ip client_port req in
      let cookie = cookie_fill hmac server.mac_key fields server.local_addr in
      let ack : ConnReqAck = record { tag_cookie = 1; cookie = cookie; timestamp_us = t1 } in
      let p1 : Peer = record p0 {
        cookie = cookie;
        hs_tag = 1;
        hs_confirm_sent = true;
        t_stage_ms = t2 / 1000;
      } in
      let conf : ConnConfirm = record {
        tag_cookie = 1;
        cookie = cookie;
        local_addr = client.local_addr;
      } in
      let s2 : Peer = record s1 { state = established; t_stage_ms = t3 / 1000 } in
      let conf_ack : ConnConfirmAck = record {
        send_cache = send_cache_bytes;
        recv_cache = recv_cache_bytes;
        pkt_size = pkt_data_max;
        local_addr = server.local_addr;
      } in
      let p2 : Peer = record p1 { state = established; t_stage_ms = t4 / 1000 } in
      let len : length cookie ≡ cookie_len =
        length-cookie_fill server.mac_key fields server.local_addr
          (unfold req_cookie in length-addr_fill client_port client_ip hip) in
      (
        record {
          client0 = p0;
          req = conn_req_bytes req;
          server1 = s1;
          req_ack = conn_req_ack_bytes ack;
          client1 = p1;
          confirm = conn_confirm_bytes conf;
          server2 = s2;
          confirm_ack = conn_confirm_ack_bytes conf_ack;
          client2 = p2;
        },
        unfold engine_connect resend_conn_req encode_conn_req peer_new in refl,
        server_answers server t1 d client_ip client_port req (omega arith),
        client_confirms client t2 d server_ip server_port p0 ack
            (record { tag = omega arith; cookie = len; timestamp = h1 }) (unfold peer_new in refl)
            (unfold peer_new in refl),
        server_establishes server t3 d client_ip client_port s1 conf
            (record { tag = omega arith; cookie = len; addr = hc })
            (unfold new_server peer_new in refl) (unfold new_server peer_new in refl)
            (cookie_verify-cookie_fill hmac digest_len digest_bytes server.mac_key fields
              server.local_addr),
        client_establishes client t4 d server_ip server_port p1 conf_ack
            (record { send = omega arith; recv = omega arith; size = omega arith; addr = hs })
            (unfold peer_new in refl) (unfold peer_new in refl),
        refl,
        refl,
      )
