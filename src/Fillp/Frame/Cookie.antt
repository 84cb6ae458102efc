-- ===== src/Fillp/Frame/Cookie.antt =====
-- The handshake cookie and the 28-byte address field of src/proto/fillp_frame.c.
--
-- `hmac key data` stands for the 32-byte digest that OpenSSL's HMAC-SHA256 computes through
-- softbus_hmac_sha256 of src/proto/softbus_crypto.c, for the case that OpenSSL reports no error.
use Prim.Native.Nat.{bit_or, bit_xor}
use hwphonelink.Prelude.{
  ℕ, zero, suc, Bool, List, [], ◌∷◌, ◌++◌, ◌==◌, copy, skip, replicate, put_u16, put_u32, put_u64,
}
use hwphonelink.Fillp.Frame.{addr_len}

-- `fillp_addr_fill_ipv4`: family AF_INET (2), port, address, twenty zero bytes.
unfoldable pub addr_fill_ipv4 : ℕ → List ℕ → List ℕ
addr_fill_ipv4 port ipv4 = put_u16 2 ++ (put_u16 port ++ (copy 4 ipv4 ++ replicate 20 0))

-- The arguments of `fillp_cookie_fill` but the key and the local address.
pub record CookieFields : Type 0 where
  pub gen_time_us : ℕ
  pub life_time_us : ℕ
  pub local_pkt_seq : ℕ
  pub local_msg_seq : ℕ
  pub remote_pkt_seq : ℕ
  pub remote_msg_seq : ℕ
  pub remote_send_cache : ℕ
  pub remote_recv_cache : ℕ
  pub src_port : ℕ
  pub addr_type : ℕ
  pub remote_addr : List ℕ

-- `cookie[32..108)`, as `fillp_cookie_fill` stores it.
unfoldable pub cookie_body : CookieFields → List ℕ
cookie_body c =
    put_u64 c.gen_time_us
    ++ (replicate 8 0
        ++ (put_u32 c.life_time_us
            ++ (put_u32 c.local_pkt_seq
                ++ (put_u32 c.remote_pkt_seq
                    ++ (put_u32 c.local_msg_seq
                        ++ (put_u32 c.remote_msg_seq
                            ++ (put_u32 c.remote_send_cache
                                ++ (put_u32 c.remote_recv_cache
                                    ++ (put_u16 c.src_port
                                        ++ (put_u16 c.addr_type
                                            ++ copy addr_len c.remote_addr))))))))))

-- `acc |= cookie[i] ^ digest[i]` for the next `n` bytes.
unfoldable pub diff_bits : ℕ → List ℕ → List ℕ → ℕ → ℕ
diff_bits zero a b acc = acc
diff_bits (suc n) [] b acc = acc
diff_bits (suc n) (x ∷ a) [] acc = acc
diff_bits (suc n) (x ∷ a) (y ∷ b) acc = diff_bits n a b (bit_or acc (bit_xor x y))

module _ (hmac : List ℕ → List ℕ → List ℕ) where
  -- `cookie_hmac`: the digest of `cookie[32..108) || localAddr[28]`.
  unfoldable pub cookie_hmac : List ℕ → List ℕ → List ℕ → List ℕ
  cookie_hmac cookie local_addr mac_key =
      hmac (copy 32 mac_key) (copy 76 (skip 32 cookie) ++ copy addr_len local_addr)

  -- `fillp_cookie_fill`: key, fields, local address. The digest is computed while `cookie[0..32)`
  -- is still zero, and is then stored there.
  unfoldable pub cookie_fill : List ℕ → CookieFields → List ℕ → List ℕ
  unfolding cookie_hmac
  cookie_fill mac_key c local_addr =
      let zeroed = replicate 32 0 ++ cookie_body c in
      cookie_hmac zeroed local_addr mac_key ++ cookie_body c

  -- `fillp_cookie_verify`.
  unfoldable pub cookie_verify : List ℕ → List ℕ → List ℕ → Bool
  unfolding cookie_hmac
  cookie_verify cookie mac_key local_addr =
      diff_bits 32 cookie (cookie_hmac cookie local_addr mac_key) 0 == 0
