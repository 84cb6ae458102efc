-- ===== src/Fillp/Frame/Acks.antt =====
-- The data-plane control messages of src/proto/fillp_frame.c: NACK, PACK and FIN.
use hwphonelink.Prelude.{
  ℕ, ◌+◌, ◌-◌, ◌%◌, ◌^◌, Option, none, some, List, ◌++◌, ltb, ◌==◌, not, if◌then◌else◌, length,
  drop, put_u16, put_u32, put_u64, get_u16, get_u32,
}
use hwphonelink.Fillp.Frame.{hlen, pkt_pack, pkt_fin, encode_head, Head, decode_head}

abbrev pub nack_len : ℕ
nack_len = 12

abbrev pub pack_len : ℕ
pack_len = 46

abbrev pub fin_len : ℕ
fin_len = 2

-- What `fillp_decode_nack` stores: "retransmit (begin, end)".
pub record Nack : Type 0 where
  pub begin_pkt : ℕ
  pub end_pkt : ℕ
  pub seq_num : ℕ

-- The bytes that `fillp_encode_nack` stores. `end_pkt - 1` wraps.
unfoldable pub nack_bytes : ℕ → Nack → ℕ → List ℕ
nack_bytes type m random_num =
    encode_head type 0 nack_len m.begin_pkt m.seq_num
    ++ (put_u32 ((m.end_pkt + 2 ^ 32 - 1) % 2 ^ 32) ++ put_u64 random_num)

-- `fillp_encode_nack`: capacity, packet type, message, random number.
unfoldable pub encode_nack : ℕ → ℕ → Nack → ℕ → Option (List ℕ)
unfolding nack_bytes
encode_nack cap type m random_num =
    if ltb cap (hlen + nack_len) then none else some (nack_bytes type m random_num)

nack_of : Head → ℕ → Nack
nack_of h last_payload = record {
  begin_pkt = h.pkt_num;
  end_pkt = (last_payload + 1) % 2 ^ 32;
  seq_num = h.seq_num;
}

-- `fillp_decode_nack`.
unfoldable pub decode_nack : List ℕ → Option Nack
unfolding nack_of
decode_nack buf = if not (length buf == hlen + nack_len) then none else elim (decode_head buf) [
  | none ↦ none
  | some h ↦ some (nack_of h (get_u32 (drop hlen buf)))
]

-- What `fillp_decode_pack` stores.
pub record Pack : Type 0 where
  pub ack_seq : ℕ
  pub ack_pkt : ℕ
  pub lost_seq : ℕ
  pub rcv_list_bytes : ℕ

-- The bytes that `fillp_encode_pack` stores.
unfoldable pub pack_bytes : Pack → List ℕ
pack_bytes m =
    encode_head pkt_pack 0 pack_len m.ack_pkt m.ack_seq
    ++ (put_u16 0  -- flag
        ++ (put_u16 0  -- pktLoss
            ++ (put_u32 0  -- rate
                ++ (put_u32 0  -- oppositeSetRate
                    ++ (put_u32 m.lost_seq
                        ++ (put_u32 0  -- reserved
                            ++ (put_u32 0  -- bgnPktNum
                                ++ (put_u32 0  -- endPktNum
                                    ++ (put_u16 0  -- optsOffset
                                        ++ (put_u32 m.rcv_list_bytes
                                            ++ (put_u32 0  -- owdPktSendTs
                                                ++ (put_u32 0  -- owdPackDelay
                                                    ++ put_u32 0))))))))))))  -- queueingDelay

-- `fillp_encode_pack`.
unfoldable pub encode_pack : ℕ → Pack → Option (List ℕ)
unfolding pack_bytes
encode_pack cap m = if ltb cap (hlen + pack_len) then none else some (pack_bytes m)

pack_of : Head → List ℕ → Pack
pack_of h p = record {
  ack_seq = h.seq_num;
  ack_pkt = h.pkt_num;
  lost_seq = get_u32 (drop 12 p);
  rcv_list_bytes = get_u32 (drop 30 p);
}

-- `fillp_decode_pack`.
unfoldable pub decode_pack : List ℕ → Option Pack
unfolding pack_of
decode_pack buf =
    if ltb (length buf) (hlen + pack_len)
    then none
    else elim (decode_head buf) [ none ↦ none | some h ↦ some (pack_of h (drop hlen buf)) ]

-- `fillp_encode_fin`.
unfoldable pub encode_fin : ℕ → ℕ → Option (List ℕ)
encode_fin cap flag =
    if ltb cap (hlen + fin_len)
    then none
    else some (encode_head pkt_fin 0 fin_len 0 0 ++ put_u16 flag)

-- `fillp_decode_fin`.
unfoldable pub decode_fin : List ℕ → Option ℕ
decode_fin buf = if not (length buf == hlen + fin_len) then none else some (get_u16 (drop hlen buf))
