-- ===== src/Transfer/Arrival.antt =====
-- A whole file from `tx_pump` to the receiver of src/proto/dfile_conn.c.
use native.Mathlib.Nat.{mod-eq_of_lt, div-lt_iff_lt-mul, lt-div-mul-add}
use hwphonelink.Transfer.Delivery.{delivered_block, deliver}
use hwphonelink.Transfer.Common.{find_file}
use hwphonelink.Transfer.Blocks.{block_of_asked, block_of}
use hwphonelink.Transfer.Engine.{handle_frame, max_block}
use hwphonelink.Transfer.Delivery.{IsReceiving}
use hwphonelink.Dfile.Header.{max_size}
use hwphonelink.Transfer.Sender.{blocks}
use hwphonelink.Dfile.Encode.{encode_data}
use hwphonelink.Transfer.State.{Trans, TransFile, Conn, Io}
use hwphonelink.Transfer.Pump.{
  advance, block_flag, block_len, send_failed, went_out, read_failed, pump_new, Sending, send_block,
  send_encoded,
}
use hwphonelink.Prelude.{
  ltb→lt, ltb, Bool-cases, sym, ◌∙◌, ◌+◌, ap, ◌*◌, ◌∷◌, ◌-◌, drop, take, ◌^◌, ◌⊎◌, arith, ◌≤◌, ◌≢◌,
  Option, length, ◌<◌, ◌≡◌, ℕ, List, [], inr, inl, some, none, true, refl, suc, zero,
}

send_encoded_lem :
    (io : Io) (o : Option (List ℕ)) (frame : List ℕ)
    → send_encoded io o ≡ went_out frame
    → o ≡ some frame
unfolding send_encoded
send_encoded_lem io o frame e = ground (arith, e)

not_read : (frame : List ℕ) → read_failed ≢ went_out frame
not_read frame e = ground (arith, e)

-- What `pread` gives of a file of that content, where it may fail.
send_block_lem :
    (io : Io) (block_size trans_id : ℕ) (f : TransFile) (content : List ℕ) (seq flag : ℕ)
    (frame : List ℕ)
    → ((off len : ℕ)
        → (io.read f.file_id off len ≡ none)
          ⊎ (io.read f.file_id off len ≡ some (take len (drop off content))))
    → f.size ≡ length content
    → send_block io block_size trans_id f seq flag ≡ went_out frame
    → encode_data io.old_buf
        (max_size + 16)
        trans_id
        flag
        f.file_id
        seq
        (block_of block_size content seq)
      ≡ some frame
unfolding send_block
send_block_lem io block_size trans_id f content seq flag frame reads z e =
    let block = block_of block_size content seq in
    let asked : take (block_len block_size f seq) (drop (seq * block_size) content) ≡ block =
      rw z (block_of_asked block_size content seq) in
    elim (reads (seq * block_size) (block_len block_size f seq)) [
      | inl h ↦
          let fails : send_block io block_size trans_id f seq flag ≡ read_failed =
            rw (h, send_block) refl in
          absurd (not_read frame (sym fails ∙ e))
      | inr h ↦
          let blk = h ∙ ap some asked in
          let sends : send_block io block_size trans_id f seq flag
              ≡ send_encoded io
                  (encode_data io.old_buf (max_size + 16) trans_id flag f.file_id seq block) =
            rw (blk, send_block) refl in
          send_encoded_lem io _ frame (sym sends ∙ e)
    ]

Sending-cases :
    (s : Sending)
    → ((frame : List ℕ) × (s ≡ went_out frame)) ⊎ ((s ≡ read_failed) ⊎ (s ≡ send_failed))
Sending-cases (went_out frame) = inl (frame, refl)
Sending-cases read_failed = inr (inl refl)
Sending-cases send_failed = inr (inr refl)

pump_new-delivers :
    (budget : ℕ) (io peer : Io) (block_size trans_id last : ℕ) (f : TransFile) (content : List ℕ)
    (c : Conn)
    → ((off len : ℕ)
        → (io.read f.file_id off len ≡ none)
          ⊎ (io.read f.file_id off len ≡ some (take len (drop off content))))
    → ((id off : ℕ) (bytes : List ℕ) → peer.can_write id off bytes ≡ true)
    → f.size ≡ length content
    → block_size ≤ max_block
    → trans_id < 2 ^ 16
    → f.file_id < 2 ^ 16
    → f.total_blocks < 2 ^ 32
    → IsReceiving block_size trans_id f.file_id f.total_blocks content f.next_seq c
    → let p = pump_new budget io block_size trans_id last f in
      IsReceiving block_size trans_id f.file_id f.total_blocks content p.file.next_seq
        (deliver peer p.out c)
unfolding pump_new deliver
pump_new-delivers zero io peer block_size trans_id last f content c reads writes z hz ht hf hn r = r
pump_new-delivers (suc budget) io peer block_size trans_id last f content c reads writes z hz ht hf
      hn r =
    elim (Bool-cases (ltb f.next_seq f.total_blocks)) [
      | inr e ↦ rw (e, pump_new) r
      | inl e ↦
          elim (Sending-cases
            (send_block io block_size trans_id f f.next_seq (block_flag f f.next_seq))) [
              | inr (inl h) ↦ rw (e, h, pump_new) r
              | inr (inr h) ↦ rw (e, h, pump_new) r
              | inl (frame, h) ↦
                  let encoded =
                    send_block_lem io block_size trans_id f content f.next_seq
                      (block_flag f f.next_seq) frame reads z h in
                  let next =
                    delivered_block peer io.old_buf block_size trans_id (block_flag f f.next_seq) f
                      content f.next_seq c frame writes hz ht hf hn
                      (ltb→lt f.next_seq f.total_blocks e) encoded r in
                  rw (e, h, pump_new)
                    (pump_new-delivers budget io peer block_size trans_id last (advance f) content
                      (handle_frame peer c frame).0 reads writes z hz ht hf hn next)
            ]
    ]

-- The blocks of a file are enough for its bytes, unless their number wraps.
blocks_enough :
    (size block_size : ℕ)
    → 0 < block_size
    → size ≤ (2 ^ 32 - 1) * block_size
    → size ≤ blocks size block_size * block_size
blocks_enough size block_size hp hs =
    let n = size + block_size - 1 in
    let small : n < 2 ^ 32 * block_size = omega arith in
    let narrow = mod-eq_of_lt ((div-lt_iff_lt-mul hp).1 small) in
    let enough = lt-div-mul-add {a = n} hp in rw narrow (omega (arith, enough))

take_long : (n : ℕ) (xs : List ℕ) → length xs ≤ n → take n xs ≡ xs
take_long zero [] h = refl
take_long zero (x ∷ xs) h = absurd (omega arith)
take_long (suc n) [] h = refl
take_long (suc n) (x ∷ xs) h = ap (λ zs. x ∷ zs) (take_long n xs (omega arith))

-- A receiver that has all blocks has the file.
received_all :
    (block_size trans_id id total : ℕ) (content : List ℕ) (c : Conn)
    → 0 < block_size
    → length content ≤ (2 ^ 32 - 1) * block_size
    → total ≡ blocks (length content) block_size
    → (r : IsReceiving block_size trans_id id total content total c) → r.file.hashed ≡ content
received_all block_size trans_id id total content c hp hl ht r =
    r.prefix
    ∙ take_long (total * block_size) content
        (rw ht (blocks_enough (length content) block_size hp hl))

-- If the sender's loop over the new blocks of a file puts out the last one, then the receiver that
-- handles the frames of this loop in their order, and had the blocks before them, has hashed
-- exactly the bytes of the file. The sender's reads may fail, but give the file's bytes otherwise;
-- the receiver's writes succeed; the block size is from 1 to 14706, the number of blocks does not
-- wrap, and the ids have 16 bits.
pub pump_new-delivers_all :
    (budget : ℕ) (io peer : Io) (block_size trans_id last : ℕ) (f : TransFile) (content : List ℕ)
    (c : Conn)
    → ((off len : ℕ)
        → (io.read f.file_id off len ≡ none)
          ⊎ (io.read f.file_id off len ≡ some (take len (drop off content))))
    → ((id off : ℕ) (bytes : List ℕ) → peer.can_write id off bytes ≡ true)
    → f.size ≡ length content
    → f.total_blocks ≡ blocks f.size block_size
    → 0 < block_size
    → block_size ≤ max_block
    → length content ≤ (2 ^ 32 - 1) * block_size
    → trans_id < 2 ^ 16
    → f.file_id < 2 ^ 16
    → IsReceiving block_size trans_id f.file_id f.total_blocks content f.next_seq c
    → (pump_new budget io block_size trans_id last f).file.next_seq ≡ f.total_blocks
    → (t : Trans) × (g : TransFile) × ((deliver peer
          (pump_new budget io block_size trans_id last f).out
          c).rx
        ≡ some t)
      × (find_file f.file_id t.files ≡ some g)
      × (g.hashed ≡ content)
pump_new-delivers_all budget io peer block_size trans_id last f content c reads writes z hb hp hz hl
      ht hf r done =
    let bounded : f.total_blocks < 2 ^ 32 = rw hb (omega arith) in
    let after =
      pump_new-delivers budget io peer block_size trans_id last f content c reads writes z hz ht hf
        bounded r in
    let final = rw done at after in
    (
      final.trans,
      final.file,
      final.receives_trans,
      final.found,
      received_all block_size trans_id f.file_id f.total_blocks content _ hp hl (rw (sym z) hb)
          final,
    )
