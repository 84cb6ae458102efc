-- ===== src/Transfer/Progress.antt =====
-- The loop of `tx_pump` of src/proto/dfile_conn.c over the new blocks of a file, when nothing fails.
use hwphonelink.Dfile.Header.{max_size}
use hwphonelink.Dfile.RoundTrip.{data_sent}
use hwphonelink.Transfer.Arrival.{pump_new-delivers_all}
use hwphonelink.Transfer.Pump.{send_encoded, advance, block_flag, block_len}
use hwphonelink.Prelude.{ap, ◌∙◌, ltb→lt}
use hwphonelink.Transfer.Common.{find_file}
use hwphonelink.Transfer.Blocks.{block_of_asked, length-block_of, block_of}
use hwphonelink.Transfer.Engine.{max_block}
use hwphonelink.Transfer.Sender.{blocks}
use hwphonelink.Transfer.Pump.{went_out, send_block, pump_new}
use hwphonelink.Transfer.State.{Trans, Conn, TransFile, Io}
use hwphonelink.Prelude.{
  ltb, Bool-cases, ◌*◌, arith, ◌-◌, ◌+◌, ◌^◌, ◌<◌, ◌≤◌, length, drop, take, ◌≡◌, List, ℕ, inr, inl,
  some, true, refl, suc, zero,
}
use hwphonelink.Transfer.Delivery.{IsReceiving, deliver}

send_block_sent :
    (io : Io) (block_size trans_id : ℕ) (f : TransFile) (content : List ℕ) (seq flag : ℕ)
    → ((off len : ℕ) → io.read f.file_id off len ≡ some (take len (drop off content)))
    → ((frame : List ℕ) → io.can_send frame ≡ true)
    → f.size ≡ length content
    → block_size ≤ max_block
    → trans_id < 2 ^ 16
    → f.file_id < 2 ^ 16
    → seq < 2 ^ 32
    → (frame : List ℕ) × (send_block io block_size trans_id f seq flag ≡ went_out frame)
unfolding send_block
send_block_sent io block_size trans_id f content seq flag reads sends z hz ht hf hs =
    let block = block_of block_size content seq in
    let len = length-block_of block_size content seq in
    let asked : take (block_len block_size f seq) (drop (seq * block_size) content) ≡ block =
      rw z (block_of_asked block_size content seq) in
    let blk = reads (seq * block_size) (block_len block_size f seq) ∙ ap some asked in
    let (frame, h, encoded, unpacked, typed, decoded) =
      data_sent io.old_buf (max_size + 16) trans_id flag f.file_id seq block ht hf hs
        (omega (arith, len)) (omega (arith, len)) in
    (frame, rw (blk, send_block) (rw (encoded, send_encoded) (rw (sends frame) refl)))

pump_new-reaches :
    (budget : ℕ) (io : Io) (block_size trans_id last : ℕ) (f : TransFile) (content : List ℕ)
    → ((off len : ℕ) → io.read f.file_id off len ≡ some (take len (drop off content)))
    → ((frame : List ℕ) → io.can_send frame ≡ true)
    → f.size ≡ length content
    → block_size ≤ max_block
    → trans_id < 2 ^ 16
    → f.file_id < 2 ^ 16
    → f.total_blocks < 2 ^ 32
    → f.next_seq ≤ f.total_blocks
    → f.total_blocks ≤ f.next_seq + budget
    → (pump_new budget io block_size trans_id last f).file.next_seq ≡ f.total_blocks
unfolding pump_new
pump_new-reaches zero io block_size trans_id last f content reads sends z hz ht hf hn hl hb =
    omega arith
pump_new-reaches (suc budget) io block_size trans_id last f content reads sends z hz ht hf hn hl
      hb =
    elim (Bool-cases (ltb f.next_seq f.total_blocks)) [
      | inr e ↦ rw (e, pump_new) (ground (arith, e, hl))
      | inl e ↦
          let less = ltb→lt f.next_seq f.total_blocks e in
          let (frame, h) =
            send_block_sent io block_size trans_id f content f.next_seq (block_flag f f.next_seq)
              reads sends z hz ht hf (omega (arith, less)) in
          rw (e, h, pump_new)
            (pump_new-reaches budget io block_size trans_id last (advance f) content reads sends z
              hz ht hf hn (omega (arith, less)) (omega (arith, hb)))
    ]

-- If reads give the file's bytes and all sends and writes succeed, a budget of the blocks that are
-- left is enough for the sender's loop to put out all of them: the receiver that had the blocks
-- before, and handles the frames in their order, has then hashed exactly the bytes of the file. The
-- block size is from 1 to 14706, the number of blocks does not wrap, and the ids have 16 bits.
pub pump_new-completes :
    (budget : ℕ) (io peer : Io) (block_size trans_id last : ℕ) (f : TransFile) (content : List ℕ)
    (c : Conn)
    → ((off len : ℕ) → io.read f.file_id off len ≡ some (take len (drop off content)))
    → ((frame : List ℕ) → io.can_send frame ≡ true)
    → ((id off : ℕ) (bytes : List ℕ) → peer.can_write id off bytes ≡ true)
    → f.size ≡ length content
    → f.total_blocks ≡ blocks f.size block_size
    → 0 < block_size
    → block_size ≤ max_block
    → length content ≤ (2 ^ 32 - 1) * block_size
    → trans_id < 2 ^ 16
    → f.file_id < 2 ^ 16
    → f.next_seq ≤ f.total_blocks
    → f.total_blocks ≤ f.next_seq + budget
    → IsReceiving block_size trans_id f.file_id f.total_blocks content f.next_seq c
    → (t : Trans) × (g : TransFile) × ((deliver peer
          (pump_new budget io block_size trans_id last f).out
          c).rx
        ≡ some t)
      × (find_file f.file_id t.files ≡ some g)
      × (g.hashed ≡ content)
pump_new-completes budget io peer block_size trans_id last f content c reads sends writes z hb hp hz
      hl ht hf hn hd r =
    let bounded : f.total_blocks < 2 ^ 32 = rw hb (omega arith) in
    pump_new-delivers_all budget io peer block_size trans_id last f content c
      (λ off len. inr (reads off len)) writes z hb hp hz hl ht hf r
      (pump_new-reaches budget io block_size trans_id last f content reads sends z hz ht hf bounded
        hn hd)
