-- ===== src/Transfer/Delivery.antt =====
-- A file on its way from `tx_pump` to `handle_data` of src/proto/dfile_conn.c.
-- The frames among the output of one side, handled by the other side in their order.
use hwphonelink.Dfile.RoundTrip.{data_sent}
use hwphonelink.Transfer.Blocks.{
  take-block_of, find_file-file_id, find_file-update_file, length-block_of, block_of,
}
use hwphonelink.Dfile.Encode.{encode_data}
use hwphonelink.Dfile.Decode.{decode_data, DataBlock}
use hwphonelink.Transfer.Pump.{block_len}
use hwphonelink.Transfer.Common.{update_file, find_file}
use hwphonelink.Dfile.Header.{max_size, file_data, header, header_unpack, FrameHeader}
use hwphonelink.Transfer.State.{
  notify_end, notify_negotiated, notify_result, notify_file_list, write_block, send_frame, Output,
  Conn, Trans, TransFile, Io,
}
use hwphonelink.Transfer.Receiver.{data_for, take_block, is_waiting_data, handle_data, data_block}
use hwphonelink.Transfer.Engine.{max_block, dispatch_frame, handle_frame}
use hwphonelink.Prelude.{
  ap, ◌∙◌, sym, ◌+◌, ◌^◌, ◌==◌, ltb, arith, ◌≤◌, leb, false, refl, suc, ◌*◌, take, length, ◌∷◌, ◌<◌,
  ◌≡◌, List, ℕ, [], some, true,
}

unfoldable pub deliver : Io → List Output → Conn → Conn
unfolding handle_frame
deliver io [] c = c
deliver io (send_frame frame ∷ os) c = deliver io os (handle_frame io c frame).0
deliver io (write_block id off bytes ∷ os) c = deliver io os c
deliver io (notify_negotiated ∷ os) c = deliver io os c
deliver io (notify_file_list es ∷ os) c = deliver io os c
deliver io (notify_result sender ok ∷ os) c = deliver io os c
deliver io (notify_end ∷ os) c = deliver io os c

-- The connection is receiving a file of that content, and has the blocks before `seq`.
pub record IsReceiving (block_size trans_id file_id total_blocks : ℕ) (content : List ℕ) (seq : ℕ)
    (c : Conn) : Type 0 where
  pub trans : Trans
  pub file : TransFile
  pub blocks_of : c.block_size ≡ block_size
  pub receives_trans : c.rx ≡ some trans
  pub waits : is_waiting_data trans.phase ≡ true
  pub same_trans : trans.trans_id ≡ trans_id
  pub found : find_file file_id trans.files ≡ some file
  pub next : file.expected_seq ≡ seq
  pub same_size : file.size ≡ length content
  pub same_blocks : file.total_blocks ≡ total_blocks
  pub prefix : file.hashed ≡ take (seq * block_size) content

-- The next block in order is written where it belongs, and goes to the digest.
data_block_next :
    (io : Io) (t : Trans) (c : Conn) (f : TransFile) (seq : ℕ) (payload : List ℕ)
    → seq < f.total_blocks
    → f.expected_seq ≡ seq
    → length payload ≡ block_len c.block_size f seq
    → io.can_write f.file_id (seq * c.block_size) payload ≡ true
    → data_block io t c f seq payload ≡ (
      record c {
        rx =
            some
              (record t { files = update_file (take_block payload f) t.files; ack_pending = true });
      },
      write_block f.file_id (seq * c.block_size) payload ∷ [],
    )
unfolding data_block
data_block_next io t c f seq payload hb he hl hw =
    let a : leb f.total_blocks seq ≡ false = ground arith in
    let b : ltb seq f.expected_seq ≡ false = ground arith in
    let d : ltb f.expected_seq seq ≡ false = ground arith in
    let l : (length payload == block_len c.block_size f seq) ≡ true = ground arith in
    rw (a, b, d, l, hw) refl

handle_frame_data :
    (io : Io) (c : Conn) (frame : List ℕ) (h : FrameHeader)
    → header_unpack frame ≡ header h
    → h.type ≡ file_data
    → handle_frame io c frame ≡ handle_data io c frame
unfolding handle_frame dispatch_frame
handle_frame_data io c frame h e t = rw (e, t, handle_frame) refl

handle_data_found :
    (io : Io) (c : Conn) (frame : List ℕ) (m : DataBlock) (t : Trans) (g : TransFile)
    → decode_data frame ≡ some m
    → c.rx ≡ some t
    → is_waiting_data t.phase ≡ true
    → m.trans_id ≡ t.trans_id
    → find_file m.file_id t.files ≡ some g
    → handle_data io c frame ≡ data_block io t c g m.block_seq m.payload
unfolding handle_data data_for
handle_data_found io c frame m t g e r w i f =
    let decoded : handle_data io c frame ≡ data_for io c m c.rx = rw (e, handle_data) refl in
    let same : (m.trans_id == t.trans_id) ≡ true = ground arith in
    decoded ∙ ap (data_for io c m) r ∙ rw (w, same, f, data_for) refl

some_injective {ℓ} : {A : Type ℓ} {a b : A} → some a ≡ some b → a ≡ b
some_injective e = cc

-- One block sent, one block received.
pub delivered_block :
    (io : Io) (out : List ℕ) (block_size trans_id flag : ℕ) (f : TransFile) (content : List ℕ)
    (seq : ℕ) (c : Conn) (frame : List ℕ)
    → ((id off : ℕ) (bytes : List ℕ) → io.can_write id off bytes ≡ true)
    → block_size ≤ max_block
    → trans_id < 2 ^ 16
    → f.file_id < 2 ^ 16
    → f.total_blocks < 2 ^ 32
    → seq < f.total_blocks
    → encode_data out (max_size + 16) trans_id flag f.file_id seq (block_of block_size content seq)
      ≡ some frame
    → IsReceiving block_size trans_id f.file_id f.total_blocks content seq c
    → IsReceiving block_size trans_id f.file_id f.total_blocks content
        (suc seq)
        (handle_frame io c frame).0
delivered_block io out block_size trans_id flag f content seq c frame hw hz ht hf hn hs e r =
    let payload = block_of block_size content seq in
    let len = length-block_of block_size content seq in
    let (frame', h, encoded, unpacked, typed, decoded) =
      data_sent out (max_size + 16) trans_id flag f.file_id seq payload ht hf (omega arith)
        (omega (arith, len)) (omega (arith, len)) in
    let same_frame : frame' ≡ frame = some_injective (sym encoded ∙ e) in
    let g = r.file in
    let m : DataBlock = record {
      trans_id = trans_id;
      flag = flag;
      file_id = f.file_id;
      block_seq = seq;
      payload = payload;
    } in
    let next =
      handle_frame_data io c frame h (rw (sym same_frame) unpacked) typed
      ∙ handle_data_found io c frame m r.trans g (rw (sym same_frame) decoded) r.receives_trans
          r.waits (sym r.same_trans) r.found
      ∙ data_block_next io r.trans c g seq payload (omega (arith, r.same_blocks)) r.next
          (rw (r.blocks_of, r.same_size) len) (hw g.file_id (seq * c.block_size) payload) in
    rw next (record {
      trans = record r.trans {
        files = update_file (take_block payload g) r.trans.files;
        ack_pending = true;
      };
      file = take_block payload g;
      blocks_of = r.blocks_of;
      receives_trans = refl;
      waits = r.waits;
      same_trans = r.same_trans;
      found =
          find_file-update_file f.file_id r.trans.files g (take_block payload g) r.found
            (find_file-file_id f.file_id r.trans.files g r.found);
      next = ap suc r.next;
      same_size = r.same_size;
      same_blocks = r.same_blocks;
      prefix = rw r.prefix (take-block_of block_size content seq);
    })
