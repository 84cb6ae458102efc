-- ===== src/Transfer/Refusal.antt =====
-- What `handle_data` of src/proto/dfile_conn.c does with a block that it does not take.
use hwphonelink.Transfer.Pump.{block_len}
use hwphonelink.Dfile.Decode.{decode_data, DataBlock}
use hwphonelink.Transfer.State.{Step, write_block, shut, TransFile, is_shut, Trans, Conn, Io}
use hwphonelink.Transfer.Receiver.{take_block, is_waiting_data, data_for, handle_data, data_block}
use hwphonelink.Transfer.Common.{
  update_file, rst_internal_error, fail_trans, reset_and_shutdown, trans_fail, shutdown,
}
use hwphonelink.Prelude.{
  ◌==◌, not, ltb→lt, ltb, if◌then◌else◌, leb, ◌∷◌, ◌*◌, ◌∙◌, length, ap, ◌<◌, Bool-cases, arith, ℕ,
  ◌≡◌, List, Option, Bool, [], inr, inl, some, none, false, true, refl,
}

fail_trans-state :
    (side rst : Bool) (io : Io) (c : Conn) (o : Option Trans)
    → (fail_trans side io c rst o).0.state ≡ c.state
fail_trans-state side rst io c none = refl
fail_trans-state true rst io c (some t) = ground arith
fail_trans-state false rst io c (some t) = ground arith

shutdown_closes : (io : Io) (c : Conn) → is_shut (shutdown io c).0.state ≡ true
unfolding shutdown trans_fail
shutdown_closes io c = elim (Bool-cases (is_shut c.state)) [
  | inl e ↦ rw (e, shutdown) e
  | inr e ↦
      let d = record c { state = shut } in
      let s = trans_fail true false io d in
      let first = fail_trans-state true false io d d.tx in
      let second = fail_trans-state false false io s.0 s.0.rx in
      rw (e, shutdown) (ap is_shut (second ∙ first))
]

-- What a block can do: nothing, since it came before; end the connection; or be written where it
-- belongs, as the next block of its file.
pub data Outcome (t : Trans) (c : Conn) (f : TransFile) (seq : ℕ) (payload : List ℕ)
    : Step → Type 0 where
  ignored : seq < f.expected_seq → Outcome t c f seq payload (c, [])
  ended : (s : Step) → is_shut s.0.state ≡ true → Outcome t c f seq payload s
  written :
      seq ≡ f.expected_seq
      → seq < f.total_blocks
      → length payload ≡ block_len c.block_size f seq
      → Outcome t c f seq payload (
        record c {
          rx =
              some (record t {
                files = update_file (take_block payload f) t.files;
                ack_pending = true;
              });
        },
        write_block f.file_id (seq * c.block_size) payload ∷ [],
      )

Outcome-if :
    (t : Trans) (c : Conn) (f : TransFile) (seq : ℕ) (payload : List ℕ) (b : Bool) {x y : Step}
    → (b ≡ true → Outcome t c f seq payload x)
    → (b ≡ false → Outcome t c f seq payload y)
    → Outcome t c f seq payload (if b then x else y)
Outcome-if t c f seq payload true p q = p refl
Outcome-if t c f seq payload false p q = q refl

reset_and_shutdown_closes :
    (io : Io) (id code : ℕ) (c : Conn) → is_shut (reset_and_shutdown io id code c).0.state ≡ true
unfolding reset_and_shutdown
reset_and_shutdown_closes io id code c = shutdown_closes io c

-- A FILE_DATA block is ignored if it comes before the next one of its file; or the connection is
-- closing afterwards; or it is the next block, in range and of the length that is due, and then it
-- is written at its place, hashed and counted.
pub data_block_lem :
    (io : Io) (t : Trans) (c : Conn) (f : TransFile) (seq : ℕ) (payload : List ℕ)
    → Outcome t c f seq payload (data_block io t c f seq payload)
unfolding data_block
data_block_lem io t c f seq payload =
    let bad : (code : ℕ) → Outcome t c f seq payload (reset_and_shutdown io t.trans_id code c) =
      λ code. ended _ (reset_and_shutdown_closes io t.trans_id code c) in
    Outcome-if t c f seq payload (leb f.total_blocks seq) (λ h. bad _)
      (λ h1.
        Outcome-if t c f seq payload (ltb seq f.expected_seq) (λ h. ignored (ltb→lt _ _ h))
          (λ h2.
            Outcome-if t c f seq payload (ltb f.expected_seq seq) (λ h. bad _)
              (λ h3.
                Outcome-if t c f seq payload (not (length payload == block_len c.block_size f seq))
                  (λ h. bad _)
                  (λ h4.
                    Outcome-if t c f seq payload
                      (not (io.can_write f.file_id (seq * c.block_size) payload)) (λ h. bad _)
                      (λ h5.
                        written (ground (arith, h2, h3)) (ground (arith, h1))
                          (ground (arith, h4)))))))

-- A valid FILE_DATA frame for a receiver that is not waiting for data, such as one that has sent
-- its DONE, makes the connection closing, also if it only repeats a block.
pub handle_data-late :
    (io : Io) (c : Conn) (frame : List ℕ) (m : DataBlock) (t : Trans)
    → decode_data frame ≡ some m
    → c.rx ≡ some t
    → is_waiting_data t.phase ≡ false
    → is_shut (handle_data io c frame).0.state ≡ true
unfolding handle_data data_for
handle_data-late io c frame m t d r w =
    let decoded : handle_data io c frame ≡ data_for io c m c.rx = rw (d, handle_data) refl in
    let refused : data_for io c m (some t) ≡ reset_and_shutdown io m.trans_id rst_internal_error c =
      rw (w, data_for) refl in
    rw (decoded ∙ ap (data_for io c m) r ∙ refused)
      (reset_and_shutdown_closes io m.trans_id rst_internal_error c)
