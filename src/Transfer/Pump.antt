-- ===== src/Transfer/Pump.antt =====
-- `tx_pump` of src/proto/dfile_conn.c.
use hwphonelink.Transfer.Common.{trans_fail}
use hwphonelink.Dfile.Header.{max_size}
use hwphonelink.Dfile.Encode.{encode_data}
use Prim.Native.Nat.{min}
use hwphonelink.Transfer.State.{
  retran_interval_ms, ◌then_do◌, block_budget, Step, send_frame, Conn, Trans, Output, TransFile, Io,
}
use hwphonelink.Prelude.{
  sub64, leb, ◌||◌, ◌+◌, ◌&&◌, ◌-◌, ltb, Bool, ◌==◌, ◌∷◌, ◌++◌, if◌then◌else◌, ◌*◌, Option, ℕ, List,
  [], some, none, false, true, suc, zero,
}

-- A block on its way: the frame that went out, or which call failed.
pub data Sending : Type 0 where
  went_out : List ℕ → Sending
  read_failed : Sending
  send_failed : Sending

-- The bytes of block `seq`: from where on, and how many.
abbrev pub block_len : ℕ → TransFile → ℕ → ℕ
block_len block_size f seq = min (f.size - seq * block_size) block_size

unfoldable pub send_encoded : Io → Option (List ℕ) → Sending
send_encoded io none = send_failed
send_encoded io (some frame) = if io.can_send frame then went_out frame else send_failed

-- Read a block, encode it and send the frame.
unfoldable pub send_block : Io → ℕ → ℕ → TransFile → ℕ → ℕ → Sending
unfolding send_encoded
send_block io block_size trans_id f seq flag =
    elim (io.read f.file_id (seq * block_size) (block_len block_size f seq)) [
      | none ↦ read_failed
      | some block ↦
          send_encoded io (encode_data io.old_buf (max_size + 16) trans_id flag f.file_id seq block)
    ]

-- The flags of a new block: continue, end.
unfoldable pub block_flag : TransFile → ℕ → ℕ
block_flag f seq = (if seq == 0 then 0 else 1) + (if suc seq == f.total_blocks then 2 else 0)

-- A file after a part of the pump: what went out, the budget left, and on a failure whether a reset
-- is to be sent.
pub record Pumped : Type 0 where
  pub file : TransFile
  pub out : List Output
  pub budget : ℕ
  pub last_retran_ms : ℕ
  pub failure : Option Bool

-- A new block was sent; its number stays below `total_blocks`.
abbrev pub advance : TransFile → TransFile
advance f = record f { retrans = f.retrans ++ (f.next_seq ∷ []); next_seq = suc f.next_seq }

-- The loop over the new blocks of a file.
unfoldable pub pump_new : ℕ → Io → ℕ → ℕ → ℕ → TransFile → Pumped
unfolding block_flag send_block
pump_new zero io block_size trans_id last f = record {
  file = f;
  out = [];
  budget = 0;
  last_retran_ms = last;
  failure = none;
}
pump_new (suc budget) io block_size trans_id last f =
    let stopped : Option Bool → Pumped = λ why. record {
      file = f;
      out = [];
      budget = suc budget;
      last_retran_ms = last;
      failure = why;
    } in
    if ltb f.next_seq f.total_blocks
    then elim (send_block io block_size trans_id f f.next_seq (block_flag f f.next_seq)) [
      | went_out frame ↦
          let r = pump_new budget io block_size trans_id last (advance f) in
          record r { out = send_frame frame ∷ r.out }
      | read_failed ↦ stopped (some true)
      | send_failed ↦ stopped (some false)
    ]
    else stopped none

-- A file after the attempt to send its oldest block again; `rest` are the blocks after it.
abbrev pub after_retran : ℕ → List ℕ → Pumped → Sending → Pumped
after_retran now rest p (went_out frame) = record p {
  file = record p.file { retrans = rest };
  out = p.out ++ (send_frame frame ∷ []);
  budget = p.budget - 1;
  last_retran_ms = now;
}
after_retran now rest p read_failed = record p { failure = some true }
after_retran now rest p send_failed = record p { failure = some false }

-- The retransmission of a file's oldest block, at most one in each interval, where the list is that
-- of the file.
unfoldable pub retran_first : Io → ℕ → ℕ → Pumped → List ℕ → Pumped
unfolding send_block
retran_first io block_size trans_id p [] = p
retran_first io block_size trans_id p (seq ∷ rest) =
    if ltb 0 p.budget
      && (p.last_retran_ms == 0 || leb retran_interval_ms (sub64 io.now p.last_retran_ms))
    then after_retran io.now rest p (send_block io block_size trans_id p.file seq 5)
    else p

unfoldable pub pump_retran : Io → ℕ → ℕ → Pumped → Pumped
unfolding retran_first
pump_retran io block_size trans_id p = retran_first io block_size trans_id p p.file.retrans

-- The body of the loop over the files. A file that `tx_pump` skips has nothing for either part.
unfoldable pub pump_file : ℕ → Io → ℕ → ℕ → ℕ → TransFile → Pumped
unfolding pump_new pump_retran
pump_file budget io block_size trans_id last f =
    let p = pump_new budget io block_size trans_id last f in
    elim p.failure [ none ↦ pump_retran io block_size trans_id p | some why ↦ p ]

-- All files after the pump.
pub record PumpedAll : Type 0 where
  pub files : List TransFile
  pub out : List Output
  pub last_retran_ms : ℕ
  pub failure : Option Bool

-- The loop over the files, while the budget lasts.
unfoldable pub pump_files : ℕ → Io → ℕ → ℕ → ℕ → List TransFile → PumpedAll
unfolding pump_file
pump_files budget io block_size trans_id last [] = record {
  files = [];
  out = [];
  last_retran_ms = last;
  failure = none;
}
pump_files budget io block_size trans_id last (f ∷ fs) =
    let p = pump_file budget io block_size trans_id last f in
    let rest = pump_files p.budget io block_size trans_id p.last_retran_ms fs in
    if ltb 0 budget
    then elim p.failure [
      | none ↦ record rest { files = p.file ∷ rest.files; out = p.out ++ rest.out }
      | some why ↦ record {
        files = p.file ∷ fs;
        out = p.out;
        last_retran_ms = p.last_retran_ms;
        failure = some why;
      }
    ]
    else record { files = f ∷ fs; out = []; last_retran_ms = last; failure = none }

-- `tx_pump`, for a connection that sends.
unfoldable pub pump_trans : Io → Trans → Conn → Step
unfolding pump_files
pump_trans io t c =
    let r = pump_files block_budget io c.block_size t.trans_id t.last_retran_ms t.files in
    let c' = record c {
      tx = some (record t { files = r.files; last_retran_ms = r.last_retran_ms });
    } in
    elim r.failure [ none ↦ (c', r.out) | some rst ↦ (c', r.out) then_do trans_fail true rst io ]
