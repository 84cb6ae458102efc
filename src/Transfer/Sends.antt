-- ===== src/Transfer/Sends.antt =====
-- The sender's steps of src/proto/dfile_conn.c, by what they put out.
use hwphonelink.Dfile.Header.{max_size}
use hwphonelink.Dfile.Encode.{encode_file_header, Entry}
use hwphonelink.Transfer.Keeps.{end_count-none, end_count-append, end_count}
use hwphonelink.Transfer.State.{Trans, retran_interval_ms, send_frame, TransFile, Io}
use hwphonelink.Transfer.Sender.{header_entries, send_header, send_headers}
use hwphonelink.Transfer.Pump.{
  send_failed, read_failed, went_out, after_retran, send_block, retran_first, Sending, advance,
  Pumped, pump_files, pump_file, pump_retran, pump_new,
}
use hwphonelink.Prelude.{
  sub64, leb, ◌||◌, ◌==◌, ◌&&◌, ltb, Bool-cases, length-append, ◌<◌, ◌≤◌, ◌-◌, ◌^◌, ◌%◌, length,
  ◌+◌, Option-cases, inr, inl, ◌∷◌, arith, ◌≡◌, List, ℕ, [], refl, suc, zero,
}

-- What the pump does to a file puts out frames alone, and takes one from the budget for each.
record IsPumped (budget : ℕ) (f : TransFile) (p : Pumped) : Type 0 where
  pub quiet : end_count p.out ≡ 0
  pub spent : length p.out + p.budget ≡ budget
  pub same_blocks : p.file.total_blocks ≡ f.total_blocks

pump_new-IsPumped :
    (budget : ℕ) (io : Io) (block_size trans_id last : ℕ) (f : TransFile)
    → IsPumped budget f (pump_new budget io block_size trans_id last f)
unfolding pump_new
pump_new-IsPumped zero io block_size trans_id last f = record {
  quiet = refl;
  spent = refl;
  same_blocks = refl;
}
pump_new-IsPumped (suc budget) io block_size trans_id last f =
    let h = pump_new-IsPumped budget io block_size trans_id last (advance f) in
    record {
      quiet = ground (arith, h.quiet);
      spent = ground (arith, h.spent);
      same_blocks = ground (arith, h.same_blocks);
    }

after_retran-IsPumped :
    (now budget : ℕ) (rest : List ℕ) (f : TransFile) (p : Pumped) (s : Sending)
    → 0 < p.budget
    → IsPumped budget f p
    → IsPumped budget f (after_retran now rest p s)
after_retran-IsPumped now budget rest f p (went_out frame) b h = record {
  quiet = end_count-none p.out _ h.quiet refl;
  spent = omega (arith, length-append p.out (send_frame frame ∷ []), h.spent);
  same_blocks = h.same_blocks;
}
after_retran-IsPumped now budget rest f p read_failed b h = record {
  quiet = h.quiet;
  spent = h.spent;
  same_blocks = h.same_blocks;
}
after_retran-IsPumped now budget rest f p send_failed b h = record {
  quiet = h.quiet;
  spent = h.spent;
  same_blocks = h.same_blocks;
}

retran_first-IsPumped :
    (budget : ℕ) (io : Io) (block_size trans_id : ℕ) (f : TransFile) (p : Pumped) (seqs : List ℕ)
    → IsPumped budget f p
    → IsPumped budget f (retran_first io block_size trans_id p seqs)
unfolding retran_first
retran_first-IsPumped budget io block_size trans_id f p [] h = h
retran_first-IsPumped budget io block_size trans_id f p (seq ∷ rest) h =
    let s = send_block io block_size trans_id p.file seq 5 in
    elim (Bool-cases (
      ltb 0 p.budget
      && (p.last_retran_ms == 0 || leb retran_interval_ms (sub64 io.now p.last_retran_ms)))) [
        | inl e ↦ rw e (after_retran-IsPumped io.now budget rest f p s (ground arith) h)
        | inr e ↦ rw e h
      ]

pump_file-IsPumped :
    (budget : ℕ) (io : Io) (block_size trans_id last : ℕ) (f : TransFile)
    → IsPumped budget f (pump_file budget io block_size trans_id last f)
unfolding pump_file pump_retran
pump_file-IsPumped budget io block_size trans_id last f =
    let p = pump_new budget io block_size trans_id last f in
    let h = pump_new-IsPumped budget io block_size trans_id last f in
    elim (Option-cases p.failure) [
      | inl e ↦
          rw (e, pump_file)
            (retran_first-IsPumped budget io block_size trans_id f p p.file.retrans h)
      | inr (why, e) ↦ rw (e, pump_file) h
    ]

pub pump_files-end_count :
    (budget : ℕ) (io : Io) (block_size trans_id last : ℕ) (fs : List TransFile)
    → end_count (pump_files budget io block_size trans_id last fs).out ≡ 0
unfolding pump_files
pump_files-end_count budget io block_size trans_id last [] = refl
pump_files-end_count budget io block_size trans_id last (f ∷ fs) =
    let p = pump_file budget io block_size trans_id last f in
    let rest = pump_files p.budget io block_size trans_id p.last_retran_ms fs in
    let h = pump_file-IsPumped budget io block_size trans_id last f in
    ground (
      arith,
      h.quiet,
      pump_files-end_count p.budget io block_size trans_id p.last_retran_ms fs,
      end_count-append p.out rest.out,
    )

-- A round of the pump over the files puts out at most as many frames as its budget.
pub pump_files-length :
    (budget : ℕ) (io : Io) (block_size trans_id last : ℕ) (fs : List TransFile)
    → length (pump_files budget io block_size trans_id last fs).out ≤ budget
unfolding pump_files
pump_files-length budget io block_size trans_id last [] = omega arith
pump_files-length budget io block_size trans_id last (f ∷ fs) =
    let p = pump_file budget io block_size trans_id last f in
    let rest = pump_files p.budget io block_size trans_id p.last_retran_ms fs in
    let h = pump_file-IsPumped budget io block_size trans_id last f in
    ground (
      arith,
      h.spent,
      pump_files-length p.budget io block_size trans_id p.last_retran_ms fs,
      length-append p.out rest.out,
    )

send_headers-end_count :
    (fuel : ℕ) (io : Io) (trans_id : ℕ) (ents : List Entry) (start : ℕ)
    → end_count (send_headers fuel io trans_id ents start).1 ≡ 0
unfolding send_headers
send_headers-end_count zero io trans_id ents start = refl
send_headers-end_count (suc fuel) io trans_id ents start =
    elim (Option-cases (
      encode_file_header io.old_buf (max_size + 16) trans_id (length ents % 2 ^ 16) ents start
        (length ents - start))) [
          | inl e ↦ ground (arith, e)
          | inr (fw, e) ↦
              ground (arith, e, send_headers-end_count fuel io trans_id ents (start + fw.1))
        ]

pub send_header-end_count : (io : Io) (t : Trans) → end_count (send_header io t).1 ≡ 0
unfolding send_header
send_header-end_count io t =
    send_headers-end_count (length (header_entries t.files)) io t.trans_id (header_entries t.files)
      0
