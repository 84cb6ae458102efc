-- ===== src/Transfer/Starve.antt =====
-- What `rx_flush_ack` and `handle_ack` of src/proto/dfile_conn.c do for a transfer of many files.
-- Every file has a block.
use hwphonelink.Transfer.Blocks.{find_file-file_id}
use hwphonelink.Dfile.Header.{max_ack_entries}
use hwphonelink.Dfile.Acks.{AckEntry}
use hwphonelink.Transfer.State.{none_acked, TransFile}
use hwphonelink.Transfer.Control.{ack_file, ack_files}
use hwphonelink.Transfer.Common.{update_file, find_file}
use hwphonelink.Transfer.Receiver.{ack_entries}
use hwphonelink.Prelude.{
  sym, Bool-cases, ◌∙◌, Option-cases, inr, inl, ◌||◌, ◌&&◌, ◌==◌, ltb, arith, ◌++◌, ◌∷◌, ◌≢◌, ◌≡◌,
  length, Bool, ℕ, List, [], none, false, true, refl, suc, zero,
}

unfoldable pub all_started : List TransFile → Bool
all_started [] = true
all_started (f ∷ fs) = ltb 0 f.expected_seq && all_started fs

ack_entries_full :
    (room : ℕ) (fs gs : List TransFile)
    → length fs ≡ room
    → all_started fs ≡ true
    → ack_entries room (fs ++ gs) ≡ ack_entries room fs
unfolding ack_entries all_started
ack_entries_full zero [] [] h s = refl
ack_entries_full zero [] (g ∷ gs) h s = refl
ack_entries_full zero (f ∷ fs) gs h s = absurd (omega arith)
ack_entries_full (suc room) [] gs h s = absurd (omega arith)
ack_entries_full (suc room) (f ∷ fs) gs h s = ground (arith, ack_entries_full room fs gs)

-- Whether an entry names the file.
unfoldable names_file : ℕ → List AckEntry → Bool
names_file id [] = false
names_file id (e ∷ es) = e.file_id == id || names_file id es

ack_entries-names_file :
    (room id : ℕ) (fs : List TransFile)
    → find_file id fs ≡ none
    → names_file id (ack_entries room fs) ≡ false
unfolding ack_entries find_file names_file
ack_entries-names_file room id [] h = ground arith
ack_entries-names_file zero id (f ∷ fs) h = refl
ack_entries-names_file (suc room) id (f ∷ fs) h =
    ground (arith, ack_entries-names_file room id fs, ack_entries-names_file (suc room) id fs)

find_file-update_file_other :
    (id : ℕ) (g : TransFile) (fs : List TransFile)
    → g.file_id ≢ id
    → find_file id (update_file g fs) ≡ find_file id fs
unfolding find_file update_file
find_file-update_file_other id g [] h = refl
find_file-update_file_other id g (f ∷ fs) h =
    ground (arith, h, find_file-update_file_other id g fs h)

ack_file-file_id : (last_seq : ℕ) (f : TransFile) → (ack_file last_seq f).file_id ≡ f.file_id
unfolding ack_file
ack_file-file_id last_seq f = ground arith

ack_files-find_file :
    (id : ℕ) (es : List AckEntry) (fs : List TransFile)
    → names_file id es ≡ false
    → find_file id (ack_files es fs) ≡ find_file id fs
unfolding ack_files names_file
ack_files-find_file id [] fs h = refl
ack_files-find_file id (e ∷ es) fs h =
    let others : names_file id es ≡ false = ground (arith, h) in
    let differs : e.file_id ≢ id = ground (arith, h) in
    elim (Option-cases (find_file e.file_id fs)) [
      | inl q ↦ rw (q, ack_files) (ack_files-find_file id es fs others)
      | inr (f, q) ↦
          let g = ack_file e.last_seq f in
          let named : g.file_id ≡ e.file_id =
            ack_file-file_id e.last_seq f ∙ find_file-file_id e.file_id fs f q in
          elim (Bool-cases (e.last_seq == none_acked)) [
            | inl b ↦ rw (q, b, ack_files) (ack_files-find_file id es fs others)
            | inr b ↦
                rw (q, b, ack_files)
                  (ack_files-find_file id es (update_file g fs) others
                    ∙ find_file-update_file_other id g fs (λ x. differs (sym named ∙ x)))
          ]
    ]

-- An acknowledgement names 39 files at most: if 39 files have blocks, it changes nothing for a file
-- after them with another id, so that this file is never acknowledged while they are in the list.
pub ack_files-starves :
    (fs gs sent : List TransFile) (id : ℕ)
    → length fs ≡ max_ack_entries
    → all_started fs ≡ true
    → find_file id fs ≡ none
    → find_file id (ack_files (ack_entries max_ack_entries (fs ++ gs)) sent) ≡ find_file id sent
ack_files-starves fs gs sent id h s n =
    rw (ack_entries_full max_ack_entries fs gs h s)
      (ack_files-find_file id _ sent (ack_entries-names_file max_ack_entries id fs n))
