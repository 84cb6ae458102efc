-- ===== src/StreamFile/Run.antt =====
-- A transfer of src/proto/stream_file.c: the file that the sender reads, the calls of `sf_fill`, and
-- the states of both sides on the way.
use hwphonelink.StreamFile.Backed.{file_after}
use hwphonelink.StreamFile.Clip.{sha_matches, h264_verify}
use hwphonelink.StreamFile.Names.{is_h264_name, expected_sha_of}
use hwphonelink.StreamFile.Sends.{fill_none, fill_end, fill_queued, sf_fill, Draw}
use hwphonelink.StreamFile.State.{
  sf_done, vtp_chunk, sf_rx_done, SfOutput, sf_rx_data, sf_tx_active, StreamFile, Halves, SfIo,
}
use hwphonelink.Prelude.{
  refl, ◌∷◌, ◌≤◌, ◌<◌, length, if◌then◌else◌, ◌++◌, Bool, ◌≡◌, ℕ, List, [], some, false, true, suc,
  zero,
}

-- `pread` on a file that does not change: at an offset inside the file it gives at least one byte and
-- at most as many as asked, and at the end none.
pub record IsReader (io : SfIo) (content : List ℕ) : Type 0 where
  pub more :
      (pre post : List ℕ)
      → content ≡ pre ++ post
      → 0 < length post
      → (chunk : List ℕ) × (rest : List ℕ) × (post ≡ chunk ++ rest)
        × (0 < length chunk)
        × (length chunk ≤ vtp_chunk)
        × (io.pread vtp_chunk (length pre) ≡ some chunk)
  pub at_end : io.pread vtp_chunk (length content) ≡ some []

-- The frames that the calls of `sf_fill` queue, and whether -1 came.
pub record Filled : Type 0 where
  pub frames : List (List ℕ)
  pub ended : Bool

-- The engine calls `sf_fill` until it returns -1, here at most as often as the fuel says; `draws`
-- gives the nonce and the clock of the call that has so many calls left.
unfoldable pub fill_all : SfIo → (ℕ → Draw) → ℕ → Halves → Filled
fill_all io draws zero c = record { frames = []; ended = false }
fill_all io draws (suc n) c = elim (sf_fill io (draws n) c).1 [
  | fill_queued frame ↦
      let rest = fill_all io draws n (sf_fill io (draws n) c).0 in
      record { frames = frame ∷ rest.frames; ended = rest.ended }
  | fill_end ↦ record { frames = []; ended = true }
  | fill_none ↦ record { frames = []; ended = false }
]

module _ (io : SfIo) (draws : ℕ → Draw) where
  pub fill_all-sent :
      (n : ℕ) (c : Halves) (msg : List ℕ)
      → (sf_fill io (draws n) c).1 ≡ fill_queued msg
      → let rest = fill_all io draws n (sf_fill io (draws n) c).0 in
        fill_all io draws (suc n) c ≡ record { frames = msg ∷ rest.frames; ended = rest.ended }
  unfolding fill_all
  fill_all-sent n c msg e = rw (e, fill_all) refl

  pub fill_all-end :
      (n : ℕ) (c : Halves)
      → (sf_fill io (draws n) c).1 ≡ fill_end
      → fill_all io draws (suc n) c ≡ record { frames = []; ended = true }
  unfolding fill_all
  fill_all-end n c e = rw (e, fill_all) refl

-- The sender behind the metadata frame, with `pre` queued.
pub record IsSending (key pre : List ℕ) (c : Halves) : Type 0 where
  pub sends : c.tx.tx_state ≡ sf_tx_active
  pub meta_sent : c.tx.tx_meta_sent ≡ true
  pub has_fd : c.tx.tx_fd ≡ true
  pub offset : c.tx.tx_offset ≡ length pre
  pub tx_key : c.key ≡ key

-- The receiver of a file of `total` bytes with this name, with `pre` written.
pub record IsReceiving (key name path : List ℕ) (total : ℕ) (pre : List ℕ) (s : StreamFile)
    : Type 0 where
  pub not_closed : s.closed ≡ false
  pub no_rest : s.rxbuf ≡ []
  pub rx_key : s.halves.key ≡ key
  pub receives : s.halves.rx.rx_state ≡ sf_rx_data
  pub announced : s.halves.rx.rx_total ≡ total
  pub counted : s.halves.rx.rx_received ≡ length pre
  pub hashed_pre : s.halves.rx.rx_sha ≡ some pre
  pub named : s.halves.rx.rx_name ≡ name
  pub at_path : s.halves.rx.rx_path ≡ some path
  pub wants_sha : s.halves.rx.rx_expected_sha ≡ expected_sha_of name

-- What the receiver is to say of a file: a clip is checked in full, another file by the digits of its
-- name.
unfoldable pub accepts : SfIo → List ℕ → List ℕ → List ℕ → Bool
accepts io name path content =
    if is_h264_name name
    then h264_verify io.sha256 (io.get_contents path) name
    else sha_matches (expected_sha_of name) (io.sha256 content)

-- The session behind the deliveries is done, with the whole file and one report as the last call.
pub record IsDelivered (io : SfIo) (name path content file : List ℕ)
    (r : StreamFile × List SfOutput) : Type 0 where
  pub is_done : r.0.halves.rx.rx_state ≡ sf_rx_done
  pub nothing_left : r.0.rxbuf ≡ []
  pub written : file_after file r.1 ≡ content
  pub before : List SfOutput
  pub reported : r.1 ≡ before ++ (sf_done false (accepts io name path content) ∷ [])
