-- ===== src/StreamFile/Received.antt =====
-- The report at the end of a transfer of src/proto/stream_file.c.
use hwphonelink.StreamFile.EndToEnd.{sf_fill-IsDelivered}
use hwphonelink.StreamFile.Reports.{due, reports, reports-append, sf_on_data_all-reports}
use mathlib.Core.List.{flatten}
use hwphonelink.StreamFile.Backed.{file_after}
use hwphonelink.StreamFile.Clip.{h264_verify, sha_matches}
use hwphonelink.StreamFile.FrameTrip.{HasNonce, IsCipher}
use hwphonelink.StreamFile.Invariant.{sf_on_data_all}
use hwphonelink.StreamFile.Metadata.{IsFileName}
use hwphonelink.StreamFile.Names.{expected_sha_of, is_h264_name}
use hwphonelink.StreamFile.Run.{accepts, fill_all, IsReader}
use hwphonelink.StreamFile.Sends.{Draw}
use hwphonelink.StreamFile.Session.{set_recv_dir, start_send, stream_file_new}
use hwphonelink.StreamFile.State.{sf_done, sf_rx_done, SfIo, SfOutput, StreamFile}
use hwphonelink.Prelude.{
  ap, arith, Bool, if◌then◌else◌, length, List, ℕ, ◌+◌, ◌++◌, ◌<◌, ◌^◌, ◌∙◌, ◌∷◌, ◌≡◌, [], false,
  refl, some, suc, true,
}

-- The check of a file with this name and this content: the whole form of a clip, the digits of its
-- name for another file.
abbrev pub is_intact : SfIo → List ℕ → List ℕ → Bool
is_intact io name content =
    if is_h264_name name
    then h264_verify io.sha256 (some content) name
    else sha_matches (expected_sha_of name) (io.sha256 content)

-- The session is done with an empty buffer, the file has this content, and the last call is the one
-- report of the receiving half, with the check of the content.
pub record IsReceived (io : SfIo) (name content old : List ℕ) (r : StreamFile × List SfOutput)
    : Type 0 where
  pub is_done : r.0.halves.rx.rx_state ≡ sf_rx_done
  pub nothing_left : r.0.rxbuf ≡ []
  pub written : file_after old r.1 ≡ content
  pub before : List SfOutput
  pub none_before : reports before ≡ 0
  pub reported : r.1 ≡ before ++ (sf_done false (is_intact io name content) ∷ [])

accepts_lem :
    (io : SfIo) (name path content : List ℕ)
    → io.get_contents path ≡ some content
    → accepts io name path content ≡ is_intact io name content
unfolding accepts
accepts_lem io name path content e = rw e refl

none_before_last :
    (out before : List SfOutput) (ok : Bool)
    → reports out ≡ 1
    → out ≡ before ++ (sf_done false ok ∷ [])
    → reports before ≡ 0
unfolding reports
none_before_last out before ok one e =
    omega (arith, reports-append before (sf_done false ok ∷ []), ap reports e, one)

-- A file that is not empty and whose size fits 63 bits, sent under a name that fits the metadata
-- frame and that the receiver takes: `sf_fill`, called at most twice more than the file has bytes,
-- comes to its end, and the bytes that it queued, delivered to a new session with the same key and
-- a receive directory in any pieces, complete the transfer. That session is then done with an empty
-- buffer, the file on disk has the sender's content whatever it had before, and the last call of
-- the session is its one report of the end, with the result of the check of that content: the whole
-- check of a clip for a clip's name, and that of the checksum for another. The cipher opens what it
-- seals, each call gets a nonce, reads of the file do not fail, nor writes below an offset of 2 ^
-- 63, the receiver can create the file, and a reader of its path gets the file as the calls of the
-- session leave it.
pub sf_fill-sf_on_data :
    (io : SfIo) (key content name dir old chunk : List ℕ) (chunks : List (List ℕ))
    (draws : ℕ → Draw)
    → IsCipher io key
    → IsReader io content
    → length content < 2 ^ 63
    → 0 < length content
    → IsFileName name
    → io.can_open (io.build_filename dir name) ≡ true
    → ((bytes : List ℕ) (at : ℕ)
        → at + length bytes < 2 ^ 63
        → io.pwrite bytes at ≡ some (length bytes))
    → ((n : ℕ) → HasNonce (draws n))
    → flatten (chunk ∷ chunks)
      ≡ flatten
          (fill_all io draws
            (suc (suc (length content)))
            (start_send (some (length content)) true name (stream_file_new key)).0.halves).frames
    → io.get_contents (io.build_filename dir name)
      ≡ some (
          file_after old
            (sf_on_data_all io (set_recv_dir (some dir) (stream_file_new key)) (chunk ∷ chunks)).1)
    → let c = (start_send (some (length content)) true name (stream_file_new key)).0.halves in
      ((fill_all io draws (suc (suc (length content))) c).ended ≡ true)
      × IsReceived io name content old
          (sf_on_data_all io (set_recv_dir (some dir) (stream_file_new key)) (chunk ∷ chunks))
sf_fill-sf_on_data io key content name dir old chunk chunks draws cipher reader small pos good opens
      writes random p reads_back =
    let s = set_recv_dir (some dir) (stream_file_new key) in
    let r = sf_on_data_all io s (chunk ∷ chunks) in
    let path = io.build_filename dir name in
    let (ended, d) =
      sf_fill-IsDelivered io key content name dir old chunk chunks draws cipher reader small pos
        good opens writes random p in
    let one : reports r.1 ≡ 1 =
      unfold stream_file_new set_recv_dir in
      sf_on_data_all-reports io dir s (chunk ∷ chunks) refl refl ∙ ap due d.is_done in
    (
      ended,
      record {
        is_done = d.is_done;
        nothing_left = d.nothing_left;
        written = d.written;
        before = d.before;
        none_before = none_before_last r.1 d.before (accepts io name path content) one d.reported;
        reported =
            d.reported
            ∙ ap (λ ok. d.before ++ (sf_done false ok ∷ []))
                (accepts_lem io name path content (reads_back ∙ ap some d.written));
      },
    )
