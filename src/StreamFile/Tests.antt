-- ===== src/StreamFile/Tests.antt =====
-- Runs of src/proto/stream_file.c with a toy cipher.
use hwphonelink.StreamFile.Metadata.{IsFileName}
use hwphonelink.StreamFile.Reports.{sf_on_data_all-reports, due, reports}
use hwphonelink.StreamFile.ClipForm.{h264_verify-IsClip, nal_types, IsClip}
use hwphonelink.Transfer.Listing.{same_bytes}
use hwphonelink.StreamFile.Empty.{sf_fill-empty}
use hwphonelink.StreamFile.Stream.{sf_on_data_all-flatten}
use hwphonelink.StreamFile.Backed.{sf_on_data_all-IsBacked, file_after, IsBacked}
use hwphonelink.StreamFile.Receive.{sf_on_data}
use hwphonelink.StreamFile.Clip.{
  h264_name_sha, nal_step, scan, sha_matches, check_clip, h264_verify,
}
use hwphonelink.StreamFile.Invariant.{sf_on_data_all}
use hwphonelink.StreamFile.SafeNames.{sf_on_data_all-AllInside, AllInside}
use mathlib.Core.List.{append-nil, flatten}
use hwphonelink.StreamFile.EndToEnd.{sf_fill-IsDelivered}
use hwphonelink.StreamFile.Received.{sf_fill-sf_on_data, IsReceived}
use hwphonelink.StreamFile.Session.{start_send, stream_file_new, set_recv_dir}
use hwphonelink.StreamFile.FrameTrip.{IsCipher, HasNonce}
use hwphonelink.StreamFile.Sends.{Draw}
use hwphonelink.StreamFile.State.{rx_meta, truncate_file, sf_rx_data, SfIo, StreamFile}
use hwphonelink.StreamFile.Names.{bad_name, c_str}
use hwphonelink.StreamFile.Run.{fill_all, IsReader}
use hwphonelink.Prelude.{
  ap, drop-append, length-take, take-append-drop, sym, drop, ◌^◌, ◌<◌, arith, take, ltb, length,
  ◌++◌, if◌then◌else◌, replicate, ◌≡◌, ◌+◌, Option, ◌∷◌, ℕ, List, [], some, none, true, refl,
}

abbrev key : List ℕ
key = 9 ∷ []

abbrev dir : List ℕ
dir = b'd' ∷ []

abbrev name : List ℕ
name = b'a' ∷ []

abbrev content : List ℕ
content = 7 ∷ 8 ∷ []

seal : List ℕ → List ℕ → List ℕ → Option (List ℕ × List ℕ)
seal k nonce plain = some (plain, replicate 16 3)

unseal : List ℕ → List ℕ → List ℕ → List ℕ → Option (List ℕ)
unseal k nonce ct tag = some ct

store : List ℕ → ℕ → Option ℕ
store bytes at = if ltb (at + length bytes) (2 ^ 63) then some (length bytes) else none

-- The sender's file has these bytes.
toy_io : List ℕ → SfIo
toy_io bytes = record {
  encrypt = seal;
  decrypt = unseal;
  build_filename = λ d n. d ++ (b'/' ∷ n);
  can_open = λ path. true;
  pwrite = store;
  pread = λ cap at. some (take cap (drop at bytes));
  sha256 = λ bytes. [];
  get_contents = λ path. some bytes;
}

draws : ℕ → Draw
draws n = record { nonce = some (replicate 12 6); now = n }

draws-HasNonce : (n : ℕ) → HasNonce (draws n)
unfolding draws
draws-HasNonce n = (replicate 12 6, refl, refl)

toy_io-IsCipher : (bytes : List ℕ) → IsCipher (toy_io bytes) key
unfolding toy_io seal unseal
toy_io-IsCipher bytes = record {
  seals = λ nonce plain h. (
    plain,
    replicate 16 3,
    record { sealed = refl; ct_len = refl; tag_16 = refl; opened = refl },
  );
}

toy_io-IsReader : IsReader (toy_io content) content
unfolding toy_io
toy_io-IsReader = record {
  more = λ pre post e p. (
    take 32768 post,
    drop 32768 post,
    sym (take-append-drop 32768 post),
    omega (arith, length-take 32768 post),
    omega (arith, length-take 32768 post),
    rw (e, drop-append (length pre) pre post refl) refl,
  );
  at_end = refl;
}

name-IsFileName : IsFileName name
unfolding c_str bad_name
name-IsFileName = record {
  no_nul = refl;
  some_byte = omega arith;
  fits = omega arith;
  not_bad = refl;
}

store-some :
    (bytes : List ℕ) (at : ℕ) → at + length bytes < 2 ^ 63 → store bytes at ≡ some (length bytes)
unfolding store
store-some bytes at h = ground (arith, h)

store-limit : (bytes : List ℕ) (at w : ℕ) → store bytes at ≡ some w → at + length bytes < 2 ^ 63
unfolding store
store-limit bytes at w e = ground (arith, e)

abbrev receiver : StreamFile
receiver = set_recv_dir (some dir) (stream_file_new key)

abbrev sent_frames : List (List ℕ)
sent_frames =
    (fill_all (toy_io content) draws 4
      (start_send (some 2) true name (stream_file_new key)).0.halves).frames

abbrev wire : List ℕ
wire = flatten sent_frames

abbrev pieces : List (List ℕ)
pieces = take 40 wire ∷ drop 40 wire ∷ []

sf_on_data_all-flatten_example :
    sf_on_data_all (toy_io content) receiver pieces
    ≡ sf_on_data (toy_io content) receiver (flatten pieces)
unfolding set_recv_dir
sf_on_data_all-flatten_example =
    sf_on_data_all-flatten (toy_io content) receiver dir (take 40 wire) (drop 40 wire ∷ []) refl

sf_on_data_all-AllInside_example :
    AllInside (toy_io content) dir (sf_on_data_all (toy_io content) receiver pieces).1
unfolding set_recv_dir
sf_on_data_all-AllInside_example =
    sf_on_data_all-AllInside (toy_io content) dir receiver pieces refl

sf_on_data_all-IsBacked_example :
    let r = sf_on_data_all (toy_io content) receiver pieces in
    IsBacked (file_after [] r.1) r.0.halves.rx
unfolding set_recv_dir stream_file_new toy_io
sf_on_data_all-IsBacked_example =
    sf_on_data_all-IsBacked (toy_io content) receiver pieces store-limit refl

-- The file that the session leaves on disk.
sent-written :
    file_after (1 ∷ []) (sf_on_data_all (toy_io content) receiver (flatten sent_frames ∷ [])).1
    ≡ content
unfolding toy_io flatten
sent-written =
    (sf_fill-IsDelivered (toy_io content) key content name dir (1 ∷ []) (flatten sent_frames) []
      draws (toy_io-IsCipher content) toy_io-IsReader (omega arith) (omega arith) name-IsFileName
      refl store-some draws-HasNonce (append-nil (flatten sent_frames))).1.written

sf_fill-sf_on_data_example :
    ((fill_all
        (toy_io content)
        draws
        4
        (start_send (some 2) true name (stream_file_new key)).0.halves).ended
      ≡ true)
    × IsReceived
        (toy_io content)
        name
        content
        (1 ∷ [])
        (sf_on_data_all (toy_io content) receiver (flatten sent_frames ∷ []))
unfolding toy_io flatten
sf_fill-sf_on_data_example =
    sf_fill-sf_on_data (toy_io content) key content name dir (1 ∷ []) (flatten sent_frames) [] draws
      (toy_io-IsCipher content) toy_io-IsReader (omega arith) (omega arith) name-IsFileName refl
      store-some draws-HasNonce (append-nil (flatten sent_frames)) (ap some (sym sent-written))

abbrev no_frames : List (List ℕ)
no_frames =
    (fill_all (toy_io []) draws 2
      (start_send (some 0) true name (stream_file_new key)).0.halves).frames

sf_fill-empty_example :
    let c = (start_send (some 0) true name (stream_file_new key)).0.halves in
    let r = sf_on_data_all (toy_io []) receiver (flatten no_frames ∷ []) in
    ((fill_all (toy_io []) draws 2 c).ended ≡ true)
    × (r.0.halves.rx.rx_state ≡ sf_rx_data)
    × (r.1 ≡ truncate_file (b'd' ∷ b'/' ∷ b'a' ∷ []) ∷ rx_meta name 0 ∷ [])
unfolding toy_io flatten
sf_fill-empty_example =
    sf_fill-empty (toy_io []) key name dir (flatten no_frames) [] draws (toy_io-IsCipher []) refl
      name-IsFileName refl draws-HasNonce (append-nil (flatten no_frames))

abbrev clip : List ℕ
clip = 0 ∷ 0 ∷ 1 ∷ 7 ∷ 0 ∷ 0 ∷ 1 ∷ 8 ∷ 0 ∷ 0 ∷ 1 ∷ 5 ∷ []

h264_verify-IsClip_example : IsClip (nal_types 0 clip)
unfolding h264_verify check_clip sha_matches scan nal_step h264_name_sha same_bytes
h264_verify-IsClip_example = h264_verify-IsClip (λ bytes. []) clip (b'x' ∷ []) refl

sf_on_data_all-reports_example :
    let r = sf_on_data_all (toy_io content) receiver pieces in
    reports r.1 ≡ due r.0.halves.rx.rx_state
unfolding set_recv_dir stream_file_new
sf_on_data_all-reports_example =
    sf_on_data_all-reports (toy_io content) dir receiver pieces refl refl
