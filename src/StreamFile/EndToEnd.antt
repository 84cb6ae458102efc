-- ===== src/StreamFile/EndToEnd.antt =====
-- A whole transfer of src/proto/stream_file.c, from `stream_file_start_send` on one side to the
-- report of the receiver on the other.
use hwphonelink.StreamFile.Metadata.{on_meta-good, meta_parts, IsFileName}
use hwphonelink.StreamFile.Stream.{sf_on_data_all-flatten}
use mathlib.Core.List.{flatten}
use hwphonelink.Vtp.Frame.{parse_common_frame, Fields}
use hwphonelink.StreamFile.Backed.{file_after}
use hwphonelink.StreamFile.Delivery.{deliver_rest}
use hwphonelink.StreamFile.Run.{fill_all-sent, fill_all, IsDelivered, IsReader}
use hwphonelink.StreamFile.Invariant.{sf_on_data_all}
use hwphonelink.StreamFile.Sends.{
  frame_fields, fill_queued, sf_send_frame, Draw, fill_active, sf_fill, meta_payload,
}
use hwphonelink.StreamFile.Receive.{sf_on_data, on_first, on_parsed, open_received, on_meta}
use hwphonelink.StreamFile.Session.{tx_started, set_recv_dir, stream_file_new, start_send}
use hwphonelink.StreamFile.FrameTrip.{sf_send_frame-some, sf_on_data-frame, HasNonce, IsCipher}
use hwphonelink.StreamFile.Names.{expected_sha_of}
use hwphonelink.StreamFile.State.{
  rx_meta, truncate_file, sf_rx_data, Rx, StreamFile, Halves, vtp_chunk, SfIo,
}
use hwphonelink.Prelude.{
  sym, ap, suc, ◌∙◌, ◌+◌, arith, ◌++◌, ◌%◌, ◌∷◌, ◌^◌, ◌<◌, length, ◌≡◌, ℕ, List, [], some, true,
  refl,
}

module _ (io : SfIo) (key content name dir : List ℕ) (cipher : IsCipher io key)
    (small : length content < 2 ^ 63) (good : IsFileName name)
    (opens : io.can_open (io.build_filename dir name) ≡ true) where
  abbrev pub sender : Halves
  sender = (start_send (some (length content)) true name (stream_file_new key)).0.halves

  abbrev pub receiver : StreamFile
  receiver = set_recv_dir (some dir) (stream_file_new key)

  abbrev pub path : List ℕ
  path = io.build_filename dir name

  started : sender ≡ record (stream_file_new key).halves { tx = tx_started (length content) name }
  unfolding start_send stream_file_new
  started = refl

  -- The receiver behind the metadata frame.
  abbrev pub opened_rx : Rx
  opened_rx = record receiver.halves.rx {
    rx_name = name;
    rx_path = some path;
    rx_fd = true;
    rx_sha = some [];
    rx_total = length content;
    rx_received = 0;
    rx_expected_sha = expected_sha_of name;
    rx_state = sf_rx_data;
  }

  on_meta-meta_payload : on_meta io receiver.halves dir (meta_payload sender.tx) ≡ record {
    halves = record receiver.halves { rx = opened_rx };
    out = truncate_file path ∷ rx_meta name (length content) ∷ [];
    cont = true;
  }
  unfolding on_meta open_received meta_payload start_send stream_file_new
  on_meta-meta_payload =
      let (a, b, d, e) =
        meta_parts (length content) (length name % 2 ^ 16) name (omega arith) (omega arith) in
      let fits = good.fits in
      on_meta-good io receiver.halves dir (meta_payload (tx_started (length content) name)) name
        good (b ∙ omega arith) d e
      ∙ rw (a, opens, open_received) refl

  pub fill-meta :
      (d : Draw) (msg : List ℕ)
      → sf_send_frame io d key (meta_payload sender.tx) ≡ some msg
      → sf_fill io d sender
        ≡ (record sender { tx = record sender.tx { tx_meta_sent = true } }, fill_queued msg, [])
  unfolding sf_fill fill_active start_send stream_file_new
  fill-meta d msg e = rw e refl

  pub arrives_meta :
      (msg : List ℕ) (f : Fields)
      → parse_common_frame io.decrypt msg key vtp_chunk ≡ some (f, meta_payload sender.tx)
      → sf_on_data io receiver msg ≡ (
        record receiver { halves = record receiver.halves { rx = opened_rx }; rxbuf = [] },
        truncate_file path ∷ rx_meta name (length content) ∷ [],
      )
  unfolding on_parsed on_first stream_file_new set_recv_dir
  arrives_meta msg f e =
      sf_on_data-frame io receiver msg (f, meta_payload sender.tx)
        (record {
          halves = record receiver.halves { rx = opened_rx };
          out = truncate_file path ∷ rx_meta name (length content) ∷ [];
          cont = true;
        })
        refl refl refl e on_meta-meta_payload refl

  -- The two calls for the metadata, and then what completes the file.
  opened_then :
      (old msg : List ℕ) (frames : List (List ℕ)) (s : StreamFile)
      → sf_on_data io receiver msg ≡ (s, truncate_file path ∷ rx_meta name (length content) ∷ [])
      → IsDelivered io name path content [] (sf_on_data_all io s frames)
      → IsDelivered io name path content old (sf_on_data_all io receiver (msg ∷ frames))
  unfolding sf_on_data_all file_after
  opened_then old msg frames s e d =
      let eq : sf_on_data_all io receiver (msg ∷ frames) ≡ (
        (sf_on_data_all io s frames).0,
        truncate_file path ∷ rx_meta name (length content) ∷ (sf_on_data_all io s frames).1,
      ) =
        ap (λ r. ((sf_on_data_all io r.0 frames).0, r.1 ++ (sf_on_data_all io r.0 frames).1)) e in
      rw eq (record {
        is_done = d.is_done;
        nothing_left = d.nothing_left;
        written = d.written;
        before = truncate_file path ∷ rx_meta name (length content) ∷ d.before;
        reported = ap (λ out. truncate_file path ∷ rx_meta name (length content) ∷ out) d.reported;
      })

  module _ (reader : IsReader io content) (not_empty : 0 < length content)
      (writes : (bytes : List ℕ) (at : ℕ)
        → at + length bytes < 2 ^ 63
        → io.pwrite bytes at ≡ some (length bytes))
      (draws : ℕ → Draw) (random : (n : ℕ) → HasNonce (draws n)) where
    frame_by_frame :
        (old : List ℕ)
        → let f = fill_all io draws (suc (suc (length content))) sender in
          (msg : List ℕ) × (frames : List (List ℕ)) × (f.ended ≡ true)
          × (f.frames ≡ msg ∷ frames)
          × IsDelivered io name path content old (sf_on_data_all io receiver (msg ∷ frames))
    unfolding stream_file_new start_send meta_payload set_recv_dir
    frame_by_frame old =
        let n = suc (length content) in
        let (_, _, _, size) =
          meta_parts (length content) (length name % 2 ^ 16) name (omega arith) (omega arith) in
        let fits = good.fits in
        let (msg, sent, parsed) =
          sf_send_frame-some io (draws n) key (meta_payload sender.tx) cipher (random n)
            (omega (arith, size)) in
        let c = record sender { tx = record sender.tx { tx_meta_sent = true } } in
        let q = fill-meta (draws n) msg sent in
        let g = fill_all io draws n c in
        let eq : fill_all io draws (suc n) sender
            ≡ record { frames = msg ∷ g.frames; ended = g.ended } =
          fill_all-sent io draws n sender msg (ap (λ r. r.1) q)
          ∙ ap
              (λ r. record {
                frames = msg ∷ (fill_all io draws n r.0).frames;
                ended = (fill_all io draws n r.0).ended;
              })
              q in
        let s = record receiver {
          halves = record receiver.halves { rx = opened_rx };
          rxbuf = [];
        } in
        let i =
          deliver_rest io key content name path cipher reader small writes draws random
            (length content) [] content c s refl not_empty (omega arith)
            (record { sends = refl; meta_sent = refl; has_fd = refl; offset = refl; tx_key = refl })
            (record {
              not_closed = refl;
              no_rest = refl;
              rx_key = refl;
              receives = refl;
              announced = refl;
              counted = refl;
              hashed_pre = refl;
              named = refl;
              at_path = refl;
              wants_sha = refl;
            }) in
        (
          msg,
          g.frames,
          ap (λ r. r.ended) eq ∙ i.0,
          ap (λ r. r.frames) eq,
          opened_then old msg g.frames s (arrives_meta msg (frame_fields (draws n).now) parsed) i.1,
        )

-- The sender comes to its end, and the receiver of its bytes, in any pieces, to that of the file.
pub sf_fill-IsDelivered :
    (io : SfIo) (key content name dir old chunk : List ℕ) (chunks : List (List ℕ))
    (draws : ℕ → Draw)
    → IsCipher io key
    → IsReader io content
    → length content < 2 ^ 63
    → 0 < length content
    → IsFileName name
    → io.can_open (io.build_filename dir name) ≡ true
    → ((bytes : List ℕ) (at : ℕ)
        → at + length bytes < 2 ^ 63
        → io.pwrite bytes at ≡ some (length bytes))
    → ((n : ℕ) → HasNonce (draws n))
    → flatten (chunk ∷ chunks)
      ≡ flatten
          (fill_all io draws
            (suc (suc (length content)))
            (start_send (some (length content)) true name (stream_file_new key)).0.halves).frames
    → let c = (start_send (some (length content)) true name (stream_file_new key)).0.halves in
      ((fill_all io draws (suc (suc (length content))) c).ended ≡ true)
      × IsDelivered io name
          (io.build_filename dir name)
          content
          old
          (sf_on_data_all io (set_recv_dir (some dir) (stream_file_new key)) (chunk ∷ chunks))
unfolding stream_file_new set_recv_dir
sf_fill-IsDelivered io key content name dir old chunk chunks draws cipher reader small pos good
      opens writes random p =
    let s = set_recv_dir (some dir) (stream_file_new key) in
    let (msg, frames, ended, e, d) =
      frame_by_frame io key content name dir cipher small good opens reader pos writes draws random
        old in
    let q = p ∙ ap flatten e in
    let same : sf_on_data_all io s (chunk ∷ chunks) ≡ sf_on_data_all io s (msg ∷ frames) =
      sf_on_data_all-flatten io s dir chunk chunks refl
      ∙ ap (sf_on_data io s) q
      ∙ sym (sf_on_data_all-flatten io s dir msg frames refl) in
    (ended, rw same d)
