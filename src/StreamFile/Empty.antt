-- ===== src/StreamFile/Empty.antt =====
-- An empty file in src/proto/stream_file.c.
use hwphonelink.StreamFile.Metadata.{meta_parts, IsFileName}
use hwphonelink.StreamFile.Receive.{sf_on_data}
use hwphonelink.StreamFile.Stream.{sf_on_data_all-flatten}
use mathlib.Core.List.{append-nil, flatten}
use hwphonelink.StreamFile.EndToEnd.{arrives_meta, fill-meta}
use hwphonelink.StreamFile.FrameTrip.{sf_send_frame-some, HasNonce, IsCipher}
use hwphonelink.StreamFile.State.{rx_meta, truncate_file, sf_rx_data, vtp_chunk, SfIo}
use hwphonelink.StreamFile.Invariant.{sf_on_data_all}
use hwphonelink.StreamFile.Run.{fill_all-end, fill_all-sent, fill_all}
use hwphonelink.StreamFile.Sends.{
  fill_end, frame_fields, Draw, fill_chunk, fill_active, sf_fill, meta_payload,
}
use hwphonelink.StreamFile.Session.{tx_started, start_send, set_recv_dir, stream_file_new}
use hwphonelink.Prelude.{
  ◌∙◌, ap, ◌%◌, arith, ◌^◌, ◌<◌, length, ◌∷◌, ◌≡◌, ℕ, List, [], some, true, refl,
}

-- The call of `sf_fill` behind the metadata frame.
fill-nothing :
    (io : SfIo) (d : Draw) (key name : List ℕ)
    → io.pread vtp_chunk 0 ≡ some []
    → let t = tx_started 0 name in
      (sf_fill io d
        (record (stream_file_new key).halves { tx = record t { tx_meta_sent = true } })).1
      ≡ fill_end
unfolding sf_fill fill_active fill_chunk stream_file_new
fill-nothing io d key name e = rw e refl

-- An empty file, sent under a name that the receiver takes: `sf_fill` comes to its end behind the
-- metadata frame, and the bytes that it queued, delivered in any pieces to a new session with the
-- same key and a receive directory, leave that session waiting for data: it has created the file
-- and told of the metadata, and reports no end of the transfer. The cipher opens what it seals,
-- each call gets a nonce, `pread` gives no byte of the file, and the receiver can create it.
pub sf_fill-empty :
    (io : SfIo) (key name dir chunk : List ℕ) (chunks : List (List ℕ)) (draws : ℕ → Draw)
    → IsCipher io key
    → io.pread vtp_chunk 0 ≡ some []
    → IsFileName name
    → io.can_open (io.build_filename dir name) ≡ true
    → ((n : ℕ) → HasNonce (draws n))
    → flatten (chunk ∷ chunks)
      ≡ flatten
          (fill_all io draws 2
            (start_send (some 0) true name (stream_file_new key)).0.halves).frames
    → let c = (start_send (some 0) true name (stream_file_new key)).0.halves in
      let r = sf_on_data_all io (set_recv_dir (some dir) (stream_file_new key)) (chunk ∷ chunks) in
      ((fill_all io draws 2 c).ended ≡ true)
      × (r.0.halves.rx.rx_state ≡ sf_rx_data)
      × (r.1 ≡ truncate_file (io.build_filename dir name) ∷ rx_meta name 0 ∷ [])
unfolding stream_file_new set_recv_dir start_send meta_payload flatten
sf_fill-empty io key name dir chunk chunks draws cipher at_end good opens random p =
    let small : length {A = ℕ} [] < 2 ^ 63 = omega arith in
    let s = set_recv_dir (some dir) (stream_file_new key) in
    let c = (start_send (some 0) true name (stream_file_new key)).0.halves in
    let c' = record c { tx = record c.tx { tx_meta_sent = true } } in
    let (_, _, _, size) = meta_parts 0 (length name % 2 ^ 16) name (omega arith) (omega arith) in
    let fits = good.fits in
    let (msg, sent, parsed) =
      sf_send_frame-some io (draws 1) key (meta_payload c.tx) cipher (random 1)
        (omega (arith, size)) in
    let q = fill-meta io key [] name dir cipher small good opens (draws 1) msg sent in
    let a =
      arrives_meta io key [] name dir cipher small good opens msg (frame_fields (draws 1).now)
        parsed in
    let eq : fill_all io draws 2 c ≡ record { frames = msg ∷ []; ended = true } =
      fill_all-sent io draws 1 c msg (ap (λ r. r.1) q)
      ∙ ap
          (λ r. record {
            frames = msg ∷ (fill_all io draws 1 r.0).frames;
            ended = (fill_all io draws 1 r.0).ended;
          })
          q
      ∙ ap (λ r. record { frames = msg ∷ r.frames; ended = r.ended })
          (fill_all-end io draws 0 c' (fill-nothing io (draws 0) key name at_end)) in
    let p' : flatten (chunk ∷ chunks) ≡ msg = p ∙ ap (λ r. flatten r.frames) eq ∙ append-nil msg in
    let same = sf_on_data_all-flatten io s dir chunk chunks refl ∙ ap (sf_on_data io s) p' ∙ a in
    (ap (λ r. r.ended) eq, ap (λ r. r.0.halves.rx.rx_state) same, ap (λ r. r.1) same)
