-- ===== src/StreamFile/Outcome.antt =====
-- What `sf_process_frame` of src/proto/stream_file.c does with a frame while the receiving half is
-- not over.
use hwphonelink.StreamFile.Names.{c_str, bad_name}
use hwphonelink.Vtp.Frame.{parse_common_frame, Fields}
use hwphonelink.StreamFile.Receive.{
  stored, wrote_all, finish, open_received, rx_over, failing, process_frame, on_parsed, on_first,
  on_chunk, on_meta, Processed,
}
use hwphonelink.StreamFile.State.{
  sf_rx_failed, sf_rx_done, write_at, vtp_chunk, sf_rx_data, sf_rx_wait, RxState, Halves, SfIo,
}
use hwphonelink.Prelude.{
  ◌∷◌, arith, get_u64, ◌≤◌, ◌||◌, ◌^◌, not, ◌%◌, copy, ◌+◌, ltb, ◌==◌, skip, length, get_u16,
  if◌then◌else◌, ℕ, Option, List, ◌≡◌, Bool, [], some, none, false, true, refl,
}

-- The four ways that the function goes.
pub data FrameOutcome (io : SfIo) (c : Halves) : Processed → Type 0 where
  refused : FrameOutcome io c (failing c)
  opened :
      (dir : List ℕ) (total : ℕ) (name : List ℕ)
      → c.rx.rx_state ≡ sf_rx_wait
      → c.rx.recv_dir ≡ some dir
      → bad_name name ≡ false
      → FrameOutcome io c (open_received io c dir total name)
  no_bytes : c.rx.rx_state ≡ sf_rx_data → FrameOutcome io c (finish io c [])
  chunk_stored :
      (chunk : List ℕ)
      → c.rx.rx_state ≡ sf_rx_data
      → (c.rx.rx_received + length chunk) % 2 ^ 64 ≤ c.rx.rx_total
      → wrote_all (io.pwrite chunk c.rx.rx_received) (length chunk) ≡ true
      → FrameOutcome io c
          (finish io (record c { rx = stored c.rx chunk }) (write_at chunk c.rx.rx_received ∷ []))

module _ (io : SfIo) (c : Halves) where
  FrameOutcome-if :
      (b : Bool) {x y : Processed}
      → (b ≡ true → FrameOutcome io c x)
      → (b ≡ false → FrameOutcome io c y)
      → FrameOutcome io c (if b then x else y)
  FrameOutcome-if true p q = p refl
  FrameOutcome-if false p q = q refl

  on_meta-FrameOutcome :
      (dir payload : List ℕ)
      → c.rx.rx_state ≡ sf_rx_wait
      → c.rx.recv_dir ≡ some dir
      → FrameOutcome io c (on_meta io c dir payload)
  unfolding on_meta
  on_meta-FrameOutcome dir payload s d =
      let name_len = get_u16 (skip 8 payload) in
      let name = c_str (copy name_len (skip 10 payload)) in
      FrameOutcome-if (ltb (length payload) 10) (λ _. refused)
        (λ _.
          FrameOutcome-if (not (length payload == 10 + name_len)) (λ _. refused)
            (λ _.
              FrameOutcome-if (name_len == 0 || bad_name name) (λ _. refused)
                (λ e. opened dir (get_u64 payload) name s d (ground (arith, e)))))

  on_chunk-FrameOutcome :
      (chunk : List ℕ) → c.rx.rx_state ≡ sf_rx_data → FrameOutcome io c (on_chunk io c chunk)
  unfolding on_chunk
  on_chunk-FrameOutcome chunk s =
      FrameOutcome-if (length chunk == 0) (λ _. no_bytes s)
        (λ _.
          FrameOutcome-if (ltb c.rx.rx_total ((c.rx.rx_received + length chunk) % 2 ^ 64))
            (λ _. refused)
            (λ l.
              FrameOutcome-if (not (wrote_all (io.pwrite chunk c.rx.rx_received) (length chunk)))
                (λ _. refused) (λ w. chunk_stored chunk s (ground (arith, l)) (ground (arith, w)))))

  on_first-FrameOutcome :
      (o : Option (List ℕ)) (payload : List ℕ)
      → c.rx.rx_state ≡ sf_rx_wait
      → c.rx.recv_dir ≡ o
      → FrameOutcome io c (on_first io c o payload)
  unfolding on_first
  on_first-FrameOutcome none payload s d = refused
  on_first-FrameOutcome (some dir) payload s d = on_meta-FrameOutcome dir payload s d

  on_parsed-FrameOutcome :
      (st : RxState) (o : Option (Fields × List ℕ))
      → c.rx.rx_state ≡ st
      → rx_over st ≡ false
      → FrameOutcome io c (on_parsed io st c o)
  unfolding on_parsed
  on_parsed-FrameOutcome sf_rx_wait none s e = refused
  on_parsed-FrameOutcome sf_rx_wait (some p) s e = on_first-FrameOutcome c.rx.recv_dir p.1 s refl
  on_parsed-FrameOutcome sf_rx_data none s e = refused
  on_parsed-FrameOutcome sf_rx_data (some p) s e = on_chunk-FrameOutcome p.1 s
  on_parsed-FrameOutcome sf_rx_done o s e = absurd (cc)
  on_parsed-FrameOutcome sf_rx_failed o s e = absurd (cc)

  pub process_frame-FrameOutcome :
      (frame : List ℕ)
      → rx_over c.rx.rx_state ≡ false
      → FrameOutcome io c (process_frame io c frame)
  unfolding process_frame
  process_frame-FrameOutcome frame e =
      FrameOutcome-if (rx_over c.rx.rx_state) (λ t. absurd (cc))
        (λ _.
          on_parsed-FrameOutcome c.rx.rx_state (parse_common_frame io.decrypt frame c.key vtp_chunk)
            refl e)
