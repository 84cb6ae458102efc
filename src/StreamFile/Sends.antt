-- ===== src/StreamFile/Sends.antt =====
-- The sending half of src/proto/stream_file.c: `sf_send_frame`, `sf_fill` and `sf_on_tx_complete`.
use hwphonelink.Vtp.Frame.{common_frame_size, build_common_frame, Fields}
use hwphonelink.StreamFile.State.{
  sf_tx_active, sf_tx_done, sf_tx_idle, sf_tx_failed, sf_done, sf_tx_done, vtp_chunk, is_active,
  SfOutput, sf_fail, Halves, Tx, StreamFile, SfIo,
}
use hwphonelink.Prelude.{
  put_u16, not, ◌+◌, ◌++◌, length, ◌^◌, if◌then◌else◌, ◌∷◌, put_u64, ◌%◌, ℕ, Option, List, [], some,
  none, true,
}

-- What `sf_fill` returns: -1, 0, or the frame that it queued.
pub data FillResult : Type 0 where
  fill_end fill_none : FillResult
  fill_queued : List ℕ → FillResult

-- What one call of `sf_fill` may take from outside: the nonce and the clock.
pub record Draw : Type 0 where
  pub nonce : Option (List ℕ)
  pub now : ℕ

-- The fields that `sf_send_frame` gives to `vtp_build_common_frame`; the mode is VTP_MODE_COMMON.
abbrev pub frame_fields : ℕ → Fields
frame_fields now = record { mode = 1; stream_type = 0; scene = 0; timestamp_ns = now % 2 ^ 32 }

-- The payload of the metadata frame.
unfoldable pub meta_payload : Tx → List ℕ
meta_payload t = put_u64 t.tx_total ++ (put_u16 (length t.tx_wire % 2 ^ 16) ++ t.tx_wire)

abbrev pub fill_failed : Halves → Halves × FillResult × List SfOutput
fill_failed c = ((sf_fail c).0, fill_none, (sf_fail c).1)

-- Behind `sf_send_frame`: the frame, and the sending half once it is queued.
abbrev pub fill_sent : Halves → Tx → Option (List ℕ) → Halves × FillResult × List SfOutput
fill_sent c t none = fill_failed c
fill_sent c t (some frame) = (record c { tx = t }, fill_queued frame, [])

module _ (io : SfIo) where
  -- `sf_send_frame`: the frame that goes into the peer's stream, or `none` for 0.
  unfoldable pub sf_send_frame : Draw → List ℕ → List ℕ → Option (List ℕ)
  sf_send_frame d key payload =
      build_common_frame io.encrypt d.nonce (common_frame_size (length payload)) key
        (frame_fields d.now) payload

  -- Behind `pread`.
  unfoldable pub fill_chunk : Draw → Halves → Option (List ℕ) → Halves × FillResult × List SfOutput
  unfolding sf_fail sf_send_frame
  fill_chunk d c none = fill_failed c
  fill_chunk d c (some []) = (c, fill_end, [])
  fill_chunk d c (some (x ∷ xs)) =
      fill_sent c (record c.tx { tx_offset = (c.tx.tx_offset + length (x ∷ xs)) % 2 ^ 64 })
        (sf_send_frame d c.key (x ∷ xs))

  unfoldable pub fill_active : Draw → Halves → Halves × FillResult × List SfOutput
  unfolding fill_chunk meta_payload
  fill_active d c =
      if not c.tx.tx_meta_sent
      then fill_sent c (record c.tx { tx_meta_sent = true })
          (sf_send_frame d c.key (meta_payload c.tx))
      else if not c.tx.tx_fd
      then (c, fill_end, [])
      else fill_chunk d c (io.pread vtp_chunk c.tx.tx_offset)

  -- `sf_fill`.
  unfoldable pub sf_fill : Draw → Halves → Halves × FillResult × List SfOutput
  unfolding fill_active
  sf_fill d c = elim c.tx.tx_state [
    | sf_tx_active ↦ fill_active d c
    | sf_tx_done ↦ (c, fill_end, [])
    | sf_tx_idle ↦ (c, fill_none, [])
    | sf_tx_failed ↦ (c, fill_none, [])
  ]

-- `sf_on_tx_complete`.
unfoldable pub sf_on_tx_complete : StreamFile → StreamFile × List SfOutput
sf_on_tx_complete s =
    if s.closed
    then (s, [])
    else if is_active s.halves.tx.tx_state
    then (
      record s { halves = record s.halves { tx = record s.halves.tx { tx_state = sf_tx_done } } },
      sf_done true true ∷ [],
    )
    else (s, [])
