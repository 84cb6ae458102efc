-- ===== src/Softbus/Buffer.antt =====
-- src/proto/softbus_frame.c: the stream buffer. Its state is the list of the buffered bytes.
use hwphonelink.Softbus.Frame.{frame_unpack, consumed, corrupt, incomplete, UnpackResult, Frame}
use hwphonelink.Prelude.{
  drop, copy, ltb, if◌then◌else◌, length, ◌++◌, ℕ, Option, List, [], some, none,
}

-- `softbus_frame_buf_new`.
abbrev pub buf_new : List ℕ
buf_new = []

-- `softbus_frame_buf_append` with arguments that are not NULL.
unfoldable pub buf_append : List ℕ → List ℕ → List ℕ
buf_append buf chunk = buf ++ chunk

-- `softbus_frame_buf_pending`.
unfoldable pub buf_pending : List ℕ → ℕ
buf_pending buf = length buf

-- `softbus_frame_buf_reset`.
unfoldable pub buf_reset : List ℕ → List ℕ
buf_reset buf = []

-- The results of `softbus_frame_buf_pop`: TRUE, FALSE without an error, FALSE with one.
pub data Popped : Type 0 where
  popped : Popped
  need_more : Popped
  failed : Popped

-- The copy of the payload that the caller owns.
unfoldable pub own_copy : Option (List ℕ) → ℕ → Option (List ℕ)
own_copy none n = none
own_copy (some p) n = if ltb 0 n then some (copy n p) else none

-- `softbus_frame_buf_pop`: the result, the buffer and the frame. The loop never gets to a second
-- round.
unfoldable pub pop_result : List ℕ → UnpackResult × Frame → Popped × List ℕ × Frame
pop_result buf (consumed n, f) =
    (popped, drop n buf, record f { payload = own_copy f.payload f.payload_len })
pop_result buf (corrupt, f) = (failed, [], f)
pop_result buf (incomplete, f) = (need_more, buf, f)

unfoldable pub buf_pop : List ℕ → Frame → Popped × List ℕ × Frame
buf_pop buf frame =
    if ltb 0 (length buf) then pop_result buf (frame_unpack buf frame) else (need_more, buf, frame)
