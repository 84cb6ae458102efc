-- ===== src/Softbus/Session.antt =====
-- The read loop `_pump_thread` of src/proto/softbus_session.c on the stream buffer: the frames that it
-- hands to the session's callback.
use hwphonelink.Softbus.Frame.{Frame}
use hwphonelink.Prelude.{◌++◌, length, ◌∷◌, List, ℕ, [], suc, zero}
use hwphonelink.Softbus.Buffer.{buf_append, buf_pop, Popped, popped, need_more, failed}

-- One round of `while (softbus_frame_buf_pop(...))`, given what the later rounds hand on and leave.
unfoldable pub next : Popped × List ℕ × Frame → List Frame × List ℕ → List Frame × List ℕ
next (popped, left, f) rest = (f ∷ rest.0, rest.1)
next (need_more, left, f) rest = ([], left)
next (failed, left, f) rest = ([], left)

-- The loop on at most `n` rounds; what `*frame` holds at first is `g`. A round that pops removes
-- bytes, so the length of the buffer is fuel enough.
unfoldable pub pop_all : ℕ → List ℕ → Frame → List Frame × List ℕ
unfolding next
pop_all zero buf g = ([], buf)
pop_all (suc n) buf g = let p = buf_pop buf g in next p (pop_all n p.1 p.2)

-- `_pump_thread` on the chunks that the socket gives, from a buffer.
unfoldable pub pump_chunks : List (List ℕ) → List ℕ → Frame → List Frame × List ℕ
unfolding pop_all
pump_chunks [] buf g = ([], buf)
pump_chunks (c ∷ cs) buf g =
    let b = buf_append buf c in
    let now = pop_all (length b) b g in
    let later = pump_chunks cs now.1 g in (now.0 ++ later.0, later.1)
