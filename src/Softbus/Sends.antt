-- ===== src/Softbus/Sends.antt =====
-- `softbus_session_send` of src/proto/softbus_session.c, and the way of its messages to the callback
-- of the other side.
use hwphonelink.Softbus.Session.{pump_chunks}
use mathlib.Core.List.{flatten}
use hwphonelink.Softbus.Buffer.{buf_new, own_copy}
use hwphonelink.Softbus.Stream.{pump_chunks-send_all, send_all-cons, AllFit, send_all, received}
use hwphonelink.Softbus.RoundTrip.{frame_pack_lem, frame_total, frame_wire, FitsFrame}
use hwphonelink.Softbus.Frame.{frame_pack, Frame}
use hwphonelink.Prelude.{
  ◌∙◌, copy-all, ap, suc, sym, map, not, arith, ltb, ◌<◌, ◌≤◌, ◌++◌, ◌&&◌, ◌≡◌, length, ◌^◌,
  if◌then◌else◌, ◌∷◌, ◌%◌, Bool, ◌+◌, ℕ, Option, List, [], some, none, false, true, refl,
}

-- What `softbus_session_send` uses of the private data.
pub record Session : Type 0 where
  pub own_session_id : List ℕ
  pub session_type : ℕ
  pub session_seq : ℕ
  pub running : Bool

-- The session behind a call, the bytes that went out, and the result of the call. Of a write that
-- fails none is kept here.
pub record Sent : Type 0 where
  pub session : Session
  pub wire : List ℕ
  pub ok : Bool

abbrev pub is_null : Option (List ℕ) → Bool
is_null none = true
is_null (some bytes) = false

-- The frame of a message, where the counter was stepped.
unfoldable pub session_frame : Session → Option (List ℕ) → ℕ → Frame
session_frame s payload len = record {
  session_id = s.own_session_id;
  seq = s.session_seq;
  type = s.session_type;
  flags = 1;
  pkt_flags = 0;
  ext_len = 0;
  payload = payload;
  payload_len = len;
}

-- SESSION_WIRE_CAP.
abbrev pub wire_cap : ℕ
wire_cap = 24 + 65507 + 64

-- Behind `softbus_frame_pack`: `write_all` says whether `g_output_stream_write_all` succeeds.
unfoldable pub write_frame : (List ℕ → Bool) → Session → Option (List ℕ) → Sent
write_frame write_all s none = record { session = s; wire = []; ok = false }
write_frame write_all s (some bytes) =
    if write_all bytes
    then record { session = s; wire = bytes; ok = true }
    else record { session = s; wire = []; ok = false }

abbrev pub stepped : Session → Session
stepped s = record s { session_seq = (s.session_seq + 1) % 2 ^ 32 }

-- `softbus_session_send`: `payload` is `none` for NULL.
unfoldable pub session_send : (List ℕ → Bool) → Option (List ℕ) → ℕ → Session → Sent
unfolding write_frame session_frame
session_send write_all payload len s =
    if is_null payload && ltb 0 len
    then record { session = s; wire = []; ok = false }
    else if not s.running
    then record { session = s; wire = []; ok = false }
    else write_frame write_all (stepped s)
        (frame_pack (session_frame (stepped s) payload len) wire_cap)

-- Messages sent one after the other: all bytes that went out.
unfoldable pub send_messages : (List ℕ → Bool) → List (List ℕ) → Session → List ℕ
unfolding session_send
send_messages write_all [] s = []
send_messages write_all (m ∷ ms) s =
    let sent = session_send write_all (some m) (length m) s in
    sent.wire ++ send_messages write_all ms sent.session

-- The frames of the messages.
message_frames : List (List ℕ) → Session → List Frame
message_frames [] s = []
message_frames (m ∷ ms) s =
    session_frame (stepped s) (some m) (length m) ∷ message_frames ms (stepped s)

-- Messages that fit a frame.
abbrev pub AllShort : List (List ℕ) → Type 0
AllShort [] = Unit
AllShort (m ∷ ms) = (length m ≤ 65507) × AllShort ms

-- What the callback is given of a frame.
abbrev pub message_of : Frame → List ℕ
message_of f = elim f.payload [ none ↦ [] | some bytes ↦ bytes ]

module _ (write_all : List ℕ → Bool) (writes : (bytes : List ℕ) → write_all bytes ≡ true) where
  session_frame-FitsFrame :
      (s : Session) (m : List ℕ)
      → length s.own_session_id ≡ 8
      → s.session_type < 2 ^ 8
      → s.session_seq < 2 ^ 32
      → length m ≤ 65507
      → FitsFrame (session_frame s (some m) (length m)) m
  unfolding session_frame
  session_frame-FitsFrame s m h t q l = record {
    session_id = h;
    seq = q;
    type = t;
    flags = omega arith;
    pkt_flags = omega arith;
    ext_len = omega arith;
    payload = refl;
    payload_len = refl;
    bounded = omega arith;
  }

  session_send-wire :
      (s : Session) (m : List ℕ)
      → s.running ≡ true
      → FitsFrame (session_frame (stepped s) (some m) (length m)) m
      → session_send write_all (some m) (length m) s ≡ record {
        session = stepped s;
        wire = frame_wire (session_frame (stepped s) (some m) (length m)) m;
        ok = true;
      }
  unfolding session_send write_frame frame_total session_frame
  session_send-wire s m r h =
      let f = session_frame (stepped s) (some m) (length m) in
      let b = h.bounded in
      let p = frame_pack_lem f m wire_cap h (omega arith) in
      let e : not s.running ≡ false = ap not r in
      rw (e, session_send)
        (ap (write_frame write_all (stepped s)) p ∙ rw (writes (frame_wire f m), write_frame) refl)

  send_messages-send_all :
      (ms : List (List ℕ)) (s : Session)
      → length s.own_session_id ≡ 8
      → s.session_type < 2 ^ 8
      → s.running ≡ true
      → AllShort ms
      → (send_messages write_all ms s ≡ send_all (message_frames ms s))
        × AllFit (message_frames ms s)
  unfolding send_messages message_frames send_all
  send_messages-send_all [] s h t r a = (refl, tt)
  send_messages-send_all (m ∷ ms) s h t r a =
      let f = session_frame-FitsFrame (stepped s) m h t (omega arith) a.0 in
      let (i, j) = send_messages-send_all ms (stepped s) h t r a.1 in
      let frame = session_frame (stepped s) (some m) (length m) in
      (
        rw (session_send-wire s m r f, i)
            (sym (send_all-cons frame m (message_frames ms (stepped s)) f)),
        ((m, f), j),
      )

  messages_received :
      (ms : List (List ℕ)) (s : Session) → map message_of (map received (message_frames ms s)) ≡ ms
  unfolding message_frames received session_frame own_copy
  messages_received [] s = refl
  messages_received ([] ∷ ms) s = ap (λ rest. [] ∷ rest) (messages_received ms (stepped s))
  messages_received ((x ∷ m) ∷ ms) s =
      let e : ltb 0 (suc (length m)) ≡ true = ground arith in
      rw (e, copy-all (suc (length m)) (x ∷ m) refl)
        (ap (λ rest. (x ∷ m) ∷ rest) (messages_received ms (stepped s)))

-- Messages of at most 65507 bytes, sent one after the other by a running session whose writes
-- succeed, come to the callback of the other side, all of them and in order, in whatever chunks the
-- bytes arrive, and leave no byte in its buffer. The session id has 8 bytes and the type fits a
-- byte.
pub pump_chunks-send_messages :
    (write_all : List ℕ → Bool) (ms chunks : List (List ℕ)) (s : Session) (g : Frame)
    → ((bytes : List ℕ) → write_all bytes ≡ true)
    → length s.own_session_id ≡ 8
    → s.session_type < 2 ^ 8
    → s.running ≡ true
    → AllShort ms
    → flatten chunks ≡ send_messages write_all ms s
    → let r = pump_chunks chunks buf_new g in (map message_of r.0 ≡ ms) × (r.1 ≡ [])
pump_chunks-send_messages write_all ms chunks s g writes h t r a e =
    let (wire, fit) = send_messages-send_all write_all writes ms s h t r a in
    let q = pump_chunks-send_all (message_frames ms s) chunks g fit (e ∙ wire) in
    rw q (messages_received write_all writes ms s, refl)
