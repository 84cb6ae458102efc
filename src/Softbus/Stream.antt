-- ===== src/Softbus/Stream.antt =====
-- A stream of packed frames, received in chunks of any sizes by the read loop of
-- src/proto/softbus_session.c, gives back the frames.
use hwphonelink.Softbus.Session.{next, pump_chunks, pop_all}
use mathlib.Core.List.{append_assoc, append-nil, flatten}
use native.Mathlib.Decide.{dec_lt}
use hwphonelink.Softbus.RoundTrip.{
  frame_pack_lem, frame_unpack-header, frame_total_bounds, frame_unpack-frame_pack,
  length-frame_header, frame_unpack-short, length-frame_wire, frame_body, frame_total, frame_wire,
  FitsFrame,
}
use hwphonelink.Softbus.Buffer.{
  buf_new, need_more, popped, buf_append, pop_result, own_copy, buf_pop,
}
use hwphonelink.Softbus.Frame.{frame_header, min_size, frame_pack, Frame}
use hwphonelink.Prelude.{
  ◌∙◌, map, ap, length-append, copy-all, copy-append, drop-append, replicate, sym, arith, ◌+◌, ◌<◌,
  ◌≤◌, length, ◌≡◌, Option, ◌++◌, ◌∷◌, List, ℕ, [], some, none, refl, suc, zero,
}

-- The bytes of the frames, each packed into a buffer of its size.
unfoldable pub send_all : List Frame → List ℕ
send_all [] = []
send_all (f ∷ fs) = get_or_nil (frame_pack f (min_size + f.payload_len + f.ext_len)) ++ send_all fs
  where
    get_or_nil : Option (List ℕ) → List ℕ
    get_or_nil none = []
    get_or_nil (some w) = w

abbrev pub AllFit : List Frame → Type 0
AllFit [] = Unit
AllFit (f ∷ fs) = ((bytes : List ℕ) × FitsFrame f bytes) × AllFit fs

-- A frame as the reader gets it: an empty payload is NULL.
unfoldable pub received : Frame → Frame
received f = record f { payload = own_copy f.payload f.payload_len }

buf_pop-whole :
    (f : Frame) (bytes rest : List ℕ) (g : Frame)
    → FitsFrame f bytes
    → buf_pop (frame_wire f bytes ++ rest) g ≡ (popped, rest, received f)
unfolding buf_pop pop_result received own_copy
buf_pop-whole f bytes rest g h =
    let w = frame_wire f bytes in
    let lw = length-frame_wire f bytes h in
    let z = replicate f.ext_len 0 ++ rest in
    rw
      (
        frame_unpack-frame_pack f bytes rest g h,
        drop-append (frame_total f) w rest lw,
        h.payload,
        copy-append f.payload_len bytes z (sym h.payload_len),
        copy-all f.payload_len bytes (sym h.payload_len),
      )
      (ground (arith, length-append w rest, lw, frame_total_bounds f h.bounded))

append-split :
    (w s xs ys : List ℕ)
    → xs ++ ys ≡ w ++ s
    → length w ≤ length xs
    → (zs : List ℕ) × (xs ≡ w ++ zs) × (zs ++ ys ≡ s)
append-split [] s xs ys e h = (xs, refl, e)
append-split (b ∷ w) s [] ys e h = absurd (omega arith)
append-split (b ∷ w) s (x ∷ xs) ys e h =
    let (zs, p, q) = append-split w s xs ys (cc) (omega arith) in (zs, cc, q)

buf_pop-part :
    (f : Frame) (bytes p q : List ℕ) (g : Frame)
    → FitsFrame f bytes
    → frame_wire f bytes ≡ p ++ q
    → length p < frame_total f
    → buf_pop p g ≡ (need_more, p, g)
unfolding buf_pop pop_result frame_wire
buf_pop-part f bytes p q g h e l = elim (dec_lt (length p) 8) [
  | yes short ↦ rw (frame_unpack-short p g short) (ground arith)
  | no long ↦
      let hd = frame_header f.flags (frame_total f) in
      let lh = length-frame_header f.flags (frame_total f) in
      let bd = frame_total_bounds f h.bounded in
      let (p', c, d) = append-split hd (frame_body f bytes) p q (sym e) (omega arith) in
      rw (c, frame_unpack-header f.flags (frame_total f) p' g h.flags bd.0 bd.1)
        (ground (arith, ap length c, length-append hd p', lh))
]

-- A frame in `send_all` is its bytes.
pub send_all-cons :
    (f : Frame) (bytes : List ℕ) (fs : List Frame)
    → FitsFrame f bytes
    → send_all (f ∷ fs) ≡ frame_wire f bytes ++ send_all fs
unfolding send_all frame_total
send_all-cons f bytes fs h = rw (frame_pack_lem f bytes (frame_total f) h (omega arith))

send_all-nil : (fs : List Frame) → AllFit fs → send_all fs ≡ [] → fs ≡ []
send_all-nil [] h e = refl
send_all-nil (f ∷ fs) h e =
    let (bytes, k) = h.0 in
    absurd (
      omega (
        arith,
        ap length e,
        ap length (send_all-cons f bytes fs k),
        length-append (frame_wire f bytes) (send_all fs),
        length-frame_wire f bytes k,
        (frame_total_bounds f k.bounded).0,
      ))

-- What the loop makes of a buffer that `rest` continues to the bytes of `fs`.
record Splits (fs : List Frame) (rest : List ℕ) (r : List Frame × List ℕ) : Type 0 where
  done : List Frame
  todo : List Frame
  all : fs ≡ done ++ todo
  got : r.0 ≡ map received done
  left : r.1 ++ rest ≡ send_all todo
  fit : AllFit todo
  complete : rest ≡ [] → todo ≡ []

pop_all-part :
    (n : ℕ) (buf : List ℕ) (g : Frame)
    → buf_pop buf g ≡ (need_more, buf, g)
    → pop_all n buf g ≡ ([], buf)
unfolding pop_all next
pop_all-part zero buf g e = refl
pop_all-part (suc n) buf g e = ap (λ p. next p (pop_all n p.1 p.2)) e

pop_all-whole :
    (n : ℕ) (buf rest : List ℕ) (g f : Frame)
    → buf_pop buf g ≡ (popped, rest, f)
    → pop_all (suc n) buf g ≡ (f ∷ (pop_all n rest f).0, (pop_all n rest f).1)
unfolding pop_all next
pop_all-whole n buf rest g f e = ap (λ p. next p (pop_all n p.1 p.2)) e

buf_pop-empty : (g : Frame) → buf_pop [] g ≡ (need_more, [], g)
unfolding buf_pop
buf_pop-empty g = refl

-- The first frame is not all there.
stop :
    (fs : List Frame) (buf rest : List ℕ) (r : List Frame × List ℕ)
    → AllFit fs
    → buf ++ rest ≡ send_all fs
    → (rest ≡ [] → fs ≡ [])
    → r ≡ ([], buf)
    → Splits fs rest r
stop fs buf rest r h e c q = record {
  done = [];
  todo = fs;
  all = refl;
  got = ap (λ p. p.0) q;
  left = rw q e;
  fit = h;
  complete = c;
}

send_nil : length (send_all []) ≡ 0
unfolding send_all
send_nil = refl

pop_all-Splits :
    (n : ℕ) (fs : List Frame) (buf rest : List ℕ) (g : Frame)
    → AllFit fs
    → length buf ≤ n
    → buf ++ rest ≡ send_all fs
    → Splits fs rest (pop_all n buf g)
pop_all-Splits n fs [] rest g h l e =
    stop fs [] rest (pop_all n [] g) h e (λ z. send_all-nil fs h (sym e ∙ z))
      (pop_all-part n [] g (buf_pop-empty g))
pop_all-Splits zero fs (x ∷ buf) rest g h l e = absurd (omega arith)
pop_all-Splits (suc n) [] (x ∷ buf) rest g h l e = absurd (omega (arith, ap length e, send_nil))
pop_all-Splits (suc n) (f ∷ fs) (x ∷ buf') rest g h l e =
    let buf = x ∷ buf' in
    let (bytes, k) = h.0 in
    let w = frame_wire f bytes in
    let lw = length-frame_wire f bytes k in
    let e' : buf ++ rest ≡ w ++ send_all fs = e ∙ send_all-cons f bytes fs k in
    elim (dec_lt (length buf) (frame_total f)) [
      | yes short ↦
          let (q, a, b) = append-split buf rest w (send_all fs) (sym e') (omega (arith, lw)) in
          stop (f ∷ fs) buf rest (pop_all (suc n) buf g) h e
            (λ z. absurd (
              omega (
                arith,
                lw,
                ap length e',
                ap length z,
                length-append buf rest,
                length-append w (send_all fs),
              )))
            (pop_all-part (suc n) buf g (buf_pop-part f bytes buf q g k a short))
      | no long ↦
          let (zs, a, b) = append-split w (send_all fs) buf rest e' (omega (arith, lw)) in
          let r = received f in
          let i =
            pop_all-Splits n fs zs rest r h.1
              (omega
                (arith, lw, ap length a, length-append w zs, (frame_total_bounds f k.bounded).0))
              b in
          let eq = pop_all-whole n buf zs g r (rw a (buf_pop-whole f bytes zs g k)) in
          record {
            done = f ∷ i.done;
            todo = i.todo;
            all = ap (λ t. f ∷ t) i.all;
            got = rw (eq, i.got);
            left = rw eq i.left;
            fit = i.fit;
            complete = i.complete;
          }
    ]

map-append : (xs ys : List Frame) → map received (xs ++ ys) ≡ map received xs ++ map received ys
map-append [] ys = refl
map-append (x ∷ xs) ys = ap (λ r. received x ∷ r) (map-append xs ys)

length_zero : (xs : List ℕ) → length xs ≡ 0 → xs ≡ []
length_zero [] h = refl
length_zero (x ∷ xs) h = absurd (omega arith)

pump_chunks_lem :
    (chunks : List (List ℕ)) (fs : List Frame) (buf : List ℕ) (g : Frame)
    → AllFit fs
    → buf ++ flatten chunks ≡ send_all fs
    → (flatten chunks ≡ [] → fs ≡ [])
    → ((pump_chunks chunks buf g).0 ≡ map received fs) × ((pump_chunks chunks buf g).1 ≡ [])
unfolding pump_chunks buf_append flatten
pump_chunks_lem [] fs buf g h e c =
    let n = c refl in
    (rw n refl, sym (append-nil buf) ∙ e ∙ rw n (length_zero (send_all []) send_nil))
pump_chunks_lem (c ∷ cs) fs buf g h e k =
    let b = buf ++ c in
    let s =
      pop_all-Splits (length b) fs b (flatten cs) g h (omega arith)
        (append_assoc buf c (flatten cs) ∙ e) in
    let i = pump_chunks_lem cs s.todo (pop_all (length b) b g).1 g s.fit s.left s.complete in
    (rw (s.got, i.0, s.all) (sym (map-append s.done s.todo)), i.1)

-- Packed frames that arrive in chunks of any sizes are handed on, all of them and in order, and
-- leave no byte in the buffer. The fields of the frames fit their widths, session ids have 8 bytes,
-- payloads are not NULL and have the length that they say, and the payload and the extension of a
-- frame together have at most 65507 bytes.
pub pump_chunks-send_all :
    (fs : List Frame) (chunks : List (List ℕ)) (g : Frame)
    → AllFit fs
    → flatten chunks ≡ send_all fs
    → pump_chunks chunks buf_new g ≡ (map received fs, [])
pump_chunks-send_all fs chunks g h e =
    let (a, b) = pump_chunks_lem chunks fs [] g h e (λ z. send_all-nil fs h (sym e ∙ z)) in cc
