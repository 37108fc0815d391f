-- ===== src/Wire/Stream.antt =====
-- `received_data` reassembles a stream of requests, however the socket cuts it up.
use ads_async.Prelude.{
  ◌+◌, ◌≤◌, ◌<◌, ◌≡◌, refl, sym, ap, ◌∙◌, some, List, [], ◌∷◌, ◌++◌, arith, length, drop, take, All,
  length-append, drop-append, take-append, take-append_le, drop-append_le, take-append-drop, ltb,
  Bool-cases, inl, inr, ltb→lt, map,
}
use mathlib.Core.List.{append_assoc, append-nil, map-append}
use mathlib.Core.Path.{subst}
use ads_async.Bytes.{Bytes}
use ads_async.Structs.Item.{serialize}
use ads_async.Wire.Defs.{yield_first, emit}
use ads_async.Wire.Defs.{
  Parsed, finished, Generated, from_wire, consume, items_of, received_data, round, stop,
}
use ads_async.Wire.Progress.{from_wire-emit, from_wire-stop}
use ads_async.Wire.Frames.{round_few, round_prefix, length-frame_bytes}
use ads_async.Wire.Requests.{Request, RequestIsValid, header_of, frame_of, round-frame_of}

-- The bytes of the requests, one after the other.
abbrev pub stream_of : List Request → Bytes
stream_of [] = []
stream_of (r ∷ rs) = frame_of r ++ stream_of rs

-- What the other side is to see.
abbrev pub parsed : Request → Parsed
parsed r = some (header_of r, r.item)

-- `received_data` for each chunk that the socket delivers: all the items, and the buffer.
unfoldable pub feed : Bytes → List Bytes → List Parsed × Bytes
feed buffer [] = ([], buffer)
feed buffer (chunk ∷ chunks) =
    let r = received_data buffer chunk in
    let (items, left) = feed r.recv_buffer chunks in (r.items ++ items, left)

abbrev pub concat : List Bytes → Bytes
concat [] = []
concat (c ∷ cs) = c ++ concat cs

-- Less than the first request of those that are left.
abbrev Short : Bytes → List Request → Type 0
Short left [] = Unit
Short left (r ∷ rs) = length left < length (frame_of r)

-- What one call has read of the requests, where `z` is what the socket has yet to deliver.
record Settled (rs : List Request) (z : Bytes) (g : Generated) (buffer : Bytes) : Type 0 where
  done : List Request
  todo : List Request
  split : rs ≡ done ++ todo
  todo_valid : All RequestIsValid todo
  yielded : items_of g.yields ≡ map parsed done
  left : consume g.yields buffer ++ z ≡ stream_of todo
  ended : g.end ≡ finished
  short : Short (consume g.yields buffer) todo

-- The first frame is not whole: nothing is read.
settle_stop :
    (rs : List Request) (b z : Bytes)
    → All RequestIsValid rs
    → b ++ z ≡ stream_of rs
    → Short b rs
    → round b ≡ stop
    → Settled rs z (from_wire b) b
unfolding items_of consume
settle_stop rs b z valid e short stopped = rw (from_wire-stop b stopped) (record {
  done = [];
  todo = rs;
  split = refl;
  todo_valid = valid;
  yielded = refl;
  left = e;
  ended = refl;
  short = short;
})

pub length-frame_of : (r : Request) → length (frame_of r) ≡ 38 + length (serialize r.item)
length-frame_of r = length-frame_bytes (header_of r) (serialize r.item)

-- The first frame is whole: it is read, and then the rest of the buffer.
settle_emit :
    (r : Request) (rs : List Request) (b z : Bytes)
    → RequestIsValid r
    → Settled rs z (from_wire b) b
    → Settled (r ∷ rs) z (from_wire (frame_of r ++ b)) (frame_of r ++ b)
unfolding items_of consume
settle_emit r rs b z valid s =
    let dropped : drop (38 + length (serialize r.item)) (frame_of r ++ b) ≡ b =
      ap (λ k. drop k (frame_of r ++ b)) (sym (length-frame_of r)) ∙ drop-append (frame_of r) b in
    let ys = (from_wire b).yields in
    subst (λ g. Settled (r ∷ rs) z g (frame_of r ++ b))
      (sym (
        from_wire-emit (frame_of r ++ b) (38 + length (serialize r.item)) (parsed r) b
          (round-frame_of r b valid)))
      (record {
        done = r ∷ s.done;
        todo = s.todo;
        split = ap (λ t. r ∷ t) s.split;
        todo_valid = s.todo_valid;
        yielded = ap (λ t. parsed r ∷ t) s.yielded;
        left = subst (λ t. consume ys t ++ z ≡ stream_of s.todo) (sym dropped) s.left;
        ended = s.ended;
        short = subst (λ t. Short (consume ys t) s.todo) (sym dropped) s.short;
      })

-- A buffer that agrees with a frame as far as it goes.
prefix_of_frame :
    (frame b z more : Bytes)
    → b ++ z ≡ frame ++ more
    → length b ≤ length frame
    → b ++ drop (length b) frame ≡ frame
prefix_of_frame frame b z more e h =
    let start : b ≡ take (length b) frame =
      sym (take-append b z) ∙ ap (take (length b)) e ∙ take-append_le (length b) frame more h in
    ap (λ t. t ++ drop (length b) frame) start ∙ take-append-drop (length b) frame

-- A buffer that begins with a whole frame.
whole_frame :
    (frame b z more : Bytes)
    → b ++ z ≡ frame ++ more
    → length frame ≤ length b
    → (frame ++ drop (length frame) b ≡ b) × (drop (length frame) b ++ z ≡ more)
whole_frame frame b z more e h =
    let k = length frame in
    let start : take k b ≡ frame =
      sym (take-append_le k b z h) ∙ ap (take k) e ∙ take-append frame more in
    (
      ap (λ t. t ++ drop k b) (sym start) ∙ take-append-drop k b,
      sym (drop-append_le k b z h) ∙ ap (drop k) e ∙ drop-append frame more,
    )

-- One call reads the requests that are whole, and leaves the rest in the buffer.
settle :
    (rs : List Request) (b z : Bytes)
    → All RequestIsValid rs
    → b ++ z ≡ stream_of rs
    → Settled rs z (from_wire b) b
settle [] b z valid e =
    let empty : length b ≡ 0 = omega (arith, ap length e, length-append b z) in
    settle_stop [] b z valid e tt (round_few b (omega arith))
settle (r ∷ rs) b z valid e = elim (Bool-cases (ltb (length b) (length (frame_of r)))) [
  | inl short ↦
      let fewer : length b < length (frame_of r) = ltb→lt _ _ short in
      settle_stop (r ∷ rs) b z valid e fewer (
        round_prefix (header_of r) (serialize r.item) b (drop (length b) (frame_of r))
          valid.0.length_fits (prefix_of_frame (frame_of r) b z (stream_of rs) e (omega arith))
          (omega (arith, length-frame_of r)))
  | inr whole ↦
      let (shape, left) = whole_frame (frame_of r) b z (stream_of rs) e (ground arith) in
      rw shape at (
        settle_emit r rs (drop (length (frame_of r)) b) z valid.0
          (settle rs (drop (length (frame_of r)) b) z valid.1 left))
]

feed_settled :
    (chunks : List Bytes) (buffer : Bytes) (rs : List Request)
    → All RequestIsValid rs
    → Short buffer rs
    → buffer ++ concat chunks ≡ stream_of rs
    → feed buffer chunks ≡ (map parsed rs, [])
unfolding feed received_data
feed_settled [] buffer [] valid short e = rw (← append-nil buffer) (rw e refl)
feed_settled [] buffer (r ∷ rs) valid short e =
    absurd (
      omega
        (arith, ap length e, length-append buffer [], length-append (frame_of r) (stream_of rs)))
feed_settled (c ∷ cs) buffer rs valid short e =
    let s = settle rs (buffer ++ c) (concat cs) valid (append_assoc buffer c (concat cs) ∙ e) in
    rw
      (
        s.split,
        s.yielded,
        feed_settled cs (consume (from_wire (buffer ++ c)).yields (buffer ++ c)) s.todo s.todo_valid
            s.short s.left,
      )
      (rw (map-append parsed s.done s.todo))

-- Valid requests sent one after the other are read back in order, each with its header, and leave an
-- empty buffer, whatever the chunks in which their bytes arrive.
pub feed-stream_of :
    (rs : List Request) (chunks : List Bytes)
    → All RequestIsValid rs
    → concat chunks ≡ stream_of rs
    → feed [] chunks ≡ (map parsed rs, [])
feed-stream_of [] chunks valid e = feed_settled chunks [] [] valid tt e
feed-stream_of (r ∷ rs) chunks valid e =
    feed_settled chunks [] (r ∷ rs) valid (omega (arith, length-frame_of r)) e

-- One request alone in the buffer.
pub from_wire-frame_of :
    (r : Request)
    → RequestIsValid r
    → from_wire (frame_of r)
      ≡ yield_first (length (frame_of r), parsed r) (record { yields = []; end = finished })
from_wire-frame_of r v =
    let n = 38 + length (serialize r.item) in
    let one : round (frame_of r) ≡ emit n (parsed r) [] =
      ap round (sym (append-nil (frame_of r))) ∙ round-frame_of r [] v in
    from_wire-emit (frame_of r) n (parsed r) [] one
    ∙ ap (yield_first (n, parsed r)) (from_wire-stop [] (round_few [] (omega arith)))
    ∙ ap (λ k. yield_first (k, parsed r) (record { yields = []; end = finished }))
        (sym (length-frame_of r))
