-- ===== src/Connections/Stream.antt =====
-- A server of ads_async/asyncio/server.py answers the requests of a stream one after the other.

use ads_async.Prelude.{ℕ, ◌+◌, ◌≡◌, refl, ap, ◌∙◌, List, [], ◌∷◌, length, All, arith, drop}
use ads_async.Prelude.Result.{Result, ok, err}
use ads_async.Bytes.{Bytes}
use ads_async.Structs.Item.{serialize}
use ads_async.Structs.Text.{Codec}
use ads_async.Wire.{Parsed, finished, from_wire}
use ads_async.Wire.Frames.{round_few}
use ads_async.Wire.Progress.{from_wire-emit, from_wire-stop}
use ads_async.Wire.Requests.{Request, RequestIsValid, header_of, round-frame_of}
use ads_async.Wire.Stream.{stream_of, parsed}
use ads_async.Connections.Table.{find, Address, address_key, text_key}
use ads_async.Connections.Server.{Server, serve}
use ads_async.Connections.Buffers.{with_buffer, set_buffer-set_buffer, serve-set_buffer}
use ads_async.Connections.Receive.{
  Outcome, buffer_of, set_buffer, write_first, and_serve, receive_all, receive_chunk,
}

-- Each request, as it stands alone.
unfoldable pub serve_all : Codec → Address → List Request → Server → Outcome
serve_all codec a [] s = ([], ok tt, s)
serve_all codec a (r ∷ rs) s =
    and_serve (serve_all codec a rs) (serve codec a (header_of r) r.item s)

-- The yields of a stream of requests.
abbrev yields_of : List Request → List (ℕ × Parsed)
yields_of [] = []
yields_of (r ∷ rs) = (38 + length (serialize r.item), parsed r) ∷ yields_of rs

from_wire-stream_of :
    (rs : List Request)
    → All RequestIsValid rs
    → from_wire (stream_of rs) ≡ record { yields = yields_of rs; end = finished }
from_wire-stream_of [] valid = from_wire-stop [] (round_few [] (omega arith))
from_wire-stream_of (r ∷ rs) valid =
    from_wire-emit _ (38 + length (serialize r.item)) (parsed r) (stream_of rs)
      (round-frame_of r (stream_of rs) valid.0)
    ∙ rw (from_wire-stream_of rs valid.1) refl

-- Only the buffer is another.
abbrev pub with_left : Address → Bytes → Outcome → Outcome
with_left a left (written, end, s) = (written, end, set_buffer a left s)

receive_all-serve_all :
    (codec : Codec) (a : Address) (rs : List Request) (b : Bytes) (s : Server)
    → (left : Bytes) × (receive_all codec a (yields_of rs) (set_buffer a b s)
        ≡ with_left a left (serve_all codec a rs s))
unfolding receive_all serve_all
receive_all-serve_all codec a [] b s = (b, refl)
receive_all-serve_all codec a (r ∷ rs) b s =
    let n = 38 + length (serialize r.item) in
    let x = drop n (buffer_of (find a (set_buffer a b s).connections)) in
    let (left, e) =
      step x (λ y t. receive_all-serve_all codec a rs y t) (serve codec a (header_of r) r.item s) in
    (
      left,
      ap
            (λ (t : Server).
              and_serve (receive_all codec a (yields_of rs)) (serve codec a (header_of r) r.item t))
            (set_buffer-set_buffer a x b s)
          ∙ ap (and_serve (receive_all codec a (yields_of rs)))
              (serve-set_buffer codec a x (header_of r) r.item s)
          ∙ e,
    )
  where
    step :
        (x : Bytes)
        → ((y : Bytes) (t : Server)
            → (left : Bytes) × (receive_all codec a (yields_of rs) (set_buffer a y t)
                ≡ with_left a left (serve_all codec a rs t)))
        → (p : Result Bytes × Server)
        → (left : Bytes) × (and_serve (receive_all codec a (yields_of rs)) (with_buffer a x p)
            ≡ with_left a left (and_serve (serve_all codec a rs) p))
    step x rest (err e, t) = (x, refl)
    step x rest (ok bytes, t) = let (left, e) = rest x t in (left, ap (write_first bytes) e)

-- A server that reads valid requests, one after the other, from a client with nothing in its buffer
-- writes for each what it answers to that request alone, in their order, up to the first that raises; and
-- it is left as those answers leave it, but for the buffer of that client.
pub receive_chunk-stream_of :
    (codec : Codec) (a : Address) (rs : List Request) (s : Server)
    → All RequestIsValid rs
    → buffer_of (find a s.connections) ≡ []
    → (left : Bytes) × (receive_chunk codec a (stream_of rs) s
        ≡ with_left a left (serve_all codec a rs s))
unfolding receive_chunk
receive_chunk-stream_of codec a rs s valid empty =
    let (left, e) = receive_all-serve_all codec a rs (stream_of rs) s in
    (left, rw (empty, from_wire-stream_of rs valid) e)
