-- ===== src/Asyncio/Received.antt =====
-- What becomes of a frame that the client of ads_async/asyncio/client.py receives.
use mathlib.Core.List.{append-nil}
use ads_async.Prelude.{ℕ, ◌≡◌, refl, sym, ap, ◌∙◌, Bool, some, [], ◌∷◌, ◌++◌, arith}
use ads_async.Prelude.Result.{ok}
use ads_async.Bytes.{Bytes}
use ads_async.Structs.Header.{AoEHeader}
use ads_async.Structs.Item.{Item}
use ads_async.Structs.NetId.{repr}
use ads_async.Structs.Text.{Text}
use ads_async.Wire.{Parsed, finished, emit, round, from_wire, yield_first}
use ads_async.Wire.Progress.{from_wire-emit, from_wire-stop}
use ads_async.Wire.Frames.{round_few}
use ads_async.Connections.Table.{find, find-put, text_key, same_text_refl}
use ads_async.Asyncio.Circuit.{AsyncioCircuit, client_handle_command}
use ads_async.Asyncio.Connection.{
  ClientConnection, circuit_at, keep_circuit, take_off, dispatch_item, dispatch_all, receive,
}

-- A buffer that is one frame.
pub one_frame :
    (frame : Bytes) (n : ℕ) (p : Parsed)
    → round (frame ++ []) ≡ emit n p []
    → from_wire frame ≡ yield_first (n, p) (record { yields = []; end = finished })
one_frame frame n p e =
    from_wire-emit frame n p [] (ap round (sym (append-nil frame)) ∙ e)
    ∙ ap (yield_first (n, p)) (from_wire-stop [] (round_few [] (omega arith)))

module _ {F : Type 0} where
  circuit_at-found :
      (key : Text) (a : AsyncioCircuit F) (c : ClientConnection F)
      → find key c.circuits ≡ some a
      → circuit_at key c ≡ (a, c)
  unfolding circuit_at
  circuit_at-found key a c found = rw (circuit_at, found) refl

  find-keep_circuit :
      (key : Text) (a : AsyncioCircuit F) (c : ClientConnection F)
      → find key (keep_circuit key a c).circuits ≡ some a
  unfolding keep_circuit
  find-keep_circuit key a c = find-put key key a c.circuits ∙ rw (same_text_refl key) refl

  -- The circuit of the source of a frame has handled its command.
  pub dispatch_item-circuits :
      (alive : F → Bool) (header : AoEHeader) (item : Item) (a : AsyncioCircuit F)
      (c : ClientConnection F)
      → find (repr header.source.net_id) c.circuits ≡ some a
      → find (repr header.source.net_id) (dispatch_item alive header item c).circuits
        ≡ some (client_handle_command alive header item a)
  unfolding dispatch_item
  dispatch_item-circuits alive header item a c found =
      let key = repr header.source.net_id in
      ap
        (λ (p : AsyncioCircuit F × ClientConnection F).
          find key (keep_circuit key (client_handle_command alive header item p.0) p.1).circuits)
        (circuit_at-found key a c found)
      ∙ find-keep_circuit key (client_handle_command alive header item a) c

  pub receive-one_frame :
      (alive : F → Bool) (frame : Bytes) (n : ℕ) (header : AoEHeader) (item : Item)
      (c : ClientConnection F)
      → c.connection.recv_buffer ≡ []
      → round (frame ++ []) ≡ emit n (some (header, item)) []
      → receive alive frame c ≡ (
        ok tt,
        dispatch_item alive header item
            (take_off n (record c { connection = record (c.connection) { recv_buffer = frame } })),
      )
  unfolding receive dispatch_all
  receive-one_frame alive [] n header item c empty e = absurd (cc (e, round_few [] (omega arith)))
  receive-one_frame alive (b ∷ bytes) n header item c empty e =
      rw (empty, one_frame (b ∷ bytes) n (some (header, item)) e) refl
