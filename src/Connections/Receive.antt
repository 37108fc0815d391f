-- ===== src/Connections/Receive.antt =====
-- `_receive_loop` and `_handle_new_client` of ads_async/asyncio/server.py: what a server reads from the
-- socket of a client, and what it writes to it.
use ads_async.Prelude.{ℕ, Option, none, some, List, [], ◌∷◌, ◌++◌, drop}
use ads_async.Prelude.Result.{Result, ok, err, type_error}
use ads_async.Bytes.{Bytes}
use ads_async.Structs.Text.{Codec}
use ads_async.Wire.{Parsed, End, finished, no_fuel, raised, from_wire}
use ads_async.Server.State.{ServerCircuit}
use ads_async.Connections.Table.{find, put, Address, address_key}
use ads_async.Connections.Defs.{Connection}
use ads_async.Connections.Server.{Server, add_connection, remove_connection, serve}

-- What was written, how it ended, and the server.
abbrev pub Outcome : Type 0
Outcome = List Bytes × Result (Unit {0}) × Server

abbrev pub buffer_of : Option (Connection ServerCircuit) → Bytes
buffer_of none = []
buffer_of (some c) = c.recv_buffer

-- The buffer of the connection of a client.
unfoldable pub set_buffer : Address → Bytes → Server → Server
set_buffer a buffer s = elim (find a s.connections) [
  | none ↦ s
  | some c ↦ record s { connections = put a (record c { recv_buffer = buffer }) s.connections }
]

abbrev pub take_frame : Address → ℕ → Server → Server
take_frame a consumed s = set_buffer a (drop consumed (buffer_of (find a s.connections))) s

abbrev pub write_first : Bytes → Outcome → Outcome
write_first bytes (written, end, s) = (bytes ∷ written, end, s)

abbrev pub and_serve : (Server → Outcome) → Result Bytes × Server → Outcome
and_serve rest (err e, s) = ([], err e, s)
and_serve rest (ok bytes, s) = write_first bytes (rest s)

-- The loop over what `received_data` yields; unpacking `None` raises.
unfoldable pub receive_all : Codec → Address → List (ℕ × Parsed) → Server → Outcome
unfolding serve set_buffer
receive_all codec a [] s = ([], ok tt, s)
receive_all codec a ((consumed, none) ∷ ys) s = ([], err type_error, take_frame a consumed s)
receive_all codec a ((consumed, some (header, item)) ∷ ys) s =
    and_serve (receive_all codec a ys) (serve codec a header item (take_frame a consumed s))

abbrev pub chunk_ended : End → Outcome → Outcome
chunk_ended finished o = o
chunk_ended no_fuel o = o
chunk_ended (raised e) (written, ok _, s) = (written, err e, s)
chunk_ended (raised e) (written, err f, s) = (written, err f, s)

-- A round of the loop, of bytes that were read.
unfoldable pub receive_chunk : Codec → Address → Bytes → Server → Outcome
unfolding receive_all set_buffer
receive_chunk codec a bytes s =
    let buffer = buffer_of (find a s.connections) ++ bytes in
    chunk_ended (from_wire buffer).end
      (receive_all codec a (from_wire buffer).yields (set_buffer a buffer s))

-- `finally: remove_connection(client_addr)`
abbrev pub close_client : Address → Outcome → Outcome
close_client a (written, end, s) = (written, end, (remove_connection a s).1)

-- The loop, over what is read; no bytes are the end of the stream.
unfoldable pub receive_loop : Codec → Address → List Bytes → Server → Outcome
unfolding receive_chunk
receive_loop codec a [] s = ([], ok tt, s)
receive_loop codec a ([] ∷ chunks) s = ([], ok tt, s)
receive_loop codec a ((b ∷ bytes) ∷ chunks) s =
    go_on (receive_chunk codec a (b ∷ bytes) s) (receive_loop codec a chunks)
  where
    go_on : Outcome → (Server → Outcome) → Outcome
    go_on (written, err e, s) rest = (written, err e, s)
    go_on (written, ok _, s) rest = let (more, end, last) = rest s in (written ++ more, end, last)

-- `_handle_new_client`
unfoldable pub handle_new_client : Codec → Address → Address → List Bytes → Server → Outcome
unfolding receive_loop add_connection remove_connection
handle_new_client codec our_address a chunks s =
    close_client a (receive_loop codec a chunks (add_connection our_address a s).1)
