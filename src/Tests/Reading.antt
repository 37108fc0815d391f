-- ===== src/Tests/Reading.antt =====
-- The theorems on reads over the wire and on unnamed clients, at concrete inputs.
use ads_async.Prelude.{ℕ, ◌≡◌, refl, false, none, some, List, [], ◌∷◌, arith}
use ads_async.Prelude.Result.{ok, err, value_error}
use ads_async.Bytes.{Bytes, pack}
use ads_async.Structs.Address.{AmsAddr}
use ads_async.Structs.Header.{create_request}
use ads_async.Structs.Item.{Item, serialize}
use ads_async.Structs.NetId.{from_string, repr}
use ads_async.Structs.Text.{Text}
use ads_async.Counter.{next, skip_clashes}
use ads_async.Client.{new_client}
use ads_async.Wire.{frame_bytes}
use ads_async.Connections.Table.{text_key}
use ads_async.Connections.Defs.{net_id_text}
use ads_async.Asyncio.Circuit.{
  AsyncioCircuit, circuit_request, start_request, send_item, got_response,
}
use ads_async.Asyncio.Events.{ClientEvent, starts, client_run}
use ads_async.Asyncio.Connection.{
  ClientConnection, new_client_connection, connected, client_circuit,
}
use ads_async.Asyncio.Symbols.{new_symbol}
use ads_async.Asyncio.Closing.{close_circuit}
use ads_async.Asyncio.Closed.{Releases, CanSend, close_circuit-Releases}
use ads_async.Asyncio.Unnamed.{unnamed_cannot_send}
use ads_async.Tests.Data.{server_addr, client_addr}
use ads_async.Tests.Exchange.{read_counts}
use ads_async.Tests.Asynchronous.{server_net_id, client_net_id, client}

target : from_string server_net_id ≡ ok server_addr.net_id
unfolding from_string
target = refl

source : from_string client_net_id ≡ ok client_addr.net_id
unfolding from_string
source = refl

started :
    (bytes : Bytes) × (d : AsyncioCircuit ℕ) × (start_request 0
        (Item.read_item read_counts)
        none
        client
      ≡ (ok (101, bytes), d))
unfolding start_request circuit_request from_string new_client frame_bytes serialize pack
    create_request next skip_clashes
started = (_, _, refl)

-- Another request is sent meanwhile.
abbrev meanwhile : List (ClientEvent ℕ)
meanwhile = starts 1 (Item.read_item read_counts) none ∷ []

abbrev plc : Text
plc = b'5' ∷ b'.' ∷ b'6' ∷ b'.' ∷ b'7' ∷ b'.' ∷ b'8' ∷ []

abbrev connection : ClientConnection ℕ
connection =
    record (new_client_connection (record { host = plc; port = 48898 }) (some client_net_id) none) {
      circuits = (repr server_addr.net_id, client_run meanwhile started.1) ∷ [];
    }

unnamed_cannot_send_example :
    let unnamed : ClientConnection ℕ =
      connected false plc 50000
        (new_client_connection (record { host = plc; port = 48898 }) none none) in
    (send_item
      (Item.read_item read_counts)
      none
      (some (got_response 0))
      (client_circuit (some (net_id_text server_net_id)) unnamed).0).0
    ≡ err value_error
unnamed_cannot_send_example =
    unnamed_cannot_send ℕ (record { host = plc; port = 48898 }) none false plc 50000
      (some (net_id_text server_net_id)) (Item.read_item read_counts) none (some (got_response 0))

-- Two symbols, of which one has a handle.
abbrev two_symbols : AsyncioCircuit ℕ
two_symbols = record client {
  symbols =
      (b'a' ∷ [], record (new_symbol (some (b'a' ∷ [])) none none) { handle = some 5 })
      ∷ (b'b' ∷ [], new_symbol (some (b'b' ∷ [])) none none)
      ∷ [];
}

abbrev plc_addr : AmsAddr
plc_addr = record { net_id = server_addr.net_id; port = 851 }

abbrev our_addr : AmsAddr
our_addr = record { net_id = client_addr.net_id; port = 851 }

two_symbols-CanSend : CanSend plc_addr our_addr two_symbols
unfolding new_client
two_symbols-CanSend = record {
  target_read = target;
  source_read = source;
  target_port = refl;
  source_port = refl;
  ids_left = omega arith;
}

close_circuit-Releases_example :
    (frames : List Bytes) × (d : AsyncioCircuit ℕ) × (close_circuit two_symbols ≡ (ok frames, d))
    × Releases plc_addr our_addr two_symbols.symbols frames
    × (d.symbols ≡ [])
close_circuit-Releases_example =
    close_circuit-Releases plc_addr our_addr two_symbols two_symbols-CanSend
