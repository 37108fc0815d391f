-- ===== src/Asyncio/Connection.antt =====
-- `AsyncioClientConnection` of ads_async/asyncio/client.py, and what a circuit of it does with its
-- symbols. The two events are Booleans. A circuit of the protocol connection is kept with the net id
-- that it was made under; the circuit of the client holds the same object, so both are stored.
use ads_async.Prelude.{ℕ, Bool, true, false, Option, none, some, List, [], ◌∷◌, ◌++◌, drop}
use ads_async.Prelude.Result.{Result, ok, err, type_error}
use ads_async.Bytes.{Bytes}
use ads_async.Structs.Header.{AoEHeader}
use ads_async.Structs.Item.{Item}
use ads_async.Structs.NetId.{repr}
use ads_async.Structs.Text.{Text}
use ads_async.Client.{ClientCircuit, new_client}
use ads_async.Wire.{Parsed, End, finished, no_fuel, raised, from_wire}
use ads_async.Connections.Table.{Table, find, put, remove, Address, text_key}
use ads_async.Connections.Defs.{
  Connection, NetIdArgument, net_id_text, net_id_struct, get_circuit, new_connection, client_role,
  set_our_address,
}
use ads_async.Asyncio.Symbols.{ClientSymbol, new_symbol}
use ads_async.Asyncio.Circuit.{AsyncioCircuit, client_handle_command}

-- `AmsPort.R0_PLC_TC3`
abbrev pub plc_port : ℕ
plc_port = 851

pub record ClientConnection (F : Type 0) : Type 0 where
  pub connection : Connection (Text × ClientCircuit ℕ)
  pub circuits : Table Text (AsyncioCircuit F)
  pub reconnect_rate : Option ℕ
  pub is_connected : Bool
  pub is_disconnected : Bool

-- "(client)"
abbrev client_host : Text
client_host = b'(' ∷ b'c' ∷ b'l' ∷ b'i' ∷ b'e' ∷ b'n' ∷ b't' ∷ b')' ∷ []

-- The key of a circuit: by default the host with `.1.1`.
unfoldable pub circuit_key : Option NetIdArgument → Text → Text
circuit_key none host = host ++ (b'.' ∷ b'1' ∷ b'.' ∷ b'1' ∷ [])
circuit_key (some (net_id_text t)) host = t
circuit_key (some (net_id_struct a)) host = repr a

module _ {F : Type 0} where
  unfoldable pub new_client_connection : Address → Option Text → Option ℕ → ClientConnection F
  new_client_connection their_address our_net_id reconnect_rate = record {
    connection =
        new_connection their_address client_role (some (record { host = client_host; port = 0 }))
          our_net_id;
    circuits = [];
    reconnect_rate = reconnect_rate;
    is_connected = false;
    is_disconnected = false;
  }

  -- `AsyncioClientCircuit.__init__`, of the circuit of the protocol connection.
  unfoldable pub new_asyncio_circuit : Text → Text × ClientCircuit ℕ → AsyncioCircuit F
  new_asyncio_circuit net_id (our_net_id, circuit) = record {
    net_id = net_id;
    default_port = plc_port;
    our_net_id = our_net_id;
    our_port = plc_port;
    circuit = circuit;
    response_handlers = [];
    requests = [];
    notifications = [];
    symbols = [];
  }

  -- The second half of `get_circuit`.
  unfoldable pub add_circuit : Text → ClientConnection F → AsyncioCircuit F × ClientConnection F
  unfolding get_circuit new_asyncio_circuit
  add_circuit key c =
      let (circuit, connection) =
        get_circuit (λ ours theirs. (ours, new_client)) (net_id_text key) c.connection in
      let made = new_asyncio_circuit key circuit in
      (made, record c { connection = connection; circuits = put key made c.circuits })

  unfoldable pub circuit_at : Text → ClientConnection F → AsyncioCircuit F × ClientConnection F
  unfolding add_circuit
  circuit_at key c = elim (find key c.circuits) [ some a ↦ (a, c) | none ↦ add_circuit key c ]

  -- `get_circuit`
  unfoldable pub client_circuit :
      Option NetIdArgument → ClientConnection F → AsyncioCircuit F × ClientConnection F
  unfolding circuit_at circuit_key
  client_circuit net_id c = circuit_at (circuit_key net_id c.connection.their_address.host) c

  -- What a method leaves at a circuit, which two dictionaries hold.
  unfoldable pub keep_circuit : Text → AsyncioCircuit F → ClientConnection F → ClientConnection F
  keep_circuit key a c = record c {
    connection = record (c.connection) {
      circuits = put key (a.our_net_id, a.circuit) c.connection.circuits;
    };
    circuits = put key a c.circuits;
  }

  -- `_circuit_cleanup`
  unfoldable pub circuit_cleanup : Text → ClientConnection F → ClientConnection F
  circuit_cleanup key c = record c { circuits = remove key c.circuits }

  -- The bytes of a frame are taken off the buffer before it is yielded.
  abbrev pub take_off : ℕ → ClientConnection F → ClientConnection F
  take_off consumed c = record c {
    connection = record (c.connection) { recv_buffer = drop consumed c.connection.recv_buffer };
  }

  -- A command at the circuit of its source.
  unfoldable pub dispatch_item :
      (F → Bool) → AoEHeader → Item → ClientConnection F → ClientConnection F
  unfolding circuit_at keep_circuit
  dispatch_item alive header item c =
      let (a, c') = circuit_at (repr header.source.net_id) c in
      keep_circuit (repr header.source.net_id) (client_handle_command alive header item a) c'

  -- The loop over what `received_data` yields; unpacking `None` raises.
  unfoldable pub dispatch_all :
      (F → Bool) → List (ℕ × Parsed) → ClientConnection F → Result (Unit {0}) × ClientConnection F
  unfolding dispatch_item
  dispatch_all alive [] c = (ok tt, c)
  dispatch_all alive ((consumed, none) ∷ ys) c = (err type_error, take_off consumed c)
  dispatch_all alive ((consumed, some (header, item)) ∷ ys) c =
      dispatch_all alive ys (dispatch_item alive header item (take_off consumed c))

  -- How `received_data` ends.
  abbrev pub ended :
      End → Result (Unit {0}) × ClientConnection F → Result (Unit {0}) × ClientConnection F
  ended finished r = r
  ended no_fuel r = r
  ended (raised e) (ok _, c) = (err e, c)
  ended (raised e) (err f, c) = (err f, c)

  -- One round of the loop of `_connected_loop`; no bytes are the end of the stream.
  unfoldable pub receive :
      (F → Bool) → Bytes → ClientConnection F → Result (Unit {0}) × ClientConnection F
  unfolding dispatch_all
  receive alive [] c = (ok tt, record c { is_connected = false; is_disconnected = true })
  receive alive (b ∷ bytes) c =
      let buffer = c.connection.recv_buffer ++ (b ∷ bytes) in
      ended (from_wire buffer).end (
        dispatch_all alive (from_wire buffer).yields
          (record c { connection = record (c.connection) { recv_buffer = buffer } }))

  -- The first half of `_connected_loop`, of the name of the socket. `our_net_id` is a text, and never
  -- `None`.
  unfoldable pub connected : Bool → Text → ℕ → ClientConnection F → ClientConnection F
  unfolding set_our_address
  connected is_v6 our_ip our_port c =
      let host = bracketed is_v6 our_ip in
      record c {
        connection = set_our_address (some (record { host = host; port = our_port })) c.connection;
        is_connected = true;
        is_disconnected = false;
      }
    where
      bracketed : Bool → Text → Text
      bracketed true ip = b'[' ∷ (ip ++ (b']' ∷ []))
      bracketed false ip = ip

  -- `_connect`, where the connection is refused.
  unfoldable pub connect_failed : ClientConnection F → ClientConnection F
  connect_failed c = record c { is_disconnected = true }

  -- `get_symbol_by_name`
  unfoldable pub symbol_named : Text → AsyncioCircuit F → ClientSymbol × AsyncioCircuit F
  unfolding new_symbol
  symbol_named name c = elim (find name c.symbols) [
    | some sym ↦ (sym, c)
    | none ↦
        let sym = new_symbol (some name) none none in
        (sym, record c { symbols = put name sym c.symbols })
  ]
