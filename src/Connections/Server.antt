-- ===== src/Connections/Server.antt =====
-- `Server` of ads_async/protocol.py, and the calls that ads_async/asyncio/server.py makes of it. The
-- circuits of a server share its database: a circuit is kept without one, and given the server's for each
-- command.
use ads_async.Prelude.{none, some, []}
use ads_async.Prelude.Result.{Result, ok, err, key_error}
use ads_async.Bytes.{Bytes}
use ads_async.Structs.Header.{AoEHeader}
use ads_async.Structs.Item.{Item}
use ads_async.Structs.Text.{Text, Codec}
use ads_async.Structs.NetId.{repr}
use ads_async.Structs.Address.{AmsNetId}
use ads_async.Symbols.{Database}
use ads_async.Server.State.{ServerCircuit, new_circuit}
use ads_async.Serve.{answer}
use ads_async.Connections.Table.{Table, find, put, remove, Address, text_key, address_key}
use ads_async.Connections.Defs.{Connection, get_circuit, server_connection, net_id_struct}

abbrev pub no_database : Database
no_database = record { data_areas = []; index_groups = [] }

pub record Server : Type 0 where
  pub name : Bytes
  pub database : Database
  pub net_id : Text
  pub connections : Table Address (Connection ServerCircuit)

unfoldable pub new_server : Database → Text → Bytes → Server
new_server database net_id name = record {
  name = name;
  database = database;
  net_id = net_id;
  connections = [];
}

-- `add_connection`
unfoldable pub add_connection : Address → Address → Server → Connection ServerCircuit × Server
add_connection our_address their_address s =
    let connection = server_connection our_address s.net_id their_address in
    (connection, record s { connections = put their_address connection s.connections })

-- `remove_connection`: `dict.pop` without a default.
unfoldable pub remove_connection : Address → Server → Result (Unit {0}) × Server
remove_connection address s = elim (find address s.connections) [
  | none ↦ (err key_error, s)
  | some _ ↦ (ok tt, record s { connections = remove address s.connections })
]

-- `circuit_class(…)` of a server's connection.
unfoldable pub make_circuit : Server → Text → Text → ServerCircuit
make_circuit s our_net_id their_net_id = new_circuit no_database s.name

abbrev pub store_circuit :
    Address → Text → Connection ServerCircuit → ServerCircuit → Server → Server
store_circuit address net_id connection c s = record s {
  database = c.database;
  connections =
      put address
        (record connection {
          circuits = put net_id (record c { database = no_database }) connection.circuits;
        })
        s.connections;
}

-- What a command does to a circuit.
abbrev pub Action : Type 0
Action = ServerCircuit → Result Bytes × ServerCircuit

-- A command at the circuit that the connection gives for a net id.
unfoldable pub act_on :
    Action → AmsNetId → Address → Connection ServerCircuit → Server → Result Bytes × Server
unfolding get_circuit
act_on act net_id address connection s =
    let (circuit, connection') = get_circuit (make_circuit s) (net_id_struct net_id) connection in
    let (result, c) = act (record circuit { database = s.database }) in
    (result, store_circuit address (repr net_id) connection' c s)

-- `_handle_command` of `AsyncioServerConnection`: the command that a client has sent. A client without
-- a connection has sent none.
unfoldable pub serve : Codec → Address → AoEHeader → Item → Server → Result Bytes × Server
serve codec address header item s = elim (find address s.connections) [
  | none ↦ (err key_error, s)
  | some connection ↦ act_on (answer codec header item) header.source.net_id address connection s
]
