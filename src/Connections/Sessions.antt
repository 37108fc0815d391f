-- ===== src/Connections/Sessions.antt =====
-- What a server of ads_async/protocol.py promises its clients: a session for each address and each net
-- id, apart from the others, over one database.

use ads_async.Prelude.{Option, none, some, List, [], ◌∷◌, if◌then◌else◌}
use ads_async.Prelude.Result.{Result, ok, err, key_error}
use ads_async.Bytes.{Bytes}
use ads_async.Structs.Header.{AoEHeader}
use ads_async.Structs.Item.{Item}
use ads_async.Structs.Text.{Text, Codec}
use ads_async.Structs.NetId.{repr}
use ads_async.Symbols.{Database, same_text}
use ads_async.Server.State.{ServerCircuit, new_circuit}
use ads_async.Serve.{answer}
use ads_async.Connections.Table.{find, Address, same_address, text_key, address_key}
use ads_async.Connections.Defs.{Connection}
use ads_async.Connections.Server.{
  no_database, Server, add_connection, remove_connection, Action, serve,
}

-- What happens to a server.
pub data Event : Type 0 where
  connects : (our_address their_address : Address) → Event
  disconnects : Address → Event
  commands : Address → AoEHeader → Item → Event

-- The specification: for each connected address, a session for every net id.
pub record Sessions : Type 0 where
  pub name : Bytes
  pub database : Database
  pub peer : Address → Option (Text → ServerCircuit)

abbrev pub set_peer :
    Address
    → Option (Text → ServerCircuit)
    → (Address → Option (Text → ServerCircuit))
    → Address
    → Option (Text → ServerCircuit)
set_peer a v peer b = if same_address a b then v else peer b

abbrev pub set_session : Text → ServerCircuit → (Text → ServerCircuit) → Text → ServerCircuit
set_session t c session u = if same_text t u then c else session u

abbrev pub act_session :
    Action → Text → Address → (Text → ServerCircuit) → Sessions → Result Bytes × Sessions
act_session act net_id a session s =
    let (result, c) = act (record (session net_id) { database = s.database }) in
    (
      result,
      record s {
        database = c.database;
        peer =
            set_peer a (some (set_session net_id (record c { database = no_database }) session))
              s.peer;
      },
    )

unfoldable pub session_step : Codec → Event → Sessions → Result Bytes × Sessions
session_step codec (connects ours theirs) s =
    (ok [], record s { peer = set_peer theirs (some (λ t. new_circuit no_database s.name)) s.peer })
session_step codec (disconnects a) s = elim (s.peer a) [
  | none ↦ (err key_error, s)
  | some _ ↦ (ok [], record s { peer = set_peer a none s.peer })
]
session_step codec (commands a header item) s = elim (s.peer a) [
  | none ↦ (err key_error, s)
  | some session ↦ act_session (answer codec header item) (repr header.source.net_id) a session s
]

-- The server.
abbrev pub no_bytes : Result (Unit {0}) → Result Bytes
no_bytes (ok _) = ok []
no_bytes (err e) = err e

unfoldable pub server_step : Codec → Event → Server → Result Bytes × Server
unfolding add_connection remove_connection serve
server_step codec (connects ours theirs) s = (ok [], (add_connection ours theirs s).1)
server_step codec (disconnects a) s =
    let (result, s') = remove_connection a s in (no_bytes result, s')
server_step codec (commands a header item) s = serve codec a header item s

-- What a server is to its clients.
abbrev pub view_circuit : Bytes → Option ServerCircuit → ServerCircuit
view_circuit name none = new_circuit no_database name
view_circuit name (some c) = c

abbrev pub view_connection :
    Bytes → Option (Connection ServerCircuit) → Option (Text → ServerCircuit)
view_connection name none = none
view_connection name (some c) = some (λ t. view_circuit name (find t c.circuits))

abbrev pub view : Server → Sessions
view s = record {
  name = s.name;
  database = s.database;
  peer = λ a. view_connection s.name (find a s.connections);
}

abbrev pub viewed : Result Bytes × Server → Result Bytes × Sessions
viewed (r, s) = (r, view s)

-- The results of a run, and what is left.
unfoldable pub server_run : Codec → List Event → Server → List (Result Bytes) × Server
unfolding server_step
server_run codec [] s = ([], s)
server_run codec (e ∷ es) s =
    let (r, s') = server_step codec e s in let (rs, last) = server_run codec es s' in (r ∷ rs, last)

unfoldable pub session_run : Codec → List Event → Sessions → List (Result Bytes) × Sessions
unfolding session_step
session_run codec [] s = ([], s)
session_run codec (e ∷ es) s =
    let (r, s') = session_step codec e s in
    let (rs, last) = session_run codec es s' in (r ∷ rs, last)
