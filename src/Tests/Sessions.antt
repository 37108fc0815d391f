-- ===== src/Tests/Sessions.antt =====
-- The theorems on the server and its clients, at concrete inputs.
use ads_async.Prelude.{◌≡◌, refl, [], ◌∷◌, List}
use ads_async.Prelude.Result.{err, key_error}
use ads_async.Structs.Item.{Item}
use ads_async.Structs.Request.{AdsReadRequest}
use ads_async.Structs.Text.{ascii}
use ads_async.Connections.Table.{Address, find, put, same_address, address_key}
use ads_async.Connections.Server.{Server, new_server, add_connection}
use ads_async.Connections.Sessions.{
  Event, connects, disconnects, commands, view, server_run, session_run, server_step,
}
use ads_async.Connections.Refine.{viewed_run, server_run_refines}
use ads_async.Bytes.{Bytes}
use ads_async.Serve.Exchange.{read_request}
use ads_async.Symbols.{same_text}
use ads_async.Wire.Requests.{Request}
use ads_async.Wire.Stream.{stream_of}
use ads_async.Connections.Defs.{server_connection, new_connection}
use ads_async.Connections.Receive.{buffer_of, receive_chunk}
use ads_async.Connections.Stream.{with_left, serve_all, receive_chunk-stream_of}
use ads_async.Tests.Exchange.{read_counts, read_counts-IsValid}
use ads_async.Tests.Data.{header, database, server_addr, client_addr}

abbrev listener : Address
listener = record { host = b's' ∷ []; port = 48898 }

abbrev client : Address
client = record { host = b'c' ∷ []; port = 50000 }

abbrev server : Server
server = new_server database (b'1' ∷ []) []

abbrev read_four : AdsReadRequest
read_four = record { index_group = 16416; index_offset = 0; length = 4 }

abbrev events : List Event
events =
    connects listener client
    ∷ commands client (header 2 12) (Item.read_item read_four)
    ∷ disconnects client
    ∷ disconnects client
    ∷ []

server_run_refines_example :
    viewed_run (server_run ascii events server) ≡ session_run ascii events (view server)
server_run_refines_example = server_run_refines ascii events server

-- Without its connection, a client is no key of the dictionary.
gone : (server_step ascii (disconnects client) server).0 ≡ err key_error
unfolding server_step new_server find
gone = refl

-- A server that a client has connected to, and two requests of that client.
abbrev connected_server : Server
connected_server = (add_connection listener client server).1

abbrev two_requests : List Request
two_requests =
    read_request read_counts server_addr client_addr 101
    ∷ read_request read_counts server_addr client_addr 101
    ∷ []

nothing_read : buffer_of (find client connected_server.connections) ≡ []
unfolding find add_connection server_connection new_connection new_server put same_address same_text
nothing_read = refl

receive_chunk-stream_of_example :
    (left : Bytes) × (receive_chunk ascii client (stream_of two_requests) connected_server
      ≡ with_left client left (serve_all ascii client two_requests connected_server))
receive_chunk-stream_of_example =
    receive_chunk-stream_of ascii client two_requests connected_server
      (read_counts-IsValid, (read_counts-IsValid, tt)) nothing_read
