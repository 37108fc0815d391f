-- ===== src/Lib.antt =====
-- ads_async speaks the ADS protocol of TwinCAT over TCP, as a server for tests and as a client. This
-- library models the parts that need no socket, and proves what they do.
--
-- How the program works. A connection (`_Connection` in ads_async/protocol.py) adds the bytes of the
-- socket to `recv_buffer`, and `from_wire` reads frames off it: a TCP header, an AoE header and a
-- structure of ads_async/structs.py. Each frame goes to the circuit of its peer. A `ServerCircuit`
-- finds a handler by command and index group; its handlers work on the symbols of a database
-- (ads_async/symbols.py), which are views on shared memory and are made from a .tmc file. A `Server`
-- holds the connections by address, and a connection its circuits by net id. A `ClientCircuit` sends
-- requests under an invoke id and hands notifications to their handlers; the asyncio client on top of it
-- lets the caller of a request wait for the response, calls the callbacks of a notification, and reads
-- symbols by name. The system service (ads_async/service.py) makes and reads single UDP packets.
--
-- Which file models what.
--   Prelude: the shared names, lists and dictionaries over the native numbers, and `Result`, a value
--     or a Python exception.
--   Bytes: little-endian numbers, and layouts of packed structures.
--   Constants: the enumerations of ads_async/constants.py.
--   Counter: `ThreadsafeCounter` of ads_async/utils.py. `next` is `__call__`.
--   Structs: ads_async/structs.py. Address, Header, Request, Response, Notification and SymbolEntry
--     have the structures, each a record with the fields of the class, its layout, and the functions
--     between the two; Item has `get_struct_by_command`, `serialize` and `deserialize`; Text has the
--     strings, NetId the texts of net ids (`from_string`, and `repr` for `__repr__`), and Log the messages
--     of the logger and the structures of plain numbers.
--   Wire: `from_wire`, `request_to_wire`, `response_to_wire` and `received_data` of
--     ads_async/protocol.py. `round` is one round of the loop of `from_wire`.
--   Symbols: `PlcMemory`, `Symbol`, `DataArea` and `TmcDatabase` of ads_async/symbols.py. `mem_read`
--     and `mem_write` are the slices of the memory, `symbol_read` and `symbol_write` (Access) the methods. Tmc has
--     `tmc_to_symbols`, Loading the constructor of the database, and Map `map_symbols_in_memory`
--     and `dump_memory`.
--   Server: `ServerCircuit` of ads_async/protocol.py. State has the state, and methods as functions
--     from a circuit to a result and a circuit: what was written before an exception stays written.
--     Dispatch has the decorator, the table of handlers and `get_handler`; Access and Handlers have
--     the handler methods under their names; Command has the sum-up read and `handle_command`.
--   Serve: `_handle_command` of ads_async/asyncio/server.py. `answer` gives the bytes that it writes, and
--     Response has what a client reads off them.
--   Client: `ClientCircuit` of ads_async/protocol.py. A call of a notification handler is an entry of
--     `processed`; `send` is `request_to_wire` of a circuit, and Requests has the methods that build
--     requests.
--   Connections: `_Connection` and its two subclasses, and `Server`, of ads_async/protocol.py. Server
--     has the methods, and in `serve` a command that comes from an address; Receive has the loop of
--     ads_async/asyncio/server.py that reads from a client (`receive_chunk`); Sessions has the
--     specification, a circuit for each address and net id without dictionaries, and the runs of both.
--   Asyncio: ads_async/asyncio/client.py and ads_async/asyncio/utils.py. Callbacks has `Notification`
--     with what it inherits from `CallbackHandler`; Circuit has `AsyncioClientCircuit`, where
--     `client_handle_command` is `_handle_command`, and `_BlockingRequest`; Symbols has `Symbol`, and
--     Values what it reads from responses; Connection has `AsyncioClientConnection`, where `receive` is a
--     round of its loop, and Closing the methods that send several requests; Waiting has
--     `wait` and `write_and_read` over what happens until they end, the time-out and the loss of the
--     connection among it (Events has what can happen to a circuit), and Channel
--     `write_and_read` with a server that answers (`exchange`). A coroutine is a function
--     up to its next `await`; what runs in between is a sequence of steps.
--   Service: `SystemService` of ads_async/service.py. Search has the loop of ads_async/bin/utils.py that
--     waits for the answers of a PLC, and `get_plc_info` and `add_route` of ads_async/bin on it; what
--     the socket gives is a list of packets and time-outs.
--   Logging: ads_async/log.py. Defs has the levels and the filters (`filter_symbol` is
--     `SymbolFilter.filter`), Glob `fnmatch` of the standard library, Handler `configure`, and Format the
--     formatter.
--   Tests: concrete inputs.
--
-- Bounds and fuel. Numbers are unbounded, and every field is written with its width in bytes, so a
-- number that is too large wraps where the structure stores it. `from_wire` has one unit of fuel for
-- each byte of the buffer and one more, and each round takes six bytes off it at least. The counter has
-- twice its limit and three more: its loop passes once through the numbers above its value and once
-- through those below. `handle_command` may call itself two deep, as only the sum-up read calls it,
-- and for plain reads. A number is printed with one unit of fuel more than its value, of which every
-- digit takes one.
--
-- Parameters. The encoding of strings is a setting of the environment, so the codec is an argument,
-- with what the documentation of codecs says of it as a hypothesis; the tests use ASCII. The handlers
-- of a client are the user's, so their type is an argument. `ctypes` is the one of Linux and macOS,
-- where `c_int64` is the C type `long`. The items of a .tmc file are what pytmc gives; the order in which
-- Python goes through a set is that of an argument. A callback is held by a weak reference, so which
-- functions are alive at an update is an argument. A symbol of the client is given what `write_and_read`
-- answers, and what changes with it; in Channel that is a server at the other end of the connection.
--
-- Not modelled. The adapter and the files of ads_async/log.py; sockets, tasks, the queue of the
-- executor of callbacks and reconnection (ads_async/asyncio); the arguments and the printing of the
-- command-line tools (ads_async/bin), and those that run the asyncio client; `get_task_count` and
-- `get_task_names`, which compute with a decoded number; the parsing of .tmc files by pytmc; timestamps
-- as dates, but for whether they exist, and the padding of what is printed.
pub mod Prelude
pub mod Bytes
pub mod Constants
pub mod Counter
pub mod Structs
pub mod Wire
pub mod Symbols
pub mod Server
pub mod Serve
pub mod Logging
pub mod Connections
pub mod Client
pub mod Asyncio
pub mod Service
pub mod Tests
