-- ===== src/Asyncio/Closing.antt =====
-- The methods of ads_async/asyncio/client.py that make notifications, and those that send several
-- requests: `prune_unknown_notifications`, and `close` of a circuit and of a connection. Their result is
-- the bytes that are written, one for each request; an exception ends the loop that raises it.
use ads_async.Prelude.{ℕ, Option, none, some, List, [], ◌∷◌, ◌++◌}
use ads_async.Prelude.Result.{Result, ok, err, type_error}
use ads_async.Bytes.{Bytes}
use ads_async.Structs.Item.{Item}
use ads_async.Structs.Text.{Text, Codec}
use ads_async.Client.{SourceHandle}
use ads_async.Client.Requests.{remove_notification, add_notification_by_index}
use ads_async.Connections.Table.{put, text_key}
use ads_async.Asyncio.Symbols.{ClientSymbol, initialize, ensure, read, release}
use ads_async.Asyncio.Values.{Decoded}
use ads_async.Asyncio.Circuit.{AsyncioCircuit, send_item}
use ads_async.Asyncio.Connection.{ClientConnection, symbol_named, keep_circuit, circuit_cleanup}

-- `AmsPort.LOGGER`, and `AdsTransmissionMode.SERVERCYCLE`
abbrev pub logger_port : ℕ
logger_port = 100

abbrev pub server_cycle : ℕ
server_cycle = 3

-- `Notification(command=…, port=…)` of `add_notification_by_index`, up to its callbacks.
unfoldable pub notification_command :
    (index_group index_offset length mode max_delay cycle_time : ℕ) → Item
unfolding add_notification_by_index
notification_command index_group index_offset length mode max_delay cycle_time =
    Item.add_notification_item
      (add_notification_by_index index_group index_offset length mode max_delay cycle_time)

-- `enable_log_system`: its command and its port.
unfoldable pub log_system_command : ℕ → Item × ℕ
unfolding notification_command
log_system_command length = (notification_command 1 65535 length server_cycle 1 100, logger_port)

-- `Symbol.add_notification`, which initializes the symbol where it has no handle.
abbrev pub notification_at :
    Option ℕ → Option ℕ → (length mode max_delay cycle_time : ℕ) → Result Item
notification_at (some group) (some offset) length mode max_delay cycle_time =
    ok (notification_command group offset length mode max_delay cycle_time)
notification_at (some group) none length mode max_delay cycle_time = err type_error
notification_at none offset length mode max_delay cycle_time = err type_error

module _ {S : Type 0} where
  abbrev pub after_initialize :
      (length mode max_delay cycle_time : ℕ)
      → Result (Unit {0}) × ClientSymbol × S
      → Result Item × ClientSymbol × S
  after_initialize length mode max_delay cycle_time (err e, s, w) = (err e, s, w)
  after_initialize length mode max_delay cycle_time (ok _, s, w) =
      (notification_at s.index_group s.index_offset length mode max_delay cycle_time, s, w)

  unfoldable pub add_symbol_notification :
      Codec
      → (Item → S → Result Item × S)
      → (length mode max_delay cycle_time : ℕ) → ClientSymbol
      → S
      → Result Item × ClientSymbol × S
  unfolding initialize notification_command
  add_symbol_notification codec write_and_read length mode max_delay cycle_time s w =
      after_initialize length mode max_delay cycle_time (ensure codec write_and_read s.handle s w)

module _ {F : Type 0} where
  abbrev pub written_first :
      Bytes → Result (List Bytes) × AsyncioCircuit F → Result (List Bytes) × AsyncioCircuit F
  written_first bytes (err e, c) = (err e, c)
  written_first bytes (ok written, c) = (ok (bytes ∷ written), c)

  -- Send, and go on unless it raised.
  abbrev pub and_then :
      (AsyncioCircuit F → Result (List Bytes) × AsyncioCircuit F)
      → Result (ℕ × Bytes) × AsyncioCircuit F
      → Result (List Bytes) × AsyncioCircuit F
  and_then rest (err e, c) = (err e, c)
  and_then rest (ok (_, bytes), c) = written_first bytes (rest c)

  unfoldable pub prune_all :
      List SourceHandle → AsyncioCircuit F → Result (List Bytes) × AsyncioCircuit F
  unfolding remove_notification send_item
  prune_all [] c = (ok [], c)
  prune_all (k ∷ ks) c = and_then (prune_all ks) (
      send_item (Item.delete_notification_item (remove_notification k.handle)) (some k.source.port)
        none c)

  -- `prune_unknown_notifications`
  unfoldable pub prune_unknown_notifications :
      AsyncioCircuit F → Result (List Bytes) × AsyncioCircuit F
  unfolding prune_all
  prune_unknown_notifications c = prune_all c.circuit.unknown_notifications c

  abbrev pub keep_symbol : Text → ClientSymbol → AsyncioCircuit F → AsyncioCircuit F
  keep_symbol name sym c = record c { symbols = put name sym c.symbols }

  -- `await sym.release()` for each symbol.
  unfoldable pub release_all :
      List (Text × ClientSymbol) → AsyncioCircuit F → Result (List Bytes) × AsyncioCircuit F
  unfolding release send_item
  release_all [] c = (ok [], c)
  release_all ((name, sym) ∷ rest) c = elim (release sym).0 [
    | none ↦ release_all rest c
    | some request ↦
        and_then (λ c'. release_all rest (keep_symbol name (release sym).1 c'))
          (send_item (Item.write_item request) none none c)
  ]

  abbrev pub clear_symbols :
      Result (List Bytes) × AsyncioCircuit F → Result (List Bytes) × AsyncioCircuit F
  clear_symbols (err e, c) = (err e, c)
  clear_symbols (ok written, c) = (ok written, record c { symbols = [] })

  -- `AsyncioClientCircuit.close`, up to the cleanup of the connection.
  unfoldable pub close_circuit : AsyncioCircuit F → Result (List Bytes) × AsyncioCircuit F
  unfolding release_all
  close_circuit c = clear_symbols (release_all c.symbols c)

  abbrev pub after_close :
      Text
      → Result (List Bytes) × AsyncioCircuit F
      → ClientConnection F
      → Result (List Bytes) × ClientConnection F
  after_close key (err e, a) c = (err e, keep_circuit key a c)
  after_close key (ok written, a) c = (ok written, circuit_cleanup key (keep_circuit key a c))

  abbrev pub append_written :
      (ClientConnection F → Result (List Bytes) × ClientConnection F)
      → Result (List Bytes) × ClientConnection F
      → Result (List Bytes) × ClientConnection F
  append_written rest (err e, c) = (err e, c)
  append_written rest (ok written, c) = joined written (rest c)
    where
      joined :
          List Bytes
          → Result (List Bytes) × ClientConnection F
          → Result (List Bytes) × ClientConnection F
      joined written (err e, c) = (err e, c)
      joined written (ok more, c) = (ok (written ++ more), c)

  -- `await circuit.close()` for each circuit.
  unfoldable pub close_all :
      List (Text × AsyncioCircuit F) → ClientConnection F → Result (List Bytes) × ClientConnection F
  unfolding close_circuit keep_circuit circuit_cleanup
  close_all [] c = (ok [], c)
  close_all ((key, a) ∷ rest) c =
      append_written (close_all rest) (after_close key (close_circuit a) c)

  abbrev pub clear_circuits :
      Result (List Bytes) × ClientConnection F → Result (List Bytes) × ClientConnection F
  clear_circuits (err e, c) = (err e, c)
  clear_circuits (ok written, c) = (ok written, record c { circuits = [] })

  -- `AsyncioClientConnection.close`, up to the closing of the socket.
  unfoldable pub close_connection : ClientConnection F → Result (List Bytes) × ClientConnection F
  unfolding close_all
  close_connection c = clear_circuits (close_all c.circuits (record c { reconnect_rate = none }))

  -- `self.get_symbol_by_name(name).read()`
  unfoldable pub read_named :
      {S : Type 0}
      → Codec
      → (Item → S → Result Item × S)
      → Text
      → AsyncioCircuit F
      → S
      → Result Decoded × AsyncioCircuit F × S
  unfolding symbol_named read
  read_named codec write_and_read name c w =
      let (sym, c') = symbol_named name c in
      let (result, sym', w') = read codec write_and_read sym w in
      (result, keep_symbol name sym' c', w')
