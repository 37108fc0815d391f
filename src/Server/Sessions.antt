-- ===== src/Server/Sessions.antt =====
-- Sequences of commands to one circuit of ads_async/protocol.py.
use ads_async.Prelude.{ℕ, ◌<◌, ◌≡◌, inl, inr, lookup, some, List}
use ads_async.Prelude.Result.{Result-cases}
use ads_async.Counter.{circuit_counter}
use ads_async.Structs.Item.{Item}
use ads_async.Structs.Header.{AoEHeader}
use ads_async.Structs.Text.{Codec}
use ads_async.Symbols.{Symbol, Database}
use ads_async.Server.State.{ServerCircuit, Notification, new_circuit}
use ads_async.Server.Dispatch
use ads_async.Server.Dispatch.{Handler, get_handler}
use ads_async.Server.Handlers.{read_value, read_catchall, read_write_info}
use ads_async.Server.Command.{sumup_read, call, handle_command}
use ads_async.Server.Keeps.{Keeps}
use ads_async.Server.Atomic.{
  read_value-IsReading, read_catchall-IsReading, read_write_info-IsReading,
}
use ads_async.Server.Called.{handle_command_called, handle_command_unrouted}
use ads_async.Server.Sumup.{nested}
use ads_async.Server.Failure.{sumup_read-IsReading}
use ads_async.Server.Invariant.{
  WellFormed, new_circuit-WellFormed, reading-Keeps, read_write_handle-Keeps,
  add_notification-Keeps, delete_notification-Keeps, write_release_handle-Keeps, write_value-Keeps,
}

module _ (codec : Codec) where
  call-Keeps :
      (header : AoEHeader) (item : Item) (h : Handler)
      → Keeps WellFormed (call codec (nested codec header 0) header item h)
  unfolding call
  call-Keeps header item Dispatch.add_notification = add_notification-Keeps item
  call-Keeps header item Dispatch.delete_notification = delete_notification-Keeps item
  call-Keeps header item Dispatch.read_catchall =
      reading-Keeps (read_catchall item) WellFormed (read_catchall-IsReading item)
  call-Keeps header item Dispatch.read_device_info_handler = λ c w. w
  call-Keeps header item Dispatch.read_state_handler = λ c w. w
  call-Keeps header item Dispatch.read_value =
      reading-Keeps (read_value item) WellFormed (read_value-IsReading item)
  call-Keeps header item Dispatch.read_write_catchall = λ c w. w
  call-Keeps header item Dispatch.read_write_handle = read_write_handle-Keeps codec item
  call-Keeps header item Dispatch.read_write_info =
      reading-Keeps (read_write_info codec item) WellFormed (read_write_info-IsReading codec item)
  call-Keeps header item Dispatch.read_write_sumup_read =
      reading-Keeps (sumup_read (nested codec header 0) header item) WellFormed
        (sumup_read-IsReading codec header item)
  call-Keeps header item Dispatch.write_control_handler = λ c w. w
  call-Keeps header item Dispatch.write_release_handle = write_release_handle-Keeps item
  call-Keeps header item Dispatch.write_value = write_value-Keeps codec item

  -- Every command, with every structure, keeps the invariant of the handles, however it ends.
  pub handle_command-WellFormed :
      (header : AoEHeader) (item : Item) (c : ServerCircuit)
      → WellFormed c
      → WellFormed (handle_command codec header item c).1
  handle_command-WellFormed header item c w = elim (Result-cases (get_handler header item)) [
    | inl (x, unrouted) ↦ rw (handle_command_unrouted codec header item x c unrouted) w
    | inr (h, found) ↦
        rw (handle_command_called codec header item h c found) (call-Keeps header item h c w)
  ]

  -- The circuits that commands lead to; between two of them, other circuits may have changed the
  -- shared database.
  pub data Reaches (start : ServerCircuit) : ServerCircuit → Type 0 where
    begin : Reaches start start
    command :
        {c : ServerCircuit}
        → Reaches start c
        → (header : AoEHeader) (item : Item) → Reaches start (handle_command codec header item c).1
    elsewhere :
        {c : ServerCircuit}
        → Reaches start c
        → (db : Database) → Reaches start (record c { database = db })

  Reaches-WellFormed : {start c : ServerCircuit} → WellFormed start → Reaches start c → WellFormed c
  Reaches-WellFormed w begin = w
  Reaches-WellFormed w (command r header item) =
      handle_command-WellFormed header item _ (Reaches-WellFormed w r)
  Reaches-WellFormed w (elsewhere r db) =
      let v = Reaches-WellFormed w r in
      record {
        limit = v.limit;
        symbol_handles = v.symbol_handles;
        notification_handles = v.notification_handles;
      }

  -- From a new circuit on, after any commands and any changes of the shared database, every handle
  -- fits the 32 bits in which it is sent, and every notification stands under its own handle.
  pub reachable_handles :
      (db : Database) (name : List ℕ) (c : ServerCircuit)
      → Reaches (new_circuit db name) c
      → ((k : ℕ) (s : Symbol)
          → lookup k c.handle_to_symbol ≡ some s
          → k < circuit_counter.max_count)
        × ((k : ℕ) (n : Notification)
            → lookup k c.handle_to_notification ≡ some n
            → (k < circuit_counter.max_count) × (n.handle ≡ k))
  reachable_handles db name c r =
      let w = Reaches-WellFormed (new_circuit-WellFormed db name) r in
      (w.symbol_handles, w.notification_handles)
