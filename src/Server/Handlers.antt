-- ===== src/Server/Handlers.antt =====
-- The handler methods of `ServerCircuit` (ads_async/protocol.py). A handler that is given another
-- structure than its own finds an attribute missing: `get_handler` chooses by the command, and
-- `from_wire` makes a request of the class of its command, so this happens to responses alone.

use ads_async.Prelude.{ℕ, Option, none, some, [], ◌∷◌, lookup, insert, erase, ◌==◌, if◌then◌else◌}
use ads_async.Prelude.Result.{
  unsent, Result, ok, err, key_error, attribute_error, type_error, not_implemented, request_failed,
}
use ads_async.Bytes.{Bytes}
use ads_async.Constants
use ads_async.Constants.{AdsCommandId, value}
use ads_async.Constants.AdsError
use ads_async.Constants.IndexGroup
use ads_async.Structs.Item.{Item}
use ads_async.Structs.Request.{AdsReadRequest}
use ads_async.Structs.Response.{read_response, handle_response}
use ads_async.Structs.SymbolEntry.{symbol_entry, serialize_entry}
use ads_async.Structs.Text.{Codec}
use ads_async.Symbols.{area_by_group, Symbol, DataArea, byte_size}
use ads_async.Symbols.Memory.{mem_read}
use ads_async.Server.State.{
  Notification, Exec, pure, raise, lift, get, modify, ◌>>=◌, ◌>>◌, next_handle,
}
use ads_async.Server.Access.{
  Handled, no_error, symbol_by_handle, symbol_by_payload, read_symbol, write_symbol, symbol_doc,
  area_group_value,
}

-- `_add_notification`: the handle comes from the counter of the symbol handles.
unfoldable pub add_notification : Item → Exec Handled
unfolding symbol_by_handle next_handle
add_notification (Item.add_notification_item r) =
    if r.index_group == IndexGroup.sym_valbyhnd
    then (do
      symbol ← symbol_by_handle r.index_offset
      handle ← next_handle
      modify (λ c. record c {
        handle_to_notification =
            insert handle (record { handle = handle; symbol = symbol }) c.handle_to_notification;
      })
      pure (
          some (
            Item.notification_handle_item (record { result = AdsError.noerr; handle = handle })
            ∷ [])))
    else pure none
add_notification _ = raise attribute_error

abbrev pub pop_notification : ℕ → Option Notification → Exec Handled
pop_notification handle none c = (err key_error, c)
pop_notification handle (some _) c = (
  ok (some no_error),
  record c { handle_to_notification = erase handle c.handle_to_notification },
)

-- `_delete_notification`
unfoldable pub delete_notification : Item → Exec Handled
delete_notification (Item.delete_notification_item r) c =
    pop_notification r.handle (lookup r.handle c.handle_to_notification) c
delete_notification _ c = (err attribute_error, c)

-- `_write_release_handle`
unfoldable pub write_release_handle : Item → Exec Handled
write_release_handle (Item.write_item r) = do
  modify (λ c. record c { handle_to_symbol = erase r.index_offset c.handle_to_symbol })
  pure (some no_error)
write_release_handle _ = raise attribute_error

-- `symbol.write(request.data)`
unfoldable pub write_payload : Symbol → Option Bytes → Exec (Unit {0})
unfolding write_symbol
write_payload symbol none = raise type_error
write_payload symbol (some bytes) = write_symbol symbol bytes

-- `_read_value`; an `AdsReadRequest` has no attribute `data`.
unfoldable pub read_value : Item → Exec Handled
unfolding symbol_by_handle read_symbol
read_value (Item.read_item r) = do
  symbol ←
      (if r.index_group == IndexGroup.sym_valbyhnd
        then symbol_by_handle r.index_offset
        else raise attribute_error)
  bytes ← read_symbol symbol
  pure (some (Item.read_response_item (read_response bytes) ∷ []))
read_value _ = raise attribute_error

unfoldable pub read_area : AdsReadRequest → Option DataArea → Result Handled
unfolding mem_read
read_area r none = err (request_failed AdsError.device_invalidaccess)
read_area r (some a) = ok (
    some (Item.read_response_item (read_response (mem_read r.index_offset r.length a.memory)) ∷ []))

-- `_read_catchall`
unfoldable pub read_catchall : Item → Exec Handled
unfolding area_by_group read_area
read_catchall (Item.read_item r) c = (read_area r (area_by_group c.database r.index_group), c)
read_catchall _ c = (err attribute_error, c)

-- `AdsDeviceInfo(*self.server.version, name=self.server.name)`: the three numbers of the version
-- (0, 0, 0) go to the parameters `result`, `version` and `revision`.
unfoldable pub read_device_info : Exec Handled
read_device_info c = (
  ok (
      some (
        Item.response_item (record { result = AdsError.noerr })
        ∷ Item.device_info_item
            (record { result = 0; version = 0; revision = 0; build = 0; name = c.name })
        ∷ [])),
  c,
)

-- `_read_state`
unfoldable pub read_state : Exec Handled
read_state = pure (
    some (
      Item.response_item (record { result = AdsError.noerr })
      ∷ Item.read_state_item (record { ads_state = Constants.run; dev_state = 0 })
      ∷ []))

-- `_write_control`
unfoldable pub write_control : Exec Handled
write_control = raise not_implemented

-- `_read_write_catchall`, whose body is `...`
unfoldable pub read_write_catchall : Exec Handled
read_write_catchall = pure none

-- The end of `_write_value`: the new value is read for the log.
unfoldable pub log_written : Symbol → Exec Handled
unfolding read_symbol
log_written symbol = do _ ← read_symbol symbol; pure (some no_error)

unfoldable pub write_logged : Symbol → Option Bytes → Exec Handled
unfolding write_payload log_written
write_logged symbol payload = do _ ← write_payload symbol payload; log_written symbol

-- The rest of `_write_value`, once the symbol is found: the old value is read for the log before the
-- write.
unfoldable pub write_to : Symbol → Option Bytes → Exec Handled
unfolding read_symbol write_logged
write_to symbol payload = do _ ← read_symbol symbol; write_logged symbol payload

abbrev when_sent : Result Bytes → Result Bytes
when_sent (ok bytes) = ok bytes
when_sent (err e) = err unsent

module _ (codec : Codec) where
  -- `_write_value`
  unfoldable pub write_value : Item → Exec Handled
  unfolding symbol_by_handle symbol_by_payload write_to
  write_value (Item.write_item r) = do
    symbol ←
        (if r.index_group == IndexGroup.sym_valbyhnd
          then symbol_by_handle r.index_offset
          else symbol_by_payload codec r.payload)
    write_to symbol r.payload
  write_value _ = raise attribute_error

  -- `_read_write_handle`
  unfoldable pub read_write_handle : Item → Exec Handled
  unfolding symbol_by_payload next_handle
  read_write_handle (Item.read_write_item r) = do
    symbol ← symbol_by_payload codec r.payload
    handle ← next_handle
    modify (λ c. record c { handle_to_symbol = insert handle symbol c.handle_to_symbol })
    pure (some (Item.handle_item (handle_response handle) ∷ []))
  read_write_handle _ = raise attribute_error

  -- `_read_write_info`. The entry is serialized here, which the code does when it sends the response:
  -- an exception of that is `unsent`, which no handler catches.
  unfoldable pub read_write_info : Item → Exec Handled
  unfolding symbol_by_payload area_group_value symbol_doc symbol_entry serialize_entry byte_size
  read_write_info (Item.read_write_item r) = do
    symbol ← symbol_by_payload codec r.payload
    c ← get
    size ← lift (byte_size symbol)
    bytes ← lift (
        when_sent (
          serialize_entry codec (
            symbol_entry (area_group_value c.database symbol) symbol.offset size symbol.data_type 0
              symbol.name symbol.type_name (symbol_doc symbol))))
    pure (some (Item.read_response_item (read_response bytes) ∷ []))
  read_write_info _ = raise attribute_error
