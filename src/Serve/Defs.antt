-- ===== src/Serve/Defs.antt =====
-- `_handle_command` and `send_response` of ads_async/asyncio/server.py, without the socket: the
-- result is the bytes that are written to it.
use ads_async.Prelude.{ℕ, none, some, List, [], ◌∷◌, replicate}
use ads_async.Prelude.Result.{
  unsent, diverges, request_failed, attribute_error, Result, ok, err, ◌>>=◌,
}
use ads_async.Bytes.{Bytes}
use ads_async.Constants.{
  AdsCommandId, invalid, read_device_info, read, write, read_state, write_control,
  add_device_notification, del_device_notification, device_notification, read_write,
}
use ads_async.Constants.AdsError
use ads_async.Structs.Header.{AoEHeader}
use ads_async.Structs.Item.{Item, item_command}
use ads_async.Structs.Text.{Codec}
use ads_async.Wire.{response_to_wire}
use ads_async.Server.State.{Exec}
use ads_async.Server.Access.{Handled}
use ads_async.Server.Command.{handle_command}

abbrev only_result : ℕ → Item
only_result code = Item.response_item (record { result = code })

abbrev empty_read : ℕ → Item
empty_read code =
    Item.read_response_item (record { result = code; read_length = 0; payload = []; buffer = [] })

-- `get_struct_by_command(command, request=False)(result=code)`. The two classes without a field
-- `result` keep the code as a plain attribute.
unfoldable pub error_response : AdsCommandId → ℕ → Item
error_response invalid code = only_result code
error_response read_device_info code =
    Item.device_info_item
      (record { result = code; version = 0; revision = 0; build = 0; name = replicate 16 0 })
error_response read code = empty_read code
error_response write code = only_result code
error_response read_state code = Item.read_state_item (record { ads_state = 0; dev_state = 0 })
error_response write_control code = only_result code
error_response add_device_notification code =
    Item.notification_handle_item (record { result = code; handle = 0 })
error_response del_device_notification code = only_result code
error_response device_notification code =
    Item.notification_item (record { length = 0; num_stamps = 0; stamps = [] })
error_response read_write code = empty_read code

-- The answer to a request that failed; bytes have no `command_id`. The request of the exception is
-- `item`, or a read inside a sum-up read, whose error class is the same.
unfoldable pub failure : Item → ℕ → Result (List Item)
unfolding item_command error_response
failure item code = elim (item_command item) [
  | none ↦ err attribute_error
  | some command ↦ ok (error_response command code ∷ [])
]

-- What `_handle_command` makes of what `handle_command` returns or raises.
unfoldable pub response_items : Item → Result Handled → Result (List Item)
unfolding failure
response_items item (ok (some items)) = ok items
response_items item (ok none) = failure item AdsError.device_error
response_items item (err (request_failed code)) = failure item code
response_items item (err diverges) = err diverges
response_items item (err unsent) = err unsent
response_items item (err _) = failure item AdsError.device_error

abbrev pub send_items : AoEHeader → Result (List Item) → Result Bytes
send_items header items = do is ← items; response_to_wire is header AdsError.noerr

-- `_handle_command`
unfoldable pub answer : Codec → AoEHeader → Item → Exec Bytes
unfolding handle_command response_items response_to_wire
answer codec header item c =
    let (result, c') = handle_command codec header item c in
    (send_items header (response_items item result), c')
