-- ===== src/Server/Command.antt =====
-- `handle_command` and `_read_write_sumup_read` of ads_async/protocol.py, which call each other.
use ads_async.Prelude.{
  ℕ, zero, suc, ◌/◌, ◌==◌, Option, none, some, List, [], ◌∷◌, ◌++◌, length, drop, replicate,
  if◌then◌else◌,
}
use ads_async.Prelude.Result.{Result, ok, err, attribute_error, type_error, index_error, diverges}
use ads_async.Bytes.{Bytes, to_le}
use ads_async.Constants
use ads_async.Constants.AdsError
use ads_async.Constants.{AdsCommandId, value}
use ads_async.Structs.Header.{AoEHeader}
use ads_async.Structs.Base.{from_buffer}
use ads_async.Structs.Item.{Item}
use ads_async.Structs.Request.{AdsReadRequest, read_layout, read_of}
use ads_async.Structs.Response.{read_response}
use ads_async.Structs.Text.{Codec}
use ads_async.Server.State.{Exec, pure, raise, lift, ◌>>=◌}
use ads_async.Server.Dispatch
use ads_async.Server.Dispatch.{Handler, get_handler}
use ads_async.Server.Access.{Handled}
use ads_async.Server.Handlers.{
  add_notification, delete_notification, read_catchall, read_device_info, read_state, read_value,
  read_write_catchall, read_write_handle, read_write_info, write_control, write_release_handle,
  write_value,
}

-- A circuit's `handle_command`.
abbrev pub Dispatcher : Type 0
Dispatcher = AoEHeader → Item → Exec Handled

-- `copy.copy(header)` with the command of a read
unfoldable pub read_header : AoEHeader → AoEHeader
unfolding value
read_header header = record header { command = value Constants.read }

-- `read_response[0].result` and `.data`; the length of the request where there is no response
unfoldable pub result_of : AdsReadRequest → Handled → Result (ℕ × Bytes)
result_of r none = ok (AdsError.device_error, replicate r.length 0)
result_of r (some []) = err index_error
result_of r (some (Item.read_response_item x ∷ _)) = ok (x.result, x.payload)
result_of r (some (_ ∷ _)) = err attribute_error

abbrev pub Results : Type 0
Results = List ℕ × Bytes

unfoldable pub add_result : ℕ × Bytes → Results → Results
add_result (result, bytes) (results, joined) = (result ∷ results, bytes ++ joined)

-- What the loop does with the response to one read.
unfoldable pub sumup_step : AdsReadRequest → Handled → Exec Results → Exec Results
unfolding result_of add_result
sumup_step request response rest = do
  result ← lift (result_of request response)
  results ← rest
  pure (add_result result results)

-- The loop over the reads; `joined` is `b"".join` of the data so far.
unfoldable pub sumup_loop : Dispatcher → AoEHeader → ℕ → Bytes → Exec Results
unfolding read_header sumup_step
sumup_loop dispatch header zero buf = pure ([], [])
sumup_loop dispatch header (suc count) buf =
    let rest = sumup_loop dispatch header count (drop 12 buf) in
    (do
      request ← lift (from_buffer read_layout read_of buf)
      response ← dispatch (read_header header) (Item.read_item request)
      sumup_step request response rest)

-- `[ctypes.c_uint32(res) for res in results]`, serialized
unfoldable pub result_bytes : List ℕ → Bytes
result_bytes [] = []
result_bytes (r ∷ rs) = to_le 4 r ++ result_bytes rs

unfoldable pub sumup_data : ℕ → Results → Bytes
unfolding result_bytes
sumup_data index_offset (results, joined) =
    if index_offset == 0 then joined else result_bytes results ++ joined

unfoldable pub sumup_payload : Dispatcher → AoEHeader → ℕ → Option Bytes → Exec Handled
unfolding sumup_loop sumup_data
sumup_payload dispatch header index_offset none = raise type_error
sumup_payload dispatch header index_offset (some bytes) = do
  results ← sumup_loop dispatch header (length bytes / 12) bytes
  pure (some (Item.read_response_item (read_response (sumup_data index_offset results)) ∷ []))

-- `_read_write_sumup_read`
unfoldable pub sumup_read : Dispatcher → AoEHeader → Item → Exec Handled
unfolding sumup_payload
sumup_read dispatch header (Item.read_write_item r) =
    sumup_payload dispatch header r.index_offset r.payload
sumup_read dispatch header _ = raise attribute_error

module _ (codec : Codec) where
  -- The call of the method that was found; `dispatch` is the `handle_command` that it may call.
  unfoldable pub call : Dispatcher → AoEHeader → Item → Handler → Exec Handled
  unfolding add_notification delete_notification read_catchall read_device_info read_state
      read_value read_write_catchall read_write_handle read_write_info write_control
      write_release_handle write_value sumup_read
  call dispatch header item Dispatch.add_notification = add_notification item
  call dispatch header item Dispatch.delete_notification = delete_notification item
  call dispatch header item Dispatch.read_catchall = read_catchall item
  call dispatch header item Dispatch.read_device_info_handler = read_device_info
  call dispatch header item Dispatch.read_state_handler = read_state
  call dispatch header item Dispatch.read_value = read_value item
  call dispatch header item Dispatch.read_write_catchall = read_write_catchall
  call dispatch header item Dispatch.read_write_handle = read_write_handle codec item
  call dispatch header item Dispatch.read_write_info = read_write_info codec item
  call dispatch header item Dispatch.read_write_sumup_read = sumup_read dispatch header item
  call dispatch header item Dispatch.write_control_handler = write_control
  call dispatch header item Dispatch.write_release_handle = write_release_handle item
  call dispatch header item Dispatch.write_value = write_value codec item

  -- `handle_command` with a limit on how deep it calls itself.
  unfoldable pub handle_command_within : ℕ → Dispatcher
  unfolding call get_handler
  handle_command_within zero header item = raise diverges
  handle_command_within (suc depth) header item =
      let nested = handle_command_within depth in
      (do handler ← lift (get_handler header item); call nested header item handler)

  -- `handle_command`. A sum-up read calls it for reads alone, so two calls deep is enough.
  unfoldable pub handle_command : Dispatcher
  unfolding handle_command_within
  handle_command = handle_command_within 2
