-- ===== src/Structs/Item.antt =====
-- The structures together: what `get_struct_by_command` of ads_async/structs.py picks, `serialize`
-- and `deserialize` of each class, and the command that each class is used for.
use ads_async.Prelude.{
  ℕ, ◌-◌, ◌%◌, ◌^◌, Bool, true, false, Option, none, some, [], ◌∷◌, ◌++◌, length, drop, replicate,
  ltb, if◌then◌else◌,
}
use ads_async.Prelude.Result.{Result, ok, err, attribute_error, ◌>>=◌}
use ads_async.Bytes.{Bytes, pack}
use ads_async.Constants.{
  AdsCommandId, invalid, read_device_info, read, write, read_state, write_control,
  add_device_notification, del_device_notification, device_notification, read_write,
}
use ads_async.Structs.Base.{from_buffer, pack_s, unpack_s}
use ads_async.Structs.Request.{
  AdsWriteRequest, write_layout, write_fields, write_of, AdsReadWriteRequest, read_write_layout,
  read_write_fields, read_write_of, AdsReadRequest, read_layout, read_fields, read_of,
  write_control_layout, AdsAddDeviceNotificationRequest, add_notification_layout,
  add_notification_fields, add_notification_of, AdsDeleteDeviceNotificationRequest,
  delete_notification_layout, delete_notification_fields, delete_notification_of,
}
use ads_async.Structs.Response.{
  AoEResponseHeader, response_layout, response_fields, response_of, AoEReadResponse,
  read_response_layout, read_response_of, AoEHandleResponse, handle_layout, handle_fields,
  AoENotificationHandleResponse, notification_handle_layout, notification_handle_fields,
  notification_handle_of, AdsDeviceInfo, device_info_layout, device_info_fields, device_info_of,
  AdsReadStateResponse, read_state_layout, read_state_fields, read_state_of,
}
use ads_async.Structs.Notification.{AdsNotificationStream, deserialize_stream}

-- A structure, or the bytes of a command that no class is registered for.
pub data Item : Type 0 where
  write_item : AdsWriteRequest → Item
  read_write_item : AdsReadWriteRequest → Item
  read_item : AdsReadRequest → Item
  add_notification_item : AdsAddDeviceNotificationRequest → Item
  delete_notification_item : AdsDeleteDeviceNotificationRequest → Item
  device_info_request_item : Item
  notification_item : AdsNotificationStream → Item
  response_item : AoEResponseHeader → Item
  read_response_item : AoEReadResponse → Item
  handle_item : AoEHandleResponse → Item
  notification_handle_item : AoENotificationHandleResponse → Item
  device_info_item : AdsDeviceInfo → Item
  read_state_item : AdsReadStateResponse → Item
  raw_item : Bytes → Item

-- The classes that `_commands` holds.
pub data StructClass : Type 0 where
  write_class read_write_class read_class write_control_class : StructClass
  add_notification_class delete_notification_class device_info_request_class : StructClass
  notification_class response_class read_response_class notification_handle_class : StructClass
  device_info_class read_state_class : StructClass

-- `_commands[command_id]["request"]`; `none` is the `KeyError`.
unfoldable pub request_class : AdsCommandId → Option StructClass
request_class invalid = none
request_class read_device_info = some device_info_request_class
request_class read = some read_class
request_class write = some write_class
request_class read_state = none
request_class write_control = some write_control_class
request_class add_device_notification = some add_notification_class
request_class del_device_notification = some delete_notification_class
request_class device_notification = some notification_class
request_class read_write = some read_write_class

-- `_commands[command_id]["response"]`; every command has one.
unfoldable pub response_class_of : AdsCommandId → StructClass
response_class_of invalid = response_class
response_class_of read_device_info = device_info_class
response_class_of read = read_response_class
response_class_of write = response_class
response_class_of read_state = read_state_class
response_class_of write_control = response_class
response_class_of add_device_notification = notification_handle_class
response_class_of del_device_notification = response_class
response_class_of device_notification = notification_class
response_class_of read_write = read_response_class

unfoldable pub get_struct_by_command : AdsCommandId → Bool → Option StructClass
unfolding request_class response_class_of
get_struct_by_command c true = request_class c
get_struct_by_command c false = some (response_class_of c)

-- `packed.extend(struct.pack(fmt, value))`, skipped where the payload is `None`.
abbrev pack_payload : ℕ → Option Bytes → Bytes
pack_payload n none = []
pack_payload n (some bytes) = pack_s n bytes

-- `serialize(item)`. A stream has no payload field: only its fixed part is written.
unfoldable pub serialize : Item → Bytes
serialize (write_item r) =
    pack write_layout (write_fields r) ++ pack_payload r.write_length r.payload
serialize (read_write_item r) =
    pack read_write_layout (read_write_fields r) ++ pack_payload r.write_length r.payload
serialize (read_item r) = pack read_layout (read_fields r)
serialize (add_notification_item r) = pack add_notification_layout (add_notification_fields r)
serialize (delete_notification_item r) =
    pack delete_notification_layout (delete_notification_fields r)
serialize device_info_request_item = []
serialize (notification_item s) = pack (4 ∷ 4 ∷ []) (s.length ∷ s.num_stamps ∷ [])
serialize (response_item r) = pack response_layout (response_fields r)
serialize (read_response_item r) =
    let n = length r.payload % 2 ^ 32 in
    pack read_response_layout (r.result ∷ n ∷ []) ++ pack_s n r.payload
serialize (handle_item r) = pack handle_layout (handle_fields r)
serialize (notification_handle_item r) =
    pack notification_handle_layout (notification_handle_fields r)
serialize (device_info_item r) = pack device_info_layout (device_info_fields r)
serialize (read_state_item r) = pack read_state_layout (read_state_fields r)
serialize (raw_item bytes) = bytes

-- `bytearray(buf)` extended with zeros to `ctypes.sizeof(AdsDeviceInfo)`
abbrev pad_device_info : Bytes → Bytes
pad_device_info buf = if ltb (length buf) 24 then buf ++ replicate (24 - length buf) 0 else buf

-- `cls.deserialize(buf)`. The format of the payload of `AdsWriteControlRequest` names an attribute
-- that the class does not have.
unfoldable pub deserialize : StructClass → Bytes → Result Item
unfolding deserialize_stream
deserialize write_class buf = do
  r ← from_buffer write_layout write_of buf
  bytes ← unpack_s r.write_length (drop 12 buf)
  ok (write_item (record r { payload = some bytes }))
deserialize read_write_class buf = do
  r ← from_buffer read_write_layout read_write_of buf
  bytes ← unpack_s r.write_length (drop 16 buf)
  ok (read_write_item (record r { payload = some bytes }))
deserialize read_class buf = do r ← from_buffer read_layout read_of buf; ok (read_item r)
deserialize write_control_class buf = do
  _ ← from_buffer write_control_layout (λ vs. vs) buf
  err attribute_error
deserialize add_notification_class buf = do
  r ← from_buffer add_notification_layout add_notification_of buf
  ok (add_notification_item r)
deserialize delete_notification_class buf = do
  r ← from_buffer delete_notification_layout delete_notification_of buf
  ok (delete_notification_item r)
deserialize device_info_request_class buf = ok device_info_request_item
deserialize notification_class buf = do s ← deserialize_stream buf; ok (notification_item s)
deserialize response_class buf = do
  r ← from_buffer response_layout response_of buf
  ok (response_item r)
deserialize read_response_class buf = do
  r ← from_buffer read_response_layout read_response_of buf
  bytes ← unpack_s r.read_length (drop 8 buf)
  ok (read_response_item (record r { payload = bytes; buffer = buf }))
deserialize notification_handle_class buf = do
  r ← from_buffer notification_handle_layout notification_handle_of buf
  ok (notification_handle_item r)
deserialize device_info_class buf = do
  r ← from_buffer device_info_layout device_info_of (pad_device_info buf)
  ok (device_info_item r)
deserialize read_state_class buf = do
  r ← from_buffer read_state_layout read_state_of buf
  ok (read_state_item r)

-- The attribute `_command_id`, which the outermost decorator of a class sets last. A class with no
-- decorator of its own has that of its base; bytes have none.
unfoldable pub item_command : Item → Option AdsCommandId
item_command (write_item _) = some write
item_command (read_write_item _) = some read_write
item_command (read_item _) = some read
item_command (add_notification_item _) = some add_device_notification
item_command (delete_notification_item _) = some del_device_notification
item_command device_info_request_item = some read_device_info
item_command (notification_item _) = some device_notification
item_command (response_item _) = some write_control
item_command (read_response_item _) = some read
item_command (handle_item _) = some write_control
item_command (notification_handle_item _) = some add_device_notification
item_command (device_info_item _) = some read_device_info
item_command (read_state_item _) = some read_state
item_command (raw_item _) = none
