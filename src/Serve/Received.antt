-- ===== src/Serve/Received.antt =====
-- A frame with a request that the server of ads_async/asyncio/server.py receives, from its bytes to
-- the bytes of the answer.
use ads_async.Prelude.{
  refl, [], ◌∷◌, ◌++◌, length, replicate, none, ℕ, ◌≡◌, ◌≢◌, ap, ◌∙◌, true, some, In, In-All, arith,
}
use mathlib.Core.Path.{subst}
use ads_async.Prelude.Result.{unsent, diverges, request_failed, Result, ok, err}
use ads_async.Bytes.{Bytes, pack, to_le}
use ads_async.Constants.{
  AdsCommandId, invalid, read_device_info, read, write, read_state, write_control,
  add_device_notification, del_device_notification, device_notification, read_write,
}
use ads_async.Constants.AdsError
use ads_async.Structs.Base.{pack_s}
use ads_async.Structs.Header.{create_response, AoEHeader, command_id, is_request}
use ads_async.Structs.Item
use ads_async.Structs.Item.{
  serialize, Item, StructClass, request_class, get_struct_by_command, item_command,
}
use ads_async.Structs.Text.{Codec}
use ads_async.Wire.{from_wire, frame_bytes, serialize_all}
use ads_async.Wire.Typed.{struct_class, HasClass, YieldTyped, from_wire-IsTyped}
use ads_async.Server.State.{ServerCircuit}
use ads_async.Server.Access.{Handled}
use ads_async.Server.Command.{handle_command}
use ads_async.Serve.Defs.{answer, error_response}
use ads_async.Serve.Answers.{answer_items, answer_total}

-- The command that a structure of a class has as `_command_id`.
abbrev class_command : StructClass → AdsCommandId
class_command Item.write_class = write
class_command Item.read_write_class = read_write
class_command Item.read_class = read
class_command Item.write_control_class = write_control
class_command Item.add_notification_class = add_device_notification
class_command Item.delete_notification_class = del_device_notification
class_command Item.device_info_request_class = read_device_info
class_command Item.notification_class = device_notification
class_command Item.response_class = write_control
class_command Item.read_response_class = read
class_command Item.notification_handle_class = add_device_notification
class_command Item.device_info_class = read_device_info
class_command Item.read_state_class = read_state

item_command-class_command :
    (item : Item) (cls : StructClass)
    → struct_class item ≡ some cls
    → item_command item ≡ some (class_command cls)
unfolding item_command
item_command-class_command item cls e = ground arith

class_command-request_class :
    (command : AdsCommandId) (cls : StructClass)
    → request_class command ≡ some cls
    → class_command cls ≡ command
unfolding request_class
class_command-request_class command cls e = ground arith

item_command-typed :
    (header : AoEHeader) (item : Item) (command : AdsCommandId) (cls : StructClass)
    → YieldTyped (0, some (header, item))
    → is_request header ≡ true
    → command_id header ≡ some command
    → request_class command ≡ some cls
    → item_command item ≡ some command
unfolding get_struct_by_command
item_command-typed header item command cls (found, known, typed) asks names registered =
    let same : found ≡ command = cc in
    let picks : get_struct_by_command found (is_request header) ≡ some cls =
      rw (same, asks) registered in
    let class : struct_class item ≡ some cls = subst (λ c. HasClass header c item) picks typed in
    item_command-class_command item cls class
    ∙ ap some (class_command-request_class command cls registered)

-- The bytes of the structure that tells an error to a request of a command: the code and zeros for the
-- other fields. A read of the state and a notification have no field for it: they are zeros alone.
abbrev pub error_payload : AdsCommandId → ℕ → Bytes
error_payload invalid code = to_le 4 code
error_payload read_device_info code = to_le 4 code ++ replicate 20 0
error_payload read code = to_le 4 code ++ replicate 4 0
error_payload write code = to_le 4 code
error_payload read_state code = replicate 4 0
error_payload write_control code = to_le 4 code
error_payload add_device_notification code = to_le 4 code ++ replicate 4 0
error_payload del_device_notification code = to_le 4 code
error_payload device_notification code = replicate 8 0
error_payload read_write code = to_le 4 code ++ replicate 4 0

-- The payload of the answer to what `handle_command` returns or raises.
abbrev pub answer_payload : AdsCommandId → Result Handled → Bytes
answer_payload command (ok (some items)) = serialize_all items
answer_payload command (ok none) = error_payload command 0x700
answer_payload command (err (request_failed code)) = error_payload command code
answer_payload command (err _) = error_payload command 0x700

serialize_all-error_response :
    (command : AdsCommandId) (code : ℕ)
    → serialize_all (error_response command code ∷ []) ≡ error_payload command code
unfolding serialize_all serialize error_response pack to_le pack_s
serialize_all-error_response invalid code = refl
serialize_all-error_response read_device_info code = refl
serialize_all-error_response read code = refl
serialize_all-error_response write code = refl
serialize_all-error_response read_state code = refl
serialize_all-error_response write_control code = refl
serialize_all-error_response add_device_notification code = refl
serialize_all-error_response del_device_notification code = refl
serialize_all-error_response device_notification code = refl
serialize_all-error_response read_write code = refl

serialize_all-answer_items :
    (command : AdsCommandId) (result : Result Handled)
    → serialize_all (answer_items command result) ≡ answer_payload command result
serialize_all-answer_items command (ok (some items)) = refl
serialize_all-answer_items command (ok none) = serialize_all-error_response command _
serialize_all-answer_items command (err (request_failed code)) =
    serialize_all-error_response command code
serialize_all-answer_items command (err _) = serialize_all-error_response command _

-- A frame that goes back to the source of a request, under a command and the invoke id of the request.
abbrev pub payload_frame : AoEHeader → AdsCommandId → Bytes → Bytes
payload_frame header command payload =
    frame_bytes
      (create_response header.source header.target command (length payload) header.invoke_id
        AdsError.noerr)
      payload

-- Whatever bytes are received, a request among what `from_wire` yields of them, for a command with a
-- registered class, is answered with one frame, unless the search for a free handle does not end or
-- the response cannot be encoded. The frame goes back to the source of the request, under its
-- command and its invoke id. It carries the items of the response or, where the handler raises, a
-- structure with the code of the error, which is a device error for other exceptions and where the
-- handler returns nothing; but to a device notification the structure is zeros alone, without the error.
pub received_answered :
    (codec : Codec) (buf : Bytes) (consumed : ℕ) (header : AoEHeader) (item : Item)
    (command : AdsCommandId) (cls : StructClass) (c : ServerCircuit)
    → In (consumed, some (header, item)) (from_wire buf).yields
    → is_request header ≡ true
    → command_id header ≡ some command
    → request_class command ≡ some cls
    → (handle_command codec header item c).0 ≢ err diverges
    → (handle_command codec header item c).0 ≢ err unsent
    → answer codec header item c ≡ (
      ok (
          payload_frame header command
            (answer_payload command (handle_command codec header item c).0)),
      (handle_command codec header item c).1,
    )
received_answered codec buf consumed header item command cls c received asks names registered ends
      sent =
    let typed : YieldTyped (consumed, some (header, item)) =
      In-All YieldTyped _ _ received (from_wire-IsTyped buf) in
    answer_total codec header item command command c
      (item_command-typed header item command cls typed asks names registered) names ends sent
    ∙ ap
        (λ payload.
          (ok (payload_frame header command payload), (handle_command codec header item c).1))
        (serialize_all-answer_items command (handle_command codec header item c).0)
