-- ===== src/Tests/Received.antt =====
-- The theorems on what a frame holds and on its answer, at a frame with a read.
use ads_async.Prelude.{
  ℕ, ◌+◌, ◌≡◌, ◌≢◌, inl, refl, ap, ◌∙◌, true, none, some, [], ◌++◌, length, All, In, arith,
}
use ads_async.Prelude.Result.{Result, unsent, request_failed, ok, err, diverges}
use ads_async.Bytes.{Bytes, pack, to_le}
use ads_async.Constants
use ads_async.Constants.AdsError
use ads_async.Structs.Header.{is_request, create_request}
use ads_async.Structs.Item
use ads_async.Structs.Item.{Item, item_command, request_class, serialize}
use ads_async.Structs.Request.{AdsReadRequest}
use ads_async.Structs.Text.{ascii}
use ads_async.Symbols.{area_by_group}
use ads_async.Server.Access.{Handled}
use ads_async.Server.Command.{handle_command}
use ads_async.Server.Areas.{area_answer, handle_command-read_area}
use ads_async.Wire.{from_wire}
use ads_async.Wire.Progress.{from_wire-emit}
use ads_async.Wire.Requests.{
  Request, RequestIsValid, header_of, frame_of, round-frame_of, command_id-header_of,
}
use ads_async.Wire.Typed.{YieldTyped, from_wire-IsTyped}
use ads_async.Serve.{answer}
use ads_async.Serve.Received.{answer_payload, payload_frame, received_answered}
use ads_async.Serve.Exchange.{read_request}
use ads_async.Tests.Data.{client_addr, server_addr, database, circuit}

-- A read of an index group that no area has.
abbrev read_nowhere : AdsReadRequest
read_nowhere = record { index_group = 1; index_offset = 0; length = 4 }

abbrev asked : Request
asked = read_request read_nowhere server_addr client_addr 101

abbrev buffer : Bytes
buffer = frame_of asked ++ []

asked-IsValid : RequestIsValid asked
unfolding item_command serialize pack to_le
asked-IsValid = record {
  command_of_item = refl;
  item_fits = omega arith;
  target_fits = omega arith;
  source_fits = omega arith;
  invoke_id_fits = omega arith;
  length_fits = omega arith;
}

from_wire-IsTyped_example : All YieldTyped (from_wire buffer).yields
from_wire-IsTyped_example = from_wire-IsTyped buffer

is_received :
    In
      (38 + length (serialize asked.item), some (header_of asked, asked.item))
      (from_wire buffer).yields
is_received = rw (from_wire-emit buffer _ _ [] (round-frame_of asked [] asked-IsValid)) (inl refl)

nowhere : area_by_group database 1 ≡ none
unfolding area_by_group
nowhere = refl

nowhere_fails :
    (handle_command ascii (header_of asked) asked.item circuit).0
    ≡ err (request_failed AdsError.device_invalidaccess)
nowhere_fails =
    ap (λ x. x.0)
      (handle_command-read_area ascii (header_of asked) read_nowhere circuit
        (command_id-header_of asked) (omega arith))
    ∙ ap (area_answer read_nowhere) nowhere

fails_with : {x : ℕ} {r : Result Handled} → r ≡ err (request_failed x) → r ≢ err diverges
fails_with a b = cc

fails_at_once : {x : ℕ} {r : Result Handled} → r ≡ err (request_failed x) → r ≢ err unsent
fails_at_once a b = cc

is_asked : is_request (header_of asked) ≡ true
unfolding create_request is_request
is_asked = refl

read_is_registered : request_class Constants.read ≡ some Item.read_class
unfolding request_class
read_is_registered = refl

received_answered_example : answer ascii (header_of asked) asked.item circuit ≡ (
  ok (
      payload_frame (header_of asked) Constants.read (
        answer_payload Constants.read
          (handle_command ascii (header_of asked) asked.item circuit).0)),
  (handle_command ascii (header_of asked) asked.item circuit).1,
)
received_answered_example =
    received_answered ascii buffer (38 + length (serialize asked.item)) (header_of asked) asked.item
      Constants.read Item.read_class circuit is_received is_asked (command_id-header_of asked)
      read_is_registered (fails_with nowhere_fails) (fails_at_once nowhere_fails)
