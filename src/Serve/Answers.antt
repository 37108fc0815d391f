-- ===== src/Serve/Answers.antt =====
-- Every request that can be handled is answered.
use ads_async.Prelude.{ℕ, ◌≡◌, ◌≢◌, refl, ap, ◌∙◌, none, some, List, [], ◌∷◌, length}
use ads_async.Prelude.Result.{unsent, diverges, request_failed, Result, ok, err}
use ads_async.Bytes.{Bytes}
use ads_async.Constants.{AdsCommandId}
use ads_async.Constants.AdsError
use ads_async.Structs.Header.{AoEHeader, command_id, create_response}
use ads_async.Structs.Item.{Item, item_command}
use ads_async.Structs.Text.{Codec}
use ads_async.Wire.{frame_bytes, serialize_all, response_to_wire}
use ads_async.Server.State.{ServerCircuit}
use ads_async.Server.Access.{Handled}
use ads_async.Server.Command.{handle_command}
use ads_async.Serve.Defs.{error_response, failure, response_items, send_items, answer}

-- The frame of a response to `header`.
abbrev pub response_frame : AoEHeader → AdsCommandId → List Item → Bytes
response_frame header command items =
    frame_bytes
      (create_response header.source header.target command (length (serialize_all items))
        header.invoke_id AdsError.noerr)
      (serialize_all items)

-- What a result of `handle_command` is answered with, for an item of a command.
abbrev pub answer_items : AdsCommandId → Result Handled → List Item
answer_items command (ok (some items)) = items
answer_items command (ok none) = error_response command AdsError.device_error ∷ []
answer_items command (err (request_failed code)) = error_response command code ∷ []
answer_items command (err _) = error_response command AdsError.device_error ∷ []

failure-answers :
    (item : Item) (command : AdsCommandId) (code : ℕ)
    → item_command item ≡ some command
    → failure item code ≡ ok (error_response command code ∷ [])
unfolding failure
failure-answers item command code e = rw (failure, e) refl

response_items-answers :
    (item : Item) (command : AdsCommandId) (result : Result Handled)
    → item_command item ≡ some command
    → result ≢ err diverges
    → result ≢ err unsent
    → response_items item result ≡ ok (answer_items command result)
unfolding response_items
response_items-answers item command (ok (some items)) e ends sent = refl
response_items-answers item command (ok none) e ends sent = failure-answers item command _ e
response_items-answers item command (err (request_failed code)) e ends sent =
    failure-answers item command code e
response_items-answers item command (err diverges) e ends sent = absurd (ends refl)
response_items-answers item command (err unsent) e ends sent = absurd (sent refl)
response_items-answers item command (err _) e ends sent = failure-answers item command _ e

response_to_wire-frame :
    (header : AoEHeader) (command : AdsCommandId) (items : List Item)
    → command_id header ≡ some command
    → response_to_wire items header AdsError.noerr ≡ ok (response_frame header command items)
unfolding response_to_wire
response_to_wire-frame header command items e = rw (response_to_wire, e) refl

answer-result :
    (codec : Codec) (header : AoEHeader) (item : Item) (c : ServerCircuit)
    → answer codec header item c ≡ (
      send_items header (response_items item (handle_command codec header item c).0),
      (handle_command codec header item c).1,
    )
unfolding answer
answer-result codec header item c = refl

-- A structure of a known command, under a header of a known command, is answered with one frame,
-- whether the handler returns a response, returns nothing or raises, unless the search for a free
-- handle does not end or the response cannot be encoded. The frame goes back to the source of the
-- request, under the command and the invoke id of its header, and carries the items of the response
-- or one item with the error.
pub answer_total :
    (codec : Codec) (header : AoEHeader) (item : Item) (command of_header : AdsCommandId)
    (c : ServerCircuit)
    → item_command item ≡ some command
    → command_id header ≡ some of_header
    → (handle_command codec header item c).0 ≢ err diverges
    → (handle_command codec header item c).0 ≢ err unsent
    → answer codec header item c ≡ (
      ok (
          response_frame header of_header
            (answer_items command (handle_command codec header item c).0)),
      (handle_command codec header item c).1,
    )
answer_total codec header item command of_header c e h ends sent =
    answer-result codec header item c
    ∙ ap (λ items. (send_items header items, (handle_command codec header item c).1))
        (response_items-answers item command (handle_command codec header item c).0 e ends sent)
    ∙ ap (λ bytes. (bytes, (handle_command codec header item c).1))
        (response_to_wire-frame header of_header
          (answer_items command (handle_command codec header item c).0) h)
