-- ===== src/Serve/Exchange.antt =====
-- A read by handle from the client's request to the client's view of the response: the frames of
-- ads_async/protocol.py around the handlers of the server.

use ads_async.Prelude.{
  ℕ, ◌+◌, ◌^◌, ◌<◌, ◌≡◌, refl, ap, ◌∙◌, some, [], ◌∷◌, ◌++◌, length, lookup, arith,
}
use ads_async.Prelude.Result.{ok}
use ads_async.Bytes.{Bytes}
use ads_async.Constants
use ads_async.Constants.{to_command_id, value, to_command_id-value}
use ads_async.Constants.IndexGroup
use ads_async.Structs.Address.{AmsAddr}
use ads_async.Structs.Header.{AoEHeader}
use ads_async.Structs.Item
use ads_async.Structs.Item.{Item, serialize, deserialize, get_struct_by_command}
use ads_async.Structs.Request.{AdsReadRequest}
use ads_async.Structs.Response.{read_response}
use ads_async.Structs.Text.{Codec}
use ads_async.Symbols.{Symbol, symbol_read}
use ads_async.Server.State.{ServerCircuit}
use ads_async.Server.Command.{handle_command}
use ads_async.Server.Handles.{handle_command-read_value, by_handle_answer, read_answer}
use ads_async.Wire.{round, emit, frame_bytes}
use ads_async.Wire.Requests.{Request, RequestIsValid, header_of, command_id-header_of}
use ads_async.Serve.Defs.{answer}
use ads_async.Serve.Response.{
  received_response, response_payload, length-response_payload, serialize_all-read_response,
  deserialize-read_response, answer_header, round-answer, answer-items,
}

-- The header of the response to a read.
abbrev pub response_header : Request → Bytes → AoEHeader
response_header r bytes = answer_header r (response_payload bytes)

consumed : (bytes : Bytes) → 38 + length (response_payload bytes) ≡ 46 + length bytes
consumed bytes = omega (arith, length-response_payload bytes)

-- A read of a value by handle, as a request.
abbrev pub read_request : AdsReadRequest → AmsAddr → AmsAddr → ℕ → Request
read_request item target source invoke_id = record {
  item = Item.read_item item;
  command = Constants.read;
  target = target;
  source = source;
  invoke_id = invoke_id;
}

module _ (codec : Codec) (item : AdsReadRequest) (target source : AmsAddr) (invoke_id : ℕ) where
  abbrev request : Request
  request = read_request item target source invoke_id

  handled :
      (s : Symbol) (bytes : Bytes) (c : ServerCircuit)
      → item.index_group ≡ IndexGroup.sym_valbyhnd
      → lookup item.index_offset c.handle_to_symbol ≡ some s
      → symbol_read c.database s ≡ ok bytes
      → handle_command codec (header_of request) (Item.read_item item) c
        ≡ (ok (some (Item.read_response_item (read_response bytes) ∷ [])), c)
  handled s bytes c g found read =
      handle_command-read_value codec (header_of request) item c (command_id-header_of request) g
      ∙ ap (λ o. (by_handle_answer c.database o, c)) found
      ∙ ap (λ x. (read_answer x, c)) read

  -- A valid request to read by handle a symbol that can be read is answered with one frame, which
  -- changes nothing on the server. The client reads off that frame, whatever follows it, a header
  -- with the invoke id of the request and a response without an error that carries the bytes of the
  -- symbol.
  pub exchange_read :
      (s : Symbol) (bytes rest : Bytes) (c : ServerCircuit)
      → RequestIsValid request
      → item.index_group ≡ IndexGroup.sym_valbyhnd
      → lookup item.index_offset c.handle_to_symbol ≡ some s
      → symbol_read c.database s ≡ ok bytes
      → 40 + length bytes < 2 ^ 32
      → (frame : Bytes) × (answer codec (header_of request) (Item.read_item item) c ≡ (ok frame, c))
        × (round (frame ++ rest)
            ≡ emit
                (46 + length bytes)
                (some (
                  response_header request bytes,
                  Item.read_response_item (received_response bytes rest),
                ))
                rest)
  unfolding get_struct_by_command
  exchange_read s bytes rest c v g found read small =
      let payload = response_payload bytes in
      let fits : 32 + length payload < 2 ^ 32 =
        omega (arith, small, length-response_payload bytes) in
      (
        frame_bytes (response_header request bytes) payload,
        answer-items codec request c c (Item.read_response_item (read_response bytes) ∷ []) payload
            v (handled s bytes c g found read)
            (serialize_all-read_response bytes (omega (arith, small))),
        round-answer request payload Item.read_response_class
              (Item.read_response_item (received_response bytes rest)) rest v refl
              (deserialize-read_response bytes rest (omega (arith, small))) fits
            ∙ ap
                (λ n.
                  emit n
                    (some (
                      response_header request bytes,
                      Item.read_response_item (received_response bytes rest),
                    ))
                    rest)
                (consumed bytes),
      )
