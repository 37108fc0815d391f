-- ===== src/Serve/Response.antt =====
-- The response that the server of ads_async/asyncio/server.py sends to a valid request, and what
-- `from_wire` of ads_async/protocol.py reads off it.
use mathlib.Core.List.{append_assoc, append-nil}
use ads_async.Prelude.{
  ℕ, ◌+◌, ◌%◌, ◌^◌, ◌<◌, ◌≡◌, ◌≢◌, refl, ap, ◌∙◌, some, false, List, [], ◌∷◌, ◌++◌, length,
  length-append, drop, arith,
}
use ads_async.Prelude.Result.{Exception, Result, ok, err}
use ads_async.Bytes.{Bytes, pack, size_of, length-pack}
use ads_async.Constants.{to_command_id-value}
use ads_async.Constants.AdsError
use ads_async.Structs.Base.{pack_s_exact, from_buffer-pack, unpack_s-append, drop-pack}
use ads_async.Structs.Header.{
  AoEHeader, AoEFits, command_id, create_request, create_response, is_request,
}
use ads_async.Structs.Item
use ads_async.Structs.Item.{Item, serialize, deserialize, get_struct_by_command}
use ads_async.Structs.Response.{
  AoEReadResponse, read_response, read_response_layout, read_response_of,
}
use ads_async.Structs.Text.{Codec}
use ads_async.Server.State.{ServerCircuit}
use ads_async.Server.Access.{Handled}
use ads_async.Server.Command.{handle_command}
use ads_async.Wire.{finish, round, emit, serialize_all, frame_bytes}
use ads_async.Wire.Frames.{round-frame_bytes}
use ads_async.Wire.Requests.{Request, RequestIsValid, header_of, command_id-header_of, value-lt}
use ads_async.Serve.Defs.{answer}
use ads_async.Serve.Answers.{answer_total, answer_items, response_frame}

-- The read response as a client sees it: with its length, and with the buffer it was read from.
abbrev pub received_response : Bytes → Bytes → AoEReadResponse
received_response bytes rest = record {
  result = 0;
  read_length = length bytes;
  payload = bytes;
  buffer = (pack read_response_layout (0 ∷ length bytes ∷ []) ++ bytes) ++ rest;
}

-- The bytes of a read response.
abbrev pub response_payload : Bytes → Bytes
response_payload bytes = pack read_response_layout (0 ∷ length bytes ∷ []) ++ bytes

pub length-response_payload : (bytes : Bytes) → length (response_payload bytes) ≡ 8 + length bytes
unfolding size_of
length-response_payload bytes = omega (
  arith,
  length-append (pack read_response_layout (0 ∷ length bytes ∷ [])) bytes,
  length-pack read_response_layout (0 ∷ length bytes ∷ []),
)

pub serialize_all-read_response :
    (bytes : Bytes)
    → length bytes < 2 ^ 32
    → serialize_all (Item.read_response_item (read_response bytes) ∷ []) ≡ response_payload bytes
unfolding serialize_all serialize
serialize_all-read_response bytes small =
    let same : length bytes % 2 ^ 32 ≡ length bytes = omega (arith, small) in
    append-nil (serialize (Item.read_response_item (read_response bytes)))
    ∙ rw (same, pack_s_exact bytes) refl

dropped_fields :
    (n : ℕ) (rest : Bytes) → drop 8 (pack read_response_layout (0 ∷ n ∷ []) ++ rest) ≡ rest
unfolding size_of
dropped_fields n rest = drop-pack read_response_layout (0 ∷ n ∷ []) rest

pub deserialize-read_response :
    (bytes rest : Bytes)
    → length bytes < 2 ^ 32
    → deserialize Item.read_response_class (response_payload bytes ++ rest)
      ≡ ok (Item.read_response_item (received_response bytes rest))
unfolding deserialize
deserialize-read_response bytes rest small =
    rw
      (
        append_assoc (pack read_response_layout (0 ∷ length bytes ∷ [])) bytes rest,
        from_buffer-pack read_response_layout read_response_of (0 ∷ length bytes ∷ [])
            (bytes ++ rest) (omega (arith, small)),
        dropped_fields (length bytes) (bytes ++ rest),
        unpack_s-append bytes rest,
      )
      refl

module _ (r : Request) (payload : Bytes) where
  abbrev pub answer_header : AoEHeader
  answer_header =
      create_response r.source r.target r.command (length payload) r.invoke_id AdsError.noerr

  answer_header-AoEFits : RequestIsValid r → 32 + length payload < 2 ^ 32 → AoEFits answer_header
  unfolding create_response
  answer_header-AoEFits v small =
      let t = v.target_fits in
      let s = v.source_fits in let i = v.invoke_id_fits in omega (arith, small, value-lt r.command)

  command_id-answer_header : command_id answer_header ≡ some r.command
  unfolding command_id create_response
  command_id-answer_header = to_command_id-value r.command

  -- The frame of a response is read back by the client.
  pub round-answer :
      (cls : Item.StructClass) (item : Item) (rest : Bytes)
      → RequestIsValid r
      → get_struct_by_command r.command false ≡ some cls
      → deserialize cls (payload ++ rest) ≡ ok item
      → 32 + length payload < 2 ^ 32
      → round (frame_bytes answer_header payload ++ rest)
        ≡ emit (38 + length payload) (some (answer_header, item)) rest
  unfolding create_response is_request
  round-answer cls item rest v of_command read small =
      round-frame_bytes answer_header payload rest (answer_header-AoEFits v small) refl small
      ∙ rw (command_id-answer_header, of_command)
          (ap (finish (38 + length payload) answer_header rest) read)

not_err :
    {r : Result Handled × ServerCircuit} {items : List Item} {c : ServerCircuit} {e : Exception}
    → r ≡ (ok (some items), c)
    → r.0 ≢ err e
not_err h bad = cc (h, bad)

-- A request whose handler returns items is answered with the frame of their bytes.
pub answer-items :
    (codec : Codec) (r : Request) (c c' : ServerCircuit) (items : List Item) (payload : Bytes)
    → RequestIsValid r
    → handle_command codec (header_of r) r.item c ≡ (ok (some items), c')
    → serialize_all items ≡ payload
    → answer codec (header_of r) r.item c ≡ (ok (frame_bytes (answer_header r payload) payload), c')
unfolding create_request
answer-items codec r c c' items payload v h e =
    answer_total codec (header_of r) r.item r.command r.command c v.command_of_item
      (command_id-header_of r) (not_err h) (not_err h)
    ∙ ap (λ x. (ok (response_frame (header_of r) r.command (answer_items r.command x.0)), x.1)) h
    ∙ ap (λ p. (ok (frame_bytes (answer_header r p) p), c')) e
