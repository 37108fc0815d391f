-- ===== src/Asyncio/Channel.antt =====
-- `write_and_read` of ads_async/asyncio/client.py, on a connection whose other end is the server of
-- ads_async/asyncio/server.py: the frame of a request is read by the server, and the frame of its
-- answer by the client.
use ads_async.Prelude.{
  ℕ, suc, ◌+◌, ◌^◌, ◌<◌, ◌≡◌, refl, ap, ◌∙◌, none, some, false, List, [], ◌∷◌, ◌++◌, length,
}
use ads_async.Prelude.Result.{Result, ok, err, timeout_error}
use ads_async.Bytes.{Bytes}
use ads_async.Structs.Address.{AmsAddr}
use ads_async.Structs.Header.{AoEHeader}
use ads_async.Structs.Item
use ads_async.Structs.Item.{Item, deserialize, get_struct_by_command, serialize}
use ads_async.Structs.Response.{AoEReadResponse}
use ads_async.Structs.Text.{Codec}
use ads_async.Server.State.{ServerCircuit}
use ads_async.Server.Command.{handle_command}
use ads_async.Wire.{
  Parsed, Generated, emit, round, from_wire, request_to_wire, serialize_all, frame_bytes,
}
use ads_async.Wire.Requests.{Request, RequestIsValid, header_of, frame_of, round-frame_of}
use ads_async.Serve.{answer}
use ads_async.Serve.Response.{answer_header, round-answer, answer-items}
use ads_async.Asyncio.Circuit.{write_and_read_result, result_attribute}
use ads_async.Asyncio.Received.{one_frame}

-- The first structure that `from_wire` reads.
abbrev first_parsed : List (ℕ × Parsed) → Parsed
first_parsed [] = none
first_parsed ((_, p) ∷ _) = p

unfoldable pub first_item : Bytes → Parsed
unfolding from_wire
first_item bytes = first_parsed (from_wire bytes).yields

-- What the client makes of the bytes that come back; nothing comes back where the server raised.
unfoldable pub reply : Result Bytes × ServerCircuit → Result Item × ServerCircuit
unfolding first_item write_and_read_result
reply (err e, c) = (err timeout_error, c)
reply (ok frame, c) = (write_and_read_result false (first_item frame), c)

unfoldable pub served : Codec → Parsed → ServerCircuit → Result Item × ServerCircuit
unfolding answer reply
served codec none c = (err timeout_error, c)
served codec (some (header, item)) c = reply (answer codec header item c)

abbrev pub World : Type 0
World = ℕ × ServerCircuit

abbrev after_request : ℕ → Result Item × ServerCircuit → Result Item × World
after_request invoke_id (r, c) = (r, (suc invoke_id, c))

abbrev pub exchange_bytes : Codec → Result Bytes → World → Result Item × World
exchange_bytes codec (err e) w = (err e, w)
exchange_bytes codec (ok bytes) (invoke_id, c) =
    after_request invoke_id (served codec (first_item bytes) c)

-- The invoke ids count up.
unfoldable pub exchange : Codec → AmsAddr → AmsAddr → Item → World → Result Item × World
unfolding request_to_wire served first_item
exchange codec target source item w =
    exchange_bytes codec (request_to_wire item target source w.0) w

first_item-emit :
    (frame : Bytes) (n : ℕ) (p : Parsed) → round (frame ++ []) ≡ emit n p [] → first_item frame ≡ p
unfolding first_item
first_item-emit frame n p e = ap (λ (g : Generated). first_parsed g.yields) (one_frame frame n p e)

request_to_wire-frame_of :
    (r : Request)
    → RequestIsValid r
    → request_to_wire r.item r.target r.source r.invoke_id ≡ ok (frame_of r)
unfolding request_to_wire
request_to_wire-frame_of r v = rw (request_to_wire, v.command_of_item) refl

first_item-frame_of :
    (r : Request) → RequestIsValid r → first_item (frame_of r) ≡ some (header_of r, r.item)
first_item-frame_of r v =
    first_item-emit (frame_of r) (38 + length (serialize r.item)) (some (header_of r, r.item))
      (round-frame_of r [] v)

write_and_read_result-ok :
    (h : AoEHeader) (x : AoEReadResponse)
    → x.result ≡ 0
    → write_and_read_result false (some (h, Item.read_response_item x))
      ≡ ok (Item.read_response_item x)
unfolding write_and_read_result result_attribute
write_and_read_result-ok h x zero = rw zero refl

served-answer :
    (codec : Codec) (h : AoEHeader) (i : Item) (c : ServerCircuit)
    → served codec (some (h, i)) c ≡ reply (answer codec h i c)
unfolding served
served-answer codec h i c = refl

reply-ok :
    (frame : Bytes) (c : ServerCircuit) (h : AoEHeader) (x : AoEReadResponse)
    → first_item frame ≡ some (h, Item.read_response_item x)
    → x.result ≡ 0
    → reply (ok frame, c) ≡ (ok (Item.read_response_item x), c)
unfolding reply
reply-ok frame c h x e zero =
    ap (λ p. (write_and_read_result false p, c)) e
    ∙ ap (λ r. (r, c)) (write_and_read_result-ok h x zero)

exchange-served :
    (codec : Codec) (r : Request) (c : ServerCircuit)
    → RequestIsValid r
    → exchange codec r.target r.source r.item (r.invoke_id, c)
      ≡ after_request r.invoke_id (served codec (some (header_of r, r.item)) c)
unfolding exchange
exchange-served codec r c v =
    ap (λ bytes. exchange_bytes codec bytes (r.invoke_id, c)) (request_to_wire-frame_of r v)
    ∙ ap (λ p. after_request r.invoke_id (served codec p c)) (first_item-frame_of r v)

-- A request whose handler returns a response of the class of reads, without an error, is answered with
-- that response as its bytes are read back.
pub exchange-ok :
    (codec : Codec) (r : Request) (c c' : ServerCircuit) (items : List Item) (payload : Bytes)
    (x : AoEReadResponse)
    → RequestIsValid r
    → get_struct_by_command r.command false ≡ some Item.read_response_class
    → handle_command codec (header_of r) r.item c ≡ (ok (some items), c')
    → serialize_all items ≡ payload
    → 32 + length payload < 2 ^ 32
    → deserialize Item.read_response_class (payload ++ []) ≡ ok (Item.read_response_item x)
    → x.result ≡ 0
    → exchange codec r.target r.source r.item (r.invoke_id, c)
      ≡ (ok (Item.read_response_item x), (suc r.invoke_id, c'))
exchange-ok codec r c c' items payload x v cls handled same small read zero =
    let frame = frame_bytes (answer_header r payload) payload in
    exchange-served codec r c v
    ∙ ap (after_request r.invoke_id) (
        served-answer codec (header_of r) r.item c
        ∙ ap reply (answer-items codec r c c' items payload v handled same)
        ∙ reply-ok frame c' (answer_header r payload) x
            (first_item-emit frame (38 + length payload)
              (some (answer_header r payload, Item.read_response_item x))
              (round-answer r payload Item.read_response_class (Item.read_response_item x) [] v cls
                read small))
            zero)
