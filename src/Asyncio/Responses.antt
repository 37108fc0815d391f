-- ===== src/Asyncio/Responses.antt =====
-- The responses of the server of ads_async/protocol.py, as the client of ads_async/asyncio/client.py
-- reads them back from their bytes.
use mathlib.Core.List.{append_assoc}
use ads_async.Prelude.{
  ℕ, List, suc, ◌+◌, ◌^◌, ◌<◌, ◌≡◌, refl, ap, ◌∙◌, some, false, [], ◌∷◌, ◌++◌, length, drop, arith,
}
use ads_async.Prelude.Result.{ok}
use ads_async.Bytes.{Bytes, to_le, pack, size_of}
use ads_async.Structs.Base.{from_buffer-pack, drop-pack}
use ads_async.Structs.Item
use ads_async.Structs.Item.{Item, serialize, deserialize, get_struct_by_command}
use ads_async.Structs.Response.{read_response_layout, handle_response, handle_layout, handle_of}
use ads_async.Structs.SymbolEntry.{AdsSymbolEntry, deserialize_entry}
use ads_async.Structs.Text.{Codec}
use ads_async.Wire.{serialize_all}
use ads_async.Wire.Requests.{Request, RequestIsValid, header_of}
use ads_async.Server.State.{ServerCircuit}
use ads_async.Server.Command.{handle_command}
use ads_async.Asyncio.Channel.{exchange, exchange-ok}
use ads_async.Serve.Response.{
  received_response, response_payload, length-response_payload, deserialize-read_response,
}
use ads_async.Asyncio.Values.{
  info_of_response, handle_of_response, upcast_by_index_group, as_handle_response,
}

-- The bytes of a handle are those of a read response.
pub serialize_all-handle :
    (handle : ℕ)
    → serialize_all (Item.handle_item (handle_response handle) ∷ [])
      ≡ response_payload (pack (4 ∷ []) (handle ∷ []))
unfolding serialize_all serialize pack to_le
serialize_all-handle handle = refl

-- The entry of a symbol is read off the buffer of its response.
pub info_of_response-entry :
    (codec : Codec) (entry : Bytes) (e : AdsSymbolEntry)
    → deserialize_entry codec (entry ++ []) ≡ ok e
    → info_of_response codec (Item.read_response_item (received_response entry [])) ≡ ok e
unfolding info_of_response upcast_by_index_group size_of
info_of_response-entry codec entry e read =
    let rest : drop 8 ((pack read_response_layout (0 ∷ length entry ∷ []) ++ entry) ++ [])
        ≡ entry ++ [] =
      ap (drop 8) (append_assoc (pack read_response_layout (0 ∷ length entry ∷ [])) entry [])
      ∙ drop-pack read_response_layout (0 ∷ length entry ∷ []) (entry ++ []) in
    rw (rest, read) refl

buffer_shape :
    (handle : ℕ)
    → (received_response (pack (4 ∷ []) (handle ∷ [])) []).buffer
      ≡ pack handle_layout (0 ∷ 4 ∷ handle ∷ []) ++ []
unfolding pack to_le
buffer_shape handle = refl

pub handle_of_response-handle :
    (handle : ℕ)
    → handle < 2 ^ 32
    → handle_of_response
        (Item.read_response_item (received_response (pack (4 ∷ []) (handle ∷ [])) []))
      ≡ ok handle
unfolding handle_of_response as_handle_response
handle_of_response-handle handle small =
    rw
      (
        buffer_shape handle,
        from_buffer-pack handle_layout handle_of (0 ∷ 4 ∷ handle ∷ []) [] (omega (arith, small)),
      )
      refl

-- A response of the class of reads, whose items are serialized to a result, a length and bytes.
pub exchange-response :
    (codec : Codec) (r : Request) (c c' : ServerCircuit) (items : List Item) (bytes : Bytes)
    → RequestIsValid r
    → get_struct_by_command r.command false ≡ some Item.read_response_class
    → handle_command codec (header_of r) r.item c ≡ (ok (some items), c')
    → serialize_all items ≡ response_payload bytes
    → 40 + length bytes < 2 ^ 32
    → exchange codec r.target r.source r.item (r.invoke_id, c)
      ≡ (ok (Item.read_response_item (received_response bytes [])), (suc r.invoke_id, c'))
exchange-response codec r c c' items bytes v cls handled same small =
    exchange-ok codec r c c' items (response_payload bytes) (received_response bytes []) v cls
      handled same (omega (arith, small, length-response_payload bytes))
      (deserialize-read_response bytes [] (omega (arith, small))) refl
