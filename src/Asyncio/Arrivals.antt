-- ===== src/Asyncio/Arrivals.antt =====
-- What `Symbol.read` of ads_async/asyncio/client.py is answered by the server of
-- ads_async/protocol.py, request by request.
use ads_async.Prelude.{
  ℕ, suc, ◌+◌, ◌^◌, ◌<◌, ◌≤◌, ◌≡◌, refl, ap, ◌∙◌, some, none, [], ◌∷◌, ◌++◌, length, lookup, arith,
}
use ads_async.Prelude.Result.{ok}
use ads_async.Bytes.{Bytes, Fits, pack, size_of, length-pack}
use ads_async.Constants.IndexGroup
use ads_async.Structs.Address.{AmsAddr}
use ads_async.Structs.Item.{Item, get_struct_by_command}
use ads_async.Structs.Response.{read_response, handle_response}
use ads_async.Structs.SymbolEntry.{
  AdsSymbolEntry, update_lengths, symbol_entry, entry_layout, entry_fields, serialize_entry,
  deserialize_entry,
}
use ads_async.Structs.SymbolEntry.RoundTrip.{IsSimple, deserialize_entry-serialize_entry}
use ads_async.Structs.SymbolEntry.Lengths.{length-serialize_entry}
use ads_async.Structs.Text.{Codec, Text, HasNoNull, IsFaithful}
use ads_async.Symbols.{Symbol, byte_size, symbol_read, get_symbol_by_name}
use ads_async.Client.Requests.{by_name, get_value_by_handle}
use ads_async.Server.State.{ServerCircuit}
use ads_async.Server.Access.{symbol_doc}
use ads_async.Server.Handles.{handle_command-read_value, by_handle_answer, read_answer}
use ads_async.Server.Info.{info_entry, handle_command-read_write_info}
use ads_async.Server.Values.{handle_command-read_write_handle}
use ads_async.Serve.Response.{received_response, serialize_all-read_response}
use ads_async.Serve.Exchange.{read_request}
use ads_async.Serve.Names.{byte_string_to_string-encoded, found_handle}
use ads_async.Wire.Requests.{AddrFits, header_of, command_id-header_of}
use ads_async.Asyncio.Channel.{exchange}
use ads_async.Asyncio.Responses.{
  serialize_all-handle, info_of_response-entry, handle_of_response-handle, exchange-response,
}
use ads_async.Asyncio.Values.{deserialize_data_by_symbol_entry}
use ads_async.Asyncio.Symbols.{info_by_name, handle_by_name, read_value, read}
use ads_async.Asyncio.Requested.{
  info_by_name-answered, handle_by_name-answered, read_value-answered, name_request,
  name_request-RequestIsValid, read_request-RequestIsValid,
}

-- A symbol of the server that can be looked up by its name and read. `entry` and `value` are the bytes
-- of its information and of its value.
pub record IsReadable (codec : Codec) (c : ServerCircuit) (name : Text) (s : Symbol) (size : ℕ)
    (entry value : Bytes) : Type 0 where
  pub no_null : HasNoNull name
  pub found : get_symbol_by_name c.database name ≡ ok s
  pub sized : byte_size s ≡ ok size
  pub written : serialize_entry codec (info_entry c.database s size) ≡ ok entry
  pub fits : Fits entry_layout (entry_fields (info_entry c.database s size))
  pub value_read : symbol_read c.database s ≡ ok value
  pub value_fits : 40 + length value < 2 ^ 32
  pub few : length c.handle_to_symbol < c.handle_counter.max_count
  pub handles_fit : c.handle_counter.max_count ≤ 2 ^ 32

-- The texts of the entry have one byte for each character.
pub record HasSimpleTexts (codec : Codec) (s : Symbol) (name type_name comment : Bytes)
    : Type 0 where
  pub simple_name : IsSimple codec s.name name
  pub simple_type : IsSimple codec s.type_name type_name
  pub simple_comment : IsSimple codec (symbol_doc s) comment

entry_read_back :
    (codec : Codec) (c : ServerCircuit) (s : Symbol) (size : ℕ) (n ty co entry : Bytes)
    → HasSimpleTexts codec s n ty co
    → Fits entry_layout (entry_fields (info_entry c.database s size))
    → serialize_entry codec (info_entry c.database s size) ≡ ok entry
    → deserialize_entry codec (entry ++ []) ≡ ok (info_entry c.database s size)
unfolding update_lengths symbol_entry
entry_read_back codec c s size n ty co entry texts fits written =
    deserialize_entry-serialize_entry codec (info_entry c.database s size) n ty co entry []
      texts.simple_name texts.simple_type texts.simple_comment fits written

four_bytes : (handle : ℕ) → length (pack (4 ∷ []) (handle ∷ [])) ≡ 4
unfolding size_of
four_bytes handle = length-pack (4 ∷ []) (handle ∷ [])

entry_length-lt : (e : AdsSymbolEntry) → (update_lengths e).entry_length < 2 ^ 20
unfolding update_lengths
entry_length-lt e = omega arith

module _ (codec : Codec) (target source : AmsAddr) (t : AddrFits target) (o : AddrFits source)
    (name bytes : Text) (encoded : codec.encode name ≡ ok bytes)
    (faithful : IsFaithful codec name bytes) (short : 64 + length bytes < 2 ^ 32) where
  -- The information on the symbol arrives, and the server is unchanged.
  pub info_arrives :
      (s : Symbol) (size : ℕ) (entry value n ty co : Bytes) (i : ℕ) (c : ServerCircuit)
      → IsReadable codec c name s size entry value
      → HasSimpleTexts codec s n ty co
      → i < 2 ^ 32
      → info_by_name codec (exchange codec target source) name (i, c)
        ≡ (ok (info_entry c.database s size), (suc i, c))
  unfolding get_struct_by_command
  info_arrives s size entry value n ty co i c v texts small =
      let r = name_request target source t o i IndexGroup.sym_infobynameex 798 bytes in
      let small_entry : length entry < 2 ^ 20 = omega (
        arith,
        length-serialize_entry codec (info_entry c.database s size) entry v.written,
        entry_length-lt (info_entry c.database s size),
      ) in
      info_by_name-answered codec (exchange codec target source) name bytes (i, c) (suc i, c)
        (Item.read_response_item (received_response entry [])) (info_entry c.database s size)
        encoded
        (exchange-response codec r c c (Item.read_response_item (read_response entry) ∷ []) entry
          (name_request-RequestIsValid target source t o i IndexGroup.sym_infobynameex 798 bytes
            (omega arith) (omega arith) small short)
          refl
          (handle_command-read_write_info codec (header_of r)
            (by_name IndexGroup.sym_infobynameex 798 (bytes ++ (0 ∷ []))) (bytes ++ (0 ∷ [])) name s
            c size entry (command_id-header_of r) refl refl
            (byte_string_to_string-encoded codec name bytes v.no_null faithful) v.found v.sized
            v.written)
          (serialize_all-read_response entry (omega (arith, small_entry)))
          (omega (arith, small_entry)))
        (info_of_response-entry codec entry (info_entry c.database s size)
          (entry_read_back codec c s size n ty co entry texts v.fits v.written))

  -- So does a handle that was not in use, which is the symbol's from then on.
  pub handle_arrives :
      (s : Symbol) (size : ℕ) (entry value : Bytes) (i : ℕ) (c : ServerCircuit)
      → IsReadable codec c name s size entry value
      → i < 2 ^ 32
      → (handle : ℕ) × (d : ServerCircuit) × (handle_by_name codec
            (exchange codec target source)
            name
            (i, c)
          ≡ (ok handle, (suc i, d)))
        × (handle < 2 ^ 32)
        × (lookup handle c.handle_to_symbol ≡ none)
        × (lookup handle d.handle_to_symbol ≡ some s)
        × (d.database ≡ c.database)
  unfolding get_struct_by_command
  handle_arrives s size entry value i c v small =
      let r = name_request target source t o i IndexGroup.sym_hndbyname 4 bytes in
      let (handle, d, made, in_range, fresh, handles, same_db) =
        handle_command-read_write_handle codec (header_of r)
          (by_name IndexGroup.sym_hndbyname 4 (bytes ++ (0 ∷ []))) (bytes ++ (0 ∷ [])) name s c
          (command_id-header_of r) refl refl
          (byte_string_to_string-encoded codec name bytes v.no_null faithful) v.found v.few in
      let four : length (pack (4 ∷ []) (handle ∷ [])) ≡ 4 = four_bytes handle in
      let fits : handle < 2 ^ 32 = omega (arith, in_range, v.handles_fit) in
      (
        handle,
        d,
        handle_by_name-answered codec (exchange codec target source) name bytes (i, c) (suc i, d)
            (Item.read_response_item (received_response (pack (4 ∷ []) (handle ∷ [])) [])) handle
            encoded
            (exchange-response codec r c d (Item.handle_item (handle_response handle) ∷ [])
              (pack (4 ∷ []) (handle ∷ []))
              (name_request-RequestIsValid target source t o i IndexGroup.sym_hndbyname 4 bytes
                (omega arith) (omega arith) small short)
              refl made (serialize_all-handle handle) (omega (arith, four)))
            (handle_of_response-handle handle fits),
        fits,
        fresh,
        handles handle ∙ found_handle handle (some s) (lookup handle c.handle_to_symbol),
        same_db,
      )

module _ (codec : Codec) (target source : AmsAddr) (t : AddrFits target) (o : AddrFits source) where
  -- The value arrives, of a symbol that the server has given a handle.
  pub value_arrives :
      (s : Symbol) (handle size : ℕ) (value : Bytes) (i : ℕ) (info : AdsSymbolEntry)
      (c : ServerCircuit)
      → handle < 2 ^ 32
      → info.size < 2 ^ 32
      → i < 2 ^ 32
      → lookup handle c.handle_to_symbol ≡ some s
      → symbol_read c.database s ≡ ok value
      → 40 + length value < 2 ^ 32
      → read_value codec (exchange codec target source) (some handle) (some info) (i, c)
        ≡ (deserialize_data_by_symbol_entry codec info value, (suc i, c))
  unfolding get_struct_by_command get_value_by_handle
  value_arrives s handle size value i info c h z small found read fits =
      let r = read_request (get_value_by_handle handle info.size) target source i in
      read_value-answered codec (exchange codec target source) info handle (i, c) (suc i, c)
        (received_response value [])
        (exchange-response codec r c c (Item.read_response_item (read_response value) ∷ []) value
          (read_request-RequestIsValid target source t o i handle info.size h z small) refl
          (handle_command-read_value codec (header_of r) (get_value_by_handle handle info.size) c
              (command_id-header_of r) refl
            ∙ ap (λ x. (by_handle_answer c.database x, c)) found
            ∙ ap (λ x. (read_answer x, c)) read)
          (serialize_all-read_response value (omega (arith, fits))) fits)
