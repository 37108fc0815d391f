-- ===== src/Asyncio/Requested.antt =====
-- The requests of `Symbol.read` of ads_async/asyncio/client.py: their form, and what is made of the
-- responses to them.
use ads_async.Prelude.{
  ℕ, ◌+◌, ◌^◌, ◌<◌, ◌≡◌, refl, ap, some, [], ◌∷◌, ◌++◌, length, length-append, arith,
}
use ads_async.Prelude.Result.{Result, ok}
use ads_async.Bytes.{Bytes, pack, size_of, length-pack}
use ads_async.Constants
use ads_async.Constants.IndexGroup
use ads_async.Structs.Address.{AmsAddr}
use ads_async.Structs.Base.{pack_s, pack_s_exact}
use ads_async.Structs.Item.{Item, serialize, item_command}
use ads_async.Structs.Request.{read_write_layout, read_write_fields, read_layout, read_fields}
use ads_async.Structs.Response.{AoEReadResponse}
use ads_async.Structs.SymbolEntry.{AdsSymbolEntry}
use ads_async.Structs.Text.{Codec, Text, string_to_byte_string}
use ads_async.Client.Requests.{
  by_name, get_symbol_info_by_name, get_symbol_handle_by_name, get_value_by_handle,
}
use ads_async.Serve.Exchange.{read_request}
use ads_async.Wire.Requests.{Request, RequestIsValid, AddrFits}
use ads_async.Asyncio.Values.{
  deserialize_data_by_symbol_entry, info_of_response, handle_of_response,
}
use ads_async.Asyncio.Symbols.{ask, info_by_name, handle_by_name, value_by_handle, read_value}

-- The three requests of a read, from what is answered to them.
module _ {S : Type 0} (codec : Codec) (write_and_read : Item → S → Result Item × S) where
  pub info_by_name-answered :
      (name : Text) (bytes : Bytes) (w w' : S) (response : Item) (e : AdsSymbolEntry)
      → codec.encode name ≡ ok bytes
      → write_and_read
          (Item.read_write_item (by_name IndexGroup.sym_infobynameex 798 (bytes ++ (0 ∷ []))))
          w
        ≡ (ok response, w')
      → info_of_response codec response ≡ ok e
      → info_by_name codec write_and_read name w ≡ (ok e, w')
  unfolding info_by_name get_symbol_info_by_name string_to_byte_string ask
  info_by_name-answered name bytes w w' response e encoded answered understood =
      rw (encoded, answered, understood) refl

  pub handle_by_name-answered :
      (name : Text) (bytes : Bytes) (w w' : S) (response : Item) (handle : ℕ)
      → codec.encode name ≡ ok bytes
      → write_and_read
          (Item.read_write_item (by_name IndexGroup.sym_hndbyname 4 (bytes ++ (0 ∷ []))))
          w
        ≡ (ok response, w')
      → handle_of_response response ≡ ok handle
      → handle_by_name codec write_and_read name w ≡ (ok handle, w')
  unfolding handle_by_name get_symbol_handle_by_name string_to_byte_string ask
  handle_by_name-answered name bytes w w' response handle encoded answered understood =
      rw (encoded, answered, understood) refl

  pub read_value-answered :
      (info : AdsSymbolEntry) (handle : ℕ) (w w' : S) (r : AoEReadResponse)
      → write_and_read (Item.read_item (get_value_by_handle handle info.size)) w
        ≡ (ok (Item.read_response_item r), w')
      → read_value codec write_and_read (some handle) (some info) w
        ≡ (deserialize_data_by_symbol_entry codec info r.payload, w')
  unfolding value_by_handle
  read_value-answered info handle w w' r answered = rw answered refl

module _ (target source : AmsAddr) (t : AddrFits target) (s : AddrFits source) (invoke_id : ℕ) where
  abbrev pub name_request : (index_group read_length : ℕ) → Bytes → Request
  name_request index_group read_length bytes = record {
    item = Item.read_write_item (by_name index_group read_length (bytes ++ (0 ∷ [])));
    command = Constants.read_write;
    target = target;
    source = source;
    invoke_id = invoke_id;
  }

  pub name_request-RequestIsValid :
      (index_group read_length : ℕ) (bytes : Bytes)
      → index_group < 2 ^ 32
      → read_length < 2 ^ 32
      → invoke_id < 2 ^ 32
      → 64 + length bytes < 2 ^ 32
      → RequestIsValid (name_request index_group read_length bytes)
  unfolding item_command serialize size_of
  name_request-RequestIsValid index_group read_length bytes g r i small =
      let payload = bytes ++ (0 ∷ []) in
      let one_more : length payload ≡ length bytes + 1 =
        omega (arith, length-append bytes (0 ∷ [])) in
      record {
        command_of_item = refl;
        item_fits = (omega (arith, g, r, one_more, small), refl);
        target_fits = t;
        source_fits = s;
        invoke_id_fits = i;
        length_fits = omega (
          arith,
          small,
          one_more,
          length-append
              (pack read_write_layout (read_write_fields (by_name index_group read_length payload)))
              (pack_s (length payload) payload),
          length-pack read_write_layout
              (read_write_fields (by_name index_group read_length payload)),
          ap length (pack_s_exact payload),
        );
      }

  pub read_request-RequestIsValid :
      (handle size : ℕ)
      → handle < 2 ^ 32
      → size < 2 ^ 32
      → invoke_id < 2 ^ 32
      → RequestIsValid (read_request (get_value_by_handle handle size) target source invoke_id)
  unfolding item_command serialize size_of get_value_by_handle
  read_request-RequestIsValid handle size h z i = record {
    command_of_item = refl;
    item_fits = omega (arith, h, z);
    target_fits = t;
    source_fits = s;
    invoke_id_fits = i;
    length_fits =
        omega (arith, length-pack read_layout (read_fields (get_value_by_handle handle size)));
  }
