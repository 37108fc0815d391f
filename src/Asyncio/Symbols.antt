-- ===== src/Asyncio/Symbols.antt =====
-- `Symbol` of ads_async/asyncio/client.py. What `write_and_read` gives, and does besides, is a parameter.
use ads_async.Prelude.{ℕ, Option, none, some}
use ads_async.Prelude.Result.{Result, ok, err, value_error, not_implemented, attribute_error, ◌>>=◌}
use ads_async.Bytes.{Bytes}
use ads_async.Structs.Item.{Item}
use ads_async.Structs.Request.{AdsWriteRequest}
use ads_async.Structs.SymbolEntry.{AdsSymbolEntry}
use ads_async.Structs.Text.{Text, Codec}
use ads_async.Client.Requests.{
  get_symbol_handle_by_name, get_symbol_info_by_name, get_value_by_handle, release_handle,
}
use ads_async.Asyncio.Values.{
  Decoded, deserialize_data_by_symbol_entry, info_of_response, handle_of_response,
}

pub record ClientSymbol : Type 0 where
  pub name : Option Text
  pub index_group : Option ℕ
  pub index_offset : Option ℕ
  pub info : Option AdsSymbolEntry
  pub handle : Option ℕ

-- `Symbol.__init__`
unfoldable pub new_symbol : Option Text → Option ℕ → Option ℕ → ClientSymbol
new_symbol name index_group index_offset = record {
  name = name;
  index_group = index_group;
  index_offset = index_offset;
  info = none;
  handle = none;
}

-- A response that is data: its bytes.
abbrev pub data_of : Item → Result Bytes
data_of (Item.read_response_item r) = ok r.payload
data_of _ = err attribute_error

-- What the lookup of a symbol tells it.
abbrev pub with_info : AdsSymbolEntry → ClientSymbol → ClientSymbol
with_info e s = record s {
  info = some e;
  index_group = some e.index_group;
  index_offset = some e.index_offset;
}

abbrev pub store_handle : Result ℕ → ClientSymbol → Result (Unit {0}) × ClientSymbol
store_handle (err e) s = (err e, s)
store_handle (ok handle) s = (ok tt, record s { handle = some handle })

-- `S` is what a request and its response change besides the symbol.
module _ {S : Type 0} (write_and_read : Item → S → Result Item × S) where
  abbrev understood : {A : Type 0} → (Item → Result A) → Result Item × S → Result A × S
  understood f (err e, w) = (err e, w)
  understood f (ok response, w) = (f response, w)

  -- Send a request, if it could be made, and make something of its response.
  unfoldable pub ask : {A : Type 0} → Result Item → (Item → Result A) → S → Result A × S
  ask (err e) f w = (err e, w)
  ask (ok request) f w = understood f (write_and_read request w)

module _ {S : Type 0} (codec : Codec) (write_and_read : Item → S → Result Item × S) where
  -- `get_symbol_info_by_name`, `get_symbol_handle_by_name` and `get_value_by_handle` of the circuit
  unfoldable pub info_by_name : Text → S → Result AdsSymbolEntry × S
  unfolding get_symbol_info_by_name info_of_response ask
  info_by_name name w =
      let request = get_symbol_info_by_name codec name in
      ask write_and_read (do r ← request; ok (Item.read_write_item r)) (info_of_response codec) w

  unfoldable pub handle_by_name : Text → S → Result ℕ × S
  unfolding get_symbol_handle_by_name handle_of_response ask
  handle_by_name name w =
      let request = get_symbol_handle_by_name codec name in
      ask write_and_read (do r ← request; ok (Item.read_write_item r)) handle_of_response w

  unfoldable pub value_by_handle : ℕ → ℕ → S → Result Item × S
  unfolding get_value_by_handle
  value_by_handle handle size w =
      write_and_read (Item.read_item (get_value_by_handle handle size)) w

  abbrev pub take_handle : Result ℕ × S → ClientSymbol → Result (Unit {0}) × ClientSymbol × S
  take_handle (r, w) s = let (result, s') = store_handle r s in (result, s', w)

  abbrev pub take_info :
      Text → Result AdsSymbolEntry × S → ClientSymbol → Result (Unit {0}) × ClientSymbol × S
  take_info name (err e, w) s = (err e, s, w)
  take_info name (ok e, w) s = take_handle (handle_by_name name w) (with_info e s)

  abbrev pub initialize_by_name :
      Option Text → ClientSymbol → S → Result (Unit {0}) × ClientSymbol × S
  initialize_by_name none s w = (err value_error, s, w)
  initialize_by_name (some name) s w = take_info name (info_by_name name w) s

  abbrev pub initialize_unless :
      Option ℕ → Option ℕ → ClientSymbol → S → Result (Unit {0}) × ClientSymbol × S
  initialize_unless none offset s w = initialize_by_name s.name s w
  initialize_unless (some _) none s w = initialize_by_name s.name s w
  initialize_unless (some _) (some _) s w = (err not_implemented, s, w)

  -- `initialize`
  unfoldable pub initialize : ClientSymbol → S → Result (Unit {0}) × ClientSymbol × S
  unfolding info_by_name handle_by_name
  initialize s w = initialize_unless s.index_group s.index_offset s w

  abbrev pub ensure : Option ℕ → ClientSymbol → S → Result (Unit {0}) × ClientSymbol × S
  ensure (some _) s w = (ok tt, s, w)
  ensure none s w = initialize s w

  -- What `read` makes of the response to its request.
  abbrev pub decode_response : AdsSymbolEntry → Result Item × S → Result Decoded × S
  decode_response info (err e, w) = (err e, w)
  decode_response info (ok response, w) =
      (data_of response >>= λ bytes. deserialize_data_by_symbol_entry codec info bytes, w)

  abbrev pub read_value : Option ℕ → Option AdsSymbolEntry → S → Result Decoded × S
  read_value none info w = (err attribute_error, w)
  read_value (some handle) none w = (err attribute_error, w)
  read_value (some handle) (some info) w = decode_response info (value_by_handle handle info.size w)

  abbrev pub after_ensure : Result (Unit {0}) × ClientSymbol × S → Result Decoded × ClientSymbol × S
  after_ensure (err e, s, w) = (err e, s, w)
  after_ensure (ok _, s, w) = let (result, w') = read_value s.handle s.info w in (result, s, w')

  -- `read`
  unfoldable pub read : ClientSymbol → S → Result Decoded × ClientSymbol × S
  unfolding initialize value_by_handle deserialize_data_by_symbol_entry
  read s w = after_ensure (ensure s.handle s w)

-- `release`: the request that is sent, if any. A handle whose request could be sent is forgotten.
unfoldable pub release : ClientSymbol → Option AdsWriteRequest × ClientSymbol
unfolding release_handle
release s = elim s.handle [
  | none ↦ (none, s)
  | some handle ↦ (some (release_handle handle), record s { handle = none })
]
