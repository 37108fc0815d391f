-- ===== src/Asyncio/Values.antt =====
-- What ads_async/structs.py reads from the responses to a client's requests: the symbol entry, the
-- handle, and the value of a symbol.
use ads_async.Prelude.{
  ℕ, zero, suc, ◌/◌, Option, none, some, List, [], ◌∷◌, take, drop, leb, ◌==◌, if◌then◌else◌,
}
use ads_async.Prelude.Result.{
  Result, ok, err, value_error, key_error, attribute_error, request_failed, ◌>>=◌,
}
use ads_async.Bytes.{Bytes}
use ads_async.Constants.{AdsDataType, CtypesType, ctypes_type, to_data_type, string}
use ads_async.Constants.IndexGroup
use ads_async.Structs.Base.{from_buffer}
use ads_async.Structs.Item.{Item}
use ads_async.Structs.Response.{AoEReadResponse, AoEHandleResponse, handle_layout, handle_of}
use ads_async.Structs.SymbolEntry.{AdsSymbolEntry, deserialize_entry}
use ads_async.Structs.Text.{Text, Codec}
use ads_async.Symbols.{deserialize_data}

-- A value: the items of the format, each as its bytes; a text; or the bytes of a `STRING` that is no
-- text.
pub data Decoded : Type 0 where
  elements : List Bytes → Decoded
  text : Text → Decoded
  joined : Bytes → Decoded

-- `struct.unpack` of `count` items of one size.
unfoldable pub chunks : ℕ → ℕ → Bytes → List Bytes
chunks zero size bytes = []
chunks (suc count) size bytes = take size bytes ∷ chunks count size (drop size bytes)

-- `data[: data.index(0)]`; `none` is the `ValueError`.
abbrev pub cons_before : ℕ → Option Bytes → Option Bytes
cons_before b none = none
cons_before b (some bs) = some (b ∷ bs)

unfoldable pub before_null : Bytes → Option Bytes
before_null [] = none
before_null (b ∷ bs) = let rest = before_null bs in if b == 0 then some [] else cons_before b rest

-- The `try` of a `STRING`: a `ValueError` leaves `data` as it is by then.
abbrev pub text_or_joined : Bytes → Result Text → Result Decoded
text_or_joined bytes (ok t) = ok (text t)
text_or_joined bytes (err value_error) = ok (joined bytes)
text_or_joined bytes (err e) = err e

unfoldable pub string_value : Codec → Bytes → Result Decoded
unfolding before_null
string_value codec bytes = elim (before_null bytes) [
  | none ↦ ok (joined bytes)
  | some before ↦ text_or_joined before (codec.decode before)
]

abbrev pub value_of : Codec → AdsDataType → ℕ → CtypesType → Bytes → Result Decoded
value_of codec string count c bytes = string_value codec bytes
value_of codec _ count c bytes = elim c.standard_size [
  | none ↦ err key_error
  | some size ↦ ok (elements (chunks count size bytes))
]

-- `deserialize_data_by_symbol_entry`
unfoldable pub deserialize_data_by_symbol_entry : Codec → AdsSymbolEntry → Bytes → Result Decoded
unfolding to_data_type ctypes_type deserialize_data string_value chunks
deserialize_data_by_symbol_entry codec info bytes = elim (to_data_type info.data_type) [
  | none ↦ err value_error
  | some t ↦ elim (ctypes_type t) [
    | none ↦ err key_error
    | some c ↦ do
      raw ← deserialize_data t (info.size / c.size) (take info.size bytes)
      value_of codec t (info.size / c.size) c raw
  ]
]

-- What `upcast_by_index_group` returns.
pub data Upcast : Type 0 where
  entry_response : AdsSymbolEntry → Upcast
  same_response : AoEReadResponse → Upcast

unfoldable pub upcast_by_index_group : Codec → ℕ → AoEReadResponse → Result Upcast
unfolding deserialize_entry
upcast_by_index_group codec index_group r =
    if r.result == 0
    then if index_group == IndexGroup.sym_infobynameex
      then (do e ← deserialize_entry codec (drop 8 r.buffer); ok (entry_response e))
      else ok (same_response r)
    else if leb r.result 0xFFFF
    then err (request_failed r.result)
    else err value_error

-- `as_handle_response`
unfoldable pub as_handle_response : AoEReadResponse → Result AoEHandleResponse
as_handle_response r = from_buffer handle_layout handle_of r.buffer

-- The ends of `get_symbol_info_by_name` and `get_symbol_handle_by_name` of the asyncio client; another
-- structure has no such methods, and an upcast to something else no such attributes.
abbrev pub entry_of_upcast : Upcast → Result AdsSymbolEntry
entry_of_upcast (entry_response e) = ok e
entry_of_upcast (same_response _) = err attribute_error

unfoldable pub info_of_response : Codec → Item → Result AdsSymbolEntry
unfolding upcast_by_index_group
info_of_response codec (Item.read_response_item r) = do
  u ← upcast_by_index_group codec IndexGroup.sym_infobynameex r
  entry_of_upcast u
info_of_response codec _ = err attribute_error

unfoldable pub handle_of_response : Item → Result ℕ
unfolding as_handle_response
handle_of_response (Item.read_response_item r) = do h ← as_handle_response r; ok h.handle
handle_of_response _ = err attribute_error
