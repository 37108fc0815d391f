-- ===== src/Server/Access.antt =====
-- What the handlers of `ServerCircuit` (ads_async/protocol.py) share: how they find, read and write
-- a symbol, and what they answer.
use Prim.Native.String.{String}
use ads_async.Prelude.{ℕ, Option, none, some, List, [], ◌∷◌, ◌++◌, get_elem?, lookup}
use ads_async.Prelude.Result.{Result, ok, err, key_error, type_error, request_failed}
use ads_async.Bytes.{Bytes}
use ads_async.Constants.AdsError
use ads_async.Structs.Item.{Item}
use ads_async.Structs.Text.{codes, Text, Codec, byte_string_to_string}
use ads_async.Symbols.{
  Symbol, basic, complex, Database, get_symbol_by_name, group_value, area_group, plain_group,
  symbol_read, symbol_write,
}
use ads_async.Server.State.{ServerCircuit, Exec, raise, lift, get, ◌>>=◌}

-- `[structs.AoEResponseHeader()]`
abbrev pub no_error : List Item
no_error = Item.response_item (record { result = AdsError.noerr }) ∷ []

abbrev pub or_failed : ℕ → Option Symbol → Result Symbol
or_failed code none = err (request_failed code)
or_failed code (some s) = ok s

-- `_get_symbol_by_request_handle`
unfoldable pub symbol_by_handle : ℕ → Exec Symbol
symbol_by_handle handle c =
    (or_failed AdsError.client_invalidparm (lookup handle c.handle_to_symbol), c)

-- The `except KeyError` of `_get_symbol_by_request_name`.
abbrev pub not_found : Result Symbol → Result Symbol
not_found (ok s) = ok s
not_found (err key_error) = err (request_failed AdsError.device_symbolnotfound)
not_found (err e) = err e

-- A response: a list of structures, or `None` where the method returns nothing.
abbrev pub Handled : Type 0
Handled = Option (List Item)

-- The docstring of `BasicSymbol`, line by line: `symbol.__doc__` falls back on it where the symbol
-- has no comment of its own.
abbrev line : String → List ℕ
line s = codes s ++ (10 ∷ [])

abbrev basic_doc : Text
basic_doc =
    line ""
    ++ (line "    A symbol holding a basic data type value."
        ++ (line ""
            ++ (line "    This includes support for scalars and arrays of the following types:"
                ++ (line
                      "    INT8 UINT8 INT16 UINT16 INT32 UINT32 INT64 UINT64 REAL32 REAL64 STRING"
                    ++ (line "    WSTRING REAL80 BIT"
                        ++ (line ""
                            ++ (line
                                  "    Notably, this does not include BIGTYPE, which is represented by"
                                ++ (line "    :class:`ComplexSymbol`." ++ codes "    "))))))))

-- `symbol.__doc__ or ""`
unfoldable pub symbol_doc : Symbol → Text
symbol_doc s = elim s.comment [
  | some text ↦ text
  | none ↦ elim s.kind [ basic ↦ basic_doc | complex _ ↦ [] ]
]

-- `symbol.data_area.index_group.value`
unfoldable pub area_group_value : Database → Symbol → ℕ
unfolding group_value
area_group_value db s = elim (get_elem? db.data_areas s.data_area) [
  | none ↦ 0
  | some a ↦ elim a.index_group [ area_group g ↦ group_value g | plain_group n ↦ n ]
]

-- `Symbol.read` of a symbol of the database.
unfoldable pub read_symbol : Symbol → Exec Bytes
read_symbol s c = (symbol_read c.database s, c)

abbrev pub keep_database : Result Database → ServerCircuit → Result (Unit {0}) × ServerCircuit
keep_database (ok db) c = (ok tt, record c { database = db })
keep_database (err e) c = (err e, c)

-- `Symbol.write`
unfoldable pub write_symbol : Symbol → Bytes → Exec (Unit {0})
write_symbol s bytes c = keep_database (symbol_write c.database s bytes) c

module _ (codec : Codec) where
  -- `_get_symbol_by_request_name`
  unfoldable pub symbol_by_name : Bytes → Exec Symbol
  unfolding get_symbol_by_name byte_string_to_string
  symbol_by_name bytes = do
    name ← lift (byte_string_to_string codec bytes)
    c ← get
    lift (not_found (get_symbol_by_name c.database name))

  -- `request.data` of a request whose class has that attribute.
  unfoldable pub symbol_by_payload : Option Bytes → Exec Symbol
  unfolding symbol_by_name
  symbol_by_payload none = raise type_error
  symbol_by_payload (some bytes) = symbol_by_name bytes
