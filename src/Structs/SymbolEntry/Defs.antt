-- ===== src/Structs/SymbolEntry/Defs.antt =====
-- `AdsSymbolEntry` of ads_async/structs.py: the information on a symbol that a server sends, and its
-- payload of three texts, each followed by a NUL.

use ads_async.Prelude.{ℕ, ◌+◌, ◌%◌, ◌^◌, List, [], ◌∷◌, ◌++◌, length, get_or, drop}
use ads_async.Prelude.Result.{Result, ok, ◌>>=◌}
use ads_async.Bytes.{Bytes, Layout, pack}
use ads_async.Constants.{AdsDataType, type_value}
use ads_async.Structs.Base.{from_buffer, pack_s, unpack_s}
use ads_async.Structs.Text.{Text, Codec, string_to_byte_string, byte_string_to_string}

pub record AdsSymbolEntry : Type 0 where
  pub entry_length : ℕ
  pub index_group : ℕ
  pub index_offset : ℕ
  pub size : ℕ
  pub data_type : ℕ
  pub flags : ℕ
  pub name_length : ℕ
  pub type_length : ℕ
  pub comment_length : ℕ
  pub name : Text
  pub type_name : Text
  pub comment : Text

abbrev pub entry_layout : Layout
entry_layout = 4 ∷ 4 ∷ 4 ∷ 4 ∷ 4 ∷ 4 ∷ 2 ∷ 2 ∷ 2 ∷ []

abbrev pub entry_fields : AdsSymbolEntry → List ℕ
entry_fields e =
    e.entry_length ∷ e.index_group ∷ e.index_offset ∷ e.size ∷ e.data_type ∷ e.flags ∷ e.name_length
    ∷ e.type_length ∷ e.comment_length ∷ []

abbrev pub entry_of : List ℕ → AdsSymbolEntry
entry_of vs = record {
  entry_length = get_or vs 0 0;
  index_group = get_or vs 1 0;
  index_offset = get_or vs 2 0;
  size = get_or vs 3 0;
  data_type = get_or vs 4 0;
  flags = get_or vs 5 0;
  name_length = get_or vs 6 0;
  type_length = get_or vs 7 0;
  comment_length = get_or vs 8 0;
  name = [];
  type_name = [];
  comment = [];
}

-- `_update_lengths`: the lengths are counted in characters, and stored in 16 bits.
unfoldable pub update_lengths : AdsSymbolEntry → AdsSymbolEntry
update_lengths e =
    let n = length e.name % 2 ^ 16 in
    let t = length e.type_name % 2 ^ 16 in
    let c = length e.comment % 2 ^ 16 in
    record e {
      entry_length = 30 + n + 1 + t + 1 + c + 1;
      name_length = n;
      type_length = t;
      comment_length = c;
    }

-- The setters of `name`, `type_name` and `comment`.
unfoldable pub set_name : Text → AdsSymbolEntry → AdsSymbolEntry
unfolding update_lengths
set_name value e = update_lengths (record e { name = value })

unfoldable pub set_type_name : Text → AdsSymbolEntry → AdsSymbolEntry
unfolding update_lengths
set_type_name value e = update_lengths (record e { type_name = value })

unfoldable pub set_comment : Text → AdsSymbolEntry → AdsSymbolEntry
unfolding update_lengths
set_comment value e = update_lengths (record e { comment = value })

-- `AdsSymbolEntry(…)`
unfoldable pub symbol_entry :
    (index_group index_offset size : ℕ)
    → AdsDataType
    → (flags : ℕ) (name type_name comment : Text) → AdsSymbolEntry
unfolding update_lengths type_value
symbol_entry index_group index_offset size data_type flags name type_name comment =
    update_lengths (record {
      entry_length = 0;
      index_group = index_group;
      index_offset = index_offset;
      size = size;
      data_type = type_value data_type;
      flags = flags;
      name_length = 0;
      type_length = 0;
      comment_length = 0;
      name = name;
      type_name = type_name;
      comment = comment;
    })

module _ (codec : Codec) where
  -- One payload field: the text encoded, cut or padded to the stated length, and a NUL.
  abbrev pub pack_text : ℕ → Text → Result Bytes
  pack_text n t = do bytes ← string_to_byte_string codec t; ok (pack_s n bytes ++ (0 ∷ []))

  unfoldable pub serialize_entry : AdsSymbolEntry → Result Bytes
  unfolding update_lengths
  serialize_entry entry = do
    let e = update_lengths entry
    name ← pack_text e.name_length e.name
    type_name ← pack_text e.type_length e.type_name
    comment ← pack_text e.comment_length e.comment
    ok (pack entry_layout (entry_fields e) ++ (name ++ (type_name ++ comment)))

  unfoldable pub deserialize_entry : Bytes → Result AdsSymbolEntry
  deserialize_entry buf = do
    e ← from_buffer entry_layout entry_of buf
    let names = drop 30 buf
    n ← unpack_s e.name_length names
    name ← byte_string_to_string codec n
    let types = drop (e.name_length + 1) names
    t ← unpack_s e.type_length types
    type_name ← byte_string_to_string codec t
    let comments = drop (e.type_length + 1) types
    c ← unpack_s e.comment_length comments
    comment ← byte_string_to_string codec c
    ok (record e { name = name; type_name = type_name; comment = comment })
