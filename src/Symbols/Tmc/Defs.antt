-- ===== src/Symbols/Tmc/Defs.antt =====
-- `tmc_to_symbols` of ads_async/symbols.py. pytmc parses the file: an item is what it gives, with the
-- first level of its sub-items, of which the code makes a set, so in any order.
use ads_async.Prelude.{
  ℕ, ◌+◌, ◌-◌, ◌*◌, ◌/◌, ◌%◌, Bool, false, ◌||◌, ◌&&◌, Option, none, some, List, [], ◌∷◌, ◌++◌, ltb,
  ◌==◌, if◌then◌else◌,
}
use ads_async.Prelude.Result.{Result, ok, err, value_error, key_error, ◌>>=◌}
use ads_async.Constants.{ctypes_type, bigtype}
use ads_async.Structs.Text.{Text}
use ads_async.Symbols.Defs.{OffsetSize, basic, complex, Symbol}
use ads_async.Symbols.Tmc.Types.{tmc_type}

pub record TmcDataType : Type 0 where
  pub name : Text
  pub base_type : Option Text
  pub is_complex_type : Bool
  pub is_pointer : Bool
  pub is_reference : Bool
  pub length : ℕ

pub record TmcInfo : Type 0 where
  pub name : Text
  pub bit_offset : ℕ
  pub bit_size : ℕ
  pub data_type : TmcDataType
  pub comment : Option Text

mutual
  pub data TmcItem : Type 0 where
    item : TmcInfo → TmcItems → TmcItem

  pub data TmcItems : Type 0 where
    no_items : TmcItems
    one_more : TmcItem → TmcItems → TmcItems

abbrev pub info_of : TmcItem → TmcInfo
info_of (item i subs) = i

-- `bit_offset_obj`
unfoldable pub bit_part : (bit_offset bit_size : ℕ) → Option OffsetSize
bit_part bit_offset bit_size =
    if bit_offset % 8 == 0 && bit_size % 8 == 0
    then none
    else some (record { offset = bit_offset - bit_offset / 8 * 8; size = bit_size })

unfoldable pub symbol_name : Text → Text → Text
symbol_name [] name = name
symbol_name (c ∷ cs) name = (c ∷ cs) ++ (b'.' ∷ name)

unfoldable pub ads_type_name : TmcDataType → Text
ads_type_name t = elim t.base_type [ none ↦ t.name | some base ↦ base ]

abbrev pub is_indirect : TmcDataType → Bool
is_indirect t = t.is_pointer || t.is_reference

-- `Symbol.__init__` refuses a pointer with a bit offset, and a type without a ctypes type.
abbrev pub refused : Bool → Option OffsetSize → Bool
refused pointer none = false
refused pointer (some _) = pointer

-- The `BasicSymbol` of an item at a bit offset.
unfoldable pub basic_symbol : TmcInfo → ℕ → Text → ℕ → Result Symbol
unfolding bit_part ads_type_name tmc_type
basic_symbol i bit_offset name area = elim (tmc_type (ads_type_name i.data_type)) [
  | none ↦ err key_error
  | some t ↦
      if refused (is_indirect i.data_type) (bit_part bit_offset i.bit_size)
      then err value_error
      else elim (ctypes_type t) [
        | none ↦ err key_error
        | some _ ↦ ok (record {
          name = name;
          kind = basic;
          data_area = area;
          offset = bit_offset / 8;
          data_type = t;
          array_length = i.data_type.length;
          type_name = i.data_type.name;
          bit_offset = bit_part bit_offset i.bit_size;
          pointer = is_indirect i.data_type;
          comment = i.comment;
        })
      ]
]

-- The `ComplexSymbol` of an item: `math.ceil(bit_size / 8)` bytes.
unfoldable pub complex_symbol : TmcInfo → ℕ → Text → ℕ → Symbol
complex_symbol i bit_offset name area = record {
  name = name;
  kind = complex ((i.bit_size + 7) / 8);
  data_area = area;
  offset = bit_offset / 8;
  data_type = bigtype;
  array_length = i.data_type.length;
  type_name = i.data_type.name;
  bit_offset = none;
  pointer = is_indirect i.data_type;
  comment = none;
}

-- `sub_items.sort(key=…)`, which is stable, of what the loop makes of each sub-item.
unfoldable pub insert_by :
    ℕ → Result (List Symbol) → List (ℕ × Result (List Symbol)) → List (ℕ × Result (List Symbol))
insert_by k r [] = (k, r) ∷ []
insert_by k r ((j, s) ∷ rest) =
    if ltb j k then (j, s) ∷ insert_by k r rest else (k, r) ∷ ((j, s) ∷ rest)

unfoldable pub sort_by : List (ℕ × Result (List Symbol)) → List (ℕ × Result (List Symbol))
unfolding insert_by
sort_by [] = []
sort_by ((k, r) ∷ rest) = insert_by k r (sort_by rest)

-- The generators of the sub-items, one after the other.
unfoldable pub yield_all : List (ℕ × Result (List Symbol)) → Result (List Symbol)
yield_all [] = ok []
yield_all ((k, r) ∷ rest) = do symbols ← r; others ← yield_all rest; ok (symbols ++ others)

abbrev pub append_symbol : Symbol → Result (List Symbol) → Result (List Symbol)
append_symbol s (ok symbols) = ok (symbols ++ (s ∷ []))
append_symbol s (err e) = err e

abbrev pub only_symbol : Result Symbol → Result (List Symbol)
only_symbol (ok s) = ok (s ∷ [])
only_symbol (err e) = err e

-- What an item yields, given what its sub-items do; a pointer's are left out.
unfoldable pub item_symbols :
    TmcInfo → ℕ → Text → ℕ → List (ℕ × Result (List Symbol)) → Result (List Symbol)
unfolding basic_symbol complex_symbol sort_by yield_all
item_symbols i bit_offset name area subs =
    if i.data_type.is_complex_type
    then if i.bit_size % 8 == 0
      then append_symbol (complex_symbol i bit_offset name area)
          (if is_indirect i.data_type then ok [] else yield_all (sort_by subs))
      else err value_error
    else only_symbol (basic_symbol i bit_offset name area)

unfoldable mutual
  unfolding item_symbols symbol_name

  -- `tmc_to_symbols`
  pub tmc_to_symbols : TmcItem → Text → ℕ → ℕ → Result (List Symbol)
  tmc_to_symbols (item i subs) parent_name parent_bit_offset area =
      item_symbols i (i.bit_offset + parent_bit_offset) (symbol_name parent_name i.name) area
        (sub_symbols subs (symbol_name parent_name i.name) (i.bit_offset + parent_bit_offset) area)

  pub sub_symbols : TmcItems → Text → ℕ → ℕ → List (ℕ × Result (List Symbol))
  sub_symbols no_items name bit_offset area = []
  sub_symbols (one_more (item i subs) rest) name bit_offset area =
      (i.bit_offset, tmc_to_symbols (item i subs) name bit_offset area)
      ∷ sub_symbols rest name bit_offset area
