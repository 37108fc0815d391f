-- ===== src/Symbols/Defs.antt =====
-- The symbols and the database of ads_async/symbols.py. Symbols share the memory of their data area,
-- so a symbol names its area by its position in the database, and the memory is the database's.

use ads_async.Prelude.{
  ℕ, Bool, true, false, Option, none, some, List, [], ◌∷◌, ◌++◌, length, get_elem?, replicate, ◌==◌,
  if◌then◌else◌,
}
use ads_async.Prelude.Result.{Result, ok, err, key_error}
use ads_async.Bytes.{Bytes}
use ads_async.Constants.{AdsDataType}
use ads_async.Constants.IndexGroup
use ads_async.Structs.Text.{Text}

unfoldable pub same_text : Text → Text → Bool
same_text [] [] = true
same_text [] (_ ∷ _) = false
same_text (_ ∷ _) [] = false
same_text (a ∷ s) (b ∷ t) = if a == b then same_text s t else false

pub record OffsetSize : Type 0 where
  pub offset : ℕ
  pub size : ℕ

-- `BasicSymbol`, and `ComplexSymbol` with its `_struct_size`.
pub data SymbolKind : Type 0 where
  basic : SymbolKind
  complex : (struct_size : ℕ) → SymbolKind

-- `data_area` is the position of the symbol's area in `Database.data_areas`; `comment` is the
-- attribute `__doc__` that `tmc_to_symbols` sets where the .tmc file has a comment.
pub record Symbol : Type 0 where
  pub name : Text
  pub kind : SymbolKind
  pub data_area : ℕ
  pub offset : ℕ
  pub data_type : AdsDataType
  pub array_length : ℕ
  pub type_name : Text
  pub bit_offset : Option OffsetSize
  pub pointer : Bool
  pub comment : Option Text

-- The members of the enumeration `DataAreaIndexGroup`, which are equal to no number.
pub data DataAreaIndexGroup : Type 0 where
  internal input_dst output_src : DataAreaIndexGroup

-- `.value`, an `AdsIndexGroup`
unfoldable pub group_value : DataAreaIndexGroup → ℕ
group_value internal = IndexGroup.plc_data_area
group_value input_dst = IndexGroup.ioimage_rwib
group_value output_src = IndexGroup.ioimage_rwob

-- A key of `Database.index_groups`: `_load_data_areas` uses members of `DataAreaIndexGroup`, and
-- `_configure_plc_memory_area` an `AdsIndexGroup`.
pub data GroupKey : Type 0 where
  area_group : DataAreaIndexGroup → GroupKey
  plain_group : ℕ → GroupKey

-- `symbols` is the dictionary by name, the latest symbol of a name first.
pub record DataArea : Type 0 where
  pub index_group : GroupKey
  pub memory : Bytes
  pub symbols : List Symbol

pub record Database : Type 0 where
  pub data_areas : List DataArea
  pub index_groups : List (GroupKey × ℕ)

-- `data_area.symbols[symbol_name]`
unfoldable pub find_symbol : Text → List Symbol → Option Symbol
unfolding same_text
find_symbol name [] = none
find_symbol name (s ∷ ss) = if same_text name s.name then some s else find_symbol name ss

abbrev pub or_else : Option Symbol → Option Symbol → Option Symbol
or_else none o = o
or_else (some s) o = some s

unfoldable pub find_in_areas : Text → List DataArea → Option Symbol
find_in_areas name [] = none
find_in_areas name (a ∷ areas) = or_else (find_symbol name a.symbols) (find_in_areas name areas)

abbrev pub or_raise {ℓ} : {A : Type ℓ} → Option A → Result A
or_raise none = err key_error
or_raise (some a) = ok a

-- `TmcDatabase.get_symbol_by_name`: the areas in order.
unfoldable pub get_symbol_by_name : Database → Text → Result Symbol
unfolding find_in_areas
get_symbol_by_name db name = or_raise (find_in_areas name db.data_areas)

-- `index_group in index_groups`, for the number of a request: only a plain group is equal to it.
abbrev pub group_is : GroupKey → ℕ → Bool
group_is (area_group _) n = false
group_is (plain_group g) n = g == n

unfoldable pub find_group : ℕ → List (GroupKey × ℕ) → Option ℕ
find_group n [] = none
find_group n ((key, area) ∷ gs) = if group_is key n then some area else find_group n gs

-- The area that is found under the number of a request.
unfoldable pub area_by_group : Database → ℕ → Option DataArea
unfolding find_group
area_by_group db group = elim (find_group group db.index_groups) [
  | none ↦ none
  | some i ↦ get_elem? db.data_areas i
]

-- `add_data_area`
unfoldable pub add_data_area : GroupKey → DataArea → Database → Database
add_data_area key area db = record {
  data_areas = db.data_areas ++ (area ∷ []);
  index_groups = (key, length db.data_areas) ∷ db.index_groups;
}

-- `_configure_plc_memory_area`
unfoldable pub configure_plc_memory_area : Database → Database
unfolding find_group add_data_area
configure_plc_memory_area db = elim (find_group IndexGroup.plc_memory_area db.index_groups) [
  | some _ ↦ db
  | none ↦
      add_data_area (plain_group IndexGroup.plc_memory_area)
        (record {
          index_group = plain_group IndexGroup.plc_memory_area;
          memory = replicate 100_000 0;
          symbols = [];
        })
        db
]
