-- ===== src/Tests/Layout.antt =====
-- The theorems on the symbols of a .tmc file and on maps of memory, at concrete inputs.
use ads_async.Prelude.{◌≡◌, refl, some, none, true, false, List, [], ◌∷◌, length, get_or, replicate}
use ads_async.Prelude.Result.{ok, err, key_error}
use ads_async.Constants.{ctypes_type, bit}
use ads_async.Symbols.{Symbol}
use ads_async.Symbols.Tmc.{TmcDataType, TmcItem, item, no_items, one_more, tmc_to_symbols}
use ads_async.Symbols.Map.{Entry, map_symbols_in_memory}
use ads_async.Tests.Data.{counts, limits}

abbrev int_type : TmcDataType
int_type = record {
  name = b'I' ∷ b'N' ∷ b'T' ∷ [];
  base_type = none;
  is_complex_type = false;
  is_pointer = false;
  is_reference = false;
  length = 1;
}

abbrev struct_type : TmcDataType
struct_type = record int_type { name = b'S' ∷ b'T' ∷ []; is_complex_type = true }

abbrev bit_type : TmcDataType
bit_type = record int_type { name = b'B' ∷ b'I' ∷ b'T' ∷ [] }

-- A structure with a bit at bit 17, and a 16-bit number.
abbrev struct_item : TmcItem
struct_item =
    item
      (record {
        name = b's' ∷ [];
        bit_offset = 32;
        bit_size = 32;
        data_type = struct_type;
        comment = none;
      })
      (one_more
        (item
          (record {
            name = b'f' ∷ [];
            bit_offset = 17;
            bit_size = 1;
            data_type = bit_type;
            comment = none;
          })
          no_items)
        (one_more
          (item
            (record {
              name = b'n' ∷ [];
              bit_offset = 0;
              bit_size = 16;
              data_type = int_type;
              comment = none;
            })
            no_items)
          no_items))

abbrev flag : Symbol
flag = record counts {
  name = b's' ∷ b'.' ∷ b'f' ∷ [];
  offset = 6;
  data_type = bit;
  type_name = bit_type.name;
  bit_offset = some (record { offset = 1; size = 1 });
}

made : (symbols : List Symbol) × (tmc_to_symbols struct_item [] 0 0 ≡ ok symbols)
unfolding tmc_to_symbols ctypes_type
made = (_, refl)

in_order : get_or made.0 1 counts ≡ flag
unfolding made tmc_to_symbols ctypes_type
in_order = refl

-- Two 16-bit symbols in a memory of six bytes, the later one first.
abbrev two_symbols : List Symbol
two_symbols = limits ∷ counts ∷ []

abbrev two_entries : List Entry
two_entries =
    record { symbol = limits; start = 4; size = 2 }
    ∷ record { symbol = counts; start = 2; size = 2 }
    ∷ []

mapped :
    map_symbols_in_memory (replicate 6 0) two_symbols
    ≡ ok ([] ∷ [] ∷ (counts ∷ []) ∷ (counts ∷ []) ∷ (limits ∷ []) ∷ (limits ∷ []) ∷ [])
unfolding map_symbols_in_memory ctypes_type
mapped = refl

past_the_end : map_symbols_in_memory (replicate 5 0) two_symbols ≡ err key_error
unfolding map_symbols_in_memory ctypes_type
past_the_end = refl
