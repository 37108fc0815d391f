-- ===== src/Tests/Looked.antt =====
-- A symbol that is read by its name over the wire, at a concrete input.
use ads_async.Prelude.{ℕ, ◌<◌, ◌^◌, ◌≡◌, refl, none, some, [], ◌∷◌, lookup, arith}
use ads_async.Prelude.Result.{ok}
use ads_async.Bytes.{Bytes, pack}
use ads_async.Constants.{type_value, ctypes_type}
use ads_async.Structs.Text.{Text, ascii, ascii_bytes, IsFaithful, string_to_byte_string}
use ads_async.Structs.SymbolEntry.{serialize_entry, symbol_entry, update_lengths}
use ads_async.Structs.SymbolEntry.RoundTrip.{IsSimple}
use ads_async.Symbols.{
  Symbol, Database, get_symbol_by_name, find_symbol, byte_size, symbol_read, group_value,
}
use ads_async.Server.State.{ServerCircuit}
use ads_async.Server.Access.{symbol_doc, area_group_value}
use ads_async.Server.Info.{info_entry}
use ads_async.Asyncio.Values.{elements, deserialize_data_by_symbol_entry}
use ads_async.Asyncio.Symbols.{ClientSymbol, new_symbol, with_info, read}
use ads_async.Asyncio.Channel.{exchange}
use ads_async.Asyncio.Arrivals.{IsReadable, HasSimpleTexts}
use ads_async.Asyncio.ByName.{read_by_name, read_again}
use ads_async.Tests.Data.{client_addr, server_addr, area, counts, circuit}

abbrev noted : Symbol
noted = record counts { comment = some (b'n' ∷ []) }

abbrev noted_database : Database
noted_database = record {
  data_areas = record area { symbols = noted ∷ [] } ∷ [];
  index_groups = [];
}

abbrev noted_circuit : ServerCircuit
noted_circuit = record circuit { database = noted_database }

abbrev int_text : Text
int_text = 73 ∷ 78 ∷ 84 ∷ []

int-IsSimple : IsSimple ascii int_text int_text
unfolding ascii_bytes
int-IsSimple = record {
  encoded = refl;
  decoded = refl;
  one_each = refl;
  short = omega arith;
  no_null = (omega arith, (omega arith, (omega arith, tt)));
}

letter-IsSimple :
    (c : ℕ) → ascii_bytes (c ∷ []) ≡ ok (c ∷ []) → 0 < c → IsSimple ascii (c ∷ []) (c ∷ [])
letter-IsSimple c e h = record {
  encoded = e;
  decoded = e;
  one_each = refl;
  short = omega arith;
  no_null = (omega (arith, h), tt);
}

a_encoded : ascii_bytes (97 ∷ []) ≡ ok (97 ∷ [])
unfolding ascii_bytes
a_encoded = refl

n_encoded : ascii_bytes (110 ∷ []) ≡ ok (110 ∷ [])
unfolding ascii_bytes
n_encoded = refl

texts : HasSimpleTexts ascii noted (97 ∷ []) int_text (110 ∷ [])
unfolding symbol_doc
texts = record {
  simple_name = letter-IsSimple 97 a_encoded (omega arith);
  simple_type = int-IsSimple;
  simple_comment = letter-IsSimple 110 n_encoded (omega arith);
}

entry : (bytes : Bytes) × (serialize_entry ascii (info_entry noted_database noted 2) ≡ ok bytes)
unfolding serialize_entry symbol_entry ascii_bytes area_group_value symbol_doc string_to_byte_string
    pack
entry = (_, refl)

readable : IsReadable ascii noted_circuit (97 ∷ []) noted 2 entry.0 (3 ∷ 4 ∷ [])
unfolding get_symbol_by_name find_symbol byte_size symbol_read symbol_entry area_group_value
    group_value ctypes_type type_value symbol_doc update_lengths
readable = record {
  no_null = (omega arith, tt);
  found = refl;
  sized = refl;
  written = entry.1;
  fits = omega arith;
  value_read = refl;
  value_fits = omega arith;
  few = omega arith;
  handles_fit = omega arith;
}

a-IsFaithful : IsFaithful ascii (97 ∷ []) (97 ∷ [])
unfolding ascii_bytes
a-IsFaithful = refl

-- The value: one item of two bytes.
value_decoded :
    deserialize_data_by_symbol_entry ascii (info_entry noted_database noted 2) (3 ∷ 4 ∷ [])
    ≡ ok (elements ((3 ∷ 4 ∷ []) ∷ []))
unfolding deserialize_data_by_symbol_entry symbol_entry type_value
value_decoded = refl

read_by_name_example :
    (handle : ℕ) × (d : ServerCircuit) × (read ascii
        (exchange ascii server_addr client_addr)
        (new_symbol (some (97 ∷ [])) none none)
        (7, noted_circuit)
      ≡ (
        deserialize_data_by_symbol_entry ascii (info_entry noted_database noted 2) (3 ∷ 4 ∷ []),
        record (with_info
            (info_entry noted_database noted 2)
            (new_symbol (some (97 ∷ [])) none none)) { handle = some handle },
        (10, d),
      ))
    × (lookup handle noted_circuit.handle_to_symbol ≡ none)
    × (lookup handle d.handle_to_symbol ≡ some noted)
    × (d.database ≡ noted_database)
read_by_name_example =
    read_by_name ascii server_addr client_addr (97 ∷ []) (97 ∷ []) entry.0 (3 ∷ 4 ∷ []) (97 ∷ [])
      int_text (110 ∷ []) noted 2 7 noted_circuit (omega arith) (omega arith) a_encoded a-IsFaithful
      (omega arith) readable texts (omega arith)

abbrev known : ClientSymbol
known =
    record (with_info (info_entry noted_database noted 2) (new_symbol (some (97 ∷ [])) none none)) {
      handle = some 101;
    }

abbrev later_circuit : ServerCircuit
later_circuit = record noted_circuit { handle_to_symbol = (101, noted) ∷ [] }

later_stored : lookup 101 later_circuit.handle_to_symbol ≡ some noted
unfolding lookup
later_stored = refl

info_size : (info_entry noted_database noted 2).size < 2 ^ 32
unfolding symbol_entry update_lengths
info_size = omega arith

read_again_example :
    read ascii (exchange ascii server_addr client_addr) known (10, later_circuit) ≡ (
      deserialize_data_by_symbol_entry ascii (info_entry noted_database noted 2) (3 ∷ 4 ∷ []),
      known,
      (11, later_circuit),
    )
read_again_example =
    read_again ascii server_addr client_addr known (info_entry noted_database noted 2) 101 noted
      (3 ∷ 4 ∷ []) 10 later_circuit (omega arith) (omega arith) refl refl (omega arith) info_size
      (omega arith) later_stored readable.value_read (omega arith)
