-- ===== src/Symbols/Map/Defs.antt =====
-- `map_symbols_in_memory` of ads_async/symbols.py. A set is a list of its elements, in the order in
-- which Python goes through them, which is not specified.
use ads_async.Prelude.{
  ℕ, zero, suc, ◌+◌, Bool, true, false, ◌&&◌, ◌||◌, List, [], ◌∷◌, ◌++◌, length, get_or, set,
  replicate, ltb, ◌==◌, if◌then◌else◌,
}
use ads_async.Prelude.Result.{Result, ok, err, key_error, ◌>>=◌}
use ads_async.Bytes.{Bytes}
use ads_async.Symbols.Defs.{Symbol}
use ads_async.Symbols.Access.{byte_size}

-- A symbol with its place: where it starts, and for how many bytes.
pub record Entry : Type 0 where
  pub symbol : Symbol
  pub start : ℕ
  pub size : ℕ

-- The dictionary `byte_to_symbol`, whose keys are the numbers below its length.
abbrev pub ByteMap : Type 0
ByteMap = List (List Symbol)

-- `byte_to_symbol[offset].append(sym)`
unfoldable pub append_at : ℕ → Symbol → ByteMap → Result ByteMap
append_at offset s m =
    if ltb offset (length m)
    then ok (set m offset (get_or m offset [] ++ (s ∷ [])))
    else err key_error

-- `for offset in range(start, start + count)`
unfoldable pub mark : ℕ → ℕ → Symbol → ByteMap → Result ByteMap
unfolding append_at
mark start zero s m = ok m
mark start (suc count) s m = do m' ← append_at start s m; mark (start + 1) count s m'

unfoldable pub mark_all : List Entry → ByteMap → Result ByteMap
unfolding mark
mark_all [] m = ok m
mark_all (e ∷ es) m = do m' ← mark e.start e.size e.symbol m; mark_all es m'

-- `sorted(…, key=symbol_sort)`: by the start, the longer symbol first.
unfoldable pub comes_before : Entry → Entry → Bool
comes_before a b = ltb a.start b.start || (a.start == b.start && ltb b.size a.size)

unfoldable pub insert_entry : Entry → List Entry → List Entry
unfolding comes_before
insert_entry e [] = e ∷ []
insert_entry e (d ∷ ds) = if comes_before d e then d ∷ insert_entry e ds else e ∷ (d ∷ ds)

unfoldable pub sort_entries : List Entry → List Entry
unfolding insert_entry
sort_entries [] = []
sort_entries (e ∷ es) = insert_entry e (sort_entries es)

-- `memory_range` of the symbols that are no pointers, and the eight bytes of each pointer.
unfoldable pub plain_entries : List Symbol → Result (List Entry)
unfolding byte_size
plain_entries [] = ok []
plain_entries (s ∷ ss) = elim s.pointer [
  | true ↦ plain_entries ss
  | false ↦ do
    size ← byte_size s
    rest ← plain_entries ss
    ok (record { symbol = s; start = s.offset; size = size } ∷ rest)
]

unfoldable pub pointer_entries : List Symbol → List Entry
pointer_entries [] = []
pointer_entries (s ∷ ss) =
    let rest = pointer_entries ss in
    if s.pointer then record { symbol = s; start = s.offset; size = 8 } ∷ rest else rest

unfoldable pub map_symbols_in_memory : Bytes → List Symbol → Result ByteMap
unfolding mark_all sort_entries plain_entries pointer_entries
map_symbols_in_memory memory symbols = do
  plain ← plain_entries symbols
  m ← mark_all (sort_entries plain) (replicate (length memory) [])
  mark_all (pointer_entries symbols) m
