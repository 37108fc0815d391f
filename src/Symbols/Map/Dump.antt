-- ===== src/Symbols/Map/Dump.antt =====
-- `dump_memory` of ads_async/symbols.py: the texts of the bytes, and the ranges of bytes with one text,
-- of which each is a line. How a line is padded is left out.
use ads_async.Prelude.{
  ℕ, zero, suc, ◌+◌, ◌-◌, Bool, true, false, ◌&&◌, ◌||◌, Option, none, some, List, [], ◌∷◌, ◌++◌,
  map, length, drop, ltb, ◌==◌, if◌then◌else◌,
}
use ads_async.Structs.NetId.{decimal}
use ads_async.Structs.Text.{Text}
use ads_async.Symbols.Defs.{Symbol, OffsetSize, same_text}
use ads_async.Symbols.Map.Defs.{ByteMap}

-- `text.startswith(prefix)`
unfoldable pub starts_with : Text → Text → Bool
starts_with text [] = true
starts_with [] (_ ∷ _) = false
starts_with (c ∷ text) (d ∷ prefix) = c == d && starts_with text prefix

abbrev pub bit_suffix : Option OffsetSize → Text
bit_suffix none = []
bit_suffix (some b) = b'&' ∷ (decimal b.offset ++ (b'#' ∷ decimal b.size))

unfoldable pub format_symbol : Symbol → Text
unfolding decimal
format_symbol s = s.name ++ ((if s.pointer then b'*' ∷ [] else []) ++ bit_suffix s.bit_offset)

-- `len(length_to_sym) != len(symbols)`: two texts have the same length.
unfoldable pub has_length : ℕ → List Text → Bool
has_length n [] = false
has_length n (t ∷ ts) = length t == n || has_length n ts

unfoldable pub same_lengths : List Text → Bool
unfolding has_length
same_lengths [] = false
same_lengths (t ∷ ts) = has_length (length t) ts || same_lengths ts

-- `length_to_sym[max(length_to_sym)]`, of texts with different lengths.
unfoldable pub longest : Text → List Text → Text
longest best [] = best
longest best (t ∷ ts) = longest (if ltb (length best) (length t) then t else best) ts

unfoldable pub all_start : Text → List Text → Bool
unfolding starts_with
all_start text [] = true
all_start text (t ∷ ts) = starts_with text t && all_start text ts

unfoldable pub reduce_redundant : List Text → List Text
unfolding same_lengths longest all_start
reduce_redundant [] = []
reduce_redundant (t ∷ ts) =
    if same_lengths (t ∷ ts)
    then t ∷ ts
    else if all_start (longest t ts) (t ∷ ts)
    then longest t ts ∷ []
    else t ∷ ts

-- `spacer.join(items)`, whose separator is a newline with "+ ".
unfoldable pub join_lines : List Text → Text
join_lines [] = []
join_lines (t ∷ []) = t
join_lines (t ∷ (u ∷ ts)) = t ++ (10 ∷ b'+' ∷ b' ' ∷ join_lines (u ∷ ts))

-- The dictionary `output`, of all the bytes.
unfoldable pub output_of : ByteMap → List Text
unfolding format_symbol reduce_redundant join_lines
output_of m = map (λ symbols. join_lines (reduce_redundant (map format_symbol symbols))) m

-- `find_subsequent_matches`; the list is `output` from `idx` on, and `idx` is no less than 1.
unfoldable pub find_subsequent_matches : ℕ → Text → List Text → ℕ
find_subsequent_matches idx text [] = idx - 1
find_subsequent_matches idx text (t ∷ ts) =
    let rest = find_subsequent_matches (idx + 1) text ts in
    if same_text t text then rest else idx - 1

-- A line: the bytes from `start_idx` to `end_idx`, with their text.
pub record Line : Type 0 where
  pub start_idx : ℕ
  pub end_idx : ℕ
  pub text : Text

-- The `while` loop, from `start_idx` on; each round takes a byte at least.
unfoldable pub dump_loop : ℕ → ℕ → List Text → List Line
unfolding find_subsequent_matches
dump_loop zero start_idx output = []
dump_loop (suc fuel) start_idx [] = []
dump_loop (suc fuel) start_idx (text ∷ output) =
    let end_idx = find_subsequent_matches (start_idx + 1) text output in
    record { start_idx = start_idx; end_idx = end_idx; text = text }
    ∷ dump_loop fuel (end_idx + 1) (drop (end_idx - start_idx) output)

-- `dump_memory`, of what `map_symbols_in_memory` gives.
unfoldable pub dump_memory : ByteMap → List Line
unfolding output_of dump_loop
dump_memory mapped = dump_loop (length mapped) 0 (output_of mapped)
