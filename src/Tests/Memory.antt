-- ===== src/Tests/Memory.antt =====
-- The theorems on symbols and on the counter, at concrete inputs.
use ads_async.Prelude.{ℕ, ◌≡◌, refl, some, [], ◌∷◌, ◌==◌, arith}
use ads_async.Prelude.Result.{ok}
use ads_async.Constants.{ctypes_type}
use ads_async.Counter.{ThreadsafeCounter, next}
use ads_async.Counter.Fresh.{FirstFree, next-FirstFree}
use ads_async.Symbols.{Database, byte_size, symbol_read, symbol_write}
use ads_async.Symbols.Laws.{IsPlain, IsWritable, after, symbol_read-symbol_write_apart}
use ads_async.Tests.Data.{counts, limits, area, database}

pub counts-IsPlain : IsPlain database counts area 2
unfolding byte_size ctypes_type
counts-IsPlain = record {
  in_area = refl;
  sized = refl;
  whole_bytes = refl;
  no_pointer = refl;
  within = omega arith;
}

limits-IsPlain : IsPlain database limits area 2
unfolding byte_size ctypes_type
limits-IsPlain = record {
  in_area = refl;
  sized = refl;
  whole_bytes = refl;
  no_pointer = refl;
  within = omega arith;
}

pub counts-IsWritable : IsWritable counts 2
unfolding ctypes_type
counts-IsWritable = record { is_basic = refl; of_type = (_, refl, refl); not_empty = omega arith }

abbrev written : Database
written = record database {
  data_areas = record area { memory = 1 ∷ 2 ∷ 9 ∷ 10 ∷ 5 ∷ 6 ∷ 7 ∷ 8 ∷ [] } ∷ [];
}

counts_after : symbol_write database counts (9 ∷ 10 ∷ []) ≡ ok written
unfolding symbol_write ctypes_type
counts_after = refl

read_counts : symbol_read database counts ≡ ok (3 ∷ 4 ∷ [])
unfolding symbol_read ctypes_type
read_counts = refl

symbol_read-symbol_write_apart_example : symbol_read written limits ≡ symbol_read database limits
symbol_read-symbol_write_apart_example =
    symbol_read-symbol_write_apart database counts area 2 (9 ∷ 10 ∷ []) written limits area 2
      counts-IsPlain counts-IsWritable refl counts_after limits-IsPlain (after (omega arith))

abbrev five_of_eight : ThreadsafeCounter
five_of_eight = record { value = 5; max_count = 8 }

-- 6, 7 and 0 are taken, and 1 is free.
next-FirstFree_example :
    (v : ℕ) × (next (λ u. u == 6) five_of_eight ≡ some (record { value = v; max_count = 8 }))
    × FirstFree (λ u. u == 6) 8 6 v
next-FirstFree_example = next-FirstFree (λ u. u == 6) five_of_eight 7 (omega arith) refl
