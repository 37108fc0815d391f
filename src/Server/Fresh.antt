-- ===== src/Server/Fresh.antt =====
-- A new handle of a circuit of ads_async/protocol.py, while there are fewer handles than numbers.
use ads_async.Prelude.{
  ℕ, ◌<◌, ◌≡◌, refl, true, false, none, some, Option, length, lookup, contains, free_key, arith,
}
use ads_async.Counter.{next}
use ads_async.Counter.Fresh.{next-FirstFree}
use ads_async.Symbols.{Symbol}
use ads_async.Server.State.{ServerCircuit}

not_in_use : (o : Option Symbol) → elim o [ none ↦ false | some _ ↦ true ] ≡ false → o ≡ none
not_in_use o e = ground arith

pub fresh_handle :
    (c : ServerCircuit)
    → length c.handle_to_symbol < c.handle_counter.max_count
    → (handle : ℕ) × (next (λ h. contains h c.handle_to_symbol) c.handle_counter
        ≡ some (record c.handle_counter { value = handle }))
      × (handle < c.handle_counter.max_count)
      × (lookup handle c.handle_to_symbol ≡ none)
fresh_handle c few =
    let (free, lt, unused) = free_key c.handle_counter.max_count c.handle_to_symbol few in
    let (handle, made, first) =
      next-FirstFree (λ k. contains k c.handle_to_symbol) c.handle_counter free lt
        (rw (contains, unused) refl) in
    (handle, made, first.in_range, not_in_use (lookup handle c.handle_to_symbol) first.free)
