-- ===== src/Counter/Defs.antt =====
-- The state of a `ThreadsafeCounter` and its `__call__`.
use ads_async.Prelude.{
  ℕ, zero, suc, ◌+◌, ◌*◌, ◌^◌, Bool, ◌||◌, Option, none, some, leb, if◌then◌else◌,
}

pub record ThreadsafeCounter : Type 0 where
  pub value : ℕ
  pub max_count : ℕ

-- The counters of a circuit: `initial_value=100, max_count=2 ** 32`.
abbrev pub circuit_counter : ThreadsafeCounter
circuit_counter = record { value = 100; max_count = 2 ^ 32 }

-- `value = 0 if value >= self._max_count else value + 1`
abbrev pub advance : ℕ → ℕ → ℕ
advance max_count value = if leb max_count value then 0 else value + 1

-- `while value in self.dont_clash_with or value >= self._max_count`; `none` if the fuel ran out.
unfoldable pub skip_clashes : ℕ → (ℕ → Bool) → ℕ → ℕ → Option ℕ
skip_clashes zero clashes max_count value = none
skip_clashes (suc fuel) clashes max_count value =
    let again = skip_clashes fuel clashes max_count (advance max_count value) in
    if clashes value || leb max_count value then again else some value

-- `__call__`: the new state, whose value is what the call returns. The loop passes through at most
-- `max_count` values before the wrap and as many after it.
unfoldable pub next : (ℕ → Bool) → ThreadsafeCounter → Option ThreadsafeCounter
next clashes c = elim (skip_clashes (2 * c.max_count + 3) clashes c.max_count (c.value + 1)) [
  | none ↦ none
  | some v ↦ some (record c { value = v })
]
