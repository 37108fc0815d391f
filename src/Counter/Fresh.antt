-- ===== src/Counter/Fresh.antt =====
-- What a call of the counter returns, and that it returns.
use ads_async.Prelude.{
  ℕ, zero, suc, ◌+◌, ◌-◌, ◌*◌, ◌≤◌, ◌<◌, ◌≡◌, Bool, true, false, ◌||◌, some, arith, leb,
  if◌then◌else◌, Bool-cases, Option-cases, inl, inr, tests,
}
use ads_async.Counter.Defs.{ThreadsafeCounter, advance, skip_clashes, next}

-- How many steps the loop takes from `value` to the free number `free`.
abbrev distance : ℕ → ℕ → ℕ → ℕ
distance max_count free value =
    if leb max_count value
    then 1 + free
    else if leb value free
    then free - value
    else max_count - value + 1 + free

-- `v` is the first free number from `start` on, counted with the wrap at `max_count`.
pub record FirstFree (clashes : ℕ → Bool) (max_count start v : ℕ) : Type 0 where
  pub in_range : v < max_count
  pub free : clashes v ≡ false
  pub passed : (u : ℕ) → start ≤ u → u < v → clashes u ≡ true
  pub wrapped : (u : ℕ) → v < start → start ≤ u → u < max_count → clashes u ≡ true
  pub passed_after : (u : ℕ) → v < start → u < v → clashes u ≡ true

module _ (clashes : ℕ → Bool) (max_count : ℕ) where
  skip_clashes_returns :
      (fuel value free : ℕ)
      → free < max_count
      → clashes free ≡ false
      → distance max_count free value < fuel
      → (v : ℕ) × (skip_clashes fuel clashes max_count value ≡ some v)
  unfolding skip_clashes
  skip_clashes_returns zero value free lt ok m = absurd (omega arith)
  skip_clashes_returns (suc fuel) value free lt ok m =
      elim (Bool-cases (clashes value || leb max_count value)) [
        | inr stop ↦ (value, rw stop)
        | inl go ↦
            rw go (skip_clashes_returns fuel (advance max_count value) free lt ok (ground arith))
      ]

  stopped-FirstFree :
      (value : ℕ)
      → (clashes value || leb max_count value) ≡ false
      → FirstFree clashes max_count value value
  stopped-FirstFree value stop = record {
    in_range = ground arith;
    free = ground arith;
    passed = λ u a b. absurd (omega arith);
    wrapped = λ u a b c. absurd (omega arith);
    passed_after = λ u a b. absurd (omega arith);
  }

  step-FirstFree :
      (value v : ℕ)
      → (clashes value || leb max_count value) ≡ true
      → FirstFree clashes max_count (advance max_count value) v
      → FirstFree clashes max_count value v
  step-FirstFree value v go f = elim (Bool-cases (leb max_count value)) [
    | inl over ↦ record {
      in_range = f.in_range;
      free = f.free;
      passed = λ u a b. absurd (omega (tests, f.in_range));
      wrapped = λ u a b c. absurd (omega tests);
      passed_after = λ u a b. ground (arith, f.passed u);
    }
    | inr within ↦ record {
      in_range = f.in_range;
      free = f.free;
      passed = λ u a b. ground (arith, f.passed u);
      wrapped = λ u a b c. ground (arith, f.wrapped u, f.free);
      passed_after = λ u a b. ground (arith, f.passed_after u);
    }
  ]

  skip_clashes-FirstFree :
      (fuel value v : ℕ)
      → skip_clashes fuel clashes max_count value ≡ some v
      → FirstFree clashes max_count value v
  unfolding skip_clashes
  skip_clashes-FirstFree zero value v e = cc
  skip_clashes-FirstFree (suc fuel) value v e =
      elim (Bool-cases (clashes value || leb max_count value)) [
        | inr stop ↦
            let same : value ≡ v = ground arith in rw (← same) (stopped-FirstFree value stop)
        | inl go ↦
            step-FirstFree value v go
              (skip_clashes-FirstFree fuel (advance max_count value) v (rw go at e))
      ]

-- If some number in range is free, a call returns, and it returns the first free number after the
-- last one, counted with the wrap at `max_count`; the counter keeps it as its value.
pub next-FirstFree :
    (clashes : ℕ → Bool) (c : ThreadsafeCounter) (free : ℕ)
    → free < c.max_count
    → clashes free ≡ false
    → (v : ℕ) × (next clashes c ≡ some (record { value = v; max_count = c.max_count }))
      × FirstFree clashes c.max_count (c.value + 1) v
unfolding next
next-FirstFree clashes c free lt ok =
    let (v, e) =
      skip_clashes_returns clashes c.max_count (2 * c.max_count + 3) (c.value + 1) free lt ok
        (ground arith) in
    (
      v,
      rw (e, next),
      skip_clashes-FirstFree clashes c.max_count (2 * c.max_count + 3) (c.value + 1) v e,
    )

-- What a call returns is in range and no clash.
pub next-fresh :
    (clashes : ℕ → Bool) (c : ThreadsafeCounter) (d : ThreadsafeCounter)
    → next clashes c ≡ some d
    → (d.value < c.max_count) × (clashes d.value ≡ false) × (d.max_count ≡ c.max_count)
unfolding next
next-fresh clashes c d e =
    elim (Option-cases (skip_clashes (2 * c.max_count + 3) clashes c.max_count (c.value + 1))) [
      | inl out ↦ absurd (ground arith)
      | inr (v, found) ↦
          let f =
            skip_clashes-FirstFree clashes c.max_count (2 * c.max_count + 3) (c.value + 1) v
              found in
          (ground (arith, f.in_range), ground (arith, f.free), ground arith)
    ]
