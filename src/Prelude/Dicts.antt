-- ===== src/Prelude/Dicts.antt =====
-- A Python dictionary with number keys, as an association list in insertion order.
use Prim.Native.Nat.{ℕ, zero, suc, ◌<◌, ◌≤◌}
use mathlib.Core.Path.{◌≡◌}
use mathlib.Core.Logic.{◌⊎◌, inl, inr}
use mathlib.Core.Bool.{Bool, true, false}
use mathlib.Core.Option.{Option, none, some}
use mathlib.Core.List.{List, [], ◌∷◌}
use native.Mathlib.Omega.{arith}
use ads_async.Prelude.Lists.{length}
use ads_async.Prelude.Tests.{Option-cases, Bool-cases, tests, ◌==◌, if◌then◌else◌}

abbrev pub Dict {ℓ} : Type ℓ → Type ℓ
Dict V = List (ℕ × V)

module _ {ℓ} {V : Type ℓ} where
  -- `d.get(k)`; `none` stands for the `KeyError` of `d[k]`.
  unfoldable pub lookup : ℕ → Dict V → Option V
  lookup k [] = none
  lookup k ((j, v) ∷ d) = if j == k then some v else lookup k d

  -- `k in d`
  abbrev pub contains : ℕ → Dict V → Bool
  contains k d = elim (lookup k d) [ none ↦ false | some _ ↦ true ]

  -- `d[k] = v`
  unfoldable pub insert : ℕ → V → Dict V → Dict V
  insert k v [] = (k, v) ∷ []
  insert k v ((j, w) ∷ d) = if j == k then (k, v) ∷ d else (j, w) ∷ insert k v d

  -- `d.pop(k, None)`; all entries of the key go, and a dictionary has one at most.
  unfoldable pub erase : ℕ → Dict V → Dict V
  erase k [] = []
  erase k ((j, w) ∷ d) = let rest = erase k d in if j == k then rest else (j, w) ∷ rest

  pub lookup-insert :
      (k j : ℕ) (v : V) (d : Dict V)
      → lookup j (insert k v d) ≡ (if k == j then some v else lookup j d)
  unfolding lookup insert
  lookup-insert k j v [] = ground arith
  lookup-insert k j v ((i, w) ∷ d) = ground (arith, lookup-insert k j v d)

  pub lookup-erase :
      (k j : ℕ) (d : Dict V) → lookup j (erase k d) ≡ (if k == j then none else lookup j d)
  unfolding lookup erase
  lookup-erase k j [] = ground arith
  lookup-erase k j ((i, w) ∷ d) = ground (arith, lookup-erase k j d)

  pub lookup-insert_cases :
      (k j : ℕ) (v t : V) (d : Dict V)
      → lookup j (insert k v d) ≡ some t
      → ((k ≡ j) × (v ≡ t)) ⊎ (lookup j d ≡ some t)
  lookup-insert_cases k j v t d e = elim (Bool-cases (k == j)) [
    | inl same ↦ inl (omega tests, ground (arith, lookup-insert k j v d, e))
    | inr other ↦ inr (ground (arith, lookup-insert k j v d, e))
  ]

  pub lookup-erase_kept :
      (k j : ℕ) (t : V) (d : Dict V) → lookup j (erase k d) ≡ some t → lookup j d ≡ some t
  lookup-erase_kept k j t d e = ground (arith, lookup-erase k j d, e)

  length-erase_le : (k : ℕ) (d : Dict V) → length (erase k d) ≤ length d
  unfolding erase
  length-erase_le k [] = omega arith
  length-erase_le k ((j, w) ∷ d) = ground (arith, length-erase_le k d)

  length-erase_lt :
      (k : ℕ) (v : V) (d : Dict V) → lookup k d ≡ some v → length (erase k d) < length d
  unfolding lookup erase
  length-erase_lt k v [] e = absurd (cc)
  length-erase_lt k v ((j, w) ∷ d) e = ground (arith, length-erase_le k d, length-erase_lt k v d)

  -- A dictionary with fewer than `n` entries lacks a key below `n`.
  pub free_key : (n : ℕ) (d : Dict V) → length d < n → (k : ℕ) × (k < n) × (lookup k d ≡ none)
  free_key zero d h = absurd (omega arith)
  free_key (suc n) d h = elim (Option-cases (lookup n d)) [
    | inl out ↦ (n, omega arith, out)
    | inr (v, found) ↦
        let (k, lt, out) = free_key n (erase n d) (omega (arith, length-erase_lt n v d found)) in
        (k, omega arith, other n k (lookup-erase n k d) out (omega arith))
  ]
    where
      other :
          (n k : ℕ) {o p : Option V}
          → p ≡ (if n == k then none else o)
          → p ≡ none
          → k < n
          → o ≡ none
      other n k e out lt = ground (arith, e, out)

pub ruleset dict_laws = (lookup-insert, lookup-erase)
