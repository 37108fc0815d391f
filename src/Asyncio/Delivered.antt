-- ===== src/Asyncio/Delivered.antt =====
-- Which callbacks an update is handed to, in ads_async/asyncio/client.py.
use ads_async.Prelude.{
  ℕ, ◌<◌, ◌≡◌, inl, inr, refl, ap, sym, ◌∙◌, Bool, true, false, none, some, List, [], ◌∷◌, Dict,
  lookup, insert, erase, lookup-insert, lookup-erase, arith, ◌==◌, if◌then◌else◌, Bool-cases, In,
  In-append_right,
}
use ads_async.Asyncio.Callbacks.{Update, call, Notification, calls, dead_tokens, erase_all, process}

abbrev member : ℕ → List ℕ → Bool
member k [] = false
member k (j ∷ js) = if j == k then true else member k js

module _ {F : Type 0} where
  -- No key stands twice in a dictionary.
  abbrev pub Distinct : Dict F → Type 0
  Distinct [] = Unit
  Distinct ((k, f) ∷ d) = (lookup k d ≡ none) × Distinct d

  pub insert-Distinct : (k : ℕ) (f : F) (d : Dict F) → Distinct d → Distinct (insert k f d)
  unfolding insert lookup
  insert-Distinct k f [] h = (refl, tt)
  insert-Distinct k f ((j, g) ∷ d) h =
      ground (arith, lookup-insert k j f d, insert-Distinct k f d h.1)

  pub erase-Distinct : (k : ℕ) (d : Dict F) → Distinct d → Distinct (erase k d)
  unfolding erase
  erase-Distinct k [] h = tt
  erase-Distinct k ((j, g) ∷ d) h = ground (arith, lookup-erase k j d, erase-Distinct k d h.1)

  pub erase_all-Distinct : (ks : List ℕ) (d : Dict F) → Distinct d → Distinct (erase_all ks d)
  unfolding erase_all
  erase_all-Distinct [] d h = h
  erase_all-Distinct (k ∷ ks) d h = erase_all-Distinct ks (erase k d) (erase-Distinct k d h)

  lookup-erase_all :
      (k : ℕ) (ks : List ℕ) (d : Dict F)
      → lookup k (erase_all ks d) ≡ (if member k ks then none else lookup k d)
  unfolding erase_all
  lookup-erase_all k [] d = refl
  lookup-erase_all k (j ∷ ks) d =
      ground (arith, lookup-erase_all k ks (erase j d), lookup-erase j k d)

  pub lookup-erase_all_kept :
      (k : ℕ) (f : F) (ks : List ℕ) (d : Dict F)
      → lookup k (erase_all ks d) ≡ some f
      → lookup k d ≡ some f
  lookup-erase_all_kept k f ks d e = ground (arith, lookup-erase_all k ks d, e)

  module _ (alive : F → Bool) (u : Update) where
    -- An update is handed to every callback that is alive,
    calls-registered :
        (k : ℕ) (f : F) (d : Dict F)
        → lookup k d ≡ some f
        → alive f ≡ true
        → In (call f u) (calls alive u d)
    unfolding lookup calls
    calls-registered k f [] e live = absurd (cc)
    calls-registered k f ((j, g) ∷ d) e live = elim (Bool-cases (j == k)) [
      | inl here ↦
          let same : g ≡ f = ground (arith, e, here) in
          let both : alive g ≡ true = ap alive same ∙ live in
          rw both (inl (ap (λ h. call h u) (sym same)))
      | inr there ↦ elim (Bool-cases (alive g)) [
        | inl both ↦ rw both (inr (calls-registered k f d (ground (arith, e, there)) live))
        | inr dead ↦ rw dead (calls-registered k f d (ground (arith, e, there)) live)
      ]
    ]

  module _ (alive : F → Bool) where
    member-dead_tokens-none :
        (k : ℕ) (d : Dict F) → lookup k d ≡ none → member k (dead_tokens alive d) ≡ false
    unfolding lookup dead_tokens
    member-dead_tokens-none k [] e = refl
    member-dead_tokens-none k ((j, g) ∷ d) e = ground (arith, member-dead_tokens-none k d, e)

    member-dead_tokens_alive :
        (k : ℕ) (f : F) (d : Dict F)
        → Distinct d
        → lookup k d ≡ some f
        → alive f ≡ true
        → member k (dead_tokens alive d) ≡ false
    unfolding lookup dead_tokens
    member-dead_tokens_alive k f [] h e live = refl
    member-dead_tokens_alive k f ((j, g) ∷ d) h e live = elim (Bool-cases (j == k)) [
      | inl here ↦
          let same : g ≡ f = ground (arith, e, here) in
          let both : alive g ≡ true = ap alive same ∙ live in
          let gone : lookup k d ≡ none = ground (arith, h.0, here) in
          rw both (member-dead_tokens-none k d gone)
      | inr there ↦
          let rest : lookup k d ≡ some f = ground (arith, e, there) in
          ground (arith, member-dead_tokens_alive k f d h.1 rest live, there)
    ]

-- The tokens in use are below the next one, each with one callback.
pub record WellFormed {F : Type 0} (n : Notification F) : Type 0 where
  pub distinct : Distinct n.callbacks
  pub below : (k : ℕ) (f : F) → lookup k n.callbacks ≡ some f → k < n.callback_id

module _ {F : Type 0} (alive : F → Bool) (u : Update) (n : Notification F) where
  -- A callback that is registered and alive is called with the update, and stays registered.
  pub process-registered :
      (k : ℕ) (f : F)
      → WellFormed n
      → lookup k n.callbacks ≡ some f
      → alive f ≡ true
      → In (call f u) (process alive u n).submitted
        × (lookup k (process alive u n).callbacks ≡ some f)
  unfolding process
  process-registered k f w e live = (
    In-append_right (call f u) n.submitted (calls alive u n.callbacks)
        (calls-registered alive u k f n.callbacks e live),
    lookup-erase_all k (dead_tokens alive n.callbacks) n.callbacks
        ∙ ap (λ b. if b then none else lookup k n.callbacks)
            (member-dead_tokens_alive alive k f n.callbacks w.distinct e live)
        ∙ e,
  )

  pub process-WellFormed : WellFormed n → WellFormed (process alive u n)
  unfolding process
  process-WellFormed w = record {
    distinct = erase_all-Distinct (dead_tokens alive n.callbacks) n.callbacks w.distinct;
    below = λ k f e.
        w.below k f (lookup-erase_all_kept k f (dead_tokens alive n.callbacks) n.callbacks e);
  }
