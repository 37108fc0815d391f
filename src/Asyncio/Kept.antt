-- ===== src/Asyncio/Kept.antt =====
-- Which callbacks of a notification of ads_async/asyncio/client.py stay registered.
use ads_async.Prelude.{
  ℕ, ◌≡◌, ◌≢◌, ◌⊎◌, inl, inr, ap, sym, ◌∙◌, Bool, true, none, some, List, [], ◌∷◌, All, Dict,
  lookup, lookup-insert, lookup-erase, lookup-insert_cases, lookup-erase_kept, arith, if◌then◌else◌,
  Option-cases, ne→==, In,
}
use ads_async.Asyncio.Callbacks.{
  Update, call, Notification, new_notification, register, add_callback, remove_callback, remove_all,
  clear, process, pop_callback,
}
use ads_async.Asyncio.Delivered.{
  WellFormed, insert-Distinct, erase-Distinct, process-registered, process-WellFormed,
}
use ads_async.Asyncio.Runs.{
  Happening, added, removed_token, cleared, answered, updated, happen, happens, Same,
  after_register-Same, remove_callback-Same, response_handler-Same,
}

module _ {F : Type 0} where
  Same-WellFormed : (m n : Notification F) → Same m n → WellFormed n → WellFormed m
  Same-WellFormed m n (same, next, _) w = record {
    distinct = rw same w.distinct;
    below = λ k f e. rw next (w.below k f (ap (lookup k) (sym same) ∙ e));
  }

  pop_callback-WellFormed :
      (token : ℕ) (n : Notification F) → WellFormed n → WellFormed (pop_callback token n)
  pop_callback-WellFormed token n w = record {
    distinct = erase-Distinct token n.callbacks w.distinct;
    below = λ k f e. w.below k f (lookup-erase_kept token k f n.callbacks e);
  }

  remove_callback-WellFormed :
      (token : ℕ) (n : Notification F) → WellFormed n → WellFormed (remove_callback token n)
  remove_callback-WellFormed token n w =
      Same-WellFormed _ _ (remove_callback-Same token n) (pop_callback-WellFormed token n w)

  remove_all-WellFormed :
      (d : Dict F) (n : Notification F) → WellFormed n → WellFormed (remove_all d n)
  unfolding remove_all
  remove_all-WellFormed [] n w = w
  remove_all-WellFormed ((token, _) ∷ d) n w =
      remove_all-WellFormed d (remove_callback token n) (remove_callback-WellFormed token n w)

  register-WellFormed : (f : F) (n : Notification F) → WellFormed n → WellFormed (register f n).1
  unfolding register
  register-WellFormed f n w = record {
    distinct = insert-Distinct n.callback_id f n.callbacks w.distinct;
    below = λ k g e. elim (lookup-insert_cases n.callback_id k f g n.callbacks e) [
      | inl (same, _) ↦ omega (arith, same)
      | inr old ↦ omega (arith, w.below k g old)
    ];
  }

  happen-WellFormed :
      (h : Happening F) (n : Notification F) → WellFormed n → WellFormed (happen h n)
  unfolding happen add_callback clear
  happen-WellFormed (added f) n w =
      Same-WellFormed _ _ (after_register-Same n.callbacks f (register f n).1)
        (register-WellFormed f n w)
  happen-WellFormed (removed_token token) n w = remove_callback-WellFormed token n w
  happen-WellFormed cleared n w = remove_all-WellFormed n.callbacks n w
  happen-WellFormed (answered r) n w = Same-WellFormed _ _ (response_handler-Same 0 r n []) w
  happen-WellFormed (updated alive u) n w = process-WellFormed alive u n w

  -- From a new notification on, no token stands for two callbacks, and a new one is always fresh.
  pub happens-WellFormed :
      (hs : List (Happening F)) (n : Notification F) → WellFormed n → WellFormed (happens hs n)
  unfolding happens
  happens-WellFormed [] n w = w
  happens-WellFormed (h ∷ hs) n w = happens-WellFormed hs (happen h n) (happen-WellFormed h n w)

  pub new_notification-WellFormed : WellFormed (new_notification {F = F})
  unfolding new_notification lookup
  new_notification-WellFormed = record { distinct = tt; below = λ k f e. absurd (cc) }

  -- What happens does not take the callback away: it is not removed, and not collected.
  abbrev pub Spares : ℕ → F → Happening F → Type 0
  Spares token f (added _) = Unit
  Spares token f (removed_token k) = k ≢ token
  Spares token f cleared = ⊥
  Spares token f (answered _) = Unit
  Spares token f (updated alive _) = alive f ≡ true

  happen-kept :
      (token : ℕ) (f : F) (h : Happening F) (n : Notification F)
      → WellFormed n
      → lookup token n.callbacks ≡ some f
      → Spares token f h
      → lookup token (happen h n).callbacks ≡ some f
  unfolding happen add_callback register
  happen-kept token f (added g) n w e spared =
      ap (lookup token) (after_register-Same n.callbacks g (register g n).1).0
      ∙ lookup-insert n.callback_id token g n.callbacks
      ∙ ap (λ b. if b then some g else lookup token n.callbacks)
          (ne→== n.callback_id token (λ same. omega (arith, w.below token f e, same)))
      ∙ e
  happen-kept token f (removed_token k) n w e spared =
      ap (lookup token) (remove_callback-Same k n).0
      ∙ lookup-erase k token n.callbacks
      ∙ ap (λ b. if b then none else lookup token n.callbacks) (ne→== k token spared)
      ∙ e
  happen-kept token f cleared n w e spared = absurd spared
  happen-kept token f (answered r) n w e spared =
      ap (lookup token) (response_handler-Same 0 r n []).0 ∙ e
  happen-kept token f (updated alive u) n w e spared =
      (process-registered alive u n token f w e spared).1

  happens-kept :
      (token : ℕ) (f : F) (hs : List (Happening F)) (n : Notification F)
      → WellFormed n
      → lookup token n.callbacks ≡ some f
      → All (Spares token f) hs
      → lookup token (happens hs n).callbacks ≡ some f
  unfolding happens
  happens-kept token f [] n w e spared = e
  happens-kept token f (h ∷ hs) n w e spared =
      happens-kept token f hs (happen h n) (happen-WellFormed h n w)
        (happen-kept token f h n w e spared.0) spared.1

  add_callback-registered :
      (f : F) (n : Notification F) → lookup n.callback_id (add_callback f n).1.callbacks ≡ some f
  unfolding add_callback register
  add_callback-registered f n =
      ap (lookup n.callback_id) (after_register-Same n.callbacks f (register f n).1).0
      ∙ lookup-insert n.callback_id n.callback_id f n.callbacks
      ∙ ground arith

  -- A callback that is added to a notification, after whatever has happened to it, is called with every
  -- later update, as long as its token is not removed, the notification is not cleared, and the function
  -- is not collected; the token that `add_callback` returns is its own.
  pub add_callback-called :
      (before after : List (Happening F)) (f : F) (alive : F → Bool) (u : Update)
      → All (Spares (add_callback f (happens before new_notification)).0 f) after
      → alive f ≡ true
      → let n = happens before new_notification in
        let (token, n') = add_callback f n in
        (lookup token n.callbacks ≡ none)
        × In (call f u) (process alive u (happens after n')).submitted
  unfolding add_callback happen
  add_callback-called before after f alive u spared live =
      let n = happens before new_notification in
      let w = happens-WellFormed before new_notification new_notification-WellFormed in
      let kept =
        happens-kept n.callback_id f after (add_callback f n).1 (happen-WellFormed (added f) n w)
          (add_callback-registered f n) spared in
      (
        unused n w (Option-cases (lookup n.callback_id n.callbacks)),
        (process-registered alive u (happens after (add_callback f n).1) n.callback_id f
            (happens-WellFormed after (add_callback f n).1 (happen-WellFormed (added f) n w)) kept
            live).0,
      )
    where
      unused :
          (n : Notification F)
          → WellFormed n
          → (lookup n.callback_id n.callbacks ≡ none)
            ⊎ ((g : F) × (lookup n.callback_id n.callbacks ≡ some g))
          → lookup n.callback_id n.callbacks ≡ none
      unused n w (inl free) = free
      unused n w (inr (g, taken)) = absurd (omega (arith, w.below n.callback_id g taken))
