-- ===== src/Asyncio/Runs.antt =====
-- Sequences of what happens to a notification of ads_async/asyncio/client.py.
use ads_async.Prelude.{
  ℕ, ◌≡◌, inl, inr, refl, ◌∙◌, Bool, List, [], ◌∷◌, Dict, erase, ◌==◌, Bool-cases, Option-cases,
}
use ads_async.Structs.Response.{AoENotificationHandleResponse}
use ads_async.Asyncio.Callbacks.{
  Update, Notification, new_notification, register, after_register, add_callback, remove_callback,
  unsubscribe, remove_all, clear, response_handler, process, go_dormant, pop_callback,
}

-- What may happen; `alive` are the functions that have not been collected when an update is processed.
pub data Happening (F : Type 0) : Type 0 where
  added : F → Happening F
  removed_token : ℕ → Happening F
  cleared : Happening F
  answered : AoENotificationHandleResponse → Happening F
  updated : (alive : F → Bool) → Update → Happening F

module _ {F : Type 0} where
  unfoldable pub happen : Happening F → Notification F → Notification F
  unfolding add_callback remove_callback clear response_handler process
  happen (added func) n = (add_callback func n).1
  happen (removed_token token) n = remove_callback token n
  happen cleared n = clear n
  happen (answered response) n = (response_handler 0 response n []).0
  happen (updated alive u) n = process alive u n

  unfoldable pub happens : List (Happening F) → Notification F → Notification F
  unfolding happen
  happens [] n = n
  happens (h ∷ hs) n = happens hs (happen h n)

  -- Two notifications with the same callbacks, tokens and requests.
  abbrev pub Same : Notification F → Notification F → Type 0
  Same m n = (m.callbacks ≡ n.callbacks) × (m.callback_id ≡ n.callback_id) × (m.removed ≡ n.removed)

  pub after_register-Same :
      (d : Dict F) (f : F) (n : Notification F) → Same (after_register d f n) n
  unfolding after_register
  after_register-Same [] f n = (refl, refl, refl)
  after_register-Same (_ ∷ d) f n = elim (Option-cases n.most_recent_notification) [
    | inl silent ↦ rw silent (refl, refl, refl)
    | inr (u, said) ↦ rw said (refl, refl, refl)
  ]

  unsubscribe-Same : (n : Notification F) → Same (unsubscribe n) n
  unfolding unsubscribe
  unsubscribe-Same n = elim (Option-cases n.handle) [
    | inl idle ↦ rw (unsubscribe, idle) (refl, refl, refl)
    | inr (handle, held) ↦ rw (unsubscribe, held) (refl, refl, refl)
  ]

  go_dormant-Same : (d : Dict F) (n : Notification F) → Same (go_dormant d n) n
  go_dormant-Same [] n = unsubscribe-Same n
  go_dormant-Same (_ ∷ d) n = (refl, refl, refl)

  pub remove_callback-Same :
      (token : ℕ) (n : Notification F) → Same (remove_callback token n) (pop_callback token n)
  unfolding remove_callback
  remove_callback-Same token n = go_dormant-Same (erase token n.callbacks) (pop_callback token n)

  remove_all-removed : (d : Dict F) (n : Notification F) → (remove_all d n).removed ≡ n.removed
  unfolding remove_all
  remove_all-removed [] n = refl
  remove_all-removed ((token, _) ∷ d) n =
      remove_all-removed d (remove_callback token n) ∙ (remove_callback-Same token n).2

  pub response_handler-Same :
      (self : ℕ) (r : AoENotificationHandleResponse) (n : Notification F) (d : Dict ℕ)
      → Same (response_handler self r n d).0 n
  unfolding response_handler
  response_handler-Same self r n d = elim (Bool-cases (r.result == 0)) [
    | inl fine ↦ rw (response_handler, fine) (refl, refl, refl)
    | inr failed ↦ rw (response_handler, failed) (refl, refl, refl)
  ]

  happen-removed : (h : Happening F) (n : Notification F) → (happen h n).removed ≡ n.removed
  unfolding happen add_callback register
  happen-removed (added func) n = (after_register-Same n.callbacks func (register func n).1).2
  happen-removed (removed_token token) n = (remove_callback-Same token n).2
  happen-removed cleared n = remove_all-removed n.callbacks n
  happen-removed (answered r) n = (response_handler-Same 0 r n []).2
  happen-removed (updated alive u) n = refl

  -- Whatever happens to a notification, the server is never asked to remove it: not when its
  -- last callback is removed, and not when it is cleared.
  pub happens-removed : (hs : List (Happening F)) → (happens hs new_notification).removed ≡ []
  unfolding happens new_notification
  happens-removed hs = still hs new_notification
    where
      still : (hs : List (Happening F)) (n : Notification F) → (happens hs n).removed ≡ n.removed
      still [] n = refl
      still (h ∷ hs) n = still hs (happen h n) ∙ happen-removed h n
