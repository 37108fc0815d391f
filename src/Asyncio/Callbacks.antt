-- ===== src/Asyncio/Callbacks.antt =====
-- `CallbackHandler` of ads_async/asyncio/utils.py and `Notification` of ads_async/asyncio/client.py. A
-- callback is held by a weak reference: `alive` tells which functions are still there. What is
-- submitted to the executor, and what is sent to the server, is a list.
use ads_async.Prelude.{
  ℕ, ◌+◌, Bool, true, false, Option, none, some, List, [], ◌∷◌, ◌++◌, Dict, insert, erase, ◌==◌,
  if◌then◌else◌,
}
use ads_async.Structs.Header.{AoEHeader}
use ads_async.Structs.Notification.{AdsNotificationSample}
use ads_async.Structs.Response.{AoENotificationHandleResponse}

-- The dictionary `notification`: the keyword arguments of a callback.
pub record Update : Type 0 where
  pub header : AoEHeader
  pub timestamp : ℕ
  pub sample : AdsNotificationSample

-- What is submitted to the executor: the request that subscribes, or a call of a callback.
pub data Job (F : Type 0) : Type 0 where
  subscribe : Job F
  call : F → Update → Job F

-- `removed` are the handles that `_unsubscribe` asks the server to delete.
pub record Notification (F : Type 0) : Type 0 where
  pub callbacks : Dict F
  pub callback_id : ℕ
  pub handle : Option ℕ
  pub last_call_values : Option Update
  pub most_recent_notification : Option Update
  pub submitted : List (Job F)
  pub removed : List ℕ

module _ {F : Type 0} where
  unfoldable pub new_notification : Notification F
  new_notification = record {
    callbacks = [];
    callback_id = 0;
    handle = none;
    last_call_values = none;
    most_recent_notification = none;
    submitted = [];
    removed = [];
  }

  abbrev pub submit : Job F → Notification F → Notification F
  submit job n = record n { submitted = n.submitted ++ (job ∷ []) }

  -- `super().add_callback(func)`: the token, and the notification.
  unfoldable pub register : F → Notification F → ℕ × Notification F
  register func n = (
    n.callback_id,
    record n { callbacks = insert n.callback_id func n.callbacks; callback_id = n.callback_id + 1 },
  )

  abbrev pub greet : F → Option Update → Notification F → Notification F
  greet func none n = n
  greet func (some u) n = submit (call func u) n

  -- The second half of `Notification.add_callback`, by whether there was no callback.
  unfoldable pub after_register : Dict F → F → Notification F → Notification F
  after_register [] func n = submit subscribe n
  after_register (_ ∷ _) func n = greet func n.most_recent_notification n

  -- `Notification.add_callback`
  unfoldable pub add_callback : F → Notification F → ℕ × Notification F
  unfolding register after_register
  add_callback func n =
      let (token, n') = register func n in (token, after_register n.callbacks func n')

  -- `_unsubscribe`: `self.handle` is set to `None` before the second test of it.
  abbrev pub ask_removal : ℕ → Option ℕ → Notification F → Notification F
  ask_removal handle none n = n
  ask_removal handle (some _) n = record n { removed = n.removed ++ (handle ∷ []) }

  unfoldable pub unsubscribe : Notification F → Notification F
  unsubscribe n = elim n.handle [
    | none ↦ n
    | some handle ↦
        let n' = record n { handle = none; most_recent_notification = none } in
        ask_removal handle n'.handle n'
  ]

  -- `self.callbacks.pop(token, None)`
  abbrev pub pop_callback : ℕ → Notification F → Notification F
  pop_callback token n = record n { callbacks = erase token n.callbacks }

  abbrev pub go_dormant : Dict F → Notification F → Notification F
  go_dormant [] n = record (unsubscribe n) { most_recent_notification = none }
  go_dormant (_ ∷ _) n = n

  -- `Notification.remove_callback`
  unfoldable pub remove_callback : ℕ → Notification F → Notification F
  unfolding unsubscribe
  remove_callback token n = let n' = pop_callback token n in go_dormant n'.callbacks n'

  unfoldable pub remove_all : Dict F → Notification F → Notification F
  unfolding remove_callback
  remove_all [] n = n
  remove_all ((token, _) ∷ rest) n = remove_all rest (remove_callback token n)

  -- `clear`
  unfoldable pub clear : Notification F → Notification F
  unfolding remove_all
  clear n = remove_all n.callbacks n

  -- `Notification._response_handler`, of the response's result and handle. The second part is the
  -- circuit's `handle_to_notification`, whose values name notifications.
  unfoldable pub response_handler :
      ℕ → AoENotificationHandleResponse → Notification F → Dict ℕ → Notification F × Dict ℕ
  response_handler self response n handle_to_notification =
      if response.result == 0
      then (
        record n { handle = some response.handle },
        insert response.handle self handle_to_notification,
      )
      else (n, handle_to_notification)

  -- The loop of `CallbackHandler.process` over the callbacks there were: a call for each that is alive; the
  -- tokens of the others are removed after it.
  unfoldable pub calls : (F → Bool) → Update → Dict F → List (Job F)
  calls alive u [] = []
  calls alive u ((_, func) ∷ rest) =
      let others = calls alive u rest in if alive func then call func u ∷ others else others

  unfoldable pub dead_tokens : (F → Bool) → Dict F → List ℕ
  dead_tokens alive [] = []
  dead_tokens alive ((token, func) ∷ rest) =
      let others = dead_tokens alive rest in if alive func then others else token ∷ others

  unfoldable pub erase_all : List ℕ → Dict F → Dict F
  erase_all [] d = d
  erase_all (token ∷ tokens) d = erase_all tokens (erase token d)

  -- `CallbackHandler.process`
  unfoldable pub base_process : (F → Bool) → Update → Notification F → Notification F
  unfolding calls dead_tokens erase_all
  base_process alive u n = record n {
    last_call_values = some u;
    submitted = n.submitted ++ calls alive u n.callbacks;
    callbacks = erase_all (dead_tokens alive n.callbacks) n.callbacks;
  }

  -- `Notification.process`
  unfoldable pub process : (F → Bool) → Update → Notification F → Notification F
  unfolding base_process
  process alive u n = record (base_process alive u n) { most_recent_notification = some u }

  abbrev run_again : Bool → (F → Bool) → Option Update → Notification F → Notification F
  run_again false alive last n = n
  run_again true alive none n = n
  run_again true alive (some u) n = base_process alive u n

  -- `CallbackHandler.add_callback(func, run)`, which `Notification` overrides.
  unfoldable pub base_add_callback : (F → Bool) → F → Bool → Notification F → ℕ × Notification F
  unfolding register base_process
  base_add_callback alive func run n =
      let (token, n') = register func n in (token, run_again run alive n'.last_call_values n')
