-- ===== src/Asyncio/Events.antt =====
-- What reaches the requests of `AsyncioClientCircuit` of ads_async/asyncio/client.py.
use mathlib.Core.Path.{subst}
use ads_async.Prelude.{
  ℕ, ◌≡◌, ◌⊎◌, inl, inr, refl, ap, sym, ◌∙◌, Bool, true, false, Option, none, some, List, [], ◌∷◌,
  ◌++◌, Dict, lookup, insert, lookup-insert, arith, ◌==◌, if◌then◌else◌, Bool-cases, ==→eq, ==_refl,
  In, In-append_left, In-append_right,
}
use ads_async.Prelude.Result.{Result, ok, err}
use ads_async.Bytes.{Bytes}
use ads_async.Structs.Header.{AoEHeader}
use ads_async.Structs.Item.{Item}
use ads_async.Structs.Response.{AoENotificationHandleResponse}
use ads_async.Client.{ClientCircuit}
use ads_async.Asyncio.Callbacks.{Notification}
use ads_async.Asyncio.Circuit.{
  ResponseHandler, got_response, notification_answered, AsyncioCircuit, handlers_of, add_handler,
  or_empty, sent, send_item, answer_notification, handle_response_of, run_handler, run_handlers,
  circuit_handled, client_handle_command, start_request, result_attribute, check_result,
  write_and_read_result,
}

pub data ClientEvent (F : Type 0) : Type 0 where
  sends : Item → Option ℕ → Option ResponseHandler → ClientEvent F
  starts : ℕ → Item → Option ℕ → ClientEvent F
  receives : (alive : F → Bool) → AoEHeader → Item → ClientEvent F

pub handlers_of-insert :
    (i j : ℕ) (hs : List ResponseHandler) (d : Dict (List ResponseHandler))
    → handlers_of i (insert j hs d) ≡ (if j == i then hs else handlers_of i d)
unfolding handlers_of
handlers_of-insert i j hs d = ap or_empty (lookup-insert j i hs d) ∙ branch (j == i)
  where
    branch :
        (b : Bool)
        → or_empty (if b then some hs else lookup i d) ≡ (if b then hs else handlers_of i d)
    branch true = refl
    branch false = refl

-- Handlers are added at the end of the list of their invoke id.
handlers_of-add_handler :
    (i j : ℕ) (o : Option ResponseHandler) (h : ResponseHandler) (d : Dict (List ResponseHandler))
    → In h (handlers_of i d)
    → In h (handlers_of i (add_handler j o d))
unfolding add_handler
handlers_of-add_handler i j none h d old = old
handlers_of-add_handler i j (some g) h d old = elim (Bool-cases (j == i)) [
  | inl same ↦
      let here : In h (handlers_of j d) =
        subst (λ n. In h (handlers_of n d)) (sym (==→eq j i same)) old in
      rw (handlers_of-insert i j (handlers_of j d ++ (g ∷ [])) d, same)
        (In-append_left h (handlers_of j d) (g ∷ []) here)
  | inr other ↦ rw (handlers_of-insert i j (handlers_of j d ++ (g ∷ [])) d, other) old
]

added_last :
    (i : ℕ) (h : ResponseHandler) (d : Dict (List ResponseHandler))
    → In h (handlers_of i (add_handler i (some h) d))
unfolding add_handler
added_last i h d =
    rw (handlers_of-insert i i (handlers_of i d ++ (h ∷ [])) d, ==_refl i)
      (In-append_right h (handlers_of i d) (h ∷ []) (inl refl))

module _ {F : Type 0} where
  unfoldable pub client_step : ClientEvent F → AsyncioCircuit F → AsyncioCircuit F
  client_step (sends item port handler) c = (send_item item port handler c).1
  client_step (starts k item port) c = (start_request k item port c).1
  client_step (receives alive header item) c = client_handle_command alive header item c

  unfoldable pub client_run : List (ClientEvent F) → AsyncioCircuit F → AsyncioCircuit F
  client_run [] c = c
  client_run (e ∷ es) c = client_run es (client_step e c)

  run_handler-response_handlers :
      (h : ResponseHandler) (header : AoEHeader) (item : Item) (c : AsyncioCircuit F)
      → (run_handler h header item c).response_handlers ≡ c.response_handlers
  unfolding run_handler
  run_handler-response_handlers (got_response k) header item c = refl
  run_handler-response_handlers (notification_answered k) header item c =
      same (handle_response_of item) (lookup k c.notifications)
    where
      same :
          (o : Option AoENotificationHandleResponse) (n : Option (Notification F))
          → (answer_notification k o n c).response_handlers ≡ c.response_handlers
      same none n = refl
      same (some r) none = refl
      same (some r) (some n) = refl

  run_handlers-response_handlers :
      (hs : List ResponseHandler) (header : AoEHeader) (item : Item) (c : AsyncioCircuit F)
      → (run_handlers hs header item c).response_handlers ≡ c.response_handlers
  unfolding run_handlers
  run_handlers-response_handlers [] header item c = refl
  run_handlers-response_handlers (h ∷ hs) header item c =
      run_handlers-response_handlers hs header item (run_handler h header item c)
      ∙ run_handler-response_handlers h header item c

  -- A response leaves the handlers as they were, those that it was handed to included.
  pub client_handle_command-response_handlers :
      (alive : F → Bool) (header : AoEHeader) (item : Item) (c : AsyncioCircuit F)
      → (client_handle_command alive header item c).response_handlers ≡ c.response_handlers
  unfolding client_handle_command circuit_handled
  client_handle_command-response_handlers alive header item c =
      run_handlers-response_handlers (handlers_of header.invoke_id c.response_handlers) header item
        (circuit_handled alive header item c)

  sent-handlers :
      (i : ℕ) (h : ResponseHandler) (o : Option ResponseHandler) (r : Result (ℕ × Bytes))
      (circuit : ClientCircuit ℕ) (c : AsyncioCircuit F)
      → In h (handlers_of i c.response_handlers)
      → In h (handlers_of i (sent o (r, circuit) c).1.response_handlers)
  sent-handlers i h o (err e) circuit c old = old
  sent-handlers i h o (ok (j, bytes)) circuit c old =
      handlers_of-add_handler i j o h c.response_handlers old

  pub client_step-handlers :
      (i : ℕ) (h : ResponseHandler) (e : ClientEvent F) (c : AsyncioCircuit F)
      → In h (handlers_of i c.response_handlers)
      → In h (handlers_of i (client_step e c).response_handlers)
  unfolding client_step send_item start_request
  client_step-handlers i h (sends item port handler) c old = sent-handlers i h handler _ _ c old
  client_step-handlers i h (starts k item port) c old =
      sent-handlers i h (some (got_response k)) _ _
        (record c { requests = insert k none c.requests }) old
  client_step-handlers i h (receives alive header item) c old =
      rw (client_handle_command-response_handlers alive header item c) old

  client_run-handlers :
      (i : ℕ) (h : ResponseHandler) (es : List (ClientEvent F)) (c : AsyncioCircuit F)
      → In h (handlers_of i c.response_handlers)
      → In h (handlers_of i (client_run es c).response_handlers)
  unfolding client_run
  client_run-handlers i h [] c old = old
  client_run-handlers i h (e ∷ es) c old =
      client_run-handlers i h es (client_step e c) (client_step-handlers i h e c old)

  -- The request is told the response, and stays told while the other handlers run.
  run_handler-told :
      (k : ℕ) (h : ResponseHandler) (header : AoEHeader) (item : Item) (c : AsyncioCircuit F)
      → lookup k c.requests ≡ some (some (header, item))
      → lookup k (run_handler h header item c).requests ≡ some (some (header, item))
  unfolding run_handler
  run_handler-told k (got_response j) header item c told =
      lookup-insert j k (some (header, item)) c.requests ∙ ground (arith, told)
  run_handler-told k (notification_answered j) header item c told =
      same (handle_response_of item) (lookup j c.notifications) ∙ told
    where
      same :
          (o : Option AoENotificationHandleResponse) (n : Option (Notification F))
          → lookup k (answer_notification j o n c).requests ≡ lookup k c.requests
      same none n = refl
      same (some r) none = refl
      same (some r) (some n) = refl

  pub run_handlers-told :
      (k : ℕ) (hs : List ResponseHandler) (header : AoEHeader) (item : Item) (c : AsyncioCircuit F)
      → (lookup k c.requests ≡ some (some (header, item))) ⊎ In (got_response k) hs
      → lookup k (run_handlers hs header item c).requests ≡ some (some (header, item))
  unfolding run_handlers run_handler
  run_handlers-told k [] header item c (inl told) = told
  run_handlers-told k [] header item c (inr h) = absurd h
  run_handlers-told k (h ∷ hs) header item c (inl told) =
      run_handlers-told k hs header item (run_handler h header item c)
        (inl (run_handler-told k h header item c told))
  run_handlers-told k (h ∷ hs) header item c (inr (inl e)) =
      run_handlers-told k hs header item (run_handler h header item c) (
        inl (
          subst (λ g. lookup k (run_handler g header item c).requests ≡ some (some (header, item)))
            e (lookup-insert k k (some (header, item)) c.requests ∙ ground arith)))
  run_handlers-told k (h ∷ hs) header item c (inr (inr later)) =
      run_handlers-told k hs header item (run_handler h header item c) (inr later)

  pub started-handlers :
      (k : ℕ) (r : Result (ℕ × Bytes)) (circuit : ClientCircuit ℕ) (c d : AsyncioCircuit F)
      (invoke_id : ℕ) (bytes : Bytes)
      → sent (some (got_response k)) (r, circuit) c ≡ (ok (invoke_id, bytes), d)
      → In (got_response k) (handlers_of invoke_id d.response_handlers)
  started-handlers k (err e) circuit c d invoke_id bytes h = absurd (cc)
  started-handlers k (ok (i, bs)) circuit c d invoke_id bytes h =
      let id : i ≡ invoke_id = cc h in
      let state : record c {
        circuit = circuit;
        response_handlers = add_handler i (some (got_response k)) c.response_handlers;
      }
          ≡ d =
        cc h in
      subst (λ n. In (got_response k) (handlers_of n d.response_handlers)) id
        (subst (λ (x : AsyncioCircuit F). In (got_response k) (handlers_of i x.response_handlers))
          state (added_last i (got_response k) c.response_handlers))

  -- The response that comes under the invoke id of a request is handed to it.
  pub response_handed :
      (k : ℕ) (item : Item) (port : Option ℕ) (c d : AsyncioCircuit F) (invoke_id : ℕ)
      (bytes : Bytes) (es : List (ClientEvent F)) (alive : F → Bool) (header : AoEHeader)
      (response : Item)
      → start_request k item port c ≡ (ok (invoke_id, bytes), d)
      → header.invoke_id ≡ invoke_id
      → (told : Option (AoEHeader × Item)) × (lookup k
            (client_handle_command alive header response (client_run es d)).requests
          ≡ some told)
        × (write_and_read_result false told ≡ check_result (result_attribute response) response)
  unfolding start_request send_item client_handle_command write_and_read_result
  response_handed k item port c d invoke_id bytes es alive header response started same =
      let kept : In (got_response k) (handlers_of invoke_id (client_run es d).response_handlers) =
        client_run-handlers invoke_id (got_response k) es d (
          started-handlers k _ _ (record c { requests = insert k none c.requests }) d invoke_id
            bytes started) in
      (
        some (header, response),
        run_handlers-told k _ header response
            (circuit_handled alive header response (client_run es d))
            (inr (
              subst (λ n. In (got_response k) (handlers_of n (client_run es d).response_handlers))
                (sym same) kept)),
        refl,
      )
