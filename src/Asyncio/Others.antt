-- ===== src/Asyncio/Others.antt =====
-- What other requests and their responses leave of a request of ads_async/asyncio/client.py.
use mathlib.Core.Path.{subst}
use ads_async.Prelude.{
  ℕ, ◌≡◌, ◌≢◌, ◌⊎◌, inl, inr, refl, ap, sym, ◌∙◌, Bool, true, false, Option, none, some, List, [],
  ◌∷◌, ◌++◌, Dict, lookup, insert, lookup-insert, ◌==◌, if◌then◌else◌, ==→eq, ne→==, In,
}
use ads_async.Prelude.Result.{Result, ok, err}
use ads_async.Bytes.{Bytes}
use ads_async.Structs.Header.{AoEHeader}
use ads_async.Structs.Item.{Item}
use ads_async.Structs.Response.{AoENotificationHandleResponse}
use ads_async.Client.{ClientCircuit}
use ads_async.Asyncio.Callbacks.{Notification}
use ads_async.Asyncio.Circuit.{
  ResponseHandler, got_response, notification_answered, AsyncioCircuit, handlers_of, add_handler,
  sent, send_item, answer_notification, handle_response_of, run_handler, run_handlers,
  circuit_handled, client_handle_command, start_request,
}
use ads_async.Asyncio.Events.{
  ClientEvent, sends, starts, receives, client_step, handlers_of-insert,
  client_handle_command-response_handlers,
}
use ads_async.Asyncio.Waiting.{Moment, takes_place, resumes, expires, loses}

In-append_cases : {A : Type 0} (a : A) (bs cs : List A) → In a (bs ++ cs) → In a bs ⊎ In a cs
In-append_cases a [] cs h = inr h
In-append_cases a (b ∷ bs) cs (inl e) = inl (inl e)
In-append_cases a (b ∷ bs) cs (inr h) = elim (In-append_cases a bs cs h) [
  | inl g ↦ inl (inr g)
  | inr g ↦ inr g
]

-- A handler that stands under an invoke id stood there before, or has been added.
add_handler-In :
    (j i : ℕ) (o : Option ResponseHandler) (h : ResponseHandler) (d : Dict (List ResponseHandler))
    → In h (handlers_of j (add_handler i o d))
    → In h (handlers_of j d) ⊎ ((o ≡ some h) × (j ≡ i))
unfolding add_handler
add_handler-In j i none h d there = inl there
add_handler-In j i (some g) h d there =
    branch (i == j) refl
      (subst (In h) (handlers_of-insert j i (handlers_of i d ++ (g ∷ [])) d) there)
  where
    branch :
        (b : Bool)
        → (i == j) ≡ b
        → In h (if b then handlers_of i d ++ (g ∷ []) else handlers_of j d)
        → In h (handlers_of j d) ⊎ ((some g ≡ some h) × (j ≡ i))
    branch false e found = inl found
    branch true e found = elim (In-append_cases h (handlers_of i d) (g ∷ []) found) [
      | inl old ↦ inl (subst (λ n. In h (handlers_of n d)) (==→eq i j e) old)
      | inr (inl new) ↦ inr (ap some (sym new), sym (==→eq i j e))
      | inr (inr none') ↦ absurd none'
    ]

module _ {F : Type 0} where
  -- An event that is not about the request: no other request has its number, and no response that is
  -- received has its invoke id.
  abbrev pub Other : ℕ → ℕ → ClientEvent F → Type 0
  Other k i (sends item port handler) = handler ≢ some (got_response k)
  Other k i (starts j item port) = j ≢ k
  Other k i (receives alive header item) = header.invoke_id ≢ i

  -- Neither the time-out nor the loss of the connection.
  abbrev pub Quiet : ℕ → ℕ → Moment F → Type 0
  Quiet k i (takes_place e) = Other k i e
  Quiet k i resumes = Unit
  Quiet k i expires = ⊥
  Quiet k i loses = ⊥

  -- No handler belongs to the request yet.
  abbrev pub Fresh : ℕ → AsyncioCircuit F → Type 0
  Fresh k c = (j : ℕ) → In (got_response k) (handlers_of j c.response_handlers) → ⊥

  -- Its handlers stand under its invoke id alone.
  abbrev pub OnlyAt : ℕ → ℕ → AsyncioCircuit F → Type 0
  OnlyAt k i c = (j : ℕ) → In (got_response k) (handlers_of j c.response_handlers) → j ≡ i

  sent-OnlyAt :
      (k i : ℕ) (o : Option ResponseHandler) (r : Result (ℕ × Bytes)) (circuit : ClientCircuit ℕ)
      (c : AsyncioCircuit F)
      → o ≢ some (got_response k)
      → OnlyAt k i c
      → OnlyAt k i (sent o (r, circuit) c).1
  sent-OnlyAt k i o (err e) circuit c other only = only
  sent-OnlyAt k i o (ok (n, bytes)) circuit c other only = λ j there.
      elim (add_handler-In j n o (got_response k) c.response_handlers there) [
        | inl old ↦ only j old
        | inr (new, same) ↦ absurd (other new)
      ]

  pub started-OnlyAt :
      (k : ℕ) (r : Result (ℕ × Bytes)) (circuit : ClientCircuit ℕ) (c d : AsyncioCircuit F)
      (invoke_id : ℕ) (bytes : Bytes)
      → Fresh k c
      → sent (some (got_response k)) (r, circuit) c ≡ (ok (invoke_id, bytes), d)
      → OnlyAt k invoke_id d
  started-OnlyAt k (err e) circuit c d invoke_id bytes fresh h = absurd (cc)
  started-OnlyAt k (ok (i, bs)) circuit c d invoke_id bytes fresh h =
      subst (λ n. OnlyAt k n d) (cc h) (subst (OnlyAt k i) (ap (λ x. x.1) h) only)
    where
      only : OnlyAt k i (sent (some (got_response k)) (ok (i, bs), circuit) c).1
      only j there =
          elim (add_handler-In j i (some (got_response k)) (got_response k) c.response_handlers
            there) [ inl old ↦ absurd (fresh j old) | inr (new, same) ↦ same ]

  pub client_step-OnlyAt :
      (k i : ℕ) (e : ClientEvent F) (c : AsyncioCircuit F)
      → Other k i e
      → OnlyAt k i c
      → OnlyAt k i (client_step e c)
  unfolding client_step send_item start_request
  client_step-OnlyAt k i (sends item port handler) c other only =
      sent-OnlyAt k i handler _ _ c other only
  client_step-OnlyAt k i (starts j item port) c other only =
      sent-OnlyAt k i (some (got_response j)) _ _ (record c { requests = insert j none c.requests })
        (λ e. other (cc e)) only
  client_step-OnlyAt k i (receives alive header item) c other only = λ j there. only j (
      subst (λ hs. In (got_response k) (handlers_of j hs))
        (client_handle_command-response_handlers alive header item c) there)

  pub sent-requests :
      (o : Option ResponseHandler) (r : Result (ℕ × Bytes)) (circuit : ClientCircuit ℕ)
      (c : AsyncioCircuit F)
      → (sent o (r, circuit) c).1.requests ≡ c.requests
  sent-requests o (err e) circuit c = refl
  sent-requests o (ok (n, bytes)) circuit c = refl

  run_handler-others :
      (k : ℕ) (h : ResponseHandler) (header : AoEHeader) (item : Item) (c : AsyncioCircuit F)
      → h ≢ got_response k
      → lookup k (run_handler h header item c).requests ≡ lookup k c.requests
  unfolding run_handler
  run_handler-others k (got_response j) header item c other =
      lookup-insert j k (some (header, item)) c.requests
      ∙ ap (λ b. if b then some (some (header, item)) else lookup k c.requests)
          (ne→== j k (λ e. other (ap got_response e)))
  run_handler-others k (notification_answered j) header item c other =
      same (handle_response_of item) (lookup j c.notifications)
    where
      same :
          (o : Option AoENotificationHandleResponse) (n : Option (Notification F))
          → lookup k (answer_notification j o n c).requests ≡ lookup k c.requests
      same none n = refl
      same (some r) none = refl
      same (some r) (some n) = refl

  run_handlers-others :
      (k : ℕ) (hs : List ResponseHandler) (header : AoEHeader) (item : Item) (c : AsyncioCircuit F)
      → (In (got_response k) hs → ⊥)
      → lookup k (run_handlers hs header item c).requests ≡ lookup k c.requests
  unfolding run_handlers
  run_handlers-others k [] header item c absent = refl
  run_handlers-others k (h ∷ hs) header item c absent =
      run_handlers-others k hs header item (run_handler h header item c) (λ g. absent (inr g))
      ∙ run_handler-others k h header item c (λ e. absent (inl (sym e)))

  pub client_step-others :
      (k i : ℕ) (e : ClientEvent F) (c : AsyncioCircuit F)
      → Other k i e
      → OnlyAt k i c
      → lookup k (client_step e c).requests ≡ lookup k c.requests
  unfolding client_step send_item start_request client_handle_command circuit_handled
  client_step-others k i (sends item port handler) c other only =
      ap (lookup k) (sent-requests handler _ _ c)
  client_step-others k i (starts j item port) c other only =
      ap (lookup k) (
        sent-requests (some (got_response j)) _ _
          (record c { requests = insert j none c.requests }))
      ∙ lookup-insert j k none c.requests
      ∙ ap (λ b. if b then some none else lookup k c.requests) (ne→== j k other)
  client_step-others k i (receives alive header item) c other only =
      run_handlers-others k (handlers_of header.invoke_id c.response_handlers) header item
        (circuit_handled alive header item c) (λ g. other (only header.invoke_id g))
