-- ===== src/Client/Pending.antt =====
-- The requests that a client of ads_async/protocol.py keeps until their responses arrive.
use ads_async.Prelude.{
  ℕ, zero, suc, ◌+◌, ◌<◌, ◌≤◌, ◌≡◌, refl, ap, ◌∙◌, arith, false, if◌then◌else◌, ne→==, some, List,
  [], ◌∷◌, length, get_elem?, lookup, insert, lookup-insert,
}
use ads_async.Prelude.Result.{err, missing_handler}
use ads_async.Counter.{ThreadsafeCounter, next}
use ads_async.Counter.Fresh.{next-FirstFree}
use ads_async.Structs.Address.{AmsAddr}
use ads_async.Structs.Header.{AoEHeader, command_id}
use ads_async.Structs.Item.{Item}
use ads_async.Client.Defs.{ClientCircuit, client_handler, dispatch, handle_command, send}

-- Without clashes a call of the counter adds one.
next_plain :
    (c : ThreadsafeCounter)
    → c.value + 1 < c.max_count
    → next (λ _. false) c ≡ some (record c { value = c.value + 1 })
next_plain c lt =
    let (v, made, first) = next-FirstFree (λ _. false) c (c.value + 1) lt refl in
    let same : v ≡ c.value + 1 =
      ground (arith, first.passed (c.value + 1), first.wrapped (c.value + 1)) in
    rw (← same) made

add-zero : (v : ℕ) → v + 0 ≡ v
add-zero v = omega arith

next_id : (v m : ℕ) → v + 1 + suc m ≡ v + 1 + 1 + m
next_id v m = omega arith

module _ {H : Type 0} (target source : AmsAddr) where
  -- The circuit after a request is sent.
  abbrev sent : Item → ClientCircuit H → ClientCircuit H
  sent item c = record c {
    invoke_counter = record c.invoke_counter { value = c.invoke_counter.value + 1 };
    id_to_request = insert (c.invoke_counter.value + 1) item c.id_to_request;
  }

  send-sent :
      (item : Item) (c : ClientCircuit H)
      → c.invoke_counter.value + 1 < c.invoke_counter.max_count
      → (send target source item c).1 ≡ sent item c
  unfolding send
  send-sent item c lt = rw (send, next_plain c.invoke_counter lt) refl

  -- Requests sent one after the other.
  unfoldable pub send_all : List Item → ClientCircuit H → ClientCircuit H
  unfolding send
  send_all [] c = c
  send_all (item ∷ items) c = send_all items (send target source item c).1

  send_all-nil : (c : ClientCircuit H) → send_all [] c ≡ c
  unfolding send_all
  send_all-nil c = refl

  send_all-cons :
      (item : Item) (items : List Item) (c : ClientCircuit H)
      → c.invoke_counter.value + 1 < c.invoke_counter.max_count
      → send_all (item ∷ items) c ≡ send_all items (sent item c)
  unfolding send_all
  send_all-cons item items c lt = ap (send_all items) (send-sent item c lt)

  -- A request stored before others are sent stays as it is.
  earlier_kept :
      (items : List Item) (c : ClientCircuit H) (k : ℕ)
      → c.invoke_counter.value + length items < c.invoke_counter.max_count
      → k ≤ c.invoke_counter.value
      → lookup k (send_all items c).id_to_request ≡ lookup k c.id_to_request
  earlier_kept [] c k lt old =
      ap (λ (d : ClientCircuit H). lookup k d.id_to_request) (send_all-nil c)
  earlier_kept (item ∷ items) c k lt old =
      ap (λ (d : ClientCircuit H). lookup k d.id_to_request)
        (send_all-cons item items c (omega (arith, lt)))
      ∙ earlier_kept items (sent item c) k (omega (arith, lt)) (omega (arith, old))
      ∙ lookup-insert (c.invoke_counter.value + 1) k item c.id_to_request
      ∙ ap (λ b. if b then some item else lookup k c.id_to_request)
          (ne→== (c.invoke_counter.value + 1) k (λ e. omega (arith, old, e)))

  lookup-sent :
      (item : Item) (c : ClientCircuit H)
      → lookup (c.invoke_counter.value + 1) (sent item c).id_to_request ≡ some item
  lookup-sent item c =
      lookup-insert (c.invoke_counter.value + 1) (c.invoke_counter.value + 1) item c.id_to_request
      ∙ ground arith

  -- Requests sent in a row, as long as the counter does not wrap, are all kept, each under an invoke
  -- id of its own: the numbers that follow the counter, in order.
  pub send_all-pending :
      (items : List Item) (c : ClientCircuit H) (n : ℕ) (item : Item)
      → c.invoke_counter.value + length items < c.invoke_counter.max_count
      → get_elem? items n ≡ some item
      → lookup (c.invoke_counter.value + 1 + n) (send_all items c).id_to_request ≡ some item
  send_all-pending [] c n item lt at_n = absurd (cc)
  send_all-pending (first ∷ items) c zero item lt at_n =
      ap (λ k. lookup k (send_all (first ∷ items) c).id_to_request)
        (add-zero (c.invoke_counter.value + 1))
      ∙ ap (λ (d : ClientCircuit H). lookup (c.invoke_counter.value + 1) d.id_to_request)
          (send_all-cons first items c (omega (arith, lt)))
      ∙ earlier_kept items (sent first c) (c.invoke_counter.value + 1) (omega (arith, lt))
          (omega arith)
      ∙ lookup-sent first c
      ∙ at_n
  send_all-pending (first ∷ items) c (suc n) item lt at_n =
      ap (λ (d : ClientCircuit H). lookup (c.invoke_counter.value + 1 + suc n) d.id_to_request)
        (send_all-cons first items c (omega (arith, lt)))
      ∙ ap (λ k. lookup k (send_all items (sent first c)).id_to_request)
          (next_id c.invoke_counter.value n)
      ∙ send_all-pending items (sent first c) n item (omega (arith, lt)) at_n

-- A response whose command the client has no handler for (every command but the three of
-- notifications) raises, and the request that it answers stays pending.
pub send-unhandled_response :
    {H : Type 0} (target source : AmsAddr) (item : Item) (c : ClientCircuit H) (header : AoEHeader)
    (response : Item)
    → c.invoke_counter.value + 1 < c.invoke_counter.max_count
    → header.invoke_id ≡ c.invoke_counter.value + 1
    → client_handler (command_id header) ≡ err missing_handler
    → (d : ClientCircuit H) × (handle_command header response (send target source item c).1
        ≡ (err missing_handler, d))
      × (lookup header.invoke_id d.id_to_request ≡ some item)
unfolding handle_command dispatch
send-unhandled_response target source item c header response lt id unhandled = (
  sent target source item c,
  ap (handle_command header response) (send-sent target source item c lt)
      ∙ ap (λ r. dispatch r header response (sent target source item c)) unhandled,
  ap (λ k. lookup k (insert (c.invoke_counter.value + 1) item c.id_to_request)) id
      ∙ lookup-sent target source item c,
)
