-- ===== src/Asyncio/Circuit.antt =====
-- `AsyncioClientCircuit` and `_BlockingRequest` of ads_async/asyncio/client.py. Blocking requests and
-- notifications are objects that handlers hold: they are numbered, and stand in dictionaries.
use ads_async.Prelude.{
  ℕ, Bool, true, false, Option, none, some, List, [], ◌∷◌, ◌++◌, Dict, lookup, insert, leb, ◌==◌,
  if◌then◌else◌,
}
use ads_async.Prelude.Result.{
  Result, ok, err, timeout_error, disconnected_error, request_failed, value_error, ◌>>=◌,
}
use ads_async.Bytes.{Bytes}
use ads_async.Structs.Header.{AoEHeader}
use ads_async.Structs.Item.{Item}
use ads_async.Structs.NetId.{from_string}
use ads_async.Structs.Response.{AoENotificationHandleResponse}
use ads_async.Structs.Text.{Text}
use ads_async.Client.{ClientCircuit, Processed, handle_command, send}
use ads_async.Connections.Table.{Table}
use ads_async.Asyncio.Symbols.{ClientSymbol}
use ads_async.Asyncio.Callbacks.{Notification, Update, process, response_handler}

-- `_BlockingRequest.got_response`, and `Notification._response_handler`
pub data ResponseHandler : Type 0 where
  got_response notification_answered : ℕ → ResponseHandler

-- `requests` are the blocking requests with the response that has come.
pub record AsyncioCircuit (F : Type 0) : Type 0 where
  pub net_id : Text
  pub default_port : ℕ
  pub our_net_id : Text
  pub our_port : ℕ
  pub circuit : ClientCircuit ℕ
  pub response_handlers : Dict (List ResponseHandler)
  pub requests : Dict (Option (AoEHeader × Item))
  pub notifications : Dict (Notification F)
  pub symbols : Table Text ClientSymbol

-- The attributes `result` and `handle` of a response, where it has them.
unfoldable pub result_attribute : Item → Option ℕ
result_attribute (Item.response_item r) = some r.result
result_attribute (Item.read_response_item r) = some r.result
result_attribute (Item.handle_item r) = some r.result
result_attribute (Item.notification_handle_item r) = some r.result
result_attribute (Item.device_info_item r) = some r.result
result_attribute _ = none

unfoldable pub handle_response_of : Item → Option AoENotificationHandleResponse
handle_response_of (Item.handle_item r) = some (record { result = r.result; handle = r.handle })
handle_response_of (Item.notification_handle_item r) = some r
handle_response_of _ = none

-- `self.circuit.request_to_wire(item, target=(net_id, port))`: the text of the target is read before
-- the request is stored, that of the source after it.
unfoldable pub circuit_request :
    Text → ℕ → Text → ℕ → Item → ClientCircuit ℕ → Result (ℕ × Bytes) × ClientCircuit ℕ
unfolding send
circuit_request net_id port our_net_id our_port item c = elim (from_string net_id) [
  | err e ↦ (err e, c)
  | ok target ↦ elim (from_string our_net_id) [
    | err e ↦ (
      err e,
      (send (record { net_id = target; port = port }) (record { net_id = target; port = our_port })
          item c).1,
    )
    | ok source ↦
        send (record { net_id = target; port = port }) (record { net_id = source; port = our_port })
          item c
  ]
]

-- `_response_handlers[invoke_id]` of a `defaultdict(list)`, and `.get(invoke_id, [])`
abbrev pub or_empty : Option (List ResponseHandler) → List ResponseHandler
or_empty none = []
or_empty (some hs) = hs

unfoldable pub handlers_of : ℕ → Dict (List ResponseHandler) → List ResponseHandler
handlers_of invoke_id d = or_empty (lookup invoke_id d)

unfoldable pub add_handler :
    ℕ → Option ResponseHandler → Dict (List ResponseHandler) → Dict (List ResponseHandler)
add_handler invoke_id none d = d
add_handler invoke_id (some h) d = insert invoke_id (handlers_of invoke_id d ++ (h ∷ [])) d

abbrev pub or_default_port : Option ℕ → ℕ → ℕ
or_default_port none default = default
or_default_port (some port) default = if port == 0 then default else port

-- The calls of `process` that the circuit has made, at the notifications.
abbrev pub update_of : Processed ℕ → Update
update_of p = record { header = p.header; timestamp = p.timestamp; sample = p.sample }

module _ {F : Type 0} where
  abbrev pub sent :
      Option ResponseHandler
      → Result (ℕ × Bytes) × ClientCircuit ℕ
      → AsyncioCircuit F
      → Result (ℕ × Bytes) × AsyncioCircuit F
  sent handler (err e, circuit) c = (err e, record c { circuit = circuit })
  sent handler (ok (invoke_id, bytes), circuit) c = (
    ok (invoke_id, bytes),
    record c {
      circuit = circuit;
      response_handlers = add_handler invoke_id handler c.response_handlers;
    },
  )

  -- `send`: the bytes are those that are written to the socket.
  unfoldable pub send_item :
      Item
      → Option ℕ
      → Option ResponseHandler
      → AsyncioCircuit F
      → Result (ℕ × Bytes) × AsyncioCircuit F
  send_item item port handler c =
      sent handler
        (circuit_request c.net_id (or_default_port port c.default_port) c.our_net_id c.our_port item
          c.circuit)
        c

  unfoldable pub deliver :
      (F → Bool) → List (Processed ℕ) → Dict (Notification F) → Dict (Notification F)
  unfolding process
  deliver alive [] ns = ns
  deliver alive (p ∷ ps) ns = deliver alive ps (elim (lookup p.handler ns) [
    | none ↦ ns
    | some n ↦ insert p.handler (process alive (update_of p) n) ns
  ])

  abbrev pub put_answered : ℕ → Notification F × Dict ℕ → AsyncioCircuit F → AsyncioCircuit F
  put_answered k (n, handles) c = record c {
    notifications = insert k n c.notifications;
    circuit = record (c.circuit) { handle_to_notification = handles };
  }

  abbrev pub answer_notification :
      ℕ
      → Option AoENotificationHandleResponse
      → Option (Notification F)
      → AsyncioCircuit F
      → AsyncioCircuit F
  answer_notification k none n c = c
  answer_notification k (some r) none c = c
  answer_notification k (some r) (some n) c =
      put_answered k (response_handler k r n c.circuit.handle_to_notification) c

  -- `await handler(header, item)`; an item without a result or a handle makes it raise before anything
  -- is changed, which `_handle_command` catches.
  unfoldable pub run_handler :
      ResponseHandler → AoEHeader → Item → AsyncioCircuit F → AsyncioCircuit F
  unfolding handle_response_of
  run_handler (got_response k) header item c = record c {
    requests = insert k (some (header, item)) c.requests;
  }
  run_handler (notification_answered k) header item c =
      answer_notification k (handle_response_of item) (lookup k c.notifications) c

  unfoldable pub run_handlers :
      List ResponseHandler → AoEHeader → Item → AsyncioCircuit F → AsyncioCircuit F
  unfolding run_handler
  run_handlers [] header item c = c
  run_handlers (h ∷ hs) header item c = run_handlers hs header item (run_handler h header item c)

  -- The protocol circuit's part of `_handle_command`, whose exceptions are caught.
  unfoldable pub circuit_handled :
      (F → Bool) → AoEHeader → Item → AsyncioCircuit F → AsyncioCircuit F
  unfolding deliver
  circuit_handled alive header item c =
      let circuit = (handle_command header item (record c.circuit { processed = [] })).1 in
      record c {
        circuit = circuit;
        notifications = deliver alive circuit.processed c.notifications;
      }

  -- `_handle_command`: the handlers are looked up first.
  unfoldable pub client_handle_command :
      (F → Bool) → AoEHeader → Item → AsyncioCircuit F → AsyncioCircuit F
  unfolding handlers_of circuit_handled run_handlers
  client_handle_command alive header item c =
      run_handlers (handlers_of header.invoke_id c.response_handlers) header item
        (circuit_handled alive header item c)

  -- `_BlockingRequest.__aenter__`: the request is made and sent, with a number that is not in use.
  unfoldable pub start_request :
      ℕ → Item → Option ℕ → AsyncioCircuit F → Result (ℕ × Bytes) × AsyncioCircuit F
  unfolding send_item
  start_request k item port c =
      send_item item port (some (got_response k)) (record c { requests = insert k none c.requests })

-- `_BlockingRequest.wait`, when it ends: by the response, by the error event, or by the timeout.
unfoldable pub wait : Bool → Option (AoEHeader × Item) → Result Item
wait true response = err disconnected_error
wait false none = err timeout_error
wait false (some (header, item)) = ok item

-- The end of `write_and_read`; a code above 0xFFFF is no member of `AdsError`.
abbrev pub check_result : Option ℕ → Item → Result Item
check_result none item = ok item
check_result (some code) item =
    if code == 0
    then ok item
    else if leb code 0xFFFF
    then err (request_failed code)
    else err value_error

unfoldable pub write_and_read_result : Bool → Option (AoEHeader × Item) → Result Item
unfolding wait result_attribute
write_and_read_result disconnected response = do
  item ← wait disconnected response
  check_result (result_attribute item) item
