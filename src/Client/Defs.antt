-- ===== src/Client/Defs.antt =====
-- The state and the methods of `ClientCircuit` of ads_async/protocol.py. The handler objects in
-- `handle_to_notification` are the user's: a call of their `process` is an entry of `processed`.
use ads_async.Prelude.{
  ℕ, ◌&&◌, Bool, true, false, Option, none, some, List, [], ◌∷◌, ◌++◌, Dict, lookup, insert, erase,
  ◌==◌, ltb, if◌then◌else◌,
}
use ads_async.Prelude.Result.{
  Result, ok, err, attribute_error, diverges, missing_handler, value_error, ◌>>=◌,
}
use ads_async.Bytes.{Bytes}
use ads_async.Constants.{
  AdsCommandId, add_device_notification, del_device_notification, device_notification,
}
use ads_async.Counter.{ThreadsafeCounter, circuit_counter, next}
use ads_async.Structs.Address.{AmsAddr, addr_fields}
use ads_async.Structs.Header.{AoEHeader, command_id}
use ads_async.Structs.Item.{Item}
use ads_async.Structs.Notification.{AdsNotificationSample, AdsNotificationStamp}
use ads_async.Wire.{request_to_wire}

-- `(tuple(header.source), handle)`
pub record SourceHandle : Type 0 where
  pub source : AmsAddr
  pub handle : ℕ

abbrev pub same_numbers : List ℕ → List ℕ → Bool
same_numbers [] [] = true
same_numbers [] (_ ∷ _) = false
same_numbers (_ ∷ _) [] = false
same_numbers (a ∷ s) (b ∷ t) = a == b && same_numbers s t

unfoldable pub same_source_handle : SourceHandle → SourceHandle → Bool
same_source_handle a b =
    a.handle == b.handle && same_numbers (addr_fields a.source) (addr_fields b.source)

unfoldable pub has_source_handle : SourceHandle → List SourceHandle → Bool
unfolding same_source_handle
has_source_handle key [] = false
has_source_handle key (k ∷ ks) = if same_source_handle k key then true else has_source_handle key ks

-- `set.add`
unfoldable pub set_add : SourceHandle → List SourceHandle → List SourceHandle
unfolding has_source_handle
set_add key ks = if has_source_handle key ks then ks else key ∷ ks

-- `if key in s: s.remove(key)`
unfoldable pub set_remove : SourceHandle → List SourceHandle → List SourceHandle
unfolding same_source_handle
set_remove key [] = []
set_remove key (k ∷ ks) =
    let rest = set_remove key ks in if same_source_handle k key then rest else k ∷ rest

-- A call `handler.process(header=…, timestamp=…, sample=…)`
pub record Processed (H : Type 0) : Type 0 where
  pub handler : H
  pub header : AoEHeader
  pub timestamp : ℕ
  pub sample : AdsNotificationSample

pub record ClientCircuit (H : Type 0) : Type 0 where
  pub handle_to_notification : Dict H
  pub id_to_request : Dict Item
  pub invoke_counter : ThreadsafeCounter
  pub unknown_notifications : List SourceHandle
  pub processed : List (Processed H)

-- `request.handle` of a stored request
unfoldable pub handle_of : Item → Option ℕ
handle_of (Item.write_item r) = some r.index_offset
handle_of (Item.read_item r) = some r.index_offset
handle_of (Item.add_notification_item r) = some r.index_offset
handle_of (Item.delete_notification_item r) = some r.handle
handle_of (Item.handle_item r) = some r.handle
handle_of (Item.notification_handle_item r) = some r.handle
handle_of _ = none

-- What a handler returns, with the circuit it leaves.
abbrev pub Called : Type 0 → Type 0
Called H = Result (Unit {0}) × ClientCircuit H

-- The handlers of `ClientCircuit`.
pub data ClientHandler : Type 0 where
  on_add_notification on_delete_notification on_device_notification : ClientHandler

-- `get_handler`, for the three keys that the class registers, all without an index group.
unfoldable pub client_handler : Option AdsCommandId → Result ClientHandler
client_handler none = err value_error
client_handler (some add_device_notification) = ok on_add_notification
client_handler (some del_device_notification) = ok on_delete_notification
client_handler (some device_notification) = ok on_device_notification
client_handler (some _) = err missing_handler

-- The first number whose date is past the year 9999: `(timestamp - UNIX_EPOCH_START) * 1e-7`, a float,
-- is then rounded up to the year 10000.
abbrev pub first_undated : ℕ
first_undated = 2650467743999999744

-- `get_datetime_from_timestamp`, where `utcfromtimestamp` raises from there on. A date is kept as the
-- number that it is made of.
unfoldable pub date_of : ℕ → Result ℕ
date_of timestamp = if ltb timestamp first_undated then ok timestamp else err value_error

module _ {H : Type 0} where
  unfoldable pub new_client : ClientCircuit H
  new_client = record {
    handle_to_notification = [];
    id_to_request = [];
    invoke_counter = circuit_counter;
    unknown_notifications = [];
    processed = [];
  }

  -- The body of the inner loop of `_device_notification`.
  unfoldable pub process_sample :
      AoEHeader → ℕ → AdsNotificationSample → ClientCircuit H → ClientCircuit H
  unfolding set_add
  process_sample header timestamp sample c =
      elim (lookup sample.notification_handle c.handle_to_notification) [
        | none ↦ record c {
          unknown_notifications =
              set_add (record { source = header.source; handle = sample.notification_handle })
                c.unknown_notifications;
        }
        | some handler ↦ record c {
          processed =
              c.processed
              ++ (record {
                handler = handler;
                header = header;
                timestamp = timestamp;
                sample = sample;
              }
                  ∷ []);
        }
      ]

  -- `for sample in stamp.samples`
  unfoldable pub process_samples :
      AoEHeader → ℕ → List AdsNotificationSample → ClientCircuit H → ClientCircuit H
  unfolding process_sample
  process_samples header timestamp [] c = c
  process_samples header timestamp (s ∷ ss) c =
      process_samples header timestamp ss (process_sample header timestamp s c)

  -- `for stamp in stream.stamps`; `stamp.timestamp` may raise.
  unfoldable pub process_stamps : AoEHeader → List AdsNotificationStamp → ClientCircuit H → Called H
  unfolding process_samples date_of
  process_stamps header [] c = (ok tt, c)
  process_stamps header (s ∷ ss) c = elim (date_of s.timestamp) [
    | err e ↦ (err e, c)
    | ok timestamp ↦ process_stamps header ss (process_samples header timestamp s.samples c)
  ]

  -- `_device_notification`
  unfoldable pub device_notification_handler : AoEHeader → Item → ClientCircuit H → Called H
  unfolding process_stamps
  device_notification_handler header (Item.notification_item s) c = process_stamps header s.stamps c
  device_notification_handler header _ c = (err attribute_error, c)

  abbrev pub forget : AmsAddr → Option ℕ → ClientCircuit H → Called H
  forget source none c = (err attribute_error, c)
  forget source (some handle) c = (
    ok tt,
    record c {
      unknown_notifications =
          set_remove (record { source = source; handle = handle }) c.unknown_notifications;
    },
  )

  -- `_add_notification`: the handle is that of the request, which is its index offset; without a
  -- request, `None` has no such attribute.
  unfoldable pub add_notification : Option Item → AoEHeader → ClientCircuit H → Called H
  unfolding handle_of set_remove
  add_notification none header c = (err attribute_error, c)
  add_notification (some request) header c = forget header.source (handle_of request) c

  abbrev pub pop_and_forget : AmsAddr → Option ℕ → ClientCircuit H → Called H
  pop_and_forget source none c = (err attribute_error, c)
  pop_and_forget source (some handle) c =
      forget source (some handle)
        (record c { handle_to_notification = erase handle c.handle_to_notification })

  -- `_delete_notification`
  unfoldable pub delete_notification : Option Item → AoEHeader → ClientCircuit H → Called H
  unfolding handle_of set_remove
  delete_notification none header c = (ok tt, c)
  delete_notification (some request) header c = pop_and_forget header.source (handle_of request) c

  abbrev pub call : ClientHandler → Option Item → AoEHeader → Item → ClientCircuit H → Called H
  call on_add_notification request header response c = add_notification request header c
  call on_delete_notification request header response c = delete_notification request header c
  call on_device_notification request header response c =
      device_notification_handler header response c

  -- The request is taken out of `id_to_request` once a handler is found.
  unfoldable pub dispatch : Result ClientHandler → AoEHeader → Item → ClientCircuit H → Called H
  unfolding add_notification delete_notification device_notification_handler
  dispatch (err e) header response c = (err e, c)
  dispatch (ok h) header response c =
      call h (lookup header.invoke_id c.id_to_request) header response
        (record c { id_to_request = erase header.invoke_id c.id_to_request })

  -- `handle_command`
  unfoldable pub handle_command : AoEHeader → Item → ClientCircuit H → Called H
  unfolding client_handler dispatch
  handle_command header response c = dispatch (client_handler (command_id header)) header response c

  abbrev store : ℕ → Item → ThreadsafeCounter → ClientCircuit H → ClientCircuit H
  store invoke_id item counter c = record c {
    invoke_counter = counter;
    id_to_request = insert invoke_id item c.id_to_request;
  }

  -- `request_to_wire` of a circuit, of one item to a given target; `source` is our own address. The
  -- request is stored before it is serialized.
  unfoldable pub send :
      AmsAddr → AmsAddr → Item → ClientCircuit H → Result (ℕ × Bytes) × ClientCircuit H
  unfolding request_to_wire next
  send target source item c = elim (next (λ _. false) c.invoke_counter) [
    | none ↦ (err diverges, c)
    | some counter ↦ (
      (do bytes ← request_to_wire item target source counter.value; ok (counter.value, bytes)),
      store counter.value item counter c,
    )
  ]
