-- ===== src/Tests/Peer.antt =====
-- The theorems on the client's circuit, at concrete inputs.
use ads_async.Prelude.{ℕ, ◌≡◌, refl, false, if◌then◌else◌, some, [], ◌∷◌, lookup, erase, arith}
use ads_async.Prelude.Result.{ok, err, missing_handler}
use ads_async.Constants
use ads_async.Constants.{to_command_id}
use ads_async.Counter.{circuit_counter}
use ads_async.Structs.Header.{command_id}
use ads_async.Structs.Item.{Item}
use ads_async.Structs.Response.{read_response}
use ads_async.Structs.Notification.{AdsNotificationStream}
use ads_async.Client.{
  SourceHandle, same_source_handle, has_source_handle, ClientCircuit, client_handler,
  handle_command, send,
}
use ads_async.Client.Delivery.{
  deliveries, note_unknown, timed_samples, dated, outcome, handle_command-notification,
}
use ads_async.Client.Pending.{send-unhandled_response}
use ads_async.Structs.Request.{AdsAddDeviceNotificationRequest}
use ads_async.Client.Unknown.{handle_command-add_notification}
use ads_async.Tests.Data.{client_addr, server_addr, header}

-- A client with one notification handler, the number 7, for the handle 3.
abbrev client : ClientCircuit ℕ
client = record {
  handle_to_notification = (3, 7) ∷ [];
  id_to_request = [];
  invoke_counter = circuit_counter;
  unknown_notifications = [];
  processed = [];
}

abbrev stream : AdsNotificationStream
stream = record {
  length = 50;
  num_stamps = 1;
  stamps =
      record {
        timestamp = 1000;
        num_samples = 2;
        samples =
            record { notification_handle = 3; sample_size = 1; payload = 5 ∷ [] }
            ∷ record { notification_handle = 4; sample_size = 1; payload = 6 ∷ [] }
            ∷ [];
        byte_size = 18;
      }
      ∷ [];
}

is_notification : command_id (header 8 50) ≡ some Constants.device_notification
unfolding command_id to_command_id
is_notification = refl

handle_command-notification_example :
    handle_command (header 8 50) (Item.notification_item stream) client ≡ (
      outcome stream.stamps,
      record client {
        id_to_request = erase 101 client.id_to_request;
        processed =
            deliveries client.handle_to_notification
              (header 8 50)
              (timed_samples (dated stream.stamps));
        unknown_notifications =
            note_unknown client.handle_to_notification
              (header 8 50)
              (timed_samples (dated stream.stamps))
              [];
      },
    )
handle_command-notification_example =
    handle_command-notification (header 8 50) stream client is_notification

abbrev asked : Item
asked = Item.read_item (record { index_group = 61445; index_offset = 101; length = 2 })

no_handler : client_handler (command_id (header 2 12)) ≡ err missing_handler
unfolding client_handler command_id to_command_id
no_handler = refl

send-unhandled_response_example :
    (d : ClientCircuit ℕ) × (handle_command
        (header 2 12)
        (Item.read_response_item (read_response (1 ∷ [])))
        (send server_addr client_addr asked client).1
      ≡ (err missing_handler, d))
    × (lookup 101 d.id_to_request ≡ some asked)
send-unhandled_response_example =
    send-unhandled_response server_addr client_addr asked client (header 2 12)
      (Item.read_response_item (read_response (1 ∷ []))) (omega arith) refl no_handler

abbrev watch : AdsAddDeviceNotificationRequest
watch = record {
  index_group = 61445;
  index_offset = 101;
  length = 2;
  mode = 4;
  max_delay = 1;
  cycle_time = 100;
  reserved = [];
}

-- A client that waits for the response to `watch`, and has seen the handle 4 already.
abbrev waiting : ClientCircuit ℕ
waiting = record client {
  id_to_request = (101, Item.add_notification_item watch) ∷ [];
  unknown_notifications = record { source = client_addr; handle = 4 } ∷ [];
}

is_added : command_id (header 6 8) ≡ some Constants.add_device_notification
unfolding command_id to_command_id
is_added = refl

watch_pending : lookup 101 waiting.id_to_request ≡ some (Item.add_notification_item watch)
unfolding lookup
watch_pending = refl

abbrev client_key : ℕ → SourceHandle
client_key n = record { source = client_addr; handle = n }

abbrev removed_key : AdsAddDeviceNotificationRequest → SourceHandle
removed_key r = client_key r.index_offset

handle_command-add_notification_example :
    (d : ClientCircuit ℕ) × (handle_command
        (header 6 8)
        (Item.notification_handle_item (record { result = 0; handle = 4 }))
        waiting
      ≡ (ok tt, d))
    × (d ≡ record waiting {
      id_to_request = erase (header 6 8).invoke_id waiting.id_to_request;
      unknown_notifications = d.unknown_notifications;
    })
    × (has_source_handle (removed_key watch) d.unknown_notifications ≡ false)
    × (has_source_handle (client_key 9) d.unknown_notifications ≡ (
        if same_source_handle (removed_key watch) (client_key 9)
        then false
        else has_source_handle (client_key 9) waiting.unknown_notifications))
    × (has_source_handle (client_key 4) d.unknown_notifications
        ≡ has_source_handle (client_key 4) waiting.unknown_notifications)
handle_command-add_notification_example =
    handle_command-add_notification (header 6 8) watch (record { result = 0; handle = 4 }) waiting
      (client_key 9) is_added watch_pending (omega arith)
