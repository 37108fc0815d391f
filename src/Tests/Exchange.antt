-- ===== src/Tests/Exchange.antt =====
-- The theorems on answers, areas, notifications and streams, at concrete inputs.
use ads_async.Prelude.{
  ℕ, ◌≡◌, ◌<◌, ◌==◌, if◌then◌else◌, refl, true, none, some, List, [], ◌∷◌, ◌++◌, length, lookup,
  All, arith,
}
use ads_async.Prelude.Result.{ok, err, key_error, ◌>>=◌}
use ads_async.Bytes.{Bytes, pack, to_le}
use ads_async.Constants
use ads_async.Constants.AdsError
use ads_async.Constants.IndexGroup
use ads_async.Constants.{to_command_id}
use ads_async.Structs.Header.{command_id}
use ads_async.Structs.Item.{Item, item_command, serialize}
use ads_async.Structs.Request.{AdsReadRequest, AdsAddDeviceNotificationRequest}
use ads_async.Structs.Notification.{
  AdsNotificationSample, stream_layout, deserialize_stamp, deserialize_stream, read_stamps,
}
use ads_async.Structs.Samples.{SampleFits}
use ads_async.Structs.Stamps.{
  stamp_bytes, stamp_read, deserialize_stream-one_stamp, read_stamps-second_early,
}
use ads_async.Structs.Text.{ascii}
use ads_async.Symbols.{Database, area_by_group, internal, symbol_read}
use ads_async.Constants.{ctypes_type}
use ads_async.Symbols.Loading.{
  TmcArea, area_symbols, tmc_database, plc_area, tmc_database-area_by_group,
}
use ads_async.Server.State.{ServerCircuit}
use ads_async.Server.Access.{no_error}
use ads_async.Server.Command.{handle_command}
use ads_async.Server.Subscriptions.{add-delete_notification}
use ads_async.Wire.{round, emit}
use ads_async.Wire.Requests.{RequestIsValid, header_of}
use ads_async.Serve.{answer}
use ads_async.Serve.Response.{received_response}
use ads_async.Serve.Exchange.{read_request, response_header, exchange_read}
use ads_async.Tests.Data.{client_addr, server_addr, header, counts, database, circuit}

abbrev pub read_counts : AdsReadRequest
read_counts = record { index_group = IndexGroup.sym_valbyhnd; index_offset = 101; length = 2 }

pub read_counts-IsValid : RequestIsValid (read_request read_counts server_addr client_addr 101)
unfolding item_command serialize pack to_le
read_counts-IsValid = record {
  command_of_item = refl;
  item_fits = omega arith;
  target_fits = omega arith;
  source_fits = omega arith;
  invoke_id_fits = omega arith;
  length_fits = omega arith;
}

pub counts_of_handle : lookup 101 circuit.handle_to_symbol ≡ some counts
unfolding lookup
counts_of_handle = refl

pub counts_read : symbol_read database counts ≡ ok (3 ∷ 4 ∷ [])
unfolding symbol_read ctypes_type
counts_read = refl

exchange_read_example :
    (frame : Bytes) × (answer ascii
        (header_of (read_request read_counts server_addr client_addr 101))
        (Item.read_item read_counts)
        circuit
      ≡ (ok frame, circuit))
    × (round (frame ++ [])
        ≡ emit 48
            (some (
              response_header (read_request read_counts server_addr client_addr 101) (3 ∷ 4 ∷ []),
              Item.read_response_item (received_response (3 ∷ 4 ∷ []) []),
            ))
            [])
exchange_read_example =
    exchange_read ascii read_counts server_addr client_addr 101 counts (3 ∷ 4 ∷ []) [] circuit
      read_counts-IsValid refl counts_of_handle counts_read (omega arith)

abbrev one_area : List TmcArea
one_area = record { group = some internal; create_symbols = true; byte_size = 4; items = [] } ∷ []

loaded : (db : Database) × (tmc_database one_area ≡ ok db)
unfolding tmc_database area_symbols
loaded = (_, refl)

tmc_database-area_by_group_example :
    area_by_group loaded.0 16448
    ≡ (if IndexGroup.plc_memory_area == 16448 then some plc_area else none)
tmc_database-area_by_group_example = tmc_database-area_by_group one_area loaded.0 16448 loaded.1

is_add : command_id (header 6 40) ≡ some Constants.add_device_notification
unfolding command_id to_command_id
is_add = refl

is_delete : command_id (header 7 4) ≡ some Constants.del_device_notification
unfolding command_id to_command_id
is_delete = refl

abbrev watch_counts : AdsAddDeviceNotificationRequest
watch_counts = record {
  index_group = IndexGroup.sym_valbyhnd;
  index_offset = 101;
  length = 2;
  mode = 4;
  max_delay = 1;
  cycle_time = 100;
  reserved = [];
}

add-delete_notification_example :
    (handle : ℕ) × (d d' : ServerCircuit) × (handle_command ascii
        (header 6 40)
        (Item.add_notification_item watch_counts)
        circuit
      ≡ (
        ok (
            some (
              Item.notification_handle_item (record { result = AdsError.noerr; handle = handle })
              ∷ [])),
        d,
      ))
    × (handle < 4294967296)
    × (lookup handle circuit.handle_to_symbol ≡ none)
    × (handle_command ascii
          (header 7 4)
          (Item.delete_notification_item (record { handle = handle }))
          d
        ≡ (ok (some no_error), d'))
    × (handle_command ascii
          (header 7 4)
          (Item.delete_notification_item (record { handle = handle }))
          d'
        ≡ (err key_error, d'))
add-delete_notification_example =
    add-delete_notification ascii (header 6 40) (header 7 4) watch_counts counts circuit is_add
      is_delete refl counts_of_handle (omega arith)

abbrev two_samples : List AdsNotificationSample
two_samples =
    record { notification_handle = 3; sample_size = 1; payload = 5 ∷ [] }
    ∷ record { notification_handle = 4; sample_size = 2; payload = 6 ∷ 7 ∷ [] }
    ∷ []

two_samples-Fits : All SampleFits two_samples
two_samples-Fits =
    (((omega arith, (omega arith, tt)), refl), (((omega arith, (omega arith, tt)), refl), tt))

deserialize_stream-one_stamp_example :
    deserialize_stream (pack stream_layout (31 ∷ 1 ∷ []) ++ (stamp_bytes 1000 two_samples ++ []))
    ≡ ok (record { length = 31; num_stamps = 1; stamps = stamp_read 1000 two_samples ∷ [] })
deserialize_stream-one_stamp_example =
    deserialize_stream-one_stamp 1000 two_samples 31 [] (omega arith) (omega arith) two_samples-Fits

read_stamps-second_early_example :
    (front last : Bytes) × (stamp_bytes 1000 two_samples ≡ front ++ last)
    × (length last ≡ 12)
    × (read_stamps 2 (stamp_bytes 1000 two_samples ++ (1 ∷ [])) ≡ (do
      second ← deserialize_stamp (last ++ (1 ∷ []))
      ok (stamp_read 1000 two_samples ∷ second ∷ [])))
read_stamps-second_early_example =
    read_stamps-second_early 1000 two_samples (1 ∷ []) (omega arith) two_samples-Fits
