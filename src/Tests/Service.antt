-- ===== src/Tests/Service.antt =====
-- The theorems on the server's circuit, at concrete inputs.
use ads_async.Prelude.{ℕ, ◌≡◌, ◌<◌, refl, ap, some, List, [], ◌∷◌, lookup, arith}
use ads_async.Prelude.Result.{ok, err, missing_handler, request_failed}
use ads_async.Constants
use ads_async.Constants.AdsError
use ads_async.Constants.IndexGroup
use ads_async.Constants.{to_command_id, value}
use ads_async.Counter.{circuit_counter}
use ads_async.Structs.Header.{command_id}
use ads_async.Structs.Item.{Item}
use ads_async.Structs.Request.{AdsReadRequest, AdsWriteRequest, AdsReadWriteRequest}
use ads_async.Structs.Response.{read_response}
use ads_async.Structs.Text.{ascii}
use ads_async.Symbols.{Symbol}
use ads_async.Server.State.{ServerCircuit, Notification, new_circuit}
use ads_async.Server.Dispatch.{handler_for}
use ads_async.Server.Access.{no_error}
use ads_async.Server.Command.{handle_command, read_header}
use ads_async.Server.Routing.{route, handler_for-route}
use ads_async.Server.Failure.{handle_command_failed}
use ads_async.Server.Handles.{handle_command-read_value}
use ads_async.Server.Values.{write_value-read_value}
use ads_async.Server.Collect.{collect}
use ads_async.Server.Sumup.{handle_command-sumup, requests_bytes, sumup_answer}
use ads_async.Server.Sessions.{begin, command, reachable_handles}
use ads_async.Tests.Data.{header, counts, area, database, circuit}
use ads_async.Tests.Memory.{counts-IsPlain, counts-IsWritable}

handler_for-route_example : handler_for Constants.write (some 61444) ≡ err missing_handler
unfolding route
handler_for-route_example = handler_for-route Constants.write (some 61444)

is_read : command_id (header 2 12) ≡ some Constants.read
unfolding command_id to_command_id
is_read = refl

is_write : command_id (header 3 14) ≡ some Constants.write
unfolding command_id to_command_id
is_write = refl

is_read_write : command_id (header 9 18) ≡ some Constants.read_write
unfolding command_id to_command_id
is_read_write = refl

abbrev read_counts : AdsReadRequest
read_counts = record { index_group = IndexGroup.sym_valbyhnd; index_offset = 101; length = 2 }

abbrev write_counts : AdsWriteRequest
write_counts = record {
  index_group = IndexGroup.sym_valbyhnd;
  index_offset = 101;
  write_length = 2;
  payload = some (9 ∷ 10 ∷ []);
}

counts_of_handle : lookup 101 circuit.handle_to_symbol ≡ some counts
unfolding lookup
counts_of_handle = refl

write_value-read_value_example :
    (c' : ServerCircuit) × (handle_command ascii
        (header 3 14)
        (Item.write_item write_counts)
        circuit
      ≡ (ok (some no_error), c'))
    × (handle_command ascii (header 2 12) (Item.read_item read_counts) c'
        ≡ (ok (some (Item.read_response_item (read_response (9 ∷ 10 ∷ [])) ∷ [])), c'))
write_value-read_value_example =
    write_value-read_value ascii (header 3 14) (header 2 12) circuit counts area 2 write_counts
      read_counts (9 ∷ 10 ∷ []) is_write refl refl is_read refl refl counts_of_handle counts-IsPlain
      counts-IsWritable refl

abbrev name_counts : AdsReadWriteRequest
name_counts = record {
  index_group = IndexGroup.sym_hndbyname;
  index_offset = 0;
  read_length = 4;
  write_length = 2;
  payload = some (97 ∷ 0 ∷ []);
}

abbrev two_reads : List AdsReadRequest
two_reads = read_counts ∷ read_counts ∷ []

abbrev sumup_request : AdsReadWriteRequest
sumup_request = record {
  index_group = IndexGroup.sumup_read;
  index_offset = 2;
  read_length = 12;
  write_length = 24;
  payload = some (requests_bytes two_reads);
}

handle_command-sumup_example :
    handle_command ascii (header 9 18) (Item.read_write_item sumup_request) circuit ≡ (
      sumup_answer 2 (
          collect
            (λ x. (handle_command ascii (read_header (header 9 18)) (Item.read_item x) circuit).0)
            two_reads),
      circuit,
    )
handle_command-sumup_example =
    handle_command-sumup ascii (header 9 18) sumup_request two_reads circuit is_read_write refl refl
      (omega arith)

-- A handle that is not in use.
abbrev read_other : AdsReadRequest
read_other = record { index_group = IndexGroup.sym_valbyhnd; index_offset = 102; length = 2 }

read_other_fails :
    (handle_command ascii (header 2 12) (Item.read_item read_other) circuit).0
    ≡ err (request_failed AdsError.client_invalidparm)
unfolding lookup
read_other_fails =
    ap (λ x. x.0) (handle_command-read_value ascii (header 2 12) read_other circuit is_read refl)

handle_command_failed_example :
    (handle_command ascii (header 2 12) (Item.read_item read_other) circuit).1 ≡ circuit
handle_command_failed_example =
    handle_command_failed ascii (header 2 12) (Item.read_item read_other) circuit
      (request_failed AdsError.client_invalidparm) read_other_fails

abbrev fresh : ServerCircuit
fresh = new_circuit database []

abbrev named : ServerCircuit
named = (handle_command ascii (header 9 18) (Item.read_write_item name_counts) fresh).1

reachable_handles_example :
    ((k : ℕ) (s : Symbol)
      → lookup k named.handle_to_symbol ≡ some s
      → k < circuit_counter.max_count)
    × ((k : ℕ) (n : Notification)
        → lookup k named.handle_to_notification ≡ some n
        → (k < circuit_counter.max_count) × (n.handle ≡ k))
reachable_handles_example =
    reachable_handles ascii database [] named
      (command begin (header 9 18) (Item.read_write_item name_counts))
