-- ===== src/Tests/Naming.antt =====
-- The session of a client that reads a symbol by its name, at a concrete input.
use ads_async.Prelude.{ℕ, ◌≡◌, refl, none, some, [], ◌∷◌, lookup, arith}
use ads_async.Prelude.Result.{ok, err, request_failed}
use ads_async.Constants
use ads_async.Constants.{to_command_id}
use ads_async.Constants.AdsError
use ads_async.Structs.Header.{command_id}
use ads_async.Structs.Item.{Item}
use ads_async.Structs.Request.{AdsReadWriteRequest}
use ads_async.Structs.Response.{handle_response}
use ads_async.Structs.Text.{ascii, ascii_bytes, HasNoNull, IsFaithful}
use ads_async.Symbols.{get_symbol_by_name, find_symbol, symbol_read}
use ads_async.Server.State.{ServerCircuit}
use ads_async.Server.Access.{no_error}
use ads_async.Server.Command.{handle_command}
use ads_async.Server.Handles.{read_answer}
use ads_async.Client.Requests.{get_symbol_handle_by_name, get_value_by_handle, release_handle}
use ads_async.Serve.Names.{named_session}
use ads_async.Tests.Data.{header, counts, database, circuit}

is_read : command_id (header 2 12) ≡ some Constants.read
unfolding command_id to_command_id
is_read = refl

is_write : command_id (header 3 12) ≡ some Constants.write
unfolding command_id to_command_id
is_write = refl

is_read_write : command_id (header 9 18) ≡ some Constants.read_write
unfolding command_id to_command_id
is_read_write = refl

name-encoded : ascii.encode (97 ∷ []) ≡ ok (97 ∷ [])
unfolding ascii_bytes
name-encoded = refl

name-IsFaithful : IsFaithful ascii (97 ∷ []) (97 ∷ [])
unfolding ascii_bytes
name-IsFaithful = refl

name-HasNoNull : HasNoNull (97 ∷ [])
name-HasNoNull = (omega arith, tt)

name_known : get_symbol_by_name database (97 ∷ []) ≡ ok counts
unfolding get_symbol_by_name find_symbol
name_known = refl

named_session_example :
    (r : AdsReadWriteRequest) × (handle : ℕ) × (d d' : ServerCircuit) × (get_symbol_handle_by_name
        ascii
        (97 ∷ [])
      ≡ ok r)
    × (handle_command ascii (header 9 18) (Item.read_write_item r) circuit
        ≡ (ok (some (Item.handle_item (handle_response handle) ∷ [])), d))
    × (lookup handle circuit.handle_to_symbol ≡ none)
    × (handle_command ascii (header 2 12) (Item.read_item (get_value_by_handle handle 2)) d
        ≡ (read_answer (symbol_read database counts), d))
    × (handle_command ascii (header 3 12) (Item.write_item (release_handle handle)) d
        ≡ (ok (some no_error), d'))
    × ((handle_command ascii (header 2 12) (Item.read_item (get_value_by_handle handle 2)) d').0
        ≡ err (request_failed AdsError.client_invalidparm))
named_session_example =
    named_session ascii (header 9 18) (header 2 12) (header 2 12) (header 3 12) circuit (97 ∷ [])
      (97 ∷ []) counts 2 is_read_write is_read is_write is_read name-HasNoNull name-encoded
      name-IsFaithful name_known (omega arith)
