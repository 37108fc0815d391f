-- ===== src/Serve/Names.antt =====
-- The requests of a client, at the server of ads_async/protocol.py: a symbol by its name.
use ads_async.Prelude.{
  ℕ, ◌<◌, ◌≡◌, refl, ap, ◌∙◌, ◌==◌, if◌then◌else◌, arith, some, none, [], ◌∷◌, ◌++◌, length, lookup,
}
use ads_async.Prelude.Result.{ok, err, request_failed}
use ads_async.Bytes.{Bytes}
use ads_async.Constants
use ads_async.Constants.AdsError
use ads_async.Constants.IndexGroup
use ads_async.Structs.Header.{AoEHeader, command_id}
use ads_async.Structs.Item.{Item}
use ads_async.Structs.Request.{AdsReadWriteRequest}
use ads_async.Structs.Response.{handle_response}
use ads_async.Structs.Text.{
  Text, Codec, byte_string_to_string, HasNoNull, IsFaithful, until_null-append,
}
use ads_async.Symbols.{Symbol, get_symbol_by_name, symbol_read}
use ads_async.Server.State.{ServerCircuit}
use ads_async.Server.Access.{no_error}
use ads_async.Server.Command.{handle_command}
use ads_async.Server.Handles.{
  by_handle_answer, read_answer, handle_command-read_value, release-read,
}
use ads_async.Server.Values.{handle_command-read_write_handle}
use ads_async.Client.Requests.{get_symbol_handle_by_name, get_value_by_handle, release_handle}

pub byte_string_to_string-encoded :
    (codec : Codec) (name : Text) (bytes : Bytes)
    → HasNoNull name
    → IsFaithful codec name bytes
    → byte_string_to_string codec (bytes ++ (0 ∷ [])) ≡ ok name
unfolding byte_string_to_string
byte_string_to_string-encoded codec name bytes h faithful =
    rw (byte_string_to_string, faithful) (ap ok (until_null-append name [] h))

pub found_handle {ℓ} : {A : Type ℓ} (handle : ℕ) (a b : A) → (if handle == handle then a else b) ≡ a
found_handle handle a b = ground arith

module _ (codec : Codec) (by_name read_by read_after release : AoEHeader) (c : ServerCircuit) where
  -- A client that asks for the handle of a symbol by its name, reads by the handle it is answered,
  -- releases it and reads again is answered, in order: a handle that was not in use, the bytes of
  -- the symbol (or the exception of reading it), no error, and an invalid parameter. The name has
  -- no NUL and the codec gives it back; the symbol is in the database, and fewer handles are in use than
  -- the limit of the counter.
  pub named_session :
      (name : Text) (bytes : Bytes) (s : Symbol) (size : ℕ)
      → command_id by_name ≡ some Constants.read_write
      → command_id read_by ≡ some Constants.read
      → command_id release ≡ some Constants.write
      → command_id read_after ≡ some Constants.read
      → HasNoNull name
      → codec.encode name ≡ ok bytes
      → IsFaithful codec name bytes
      → get_symbol_by_name c.database name ≡ ok s
      → length c.handle_to_symbol < c.handle_counter.max_count
      → (r : AdsReadWriteRequest) × (handle : ℕ) × (d d' : ServerCircuit)
        × (get_symbol_handle_by_name codec name ≡ ok r)
        × (handle_command codec by_name (Item.read_write_item r) c
            ≡ (ok (some (Item.handle_item (handle_response handle) ∷ [])), d))
        × (lookup handle c.handle_to_symbol ≡ none)
        × (handle_command codec read_by (Item.read_item (get_value_by_handle handle size)) d
            ≡ (read_answer (symbol_read c.database s), d))
        × (handle_command codec release (Item.write_item (release_handle handle)) d
            ≡ (ok (some no_error), d'))
        × ((handle_command codec read_after (Item.read_item (get_value_by_handle handle size)) d').0
            ≡ err (request_failed AdsError.client_invalidparm))
  unfolding get_symbol_handle_by_name get_value_by_handle release_handle
  named_session name bytes s size h1 h2 h3 h4 no_null encoded faithful found few =
      let r : AdsReadWriteRequest = record {
        index_group = IndexGroup.sym_hndbyname;
        index_offset = 0;
        read_length = 4;
        write_length = length (bytes ++ (0 ∷ []));
        payload = some (bytes ++ (0 ∷ []));
      } in
      let (handle, d, made, in_range, fresh, handles, same_db) =
        handle_command-read_write_handle codec by_name r (bytes ++ (0 ∷ [])) name s c h1 refl refl
          (byte_string_to_string-encoded codec name bytes no_null faithful) found few in
      let stored : lookup handle d.handle_to_symbol ≡ some s =
        handles handle ∙ found_handle handle (some s) (lookup handle c.handle_to_symbol) in
      let (d', released, gone) =
        release-read codec release read_after (release_handle handle)
          (get_value_by_handle handle size) d h3 refl h4 refl in
      (
        r,
        handle,
        d,
        d',
        rw encoded refl,
        made,
        fresh,
        handle_command-read_value codec read_by (get_value_by_handle handle size) d h2 refl
            ∙ ap (λ o. (by_handle_answer d.database o, d)) stored
            ∙ ap (λ db. (read_answer (symbol_read db s), d)) same_db,
        released,
        gone ∙ found_handle handle _ _,
      )
