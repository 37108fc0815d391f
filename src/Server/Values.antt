-- ===== src/Server/Values.antt =====
-- Handles made by name, and values written by handle, in ads_async/protocol.py.
use ads_async.Prelude.{
  ℕ, ◌<◌, ◌≡◌, refl, ap, ◌∙◌, arith, ◌==◌, if◌then◌else◌, none, some, [], ◌∷◌, length, lookup,
  insert, contains, lookup-insert,
}
use ads_async.Prelude.Result.{ok}
use ads_async.Bytes.{Bytes}
use ads_async.Constants
use ads_async.Constants.IndexGroup
use ads_async.Counter.{next}
use ads_async.Structs.Item.{Item}
use ads_async.Structs.Header.{AoEHeader, command_id}
use ads_async.Structs.Request.{AdsReadRequest, AdsWriteRequest, AdsReadWriteRequest}
use ads_async.Structs.Response.{read_response, handle_response}
use ads_async.Structs.Text.{Text, Codec, byte_string_to_string}
use ads_async.Symbols.{Symbol, Database, DataArea, get_symbol_by_name, symbol_read, symbol_write}
use ads_async.Symbols.Laws.{IsPlain, IsWritable, symbol_read-symbol_write_self, symbol_read-plain}
use ads_async.Server.State.{ServerCircuit, next_handle}
use ads_async.Server.Dispatch
use ads_async.Server.Dispatch.{index_group}
use ads_async.Server.Routing.{route}
use ads_async.Server.Access.{
  no_error, symbol_by_handle, symbol_by_name, symbol_by_payload, read_symbol, write_symbol,
}
use ads_async.Server.Handlers.{
  write_value, write_to, write_logged, log_written, write_payload, read_write_handle,
}
use ads_async.Server.Command.{call, handle_command}
use ads_async.Server.Called.{handle_command_routed}
use ads_async.Server.Fresh.{fresh_handle}
use ads_async.Server.Handles.{by_handle_answer, read_answer, handle_command-read_value}

-- The circuit after a handle is given out.
abbrev with_handle : ℕ → Symbol → ServerCircuit → ServerCircuit
with_handle handle s c = record c {
  handle_counter = record c.handle_counter { value = handle };
  handle_to_symbol = insert handle s c.handle_to_symbol;
}

module _ (codec : Codec) (header : AoEHeader) where
  pub symbol_by_payload-found :
      (bytes : Bytes) (name : Text) (s : Symbol) (c : ServerCircuit)
      → byte_string_to_string codec bytes ≡ ok name
      → get_symbol_by_name c.database name ≡ ok s
      → symbol_by_payload codec (some bytes) c ≡ (ok s, c)
  unfolding symbol_by_payload symbol_by_name
  symbol_by_payload-found bytes name s c named found = rw (named, found) refl

  read_write_handle-answer :
      (r : AdsReadWriteRequest) (s : Symbol) (c : ServerCircuit) (handle : ℕ)
      → symbol_by_payload codec r.payload c ≡ (ok s, c)
      → next (λ h. contains h c.handle_to_symbol) c.handle_counter
        ≡ some (record c.handle_counter { value = handle })
      → read_write_handle codec (Item.read_write_item r) c
        ≡ (ok (some (Item.handle_item (handle_response handle) ∷ [])), with_handle handle s c)
  unfolding read_write_handle next_handle
  read_write_handle-answer r s c handle found made = ground (arith, found, made)

  -- The request of a handle by the name of a symbol succeeds while fewer handles are
  -- in use than the limit of the counter. The handle that it answers is below the limit and was not in use; it is the
  -- symbol's afterwards, every other handle is what it was, and the database is not changed.
  pub handle_command-read_write_handle :
      (r : AdsReadWriteRequest) (bytes : Bytes) (name : Text) (s : Symbol) (c : ServerCircuit)
      → command_id header ≡ some Constants.read_write
      → r.index_group ≡ IndexGroup.sym_hndbyname
      → r.payload ≡ some bytes
      → byte_string_to_string codec bytes ≡ ok name
      → get_symbol_by_name c.database name ≡ ok s
      → length c.handle_to_symbol < c.handle_counter.max_count
      → (handle : ℕ) × (c' : ServerCircuit) × (handle_command codec header
            (Item.read_write_item r)
            c
          ≡ (ok (some (Item.handle_item (handle_response handle) ∷ [])), c'))
        × (handle < c.handle_counter.max_count)
        × (lookup handle c.handle_to_symbol ≡ none)
        × ((k : ℕ)
            → lookup k c'.handle_to_symbol
              ≡ (if handle == k then some s else lookup k c.handle_to_symbol))
        × (c'.database ≡ c.database)
  unfolding call route index_group
  handle_command-read_write_handle r bytes name s c h g p named found few =
      let (handle, made, in_range, unused) = fresh_handle c few in
      (
        handle,
        with_handle handle s c,
        handle_command_routed codec header (Item.read_write_item r) Constants.read_write
              Dispatch.read_write_handle c h (rw g refl)
            ∙ read_write_handle-answer r s c handle
                (ap (λ payload. symbol_by_payload codec payload c) p
                  ∙ symbol_by_payload-found bytes name s c named found)
                made,
        in_range,
        unused,
        λ k. lookup-insert handle k s c.handle_to_symbol,
        refl,
      )

write_to-plain :
    (s : Symbol) (bytes : Bytes) (c : ServerCircuit) (db : Database) (old : Bytes)
    → symbol_read c.database s ≡ ok old
    → symbol_write c.database s bytes ≡ ok db
    → symbol_read db s ≡ ok bytes
    → write_to s (some bytes) c ≡ (ok (some no_error), record c { database = db })
unfolding write_to write_logged log_written read_symbol write_payload write_symbol
write_to-plain s bytes c db old before written after = ground (arith, before, written, after)

write_value-by_handle :
    (codec : Codec) (r : AdsWriteRequest) (s : Symbol) (c : ServerCircuit)
    → r.index_group ≡ IndexGroup.sym_valbyhnd
    → lookup r.index_offset c.handle_to_symbol ≡ some s
    → write_value codec (Item.write_item r) c ≡ write_to s r.payload c
unfolding write_value symbol_by_handle
write_value-by_handle codec r s c g found = rw (g, found) refl

module _ (codec : Codec) (header header' : AoEHeader) (c : ServerCircuit) (s : Symbol)
    (area : DataArea) (size : ℕ) where
  -- A write by handle of as many bytes as the symbol has, where the symbol is plain and writable,
  -- succeeds. A read by the same handle then answers these bytes, whatever length it asks for.
  pub write_value-read_value :
      (w : AdsWriteRequest) (r : AdsReadRequest) (bytes : Bytes)
      → command_id header ≡ some Constants.write
      → w.index_group ≡ IndexGroup.sym_valbyhnd
      → w.payload ≡ some bytes
      → command_id header' ≡ some Constants.read
      → r.index_group ≡ IndexGroup.sym_valbyhnd
      → r.index_offset ≡ w.index_offset
      → lookup w.index_offset c.handle_to_symbol ≡ some s
      → IsPlain c.database s area size
      → IsWritable s size
      → length bytes ≡ size
      → (c' : ServerCircuit) × (handle_command codec header (Item.write_item w) c
          ≡ (ok (some no_error), c'))
        × (handle_command codec header' (Item.read_item r) c'
            ≡ (ok (some (Item.read_response_item (read_response bytes) ∷ [])), c'))
  unfolding call route index_group
  write_value-read_value w r bytes h g p h' g' same found plain writable len =
      let (db, written, back) =
        symbol_read-symbol_write_self c.database s area size bytes plain writable len in
      let c' = record c { database = db } in
      (
        c',
        handle_command_routed codec header (Item.write_item w) Constants.write Dispatch.write_value
              c h (rw g refl)
            ∙ write_value-by_handle codec w s c g found
            ∙ ap (λ payload. write_to s payload c) p
            ∙ write_to-plain s bytes c db _ (symbol_read-plain c.database s area size plain) written
                back,
        handle_command-read_value codec header' r c' h' g'
            ∙ ap (λ o. (by_handle_answer db o, c'))
                (ap (λ k. lookup k c.handle_to_symbol) same ∙ found)
            ∙ ap (λ x. (read_answer x, c')) back,
      )
