-- ===== src/Server/Handles.antt =====
-- The handles of symbols in ads_async/protocol.py: made, used and released.
use ads_async.Prelude.{
  ℕ, Bool-cases, ◌≡◌, refl, sym, ap, ◌∙◌, arith, ◌==◌, if◌then◌else◌, none, some, [], ◌∷◌, lookup,
  erase, lookup-erase, inl, inr, Option,
}
use ads_async.Prelude.Result.{Result, ok, err, request_failed}
use ads_async.Bytes.{Bytes}
use ads_async.Constants
use ads_async.Constants.AdsError
use ads_async.Constants.IndexGroup
use ads_async.Structs.Item.{Item}
use ads_async.Structs.Header.{AoEHeader, command_id}
use ads_async.Structs.Request.{AdsReadRequest, AdsWriteRequest}
use ads_async.Structs.Response.{read_response}
use ads_async.Structs.Text.{Codec}
use ads_async.Symbols.{Symbol, Database, symbol_read}
use ads_async.Server.State.{ServerCircuit}
use ads_async.Server.Dispatch
use ads_async.Server.Dispatch.{index_group}
use ads_async.Server.Routing.{route}
use ads_async.Server.Access.{Handled, no_error, symbol_by_handle, read_symbol}
use ads_async.Server.Handlers.{read_value, write_release_handle}
use ads_async.Server.Command.{call, handle_command}
use ads_async.Server.Called.{handle_command_routed}

-- `[AoEReadResponse(data=symbol.read())]`
abbrev pub read_answer : Result Bytes → Result Handled
read_answer (ok bytes) = ok (some (Item.read_response_item (read_response bytes) ∷ []))
read_answer (err e) = err e

abbrev pub by_handle_answer : Database → Option Symbol → Result Handled
by_handle_answer db none = err (request_failed AdsError.client_invalidparm)
by_handle_answer db (some s) = read_answer (symbol_read db s)

module _ (codec : Codec) (header : AoEHeader) where
  read_value-answer :
      (r : AdsReadRequest) (c : ServerCircuit)
      → r.index_group ≡ IndexGroup.sym_valbyhnd
      → read_value (Item.read_item r) c
        ≡ (by_handle_answer c.database (lookup r.index_offset c.handle_to_symbol), c)
  unfolding read_value symbol_by_handle read_symbol
  read_value-answer r c g = ground arith

  -- A read of a value by handle answers the bytes of the symbol of that handle, or with its
  -- exception; without such a handle it fails with an invalid parameter. It changes nothing.
  pub handle_command-read_value :
      (r : AdsReadRequest) (c : ServerCircuit)
      → command_id header ≡ some Constants.read
      → r.index_group ≡ IndexGroup.sym_valbyhnd
      → handle_command codec header (Item.read_item r) c
        ≡ (by_handle_answer c.database (lookup r.index_offset c.handle_to_symbol), c)
  unfolding call route index_group
  handle_command-read_value r c h g =
      handle_command_routed codec header (Item.read_item r) Constants.read Dispatch.read_value c h
        (rw g refl)
      ∙ read_value-answer r c g

write_release_handle-answer :
    (r : AdsWriteRequest) (c : ServerCircuit)
    → write_release_handle (Item.write_item r) c ≡ (
      ok (some no_error),
      record c { handle_to_symbol = erase r.index_offset c.handle_to_symbol },
    )
unfolding write_release_handle
write_release_handle-answer r c = refl

-- By the laws of the dictionary, an erased handle answers as a missing one.
by_handle_answer-erase :
    (c : ServerCircuit) (k j : ℕ)
    → by_handle_answer c.database (lookup j (erase k c.handle_to_symbol)) ≡ (
        if k == j
        then err (request_failed AdsError.client_invalidparm)
        else by_handle_answer c.database (lookup j c.handle_to_symbol))
by_handle_answer-erase c k j = elim (Bool-cases (k == j)) [
  | inl e ↦ rw (lookup-erase k j c.handle_to_symbol, e) refl
  | inr e ↦ rw (lookup-erase k j c.handle_to_symbol, e) refl
]

module _ (codec : Codec) (header header' : AoEHeader) where
  -- The release of a handle succeeds, also where there is no such handle. After it a read by that
  -- handle fails with an invalid parameter, and a read by any other handle answers as before.
  pub release-read :
      (r : AdsWriteRequest) (again : AdsReadRequest) (c : ServerCircuit)
      → command_id header ≡ some Constants.write
      → r.index_group ≡ IndexGroup.sym_releasehnd
      → command_id header' ≡ some Constants.read
      → again.index_group ≡ IndexGroup.sym_valbyhnd
      → (c' : ServerCircuit) × (handle_command codec header (Item.write_item r) c
          ≡ (ok (some no_error), c'))
        × ((handle_command codec header' (Item.read_item again) c').0 ≡ (
            if r.index_offset == again.index_offset
            then err (request_failed AdsError.client_invalidparm)
            else (handle_command codec header' (Item.read_item again) c).0))
  unfolding call route index_group
  release-read r again c h g h' g' =
      let c' = record c { handle_to_symbol = erase r.index_offset c.handle_to_symbol } in
      (
        c',
        handle_command_routed codec header (Item.write_item r) Constants.write
              Dispatch.write_release_handle c h (rw g refl)
            ∙ write_release_handle-answer r c,
        ap (λ x. x.0) (handle_command-read_value codec header' again c' h' g')
            ∙ by_handle_answer-erase c r.index_offset again.index_offset
            ∙ ap
                (λ (x : Result Handled).
                  if r.index_offset == again.index_offset
                  then err (request_failed AdsError.client_invalidparm)
                  else x)
                (ap (λ x. x.0) (sym (handle_command-read_value codec header' again c h' g'))),
      )
