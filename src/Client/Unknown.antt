-- ===== src/Client/Unknown.antt =====
-- The unknown notifications of a client of ads_async/protocol.py, when the response to a request for
-- a notification arrives after the first of its samples.
use ads_async.Prelude.{
  Bool, ◌==◌, ◌&&◌, ℕ, true, false, sym, ap, ◌∙◌, if◌then◌else◌, ◌≡◌, ◌≢◌, refl, arith, some, List,
  [], ◌∷◌, lookup, erase,
}
use ads_async.Prelude.Result.{ok}
use ads_async.Constants
use ads_async.Structs.Header.{AoEHeader, command_id}
use ads_async.Structs.Item.{Item}
use ads_async.Structs.Request.{AdsAddDeviceNotificationRequest}
use ads_async.Structs.Response.{AoENotificationHandleResponse}
use ads_async.Structs.Address.{AmsAddr, addr_fields}
use ads_async.Client.Defs.{
  same_numbers, SourceHandle, same_source_handle, has_source_handle, set_remove, ClientCircuit,
  handle_of, add_notification, client_handler, dispatch, handle_command,
}

same_numbers-eq : (s t : List ℕ) → same_numbers s t ≡ true → s ≡ t
same_numbers-eq [] [] e = refl
same_numbers-eq [] (b ∷ t) e = absurd (cc)
same_numbers-eq (a ∷ s) [] e = absurd (cc)
same_numbers-eq (a ∷ s) (b ∷ t) e = ground (arith, same_numbers-eq s t)

same_numbers_refl : (s : List ℕ) → same_numbers s s ≡ true
same_numbers_refl [] = refl
same_numbers_refl (a ∷ s) = ground (arith, same_numbers_refl s)

same_source_handle_refl : (k : SourceHandle) → same_source_handle k k ≡ true
unfolding same_source_handle
same_source_handle_refl k = ground (arith, same_numbers_refl (addr_fields k.source))

same_source_handle-parts :
    (j k : SourceHandle)
    → same_source_handle j k ≡ true
    → (j.handle ≡ k.handle) × (addr_fields j.source ≡ addr_fields k.source)
unfolding same_source_handle
same_source_handle-parts j k e = (ground (arith, e), same_numbers-eq _ _ (ground (arith, e)))

-- Keys with the same parts are the same as the same keys.
parts-same_source_handle :
    (j k key : SourceHandle)
    → j.handle ≡ k.handle
    → addr_fields j.source ≡ addr_fields k.source
    → same_source_handle j key ≡ same_source_handle k key
unfolding same_source_handle
parts-same_source_handle j k key handles fields =
    ap (λ h. h == key.handle && same_numbers (addr_fields j.source) (addr_fields key.source))
      handles
    ∙ ap (λ fs. k.handle == key.handle && same_numbers fs (addr_fields key.source)) fields

same_source_handle-same :
    (j k key : SourceHandle)
    → same_source_handle j k ≡ true
    → same_source_handle j key ≡ same_source_handle k key
same_source_handle-same j k key e =
    let (handles, fields) = same_source_handle-parts j k e in
    parts-same_source_handle j k key handles fields

same_source_handle-both :
    (j k key : SourceHandle)
    → same_source_handle j key ≡ true
    → same_source_handle k key ≡ true
    → same_source_handle j k ≡ true
same_source_handle-both j k key e f =
    let (handles, fields) = same_source_handle-parts j key e in
    let (handles', fields') = same_source_handle-parts k key f in
    parts-same_source_handle j k k (handles ∙ sym handles') (fields ∙ sym fields')
    ∙ same_source_handle_refl k

-- The removal of a key takes out that key and no other.
has_source_handle-set_remove :
    (key removed : SourceHandle) (ks : List SourceHandle)
    → has_source_handle key (set_remove removed ks)
      ≡ (if same_source_handle removed key then false else has_source_handle key ks)
unfolding has_source_handle set_remove
has_source_handle-set_remove key removed [] = nothing (same_source_handle removed key)
  where
    nothing : (b : Bool) → false ≡ (if b then false else false)
    nothing true = refl
    nothing false = refl
has_source_handle-set_remove key removed (k ∷ ks) =
    step (same_source_handle k removed) (same_source_handle k key) (same_source_handle removed key)
      refl (same_source_handle-same k removed key) (same_source_handle-both k removed key)
      (has_source_handle-set_remove key removed ks)
  where
    step :
        (gone here out : Bool)
        → same_source_handle k key ≡ here
        → (gone ≡ true → here ≡ out)
        → (here ≡ true → out ≡ true → gone ≡ true)
        → has_source_handle key (set_remove removed ks)
          ≡ (if out then false else has_source_handle key ks)
        → has_source_handle key (if gone then set_remove removed ks else k ∷ set_remove removed ks)
          ≡ (if out then false else (if here then true else has_source_handle key ks))
    step true true true tested same both rest = rest
    step true true false tested same both rest = absurd (cc (same refl))
    step true false true tested same both rest = rest
    step true false false tested same both rest = rest
    step false true true tested same both rest = absurd (cc (both refl refl))
    step false true false tested same both rest = rw tested refl
    step false false true tested same both rest = rw tested rest
    step false false false tested same both rest = rw tested rest

other_handle :
    (a b : AmsAddr) (m n : ℕ)
    → m ≢ n
    → same_source_handle (record { source = a; handle = m }) (record { source = b; handle = n })
      ≡ false
unfolding same_source_handle
other_handle a b m n other = ground (arith, other)

-- The response to a request for a notification, where the handle that it brings is not the index offset
-- of the request, is accepted, and takes that index offset out of the unknown handles of its source,
-- and no other key: the handle that it brings stays unknown if it was. The request is
-- forgotten; nothing else changes.
pub handle_command-add_notification :
    {H : Type 0} (header : AoEHeader) (request : AdsAddDeviceNotificationRequest)
    (response : AoENotificationHandleResponse) (c : ClientCircuit H) (key : SourceHandle)
    → command_id header ≡ some Constants.add_device_notification
    → lookup header.invoke_id c.id_to_request ≡ some (Item.add_notification_item request)
    → response.handle ≢ request.index_offset
    → let removed : SourceHandle = record {
      source = header.source;
      handle = request.index_offset;
    } in
      let brought : SourceHandle = record { source = header.source; handle = response.handle } in
      (d : ClientCircuit H) × (handle_command header (Item.notification_handle_item response) c
        ≡ (ok tt, d))
      × (d ≡ record c {
        id_to_request = erase header.invoke_id c.id_to_request;
        unknown_notifications = d.unknown_notifications;
      })
      × (has_source_handle removed d.unknown_notifications ≡ false)
      × (has_source_handle key d.unknown_notifications ≡ (
          if same_source_handle removed key
          then false
          else has_source_handle key c.unknown_notifications))
      × (has_source_handle brought d.unknown_notifications
          ≡ has_source_handle brought c.unknown_notifications)
unfolding handle_command client_handler dispatch add_notification handle_of
handle_command-add_notification header request response c key h pending other =
    let removed : SourceHandle = record { source = header.source; handle = request.index_offset } in
    let brought : SourceHandle = record { source = header.source; handle = response.handle } in
    (
      record c {
        id_to_request = erase header.invoke_id c.id_to_request;
        unknown_notifications = set_remove removed c.unknown_notifications;
      },
      rw (h, pending) refl,
      refl,
      has_source_handle-set_remove removed removed c.unknown_notifications
          ∙ ap (λ b. if b then false else has_source_handle removed c.unknown_notifications)
              (same_source_handle_refl removed),
      has_source_handle-set_remove key removed c.unknown_notifications,
      has_source_handle-set_remove brought removed c.unknown_notifications
          ∙ ap (λ b. if b then false else has_source_handle brought c.unknown_notifications)
              (other_handle header.source header.source request.index_offset response.handle
                (λ e. other (sym e))),
    )
