-- ===== src/Server/Subscriptions.antt =====
-- The notifications of a server's circuit in ads_async/protocol.py: added and deleted.
use ads_async.Prelude.{
  ℕ, ◌<◌, ◌≡◌, refl, ◌∙◌, arith, ◌==◌, if◌then◌else◌, none, some, Option, [], ◌∷◌, length, lookup,
  insert, erase, contains, lookup-insert, lookup-erase,
}
use ads_async.Prelude.Result.{ok, err, key_error}
use ads_async.Constants
use ads_async.Constants.AdsError
use ads_async.Constants.IndexGroup
use ads_async.Counter.{next}
use ads_async.Structs.Item.{Item}
use ads_async.Structs.Header.{AoEHeader, command_id}
use ads_async.Structs.Request.{AdsAddDeviceNotificationRequest, AdsDeleteDeviceNotificationRequest}
use ads_async.Structs.Text.{Codec}
use ads_async.Symbols.{Symbol}
use ads_async.Server.State.{ServerCircuit, Notification, next_handle}
use ads_async.Server.Dispatch
use ads_async.Server.Dispatch.{index_group}
use ads_async.Server.Routing.{route}
use ads_async.Server.Access.{symbol_by_handle, no_error}
use ads_async.Server.Handlers.{add_notification, delete_notification}
use ads_async.Server.Command.{call, handle_command}
use ads_async.Server.Fresh.{fresh_handle}
use ads_async.Server.Called.{handle_command_routed}

-- The circuit after a notification is added.
abbrev with_notification : ℕ → Symbol → ServerCircuit → ServerCircuit
with_notification handle s c = record c {
  handle_counter = record c.handle_counter { value = handle };
  handle_to_notification =
      insert handle (record { handle = handle; symbol = s }) c.handle_to_notification;
}

abbrev without_notification : ℕ → ServerCircuit → ServerCircuit
without_notification handle c = record c {
  handle_to_notification = erase handle c.handle_to_notification;
}

add_notification-answer :
    (r : AdsAddDeviceNotificationRequest) (s : Symbol) (c : ServerCircuit) (handle : ℕ)
    → r.index_group ≡ IndexGroup.sym_valbyhnd
    → lookup r.index_offset c.handle_to_symbol ≡ some s
    → next (λ h. contains h c.handle_to_symbol) c.handle_counter
      ≡ some (record c.handle_counter { value = handle })
    → add_notification (Item.add_notification_item r) c ≡ (
      ok (
          some (
            Item.notification_handle_item (record { result = AdsError.noerr; handle = handle })
            ∷ [])),
      with_notification handle s c,
    )
unfolding add_notification symbol_by_handle next_handle
add_notification-answer r s c handle g found made = ground (arith, g, found, made)

delete_notification-answer :
    (r : AdsDeleteDeviceNotificationRequest) (o : Option Notification) (c : ServerCircuit)
    → lookup r.handle c.handle_to_notification ≡ o
    → delete_notification (Item.delete_notification_item r) c ≡ (elim o [
      | none ↦ (err key_error, c)
      | some _ ↦ (ok (some no_error), without_notification r.handle c)
    ])
unfolding delete_notification
delete_notification-answer r none c e = rw (delete_notification, e) refl
delete_notification-answer r (some n) c e = rw (delete_notification, e) refl

module _ (codec : Codec) (header header' : AoEHeader) where
  deleted :
      (r : AdsDeleteDeviceNotificationRequest) (o : Option Notification) (c : ServerCircuit)
      → command_id header' ≡ some Constants.del_device_notification
      → lookup r.handle c.handle_to_notification ≡ o
      → handle_command codec header' (Item.delete_notification_item r) c ≡ (elim o [
        | none ↦ (err key_error, c)
        | some _ ↦ (ok (some no_error), without_notification r.handle c)
      ])
  unfolding call route
  deleted r o c h e =
      handle_command_routed codec header' (Item.delete_notification_item r)
        Constants.del_device_notification Dispatch.delete_notification c h refl
      ∙ delete_notification-answer r o c e

  -- A notification by the handle of a symbol is added while fewer handles of symbols are in
  -- use than the limit of the counter, under a handle below the limit that is not the handle of a symbol. It can be
  -- deleted once: a delete of its handle succeeds and leaves no notification under it, and one after
  -- that raises.
  pub add-delete_notification :
      (r : AdsAddDeviceNotificationRequest) (s : Symbol) (c : ServerCircuit)
      → command_id header ≡ some Constants.add_device_notification
      → command_id header' ≡ some Constants.del_device_notification
      → r.index_group ≡ IndexGroup.sym_valbyhnd
      → lookup r.index_offset c.handle_to_symbol ≡ some s
      → length c.handle_to_symbol < c.handle_counter.max_count
      → (handle : ℕ) × (d d' : ServerCircuit) × (handle_command codec header
            (Item.add_notification_item r)
            c
          ≡ (
            ok (
                some (
                  Item.notification_handle_item
                    (record { result = AdsError.noerr; handle = handle })
                  ∷ [])),
            d,
          ))
        × (handle < c.handle_counter.max_count)
        × (lookup handle c.handle_to_symbol ≡ none)
        × (handle_command codec header'
              (Item.delete_notification_item (record { handle = handle }))
              d
            ≡ (ok (some no_error), d'))
        × (handle_command codec header'
              (Item.delete_notification_item (record { handle = handle }))
              d'
            ≡ (err key_error, d'))
  unfolding call route index_group
  add-delete_notification r s c h h' g found few =
      let (handle, made, in_range, unused) = fresh_handle c few in
      let d = with_notification handle s c in
      let d' = without_notification handle d in
      let del : AdsDeleteDeviceNotificationRequest = record { handle = handle } in
      (
        handle,
        d,
        d',
        handle_command_routed codec header (Item.add_notification_item r)
              Constants.add_device_notification Dispatch.add_notification c h refl
            ∙ add_notification-answer r s c handle g found made,
        in_range,
        unused,
        deleted del (some (record { handle = handle; symbol = s })) d h' (
            lookup-insert handle handle (record { handle = handle; symbol = s })
              c.handle_to_notification
            ∙ same handle _ _),
        deleted del none d' h'
            (lookup-erase handle handle d.handle_to_notification ∙ same handle _ _),
      )
    where
      same : (n : ℕ) (a b : Option Notification) → (if n == n then a else b) ≡ a
      same n a b = ground arith
