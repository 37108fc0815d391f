-- ===== src/Server/Routing.antt =====
-- Which handler of ads_async/protocol.py a request goes to.
use ads_async.Prelude.{ℕ, ◌≡◌, refl, arith, Option, none, some, ◌==◌, if◌then◌else◌}
use ads_async.Prelude.Result.{Result, ok, err, missing_handler}
use ads_async.Constants.{
  AdsCommandId, invalid, read_device_info, read, write, read_state, write_control,
  add_device_notification, del_device_notification, device_notification, read_write,
}
use ads_async.Constants.IndexGroup
use ads_async.Server.Dispatch
use ads_async.Server.Dispatch.{Handler, handler_for}

-- The routes, without decorators or tables.
abbrev pub route_read : ℕ → Handler
route_read g = if g == IndexGroup.sym_valbyhnd then Dispatch.read_value else Dispatch.read_catchall

abbrev route_write : ℕ → Result Handler
route_write g =
    if g == IndexGroup.sym_valbyhnd
    then ok Dispatch.write_value
    else if g == IndexGroup.sym_releasehnd
    then ok Dispatch.write_release_handle
    else err missing_handler

abbrev route_read_write : ℕ → Handler
route_read_write g =
    if g == IndexGroup.sym_hndbyname
    then Dispatch.read_write_handle
    else if g == IndexGroup.sym_infobynameex
    then Dispatch.read_write_info
    else if g == IndexGroup.sumup_read
    then Dispatch.read_write_sumup_read
    else Dispatch.read_write_catchall

abbrev route_group : (Result Handler) → (ℕ → Result Handler) → Option ℕ → Result Handler
route_group alone by_group none = alone
route_group alone by_group (some g) = by_group g

unfoldable pub route : AdsCommandId → Option ℕ → Result Handler
route invalid _ = err missing_handler
route read_device_info _ = ok Dispatch.read_device_info_handler
route read g = route_group (ok Dispatch.read_catchall) (λ n. ok (route_read n)) g
route write g = route_group (err missing_handler) route_write g
route read_state _ = ok Dispatch.read_state_handler
route write_control _ = ok Dispatch.write_control_handler
route add_device_notification _ = ok Dispatch.add_notification
route del_device_notification _ = ok Dispatch.delete_notification
route device_notification _ = err missing_handler
route read_write g = route_group (ok Dispatch.read_write_catchall) (λ n. ok (route_read_write n)) g

-- `get_handler` routes every command and index group as the table says: the decorators for access
-- by name have no effect.
pub handler_for-route :
    (command : AdsCommandId) (group : Option ℕ) → handler_for command group ≡ route command group
unfolding handler_for route
handler_for-route invalid none = refl
handler_for-route invalid (some g) = ground arith
handler_for-route read_device_info none = refl
handler_for-route read_device_info (some g) = ground arith
handler_for-route read none = refl
handler_for-route read (some g) = ground arith
handler_for-route write none = refl
handler_for-route write (some g) = ground arith
handler_for-route read_state none = refl
handler_for-route read_state (some g) = ground arith
handler_for-route write_control none = refl
handler_for-route write_control (some g) = ground arith
handler_for-route add_device_notification none = refl
handler_for-route add_device_notification (some g) = ground arith
handler_for-route del_device_notification none = refl
handler_for-route del_device_notification (some g) = ground arith
handler_for-route device_notification none = refl
handler_for-route device_notification (some g) = ground arith
handler_for-route read_write none = refl
handler_for-route read_write (some g) = ground arith
