-- ===== src/Server/Areas.antt =====
-- Reads by index group and offset in ads_async/protocol.py.
use ads_async.Prelude.{◌≡◌, ◌≢◌, refl, ap, ◌∙◌, ne→==, if◌then◌else◌, Option, none, some, [], ◌∷◌}
use ads_async.Prelude.Result.{Result, ok, err, request_failed}
use ads_async.Constants
use ads_async.Constants.AdsError
use ads_async.Constants.IndexGroup
use ads_async.Structs.Item.{Item}
use ads_async.Structs.Header.{AoEHeader, command_id}
use ads_async.Structs.Request.{AdsReadRequest}
use ads_async.Structs.Response.{read_response}
use ads_async.Structs.Text.{Codec}
use ads_async.Symbols.{DataArea, area_by_group}
use ads_async.Symbols.Memory.{mem_read}
use ads_async.Server.State.{ServerCircuit}
use ads_async.Server.Dispatch
use ads_async.Server.Dispatch.{index_group}
use ads_async.Server.Routing.{route}
use ads_async.Server.Access.{Handled}
use ads_async.Server.Handlers.{read_area, read_catchall}
use ads_async.Server.Command.{call, handle_command}
use ads_async.Server.Called.{handle_command_routed}

-- What a read of an area answers: the bytes from the offset on, as many as are asked for and there.
abbrev pub area_answer : AdsReadRequest → Option DataArea → Result Handled
area_answer r none = err (request_failed AdsError.device_invalidaccess)
area_answer r (some a) = ok (
    some (Item.read_response_item (read_response (mem_read r.index_offset r.length a.memory)) ∷ []))

read_catchall-answer :
    (r : AdsReadRequest) (o : Option DataArea) (c : ServerCircuit)
    → area_by_group c.database r.index_group ≡ o
    → read_catchall (Item.read_item r) c ≡ (area_answer r o, c)
unfolding read_catchall read_area
read_catchall-answer r none c e = rw (read_catchall, e) refl
read_catchall-answer r (some a) c e = rw (read_catchall, e) refl

-- A read of any index group but that of values by handle (reads by name among them) answers bytes of
-- the area that is found under its group, and fails with an invalid access where there is none. It
-- changes nothing.
pub handle_command-read_area :
    (codec : Codec) (header : AoEHeader) (r : AdsReadRequest) (c : ServerCircuit)
    → command_id header ≡ some Constants.read
    → r.index_group ≢ IndexGroup.sym_valbyhnd
    → handle_command codec header (Item.read_item r) c
      ≡ (area_answer r (area_by_group c.database r.index_group), c)
unfolding call route index_group
handle_command-read_area codec header r c h other =
    handle_command_routed codec header (Item.read_item r) Constants.read Dispatch.read_catchall c h
      (ap (λ by_handle. ok (if by_handle then Dispatch.read_value else Dispatch.read_catchall))
        (ne→== r.index_group IndexGroup.sym_valbyhnd other))
    ∙ read_catchall-answer r (area_by_group c.database r.index_group) c refl
