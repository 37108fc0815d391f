-- ===== src/Service/Search.antt =====
-- The loop of ads_async/bin/utils.py that waits for the answers of a PLC, and its callers in
-- ads_async/bin/info.py and ads_async/bin/route.py.
use ads_async.Prelude.{◌==◌, Bool, Option, none, some, List, [], ◌∷◌, if◌then◌else◌}
use ads_async.Prelude.Result.{Exception, bad_response, diverges, Result, ok, err, ◌>>=◌}
use ads_async.Bytes.{Bytes}
use ads_async.Structs.Text.{Text}
use ads_async.Service.Defs.{
  SystemServiceRequestCommand, get_info_command, add_route_command, command_value, ResponseInfo,
  deserialize_response, get_info, add_route_to_plc,
}

-- What `_send_and_receive_udp` yields: a packet with its address, or `TimeoutError()`.
pub data Arrival (A : Type 0) : Type 0 where
  timed_out : Arrival A
  arrives : Bytes → A → Arrival A

-- How the search ends: by `break` at a time-out, by an exception, or not yet.
pub data SearchEnd : Type 0 where
  gave_up waiting : SearchEnd
  failed : Exception → SearchEnd

pub record Yielded (A : Type 0) : Type 0 where
  pub yields : List (ResponseInfo A)
  pub end : SearchEnd

unfoldable pub same_request : SystemServiceRequestCommand → SystemServiceRequestCommand → Bool
unfolding command_value
same_request c d = command_value c == command_value d

-- The default of `source_net_id` of `get_info`.
abbrev pub default_net_id : Text
default_net_id = b'1' ∷ b'.' ∷ b'1' ∷ b'.' ∷ b'1' ∷ b'.' ∷ b'1' ∷ b'.' ∷ b'1' ∷ b'.' ∷ b'1' ∷ []

module _ {A : Type 0} where
  -- `yield result` where the response is one to the command. Only a `BadResponse` is caught.
  abbrev pub handle_packet :
      SystemServiceRequestCommand → Result (ResponseInfo A) → Yielded A → Yielded A
  handle_packet command (ok info) rest =
      if same_request info.command_id command
      then record { yields = info ∷ rest.yields; end = rest.end }
      else rest
  handle_packet command (err bad_response) rest = rest
  handle_packet command (err e) rest = record { yields = []; end = failed e }

  -- `send_and_receive_service_udp`
  unfoldable pub search : SystemServiceRequestCommand → List (Arrival A) → Yielded A
  unfolding deserialize_response same_request
  search command [] = record { yields = []; end = waiting }
  search command (timed_out ∷ later) = record { yields = []; end = gave_up }
  search command (arrives packet addr ∷ later) =
      handle_packet command (deserialize_response packet addr) (search command later)

  -- `for result in …: return result`; the generator is left at its first `yield`.
  unfoldable pub first_of : Yielded A → Result (Option (ResponseInfo A))
  first_of y = elim y.yields [
    | [] ↦ elim y.end [ gave_up ↦ ok none | waiting ↦ err diverges | failed e ↦ err e ]
    | info ∷ _ ↦ ok (some info)
  ]

  -- `get_plc_info`: the packet that is sent, and what is yielded.
  unfoldable pub get_plc_info : List (Arrival A) → Result (Bytes × Yielded A)
  unfolding get_info search
  get_plc_info arrivals = do
    packet ← get_info default_net_id
    ok (packet, search get_info_command arrivals)

  -- `add_route_to_plc` of the command-line tool.
  unfoldable pub add_route :
      (source_net_id source_name username password : Text)
      → (route_name net_id_to_add : Option Text) → List (Arrival A)
      → Result (Bytes × Result (Option (ResponseInfo A)))
  unfolding add_route_to_plc search first_of
  add_route source_net_id source_name username password route_name net_id_to_add arrivals = do
    packet ← add_route_to_plc source_net_id source_name username password route_name net_id_to_add
    ok (packet, first_of (search add_route_command arrivals))
