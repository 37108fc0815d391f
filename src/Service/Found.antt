-- ===== src/Service/Found.antt =====
-- The answers that `get_plc_info` of ads_async/bin/info.py and `add_route_to_plc` of
-- ads_async/bin/route.py find among the packets that arrive.
use ads_async.Prelude.{
  ℕ, ◌<◌, ◌≤◌, ◌≡◌, ◌≢◌, ◌⊎◌, inl, inr, refl, ap, ◌∙◌, true, Option, none, some, List, [], ◌∷◌,
  ◌++◌, All, length, ==_refl, Bool-cases,
}
use ads_async.Prelude.Result.{bad_response, Result, ok, err, ◌>>=◌}
use ads_async.Bytes.{Bytes}
use ads_async.Structs.Address.{AmsNetId}
use ads_async.Structs.NetId.{from_string, repr}
use ads_async.Structs.NetId.RoundTrip.{IsNetId}
use ads_async.Structs.Text.{IsAscii, Text, until_null}
use ads_async.Service.Defs.{
  SystemServiceRequestCommand, get_info_command, add_route_command, command_value, ResponseInfo,
  deserialize_response, add_route_to_plc, info_result, system_service_port,
}
use ads_async.Service.Replies.{request_bytes}
use ads_async.Service.Info.{get_info-request_bytes, info_reply, deserialize_response-info_reply}
use ads_async.Service.Search.{
  Arrival, timed_out, arrives, Yielded, same_request, default_net_id, handle_packet, search,
  first_of, get_plc_info, add_route,
}

same_request-eq : (c d : SystemServiceRequestCommand) → same_request c d ≡ true → c ≡ d
unfolding same_request command_value
same_request-eq get_info_command get_info_command e = refl
same_request-eq get_info_command add_route_command e = absurd (cc)
same_request-eq add_route_command get_info_command e = absurd (cc)
same_request-eq add_route_command add_route_command e = refl

same_request_self : (c : SystemServiceRequestCommand) → same_request c c ≡ true
unfolding same_request
same_request_self c = ==_refl (command_value c)

abbrev ones : AmsNetId
ones = record { octet1 = 1; octet2 = 1; octet3 = 1; octet4 = 1; octet5 = 1; octet6 = 1 }

ones_read : from_string default_net_id ≡ ok ones
unfolding from_string
ones_read = refl

module _ {A : Type 0} where
  -- A packet that is passed over: a bad response, or a response to another command.
  abbrev pub IsPassed : SystemServiceRequestCommand → Arrival A → Type 0
  IsPassed command timed_out = ⊥
  IsPassed command (arrives packet addr) =
      (deserialize_response packet addr ≡ err bad_response)
      ⊎ ((info : ResponseInfo A) × (deserialize_response packet addr ≡ ok info)
          × (info.command_id ≢ command))

  abbrev pub IsAnswerTo : SystemServiceRequestCommand → ResponseInfo A → Type 0
  IsAnswerTo command info = info.command_id ≡ command

  search-passed :
      (command : SystemServiceRequestCommand) (before later : List (Arrival A))
      → All (IsPassed command) before
      → search command (before ++ later) ≡ search command later
  unfolding search
  search-passed command [] later passed = refl
  search-passed command (timed_out ∷ before) later passed = absurd (passed.0)
  search-passed command (arrives packet addr ∷ before) later (inl bad, passed) =
      rw (bad) (search-passed command before later passed)
  search-passed command (arrives packet addr ∷ before) later (inr (info, read, other), passed) =
      elim (Bool-cases (same_request info.command_id command)) [
        | inl same ↦ absurd (other (same_request-eq info.command_id command same))
        | inr differs ↦ rw (read, differs) (search-passed command before later passed)
      ]

  search-found :
      (command : SystemServiceRequestCommand) (packet : Bytes) (addr : A) (info : ResponseInfo A)
      (later : List (Arrival A))
      → deserialize_response packet addr ≡ ok info
      → info.command_id ≡ command
      → first_of (search command (arrives packet addr ∷ later)) ≡ ok (some info)
  unfolding search first_of
  search-found command packet addr info later read same =
      rw (read, same, same_request_self command) refl

  handle_packet-IsAnswerTo :
      (command : SystemServiceRequestCommand) (r : Result (ResponseInfo A)) (rest : Yielded A)
      → All (IsAnswerTo command) rest.yields
      → All (IsAnswerTo command) (handle_packet command r rest).yields
  handle_packet-IsAnswerTo command (err bad_response) rest all = all
  handle_packet-IsAnswerTo command (err e) rest all = tt
  handle_packet-IsAnswerTo command (ok info) rest all =
      elim (Bool-cases (same_request info.command_id command)) [
        | inl same ↦ rw same (same_request-eq info.command_id command same, all)
        | inr differs ↦ rw differs all
      ]

  search-IsAnswerTo :
      (command : SystemServiceRequestCommand) (arrivals : List (Arrival A))
      → All (IsAnswerTo command) (search command arrivals).yields
  unfolding search
  search-IsAnswerTo command [] = tt
  search-IsAnswerTo command (timed_out ∷ later) = tt
  search-IsAnswerTo command (arrives packet addr ∷ later) =
      handle_packet-IsAnswerTo command (deserialize_response packet addr) (search command later)
        (search-IsAnswerTo command later)

  get_plc_info-search :
      (arrivals : List (Arrival A))
      → get_plc_info arrivals
        ≡ ok (
          request_bytes get_info_command ones system_service_port ++ (0 ∷ 0 ∷ 0 ∷ 0 ∷ []),
          search get_info_command arrivals,
        )
  unfolding get_plc_info
  get_plc_info-search arrivals =
      ap (λ r. r >>= (λ packet. ok (packet, search get_info_command arrivals)))
        (get_info-request_bytes default_net_id ones ones_read)

  -- `get_plc_info` finds the PLC: whatever bad responses and responses to other commands come before
  -- it, and whatever comes after, the first result is that of the response of the PLC, with its net id,
  -- its port and its name. Nothing but responses to the command is ever yielded.
  pub get_plc_info_found :
      (before later : List (Arrival A)) (addr : A) (x : ℕ) (a : AmsNetId) (port response_id : ℕ)
      (four : Bytes) (name : Text) (rest : Bytes)
      → All (IsPassed get_info_command) before
      → IsNetId a
      → port ≤ 65535
      → response_id ≤ 65535
      → length four ≡ 4
      → IsAscii name
      → length (until_null name) < 65535
      → (packet : Bytes) × (more : Yielded A) × (get_plc_info
            (before ++ (arrives (info_reply x a port response_id four name rest) addr ∷ later))
          ≡ ok (packet, more))
        × (first_of more
            ≡ ok (
                some (record {
                  command_id = get_info_command;
                  source_net_id = repr a;
                  source_ams_port = port;
                  source_addr = addr;
                  unknown_response_id = response_id;
                  result = info_result (until_null name);
                })))
        × All (IsAnswerTo get_info_command) more.yields
  get_plc_info_found before later addr x a port response_id four name rest passed ha hp hr hf ascii
        short =
      let reply = info_reply x a port response_id four name rest in
      (
        _,
        search get_info_command (before ++ (arrives reply addr ∷ later)),
        get_plc_info-search (before ++ (arrives reply addr ∷ later)),
        ap first_of (search-passed get_info_command before (arrives reply addr ∷ later) passed)
            ∙ search-found get_info_command reply addr _ later
                (deserialize_response-info_reply addr x a port response_id four name rest ha hp hr
                  hf ascii short)
                refl,
        search-IsAnswerTo get_info_command (before ++ (arrives reply addr ∷ later)),
      )

  -- `add_route` returns the first response to it, whatever is passed over before, and it returns
  -- nothing where only such packets come before a time-out: a route that the PLC refuses, with a status
  -- that is a bad response, is not told from one that it does not answer.
  add_route-search :
      (source_net_id source_name username password : Text) (route_name net_id_to_add : Option Text)
      (sent : Bytes) (before later : List (Arrival A)) (packet : Bytes) (addr : A)
      (info : ResponseInfo A)
      → add_route_to_plc source_net_id source_name username password route_name net_id_to_add
        ≡ ok sent
      → All (IsPassed add_route_command) before
      → deserialize_response packet addr ≡ ok info
      → info.command_id ≡ add_route_command
      → let ask = add_route source_net_id source_name username password route_name net_id_to_add in
        (ask (before ++ (arrives packet addr ∷ later)) ≡ ok (sent, ok (some info)))
        × (ask (before ++ (timed_out ∷ later)) ≡ ok (sent, ok none))
  unfolding add_route search first_of
  add_route-search source_net_id source_name username password route_name net_id_to_add sent before
        later packet addr info made passed read same =
      (
        rw (add_route, made)
            (ap (λ y. ok (sent, first_of y))
                (search-passed add_route_command before (arrives packet addr ∷ later) passed)
              ∙ ap (λ r. ok (sent, r))
                  (search-found add_route_command packet addr info later read same)),
        rw (add_route, made)
            (ap (λ y. ok (sent, first_of y))
              (search-passed add_route_command before (timed_out ∷ later) passed)),
      )
