-- ===== src/Service/Routes.antt =====
-- The packet that adds a route, of ads_async/service.py.
use ads_async.Prelude.{◌+◌, ◌<◌, ◌≡◌, refl, Option, [], ◌∷◌, ◌++◌, length, drop, arith}
use ads_async.Prelude.Result.{ok}
use ads_async.Bytes.{Bytes, to_le, pack}
use ads_async.Structs.Address.{AmsNetId, serialize_net_id}
use ads_async.Structs.NetId.{from_string}
use ads_async.Structs.Text.{Text, IsAscii, until_null}
use ads_async.Service.Defs.{
  add_route_command, system_service_port, add_route_to_plc, or_default, deserialize_string,
}
use ads_async.Service.Strings.{
  serialize_string_lem, deserialize_string-serialized, until_null-IsAscii,
}
use ads_async.Service.Replies.{request_bytes, create_request_header-request_bytes}

-- A text that the packet can carry.
abbrev pub IsSendable : Text → Type 0
IsSendable t = IsAscii t × (length (until_null t) < 65535)

abbrev pub sent_string : Text → Bytes
sent_string t = to_le 2 (length (until_null t) + 1) ++ (until_null t ++ (0 ∷ []))

-- The packet, of the net id of the source, that which is added, and the four texts.
abbrev pub route_packet : AmsNetId → AmsNetId → Text → Text → Text → Text → Bytes
route_packet a b host user password route =
    request_bytes add_route_command a system_service_port
    ++ (5
        ∷ 0
        ∷ 0
        ∷ 0
        ∷ 12
        ∷ 0
        ∷ (sent_string host
            ++ (7
                ∷ 0
                ∷ (to_le 2 6
                    ++ (serialize_net_id b
                        ++ (13
                            ∷ 0
                            ∷ (sent_string user
                                ++ (2
                                    ∷ 0
                                    ∷ (sent_string password ++ (5 ∷ 0 ∷ sent_string route))))))))))

-- A packet to add a route can be made of texts that can be sent and of net ids that can be read; the
-- net id of the source and the name of the host stand in for what is not given. The name of the host is
-- read back at byte 26, up to its first NUL.
pub add_route_to_plc_lem :
    (source host user password : Text) (route added : Option Text) (a b : AmsNetId)
    → from_string source ≡ ok a
    → from_string (or_default added source) ≡ ok b
    → IsSendable host
    → IsSendable user
    → IsSendable password
    → IsSendable (or_default route host)
    → let packet = route_packet a b host user password (or_default route host) in
      (add_route_to_plc source host user password route added ≡ ok packet)
      × (deserialize_string (drop 26 packet) ≡ ok (until_null host))
unfolding add_route_to_plc
add_route_to_plc_lem source host user password route added a b ha hb hh hu hp hr = (
  rw
      (
        add_route_to_plc,
        create_request_header-request_bytes source a add_route_command system_service_port ha
            (omega arith),
        serialize_string_lem host hh.0 hh.1,
        hb,
        serialize_string_lem user hu.0 hu.1,
        serialize_string_lem password hp.0 hp.1,
        serialize_string_lem (or_default route host) hr.0 hr.1,
      )
      refl,
  unfold serialize_net_id to_le pack in
      deserialize_string-serialized (until_null host) _ (until_null-IsAscii host hh.0) hh.1,
)
