-- ===== src/Service/Replies.antt =====
-- What ads_async/service.py reads from the answers of a PLC.
use mathlib.Core.List.{append-nil}
use ads_async.Prelude.{
  ℕ, ◌≤◌, ◌≡◌, refl, sym, ap, ◌∙◌, [], ◌∷◌, ◌++◌, length, set, true, false, arith, leb, le→leb, ltb,
  le→ltb,
}
use ads_async.Prelude.Result.{ok}
use ads_async.Bytes.{Bytes, to_le, pack, unpack, unpack-pack}
use ads_async.Structs.Address.{AmsNetId, serialize_net_id, net_id_layout, net_id_fields, net_id_of}
use ads_async.Structs.NetId.{from_string, repr}
use ads_async.Structs.NetId.RoundTrip.{IsNetId, from_string-IsNetId}
use ads_async.Structs.Text.{Text}
use ads_async.Service.Defs.{
  pack_h, SystemServiceRequestCommand, get_info_command, add_route_command, command_value,
  to_command, magic, create_request_header, deserialize_header,
}
use ads_async.Service.Strings.{unpack_h-to_le}

abbrev pub header_bytes : SystemServiceRequestCommand → ℕ → ℕ → AmsNetId → ℕ → Bytes → Bytes
header_bytes command x y a port rest =
    magic
    ++ (to_le 2 (command_value command) ++ (x ∷ y ∷ (serialize_net_id a ++ (to_le 2 port ++ rest))))

command_value-le : (command : SystemServiceRequestCommand) → command_value command ≤ 65535
unfolding command_value
command_value-le get_info_command = omega arith
command_value-le add_route_command = omega arith

to_command-command_value :
    (command : SystemServiceRequestCommand) → to_command (command_value command) ≡ ok command
unfolding to_command command_value
to_command-command_value get_info_command = refl
to_command-command_value add_route_command = refl

net_id_of-serialize_net_id :
    (a : AmsNetId) → IsNetId a → net_id_of (unpack net_id_layout (serialize_net_id a)) ≡ a
unfolding serialize_net_id
net_id_of-serialize_net_id a (h1, h2, h3, h4, h5, h6) =
    ap (λ bs. net_id_of (unpack net_id_layout bs)) (sym (append-nil (serialize_net_id a)))
    ∙ ap net_id_of
        (unpack-pack net_id_layout (net_id_fields a) [] (h1, (h2, (h3, (h4, (h5, (h6, tt)))))))

abbrev pub request_bytes : SystemServiceRequestCommand → AmsNetId → ℕ → Bytes
request_bytes command a port =
    magic ++ (to_le 2 (command_value command) ++ (0 ∷ 0 ∷ (serialize_net_id a ++ to_le 2 port)))

pub create_request_header-request_bytes :
    (t : Text) (a : AmsNetId) (command : SystemServiceRequestCommand) (port : ℕ)
    → from_string t ≡ ok a
    → port ≤ 65535
    → create_request_header t command port ≡ ok (request_bytes command a port)
unfolding create_request_header
create_request_header-request_bytes t a command port parsed hp =
    let fits : leb port 65535 ≡ true = le→leb _ _ hp in
    let known : leb (command_value command) 65535 ≡ true = le→leb _ _ (command_value-le command) in
    rw (create_request_header, pack_h, known, parsed, fits) refl

module _ {A : Type 0} (addr : A) where
  pub deserialize_header-header_bytes :
      (command : SystemServiceRequestCommand) (x : ℕ) (a : AmsNetId) (port response_id : ℕ)
      (payload : Bytes)
      → IsNetId a
      → port ≤ 65535
      → response_id ≤ 65535
      → deserialize_header
          (header_bytes command x 0x80 a port (to_le 2 response_id ++ payload))
          addr
        ≡ ok (record {
          command_id = command;
          source_net_id = repr a;
          source_ams_port = port;
          source_addr = addr;
          payload = payload;
          unknown_response_id = response_id;
        })
  unfolding deserialize_header serialize_net_id pack to_le
  deserialize_header-header_bytes command x a port response_id payload ha hp hr =
      let enough : ltb
            (length (header_bytes command x 0x80 a port (to_le 2 response_id ++ payload))) 22
          ≡ false =
        le→ltb _ _ (omega arith) in
      rw
        (
          deserialize_header,
          enough,
          unpack_h-to_le (command_value command) (command_value-le command),
          to_command-command_value command,
          unpack_h-to_le port hp,
          unpack_h-to_le response_id hr,
          net_id_of-serialize_net_id a ha,
        )
        refl

  -- A request can always be made of a net id that can be read and a port of 16 bits, and a PLC that
  -- sends back its header, with the marker in byte 11, is understood.
  pub reply_to_request :
      (t : Text) (a : AmsNetId) (command : SystemServiceRequestCommand) (port response_id : ℕ)
      (payload : Bytes)
      → from_string t ≡ ok a
      → port ≤ 65535
      → response_id ≤ 65535
      → (request : Bytes) × (create_request_header t command port ≡ ok request)
        × (deserialize_header (set request 11 0x80 ++ (to_le 2 response_id ++ payload)) addr
            ≡ ok (record {
              command_id = command;
              source_net_id = repr a;
              source_ams_port = port;
              source_addr = addr;
              payload = payload;
              unknown_response_id = response_id;
            }))
  unfolding create_request_header serialize_net_id pack to_le
  reply_to_request t a command port response_id payload parsed hp hr = (
    request_bytes command a port,
    create_request_header-request_bytes t a command port parsed hp,
    deserialize_header-header_bytes command 0 a port response_id payload
        (from_string-IsNetId t a parsed) hp hr,
  )
