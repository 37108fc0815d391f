-- ===== src/Service/Info.antt =====
-- The answer of a PLC to `get_info` of ads_async/service.py.

use ads_async.Prelude.{
  drop_known, ℕ, ◌+◌, ◌<◌, ◌≤◌, ◌≡◌, refl, ap, ◌∙◌, [], ◌∷◌, ◌++◌, length, set, drop, arith,
}
use ads_async.Prelude.Result.{ok}
use ads_async.Bytes.{Bytes, to_le, pack}
use ads_async.Structs.Address.{AmsNetId, serialize_net_id}
use ads_async.Structs.NetId.{from_string, repr}
use ads_async.Structs.NetId.RoundTrip.{IsNetId, from_string-IsNetId}
use ads_async.Structs.Text.{Text, IsAscii, until_null}
use ads_async.Service.Defs.{
  get_info_command, HeaderInfo, deserialize_header, get_info, serialize_string,
  deserialize_response, ResponseResult, deserialize_string, info_result, system_service_port,
  deserialize_result, deserialize_get_info_response,
}
use ads_async.Service.Strings.{
  serialize_string_lem, deserialize_string-serialized, until_null-IsAscii,
}
use ads_async.Service.Replies.{
  header_bytes, request_bytes, create_request_header-request_bytes, deserialize_header-header_bytes,
}

pub get_info-request_bytes :
    (t : Text) (a : AmsNetId)
    → from_string t ≡ ok a
    → get_info t ≡ ok (request_bytes get_info_command a system_service_port ++ (0 ∷ 0 ∷ 0 ∷ 0 ∷ []))
unfolding get_info
get_info-request_bytes t a parsed =
    rw
      (
        get_info,
        create_request_header-request_bytes t a get_info_command system_service_port parsed
            (omega arith),
      )
      refl

pub get_info_result :
    (bytes : Bytes) (name : Text)
    → deserialize_string (drop 26 bytes) ≡ ok name
    → deserialize_result get_info_command bytes ≡ ok (info_result name)
unfolding deserialize_result
get_info_result bytes name e = rw (deserialize_get_info_response, e) refl

-- A serialized name, up to its first NUL.
abbrev pub name_bytes : Text → Bytes
name_bytes name = to_le 2 (length (until_null name) + 1) ++ (until_null name ++ (0 ∷ []))

abbrev pub info_reply : ℕ → AmsNetId → ℕ → ℕ → Bytes → Text → Bytes → Bytes
info_reply x a port response_id four name rest =
    header_bytes get_info_command x 0x80 a port
      (to_le 2 response_id ++ (four ++ (name_bytes name ++ rest)))

module _ {A : Type 0} (addr : A) where
  deserialize_response-result :
      (bytes : Bytes) (info : HeaderInfo A) (r : ResponseResult)
      → deserialize_header bytes addr ≡ ok info
      → deserialize_result info.command_id bytes ≡ ok r
      → deserialize_response bytes addr
        ≡ ok (record {
          command_id = info.command_id;
          source_net_id = info.source_net_id;
          source_ams_port = info.source_ams_port;
          source_addr = info.source_addr;
          unknown_response_id = info.unknown_response_id;
          result = r;
        })
  unfolding deserialize_response
  deserialize_response-result bytes info r e f = rw (deserialize_response, e, f) refl

  -- A response to `get_info`: a header, any four bytes, and a serialized name of ASCII characters.
  pub deserialize_response-info_reply :
      (x : ℕ) (a : AmsNetId) (port response_id : ℕ) (four : Bytes) (name : Text) (rest : Bytes)
      → IsNetId a
      → port ≤ 65535
      → response_id ≤ 65535
      → length four ≡ 4
      → IsAscii name
      → length (until_null name) < 65535
      → deserialize_response (info_reply x a port response_id four name rest) addr
        ≡ ok (record {
          command_id = get_info_command;
          source_net_id = repr a;
          source_ams_port = port;
          source_addr = addr;
          unknown_response_id = response_id;
          result = info_result (until_null name);
        })
  unfolding serialize_net_id pack to_le
  deserialize_response-info_reply x a port response_id four name rest ha hp hr hf ascii short =
      deserialize_response-result _ _ _
        (deserialize_header-header_bytes addr get_info_command x a port response_id
          (four ++ (name_bytes name ++ rest)) ha hp hr)
        (get_info_result _ _ (
          ap deserialize_string (drop_known 4 four (name_bytes name ++ rest) hf)
          ∙ deserialize_string-serialized (until_null name) rest (until_null-IsAscii name ascii)
              short))

  -- A PLC that answers `get_info`, which was asked under a net id that can be read, with the header of the
  -- request, the marker, any number, any four bytes and a serialized name of ASCII characters is
  -- understood: the response has the command, the net id and the port of the request, that number and
  -- the name, whatever follows it.
  pub get_info_answered :
      (t : Text) (a : AmsNetId) (response_id w x y z : ℕ) (name : Text) (rest : Bytes)
      → from_string t ≡ ok a
      → response_id ≤ 65535
      → IsAscii name
      → length (until_null name) < 65535
      → (request string : Bytes) × (get_info t ≡ ok (request ++ (0 ∷ 0 ∷ 0 ∷ 0 ∷ [])))
        × (serialize_string name ≡ ok string)
        × (deserialize_response
              (set request 11 0x80 ++ (to_le 2 response_id ++ (w ∷ x ∷ y ∷ z ∷ (string ++ rest))))
              addr
            ≡ ok (record {
              command_id = get_info_command;
              source_net_id = repr a;
              source_ams_port = system_service_port;
              source_addr = addr;
              unknown_response_id = response_id;
              result = info_result (until_null name);
            }))
  unfolding serialize_net_id pack to_le
  get_info_answered t a response_id w x y z name rest parsed hr ascii short = (
    request_bytes get_info_command a system_service_port,
    name_bytes name,
    get_info-request_bytes t a parsed,
    serialize_string_lem name ascii short,
    deserialize_response-info_reply 0 a system_service_port response_id (w ∷ x ∷ y ∷ z ∷ []) name
        rest (from_string-IsNetId t a parsed) (omega arith) hr refl ascii short,
  )
