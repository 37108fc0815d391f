-- ===== src/Service/Defs.antt =====
-- The functions and the methods of ads_async/service.py. `string_encoding` is ASCII.
use ads_async.Prelude.{
  ℕ, ◌-◌, ◌&&◌, Bool, true, false, not, Option, none, some, [], ◌∷◌, ◌++◌, length, take, drop,
  get_or, leb, ltb, ◌==◌, if◌then◌else◌,
}
use ads_async.Prelude.Result.{
  Result, ok, err, value_error, struct_error, assertion_error, bad_response, ◌>>=◌,
}
use ads_async.Bytes.{Bytes, to_le, from_le, unpack}
use ads_async.Structs.Address.{net_id_layout, net_id_of, serialize_net_id}
use ads_async.Structs.NetId.{from_string, repr}
use ads_async.Structs.Text.{Text, ascii_bytes, until_null}

-- Are two byte strings equal?
unfoldable pub same_bytes : Bytes → Bytes → Bool
same_bytes [] [] = true
same_bytes [] (_ ∷ _) = false
same_bytes (_ ∷ _) [] = false
same_bytes (a ∷ s) (b ∷ t) = a == b && same_bytes s t

-- `struct.pack("<H", n)` and `struct.unpack("<H", data)[0]`
unfoldable pub pack_h : ℕ → Result Bytes
unfolding to_le
pack_h n = if leb n 65535 then ok (to_le 2 n) else err struct_error

unfoldable pub unpack_h : Bytes → Result ℕ
unfolding from_le
unpack_h bytes = if length bytes == 2 then ok (from_le bytes) else err struct_error

-- `_null_terminate`
unfoldable pub null_terminate : Text → Text
unfolding until_null
null_terminate value = until_null value ++ (0 ∷ [])

unfoldable pub serialize_string : Text → Result Bytes
unfolding null_terminate pack_h ascii_bytes
serialize_string value = do
  size ← pack_h (length (null_terminate value))
  characters ← ascii_bytes (null_terminate value)
  ok (size ++ characters)

unfoldable pub deserialize_string : Bytes → Result Text
unfolding unpack_h ascii_bytes
deserialize_string bytes = do
  size ← unpack_h (take 2 bytes)
  ascii_bytes (take (size - 1) (drop 2 bytes))

pub data SystemServiceRequestCommand : Type 0 where
  get_info_command add_route_command : SystemServiceRequestCommand

unfoldable pub command_value : SystemServiceRequestCommand → ℕ
command_value get_info_command = 1
command_value add_route_command = 6

-- `SystemServiceRequestCommand(n)`
unfoldable pub to_command : ℕ → Result SystemServiceRequestCommand
to_command n =
    if n == 1 then ok get_info_command else if n == 6 then ok add_route_command else err value_error

-- `REQUEST_MAGIC` and `RESPONSE_MAGIC`
abbrev pub magic : Bytes
magic = 0x03 ∷ 0x66 ∷ 0x14 ∷ 0x71 ∷ 0 ∷ 0 ∷ 0 ∷ 0 ∷ []

abbrev pub system_service_port : ℕ
system_service_port = 0x2710

unfoldable pub create_request_header : Text → SystemServiceRequestCommand → ℕ → Result Bytes
unfolding command_value pack_h from_string serialize_net_id
create_request_header source_net_id request_id port = do
  id ← pack_h (command_value request_id)
  net_id ← from_string source_net_id
  port_bytes ← pack_h port
  ok (magic ++ (id ++ (0 ∷ 0 ∷ (serialize_net_id net_id ++ port_bytes))))

-- The dictionary that `deserialize_header` returns.
pub record HeaderInfo (A : Type 0) : Type 0 where
  pub command_id : SystemServiceRequestCommand
  pub source_net_id : Text
  pub source_ams_port : ℕ
  pub source_addr : A
  pub payload : Bytes
  pub unknown_response_id : ℕ

-- What the responses add to it: no payload is left.
pub data ResponseResult : Type 0 where
  info_result : (plc_name : Text) → ResponseResult
  route_result : (password_correct authentication_error : Bool) → ResponseResult

pub record ResponseInfo (A : Type 0) : Type 0 where
  pub command_id : SystemServiceRequestCommand
  pub source_net_id : Text
  pub source_ams_port : ℕ
  pub source_addr : A
  pub unknown_response_id : ℕ
  pub result : ResponseResult

abbrev slice : ℕ → ℕ → Bytes → Bytes
slice from to bytes = take (to - from) (drop from bytes)

unfoldable pub deserialize_header : {A : Type 0} → Bytes → A → Result (HeaderInfo A)
unfolding same_bytes
deserialize_header bytes addr =
    if ltb (length bytes) 22
    then err bad_response
    else if not (same_bytes (take 8 bytes) magic)
    then err bad_response
    else if not (get_or bytes 11 0 == 0x80)
    then err bad_response
    else do
      id ← unpack_h (slice 8 10 bytes)
      command ← to_command id
      port ← unpack_h (slice 18 20 bytes)
      response_id ← unpack_h (slice 20 22 bytes)
      ok (record {
        command_id = command;
        source_net_id = repr (net_id_of (unpack net_id_layout (slice 12 18 bytes)));
        source_ams_port = port;
        source_addr = addr;
        payload = drop 22 bytes;
        unknown_response_id = response_id;
      })

unfoldable pub route_answer : Bool → Bool → Result ResponseResult
route_answer password_correct authentication_error =
    if not password_correct && not authentication_error
    then err bad_response
    else ok (route_result password_correct authentication_error)

unfoldable pub deserialize_add_route_response : Bytes → Result ResponseResult
unfolding same_bytes route_answer
deserialize_add_route_response bytes =
    if length bytes == 32
    then route_answer (same_bytes (slice 4 7 (drop 22 bytes)) (4 ∷ 0 ∷ 0 ∷ []))
        (same_bytes (slice 4 7 (drop 22 bytes)) (0 ∷ 4 ∷ 7 ∷ []))
    else err assertion_error

unfoldable pub deserialize_get_info_response : Bytes → Result ResponseResult
unfolding deserialize_string
deserialize_get_info_response bytes = do
  name ← deserialize_string (drop 26 bytes)
  ok (info_result name)

unfoldable pub deserialize_result : SystemServiceRequestCommand → Bytes → Result ResponseResult
unfolding deserialize_get_info_response deserialize_add_route_response
deserialize_result get_info_command bytes = deserialize_get_info_response bytes
deserialize_result add_route_command bytes = deserialize_add_route_response bytes

unfoldable pub deserialize_response : {A : Type 0} → Bytes → A → Result (ResponseInfo A)
unfolding deserialize_header deserialize_result
deserialize_response bytes addr = do
  info ← deserialize_header bytes addr
  result ← deserialize_result info.command_id bytes
  ok (record {
    command_id = info.command_id;
    source_net_id = info.source_net_id;
    source_ams_port = info.source_ams_port;
    source_addr = info.source_addr;
    unknown_response_id = info.unknown_response_id;
    result = result;
  })

-- `value or default`, for texts: an empty text counts as none.
unfoldable pub or_default : Option Text → Text → Text
or_default none default = default
or_default (some []) default = default
or_default (some (c ∷ cs)) default = c ∷ cs

unfoldable pub add_route_to_plc :
    (source_net_id source_name username password : Text)
    → (route_name net_id_to_add : Option Text) → Result Bytes
unfolding or_default create_request_header serialize_string from_string serialize_net_id pack_h
add_route_to_plc source_net_id source_name username password route_name net_id_to_add = do
  header ← create_request_header source_net_id add_route_command system_service_port
  host ← serialize_string source_name
  size ← pack_h 6
  added ← from_string (or_default net_id_to_add source_net_id)
  user ← serialize_string username
  secret ← serialize_string password
  route ← serialize_string (or_default route_name source_name)
  ok (
      header
      ++ (5
          ∷ 0
          ∷ 0
          ∷ 0
          ∷ 12
          ∷ 0
          ∷ (host
              ++ (7
                  ∷ 0
                  ∷ (size
                      ++ (serialize_net_id added
                          ++ (13 ∷ 0 ∷ (user ++ (2 ∷ 0 ∷ (secret ++ (5 ∷ 0 ∷ route)))))))))))

unfoldable pub get_info : Text → Result Bytes
unfolding create_request_header
get_info source_net_id = do
  header ← create_request_header source_net_id get_info_command system_service_port
  ok (header ++ (0 ∷ 0 ∷ 0 ∷ 0 ∷ []))
