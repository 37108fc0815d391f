-- ===== src/Wire/Defs.antt =====
-- `from_wire` reads frames off a buffer: a TCP header, an AoE header and a structure. A generator
-- is the list of what it yields, with how it ended.
use ads_async.Prelude.{
  ℕ, zero, suc, ◌+◌, Option, none, some, List, [], ◌∷◌, ◌++◌, length, take, drop, ltb, ◌==◌,
  if◌then◌else◌,
}
use ads_async.Prelude.Result.{Exception, value_error, attribute_error, Result, ok, err}
use ads_async.Bytes.{Bytes}
use ads_async.Constants.{AdsCommandId}
use ads_async.Structs.Address.{AmsAddr}
use ads_async.Structs.Header.{
  AmsTcpHeader, tcp_header, serialize_tcp, tcp_from_buffer, AoEHeader, serialize_aoe,
  aoe_from_buffer, command_id, is_request, create_request, create_response,
}
use ads_async.Structs.Item.{
  Item, raw_item, StructClass, get_struct_by_command, deserialize, serialize, item_command,
}

-- `ctypes.sizeof(structs.AmsTcpHeader)` and `ctypes.sizeof(structs.AoEHeader)`
abbrev pub ams_header_length : ℕ
ams_header_length = 6

abbrev pub aoe_header_length : ℕ
aoe_header_length = 32

-- A frame as `from_wire` yields it: `None` where the lengths do not add up.
abbrev pub Parsed : Type 0
Parsed = Option (AoEHeader × Item)

-- One round of the `while` loop: leave the loop, go on with another buffer and yield nothing,
-- yield, or raise.
pub data Round : Type 0 where
  stop : Round
  skip : Bytes → Round
  emit : ℕ → Parsed → Bytes → Round
  raise : Exception → Round

-- The structure of a frame. `view` is what follows the headers, to the end of the buffer. An
-- exception in `deserialize` is logged, and the frame is passed over.
abbrev pub finish : ℕ → AoEHeader → Bytes → Result Item → Round
finish required header rest (ok item) = emit required (some (header, item)) rest
finish required header rest (err e) = skip rest

abbrev pub parse_class : ℕ → AoEHeader → Bytes → Bytes → Option StructClass → Round
parse_class required header view rest none =
    emit required (some (header, raw_item (take header.length view))) rest
parse_class required header view rest (some cls) =
    finish required header rest (deserialize cls view)

-- `aoe_header.command_id` raises `ValueError` at a number that is no command.
abbrev pub parse_command : ℕ → AoEHeader → Bytes → Bytes → Option AdsCommandId → Round
parse_command required header view rest none = raise value_error
parse_command required header view rest (some command) =
    parse_class required header view rest (get_struct_by_command command (is_request header))

abbrev pub parse_aoe : ℕ → Bytes → Bytes → Result AoEHeader → Round
parse_aoe required view rest (err e) = raise e
parse_aoe required view rest (ok header) =
    if ams_header_length + aoe_header_length + header.length == required
    then parse_command required header view rest (command_id header)
    else emit required none rest

abbrev pub parse_tcp : Bytes → Result AmsTcpHeader → Round
parse_tcp buf (err e) = raise e
parse_tcp buf (ok header) =
    if ltb header.length aoe_header_length
    then skip (drop (header.length + ams_header_length) buf)
    else if ltb (length buf) (ams_header_length + header.length)
    then stop
    else parse_aoe (ams_header_length + header.length)
        (drop aoe_header_length (drop ams_header_length buf))
        (drop (ams_header_length + header.length) buf)
        (aoe_from_buffer (drop ams_header_length buf))

unfoldable pub round : Bytes → Round
round buf = if ltb (length buf) ams_header_length then stop else parse_tcp buf (tcp_from_buffer buf)

pub data End : Type 0 where
  finished no_fuel : End
  raised : Exception → End

pub record Generated : Type 0 where
  pub yields : List (ℕ × Parsed)
  pub end : End

abbrev pub yield_first : ℕ × Parsed → Generated → Generated
yield_first y g = record { yields = y ∷ g.yields; end = g.end }

-- The loop; `no_fuel` if the fuel ran out.
unfoldable pub from_wire_loop : ℕ → Bytes → Generated
from_wire_loop zero buf = record { yields = []; end = no_fuel }
from_wire_loop (suc fuel) buf = elim (round buf) [
  | stop ↦ record { yields = []; end = finished }
  | skip rest ↦ from_wire_loop fuel rest
  | emit consumed item rest ↦ yield_first (consumed, item) (from_wire_loop fuel rest)
  | raise e ↦ record { yields = []; end = raised e }
]

-- Each round takes a TCP header at least off the buffer.
unfoldable pub from_wire : Bytes → Generated
from_wire buf = from_wire_loop (suc (length buf)) buf

-- `self.recv_buffer = self.recv_buffer[consumed:]`, for each yield
unfoldable pub consume : List (ℕ × Parsed) → Bytes → Bytes
consume [] buffer = buffer
consume ((consumed, _) ∷ ys) buffer = consume ys (drop consumed buffer)

pub record Received : Type 0 where
  pub items : List Parsed
  pub recv_buffer : Bytes
  pub end : End

unfoldable pub items_of : List (ℕ × Parsed) → List Parsed
items_of [] = []
items_of ((_, item) ∷ ys) = item ∷ items_of ys

-- `received_data`, its generator run to the end: the items, and the buffer that is left.
unfoldable pub received_data : Bytes → Bytes → Received
unfolding consume items_of
received_data recv_buffer bytes =
    let buffer = recv_buffer ++ bytes in
    let g = from_wire buffer in
    record { items = items_of g.yields; recv_buffer = consume g.yields buffer; end = g.end }

-- The bytes of a frame.
unfoldable pub frame_bytes : AoEHeader → Bytes → Bytes
unfolding serialize_tcp serialize_aoe
frame_bytes header payload =
    serialize_tcp (tcp_header (aoe_header_length + length payload))
    ++ (serialize_aoe header ++ payload)

-- The header of `request_to_wire`.
abbrev pub request_header : AdsCommandId → Item → AmsAddr → AmsAddr → (invoke_id : ℕ) → AoEHeader
request_header command item target source invoke_id =
    create_request target source command (length (serialize item)) invoke_id 4 0

-- `request_to_wire`, with the flags and the error code that every caller leaves at their defaults.
-- Bytes have no `command_id`.
unfoldable pub request_to_wire : Item → AmsAddr → AmsAddr → (invoke_id : ℕ) → Result Bytes
unfolding frame_bytes item_command create_request
request_to_wire item target source invoke_id = elim (item_command item) [
  | none ↦ err attribute_error
  | some command ↦
      ok (frame_bytes (request_header command item target source invoke_id) (serialize item))
]

unfoldable pub serialize_all : List Item → Bytes
serialize_all [] = []
serialize_all (i ∷ is) = serialize i ++ serialize_all is

-- `response_to_wire`; the response goes back to the source of the request, under its invoke id.
unfoldable pub response_to_wire : List Item → AoEHeader → (ads_error : ℕ) → Result Bytes
unfolding frame_bytes serialize_all create_response command_id
response_to_wire items request ads_error = elim (command_id request) [
  | none ↦ err value_error
  | some command ↦ ok (
      frame_bytes
        (create_response request.source request.target command (length (serialize_all items))
          request.invoke_id ads_error)
        (serialize_all items))
]
