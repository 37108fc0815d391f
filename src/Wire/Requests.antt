-- ===== src/Wire/Requests.antt =====
-- `from_wire` reads the requests that `request_to_wire` of ads_async/protocol.py builds.
use ads_async.Prelude.{ℕ, ◌+◌, ◌<◌, ◌^◌, ◌≡◌, refl, some, ◌++◌, arith, length, true}
use ads_async.Bytes.{Fits, Bytes}
use ads_async.Constants.{AdsCommandId, value, to_command_id-value}
use ads_async.Structs.Address.{AmsAddr, addr_layout, addr_fields}
use ads_async.Structs.Header.{AoEHeader, AoEFits, command_id, create_request, is_request}
use ads_async.Structs.Item.{Item, item_command, serialize, get_struct_by_command}
use ads_async.Structs.RoundTrip.{RequestFits, class_of, deserialize-serialize}
use ads_async.Constants
use ads_async.Wire.Defs.{emit, request_header, round, frame_bytes}
use ads_async.Wire.Frames.{round-frame_bytes}

abbrev pub AddrFits : AmsAddr → Type 0
AddrFits a = Fits addr_layout (addr_fields a)

-- A request and its addressing, as `request_to_wire` is given them.
pub record Request : Type 0 where
  pub item : Item
  pub command : AdsCommandId
  pub target : AmsAddr
  pub source : AmsAddr
  pub invoke_id : ℕ

pub record RequestIsValid (r : Request) : Type 0 where
  pub command_of_item : item_command r.item ≡ some r.command
  pub item_fits : RequestFits r.item
  pub target_fits : AddrFits r.target
  pub source_fits : AddrFits r.source
  pub invoke_id_fits : r.invoke_id < 2 ^ 32
  pub length_fits : 32 + length (serialize r.item) < 2 ^ 32

abbrev pub header_of : Request → AoEHeader
header_of r = request_header r.command r.item r.target r.source r.invoke_id

abbrev pub frame_of : Request → Bytes
frame_of r = frame_bytes (header_of r) (serialize r.item)

pub value-lt : (c : AdsCommandId) → value c < 2 ^ 16
unfolding value
value-lt Constants.invalid = omega arith
value-lt _ = omega arith

header_of-AoEFits : (r : Request) → RequestIsValid r → AoEFits (header_of r)
unfolding create_request
header_of-AoEFits r v =
    let t = v.target_fits in let s = v.source_fits in omega (arith, value-lt r.command)

request_class_of-item :
    (i : Item) (c : AdsCommandId)
    → RequestFits i
    → item_command i ≡ some c
    → get_struct_by_command c true ≡ some (class_of i)
unfolding item_command get_struct_by_command
request_class_of-item (Item.write_item r) c h e = ground arith
request_class_of-item _ c h e = ground arith

module _ (r : Request) where
  pub command_id-header_of : command_id (header_of r) ≡ some r.command
  unfolding command_id create_request
  command_id-header_of = to_command_id-value r.command

  is_request-header_of : is_request (header_of r) ≡ true
  unfolding is_request create_request
  is_request-header_of = refl

  length-header_of : (header_of r).length ≡ length (serialize r.item)
  unfolding create_request
  length-header_of = refl

-- A valid request in a buffer is read back whole, and what follows it is left.
pub round-frame_of :
    (r : Request) (rest : Bytes)
    → RequestIsValid r
    → round (frame_of r ++ rest)
      ≡ emit (38 + length (serialize r.item)) (some (header_of r, r.item)) rest
round-frame_of r rest v = rw (
  round-frame_bytes (header_of r) (serialize r.item) rest (header_of-AoEFits r v)
      (length-header_of r) v.length_fits,
  command_id-header_of r,
  is_request-header_of r,
  request_class_of-item r.item r.command v.item_fits v.command_of_item,
  deserialize-serialize r.item rest v.item_fits,
)
