-- ===== src/Wire/Typed.antt =====
-- The structures that `from_wire` of ads_async/protocol.py yields, whatever bytes it is given.
use ads_async.Prelude.{
  ℕ, zero, suc, ◌≡◌, refl, sym, ap, ◌∙◌, Option, none, some, All, length, ltb, take, drop, ◌==◌,
  inl, inr, Bool-cases, ◌+◌,
}
use ads_async.Prelude.Result.{Result, ok, err, attribute_error, ◌>>=◌}
use ads_async.Bytes.{Bytes}
use ads_async.Constants.{AdsCommandId}
use ads_async.Structs.Header.{
  AmsTcpHeader, tcp_from_buffer, AoEHeader, command_id, is_request, aoe_from_buffer,
}
use ads_async.Structs.Base.{from_buffer, unpack_s}
use ads_async.Structs.Request.{
  write_layout, write_of, read_write_layout, read_write_of, write_control_layout,
}
use ads_async.Structs.Response.{read_response_layout, read_response_of}
use ads_async.Structs.Item
use ads_async.Structs.Item.{
  Item, StructClass, deserialize, get_struct_by_command, request_class, item_command,
}
use ads_async.Wire.Defs.{
  Round, stop, skip, emit, raise, finish, parse_class, parse_command, parse_aoe, parse_tcp, round,
  from_wire_loop, from_wire, Parsed,
}

-- The class of a structure; none for what is only sent, and for bytes.
abbrev pub struct_class : Item → Option StructClass
struct_class (Item.write_item _) = some Item.write_class
struct_class (Item.read_write_item _) = some Item.read_write_class
struct_class (Item.read_item _) = some Item.read_class
struct_class (Item.add_notification_item _) = some Item.add_notification_class
struct_class (Item.delete_notification_item _) = some Item.delete_notification_class
struct_class Item.device_info_request_item = some Item.device_info_request_class
struct_class (Item.notification_item _) = some Item.notification_class
struct_class (Item.response_item _) = some Item.response_class
struct_class (Item.read_response_item _) = some Item.read_response_class
struct_class (Item.handle_item _) = none
struct_class (Item.notification_handle_item _) = some Item.notification_handle_class
struct_class (Item.device_info_item _) = some Item.device_info_class
struct_class (Item.read_state_item _) = some Item.read_state_class
struct_class (Item.raw_item _) = none

-- A structure of the class, or, where no class is registered, as many bytes as the header says.
abbrev pub HasClass : AoEHeader → Option StructClass → Item → Type 0
HasClass header none item = (view : Bytes) × (item ≡ Item.raw_item (take header.length view))
HasClass header (some cls) item = struct_class item ≡ some cls

-- The header has a command, and the structure is of the class for that command and direction.
abbrev pub IsTyped : Parsed → Type 0
IsTyped none = Unit
IsTyped (some (header, item)) =
    (command : AdsCommandId) × (command_id header ≡ some command)
    × HasClass header (get_struct_by_command command (is_request header)) item

class_ok :
    (cls : StructClass) (read item : Item)
    → struct_class read ≡ some cls
    → ok read ≡ ok item
    → struct_class item ≡ some cls
class_ok cls read item c e = let same : read ≡ item = cc e in ap struct_class (sym same) ∙ c

class_bind :
    {A : Type 0} (cls : StructClass) (r : Result A) (k : A → Result Item) (item : Item)
    → ((a : A) → k a ≡ ok item → struct_class item ≡ some cls)
    → (r >>= k) ≡ ok item
    → struct_class item ≡ some cls
class_bind cls (ok a) k item h e = h a e
class_bind cls (err x) k item h e = absurd (cc)

struct_class-deserialize :
    (cls : StructClass) (view : Bytes) (item : Item)
    → deserialize cls view ≡ ok item
    → struct_class item ≡ some cls
unfolding deserialize
struct_class-deserialize Item.write_class view item =
    class_bind _ (from_buffer write_layout write_of view) _ item (λ r.
      class_bind _ (unpack_s r.write_length (drop 12 view)) _ item
        (λ bytes. class_ok _ _ item refl))
struct_class-deserialize Item.read_write_class view item =
    class_bind _ (from_buffer read_write_layout read_write_of view) _ item (λ r.
      class_bind _ (unpack_s r.write_length (drop 16 view)) _ item
        (λ bytes. class_ok _ _ item refl))
struct_class-deserialize Item.read_class view item =
    class_bind _ _ _ item (λ r. class_ok _ _ item refl)
struct_class-deserialize Item.write_control_class view item =
    class_bind _ (from_buffer write_control_layout (λ vs. vs) view) (λ _. err attribute_error) item
      (λ r e. absurd (cc))
struct_class-deserialize Item.add_notification_class view item =
    class_bind _ _ _ item (λ r. class_ok _ _ item refl)
struct_class-deserialize Item.delete_notification_class view item =
    class_bind _ _ _ item (λ r. class_ok _ _ item refl)
struct_class-deserialize Item.device_info_request_class view item = class_ok _ _ item refl
struct_class-deserialize Item.notification_class view item =
    class_bind _ _ _ item (λ r. class_ok _ _ item refl)
struct_class-deserialize Item.response_class view item =
    class_bind _ _ _ item (λ r. class_ok _ _ item refl)
struct_class-deserialize Item.read_response_class view item =
    class_bind _ (from_buffer read_response_layout read_response_of view) _ item (λ r.
      class_bind _ (unpack_s r.read_length (drop 8 view)) _ item (λ bytes. class_ok _ _ item refl))
struct_class-deserialize Item.notification_handle_class view item =
    class_bind _ _ _ item (λ r. class_ok _ _ item refl)
struct_class-deserialize Item.device_info_class view item =
    class_bind _ _ _ item (λ r. class_ok _ _ item refl)
struct_class-deserialize Item.read_state_class view item =
    class_bind _ _ _ item (λ r. class_ok _ _ item refl)

-- What a round yields is typed.
abbrev RoundTyped : Round → Type 0
RoundTyped (emit _ parsed _) = IsTyped parsed
RoundTyped _ = Unit

finish-RoundTyped :
    (n : ℕ) (h : AoEHeader) (rest : Bytes) (command : AdsCommandId) (cls : StructClass)
    (r : Result Item)
    → command_id h ≡ some command
    → get_struct_by_command command (is_request h) ≡ some cls
    → ((item : Item) → r ≡ ok item → struct_class item ≡ some cls)
    → RoundTyped (finish n h rest r)
finish-RoundTyped n h rest command cls (ok item) known picks typed =
    (command, known, rw picks (typed item refl))
finish-RoundTyped n h rest command cls (err e) known picks typed = tt

class-RoundTyped :
    (n : ℕ) (h : AoEHeader) (view rest : Bytes) (command : AdsCommandId) (c : Option StructClass)
    → command_id h ≡ some command
    → get_struct_by_command command (is_request h) ≡ c
    → RoundTyped (parse_class n h view rest c)
class-RoundTyped n h view rest command none known picks = (command, known, rw picks (view, refl))
class-RoundTyped n h view rest command (some cls) known picks =
    finish-RoundTyped n h rest command cls (deserialize cls view) known picks
      (struct_class-deserialize cls view)

command-RoundTyped :
    (n : ℕ) (h : AoEHeader) (view rest : Bytes) (c : Option AdsCommandId)
    → command_id h ≡ c
    → RoundTyped (parse_command n h view rest c)
command-RoundTyped n h view rest none known = tt
command-RoundTyped n h view rest (some command) known =
    class-RoundTyped n h view rest command _ known refl

aoe-RoundTyped :
    (n : ℕ) (view rest : Bytes) (r : Result AoEHeader) → RoundTyped (parse_aoe n view rest r)
aoe-RoundTyped n view rest (err e) = tt
aoe-RoundTyped n view rest (ok h) = elim (Bool-cases (6 + 32 + h.length == n)) [
  | inl same ↦ rw same (command-RoundTyped n h view rest (command_id h) refl)
  | inr differ ↦ rw differ tt
]

tcp-RoundTyped : (buf : Bytes) (r : Result AmsTcpHeader) → RoundTyped (parse_tcp buf r)
tcp-RoundTyped buf (err e) = tt
tcp-RoundTyped buf (ok h) = elim (Bool-cases (ltb h.length 32)) [
  | inl short ↦ rw short tt
  | inr long ↦ elim (Bool-cases (ltb (length buf) (6 + h.length))) [
    | inl partial ↦ rw (long, partial) tt
    | inr whole ↦
        rw (long, whole)
          (aoe-RoundTyped (6 + h.length) (drop 32 (drop 6 buf)) (drop (6 + h.length) buf)
            (aoe_from_buffer (drop 6 buf)))
  ]
]

round-RoundTyped : (buf : Bytes) → RoundTyped (round buf)
unfolding round
round-RoundTyped buf = elim (Bool-cases (ltb (length buf) 6)) [
  | inl few ↦ rw few tt
  | inr enough ↦ rw enough (tcp-RoundTyped buf (tcp_from_buffer buf))
]

abbrev pub YieldTyped : ℕ × Parsed → Type 0
YieldTyped (consumed, parsed) = IsTyped parsed

loop-YieldTyped : (fuel : ℕ) (buf : Bytes) → All YieldTyped (from_wire_loop fuel buf).yields
unfolding from_wire_loop
loop-YieldTyped zero buf = tt
loop-YieldTyped (suc fuel) buf = go (loop-YieldTyped fuel) (round buf) refl (round-RoundTyped buf)
  where
    go :
        ((rest : Bytes) → All YieldTyped (from_wire_loop fuel rest).yields)
        → (r : Round) → round buf ≡ r
        → RoundTyped r
        → All YieldTyped (from_wire_loop (suc fuel) buf).yields
    go ih stop e typed = rw (e, from_wire_loop) tt
    go ih (skip rest) e typed = rw (e, from_wire_loop) (ih rest)
    go ih (emit n parsed rest) e typed = rw (e, from_wire_loop) (typed, ih rest)
    go ih (raise x) e typed = rw (e, from_wire_loop) tt

-- Whatever bytes are received, each frame that `from_wire` yields with a structure has a header of a
-- known command, and the structure is of the class that `get_struct_by_command` has for that command
-- and direction; where it has none, it is raw bytes, cut to the length in the header.
pub from_wire-IsTyped : (buf : Bytes) → All YieldTyped (from_wire buf).yields
unfolding from_wire
from_wire-IsTyped buf = loop-YieldTyped (suc (length buf)) buf
