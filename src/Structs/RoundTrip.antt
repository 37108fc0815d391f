-- ===== src/Structs/RoundTrip.antt =====
-- Reading back what `serialize` wrote, for the structures of ads_async/structs.py.
use ads_async.Prelude.{
  ℕ, ◌<◌, ◌≡◌, refl, Option, none, some, List, [], ◌∷◌, ◌++◌, arith, length, drop,
}
use mathlib.Core.List.{append_assoc}
use ads_async.Prelude.Result.{ok}
use ads_async.Bytes.{Bytes, Layout, size_of, pack, Fits}
use ads_async.Structs.Base.{
  from_buffer, from_buffer-pack, unpack_s, unpack_s-append, pack_s, pack_s_exact, drop-pack,
}
use ads_async.Structs.Request.{
  write_layout, write_fields, write_of, read_write_layout, read_write_fields, read_write_of,
  read_layout, read_fields, read_of, add_notification_layout, add_notification_fields,
  add_notification_of, delete_notification_layout, delete_notification_fields,
  delete_notification_of,
}
use ads_async.Structs.Item
use ads_async.Structs.Item.{Item}

-- A request that its sender can have built: each field within its width, and a payload whose
-- length is the length field.
abbrev pub HasLength : ℕ → Option Bytes → Type 0
HasLength n none = 1 < 0
HasLength n (some bytes) = n ≡ length bytes

abbrev pub RequestFits : Item → Type 0
RequestFits (Item.write_item r) =
    Fits write_layout (write_fields r) × HasLength r.write_length r.payload
RequestFits (Item.read_write_item r) =
    Fits read_write_layout (read_write_fields r) × HasLength r.write_length r.payload
RequestFits (Item.read_item r) = Fits read_layout (read_fields r)
RequestFits (Item.add_notification_item r) =
    Fits add_notification_layout (add_notification_fields r)
RequestFits (Item.delete_notification_item r) =
    Fits delete_notification_layout (delete_notification_fields r)
RequestFits Item.device_info_request_item = Unit
RequestFits _ = 1 < 0

-- The class that reads a request.
abbrev pub class_of : Item → Item.StructClass
class_of (Item.write_item _) = Item.write_class
class_of (Item.read_write_item _) = Item.read_write_class
class_of (Item.read_item _) = Item.read_class
class_of (Item.add_notification_item _) = Item.add_notification_class
class_of (Item.delete_notification_item _) = Item.delete_notification_class
class_of (Item.device_info_request_item) = Item.device_info_request_class
class_of _ = Item.response_class

-- The fixed part of a structure that a payload and other bytes follow.
fixed_part {ℓ} :
    {A : Type ℓ} (ws : Layout) (of_fields : List ℕ → A) (vs : List ℕ) (tail rest : Bytes)
    → Fits ws vs
    → from_buffer ws of_fields ((pack ws vs ++ tail) ++ rest) ≡ ok (of_fields vs)
fixed_part ws of_fields vs tail rest h =
    rw (append_assoc (pack ws vs) tail rest) (from_buffer-pack ws of_fields vs (tail ++ rest) h)

-- The payload, read after the fixed part.
payload_part :
    (ws : Layout) (vs : List ℕ) (n : ℕ) (bytes rest : Bytes)
    → n ≡ length bytes
    → unpack_s n (drop (size_of ws) ((pack ws vs ++ pack_s n bytes) ++ rest)) ≡ ok bytes
payload_part ws vs n bytes rest e =
    rw
      (
        append_assoc (pack ws vs) (pack_s n bytes) rest,
        drop-pack ws vs (pack_s n bytes ++ rest),
        e,
        pack_s_exact bytes,
      )
      (unpack_s-append bytes rest)

write_round :
    (g o n : ℕ) (p : Option Bytes) (rest : Bytes)
    → let i =
        Item.write_item
          (record { index_group = g; index_offset = o; write_length = n; payload = p }) in
      RequestFits i → Item.deserialize Item.write_class (Item.serialize i ++ rest) ≡ ok i
unfolding Item.deserialize Item.serialize size_of
write_round g o n none rest h = absurd (omega arith)
write_round g o n (some bytes) rest h =
    let vs = g ∷ o ∷ n ∷ [] in
    rw (
      fixed_part write_layout write_of vs (pack_s n bytes) rest h.0,
      payload_part write_layout vs n bytes rest h.1,
    )

read_write_round :
    (g o r n : ℕ) (p : Option Bytes) (rest : Bytes)
    → let i = Item.read_write_item (record {
      index_group = g;
      index_offset = o;
      read_length = r;
      write_length = n;
      payload = p;
    }) in
      RequestFits i → Item.deserialize Item.read_write_class (Item.serialize i ++ rest) ≡ ok i
unfolding Item.deserialize Item.serialize size_of
read_write_round g o r n none rest h = absurd (omega arith)
read_write_round g o r n (some bytes) rest h =
    let vs = g ∷ o ∷ r ∷ n ∷ [] in
    rw (
      fixed_part read_write_layout read_write_of vs (pack_s n bytes) rest h.0,
      payload_part read_write_layout vs n bytes rest h.1,
    )

-- Every request that fits is read back from its own bytes, whatever bytes follow them.
pub deserialize-serialize :
    (i : Item) (rest : Bytes)
    → RequestFits i
    → Item.deserialize (class_of i) (Item.serialize i ++ rest) ≡ ok i
unfolding Item.deserialize Item.serialize
deserialize-serialize (Item.write_item r) rest h =
    write_round r.index_group r.index_offset r.write_length r.payload rest h
deserialize-serialize (Item.read_write_item r) rest h =
    read_write_round r.index_group r.index_offset r.read_length r.write_length r.payload rest h
deserialize-serialize (Item.read_item r) rest h =
    rw (from_buffer-pack read_layout read_of (read_fields r) rest h)
deserialize-serialize (Item.add_notification_item r) rest h = rw (
    from_buffer-pack add_notification_layout add_notification_of (add_notification_fields r) rest h)
deserialize-serialize (Item.delete_notification_item r) rest h = rw (
    from_buffer-pack delete_notification_layout delete_notification_of
      (delete_notification_fields r) rest h)
deserialize-serialize Item.device_info_request_item rest h = refl
deserialize-serialize _ rest h = absurd (omega arith)
