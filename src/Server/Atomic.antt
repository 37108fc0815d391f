-- ===== src/Server/Atomic.antt =====
-- A request that raises leaves the circuit, and the database of the server, as they were.
use ads_async.Prelude.{
  ℕ, ◌≡◌, Bool, true, false, refl, inl, inr, if◌then◌else◌, arith, Option, none, some,
}
use ads_async.Prelude.Result.{Exception, ok, err, Result-cases}
use ads_async.Bytes.{Bytes}
use ads_async.Structs.Item.{Item}
use ads_async.Structs.Text.{Codec}
use ads_async.Symbols.{Symbol, symbol_read, symbol_write}
use ads_async.Symbols.Stable.{symbol_read-symbol_write_still}
use ads_async.Server.State.{ServerCircuit, Exec, next_handle}
use ads_async.Server.Access.{
  symbol_by_handle, symbol_by_name, symbol_by_payload, read_symbol, write_symbol,
}
use ads_async.Server.Handlers.{
  add_notification, delete_notification, read_catchall, read_value, read_write_handle,
  read_write_info, write_release_handle, write_value, write_payload, write_to, write_logged,
  log_written,
}
use ads_async.Server.Keeps.{IsAtomic, IsReading, bind-IsReading, bind-IsAtomic, bind-IsAtomic_first}

reading-IsAtomic {ℓ} : {A : Type ℓ} → (m : Exec A) → IsReading m → IsAtomic m
reading-IsAtomic m h c e raised = h c

pub symbol_by_handle-IsReading : (h : ℕ) → IsReading (symbol_by_handle h)
unfolding symbol_by_handle
symbol_by_handle-IsReading h c = refl

pub read_symbol-IsReading : (s : Symbol) → IsReading (read_symbol s)
unfolding read_symbol
read_symbol-IsReading s c = refl

symbol_by_name-IsReading : (codec : Codec) (bytes : Bytes) → IsReading (symbol_by_name codec bytes)
unfolding symbol_by_name
symbol_by_name-IsReading codec bytes c = ground arith

pub symbol_by_payload-IsReading :
    (codec : Codec) (bytes : Option Bytes) → IsReading (symbol_by_payload codec bytes)
unfolding symbol_by_payload
symbol_by_payload-IsReading codec none = λ c. refl
symbol_by_payload-IsReading codec (some bytes) = symbol_by_name-IsReading codec bytes

pub if-IsReading {ℓ} :
    {A : Type ℓ} (b : Bool) (m n : Exec A)
    → IsReading m
    → IsReading n
    → IsReading (if b then m else n)
if-IsReading true m n h k = h
if-IsReading false m n h k = k

if-IsAtomic {ℓ} :
    {A : Type ℓ} (b : Bool) (m n : Exec A) → IsAtomic m → IsAtomic n → IsAtomic (if b then m else n)
if-IsAtomic true m n h k = h
if-IsAtomic false m n h k = k

pub read_value-IsReading : (item : Item) → IsReading (read_value item)
unfolding read_value
read_value-IsReading (Item.read_item r) =
    bind-IsReading _ _ (if-IsReading _ _ _ (symbol_by_handle-IsReading r.index_offset) (λ c. refl))
      (λ s. bind-IsReading (read_symbol s) _ (read_symbol-IsReading s) (λ bytes c. refl))
read_value-IsReading _ = λ c. refl

pub read_catchall-IsReading : (item : Item) → IsReading (read_catchall item)
unfolding read_catchall
read_catchall-IsReading (Item.read_item r) = λ c. refl
read_catchall-IsReading _ = λ c. refl

pub read_write_info-IsReading :
    (codec : Codec) (item : Item) → IsReading (read_write_info codec item)
unfolding read_write_info
read_write_info-IsReading codec (Item.read_write_item r) =
    bind-IsReading (symbol_by_payload codec r.payload) _
      (symbol_by_payload-IsReading codec r.payload) (λ s c. ground arith)
read_write_info-IsReading codec _ = λ c. refl

next_handle-IsAtomic : IsAtomic next_handle
unfolding next_handle
next_handle-IsAtomic c e raised = ground arith

-- Nothing raises once the handle is made.
pub read_write_handle-IsAtomic :
    (codec : Codec) (item : Item) → IsAtomic (read_write_handle codec item)
unfolding read_write_handle
read_write_handle-IsAtomic codec (Item.read_write_item r) =
    bind-IsAtomic (symbol_by_payload codec r.payload) _
      (symbol_by_payload-IsReading codec r.payload)
      (λ s. bind-IsAtomic_first next_handle _ next_handle-IsAtomic (λ h b x e. ground arith))
read_write_handle-IsAtomic codec _ = λ c e raised. refl

write_payload-kept :
    (s : Symbol) (payload : Option Bytes) (c : ServerCircuit) (a : Bytes) (e : Exception)
    → symbol_read c.database s ≡ ok a
    → (write_to s payload c).0 ≡ err e
    → (write_to s payload c).1 ≡ c
unfolding write_to write_logged log_written write_payload write_symbol read_symbol
write_payload-kept s none c a e r raised = ground arith
write_payload-kept s (some bytes) c a e r raised =
    elim (Result-cases (symbol_write c.database s bytes)) [
      | inl (x, w) ↦ ground arith
      | inr (db, w) ↦
          let (b, again) = symbol_read-symbol_write_still c.database db s a bytes r w in
          ground arith
    ]

write_to-IsAtomic : (s : Symbol) (payload : Option Bytes) → IsAtomic (write_to s payload)
unfolding write_to read_symbol
write_to-IsAtomic s payload c e raised = elim (Result-cases (symbol_read c.database s)) [
  | inl (x, r) ↦ ground arith
  | inr (a, r) ↦ write_payload-kept s payload c a e r raised
]

pub write_value-IsAtomic : (codec : Codec) (item : Item) → IsAtomic (write_value codec item)
unfolding write_value
write_value-IsAtomic codec (Item.write_item r) =
    bind-IsAtomic _ _
      (if-IsReading _ _ _ (symbol_by_handle-IsReading r.index_offset)
        (symbol_by_payload-IsReading codec r.payload))
      (λ s. write_to-IsAtomic s r.payload)
write_value-IsAtomic codec _ = λ c e raised. refl

pub add_notification-IsAtomic : (item : Item) → IsAtomic (add_notification item)
unfolding add_notification
add_notification-IsAtomic (Item.add_notification_item r) =
    if-IsAtomic _ _ _
      (bind-IsAtomic _ _ (symbol_by_handle-IsReading r.index_offset)
        (λ s. bind-IsAtomic_first next_handle _ next_handle-IsAtomic (λ h b x e. ground arith)))
      (λ c e raised. refl)
add_notification-IsAtomic _ = λ c e raised. refl

pub delete_notification-IsAtomic : (item : Item) → IsAtomic (delete_notification item)
unfolding delete_notification
delete_notification-IsAtomic (Item.delete_notification_item r) c e raised = ground arith
delete_notification-IsAtomic _ c e raised = refl

pub write_release_handle-IsAtomic : (item : Item) → IsAtomic (write_release_handle item)
unfolding write_release_handle
write_release_handle-IsAtomic (Item.write_item r) c e raised = ground arith
write_release_handle-IsAtomic _ c e raised = refl
