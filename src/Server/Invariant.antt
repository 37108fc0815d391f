-- ===== src/Server/Invariant.antt =====
-- What stays true of a circuit of ads_async/protocol.py, whatever it is sent.
use ads_async.Prelude.{
  lookup-insert_cases, lookup-erase_kept, ℕ, ◌<◌, ◌≡◌, refl, sym, ap, ◌∙◌, arith, Bool, true, false,
  if◌then◌else◌, none, some, lookup, insert, Option-cases, inl, inr, Option, contains, List,
}
use ads_async.Prelude.Result.{Result-cases}
use ads_async.Bytes.{Bytes}
use ads_async.Counter.{ThreadsafeCounter, circuit_counter, next}
use ads_async.Counter.Fresh.{next-fresh}
use ads_async.Structs.Item.{Item}
use ads_async.Structs.Text.{Codec}
use ads_async.Symbols.{Symbol, Database, symbol_write}
use ads_async.Server.State.{ServerCircuit, Notification, Exec, ◌>>=◌, new_circuit, next_handle}
use ads_async.Server.Access.{symbol_by_handle, symbol_by_payload, read_symbol, write_symbol}
use ads_async.Server.Handlers.{
  add_notification, delete_notification, write_value, write_to, write_logged, log_written,
  write_payload, read_write_handle, write_release_handle,
}
use ads_async.Server.Atomic.{
  read_symbol-IsReading, symbol_by_handle-IsReading, symbol_by_payload-IsReading,
}
use ads_async.Server.Keeps.{Keeps, IsReading, bind-Keeps}

-- The handles of a circuit: every one below the limit of the counter, and each notification under
-- its own handle.
pub record WellFormed (c : ServerCircuit) : Type 0 where
  pub limit : c.handle_counter.max_count ≡ circuit_counter.max_count
  pub symbol_handles :
      (k : ℕ) (s : Symbol) → lookup k c.handle_to_symbol ≡ some s → k < circuit_counter.max_count
  pub notification_handles :
      (k : ℕ) (n : Notification)
      → lookup k c.handle_to_notification ≡ some n
      → (k < circuit_counter.max_count) × (n.handle ≡ k)

pub new_circuit-WellFormed : (db : Database) (name : List ℕ) → WellFormed (new_circuit db name)
unfolding new_circuit lookup
new_circuit-WellFormed db name = record {
  limit = refl;
  symbol_handles = λ k s e. absurd (cc);
  notification_handles = λ k n e. absurd (cc);
}

pub reading-Keeps {ℓ} :
    {A : Type ℓ} (m : Exec A) (P : ServerCircuit → Type 0) → IsReading m → Keeps P m
reading-Keeps m P h c p = rw (h c) p

-- A new symbol handle, and a new notification, from a counter that has moved.
symbol-WellFormed :
    (c : ServerCircuit) (d : ThreadsafeCounter) (s : Symbol)
    → WellFormed c
    → d.value < c.handle_counter.max_count
    → d.max_count ≡ c.handle_counter.max_count
    → WellFormed
        (record c { handle_counter = d; handle_to_symbol = insert d.value s c.handle_to_symbol })
symbol-WellFormed c d s w lt same = record {
  limit = same ∙ w.limit;
  symbol_handles = λ k t e. elim (lookup-insert_cases d.value k s t c.handle_to_symbol e) [
    | inl (one, _) ↦ omega (arith, lt, one, w.limit)
    | inr old ↦ w.symbol_handles k t old
  ];
  notification_handles = w.notification_handles;
}

notification-WellFormed :
    (c : ServerCircuit) (d : ThreadsafeCounter) (s : Symbol)
    → WellFormed c
    → d.value < c.handle_counter.max_count
    → d.max_count ≡ c.handle_counter.max_count
    → WellFormed (record c {
      handle_counter = d;
      handle_to_notification =
          insert d.value (record { handle = d.value; symbol = s }) c.handle_to_notification;
    })
notification-WellFormed c d s w lt same = record {
  limit = same ∙ w.limit;
  symbol_handles = w.symbol_handles;
  notification_handles = λ k t e.
      elim (lookup-insert_cases d.value k _ t c.handle_to_notification e) [
        | inl (one, own) ↦ (omega (arith, lt, one, w.limit), ap Notification.handle (sym own) ∙ one)
        | inr old ↦ w.notification_handles k t old
      ];
}

-- What runs after `next_handle`, where it keeps the invariant for every handle that is in range.
next_handle-Keeps {ℓ} :
    {A : Type ℓ} (f : ℕ → Exec A)
    → ((c : ServerCircuit) (d : ThreadsafeCounter)
        → WellFormed c
        → d.value < c.handle_counter.max_count
        → d.max_count ≡ c.handle_counter.max_count
        → WellFormed (f d.value (record c { handle_counter = d })).1)
    → Keeps WellFormed (next_handle >>= f)
unfolding next_handle
next_handle-Keeps f h c w =
    elim (Option-cases (next (λ k. contains k c.handle_to_symbol) c.handle_counter)) [
      | inl out ↦ rw (next_handle, out) w
      | inr (d, made) ↦
          let (lt, _, same) =
            next-fresh (λ k. contains k c.handle_to_symbol) c.handle_counter d made in
          rw (next_handle, made) (h c d w lt same)
    ]

if-Keeps {ℓ} :
    {A : Type ℓ} (b : Bool) (m n : Exec A)
    → Keeps WellFormed m
    → Keeps WellFormed n
    → Keeps WellFormed (if b then m else n)
if-Keeps true m n h k = h
if-Keeps false m n h k = k

pub read_write_handle-Keeps :
    (codec : Codec) (item : Item) → Keeps WellFormed (read_write_handle codec item)
unfolding read_write_handle
read_write_handle-Keeps codec (Item.read_write_item r) =
    bind-Keeps _ _ WellFormed
      (reading-Keeps (symbol_by_payload codec r.payload) WellFormed
        (symbol_by_payload-IsReading codec r.payload))
      (λ s. next_handle-Keeps _ (λ c d w lt same. symbol-WellFormed c d s w lt same))
read_write_handle-Keeps codec _ = λ c w. w

pub add_notification-Keeps : (item : Item) → Keeps WellFormed (add_notification item)
unfolding add_notification
add_notification-Keeps (Item.add_notification_item r) =
    if-Keeps _ _ _
      (bind-Keeps _ _ WellFormed
        (reading-Keeps (symbol_by_handle r.index_offset) WellFormed
          (symbol_by_handle-IsReading r.index_offset))
        (λ s. next_handle-Keeps _ (λ c d w lt same. notification-WellFormed c d s w lt same)))
      (λ c w. w)
add_notification-Keeps _ = λ c w. w

pub delete_notification-Keeps : (item : Item) → Keeps WellFormed (delete_notification item)
unfolding delete_notification
delete_notification-Keeps (Item.delete_notification_item r) c w =
    elim (Option-cases (lookup r.handle c.handle_to_notification)) [
      | inl out ↦ rw out w
      | inr (n, found) ↦ rw found (record {
        limit = w.limit;
        symbol_handles = w.symbol_handles;
        notification_handles = λ k t e.
            w.notification_handles k t (lookup-erase_kept r.handle k t c.handle_to_notification e);
      })
    ]
delete_notification-Keeps _ c w = w

pub write_release_handle-Keeps : (item : Item) → Keeps WellFormed (write_release_handle item)
unfolding write_release_handle
write_release_handle-Keeps (Item.write_item r) c w = record {
  limit = w.limit;
  symbol_handles =
      λ k t e. w.symbol_handles k t (lookup-erase_kept r.index_offset k t c.handle_to_symbol e);
  notification_handles = w.notification_handles;
}
write_release_handle-Keeps _ c w = w

-- A write changes the database alone.
database-WellFormed :
    (c : ServerCircuit) (db : Database) → WellFormed c → WellFormed (record c { database = db })
database-WellFormed c db w = record {
  limit = w.limit;
  symbol_handles = w.symbol_handles;
  notification_handles = w.notification_handles;
}

write_payload-Keeps :
    (s : Symbol) (payload : Option Bytes) → Keeps WellFormed (write_payload s payload)
unfolding write_payload write_symbol
write_payload-Keeps s none c w = w
write_payload-Keeps s (some bytes) c w = elim (Result-cases (symbol_write c.database s bytes)) [
  | inl (e, failed) ↦ rw failed w
  | inr (db, written) ↦ rw written (database-WellFormed c db w)
]

log_written-Keeps : (s : Symbol) → Keeps WellFormed (log_written s)
unfolding log_written
log_written-Keeps s =
    bind-Keeps (read_symbol s) _ WellFormed
      (reading-Keeps (read_symbol s) WellFormed (read_symbol-IsReading s)) (λ new c w. w)

write_logged-Keeps :
    (s : Symbol) (payload : Option Bytes) → Keeps WellFormed (write_logged s payload)
unfolding write_logged
write_logged-Keeps s payload =
    bind-Keeps (write_payload s payload) (λ done. log_written s) WellFormed
      (write_payload-Keeps s payload) (λ done. log_written-Keeps s)

write_to-Keeps : (s : Symbol) (payload : Option Bytes) → Keeps WellFormed (write_to s payload)
unfolding write_to
write_to-Keeps s payload =
    bind-Keeps (read_symbol s) (λ old. write_logged s payload) WellFormed
      (reading-Keeps (read_symbol s) WellFormed (read_symbol-IsReading s))
      (λ old. write_logged-Keeps s payload)

pub write_value-Keeps : (codec : Codec) (item : Item) → Keeps WellFormed (write_value codec item)
unfolding write_value
write_value-Keeps codec (Item.write_item r) =
    bind-Keeps _ _ WellFormed
      (if-Keeps _ (symbol_by_handle r.index_offset) (symbol_by_payload codec r.payload)
        (reading-Keeps (symbol_by_handle r.index_offset) WellFormed
          (symbol_by_handle-IsReading r.index_offset))
        (reading-Keeps (symbol_by_payload codec r.payload) WellFormed
          (symbol_by_payload-IsReading codec r.payload)))
      (λ s. write_to-Keeps s r.payload)
write_value-Keeps codec _ = λ c w. w
