-- ===== src/Server/State.antt =====
-- The state of a server's circuit, and methods that change it and may raise. What a method wrote
-- before it raised stays written, so the state comes back beside the exception.
use ads_async.Prelude.{ℕ, none, some, List, [], Dict, contains}
use ads_async.Prelude.Result.{Exception, diverges, Result, ok, err}
use ads_async.Counter.{ThreadsafeCounter, circuit_counter, next}
use ads_async.Symbols.{Symbol, Database}

-- `Notification`
pub record Notification : Type 0 where
  pub handle : ℕ
  pub symbol : Symbol

-- The database is the server's, shared by its circuits; `name` is the server's name in 16 bytes.
pub record ServerCircuit : Type 0 where
  pub database : Database
  pub handle_to_symbol : Dict Symbol
  pub handle_to_notification : Dict Notification
  pub handle_counter : ThreadsafeCounter
  pub notification_counter : ThreadsafeCounter
  pub name : List ℕ

-- A circuit as `_Circuit.__init__` makes it.
unfoldable pub new_circuit : Database → List ℕ → ServerCircuit
new_circuit database name = record {
  database = database;
  handle_to_symbol = [];
  handle_to_notification = [];
  handle_counter = circuit_counter;
  notification_counter = circuit_counter;
  name = name;
}

abbrev pub Exec {ℓ} : Type ℓ → Type ℓ
Exec A = ServerCircuit → Result A × ServerCircuit

module _ {ℓ} {A : Type ℓ} where
  abbrev pub pure : A → Exec A
  pure a c = (ok a, c)

  abbrev pub raise : Exception → Exec A
  raise e c = (err e, c)

  abbrev pub lift : Result A → Exec A
  lift r c = (r, c)

abbrev pub continue {ℓ κ} :
    {A : Type ℓ} {B : Type κ}
    → Result A
    → (A → ServerCircuit → Result B × ServerCircuit)
    → ServerCircuit
    → Result B × ServerCircuit
continue (ok a) f c = f a c
continue (err e) f c = (err e, c)

infixl 5 ◌>>=◌ ◌>>◌
abbrev pub ◌>>=◌ {ℓ κ} : {A : Type ℓ} {B : Type κ} → Exec A → (A → Exec B) → Exec B
◌>>=◌ m f c = let (r, c') = m c in continue r f c'

abbrev pub ◌>>◌ {ℓ κ} : {A : Type ℓ} {B : Type κ} → Exec A → Exec B → Exec B
m >> k = m >>= λ _. k

abbrev pub get : Exec ServerCircuit
get c = (ok c, c)

abbrev pub modify : (ServerCircuit → ServerCircuit) → Exec (Unit {0})
modify f c = (ok tt, f c)

-- `self._handle_counter()`, with `dont_clash_with=self.handle_to_symbol`
unfoldable pub next_handle : Exec ℕ
next_handle c = elim (next (λ h. contains h c.handle_to_symbol) c.handle_counter) [
  | none ↦ (err diverges, c)
  | some counter ↦ (ok counter.value, record c { handle_counter = counter })
]
