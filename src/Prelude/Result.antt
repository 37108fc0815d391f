-- ===== src/Prelude/Result.antt =====
-- Python exceptions as values: what a call returns, or the exception that it raises.
use Prim.Native.Nat.{ℕ}
use mathlib.Core.Path.{◌≡◌, refl}
use mathlib.Core.Logic.{◌⊎◌, inl, inr}

-- The exception classes that the modelled code raises or lets through. `request_failed` is
-- `RequestFailedError`, with its `code`; `diverges` is a call that does not
-- return, and `unsent` an exception that is raised later, when a response is serialized.
pub data Exception : Type 0 where
  value_error key_error type_error attribute_error assertion_error struct_error : Exception
  index_error missing_handler not_implemented null_pointer diverges unsent : Exception
  bad_response timeout_error disconnected_error : Exception
  request_failed : ℕ → Exception

pub data Result {ℓ} (A : Type ℓ) : Type ℓ where
  ok : A → Result A
  err : Exception → Result A

infixl 5 ◌>>=◌
abbrev pub ◌>>=◌ {ℓ κ} : {A : Type ℓ} {B : Type κ} → Result A → (A → Result B) → Result B
ok a >>= f = f a
err e >>= f = err e

pub Result-cases {ℓ} :
    {A : Type ℓ} (r : Result A) → ((e : Exception) × (r ≡ err e)) ⊎ ((a : A) × (r ≡ ok a))
Result-cases (err e) = inl (e, refl)
Result-cases (ok a) = inr (a, refl)
