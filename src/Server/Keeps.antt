-- ===== src/Server/Keeps.antt =====
-- Properties of a circuit that a method keeps, however it ends, and methods that change nothing
-- when they raise.
use ads_async.Prelude.{◌≡◌, ◌≢◌, refl}
use ads_async.Prelude.Result.{Exception, Result, ok, err}
use ads_async.Server.State.{ServerCircuit, Exec, continue, ◌>>=◌}

abbrev pub Keeps {ℓ} : {A : Type ℓ} → (ServerCircuit → Type 0) → Exec A → Type 0
Keeps P m = (c : ServerCircuit) → P c → P (m c).1

-- What a method that raised left behind is what it was given.
abbrev pub IsAtomic {ℓ} : {A : Type ℓ} → Exec A → Type ℓ
IsAtomic m = (c : ServerCircuit) (e : Exception) → (m c).0 ≡ err e → (m c).1 ≡ c

-- A method that changes nothing at all.
abbrev pub IsReading {ℓ} : {A : Type ℓ} → Exec A → Type 0
IsReading m = (c : ServerCircuit) → (m c).1 ≡ c

module _ {ℓ κ} {A : Type ℓ} {B : Type κ} (m : Exec A) (f : A → Exec B) where
  continue-keeps :
      (P : ServerCircuit → Type 0) (r : Result A) (c : ServerCircuit)
      → ((a : A) → Keeps P (f a))
      → P c
      → P (continue r f c).1
  continue-keeps P (ok a) c k p = k a c p
  continue-keeps P (err e) c k p = p

  pub bind-Keeps :
      (P : ServerCircuit → Type 0) → Keeps P m → ((a : A) → Keeps P (f a)) → Keeps P (m >>= f)
  bind-Keeps P h k c p = continue-keeps P (m c).0 (m c).1 k (h c p)

  continue-reading :
      (r : Result A) (c d : ServerCircuit)
      → ((a : A) → IsReading (f a))
      → d ≡ c
      → (continue r f d).1 ≡ c
  continue-reading (ok a) c d k p = rw p (k a c)
  continue-reading (err e) c d k p = p

  pub bind-IsReading : IsReading m → ((a : A) → IsReading (f a)) → IsReading (m >>= f)
  bind-IsReading h k c = continue-reading (m c).0 c (m c).1 k (h c)

  continue-atomic :
      (r : Result A) (c d : ServerCircuit) (e : Exception)
      → ((a : A) → IsAtomic (f a))
      → d ≡ c
      → (continue r f d).0 ≡ err e
      → (continue r f d).1 ≡ c
  continue-atomic (ok a) c d e k p raised = rw p (k a c e (rw p at raised))
  continue-atomic (err x) c d e k p raised = p

  -- Reading first, and then a method that is atomic.
  pub bind-IsAtomic : IsReading m → ((a : A) → IsAtomic (f a)) → IsAtomic (m >>= f)
  bind-IsAtomic h k c e = continue-atomic (m c).0 c (m c).1 e k (h c)

  continue-atomic_first :
      (r : Result A) (c d : ServerCircuit) (e : Exception)
      → ((a : A) (b : ServerCircuit) (x : Exception) → (f a b).0 ≢ err x)
      → ((x : Exception) → r ≡ err x → d ≡ c)
      → (continue r f d).0 ≡ err e
      → (continue r f d).1 ≡ c
  continue-atomic_first (ok a) c d e k p raised = absurd (k a d e raised)
  continue-atomic_first (err x) c d e k p raised = p x refl

  -- An atomic method first, and then one that never raises.
  pub bind-IsAtomic_first :
      IsAtomic m
      → ((a : A) (b : ServerCircuit) (x : Exception) → (f a b).0 ≢ err x)
      → IsAtomic (m >>= f)
  bind-IsAtomic_first h k c e = continue-atomic_first (m c).0 c (m c).1 e k (h c)
