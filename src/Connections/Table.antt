-- ===== src/Connections/Table.antt =====
-- A Python dictionary with the keys of ads_async/protocol.py: net ids as texts, and addresses.
use ads_async.Prelude.{
  ℕ, ◌≡◌, refl, Bool, true, ◌&&◌, Option, none, some, List, [], ◌∷◌, arith, ◌==◌, if◌then◌else◌,
}
use ads_async.Structs.Text.{Text}
use ads_async.Symbols.{same_text}

-- Equality of keys.
pub record Key (K : Type 0) : Type 0 where
  pub same : K → K → Bool
  pub same-eq : (a b : K) → same a b ≡ true → a ≡ b
  pub same_refl : (a : K) → same a a ≡ true

abbrev pub Table : Type 0 → Type 0 → Type 0
Table K V = List (K × V)

module _ {K V : Type 0} ⦃key : Key K⦄ where
  unfoldable pub find : K → Table K V → Option V
  find k [] = none
  find k ((j, v) ∷ t) = if key.same j k then some v else find k t

  unfoldable pub put : K → V → Table K V → Table K V
  put k v [] = (k, v) ∷ []
  put k v ((j, w) ∷ t) = if key.same j k then (k, v) ∷ t else (j, w) ∷ put k v t

  unfoldable pub remove : K → Table K V → Table K V
  remove k [] = []
  remove k ((j, w) ∷ t) = let rest = remove k t in if key.same j k then rest else (j, w) ∷ rest

  pub find-put :
      (k i : K) (v : V) (t : Table K V)
      → find i (put k v t) ≡ (if key.same k i then some v else find i t)
  unfolding find put
  find-put k i v [] = refl
  find-put k i v ((j, w) ∷ t) =
      ground (arith, key.same-eq j k, key.same-eq j i, key.same-eq k i, find-put k i v t)

  pub find-remove :
      (k i : K) (t : Table K V) → find i (remove k t) ≡ (if key.same k i then none else find i t)
  unfolding find remove
  find-remove k i [] = ground arith
  find-remove k i ((j, w) ∷ t) =
      ground (arith, key.same-eq j k, key.same-eq j i, key.same-eq k i, find-remove k i t)

-- An address is a host and a port.
pub record Address : Type 0 where
  pub host : Text
  pub port : ℕ

pub same_text-eq : (s t : Text) → same_text s t ≡ true → s ≡ t
unfolding same_text
same_text-eq [] [] h = refl
same_text-eq [] (b ∷ t) h = absurd (cc)
same_text-eq (a ∷ s) [] h = absurd (cc)
same_text-eq (a ∷ s) (b ∷ t) h = ground (arith, same_text-eq s t)

pub same_text_refl : (s : Text) → same_text s s ≡ true
unfolding same_text
same_text_refl [] = refl
same_text_refl (a ∷ s) = ground (arith, same_text_refl s)

unfoldable pub same_address : Address → Address → Bool
unfolding same_text
same_address a b = same_text a.host b.host && a.port == b.port

pub same_address-eq : (a b : Address) → same_address a b ≡ true → a ≡ b
unfolding same_address
same_address-eq a b h = ground (arith, same_text-eq a.host b.host)

pub same_address_refl : (a : Address) → same_address a a ≡ true
unfolding same_address
same_address_refl a = ground (arith, same_text_refl a.host)

instance abbrev pub text_key : Key Text
text_key = record { same = same_text; same-eq = same_text-eq; same_refl = same_text_refl }

instance abbrev pub address_key : Key Address
address_key = record {
  same = same_address;
  same-eq = same_address-eq;
  same_refl = same_address_refl;
}
