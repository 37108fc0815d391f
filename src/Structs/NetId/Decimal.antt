-- ===== src/Structs/NetId/Decimal.antt =====
-- `int` reads what `str` prints, for the octets of a net id of ads_async/structs.py.
use ads_async.Prelude.{
  Option, none, sym, ℕ, zero, suc, ◌+◌, ◌-◌, ◌*◌, ◌/◌, ◌%◌, ◌<◌, ◌≤◌, ◌≡◌, refl, ap, ◌∙◌, Bool,
  true, false, some, [], ◌∷◌, All, arith, ◌==◌, Bool-cases, inl, inr,
}
use ads_async.Structs.Text.{Text}
use ads_async.Structs.NetId.Defs.{
  is_digit, digits_value, digits_from, decimal, lstrip, rstrip, signed, negative, octet, positive,
}

abbrev pub IsDigit : ℕ → Type 0
IsDigit c = (b'0' ≤ c) × (c ≤ b'9')

digits_value-digit :
    (n d : ℕ) (seen : Bool) (out : Text)
    → d < 10
    → digits_value n seen ((b'0' + d) ∷ out) ≡ digits_value (n * 10 + d) true out
unfolding digits_value
digits_value-digit n d seen out h =
    let test : is_digit (b'0' + d) ≡ true = ground arith in
    let value : n * 10 + (b'0' + d - b'0') ≡ n * 10 + d = omega arith in
    rw (digits_value, test, value) refl

-- Scanning the digits of `n`, whatever follows them, goes on from `n`.
digits_value-digits_from :
    (fuel n : ℕ) (seen : Bool) (out : Text)
    → n < fuel
    → digits_value 0 seen (digits_from fuel n out) ≡ digits_value n true out
unfolding digits_from
digits_value-digits_from zero n seen out h = absurd (omega arith)
digits_value-digits_from (suc fuel) n seen out h = elim (Bool-cases (n / 10 == 0)) [
  | inl one ↦
      let same : 0 * 10 + n % 10 ≡ n = ground arith in
      rw one (
        digits_value-digit 0 (n % 10) seen out (omega arith)
        ∙ ap (λ k. digits_value k true out) same)
  | inr more ↦
      let same : (n / 10) * 10 + n % 10 ≡ n = omega arith in
      rw more (
        digits_value-digits_from fuel (n / 10) seen ((b'0' + n % 10) ∷ out) (ground arith)
        ∙ digits_value-digit (n / 10) (n % 10) true out (omega arith)
        ∙ ap (λ k. digits_value k true out) same)
]

digits_from-IsDigit :
    (fuel n : ℕ) (out : Text) → All IsDigit out → All IsDigit (digits_from fuel n out)
unfolding digits_from
digits_from-IsDigit zero n out h = h
digits_from-IsDigit (suc fuel) n out h = elim (Bool-cases (n / 10 == 0)) [
  | inl one ↦ rw one ((omega arith, omega arith), h)
  | inr more ↦
      rw more
        (digits_from-IsDigit fuel (n / 10) ((b'0' + n % 10) ∷ out) ((omega arith, omega arith), h))
]

pub decimal-IsDigit : (n : ℕ) → All IsDigit (decimal n)
unfolding decimal
decimal-IsDigit n = digits_from-IsDigit (suc n) n [] tt

digits_value-decimal : (n : ℕ) (seen : Bool) → digits_value 0 seen (decimal n) ≡ some n
unfolding decimal digits_value
digits_value-decimal n seen = digits_value-digits_from (suc n) n seen [] (omega arith)

lstrip_id : (t : Text) → All IsDigit t → lstrip t ≡ t
unfolding lstrip
lstrip_id [] h = refl
lstrip_id (c ∷ t) h = ground arith

rstrip_id : (t : Text) → All IsDigit t → rstrip t ≡ t
unfolding rstrip
rstrip_id [] h = refl
rstrip_id (c ∷ []) h = ground arith
rstrip_id (c ∷ (d ∷ t)) h = rw (rstrip_id (d ∷ t) h.1) refl

module _ {A : Type 0} (positive negative : Option ℕ → Option A) (empty : positive none ≡ none) where
  -- A text of digits has no sign.
  signed-digits :
      (t : Text) → All IsDigit t → signed positive negative t ≡ positive (digits_value 0 false t)
  unfolding signed digits_value
  signed-digits [] h = sym empty
  signed-digits (c ∷ t) h =
      let minus : (c == b'-') ≡ false = ground arith in
      let plus : (c == b'+') ≡ false = ground arith in rw (signed, minus, plus) refl

  -- The decimal text of a number is read back.
  pub signed-decimal :
      (n : ℕ) → signed positive negative (rstrip (lstrip (decimal n))) ≡ positive (some n)
  signed-decimal n =
      ap (λ t. signed positive negative (rstrip t)) (lstrip_id (decimal n) (decimal-IsDigit n))
      ∙ ap (signed positive negative) (rstrip_id (decimal n) (decimal-IsDigit n))
      ∙ signed-digits (decimal n) (decimal-IsDigit n)
      ∙ ap positive (digits_value-decimal n false)

-- An octet is read back from its decimal text.
pub octet-decimal : (n : ℕ) → n < 256 → octet (decimal n) ≡ some n
unfolding octet
octet-decimal n h =
    let small : n % 256 ≡ n = omega arith in signed-decimal positive negative refl n ∙ ap some small
