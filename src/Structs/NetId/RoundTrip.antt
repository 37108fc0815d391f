-- ===== src/Structs/NetId/RoundTrip.antt =====
-- `from_string` of ads_async/structs.py reads what `__repr__` prints.
use ads_async.Prelude.{
  ℕ, ◌<◌, ◌≡◌, refl, ap, sym, ◌∙◌, some, none, Option, Option-cases, inl, inr, List, [], ◌∷◌, ◌++◌,
  map, All, arith, ◌==◌, false, Bool-cases,
}
use ads_async.Prelude.Result.{ok}
use ads_async.Structs.Address.{AmsNetId}
use ads_async.Structs.Text.{Text}
use ads_async.Structs.NetId.Defs.{
  split, join, octet, octets, six, of_octets, from_string, decimal, repr, signed, positive,
  negative, digits_value, lstrip, rstrip,
}
use ads_async.Structs.NetId.Decimal.{IsDigit, decimal-IsDigit, octet-decimal}

-- A text of digits has no separator in it.
split-digits : (t : Text) → All IsDigit t → split b'.' t ≡ t ∷ []
unfolding split
split-digits [] h = refl
split-digits (c ∷ t) h =
    let other : (c == b'.') ≡ false = ground arith in rw (split, split-digits t h.1, other) refl

-- There is always a first part.
split-cons : (sep : ℕ) (t : Text) → (p : Text) × (ps : List Text) × (split sep t ≡ p ∷ ps)
unfolding split
split-cons sep [] = ([], [], refl)
split-cons sep (c ∷ t) =
    let (p, ps, e) = split-cons sep t in
    elim (Bool-cases (c == sep)) [
      | inl cut ↦ ([], p ∷ ps, rw (split, e, cut) refl)
      | inr inside ↦ (c ∷ p, ps, rw (split, e, inside) refl)
    ]

split-append :
    (t rest : Text) → All IsDigit t → split b'.' (t ++ (b'.' ∷ rest)) ≡ t ∷ split b'.' rest
unfolding split
split-append [] rest h = let (p, ps, e) = split-cons b'.' rest in rw (split, e) refl
split-append (c ∷ t) rest h =
    let other : (c == b'.') ≡ false = ground arith in
    rw (split, split-append t rest h.1, other) refl

-- Joining texts of digits and splitting them again changes nothing.
split-join :
    (part : Text) (parts : List Text)
    → All (All IsDigit) (part ∷ parts)
    → split b'.' (join b'.' (part ∷ parts)) ≡ part ∷ parts
unfolding join
split-join part [] h = split-digits part h.0
split-join part (next ∷ parts) h =
    split-append part (join b'.' (next ∷ parts)) h.0
    ∙ ap (λ ps. part ∷ ps) (split-join next parts h.1)

octets-decimal : (ns : List ℕ) → All (λ n. n < 256) ns → octets (map decimal ns) ≡ some ns
unfolding octets
octets-decimal [] h = refl
octets-decimal (n ∷ ns) h = rw (octets, octet-decimal n h.0, octets-decimal ns h.1) refl

-- Every octet fits its byte.
abbrev pub IsNetId : AmsNetId → Type 0
IsNetId a =
    (a.octet1 < 256)
    × (a.octet2 < 256)
    × (a.octet3 < 256)
    × (a.octet4 < 256)
    × (a.octet5 < 256)
    × (a.octet6 < 256)

-- The text of a net id, whose octets are bytes, is read back as the same net id.
pub from_string-repr : (a : AmsNetId) → IsNetId a → from_string (repr a) ≡ ok a
unfolding from_string repr
from_string-repr a (h1, h2, h3, h4, h5, h6) =
    let d = decimal-IsDigit in
    ap (λ ps. of_octets (octets ps))
      (split-join (decimal a.octet1)
        (decimal a.octet2
          ∷ decimal a.octet3
          ∷ decimal a.octet4
          ∷ decimal a.octet5
          ∷ decimal a.octet6
          ∷ [])
        (d a.octet1, (d a.octet2, (d a.octet3, (d a.octet4, (d a.octet5, (d a.octet6, tt)))))))
    ∙ ap of_octets (
        octets-decimal (a.octet1 ∷ a.octet2 ∷ a.octet3 ∷ a.octet4 ∷ a.octet5 ∷ a.octet6 ∷ [])
          (h1, (h2, (h3, (h4, (h5, (h6, tt)))))))

-- Two net ids whose octets are bytes have the same text only if they are the same.
pub repr-injective : (a b : AmsNetId) → IsNetId a → IsNetId b → repr a ≡ repr b → a ≡ b
repr-injective a b ha hb e =
    ok_injective (sym (from_string-repr a ha) ∙ ap from_string e ∙ from_string-repr b hb)
  where
    ok_injective : {x y : AmsNetId} → ok x ≡ ok y → x ≡ y
    ok_injective h = cc

-- What `c_uint8` keeps is a byte.
signed_octet_lt : (t : Text) (n : ℕ) → signed positive negative t ≡ some n → n < 256
unfolding signed
signed_octet_lt [] n h = absurd (cc)
signed_octet_lt (c ∷ t) n h = ground (
  arith,
  positive_lt (digits_value 0 false t) n,
  negative_lt (digits_value 0 false t) n,
  positive_lt (digits_value 0 false (c ∷ t)) n,
)
  where
    positive_lt : (o : Option ℕ) (n : ℕ) → positive o ≡ some n → n < 256
    positive_lt none n e = absurd (cc)
    positive_lt (some m) n e = ground arith

    negative_lt : (o : Option ℕ) (n : ℕ) → negative o ≡ some n → n < 256
    negative_lt none n e = absurd (cc)
    negative_lt (some m) n e = ground arith

octets_lt : (ps : List Text) (ns : List ℕ) → octets ps ≡ some ns → All (λ n. n < 256) ns
unfolding octets octet
octets_lt [] ns h = rw (← some_injective h) tt
  where
    some_injective : {a b : List ℕ} → some a ≡ some b → a ≡ b
    some_injective h = cc
octets_lt (p ∷ ps) ns h = elim (Option-cases (octet p)) [
  | inl out ↦ absurd (ground (arith, h, out))
  | inr (n, e) ↦ elim (Option-cases (octets ps)) [
    | inl out ↦ absurd (ground (arith, h, e, out))
    | inr (rest, f) ↦
        let whole : n ∷ rest ≡ ns = ground (arith, h, e, f) in
        rw (← whole) (signed_octet_lt (rstrip (lstrip p)) n e, octets_lt ps rest f)
  ]
]

six-IsNetId : (ns : List ℕ) (a : AmsNetId) → All (λ n. n < 256) ns → six ns ≡ ok a → IsNetId a
six-IsNetId [] a all h = absurd (cc)
six-IsNetId (m ∷ []) a all h = absurd (cc)
six-IsNetId (m ∷ (n ∷ [])) a all h = absurd (cc)
six-IsNetId (m ∷ (n ∷ (o ∷ []))) a all h = absurd (cc)
six-IsNetId (m ∷ (n ∷ (o ∷ (p ∷ [])))) a all h = absurd (cc)
six-IsNetId (m ∷ (n ∷ (o ∷ (p ∷ (q ∷ []))))) a all h = absurd (cc)
six-IsNetId (m ∷ (n ∷ (o ∷ (p ∷ (q ∷ (r ∷ [])))))) a (h1, (h2, (h3, (h4, (h5, (h6, _)))))) h =
    ground arith
six-IsNetId (m ∷ (n ∷ (o ∷ (p ∷ (q ∷ (r ∷ (s ∷ ns))))))) a all h = absurd (cc)

-- Whatever a text holds, a net id that is made of it has six octets that are bytes.
pub from_string-IsNetId : (t : Text) (a : AmsNetId) → from_string t ≡ ok a → IsNetId a
unfolding from_string
from_string-IsNetId t a h = elim (Option-cases (octets (split b'.' t))) [
  | inl out ↦ absurd (ground (arith, h, out))
  | inr (ns, e) ↦ six-IsNetId ns a (octets_lt (split b'.' t) ns e) (sym (ap of_octets e) ∙ h)
]
