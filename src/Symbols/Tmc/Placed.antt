-- ===== src/Symbols/Tmc/Placed.antt =====
-- Where the symbols that ads_async/symbols.py makes of a .tmc file lie.

use ads_async.Prelude.{
  ℕ, ◌+◌, ◌*◌, ◌%◌, ◌≤◌, ◌≡◌, true, false, none, some, List, [], ◌∷◌, ◌++◌, All, ltb, if◌then◌else◌,
  arith, inl, inr, Bool-cases,
}
use ads_async.Prelude.Result.{Result, ok, err, ◌>>=◌}
use ads_async.Constants.{AdsDataType, ctypes_type, CtypesType}
use ads_async.Symbols.Defs.{basic, complex, Symbol}
use ads_async.Symbols.Access.{elements}
use ads_async.Symbols.Tmc.Types.{tmc_type}
use ads_async.Symbols.Tmc.Defs.{
  TmcInfo, TmcItem, item, TmcItems, no_items, one_more, ads_type_name, is_indirect, insert_by,
  sort_by, yield_all, append_symbol,
}

-- The bits that a symbol takes from its byte offset on.
abbrev pub type_bytes : Symbol → ℕ
type_bytes s = elim (ctypes_type s.data_type) [
  | none ↦ 0
  | some c ↦ elements s.array_length * c.size
]

abbrev pub extent : Symbol → ℕ
extent s = elim s.bit_offset [
  | some bits ↦ bits.offset + bits.size
  | none ↦ elim s.kind [
    | complex struct_size ↦ 8 * struct_size
    | basic ↦ if s.pointer then 64 else 8 * type_bytes s
  ]
]

-- The first bit of a symbol, from its byte offset on.
abbrev pub first_bit : Symbol → ℕ
first_bit s = elim s.bit_offset [ some bits ↦ bits.offset | none ↦ 0 ]

-- A symbol whose bits are between two bit offsets.
abbrev pub Within : ℕ → ℕ → Symbol → Type 0
Within low high s = (low ≤ 8 * s.offset + first_bit s) × (8 * s.offset + extent s ≤ high)

-- What a .tmc file says of an item of a basic type: a pointer has 64 bits, and whole bytes are as many
-- as its type takes.
abbrev pub IsSized : TmcInfo → Type 0
IsSized i =
    (is_indirect i.data_type ≡ true → 64 ≤ i.bit_size)
    × ((t : AdsDataType) (c : CtypesType)
        → tmc_type (ads_type_name i.data_type) ≡ some t
        → ctypes_type t ≡ some c
        → i.bit_size % 8 ≡ 0
        → 8 * (elements i.data_type.length * c.size) ≤ i.bit_size)

-- Every item of a basic type is sized, every other one begins at a byte of its parent, and sub-items lie
-- within their item.
abbrev mutual
  pub Fits : TmcItem → Type 0
  Fits (item i subs) =
      (i.data_type.is_complex_type ≡ false → IsSized i)
      × (i.data_type.is_complex_type ≡ true → i.bit_offset % 8 ≡ 0)
      × FitsAll subs i.bit_size

  pub FitsAll : TmcItems → ℕ → Type 0
  FitsAll no_items size = Unit
  FitsAll (one_more (item i subs) rest) size =
      (i.bit_offset + i.bit_size ≤ size) × Fits (item i subs) × FitsAll rest size

abbrev pub Yields : (Symbol → Type 0) → Result (List Symbol) → Type 0
Yields P (ok symbols) = All P symbols
Yields P (err e) = Unit

abbrev pub AllYield : (Symbol → Type 0) → List (ℕ × Result (List Symbol)) → Type 0
AllYield P = All (λ (x : ℕ × Result (List Symbol)). Yields P x.1)

All-append : (P : Symbol → Type 0) (xs ys : List Symbol) → All P xs → All P ys → All P (xs ++ ys)
All-append P [] ys h k = k
All-append P (x ∷ xs) ys h k = (h.0, All-append P xs ys h.1 k)

pub All-Within :
    (low high low' high' : ℕ) (symbols : List Symbol)
    → low ≤ low'
    → high' ≤ high
    → All (Within low' high') symbols
    → All (Within low high) symbols
All-Within low high low' high' [] h k all = tt
All-Within low high low' high' (s ∷ ss) h k ((a, b), rest) =
    ((omega arith, omega arith), All-Within low high low' high' ss h k rest)

pub Yields-Within :
    (low high low' high' : ℕ) (r : Result (List Symbol))
    → low ≤ low'
    → high' ≤ high
    → Yields (Within low' high') r
    → Yields (Within low high) r
Yields-Within low high low' high' (ok symbols) h k all =
    All-Within low high low' high' symbols h k all
Yields-Within low high low' high' (err e) h k all = tt

module _ (P : Symbol → Type 0) where
  insert_by-AllYield :
      (k : ℕ) (r : Result (List Symbol)) (l : List (ℕ × Result (List Symbol)))
      → Yields P r
      → AllYield P l
      → AllYield P (insert_by k r l)
  unfolding insert_by
  insert_by-AllYield k r [] h all = (h, tt)
  insert_by-AllYield k r ((j, s) ∷ l) h all = elim (Bool-cases (ltb j k)) [
    | inl pass ↦ rw pass (all.0, insert_by-AllYield k r l h all.1)
    | inr stop ↦ rw stop (h, all)
  ]

  pub sort_by-AllYield :
      (l : List (ℕ × Result (List Symbol))) → AllYield P l → AllYield P (sort_by l)
  unfolding sort_by
  sort_by-AllYield [] all = tt
  sort_by-AllYield ((k, r) ∷ l) all =
      insert_by-AllYield k r (sort_by l) all.0 (sort_by-AllYield l all.1)

  join_two :
      (r q : Result (List Symbol))
      → Yields P r
      → Yields P q
      → Yields P (do symbols ← r; others ← q; ok (symbols ++ others))
  join_two (err e) q h k = tt
  join_two (ok xs) (err e) h k = tt
  join_two (ok xs) (ok ys) h k = All-append P xs ys h k

  pub yield_all-Yields :
      (l : List (ℕ × Result (List Symbol))) → AllYield P l → Yields P (yield_all l)
  unfolding yield_all
  yield_all-Yields [] all = tt
  yield_all-Yields ((k, r) ∷ l) all = join_two r (yield_all l) all.0 (yield_all-Yields l all.1)

  pub append_symbol-Yields :
      (s : Symbol) (r : Result (List Symbol)) → P s → Yields P r → Yields P (append_symbol s r)
  append_symbol-Yields s (ok xs) h all = All-append P xs (s ∷ []) all (h, tt)
  append_symbol-Yields s (err e) h all = tt
