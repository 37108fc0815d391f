-- ===== src/Symbols/Map/Marks.antt =====
-- What the loops of `map_symbols_in_memory` of ads_async/symbols.py leave at each byte.
use ads_async.Prelude.{
  ℕ, zero, suc, ◌+◌, ◌≤◌, ◌<◌, ◌≡◌, refl, ap, sym, ◌∙◌, Bool, true, false, ◌&&◌, List, [], ◌∷◌,
  ◌++◌, All, length, get_or, set, ltb, leb, ◌==◌, if◌then◌else◌, arith, Bool-cases, ==→eq, inl, inr,
  lt→ltb, le→ltb, leb→le, ◌⊎◌,
}
use mathlib.Core.Path.{subst}
use mathlib.Core.List.{append_assoc, append-nil}
use ads_async.Prelude.Result.{ok, err, key_error}
use ads_async.Symbols.Defs.{Symbol}
use ads_async.Symbols.Map.Defs.{Entry, ByteMap, mark, mark_all}

abbrev pub covers : ℕ → ℕ → ℕ → Bool
covers start size i = leb start i && ltb i (start + size)

-- The symbols of the entries that a byte lies in, in their order.
unfoldable pub covering : ℕ → List Entry → List Symbol
covering i [] = []
covering i (e ∷ es) =
    let rest = covering i es in if covers e.start e.size i then e.symbol ∷ rest else rest

length-set : {A : Type 0} (xs : List A) (j : ℕ) (v : A) → length (set xs j v) ≡ length xs
length-set [] j v = refl
length-set (x ∷ xs) zero v = refl
length-set (x ∷ xs) (suc j) v = ap suc (length-set xs j v)

get_or-set :
    {A : Type 0} (xs : List A) (i j : ℕ) (v d : A)
    → j < length xs
    → get_or (set xs j v) i d ≡ (if j == i then v else get_or xs i d)
get_or-set [] i j v d h = absurd (omega arith)
get_or-set (x ∷ xs) zero zero v d h = refl
get_or-set (x ∷ xs) (suc i) zero v d h = ground arith
get_or-set (x ∷ xs) zero (suc j) v d h = ground arith
get_or-set (x ∷ xs) (suc i) (suc j) v d h = ground (arith, get_or-set xs i j v d)

-- One more byte at the front of a range.
range_step :
    (start count i : ℕ) (s : Symbol) (now later : List Symbol) (first : List Symbol)
    → (start ≡ i → first ≡ now ++ (s ∷ []))
    → later ≡ (if start == i then first else now)
    → (if covers (start + 1) count i then later ++ (s ∷ []) else later)
      ≡ (if covers start (suc count) i then now ++ (s ∷ []) else now)
range_step start count i s now later first same e = elim (Bool-cases (start == i)) [
  | inl here ↦ let eq : start ≡ i = ==→eq _ _ here in ground (arith, same eq, e, eq)
  | inr elsewhere ↦ ground (arith, e, elsewhere)
]

-- Marking a range that is in the map adds the symbol at its bytes, and nowhere else.
mark-Marked :
    (count start : ℕ) (s : Symbol) (m : ByteMap)
    → start + count ≤ length m
    → (m' : ByteMap) × (mark start count s m ≡ ok m')
      × (length m' ≡ length m)
      × ((i : ℕ)
          → get_or m' i []
            ≡ (if covers start count i then get_or m i [] ++ (s ∷ []) else get_or m i []))
unfolding mark
mark-Marked zero start s m h = (m, refl, refl, λ i. ground arith)
mark-Marked (suc count) start s m h =
    let inside : ltb start (length m) ≡ true = lt→ltb _ _ (omega arith) in
    let m1 = set m start (get_or m start [] ++ (s ∷ [])) in
    let (m', e, len, at) =
      mark-Marked count (start + 1) s m1
        (omega (arith, length-set m start (get_or m start [] ++ (s ∷ [])))) in
    (
      m',
      rw (mark, inside) e,
      len ∙ length-set m start _,
      λ i.
          at i
          ∙ range_step start count i s (get_or m i []) (get_or m1 i [])
              (get_or m start [] ++ (s ∷ [])) (λ eq. ap (λ j. get_or m j [] ++ (s ∷ [])) eq)
              (get_or-set m i start (get_or m start [] ++ (s ∷ [])) [] (omega arith)),
    )

-- Every entry ends within the map.
abbrev pub FitIn : ℕ → List Entry → Type 0
FitIn n = All (λ (e : Entry). e.start + e.size ≤ n)

-- The loop over entries that end within the map adds at each byte, after what stood there, the symbols
-- that cover it, in the order of the loop.
pub mark_all-Marked :
    (es : List Entry) (m : ByteMap)
    → FitIn (length m) es
    → (m' : ByteMap) × (mark_all es m ≡ ok m')
      × (length m' ≡ length m)
      × ((i : ℕ) → get_or m' i [] ≡ get_or m i [] ++ covering i es)
unfolding mark_all covering
mark_all-Marked [] m h = (m, refl, refl, λ i. sym (append-nil (get_or m i [])))
mark_all-Marked (e ∷ es) m h =
    let (m1, e1, len1, at1) = mark-Marked e.size e.start e.symbol m h.0 in
    let (m', e2, len2, at2) = mark_all-Marked es m1 (subst (λ n. FitIn n es) (sym len1) h.1) in
    (
      m',
      rw (mark_all, e1) e2,
      len2 ∙ len1,
      λ i. at2 i ∙ ap (λ x. x ++ covering i es) (at1 i) ∙ joined i (covers e.start e.size i),
    )
  where
    joined :
        (i : ℕ) (b : Bool)
        → (if b then get_or m i [] ++ (e.symbol ∷ []) else get_or m i []) ++ covering i es
          ≡ get_or m i [] ++ (if b then e.symbol ∷ covering i es else covering i es)
    joined i true = append_assoc (get_or m i []) (e.symbol ∷ []) (covering i es)
    joined i false = refl

-- An entry that reaches past the map, where those before it do not, ends in a `KeyError`.
mark-past :
    (count start : ℕ) (s : Symbol) (m : ByteMap)
    → length m < start + count
    → 0 < count
    → mark start count s m ≡ err key_error
unfolding mark
mark-past zero start s m h pos = absurd (omega arith)
mark-past (suc zero) start s m h pos = rw (mark, le→ltb start (length m) (omega arith)) refl
mark-past (suc (suc count)) start s m h pos = elim (Bool-cases (ltb start (length m))) [
  | inl inside ↦
      rw (mark, inside)
        (mark-past (suc count) (start + 1) s (set m start (get_or m start [] ++ (s ∷ [])))
          (omega (arith, length-set m start (get_or m start [] ++ (s ∷ [])))) (omega arith))
  | inr outside ↦ rw (mark, outside) refl
]

-- Some entry reaches past a map of that length.
abbrev pub ReachPast : ℕ → List Entry → Type 0
ReachPast n [] = ⊥
ReachPast n (e ∷ es) = ((n < e.start + e.size) × (0 < e.size)) ⊎ ReachPast n es

mark-empty : (e : Entry) (m : ByteMap) → e.size ≡ 0 → mark e.start e.size e.symbol m ≡ ok m
unfolding mark
mark-empty e m h = ap (λ n. mark e.start n e.symbol m) h

pub mark_all-past :
    (es : List Entry) (m : ByteMap) → ReachPast (length m) es → mark_all es m ≡ err key_error
unfolding mark_all
mark_all-past [] m h = absurd h
mark_all-past (e ∷ es) m (inl (past, pos)) =
    rw (mark_all, mark-past e.size e.start e.symbol m past pos) refl
mark_all-past (e ∷ es) m (inr later) = elim (Bool-cases (leb (e.start + e.size) (length m))) [
  | inl fits ↦
      let (m1, e1, len1, at1) = mark-Marked e.size e.start e.symbol m (leb→le _ _ fits) in
      rw (mark_all, e1) (mark_all-past es m1 (subst (λ n. ReachPast n es) (sym len1) later))
  | inr over ↦ elim (Bool-cases (e.size == 0)) [
    | inl empty ↦ rw (mark_all, mark-empty e m (==→eq _ _ empty)) (mark_all-past es m later)
    | inr some_bytes ↦
        let past : length m < e.start + e.size = ground arith in
        let pos : 0 < e.size = ground arith in
        rw (mark_all, mark-past e.size e.start e.symbol m past pos) refl
  ]
]
