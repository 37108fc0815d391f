-- ===== src/Logging/Glob.antt =====
-- `fnmatch.fnmatch` of the standard library, which a filter of ads_async/log.py calls: `*`, `?`, `[seq]`
-- and `[!seq]`, on a system where names are not normalized.
use ads_async.Prelude.{
  ℕ, zero, suc, Bool, Bool-cases, inl, inr, true, false, ◌&&◌, ◌||◌, not, ◌≡◌, refl, Option, none,
  some, List, [], ◌∷◌, ◌==◌, leb, if◌then◌else◌, take, arith,
}
use mathlib.Core.Logic.{◌↔◌}
use ads_async.Structs.Text.{Text}

pub data Test : Type 0 where
  any_character : Test
  literal : ℕ → Test
  sequence : Text → Test

pub data GlobItem : Type 0 where
  star : GlobItem
  one : Test → GlobItem

-- A character, or a range of two with a `-` between them. A `-` at an end is itself.
unfoldable in_sequence : ℕ → Text → Bool
in_sequence c [] = false
in_sequence c (a ∷ []) = c == a
in_sequence c (a ∷ (b ∷ [])) = c == a || c == b
in_sequence c (a ∷ (m ∷ (b ∷ cs))) =
    let single = in_sequence c (m ∷ (b ∷ cs)) in
    let range = in_sequence c cs in
    if m == b'-' then (leb a c && leb c b) || range else c == a || single

unfoldable pub accepts : Test → ℕ → Bool
unfolding in_sequence
accepts any_character c = true
accepts (literal a) c = c == a
accepts (sequence []) c = false
accepts (sequence (a ∷ cs)) c = if a == b'!' then not (in_sequence c cs) else in_sequence c (a ∷ cs)

-- How many characters stand before the `]` that ends a sequence. It cannot be the first of them.
abbrev one_more : Option ℕ → Option ℕ
one_more none = none
one_more (some n) = some (suc n)

unfoldable until_bracket : Text → Option ℕ
until_bracket [] = none
until_bracket (c ∷ cs) =
    let rest = one_more (until_bracket cs) in if c == b']' then some 0 else rest

abbrev past_first : Text → Option ℕ
past_first [] = none
past_first (c ∷ cs) = one_more (until_bracket cs)

unfoldable sequence_length : Text → Option ℕ
unfolding until_bracket
sequence_length [] = none
sequence_length (c ∷ cs) = if c == b'!' then one_more (past_first cs) else past_first (c ∷ cs)

-- The first argument counts the characters of a sequence that is read already.
unfoldable pub compile : ℕ → Text → List GlobItem
unfolding sequence_length
compile n [] = []
compile (suc n) (c ∷ cs) = compile n cs
compile zero (c ∷ cs) = elim (c == b'[') [
  | true ↦ elim (sequence_length cs) [
    | none ↦ one (literal c) ∷ compile zero cs
    | some n ↦ one (sequence (take n cs)) ∷ compile (suc n) cs
  ]
  | false ↦
      let rest = compile zero cs in
      if c == b'*'
      then star ∷ rest
      else if c == b'?'
      then one any_character ∷ rest
      else one (literal c) ∷ rest
]

-- A star takes any characters.
abbrev after_star : (Text → Bool) → Text → Bool
after_star rest [] = rest []
after_star rest (c ∷ t) = rest (c ∷ t) || after_star rest t

unfoldable pub glob : List GlobItem → Text → Bool
unfolding accepts
glob [] [] = true
glob [] (_ ∷ _) = false
glob (star ∷ p) t = after_star (glob p) t
glob (one test ∷ p) [] = false
glob (one test ∷ p) (c ∷ t) = accepts test c && glob p t

unfoldable pub fnmatch : Text → Text → Bool
unfolding compile glob
fnmatch name pattern_text = glob (compile 0 pattern_text) name

-- What it means for a text to match, with no order of search in it.
pub data Matches : List GlobItem → Text → Type 0 where
  empty : Matches [] []
  character :
      {test : Test} {c : ℕ} {p : List GlobItem} {t : Text}
      → accepts test c ≡ true
      → Matches p t
      → Matches (one test ∷ p) (c ∷ t)
  leave : {p : List GlobItem} {t : Text} → Matches p t → Matches (star ∷ p) t
  take_one :
      {c : ℕ} {p : List GlobItem} {t : Text} → Matches (star ∷ p) t → Matches (star ∷ p) (c ∷ t)

after_star-Matches :
    (p : List GlobItem)
    → ((t : Text) → glob p t ≡ true → Matches p t)
    → (t : Text) → after_star (glob p) t ≡ true
    → Matches (star ∷ p) t
after_star-Matches p rec [] e = leave (rec [] e)
after_star-Matches p rec (c ∷ t) e = elim (Bool-cases (glob p (c ∷ t))) [
  | inl here ↦ leave (rec (c ∷ t) here)
  | inr later ↦ take_one (after_star-Matches p rec t (rw later at e))
]

glob-Matches : (p : List GlobItem) (t : Text) → glob p t ≡ true → Matches p t
unfolding glob
glob-Matches [] [] e = empty
glob-Matches [] (c ∷ t) e = absurd (cc)
glob-Matches (star ∷ p) t e = after_star-Matches p (glob-Matches p) t e
glob-Matches (one test ∷ p) [] e = absurd (cc)
glob-Matches (one test ∷ p) (c ∷ t) e =
    let both : (accepts test c ≡ true) × (glob p t ≡ true) = (ground arith, ground arith) in
    character both.0 (glob-Matches p t both.1)

after_star-here : (p : List GlobItem) (t : Text) → glob p t ≡ true → after_star (glob p) t ≡ true
after_star-here p [] e = e
after_star-here p (c ∷ t) e = rw e refl

pub later_too : (b : Bool) {c : Bool} → c ≡ true → (b || c) ≡ true
later_too true e = refl
later_too false e = e

Matches-glob : {p : List GlobItem} {t : Text} → Matches p t → glob p t ≡ true
unfolding glob
Matches-glob empty = refl
Matches-glob (character e d) = rw (e, Matches-glob d) refl
Matches-glob (leave {p} {t} d) = after_star-here p t (Matches-glob d)
Matches-glob (take_one {c} {p} {t} d) = later_too (glob p (c ∷ t)) (Matches-glob d)

pub fnmatch_iff :
    (name pattern_text : Text)
    → (fnmatch name pattern_text ≡ true) ↔ Matches (compile 0 pattern_text) name
unfolding fnmatch
fnmatch_iff name pattern_text = (glob-Matches (compile 0 pattern_text) name, Matches-glob)
