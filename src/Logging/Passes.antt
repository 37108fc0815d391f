-- ===== src/Logging/Passes.antt =====
-- Which records pass `SymbolFilter` of ads_async/log.py.
use mathlib.Core.Logic.{◌↔◌}
use ads_async.Prelude.{
  ◌≤◌, ◌≡◌, refl, Bool, Bool-cases, true, false, Option, none, some, inl, inr, List, [], ◌∷◌, leb,
  leb→le, le→leb, if◌then◌else◌, arith,
}
use ads_async.Structs.Text.{Text}
use ads_async.Logging.Glob.{Matches, compile, fnmatch, fnmatch_iff, later_too}
use ads_async.Logging.Defs.{LogRecord, SymbolFilter, any_match, filter_symbol}

-- Some name of the filter matches.
pub data AnyMatch (t : Text) : List Text → Type 0 where
  here : {n : Text} {ns : List Text} → Matches (compile 0 n) t → AnyMatch t (n ∷ ns)
  there : {n : Text} {ns : List Text} → AnyMatch t ns → AnyMatch t (n ∷ ns)

any_match-AnyMatch : (t : Text) (ns : List Text) → any_match t ns ≡ true → AnyMatch t ns
unfolding any_match
any_match-AnyMatch t [] e = absurd (cc)
any_match-AnyMatch t (n ∷ ns) e = elim (Bool-cases (fnmatch t n)) [
  | inl yes_here ↦ here ((fnmatch_iff t n).0 yes_here)
  | inr no_here ↦ there (any_match-AnyMatch t ns (rw no_here at e))
]

AnyMatch-any_match : (t : Text) (ns : List Text) → AnyMatch t ns → any_match t ns ≡ true
unfolding any_match
AnyMatch-any_match t (n ∷ ns) (here m) = rw ((fnmatch_iff t n).1 m) refl
AnyMatch-any_match t (n ∷ ns) (there m) = later_too (fnmatch t n) (AnyMatch-any_match t ns m)
AnyMatch-any_match t [] m = elim m [ ]

or_else_true : (b : Bool) {x : Bool} → x ≡ true → (if b then true else x) ≡ true
or_else_true true e = refl
or_else_true false e = e

-- What a `SymbolFilter` is documented to pass.
pub data Passes (f : SymbolFilter) (r : LogRecord) : Type 0 where
  high : f.levelno ≤ r.levelno → Passes f r
  about : (t : Text) → r.symbol ≡ some t → AnyMatch t f.names → Passes f r
  not_applicable : r.symbol ≡ none → f.exclusive ≡ false → Passes f r

module _ (f : SymbolFilter) (r : LogRecord) where
  by_symbol :
      (o : Option Text)
      → r.symbol ≡ o
      → leb f.levelno r.levelno ≡ false
      → filter_symbol f r ≡ true
      → Passes f r
  unfolding filter_symbol
  by_symbol none s low e = not_applicable s (ground (arith, low, s, e))
  by_symbol (some t) s low e = about t s (any_match-AnyMatch t f.names (rw (low, s) at e))

  filter_symbol-Passes : filter_symbol f r ≡ true → Passes f r
  filter_symbol-Passes e = elim (Bool-cases (leb f.levelno r.levelno)) [
    | inl enough ↦ high (leb→le f.levelno r.levelno enough)
    | inr low ↦ by_symbol r.symbol refl low e
  ]

  Passes-filter_symbol : Passes f r → filter_symbol f r ≡ true
  unfolding filter_symbol
  Passes-filter_symbol (high h) = rw (le→leb f.levelno r.levelno h) refl
  Passes-filter_symbol (about t s m) =
      or_else_true (leb f.levelno r.levelno) (rw s (AnyMatch-any_match t f.names m))
  Passes-filter_symbol (not_applicable s x) =
      or_else_true (leb f.levelno r.levelno) (rw (s, x) refl)

  -- A record passes a `SymbolFilter` just then when it is of the filter's level at least, or is of a
  -- symbol that matches one of the names, or is of no symbol and the filter is not exclusive.
  pub filter_symbol_iff : (filter_symbol f r ≡ true) ↔ Passes f r
  filter_symbol_iff = (filter_symbol-Passes, Passes-filter_symbol)
