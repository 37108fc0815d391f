-- ===== src/Symbols/Map/Lines.antt =====
-- The lines of `dump_memory` of ads_async/symbols.py against the texts of the bytes.
use ads_async.Prelude.{
  ℕ, zero, suc, ◌+◌, ◌-◌, ◌≤◌, ◌≡◌, refl, sym, ap, ◌∙◌, inl, inr, Bool-cases, List, [], ◌∷◌, ◌++◌,
  map, length, drop, replicate, length-drop, arith,
}
use ads_async.Structs.Text.{Text}
use ads_async.Symbols.Defs.{same_text}
use ads_async.Connections.Table.{same_text-eq}
use ads_async.Symbols.Map.Defs.{ByteMap}
use ads_async.Symbols.Map.Dump.{Line, find_subsequent_matches, dump_loop, dump_memory, output_of}

-- The texts that lines stand for, where they begin at a byte and leave no byte out.
unfoldable pub texts_of : List Line → List Text
texts_of [] = []
texts_of (l ∷ ls) = replicate (l.end_idx + 1 - l.start_idx) l.text ++ texts_of ls

-- The lines begin at a byte, and each where the one before it ends.
abbrev pub Consecutive : ℕ → List Line → Type 0
Consecutive start [] = Unit
Consecutive start (l ∷ ls) =
    (l.start_idx ≡ start) × (start ≤ l.end_idx) × Consecutive (l.end_idx + 1) ls

-- The matches that are found are that text, over and over.
find-matches :
    (idx : ℕ) (text : Text) (output : List Text)
    → 1 ≤ idx
    → (k : ℕ) × (find_subsequent_matches idx text output ≡ idx + k - 1)
      × (k ≤ length output)
      × (output ≡ replicate k text ++ drop k output)
unfolding find_subsequent_matches
find-matches idx text [] h =
    let none : idx - 1 ≡ idx + 0 - 1 = omega arith in (0, none, omega arith, refl)
find-matches idx text (t ∷ ts) h = elim (Bool-cases (same_text t text)) [
  | inl same ↦
      let (k, found, few, shape) = find-matches (idx + 1) text ts (omega arith) in
      (
        suc k,
        rw (find_subsequent_matches, same) (found ∙ omega arith),
        omega arith,
        rw (same_text-eq t text same) (ap (λ u. text ∷ u) shape),
      )
  | inr other ↦ (0, rw (find_subsequent_matches, other) (omega arith), omega arith, refl)
]

dump_loop_lem :
    (fuel start : ℕ) (output : List Text)
    → length output ≤ fuel
    → (texts_of (dump_loop fuel start output) ≡ output)
      × Consecutive start (dump_loop fuel start output)
unfolding texts_of dump_loop
dump_loop_lem zero start [] h = (refl, tt)
dump_loop_lem zero start (t ∷ ts) h = absurd (omega arith)
dump_loop_lem (suc fuel) start [] h = (refl, tt)
dump_loop_lem (suc fuel) start (t ∷ ts) h =
    let (k, found, few, shape) = find-matches (start + 1) t ts (omega arith) in
    let end : find_subsequent_matches (start + 1) t ts ≡ start + k = found ∙ omega arith in
    let wide : start + k + 1 - start ≡ suc k = omega arith in
    let inner : start + k - start ≡ k = omega arith in
    let (same, rest) =
      dump_loop_lem fuel (start + k + 1) (drop k ts) (omega (arith, length-drop k ts)) in
    rw (end, inner) (rw (wide, same) (ap (λ u. t ∷ u) (sym shape)), (refl, omega arith, rest))

length-map : {A B : Type 0} (f : A → B) (xs : List A) → length (map f xs) ≡ length xs
length-map f [] = refl
length-map f (x ∷ xs) = omega (arith, length-map f xs)

-- The lines of a dump are a run-length encoding of the texts of the bytes: the first begins at byte 0,
-- each other one where the one before it ends, and together they give each byte its text.
pub dump_memory-texts :
    (m : ByteMap) → (texts_of (dump_memory m) ≡ output_of m) × Consecutive 0 (dump_memory m)
unfolding dump_memory output_of
dump_memory-texts m = dump_loop_lem (length m) 0 (output_of m) (omega (arith, length-map _ m))
