-- ===== src/Logging/Lines.antt =====
-- The lines of a text that ads_async/log.py prints.
use ads_async.Prelude.{◌≡◌, ◌∙◌, ap, refl, List, [], ◌∷◌, ◌++◌, Bool-cases, inl, inr, ◌==◌}
use ads_async.Structs.NetId.{split}
use ads_async.Structs.Text.{Text}

-- A text has a line at least.
split-some : (t : Text) → (first : Text) × (lines : List Text) × (split 10 t ≡ first ∷ lines)
unfolding split
split-some [] = ([], [], refl)
split-some (c ∷ cs) =
    let (first, lines, e) = split-some cs in
    elim (Bool-cases (c == 10)) [
      | inl newline ↦ ([], first ∷ lines, rw (e, newline) refl)
      | inr other ↦ (c ∷ first, lines, rw (e, other) refl)
    ]

split-newline : (t : Text) → split 10 (10 ∷ t) ≡ [] ∷ split 10 t
unfolding split
split-newline t = let (first, lines, e) = split-some t in rw e refl

pub split-append : (t u : Text) → split 10 (t ++ (10 ∷ u)) ≡ split 10 t ++ split 10 u
unfolding split
split-append [] u = split-newline u
split-append (c ∷ t) u =
    let (first, lines, e) = split-some t in
    let rest : split 10 (t ++ (10 ∷ u)) ≡ first ∷ (lines ++ split 10 u) =
      split-append t u ∙ ap (λ l. l ++ split 10 u) e in
    elim (Bool-cases (c == 10)) [
      | inl newline ↦ rw (rest, e, newline) refl
      | inr other ↦ rw (rest, e, other) refl
    ]
