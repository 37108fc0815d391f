-- ===== src/Symbols/Map/Order.antt =====
-- The order in which `map_symbols_in_memory` of ads_async/symbols.py goes through the symbols.
use mathlib.Core.List.{Perm}
use mathlib.Core.List.Perm
use ads_async.Prelude.{◌≡◌, true, false, List, [], ◌∷◌, All, arith, Bool-cases, inl, inr}
use ads_async.Symbols.Map.Defs.{Entry, comes_before, insert_entry, sort_entries}

-- No entry comes after one that it should come before.
abbrev pub IsOrdered : List Entry → Type 0
IsOrdered [] = Unit
IsOrdered (d ∷ []) = Unit
IsOrdered (d ∷ (e ∷ es)) = (comes_before e d ≡ false) × IsOrdered (e ∷ es)

comes_before_asymm : (d e : Entry) → comes_before d e ≡ true → comes_before e d ≡ false
unfolding comes_before
comes_before_asymm d e h = ground arith

-- A head, and an ordered list after it.
IsOrdered-insert_after :
    (d e : Entry) (es : List Entry)
    → comes_before d e ≡ true
    → IsOrdered (d ∷ es)
    → IsOrdered (insert_entry e es)
    → IsOrdered (d ∷ insert_entry e es)
unfolding insert_entry
IsOrdered-insert_after d e [] h o k = (comes_before_asymm d e h, tt)
IsOrdered-insert_after d e (f ∷ es) h o k = elim (Bool-cases (comes_before f e)) [
  | inl pass ↦ rw pass (o.0, rw pass at k)
  | inr stop ↦ rw stop (comes_before_asymm d e h, rw stop at k)
]

insert_entry-IsOrdered :
    (e : Entry) (es : List Entry) → IsOrdered es → IsOrdered (insert_entry e es)
unfolding insert_entry
insert_entry-IsOrdered e [] o = tt
insert_entry-IsOrdered e (d ∷ []) o = elim (Bool-cases (comes_before d e)) [
  | inl pass ↦ rw pass (comes_before_asymm d e pass, tt)
  | inr stop ↦ rw stop (stop, tt)
]
insert_entry-IsOrdered e (d ∷ (f ∷ es)) o = elim (Bool-cases (comes_before d e)) [
  | inl pass ↦
      rw pass (IsOrdered-insert_after d e (f ∷ es) pass o (insert_entry-IsOrdered e (f ∷ es) o.1))
  | inr stop ↦ rw stop (stop, o)
]

pub sort_entries-IsOrdered : (es : List Entry) → IsOrdered (sort_entries es)
unfolding sort_entries
sort_entries-IsOrdered [] = tt
sort_entries-IsOrdered (e ∷ es) =
    insert_entry-IsOrdered e (sort_entries es) (sort_entries-IsOrdered es)

insert_entry-perm : (e : Entry) (es : List Entry) → Perm (insert_entry e es) (e ∷ es)
unfolding insert_entry
insert_entry-perm e [] = Perm.rfl
insert_entry-perm e (d ∷ ds) = elim (Bool-cases (comes_before d e)) [
  | inl pass ↦ rw pass (Perm.trans (Perm.cons d (insert_entry-perm e ds)) (Perm.swap e d ds))
  | inr stop ↦ rw stop Perm.rfl
]

pub sort_entries-perm : (es : List Entry) → Perm (sort_entries es) es
unfolding sort_entries
sort_entries-perm [] = Perm.rfl
sort_entries-perm (e ∷ es) =
    Perm.trans (insert_entry-perm e (sort_entries es)) (Perm.cons e (sort_entries-perm es))

insert_entry-All :
    (P : Entry → Type 0) (e : Entry) (es : List Entry) → P e → All P es → All P (insert_entry e es)
unfolding insert_entry
insert_entry-All P e [] h all = (h, tt)
insert_entry-All P e (d ∷ ds) h all = elim (Bool-cases (comes_before d e)) [
  | inl pass ↦ rw pass (all.0, insert_entry-All P e ds h all.1)
  | inr stop ↦ rw stop (h, all)
]

pub sort_entries-All : (P : Entry → Type 0) (es : List Entry) → All P es → All P (sort_entries es)
unfolding sort_entries
sort_entries-All P [] all = tt
sort_entries-All P (e ∷ es) all =
    insert_entry-All P e (sort_entries es) all.0 (sort_entries-All P es all.1)
