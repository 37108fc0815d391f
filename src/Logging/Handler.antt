-- ===== src/Logging/Handler.antt =====
-- The handlers that `configure` of ads_async/log.py puts on the logger of the package.
use ads_async.Prelude.{
  zero, suc, inl, inr, ◌⊎◌, ℕ, ◌≤◌, ◌≡◌, refl, ap, ◌∙◌, Option, none, some, List, [], ◌∷◌, ◌++◌,
  All, Dict, lookup, insert, erase, contains, ltb, ◌==◌, if◌then◌else◌, arith, true, false,
}
use ads_async.Prelude.Result.{Result, ok, err}
use ads_async.Logging.Defs.{Level, validate_level}

-- The logger of the package: its handlers, which are numbered, with their levels; and
-- `current_handler`. `parent_level` is the effective level of the loggers above it.
pub record Logger : Type 0 where
  pub handlers : Dict ℕ
  pub level : ℕ
  pub parent_level : ℕ
  pub current_handler : Option ℕ

-- `getEffectiveLevel`
abbrev pub effective : Logger → ℕ
effective l = if l.level == 0 then l.parent_level else l.level

abbrev pub lower : ℕ → Logger → Logger
lower n l = if ltb n (effective l) then record l { level = n } else l

abbrev pub drop_current : Option ℕ → Dict ℕ → Dict ℕ
drop_current none handlers = handlers
drop_current (some k) handlers = if contains k handlers then erase k handlers else handlers

abbrev with_handler : ℕ → Result ℕ → Logger → Result ℕ × Logger
with_handler handler (err e) l = (err e, l)
with_handler handler (ok n) l = (
  ok handler,
  lower n (record l {
    handlers = insert handler n (drop_current l.current_handler l.handlers);
    current_handler = some handler;
  }),
)

-- `configure`, whose handler is the object `handler`
unfoldable pub configure : (handler : ℕ) → Level → Logger → Result ℕ × Logger
unfolding validate_level
configure handler level l = with_handler handler (validate_level level) l

-- `_set_handler_with_logger`
unfoldable pub set_handler_with_logger : (handler : ℕ) → Level → Logger → Result (Unit {0}) × Logger
unfolding validate_level
set_handler_with_logger handler level l = elim (validate_level level) [
  | err e ↦ (err e, l)
  | ok n ↦ (ok tt, lower n (record l { handlers = insert handler n l.handlers }))
]

insert-fresh :
    (own : Dict ℕ) (k n : ℕ) → lookup k own ≡ none → insert k n own ≡ own ++ ((k, n) ∷ [])
unfolding lookup insert
insert-fresh [] k n fresh = refl
insert-fresh ((j, m) ∷ own) k n fresh = ground (arith, insert-fresh own k n)

lookup_last :
    (own : Dict ℕ) (k n : ℕ) → lookup k own ≡ none → lookup k (own ++ ((k, n) ∷ [])) ≡ some n
unfolding lookup
lookup_last [] k n fresh = ground arith
lookup_last ((j, m) ∷ own) k n fresh = ground (arith, lookup_last own k n)

erase_last : (own : Dict ℕ) (k n : ℕ) → lookup k own ≡ none → erase k (own ++ ((k, n) ∷ [])) ≡ own
unfolding lookup erase
erase_last [] k n fresh = ground arith
erase_last ((j, m) ∷ own) k n fresh = ground (arith, erase_last own k n)

drop_current-last :
    (own : Dict ℕ) (k n : ℕ)
    → lookup k own ≡ none
    → drop_current (some k) (own ++ ((k, n) ∷ [])) ≡ own
drop_current-last own k n fresh =
    let all = own ++ ((k, n) ∷ []) in
    ap (λ o. if (elim o [ none ↦ false | some _ ↦ true ]) then erase k all else all)
      (lookup_last own k n fresh)
    ∙ erase_last own k n fresh

effective-lower : (n : ℕ) (l : Logger) → (n ≡ 0) ⊎ (effective (lower n l) ≤ n)
effective-lower zero l = inl refl
effective-lower (suc n) l = inr (ground arith)

-- The handlers of a logger are `own`, which `configure` has not made, and at most one that it has: the
-- current one, whose level, if it is not 0, the level of the logger does not exceed.
pub data IsConfigured (own : Dict ℕ) : Logger → Type 0 where
  unconfigured : {l : Logger} → l.handlers ≡ own → l.current_handler ≡ none → IsConfigured own l
  configured :
      {l : Logger} (k n : ℕ)
      → l.handlers ≡ own ++ ((k, n) ∷ [])
      → l.current_handler ≡ some k
      → lookup k own ≡ none
      → (n ≡ 0) ⊎ (effective l ≤ n)
      → IsConfigured own l

-- Only the current handler is dropped.
drop_current-own :
    (own : Dict ℕ) (l : Logger)
    → IsConfigured own l
    → drop_current l.current_handler l.handlers ≡ own
drop_current-own own l (unconfigured h c) = rw (c, h) refl
drop_current-own own l (configured k n h c fresh low) = rw (c, h) (drop_current-last own k n fresh)

handlers-lower : (n : ℕ) (l : Logger) → (lower n l).handlers ≡ l.handlers
handlers-lower n l = ground arith

current_handler-lower : (n : ℕ) (l : Logger) → (lower n l).current_handler ≡ l.current_handler
current_handler-lower n l = ground arith

with_handler-IsConfigured :
    (own : Dict ℕ) (k : ℕ) (r : Result ℕ) (l : Logger)
    → lookup k own ≡ none
    → IsConfigured own l
    → IsConfigured own (with_handler k r l).1
with_handler-IsConfigured own k (err e) l fresh i = i
with_handler-IsConfigured own k (ok n) l fresh i =
    let l' = record l {
      handlers = insert k n (drop_current l.current_handler l.handlers);
      current_handler = some k;
    } in
    configured {l = lower n l'} k n
      (handlers-lower n l'
        ∙ ap (insert k n) (drop_current-own own l i)
        ∙ insert-fresh own k n fresh)
      (current_handler-lower n l') fresh (effective-lower n l')

configure-IsConfigured :
    (own : Dict ℕ) (k : ℕ) (level : Level) (l : Logger)
    → lookup k own ≡ none
    → IsConfigured own l
    → IsConfigured own (configure k level l).1
unfolding configure
configure-IsConfigured own k level l = with_handler-IsConfigured own k (validate_level level) l

unfoldable pub configure_all : List (ℕ × Level) → Logger → Logger
unfolding configure
configure_all [] l = l
configure_all ((k, level) ∷ calls) l = configure_all calls (configure k level l).1

-- Calls of `configure`, with whatever levels, leave a logger as `IsConfigured` says, if it was so before
-- (as it is where `configure` has not been called): its own handlers in their order, and after them at
-- most one that a call has made, which is the current handler, and where the level of that handler is
-- not 0, the level of the logger is not above it. The objects that the calls make are not among the logger's
-- own.
pub configure_all-IsConfigured :
    (calls : List (ℕ × Level)) (own : Dict ℕ) (l : Logger)
    → All (λ c. lookup c.0 own ≡ none) calls
    → IsConfigured own l
    → IsConfigured own (configure_all calls l)
unfolding configure_all
configure_all-IsConfigured [] own l fresh i = i
configure_all-IsConfigured ((k, level) ∷ calls) own l fresh i =
    configure_all-IsConfigured calls own (configure k level l).1 fresh.1
      (configure-IsConfigured own k level l fresh.0 i)
