-- ===== src/Logging/Defs.antt =====
-- The levels and the filters of ads_async/log.py. Levels are not negative.
use ads_async.Prelude.{
  ℕ, Bool, true, false, ◌||◌, not, Option, none, some, List, [], ◌∷◌, ◌++◌, leb, ◌==◌,
  if◌then◌else◌,
}
use ads_async.Prelude.Result.{Result, ok, err, value_error, attribute_error, ◌>>=◌}
use ads_async.Structs.NetId.{signed, lstrip, rstrip}
use ads_async.Structs.Text.{Text, codes}
use ads_async.Symbols.{same_text}
use ads_async.Connections.Table.{Table, find, text_key, Address}
use ads_async.Logging.Glob.{fnmatch}

-- A level is a number, the name of one, or something else.
pub data Level : Type 0 where
  number : ℕ → Level
  named : Text → Level
  no_level : Level

-- The names that the standard library gives to levels.
abbrev pub level_names : Table Text ℕ
level_names =
    (codes "CRITICAL", 50)
    ∷ (codes "FATAL", 50)
    ∷ (codes "ERROR", 40)
    ∷ (codes "WARN", 30)
    ∷ (codes "WARNING", 30)
    ∷ (codes "INFO", 20)
    ∷ (codes "DEBUG", 10)
    ∷ (codes "NOTSET", 0)
    ∷ []

unfoldable pub validate_level : Level → Result ℕ
validate_level (number n) = ok n
validate_level (named name) = elim (find name level_names) [
  | none ↦ err value_error
  | some n ↦ ok n
]
validate_level no_level = err value_error

-- A record with the attributes that the filters read, where it has them. `is` compares objects: a role
-- is the number of one.
pub record LogRecord : Type 0 where
  pub levelno : ℕ
  pub symbol : Option Text
  pub our_address : Option Address
  pub their_address : Option Address
  pub role : Option ℕ

pub record SymbolFilter : Type 0 where
  pub names : List Text
  pub levelno : ℕ
  pub exclusive : Bool

-- `SymbolFilter.__init__`
unfoldable pub symbol_filter : List Text → Level → Bool → Result SymbolFilter
unfolding validate_level
symbol_filter names level exclusive = do
  n ← validate_level level
  ok (record { names = names; levelno = n; exclusive = exclusive })

unfoldable pub any_match : Text → List Text → Bool
unfolding fnmatch
any_match symbol [] = false
any_match symbol (name ∷ names) = fnmatch symbol name || any_match symbol names

-- `SymbolFilter.filter`
unfoldable pub filter_symbol : SymbolFilter → LogRecord → Bool
unfolding any_match
filter_symbol f r =
    if leb f.levelno r.levelno
    then true
    else elim r.symbol [ some symbol ↦ any_match symbol f.names | none ↦ not f.exclusive ]

-- A number of Python; one below zero has its magnitude.
pub data Integer : Type 0 where
  from_zero below_zero : ℕ → Integer

abbrev pub at_least_zero : Option ℕ → Option Integer
at_least_zero none = none
at_least_zero (some n) = some (from_zero n)

abbrev pub at_most_zero : Option ℕ → Option Integer
at_most_zero none = none
at_most_zero (some n) = some (if n == 0 then from_zero 0 else below_zero n)

-- `int(text)`
unfoldable pub int_of_text : Text → Result Integer
unfolding signed lstrip rstrip
int_of_text text = elim (signed at_least_zero at_most_zero (rstrip (lstrip text))) [
  | none ↦ err value_error
  | some n ↦ ok n
]

-- `text.rsplit(":", 1)`, where the text has a colon
unfoldable pub rsplit_colon : Text → Option (Text × Text)
rsplit_colon [] = none
rsplit_colon (c ∷ cs) = elim (rsplit_colon cs) [
  | some (host, port) ↦ some (c ∷ host, port)
  | none ↦ if c == b':' then some ([], cs) else none
]

-- An argument of `AddressFilter`: a text, a pair, or anything else (a tuple of another length too).
pub data AddressArgument : Type 0 where
  address_text : Text → AddressArgument
  address_pair : Text → Integer → AddressArgument
  no_address : AddressArgument

pub record AddressFilter : Type 0 where
  pub addresses_list : List (Text × Integer)
  pub hosts_list : List Text
  pub levelno : ℕ
  pub exclusive : Bool

abbrev pub Lists : Type 0
Lists = List (Text × Integer) × List Text

abbrev pub with_port : Text → Result Integer → Lists → Result Lists
with_port host (err e) lists = err e
with_port host (ok port) (addresses, hosts) = ok (addresses ++ ((host, port) ∷ []), hosts)

-- One round of the loop of `AddressFilter.__init__`.
unfoldable pub add_argument : AddressArgument → Lists → Result Lists
unfolding rsplit_colon int_of_text
add_argument (address_text text) (addresses, hosts) = elim (rsplit_colon text) [
  | some (host, port) ↦ with_port host (int_of_text port) (addresses, hosts)
  | none ↦ ok (addresses, hosts ++ (text ∷ []))
]
add_argument (address_pair host port) (addresses, hosts) =
    ok (addresses ++ ((host, port) ∷ []), hosts)
add_argument no_address lists = err value_error

unfoldable pub add_arguments : List AddressArgument → Lists → Result Lists
unfolding add_argument
add_arguments [] lists = ok lists
add_arguments (a ∷ rest) lists = do lists' ← add_argument a lists; add_arguments rest lists'

-- `AddressFilter.__init__`
unfoldable pub address_filter : List AddressArgument → Level → Bool → Result AddressFilter
unfolding add_arguments validate_level
address_filter arguments level exclusive = do
  lists ← add_arguments arguments ([], [])
  n ← validate_level level
  ok (record { addresses_list = lists.0; hosts_list = lists.1; levelno = n; exclusive = exclusive })

abbrev same_port : ℕ → Integer → Bool
same_port p (from_zero n) = n == p
same_port p (below_zero n) = false

unfoldable pub has_address : Address → List (Text × Integer) → Bool
unfolding same_text
has_address a [] = false
has_address a ((host, port) ∷ rest) =
    (if same_text host a.host then same_port a.port port else false) || has_address a rest

unfoldable pub has_host : Text → List Text → Bool
unfolding same_text
has_host h [] = false
has_host h (host ∷ hosts) = same_text host h || has_host h hosts

abbrev pub listed : AddressFilter → Address → Bool
listed f a = has_address a f.addresses_list || has_host a.host f.hosts_list

-- The attribute `their_address` is read only where ours is not listed.
abbrev pub listed_address : AddressFilter → Address → Option Address → Result Bool
listed_address f ours theirs =
    if listed f ours
    then ok true
    else elim theirs [ some a ↦ ok (listed f a) | none ↦ err attribute_error ]

-- `AddressFilter.filter`
unfoldable pub filter_address : AddressFilter → LogRecord → Result Bool
unfolding has_address has_host
filter_address f r = if leb f.levelno r.levelno then ok true else elim r.our_address [
  | some ours ↦ listed_address f ours r.their_address
  | none ↦ ok (not f.exclusive)
]

pub record RoleFilter : Type 0 where
  pub role : ℕ
  pub levelno : ℕ
  pub exclusive : Bool

-- `RoleFilter.__init__`
unfoldable pub role_filter : ℕ → Level → Bool → Result RoleFilter
unfolding validate_level
role_filter role level exclusive = do
  n ← validate_level level
  ok (record { role = role; levelno = n; exclusive = exclusive })

-- `RoleFilter.filter`
unfoldable pub filter_role : RoleFilter → LogRecord → Bool
filter_role f r =
    if leb f.levelno r.levelno
    then true
    else elim r.role [ some role ↦ role == f.role | none ↦ not f.exclusive ]
