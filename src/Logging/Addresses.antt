-- ===== src/Logging/Addresses.antt =====
-- `AddressFilter` of ads_async/log.py, made of the text of an address.

use ads_async.Prelude.{
  ℕ, ◌≡◌, refl, ◌∙◌, Bool, Bool-cases, ◌||◌, none, some, inl, inr, [], ◌∷◌, ◌++◌, All, leb, arith,
}
use ads_async.Prelude.Result.{ok}
use ads_async.Structs.NetId.{decimal}
use ads_async.Structs.NetId.Decimal.{IsDigit, decimal-IsDigit, signed-decimal}
use ads_async.Structs.Text.{Text}
use ads_async.Connections.Table.{Address, same_address}
use ads_async.Logging.Defs.{
  Level, LogRecord, from_zero, at_least_zero, at_most_zero, int_of_text, rsplit_colon, address_text,
  AddressFilter, add_argument, add_arguments, address_filter, has_address, has_host, filter_address,
  validate_level,
}

-- The port is what follows the last colon.
rsplit_colon-digits : (t : Text) → All IsDigit t → rsplit_colon t ≡ none
unfolding rsplit_colon
rsplit_colon-digits [] h = refl
rsplit_colon-digits (c ∷ t) h = ground (arith, rsplit_colon-digits t h.1)

rsplit_colon-append :
    (host t : Text) → All IsDigit t → rsplit_colon (host ++ (b':' ∷ t)) ≡ some (host, t)
unfolding rsplit_colon
rsplit_colon-append [] t h = rw (rsplit_colon-digits t h) refl
rsplit_colon-append (c ∷ host) t h = rw (rsplit_colon-append host t h) refl

int_of_text-decimal : (n : ℕ) → int_of_text (decimal n) ≡ ok (from_zero n)
unfolding int_of_text
int_of_text-decimal n = rw (int_of_text, signed-decimal at_least_zero at_most_zero refl n) refl

-- The address as `LogFormatter` prints it.
abbrev pub printed : Address → Text
printed a = a.host ++ (b':' ∷ decimal a.port)

add_argument-printed :
    (a : Address)
    → add_argument (address_text (printed a)) ([], []) ≡ ok ((a.host, from_zero a.port) ∷ [], [])
unfolding add_argument
add_argument-printed a =
    rw
      (
        add_argument,
        rsplit_colon-append a.host (decimal a.port) (decimal-IsDigit a.port),
        int_of_text-decimal a.port,
      )
      refl

-- The test of a filter with this address alone.
listed_alone :
    (a b : Address)
    → has_address b ((a.host, from_zero a.port) ∷ []) || has_host b.host [] ≡ same_address a b
unfolding has_address has_host same_address
listed_alone a b = ground arith

abbrev of_address : Address → ℕ → Bool → AddressFilter
of_address a n exclusive = record {
  addresses_list = (a.host, from_zero a.port) ∷ [];
  hosts_list = [];
  levelno = n;
  exclusive = exclusive;
}

filter_address-alone :
    (a : Address) (n : ℕ) (exclusive : Bool) (r : LogRecord) (b c : Address)
    → r.our_address ≡ some b
    → r.their_address ≡ some c
    → filter_address (of_address a n exclusive) r
      ≡ ok (leb n r.levelno || (same_address a b || same_address a c))
unfolding filter_address
filter_address-alone a n exclusive r b c ours theirs = elim (Bool-cases (leb n r.levelno)) [
  | inl enough ↦ rw (filter_address, enough) refl
  | inr low ↦ elim (Bool-cases (same_address a b)) [
    | inl same ↦ rw (filter_address, low, ours, listed_alone a b ∙ same, same) refl
    | inr other ↦
        rw (filter_address, low, ours, listed_alone a b ∙ other, theirs, listed_alone a c, other)
          refl
  ]
]

-- A filter that is made of the printed text of one address, with a level that is one, passes of the records
-- with two addresses exactly those that have that address as one of the two, or the level of the filter at
-- least; whatever colons are in the host.
pub address_filter-printed :
    (a : Address) (level : Level) (n : ℕ) (exclusive : Bool) (r : LogRecord) (b c : Address)
    → validate_level level ≡ ok n
    → r.our_address ≡ some b
    → r.their_address ≡ some c
    → (f : AddressFilter) × (address_filter (address_text (printed a) ∷ []) level exclusive ≡ ok f)
      × (filter_address f r ≡ ok (leb n r.levelno || (same_address a b || same_address a c)))
unfolding address_filter add_arguments
address_filter-printed a level n exclusive r b c valid ours theirs = (
  of_address a n exclusive,
  rw (address_filter, add_arguments, add_argument-printed a, valid) refl,
  filter_address-alone a n exclusive r b c ours theirs,
)
