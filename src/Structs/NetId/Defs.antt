-- ===== src/Structs/NetId/Defs.antt =====
-- `AmsNetId.from_string` and `__repr__` of ads_async/structs.py, `int` of a text of ASCII characters,
-- and `str` of a number.
use ads_async.Prelude.{
  ℕ, zero, suc, ◌+◌, ◌-◌, ◌*◌, ◌/◌, ◌%◌, Bool, true, false, ◌&&◌, ◌||◌, Option, none, some, List,
  [], ◌∷◌, ◌++◌, leb, ◌==◌, if◌then◌else◌,
}
use ads_async.Prelude.Result.{Result, ok, err, value_error}
use ads_async.Structs.Address.{AmsNetId}
use ads_async.Structs.Text.{Text}

-- `value.split(separator)`, of one character
unfoldable pub split : ℕ → Text → List Text
split sep [] = [] ∷ []
split sep (c ∷ cs) = elim (split sep cs) [
  | [] ↦ []
  | part ∷ parts ↦ if c == sep then [] ∷ (part ∷ parts) else (c ∷ part) ∷ parts
]

-- `separator.join(parts)`
unfoldable pub join : ℕ → List Text → Text
join sep [] = []
join sep (part ∷ []) = part
join sep (part ∷ (next ∷ parts)) = part ++ (sep ∷ join sep (next ∷ parts))

abbrev pub is_space : ℕ → Bool
is_space c = (leb 9 c && leb c 13) || (leb 28 c && leb c 32)

abbrev pub is_digit : ℕ → Bool
is_digit c = leb b'0' c && leb c b'9'

-- The spaces at the two ends that `int` passes over.
unfoldable pub lstrip : Text → Text
lstrip [] = []
lstrip (c ∷ cs) = let rest = lstrip cs in if is_space c then rest else c ∷ cs

abbrev pub add_before : ℕ → Text → Text
add_before c [] = if is_space c then [] else c ∷ []
add_before c (d ∷ cs) = c ∷ (d ∷ cs)

unfoldable pub rstrip : Text → Text
rstrip [] = []
rstrip (c ∷ cs) = add_before c (rstrip cs)

-- Decimal digits, with single underscores between them; `seen` tells that the last character was a
-- digit.
unfoldable pub digits_value : ℕ → Bool → Text → Option ℕ
digits_value n seen [] = if seen then some n else none
digits_value n seen (c ∷ cs) = elim (is_digit c) [
  | true ↦ digits_value (n * 10 + (c - b'0')) true cs
  | false ↦ elim (c == b'_' && seen) [ true ↦ digits_value n false cs | false ↦ none ]
]

-- `int(text)`, and what a `c_uint8` keeps of it.
abbrev pub positive : Option ℕ → Option ℕ
positive none = none
positive (some n) = some (n % 256)

abbrev pub negative : Option ℕ → Option ℕ
negative none = none
negative (some n) = some ((256 - n % 256) % 256)

unfoldable pub signed : {A : Type 0} → (positive negative : Option ℕ → Option A) → Text → Option A
unfolding digits_value
signed positive negative [] = none
signed positive negative (c ∷ cs) =
    if c == b'-'
    then negative (digits_value 0 false cs)
    else if c == b'+'
    then positive (digits_value 0 false cs)
    else positive (digits_value 0 false (c ∷ cs))

unfoldable pub octet : Text → Option ℕ
unfolding signed lstrip rstrip
octet text = signed positive negative (rstrip (lstrip text))

-- `tuple(int(octet) for octet in parts)`
abbrev pub cons_octet : Option ℕ → Option (List ℕ) → Option (List ℕ)
cons_octet none _ = none
cons_octet (some n) none = none
cons_octet (some n) (some ns) = some (n ∷ ns)

unfoldable pub octets : List Text → Option (List ℕ)
unfolding octet
octets [] = some []
octets (part ∷ parts) = cons_octet (octet part) (octets parts)

-- `cls(parts)`, for six of them.
abbrev pub six : List ℕ → Result AmsNetId
six (a ∷ (b ∷ (c ∷ (d ∷ (e ∷ (f ∷ [])))))) =
    ok (record { octet1 = a; octet2 = b; octet3 = c; octet4 = d; octet5 = e; octet6 = f })
six _ = err value_error

abbrev pub of_octets : Option (List ℕ) → Result AmsNetId
of_octets none = err value_error
of_octets (some ns) = six ns

-- `AmsNetId.from_string`
unfoldable pub from_string : Text → Result AmsNetId
unfolding split octets
from_string addr = of_octets (octets (split b'.' addr))

-- `str(n)`: the last digit first; a number has no more digits than its value plus one.
unfoldable pub digits_from : ℕ → ℕ → Text → Text
digits_from zero n out = out
digits_from (suc fuel) n out =
    let rest = digits_from fuel (n / 10) ((b'0' + n % 10) ∷ out) in
    if n / 10 == 0 then (b'0' + n % 10) ∷ out else rest

unfoldable pub decimal : ℕ → Text
unfolding digits_from
decimal n = digits_from (suc n) n []

-- `AmsNetId.__repr__`
unfoldable pub repr : AmsNetId → Text
unfolding join decimal
repr a = join b'.' (
    decimal a.octet1
    ∷ decimal a.octet2
    ∷ decimal a.octet3
    ∷ decimal a.octet4
    ∷ decimal a.octet5
    ∷ decimal a.octet6
    ∷ [])

-- `AmsNetId.from_ipv4`, of the packed address and the two other octets, which a `c_uint8` cuts off.
unfoldable pub from_ipv4 : (a b c d octet5 octet6 : ℕ) → AmsNetId
from_ipv4 a b c d octet5 octet6 = record {
  octet1 = a % 256;
  octet2 = b % 256;
  octet3 = c % 256;
  octet4 = d % 256;
  octet5 = octet5 % 256;
  octet6 = octet6 % 256;
}
