-- ===== src/Service/Strings.antt =====
-- The length-prefixed strings of ads_async/service.py.
use mathlib.Core.List.{append_assoc}
use ads_async.Prelude.{
  true, ℕ, ◌+◌, ◌-◌, ◌<◌, ◌≤◌, ◌≡◌, refl, ap, ◌∙◌, [], ◌∷◌, ◌++◌, length, length-append, take,
  take-append, arith, leb, le→leb,
}
use ads_async.Prelude.Result.{ok}
use ads_async.Bytes.{Bytes, to_le, length-to_le, take-to_le, drop-to_le, from_le-to_le}
use ads_async.Structs.Text.{Text, until_null, IsAscii, ascii_bytes, ascii_bytes_lem}
use ads_async.Service.Defs.{pack_h, unpack_h, null_terminate, serialize_string, deserialize_string}

pub unpack_h-to_le : (n : ℕ) → n ≤ 65535 → unpack_h (to_le 2 n) ≡ ok n
unfolding unpack_h
unpack_h-to_le n h = rw (length-to_le 2 n, from_le-to_le 2 n (omega arith)) refl

pub until_null-IsAscii : (t : Text) → IsAscii t → IsAscii (until_null t)
unfolding until_null
until_null-IsAscii [] h = tt
until_null-IsAscii (c ∷ t) h = ground (arith, until_null-IsAscii t h.1)

IsAscii-append : (t rest : Text) → IsAscii t → IsAscii rest → IsAscii (t ++ rest)
IsAscii-append [] rest h k = k
IsAscii-append (c ∷ t) rest h k = (h.0, IsAscii-append t rest h.1 k)

length_terminated : (t : Text) → length (t ++ (0 ∷ [])) ≡ length t + 1
length_terminated t = omega (arith, length-append t (0 ∷ []))

-- A text of ASCII characters is serialized up to its first NUL, with that NUL.
pub serialize_string_lem :
    (t : Text)
    → IsAscii t
    → length (until_null t) < 65535
    → serialize_string t ≡ ok (to_le 2 (length (until_null t) + 1) ++ (until_null t ++ (0 ∷ [])))
unfolding serialize_string
serialize_string_lem t h short =
    let fits : leb (length (until_null t) + 1) 65535 ≡ true = le→leb _ _ (omega arith) in
    let encoded : ascii_bytes (until_null t ++ (0 ∷ [])) ≡ ok (until_null t ++ (0 ∷ [])) =
      ascii_bytes_lem _
        (IsAscii-append (until_null t) (0 ∷ []) (until_null-IsAscii t h) (omega arith, tt)) in
    rw (serialize_string, null_terminate, length_terminated (until_null t), pack_h, fits, encoded)
      refl

-- A serialized string is read back, whatever bytes follow it.
pub deserialize_string-serialized :
    (t : Text) (rest : Bytes)
    → IsAscii t
    → length t < 65535
    → deserialize_string ((to_le 2 (length t + 1) ++ (t ++ (0 ∷ []))) ++ rest) ≡ ok t
unfolding deserialize_string
deserialize_string-serialized t rest h short =
    rw
      (
        append_assoc (to_le 2 (length t + 1)) (t ++ (0 ∷ [])) rest,
        deserialize_string,
        take-to_le 2 (length t + 1) ((t ++ (0 ∷ [])) ++ rest),
        drop-to_le 2 (length t + 1) ((t ++ (0 ∷ [])) ++ rest),
        unpack_h-to_le (length t + 1) (omega arith),
        append_assoc t (0 ∷ []) rest,
      )
      (ap (λ n. ascii_bytes (take n (t ++ (0 ∷ rest)))) one_less
        ∙ ap ascii_bytes (take-append t (0 ∷ rest))
        ∙ ascii_bytes_lem t h)
  where
    one_less : length t + 1 - 1 ≡ length t
    one_less = omega arith
