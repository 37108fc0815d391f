-- ===== src/Structs/Text.antt =====
-- Texts and their encoding, as ads_async/structs.py uses them. The encoding is a setting
-- (`ADS_ASYNC_STRING_ENCODING`), so the codec is a parameter; a text is a list of code points.
use Prim.Native.Char.{code}
use Prim.Native.String.{String}
use ads_async.Prelude.{
  arith, ℕ, ◌≡◌, refl, ap, ◌≢◌, List, [], ◌∷◌, ◌++◌, All, ◌==◌, ne→==, if◌then◌else◌, true, false,
  leb, ◌≤◌,
}
use ads_async.Prelude.Result.{Result, ok, err, value_error, ◌>>=◌}
use ads_async.Bytes.{Bytes}

abbrev pub Text : Type 0
Text = List ℕ

-- A literal.
abbrev pub codes : String → Text
codes String.[] = []
codes (String.◌∷◌ ch s) = code ch ∷ codes s

-- `s.encode(encoding)` and `b.decode(encoding)`, which may raise.
pub record Codec : Type 0 where
  pub encode : Text → Result Bytes
  pub decode : Bytes → Result Text

-- `value.split("\x00")[0]`
unfoldable pub until_null : Text → Text
until_null [] = []
until_null (c ∷ cs) = if c == 0 then [] else c ∷ until_null cs

module _ (codec : Codec) where
  unfoldable pub string_to_byte_string : Text → Result Bytes
  string_to_byte_string s = codec.encode s

  unfoldable pub byte_string_to_string : Bytes → Result Text
  unfolding until_null
  byte_string_to_string s = do value ← codec.decode s; ok (until_null value)

-- A text with no NUL in it.
abbrev pub HasNoNull : Text → Type 0
HasNoNull = All (λ c. c ≢ 0)

pub until_null-append : (t rest : Text) → HasNoNull t → until_null (t ++ (0 ∷ rest)) ≡ t
unfolding until_null
until_null-append [] rest h = refl
until_null-append (c ∷ t) rest h =
    rw (ne→== c 0 h.0) (ap (λ u. c ∷ u) (until_null-append t rest h.1))

-- What the documentation of the codecs says of a text that can be encoded, followed by a NUL.
abbrev pub IsFaithful : Codec → Text → Bytes → Type 0
IsFaithful codec t e = codec.decode (e ++ (0 ∷ [])) ≡ ok (t ++ (0 ∷ []))

-- The codec `ascii`.
unfoldable pub ascii_bytes : List ℕ → Result (List ℕ)
ascii_bytes [] = ok []
ascii_bytes (c ∷ cs) = elim (leb c 127) [
  | false ↦ err value_error
  | true ↦ elim (ascii_bytes cs) [ ok rest ↦ ok (c ∷ rest) | err e ↦ err e ]
]

abbrev pub ascii : Codec
ascii = record { encode = ascii_bytes; decode = ascii_bytes }

abbrev pub IsAscii : Text → Type 0
IsAscii = All (λ c. c ≤ 127)

pub ascii_bytes_lem : (t : Text) → IsAscii t → ascii_bytes t ≡ ok t
unfolding ascii_bytes
ascii_bytes_lem [] h = refl
ascii_bytes_lem (c ∷ t) h = ground (arith, ascii_bytes_lem t h.1)

pub until_null_id : (t : Text) → HasNoNull t → until_null t ≡ t
unfolding until_null
until_null_id [] h = refl
until_null_id (c ∷ t) h = rw (ne→== c 0 h.0) (ap (λ u. c ∷ u) (until_null_id t h.1))
