-- ===== src/Logging/Format.antt =====
-- `LogFormatter.format` of ads_async/log.py. The time of a record is a text here, as `formatTime` gives
-- it, and so is an exception. Texts are of ASCII characters.
use ads_async.Prelude.{
  ℕ, ◌-◌, ◌≡◌, ◌∙◌, ap, sym, refl, Option, none, some, List, [], ◌∷◌, ◌++◌, map, length, replicate,
  take, Bool-cases, inl, inr, ◌==◌, if◌then◌else◌,
}
use ads_async.Structs.NetId.{decimal, join, split, rstrip}
use ads_async.Structs.Text.{Text, codes}
use ads_async.Connections.Table.{Address}
use ads_async.Logging.Lines.{split-append}

pub record FormattedRecord : Type 0 where
  pub levelname : Text
  pub asctime : Text
  pub msecs : ℕ
  pub module_name : Text
  pub lineno : ℕ
  pub our_address : Option Address
  pub direction : Option Text
  pub their_address : Option Address
  pub bytesize : Option ℕ
  pub counter : Option (ℕ × ℕ)
  pub sequence : Option ℕ
  pub symbol : Option Text
  pub message : Text
  pub exc_text : Option Text

abbrev part {ℓ} : {A : Type ℓ} → (A → Text) → Option A → List Text
part f none = []
part f (some a) = f a ∷ []

abbrev of_address : Address → Text
of_address a = a.host ++ (b':' ∷ decimal a.port)

abbrev of_counter : ℕ × ℕ → Text
of_counter (n, all) = codes "(" ++ (decimal n ++ (codes " of " ++ (decimal all ++ codes ")")))

unfoldable pub parts : FormattedRecord → List Text
unfolding decimal
parts r =
    part of_address r.our_address
    ++ (part (λ t. t) r.direction
        ++ (part of_address r.their_address
            ++ (part (λ n. decimal n ++ codes "B") r.bytesize
                ++ (part of_counter r.counter
                    ++ (part (λ n. codes "{" ++ (decimal n ++ codes "}")) r.sequence
                        ++ (part (λ t. t) r.symbol ++ (r.message ∷ [])))))))

-- `%{n}s`, and `%0{n}d`
abbrev pad : ℕ → ℕ → Text → Text
pad c n t = replicate (n - length t) c ++ t

-- `PLAIN_LOG_FORMAT`
unfoldable pub plain : FormattedRecord → Text
unfolding parts decimal join
plain r =
    codes "["
    ++ (pad 32 1 (take 1 r.levelname)
        ++ (codes " "
            ++ (r.asctime
                ++ (codes "."
                    ++ (pad b'0' 3 (decimal r.msecs)
                        ++ (codes " "
                            ++ (pad 32 12 r.module_name
                                ++ (codes ":"
                                    ++ (pad 32 5 (decimal r.lineno)
                                        ++ (codes "] " ++ join 32 (parts r)))))))))))

abbrev with_exception : Text → Option Text → Text
with_exception formatted none = formatted
with_exception formatted (some []) = formatted
with_exception formatted (some (c ∷ t)) = rstrip formatted ++ (10 ∷ (c ∷ t))

-- The text before the replacement.
unfoldable pub formatted : FormattedRecord → Text
unfolding plain rstrip
formatted r = with_exception (plain r) r.exc_text

abbrev four_spaces : Text
four_spaces = 32 ∷ 32 ∷ 32 ∷ 32 ∷ []

-- `.replace("\n", "\n    ")`
unfoldable pub indent : Text → Text
indent [] = []
indent (c ∷ cs) = let rest = indent cs in if c == 10 then 10 ∷ (four_spaces ++ rest) else c ∷ rest

-- `format`
unfoldable pub format : FormattedRecord → Text
unfolding formatted indent
format r = indent (formatted r)

-- All lines but the first with four spaces more.
abbrev pub indent_lines : List Text → List Text
indent_lines [] = []
indent_lines (first ∷ lines) = first ∷ map (λ line. four_spaces ++ line) lines

indent_one :
    (c : ℕ) (cs : Text) (lines : List Text)
    → split 10 cs ≡ lines
    → split 10 (indent cs) ≡ indent_lines lines
    → split 10 (indent (c ∷ cs)) ≡ indent_lines (split 10 (c ∷ cs))
unfolding split indent
indent_one c cs [] e rec = elim (Bool-cases (c == 10)) [
  | inl newline ↦ rw (newline, e, rec) refl
  | inr other ↦ rw (other, e, split, rec) refl
]
indent_one c cs (line ∷ lines) e rec = elim (Bool-cases (c == 10)) [
  | inl newline ↦ rw (newline, e, rec, newline) refl
  | inr other ↦ rw (other, e, split, rec, other) refl
]

split-indent : (t : Text) → split 10 (indent t) ≡ indent_lines (split 10 t)
unfolding split indent
split-indent [] = refl
split-indent (c ∷ cs) = indent_one c cs (split 10 cs) refl (split-indent cs)

-- What an attribute puts before the rest of the message.
abbrev shown_then {ℓ} : {A : Type ℓ} → (A → Text) → Option A → Text → Text
shown_then f none rest = rest
shown_then f (some a) rest = f a ++ (32 ∷ rest)

-- The attributes that a record has, each with a space, and its message.
abbrev with_attributes : FormattedRecord → Text
with_attributes r = shown_then of_address r.our_address (
    shown_then (λ t. t) r.direction
      (shown_then of_address r.their_address (
        shown_then (λ n. decimal n ++ codes "B") r.bytesize
          (shown_then of_counter r.counter (
            shown_then (λ n. codes "{" ++ (decimal n ++ codes "}")) r.sequence
              (shown_then (λ t. t) r.symbol r.message))))))

-- The level, the time, the module and the line of a record, and then a text.
abbrev pub headed : FormattedRecord → Text → Text
headed r rest =
    codes "["
    ++ (pad 32 1 (take 1 r.levelname)
        ++ (codes " "
            ++ (r.asctime
                ++ (codes "."
                    ++ (pad b'0' 3 (decimal r.msecs)
                        ++ (codes " "
                            ++ (pad 32 12 r.module_name
                                ++ (codes ":"
                                    ++ (pad 32 5 (decimal r.lineno) ++ (codes "] " ++ rest))))))))))

abbrev pub text_of : FormattedRecord → Text
text_of r = headed r (with_attributes r)

-- The lines of a text, and those of an exception after it, before which its last spaces are dropped.
abbrev pub lines_with : Text → Option Text → List Text
lines_with t none = split 10 t
lines_with t (some []) = split 10 t
lines_with t (some (c ∷ e)) = split 10 (rstrip t) ++ split 10 (c ∷ e)

abbrev Has : List Text → Text → Type 0
Has ts joined = (first : Text) × (rest : List Text) × (ts ≡ first ∷ rest) × (join 32 ts ≡ joined)

part-Has :
    {A : Type 0} (f : A → Text) (o : Option A) (ts : List Text) (joined : Text)
    → Has ts joined
    → Has (part f o ++ ts) (shown_then f o joined)
unfolding join
part-Has f none ts joined h = h
part-Has f (some a) ts joined (first, rest, e, j) = (
  f a,
  ts,
  refl,
  ap (λ l. join 32 (f a ∷ l)) e ∙ ap (λ t. f a ++ (32 ∷ t)) (ap (join 32) (sym e) ∙ j),
)

parts-Has : (r : FormattedRecord) → Has (parts r) (with_attributes r)
unfolding parts join
parts-Has r = part-Has of_address r.our_address _ _ (
    part-Has (λ t. t) r.direction _ _
      (part-Has of_address r.their_address _ _ (
        part-Has (λ n. decimal n ++ codes "B") r.bytesize _ _
          (part-Has of_counter r.counter _ _ (
            part-Has (λ n. codes "{" ++ (decimal n ++ codes "}")) r.sequence _ _
              (part-Has (λ t. t) r.symbol _ _ (r.message, [], refl, refl)))))))

plain-headed : (r : FormattedRecord) → plain r ≡ headed r (join 32 (parts r))
unfolding plain
plain-headed r = refl

plain-text_of : (r : FormattedRecord) → plain r ≡ text_of r
plain-text_of r =
    let (first, rest, e, joined) = parts-Has r in plain-headed r ∙ ap (headed r) joined

lines-with_exception : (t : Text) (e : Option Text) → split 10 (with_exception t e) ≡ lines_with t e
lines-with_exception t none = refl
lines-with_exception t (some []) = refl
lines-with_exception t (some (c ∷ e)) = split-append (rstrip t) (c ∷ e)

-- A record is printed as its lines, with four spaces before each but the first: the first of them begins with the
-- level, the time, the module, the line number and the attributes that the record has, each with a
-- space, and goes on with the message; the lines of the exception, where there is one, come after those of the
-- message, whose last spaces are dropped. No line is added, lost or joined.
pub format-lines :
    (r : FormattedRecord) → split 10 (format r) ≡ indent_lines (lines_with (text_of r) r.exc_text)
unfolding format formatted
format-lines r =
    split-indent (formatted r)
    ∙ ap indent_lines (
        lines-with_exception (plain r) r.exc_text
        ∙ ap (λ t. lines_with t r.exc_text) (plain-text_of r))
