-- ===== src/Structs/SymbolEntry/RoundTrip.antt =====
-- `AdsSymbolEntry` of ads_async/structs.py is read back from what it is serialized to.
use mathlib.Core.List.{append_assoc}
use ads_async.Prelude.{
  ℕ, ◌+◌, ◌%◌, ◌^◌, ◌<◌, ◌≡◌, sym, ap, ◌∙◌, [], ◌∷◌, ◌++◌, arith, length, length-append, drop,
  drop-append,
}
use ads_async.Prelude.Result.{ok}
use ads_async.Bytes.{Bytes, size_of, pack, Fits}
use ads_async.Structs.Base.{from_buffer-pack, unpack_s, pack_s_exact, unpack_s-append, drop-pack}
use ads_async.Structs.Text.{
  Text, Codec, string_to_byte_string, byte_string_to_string, HasNoNull, until_null_id,
}
use ads_async.Structs.SymbolEntry.Defs.{
  AdsSymbolEntry, entry_layout, entry_fields, entry_of, update_lengths, pack_text, serialize_entry,
  deserialize_entry,
}

-- A text that has one byte for each character, and comes back from its bytes.
pub record IsSimple (codec : Codec) (t : Text) (bytes : Bytes) : Type 0 where
  pub encoded : codec.encode t ≡ ok bytes
  pub decoded : codec.decode bytes ≡ ok t
  pub one_each : length bytes ≡ length t
  pub short : length t < 2 ^ 16
  pub no_null : HasNoNull t

module _ (codec : Codec) where
  -- A payload field of a simple text, as it is written and as it is read back.
  module _ (t : Text) (bytes rest : Bytes) (s : IsSimple codec t bytes) where
    abbrev stored : ℕ
    stored = length t % 2 ^ 16

    stored_length : stored ≡ length bytes
    stored_length = omega (arith, s.short, s.one_each)

    text_written : pack_text codec stored t ≡ ok (bytes ++ (0 ∷ []))
    unfolding string_to_byte_string
    text_written = rw (s.encoded, stored_length, pack_s_exact bytes)

    text_read : unpack_s stored ((bytes ++ (0 ∷ [])) ++ rest) ≡ ok bytes
    text_read =
        rw (stored_length, append_assoc bytes (0 ∷ []) rest) (unpack_s-append bytes (0 ∷ rest))

    text_passed : drop (stored + 1) ((bytes ++ (0 ∷ [])) ++ rest) ≡ rest
    text_passed =
        ap (λ k. drop k ((bytes ++ (0 ∷ [])) ++ rest)) {x = stored + 1}
          (omega (arith, stored_length, length-append bytes (0 ∷ [])))
        ∙ drop-append (bytes ++ (0 ∷ [])) rest

    text_decoded : byte_string_to_string codec bytes ≡ ok t
    unfolding byte_string_to_string
    text_decoded = rw (s.decoded, until_null_id t s.no_null)

module _ (codec : Codec) (e : AdsSymbolEntry) (name type_name comment : Bytes) where
  module _ (n : IsSimple codec e.name name) (t : IsSimple codec e.type_name type_name)
      (c : IsSimple codec e.comment comment) where
    abbrev texts : Bytes
    texts = (name ++ (0 ∷ [])) ++ ((type_name ++ (0 ∷ [])) ++ (comment ++ (0 ∷ [])))

    abbrev texts_then : Bytes → Bytes
    texts_then rest =
        (name ++ (0 ∷ [])) ++ ((type_name ++ (0 ∷ [])) ++ ((comment ++ (0 ∷ [])) ++ rest))

    entry_written :
        serialize_entry codec e ≡ ok (pack entry_layout (entry_fields (update_lengths e)) ++ texts)
    unfolding serialize_entry
    entry_written = rw (
      text_written codec e.name name [] n,
      text_written codec e.type_name type_name [] t,
      text_written codec e.comment comment [] c,
    )

    entry_read :
        (rest : Bytes)
        → Fits entry_layout (entry_fields (update_lengths e))
        → deserialize_entry codec
            (pack entry_layout (entry_fields (update_lengths e)) ++ texts_then rest)
          ≡ ok (update_lengths e)
    unfolding deserialize_entry update_lengths size_of
    entry_read rest fits =
        let vs = entry_fields (update_lengths e) in
        let after_name = (type_name ++ (0 ∷ [])) ++ ((comment ++ (0 ∷ [])) ++ rest) in
        let after_type = (comment ++ (0 ∷ [])) ++ rest in
        rw (
          from_buffer-pack entry_layout entry_of vs (texts_then rest) fits,
          drop-pack entry_layout vs (texts_then rest),
          text_read codec e.name name after_name n,
          text_decoded codec e.name name [] n,
          text_passed codec e.name name after_name n,
          text_read codec e.type_name type_name after_type t,
          text_decoded codec e.type_name type_name [] t,
          text_passed codec e.type_name type_name after_type t,
          text_read codec e.comment comment rest c,
          text_decoded codec e.comment comment [] c,
        )

-- An entry whose texts have one byte for each character is read back whole.
pub deserialize_entry-serialize_entry :
    (codec : Codec) (e : AdsSymbolEntry) (name type_name comment bytes rest : Bytes)
    → IsSimple codec e.name name
    → IsSimple codec e.type_name type_name
    → IsSimple codec e.comment comment
    → Fits entry_layout (entry_fields (update_lengths e))
    → serialize_entry codec e ≡ ok bytes
    → deserialize_entry codec (bytes ++ rest) ≡ ok (update_lengths e)
deserialize_entry-serialize_entry codec e name type_name comment bytes rest n t c fits h =
    let fixed = pack entry_layout (entry_fields (update_lengths e)) in
    let same : fixed ++ texts codec e name type_name comment n t c ≡ bytes =
      cc (entry_written codec e name type_name comment n t c) in
    let shape : bytes ++ rest ≡ fixed ++ texts_then codec e name type_name comment n t c rest =
      ap (λ b. b ++ rest) (sym same)
      ∙ append_assoc fixed (texts codec e name type_name comment n t c) rest
      ∙ ap (λ b. fixed ++ b)
          (append_assoc (name ++ (0 ∷ [])) ((type_name ++ (0 ∷ [])) ++ (comment ++ (0 ∷ []))) rest
            ∙ ap (λ b. (name ++ (0 ∷ [])) ++ b)
                (append_assoc (type_name ++ (0 ∷ [])) (comment ++ (0 ∷ [])) rest)) in
    rw shape (entry_read codec e name type_name comment n t c rest fits)
