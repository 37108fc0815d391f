-- ===== src/Structs/SymbolEntry/Lengths.antt =====
-- The lengths that `_update_lengths` of ads_async/structs.py states.

use ads_async.Prelude.{
  ℕ, ◌+◌, ◌-◌, ◌≡◌, refl, [], ◌∷◌, ◌++◌, arith, length, length-append, length-take,
  length-replicate, take, replicate,
}
use ads_async.Prelude.Result.{Result, ok, err, ◌>>=◌}
use ads_async.Bytes.{Bytes, size_of, pack, length-pack}
use ads_async.Structs.Base.{pack_s}
use ads_async.Structs.Text.{Codec, string_to_byte_string}
use ads_async.Structs.SymbolEntry.Defs.{
  AdsSymbolEntry, entry_layout, entry_fields, update_lengths, pack_text, serialize_entry,
}

length-pack_s : (n : ℕ) (bytes : Bytes) → length (pack_s n bytes) ≡ n
unfolding pack_s
length-pack_s n bytes = omega (
  arith,
  length-append (take n bytes) (replicate (n - length bytes) 0),
  length-take n bytes,
  length-replicate {A = ℕ} (n - length bytes) 0,
)

-- The length of an entry from those of its payload fields.
length_of_fields :
    (fixed : Bytes) (a b c : Result Bytes) (na nb nc : ℕ) (bytes : Bytes)
    → ((x : Bytes) → a ≡ ok x → length x ≡ na)
    → ((x : Bytes) → b ≡ ok x → length x ≡ nb)
    → ((x : Bytes) → c ≡ ok x → length x ≡ nc)
    → (a >>= λ x. b >>= λ y. c >>= λ z. ok (fixed ++ (x ++ (y ++ z)))) ≡ ok bytes
    → length bytes ≡ length fixed + na + nb + nc
length_of_fields fixed (ok x) (ok y) (ok z) na nb nc bytes ha hb hc e =
    let same : fixed ++ (x ++ (y ++ z)) ≡ bytes = cc in
    rw (← same) (
      omega (
        arith,
        length-append fixed (x ++ (y ++ z)),
        length-append x (y ++ z),
        length-append y z,
        ha x refl,
        hb y refl,
        hc z refl,
      ))
length_of_fields fixed (err x) b c na nb nc bytes ha hb hc e = cc
length_of_fields fixed (ok x) (err y) c na nb nc bytes ha hb hc e = cc
length_of_fields fixed (ok x) (ok y) (err z) na nb nc bytes ha hb hc e = cc

module _ (codec : Codec) where
  length-pack_text :
      (n : ℕ) (r : Result Bytes) (x : Bytes)
      → (r >>= λ bytes. ok (pack_s n bytes ++ (0 ∷ []))) ≡ ok x
      → length x ≡ n + 1
  length-pack_text n (ok bytes) x e =
      let same : pack_s n bytes ++ (0 ∷ []) ≡ x = cc in
      rw (← same) (omega (arith, length-append (pack_s n bytes) (0 ∷ []), length-pack_s n bytes))
  length-pack_text n (err y) x e = cc

  -- The stated length of an entry is the number of bytes that it is serialized to.
  pub length-serialize_entry :
      (e : AdsSymbolEntry) (bytes : Bytes)
      → serialize_entry codec e ≡ ok bytes
      → length bytes ≡ (update_lengths e).entry_length
  unfolding serialize_entry size_of string_to_byte_string
  length-serialize_entry e bytes h =
      let e' = update_lengths e in
      let fixed = pack entry_layout (entry_fields e') in
      omega (
        arith,
        length-pack entry_layout (entry_fields e'),
        length_of_fields fixed (pack_text codec e'.name_length e'.name)
            (pack_text codec e'.type_length e'.type_name)
            (pack_text codec e'.comment_length e'.comment) (e'.name_length + 1) (e'.type_length + 1)
            (e'.comment_length + 1) bytes (length-pack_text e'.name_length (codec.encode e'.name))
            (length-pack_text e'.type_length (codec.encode e'.type_name))
            (length-pack_text e'.comment_length (codec.encode e'.comment)) h,
      )
