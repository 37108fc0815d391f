-- ===== src/Symbols/Tmc/Bounds.antt =====
-- The symbols that ads_async/symbols.py makes of a .tmc file lie within their items.
use ads_async.Prelude.{
  ℕ, ◌+◌, ◌-◌, ◌*◌, ◌/◌, ◌%◌, ◌≤◌, ◌≡◌, refl, Bool, true, false, Option, none, some, List, [], ◌==◌,
  if◌then◌else◌, arith, inl, inr, Bool-cases, Option-cases, ==→eq,
}
use ads_async.Prelude.Result.{Result, ok}
use ads_async.Constants.{AdsDataType, ctypes_type, CtypesType}
use ads_async.Structs.Text.{Text}
use ads_async.Symbols.Defs.{OffsetSize, basic, Symbol}
use ads_async.Symbols.Tmc.Types.{tmc_type}
use ads_async.Symbols.Tmc.Defs.{
  TmcInfo, TmcItem, item, info_of, TmcItems, no_items, one_more, bit_part, symbol_name,
  ads_type_name, is_indirect, refused, basic_symbol, complex_symbol, sort_by, yield_all,
  only_symbol, item_symbols, tmc_to_symbols, sub_symbols,
}
use ads_async.Symbols.Tmc.Placed.{
  extent, first_bit, Within, IsSized, Fits, FitsAll, Yields, AllYield, Yields-Within,
  append_symbol-Yields, yield_all-Yields, sort_by-AllYield,
}

bit_part-none :
    (bit_offset bit_size : ℕ)
    → bit_part bit_offset bit_size ≡ none
    → (bit_offset % 8 ≡ 0) × (bit_size % 8 ≡ 0)
unfolding bit_part
bit_part-none bit_offset bit_size e = ground arith

bit_part-some :
    (bit_offset bit_size : ℕ) (b : OffsetSize)
    → bit_part bit_offset bit_size ≡ some b
    → (b.offset ≡ bit_offset - bit_offset / 8 * 8) × (b.size ≡ bit_size)
unfolding bit_part
bit_part-some bit_offset bit_size b e = ground arith

module _ (i : TmcInfo) (bit_offset : ℕ) (name : Text) (area : ℕ) where
  abbrev Here : Symbol → Type 0
  Here = Within bit_offset (bit_offset + i.bit_size)

  basic_symbol-Within : IsSized i → Yields Here (only_symbol (basic_symbol i bit_offset name area))
  unfolding basic_symbol ctypes_type
  basic_symbol-Within sized = elim (Option-cases (tmc_type (ads_type_name i.data_type))) [
    | inl unknown ↦ rw (basic_symbol, unknown) tt
    | inr (t, known) ↦
        elim (Bool-cases (refused (is_indirect i.data_type) (bit_part bit_offset i.bit_size))) [
          | inl bad ↦ rw (basic_symbol, known, bad) tt
          | inr fine ↦ elim (Option-cases (ctypes_type t)) [
            | inl no_type ↦ rw (basic_symbol, known, fine, no_type) tt
            | inr (c, typed) ↦
                rw (basic_symbol, known, fine, typed)
                  (
                    (
                      starts t (bit_part bit_offset i.bit_size) refl,
                      ends t c known typed (bit_part bit_offset i.bit_size) refl,
                    ),
                    tt,
                  )
          ]
        ]
  ]
    where
      made : AdsDataType → Option OffsetSize → Symbol
      made t part = record {
        name = name;
        kind = basic;
        data_area = area;
        offset = bit_offset / 8;
        data_type = t;
        array_length = i.data_type.length;
        type_name = i.data_type.name;
        bit_offset = part;
        pointer = is_indirect i.data_type;
        comment = i.comment;
      }

      starts :
          (t : AdsDataType) (part : Option OffsetSize)
          → bit_part bit_offset i.bit_size ≡ part
          → bit_offset ≤ 8 * (bit_offset / 8) + first_bit (made t part)
      starts t none e =
          let (aligned, whole) = bit_part-none bit_offset i.bit_size e in omega (arith, aligned)
      starts t (some b) e = let (o, z) = bit_part-some bit_offset i.bit_size b e in omega (arith, o)

      ends :
          (t : AdsDataType) (c : CtypesType)
          → tmc_type (ads_type_name i.data_type) ≡ some t
          → ctypes_type t ≡ some c
          → (part : Option OffsetSize) → bit_part bit_offset i.bit_size ≡ part
          → 8 * (bit_offset / 8) + extent (made t part) ≤ bit_offset + i.bit_size
      ends t c known typed none e =
          let (aligned, whole) = bit_part-none bit_offset i.bit_size e in
          elim (Bool-cases (is_indirect i.data_type)) [
            | inl far ↦ rw far (omega (arith, sized.0 far))
            | inr near ↦ rw (near, typed) (omega (arith, sized.1 t c known typed whole, aligned))
          ]
      ends t c known typed (some b) e =
          let (o, z) = bit_part-some bit_offset i.bit_size b e in omega (arith, o, z)

  complex_symbol-Within :
      bit_offset % 8 ≡ 0 → i.bit_size % 8 ≡ 0 → Here (complex_symbol i bit_offset name area)
  unfolding complex_symbol
  complex_symbol-Within aligned whole = omega arith

  item_symbols-Yields :
      (subs : List (ℕ × Result (List Symbol)))
      → (i.data_type.is_complex_type ≡ false → IsSized i)
      → (i.data_type.is_complex_type ≡ true → bit_offset % 8 ≡ 0)
      → (i.data_type.is_complex_type ≡ true → AllYield Here subs)
      → Yields Here (item_symbols i bit_offset name area subs)
  unfolding item_symbols
  item_symbols-Yields subs sized aligned all = elim (Bool-cases i.data_type.is_complex_type) [
    | inr plain ↦ rw plain (basic_symbol-Within (sized plain))
    | inl struct ↦ elim (Bool-cases (i.bit_size % 8 == 0)) [
      | inr odd ↦ rw (struct, odd) tt
      | inl whole ↦
          rw (struct, whole)
            (append_symbol-Yields Here (complex_symbol i bit_offset name area)
              (if is_indirect i.data_type then ok [] else yield_all (sort_by subs))
              (complex_symbol-Within (aligned struct) (==→eq _ _ whole))
              (inner (all struct) (is_indirect i.data_type)))
    ]
  ]
    where
      inner :
          AllYield Here subs
          → (b : Bool) → Yields Here (if b then ok [] else yield_all (sort_by subs))
      inner placed true = tt
      inner placed false = yield_all-Yields Here (sort_by subs) (sort_by-AllYield Here subs placed)

mutual
  unfolding tmc_to_symbols sub_symbols

  item-Yields :
      (x : TmcItem) (parent_name : Text) (parent_bit_offset area : ℕ)
      → Fits x
      → parent_bit_offset % 8 ≡ 0
      → Yields
          (Within
            ((info_of x).bit_offset + parent_bit_offset)
            ((info_of x).bit_offset + parent_bit_offset + (info_of x).bit_size))
          (tmc_to_symbols x parent_name parent_bit_offset area)
  item-Yields (item i subs) parent_name parent_bit_offset area (sized, aligned, inside) whole =
      item_symbols-Yields i (i.bit_offset + parent_bit_offset) (symbol_name parent_name i.name) area
        (sub_symbols subs (symbol_name parent_name i.name) (i.bit_offset + parent_bit_offset) area)
        sized (λ struct. omega (arith, aligned struct, whole))
        (λ struct.
          items-AllYield subs (symbol_name parent_name i.name) (i.bit_offset + parent_bit_offset)
            area i.bit_size inside (omega (arith, aligned struct, whole)))

  items-AllYield :
      (xs : TmcItems) (name : Text) (bit_offset area size : ℕ)
      → FitsAll xs size
      → bit_offset % 8 ≡ 0
      → AllYield (Within bit_offset (bit_offset + size)) (sub_symbols xs name bit_offset area)
  items-AllYield no_items name bit_offset area size inside whole = tt
  items-AllYield (one_more (item i subs) rest) name bit_offset area size (ends, fits, others)
        whole =
      (
        Yields-Within bit_offset (bit_offset + size) (i.bit_offset + bit_offset)
            (i.bit_offset + bit_offset + i.bit_size)
            (tmc_to_symbols (item i subs) name bit_offset area) (omega arith) (omega arith)
            (item-Yields (item i subs) name bit_offset area fits whole),
        items-AllYield rest name bit_offset area size others whole,
      )
