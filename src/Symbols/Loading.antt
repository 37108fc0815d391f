-- ===== src/Symbols/Loading.antt =====
-- `TmcDatabase` of ads_async/symbols.py, from the areas of a .tmc file. What pytmc parses comes in as the
-- fields of `TmcArea`.
use native.Mathlib.Omega.{arith}
use ads_async.Prelude.{
  ℕ, ◌≡◌, refl, sym, ap, ◌∙◌, Bool, Option, none, some, List, [], ◌∷◌, ◌++◌, length, get_elem?,
  replicate, ◌==◌, if◌then◌else◌, inl, inr,
}
use ads_async.Prelude.Result.{Result, ok, err, key_error, Result-cases, ◌>>=◌}
use ads_async.Constants.IndexGroup
use ads_async.Symbols.Memory.{plc_memory}
use ads_async.Symbols.Tmc.{TmcItem, tmc_to_symbols}
use ads_async.Symbols.Defs.{
  Symbol, DataAreaIndexGroup, area_group, plain_group, DataArea, Database, find_group,
  area_by_group, add_data_area, configure_plc_memory_area,
}

-- An area of the file. `group` is `DataAreaIndexGroup[area_type]`, where `none` is the `KeyError`;
-- `items` are its symbols as pytmc gives them.
pub record TmcArea : Type 0 where
  pub group : Option DataAreaIndexGroup
  pub create_symbols : Bool
  pub byte_size : ℕ
  pub items : List TmcItem

-- `add_symbols`, for all the symbols of an area: a later symbol of the same name comes first.
unfoldable pub add_symbols : List Symbol → List Symbol → List Symbol
add_symbols [] added = added
add_symbols (s ∷ ss) added = add_symbols ss (s ∷ added)

-- The symbols of an area, given its position in the database.
unfoldable pub area_symbols : List TmcItem → ℕ → Result (List Symbol)
area_symbols [] position = ok []
area_symbols (x ∷ xs) position = do
  symbols ← tmc_to_symbols x [] 0 position
  others ← area_symbols xs position
  ok (symbols ++ others)

abbrev pub tmc_data_area : DataAreaIndexGroup → ℕ → List Symbol → DataArea
tmc_data_area group byte_size symbols = record {
  index_group = area_group group;
  memory = plc_memory byte_size;
  symbols = add_symbols symbols [];
}

abbrev pub add_area : DataAreaIndexGroup → ℕ → Result (List Symbol) → Database → Result Database
add_area group byte_size (err e) db = err e
add_area group byte_size (ok symbols) db =
    ok (add_data_area (area_group group) (tmc_data_area group byte_size symbols) db)

-- One round of the loop of `_load_data_areas`.
unfoldable pub load_area : TmcArea → Database → Result Database
unfolding plc_memory add_symbols add_data_area
load_area area db =
    if area.create_symbols
    then (elim area.group [
      | none ↦ err key_error
      | some group ↦
          add_area group area.byte_size (area_symbols area.items (length db.data_areas)) db
    ])
    else ok db

unfoldable pub load_areas : List TmcArea → Database → Result Database
unfolding load_area
load_areas [] db = ok db
load_areas (area ∷ areas) db = do db' ← load_area area db; load_areas areas db'

abbrev pub empty_database : Database
empty_database = record { data_areas = []; index_groups = [] }

-- `TmcDatabase.__init__`
unfoldable pub tmc_database : List TmcArea → Result Database
unfolding load_areas configure_plc_memory_area
tmc_database areas = do db ← load_areas areas empty_database; ok (configure_plc_memory_area db)

-- A database in which no number is found as an index group.
abbrev HasNoNumber : Database → Type 0
HasNoNumber db = (g : ℕ) → find_group g db.index_groups ≡ none

load_area-HasNoNumber :
    (area : TmcArea) (db db' : Database)
    → HasNoNumber db
    → load_area area db ≡ ok db'
    → HasNoNumber db'
unfolding load_area find_group
load_area-HasNoNumber area db db' h e g =
    ground (arith, h g, e, Result-cases (area_symbols area.items (length db.data_areas)))

load_areas-HasNoNumber :
    (areas : List TmcArea) (db db' : Database)
    → HasNoNumber db
    → load_areas areas db ≡ ok db'
    → HasNoNumber db'
unfolding load_areas
load_areas-HasNoNumber [] db db' h e = λ g. ground (arith, h g, e)
load_areas-HasNoNumber (area ∷ areas) db db' h e = elim (Result-cases (load_area area db)) [
  | inl (x, failed) ↦ absurd (ground (arith, failed, e))
  | inr (mid, loaded) ↦
      load_areas-HasNoNumber areas mid db' (load_area-HasNoNumber area db mid h loaded)
        (rw loaded at e)
]

abbrev pub plc_area : DataArea
plc_area = record {
  index_group = plain_group IndexGroup.plc_memory_area;
  memory = replicate 100_000 0;
  symbols = [];
}

last_elem : {A : Type 0} (xs : List A) (a : A) → get_elem? (xs ++ (a ∷ [])) (length xs) ≡ some a
last_elem [] a = refl
last_elem (x ∷ xs) a = last_elem xs a

plain_area_by_group :
    (db : Database) (number : ℕ) (area : DataArea) (g : ℕ)
    → find_group g db.index_groups ≡ none
    → area_by_group (add_data_area (plain_group number) area db) g
      ≡ (if number == g then some area else none)
unfolding area_by_group add_data_area find_group
plain_area_by_group db number area g out = ground (arith, out, last_elem db.data_areas area)

configure-add_data_area :
    (db : Database)
    → HasNoNumber db
    → configure_plc_memory_area db
      ≡ add_data_area (plain_group IndexGroup.plc_memory_area) plc_area db
unfolding configure_plc_memory_area
configure-add_data_area db h = rw (configure_plc_memory_area, h IndexGroup.plc_memory_area) refl

empty-HasNoNumber : HasNoNumber empty_database
unfolding find_group
empty-HasNoNumber g = refl

tmc_database-loaded :
    (areas : List TmcArea) (db : Database)
    → tmc_database areas ≡ ok db
    → (mid : Database) × (load_areas areas empty_database ≡ ok mid)
      × (configure_plc_memory_area mid ≡ db)
unfolding tmc_database
tmc_database-loaded areas db e = elim (Result-cases (load_areas areas empty_database)) [
  | inl (x, failed) ↦ absurd (ground (arith, failed, e))
  | inr (mid, loaded) ↦ (mid, loaded, ground (arith, loaded, e))
]

-- In a database that was loaded from a .tmc file, whatever areas the file has, a read by index group
-- finds an area for one group only, PLC_MEMORY_AREA, and that area is 100000 zeros: the areas of the
-- file, which hold the symbols, are under keys that no number is equal to.
pub tmc_database-area_by_group :
    (areas : List TmcArea) (db : Database) (group : ℕ)
    → tmc_database areas ≡ ok db
    → area_by_group db group ≡ (if IndexGroup.plc_memory_area == group then some plc_area else none)
tmc_database-area_by_group areas db group e =
    let (mid, loaded, same) = tmc_database-loaded areas db e in
    let h = load_areas-HasNoNumber areas empty_database mid empty-HasNoNumber loaded in
    ap (λ d. area_by_group d group) (sym same ∙ configure-add_data_area mid h)
    ∙ plain_area_by_group mid IndexGroup.plc_memory_area plc_area group (h group)
