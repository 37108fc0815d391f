-- ===== src/Constants/DataTypes.antt =====
-- `AdsDataType` of ads_async/constants.py and its `ctypes_type`, on a platform whose C `long` has
-- 8 bytes (Linux, macOS): there `ctypes.c_int64` is `c_long`, with the type code `l`.
use ads_async.Prelude.{ℕ, ◌≡◌, refl, Option, none, some, [], ◌∷◌, Dict, lookup}

pub data AdsDataType : Type 0 where
  void int8 uint8 int16 uint16 int32 uint32 int64 uint64 : AdsDataType
  real32 real64 bigtype string wstring real80 bit maxtypes : AdsDataType

unfoldable pub type_value : AdsDataType → ℕ
type_value void = 0
type_value int8 = 16
type_value uint8 = 17
type_value int16 = 2
type_value uint16 = 18
type_value int32 = 3
type_value uint32 = 19
type_value int64 = 20
type_value uint64 = 21
type_value real32 = 4
type_value real64 = 5
type_value bigtype = 65
type_value string = 30
type_value wstring = 31
type_value real80 = 32
type_value bit = 33
type_value maxtypes = 34

abbrev type_members : Dict AdsDataType
type_members =
    (0, void)
    ∷ (16, int8)
    ∷ (17, uint8)
    ∷ (2, int16)
    ∷ (18, uint16)
    ∷ (3, int32)
    ∷ (19, uint32)
    ∷ (20, int64)
    ∷ (21, uint64)
    ∷ (4, real32)
    ∷ (5, real64)
    ∷ (65, bigtype)
    ∷ (30, string)
    ∷ (31, wstring)
    ∷ (32, real80)
    ∷ (33, bit)
    ∷ (34, maxtypes)
    ∷ []

-- `AdsDataType(value)`; `none` is the `ValueError`.
unfoldable pub to_data_type : ℕ → Option AdsDataType
unfolding lookup
to_data_type n = lookup n type_members

pub to_data_type-value : (t : AdsDataType) → to_data_type (type_value t) ≡ some t
unfolding to_data_type type_value
to_data_type-value void = refl
to_data_type-value _ = refl

-- A ctypes simple type: its size in memory, and the size that `struct` gives its type code under
-- the `<` prefix, where codes have standard sizes. `none` is a code that `struct` does not have.
pub record CtypesType : Type 0 where
  pub size : ℕ
  pub standard_size : Option ℕ

abbrev simple : ℕ → ℕ → Option CtypesType
simple size standard = some (record { size = size; standard_size = some standard })

-- `ctypes_type`; `none` is the `KeyError` of a data type that `to_ctypes` lacks. The code of
-- `c_int64` is `l`, which has 4 bytes in a standard-size format.
unfoldable pub ctypes_type : AdsDataType → Option CtypesType
ctypes_type int8 = simple 1 1
ctypes_type uint8 = simple 1 1
ctypes_type int16 = simple 2 2
ctypes_type uint16 = simple 2 2
ctypes_type int32 = simple 4 4
ctypes_type uint32 = simple 4 4
ctypes_type int64 = simple 8 4
ctypes_type uint64 = simple 8 4
ctypes_type real32 = simple 4 4
ctypes_type real64 = simple 8 8
ctypes_type string = simple 1 1
ctypes_type wstring = some (record { size = 4; standard_size = none })
ctypes_type bit = simple 1 1
ctypes_type _ = none
