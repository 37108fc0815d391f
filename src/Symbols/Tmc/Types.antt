-- ===== src/Symbols/Tmc/Types.antt =====
-- The members of `TmcTypes` of ads_async/symbols.py, by name; a member that has the value of another
-- one is found by its own name as well.
use ads_async.Prelude.{Option, none, some, List, [], ◌∷◌, if◌then◌else◌}
use ads_async.Constants.{
  AdsDataType, int8, uint8, int16, uint16, int32, uint32, int64, uint64, real32, real64, bigtype,
  string, bit,
}
use ads_async.Structs.Text.{codes, Text}
use ads_async.Symbols.Defs.{same_text}

tmc_members : List (Text × AdsDataType)
tmc_members =
    (codes "BOOL", bit)
    ∷ (codes "BYTE", uint8)
    ∷ (codes "SINT", int8)
    ∷ (codes "USINT", uint8)
    ∷ (codes "WORD", uint16)
    ∷ (codes "INT", int16)
    ∷ (codes "UINT", uint16)
    ∷ (codes "DWORD", uint32)
    ∷ (codes "DINT", int32)
    ∷ (codes "UDINT", uint32)
    ∷ (codes "ENUM", uint32)
    ∷ (codes "LINT", int64)
    ∷ (codes "ULINT", uint64)
    ∷ (codes "REAL", real32)
    ∷ (codes "LREAL", real64)
    ∷ (codes "STRING", string)
    ∷ (codes "COMPLEX", bigtype)
    ∷ (codes "BIT", bit)
    ∷ (codes "TIME", uint32)
    ∷ (codes "TIME_OF_DAY", uint32)
    ∷ (codes "DATE", uint32)
    ∷ (codes "DATE_AND_TIME", uint32)
    ∷ (codes "LTIME", uint64)
    ∷ (codes "DT", uint32)
    ∷ (codes "TOD", uint32)
    ∷ (codes "OTCID", uint32)
    ∷ (codes "GUID", uint64)
    ∷ (codes "PVOID", uint64)
    ∷ (codes "ITComObjectServer", uint64)
    ∷ []

find_member : Text → List (Text × AdsDataType) → Option AdsDataType
unfolding same_text
find_member name [] = none
find_member name ((n, t) ∷ members) = if same_text n name then some t else find_member name members

-- `TmcTypes[name].value`; `none` is the `KeyError`.
unfoldable pub tmc_type : Text → Option AdsDataType
unfolding tmc_members find_member
tmc_type name = find_member name tmc_members
