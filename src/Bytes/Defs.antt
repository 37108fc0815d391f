-- ===== src/Bytes/Defs.antt =====
-- `bytes(c_uintN(n))`, `int.from_bytes(b, "little")`, and the fields of a packed structure.
use ads_async.Prelude.{
  ℕ, zero, suc, ◌+◌, ◌*◌, ◌/◌, ◌%◌, ◌<◌, List, [], ◌∷◌, ◌++◌, All, take, drop, ◌^◌,
}

abbrev pub Bytes : Type 0
Bytes = List ℕ

abbrev pub IsByte : ℕ → Type 0
IsByte b = b < 256

abbrev pub AllBytes : Bytes → Type 0
AllBytes = All IsByte

-- A number in `k` bytes, the lowest first; what does not fit is cut off, as ctypes does.
unfoldable pub to_le : ℕ → ℕ → Bytes
to_le zero n = []
to_le (suc k) n = (n % 256) ∷ to_le k (n / 256)

unfoldable pub from_le : Bytes → ℕ
from_le [] = 0
from_le (b ∷ bs) = b + 256 * from_le bs

-- The widths of the fields, in order.
abbrev pub Layout : Type 0
Layout = List ℕ

-- `ctypes.sizeof` of a packed structure.
unfoldable pub size_of : Layout → ℕ
size_of [] = 0
size_of (w ∷ ws) = w + size_of ws

-- The bytes of a structure with the given field values.
unfoldable pub pack : Layout → List ℕ → Bytes
pack [] vs = []
pack (w ∷ ws) [] = to_le w 0 ++ pack ws []
pack (w ∷ ws) (v ∷ vs) = to_le w v ++ pack ws vs

-- The field values that a structure at the start of the bytes has.
unfoldable pub unpack : Layout → Bytes → List ℕ
unpack [] bs = []
unpack (w ∷ ws) bs = from_le (take w bs) ∷ unpack ws (drop w bs)

-- One value for each field, each within its width.
abbrev pub Fits : Layout → List ℕ → Type 0
Fits [] [] = Unit
Fits [] (v ∷ vs) = 1 < 0
Fits (w ∷ ws) [] = 1 < 0
Fits (w ∷ ws) (v ∷ vs) = (v < 256 ^ w) × Fits ws vs
