-- ===== src/Symbols/Access.antt =====
-- How a symbol of ads_async/symbols.py is read and written, and `deserialize_data` of
-- ads_async/structs.py.
use Prim.Native.Nat.{bit_and}
use ads_async.Prelude.{
  ℕ, ◌+◌, ◌-◌, ◌*◌, ◌/◌, ◌^◌, true, false, none, some, [], ◌∷◌, ◌++◌, length, get_elem?, set,
  replicate, leb, ltb, ◌==◌, if◌then◌else◌,
}
use ads_async.Prelude.Result.{
  Result, ok, err, value_error, key_error, type_error, assertion_error, index_error, struct_error,
  null_pointer, ◌>>=◌,
}
use ads_async.Bytes.{Bytes, to_le, from_le}
use ads_async.Constants.{AdsDataType, ctypes_type, real32, real64, wstring, bit}
use ads_async.Symbols.Memory.{mem_read, mem_write, write_bits}
use ads_async.Symbols.Defs.{Database, OffsetSize, Symbol, basic, complex}

-- `max(array_length, 1)`: an array type is made for lengths above one.
abbrev pub elements : ℕ → ℕ
elements n = if ltb 1 n then n else 1

-- `byte_size`, as `_configure_data_type` sets it.
unfoldable pub byte_size : Symbol → Result ℕ
byte_size s = elim s.kind [
  | complex struct_size ↦ ok (struct_size * s.array_length)
  | basic ↦ elim (ctypes_type s.data_type) [
    | none ↦ err key_error
    | some t ↦ ok (elements s.array_length * t.size)
  ]
]

-- `data_area.memory` of a symbol of the database.
unfoldable pub memory_of : Database → Symbol → Bytes
memory_of db s = elim (get_elem? db.data_areas s.data_area) [ none ↦ [] | some a ↦ a.memory ]

unfoldable pub put_memory : Database → Symbol → Bytes → Database
put_memory db s memory = elim (get_elem? db.data_areas s.data_area) [
  | none ↦ db
  | some a ↦ record db { data_areas = set db.data_areas s.data_area (record a { memory = memory }) }
]

-- `_dereference_pointer` returns the `c_uint64` itself, which no slice can be made from: a pointer
-- that is not null ends in a `TypeError`.
unfoldable pub dereference_pointer : Bytes → ℕ → Result ℕ
unfolding mem_read
dereference_pointer memory offset =
    if ltb (length (mem_read offset 8 memory)) 8
    then err value_error
    else if from_le (mem_read offset 8 memory) == 0
    then err null_pointer
    else err type_error

-- `offset = self.offset if not self.pointer else self._dereference_pointer()`
unfoldable pub effective_offset : Bytes → Symbol → Result ℕ
unfolding dereference_pointer
effective_offset memory s = if s.pointer then dereference_pointer memory s.offset else ok s.offset

-- `self.ctypes_data_type.from_buffer(raw)`: the bytes of the object.
unfoldable pub from_memory : Bytes → ℕ → ℕ → Result Bytes
unfolding mem_read
from_memory memory offset size =
    if leb size (length (mem_read offset size memory))
    then ok (mem_read offset size memory)
    else err value_error

-- `read_bits`: a byte, shifted and masked.
unfoldable pub read_bits : Bytes → ℕ → OffsetSize → Result ℕ
read_bits memory offset bits = elim (leb bits.size 8) [
  | false ↦ err assertion_error
  | true ↦ elim (get_elem? memory offset) [
    | none ↦ err index_error
    | some b ↦ ok (bit_and (b / 2 ^ bits.offset) (2 ^ bits.size - 1))
  ]
]

-- `c_float(v)` and `c_double(v)` of a small number `v`: the exponent, and the fraction below it.
abbrev log2_of_byte : ℕ → ℕ
log2_of_byte v =
    if ltb v 2
    then 0
    else if ltb v 4
    then 1
    else if ltb v 8
    then 2
    else if ltb v 16
    then 3
    else if ltb v 32
    then 4
    else if ltb v 64
    then 5
    else if ltb v 128
    then 6
    else 7

abbrev real_bytes : (size bias fraction_bits v : ℕ) → Bytes
real_bytes size bias fraction_bits v =
    if v == 0
    then to_le size 0
    else let e = log2_of_byte v in
      to_le size ((bias + e) * 2 ^ fraction_bits + (v - 2 ^ e) * 2 ^ (fraction_bits - e))

-- `ctypes_base_type(raw)` for a number of at most eight bits.
unfoldable pub cast : AdsDataType → ℕ → Result Bytes
unfolding to_le
cast wstring raw = err type_error
cast bit raw = ok ((if raw == 0 then 0 else 1) ∷ [])
cast real32 raw = ok (real_bytes 4 127 23 raw)
cast real64 raw = ok (real_bytes 8 1023 52 raw)
cast t raw = elim (ctypes_type t) [ none ↦ err key_error | some c ↦ ok (to_le c.size raw) ]

-- `self.ctypes_data_type(raw)`; an array takes the number as its first element.
unfoldable pub bit_value : Symbol → ℕ → Result Bytes
unfolding cast byte_size
bit_value s raw = elim s.kind [
  | complex _ ↦ err type_error
  | basic ↦ do
    first ← cast s.data_type raw
    size ← byte_size s
    ok (first ++ replicate (size - length first) 0)
]

-- `Symbol.read`
unfoldable pub symbol_read : Database → Symbol → Result Bytes
unfolding byte_size memory_of effective_offset from_memory read_bits bit_value
symbol_read db s = elim s.bit_offset [
  | some bits ↦ do raw ← read_bits (memory_of db s) s.offset bits; bit_value s raw
  | none ↦ do
    size ← byte_size s
    offset ← effective_offset (memory_of db s) s
    from_memory (memory_of db s) offset size
]

-- `structs.deserialize_data` of ads_async/structs.py, as far as it can fail: the format has
-- `length` items of the type's code, at the standard size of that code.
unfoldable pub deserialize_data : AdsDataType → ℕ → Bytes → Result Bytes
deserialize_data data_type count bytes = elim (ctypes_type data_type) [
  | none ↦ err key_error
  | some t ↦ elim t.standard_size [
    | none ↦ err struct_error
    | some size ↦ if length bytes == count * size then ok bytes else err struct_error
  ]
]

-- `Symbol.write`, of bytes
unfoldable pub symbol_write : Database → Symbol → Bytes → Result Database
unfolding deserialize_data memory_of put_memory effective_offset mem_write write_bits
symbol_write db s bytes = do
  _ ← deserialize_data s.data_type s.array_length bytes
  elim s.bit_offset [
    | some bits ↦ do _ ← write_bits bits.size; ok db
    | none ↦ do
      offset ← effective_offset (memory_of db s) s
      ok (put_memory db s (mem_write offset bytes (memory_of db s)))
  ]
