-- ===== src/Symbols/Stable.antt =====
-- What a write through a symbol of ads_async/symbols.py leaves as it is: a symbol that could be read
-- still can.
use ads_async.Prelude.{
  ℕ, ◌++◌, take, ◌+◌, ◌≤◌, ◌≡◌, ◌≢◌, false, none, some, arith, length, get_elem?,
  get_elem?-set_self, drop, length-take, length-drop, length-append, leb, tests, Bool-cases,
  Option-cases, inl, inr,
}
use ads_async.Prelude.Result.{ok, Result-cases}
use ads_async.Bytes.{Bytes}
use ads_async.Symbols.Memory.{mem_read, mem_write}
use ads_async.Symbols.Defs.{Symbol, Database, OffsetSize}
use ads_async.Symbols.Access.{byte_size, memory_of, put_memory, symbol_read, symbol_write}
use ads_async.Symbols.Laws.{pointer_not_readable, pointer_or_bit_not_writable}

length-mem_write_ge :
    (offset : ℕ) (bytes memory : Bytes) → length memory ≤ length (mem_write offset bytes memory)
unfolding mem_write
length-mem_write_ge offset bytes memory = omega (
  arith,
  length-append (take offset memory) (bytes ++ drop (offset + length bytes) memory),
  length-append bytes (drop (offset + length bytes) memory),
  length-drop (offset + length bytes) memory,
  length-take offset memory,
)

memory_of-put_memory :
    (db : Database) (s : Symbol) (memory : Bytes)
    → length (memory_of db s) ≤ length memory
    → length (memory_of db s) ≤ length (memory_of (put_memory db s memory) s)
unfolding memory_of put_memory
memory_of-put_memory db s memory h = elim (Option-cases (get_elem? db.data_areas s.data_area)) [
  | inl out ↦ ground arith
  | inr (area, e) ↦
      ground
        (arith, get_elem?-set_self db.data_areas s.data_area (record area { memory = memory }) area)
]

longer_read :
    (offset size : ℕ) (memory memory' : Bytes)
    → length memory ≤ length memory'
    → size ≤ length (mem_read offset size memory)
    → size ≤ length (mem_read offset size memory')
unfolding mem_read
longer_read offset size memory memory' h fits = omega (
  arith,
  length-take size (drop offset memory),
  length-take size (drop offset memory'),
  length-drop offset memory,
  length-drop offset memory',
)

bit_not_writable :
    (db db' : Database) (s : Symbol) (bytes : Bytes) (bits : OffsetSize)
    → s.bit_offset ≡ some bits
    → symbol_write db s bytes ≢ ok db'
bit_not_writable db db' s bytes bits e = pointer_or_bit_not_writable db s bytes bits db' (inr e)

-- A read of a symbol that is no bit field: it is no pointer, and its bytes are in the memory.
readable :
    (db : Database) (s : Symbol) (a : Bytes)
    → s.bit_offset ≡ none
    → symbol_read db s ≡ ok a
    → (size : ℕ) × (byte_size s ≡ ok size)
      × (s.pointer ≡ false)
      × (size ≤ length (mem_read s.offset size (memory_of db s)))
unfolding symbol_read
readable db s a whole r = elim (Bool-cases s.pointer) [
  | inl p ↦ absurd (pointer_not_readable db s a p whole r)
  | inr p ↦ elim (Result-cases (byte_size s)) [
    | inl (e, n) ↦ absurd (ground (arith, whole, n, r))
    | inr (size, n) ↦
        elim (Bool-cases (leb size (length (mem_read s.offset size (memory_of db s))))) [
          | inl fits ↦ (size, n, p, omega tests)
          | inr short ↦ absurd (ground (arith, whole, n, r, p, short))
        ]
  ]
]

readable_again :
    (db : Database) (s : Symbol) (size : ℕ)
    → s.bit_offset ≡ none
    → byte_size s ≡ ok size
    → s.pointer ≡ false
    → size ≤ length (mem_read s.offset size (memory_of db s))
    → (b : Bytes) × (symbol_read db s ≡ ok b)
unfolding symbol_read
readable_again db s size whole e p h =
    (mem_read s.offset size (memory_of db s), ground (arith, whole, e, p, h))

written :
    (db db' : Database) (s : Symbol) (bytes : Bytes)
    → s.bit_offset ≡ none
    → s.pointer ≡ false
    → symbol_write db s bytes ≡ ok db'
    → db' ≡ put_memory db s (mem_write s.offset bytes (memory_of db s))
unfolding symbol_write
written db db' s bytes whole p w = ground arith

-- A symbol that could be read before a write through it that succeeds can be read after it.
pub symbol_read-symbol_write_still :
    (db db' : Database) (s : Symbol) (a bytes : Bytes)
    → symbol_read db s ≡ ok a
    → symbol_write db s bytes ≡ ok db'
    → (b : Bytes) × (symbol_read db' s ≡ ok b)
symbol_read-symbol_write_still db db' s a bytes r w = elim (Option-cases s.bit_offset) [
  | inr (bits, e) ↦ absurd (bit_not_writable db db' s bytes bits e w)
  | inl whole ↦
      let (size, e, p, fits) = readable db s a whole r in
      let memory = mem_write s.offset bytes (memory_of db s) in
      let longer =
        memory_of-put_memory db s memory (length-mem_write_ge s.offset bytes (memory_of db s)) in
      rw (written db db' s bytes whole p w) (
        readable_again (put_memory db s memory) s size whole e p (
          longer_read s.offset size (memory_of db s) (memory_of (put_memory db s memory) s) longer
            fits))
]
