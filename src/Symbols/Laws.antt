-- ===== src/Symbols/Laws.antt =====
-- Reading and writing symbols of ads_async/symbols.py: what a write changes, and which symbols
-- cannot be read or written at all.
use ads_async.Prelude.{
  ℕ, ◌+◌, ◌≤◌, ◌≡◌, ◌≢◌, sym, ap, ◌∙◌, ◌⊎◌, true, false, none, some, arith, length, get_elem?,
  get_elem?-set_self, get_elem?-set_ne, drop, length-take, length-drop,
}
use ads_async.Prelude.Result.{ok}
use native.Mathlib.Decide.{ℕ_discrete}
use ads_async.Bytes.{Bytes}
use ads_async.Constants.{CtypesType, ctypes_type}
use ads_async.Symbols.Memory.{
  mem_read, mem_write, length-mem_write, mem_read-mem_write_self, mem_read-mem_write_before,
  mem_read-mem_write_after,
}
use ads_async.Symbols.Defs.{Symbol, basic, Database, DataArea, OffsetSize}
use ads_async.Symbols.Access.{byte_size, put_memory, symbol_read, symbol_write}

-- A symbol with a place of its own in the memory of its area: no bit field, no pointer.
pub record IsPlain (db : Database) (s : Symbol) (area : DataArea) (size : ℕ) : Type 0 where
  pub in_area : get_elem? db.data_areas s.data_area ≡ some area
  pub sized : byte_size s ≡ ok size
  pub whole_bytes : s.bit_offset ≡ none
  pub no_pointer : s.pointer ≡ false
  pub within : s.offset + size ≤ length area.memory

-- A plain symbol whose type has the size in memory that `struct` gives its code.
pub record IsWritable (s : Symbol) (size : ℕ) : Type 0 where
  pub is_basic : s.kind ≡ basic
  pub of_type :
      (t : CtypesType) × (ctypes_type s.data_type ≡ some t) × (t.standard_size ≡ some t.size)
  pub not_empty : 1 ≤ s.array_length

module _ (db : Database) (s : Symbol) (area : DataArea) (size : ℕ)
    (p : IsPlain db s area size) where
  -- A plain symbol reads its own bytes.
  pub symbol_read-plain : symbol_read db s ≡ ok (mem_read s.offset size area.memory)
  unfolding symbol_read mem_read
  symbol_read-plain =
      ground (arith, length-take size (drop s.offset area.memory), length-drop s.offset area.memory)

  -- Writing as many bytes as a plain symbol has replaces these in the memory of its area.
  pub symbol_write-plain :
      (bytes : Bytes)
      → IsWritable s size
      → length bytes ≡ size
      → symbol_write db s bytes ≡ ok (put_memory db s (mem_write s.offset bytes area.memory))
  unfolding symbol_write byte_size
  symbol_write-plain bytes w e =
      let (t, typed, standard) = w.of_type in
      ground (arith, w.is_basic, w.not_empty, typed, standard)

-- Two symbols that share no byte.
pub data Apart (s : Symbol) (size : ℕ) (t : Symbol) (size' : ℕ) : Type 0 where
  other_area : s.data_area ≢ t.data_area → Apart s size t size'
  before : t.offset + size' ≤ s.offset → Apart s size t size'
  after : s.offset + size ≤ t.offset → Apart s size t size'

module _ (db : Database) (s : Symbol) (area : DataArea) (size : ℕ) (p : IsPlain db s area size)
    (memory : Bytes) where
  written_area :
      get_elem? (put_memory db s memory).data_areas s.data_area
      ≡ some (record area { memory = memory })
  unfolding put_memory
  written_area =
      ground
        (arith, get_elem?-set_self db.data_areas s.data_area (record area { memory = memory }) area)

  other_area_kept :
      (i : ℕ)
      → s.data_area ≢ i
      → get_elem? (put_memory db s memory).data_areas i ≡ get_elem? db.data_areas i
  unfolding put_memory
  other_area_kept i ne =
      ground
        (arith, get_elem?-set_ne db.data_areas s.data_area i (record area { memory = memory }) ne)

  pub written-IsPlain :
      length memory ≡ length area.memory
      → IsPlain (put_memory db s memory) s (record area { memory = memory }) size
  written-IsPlain e = record {
    in_area = written_area;
    sized = p.sized;
    whole_bytes = p.whole_bytes;
    no_pointer = p.no_pointer;
    within = let w = p.within in omega (arith, e);
  }

module _ (db : Database) (s : Symbol) (area : DataArea) (size : ℕ)
    (p : IsPlain db s area size) where
  -- Through a symbol of another area, a write is not seen.
  unseen_elsewhere :
      (memory : Bytes) (t : Symbol) (area' : DataArea) (size' : ℕ)
      → IsPlain db t area' size'
      → s.data_area ≢ t.data_area
      → symbol_read (put_memory db s memory) t ≡ symbol_read db t
  unseen_elsewhere memory t area' size' q ne =
      let q' : IsPlain (put_memory db s memory) t area' size' = record {
        in_area = other_area_kept db s area size p memory t.data_area ne ∙ q.in_area;
        sized = q.sized;
        whole_bytes = q.whole_bytes;
        no_pointer = q.no_pointer;
        within = q.within;
      } in
      symbol_read-plain (put_memory db s memory) t area' size' q'
      ∙ sym (symbol_read-plain db t area' size' q)

  -- Through a symbol of the same area, a write is seen where it changes the symbol's bytes.
  seen_in_area :
      (memory : Bytes) (t : Symbol) (area' : DataArea) (size' : ℕ)
      → IsPlain db t area' size'
      → s.data_area ≡ t.data_area
      → length memory ≡ length area.memory
      → mem_read t.offset size' memory ≡ mem_read t.offset size' area.memory
      → symbol_read (put_memory db s memory) t ≡ symbol_read db t
  seen_in_area memory t area' size' q same len agree =
      let one : area' ≡ area = ground (arith, p.in_area, q.in_area) in
      let q' : IsPlain (put_memory db s memory) t (record area { memory = memory }) size' = record {
        in_area =
            ap (get_elem? (put_memory db s memory).data_areas) (sym same)
            ∙ written_area db s area size p memory;
        sized = q.sized;
        whole_bytes = q.whole_bytes;
        no_pointer = q.no_pointer;
        within = let w = q.within in omega (arith, len, ap (λ a. length (DataArea.memory a)) one);
      } in
      symbol_read-plain (put_memory db s memory) t (record area { memory = memory }) size' q'
      ∙ ap ok (agree ∙ ap (λ (a : DataArea). mem_read t.offset size' a.memory) (sym one))
      ∙ sym (symbol_read-plain db t area' size' q)

  unseen :
      (bytes : Bytes) (t : Symbol) (area' : DataArea) (size' : ℕ)
      → s.offset + length bytes ≤ length area.memory
      → length bytes ≡ size
      → IsPlain db t area' size'
      → Apart s size t size'
      → symbol_read (put_memory db s (mem_write s.offset bytes area.memory)) t ≡ symbol_read db t
  unseen bytes t area' size' fits e q (other_area ne) = unseen_elsewhere _ t area' size' q ne
  unseen bytes t area' size' fits e q (before h) = elim (ℕ_discrete s.data_area t.data_area) [
    | no ne ↦ unseen_elsewhere _ t area' size' q ne
    | yes same ↦
        seen_in_area _ t area' size' q same (length-mem_write s.offset bytes area.memory fits)
          (mem_read-mem_write_before s.offset bytes area.memory fits t.offset size' h)
  ]
  unseen bytes t area' size' fits e q (after h) = elim (ℕ_discrete s.data_area t.data_area) [
    | no ne ↦ unseen_elsewhere _ t area' size' q ne
    | yes same ↦
        seen_in_area _ t area' size' q same (length-mem_write s.offset bytes area.memory fits) (
          mem_read-mem_write_after s.offset bytes area.memory fits t.offset size'
            (omega (arith, e)))
  ]

module _ (db : Database) (s : Symbol) (area : DataArea) (size : ℕ) (bytes : Bytes) where
  -- A write of a plain symbol, with as many bytes as it has, succeeds, and is read back.
  pub symbol_read-symbol_write_self :
      IsPlain db s area size
      → IsWritable s size
      → length bytes ≡ size
      → (db' : Database) × (symbol_write db s bytes ≡ ok db') × (symbol_read db' s ≡ ok bytes)
  symbol_read-symbol_write_self p w e =
      let memory = mem_write s.offset bytes area.memory in
      let fits : s.offset + length bytes ≤ length area.memory =
        let i = p.within in omega (arith, e) in
      let db' = put_memory db s memory in
      let area' = record area { memory = memory } in
      (
        db',
        symbol_write-plain db s area size p bytes w e,
        symbol_read-plain db' s area' size (
              written-IsPlain db s area size p memory
                (length-mem_write s.offset bytes area.memory fits))
            ∙ ap ok (
                ap (λ n. mem_read s.offset n memory) (sym e)
                ∙ mem_read-mem_write_self s.offset bytes area.memory fits),
      )

  -- A write of a plain and writable symbol with as many bytes as it has, which succeeds, is not seen
  -- through another plain symbol that shares no byte with it.
  pub symbol_read-symbol_write_apart :
      (db' : Database) (t : Symbol) (area' : DataArea) (size' : ℕ)
      → IsPlain db s area size
      → IsWritable s size
      → length bytes ≡ size
      → symbol_write db s bytes ≡ ok db'
      → IsPlain db t area' size'
      → Apart s size t size'
      → symbol_read db' t ≡ symbol_read db t
  symbol_read-symbol_write_apart db' t area' size' p w e written q apart =
      let fits : s.offset + length bytes ≤ length area.memory =
        let i = p.within in omega (arith, e) in
      let same : put_memory db s (mem_write s.offset bytes area.memory) ≡ db' =
        ground (arith, written, symbol_write-plain db s area size p bytes w e) in
      rw (← same) (unseen db s area size p bytes t area' size' fits e q apart)

-- A pointer symbol that is no bit field is never read: past a null pointer the read raises.
pub pointer_not_readable :
    (db : Database) (s : Symbol) (v : Bytes)
    → s.pointer ≡ true
    → s.bit_offset ≡ none
    → symbol_read db s ≢ ok v
unfolding symbol_read
pointer_not_readable db s v p b h = ground arith

-- A bit field, and a pointer, is never written.
pub pointer_or_bit_not_writable :
    (db : Database) (s : Symbol) (bytes : Bytes) (bits : OffsetSize) (d : Database)
    → (s.pointer ≡ true) ⊎ (s.bit_offset ≡ some bits)
    → symbol_write db s bytes ≢ ok d
unfolding symbol_write
pointer_or_bit_not_writable db s bytes bits d h e = ground arith
