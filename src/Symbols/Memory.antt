-- ===== src/Symbols/Memory.antt =====
-- `PlcMemory` of ads_async/symbols.py: a block of bytes. Offsets and sizes are never negative here,
-- so a Python slice is `take` after `drop`.
use ads_async.Prelude.{
  ℕ, ◌+◌, ◌-◌, ◌≤◌, ◌≡◌, sym, ap, ◌∙◌, ◌++◌, arith, length, take, drop, replicate, leb,
  if◌then◌else◌, length-append, length-take, length-drop, take-append, take-append_le, drop-append,
  drop-append_le, drop-drop, take-append-drop,
}
use ads_async.Prelude.Result.{Result, err, assertion_error, type_error}
use ads_async.Bytes.{Bytes}

-- `PlcMemory(size)`
unfoldable pub plc_memory : ℕ → Bytes
plc_memory size = replicate size 0

-- `memoryview(self.memory)[offset : offset + size]`
unfoldable pub mem_read : ℕ → ℕ → Bytes → Bytes
mem_read offset size memory = take size (drop offset memory)

-- `self.memory[offset : offset + size] = data`; at the end of the memory this makes it longer.
unfoldable pub mem_write : ℕ → Bytes → Bytes → Bytes
mem_write offset bytes memory = take offset memory ++ (bytes ++ drop (offset + length bytes) memory)

-- `write_bits`: past the assertion, `bytearray & int` is a `TypeError`, at every offset.
unfoldable pub write_bits : ℕ → Result Bytes
write_bits bit_size = if leb bit_size 8 then err type_error else err assertion_error

-- A read that ends within the first part of the memory.
read_prefix :
    (xs ys : Bytes) (o n : ℕ) → o + n ≤ length xs → take n (drop o (xs ++ ys)) ≡ take n (drop o xs)
read_prefix xs ys o n h =
    ap (take n) (drop-append_le o xs ys (omega arith))
    ∙ take-append_le n (drop o xs) ys (omega (arith, length-drop o xs))

module _ (offset : ℕ) (bytes memory : Bytes) (fits : offset + length bytes ≤ length memory) where
  length-take_offset : length (take offset memory) ≡ offset
  length-take_offset = omega (arith, length-take offset memory)

  -- A write inside the memory keeps its size.
  pub length-mem_write : length (mem_write offset bytes memory) ≡ length memory
  unfolding mem_write
  length-mem_write = omega (
    arith,
    length-append (take offset memory) (bytes ++ drop (offset + length bytes) memory),
    length-append bytes (drop (offset + length bytes) memory),
    length-drop (offset + length bytes) memory,
    length-take_offset,
  )

  drop_to_write :
      drop offset (mem_write offset bytes memory) ≡ bytes ++ drop (offset + length bytes) memory
  unfolding mem_write
  drop_to_write =
      ap (λ k. drop k (mem_write offset bytes memory)) (sym length-take_offset)
      ∙ drop-append (take offset memory) (bytes ++ drop (offset + length bytes) memory)

  -- What was written is read back.
  pub mem_read-mem_write_self :
      mem_read offset (length bytes) (mem_write offset bytes memory) ≡ bytes
  unfolding mem_read
  mem_read-mem_write_self =
      ap (take (length bytes)) drop_to_write
      ∙ take-append bytes (drop (offset + length bytes) memory)

  -- A read that ends before the write begins sees what it saw before.
  pub mem_read-mem_write_before :
      (o n : ℕ)
      → o + n ≤ offset
      → mem_read o n (mem_write offset bytes memory) ≡ mem_read o n memory
  unfolding mem_read mem_write
  mem_read-mem_write_before o n h =
      read_prefix (take offset memory) (bytes ++ drop (offset + length bytes) memory) o n
        (omega (arith, length-take_offset))
      ∙ sym (
          read_prefix (take offset memory) (drop offset memory) o n
            (omega (arith, length-take_offset)))
      ∙ ap (λ m. take n (drop o m)) (take-append-drop offset memory)

  -- A read that begins after the write ends sees what it saw before.
  pub mem_read-mem_write_after :
      (o n : ℕ)
      → offset + length bytes ≤ o
      → mem_read o n (mem_write offset bytes memory) ≡ mem_read o n memory
  unfolding mem_read
  mem_read-mem_write_after o n h =
      let k = o - (offset + length bytes) in
      let tail = drop (offset + length bytes) memory in
      ap (take n) (
        ap (λ j. drop j (mem_write offset bytes memory)) {x = o} (omega arith)
        ∙ sym (drop-drop (length bytes + k) offset (mem_write offset bytes memory))
        ∙ ap (drop (length bytes + k)) drop_to_write
        ∙ sym (drop-drop k (length bytes) (bytes ++ tail))
        ∙ ap (drop k) (drop-append bytes tail)
        ∙ drop-drop k (offset + length bytes) memory
        ∙ ap (λ j. drop j memory) {y = o} (omega arith))
