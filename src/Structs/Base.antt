-- ===== src/Structs/Base.antt =====
-- `_AdsStructBase` of ads_async/structs.py: `from_buffer` of ctypes, and the `"{n}s"` payload
-- fields that `serialize` and `deserialize` pack and unpack.
use mathlib.Core.List.{append-nil}
use ads_async.Prelude.{
  ℕ, ◌-◌, ◌≤◌, ◌≡◌, sym, ap, ◌∙◌, List, ◌++◌, arith, length, length-append, take, drop, replicate,
  take-append, drop-append, take_all, leb, le→leb, if◌then◌else◌,
}
use ads_async.Prelude.Result.{Result, ok, err, value_error, struct_error}
use ads_async.Bytes.{Bytes, Layout, size_of, pack, unpack, Fits, unpack-pack, length-pack}

-- `cls.from_buffer(buf)`: a buffer shorter than the structure is a `ValueError`.
unfoldable pub from_buffer {ℓ} : {A : Type ℓ} → Layout → (List ℕ → A) → Bytes → Result A
from_buffer ws of_fields buf =
    if leb (size_of ws) (length buf) then ok (of_fields (unpack ws buf)) else err value_error

-- `struct.unpack("{n}s", buf[:n])`
unfoldable pub unpack_s : ℕ → Bytes → Result Bytes
unpack_s n buf = if leb n (length buf) then ok (take n buf) else err struct_error

-- `struct.pack("{n}s", value)`: cut off or padded with zeros to `n` bytes.
unfoldable pub pack_s : ℕ → Bytes → Bytes
pack_s n value = take n value ++ replicate (n - length value) 0

pub from_buffer-pack {ℓ} :
    {A : Type ℓ} (ws : Layout) (of_fields : List ℕ → A) (vs : List ℕ) (rest : Bytes)
    → Fits ws vs
    → from_buffer ws of_fields (pack ws vs ++ rest) ≡ ok (of_fields vs)
unfolding from_buffer
from_buffer-pack ws of_fields vs rest h =
    let enough : size_of ws ≤ length (pack ws vs ++ rest) =
      omega (arith, length-append (pack ws vs) rest, length-pack ws vs) in
    rw (le→leb _ _ enough, unpack-pack ws vs rest h)

pub unpack_s-append : (value rest : Bytes) → unpack_s (length value) (value ++ rest) ≡ ok value
unfolding unpack_s
unpack_s-append value rest =
    let enough : length value ≤ length (value ++ rest) = omega (arith, length-append value rest) in
    rw (le→leb _ _ enough, take-append value rest)

pub pack_s_exact : (value : Bytes) → pack_s (length value) value ≡ value
unfolding pack_s
pack_s_exact value =
    let none_missing : length value - length value ≡ 0 = omega arith in
    rw (none_missing, take_all value) (append-nil value)

-- What follows the fixed part of a structure.
pub drop-pack :
    (ws : Layout) (vs : List ℕ) (rest : Bytes) → drop (size_of ws) (pack ws vs ++ rest) ≡ rest
drop-pack ws vs rest =
    ap (λ n. drop n (pack ws vs ++ rest)) (sym (length-pack ws vs)) ∙ drop-append (pack ws vs) rest
