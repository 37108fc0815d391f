-- ===== src/Bytes/Laws.antt =====
-- Round trips between numbers and bytes, and between field values and packed structures.
use native.Mathlib.Nat.{pow-suc}
use mathlib.Core.List.{append_assoc}
use ads_async.Prelude.{
  ℕ, zero, suc, ◌/◌, ◌^◌, ◌<◌, ◌≡◌, refl, sym, ap, ◌∙◌, List, [], ◌∷◌, ◌++◌, arith, length,
  length-append, take, drop, take-append, drop-append,
}
use ads_async.Bytes.Defs.{Bytes, to_le, from_le, Layout, size_of, pack, unpack, Fits}

pub length-to_le : (k n : ℕ) → length (to_le k n) ≡ k
unfolding to_le
length-to_le zero n = refl
length-to_le (suc k) n = ap suc (length-to_le k (n / 256))

pub from_le-to_le : (k n : ℕ) → n < 256 ^ k → from_le (to_le k n) ≡ n
unfolding to_le from_le
from_le-to_le zero n h = omega arith
from_le-to_le (suc k) n h = omega (arith, from_le-to_le k (n / 256) (omega (arith, pow-suc 256 k)))

pub length-pack : (ws : Layout) (vs : List ℕ) → length (pack ws vs) ≡ size_of ws
unfolding pack size_of
length-pack [] vs = refl
length-pack (w ∷ ws) [] =
    length-append (to_le w 0) (pack ws []) ∙ omega (arith, length-to_le w 0, length-pack ws [])
length-pack (w ∷ ws) (v ∷ vs) =
    length-append (to_le w v) (pack ws vs) ∙ omega (arith, length-to_le w v, length-pack ws vs)

-- The first `k` bytes of a number followed by others.
pub take-to_le : (k n : ℕ) (rest : Bytes) → take k (to_le k n ++ rest) ≡ to_le k n
take-to_le k n rest =
    ap (λ t. take t (to_le k n ++ rest)) (sym (length-to_le k n)) ∙ take-append (to_le k n) rest

pub drop-to_le : (k n : ℕ) (rest : Bytes) → drop k (to_le k n ++ rest) ≡ rest
drop-to_le k n rest =
    ap (λ t. drop t (to_le k n ++ rest)) (sym (length-to_le k n)) ∙ drop-append (to_le k n) rest

-- Reading a structure from its own bytes, whatever follows, gives back its fields.
pub unpack-pack :
    (ws : Layout) (vs : List ℕ) (rest : Bytes) → Fits ws vs → unpack ws (pack ws vs ++ rest) ≡ vs
unfolding pack unpack
unpack-pack [] [] rest h = refl
unpack-pack [] (v ∷ vs) rest h = absurd (omega arith)
unpack-pack (w ∷ ws) [] rest h = absurd (omega arith)
unpack-pack (w ∷ ws) (v ∷ vs) rest h = rw (
  append_assoc (to_le w v) (pack ws vs),
  take-to_le w v (pack ws vs ++ rest),
  drop-to_le w v (pack ws vs ++ rest),
  from_le-to_le w v h.0,
  unpack-pack ws vs rest h.1,
)
