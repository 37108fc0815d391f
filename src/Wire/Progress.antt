-- ===== src/Wire/Progress.antt =====
-- `from_wire` comes to its end on every buffer.
use ads_async.Prelude.{
  ℕ, zero, suc, ◌+◌, ◌≤◌, ◌<◌, ◌≡◌, ◌≢◌, refl, ap, Option, none, some, [], arith, length, drop,
  length-drop, ltb, ◌==◌, inl, inr, Bool-cases,
}
use mathlib.Core.Path.{subst}
use ads_async.Prelude.Result.{Result, ok, err}
use ads_async.Bytes.{Bytes}
use ads_async.Constants.{AdsCommandId}
use ads_async.Structs.Header.{
  AmsTcpHeader, tcp_from_buffer, AoEHeader, command_id, is_request, aoe_from_buffer,
}
use ads_async.Structs.Item.{Item, StructClass, deserialize, get_struct_by_command}
use ads_async.Wire.Defs.{
  Round, stop, skip, emit, raise, finish, parse_class, parse_command, parse_aoe, parse_tcp, round,
  no_fuel, from_wire_loop, from_wire, Parsed, finished, yield_first,
}

-- A round that goes on has a shorter buffer.
abbrev Shorter : Bytes → Round → Type 0
Shorter buf (skip rest) = length rest < length buf
Shorter buf (emit _ _ rest) = length rest < length buf
Shorter buf _ = Unit

finish-Shorter :
    (buf : Bytes) (n : ℕ) (h : AoEHeader) (rest : Bytes) (r : Result Item)
    → length rest < length buf
    → Shorter buf (finish n h rest r)
finish-Shorter buf n h rest (ok i) lt = lt
finish-Shorter buf n h rest (err e) lt = lt

class-Shorter :
    (buf : Bytes) (n : ℕ) (h : AoEHeader) (view rest : Bytes) (c : Option StructClass)
    → length rest < length buf
    → Shorter buf (parse_class n h view rest c)
class-Shorter buf n h view rest none lt = lt
class-Shorter buf n h view rest (some c) lt = finish-Shorter buf n h rest (deserialize c view) lt

command-Shorter :
    (buf : Bytes) (n : ℕ) (h : AoEHeader) (view rest : Bytes) (c : Option AdsCommandId)
    → length rest < length buf
    → Shorter buf (parse_command n h view rest c)
command-Shorter buf n h view rest none lt = tt
command-Shorter buf n h view rest (some c) lt =
    class-Shorter buf n h view rest (get_struct_by_command c (is_request h)) lt

aoe-Shorter :
    (buf : Bytes) (n : ℕ) (view rest : Bytes) (r : Result AoEHeader)
    → length rest < length buf
    → Shorter buf (parse_aoe n view rest r)
aoe-Shorter buf n view rest (err e) lt = tt
aoe-Shorter buf n view rest (ok h) lt = elim (Bool-cases (6 + 32 + h.length == n)) [
  | inl same ↦ rw same (command-Shorter buf n h view rest (command_id h) lt)
  | inr differ ↦ rw differ lt
]

tcp-Shorter :
    (buf : Bytes) (r : Result AmsTcpHeader) → 6 ≤ length buf → Shorter buf (parse_tcp buf r)
tcp-Shorter buf (err e) enough = tt
tcp-Shorter buf (ok h) enough = elim (Bool-cases (ltb h.length 32)) [
  | inl short ↦ rw short (omega (arith, length-drop (h.length + 6) buf))
  | inr long ↦ elim (Bool-cases (ltb (length buf) (6 + h.length))) [
    | inl partial ↦ rw (long, partial) tt
    | inr whole ↦
        rw (long, whole)
          (aoe-Shorter buf (6 + h.length) (drop 32 (drop 6 buf)) (drop (6 + h.length) buf)
            (aoe_from_buffer (drop 6 buf)) (omega (arith, length-drop (6 + h.length) buf)))
  ]
]

round-Shorter : (buf : Bytes) → Shorter buf (round buf)
unfolding round
round-Shorter buf = elim (Bool-cases (ltb (length buf) 6)) [
  | inl few ↦ rw few tt
  | inr enough ↦ rw enough (tcp-Shorter buf (tcp_from_buffer buf) (ground arith))
]

pub loop_ends :
    (fuel : ℕ) (buf : Bytes) → length buf < fuel → (from_wire_loop fuel buf).end ≢ no_fuel
unfolding from_wire_loop
loop_ends zero buf h = absurd (omega arith)
loop_ends (suc fuel) buf h = go (loop_ends fuel) (round buf) refl (round-Shorter buf)
  where
    go :
        ((rest : Bytes) → length rest < fuel → (from_wire_loop fuel rest).end ≢ no_fuel)
        → (r : Round) → round buf ≡ r
        → Shorter buf r
        → (from_wire_loop (suc fuel) buf).end ≢ no_fuel
    go ih stop e s = rw (e, from_wire_loop) (λ q. cc)
    go ih (skip rest) e s = rw (e, from_wire_loop) (ih rest (omega arith))
    go ih (emit n i rest) e s = rw (e, from_wire_loop) (ih rest (omega arith))
    go ih (raise x) e s = rw (e, from_wire_loop) (λ q. cc)

-- More fuel changes nothing.
pub loop_fuel :
    (fuel more : ℕ) (buf : Bytes)
    → length buf < fuel
    → length buf < more
    → from_wire_loop fuel buf ≡ from_wire_loop more buf
unfolding from_wire_loop
loop_fuel zero more buf h k = absurd (omega arith)
loop_fuel (suc fuel) zero buf h k = absurd (omega arith)
loop_fuel (suc fuel) (suc more) buf h k =
    go (loop_fuel fuel more) (round buf) refl (round-Shorter buf)
  where
    go :
        ((rest : Bytes)
          → length rest < fuel
          → length rest < more
          → from_wire_loop fuel rest ≡ from_wire_loop more rest)
        → (r : Round) → round buf ≡ r
        → Shorter buf r
        → from_wire_loop (suc fuel) buf ≡ from_wire_loop (suc more) buf
    go ih stop e s = rw (e, from_wire_loop)
    go ih (skip rest) e s = rw (e, from_wire_loop) (ih rest (omega arith) (omega arith))
    go ih (emit n i rest) e s =
        rw (e, from_wire_loop) (ap (yield_first (n, i)) (ih rest (omega arith) (omega arith)))
    go ih (raise x) e s = rw (e, from_wire_loop)

-- The equations of `from_wire`, one for each kind of round.
pub from_wire-emit :
    (buf : Bytes) (n : ℕ) (i : Parsed) (rest : Bytes)
    → round buf ≡ emit n i rest
    → from_wire buf ≡ yield_first (n, i) (from_wire rest)
unfolding from_wire from_wire_loop
from_wire-emit buf n i rest e =
    let shorter : length rest < length buf = subst (Shorter buf) e (round-Shorter buf) in
    rw (e, from_wire_loop)
      (ap (yield_first (n, i))
        (loop_fuel (length buf) (suc (length rest)) rest shorter (omega arith)))

pub from_wire-skip : (buf rest : Bytes) → round buf ≡ skip rest → from_wire buf ≡ from_wire rest
unfolding from_wire from_wire_loop
from_wire-skip buf rest e =
    let shorter : length rest < length buf = subst (Shorter buf) e (round-Shorter buf) in
    rw (e, from_wire_loop) (loop_fuel (length buf) (suc (length rest)) rest shorter (omega arith))

pub from_wire-stop :
    (buf : Bytes) → round buf ≡ stop → from_wire buf ≡ record { yields = []; end = finished }
unfolding from_wire from_wire_loop
from_wire-stop buf e = rw (e, from_wire_loop)

-- The fuel of `from_wire` is enough on every buffer: its loop ends by its test or by an exception.
pub from_wire_ends : (buf : Bytes) → (from_wire buf).end ≢ no_fuel
unfolding from_wire
from_wire_ends buf = loop_ends (suc (length buf)) buf (omega arith)
