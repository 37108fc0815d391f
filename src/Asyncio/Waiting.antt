-- ===== src/Asyncio/Waiting.antt =====
-- `_BlockingRequest.wait` and `write_and_read` of ads_async/asyncio/client.py over what happens while a
-- request waits.

use ads_async.Prelude.{
  ℕ, Bool, true, false, Option, none, some, List, [], ◌∷◌, lookup, if◌then◌else◌,
}
use ads_async.Prelude.Result.{Result, ok, err, diverges, ◌>>=◌}
use ads_async.Bytes.{Bytes}
use ads_async.Structs.Header.{AoEHeader}
use ads_async.Structs.Item.{Item}
use ads_async.Asyncio.Circuit.{AsyncioCircuit, start_request, wait, result_attribute, check_result}
use ads_async.Asyncio.Events.{ClientEvent, client_step}

-- What happens while a request waits: an event of its circuit; the waiting task is given its turn; the
-- time-out; and the error event is set, when the connection is lost.
pub data Moment (F : Type 0) : Type 0 where
  takes_place : ClientEvent F → Moment F
  resumes expires loses : Moment F

-- The response that a request has been told.
abbrev pub told_of : Option (Option (AoEHeader × Item)) → Option (AoEHeader × Item)
told_of none = none
told_of (some told) = told

-- Is one of the two events set?
abbrev pub is_done : Bool → Option (AoEHeader × Item) → Bool
is_done true told = true
is_done false none = false
is_done false (some response) = true

module _ {F : Type 0} where
  -- `_BlockingRequest.wait`: the task goes on at the time-out, or at its first turn with an event set, and
  -- looks at the events then.
  unfoldable pub waits :
      ℕ → List (Moment F) → Bool → AsyncioCircuit F → Result Item × AsyncioCircuit F
  unfolding wait client_step
  waits k [] lost c = (err diverges, c)
  waits k (takes_place e ∷ ms) lost c = waits k ms lost (client_step e c)
  waits k (loses ∷ ms) lost c = waits k ms true c
  waits k (expires ∷ ms) lost c = (wait lost (told_of (lookup k c.requests)), c)
  waits k (resumes ∷ ms) lost c =
      let later = waits k ms lost c in
      if is_done lost (told_of (lookup k c.requests))
      then (wait lost (told_of (lookup k c.requests)), c)
      else later

  abbrev pub checked : Result Item × AsyncioCircuit F → Result Item × AsyncioCircuit F
  checked p = ((do item ← p.0; check_result (result_attribute item) item), p.1)

  abbrev pub after_start :
      ℕ
      → List (Moment F)
      → Bool
      → Result (ℕ × Bytes) × AsyncioCircuit F
      → Result Item × AsyncioCircuit F
  after_start k moments lost (err e, c) = (err e, c)
  after_start k moments lost (ok _, c) = checked (waits k moments lost c)

  -- `write_and_read`; `lost` tells if the connection is lost when it begins.
  unfoldable pub write_and_read :
      ℕ
      → Item
      → Option ℕ
      → List (Moment F)
      → (lost : Bool) → AsyncioCircuit F
      → Result Item × AsyncioCircuit F
  unfolding start_request waits result_attribute
  write_and_read k item port moments lost c =
      after_start k moments lost (start_request k item port c)
