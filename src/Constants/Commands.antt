-- ===== src/Constants/Commands.antt =====
-- `AdsCommandId` of ads_async/constants.py.
use ads_async.Prelude.{ℕ, ◌≡◌, refl, Option, some, Bool, [], ◌∷◌, Dict, lookup, ◌==◌}

pub data AdsCommandId : Type 0 where
  invalid read_device_info read write read_state write_control : AdsCommandId
  add_device_notification del_device_notification device_notification read_write : AdsCommandId

unfoldable pub value : AdsCommandId → ℕ
value invalid = 0
value read_device_info = 1
value read = 2
value write = 3
value read_state = 4
value write_control = 5
value add_device_notification = 6
value del_device_notification = 7
value device_notification = 8
value read_write = 9

-- `_value2member_map_`
abbrev pub members : Dict AdsCommandId
members =
    (0, invalid)
    ∷ (1, read_device_info)
    ∷ (2, read)
    ∷ (3, write)
    ∷ (4, read_state)
    ∷ (5, write_control)
    ∷ (6, add_device_notification)
    ∷ (7, del_device_notification)
    ∷ (8, device_notification)
    ∷ (9, read_write)
    ∷ []

-- `AdsCommandId(value)`; `none` is the `ValueError`.
unfoldable pub to_command_id : ℕ → Option AdsCommandId
unfolding lookup
to_command_id n = lookup n members

pub to_command_id-value : (c : AdsCommandId) → to_command_id (value c) ≡ some c
unfolding to_command_id value
to_command_id-value invalid = refl
to_command_id-value read = refl
to_command_id-value _ = refl

unfoldable pub same_command : AdsCommandId → AdsCommandId → Bool
unfolding value
same_command a b = value a == value b
