-- ===== src/Structs/Request.antt =====
-- The request structures of ads_async/structs.py. `data` is the payload attribute, `None` until
-- it is set.
use ads_async.Prelude.{ℕ, Option, none, some, List, [], ◌∷◌, length, get_or, drop, replicate}
use ads_async.Bytes.{Bytes, Layout}

pub record AdsWriteRequest : Type 0 where
  pub index_group : ℕ
  pub index_offset : ℕ
  pub write_length : ℕ
  pub payload : Option Bytes

abbrev pub write_layout : Layout
write_layout = 4 ∷ 4 ∷ 4 ∷ []

abbrev pub write_fields : AdsWriteRequest → List ℕ
write_fields r = r.index_group ∷ r.index_offset ∷ r.write_length ∷ []

abbrev pub write_of : List ℕ → AdsWriteRequest
write_of vs = record {
  index_group = get_or vs 0 0;
  index_offset = get_or vs 1 0;
  write_length = get_or vs 2 0;
  payload = none;
}

-- `AdsWriteRequest(index_group, index_offset, data)`, with data
abbrev pub write_request : ℕ → ℕ → Bytes → AdsWriteRequest
write_request index_group index_offset bytes = record {
  index_group = index_group;
  index_offset = index_offset;
  write_length = length bytes;
  payload = some bytes;
}

-- `AdsWriteRequest(index_group, index_offset)`, with no data
abbrev pub empty_write_request : ℕ → ℕ → AdsWriteRequest
empty_write_request index_group index_offset = record {
  index_group = index_group;
  index_offset = index_offset;
  write_length = 0;
  payload = none;
}

pub record AdsReadWriteRequest : Type 0 where
  pub index_group : ℕ
  pub index_offset : ℕ
  pub read_length : ℕ
  pub write_length : ℕ
  pub payload : Option Bytes

abbrev pub read_write_layout : Layout
read_write_layout = 4 ∷ 4 ∷ 4 ∷ 4 ∷ []

abbrev pub read_write_fields : AdsReadWriteRequest → List ℕ
read_write_fields r = r.index_group ∷ r.index_offset ∷ r.read_length ∷ r.write_length ∷ []

abbrev pub read_write_of : List ℕ → AdsReadWriteRequest
read_write_of vs = record {
  index_group = get_or vs 0 0;
  index_offset = get_or vs 1 0;
  read_length = get_or vs 2 0;
  write_length = get_or vs 3 0;
  payload = none;
}

pub record AdsReadRequest : Type 0 where
  pub index_group : ℕ
  pub index_offset : ℕ
  pub length : ℕ

abbrev pub read_layout : Layout
read_layout = 4 ∷ 4 ∷ 4 ∷ []

abbrev pub read_fields : AdsReadRequest → List ℕ
read_fields r = r.index_group ∷ r.index_offset ∷ r.length ∷ []

abbrev pub read_of : List ℕ → AdsReadRequest
read_of vs = record {
  index_group = get_or vs 0 0;
  index_offset = get_or vs 1 0;
  length = get_or vs 2 0;
}

-- `AdsWriteControlRequest` has no field `write_length`, which the format of its payload names.
abbrev pub write_control_layout : Layout
write_control_layout = 2 ∷ 2 ∷ 4 ∷ []

pub record AdsAddDeviceNotificationRequest : Type 0 where
  pub index_group : ℕ
  pub index_offset : ℕ
  pub length : ℕ
  pub mode : ℕ
  pub max_delay : ℕ
  pub cycle_time : ℕ
  pub reserved : List ℕ

abbrev pub add_notification_layout : Layout
add_notification_layout = 4 ∷ 4 ∷ 4 ∷ 4 ∷ 4 ∷ 4 ∷ replicate 16 1

abbrev pub add_notification_fields : AdsAddDeviceNotificationRequest → List ℕ
add_notification_fields r =
    r.index_group ∷ r.index_offset ∷ r.length ∷ r.mode ∷ r.max_delay ∷ r.cycle_time ∷ r.reserved

abbrev pub add_notification_of : List ℕ → AdsAddDeviceNotificationRequest
add_notification_of vs = record {
  index_group = get_or vs 0 0;
  index_offset = get_or vs 1 0;
  length = get_or vs 2 0;
  mode = get_or vs 3 0;
  max_delay = get_or vs 4 0;
  cycle_time = get_or vs 5 0;
  reserved = drop 6 vs;
}

pub record AdsDeleteDeviceNotificationRequest : Type 0 where
  pub handle : ℕ

abbrev pub delete_notification_layout : Layout
delete_notification_layout = 4 ∷ []

abbrev pub delete_notification_fields : AdsDeleteDeviceNotificationRequest → List ℕ
delete_notification_fields r = r.handle ∷ []

abbrev pub delete_notification_of : List ℕ → AdsDeleteDeviceNotificationRequest
delete_notification_of vs = record { handle = get_or vs 0 0 }
