-- ===== src/Structs/Response.antt =====
-- The response structures of ads_async/structs.py.
use ads_async.Prelude.{ℕ, List, [], ◌∷◌, get_or, drop, replicate}
use ads_async.Bytes.{Bytes, Layout}
use ads_async.Constants.AdsError

pub record AoEResponseHeader : Type 0 where
  pub result : ℕ

abbrev pub response_layout : Layout
response_layout = 4 ∷ []

abbrev pub response_fields : AoEResponseHeader → List ℕ
response_fields r = r.result ∷ []

abbrev pub response_of : List ℕ → AoEResponseHeader
response_of vs = record { result = get_or vs 0 0 }

-- `payload` is `data`, as the bytes that `serialize` makes of it; `buffer` is `_buffer`, the copy of
-- all the bytes that `deserialize` was given.
pub record AoEReadResponse : Type 0 where
  pub result : ℕ
  pub read_length : ℕ
  pub payload : Bytes
  pub buffer : Bytes

abbrev pub read_response_layout : Layout
read_response_layout = 4 ∷ 4 ∷ []

abbrev pub read_response_fields : AoEReadResponse → List ℕ
read_response_fields r = r.result ∷ r.read_length ∷ []

abbrev pub read_response_of : List ℕ → AoEReadResponse
read_response_of vs = record {
  result = get_or vs 0 0;
  read_length = get_or vs 1 0;
  payload = [];
  buffer = [];
}

-- `AoEReadResponse(data=…)`
abbrev pub read_response : Bytes → AoEReadResponse
read_response bytes = record {
  result = AdsError.noerr;
  read_length = 0;
  payload = bytes;
  buffer = [];
}

pub record AoEHandleResponse : Type 0 where
  pub result : ℕ
  pub length : ℕ
  pub handle : ℕ

abbrev pub handle_layout : Layout
handle_layout = 4 ∷ 4 ∷ 4 ∷ []

abbrev pub handle_fields : AoEHandleResponse → List ℕ
handle_fields r = r.result ∷ r.length ∷ r.handle ∷ []

abbrev pub handle_of : List ℕ → AoEHandleResponse
handle_of vs = record { result = get_or vs 0 0; length = get_or vs 1 0; handle = get_or vs 2 0 }

-- `AoEHandleResponse(handle=…)`; the length is that of a `c_uint32`.
abbrev pub handle_response : ℕ → AoEHandleResponse
handle_response handle = record { result = AdsError.noerr; length = 4; handle = handle }

pub record AoENotificationHandleResponse : Type 0 where
  pub result : ℕ
  pub handle : ℕ

abbrev pub notification_handle_layout : Layout
notification_handle_layout = 4 ∷ 4 ∷ []

abbrev pub notification_handle_fields : AoENotificationHandleResponse → List ℕ
notification_handle_fields r = r.result ∷ r.handle ∷ []

abbrev pub notification_handle_of : List ℕ → AoENotificationHandleResponse
notification_handle_of vs = record { result = get_or vs 0 0; handle = get_or vs 1 0 }

-- `name` is the array of 16 characters.
pub record AdsDeviceInfo : Type 0 where
  pub result : ℕ
  pub version : ℕ
  pub revision : ℕ
  pub build : ℕ
  pub name : List ℕ

abbrev pub device_info_layout : Layout
device_info_layout = 4 ∷ 1 ∷ 1 ∷ 2 ∷ replicate 16 1

abbrev pub device_info_fields : AdsDeviceInfo → List ℕ
device_info_fields r = r.result ∷ r.version ∷ r.revision ∷ r.build ∷ r.name

abbrev pub device_info_of : List ℕ → AdsDeviceInfo
device_info_of vs = record {
  result = get_or vs 0 0;
  version = get_or vs 1 0;
  revision = get_or vs 2 0;
  build = get_or vs 3 0;
  name = drop 4 vs;
}

pub record AdsReadStateResponse : Type 0 where
  pub ads_state : ℕ
  pub dev_state : ℕ

abbrev pub read_state_layout : Layout
read_state_layout = 2 ∷ 2 ∷ []

abbrev pub read_state_fields : AdsReadStateResponse → List ℕ
read_state_fields r = r.ads_state ∷ r.dev_state ∷ []

abbrev pub read_state_of : List ℕ → AdsReadStateResponse
read_state_of vs = record { ads_state = get_or vs 0 0; dev_state = get_or vs 1 0 }
