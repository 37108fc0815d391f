-- ===== src/Client/Requests.antt =====
-- The requests that `ClientCircuit` of ads_async/protocol.py builds. The name of a symbol is encoded,
-- which may raise.
use ads_async.Prelude.{ℕ, some, [], ◌∷◌, ◌++◌, length, replicate}
use ads_async.Prelude.Result.{Result, ok, ◌>>=◌}
use ads_async.Bytes.{Bytes}
use ads_async.Constants.IndexGroup
use ads_async.Structs.Request.{
  AdsWriteRequest, write_request, AdsReadWriteRequest, AdsReadRequest,
  AdsAddDeviceNotificationRequest, AdsDeleteDeviceNotificationRequest,
}
use ads_async.Structs.Text.{Text, Codec, string_to_byte_string}

abbrev pub by_name : ℕ → ℕ → Bytes → AdsReadWriteRequest
by_name index_group read_length bytes = record {
  index_group = index_group;
  index_offset = 0;
  read_length = read_length;
  write_length = length bytes;
  payload = some bytes;
}

-- `create_handle_by_name_request`
unfoldable pub get_symbol_handle_by_name : Codec → Text → Result AdsReadWriteRequest
unfolding string_to_byte_string
get_symbol_handle_by_name codec name = do
  bytes ← string_to_byte_string codec name
  ok (by_name IndexGroup.sym_hndbyname 4 (bytes ++ (0 ∷ [])))

-- `create_info_by_name_request`; the read length is that of an entry and three texts.
unfoldable pub get_symbol_info_by_name : Codec → Text → Result AdsReadWriteRequest
unfolding string_to_byte_string
get_symbol_info_by_name codec name = do
  bytes ← string_to_byte_string codec name
  ok (by_name IndexGroup.sym_infobynameex 798 (bytes ++ (0 ∷ [])))

-- The third argument 0 is the data, of which `bytes` makes an empty byte string.
unfoldable pub release_handle : ℕ → AdsWriteRequest
release_handle handle = write_request IndexGroup.sym_releasehnd handle []

unfoldable pub get_value_by_handle : (handle size : ℕ) → AdsReadRequest
get_value_by_handle handle size = record {
  index_group = IndexGroup.sym_valbyhnd;
  index_offset = handle;
  length = size;
}

unfoldable pub add_notification_by_index :
    (index_group index_offset length mode max_delay cycle_time : ℕ)
    → AdsAddDeviceNotificationRequest
add_notification_by_index index_group index_offset length mode max_delay cycle_time = record {
  index_group = index_group;
  index_offset = index_offset;
  length = length;
  mode = mode;
  max_delay = max_delay;
  cycle_time = cycle_time;
  reserved = replicate 16 0;
}

unfoldable pub remove_notification : ℕ → AdsDeleteDeviceNotificationRequest
remove_notification handle = record { handle = handle }
