-- ===== src/Structs/Notification.antt =====
-- The notification structures of ads_async/structs.py, which are read sample by sample.
use ads_async.Prelude.{ℕ, zero, suc, ◌+◌, List, [], ◌∷◌, get_or, drop}
use ads_async.Prelude.Result.{Result, ok, ◌>>=◌}
use ads_async.Bytes.{Bytes, Layout}
use ads_async.Structs.Base.{from_buffer, unpack_s}

pub record AdsNotificationSample : Type 0 where
  pub notification_handle : ℕ
  pub sample_size : ℕ
  pub payload : Bytes

abbrev pub sample_layout : Layout
sample_layout = 4 ∷ 4 ∷ []

abbrev pub sample_fields : AdsNotificationSample → List ℕ
sample_fields s = s.notification_handle ∷ s.sample_size ∷ []

abbrev pub sample_of : List ℕ → AdsNotificationSample
sample_of vs = record {
  notification_handle = get_or vs 0 0;
  sample_size = get_or vs 1 0;
  payload = [];
}

unfoldable pub deserialize_sample : Bytes → Result AdsNotificationSample
deserialize_sample buf = do
  s ← from_buffer sample_layout sample_of buf
  bytes ← unpack_s s.sample_size (drop 8 buf)
  ok (record s { payload = bytes })

-- `byte_size` counts the bytes of the samples, and not those of the header.
pub record AdsNotificationStamp : Type 0 where
  pub timestamp : ℕ
  pub num_samples : ℕ
  pub samples : List AdsNotificationSample
  pub byte_size : ℕ

abbrev pub stamp_layout : Layout
stamp_layout = 8 ∷ 4 ∷ []

abbrev pub stamp_fields : AdsNotificationStamp → List ℕ
stamp_fields s = s.timestamp ∷ s.num_samples ∷ []

abbrev pub stamp_of : List ℕ → AdsNotificationStamp
stamp_of vs = record {
  timestamp = get_or vs 0 0;
  num_samples = get_or vs 1 0;
  samples = [];
  byte_size = 0;
}

-- `for idx in range(num_samples)`: the samples read, and the bytes that they took.
unfoldable pub read_samples : ℕ → Bytes → Result (List AdsNotificationSample × ℕ)
read_samples zero buf = ok ([], 0)
read_samples (suc n) buf = do
  s ← deserialize_sample buf
  let consumed = 8 + s.sample_size
  (rest, size) ← read_samples n (drop consumed buf)
  ok (s ∷ rest, consumed + size)

unfoldable pub deserialize_stamp : Bytes → Result AdsNotificationStamp
deserialize_stamp buf = do
  s ← from_buffer stamp_layout stamp_of buf
  (samples, size) ← read_samples s.num_samples (drop 12 buf)
  ok (record s { samples = samples; byte_size = size })

pub record AdsNotificationStream : Type 0 where
  pub length : ℕ
  pub num_stamps : ℕ
  pub stamps : List AdsNotificationStamp

abbrev pub stream_layout : Layout
stream_layout = 4 ∷ 4 ∷ []

abbrev pub stream_of : List ℕ → AdsNotificationStream
stream_of vs = record { length = get_or vs 0 0; num_stamps = get_or vs 1 0; stamps = [] }

-- `for stamp in range(num_stamps)`: the next stamp is read `byte_size` further on.
unfoldable pub read_stamps : ℕ → Bytes → Result (List AdsNotificationStamp)
read_stamps zero buf = ok []
read_stamps (suc n) buf = do
  s ← deserialize_stamp buf
  rest ← read_stamps n (drop s.byte_size buf)
  ok (s ∷ rest)

unfoldable pub deserialize_stream : Bytes → Result AdsNotificationStream
deserialize_stream buf = do
  s ← from_buffer stream_layout stream_of buf
  stamps ← read_stamps s.num_stamps (drop 8 buf)
  ok (record s { stamps = stamps })
