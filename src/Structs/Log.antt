-- ===== src/Structs/Log.antt =====
-- The messages of the logging system, `AdsNotificationLogMessage` of ads_async/structs.py, and the
-- structures that hold plain numbers. Timestamps are the numbers that are stored.

use ads_async.Prelude.{
  ℕ, ◌≡◌, refl, sym, ap, ◌∙◌, List, [], ◌∷◌, ◌++◌, take, drop, replicate, get_or, length,
  take-append,
}
use ads_async.Prelude.Result.{Result, ok, ◌>>=◌}
use ads_async.Bytes.{Bytes, Layout, pack, Fits, size_of}
use ads_async.Structs.Base.{from_buffer, from_buffer-pack, drop-pack}
use ads_async.Structs.Text.{until_null}

pub record AdsNotificationLogMessage : Type 0 where
  pub timestamp : ℕ
  pub unknown : ℕ
  pub ams_port : ℕ
  pub raw_sender_name : Bytes
  pub message_length : ℕ
  pub message : Bytes

abbrev pub log_message_layout : Layout
log_message_layout = 8 ∷ 4 ∷ 4 ∷ (replicate 16 1 ++ (4 ∷ []))

abbrev pub log_message_fields : AdsNotificationLogMessage → List ℕ
log_message_fields m =
    m.timestamp ∷ m.unknown ∷ m.ams_port ∷ (m.raw_sender_name ++ (m.message_length ∷ []))

abbrev pub log_message_of : List ℕ → AdsNotificationLogMessage
log_message_of vs = record {
  timestamp = get_or vs 0 0;
  unknown = get_or vs 1 0;
  ams_port = get_or vs 2 0;
  raw_sender_name = take 16 (drop 3 vs);
  message_length = get_or vs 19 0;
  message = [];
}

-- `sender_name`
unfoldable pub sender_name : AdsNotificationLogMessage → Bytes
unfolding until_null
sender_name m = until_null m.raw_sender_name

-- `deserialize`: the message is the rest of the buffer, whatever `message_length` says.
unfoldable pub deserialize_log_message : Bytes → Result AdsNotificationLogMessage
unfolding from_buffer
deserialize_log_message buf = do
  m ← from_buffer log_message_layout log_message_of buf
  ok (record m { message = drop 36 buf })

-- `AdsVersion`
pub record AdsVersion : Type 0 where
  pub version : ℕ
  pub revision : ℕ
  pub build : ℕ

abbrev pub version_layout : Layout
version_layout = 1 ∷ 1 ∷ 2 ∷ []

-- `as_tuple`
abbrev pub as_tuple : AdsVersion → ℕ × ℕ × ℕ
as_tuple v = (v.version, v.revision, v.build)

abbrev pub version_of : List ℕ → AdsVersion
version_of vs = record { version = get_or vs 0 0; revision = get_or vs 1 0; build = get_or vs 2 0 }

-- `AdsNotificationAttrib`
pub record AdsNotificationAttrib : Type 0 where
  pub callback_length : ℕ
  pub transmission_mode : ℕ
  pub max_delay : ℕ
  pub cycle_time : ℕ

abbrev pub attrib_layout : Layout
attrib_layout = 4 ∷ 4 ∷ 4 ∷ 4 ∷ []

-- `AdsNotificationHeader`
pub record AdsNotificationHeader : Type 0 where
  pub notification_handle : ℕ
  pub timestamp : ℕ
  pub sample_size : ℕ

abbrev pub notification_header_layout : Layout
notification_header_layout = 4 ∷ 8 ∷ 4 ∷ []

get_or-last : (s : Bytes) (n : ℕ) → get_or (s ++ (n ∷ [])) (length s) 0 ≡ n
get_or-last [] n = refl
get_or-last (b ∷ s) n = get_or-last s n

-- A message that is sent is read whole, up to the end of the buffer, also where the length that is
-- stored is another.
pub deserialize_log_message-pack :
    (m : AdsNotificationLogMessage) (text : Bytes)
    → Fits log_message_layout (log_message_fields m)
    → length m.raw_sender_name ≡ 16
    → deserialize_log_message (pack log_message_layout (log_message_fields m) ++ text)
      ≡ ok (record m { message = text })
unfolding deserialize_log_message size_of
deserialize_log_message-pack m text fits sixteen =
    rw
      (
        from_buffer-pack log_message_layout log_message_of (log_message_fields m) text fits,
        drop-pack log_message_layout (log_message_fields m) text,
      )
      (let name : take 16 (m.raw_sender_name ++ (m.message_length ∷ [])) ≡ m.raw_sender_name =
          ap (λ k. take k (m.raw_sender_name ++ (m.message_length ∷ []))) (sym sixteen)
          ∙ take-append m.raw_sender_name (m.message_length ∷ []) in
        let size : get_or (log_message_fields m) 19 0 ≡ m.message_length =
          ap (λ k. get_or (m.raw_sender_name ++ (m.message_length ∷ [])) k 0) (sym sixteen)
          ∙ get_or-last m.raw_sender_name m.message_length in
        rw (name, size) refl)
