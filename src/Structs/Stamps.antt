-- ===== src/Structs/Stamps.antt =====
-- The stamps of a notification stream of ads_async/structs.py, and where each is read.
use mathlib.Core.List.{append_assoc}
use ads_async.Prelude.{
  ℕ, ◌+◌, ◌≤◌, ◌≡◌, refl, sym, take, take-append-drop, List, [], ◌∷◌, ◌++◌, All, arith, length,
  length-append, length-drop, drop, drop-append_le,
}
use ads_async.Prelude.Result.{Result, ok, err, ◌>>=◌}
use ads_async.Bytes.{Bytes, Fits, pack, size_of, length-pack}
use ads_async.Structs.Base.{from_buffer-pack, drop-pack}
use ads_async.Structs.Notification.{
  AdsNotificationSample, AdsNotificationStamp, stamp_layout, stamp_of, deserialize_stamp,
  stream_layout, stream_of, read_stamps, deserialize_stream,
}
use ads_async.Structs.Samples.{SampleFits, samples_bytes, read_samples-bytes}

unfoldable pub stamp_bytes : ℕ → List AdsNotificationSample → Bytes
stamp_bytes t ss = pack stamp_layout (t ∷ length ss ∷ []) ++ samples_bytes ss

-- A stamp as it is read.
abbrev pub stamp_read : ℕ → List AdsNotificationSample → AdsNotificationStamp
stamp_read t ss = record {
  timestamp = t;
  num_samples = length ss;
  samples = ss;
  byte_size = length (samples_bytes ss);
}

dropped_fields : (t n : ℕ) (rest : Bytes) → drop 12 (pack stamp_layout (t ∷ n ∷ []) ++ rest) ≡ rest
unfolding size_of
dropped_fields t n rest = drop-pack stamp_layout (t ∷ n ∷ []) rest

module _ (t : ℕ) (ss : List AdsNotificationSample) where
  deserialize_stamp-bytes :
      (rest : Bytes)
      → Fits stamp_layout (t ∷ length ss ∷ [])
      → All SampleFits ss
      → deserialize_stamp (stamp_bytes t ss ++ rest) ≡ ok (stamp_read t ss)
  unfolding deserialize_stamp stamp_bytes
  deserialize_stamp-bytes rest fit each =
      rw
        (
          append_assoc (pack stamp_layout (t ∷ length ss ∷ [])) (samples_bytes ss) rest,
          from_buffer-pack stamp_layout stamp_of (t ∷ length ss ∷ []) (samples_bytes ss ++ rest)
              fit,
          dropped_fields t (length ss) (samples_bytes ss ++ rest),
          read_samples-bytes ss rest each,
        )
        refl

  -- A stream with one stamp, whose fields and samples fit, is read back whole, whatever bytes follow.
  pub deserialize_stream-one_stamp :
      (n : ℕ) (rest : Bytes)
      → Fits stream_layout (n ∷ 1 ∷ [])
      → Fits stamp_layout (t ∷ length ss ∷ [])
      → All SampleFits ss
      → deserialize_stream (pack stream_layout (n ∷ 1 ∷ []) ++ (stamp_bytes t ss ++ rest))
        ≡ ok (record { length = n; num_stamps = 1; stamps = stamp_read t ss ∷ [] })
  unfolding deserialize_stream read_stamps size_of
  deserialize_stream-one_stamp n rest fit fit' each =
      rw
        (
          from_buffer-pack stream_layout stream_of (n ∷ 1 ∷ []) (stamp_bytes t ss ++ rest) fit,
          drop-pack stream_layout (n ∷ 1 ∷ []) (stamp_bytes t ss ++ rest),
          deserialize_stamp-bytes rest fit' each,
        )
        refl

  length-stamp_bytes : length (stamp_bytes t ss) ≡ 12 + length (samples_bytes ss)
  unfolding stamp_bytes size_of
  length-stamp_bytes = omega (
    arith,
    length-append (pack stamp_layout (t ∷ length ss ∷ [])) (samples_bytes ss),
    length-pack stamp_layout (t ∷ length ss ∷ []),
  )

  -- The second stamp of a stream is read 12 bytes before the end of the first, whatever follows it:
  -- the first stamp ends in 12 bytes, and the bytes that are taken for the second begin with them.
  pub read_stamps-second_early :
      (rest : Bytes)
      → Fits stamp_layout (t ∷ length ss ∷ [])
      → All SampleFits ss
      → (front last : Bytes) × (stamp_bytes t ss ≡ front ++ last)
        × (length last ≡ 12)
        × (read_stamps 2 (stamp_bytes t ss ++ rest)
            ≡ (do second ← deserialize_stamp (last ++ rest); ok (stamp_read t ss ∷ second ∷ [])))
  unfolding read_stamps
  read_stamps-second_early rest fit each =
      let n = length (samples_bytes ss) in
      let inside : n ≤ length (stamp_bytes t ss) = omega (arith, length-stamp_bytes) in
      (
        take n (stamp_bytes t ss),
        drop n (stamp_bytes t ss),
        sym (take-append-drop n (stamp_bytes t ss)),
        omega (arith, length-stamp_bytes, length-drop n (stamp_bytes t ss)),
        rw (deserialize_stamp-bytes rest fit each, drop-append_le n (stamp_bytes t ss) rest inside)
            (second (deserialize_stamp (drop n (stamp_bytes t ss) ++ rest))),
      )
    where
      second :
          (r : Result AdsNotificationStamp)
          → (do s ← (do second' ← r; none' ← ok []; ok (second' ∷ none')); ok (stamp_read t ss ∷ s))
            ≡ (do second' ← r; ok (stamp_read t ss ∷ second' ∷ []))
      second (ok s) = refl
      second (err e) = refl
