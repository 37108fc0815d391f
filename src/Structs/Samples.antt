-- ===== src/Structs/Samples.antt =====
-- Notification streams of ads_async/structs.py, from bytes laid out as the protocol has them.
use mathlib.Core.List.{append_assoc}
use ads_async.Prelude.{
  ℕ, ◌+◌, ◌≡◌, refl, sym, ap, ◌∙◌, List, [], ◌∷◌, ◌++◌, All, arith, length, length-append, drop,
  drop-append,
}
use ads_async.Prelude.Result.{ok}
use ads_async.Bytes.{Bytes, Fits, pack, size_of, length-pack}
use ads_async.Structs.Base.{from_buffer-pack, unpack_s, unpack_s-append, drop-pack}
use ads_async.Structs.Notification.{
  AdsNotificationSample, sample_layout, sample_fields, sample_of, deserialize_sample, read_samples,
}

-- A sample whose size is that of its data, and whose fields fit.
abbrev pub SampleFits : AdsNotificationSample → Type 0
SampleFits s = Fits sample_layout (sample_fields s) × (s.sample_size ≡ length s.payload)

unfoldable pub sample_bytes : AdsNotificationSample → Bytes
sample_bytes s = pack sample_layout (sample_fields s) ++ s.payload

unfoldable pub samples_bytes : List AdsNotificationSample → Bytes
unfolding sample_bytes
samples_bytes [] = []
samples_bytes (s ∷ ss) = sample_bytes s ++ samples_bytes ss

dropped_fields : (h n : ℕ) (rest : Bytes) → drop 8 (pack sample_layout (h ∷ n ∷ []) ++ rest) ≡ rest
unfolding size_of
dropped_fields h n rest = drop-pack sample_layout (h ∷ n ∷ []) rest

length-sample_bytes :
    (s : AdsNotificationSample) → SampleFits s → length (sample_bytes s) ≡ 8 + s.sample_size
unfolding sample_bytes size_of
length-sample_bytes s f = omega (
  arith,
  length-append (pack sample_layout (sample_fields s)) s.payload,
  length-pack sample_layout (sample_fields s),
  f.1,
)

unpack_data :
    (n : ℕ) (bytes rest : Bytes) → n ≡ length bytes → unpack_s n (bytes ++ rest) ≡ ok bytes
unpack_data n bytes rest e = ap (λ m. unpack_s m (bytes ++ rest)) e ∙ unpack_s-append bytes rest

deserialize_sample-bytes :
    (s : AdsNotificationSample) (rest : Bytes)
    → SampleFits s
    → deserialize_sample (sample_bytes s ++ rest) ≡ ok s
unfolding deserialize_sample sample_bytes
deserialize_sample-bytes s rest f =
    rw
      (
        append_assoc (pack sample_layout (sample_fields s)) s.payload rest,
        from_buffer-pack sample_layout sample_of (sample_fields s) (s.payload ++ rest) f.0,
        dropped_fields s.notification_handle s.sample_size (s.payload ++ rest),
        unpack_data s.sample_size s.payload rest f.1,
      )
      refl

-- The samples are read back, with the number of bytes that they take.
pub read_samples-bytes :
    (ss : List AdsNotificationSample) (rest : Bytes)
    → All SampleFits ss
    → read_samples (length ss) (samples_bytes ss ++ rest) ≡ ok (ss, length (samples_bytes ss))
unfolding read_samples samples_bytes
read_samples-bytes [] rest fit = refl
read_samples-bytes (s ∷ ss) rest fit =
    let left : drop (8 + s.sample_size) (sample_bytes s ++ (samples_bytes ss ++ rest))
        ≡ samples_bytes ss ++ rest =
      ap (λ n. drop n (sample_bytes s ++ (samples_bytes ss ++ rest)))
        (sym (length-sample_bytes s fit.0))
      ∙ drop-append (sample_bytes s) (samples_bytes ss ++ rest) in
    let total : 8 + s.sample_size + length (samples_bytes ss)
        ≡ length (sample_bytes s ++ samples_bytes ss) =
      omega
        (arith, length-append (sample_bytes s) (samples_bytes ss), length-sample_bytes s fit.0) in
    rw
      (
        append_assoc (sample_bytes s) (samples_bytes ss) rest,
        deserialize_sample-bytes s (samples_bytes ss ++ rest) fit.0,
        left,
        read_samples-bytes ss rest fit.1,
      )
      (ap (λ n. ok (s ∷ ss, n)) total)
