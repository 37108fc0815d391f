-- ===== src/Client/Delivery.antt =====
-- What a notification stream delivers to the handlers of a client of ads_async/protocol.py.
use mathlib.Core.List.{append_assoc, append-nil}
use ads_async.Prelude.{
  ltb, if◌then◌else◌, inl, inr, Bool-cases, ℕ, ◌≡◌, refl, sym, ap, ◌∙◌, none, some, Option, List,
  [], ◌∷◌, ◌++◌, Dict, lookup, erase,
}
use ads_async.Prelude.Result.{Result, ok, err, value_error}
use ads_async.Constants
use ads_async.Structs.Header.{AoEHeader, command_id}
use ads_async.Structs.Item
use ads_async.Structs.Notification.{
  AdsNotificationSample, AdsNotificationStamp, AdsNotificationStream,
}
use ads_async.Client.Defs.{
  first_undated, date_of, SourceHandle, set_add, Processed, ClientCircuit, process_sample,
  process_samples, process_stamps, device_notification_handler, client_handler, dispatch,
  handle_command,
}

-- The samples of a stream in order, each with the time of its stamp.
unfoldable with_time : ℕ → List AdsNotificationSample → List (ℕ × AdsNotificationSample)
with_time t [] = []
with_time t (s ∷ ss) = (t, s) ∷ with_time t ss

unfoldable pub timed_samples : List AdsNotificationStamp → List (ℕ × AdsNotificationSample)
unfolding with_time
timed_samples [] = []
timed_samples (s ∷ ss) = with_time s.timestamp s.samples ++ timed_samples ss

-- The stamps before the first one whose time is no date.
unfoldable pub dated : List AdsNotificationStamp → List AdsNotificationStamp
dated [] = []
dated (s ∷ ss) = let rest = dated ss in if ltb s.timestamp first_undated then s ∷ rest else []

-- Do all stamps have a date?
unfoldable pub outcome : List AdsNotificationStamp → Result (Unit {0})
outcome [] = ok tt
outcome (s ∷ ss) =
    let rest = outcome ss in if ltb s.timestamp first_undated then rest else err value_error

module _ {H : Type 0} (handlers : Dict H) (header : AoEHeader) where
  -- The calls that the samples with a handler make.
  unfoldable pub deliveries : List (ℕ × AdsNotificationSample) → List (Processed H)
  deliveries [] = []
  deliveries ((t, s) ∷ rest) =
      let others = deliveries rest in
      elim (lookup s.notification_handle handlers) [
        | none ↦ others
        | some h ↦ record { handler = h; header = header; timestamp = t; sample = s } ∷ others
      ]

  -- The samples without one.
  unfoldable pub note_unknown :
      List (ℕ × AdsNotificationSample) → List SourceHandle → List SourceHandle
  unfolding set_add
  note_unknown [] known = known
  note_unknown ((t, s) ∷ rest) known = elim (lookup s.notification_handle handlers) [
    | none ↦
        note_unknown rest
          (set_add (record { source = header.source; handle = s.notification_handle }) known)
    | some h ↦ note_unknown rest known
  ]

module _ {H : Type 0} (header : AoEHeader) where
  -- What a circuit is after the samples.
  abbrev after : List (ℕ × AdsNotificationSample) → ClientCircuit H → ClientCircuit H
  after samples c = record c {
    processed = c.processed ++ deliveries c.handle_to_notification header samples;
    unknown_notifications =
        note_unknown c.handle_to_notification header samples c.unknown_notifications;
  }

  after-nil : (c : ClientCircuit H) → after [] c ≡ c
  unfolding deliveries note_unknown
  after-nil c = rw (append-nil c.processed) refl

  -- The body of the loop, and the two lists, by what the lookup finds.
  abbrev sample_result : Option H → ℕ → AdsNotificationSample → ClientCircuit H → ClientCircuit H
  sample_result none t s c = record c {
    unknown_notifications =
        set_add (record { source = header.source; handle = s.notification_handle })
          c.unknown_notifications;
  }
  sample_result (some h) t s c = record c {
    processed =
        c.processed ++ (record { handler = h; header = header; timestamp = t; sample = s } ∷ []);
  }

  abbrev after_lookup :
      Option H
      → ℕ
      → AdsNotificationSample
      → List (ℕ × AdsNotificationSample)
      → ClientCircuit H
      → ClientCircuit H
  after_lookup none t s rest c = record c {
    processed = c.processed ++ deliveries c.handle_to_notification header rest;
    unknown_notifications = note_unknown c.handle_to_notification header rest (
        set_add (record { source = header.source; handle = s.notification_handle })
          c.unknown_notifications);
  }
  after_lookup (some h) t s rest c = record c {
    processed =
        c.processed
        ++ (record { handler = h; header = header; timestamp = t; sample = s }
            ∷ deliveries c.handle_to_notification header rest);
    unknown_notifications =
        note_unknown c.handle_to_notification header rest c.unknown_notifications;
  }

  process_sample-result :
      (o : Option H) (t : ℕ) (s : AdsNotificationSample) (c : ClientCircuit H)
      → lookup s.notification_handle c.handle_to_notification ≡ o
      → process_sample header t s c ≡ sample_result o t s c
  unfolding process_sample
  process_sample-result none t s c e = rw (process_sample, e) refl
  process_sample-result (some h) t s c e = rw (process_sample, e) refl

  after-lookup :
      (o : Option H) (t : ℕ) (s : AdsNotificationSample) (rest : List (ℕ × AdsNotificationSample))
      (c : ClientCircuit H)
      → lookup s.notification_handle c.handle_to_notification ≡ o
      → after ((t, s) ∷ rest) c ≡ after_lookup o t s rest c
  unfolding deliveries note_unknown
  after-lookup none t s rest c e = rw (deliveries, note_unknown, e) refl
  after-lookup (some h) t s rest c e = rw (deliveries, note_unknown, e) refl

  -- One more sample at the front: what the body of the loop does is what the two lists say, as soon
  -- as the lookup is known.
  sample_step :
      (o : Option H) (t : ℕ) (s : AdsNotificationSample) (rest : List (ℕ × AdsNotificationSample))
      (c : ClientCircuit H)
      → lookup s.notification_handle c.handle_to_notification ≡ o
      → (after rest (process_sample header t s c) ≡ after ((t, s) ∷ rest) c)
  sample_step none t s rest c e =
      ap (after rest) (process_sample-result none t s c e) ∙ sym (after-lookup none t s rest c e)
  sample_step (some h) t s rest c e =
      ap (after rest) (process_sample-result (some h) t s c e)
      ∙ ap
          (λ p. record c {
            processed = p;
            unknown_notifications =
                note_unknown c.handle_to_notification header rest c.unknown_notifications;
          })
          (append_assoc c.processed _ _)
      ∙ sym (after-lookup (some h) t s rest c e)

  process_sample-after :
      (t : ℕ) (s : AdsNotificationSample) (rest : List (ℕ × AdsNotificationSample))
      (c : ClientCircuit H)
      → after rest (process_sample header t s c) ≡ after ((t, s) ∷ rest) c
  process_sample-after t s rest c =
      sample_step (lookup s.notification_handle c.handle_to_notification) t s rest c refl

  process_samples-after :
      (t : ℕ) (ss : List AdsNotificationSample) (rest : List (ℕ × AdsNotificationSample))
      (c : ClientCircuit H)
      → after rest (process_samples header t ss c) ≡ after (with_time t ss ++ rest) c
  unfolding process_samples with_time
  process_samples-after t [] rest c = refl
  process_samples-after t (s ∷ ss) rest c =
      process_samples-after t ss rest (process_sample header t s c)
      ∙ process_sample-after t s (with_time t ss ++ rest) c

  process_stamps-after :
      (ss : List AdsNotificationStamp) (c : ClientCircuit H)
      → process_stamps header ss c ≡ (outcome ss, after (timed_samples (dated ss)) c)
  unfolding process_stamps timed_samples dated outcome date_of
  process_stamps-after [] c = ap (λ d. (ok tt, d)) (sym (after-nil c))
  process_stamps-after (s ∷ ss) c = elim (Bool-cases (ltb s.timestamp first_undated)) [
    | inr late ↦
        rw (process_stamps, date_of, late) (ap (λ d. (err value_error, d)) (sym (after-nil c)))
    | inl early ↦
        rw (process_stamps, date_of, early)
          (process_stamps-after ss (process_samples header s.timestamp s.samples c)
            ∙ ap (λ d. (outcome ss, d))
                (process_samples-after s.timestamp s.samples (timed_samples (dated ss)) c))
  ]

  -- A notification stream calls, in the order of its samples, the handler of every sample whose
  -- handle has one, with the time of the sample's stamp, and notes the other handles as unknown for
  -- the source of the stream, up to the first stamp whose time is past the year 9999, which raises
  -- `ValueError`. The request of the same invoke id is forgotten; nothing else changes.
  pub handle_command-notification :
      (stream : AdsNotificationStream) (c : ClientCircuit H)
      → command_id header ≡ some Constants.device_notification
      → handle_command header (Item.notification_item stream) c ≡ (
        outcome stream.stamps,
        record c {
          id_to_request = erase header.invoke_id c.id_to_request;
          processed =
              c.processed
              ++ deliveries c.handle_to_notification header (timed_samples (dated stream.stamps));
          unknown_notifications =
              note_unknown c.handle_to_notification header
                (timed_samples (dated stream.stamps))
                c.unknown_notifications;
        },
      )
  unfolding handle_command client_handler dispatch device_notification_handler
  handle_command-notification stream c h = rw h (
      process_stamps-after stream.stamps
        (record c { id_to_request = erase header.invoke_id c.id_to_request }))
