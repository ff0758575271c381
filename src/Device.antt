-- ===== src/Device.antt =====
-- include/device_lifecycle.hpp and src/device_lifecycle.cpp: DeviceObservationTracker, the check
-- that admits a generation, and the reader bound to it.
-- A signature and an error are lists of bytes. The enum has no value but its three names.
pub mod Epoch
pub mod Bound
use picdplayer.Outcome.{Outcome, returned, thrown, undefined, Exception, system_error, ◌>>=◌}
use picdplayer.Prelude.{
  ℕ, suc, ◌+◌, ◌%◌, ◌^◌, Bool, true, false, not, ◌&&◌, ◌||◌, List, [], ◌∷◌, if◌then◌else◌, ltb,
  ◌==◌, length, ℤ,
}
use picdplayer.Reader.{CddaReader, ReadResult, add64}

pub data DevicePresence : Type 0 where
  unknown absent present : DevicePresence

pub data DeviceChangeReason : Type 0 where
  pending initial state_changed signature_changed reader_failure : DeviceChangeReason

pub record DeviceObservation : Type 0 where
  pub presence : DevicePresence
  pub signature : List ℕ
  pub error : List ℕ

pub record DeviceObservationSnapshot : Type 0 where
  pub generation : ℕ
  pub presence : DevicePresence
  pub reason : DeviceChangeReason
  pub error : List ℕ
  pub sampled : Bool

pub record DeviceObservationTracker : Type 0 where
  pub snapshot : DeviceObservationSnapshot
  pub signature : List ℕ

abbrev pub new_tracker : DeviceObservationTracker
new_tracker = record {
  snapshot = record {
    generation = 0;
    presence = DevicePresence.unknown;
    reason = DeviceChangeReason.pending;
    error = [];
    sampled = false;
  };
  signature = [];
}

abbrev pub same_presence : DevicePresence → DevicePresence → Bool
same_presence DevicePresence.unknown DevicePresence.unknown = true
same_presence DevicePresence.absent DevicePresence.absent = true
same_presence DevicePresence.present DevicePresence.present = true
same_presence _ _ = false

abbrev pub is_present : DevicePresence → Bool
is_present p = same_presence p DevicePresence.present

abbrev pub same_bytes : List ℕ → List ℕ → Bool
same_bytes [] [] = true
same_bytes (a ∷ rest) (b ∷ others) = (a == b) && same_bytes rest others
same_bytes _ _ = false

-- "METADATA_LIMIT"
abbrev pub metadata_limit : List ℕ
metadata_limit = 77 ∷ 69 ∷ 84 ∷ 65 ∷ 68 ∷ 65 ∷ 84 ∷ 65 ∷ 95 ∷ 76 ∷ 73 ∷ 77 ∷ 73 ∷ 84 ∷ []

-- What observe takes an observation for: one that breaks the bounds counts as unknown.
unfoldable pub bounded : DeviceObservation → DeviceObservation
bounded v =
    if ltb 4096 (length v.signature)
      || ltb 256 (length v.error)
      || (is_present v.presence && (length v.signature == 0))
    then record { presence = DevicePresence.unknown; signature = []; error = metadata_limit }
    else v

abbrev pub change_reason : Bool → Bool → DeviceChangeReason
change_reason true _ = DeviceChangeReason.initial
change_reason false true = DeviceChangeReason.state_changed
change_reason false false = DeviceChangeReason.signature_changed

-- observe on the bounded observation.
unfoldable pub record_observation :
    DeviceObservationTracker → DeviceObservation → DeviceObservationTracker
record_observation t v =
    let first = not t.snapshot.sampled in
    let state_changed = not (same_presence t.snapshot.presence v.presence) in
    let signature_changed = is_present v.presence && not (same_bytes t.signature v.signature) in
    let changed = first || state_changed || signature_changed in
    record {
      snapshot = record {
        generation = if changed then add64 t.snapshot.generation 1 else t.snapshot.generation;
        presence = v.presence;
        reason = if changed then change_reason first state_changed else t.snapshot.reason;
        error = v.error;
        sampled = true;
      };
      signature = v.signature;
    }

unfoldable pub observe : DeviceObservationTracker → DeviceObservation → DeviceObservationTracker
unfolding bounded record_observation
observe t v = record_observation t (bounded v)

unfoldable pub reader_failed : DeviceObservationTracker → DeviceObservationTracker
reader_failed t = record t {
  snapshot = record t.snapshot {
    generation = add64 t.snapshot.generation 1;
    reason = DeviceChangeReason.reader_failure;
  };
}

-- DeviceLifecycleObserver::permits
unfoldable pub permits : DeviceObservationTracker → ℕ → Bool
permits t generation =
    (t.snapshot.generation == generation)
    && not (same_presence t.snapshot.presence DevicePresence.absent)
