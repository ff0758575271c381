-- ===== src/Media.antt =====
-- include/media_state.hpp and src/media_state.cpp: the life cycle of the medium in the drive.
-- An error text is its list of bytes.
pub mod Insertion
use picdplayer.Prelude.{ℕ, Bool, true, false, not, ◌&&◌, ◌||◌, List, [], if◌then◌else◌}

pub data MediaObservation : Type 0 where
  tray_open no_disc not_ready audio_disc unsupported_disc unknown : MediaObservation

pub data MediaLifecycleState : Type 0 where
  no_disc loading audio_ready unsupported ejecting eject_error : MediaLifecycleState

pub record MediaStateTracker : Type 0 where
  pub state : MediaLifecycleState
  pub error : List ℕ
  pub observed_empty : Bool

abbrev pub new_tracker : MediaStateTracker
new_tracker = record { state = MediaLifecycleState.no_disc; error = []; observed_empty = false }

-- The guard of observe: a failed eject stays reported while the disc is still there.
abbrev pub keeps_error : MediaLifecycleState → MediaObservation → Bool
keeps_error MediaLifecycleState.eject_error MediaObservation.audio_disc = true
keeps_error _ _ = false

-- The switch of observe.
abbrev pub apply_observation : MediaObservation → MediaStateTracker → MediaStateTracker
apply_observation MediaObservation.tray_open m = record {
  state = MediaLifecycleState.no_disc;
  error = [];
  observed_empty = true;
}
apply_observation MediaObservation.no_disc m = record {
  state = MediaLifecycleState.no_disc;
  error = [];
  observed_empty = true;
}
apply_observation MediaObservation.not_ready m = record m {
  state = MediaLifecycleState.loading;
  error = [];
}
apply_observation MediaObservation.audio_disc m = record m {
  state = MediaLifecycleState.audio_ready;
  error = [];
}
apply_observation MediaObservation.unsupported_disc m = record {
  state = MediaLifecycleState.unsupported;
  error = [];
  observed_empty = false;
}
apply_observation MediaObservation.unknown m = m

pub observe : MediaStateTracker → MediaObservation → MediaStateTracker
observe m o = if keeps_error m.state o then m else apply_observation o m

abbrev pub is_audio_ready : MediaLifecycleState → Bool
is_audio_ready MediaLifecycleState.audio_ready = true
is_audio_ready _ = false

pub take_audio_insertion : MediaStateTracker → MediaStateTracker × Bool
take_audio_insertion m =
    if not (is_audio_ready m.state) || not m.observed_empty
    then (m, false)
    else (record m { observed_empty = false }, true)

pub begin_eject : MediaStateTracker → MediaStateTracker
begin_eject m = record m { state = MediaLifecycleState.ejecting; error = [] }

pub eject_failed : MediaStateTracker → List ℕ → MediaStateTracker
eject_failed m error = record m { state = MediaLifecycleState.eject_error; error = error }
