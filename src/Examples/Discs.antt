-- ===== src/Examples/Discs.antt =====
-- A disc of two tracks, its player, its medium and its device.
use picdplayer.Outcome.{returned}
use picdplayer.Prelude.{◌≡◌, ◌≢◌, ◌≤◌, refl, true, some, List, [], ◌∷◌, pos, negsuc, ◌⊎◌, arith}
use picdplayer.Prelude.Int.{◌+ℤ◌, ◌-ℤ◌}
use picdplayer.Toc.{Track, DiscToc, make_audio_toc}
use picdplayer.Toc.Contiguous.{
  IsValid, TocBuilt, make_audio_toc-TocBuilt, make_audio_toc-starts, starts,
}
use picdplayer.Player.{
  PlayerController, PlaybackState, seek_relative, moved_to, new_player, upper_bound,
}
use picdplayer.Player.Tracks.{Found, upper_bound-Found}
use picdplayer.Player.Invariant.{Inv, HasDisc, At, loaded}
use picdplayer.Player.Seek.{target, target-Found, seek_relative_lem}
use picdplayer.Player.Run.{
  Command, loads, plays, seeks, nexts, positions, removes, run, run-new_player-Inv,
}
use picdplayer.Media.{MediaObservation, MediaLifecycleState, new_tracker}
use picdplayer.Media.Insertion
use picdplayer.Device.{DeviceObservationTracker, DevicePresence, DeviceObservation, permits}
use picdplayer.Device
use picdplayer.Device.Epoch
use picdplayer.Snapshot.{make_daemon_snapshot}
use picdplayer.Snapshot.Total.{Published, Inv-Published}

abbrev track_one : Track
track_one = record { number = pos 1; start_lba = pos 0; length_frames = pos 150 }

abbrev track_two : Track
track_two = record { number = pos 2; start_lba = pos 150; length_frames = pos 300 }

abbrev pub two_tracks : DiscToc
two_tracks = record { tracks = track_one ∷ track_two ∷ []; leadout_lba = pos 450 }

two_tracks-IsValid : IsValid (pos 1) two_tracks
unfolding ◌+ℤ◌ ◌-ℤ◌
two_tracks-IsValid = (
  omega arith,
  omega arith,
  λ e. cc,
  omega arith,
  (refl, omega arith, omega arith, refl, (refl, omega arith, omega arith, refl, tt)),
)

-- In the first track, at frame 10, playing.
abbrev pub playing_one : PlayerController
playing_one = record {
  toc = some two_tracks;
  state = record {
    playback = PlaybackState.playing;
    track = some (pos 1);
    position_lba = some (pos 10);
  };
  index = 0;
  begin = pos 0;
  end = pos 450;
}

pub playing_one-HasDisc : HasDisc playing_one two_tracks
playing_one-HasDisc = record {
  first = pos 1;
  valid = two_tracks-IsValid;
  has = refl;
  low = omega arith;
  order = omega arith;
  high = omega arith;
  inserted = λ e. cc;
}

pub playing_one-At : At playing_one two_tracks
unfolding ◌+ℤ◌
playing_one-At = record {
  track = track_one;
  position = pos 10;
  at_index = refl;
  numbered = refl;
  positioned = refl;
  after = omega arith;
  before = omega arith;
}

make_audio_toc-TocBuilt_example :
    TocBuilt
      (pos 1)
      (pos 0 ∷ pos 150 ∷ [])
      (pos 450)
      (make_audio_toc (pos 1) (pos 0 ∷ pos 150 ∷ []) (pos 450))
make_audio_toc-TocBuilt_example = make_audio_toc-TocBuilt (pos 1) (pos 0 ∷ pos 150 ∷ []) (pos 450)

make_audio_toc-starts_example :
    make_audio_toc (pos 1) (starts two_tracks.tracks) two_tracks.leadout_lba ≡ returned two_tracks
make_audio_toc-starts_example = make_audio_toc-starts (pos 1) two_tracks two_tracks-IsValid

upper_bound-Found_example :
    Found two_tracks.tracks (pos 200) (upper_bound (pos 200) two_tracks.tracks)
upper_bound-Found_example =
    upper_bound-Found (pos 1) two_tracks.tracks (pos 450) (pos 200) two_tracks-IsValid.4
      (omega arith) (omega arith)

seek_relative_lem_example :
    seek_relative playing_one (pos 190)
    ≡ returned (
      moved_to playing_one
          (target-Found playing_one two_tracks playing_one-HasDisc playing_one-At
            (pos 190)
            (omega arith)).at
          (target-Found playing_one two_tracks playing_one-HasDisc playing_one-At
            (pos 190)
            (omega arith)).found
          (target playing_one two_tracks playing_one-HasDisc playing_one-At
            (pos 190)
            (omega arith)),
      true,
    )
seek_relative_lem_example =
    seek_relative_lem playing_one two_tracks playing_one-HasDisc playing_one-At (pos 190)
      (omega arith)

abbrev commands : List Command
commands =
    loads two_tracks
    ∷ plays
    ∷ seeks (pos 190)
    ∷ positions (pos 250)
    ∷ nexts
    ∷ seeks (negsuc 999)
    ∷ removes
    ∷ seeks (pos 1)
    ∷ []

run-new_player-Inv_example : (d : PlayerController) × (run new_player commands ≡ some d) × Inv d
run-new_player-Inv_example = run-new_player-Inv commands

Inv-Published_example :
    Published 7 playing_one MediaLifecycleState.audio_ready tt
      (make_daemon_snapshot 7 playing_one.state MediaLifecycleState.audio_ready tt playing_one.toc)
Inv-Published_example =
    Inv-Published 7 playing_one MediaLifecycleState.audio_ready tt
      (loaded two_tracks playing_one-HasDisc playing_one-At)

-- The tray is emptied, a disc spins up and is read, and its insertion is taken once.
abbrev insertion : List Insertion.Event
insertion =
    Insertion.observes MediaObservation.tray_open
    ∷ Insertion.observes MediaObservation.not_ready
    ∷ Insertion.observes MediaObservation.audio_disc
    ∷ Insertion.takes
    ∷ Insertion.takes
    ∷ []

run-new_tracker_example :
    ((Insertion.run new_tracker insertion).1 ≤ Insertion.emptied insertion)
    × (((Insertion.run new_tracker insertion).0.state ≡ MediaLifecycleState.eject_error)
        ⊎ ((Insertion.run new_tracker insertion).0.error ≡ []))
run-new_tracker_example = Insertion.run-new_tracker insertion

abbrev present : DeviceObservation
present = record { presence = DevicePresence.present; signature = 49 ∷ []; error = [] }

-- A device that has been seen once.
abbrev seen_once : DeviceObservationTracker
seen_once = record {
  snapshot = record {
    generation = 1;
    presence = DevicePresence.present;
    reason = Device.DeviceChangeReason.initial;
    error = [];
    sampled = true;
  };
  signature = 49 ∷ [];
}

abbrev seen_again : List Epoch.Event
seen_again = Epoch.observes present ∷ Epoch.observes present ∷ []

permits-AllAgree_example :
    Epoch.AllAgree seen_once seen_again
    × ((Epoch.run seen_once seen_again).snapshot.presence ≢ DevicePresence.absent)
unfolding Epoch.run Epoch.step Device.observe Device.record_observation Device.bounded
    Device.permits
permits-AllAgree_example = Epoch.permits-AllAgree seen_once seen_again (omega arith) refl
