-- ===== src/Player/Run.antt =====
-- Sequences of commands from a new player.
use picdplayer.Prelude.{◌≡◌, refl, Bool, true, Option, none, some, List, [], ◌∷◌, ℤ}
use picdplayer.Outcome.{Outcome, returned, thrown, undefined}
use picdplayer.Toc.{DiscToc}
use picdplayer.Player
use picdplayer.Player.{
  install, with_disc, PlayerController, PlayerState, PlaybackState, initial_state, new_player,
  select_index, select_track_at, moved_to, with_playback, first_of, last_of, same_tracks, load_disc,
  load_tracks, remove_disc, set_playback_range, play, pause, stop, finished, find_number,
  select_track, upper_bound, before_bound, seek_target, seek_relative, playback_position, previous,
  is_playing,
}
use picdplayer.Player.Invariant.{Inv, Keeps, empty}
use picdplayer.Player.Commands.{
  stop-Keeps, finished-Keeps, pause-Inv, next-Keeps, select_track-Keeps, previous-Keeps, play-Keeps,
}
use picdplayer.Player.Seek.{seek_relative-Keeps, playback_position-Keeps}
use picdplayer.Player.Load.{load_disc-Keeps, remove_disc-Inv, set_playback_range-Keeps}

pub data Command : Type 0 where
  loads : DiscToc → Command
  removes plays pauses stops nexts previouses finishes : Command
  ranges : ℤ → ℤ → Command
  selects seeks positions : ℤ → Command

unfoldable pub call : PlayerController → Command → Outcome (PlayerController × Bool)
call c (loads toc) = load_disc c toc
call c removes = returned (remove_disc c, true)
call c plays = play c
call c pauses = returned (pause c, true)
call c stops = stop c
call c nexts = Player.next c
call c previouses = previous c
call c finishes = finished c
call c (ranges b e) = set_playback_range c b e
call c (selects n) = select_track c n
call c (seeks frames) = seek_relative c frames
call c (positions lba) = playback_position c lba

pub call-Keeps : (c : PlayerController) (m : Command) → Inv c → Keeps (call c m)
unfolding call
call-Keeps c (loads toc) v = load_disc-Keeps c toc
call-Keeps c removes v = remove_disc-Inv c
call-Keeps c plays v = play-Keeps c v
call-Keeps c pauses v = pause-Inv c v
call-Keeps c stops v = stop-Keeps c v
call-Keeps c nexts v = next-Keeps c v
call-Keeps c previouses v = previous-Keeps c v
call-Keeps c finishes v = finished-Keeps c v
call-Keeps c (ranges b e) v = set_playback_range-Keeps c b e v
call-Keeps c (selects n) v = select_track-Keeps c n v
call-Keeps c (seeks frames) v = seek_relative-Keeps c frames v
call-Keeps c (positions lba) v = playback_position-Keeps c lba v

-- A caller that catches the exception goes on with the unchanged object; `none` is undefined
-- behaviour, and stays.
after : PlayerController → Outcome (PlayerController × Bool) → Option PlayerController
after c (returned r) = some r.0
after c (thrown e) = some c
after c undefined = none

pub run : PlayerController → List Command → Option PlayerController
unfolding call after
run c [] = some c
run c (m ∷ ms) = elim (after c (call c m)) [ none ↦ none | some d ↦ run d ms ]

after-Inv :
    (c : PlayerController) (o : Outcome (PlayerController × Bool))
    → Inv c
    → Keeps o
    → (d : PlayerController) × (after c o ≡ some d) × Inv d
unfolding after
after-Inv c (returned r) v k = (r.0, refl, k)
after-Inv c (thrown e) v k = (c, refl, v)
after-Inv c undefined v k = absurd k

run-Inv :
    (c : PlayerController) (ms : List Command)
    → Inv c
    → (d : PlayerController) × (run c ms ≡ some d) × Inv d
unfolding run
run-Inv c [] v = (c, refl, v)
run-Inv c (m ∷ ms) v =
    let (d, e, w) = after-Inv c (call c m) v (call-Keeps c m v) in
    let (f, r, u) = run-Inv d ms w in (f, rw (e, run) r, u)

-- Any commands on a new player, of which a refused one leaves it unchanged, end with no read outside
-- the track table or of an empty optional, in a state that satisfies the invariant: no disc and no
-- position, or a valid disc, a playback range inside it and a position inside the current track.
pub run-new_player-Inv :
    (ms : List Command) → (d : PlayerController) × (run new_player ms ≡ some d) × Inv d
run-new_player-Inv ms = run-Inv new_player ms (empty refl refl)
