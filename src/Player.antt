-- ===== src/Player.antt =====
-- include/player_controller.hpp and src/player_controller.cpp: the intent of the player.
-- A method returns the object as it leaves it; all throws stand before the first write, so a call
-- that throws leaves the object unchanged.
pub mod Tracks
pub mod Invariant
pub mod Commands
pub mod Seek
pub mod Load
pub mod Run
pub mod Loaded
use picdplayer.Prelude.{
  ℕ, zero, suc, ◌+◌, ◌-◌, ◌*◌, Bool, true, false, not, ◌&&◌, ◌||◌, Option, none, some, List, [],
  ◌∷◌, map, ℤ, pos, negsuc, ◌+ℤ◌, ◌-ℤ◌, ltb_ℤ, leb_ℤ, ◌==ℤ◌, max_ℤ, min_ℤ, clamp_ℤ, pos_part,
  neg_part, ltb, leb, ◌==◌, if◌then◌else◌, length, get_elem?,
}
use picdplayer.Outcome.{
  Outcome, returned, thrown, undefined, deref, throw_if, invalid_argument, ◌>>=◌, ◌>>◌,
}
use picdplayer.Toc.{Track, DiscToc, make_audio_toc, frames_per_second}

pub data PlaybackState : Type 0 where
  no_disc stopped playing paused : PlaybackState

pub record PlayerState : Type 0 where
  pub playback : PlaybackState
  pub track : Option ℤ
  pub position_lba : Option ℤ

pub record PlayerController : Type 0 where
  pub toc : Option DiscToc
  pub state : PlayerState
  pub index : ℕ
  pub begin : ℤ
  pub end : ℤ

abbrev pub initial_state : PlayerState
initial_state = record { playback = PlaybackState.no_disc; track = none; position_lba = none }

abbrev pub new_player : PlayerController
new_player = record { toc = none; state = initial_state; index = 0; begin = pos 0; end = pos 0 }

-- `if (!toc_) return missing;`
unfoldable pub with_disc :
    Option DiscToc
    → Outcome (PlayerController × Bool)
    → (DiscToc → Outcome (PlayerController × Bool))
    → Outcome (PlayerController × Bool)
with_disc none missing f = missing
with_disc (some toc) missing f = f toc

-- The range of the current or of a chosen track that the playback range leaves.
abbrev pub first_of : PlayerController → Track → ℤ
first_of c t = max_ℤ t.start_lba c.begin

abbrev pub last_of : PlayerController → Track → ℤ
last_of c t = min_ℤ (t.start_lba +ℤ t.length_frames) c.end

abbrev pub moved_to : PlayerController → ℕ → Track → ℤ → PlayerController
moved_to c i t position = record c {
  index = i;
  state = record c.state { track = some t.number; position_lba = some position };
}

abbrev pub with_playback : PlayerController → PlaybackState → PlayerController
with_playback c p = record c { state = record c.state { playback = p } }

-- select_index(index, constrain): `toc` is `*toc_`.
pub select_track_at : PlayerController → ℕ → Bool → Track → PlayerController × Bool
select_track_at c i true t =
    if leb_ℤ (last_of c t) (first_of c t) then (c, false) else (moved_to c i t (first_of c t), true)
select_track_at c i false t = (moved_to c i t t.start_lba, true)

pub select_index : PlayerController → DiscToc → ℕ → Bool → Outcome (PlayerController × Bool)
unfolding select_track_at
select_index c toc i constrain = do
  t ← deref (get_elem? toc.tracks i)
  returned (select_track_at c i constrain t)

abbrev pub same_tracks : List Track → List Track → Bool
same_tracks [] _ = true
same_tracks (a ∷ rest) [] = false
same_tracks (a ∷ rest) (b ∷ others) =
    (a.number ==ℤ b.number) && (a.length_frames ==ℤ b.length_frames) && same_tracks rest others

-- The checks and writes of load_disc once make_audio_toc has returned.
pub install : PlayerController → List Track → DiscToc → Outcome (PlayerController × Bool)
unfolding select_index
install c tracks validated = do
  throw_if (not (same_tracks tracks validated.tracks)) invalid_argument
  front ← deref (get_elem? validated.tracks 0)
  select_index
      (with_playback
        (record c { toc = some validated; begin = front.start_lba; end = validated.leadout_lba })
        PlaybackState.stopped)
      validated 0 true

pub load_tracks : PlayerController → DiscToc → List Track → Outcome (PlayerController × Bool)
unfolding install
load_tracks c toc [] = thrown invalid_argument
load_tracks c toc (t ∷ ts) = do
  validated ← make_audio_toc t.number (map (λ u. u.start_lba) (t ∷ ts)) toc.leadout_lba
  install c (t ∷ ts) validated

pub load_disc : PlayerController → DiscToc → Outcome (PlayerController × Bool)
unfolding load_tracks
load_disc c toc = load_tracks c toc toc.tracks

pub remove_disc : PlayerController → PlayerController
remove_disc c = record c { toc = none; state = initial_state; index = 0 }

pub set_playback_range : PlayerController → ℤ → ℤ → Outcome (PlayerController × Bool)
set_playback_range c begin end = with_disc c.toc (thrown invalid_argument) λ toc. do
  front ← deref (get_elem? toc.tracks 0)
  throw_if (ltb_ℤ begin front.start_lba || ltb_ℤ toc.leadout_lba end || ltb_ℤ end begin)
      invalid_argument
  returned (record c { begin = begin; end = end }, true)

pub play : PlayerController → Outcome (PlayerController × Bool)
play c = with_disc c.toc (returned (c, false)) λ toc. do
  t ← deref (get_elem? toc.tracks c.index)
  p ← deref c.state.position_lba
  returned (
      if leb_ℤ (last_of c t) (first_of c t) then (c, false) else (
        record c {
          state = record c.state {
            playback = PlaybackState.playing;
            position_lba = some (clamp_ℤ p (first_of c t) (last_of c t -ℤ pos 1));
          };
        },
        true,
      ))

abbrev pub is_playing : PlaybackState → Bool
is_playing PlaybackState.playing = true
is_playing _ = false

pub pause : PlayerController → PlayerController
pause c = if is_playing c.state.playback then with_playback c PlaybackState.paused else c

pub stop : PlayerController → Outcome (PlayerController × Bool)
unfolding select_index
stop c =
    with_disc c.toc (returned (c, false))
      λ toc. select_index (with_playback c PlaybackState.stopped) toc 0 false

-- finished() has the body of stop().
pub finished : PlayerController → Outcome (PlayerController × Bool)
unfolding select_index
finished c =
    with_disc c.toc (returned (c, false))
      λ toc. select_index (with_playback c PlaybackState.stopped) toc 0 false

-- std::find_if by number; the length when there is none.
pub find_number : ℤ → List Track → ℕ
find_number n [] = 0
find_number n (t ∷ ts) = let rest = find_number n ts in if t.number ==ℤ n then 0 else suc rest

pub select_track : PlayerController → ℤ → Outcome (PlayerController × Bool)
unfolding select_index find_number
select_track c number = with_disc c.toc (returned (c, false)) λ toc.
    let i = find_number number toc.tracks in
    if i == length toc.tracks then returned (c, false) else select_index c toc i true

pub next : PlayerController → Outcome (PlayerController × Bool)
unfolding select_index
next c = with_disc c.toc (returned (c, false)) λ toc.
    if leb_ℤ c.end c.begin
    then returned (c, false)
    else if suc c.index == length toc.tracks
    then returned (c, true)
    else select_index c toc (suc c.index) true

abbrev pub restart_threshold_frames : ℕ
restart_threshold_frames = 3 * frames_per_second

pub previous : PlayerController → Outcome (PlayerController × Bool)
unfolding select_index
previous c = with_disc c.toc (returned (c, false)) λ toc. do
  p ← deref c.state.position_lba
  t ← deref (get_elem? toc.tracks c.index)
  select_index c toc
      (if (c.index == 0) || leb_ℤ (pos restart_threshold_frames) (p -ℤ t.start_lba)
        then c.index
        else c.index - 1)
      true

-- std::upper_bound by start: on sorted tracks, how many begin at `lba` or before.
pub upper_bound : ℤ → List Track → ℕ
upper_bound lba [] = 0
upper_bound lba (t ∷ ts) =
    let rest = upper_bound lba ts in if ltb_ℤ lba t.start_lba then 0 else suc rest

abbrev pub seek_target : PlayerController → ℤ → ℤ → ℤ → ℤ → ℤ
seek_target c current first last frames =
    clamp_ℤ (current +ℤ clamp_ℤ frames (first -ℤ current) (last -ℤ current)) c.begin
      (c.end -ℤ pos 1)

-- `it - begin - 1` for the found `it`: at the first track the index would wrap.
abbrev pub before_bound : ℕ → Option ℕ
before_bound zero = none
before_bound (suc k) = some k

pub seek_relative : PlayerController → ℤ → Outcome (PlayerController × Bool)
unfolding upper_bound
seek_relative c frames = with_disc c.toc (returned (c, false)) λ toc.
    if leb_ℤ c.end c.begin then returned (c, false) else do
      current ← deref c.state.position_lba
      front ← deref (get_elem? toc.tracks 0)
      let target = seek_target c current front.start_lba (toc.leadout_lba -ℤ pos 1) frames
      i ← deref (before_bound (upper_bound target toc.tracks))
      t ← deref (get_elem? toc.tracks i)
      returned (moved_to c i t target, true)

pub playback_position : PlayerController → ℤ → Outcome (PlayerController × Bool)
unfolding seek_relative
playback_position c lba = with_disc c.toc (returned (c, false)) λ toc.
    if not (is_playing c.state.playback) then returned (c, false) else do
      p ← deref c.state.position_lba
      if ltb_ℤ lba p || leb_ℤ toc.leadout_lba lba
          then returned (c, false)
          else seek_relative c (lba -ℤ p)
