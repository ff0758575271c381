-- ===== src/Snapshot.antt =====
-- include/daemon_snapshot.hpp and src/daemon_snapshot.cpp: what the daemon publishes of the player.
-- `rest` stands for the members that the function only moves through: metadata, drive, read
-- diagnostics, recent events and the media error.
pub mod Total
use picdplayer.Outcome.{
  Outcome, returned, thrown, undefined, deref, throw_if, invalid_argument, ◌>>=◌, ◌>>◌,
}
use picdplayer.Prelude.{
  ℕ, Bool, true, false, not, ◌&&◌, ◌||◌, Option, none, some, List, [], ◌∷◌, ℤ, pos, ◌-ℤ◌, ltb_ℤ,
  leb_ℤ, ◌==ℤ◌, if◌then◌else◌,
}
use picdplayer.Toc.{Track, DiscToc}
use picdplayer.Player.{PlayerState, PlaybackState}
use picdplayer.Media.{MediaLifecycleState}

pub record DaemonSnapshot (P : Type 0) : Type 0 where
  pub revision : ℕ
  pub player : PlayerState
  pub media : MediaLifecycleState
  pub disc : Option DiscToc
  pub rest : P
  pub position_in_track_frames : Option ℤ
  pub current_track_length_frames : Option ℤ

abbrev pub is_no_disc : PlaybackState → Bool
is_no_disc PlaybackState.no_disc = true
is_no_disc _ = false

abbrev pub has_value : Option ℤ → Bool
has_value none = false
has_value (some _) = true

-- The loop over the tracks: the relative position and the length of the first with the number.
unfoldable pub locate : List Track → ℤ → ℤ → Outcome (ℤ × ℤ)
locate [] number position = thrown invalid_argument
locate (t ∷ ts) number position =
    let rest = locate ts number position in
    let relative = position -ℤ t.start_lba in
    if t.number ==ℤ number
    then throw_if (ltb_ℤ relative (pos 0) || leb_ℤ t.length_frames relative) invalid_argument
      >> returned (relative, t.length_frames)
    else rest

module _ {P : Type 0} (revision : ℕ) (player : PlayerState) (media : MediaLifecycleState)
    (rest : P) where
  located : Option DiscToc → ℤ × ℤ → DaemonSnapshot P
  located disc l = record {
    revision = revision;
    player = player;
    media = media;
    disc = disc;
    rest = rest;
    position_in_track_frames = some l.0;
    current_track_length_frames = some l.1;
  }

  unlocated : Option DiscToc → DaemonSnapshot P
  unlocated disc = record {
    revision = revision;
    player = player;
    media = media;
    disc = disc;
    rest = rest;
    position_in_track_frames = none;
    current_track_length_frames = none;
  }

  -- The part after the NO_DISC case: both optionals are tested before they are read.
  snapshot_at : DiscToc → Option ℤ → Option ℤ → Outcome (DaemonSnapshot P)
  unfolding located locate
  snapshot_at toc none p = thrown invalid_argument
  snapshot_at toc (some t) none = thrown invalid_argument
  snapshot_at toc (some t) (some p) = do l ← locate toc.tracks t p; returned (located (some toc) l)

  snapshot_on : Option DiscToc → Outcome (DaemonSnapshot P)
  unfolding snapshot_at
  snapshot_on none = thrown invalid_argument
  snapshot_on (some toc) = snapshot_at toc player.track player.position_lba

  unfoldable pub make_daemon_snapshot : Option DiscToc → Outcome (DaemonSnapshot P)
  unfolding snapshot_on unlocated
  make_daemon_snapshot disc =
      if is_no_disc player.playback
      then throw_if (has_value player.track || has_value player.position_lba) invalid_argument
        >> returned (unlocated disc)
      else snapshot_on disc
