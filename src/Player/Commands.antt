-- ===== src/Player/Commands.antt =====
-- Every command of the player on every state that satisfies the invariant.
use picdplayer.Prelude.{
  suc, ◌-◌, refl, ◌||◌, inl, inr, ℤ, pos, ◌-ℤ◌, leb_ℤ, clamp_ℤ, ◌==◌, length, get_elem?, arith,
  Bool-cases, -ℤ_parts, get_elem?-lt, get_elem?-below,
}
use picdplayer.Player
use picdplayer.Player.{
  PlayerController, PlayerState, PlaybackState, initial_state, new_player, select_index,
  select_track_at, moved_to, with_playback, first_of, last_of, same_tracks, load_disc, load_tracks,
  remove_disc, set_playback_range, play, pause, stop, finished, find_number, select_track,
  upper_bound, before_bound, seek_target, seek_relative, playback_position, previous, is_playing,
}
use picdplayer.Player.Tracks.{front, find_number-there}
use picdplayer.Player.Invariant.{
  Inv, Keeps, with_disc-none, with_disc-some, deref-Keeps, empty, loaded, with_playback-HasDisc,
  with_playback-At, unconstrained-Inv, constrained-Inv,
}

module _ (c : PlayerController) where
  pub stop-Keeps : Inv c → Keeps (stop c)
  unfolding stop
  stop-Keeps (empty e s) = with_disc-none _ _ c.toc e (empty e s)
  stop-Keeps (loaded toc h a) = with_disc-some _ _ c.toc toc h.has (
      unconstrained-Inv (with_playback c PlaybackState.stopped) toc 0
        (front toc h.first h.valid).track
        (with_playback-HasDisc c toc PlaybackState.stopped (λ e. cc) h)
        (front toc h.first h.valid).there)

  pub finished-Keeps : Inv c → Keeps (finished c)
  unfolding finished
  finished-Keeps (empty e s) = with_disc-none _ _ c.toc e (empty e s)
  finished-Keeps (loaded toc h a) = with_disc-some _ _ c.toc toc h.has (
      unconstrained-Inv (with_playback c PlaybackState.stopped) toc 0
        (front toc h.first h.valid).track
        (with_playback-HasDisc c toc PlaybackState.stopped (λ e. cc) h)
        (front toc h.first h.valid).there)

  pub pause-Inv : Inv c → Inv (pause c)
  unfolding pause
  pause-Inv (empty e s) = simp s (empty e s)
  pause-Inv (loaded toc h a) = elim (Bool-cases (is_playing c.state.playback)) [
    | inl p ↦ rw p (
        loaded toc (with_playback-HasDisc c toc PlaybackState.paused (λ e. cc) h)
          (with_playback-At c toc PlaybackState.paused a))
    | inr n ↦ rw n (loaded toc h a)
  ]

  pub next-Keeps : Inv c → Keeps (Player.next c)
  unfolding Player.next
  next-Keeps (empty e s) = with_disc-none _ _ c.toc e (empty e s)
  next-Keeps (loaded toc h a) =
      with_disc-some _ _ c.toc toc h.has (elim (Bool-cases (leb_ℤ c.end c.begin)) [
        | inl none_left ↦ rw none_left (loaded toc h a)
        | inr some_left ↦ rw some_left (elim (Bool-cases (suc c.index == length toc.tracks)) [
          | inl at_end ↦ rw at_end (loaded toc h a)
          | inr more ↦
              let (t, e) =
                get_elem?-below toc.tracks (suc c.index)
                  (ground (arith, get_elem?-lt toc.tracks c.index a.at_index)) in
              rw more (constrained-Inv c toc (suc c.index) t h e (loaded toc h a))
        ])
      ])

  pub select_track-Keeps : (n : ℤ) → Inv c → Keeps (select_track c n)
  unfolding select_track
  select_track-Keeps n (empty e s) = with_disc-none _ _ c.toc e (empty e s)
  select_track-Keeps n (loaded toc h a) =
      with_disc-some _ _ c.toc toc h.has
        (elim (Bool-cases (find_number n toc.tracks == length toc.tracks)) [
          | inl missing ↦ rw missing (loaded toc h a)
          | inr there ↦
              let (t, e, _) = find_number-there n toc.tracks (λ e. ground arith) in
              rw there (constrained-Inv c toc (find_number n toc.tracks) t h e (loaded toc h a))
        ])

  pub previous-Keeps : Inv c → Keeps (previous c)
  unfolding previous
  previous-Keeps (empty e s) = with_disc-none _ _ c.toc e (empty e s)
  previous-Keeps (loaded toc h a) = with_disc-some _ _ c.toc toc h.has (
      deref-Keeps _ c.state.position_lba a.position a.positioned (
        deref-Keeps _ (get_elem? toc.tracks c.index) a.track a.at_index
          (elim (Bool-cases (
            (c.index == 0)
            || leb_ℤ (pos Player.restart_threshold_frames) (a.position -ℤ a.track.start_lba))) [
              | inl restart ↦
                  rw restart (constrained-Inv c toc c.index a.track h a.at_index (loaded toc h a))
              | inr back ↦
                  let (t, e) =
                    get_elem?-below toc.tracks (c.index - 1)
                      (omega (arith, get_elem?-lt toc.tracks c.index a.at_index)) in
                  rw back (constrained-Inv c toc (c.index - 1) t h e (loaded toc h a))
            ])))

  pub play-Keeps : Inv c → Keeps (play c)
  unfolding play
  play-Keeps (empty e s) = with_disc-none _ _ c.toc e (empty e s)
  play-Keeps (loaded toc h a) = with_disc-some _ _ c.toc toc h.has (
      deref-Keeps _ (get_elem? toc.tracks c.index) a.track a.at_index (
        deref-Keeps _ c.state.position_lba a.position a.positioned
          (elim (Bool-cases (leb_ℤ (last_of c a.track) (first_of c a.track))) [
            | inl outside ↦ rw outside (loaded toc h a)
            | inr inside ↦ rw inside (
                loaded toc
                  (record {
                    first = h.first;
                    valid = h.valid;
                    has = h.has;
                    low = h.low;
                    order = h.order;
                    high = h.high;
                    inserted = λ e. cc;
                  })
                  (record {
                    track = a.track;
                    position = clamp_ℤ a.position (first_of c a.track) (last_of c a.track -ℤ pos 1);
                    at_index = a.at_index;
                    numbered = a.numbered;
                    positioned = refl;
                    after = ground (arith, -ℤ_parts (last_of c a.track) (pos 1));
                    before = ground (arith, -ℤ_parts (last_of c a.track) (pos 1));
                  }))
          ])))
