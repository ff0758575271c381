-- ===== src/Player/Seek.antt =====
-- PlayerController::seek_relative and playback_position: the track that holds the target.
use picdplayer.Prelude.{
  ◌≡◌, ap, sym, true, not, ◌||◌, inl, inr, ℤ, pos, ◌+ℤ◌, ◌-ℤ◌, ◌≤ℤ◌, ◌<ℤ◌, ltb_ℤ, leb_ℤ, clamp_ℤ,
  get_elem?, arith, int_laws, ◌∙◌, lt→leb_false, clamp_ℤ-bounds, clamp_ℤ-delta, Bool-cases,
}
use mathlib.Core.Path.{subst}
use picdplayer.Outcome.{returned, deref-eq, if_false-eq}
use picdplayer.Toc.{Track, DiscToc}
use picdplayer.Player.{
  PlayerController, moved_to, upper_bound, before_bound, seek_target, seek_relative,
  playback_position, is_playing,
}
use picdplayer.Player.Tracks.{front, Found, upper_bound-Found}
use picdplayer.Player.Invariant.{
  Inv, HasDisc, At, Keeps, with_disc-none, with_disc-eq, with_disc-some, deref-Keeps, empty, loaded,
  moved-Inv,
}

module _ (c : PlayerController) (toc : DiscToc) (h : HasDisc c toc) (a : At c toc) (frames : ℤ)
    (room : c.begin <ℤ c.end) where
  -- The target by one clamp of the sum into the playback range.
  abbrev pub target : ℤ
  target = clamp_ℤ (a.position +ℤ frames) c.begin (c.end -ℤ pos 1)

  fr : Track
  fr = (front toc h.first h.valid).track

  edge : c.begin ≤ℤ c.end -ℤ pos 1
  edge = omega (int_laws, room)

  target-range : (c.begin ≤ℤ target) × (target ≤ℤ c.end -ℤ pos 1)
  target-range = clamp_ℤ-bounds (a.position +ℤ frames) c.begin (c.end -ℤ pos 1) edge

  target-eq : seek_target c a.position fr.start_lba (toc.leadout_lba -ℤ pos 1) frames ≡ target
  unfolding fr
  target-eq =
      clamp_ℤ-delta a.position frames fr.start_lba (toc.leadout_lba -ℤ pos 1) c.begin
        (c.end -ℤ pos 1) (rw ((front toc h.first h.valid).starts_at) h.low) edge
        (omega (int_laws, h.high))

  pub target-Found : Found toc.tracks target (upper_bound target toc.tracks)
  target-Found =
      upper_bound-Found h.first toc.tracks toc.leadout_lba target h.valid.4
        (omega (arith, h.low, target-range.0)) (omega (int_laws, h.high, target-range.1))

  -- With a valid disc, a position in the current track and a nonempty playback range, a relative seek
  -- by any number of frames moves to the sum clamped once into the playback range, and to the track
  -- that holds it, and returns true.
  pub seek_relative_lem :
      seek_relative c frames ≡ returned (moved_to c target-Found.at target-Found.found target, true)
  unfolding seek_relative fr
  seek_relative_lem =
      with_disc-eq _ _ c.toc toc h.has
      ∙ if_false-eq _ _ (leb_ℤ c.end c.begin) (lt→leb_false _ _ room)
      ∙ deref-eq _ c.state.position_lba a.position a.positioned
      ∙ deref-eq _ (get_elem? toc.tracks 0) fr (front toc h.first h.valid).there
      ∙ rw target-eq (
          deref-eq _ (before_bound (upper_bound target toc.tracks)) target-Found.at
            (ap before_bound target-Found.bound)
          ∙ deref-eq _ (get_elem? toc.tracks target-Found.at) target-Found.found target-Found.there)

  pub seek_moved-Inv : Inv (moved_to c target-Found.at target-Found.found target)
  seek_moved-Inv =
      moved-Inv c toc target-Found.at target-Found.found target h target-Found.there
        target-Found.starts target-Found.ends

module _ (c : PlayerController) where
  pub seek_relative-Keeps : (frames : ℤ) → Inv c → Keeps (seek_relative c frames)
  unfolding seek_relative
  seek_relative-Keeps frames (empty e s) = with_disc-none _ _ c.toc e (empty e s)
  seek_relative-Keeps frames (loaded toc h a) = elim (Bool-cases (leb_ℤ c.end c.begin)) [
    | inl none_left ↦ with_disc-some _ _ c.toc toc h.has (rw none_left (loaded toc h a))
    | inr room ↦
        subst Keeps (sym (seek_relative_lem c toc h a frames (ground arith)))
          (seek_moved-Inv c toc h a frames (ground arith))
  ]

  pub playback_position-Keeps : (lba : ℤ) → Inv c → Keeps (playback_position c lba)
  unfolding playback_position
  playback_position-Keeps lba (empty e s) = with_disc-none _ _ c.toc e (empty e s)
  playback_position-Keeps lba (loaded toc h a) =
      with_disc-some _ _ c.toc toc h.has (elim (Bool-cases (not (is_playing c.state.playback))) [
        | inl idle ↦ rw idle (loaded toc h a)
        | inr playing ↦ rw playing (
            deref-Keeps _ c.state.position_lba a.position a.positioned
              (elim (Bool-cases (ltb_ℤ lba a.position || leb_ℤ toc.leadout_lba lba)) [
                | inl stale ↦ rw stale (loaded toc h a)
                | inr fresh ↦ rw fresh (seek_relative-Keeps (lba -ℤ a.position) (loaded toc h a))
              ]))
      ])
