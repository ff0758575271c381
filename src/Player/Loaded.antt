-- ===== src/Player/Loaded.antt =====
-- The calls that the engine makes on a player with a disc: they return, and the disc stays.
use mathlib.Core.Path.{subst}
use picdplayer.Outcome.{Outcome, returned, thrown, undefined, deref, ◌>>=◌}
use picdplayer.Player.{
  PlayerController, PlaybackState, with_disc, with_playback, stop, finished, playback_position,
  seek_relative, select_index, is_playing, before_bound, upper_bound, seek_target,
}
use picdplayer.Player.Commands.{stop-Keeps, finished-Keeps}
use picdplayer.Player.Invariant.{Inv, Keeps, empty, loaded, with_disc-eq}
use picdplayer.Player.Seek.{playback_position-Keeps}
use picdplayer.Prelude.{
  ◌≡◌, ◌≢◌, refl, sym, ◌∙◌, Bool, false, not, ◌||◌, Option, none, some, ℤ, pos, ◌-ℤ◌, leb_ℤ, ltb_ℤ,
  if-both, get_elem?,
}
use picdplayer.Toc.{DiscToc}

-- The invariant, with a disc.
pub record Loaded (c : PlayerController) : Type 0 where
  pub toc : DiscToc
  pub has : c.toc ≡ some toc
  pub keeps : Inv c

-- What is true of the player that a call returns; it throws nothing.
abbrev pub Returns : (PlayerController → Type 0) → Outcome (PlayerController × Bool) → Type 0
Returns P (returned r) = P r.0
Returns P (thrown e) = ⊥
Returns P undefined = ⊥

-- The same, with nothing said of undefined behaviour.
abbrev Partly : (PlayerController → Type 0) → Outcome (PlayerController × Bool) → Type 0
Partly P (returned r) = P r.0
Partly P (thrown e) = ⊥
Partly P undefined = Unit

module _ (P : PlayerController → Type 0) where
  deref-Partly {ℓ} :
      {A : Type ℓ} (f : A → Outcome (PlayerController × Bool)) (o : Option A)
      → ((a : A) → Partly P (f a))
      → Partly P (deref o >>= f)
  deref-Partly f none h = tt
  deref-Partly f (some a) h = h a

  with_disc-Partly :
      (o : Option DiscToc) (missing : Outcome (PlayerController × Bool))
      (f : DiscToc → Outcome (PlayerController × Bool))
      → Partly P missing
      → ((toc : DiscToc) → Partly P (f toc))
      → Partly P (with_disc o missing f)
  unfolding with_disc
  with_disc-Partly none missing f m h = m
  with_disc-Partly (some toc) missing f m h = h toc

abbrev Both : (PlayerController → Type 0) → PlayerController → Type 0
Both P d = P d × Inv d

Partly-Returns :
    (P : PlayerController → Type 0) (o : Outcome (PlayerController × Bool))
    → Partly P o
    → Keeps o
    → Returns (Both P) o
Partly-Returns P (returned r) p k = (p, k)
Partly-Returns P (thrown e) p k = absurd p
Partly-Returns P undefined p k = absurd k

Returns-map :
    (P Q : PlayerController → Type 0) (o : Outcome (PlayerController × Bool))
    → ((d : PlayerController) → P d → Q d)
    → Returns P o
    → Returns Q o
Returns-map P Q (returned r) f p = f r.0 p
Returns-map P Q (thrown e) f p = p
Returns-map P Q undefined f p = p

-- A player with a disc that does not play.
abbrev pub Halted : PlayerController → Type 0
Halted d = Loaded d × (d.state.playback ≢ PlaybackState.playing)

module _ (c : PlayerController) where
  abbrev Same : PlayerController → Type 0
  Same d = d.toc ≡ c.toc

  abbrev Stopped : PlayerController → Type 0
  Stopped d = (d.toc ≡ c.toc) × (d.state.playback ≢ PlaybackState.playing)

  stopped-Partly :
      (toc : DiscToc)
      → Partly Stopped (select_index (with_playback c PlaybackState.stopped) toc 0 false)
  unfolding select_index
  stopped-Partly toc = deref-Partly Stopped _ (get_elem? toc.tracks 0) (λ t. (refl, λ e. cc))

  seek_relative-Partly : (frames : ℤ) → Partly Same (seek_relative c frames)
  unfolding seek_relative
  seek_relative-Partly frames = with_disc-Partly Same c.toc _ _ refl (λ toc.
      if-both (Partly Same) (leb_ℤ c.end c.begin) (λ _. refl)
        (λ _. deref-Partly Same _ c.state.position_lba (λ current.
          deref-Partly Same _ (get_elem? toc.tracks 0) (λ front.
            deref-Partly Same _
              (before_bound (
                upper_bound
                  (seek_target c current front.start_lba (toc.leadout_lba -ℤ pos 1) frames)
                  toc.tracks))
              (λ i. deref-Partly Same _ (get_elem? toc.tracks i) (λ t. refl))))))

  playback_position-Partly : (lba : ℤ) → Partly Same (playback_position c lba)
  unfolding playback_position
  playback_position-Partly lba = with_disc-Partly Same c.toc _ _ refl (λ toc.
      if-both (Partly Same) (not (is_playing c.state.playback)) (λ _. refl)
        (λ _. deref-Partly Same _ c.state.position_lba (λ p.
          if-both (Partly Same) (ltb_ℤ lba p || leb_ℤ toc.leadout_lba lba) (λ _. refl)
            (λ _. seek_relative-Partly (lba -ℤ p)))))

  module _ (l : Loaded c) where
    pub stop-Halted : Returns Halted (stop c)
    unfolding stop
    stop-Halted =
        Returns-map (Both Stopped) Halted (stop c)
          (λ d h. (record { toc = l.toc; has = h.0.0 ∙ l.has; keeps = h.1 }, h.0.1))
          (Partly-Returns Stopped (stop c)
            (subst (Partly Stopped) (sym (with_disc-eq _ _ c.toc l.toc l.has))
              (stopped-Partly l.toc))
            (stop-Keeps c l.keeps))

    pub finished-Halted : Returns Halted (finished c)
    unfolding finished
    finished-Halted =
        Returns-map (Both Stopped) Halted (finished c)
          (λ d h. (record { toc = l.toc; has = h.0.0 ∙ l.has; keeps = h.1 }, h.0.1))
          (Partly-Returns Stopped (finished c)
            (subst (Partly Stopped) (sym (with_disc-eq _ _ c.toc l.toc l.has))
              (stopped-Partly l.toc))
            (finished-Keeps c l.keeps))

    pub playback_position-Loaded : (lba : ℤ) → Returns Loaded (playback_position c lba)
    playback_position-Loaded lba =
        Returns-map (Both Same) Loaded (playback_position c lba)
          (λ d h. record { toc = l.toc; has = h.0 ∙ l.has; keeps = h.1 })
          (Partly-Returns Same (playback_position c lba) (playback_position-Partly lba)
            (playback_position-Keeps c lba l.keeps))

  -- With a disc there is a position.
  pub Loaded-position : Loaded c → (p : ℤ) × (c.state.position_lba ≡ some p)
  Loaded-position l = elim l.keeps [
    | empty e s ↦ absurd (cc)
    | loaded toc h a ↦ (a.position, a.positioned)
  ]
