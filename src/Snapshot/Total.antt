-- ===== src/Snapshot/Total.antt =====
-- The player's invariant is what the snapshot checks.
use mathlib.Core.Path.{subst, ap₂}
use picdplayer.Outcome.{
  Outcome, returned, thrown, undefined, throw_if, if_true-eq, if_false-eq, invalid_argument, ◌>>=◌,
  ◌>>◌,
}
use picdplayer.Prelude.{
  ℕ, zero, suc, ◌+◌, ◌≡◌, ◌≢◌, refl, ap, sym, ◌∙◌, false, ◌||◌, ◌⊎◌, inl, inr, none, some, List, [],
  ◌∷◌, ℤ, pos, pos_part, neg_part, ◌+ℤ◌, ◌-ℤ◌, ◌≤ℤ◌, ◌<ℤ◌, get_elem?, int_laws, le→ltb_false,
  lt→leb_false, eq→==, lt→==_false,
}
use picdplayer.Toc.{Track, DiscToc}
use picdplayer.Toc.Contiguous.{Contiguous}
use picdplayer.Player.{PlayerController, PlayerState, PlaybackState, initial_state}
use picdplayer.Player.Invariant.{Inv, HasDisc, At, empty, loaded}
use picdplayer.Media.{MediaLifecycleState}
use picdplayer.Snapshot.{
  DaemonSnapshot, is_no_disc, has_value, locate, located, unlocated, snapshot_at, snapshot_on,
  make_daemon_snapshot,
}

get_elem?-number :
    (n : ℤ) (ts : List Track) (leadout : ℤ) (i : ℕ) {t : Track}
    → Contiguous n ts leadout
    → get_elem? ts i ≡ some t
    → t.number ≡ n +ℤ pos i
get_elem?-number n [] leadout i h e = cc
get_elem?-number n (u ∷ ts) leadout zero {t} h e =
    let same : u ≡ t = cc in rw (← same, h.0) (eq_of_zero n)
  where
    eq_of_zero : (n : ℤ) → n ≡ n +ℤ pos 0
    eq_of_zero n = omega int_laws
get_elem?-number n (u ∷ ts) leadout (suc i) {t} h e =
    get_elem?-number (n +ℤ pos 1) ts leadout i h.4 e ∙ omega int_laws

locate-here :
    (t : Track) (ts : List Track) (p : ℤ)
    → t.start_lba ≤ℤ p
    → p <ℤ t.start_lba +ℤ t.length_frames
    → locate (t ∷ ts) t.number p ≡ returned (p -ℤ t.start_lba, t.length_frames)
unfolding locate
locate-here t ts p low high = rw (
  eq→== (pos_part t.number + neg_part t.number) (pos_part t.number + neg_part t.number) refl,
  le→ltb_false (pos_part (p -ℤ t.start_lba) + 0) (0 + neg_part (p -ℤ t.start_lba)) (omega int_laws),
  lt→leb_false (pos_part t.length_frames + neg_part (p -ℤ t.start_lba))
      (pos_part (p -ℤ t.start_lba) + neg_part t.length_frames) (omega int_laws),
)

locate-past :
    (u : Track) (ts : List Track) (n p : ℤ) → u.number <ℤ n → locate (u ∷ ts) n p ≡ locate ts n p
unfolding locate
locate-past u ts n p h =
    rw (lt→==_false (pos_part u.number + neg_part n) (pos_part n + neg_part u.number) h)

-- Numbers are consecutive, so the first track with the current number is the current track.
locate-found :
    (n : ℤ) (ts : List Track) (leadout : ℤ) (i : ℕ) (t : Track) (p : ℤ)
    → Contiguous n ts leadout
    → get_elem? ts i ≡ some t
    → t.start_lba ≤ℤ p
    → p <ℤ t.start_lba +ℤ t.length_frames
    → locate ts t.number p ≡ returned (p -ℤ t.start_lba, t.length_frames)
locate-found n [] leadout i t p h e low high = cc
locate-found n (u ∷ ts) leadout zero t p h e low high =
    let same : u ≡ t = cc in rw same (locate-here t ts p low high)
locate-found n (u ∷ ts) leadout (suc i) t p h e low high =
    locate-past u ts t.number p
      (rw (h.0, get_elem?-number (n +ℤ pos 1) ts leadout i h.4 e) (omega int_laws))
    ∙ locate-found (n +ℤ pos 1) ts leadout i t p h.4 e low high

inserted-false : (s : PlaybackState) → s ≢ PlaybackState.no_disc → is_no_disc s ≡ false
inserted-false PlaybackState.no_disc h = absurd (h refl)
inserted-false _ h = refl

module _ {P : Type 0} (revision : ℕ) (c : PlayerController) (media : MediaLifecycleState)
    (rest : P) where
  -- A snapshot of this player: with no disc it has no position, and with a disc it has the position
  -- relative to the current track, and that track's length.
  abbrev pub Published : Outcome (DaemonSnapshot P) → Type 0
  Published (returned s) =
      ((c.toc ≡ none)
        × (s.position_in_track_frames ≡ none)
        × (s.current_track_length_frames ≡ none))
      ⊎ ((toc : DiscToc) × (t : Track) × (p : ℤ) × (c.toc ≡ some toc)
          × (get_elem? toc.tracks c.index ≡ some t)
          × (c.state.position_lba ≡ some p)
          × (s.position_in_track_frames ≡ some (p -ℤ t.start_lba))
          × (s.current_track_length_frames ≡ some t.length_frames)
          × (pos 0 ≤ℤ p -ℤ t.start_lba)
          × (p -ℤ t.start_lba <ℤ t.length_frames))
  Published (thrown e) = ⊥
  Published undefined = ⊥

  loaded-snapshot :
      (toc : DiscToc) (h : HasDisc c toc) (a : At c toc)
      → make_daemon_snapshot revision c.state media rest c.toc
        ≡ returned (
            located revision c.state media rest
              (some toc)
              (a.position -ℤ a.track.start_lba, a.track.length_frames))
  unfolding make_daemon_snapshot snapshot_on snapshot_at
  loaded-snapshot toc h a =
      if_false-eq _ _ (is_no_disc c.state.playback) (inserted-false c.state.playback h.inserted)
      ∙ ap (snapshot_on revision c.state media rest) h.has
      ∙ ap₂ (snapshot_at revision c.state media rest toc) a.numbered a.positioned
      ∙ ap (λ l. l >>= λ m. returned (located revision c.state media rest (some toc) m))
          (locate-found h.first toc.tracks toc.leadout_lba c.index a.track a.position h.valid.4
            a.at_index a.after a.before)

  empty-snapshot :
      c.state ≡ initial_state
      → make_daemon_snapshot revision c.state media rest c.toc
        ≡ returned (unlocated revision c.state media rest c.toc)
  unfolding make_daemon_snapshot
  empty-snapshot s =
      if_true-eq _ _ (is_no_disc c.state.playback)
        (ap (λ (x : PlayerState). is_no_disc x.playback) s)
      ∙ ap
          (λ b.
            throw_if b invalid_argument >> returned (unlocated revision c.state media rest c.toc))
          (ap (λ (x : PlayerState). has_value x.track || has_value x.position_lba) s)

  -- The snapshot of a player that satisfies the invariant is never refused. With no disc it has no
  -- position; with a disc it has the position relative to the start of the current track, which is
  -- from 0 to below that track's length, and the length.
  pub Inv-Published : Inv c → Published (make_daemon_snapshot revision c.state media rest c.toc)
  unfolding located unlocated
  Inv-Published (empty e s) = subst Published (sym (empty-snapshot s)) (inl (e, refl, refl))
  Inv-Published (loaded toc h a) = subst Published (sym (loaded-snapshot toc h a)) (
      inr (
        toc,
        a.track,
        a.position,
        h.has,
        a.at_index,
        a.positioned,
        refl,
        refl,
        omega int_laws,
        omega int_laws,
      ))
