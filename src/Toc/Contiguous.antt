-- ===== src/Toc/Contiguous.antt =====
-- A valid table of contents, and that make_audio_toc builds exactly those.
use picdplayer.Prelude.{
  suc, ◌+◌, ◌≡◌, ◌≢◌, refl, ap, false, ◌||◌, inl, inr, List, [], ◌∷◌, ℤ, pos, ◌+ℤ◌, ◌-ℤ◌, ◌≤ℤ◌,
  ◌<ℤ◌, ltb_ℤ, leb_ℤ, pos_part, neg_part, length, map, arith, int_laws, Bool-cases, le→ltb_false,
}
use picdplayer.Outcome.{Outcome, returned, thrown, undefined, invalid_argument, ◌>>=◌}
use picdplayer.Toc.{Track, DiscToc, track_end, make_tracks, make_audio_toc, is_empty}

-- Where the next track begins, or the lead-out.
abbrev pub next_start : List Track → ℤ → ℤ
next_start [] leadout = leadout
next_start (t ∷ _) leadout = t.start_lba

-- Tracks numbered from `n` on that follow one another without a gap up to the lead-out.
abbrev pub Contiguous : ℤ → List Track → ℤ → Type 0
Contiguous n [] leadout = Unit {0}
Contiguous n (t ∷ ts) leadout =
    (t.number ≡ n)
    × (pos 0 ≤ℤ t.start_lba)
    × (t.start_lba <ℤ next_start ts leadout)
    × (t.length_frames ≡ next_start ts leadout -ℤ t.start_lba)
    × Contiguous (n +ℤ pos 1) ts leadout

abbrev pub IsValid : ℤ → DiscToc → Type 0
IsValid first toc =
    (pos 1 ≤ℤ first)
    × (first ≤ℤ pos 99)
    × (toc.tracks ≢ [])
    × (pos (length toc.tracks) +ℤ first ≤ℤ pos 100)
    × Contiguous first toc.tracks toc.leadout_lba

abbrev pub starts : List Track → List ℤ
starts = map (λ t. t.start_lba)

track_end-starts :
    (ts : List Track) (leadout : ℤ) → track_end (starts ts) leadout ≡ next_start ts leadout
track_end-starts [] leadout = refl
track_end-starts (t ∷ ts) leadout = refl

-- The loop on the starts of contiguous tracks builds these tracks again.
make_tracks-starts :
    (n : ℤ) (ts : List Track) (leadout : ℤ)
    → Contiguous n ts leadout
    → make_tracks n (starts ts) leadout ≡ returned ts
unfolding make_tracks
make_tracks-starts n [] leadout h = refl
make_tracks-starts n (t ∷ ts) leadout h =
    rw (make_tracks-starts (n +ℤ pos 1) ts leadout h.4, track_end-starts ts leadout) (ground arith)

-- What a call that returns has built; a call that throws has rejected its input.
abbrev Built : ℤ → List ℤ → ℤ → Outcome (List Track) → Type 0
Built n ss leadout (returned ts) = Contiguous n ts leadout × (starts ts ≡ ss)
Built n ss leadout (thrown e) = e ≡ invalid_argument
Built n ss leadout undefined = ⊥

Built-cons :
    (n s : ℤ) (ss : List ℤ) (leadout : ℤ) (rest : Outcome (List Track))
    → pos 0 ≤ℤ s
    → s <ℤ track_end ss leadout
    → Built (n +ℤ pos 1) ss leadout rest
    → Built n (s ∷ ss) leadout (do
      ts ← rest
      returned
          (record { number = n; start_lba = s; length_frames = track_end ss leadout -ℤ s } ∷ ts))
Built-cons n s ss leadout (returned ts) low high b =
    let e : track_end ss leadout ≡ next_start ts leadout =
      rw (← b.1) (track_end-starts ts leadout) in
    ((refl, low, rw (← e) high, rw (← e), b.0), ap (◌∷◌ s) b.1)
Built-cons n s ss leadout (thrown e) low high b = b
Built-cons n s ss leadout undefined low high b = b

make_tracks-Built :
    (n : ℤ) (ss : List ℤ) (leadout : ℤ) → Built n ss leadout (make_tracks n ss leadout)
unfolding make_tracks
make_tracks-Built n [] leadout = (tt, refl)
make_tracks-Built n (s ∷ ss) leadout =
    elim (Bool-cases (ltb_ℤ s (pos 0) || leb_ℤ (track_end ss leadout) s)) [
      | inl bad ↦ rw bad refl
      | inr good ↦ rw good (
          Built-cons n s ss leadout _ (ground arith) (ground arith)
            (make_tracks-Built (n +ℤ pos 1) ss leadout))
    ]

-- A table is built from these arguments, or they are refused.
abbrev pub TocBuilt : ℤ → List ℤ → ℤ → Outcome DiscToc → Type 0
TocBuilt first ss leadout (returned toc) =
    IsValid first toc × (starts toc.tracks ≡ ss) × (toc.leadout_lba ≡ leadout)
TocBuilt first ss leadout (thrown e) = e ≡ invalid_argument
TocBuilt first ss leadout undefined = ⊥

length-starts : (ts : List Track) → length (starts ts) ≡ length ts
length-starts [] = refl
length-starts (t ∷ ts) = ap suc (length-starts ts)

is_empty-starts : (ts : List Track) → is_empty (starts ts) ≡ false → ts ≢ []
is_empty-starts [] h e = cc
is_empty-starts (t ∷ ts) h e = cc

tracks-TocBuilt :
    (first : ℤ) (ss : List ℤ) (leadout : ℤ) (made : Outcome (List Track))
    → pos 1 ≤ℤ first
    → first ≤ℤ pos 99
    → is_empty ss ≡ false
    → pos (length ss) ≤ℤ pos 100 -ℤ first
    → Built first ss leadout made
    → TocBuilt first ss leadout
        (do ts ← made; returned (record { tracks = ts; leadout_lba = leadout }))
tracks-TocBuilt first ss leadout (returned ts) low high some room b = (
  (
    low,
    high,
    is_empty-starts ts (rw b.1 some),
    omega (int_laws, length-starts ts, ap (λ l. length l) b.1),
    b.0,
  ),
  b.1,
  refl,
)
tracks-TocBuilt first ss leadout (thrown e) low high some room b = b
tracks-TocBuilt first ss leadout undefined low high some room b = b

-- Whatever its arguments, make_audio_toc throws invalid_argument, or returns a table whose tracks are
-- numbered from `first` on, each ending where the next one or the lead-out starts, with the given
-- starts and the given lead-out; it never reads out of bounds.
pub make_audio_toc-TocBuilt :
    (first : ℤ) (ss : List ℤ) (leadout : ℤ)
    → TocBuilt first ss leadout (make_audio_toc first ss leadout)
unfolding make_audio_toc
make_audio_toc-TocBuilt first ss leadout =
    elim (Bool-cases (
      ltb_ℤ first (pos 1)
      || ltb_ℤ (pos 99) first
      || is_empty ss
      || ltb_ℤ (pos 100 -ℤ first) (pos (length ss)))) [
        | inl bad ↦ rw bad refl
        | inr good ↦ rw good (
            tracks-TocBuilt first ss leadout _ (ground arith) (ground arith) (ground arith)
              (ground arith) (make_tracks-Built first ss leadout))
      ]

starts-is_empty : (ts : List Track) → ts ≢ [] → is_empty (starts ts) ≡ false
starts-is_empty [] h = absurd (h refl)
starts-is_empty (t ∷ ts) h = refl

-- A valid table survives the revalidation that load_disc and the disc id make: the starts of its
-- tracks give the same table back.
pub make_audio_toc-starts :
    (first : ℤ) (toc : DiscToc)
    → IsValid first toc
    → make_audio_toc first (starts toc.tracks) toc.leadout_lba ≡ returned toc
unfolding make_audio_toc
make_audio_toc-starts first toc v =
    rw
      (
        make_tracks-starts first toc.tracks toc.leadout_lba v.4,
        starts-is_empty toc.tracks v.2,
        length-starts toc.tracks,
      )
      (rw (within) refl)
  where
    within :
        (ltb_ℤ first (pos 1)
          || ltb_ℤ (pos 99) first
          || false
          || ltb_ℤ (pos 100 -ℤ first) (pos (length toc.tracks)))
        ≡ false
    within = rw (
      le→ltb_false (pos_part first + 0) (1 + neg_part first) (omega (arith, v.0)),
      le→ltb_false (99 + neg_part first) (pos_part first + 0) (omega (arith, v.1)),
      le→ltb_false (pos_part (pos 100 -ℤ first) + 0)
          (length toc.tracks + neg_part (pos 100 -ℤ first)) (omega (int_laws, v.3)),
    )
