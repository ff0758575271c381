-- ===== src/Toc.antt =====
-- include/disc_toc.hpp and src/disc_toc.cpp: the table of contents of an audio CD.
pub mod Contiguous
use picdplayer.Prelude.{
  ℕ, zero, suc, ◌+◌, ◌-◌, Bool, true, false, ◌||◌, List, [], ◌∷◌, ℤ, pos, negsuc, ◌+ℤ◌, ◌-ℤ◌, ltb_ℤ,
  leb_ℤ, pos_part, neg_part, ltb, leb, if◌then◌else◌, length, map,
}
use picdplayer.Outcome.{Outcome, returned, thrown, throw_if, invalid_argument, ◌>>=◌, ◌>>◌}

abbrev pub frames_per_second : ℕ
frames_per_second = 75

pub record Track : Type 0 where
  pub number : ℤ
  pub start_lba : ℤ
  pub length_frames : ℤ

pub record DiscToc : Type 0 where
  pub tracks : List Track
  pub leadout_lba : ℤ

abbrev span_of : List Track → ℤ → ℤ
span_of [] leadout = pos 0
span_of (t ∷ ts) leadout = leadout -ℤ t.start_lba

unfoldable pub span_frames : DiscToc → ℤ
span_frames toc = span_of toc.tracks toc.leadout_lba

-- `i + 1 < starts.size() ? starts[i + 1] : leadout_lba`
abbrev pub track_end : List ℤ → ℤ → ℤ
track_end [] leadout = leadout
track_end (s ∷ _) leadout = s

-- The loop over the starts, from track number `n` on.
unfoldable pub make_tracks : ℤ → List ℤ → ℤ → Outcome (List Track)
make_tracks n [] leadout = returned []
make_tracks n (s ∷ rest) leadout = do
  throw_if (ltb_ℤ s (pos 0) || leb_ℤ (track_end rest leadout) s) invalid_argument
  ts ← make_tracks (n +ℤ pos 1) rest leadout
  returned (record { number = n; start_lba = s; length_frames = track_end rest leadout -ℤ s } ∷ ts)

abbrev is_empty {ℓ} : {A : Type ℓ} → List A → Bool
is_empty [] = true
is_empty (_ ∷ _) = false

unfoldable pub make_audio_toc : ℤ → List ℤ → ℤ → Outcome DiscToc
unfolding make_tracks
make_audio_toc first starts leadout = do
  throw_if
      (ltb_ℤ first (pos 1)
        || ltb_ℤ (pos 99) first
        || is_empty starts
        || ltb_ℤ (pos 100 -ℤ first) (pos (length starts)))
      invalid_argument
  ts ← make_tracks first starts leadout
  returned (record { tracks = ts; leadout_lba = leadout })
