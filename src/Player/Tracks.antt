-- ===== src/Player/Tracks.antt =====
-- Facts on the tracks of a contiguous table that the player's lookups rest on.
use picdplayer.Prelude.{
  ℕ, zero, suc, ◌≡◌, ◌≢◌, refl, ap, true, inl, inr, some, List, [], ◌∷◌, ℤ, pos, ◌+ℤ◌, ◌-ℤ◌, ◌≤ℤ◌,
  ◌<ℤ◌, ltb_ℤ, ◌==ℤ◌, length, get_elem?, arith, int_laws, Bool-cases,
}
use picdplayer.Toc.{Track, DiscToc}
use picdplayer.Toc.Contiguous.{Contiguous, IsValid, next_start}
use picdplayer.Player.{upper_bound, find_number, same_tracks}

pub next_start-le :
    (n : ℤ) (ts : List Track) (leadout : ℤ)
    → Contiguous n ts leadout
    → next_start ts leadout ≤ℤ leadout
next_start-le n [] leadout h = omega arith
next_start-le n (t ∷ ts) leadout h = omega (arith, next_start-le (n +ℤ pos 1) ts leadout h.4)

pub record Bounds (ts : List Track) (leadout : ℤ) (t : Track) : Type 0 where
  pub nonneg : pos 0 ≤ℤ t.start_lba
  pub after_first : next_start ts leadout ≤ℤ t.start_lba
  pub nonempty : pos 0 <ℤ t.length_frames
  pub ends : t.start_lba +ℤ t.length_frames ≤ℤ leadout

head-Bounds :
    (n : ℤ) (t : Track) (ts : List Track) (leadout : ℤ)
    → Contiguous n (t ∷ ts) leadout
    → Bounds (t ∷ ts) leadout t
head-Bounds n t ts leadout h =
    let e : t.length_frames ≡ next_start ts leadout -ℤ t.start_lba = h.3 in
    record {
      nonneg = h.1;
      after_first = omega arith;
      nonempty = rw e (omega (int_laws, h.2));
      ends = rw e (omega (int_laws, next_start-le (n +ℤ pos 1) ts leadout h.4));
    }

pub get_elem?-Bounds :
    (n : ℤ) (ts : List Track) (leadout : ℤ) (i : ℕ) {t : Track}
    → Contiguous n ts leadout
    → get_elem? ts i ≡ some t
    → Bounds ts leadout t
get_elem?-Bounds n [] leadout i h e = cc
get_elem?-Bounds n (u ∷ ts) leadout zero {t} h e =
    let same : u ≡ t = cc in rw (← same) (head-Bounds n u ts leadout h)
get_elem?-Bounds n (u ∷ ts) leadout (suc i) h e =
    let b = get_elem?-Bounds (n +ℤ pos 1) ts leadout i h.4 e in
    record {
      nonneg = b.nonneg;
      after_first = omega (arith, h.2, b.after_first);
      nonempty = b.nonempty;
      ends = b.ends;
    }

pub record Found (ts : List Track) (x : ℤ) (n : ℕ) : Type 0 where
  pub at : ℕ
  pub found : Track
  pub bound : n ≡ suc at
  pub there : get_elem? ts at ≡ some found
  pub starts : found.start_lba ≤ℤ x
  pub ends : x <ℤ found.start_lba +ℤ found.length_frames

upper_bound-past :
    (x : ℤ) (t : Track) (ts : List Track)
    → t.start_lba ≤ℤ x
    → upper_bound x (t ∷ ts) ≡ suc (upper_bound x ts)
unfolding upper_bound
upper_bound-past x t ts h = ground arith

upper_bound-before :
    (x : ℤ) (t : Track) (ts : List Track) → x <ℤ t.start_lba → upper_bound x (t ∷ ts) ≡ 0
unfolding upper_bound
upper_bound-before x t ts h = ground arith

upper_bound-nil : (x : ℤ) → upper_bound x [] ≡ 0
unfolding upper_bound
upper_bound-nil x = refl

Found-here :
    (t : Track) (ts : List Track) (end x : ℤ)
    → t.length_frames ≡ end -ℤ t.start_lba
    → t.start_lba ≤ℤ x
    → x <ℤ end
    → Found (t ∷ ts) x 1
Found-here t ts end x e low high = record {
  at = 0;
  found = t;
  bound = refl;
  there = refl;
  starts = low;
  ends = rw e (omega int_laws);
}

-- In a table whose tracks follow one another, a frame from the first track's start to before the
-- lead-out lies in the track before the upper bound that the binary search gives.
pub upper_bound-Found :
    (n : ℤ) (ts : List Track) (leadout x : ℤ)
    → Contiguous n ts leadout
    → next_start ts leadout ≤ℤ x
    → x <ℤ leadout
    → Found ts x (upper_bound x ts)
upper_bound-Found n [] leadout x h low high = absurd (omega arith)
upper_bound-Found n (t ∷ []) leadout x h low high =
    rw (upper_bound-past x t [] low, upper_bound-nil x) (Found-here t [] leadout x h.3 low high)
upper_bound-Found n (t ∷ u ∷ ts) leadout x h low high = elim (Bool-cases (ltb_ℤ x u.start_lba)) [
  | inl inside ↦
      rw (upper_bound-past x t (u ∷ ts) low, upper_bound-before x u ts (ground arith))
        (Found-here t (u ∷ ts) u.start_lba x h.3 low (ground arith))
  | inr past ↦
      let f = upper_bound-Found (n +ℤ pos 1) (u ∷ ts) leadout x h.4 (ground arith) high in
      rw (upper_bound-past x t (u ∷ ts) low) (record {
        at = suc f.at;
        found = f.found;
        bound = ap suc f.bound;
        there = f.there;
        starts = f.starts;
        ends = f.ends;
      })
]

-- Found by number: an index whose track has it; none exists below the one found.
pub find_number-there :
    (n : ℤ) (ts : List Track)
    → find_number n ts ≢ length ts
    → (t : Track) × (get_elem? ts (find_number n ts) ≡ some t) × (t.number ≡ n)
unfolding find_number
find_number-there n [] h = absurd (h refl)
find_number-there n (t ∷ ts) h = elim (Bool-cases (t.number ==ℤ n)) [
  | inl hit ↦ rw hit (t, refl, ground arith)
  | inr miss ↦ rw miss (find_number-there n ts (λ e. h (rw miss (ap suc e))))
]

-- The comparison of load_disc accepts a table and its revalidation when these agree.
pub same_tracks_refl : (ts : List Track) → same_tracks ts ts ≡ true
same_tracks_refl [] = refl
same_tracks_refl (t ∷ ts) = ground (arith, same_tracks_refl ts)

-- The first track of a valid table.
pub record Front (toc : DiscToc) : Type 0 where
  pub track : Track
  pub there : get_elem? toc.tracks 0 ≡ some track
  pub starts_at : track.start_lba ≡ next_start toc.tracks toc.leadout_lba

tracks_Front :
    (ts : List Track) (leadout : ℤ)
    → ts ≢ []
    → Front (record { tracks = ts; leadout_lba = leadout })
tracks_Front [] leadout h = absurd (h refl)
tracks_Front (t ∷ ts) leadout h = record { track = t; there = refl; starts_at = refl }

pub front : (toc : DiscToc) (first : ℤ) → IsValid first toc → Front toc
front toc first v = tracks_Front toc.tracks toc.leadout_lba v.2
