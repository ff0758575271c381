-- ===== src/Coverage.antt =====
-- ReadCoverage of include/integrity_state.hpp and src/integrity_state.cpp: the union of the accepted
-- CD-frame intervals of one stream, in a fixed memory of 128 regions.
-- `regions` is the used prefix of the source's array, so `size` is its length. A begin or an end is
-- never negative: a read with a negative start is refused before a region is made.
pub mod Splice
pub mod Invariant
pub mod Frames
pub mod History
use picdplayer.Prelude.{
  ℕ, suc, ◌+◌, ◌-◌, ◌*◌, ◌%◌, ◌^◌, Bool, true, false, not, ◌&&◌, ◌||◌, List, [], ◌∷◌, ◌++◌, ℤ, pos,
  negsuc, ltb, leb, ◌==◌, if◌then◌else◌, length, take, drop, min, max,
}
use picdplayer.Reader.{ReadResult, is_ok, int32_max, add64}

pub record Region : Type 0 where
  pub begin : ℕ
  pub end : ℕ

pub record ReadCoverage : Type 0 where
  pub regions : List Region
  pub accepted_unique_frames : ℕ
  pub complete : Bool

abbrev pub capacity : ℕ
capacity = 128

abbrev pub empty_coverage : ReadCoverage
empty_coverage = record { regions = []; accepted_unique_frames = 0; complete = true }

-- std::uint64_t subtraction of a value below 2 ^ 64.
abbrev pub sub64 : ℕ → ℕ → ℕ
sub64 a b = (a + 2 ^ 64 - b) % 2 ^ 64

-- `first`: the regions that end before the new one begins.
pub skip_before : ℕ → List Region → ℕ
skip_before b [] = 0
skip_before b (r ∷ rs) = let rest = skip_before b rs in if ltb r.end b then suc rest else 0

abbrev pub union : Region → Region → Region
union m r = record { begin = min m.begin r.begin; end = max m.end r.end }

-- `last - first`, and the merged region: the regions from `first` on that touch it.
pub absorb : Region → List Region → ℕ × Region
absorb m [] = (0, m)
absorb m (r ∷ rs) =
    let (n, merged) = absorb (union m r) rs in if leb r.begin m.end then (suc n, merged) else (0, m)

-- The loop that takes the absorbed regions off the count.
pub uncount : ℕ → List Region → ℕ
uncount n [] = n
uncount n (r ∷ rs) = uncount (sub64 n (r.end - r.begin)) rs

-- Write the merged region over the absorbed ones, or insert it when there are none.
pub place : ReadCoverage → Region → ReadCoverage
unfolding skip_before absorb uncount
place c m =
    let first = skip_before m.begin c.regions in
    let (absorbed, merged) = absorb m (drop first c.regions) in
    if (absorbed == 0) && (length c.regions == capacity)
    then record c { complete = false }
    else record c {
      regions = take first c.regions ++ (merged ∷ drop absorbed (drop first c.regions));
      accepted_unique_frames =
          add64 (uncount c.accepted_unique_frames (take absorbed (drop first c.regions)))
            (merged.end - merged.begin);
    }

-- The range check on the start, an int32_t.
pub observe_at : ReadCoverage → ℤ → ℕ → ReadCoverage
unfolding place
observe_at c (negsuc _) frames = record c { complete = false }
observe_at c (pos start) frames =
    if ltb (int32_max - start) frames
    then record c { complete = false }
    else place c (record { begin = start; end = start + frames })

-- A read that succeeded with all the frames it asked for.
abbrev pub is_accepted : ReadResult → Bool
is_accepted r = is_ok r.status && (r.frames_read == r.frames_requested)

pub observe : ReadCoverage → ReadResult → ReadCoverage
unfolding observe_at
observe c r =
    if not c.complete || not (is_accepted r) || (r.frames_requested == 0)
    then c
    else observe_at c r.start_lba r.frames_read
