-- ===== src/Coverage/Splice.antt =====
-- The array surgery of ReadCoverage::observe as one recursion over the regions.
use picdplayer.Prelude.{
  suc, ◌+◌, ◌≡◌, refl, ap, inl, inr, List, [], ◌∷◌, ◌++◌, ltb, leb, if◌then◌else◌, Bool-cases,
  length, take, drop, arith,
}
use picdplayer.Coverage.{Region, union, skip_before, absorb}

-- Merge `m` into regions of which none ends before `m` begins.
unfoldable pub merge : Region → List Region → List Region
merge m [] = m ∷ []
merge m (r ∷ rs) = let rest = merge (union m r) rs in if leb r.begin m.end then rest else m ∷ r ∷ rs

unfoldable pub insert : Region → List Region → List Region
unfolding merge
insert m [] = m ∷ []
insert m (r ∷ rs) =
    let rest = r ∷ insert m rs in if ltb r.end m.begin then rest else merge m (r ∷ rs)

-- The loop over `last` computes the merge.
pub absorb-merge :
    (m : Region) (rs : List Region) → (absorb m rs).1 ∷ drop (absorb m rs).0 rs ≡ merge m rs
unfolding absorb merge
absorb-merge m [] = refl
absorb-merge m (r ∷ rs) = ground (arith, absorb-merge (union m r) rs)

pub splice-insert :
    (m : Region) (rs : List Region)
    → let first = skip_before m.begin rs in
      take first rs
        ++ ((absorb m (drop first rs)).1 ∷ drop (absorb m (drop first rs)).0 (drop first rs))
      ≡ insert m rs
unfolding skip_before insert
splice-insert m [] = absorb-merge m []
splice-insert m (r ∷ rs) = elim (Bool-cases (ltb r.end m.begin)) [
  | inl before ↦ rw before (ap (◌∷◌ r) (splice-insert m rs))
  | inr touches ↦ rw touches (absorb-merge m (r ∷ rs))
]

-- Where a region is absorbed the list does not grow; else it grows by one.
pub length-merge :
    (m : Region) (rs : List Region) → length (merge m rs) + (absorb m rs).0 ≡ suc (length rs)
unfolding merge absorb
length-merge m [] = omega arith
length-merge m (r ∷ rs) = ground (arith, length-merge (union m r) rs)

pub length-insert :
    (m : Region) (rs : List Region)
    → length (insert m rs) + (absorb m (drop (skip_before m.begin rs) rs)).0 ≡ suc (length rs)
unfolding insert skip_before
length-insert m [] = length-merge m []
length-insert m (r ∷ rs) = elim (Bool-cases (ltb r.end m.begin)) [
  | inl before ↦ rw before (omega (arith, length-insert m rs))
  | inr touches ↦ rw touches (length-merge m (r ∷ rs))
]
