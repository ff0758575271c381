-- ===== src/Coverage/Invariant.antt =====
-- What holds of the regions between two observations: sorted, nonempty, never touching, and counted.
use picdplayer.Prelude.{
  ℕ, suc, ◌+◌, ◌-◌, ◌^◌, ◌≤◌, ◌<◌, ◌≡◌, refl, ap, ◌∙◌, false, ◌&&◌, inl, inr, List, [], ◌∷◌, ◌++◌,
  ltb, ◌==◌, if◌then◌else◌, Bool-cases, ℤ, pos, negsuc, length, take, drop, arith,
}
use picdplayer.Reader.{ReadResult, int32_max, add64}
use picdplayer.Coverage.{
  Region, ReadCoverage, union, skip_before, absorb, uncount, sub64, place, capacity, observe_at,
  observe,
}
use picdplayer.Coverage.Splice.{merge, insert, splice-insert, length-insert}

-- Each region begins at `lo` or later, is not empty, and ends before the next one begins with a gap.
abbrev pub Separated : ℕ → List Region → Type 0
Separated lo [] = Unit {0}
Separated lo (r ∷ rs) =
    (lo ≤ r.begin) × (r.begin < r.end) × (r.end ≤ int32_max) × Separated (suc r.end) rs

abbrev pub total : List Region → ℕ
total [] = 0
total (r ∷ rs) = (r.end - r.begin) + total rs

pub record Inv (c : ReadCoverage) : Type 0 where
  pub separated : Separated 0 c.regions
  pub bounded : length c.regions ≤ capacity
  pub counted : c.accepted_unique_frames ≡ total c.regions

Separated-le : (lo lo' : ℕ) (rs : List Region) → lo' ≤ lo → Separated lo rs → Separated lo' rs
Separated-le lo lo' [] h s = tt
Separated-le lo lo' (r ∷ rs) h s = (omega arith, s.1, s.2, s.3)

merge-Separated :
    (lo lo' : ℕ) (m : Region) (rs : List Region)
    → lo ≤ m.begin
    → m.begin < m.end
    → m.end ≤ int32_max
    → lo ≤ lo'
    → Separated lo' rs
    → Separated lo (merge m rs)
unfolding merge
merge-Separated lo lo' m [] a b c d s = (a, b, c, tt)
merge-Separated lo lo' m (r ∷ rs) a b c d s =
    ground (arith, merge-Separated lo (suc r.end) (union m r) rs)

pub insert-Separated :
    (lo : ℕ) (m : Region) (rs : List Region)
    → lo ≤ m.begin
    → m.begin < m.end
    → m.end ≤ int32_max
    → Separated lo rs
    → Separated lo (insert m rs)
unfolding insert
insert-Separated lo m [] a b c s = (a, b, c, tt)
insert-Separated lo m (r ∷ rs) a b c s = elim (Bool-cases (ltb r.end m.begin)) [
  | inl before ↦ rw before (s.0, s.1, s.2, insert-Separated (suc r.end) m rs (ground arith) b c s.3)
  | inr touches ↦ rw touches (merge-Separated lo lo m (r ∷ rs) a b c (omega arith) s)
]

pub total-append : (xs ys : List Region) → total (xs ++ ys) ≡ total xs + total ys
total-append [] ys = omega arith
total-append (r ∷ xs) ys = omega (arith, total-append xs ys)

total-take-drop : (n : ℕ) (xs : List Region) → total (take n xs) + total (drop n xs) ≡ total xs
total-take-drop Prim.Native.Nat.zero xs = omega arith
total-take-drop (suc n) [] = omega arith
total-take-drop (suc n) (r ∷ xs) = omega (arith, total-take-drop n xs)

-- Separated regions below 2 ^ 31 have a total below it, so the 64-bit count never wraps.
pub total-le :
    (lo : ℕ) (rs : List Region)
    → lo ≤ suc int32_max
    → Separated lo rs
    → total rs + lo ≤ suc int32_max
total-le lo [] h s = omega arith
total-le lo (r ∷ rs) h s = omega (arith, total-le (suc r.end) rs (omega arith) s.3)

uncount-total : (n : ℕ) (rs : List Region) → n < 2 ^ 64 → total rs ≤ n → uncount n rs ≡ n - total rs
unfolding uncount
uncount-total n [] h k = omega arith
uncount-total n (r ∷ rs) h k =
    let fewer : sub64 n (r.end - r.begin) ≡ n - (r.end - r.begin) = omega arith in
    rw fewer (uncount-total (n - (r.end - r.begin)) rs (omega arith) (omega arith) ∙ omega arith)

module _ (c : ReadCoverage) (m : Region) (v : Inv c) (fits : m.end ≤ int32_max)
    (full : m.begin < m.end) where
  first : ℕ
  first = skip_before m.begin c.regions

  touching : List Region
  touching = drop first c.regions

  inserted_total : total (insert m c.regions) ≤ suc int32_max
  inserted_total = omega (
    arith,
    total-le 0 (insert m c.regions) (omega arith)
        (insert-Separated 0 m c.regions (omega arith) full fits v.separated),
  )

  place_counted :
      add64
        (uncount c.accepted_unique_frames (take (absorb m touching).0 touching))
        ((absorb m touching).1.end - (absorb m touching).1.begin)
      ≡ total (insert m c.regions)
  unfolding touching first
  place_counted =
      rw
        (
          v.counted,
          uncount-total (total c.regions) (take (absorb m touching).0 touching)
              (omega (arith, total-le 0 c.regions (omega arith) v.separated))
              (omega (
                arith,
                total-take-drop first c.regions,
                total-take-drop (absorb m touching).0 touching,
              )),
        )
        (omega (
          arith,
          ap total (splice-insert m c.regions),
          total-append (take first c.regions)
              ((absorb m touching).1 ∷ drop (absorb m touching).0 touching),
          total-take-drop first c.regions,
          total-take-drop (absorb m touching).0 touching,
          inserted_total,
        ))

  -- For a nonempty region below the largest LBA and a coverage that satisfies the invariant, the
  -- search, the shifts of the array and the 64-bit count are one insertion into the list of
  -- separated regions, whose total is the count; a region that touches none of 128 only clears
  -- `complete`.
  pub place_lem : place c m ≡ (
      if ((absorb m (drop (skip_before m.begin c.regions) c.regions)).0 == 0)
        && (length c.regions == capacity)
      then record c { complete = false }
      else record c {
        regions = insert m c.regions;
        accepted_unique_frames = total (insert m c.regions);
      })
  unfolding place first touching
  place_lem = rw (splice-insert m c.regions, place_counted)

  inserted-Inv :
      ((absorb m (drop (skip_before m.begin c.regions) c.regions)).0 == 0)
          && (length c.regions == capacity)
        ≡ false
      → Inv (record c {
        regions = insert m c.regions;
        accepted_unique_frames = total (insert m c.regions);
      })
  inserted-Inv room = record {
    separated = insert-Separated 0 m c.regions (omega arith) full fits v.separated;
    bounded = ground (arith, length-insert m c.regions, v.bounded);
    counted = refl;
  }

  pub place-Inv : Inv (place c m)
  place-Inv =
      elim (Bool-cases (
        ((absorb m (drop (skip_before m.begin c.regions) c.regions)).0 == 0)
        && (length c.regions == capacity))) [
          | inl frozen ↦
              rw (place_lem, frozen)
                (record { separated = v.separated; bounded = v.bounded; counted = v.counted })
          | inr room ↦ rw (place_lem, room) (inserted-Inv room)
        ]

observe_at-Inv :
    (c : ReadCoverage) (s : ℤ) (n : ℕ) → (n == 0) ≡ false → Inv c → Inv (observe_at c s n)
unfolding observe_at
observe_at-Inv c (negsuc _) n some v = record {
  separated = v.separated;
  bounded = v.bounded;
  counted = v.counted;
}
observe_at-Inv c (pos s) n some v = elim (Bool-cases (ltb (int32_max - s) n)) [
  | inl beyond ↦
      rw beyond (record { separated = v.separated; bounded = v.bounded; counted = v.counted })
  | inr fits ↦
      rw fits (place-Inv c (record { begin = s; end = s + n }) v (ground arith) (ground arith))
]

-- Every read result keeps the invariant.
pub observe-Inv : (c : ReadCoverage) (r : ReadResult) → Inv c → Inv (observe c r)
unfolding observe
observe-Inv c r v = ground (arith, observe_at-Inv c r.start_lba r.frames_read)
