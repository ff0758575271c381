-- ===== src/DiscMap/Merge.antt =====
-- The merging loop of DiscReadMap::observe: what it keeps, and that it ends with nothing to merge.
use mathlib.Core.Path.{subst}
use picdplayer.Prelude.{
  ℕ, zero, suc, ◌≤◌, ◌<◌, ◌≡◌, refl, ap, ◌∙◌, Bool, true, false, ◌&&◌, ◌||◌, ◌⊎◌, inl, inr, Option,
  none, some, List, [], ◌∷◌, ltb, leb, ◌==◌, length, arith, Bool-cases, Option-cases,
}
use picdplayer.DiscMap.{Region, touches, union, put_second, behind, fill, pick, merge_loop}

-- The region says `flags` of the frame `x`.
abbrev pub says : ℕ → ℕ → Region → Bool
says x flags r = (r.flags == flags) && leb r.begin x && ltb x r.end

abbrev pub said : ℕ → ℕ → List Region → Bool
said x flags [] = false
said x flags (r ∷ rs) = says x flags r || said x flags rs

-- No region of the list touches `m`.
abbrev pub Untouched : Region → List Region → Type 0
Untouched m [] = Unit {0}
Untouched m (r ∷ rs) = (touches m r ≡ false) × Untouched m rs

-- No two regions with the same flags touch.
abbrev pub Apart : List Region → Type 0
Apart [] = Unit {0}
Apart (r ∷ rs) = Untouched r rs × Apart rs

-- Every region is a nonempty interval.
abbrev pub Filled : List Region → Type 0
Filled [] = Unit {0}
Filled (r ∷ rs) = (r.begin < r.end) × Filled rs

touches_sym : (m r : Region) → touches m r ≡ false → touches r m ≡ false
touches_sym m r h = ground arith

put_second-said :
    (x f : ℕ) (r : Region) (rs : List Region)
    → said x f (put_second r rs) ≡ (says x f r || said x f rs)
put_second-said x f r [] = refl
put_second-said x f r (l ∷ rs) = ground arith

fill-said : (x f : ℕ) (rs : List Region) → said x f (fill rs) ≡ said x f rs
unfolding fill
fill-said x f [] = refl
fill-said x f (r ∷ rs) = ground (arith, put_second-said x f r (fill rs), fill-said x f rs)

fill-length : (rs : List Region) → length (fill rs) ≡ length rs
unfolding fill
fill-length [] = refl
fill-length (r ∷ rs) = put_length r (fill rs) ∙ ap suc (fill-length rs)
  where
    put_length : (r : Region) (rs : List Region) → length (put_second r rs) ≡ suc (length rs)
    put_length r [] = refl
    put_length r (l ∷ rs) = refl

fill-Untouched : (m : Region) (rs : List Region) → Untouched m rs → Untouched m (fill rs)
unfolding fill
fill-Untouched m [] u = tt
fill-Untouched m (r ∷ rs) u = put r (fill rs) u.0 (fill-Untouched m rs u.1)
  where
    put :
        (r : Region) (rs : List Region)
        → touches m r ≡ false
        → Untouched m rs
        → Untouched m (put_second r rs)
    put r [] h u = (h, tt)
    put r (l ∷ rs) h u = (u.0, (h, u.1))

fill-Apart : (rs : List Region) → Apart rs → Apart (fill rs)
unfolding fill
fill-Apart [] a = tt
fill-Apart (r ∷ rs) a = put r (fill rs) (fill-Untouched r rs a.0) (fill-Apart rs a.1)
  where
    put : (r : Region) (rs : List Region) → Untouched r rs → Apart rs → Apart (put_second r rs)
    put r [] u a = (tt, tt)
    put r (l ∷ rs) u a = ((touches_sym r l u.0, a.0), (u.1, a.1))

fill-Filled : (rs : List Region) → Filled rs → Filled (fill rs)
unfolding fill
fill-Filled [] a = tt
fill-Filled (r ∷ rs) a = put r (fill rs) a.0 (fill-Filled rs a.1)
  where
    put : (r : Region) (rs : List Region) → r.begin < r.end → Filled rs → Filled (put_second r rs)
    put r [] u a = (u, tt)
    put r (l ∷ rs) u a = (a.0, (u, a.1))

-- What picking does: nothing touches, or a touching region leaves the list.
pub record Picked (m : Region) (rs : List Region) (q : Region) (rest : List Region) : Type 0 where
  pub touching : touches m q ≡ true
  pub shorter : suc (length rest) ≡ length rs
  pub same : (x f : ℕ) → said x f rs ≡ (says x f q || said x f rest)
  pub apart : Apart rs → Apart rest
  pub filled : Filled rs → (q.begin < q.end) × Filled rest
  pub untouched : (n : Region) → Untouched n rs → Untouched n rest

abbrev pub Picks : Region → List Region → Option (Region × List Region) → Type 0
Picks m rs none = Untouched m rs
Picks m rs (some (q, rest)) = Picked m rs q rest

behind-Picks :
    (m r : Region) (rs : List Region) (o : Option (Region × List Region))
    → touches m r ≡ false
    → Picks m rs o
    → Picks m (r ∷ rs) (behind r o)
behind-Picks m r rs none miss p = (miss, p)
behind-Picks m r rs (some (q, rest)) miss p = record {
  touching = p.touching;
  shorter = ap suc p.shorter;
  same = λ x f. ground (arith, p.same x f);
  apart = λ a. (p.untouched r a.0, p.apart a.1);
  filled = λ a. let (u, v) = p.filled a.1 in (u, (a.0, v));
  untouched = λ n u. (u.0, p.untouched n u.1);
}

pub pick-Picks : (m : Region) (rs : List Region) → Picks m rs (pick m rs)
unfolding pick
pick-Picks m [] = tt
pick-Picks m (r ∷ rs) = elim (Bool-cases (touches m r)) [
  | inl hit ↦ rw hit (record {
    touching = hit;
    shorter = ap suc (fill-length rs);
    same = λ x f. ground (arith, fill-said x f rs);
    apart = λ a. fill-Apart rs a.1;
    filled = λ a. (a.0, fill-Filled rs a.1);
    untouched = λ n u. fill-Untouched n rs u.1;
  })
  | inr miss ↦ rw miss (behind-Picks m r rs (pick m rs) miss (pick-Picks m rs))
]

-- What the loop does to a nonempty region and a list whose equal-flag regions do not touch.
pub record Merged (m : Region) (rs : List Region) (r : Region × List Region) : Type 0 where
  pub untouched : Untouched r.0 r.1
  pub apart : Apart r.1
  pub filled : (r.0.begin < r.0.end) × Filled r.1
  pub same : (x f : ℕ) → (says x f r.0 || said x f r.1) ≡ (says x f m || said x f rs)
  pub flags : r.0.flags ≡ m.flags
  -- Either nothing was merged, or a region was taken away.
  pub size : ((r.1 ≡ rs) × (r.0 ≡ m)) ⊎ (length r.1 < length rs)

union-says :
    (x f : ℕ) (m q : Region)
    → m.begin < m.end
    → q.begin < q.end
    → touches m q ≡ true
    → says x f (union m q) ≡ (says x f m || says x f q)
union-says x f m q a b t = ground arith

union-filled : (m q : Region) → m.begin < m.end → (union m q).begin < (union m q).end
union-filled m q a = omega arith

Merged-step :
    (m q : Region) (rs rest : List Region) (r : Region × List Region)
    → m.begin < m.end
    → Filled rs
    → Picked m rs q rest
    → Merged (union m q) rest r
    → Merged m rs r
Merged-step m q rs rest r full filled p g = record {
  untouched = g.untouched;
  apart = g.apart;
  filled = g.filled;
  same = λ x f.
      ground
        (arith, g.same x f, p.same x f, union-says x f m q full (p.filled filled).0 p.touching);
  flags = g.flags;
  size = inr (elim g.size [
    | inl (e, _) ↦ omega (arith, p.shorter, ap (λ l. length l) e)
    | inr less ↦ omega (arith, p.shorter)
  ]);
}

-- With as much fuel as regions, from a nonempty region and a list whose regions are nonempty and whose
-- equal-flag regions do not touch, the loop ends because nothing with the same flags touches the
-- merged region any more, and the merged region and the list left say of each frame what was said.
pub merge_loop-Merged :
    (fuel : ℕ) (m : Region) (rs : List Region)
    → length rs ≤ fuel
    → m.begin < m.end
    → Apart rs
    → Filled rs
    → Merged m rs (merge_loop fuel m rs)
unfolding merge_loop
merge_loop-Merged zero m [] h full apart filled = record {
  untouched = tt;
  apart = tt;
  filled = (full, tt);
  same = λ x f. refl;
  flags = refl;
  size = inl (refl, refl);
}
merge_loop-Merged zero m (r ∷ rs) h full apart filled = absurd (omega arith)
merge_loop-Merged (suc fuel) m rs h full apart filled = elim (Option-cases (pick m rs)) [
  | inl nothing ↦
      rw (nothing, merge_loop)
        (record {
          untouched = subst (Picks m rs) nothing (pick-Picks m rs);
          apart = apart;
          filled = (full, filled);
          same = λ x f. refl;
          flags = refl;
          size = inl (refl, refl);
        })
  | inr ((q, rest), found) ↦
      let p : Picked m rs q rest = subst (Picks m rs) found (pick-Picks m rs) in
      rw (found, merge_loop)
        (Merged-step m q rs rest _ full filled p (
          merge_loop-Merged fuel (union m q) rest (omega (arith, p.shorter)) (union-filled m q full)
            (p.apart apart) (p.filled filled).1))
]
