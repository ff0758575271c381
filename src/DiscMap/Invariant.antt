-- ===== src/DiscMap/Invariant.antt =====
-- What holds of the map between two observations, and what an observation adds to it.
use picdplayer.Prelude.{
  ℕ, ◌≤◌, ◌<◌, ◌≡◌, refl, ap, ◌∙◌, Bool, true, false, ◌||◌, inl, inr, List, [], ◌∷◌, ◌++◌, ◌==◌,
  length, length-append, arith, Bool-cases,
}
use picdplayer.DiscMap.{Region, DiscReadMap, capacity, touches, merge_loop, place, revision_max}
use picdplayer.DiscMap.Merge.{says, said, Untouched, Apart, Filled, Merged, merge_loop-Merged}

pub record Inv (d : DiscReadMap) : Type 0 where
  pub apart : Apart d.regions
  pub filled : Filled d.regions
  pub bounded : length d.regions ≤ capacity
  pub counted : d.revision ≤ revision_max

-- What a step may do: `p x f` tells whether the new read says the flags `f` of the frame `x`.
pub record Adds (c d : DiscReadMap) (p : ℕ → ℕ → Bool) : Type 0 where
  pub sound : (x f : ℕ) → said x f d.regions ≡ true → (p x f || said x f c.regions) ≡ true
  pub kept : (x f : ℕ) → said x f c.regions ≡ true → said x f d.regions ≡ true
  pub exact : d.complete ≡ true → (x f : ℕ) → said x f d.regions ≡ (p x f || said x f c.regions)
  pub stays : c.complete ≡ false → d.complete ≡ false

touches_sym : (m r : Region) → touches m r ≡ false → touches r m ≡ false
touches_sym m r h = ground arith

append-Untouched :
    (n m : Region) (rs : List Region)
    → Untouched n rs
    → touches n m ≡ false
    → Untouched n (rs ++ (m ∷ []))
append-Untouched n m [] u h = (h, tt)
append-Untouched n m (r ∷ rs) u h = (u.0, append-Untouched n m rs u.1 h)

append-Apart : (m : Region) (rs : List Region) → Untouched m rs → Apart rs → Apart (rs ++ (m ∷ []))
append-Apart m [] u a = (tt, tt)
append-Apart m (r ∷ rs) u a =
    (append-Untouched r m rs a.0 (touches_sym m r u.0), append-Apart m rs u.1 a.1)

append-Filled :
    (m : Region) (rs : List Region) → m.begin < m.end → Filled rs → Filled (rs ++ (m ∷ []))
append-Filled m [] h a = (h, tt)
append-Filled m (r ∷ rs) h a = (a.0, append-Filled m rs h a.1)

append-said :
    (x f : ℕ) (m : Region) (rs : List Region)
    → said x f (rs ++ (m ∷ [])) ≡ (says x f m || said x f rs)
append-said x f m [] = refl
append-said x f m (r ∷ rs) = ground (arith, append-said x f m rs)

pub frozen-Inv : (d : DiscReadMap) → Inv d → Inv (record d { complete = false })
frozen-Inv d v = record {
  apart = v.apart;
  filled = v.filled;
  bounded = v.bounded;
  counted = v.counted;
}

pub frozen-Adds : (d : DiscReadMap) (p : ℕ → ℕ → Bool) → Adds d (record d { complete = false }) p
frozen-Adds d p = record {
  sound = λ x f h. ground arith;
  kept = λ x f h. h;
  exact = λ h. cc;
  stays = λ h. refl;
}

module _ (d : DiscReadMap) (m : Region) (v : Inv d) (full : m.begin < m.end) where
  abbrev r : Region × List Region
  r = merge_loop (length d.regions) m d.regions

  g : Merged m d.regions r
  g = merge_loop-Merged (length d.regions) m d.regions (omega arith) full v.apart v.filled

  -- With the memory full after the loop, the loop has merged nothing.
  full_unchanged : (length r.1 == capacity) ≡ true → r.1 ≡ d.regions
  full_unchanged h = elim g.size [ inl (e, _) ↦ e | inr less ↦ absurd (ground (arith, v.bounded)) ]

  room : (length r.1 == capacity) ≡ false → length r.1 < capacity
  room h = elim g.size [
    | inl (e, _) ↦ ground (arith, v.bounded, ap (λ l. length l) e)
    | inr less ↦ omega (arith, v.bounded)
  ]

  pub place-Inv : Inv (place d m)
  unfolding place
  place-Inv = elim (Bool-cases (length r.1 == capacity)) [
    | inl h ↦ rw (h, full_unchanged h) (frozen-Inv d v)
    | inr h ↦ rw h (record {
      apart = append-Apart r.0 r.1 g.untouched g.apart;
      filled = append-Filled r.0 r.1 g.filled.0 g.filled.1;
      bounded = omega (arith, length-append r.1 (r.0 ∷ []), room h);
      counted = v.counted;
    })
  ]

  pub place-Adds : Adds d (place d m) (λ x f. says x f m)
  unfolding place
  place-Adds = elim (Bool-cases (length r.1 == capacity)) [
    | inl h ↦ rw (h, full_unchanged h) (frozen-Adds d (λ x f. says x f m))
    | inr h ↦ rw h (record {
      sound = λ x f t. ground (arith, append-said x f r.0 r.1, g.same x f);
      kept = λ x f t. ground (arith, append-said x f r.0 r.1, g.same x f);
      exact = λ t x f. append-said x f r.0 r.1 ∙ g.same x f;
      stays = λ t. t;
    })
  ]
