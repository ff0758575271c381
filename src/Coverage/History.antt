-- ===== src/Coverage/History.antt =====
-- A stream's history of reads against the set of frames that its accepted reads returned.
use picdplayer.Prelude.{
  ℕ, ◌+◌, ◌-◌, ◌≤◌, ◌<◌, ◌≡◌, refl, Bool, true, false, not, ◌&&◌, ◌||◌, ◌⊎◌, inl, inr, List, [],
  ◌∷◌, ltb, leb, ◌==◌, Bool-cases, ℤ, pos, negsuc, pos_part, neg_part, length, drop, arith,
}
use picdplayer.Reader.{ReadResult, int32_max}
use picdplayer.Coverage.{
  Region, ReadCoverage, capacity, skip_before, absorb, place, observe_at, observe, is_accepted,
  empty_coverage,
}
use picdplayer.Coverage.Invariant.{Inv, place_lem, observe-Inv}
use picdplayer.Coverage.Frames.{
  inside, covered, covered-insert, count_below, count_below_mono, count_below-ext, total-count,
}

-- The frame `x` is among those that an accepted read returned.
abbrev pub returns_frame : ReadResult → ℕ → Bool
returns_frame r x =
    is_accepted r
    && leb (pos_part r.start_lba) (x + neg_part r.start_lba)
    && ltb (x + neg_part r.start_lba) (pos_part r.start_lba + r.frames_read)

abbrev pub any_returns_frame : List ReadResult → ℕ → Bool
any_returns_frame [] x = false
any_returns_frame (r ∷ rs) x = returns_frame r x || any_returns_frame rs x

pub observe_all : ReadCoverage → List ReadResult → ReadCoverage
observe_all c [] = c
observe_all c (r ∷ rs) = observe_all (observe c r) rs

-- What a step may do to the covered set, frame by frame.
pub record Adds (c d : ReadCoverage) (p : ℕ → Bool) : Type 0 where
  pub sound : (x : ℕ) → covered x d.regions ≡ true → (p x || covered x c.regions) ≡ true
  pub kept : (x : ℕ) → covered x c.regions ≡ true → covered x d.regions ≡ true
  pub exact : d.complete ≡ true → (x : ℕ) → covered x d.regions ≡ (p x || covered x c.regions)
  pub stays : c.complete ≡ false → d.complete ≡ false

frozen-Adds : (c : ReadCoverage) (p : ℕ → Bool) → Adds c (record c { complete = false }) p
frozen-Adds c p = record {
  sound = λ x h. ground arith;
  kept = λ x h. h;
  exact = λ h. cc;
  stays = λ h. refl;
}

place-Adds :
    (c : ReadCoverage) (m : Region)
    → Inv c
    → m.end ≤ int32_max
    → m.begin < m.end
    → Adds c (place c m) (λ x. inside x m)
place-Adds c m v fits full =
    elim (Bool-cases (
      ((absorb m (drop (skip_before m.begin c.regions) c.regions)).0 == 0)
      && (length c.regions == capacity))) [
        | inl frozen ↦ rw (place_lem c m v fits full, frozen) (frozen-Adds c (λ x. inside x m))
        | inr room ↦
            rw (place_lem c m v fits full, room)
              (record {
                sound = λ x h. ground (arith, covered-insert x 0 m c.regions full v.separated);
                kept = λ x h. ground (arith, covered-insert x 0 m c.regions full v.separated);
                exact = λ h x. covered-insert x 0 m c.regions full v.separated;
                stays = λ h. h;
              })
      ]

Adds-ext : (c d : ReadCoverage) (p q : ℕ → Bool) → ((x : ℕ) → p x ≡ q x) → Adds c d p → Adds c d q
Adds-ext c d p q e a = record {
  sound = λ x h. ground (arith, e x, a.sound x);
  kept = a.kept;
  exact = λ h x. ground (arith, e x, a.exact h x);
  stays = a.stays;
}

unchanged-Adds :
    (c : ReadCoverage) (p : ℕ → Bool)
    → ((c.complete ≡ false) ⊎ ((x : ℕ) → p x ≡ false))
    → Adds c c p
unchanged-Adds c p why = record {
  sound = λ x h. ground arith;
  kept = λ x h. h;
  exact = λ h x. elim why [ inl f ↦ cc | inr f ↦ ground (arith, f x) ];
  stays = λ h. h;
}

observe_at-Adds :
    (c : ReadCoverage) (s : ℤ) (n : ℕ)
    → Inv c
    → (n == 0) ≡ false
    → Adds c
        (observe_at c s n)
        (λ x. leb (pos_part s) (x + neg_part s) && ltb (x + neg_part s) (pos_part s + n))
unfolding observe_at
observe_at-Adds c (negsuc k) n v some = frozen-Adds c _
observe_at-Adds c (pos s) n v some = elim (Bool-cases (ltb (int32_max - s) n)) [
  | inl beyond ↦ rw beyond (frozen-Adds c _)
  | inr fits ↦ rw fits (
      Adds-ext c (place c (record { begin = s; end = s + n })) _ _ (λ x. ground arith)
        (place-Adds c (record { begin = s; end = s + n }) v (ground arith) (ground arith)))
]

-- Every read adds its frames, or freezes the lower bound, or changes nothing.
pub observe-Adds :
    (c : ReadCoverage) (r : ReadResult) → Inv c → Adds c (observe c r) (λ x. returns_frame r x)
unfolding observe
observe-Adds c r v =
    elim (Bool-cases (not c.complete || not (is_accepted r) || (r.frames_requested == 0))) [
      | inl ignored ↦ rw ignored (
          unchanged-Adds c _ (elim (Bool-cases c.complete) [
            | inl whole ↦ inr (λ x. ground arith)
            | inr froze ↦ inl froze
          ]))
      | inr taken ↦ rw taken (
          Adds-ext c _ _ _ (λ x. ground arith)
            (observe_at-Adds c r.start_lba r.frames_read v (ground arith)))
    ]

Adds-trans :
    (c d e : ReadCoverage) (p q : ℕ → Bool) → Adds c d p → Adds d e q → Adds c e (λ x. p x || q x)
Adds-trans c d e p q a b = record {
  sound = λ x h. ground (arith, a.sound x, b.sound x h);
  kept = λ x h. b.kept x (a.kept x h);
  exact = λ h x. elim (Bool-cases d.complete) [
    | inl whole ↦ ground (arith, a.exact whole x, b.exact h x)
    | inr froze ↦ ground (arith, b.stays froze)
  ];
  stays = λ h. b.stays (a.stays h);
}

observe_all-Inv : (c : ReadCoverage) (rs : List ReadResult) → Inv c → Inv (observe_all c rs)
unfolding observe_all
observe_all-Inv c [] v = v
observe_all-Inv c (r ∷ rs) v = observe_all-Inv (observe c r) rs (observe-Inv c r v)

observe_all-Adds :
    (c : ReadCoverage) (rs : List ReadResult)
    → Inv c
    → Adds c (observe_all c rs) (λ x. any_returns_frame rs x)
unfolding observe_all
observe_all-Adds c [] v = unchanged-Adds c _ (inr (λ x. refl))
observe_all-Adds c (r ∷ rs) v =
    Adds-trans c (observe c r) _ _ _ (observe-Adds c r v)
      (observe_all-Adds (observe c r) rs (observe-Inv c r v))

empty-Inv : Inv empty_coverage
empty-Inv = record { separated = tt; bounded = omega arith; counted = refl }

-- From the empty coverage of a new stream, over any history of reads: the region count never passes
-- the capacity, the count of unique frames is at most the number of frames below 2 ^ 31 - 1 that
-- some accepted read returned, and it is that number as long as `complete` is set.
pub observe_all-counts :
    (rs : List ReadResult)
    → let c = observe_all empty_coverage rs in
      (length c.regions ≤ capacity)
      × (c.accepted_unique_frames ≤ count_below int32_max (λ x. any_returns_frame rs x))
      × (c.complete ≡ true
          → c.accepted_unique_frames ≡ count_below int32_max (λ x. any_returns_frame rs x))
observe_all-counts rs = (
  v.bounded,
  rw (v.counted, total-count 0 _ v.separated)
      (count_below_mono int32_max _ _ (λ x h. ground (arith, a.sound x h))),
  λ h.
      rw (v.counted, total-count 0 _ v.separated)
        (count_below-ext int32_max _ _ (λ x. ground (arith, a.exact h x))),
)
  where
    v : Inv (observe_all empty_coverage rs)
    v = observe_all-Inv empty_coverage rs empty-Inv

    a : Adds empty_coverage (observe_all empty_coverage rs) (λ x. any_returns_frame rs x)
    a = observe_all-Adds empty_coverage rs empty-Inv
