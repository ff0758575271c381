-- ===== src/DiscMap/History.antt =====
-- The map of a disc generation against the history of its reads.
use picdplayer.Prelude.{
  ℕ, ◌+◌, ◌-◌, ◌≤◌, ◌≡◌, ◌≢◌, refl, sym, ◌∙◌, Bool, true, false, not, ◌&&◌, ◌||◌, inl, inr, List,
  [], ◌∷◌, ℤ, pos, negsuc, pos_part, neg_part, ltb, leb, ◌==◌, length, arith, Bool-cases,
}
use picdplayer.Reader.{ReadResult, int32_max}
use picdplayer.DiscMap.{DiscReadMap, capacity, flags_of, place, observe_at, observe, revision_max}
use picdplayer.DiscMap.Merge.{said, Apart}
use picdplayer.DiscMap.Invariant.{Inv, Adds, place-Inv, place-Adds, frozen-Inv, frozen-Adds}

-- The read says the flags `f` of the requested frame `x`.
abbrev pub reports : ReadResult → ℕ → ℕ → Bool
reports r x f =
    (flags_of r == f)
    && leb (pos_part r.start_lba) (x + neg_part r.start_lba)
    && ltb (x + neg_part r.start_lba) (pos_part r.start_lba + r.frames_requested)

abbrev pub any_reports : List ReadResult → ℕ → ℕ → Bool
any_reports [] x f = false
any_reports (r ∷ rs) x f = reports r x f || any_reports rs x f

pub observe_all : DiscReadMap → List ReadResult → DiscReadMap
observe_all d [] = d
observe_all d (r ∷ rs) = observe_all (observe d r) rs

-- `disc_map_ = {}; disc_map_.disc_generation = generation`
abbrev pub new_map : ℕ → DiscReadMap
new_map generation = record {
  regions = [];
  disc_generation = generation;
  revision = 0;
  complete = true;
}

Adds-ext :
    (c d : DiscReadMap) (p q : ℕ → ℕ → Bool) → ((x f : ℕ) → p x f ≡ q x f) → Adds c d p → Adds c d q
Adds-ext c d p q e a = record {
  sound = λ x f h. ground (arith, e x f, a.sound x f);
  kept = a.kept;
  exact = λ h x f. ground (arith, e x f, a.exact h x f);
  stays = a.stays;
}

Adds-trans :
    (c d e : DiscReadMap) (p q : ℕ → ℕ → Bool)
    → Adds c d p
    → Adds d e q
    → Adds c e (λ x f. p x f || q x f)
Adds-trans c d e p q a b = record {
  sound = λ x f h. ground (arith, a.sound x f, b.sound x f h);
  kept = λ x f h. b.kept x f (a.kept x f h);
  exact = λ h x f. elim (Bool-cases d.complete) [
    | inl whole ↦ ground (arith, a.exact whole x f, b.exact h x f)
    | inr froze ↦ ground (arith, b.stays froze)
  ];
  stays = λ h. b.stays (a.stays h);
}

-- An observation that is dropped because the map is frozen.
frozen_before-Adds : (d : DiscReadMap) (p : ℕ → ℕ → Bool) → d.complete ≡ false → Adds d d p
frozen_before-Adds d p f = record {
  sound = λ x g h. ground arith;
  kept = λ x g h. h;
  exact = λ h x g. cc;
  stays = λ h. h;
}

at-Inv : (d : DiscReadMap) (s : ℤ) (r : ReadResult) → Inv d → Inv (observe_at d s r)
unfolding observe_at
at-Inv d (negsuc k) r v = frozen-Inv d v
at-Inv d (pos s) r v =
    elim (Bool-cases (
      (r.frames_requested == 0)
      || ltb r.frames_requested r.frames_read
      || ltb (int32_max - s) r.frames_requested)) [
        | inl bad ↦ rw bad (frozen-Inv d v)
        | inr good ↦ rw good (
            place-Inv d (record { begin = s; end = s + r.frames_requested; flags = flags_of r }) v
              (ground arith))
      ]

at-Adds :
    (d : DiscReadMap) (s : ℤ) (r : ReadResult)
    → Inv d
    → Adds d (observe_at d s r) (λ x f.
      (flags_of r == f)
      && leb (pos_part s) (x + neg_part s)
      && ltb (x + neg_part s) (pos_part s + r.frames_requested))
unfolding observe_at
at-Adds d (negsuc k) r v = frozen-Adds d _
at-Adds d (pos s) r v =
    elim (Bool-cases (
      (r.frames_requested == 0)
      || ltb r.frames_requested r.frames_read
      || ltb (int32_max - s) r.frames_requested)) [
        | inl bad ↦ rw bad (frozen-Adds d _)
        | inr good ↦ rw good (
            Adds-ext d _ _ _ (λ x f. ground arith)
              (place-Adds d (record { begin = s; end = s + r.frames_requested; flags = flags_of r })
                v (ground arith)))
      ]

abbrev revised : DiscReadMap → DiscReadMap
revised d = record d { revision = d.revision + 1 }

revised-Inv : (d : DiscReadMap) → Inv d → d.revision ≢ revision_max → Inv (revised d)
revised-Inv d v h = record {
  apart = v.apart;
  filled = v.filled;
  bounded = v.bounded;
  counted = omega (arith, v.counted);
}

revised-Adds : (d e : DiscReadMap) (p : ℕ → ℕ → Bool) → Adds (revised d) e p → Adds d e p
revised-Adds d e p a = record { sound = a.sound; kept = a.kept; exact = a.exact; stays = a.stays }

observe-Inv : (d : DiscReadMap) (r : ReadResult) → Inv d → Inv (observe d r)
unfolding observe
observe-Inv d r v = elim (Bool-cases ((d.disc_generation == 0) || not d.complete)) [
  | inl off ↦ rw off v
  | inr on ↦ rw on (elim (Bool-cases (d.revision == revision_max)) [
    | inl last ↦ rw last (frozen-Inv d v)
    | inr more ↦ rw more (at-Inv (revised d) r.start_lba r (revised-Inv d v (ground arith)))
  ])
]

observe-Adds :
    (d : DiscReadMap) (r : ReadResult)
    → d.disc_generation ≢ 0
    → Inv d
    → Adds d (observe d r) (λ x f. reports r x f)
unfolding observe
observe-Adds d r g v = elim (Bool-cases ((d.disc_generation == 0) || not d.complete)) [
  | inl off ↦ rw off (frozen_before-Adds d _ (ground arith))
  | inr on ↦ rw on (elim (Bool-cases (d.revision == revision_max)) [
    | inl last ↦ rw last (frozen-Adds d _)
    | inr more ↦
        rw more
          (revised-Adds d _ _ (at-Adds (revised d) r.start_lba r (revised-Inv d v (ground arith))))
  ])
]

at-generation :
    (d : DiscReadMap) (s : ℤ) (r : ReadResult)
    → (observe_at d s r).disc_generation ≡ d.disc_generation
unfolding observe_at place
at-generation d (negsuc k) r = refl
at-generation d (pos s) r = ground arith

observe-generation :
    (d : DiscReadMap) (r : ReadResult) → (observe d r).disc_generation ≡ d.disc_generation
unfolding observe
observe-generation d r = ground (arith, at-generation (revised d) r.start_lba r)

observe_all-Inv : (d : DiscReadMap) (rs : List ReadResult) → Inv d → Inv (observe_all d rs)
unfolding observe_all
observe_all-Inv d [] v = v
observe_all-Inv d (r ∷ rs) v = observe_all-Inv (observe d r) rs (observe-Inv d r v)

observe_all-Adds :
    (d : DiscReadMap) (rs : List ReadResult)
    → d.disc_generation ≢ 0
    → Inv d
    → Adds d (observe_all d rs) (λ x f. any_reports rs x f)
unfolding observe_all
observe_all-Adds d [] g v = record {
  sound = λ x f h. h;
  kept = λ x f h. h;
  exact = λ h x f. refl;
  stays = λ h. h;
}
observe_all-Adds d (r ∷ rs) g v = Adds-trans d (observe d r) _ _ _ (observe-Adds d r g v) (
    observe_all-Adds (observe d r) rs (λ e. g (sym (observe-generation d r) ∙ e))
      (observe-Inv d r v))

new_map-Inv : (generation : ℕ) → Inv (new_map generation)
new_map-Inv generation = record {
  apart = tt;
  filled = tt;
  bounded = omega arith;
  counted = omega arith;
}

-- The map of a disc generation, over any history of reads: at most 256 regions; no two regions with
-- the same flags touch; a region says a set of flags of a frame only if some read with these flags
-- requested that frame; and as long as `complete` is set every such read is said.
pub observe_all-said :
    (generation : ℕ) (rs : List ReadResult)
    → generation ≢ 0
    → let d = observe_all (new_map generation) rs in
      (length d.regions ≤ capacity)
      × Apart d.regions
      × ((x f : ℕ) → said x f d.regions ≡ true → any_reports rs x f ≡ true)
      × (d.complete ≡ true → (x f : ℕ) → any_reports rs x f ≡ true → said x f d.regions ≡ true)
observe_all-said generation rs g = (
  v.bounded,
  v.apart,
  λ x f h. ground (arith, a.sound x f h),
  λ h x f t. ground (arith, a.exact h x f),
)
  where
    v : Inv (observe_all (new_map generation) rs)
    v = observe_all-Inv (new_map generation) rs (new_map-Inv generation)

    a : Adds (new_map generation) (observe_all (new_map generation) rs) (λ x f. any_reports rs x f)
    a = observe_all-Adds (new_map generation) rs g (new_map-Inv generation)
