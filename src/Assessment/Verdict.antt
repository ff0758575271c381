-- ===== src/Assessment/Verdict.antt =====
-- The verdict against the samples that were observed.
use mathlib.Core.Path.{subst}
use picdplayer.Outcome.{Exception, invalid_argument, Outcome, returned, thrown, undefined}
use picdplayer.Prelude.{
  ℕ, zero, suc, ◌+◌, ◌*◌, ◌≤◌, ◌<◌, ◌≡◌, refl, ap, sym, ◌∙◌, Bool, true, false, not, ◌&&◌, inl, inr,
  Option, none, some, List, [], ◌∷◌, ◌==◌, if◌then◌else◌, if-both, length, get_elem?, replicate,
  length-replicate, get_elem?-lt, get_elem?-below, arith, Option-cases,
}
use picdplayer.Assessment.{
  Knowledge, C2Reference, C2ReferenceSector, C2SectorSample, C2ReferenceAssessment, Kind, is_known,
  kind_at, count, find_sector, bump, observe_at, observe, all_attempted, verdict, new_assessment,
  digest_valid, is_refused,
}

-- The kind of a sample by the sector of its LBA.
pub kind_of : C2Reference → C2SectorSample → Kind
kind_of r s = elim (get_elem? r.sectors (find_sector s.lba r.sectors)) [
  | none ↦ Kind.unavailable
  | some sector ↦ kind_at sector.sha256 s
]

abbrev pub same_kind : Kind → Kind → Bool
same_kind Kind.unavailable Kind.unavailable = true
same_kind Kind.clean_equal Kind.clean_equal = true
same_kind Kind.clean_different Kind.clean_different = true
same_kind Kind.flagged_equal Kind.flagged_equal = true
same_kind Kind.flagged_different Kind.flagged_different = true
same_kind _ _ = false

-- How many of the samples are of the kind.
abbrev pub number_of : C2Reference → Kind → List C2SectorSample → ℕ
number_of r k [] = 0
number_of r k (s ∷ ss) = (if same_kind k (kind_of r s) then 1 else 0) + number_of r k ss

-- How many of the samples are of the sector with this index.
abbrev pub number_at : C2Reference → ℕ → List C2SectorSample → ℕ
number_at r i [] = 0
number_at r i (s ∷ ss) = (if find_sector s.lba r.sectors == i then 1 else 0) + number_at r i ss

abbrev pub sum : List ℕ → ℕ
sum [] = 0
sum (n ∷ ns) = n + sum ns

-- A caller that drops a refused sample; the samples that were taken, the last one first.
pub run :
    C2ReferenceAssessment
    → List C2SectorSample
    → List C2SectorSample
    → Option (C2ReferenceAssessment × List C2SectorSample)
run a taken [] = some (a, taken)
run a taken (s ∷ ss) = elim (observe a s) [
  | returned b ↦ run b (s ∷ taken) ss
  | thrown e ↦ run a taken ss
  | undefined ↦ none
]

pub record Inv (r : C2Reference) (a : C2ReferenceAssessment) (taken : List C2SectorSample)
    : Type 0 where
  pub same : a.reference ≡ r
  pub size : length a.attempts ≡ length r.sectors
  pub attempted : sum a.attempts ≡ length taken
  pub each : (i n : ℕ) → get_elem? a.attempts i ≡ some n → number_at r i taken ≡ n
  pub samples : a.counts.samples ≡ length taken
  pub unavailable : a.counts.unavailable ≡ number_of r Kind.unavailable taken
  pub clean_equal : a.counts.clean_equal ≡ number_of r Kind.clean_equal taken
  pub clean_different : a.counts.clean_different ≡ number_of r Kind.clean_different taken
  pub flagged_equal : a.counts.flagged_equal ≡ number_of r Kind.flagged_equal taken
  pub flagged_different : a.counts.flagged_different ≡ number_of r Kind.flagged_different taken

length-bump : (i : ℕ) (ns : List ℕ) → length (bump i ns) ≡ length ns
unfolding bump
length-bump i [] = refl
length-bump zero (n ∷ ns) = refl
length-bump (suc i) (n ∷ ns) = ap suc (length-bump i ns)

sum-bump : (i : ℕ) (ns : List ℕ) {n : ℕ} → get_elem? ns i ≡ some n → sum (bump i ns) ≡ suc (sum ns)
unfolding bump
sum-bump i [] e = cc
sum-bump zero (n ∷ ns) e = omega arith
sum-bump (suc i) (n ∷ ns) e = omega (arith, sum-bump i ns e)

none_some : (n : ℕ) → none ≡ some n → ⊥
none_some n e = cc

some_injective : (m n : ℕ) → some m ≡ some n → m ≡ n
some_injective m n e = cc

get_elem?-bump :
    (j i : ℕ) (ns : List ℕ) {n : ℕ}
    → get_elem? (bump j ns) i ≡ some n
    → (m : ℕ) × (get_elem? ns i ≡ some m) × (n ≡ (if j == i then 1 else 0) + m)
unfolding bump
get_elem?-bump j i [] e = absurd (none_some _ e)
get_elem?-bump zero zero (n ∷ ns) e = (n, refl, omega (arith, some_injective _ _ e))
get_elem?-bump zero (suc i) (n ∷ ns) e = (_, e, ground arith)
get_elem?-bump (suc j) zero (n ∷ ns) e = (n, refl, ground (arith, some_injective _ _ e))
get_elem?-bump (suc j) (suc i) (n ∷ ns) e =
    let (m, was, now) = get_elem?-bump j i ns e in (m, was, ground (arith, now))

abbrev Step :
    C2Reference
    → C2ReferenceAssessment
    → List C2SectorSample
    → C2SectorSample
    → Outcome C2ReferenceAssessment
    → Type 0
Step r a taken s (returned b) = Inv r b (s ∷ taken)
Step r a taken s (thrown e) = Unit {0}
Step r a taken s undefined = ⊥

counted-Inv :
    (r : C2Reference) (a : C2ReferenceAssessment) (taken : List C2SectorSample) (s : C2SectorSample)
    (index n : ℕ) (k : Kind)
    → Inv r a taken
    → kind_of r s ≡ k
    → find_sector s.lba r.sectors ≡ index
    → get_elem? a.attempts index ≡ some n
    → Inv r (record a { attempts = bump index a.attempts; counts = count k a.counts }) (s ∷ taken)
unfolding count
counted-Inv r a taken s index n k v e here there = record {
  same = v.same;
  size = length-bump index a.attempts ∙ v.size;
  attempted = omega (arith, sum-bump index a.attempts there, v.attempted);
  each = λ i m at.
      let (before, was, now) = get_elem?-bump index i a.attempts at in
      rw here (omega (arith, v.each i before was, now));
  samples = ground (arith, v.samples);
  unavailable = rw e (ground (arith, v.unavailable));
  clean_equal = rw e (ground (arith, v.clean_equal));
  clean_different = rw e (ground (arith, v.clean_different));
  flagged_equal = rw e (ground (arith, v.flagged_equal));
  flagged_different = rw e (ground (arith, v.flagged_different));
}

kind_at-kind_of :
    (r : C2Reference) (s : C2SectorSample) (sector : C2ReferenceSector)
    → get_elem? r.sectors (find_sector s.lba r.sectors) ≡ some sector
    → kind_of r s ≡ kind_at sector.sha256 s
unfolding kind_of
kind_at-kind_of r s sector there = rw (there, kind_of) refl

observe_at-Step :
    (r : C2Reference) (a : C2ReferenceAssessment) (taken : List C2SectorSample) (s : C2SectorSample)
    → Inv r a taken
    → (index n : ℕ) (sector : C2ReferenceSector) → kind_of r s ≡ kind_at sector.sha256 s
    → find_sector s.lba r.sectors ≡ index
    → get_elem? a.attempts index ≡ some n
    → Step r a taken s (observe_at a s index sector n)
unfolding observe_at
observe_at-Step r a taken s v index n sector e here at =
    if-both (Step r a taken s) (n == 3) (λ _. tt)
      (λ _.
        if-both (Step r a taken s) (is_known s && not (digest_valid s.sha256)) (λ _. tt)
          (λ _. counted-Inv r a taken s index n (kind_at sector.sha256 s) v e here at))

observe-Step :
    (r : C2Reference) (a : C2ReferenceAssessment) (taken : List C2SectorSample) (s : C2SectorSample)
    → Inv r a taken
    → Step r a taken s (observe a s)
unfolding observe
observe-Step r a taken s v =
    elim (Option-cases (get_elem? a.reference.sectors (find_sector s.lba a.reference.sectors))) [
      | inl missing ↦ rw (missing, observe) tt
      | inr (sector, there) ↦
          elim (Option-cases (get_elem? a.attempts (find_sector s.lba a.reference.sectors))) [
            | inl short ↦
                let some_attempts =
                  get_elem?-below a.attempts (find_sector s.lba a.reference.sectors) (
                    omega (
                      arith,
                      get_elem?-lt a.reference.sectors (find_sector s.lba a.reference.sectors)
                          there,
                      v.size,
                      ap (λ (q : C2Reference). length q.sectors) v.same,
                    )) in
                absurd (none_some _ (sym short ∙ some_attempts.1))
            | inr (n, at) ↦
                rw (there, at, observe)
                  (observe_at-Step r a taken s v (find_sector s.lba a.reference.sectors) n sector
                    (kind_at-kind_of r s sector (
                      subst
                        (λ (q : C2Reference).
                          get_elem? q.sectors (find_sector s.lba q.sectors) ≡ some sector)
                        v.same there))
                    (ap (λ (q : C2Reference). find_sector s.lba q.sectors) (sym v.same)) at)
          ]
    ]

run-Inv :
    (r : C2Reference) (a : C2ReferenceAssessment) (taken ss : List C2SectorSample)
    → Inv r a taken
    → (b : C2ReferenceAssessment) × (all : List C2SectorSample) × (run a taken ss ≡ some (b, all))
      × Inv r b all
unfolding run
run-Inv r a taken [] v = (a, taken, refl, v)
run-Inv r a taken (s ∷ ss) v =
    after (observe a s) (observe-Step r a taken s v) (λ b h. run-Inv r b (s ∷ taken) ss h)
      (run-Inv r a taken ss v)
  where
    after :
        (o : Outcome C2ReferenceAssessment)
        → Step r a taken s o
        → ((b : C2ReferenceAssessment)
            → Inv r b (s ∷ taken)
            → (c : C2ReferenceAssessment) × (all : List C2SectorSample) × (run b (s ∷ taken) ss
                ≡ some (c, all))
              × Inv r c all)
        → ((c : C2ReferenceAssessment) × (all : List C2SectorSample) × (run a taken ss
              ≡ some (c, all))
            × Inv r c all)
        → (c : C2ReferenceAssessment) × (all : List C2SectorSample) × (elim o [
          | returned b ↦ run b (s ∷ taken) ss
          | thrown e ↦ run a taken ss
          | undefined ↦ none
        ]
            ≡ some (c, all))
          × Inv r c all
    after (returned b) h more same = more b h
    after (thrown e) h more same = same
    after undefined h more same = absurd h

all_attempted-sum : (ns : List ℕ) → all_attempted ns ≡ true → sum ns ≡ 3 * length ns
all_attempted-sum [] h = omega arith
all_attempted-sum (n ∷ ns) h = ground (arith, all_attempted-sum ns)

all_attempted-at :
    (ns : List ℕ) (i : ℕ) {n : ℕ} → all_attempted ns ≡ true → get_elem? ns i ≡ some n → n ≡ 3
all_attempted-at [] i h e = absurd (none_some _ e)
all_attempted-at (n ∷ ns) zero h e = ground (arith, some_injective _ _ e)
all_attempted-at (n ∷ ns) (suc i) h e = all_attempted-at ns i (ground arith) e

get_elem?-replicate : (k i : ℕ) {n : ℕ} → get_elem? (replicate k 0) i ≡ some n → 0 ≡ n
get_elem?-replicate zero i e = absurd (none_some _ e)
get_elem?-replicate (suc k) zero e = some_injective _ _ e
get_elem?-replicate (suc k) (suc i) e = get_elem?-replicate k i e

sum-replicate : (n : ℕ) → sum (replicate n 0) ≡ 0
sum-replicate zero = refl
sum-replicate (suc n) = omega (arith, sum-replicate n)

thrown_returned : (x : Exception) (a : C2ReferenceAssessment) → thrown x ≡ returned a → ⊥
thrown_returned x a e = cc

returned_injective : (a b : C2ReferenceAssessment) → returned a ≡ returned b → a ≡ b
returned_injective a b e = cc

new_assessment-Inv :
    (r : C2Reference) (a : C2ReferenceAssessment) → new_assessment r ≡ returned a → Inv r a []
unfolding new_assessment
new_assessment-Inv r a =
    if-both (λ o. o ≡ returned a → Inv r a []) (is_refused r)
      (λ _ e. absurd (thrown_returned invalid_argument a e))
      (λ _ e.
        subst (λ q. Inv r q []) (returned_injective _ a e)
          (record {
            same = refl;
            size = length-replicate (length r.sectors) 0;
            attempted = sum-replicate (length r.sectors);
            each = λ i n at. get_elem?-replicate (length r.sectors) i at;
            samples = refl;
            unavailable = refl;
            clean_equal = refl;
            clean_different = refl;
            flagged_equal = refl;
            flagged_different = refl;
          }))

-- What the samples that were taken say when the drive's pointers are trusted: there are three of
-- each sector and no others, all had complete data with pointers, none was clean and different from the reference,
-- and some were clean and equal, and some flagged and different.
pub record IsTrusted (r : C2Reference) (taken : List C2SectorSample) : Type 0 where
  pub each : (i : ℕ) → i < length r.sectors → number_at r i taken ≡ 3
  pub full : length taken ≡ 3 * length r.sectors
  pub known : number_of r Kind.unavailable taken ≡ 0
  pub control : 1 ≤ number_of r Kind.clean_equal taken
  pub consistent : number_of r Kind.clean_different taken ≡ 0
  pub challenge : 1 ≤ number_of r Kind.flagged_different taken

-- Over any samples offered to a new assessment, of which a refused one changes nothing, no call reads
-- out of bounds, and the verdict is yes only if the samples that were taken are three of each
-- sector of the reference, with no others, all with complete data and pointers, none clean and different from the reference, at least
-- one clean and equal and at least one flagged and different.
pub run-IsTrusted :
    (r : C2Reference) (a : C2ReferenceAssessment) (ss : List C2SectorSample)
    → new_assessment r ≡ returned a
    → (b : C2ReferenceAssessment) × (taken : List C2SectorSample) × (run a [] ss ≡ some (b, taken))
      × (verdict b ≡ Knowledge.yes → IsTrusted r taken)
unfolding verdict
run-IsTrusted r a ss e =
    let (b, taken, runs, v) = run-Inv r a [] ss (new_assessment-Inv r a e) in
    (
      b,
      taken,
      runs,
      λ yes. record {
        each = λ i below.
            let (n, at) = get_elem?-below b.attempts i (omega (arith, v.size)) in
            v.each i n at ∙ all_attempted-at b.attempts i (ground arith) at;
        full = omega (arith, v.attempted, v.size, all_attempted-sum b.attempts (ground arith));
        known = ground (arith, v.unavailable);
        control = ground (arith, v.clean_equal);
        consistent = ground (arith, v.clean_different);
        challenge = ground (arith, v.flagged_different);
      },
    )
