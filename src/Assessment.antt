-- ===== src/Assessment.antt =====
-- include/c2_reference_assessment.hpp and src/c2_reference_assessment.cpp: whether a drive's error
-- pointers can be trusted, from sectors whose digest is known. A string is its list of bytes.
pub mod Verdict
use picdplayer.Outcome.{Outcome, returned, thrown, undefined, invalid_argument, logic_error}
use picdplayer.Prelude.{
  ℕ, zero, suc, ◌+◌, Bool, true, false, not, ◌&&◌, ◌||◌, Option, none, some, List, [], ◌∷◌, ℤ, pos,
  ltb_ℤ, leb_ℤ, ◌==ℤ◌, ltb, leb, ◌==◌, if◌then◌else◌, length, get_elem?, replicate,
}
use picdplayer.Reader.{C2Status}
use picdplayer.Toc.{DiscToc}
use picdplayer.Verifier.{is_nil, same_c2}
use picdplayer.Device.{same_bytes}

-- From include/drive_capabilities.hpp.
pub data Knowledge : Type 0 where
  unknown no yes : Knowledge

abbrev pub c2_assessment_max_sectors : ℕ
c2_assessment_max_sectors = 2

abbrev pub c2_assessment_attempts : ℕ
c2_assessment_attempts = 3

pub record C2ReferenceSector : Type 0 where
  pub lba : ℤ
  pub sha256 : List ℕ

pub record C2Reference : Type 0 where
  pub id : List ℕ
  pub provenance : List ℕ
  pub independent : Bool
  pub alignment_verified : Bool
  pub offset_samples : Option ℤ
  pub sectors : List C2ReferenceSector
  pub expected_toc : Option DiscToc

pub record C2SectorSample : Type 0 where
  pub lba : ℤ
  pub complete : Bool
  pub c2 : C2Status
  pub sha256 : List ℕ

pub record C2AssessmentCounts : Type 0 where
  pub samples : ℕ
  pub unavailable : ℕ
  pub clean_equal : ℕ
  pub clean_different : ℕ
  pub flagged_equal : ℕ
  pub flagged_different : ℕ

-- `attempts` holds the entries of the source's array that belong to a sector.
pub record C2ReferenceAssessment : Type 0 where
  pub reference : C2Reference
  pub attempts : List ℕ
  pub counts : C2AssessmentCounts

abbrev pub zero_counts : C2AssessmentCounts
zero_counts = record {
  samples = 0;
  unavailable = 0;
  clean_equal = 0;
  clean_different = 0;
  flagged_equal = 0;
  flagged_different = 0;
}

abbrev pub within : ℕ → ℕ → ℕ → Bool
within c low high = leb low c && leb c high

abbrev pub all_bytes : (ℕ → Bool) → List ℕ → Bool
all_bytes p [] = true
all_bytes p (c ∷ cs) = p c && all_bytes p cs

-- 64 characters out of 0-9 and a-f
unfoldable pub digest_valid : List ℕ → Bool
digest_valid value =
    (length value == 64) && all_bytes (λ c. within c 48 57 || within c 97 102) value

unfoldable pub id_valid : List ℕ → Bool
id_valid value =
    not (is_nil value)
    && leb (length value) 64
    && all_bytes
        (λ c. within c 97 122 || within c 65 90 || within c 48 57 || (c == 45) || (c == 95)) value

abbrev pub is_zero : Option ℤ → Bool
is_zero none = false
is_zero (some n) = n ==ℤ pos 0

-- The sectors' check, with the LBA of the one before.
unfoldable pub sectors_valid : Option ℤ → List C2ReferenceSector → Bool
unfolding digest_valid
sectors_valid previous [] = true
sectors_valid previous (s ∷ rest) =
    let others = sectors_valid (some s.lba) rest in
    not (ltb_ℤ s.lba (pos 0))
    && elim previous [ none ↦ true | some p ↦ ltb_ℤ p s.lba ]
    && digest_valid s.sha256
    && others

-- The condition under which the constructor throws.
unfoldable pub is_refused : C2Reference → Bool
unfolding id_valid sectors_valid
is_refused r =
    not (id_valid r.id)
    || is_nil r.provenance
    || ltb 128 (length r.provenance)
    || not (all_bytes (λ c. within c 32 126) r.provenance)
    || not r.independent
    || not r.alignment_verified
    || not (is_zero r.offset_samples)
    || is_nil r.sectors
    || ltb c2_assessment_max_sectors (length r.sectors)
    || not (sectors_valid none r.sectors)

unfoldable pub new_assessment : C2Reference → Outcome C2ReferenceAssessment
unfolding is_refused
new_assessment r =
    if is_refused r
    then thrown invalid_argument
    else returned
        (record { reference = r; attempts = replicate (length r.sectors) 0; counts = zero_counts })

-- The five kinds of a sample.
pub data Kind : Type 0 where
  unavailable clean_equal clean_different flagged_equal flagged_different : Kind

abbrev pub is_known : C2SectorSample → Bool
is_known s = s.complete && (same_c2 s.c2 C2Status.clean || same_c2 s.c2 C2Status.reported)

unfoldable pub kind_at : List ℕ → C2SectorSample → Kind
kind_at sha256 s =
    if not (is_known s)
    then Kind.unavailable
    else if same_c2 s.c2 C2Status.clean
    then (if same_bytes s.sha256 sha256 then Kind.clean_equal else Kind.clean_different)
    else if same_bytes s.sha256 sha256
    then Kind.flagged_equal
    else Kind.flagged_different

unfoldable pub count : Kind → C2AssessmentCounts → C2AssessmentCounts
count Kind.unavailable c = record c { samples = c.samples + 1; unavailable = c.unavailable + 1 }
count Kind.clean_equal c = record c { samples = c.samples + 1; clean_equal = c.clean_equal + 1 }
count Kind.clean_different c = record c {
  samples = c.samples + 1;
  clean_different = c.clean_different + 1;
}
count Kind.flagged_equal c = record c {
  samples = c.samples + 1;
  flagged_equal = c.flagged_equal + 1;
}
count Kind.flagged_different c = record c {
  samples = c.samples + 1;
  flagged_different = c.flagged_different + 1;
}

-- The index of the first sector with the LBA, or the number of sectors.
unfoldable pub find_sector : ℤ → List C2ReferenceSector → ℕ
find_sector lba [] = 0
find_sector lba (s ∷ rest) =
    let later = find_sector lba rest in if s.lba ==ℤ lba then 0 else suc later

-- ++attempts_[index]
unfoldable pub bump : ℕ → List ℕ → List ℕ
bump i [] = []
bump zero (n ∷ ns) = suc n ∷ ns
bump (suc i) (n ∷ ns) = n ∷ bump i ns

unfoldable pub observe_at :
    C2ReferenceAssessment
    → C2SectorSample
    → ℕ
    → C2ReferenceSector
    → ℕ
    → Outcome C2ReferenceAssessment
unfolding digest_valid kind_at count bump
observe_at a s index sector attempts =
    if attempts == c2_assessment_attempts
    then thrown logic_error
    else if is_known s && not (digest_valid s.sha256)
    then thrown invalid_argument
    else returned (record a {
      attempts = bump index a.attempts;
      counts = count (kind_at sector.sha256 s) a.counts;
    })

unfoldable pub observe : C2ReferenceAssessment → C2SectorSample → Outcome C2ReferenceAssessment
unfolding find_sector observe_at
observe a s = elim (get_elem? a.reference.sectors (find_sector s.lba a.reference.sectors)) [
  | none ↦ thrown invalid_argument
  | some sector ↦ elim (get_elem? a.attempts (find_sector s.lba a.reference.sectors)) [
    | none ↦ undefined
    | some n ↦ observe_at a s (find_sector s.lba a.reference.sectors) sector n
  ]
]

abbrev pub all_attempted : List ℕ → Bool
all_attempted [] = true
all_attempted (n ∷ ns) = (n == c2_assessment_attempts) && all_attempted ns

-- The value of the flag that outcome gives; the text that goes with it is left out.
unfoldable pub verdict : C2ReferenceAssessment → Knowledge
verdict a =
    if not (all_attempted a.attempts)
    then Knowledge.unknown
    else if not (a.counts.unavailable == 0)
    then Knowledge.unknown
    else if a.counts.clean_equal == 0
    then Knowledge.unknown
    else if not (a.counts.clean_different == 0)
    then Knowledge.no
    else if not (a.counts.flagged_different == 0)
    then Knowledge.yes
    else Knowledge.unknown
