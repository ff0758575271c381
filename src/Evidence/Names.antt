-- ===== src/Evidence/Names.antt =====
-- src/integrity_state.cpp: the names under which the values of the evidence are published.
use picdplayer.Prelude.{
  ℕ, ◌≡◌, refl, Option, none, some, List, [], ◌∷◌, if◌then◌else◌, codes, same_text,
}
use picdplayer.Reader.{ReadIndependence, OverlapVerification, C2Status}
use picdplayer.Evidence.{LocalVerification, IntegrityReadStatus, OffsetStatus}

pub data ReadActivity : Type 0 where
  idle reading buffering complete failed : ReadActivity

abbrev pub read_activity_name : ReadActivity → List ℕ
read_activity_name ReadActivity.idle = codes "IDLE"
read_activity_name ReadActivity.reading = codes "READING"
read_activity_name ReadActivity.buffering = codes "BUFFERING"
read_activity_name ReadActivity.complete = codes "COMPLETE"
read_activity_name ReadActivity.failed = codes "FAILED"

abbrev pub integrity_read_status_name : IntegrityReadStatus → List ℕ
integrity_read_status_name IntegrityReadStatus.unknown = codes "UNKNOWN"
integrity_read_status_name IntegrityReadStatus.clean = codes "CLEAN"
integrity_read_status_name IntegrityReadStatus.recovered = codes "RECOVERED"
integrity_read_status_name IntegrityReadStatus.uncertain = codes "UNCERTAIN"

abbrev pub local_verification_name : LocalVerification → List ℕ
local_verification_name LocalVerification.none = codes "NONE"
local_verification_name LocalVerification.single_read = codes "SINGLE_READ"
local_verification_name LocalVerification.backend_reported = codes "BACKEND_REPORTED"
local_verification_name LocalVerification.multiple_match = codes "MULTIPLE_MATCH"

abbrev pub read_independence_name : ReadIndependence → List ℕ
read_independence_name ReadIndependence.unknown = codes "UNKNOWN"
read_independence_name ReadIndependence.cache_possible = codes "CACHE_POSSIBLE"
read_independence_name ReadIndependence.cache_mitigated = codes "CACHE_MITIGATED"

abbrev pub overlap_verification_name : OverlapVerification → List ℕ
overlap_verification_name OverlapVerification.not_requested = codes "NOT_REQUESTED"
overlap_verification_name OverlapVerification.not_checked = codes "NOT_CHECKED"
overlap_verification_name OverlapVerification.stream_boundary = codes "STREAM_BOUNDARY"
overlap_verification_name OverlapVerification.matched = codes "MATCHED"
overlap_verification_name OverlapVerification.mismatched = codes "MISMATCHED"

abbrev pub c2_status_name : C2Status → List ℕ
c2_status_name C2Status.unknown = codes "UNKNOWN"
c2_status_name C2Status.not_available = codes "NOT_AVAILABLE"
c2_status_name C2Status.not_checked = codes "NOT_CHECKED"
c2_status_name C2Status.clean = codes "CLEAN"
c2_status_name C2Status.reported = codes "REPORTED"

abbrev pub offset_status_name : OffsetStatus → List ℕ
offset_status_name OffsetStatus.unknown = codes "UNKNOWN"
offset_status_name OffsetStatus.uncorrected = codes "UNCORRECTED"
offset_status_name OffsetStatus.corrected = codes "CORRECTED"

-- The first of some values that has a name.
abbrev pub named {ℓ} : {A : Type ℓ} → (A → List ℕ) → List A → List ℕ → Option A
named name [] text = none
named name (v ∷ vs) text =
    let rest = named name vs text in if same_text (name v) text then some v else rest

abbrev pub IsCode {ℓ} : {A : Type ℓ} → (A → List ℕ) → List A → Type ℓ
IsCode {A = A} name values = (v : A) → named name values (name v) ≡ some v

abbrev pub all_activities : List ReadActivity
all_activities =
    ReadActivity.idle ∷ ReadActivity.reading ∷ ReadActivity.buffering ∷ ReadActivity.complete
    ∷ ReadActivity.failed ∷ []

abbrev pub all_statuses : List IntegrityReadStatus
all_statuses =
    IntegrityReadStatus.unknown ∷ IntegrityReadStatus.clean ∷ IntegrityReadStatus.recovered
    ∷ IntegrityReadStatus.uncertain ∷ []

abbrev pub all_verifications : List LocalVerification
all_verifications =
    LocalVerification.none ∷ LocalVerification.single_read ∷ LocalVerification.backend_reported
    ∷ LocalVerification.multiple_match ∷ []

abbrev pub all_independences : List ReadIndependence
all_independences =
    ReadIndependence.unknown ∷ ReadIndependence.cache_possible ∷ ReadIndependence.cache_mitigated
    ∷ []

abbrev pub all_overlaps : List OverlapVerification
all_overlaps =
    OverlapVerification.not_requested ∷ OverlapVerification.not_checked
    ∷ OverlapVerification.stream_boundary ∷ OverlapVerification.matched
    ∷ OverlapVerification.mismatched ∷ []

abbrev pub all_pointer_statuses : List C2Status
all_pointer_statuses =
    C2Status.unknown ∷ C2Status.not_available ∷ C2Status.not_checked ∷ C2Status.clean
    ∷ C2Status.reported ∷ []

abbrev pub all_offset_statuses : List OffsetStatus
all_offset_statuses = OffsetStatus.unknown ∷ OffsetStatus.uncorrected ∷ OffsetStatus.corrected ∷ []

activities : IsCode read_activity_name all_activities
activities ReadActivity.idle = refl
activities ReadActivity.reading = refl
activities ReadActivity.buffering = refl
activities ReadActivity.complete = refl
activities ReadActivity.failed = refl

statuses : IsCode integrity_read_status_name all_statuses
statuses IntegrityReadStatus.unknown = refl
statuses IntegrityReadStatus.clean = refl
statuses IntegrityReadStatus.recovered = refl
statuses IntegrityReadStatus.uncertain = refl

verifications : IsCode local_verification_name all_verifications
verifications LocalVerification.none = refl
verifications LocalVerification.single_read = refl
verifications LocalVerification.backend_reported = refl
verifications LocalVerification.multiple_match = refl

independences : IsCode read_independence_name all_independences
independences ReadIndependence.unknown = refl
independences ReadIndependence.cache_possible = refl
independences ReadIndependence.cache_mitigated = refl

overlaps : IsCode overlap_verification_name all_overlaps
overlaps OverlapVerification.not_requested = refl
overlaps OverlapVerification.not_checked = refl
overlaps OverlapVerification.stream_boundary = refl
overlaps OverlapVerification.matched = refl
overlaps OverlapVerification.mismatched = refl

pointer_statuses : IsCode c2_status_name all_pointer_statuses
pointer_statuses C2Status.unknown = refl
pointer_statuses C2Status.not_available = refl
pointer_statuses C2Status.not_checked = refl
pointer_statuses C2Status.clean = refl
pointer_statuses C2Status.reported = refl

offset_statuses : IsCode offset_status_name all_offset_statuses
offset_statuses OffsetStatus.unknown = refl
offset_statuses OffsetStatus.uncorrected = refl
offset_statuses OffsetStatus.corrected = refl

-- For each of the seven enums of the evidence that are published by name, no two values have the same
-- name: among all values, the first with the name of a value is that value.
pub names-IsCode :
    IsCode read_activity_name all_activities
    × IsCode integrity_read_status_name all_statuses
    × IsCode local_verification_name all_verifications
    × IsCode read_independence_name all_independences
    × IsCode overlap_verification_name all_overlaps
    × IsCode c2_status_name all_pointer_statuses
    × IsCode offset_status_name all_offset_statuses
names-IsCode = (
  activities, statuses, verifications, independences, overlaps, pointer_statuses, offset_statuses,
)
