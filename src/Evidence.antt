-- ===== src/Evidence.antt =====
-- include/integrity_state.hpp and src/integrity_state.cpp: the evidence made of one read result,
-- and the counters of a stream.
pub mod Status
pub mod Stats
pub mod Names
use picdplayer.Prelude.{
  ℕ, suc, ◌+◌, ◌%◌, ◌^◌, Bool, true, false, not, ◌&&◌, ◌||◌, Option, some, List, [], ◌∷◌, ℤ,
  if◌then◌else◌, ltb, leb, ◌==◌,
}
use picdplayer.Reader.{
  ReadResult, ReadIndependence, C2Status, ParanoiaEvents, LocalReadVerification, OffsetReadEvidence,
  is_ok, add64,
}

pub data LocalVerification : Type 0 where
  none single_read backend_reported multiple_match : LocalVerification

pub data IntegrityReadStatus : Type 0 where
  unknown clean recovered uncertain : IntegrityReadStatus

pub data OffsetStatus : Type 0 where
  unknown uncorrected corrected : OffsetStatus

pub record ReadEvidence : Type 0 where
  pub device_generation : ℕ
  pub disc_generation : ℕ
  pub read_sequence : ℕ
  pub stream_generation : ℕ
  pub policy_revision : ℕ
  pub start_lba : ℤ
  pub frames_requested : ℕ
  pub frames_read : ℕ
  pub status : IntegrityReadStatus
  pub local_verification : LocalVerification
  pub read_independence : ReadIndependence
  pub c2_status : C2Status
  pub offset_status : OffsetStatus
  pub direct_retries : ℕ
  pub backend_events : ParanoiaEvents
  pub verification : LocalReadVerification
  pub offset : Option OffsetReadEvidence

-- A number used as a condition.
abbrev pub nonzero : ℕ → Bool
nonzero n = not (n == 0)

abbrev pub backend_reported_verification : ParanoiaEvents → Bool
backend_reported_verification e = nonzero e.verifies || nonzero e.fixups

abbrev pub is_complete : ReadResult → Bool
is_complete r = is_ok r.status && (r.frames_read == r.frames_requested)

abbrev pub locally_verified : ReadResult → Bool
locally_verified r = leb 2 r.verification.matching_reads

abbrev pub backend_recovered : ReadResult → Bool
backend_recovered r = nonzero r.paranoia.fixups && not (nonzero r.paranoia.skips)

abbrev pub anomaly : ReadResult → Bool
anomaly r =
    nonzero r.retries
    || nonzero r.paranoia.skips
    || nonzero r.paranoia.read_errors
    || nonzero r.paranoia.cache_errors

unfoldable pub evidence_status : ReadResult → IntegrityReadStatus
evidence_status r =
    if not (is_complete r)
    then IntegrityReadStatus.uncertain
    else if backend_recovered r || (locally_verified r && nonzero r.verification.mismatches)
    then IntegrityReadStatus.recovered
    else if anomaly r
    then IntegrityReadStatus.uncertain
    else IntegrityReadStatus.clean

abbrev pub evidence_offset_status : ReadResult → Option OffsetReadEvidence → OffsetStatus
evidence_offset_status r Option.none = OffsetStatus.unknown
evidence_offset_status r (some _) =
    if is_complete r then OffsetStatus.corrected else OffsetStatus.uncorrected

unfoldable pub make_read_evidence : ReadResult → ReadEvidence
unfolding evidence_status
make_read_evidence r = record {
  device_generation = 0;
  disc_generation = 0;
  read_sequence = 0;
  stream_generation = 0;
  policy_revision = 0;
  start_lba = r.start_lba;
  frames_requested = r.frames_requested;
  frames_read = r.frames_read;
  status = evidence_status r;
  local_verification =
      if locally_verified r
      then LocalVerification.multiple_match
      else if backend_reported_verification r.paranoia
      then LocalVerification.backend_reported
      else LocalVerification.single_read;
  read_independence = r.read_independence;
  c2_status = r.c2_status;
  offset_status = evidence_offset_status r r.offset;
  direct_retries = r.retries;
  backend_events = r.paranoia;
  verification = r.verification;
  offset = r.offset;
}

pub record IntegrityStats : Type 0 where
  pub read_calls : ℕ
  pub frames_requested : ℕ
  pub frames_accepted : ℕ
  pub direct_retries : ℕ
  pub backend_reads : ℕ
  pub backend_verifies : ℕ
  pub backend_fixups : ℕ
  pub backend_skips : ℕ
  pub backend_read_errors : ℕ
  pub backend_cache_errors : ℕ
  pub backend_other : ℕ
  pub failed_calls : ℕ
  pub verification_attempts : ℕ
  pub verification_mismatches : ℕ
  pub verified_calls : ℕ
  pub verification_failures : ℕ

abbrev pub zero_stats : IntegrityStats
zero_stats = record {
  read_calls = 0;
  frames_requested = 0;
  frames_accepted = 0;
  direct_retries = 0;
  backend_reads = 0;
  backend_verifies = 0;
  backend_fixups = 0;
  backend_skips = 0;
  backend_read_errors = 0;
  backend_cache_errors = 0;
  backend_other = 0;
  failed_calls = 0;
  verification_attempts = 0;
  verification_mismatches = 0;
  verified_calls = 0;
  verification_failures = 0;
}

-- `if (b) ++n;`
abbrev pub bump_if : Bool → ℕ → ℕ
bump_if true n = add64 n 1
bump_if false n = n

unfoldable pub observe_read : IntegrityStats → ReadResult → IntegrityStats
observe_read s r = record {
  read_calls = add64 s.read_calls 1;
  frames_requested = add64 s.frames_requested r.frames_requested;
  frames_accepted =
      if is_complete r then add64 s.frames_accepted r.frames_read else s.frames_accepted;
  direct_retries = add64 s.direct_retries r.retries;
  backend_reads = add64 s.backend_reads r.paranoia.reads;
  backend_verifies = add64 s.backend_verifies r.paranoia.verifies;
  backend_fixups = add64 s.backend_fixups r.paranoia.fixups;
  backend_skips = add64 s.backend_skips r.paranoia.skips;
  backend_read_errors = add64 s.backend_read_errors r.paranoia.read_errors;
  backend_cache_errors = add64 s.backend_cache_errors r.paranoia.cache_errors;
  backend_other = add64 s.backend_other r.paranoia.other;
  failed_calls = bump_if (not (is_complete r)) s.failed_calls;
  verification_attempts = add64 s.verification_attempts r.verification.attempts;
  verification_mismatches = add64 s.verification_mismatches r.verification.mismatches;
  verified_calls = bump_if (leb 2 r.verification.matching_reads) s.verified_calls;
  verification_failures =
      bump_if (nonzero r.verification.attempts && not (is_complete r)) s.verification_failures;
}
