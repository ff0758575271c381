-- ===== src/Reader.antt =====
-- include/cdda_reader.hpp: the result of one read call, and the interface CddaReader.
-- A reader is a state with two operations that may throw; `read` takes the caller's PCM buffer and
-- gives it back as it is after the call.
use picdplayer.Outcome.{Outcome}
use picdplayer.Prelude.{ℕ, ◌+◌, ◌%◌, ◌^◌, Bool, true, false, Option, none, List, [], ℤ}

abbrev pub samples_per_frame : ℕ
samples_per_frame = 1176

abbrev pub int32_max : ℕ
int32_max = 2147483647

-- `unsigned` and std::uint64_t sums wrap.
abbrev pub add32 : ℕ → ℕ → ℕ
add32 a b = (a + b) % 2 ^ 32

abbrev pub add64 : ℕ → ℕ → ℕ
add64 a b = (a + b) % 2 ^ 64

pub data CddaBackend : Type 0 where
  direct paranoia : CddaBackend

pub data ReadStatus : Type 0 where
  ok read_error : ReadStatus

pub data C2Status : Type 0 where
  unknown not_available not_checked clean reported : C2Status

pub data ReadIndependence : Type 0 where
  unknown cache_possible cache_mitigated : ReadIndependence

pub data OverlapVerification : Type 0 where
  not_requested not_checked stream_boundary matched mismatched : OverlapVerification

pub record ParanoiaEvents : Type 0 where
  pub reads : ℕ
  pub verifies : ℕ
  pub fixups : ℕ
  pub skips : ℕ
  pub read_errors : ℕ
  pub cache_errors : ℕ
  pub other : ℕ

abbrev pub no_events : ParanoiaEvents
no_events = record {
  reads = 0;
  verifies = 0;
  fixups = 0;
  skips = 0;
  read_errors = 0;
  cache_errors = 0;
  other = 0;
}

pub record ReadAttemptEvidence : Type 0 where
  pub frames_read : ℕ
  pub complete : Bool
  pub native_error : ℤ
  pub direct_retries : ℕ
  pub candidate : Option ℕ
  pub physical_start_lba : ℤ
  pub observed_start_lba : ℤ
  pub physical_frames_requested : ℕ
  pub logical_start_lba : ℤ
  pub logical_frames_requested : ℕ

-- `details` holds the entries below `detail_count` of the source's array of eight.
pub record LocalReadVerification : Type 0 where
  pub attempts : ℕ
  pub complete_reads : ℕ
  pub matching_reads : ℕ
  pub mismatches : ℕ
  pub time_budget_exhausted : Bool
  pub details : List ReadAttemptEvidence
  pub accepted_candidate : Option ℕ
  pub accepted_attempt : Option ℕ
  pub overlap_frames_requested : ℕ
  pub overlap_frames_compared : ℕ
  pub overlap : OverlapVerification

abbrev pub no_verification : LocalReadVerification
no_verification = record {
  attempts = 0;
  complete_reads = 0;
  matching_reads = 0;
  mismatches = 0;
  time_budget_exhausted = false;
  details = [];
  accepted_candidate = none;
  accepted_attempt = none;
  overlap_frames_requested = 0;
  overlap_frames_compared = 0;
  overlap = OverlapVerification.not_requested;
}

pub record PhysicalReadEvidence : Type 0 where
  pub start_lba : ℤ
  pub frames_requested : ℕ
  pub observed_start_lba : ℤ
  pub frames_read : ℕ
  pub native_error : ℤ

pub record OffsetReadEvidence : Type 0 where
  pub samples : ℤ
  pub single_physical_read : Option PhysicalReadEvidence

pub record ReadResult : Type 0 where
  pub start_lba : ℤ
  pub frames_requested : ℕ
  pub frames_read : ℕ
  pub status : ReadStatus
  pub native_error : ℤ
  pub retries : ℕ
  pub paranoia : ParanoiaEvents
  pub verification : LocalReadVerification
  pub read_independence : ReadIndependence
  pub c2_status : C2Status
  pub offset : Option OffsetReadEvidence

-- ReadResult{start, requested, read, status, error, retries}: the other fields have their defaults.
abbrev pub read_result : ℤ → ℕ → ℕ → ReadStatus → ℤ → ℕ → ReadResult
read_result start requested read status error retries = record {
  start_lba = start;
  frames_requested = requested;
  frames_read = read;
  status = status;
  native_error = error;
  retries = retries;
  paranoia = no_events;
  verification = no_verification;
  read_independence = ReadIndependence.unknown;
  c2_status = C2Status.not_checked;
  offset = none;
}

abbrev pub is_ok : ReadStatus → Bool
is_ok ReadStatus.ok = true
is_ok ReadStatus.read_error = false

pub record CddaReader : Type 1 where
  pub State : Type 0
  pub seek : ℤ → State → Outcome (Unit {0}) × State
  pub read : List ℤ → State → Outcome (ReadResult × List ℤ) × State
