-- ===== src/Verifier/Attempt.antt =====
-- The body of the loop of RepeatedReadVerifier::read: what one attempt adds to the result.
use picdplayer.Prelude.{
  ℕ, suc, ◌+◌, Bool, ◌&&◌, Option, none, some, List, [], ◌∷◌, ◌++◌, ℤ, pos, ◌==ℤ◌, ◌==◌,
  if◌then◌else◌, max,
}
use picdplayer.Reader.{
  ReadResult, ReadAttemptEvidence, LocalReadVerification, OffsetReadEvidence, is_ok, add32,
}
use picdplayer.Verifier.{Candidate, Vote, vote, is_mismatch, matches_any, add_events}

-- The physical range of the call: `physical_start` and `physical_frames`.
pub record Range : Type 0 where
  pub start : ℤ
  pub frames : ℕ

pub record Progress : Type 0 where
  pub combined : ReadResult
  pub candidates : List Candidate

-- detail.complete
abbrev pub is_complete : Range → ReadResult → Bool
is_complete g r = is_ok r.status && (r.start_lba ==ℤ g.start) && (r.frames_read == g.frames)

-- The evidence of an attempt, before a wrapped offset reader's physical read replaces four fields.
abbrev pub plain_detail : Range → ReadResult → Option ℕ → ReadAttemptEvidence
plain_detail g r candidate = record {
  frames_read = r.frames_read;
  complete = is_complete g r;
  native_error = r.native_error;
  direct_retries = r.retries;
  candidate = candidate;
  physical_start_lba = g.start;
  observed_start_lba = r.start_lba;
  physical_frames_requested = g.frames;
  logical_start_lba = g.start;
  logical_frames_requested = g.frames;
}

abbrev pub physical_detail : Option OffsetReadEvidence → ReadAttemptEvidence → ReadAttemptEvidence
physical_detail none d = d
physical_detail (some o) d = elim o.single_physical_read [
  | none ↦ d
  | some raw ↦ record d {
    physical_start_lba = raw.start_lba;
    physical_frames_requested = raw.frames_requested;
    observed_start_lba = raw.observed_start_lba;
    frames_read = raw.frames_read;
  }
]

abbrev pub detail : Range → ReadResult → Option ℕ → ReadAttemptEvidence
detail g r candidate = physical_detail r.offset (plain_detail g r candidate)

abbrev pub offset_after :
    Option OffsetReadEvidence → Option OffsetReadEvidence → Option OffsetReadEvidence
offset_after none old = old
offset_after (some o) old = some (record { samples = o.samples; single_physical_read = none })

-- What every attempt adds, with its detail entry.
unfoldable pub note_attempt : Range → ReadResult → ReadResult → Option ℕ → ReadResult
note_attempt g combined r candidate = record combined {
  offset = offset_after r.offset combined.offset;
  retries = add32 combined.retries r.retries;
  paranoia = add_events combined.paranoia r.paranoia;
  native_error = if r.native_error ==ℤ pos 0 then combined.native_error else r.native_error;
  verification = record combined.verification {
    attempts = combined.verification.attempts + 1;
    details = combined.verification.details ++ (detail g r candidate ∷ []);
  };
}

-- What a complete attempt adds to the counters, by the vote on its sample.
abbrev pub count_vote : LocalReadVerification → Bool → Vote → LocalReadVerification
count_vote v mismatch w = record v {
  complete_reads = v.complete_reads + 1;
  mismatches = if mismatch then v.mismatches + 1 else v.mismatches;
  matching_reads = max v.matching_reads w.found.matches;
}

unfoldable pub incomplete_attempt : Range → Progress → ReadResult → Progress
unfolding note_attempt
incomplete_attempt g p r = record p { combined = note_attempt g p.combined r none }

unfoldable pub complete_attempt : Range → Progress → ReadResult → List ℤ → Progress
unfolding note_attempt vote matches_any
complete_attempt g p r sample =
    let w = vote p.candidates sample r.c2_status in
    let noted = note_attempt g p.combined r (some (suc w.index)) in
    record {
      combined = record noted {
        verification = count_vote noted.verification (is_mismatch p.candidates sample) w;
      };
      candidates = w.candidates;
    }
