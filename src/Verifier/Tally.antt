-- ===== src/Verifier/Tally.antt =====
-- What the attempts of a read so far add up to: the votes, and the counts of the evidence.
use picdplayer.Prelude.{ℕ, ◌≤◌, ◌≡◌, true, List, [], ◌∷◌, ℤ, length, length-append, arith}
use picdplayer.Reader.{ReadResult, ReadStatus}
use picdplayer.Verifier.Attempt.{Range, Progress, incomplete_attempt, complete_attempt}
use picdplayer.Verifier.Read.{
  Ended, unmatched, matched, failed, faulted, Cursor, accept, Verifier, attempt_read, Run,
  out_of_time, ticks_after, loop,
}
use picdplayer.Verifier.Read
use picdplayer.Verifier.Candidates.{occurrences, matches_of, matches_of-vote}

-- The progress of the loop after the complete samples `seen`, on a call for `frames` at `position`.
pub record Tally (position : ℤ) (frames : ℕ) (p : Progress) (seen : List (List ℤ)) : Type 0 where
  pub votes : (q : List ℤ) → matches_of q p.candidates ≡ occurrences q seen
  pub details : length p.combined.verification.details ≡ p.combined.verification.attempts
  pub complete_reads : p.combined.verification.complete_reads ≡ length seen
  pub at_most : length seen ≤ p.combined.verification.attempts
  pub status : p.combined.status ≡ ReadStatus.read_error
  pub frames_read : p.combined.frames_read ≡ 0
  pub start : p.combined.start_lba ≡ position
  pub requested : p.combined.frames_requested ≡ frames

module _ (position : ℤ) (frames : ℕ) (g : Range) (p : Progress) (r : ReadResult)
    (seen : List (List ℤ)) where
  pub Tally-incomplete :
      Tally position frames p seen → Tally position frames (incomplete_attempt g p r) seen
  unfolding incomplete_attempt
  Tally-incomplete t = record {
    votes = t.votes;
    details = omega (arith, t.details, length-append p.combined.verification.details (_ ∷ []));
    complete_reads = t.complete_reads;
    at_most = omega (arith, t.at_most);
    status = t.status;
    frames_read = t.frames_read;
    start = t.start;
    requested = t.requested;
  }

  pub Tally-complete :
      (sample : List ℤ)
      → Tally position frames p seen
      → Tally position frames (complete_attempt g p r sample) (sample ∷ seen)
  unfolding complete_attempt occurrences
  Tally-complete sample t = record {
    votes = λ q. omega (arith, matches_of-vote q p.candidates sample r.c2_status, t.votes q);
    details = omega (arith, t.details, length-append p.combined.verification.details (_ ∷ []));
    complete_reads = omega (arith, t.complete_reads);
    at_most = omega (arith, t.at_most);
    status = t.status;
    frames_read = t.frames_read;
    start = t.start;
    requested = t.requested;
  }

pub late-Tally :
    (position : ℤ) (frames : ℕ) (p : Progress) (seen : List (List ℤ))
    → Tally position frames p seen
    → Tally position frames
        (record p {
          combined =
              Read.with_verification p.combined
                (record p.combined.verification { time_budget_exhausted = true });
        })
        seen
late-Tally position frames p seen t = record {
  votes = t.votes;
  details = t.details;
  complete_reads = t.complete_reads;
  at_most = t.at_most;
  status = t.status;
  frames_read = t.frames_read;
  start = t.start;
  requested = t.requested;
}
