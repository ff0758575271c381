-- ===== src/Verifier/Steady.antt =====
-- RepeatedReadVerifier::read over a wrapped reader that reads without error and always the same.
use picdplayer.Outcome.{Outcome, returned, thrown, undefined}
use picdplayer.Prelude.{
  ℕ, zero, suc, ◌+◌, ◌*◌, ◌≤◌, ◌<◌, ◌≡◌, refl, true, false, not, ◌&&◌, ◌⊎◌, inl, inr, none, List, ℤ,
  leb, ◌==◌, take, drop, arith, Bool-cases,
}
use picdplayer.Reader.{CddaReader, ReadResult, ReadStatus, samples_per_frame}
use picdplayer.Verifier.{RepeatedReadPolicy, vote, same_pcm}
use picdplayer.Verifier.Attempt.{Range, Progress, is_complete, complete_attempt}
use picdplayer.Verifier.Read.{
  Ended, unmatched, matched, failed, faulted, loop, attempt_read, out_of_time, ticks_after, Run,
  Verifier, overlap_of, range_of, finish, finish_matched, accept, rejects, frames_in, run_of, read,
}
use picdplayer.Verifier.Candidates.{
  matches_of, matches_of-vote, vote-found, vote-found_matches, same_pcm_refl,
}

module _ (R : CddaReader) (clock : ℕ → ℕ) (policy : RepeatedReadPolicy) (g : Range) (started : ℕ)
    (sample : List ℤ) where
  open R use {State as Inner}

  -- Every round gives a complete read of this sample.
  pub record Reads (s : Inner) (r : ReadResult) : Type 0 where
    pub gives : (attempt_read R clock g s).0 ≡ returned (r, sample)
    pub whole : is_complete g r ≡ true

  abbrev pub IsSteady : Type 0
  IsSteady = (s : Inner) → (r : ReadResult) × Reads s r

  abbrev pub IsInTime : Type 0
  IsInTime = (attempt ticks : ℕ) → out_of_time R clock policy started attempt ticks ≡ false

  abbrev pub IsMatched : Ended → Type 0
  IsMatched (matched p w) = w.found.pcm ≡ sample
  IsMatched (unmatched p) = ⊥
  IsMatched (failed e) = ⊥
  IsMatched faulted = ⊥

  pub loop-IsMatched :
      IsSteady
      → IsInTime
      → (left attempt : ℕ) (p : Progress) (s : Inner) (ticks : ℕ) → 1 ≤ left
      → policy.required_matches ≤ matches_of sample p.candidates + left
      → IsMatched (loop R clock policy g started left attempt p s ticks).ended
  unfolding loop complete_attempt
  loop-IsMatched steady in_time zero attempt p s ticks some_left enough = absurd (ground arith)
  loop-IsMatched steady in_time (suc left) attempt p s ticks some_left enough =
      let (r, reads) = steady s in
      elim (Bool-cases
        (leb policy.required_matches (vote p.candidates sample r.c2_status).found.matches)) [
          | inl agreed ↦
              rw (in_time attempt ticks, reads.gives, reads.whole, agreed, loop)
                (vote-found p.candidates sample r.c2_status)
          | inr more ↦
              rw (in_time attempt ticks, reads.gives, reads.whole, more, loop)
                (let below : suc (matches_of sample p.candidates) < policy.required_matches =
                    ground (arith, vote-found_matches p.candidates sample r.c2_status) in
                  let again : matches_of sample (complete_attempt g p r sample).candidates
                      ≡ suc (matches_of sample p.candidates) =
                    rw
                      (matches_of-vote sample p.candidates sample r.c2_status, same_pcm_refl sample)
                      (omega arith) in
                  loop-IsMatched steady in_time left (suc attempt) (complete_attempt g p r sample)
                    (attempt_read R clock g s).1 (ticks_after R clock attempt ticks) (omega arith)
                    (omega (arith, again)))
        ]

module _ (R : CddaReader) (clock : ℕ → ℕ) (v : Verifier R clock) (pcm sample : List ℤ) where
  -- The call returns the sample behind the overlap, with status ok.
  abbrev pub Returns : Outcome (ReadResult × List ℤ) → Type 0
  Returns (returned (r, out)) =
      (out ≡ drop (overlap_of R clock v * samples_per_frame) sample) × (r.status ≡ ReadStatus.ok)
  Returns (thrown e) = ⊥
  Returns undefined = ⊥

  -- There is no overlap, or the sample starts with the tail of the cursor.
  abbrev pub IsJoined : Type 0
  IsJoined =
      (overlap_of R clock v ≡ 0)
      ⊎ (take (overlap_of R clock v * samples_per_frame) sample ≡ v.cursor.prior_tail)

  joined_test :
      IsJoined
      → (not (overlap_of R clock v == 0)
          && not (
              same_pcm
                (take (overlap_of R clock v * samples_per_frame) sample)
                v.cursor.prior_tail))
        ≡ false
  joined_test (inl alone) = rw alone refl
  joined_test (inr joined) = rw (joined, same_pcm_refl v.cursor.prior_tail) (ground arith)

  finish-Returns :
      (frames : ℕ) (run : Run R clock) (o : Ended)
      → IsJoined
      → IsMatched R clock v.policy (range_of R clock v frames) (clock v.ticks) sample o
      → Returns (finish R clock v frames pcm run o).0
  unfolding finish finish_matched accept
  finish-Returns frames run (unmatched p) joined h = absurd h
  finish-Returns frames run (matched p w) joined h = rw (h, joined_test joined, finish) (refl, refl)
  finish-Returns frames run (failed e) joined h = absurd h
  finish-Returns frames run faulted joined h = absurd h

  -- Over a wrapped reader whose every round gives a complete read of the same sample, with the clock
  -- inside the time budget and at least one and at most the maximum of attempts required to match, a
  -- call that passes the argument checks, without an overlap or with one whose frames the sample starts
  -- with as the cursor's tail has them, returns with status ok the part of the sample behind the
  -- overlap.
  pub read-Returns :
      rejects R clock v pcm ≡ none
      → IsJoined
      → 1 ≤ v.policy.required_matches
      → v.policy.required_matches ≤ v.policy.maximum_attempts
      → IsSteady R clock v.policy
          (range_of R clock v (frames_in R clock pcm))
          (clock v.ticks)
          sample
      → IsInTime R clock v.policy
          (range_of R clock v (frames_in R clock pcm))
          (clock v.ticks)
          sample
      → Returns (read R clock v pcm).0
  unfolding read run_of
  read-Returns fine joined some_matches enough steady in_time =
      rw (fine, read)
        (finish-Returns (frames_in R clock pcm) (run_of R clock v (frames_in R clock pcm)) _ joined
          (loop-IsMatched R clock v.policy (range_of R clock v (frames_in R clock pcm))
            (clock v.ticks) sample steady in_time v.policy.maximum_attempts 0 _ v.inner _
            (omega arith) (omega arith)))
