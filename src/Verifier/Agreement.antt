-- ===== src/Verifier/Agreement.antt =====
-- What RepeatedReadVerifier::read guarantees of a block that it returns.
use picdplayer.Outcome.{Outcome, returned, thrown, undefined, Exception}
use picdplayer.Prelude.{
  ℕ, zero, suc, ◌+◌, ◌≤◌, ◌≡◌, refl, sym, true, false, ◌⊎◌, inl, inr, List, [], ◌∷◌, ℤ, leb,
  if◌then◌else◌, arith, Bool-cases, leb→le,
}
use picdplayer.Reader.{CddaReader, ReadResult}
use picdplayer.Verifier.{RepeatedReadPolicy, Vote, vote}
use picdplayer.Verifier.Attempt.{Range, Progress, is_complete, incomplete_attempt, complete_attempt}
use picdplayer.Verifier.Read.{
  Ended, unmatched, matched, failed, faulted, attempt_read, out_of_time, ticks_after, loop,
}
use picdplayer.Verifier.Candidates.{
  same_pcm_refl, occurrences, matches_of, vote-found, vote-found_matches,
}
use picdplayer.Verifier.Tally.{Tally, Tally-incomplete, Tally-complete, late-Tally}

-- The samples of the complete reads among some results of the wrapped reader.
pub complete_samples : Range → List (ReadResult × List ℤ) → List (List ℤ)
complete_samples g [] = []
complete_samples g ((r, sample) ∷ rs) =
    let rest = complete_samples g rs in if is_complete g r then sample ∷ rest else rest

Outcome-cases {ℓ} :
    {A : Type ℓ} (o : Outcome A)
    → ((a : A) × (o ≡ returned a)) ⊎ ((e : Exception) × (o ≡ thrown e)) ⊎ (o ≡ undefined)
Outcome-cases (returned a) = inl (a, refl)
Outcome-cases (thrown e) = inr (inl (e, refl))
Outcome-cases undefined = inr (inr refl)

module _ (R : CddaReader) (clock : ℕ → ℕ) where
  open R use {State as Inner}

  -- What the wrapped reader itself does on `n` rounds of a seek to the range and a read of it.
  pub attempts_from : Range → ℕ → Inner → List (ReadResult × List ℤ)
  attempts_from g zero s = []
  attempts_from g (suc n) s = elim (attempt_read R clock g s).0 [
    | returned r ↦ r ∷ attempts_from g n (attempt_read R clock g s).1
    | thrown e ↦ []
    | undefined ↦ []
  ]

  pub record Agreement (policy : RepeatedReadPolicy) (g : Range) (s : Inner) (left : ℕ)
      (p p' : Progress) (w : Vote) (seen : List (List ℤ)) : Type 0 where
    pub used : ℕ
    pub used-le : used ≤ left
    pub attempts : p'.combined.verification.attempts ≡ p.combined.verification.attempts + used
    pub enough :
        policy.required_matches
        ≤ occurrences w.found.pcm (complete_samples g (attempts_from g used s))
          + occurrences w.found.pcm seen
    pub matching : policy.required_matches ≤ p'.combined.verification.matching_reads

  -- The result is still the failed one that the call started with.
  pub record Unmatched (position : ℤ) (frames : ℕ) (left : ℕ) (p p' : Progress) : Type 0 where
    pub attempts : p'.combined.verification.attempts ≤ p.combined.verification.attempts + left
    pub seen' : List (List ℤ)
    pub tally : Tally position frames p' seen'

  abbrev pub LoopPost :
      RepeatedReadPolicy → ℤ → ℕ → Range → Inner → ℕ → Progress → List (List ℤ) → Ended → Type 0
  LoopPost policy position frames g s left p seen (unmatched p') =
      Unmatched position frames left p p'
  LoopPost policy position frames g s left p seen (matched p' w) =
      Agreement policy g s left p p' w seen × Unmatched position frames left p p'
  LoopPost policy position frames g s left p seen (failed e) = Unit {0}
  LoopPost policy position frames g s left p seen faulted = Unit {0}

  module _ (g : Range) (s : Inner) (r : ReadResult × List ℤ)
      (e : (attempt_read R clock g s).0 ≡ returned r) where
    attempts-whole :
        is_complete g r.0 ≡ true
        → (n : ℕ)
        → complete_samples g (attempts_from g (suc n) s)
          ≡ r.1 ∷ complete_samples g (attempts_from g n (attempt_read R clock g s).1)
    unfolding attempts_from complete_samples
    attempts-whole whole n = rw (e, attempts_from, complete_samples, whole)

    attempts-short :
        is_complete g r.0 ≡ false
        → (n : ℕ)
        → complete_samples g (attempts_from g (suc n) s)
          ≡ complete_samples g (attempts_from g n (attempt_read R clock g s).1)
    unfolding attempts_from complete_samples
    attempts-short short n = rw (e, attempts_from, complete_samples, short)

  module _ (policy : RepeatedReadPolicy) (position : ℤ) (frames : ℕ) (g : Range) (left : ℕ)
      (p : Progress) (s : Inner) (seen : List (List ℤ)) (t : Tally position frames p seen)
      (r : ReadResult × List ℤ) (e : (attempt_read R clock g s).0 ≡ returned r) where
    abbrev w : Vote
    w = vote p.candidates r.1 r.0.c2_status

    agreed-Post :
        is_complete g r.0 ≡ true
        → leb policy.required_matches w.found.matches ≡ true
        → LoopPost policy position frames g s
            (suc left)
            p
            seen
            (matched (complete_attempt g p r.0 r.1) w)
    unfolding complete_attempt occurrences attempts_from complete_samples
    agreed-Post whole agreed =
        let le_matches : policy.required_matches ≤ matches_of r.1 p.candidates + 1 =
          rw (sym (vote-found_matches p.candidates r.1 r.0.c2_status)) (leb→le _ _ agreed) in
        (
          record {
            used = 1;
            used-le = omega arith;
            attempts = refl;
            enough =
                rw
                  (
                    vote-found p.candidates r.1 r.0.c2_status,
                    attempts-whole g s r e whole 0,
                    attempts_from,
                    complete_samples,
                    same_pcm_refl r.1,
                  )
                  (omega (arith, le_matches, t.votes r.1));
            matching = ground arith;
          },
          record {
            attempts = omega arith;
            seen' = r.1 ∷ seen;
            tally = Tally-complete position frames g p r.0 seen r.1 t;
          },
        )

    short-Post :
        is_complete g r.0 ≡ false
        → (o : Ended)
        → LoopPost policy position frames g
            (attempt_read R clock g s).1
            left
            (incomplete_attempt g p r.0)
            seen
            o
        → LoopPost policy position frames g s (suc left) p seen o
    unfolding incomplete_attempt
    short-Post short (unmatched p') h = record {
      attempts = omega (arith, h.attempts);
      seen' = h.seen';
      tally = h.tally;
    }
    short-Post short (matched p' v) (a, h) = (
      record {
        used = suc a.used;
        used-le = omega (arith, a.used-le);
        attempts = omega (arith, a.attempts);
        enough = rw (attempts-short g s r e short a.used) a.enough;
        matching = a.matching;
      },
      record { attempts = omega (arith, h.attempts); seen' = h.seen'; tally = h.tally },
    )
    short-Post short (failed x) h = tt
    short-Post short faulted h = tt

    more-Post :
        is_complete g r.0 ≡ true
        → (o : Ended)
        → LoopPost policy position frames g
            (attempt_read R clock g s).1
            left
            (complete_attempt g p r.0 r.1)
            (r.1 ∷ seen)
            o
        → LoopPost policy position frames g s (suc left) p seen o
    unfolding complete_attempt occurrences
    more-Post whole (unmatched p') h = record {
      attempts = omega (arith, h.attempts);
      seen' = h.seen';
      tally = h.tally;
    }
    more-Post whole (matched p' v) (a, h) = (
      record {
        used = suc a.used;
        used-le = omega (arith, a.used-le);
        attempts = omega (arith, a.attempts);
        enough = rw (attempts-whole g s r e whole a.used) (omega (arith, a.enough));
        matching = a.matching;
      },
      record { attempts = omega (arith, h.attempts); seen' = h.seen'; tally = h.tally },
    )
    more-Post whole (failed x) h = tt
    more-Post whole faulted h = tt

  module _ (policy : RepeatedReadPolicy) (position : ℤ) (frames : ℕ) (g : Range) (started : ℕ) where
    pub loop-LoopPost :
        (left attempt : ℕ) (p : Progress) (s : Inner) (ticks : ℕ) (seen : List (List ℤ))
        → Tally position frames p seen
        → LoopPost policy position frames g s left p seen
            (loop R clock policy g started left attempt p s ticks).ended
    unfolding loop
    loop-LoopPost zero attempt p s ticks seen t = record {
      attempts = omega arith;
      seen' = seen;
      tally = t;
    }
    loop-LoopPost (suc left) attempt p s ticks seen t =
        elim (Bool-cases (out_of_time R clock policy started attempt ticks)) [
          | inl late ↦
              rw (late, loop)
                (record {
                  attempts = omega arith;
                  seen' = seen;
                  tally = late-Tally position frames p seen t;
                })
          | inr on_time ↦ elim (Outcome-cases (attempt_read R clock g s).0) [
            | inl (r, e) ↦ elim (Bool-cases (is_complete g r.0)) [
              | inl whole ↦
                  elim (Bool-cases (
                    leb policy.required_matches
                      (vote p.candidates r.1 r.0.c2_status).found.matches)) [
                        | inl agreed ↦
                            rw (on_time, e, whole, agreed, loop)
                              (agreed-Post policy position frames g left p s seen t r e whole
                                agreed)
                        | inr more ↦
                            rw (on_time, e, whole, more, loop)
                              (more-Post policy position frames g left p s seen t r e whole _ (
                                loop-LoopPost left (suc attempt) (complete_attempt g p r.0 r.1)
                                  (attempt_read R clock g s).1 (ticks_after R clock attempt ticks)
                                  (r.1 ∷ seen) (Tally-complete position frames g p r.0 seen r.1 t)))
                      ]
              | inr short ↦
                  rw (on_time, e, short, loop)
                    (short-Post policy position frames g left p s seen t r e short _ (
                      loop-LoopPost left (suc attempt) (incomplete_attempt g p r.0)
                        (attempt_read R clock g s).1 (ticks_after R clock attempt ticks) seen
                        (Tally-incomplete position frames g p r.0 seen t)))
            ]
            | inr (inl (x, e)) ↦ rw (on_time, e, loop) tt
            | inr (inr e) ↦ rw (on_time, e, loop) tt
          ]
        ]
