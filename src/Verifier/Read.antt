-- ===== src/Verifier/Read.antt =====
-- RepeatedReadVerifier: the loop over the attempts, seek and read.
use picdplayer.Outcome.{
  Outcome, returned, thrown, undefined, Exception, invalid_argument, logic_error,
}
use picdplayer.Prelude.{
  ℕ, zero, suc, ◌+◌, ◌-◌, ◌*◌, ◌/◌, ◌%◌, ◌^◌, Bool, true, false, not, ◌&&◌, ◌||◌, Option, none,
  some, List, [], ℤ, pos, negsuc, pos_part, ◌+ℤ◌, ◌-ℤ◌, ltb_ℤ, ltb, leb, ◌==◌, if◌then◌else◌,
  length, take, drop, replicate, min,
}
use picdplayer.Reader.{
  CddaReader, ReadResult, ReadStatus, ReadIndependence, OverlapVerification, LocalReadVerification,
  read_result, samples_per_frame, int32_max,
}
use picdplayer.Verifier.{RepeatedReadPolicy, Vote, vote, same_pcm, is_nil}
use picdplayer.Verifier.Attempt.{Range, Progress, is_complete, incomplete_attempt, complete_attempt}

abbrev eio : ℤ
eio = pos 5

abbrev eilseq : ℤ
eilseq = pos 84

-- How the loop ends: with no agreement, with the candidate of the last attempt, or by an exception
-- of the wrapped reader.
pub data Ended : Type 0 where
  unmatched : Progress → Ended
  matched : Progress → Vote → Ended
  failed : Exception → Ended
  faulted : Ended

-- The state of the object apart from the wrapped reader and the clock.
pub record Cursor : Type 0 where
  pub position : ℤ
  pub positioned : Bool
  pub prior_tail : List ℤ

abbrev pub with_verification : ReadResult → LocalReadVerification → ReadResult
with_verification r v = record r { verification = v }

-- The result before the first attempt.
unfoldable pub initial_result : ℤ → ℕ → ℕ → ℕ → ReadResult
initial_result position frames requested overlap =
    let r = read_result position frames 0 ReadStatus.read_error eio 0 in
    record r {
      read_independence = ReadIndependence.cache_possible;
      verification = record r.verification {
        overlap_frames_requested = requested;
        overlap =
            if requested == 0
            then OverlapVerification.not_requested
            else if overlap == 0
            then OverlapVerification.stream_boundary
            else OverlapVerification.not_checked;
      };
    }

-- What the call does with the candidate that reached the threshold: the overlap with the previous
-- block must agree, and then the rest of the candidate is the block.
unfoldable pub accept :
    RepeatedReadPolicy → Cursor → ℕ → ℕ → List ℤ → ReadResult → Vote → ReadResult × List ℤ × Cursor
accept policy c frames overlap pcm combined w =
    let output = drop (overlap * samples_per_frame) w.found.pcm in
    let compared = record combined.verification { overlap_frames_compared = overlap } in
    if not (overlap == 0)
      && not (same_pcm (take (overlap * samples_per_frame) w.found.pcm) c.prior_tail)
    then (
      record combined {
        verification = record compared { overlap = OverlapVerification.mismatched };
        native_error = eilseq;
      },
      pcm,
      record c { positioned = false },
    )
    else (
      record combined {
        verification = record compared {
          overlap = if overlap == 0 then compared.overlap else OverlapVerification.matched;
          accepted_candidate = some (suc w.index);
          accepted_attempt = some compared.attempts;
        };
        frames_read = frames;
        status = ReadStatus.ok;
        native_error = pos 0;
        c2_status = w.found.c2_status;
      },
      output,
      record {
        position = c.position +ℤ pos frames;
        positioned = c.positioned;
        prior_tail =
            drop (length output - min policy.overlap_frames frames * samples_per_frame) output;
      },
    )

module _ (R : CddaReader) (clock : ℕ → ℕ) where
  open R use {State as Inner, seek as inner_seek, read as inner_read}

  pub record Verifier : Type 0 where
    pub inner : Inner
    pub ticks : ℕ
    pub policy : RepeatedReadPolicy
    pub cursor : Cursor

  unfoldable pub read_after_seek :
      ℕ → Outcome (Unit {0}) × Inner → Outcome (ReadResult × List ℤ) × Inner
  read_after_seek n (returned _, s) = inner_read (replicate n (pos 0)) s
  read_after_seek n (thrown e, s) = (thrown e, s)
  read_after_seek n (undefined, s) = (undefined, s)

  -- reader_->seek(physical_start); reader_->read(sample)
  unfoldable pub attempt_read : Range → Inner → Outcome (ReadResult × List ℤ) × Inner
  unfolding read_after_seek
  attempt_read g s = read_after_seek (g.frames * samples_per_frame) (inner_seek g.start s)

  pub record Run : Type 0 where
    pub ended : Ended
    pub inner : Inner
    pub ticks : ℕ

  -- `now_() - started >= time_budget`, asked from the second attempt on.
  unfoldable pub out_of_time : RepeatedReadPolicy → ℕ → ℕ → ℕ → Bool
  out_of_time policy started attempt ticks =
      not (attempt == 0) && leb (pos_part policy.time_budget * 1_000_000) (clock ticks - started)

  unfoldable pub ticks_after : ℕ → ℕ → ℕ
  ticks_after attempt ticks = if attempt == 0 then ticks else suc ticks

  -- The loop, with the attempts that are left and the number of this one.
  unfoldable pub loop : RepeatedReadPolicy → Range → ℕ → ℕ → ℕ → Progress → Inner → ℕ → Run
  unfolding attempt_read out_of_time ticks_after incomplete_attempt complete_attempt vote
  loop policy g started zero attempt p s ticks = record {
    ended = unmatched p;
    inner = s;
    ticks = ticks;
  }
  loop policy g started (suc left) attempt p s ticks =
      elim (out_of_time policy started attempt ticks) [
        | true ↦ record {
          ended = unmatched (record p {
            combined =
                with_verification p.combined
                  (record p.combined.verification { time_budget_exhausted = true });
          });
          inner = s;
          ticks = ticks_after attempt ticks;
        }
        | false ↦ elim (attempt_read g s).0 [
          | returned r ↦ elim (is_complete g r.0) [
            | false ↦
                loop policy g started left (suc attempt) (incomplete_attempt g p r.0)
                  (attempt_read g s).1 (ticks_after attempt ticks)
            | true ↦
                elim (leb policy.required_matches
                  (vote p.candidates r.1 r.0.c2_status).found.matches) [
                    | true ↦ record {
                      ended =
                          matched (complete_attempt g p r.0 r.1)
                            (vote p.candidates r.1 r.0.c2_status);
                      inner = (attempt_read g s).1;
                      ticks = ticks_after attempt ticks;
                    }
                    | false ↦
                        loop policy g started left (suc attempt) (complete_attempt g p r.0 r.1)
                          (attempt_read g s).1 (ticks_after attempt ticks)
                  ]
          ]
          | thrown e ↦ record {
            ended = failed e;
            inner = (attempt_read g s).1;
            ticks = ticks_after attempt ticks;
          }
          | undefined ↦ record {
            ended = faulted;
            inner = (attempt_read g s).1;
            ticks = ticks_after attempt ticks;
          }
        ]
      ]

  unfoldable pub overlap_of : Verifier → ℕ
  overlap_of v = min v.policy.overlap_frames (length v.cursor.prior_tail / samples_per_frame)

  unfoldable pub range_of : Verifier → ℕ → Range
  unfolding overlap_of
  range_of v frames = record {
    start = v.cursor.position -ℤ pos (overlap_of v);
    frames = frames + overlap_of v;
  }

  -- The call after its argument checks, up to the end of the loop.
  unfoldable pub run_of : Verifier → ℕ → Run
  unfolding loop range_of initial_result
  run_of v frames =
      loop v.policy (range_of v frames) (clock v.ticks) v.policy.maximum_attempts 0
        (record {
          combined = initial_result v.cursor.position frames v.policy.overlap_frames (overlap_of v);
          candidates = [];
        })
        v.inner (suc v.ticks)

  abbrev pub moved : Verifier → Run → Cursor → Verifier
  moved v run c = record v { inner = run.inner; ticks = run.ticks; cursor = c }

  unfoldable pub finish_matched :
      Verifier
      → ℕ
      → List ℤ
      → Run
      → ReadResult × List ℤ × Cursor
      → Outcome (ReadResult × List ℤ) × Verifier
  finish_matched v frames pcm run (result, out, c) = (returned (result, out), moved v run c)

  unfoldable pub finish :
      Verifier → ℕ → List ℤ → Run → Ended → Outcome (ReadResult × List ℤ) × Verifier
  unfolding accept finish_matched
  finish v frames pcm run (unmatched p) =
      (returned (p.combined, pcm), moved v run (record v.cursor { positioned = false }))
  finish v frames pcm run (matched p w) =
      finish_matched v frames pcm run
        (accept v.policy v.cursor frames (overlap_of v) pcm p.combined w)
  finish v frames pcm run (failed e) = (thrown e, moved v run v.cursor)
  finish v frames pcm run faulted = (undefined, moved v run v.cursor)

  unfoldable pub frames_in : List ℤ → ℕ
  frames_in pcm = length pcm / samples_per_frame

  -- The argument checks: the exception that a bad call throws.
  unfoldable pub rejects : Verifier → List ℤ → Option Exception
  unfolding frames_in overlap_of
  rejects v pcm =
      if not v.cursor.positioned
      then some logic_error
      else if is_nil pcm
          || not (length pcm % samples_per_frame == 0)
          || ltb_ℤ (pos int32_max -ℤ v.cursor.position) (pos (frames_in pcm))
          || ltb (2 ^ 64 - 1 - overlap_of v) (frames_in pcm)
      then some invalid_argument
      else none

  unfoldable pub read : Verifier → List ℤ → Outcome (ReadResult × List ℤ) × Verifier
  unfolding rejects finish run_of frames_in
  read v pcm = elim (rejects v pcm) [
    | some e ↦ (thrown e, v)
    | none ↦
        finish v (frames_in pcm) pcm (run_of v (frames_in pcm)) (run_of v (frames_in pcm)).ended
  ]

  unfoldable pub seek_inner : Verifier → Outcome (Unit {0}) × Inner → Outcome (Unit {0}) × Verifier
  seek_inner v (o, s) = (o, record v { inner = s })

  unfoldable pub seek : Verifier → ℤ → Outcome (Unit {0}) × Verifier
  unfolding seek_inner
  seek v (negsuc n) = (thrown invalid_argument, v)
  seek v (pos n) =
      seek_inner
        (record v { cursor = record { position = pos n; positioned = true; prior_tail = [] } })
        (inner_seek (pos n) v.inner)

  -- The verifier is itself a reader.
  abbrev pub repeated_reader : CddaReader
  repeated_reader = record {
    State = Verifier;
    seek = λ lba v. seek v lba;
    read = λ pcm v. read v pcm;
  }
