-- ===== src/Verifier/Block.antt =====
-- RepeatedReadVerifier::read: what each of its outcomes says of the block and of the wrapped reader.
use picdplayer.Outcome.{Outcome, returned, thrown, undefined}
use picdplayer.Prelude.{
  ℕ, ◌*◌, ◌-◌, ◌≤◌, ◌≡◌, refl, false, ◌⊎◌, inl, inr, List, [], ◌++◌, ℤ, min, length, length-drop,
  pos, ◌+ℤ◌, ◌==◌, take, drop, arith, Bool-cases, Option-cases,
}
use picdplayer.Prelude.Slice.{take-drop}
use picdplayer.Reader.{LocalReadVerification, CddaReader, ReadResult, ReadStatus, samples_per_frame}
use picdplayer.Verifier.{Vote, same_pcm}
use picdplayer.Verifier.Attempt.{Progress}
use picdplayer.Verifier.Read.{
  Ended, unmatched, matched, failed, faulted, Cursor, accept, Verifier, Run, overlap_of, range_of,
  run_of, finish, finish_matched, frames_in, rejects, read, initial_result,
}
use picdplayer.Verifier.Candidates.{occurrences, matches_of, same_pcm-eq}
use picdplayer.Verifier.Tally.{Tally}
use picdplayer.Verifier.Agreement.{
  complete_samples, attempts_from, LoopPost, loop-LoopPost, Agreement, Unmatched,
}

length-tail : (n : ℕ) (xs : List ℤ) → length (drop (length xs - n) xs) ≡ min n (length xs)
length-tail n xs = omega (arith, length-drop (length xs - n) xs)

module _ (R : CddaReader) (clock : ℕ → ℕ) (v : Verifier R clock) (pcm : List ℤ) where
  -- The block is the end of a sample that the wrapped reader gave `required_matches` times or more
  -- in at most `maximum_attempts` rounds, and whose start is the tail that the cursor holds. The new
  -- tail is the end of this block: the frames of the policy's overlap, as far as the block has them.
  pub record Accepted (result : ReadResult) (out : List ℤ) (c : Cursor) : Type 0 where
    pub sample : List ℤ
    pub block : out ≡ drop (overlap_of R clock v * samples_per_frame) sample
    pub used : ℕ
    pub used-le : used ≤ v.policy.maximum_attempts
    pub enough :
        v.policy.required_matches
        ≤ occurrences sample (
            complete_samples
              (range_of R clock v (frames_in R clock pcm))
              (attempts_from R clock (range_of R clock v (frames_in R clock pcm)) used v.inner))
    pub joined :
        (overlap_of R clock v ≡ 0)
        ⊎ (take (overlap_of R clock v * samples_per_frame) sample ≡ v.cursor.prior_tail)
    pub status : result.status ≡ ReadStatus.ok
    pub frames_read : result.frames_read ≡ frames_in R clock pcm
    pub start : result.start_lba ≡ v.cursor.position
    pub matching : v.policy.required_matches ≤ result.verification.matching_reads
    pub position : c.position ≡ v.cursor.position +ℤ pos (frames_in R clock pcm)
    pub positioned : c.positioned ≡ v.cursor.positioned
    pub front : List ℤ
    pub ends : front ++ c.prior_tail ≡ out
    pub tail_size :
        length c.prior_tail
        ≡ min (min v.policy.overlap_frames (frames_in R clock pcm) * samples_per_frame) (length out)

  -- The caller's buffer is as it was, and the next read needs a seek.
  pub record Refused (result : ReadResult) (out : List ℤ) (c : Cursor) : Type 0 where
    pub buffer : out ≡ pcm
    pub status : result.status ≡ ReadStatus.read_error
    pub frames_read : result.frames_read ≡ 0
    pub start : result.start_lba ≡ v.cursor.position
    pub positioned : c.positioned ≡ false
    pub position : c.position ≡ v.cursor.position
    pub prior_tail : c.prior_tail ≡ v.cursor.prior_tail
    pub attempts : result.verification.attempts ≤ v.policy.maximum_attempts

  abbrev pub ReadPost : Outcome (ReadResult × List ℤ) × Verifier R clock → Type 0
  ReadPost (returned (result, out), v') =
      Accepted result out v'.cursor ⊎ Refused result out v'.cursor
  ReadPost (thrown e, v') = v'.cursor ≡ v.cursor
  ReadPost (undefined, v') = v'.cursor ≡ v.cursor

  abbrev frames : ℕ
  frames = frames_in R clock pcm

  abbrev start : Progress
  start = record {
    combined =
        initial_result v.cursor.position frames v.policy.overlap_frames (overlap_of R clock v);
    candidates = [];
  }

  abbrev tail_of : ℕ
  tail_of = min v.policy.overlap_frames frames * samples_per_frame

  abbrev block_of : Vote → List ℤ
  block_of w = drop (overlap_of R clock v * samples_per_frame) w.found.pcm

  start-Tally : Tally v.cursor.position frames start []
  unfolding initial_result occurrences matches_of
  start-Tally = record {
    votes = λ q. refl;
    details = refl;
    complete_reads = refl;
    at_most = omega arith;
    status = refl;
    frames_read = refl;
    start = refl;
    requested = refl;
  }

  Unmatched-Refused :
      (p : Progress) (c : Cursor)
      → c.position ≡ v.cursor.position
      → c.positioned ≡ false
      → c.prior_tail ≡ v.cursor.prior_tail
      → Unmatched R clock v.cursor.position frames v.policy.maximum_attempts start p
      → (e : ℤ) (x : LocalReadVerification) → x.attempts ≡ p.combined.verification.attempts
      → Refused (record p.combined { native_error = e; verification = x }) pcm c
  unfolding initial_result
  Unmatched-Refused p c at off tail h e x same = record {
    buffer = refl;
    status = h.tally.status;
    frames_read = h.tally.frames_read;
    start = h.tally.start;
    positioned = off;
    position = at;
    prior_tail = tail;
    attempts = omega (arith, same, h.attempts);
  }

  accept-ReadPost :
      (run : Run R clock) (p : Progress) (w : Vote)
      → Agreement R clock v.policy
          (range_of R clock v frames)
          v.inner
          v.policy.maximum_attempts
          start
          p
          w
          []
      → Unmatched R clock v.cursor.position frames v.policy.maximum_attempts start p
      → ReadPost (finish R clock v frames pcm run (matched p w))
  unfolding finish accept finish_matched occurrences
  accept-ReadPost run p w a h = elim (Bool-cases (overlap_of R clock v == 0)) [
    | inl alone ↦ rw alone (
        inl (record {
          sample = w.found.pcm;
          block = refl;
          used = a.used;
          used-le = a.used-le;
          enough = omega (arith, a.enough);
          joined = inl (ground arith);
          status = refl;
          frames_read = refl;
          start = h.tally.start;
          matching = a.matching;
          position = refl;
          positioned = refl;
          front = take (length (block_of w) - tail_of) (block_of w);
          ends = take-drop (length (block_of w) - tail_of) (block_of w);
          tail_size = length-tail tail_of (block_of w);
        }))
    | inr some_overlap ↦
        elim (Bool-cases (
          same_pcm (take (overlap_of R clock v * samples_per_frame) w.found.pcm)
            v.cursor.prior_tail)) [
              | inl joined ↦
                  rw (some_overlap, joined)
                    (inl (record {
                      sample = w.found.pcm;
                      block = refl;
                      used = a.used;
                      used-le = a.used-le;
                      enough = omega (arith, a.enough);
                      joined = inr (same_pcm-eq _ _ joined);
                      status = refl;
                      frames_read = refl;
                      start = h.tally.start;
                      matching = a.matching;
                      position = refl;
                      positioned = refl;
                      front = take (length (block_of w) - tail_of) (block_of w);
                      ends = take-drop (length (block_of w) - tail_of) (block_of w);
                      tail_size = length-tail tail_of (block_of w);
                    }))
              | inr broken ↦
                  rw (some_overlap, broken) (inr (Unmatched-Refused p _ refl refl refl h _ _ refl))
            ]
  ]

  finish-ReadPost :
      (run : Run R clock) (o : Ended)
      → LoopPost R clock v.policy v.cursor.position frames
          (range_of R clock v frames)
          v.inner
          v.policy.maximum_attempts
          start
          []
          o
      → ReadPost (finish R clock v frames pcm run o)
  unfolding finish
  finish-ReadPost run (unmatched p) h = inr (Unmatched-Refused p _ refl refl refl h _ _ refl)
  finish-ReadPost run (matched p w) (a, h) = accept-ReadPost run p w a h
  finish-ReadPost run (failed e) h = refl
  finish-ReadPost run faulted h = refl

  -- A returned block is the part behind the overlap of a sample that the wrapped reader gave at least
  -- `required_matches` times among its complete reads in at most `maximum_attempts` rounds from its
  -- state at the call. When there is an overlap, the sample starts with the tail that the cursor holds.
  -- The new tail is the end of the returned block, of the overlap's length by the policy but at most
  -- the frames of the call and the block, and the position moves by the frames read. A returned failure
  -- leaves the buffer, position and tail, and needs a new seek. An exception leaves position, flag and
  -- tail.
  pub read-ReadPost : ReadPost (read R clock v pcm)
  unfolding read run_of
  read-ReadPost = elim (Option-cases (rejects R clock v pcm)) [
    | inl e ↦
        rw (e, read)
          (finish-ReadPost (run_of R clock v frames) _ (
            loop-LoopPost R clock v.policy v.cursor.position frames (range_of R clock v frames)
              (clock v.ticks) v.policy.maximum_attempts 0 start v.inner _ [] start-Tally))
    | inr (x, e) ↦ rw (e, read) refl
  ]
