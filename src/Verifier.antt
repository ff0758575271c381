-- ===== src/Verifier.antt =====
-- src/repeated_read_verifier.cpp: a reader that returns PCM only when enough complete reads of the
-- wrapped reader agree on it.
-- The wrapped reader and the clock are parameters; `clock k` is what the k-th call of the clock
-- returns, in nanoseconds. A PCM buffer is the list of its samples.
pub mod Candidates
pub mod Attempt
pub mod Read
pub mod Tally
pub mod Agreement
pub mod Block
pub mod Steady
use picdplayer.Outcome.{
  Outcome, returned, thrown, undefined, Exception, invalid_argument, logic_error, throw_if, ◌>>=◌,
  ◌>>◌,
}
use picdplayer.Prelude.{
  ℕ, zero, suc, ◌+◌, ◌-◌, ◌*◌, ◌/◌, ◌%◌, ◌^◌, Bool, true, false, not, ◌&&◌, ◌||◌, Option, none,
  some, List, [], ◌∷◌, ◌++◌, ℤ, pos, negsuc, pos_part, neg_part, ◌+ℤ◌, ◌-ℤ◌, ltb_ℤ, leb_ℤ, ◌==ℤ◌,
  ltb, leb, ◌==◌, if◌then◌else◌, length, take, drop, replicate, min, max,
}
use picdplayer.Reader.{
  CddaReader, ReadResult, ReadStatus, ReadIndependence, C2Status, OverlapVerification,
  ParanoiaEvents, ReadAttemptEvidence, LocalReadVerification, OffsetReadEvidence,
  PhysicalReadEvidence, read_result, no_verification, is_ok, samples_per_frame, int32_max, add32,
}

pub record RepeatedReadPolicy : Type 0 where
  pub required_matches : ℕ
  pub maximum_attempts : ℕ
  pub time_budget : ℤ  -- milliseconds
  pub overlap_frames : ℕ

abbrev pub maximum_verification_attempts : ℕ
maximum_verification_attempts = 8

unfoldable pub validate_repeated_read_policy : RepeatedReadPolicy → Outcome (Unit {0})
validate_repeated_read_policy p =
    throw_if
      (ltb p.required_matches 2
        || ltb p.maximum_attempts p.required_matches
        || ltb maximum_verification_attempts p.maximum_attempts
        || ltb_ℤ p.time_budget (pos 1)
        || ltb 75 p.overlap_frames
        || ltb_ℤ (pos 60000) p.time_budget)
      invalid_argument

abbrev pub add_events : ParanoiaEvents → ParanoiaEvents → ParanoiaEvents
add_events to from = record {
  reads = add32 to.reads from.reads;
  verifies = add32 to.verifies from.verifies;
  fixups = add32 to.fixups from.fixups;
  skips = add32 to.skips from.skips;
  read_errors = add32 to.read_errors from.read_errors;
  cache_errors = add32 to.cache_errors from.cache_errors;
  other = add32 to.other from.other;
}

abbrev pub same_c2 : C2Status → C2Status → Bool
same_c2 C2Status.unknown C2Status.unknown = true
same_c2 C2Status.not_available C2Status.not_available = true
same_c2 C2Status.not_checked C2Status.not_checked = true
same_c2 C2Status.clean C2Status.clean = true
same_c2 C2Status.reported C2Status.reported = true
same_c2 _ _ = false

unfoldable pub merge_c2_status : C2Status → C2Status → C2Status
merge_c2_status earlier later =
    if same_c2 earlier C2Status.reported || same_c2 later C2Status.reported
    then C2Status.reported
    else if same_c2 earlier later
    then earlier
    else C2Status.unknown

pub record Candidate : Type 0 where
  pub pcm : List ℤ
  pub matches : ℕ
  pub c2_status : C2Status

-- std::vector's == on samples.
unfoldable pub same_pcm : List ℤ → List ℤ → Bool
same_pcm [] [] = true
same_pcm [] (_ ∷ _) = false
same_pcm (_ ∷ _) [] = false
same_pcm (a ∷ rest) (b ∷ others) = (a ==ℤ b) && same_pcm rest others

-- The candidates after a complete read, and the one that the read found or made, with its index.
pub record Vote : Type 0 where
  pub candidates : List Candidate
  pub found : Candidate
  pub index : ℕ

abbrev pub fresh_candidate : List ℤ → C2Status → Candidate
fresh_candidate sample c2 = record { pcm = sample; matches = 1; c2_status = c2 }

abbrev pub matched_again : Candidate → C2Status → Candidate
matched_again c c2 = record c {
  matches = c.matches + 1;
  c2_status = merge_c2_status c.c2_status c2;
}

abbrev pub vote_behind : Candidate → Vote → Vote
vote_behind c v = record { candidates = c ∷ v.candidates; found = v.found; index = suc v.index }

unfoldable pub vote : List Candidate → List ℤ → C2Status → Vote
unfolding same_pcm
vote [] sample c2 = record {
  candidates = fresh_candidate sample c2 ∷ [];
  found = fresh_candidate sample c2;
  index = 0;
}
vote (c ∷ cs) sample c2 =
    let later = vote_behind c (vote cs sample c2) in
    if same_pcm c.pcm sample
    then record { candidates = matched_again c c2 ∷ cs; found = matched_again c c2; index = 0 }
    else later

unfoldable pub matches_any : List Candidate → List ℤ → Bool
unfolding same_pcm
matches_any [] sample = false
matches_any (c ∷ cs) sample = same_pcm c.pcm sample || matches_any cs sample

abbrev pub is_nil {ℓ} : {A : Type ℓ} → List A → Bool
is_nil [] = true
is_nil (_ ∷ _) = false

-- A new candidate beside others is a mismatch.
abbrev pub is_mismatch : List Candidate → List ℤ → Bool
is_mismatch cs sample = not (matches_any cs sample) && not (is_nil cs)
