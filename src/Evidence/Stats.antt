-- ===== src/Evidence/Stats.antt =====
-- The counters of a stream against its history of reads.
use picdplayer.Prelude.{
  ℕ, zero, suc, ◌+◌, ◌-◌, ◌≤◌, ◌<◌, ◌^◌, ◌≡◌, false, ◌&&◌, inl, inr, List, [], ◌∷◌, pos_part,
  neg_part, if◌then◌else◌, ltb, leb, arith, length, Bool-cases, min,
}
use picdplayer.Reader.{ReadResult, int32_max}
use picdplayer.Evidence.{IntegrityStats, zero_stats, observe_read, is_complete}
use picdplayer.Coverage.{empty_coverage}
use picdplayer.Coverage.Frames.{count_below, count_below_mono, count_below-false, count_below-or_le}
use picdplayer.Coverage.History.{observe_all, observe_all-counts, any_returns_frame, returns_frame}

pub observe_reads : IntegrityStats → List ReadResult → IntegrityStats
observe_reads s [] = s
observe_reads s (r ∷ rs) = observe_reads (observe_read s r) rs

abbrev pub frames_of : List ReadResult → ℕ
frames_of [] = 0
frames_of (r ∷ rs) = r.frames_requested + frames_of rs

abbrev pub accepted_calls : List ReadResult → ℕ
accepted_calls [] = 0
accepted_calls (r ∷ rs) = (if is_complete r then 1 else 0) + accepted_calls rs

abbrev pub accepted_frames : List ReadResult → ℕ
accepted_frames [] = 0
accepted_frames (r ∷ rs) = (if is_complete r then r.frames_read else 0) + accepted_frames rs

accepted_frames-le : (rs : List ReadResult) → accepted_frames rs ≤ frames_of rs
accepted_frames-le [] = omega arith
accepted_frames-le (r ∷ rs) = ground (arith, accepted_frames-le rs)

accepted_calls-le : (rs : List ReadResult) → accepted_calls rs ≤ length rs
accepted_calls-le [] = omega arith
accepted_calls-le (r ∷ rs) = ground (arith, accepted_calls-le rs)

step_sums :
    (s : IntegrityStats) (r : ReadResult)
    → s.read_calls + 1 < 2 ^ 64
    → s.failed_calls + 1 < 2 ^ 64
    → s.frames_accepted + r.frames_requested < 2 ^ 64
    → ((observe_read s r).read_calls ≡ s.read_calls + 1)
      × ((observe_read s r).failed_calls + (if is_complete r then 1 else 0) ≡ s.failed_calls + 1)
      × ((observe_read s r).frames_accepted
          ≡ s.frames_accepted + (if is_complete r then r.frames_read else 0))
unfolding observe_read
step_sums s r a b c = ground arith

taken-le : (r : ReadResult) → (if is_complete r then r.frames_read else 0) ≤ r.frames_requested
taken-le r = ground arith

calls-le : (r : ReadResult) → (if is_complete r then 1 else 0) ≤ 1
calls-le r = ground arith

observe_reads_sums :
    (s : IntegrityStats) (rs : List ReadResult)
    → s.read_calls + length rs < 2 ^ 64
    → s.failed_calls + length rs < 2 ^ 64
    → s.frames_accepted + frames_of rs < 2 ^ 64
    → ((observe_reads s rs).read_calls ≡ s.read_calls + length rs)
      × ((observe_reads s rs).failed_calls + accepted_calls rs ≡ s.failed_calls + length rs)
      × ((observe_reads s rs).frames_accepted ≡ s.frames_accepted + accepted_frames rs)
unfolding observe_reads
observe_reads_sums s [] a b c = (omega arith, omega arith, omega arith)
observe_reads_sums s (r ∷ rs) a b c =
    let (p, q, t) = step_sums s r (omega arith) (omega arith) (omega arith) in
    let (x, y, z) =
      observe_reads_sums (observe_read s r) rs (omega (arith, p)) (omega (arith, q, calls-le r))
        (omega (arith, t, taken-le r)) in
    (omega (arith, p, x), omega (arith, q, y), omega (arith, t, z))

count_below-window :
    (n p q k : ℕ) → count_below n (λ x. leb p (x + q) && ltb (x + q) (p + k)) ≤ min k (n + q - p)
unfolding count_below
count_below-window zero p q k = omega arith
count_below-window (suc n) p q k = ground (arith, count_below-window n p q k)

count_below-returns :
    (n : ℕ) (r : ReadResult)
    → count_below n (λ x. returns_frame r x) ≤ (if is_complete r then r.frames_read else 0)
count_below-returns n r = elim (Bool-cases (is_complete r)) [
  | inl whole ↦ rw whole (
      omega (
        arith,
        count_below_mono n (λ x. returns_frame r x)
            (λ x.
              leb (pos_part r.start_lba) (x + neg_part r.start_lba)
              && ltb (x + neg_part r.start_lba) (pos_part r.start_lba + r.frames_read))
            (λ x h. ground arith),
        count_below-window n (pos_part r.start_lba) (neg_part r.start_lba) r.frames_read,
      ))
  | inr short ↦ rw short (
      omega (
        arith,
        count_below_mono n (λ x. returns_frame r x) (λ x. false) (λ x h. ground arith),
        count_below-false n,
      ))
]

count_below-any :
    (n : ℕ) (rs : List ReadResult)
    → count_below n (λ x. any_returns_frame rs x) ≤ accepted_frames rs
count_below-any n [] = omega (arith, count_below-false n)
count_below-any n (r ∷ rs) = omega (
  arith,
  count_below-or_le n (λ x. returns_frame r x) (λ x. any_returns_frame rs x),
  count_below-returns n r,
  count_below-any n rs,
)

-- Over the reads of one stream, too few for a 64-bit counter to wrap: every call is counted, as
-- failed or as accepted; the frames of the accepted calls are summed; and the coverage of the same
-- reads never claims more unique frames than that sum.
pub observe_reads-counts :
    (rs : List ReadResult)
    → length rs < 2 ^ 64
    → frames_of rs < 2 ^ 64
    → let s = observe_reads zero_stats rs in
      (s.read_calls ≡ length rs)
      × (s.failed_calls + accepted_calls rs ≡ length rs)
      × (s.frames_accepted ≡ accepted_frames rs)
      × ((observe_all empty_coverage rs).accepted_unique_frames ≤ s.frames_accepted)
observe_reads-counts rs a b =
    let (x, y, z) = observe_reads_sums zero_stats rs (omega arith) (omega arith) (omega arith) in
    (
      omega (arith, x),
      omega (arith, y),
      omega (arith, z),
      omega (arith, z, (observe_all-counts rs).1, count_below-any int32_max rs),
    )
