-- ===== src/Examples/Reads.antt =====
-- Reads of a stream, as evidence, coverage and map.
use picdplayer.Prelude.{
  ℕ, ◌≡◌, ◌≤◌, ◌<◌, ◌+◌, refl, true, false, ◌&&◌, if◌then◌else◌, ◌==◌, List, [], ◌∷◌, pos, ◌⊎◌,
  length, drop, arith,
}
use picdplayer.Reader.{ReadResult, ReadStatus, read_result, int32_max}
use picdplayer.Coverage
use picdplayer.Coverage.{ReadCoverage, empty_coverage}
use picdplayer.Coverage.Frames.{count_below}
use picdplayer.Coverage.History
use picdplayer.Coverage.Splice.{insert}
use picdplayer.Coverage.Invariant
use picdplayer.DiscMap
use picdplayer.DiscMap.{merge_loop}
use picdplayer.DiscMap.Merge.{Apart, said, Merged, merge_loop-Merged}
use picdplayer.DiscMap.History as MapHistory
use picdplayer.Evidence.{evidence_status, make_read_evidence, zero_stats}
use picdplayer.Evidence.Status.{make_read_evidence-clean}
use picdplayer.Evidence.Stats

-- Two blocks that overlap, and one that failed after 5 frames.
abbrev first_block : ReadResult
first_block = read_result (pos 0) 15 15 ReadStatus.ok (pos 0) 0

abbrev second_block : ReadResult
second_block = read_result (pos 10) 15 15 ReadStatus.ok (pos 0) 0

abbrev failed_block : ReadResult
failed_block = read_result (pos 40) 15 5 ReadStatus.read_error (pos 5) 1

abbrev blocks : List ReadResult
blocks = first_block ∷ second_block ∷ failed_block ∷ []

observe_all-counts_example :
    (length (History.observe_all empty_coverage blocks).regions ≤ Coverage.capacity)
    × ((History.observe_all empty_coverage blocks).accepted_unique_frames
        ≤ count_below int32_max (λ x. History.any_returns_frame blocks x))
    × ((History.observe_all empty_coverage blocks).complete ≡ true
        → (History.observe_all empty_coverage blocks).accepted_unique_frames
          ≡ count_below int32_max (λ x. History.any_returns_frame blocks x))
observe_all-counts_example = History.observe_all-counts blocks

-- Frames 0 to 20, and a block from 20 on.
abbrev twenty_frames : ReadCoverage
twenty_frames = record {
  regions = record { begin = 0; end = 20 } ∷ [];
  accepted_unique_frames = 20;
  complete = true;
}

twenty_frames-Inv : Invariant.Inv twenty_frames
twenty_frames-Inv = record {
  separated = (omega arith, omega arith, omega arith, tt);
  bounded = omega arith;
  counted = refl;
}

abbrev next_block : Coverage.Region
next_block = record { begin = 20; end = 30 }

place_lem_example : Coverage.place twenty_frames next_block ≡ (
    if ((Coverage.absorb next_block
          (drop (Coverage.skip_before 20 twenty_frames.regions) twenty_frames.regions)).0
        == 0)
      && (length twenty_frames.regions == Coverage.capacity)
    then record twenty_frames { complete = false }
    else record twenty_frames {
      regions = insert next_block twenty_frames.regions;
      accepted_unique_frames = Invariant.total (insert next_block twenty_frames.regions);
    })
place_lem_example =
    Invariant.place_lem twenty_frames next_block twenty_frames-Inv (omega arith) (omega arith)

observe_all-said_example :
    (length (MapHistory.observe_all (MapHistory.new_map 3) blocks).regions ≤ DiscMap.capacity)
    × Apart (MapHistory.observe_all (MapHistory.new_map 3) blocks).regions
    × ((x f : ℕ)
        → said x f (MapHistory.observe_all (MapHistory.new_map 3) blocks).regions ≡ true
        → MapHistory.any_reports blocks x f ≡ true)
    × ((MapHistory.observe_all (MapHistory.new_map 3) blocks).complete ≡ true
        → (x f : ℕ) → MapHistory.any_reports blocks x f ≡ true
        → said x f (MapHistory.observe_all (MapHistory.new_map 3) blocks).regions ≡ true)
observe_all-said_example = MapHistory.observe_all-said 3 blocks (omega arith)

abbrev accepted_frames : DiscMap.Region
accepted_frames = record { begin = 15; end = 30; flags = 3 }

abbrev known_regions : List DiscMap.Region
known_regions =
    record { begin = 0; end = 15; flags = 3 }
    ∷ record { begin = 0; end = 15; flags = 33 }
    ∷ record { begin = 30; end = 45; flags = 3 }
    ∷ []

merge_loop-Merged_example :
    Merged accepted_frames known_regions (merge_loop 3 accepted_frames known_regions)
merge_loop-Merged_example =
    merge_loop-Merged 3 accepted_frames known_regions (omega arith) (omega arith)
      ((refl, (refl, tt)), ((refl, tt), (tt, tt))) (omega arith, (omega arith, (omega arith, tt)))

make_read_evidence-clean_example :
    (first_block.status ≡ ReadStatus.ok)
    × (first_block.frames_read ≡ first_block.frames_requested)
    × (first_block.retries ≡ 0)
    × (first_block.paranoia.fixups ≡ 0)
    × (first_block.paranoia.skips ≡ 0)
    × (first_block.paranoia.read_errors ≡ 0)
    × (first_block.paranoia.cache_errors ≡ 0)
    × ((first_block.verification.matching_reads < 2) ⊎ (first_block.verification.mismatches ≡ 0))
unfolding make_read_evidence evidence_status
make_read_evidence-clean_example = make_read_evidence-clean first_block refl

observe_reads-counts_example :
    ((Stats.observe_reads zero_stats blocks).read_calls ≡ length blocks)
    × ((Stats.observe_reads zero_stats blocks).failed_calls + Stats.accepted_calls blocks
        ≡ length blocks)
    × ((Stats.observe_reads zero_stats blocks).frames_accepted ≡ Stats.accepted_frames blocks)
    × ((History.observe_all empty_coverage blocks).accepted_unique_frames
        ≤ (Stats.observe_reads zero_stats blocks).frames_accepted)
observe_reads-counts_example = Stats.observe_reads-counts blocks (omega arith) (omega arith)
