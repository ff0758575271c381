-- ===== src/Examples/Readers.antt =====
-- The readers over a disc that is read without error, or not at all.
use picdplayer.Outcome.{Outcome, returned}
use picdplayer.Prelude.{
  ℕ, suc, ◌≡◌, sym, ap, ◌∙◌, ◌+◌, ◌*◌, ◌/◌, refl, true, false, inr, ◌↔◌, List, [], ℤ, pos, pos_part,
  ◌≤ℤ◌, ◌<ℤ◌, length, replicate, length-replicate, arith,
}
use picdplayer.Prelude.Int.{◌+ℤ◌, ◌-ℤ◌}
use picdplayer.Prelude.Slice.{slice, length-slice}
use picdplayer.Reader.{CddaReader, ReadResult, ReadStatus, C2Status, read_result, samples_per_frame}
use picdplayer.Verifier.{RepeatedReadPolicy}
use picdplayer.Verifier.Read
use picdplayer.Verifier.Block
use picdplayer.Verifier.Steady
use picdplayer.Offset
use picdplayer.Offset.Window.{window_of-IsCorrectable, IsCorrectable}
use picdplayer.Offset.Read as OffsetRead
use picdplayer.Offset.Shift
use picdplayer.Direct
use picdplayer.Direct.{Transports, DirectOptions, LinuxIoctlReader}
use picdplayer.Direct.Block as DirectBlock
use picdplayer.Direct.Read as DirectRead
use picdplayer.Direct.Repeat
use picdplayer.Direct.Reads

-- A disc whose entry `i` is `i`.
abbrev disc : ℕ → ℤ
disc i = pos i

abbrev two_frames_result : ReadResult
two_frames_result = read_result (pos 0) 2 2 ReadStatus.ok (pos 0) 0

-- A reader that gives the first two frames whatever it is asked for.
abbrev two_frames_reader : CddaReader
two_frames_reader = record {
  State = Unit {0};
  seek = λ lba s. (returned tt, s);
  read = λ pcm s. (returned (two_frames_result, slice disc 0 2352), s);
}

abbrev stopped_clock : ℕ → ℕ
stopped_clock n = 0

abbrev two_of_three : RepeatedReadPolicy
two_of_three = record {
  required_matches = 2;
  maximum_attempts = 3;
  time_budget = pos 1000;
  overlap_frames = 1;
}

abbrev one_frame : List ℤ
one_frame = replicate 1176 (pos 0)

-- A verifier after a read of frame 0, whose entries it keeps as the tail.
abbrev verifier : Read.Verifier two_frames_reader stopped_clock
verifier = record {
  inner = tt;
  ticks = 0;
  policy = two_of_three;
  cursor = record { position = pos 1; positioned = true; prior_tail = slice disc 0 1176 };
}

read-ReadPost_example :
    Block.ReadPost two_frames_reader stopped_clock verifier one_frame
      (Read.read two_frames_reader stopped_clock verifier one_frame)
read-ReadPost_example = Block.read-ReadPost two_frames_reader stopped_clock verifier one_frame

read-Returns_example :
    Steady.Returns two_frames_reader stopped_clock verifier one_frame
      (slice disc 0 2352)
      (Read.read two_frames_reader stopped_clock verifier one_frame).0
unfolding Read.rejects Read.overlap_of Read.frames_in Read.range_of Read.attempt_read
    Read.read_after_seek Read.out_of_time ◌-ℤ◌ slice
read-Returns_example =
    Steady.read-Returns two_frames_reader stopped_clock verifier one_frame (slice disc 0 2352) refl
      (inr refl) (omega arith) (omega arith)
      (λ s. (two_frames_result, record { gives = refl; whole = refl }))
      (λ attempt ticks. ground arith)

-- A reader over the disc: it reads the frames from the last seek on.
abbrev disc_reader : CddaReader
disc_reader = record {
  State = ℤ;
  seek = λ lba s. (returned tt, lba);
  read = λ pcm s. (
    returned (
      read_result s (length pcm / samples_per_frame) (length pcm / samples_per_frame) ReadStatus.ok
          (pos 0) 0,
      slice disc (pos_part s * 1176) (length pcm),
    ),
    s,
  );
}

abbrev pcm_of : Outcome (ReadResult × List ℤ) → List ℤ
pcm_of (returned (r, p)) = p
pcm_of _ = []

disc_reader-GivesDisc : Shift.GivesDisc disc_reader disc
unfolding Offset.fetch Offset.read_physical
disc_reader-GivesDisc g s r p fine e whole =
    sym (ap pcm_of e)
    ∙ ap (slice disc (pos_part g.first_lba * 1176)) (length-replicate (g.frames * 1176) (pos 0))

-- A drive that reads 30 samples late, on a disc of 10 frames, at frame 2.
late_window-positions : (pos 0 ≤ℤ pos 0) × (pos 0 <ℤ pos 10)
late_window-positions = (omega arith, omega arith)

window_of-IsCorrectable_example :
    (((Offset.window_of (pos 0) (pos 10) (pos 30)).playable_begin_lba ≤ℤ pos 2)
      × (pos 2 <ℤ (Offset.window_of (pos 0) (pos 10) (pos 30)).playable_end_lba))
    ↔ IsCorrectable (pos 0) (pos 10) (pos 30) (pos 2)
window_of-IsCorrectable_example =
    window_of-IsCorrectable (pos 0) (pos 10) (pos 30) (omega arith) (omega arith) (pos 2)

abbrev late_reader : Offset.OffsetReader disc_reader
late_reader = record {
  inner = pos 0;
  window = Offset.window_of (pos 0) (pos 10) (pos 30);
  position = pos 2;
  positioned = true;
}

late_reader-IsInside :
    OffsetRead.IsInside disc_reader
      (pos 0)
      (pos 10)
      (pos 30)
      (omega arith)
      (omega arith)
      late_reader
unfolding Offset.window_of Offset.times_588 Offset.div_588 ◌+ℤ◌ ◌-ℤ◌
late_reader-IsInside = record { same = refl; low = omega arith; high = omega arith }

read-ShiftPost_example :
    Shift.ShiftPost disc_reader disc
      (pos 0)
      (pos 10)
      (pos 30)
      (omega arith)
      (omega arith)
      one_frame
      late_reader
      (Offset.read disc_reader one_frame late_reader)
read-ShiftPost_example =
    Shift.read-ShiftPost disc_reader disc (pos 0) (pos 10) (pos 30) (omega arith) (omega arith)
      one_frame late_reader disc_reader-GivesDisc late_reader-IsInside

-- A drive whose reads give the disc, with and without pointers.
abbrev good_drive : Transports
good_drive = record {
  Device = Unit {0};
  audio_read = λ lba b d. (pos 0, slice disc (pos_part lba * 1176) (length b), d);
  c2_read = λ lba b d. ((pos 0, C2Status.clean), slice disc (pos_part lba * 1176) (length b), d);
}

good_drive-GivesDisc : DirectBlock.GivesDisc good_drive disc
good_drive-GivesDisc = record {
  audio = λ lba b d fine. record {
    length-kept = length-slice disc (pos_part lba * 1176) (length b);
    entries = λ e. refl;
  };
  pointers = λ lba b d fine. record {
    length-kept = length-slice disc (pos_part lba * 1176) (length b);
    entries = λ e. refl;
  };
}

abbrev with_pointers : DirectOptions
with_pointers = record {
  retries = 3;
  request_c2_pointers = true;
  inactive_c2_status = C2Status.not_checked;
  require_c2_pointers = false;
  c2_timeout_ms = 5000;
}

abbrev drive_reader : LinuxIoctlReader good_drive
drive_reader = record { options = with_pointers; cursor = pos 100; positioned = true; device = tt }

read-DirectPost_example :
    DirectRead.DirectPost good_drive disc good_drive-GivesDisc one_frame drive_reader
      (Direct.read good_drive one_frame drive_reader)
read-DirectPost_example =
    DirectRead.read-DirectPost good_drive disc good_drive-GivesDisc one_frame drive_reader refl

-- A drive that answers every request with an I/O error, and counts the ordinary reads.
abbrev broken_drive : Transports
broken_drive = record {
  Device = ℕ;
  audio_read = λ lba b d. (Direct.eio, b, suc d);
  c2_read = λ lba b d. ((Direct.eio, C2Status.unknown), b, d);
}

read_block-AlwaysFails_example :
    (t : Direct.Tried broken_drive) × (Direct.read_block broken_drive with_pointers
        (pos 100)
        0
        one_frame
        0
      ≡ Direct.block_read t C2Status.unknown)
    × (t.error ≡ Direct.eio)
    × (t.retries ≡ 0 + 2 * with_pointers.retries)
read_block-AlwaysFails_example =
    Repeat.read_block-AlwaysFails broken_drive with_pointers (pos 100) (λ b d. refl) (λ b d. refl)
      refl refl 0 one_frame 0 (omega arith)

broken_drive-GivesDisc : DirectBlock.GivesDisc broken_drive disc
broken_drive-GivesDisc = record {
  audio = λ lba b d fine. record { length-kept = refl; entries = λ e. absurd (ground arith) };
  pointers = λ lba b d fine. record { length-kept = refl; entries = λ e. absurd (ground arith) };
}

read_block-ReadsPost_example :
    DirectBlock.BlockPost broken_drive disc broken_drive-GivesDisc with_pointers
      (pos 100)
      refl
      (length one_frame)
      0
      (Direct.read_block broken_drive with_pointers (pos 100) 0 one_frame 0)
    × Reads.ReadsPost broken_drive
        (λ d. d)
        (record { audio = λ lba b d. refl; pointers = λ lba b d. refl })
        (pos 100)
        with_pointers
        0
        0
        (Direct.read_block broken_drive with_pointers (pos 100) 0 one_frame 0)
read_block-ReadsPost_example =
    Reads.read_block-ReadsPost broken_drive disc broken_drive-GivesDisc (λ d. d)
      (record { audio = λ lba b d. refl; pointers = λ lba b d. refl }) with_pointers (pos 100) refl
      0 one_frame 0
