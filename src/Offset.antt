-- ===== src/Offset.antt =====
-- include/read_offset.hpp and src/read_offset.cpp: the reader that shifts the stream of the wrapped
-- reader by the drive's read offset, which is a number of stereo samples.
-- A frame has 588 stereo samples, which are 1176 entries of a PCM buffer.
pub mod Window
pub mod Read
pub mod Shift
use picdplayer.Outcome.{
  Outcome, returned, thrown, undefined, invalid_argument, logic_error, Exception,
}
use picdplayer.Prelude.{
  ℕ, suc, ◌+◌, ◌-◌, ◌*◌, ◌/◌, ◌%◌, ◌^◌, Bool, true, false, not, ◌&&◌, ◌||◌, Option, none, some,
  List, [], ◌∷◌, ℤ, pos, negsuc, sub_ℕ, ◌+ℤ◌, ◌-ℤ◌, ltb_ℤ, leb_ℤ, ◌==ℤ◌, clamp_ℤ, ltb, ◌==◌,
  if◌then◌else◌, length, take, drop, replicate,
}
use picdplayer.Reader.{
  CddaReader, ReadResult, ReadStatus, OffsetReadEvidence, PhysicalReadEvidence, read_result, is_ok,
  samples_per_frame,
}
use picdplayer.Verifier.{is_nil}

abbrev pub eio : ℤ
eio = pos 5

abbrev pub erange : ℤ
erange = pos 34

-- x * 588
unfoldable pub times_588 : ℤ → ℤ
times_588 (pos n) = pos (n * 588)
times_588 (negsuc n) = sub_ℕ 0 (suc n * 588)

-- x / 588, which rounds towards 0.
unfoldable pub div_588 : ℤ → ℤ
div_588 (pos n) = pos (n / 588)
div_588 (negsuc n) = sub_ℕ 0 (suc n / 588)

-- static_cast<std::size_t>
abbrev pub to_size : ℤ → ℕ
to_size (pos n) = n
to_size (negsuc n) = 2 ^ 64 - suc n

pub record ReadOffsetWindow : Type 0 where
  pub offset_samples : ℤ
  pub disc_begin_sample : ℤ
  pub disc_end_sample : ℤ
  pub correctable_begin_sample : ℤ
  pub correctable_end_sample : ℤ
  pub playable_begin_lba : ℤ
  pub playable_end_lba : ℤ

abbrev pub is_playable : ReadOffsetWindow → Bool
is_playable w = ltb_ℤ w.playable_begin_lba w.playable_end_lba

-- The window of a range that passed the check.
unfoldable pub window_of : ℤ → ℤ → ℤ → ReadOffsetWindow
unfolding times_588 div_588
window_of begin end offset =
    let disc_begin = times_588 begin in
    let disc_end = times_588 end in
    let correctable_begin = clamp_ℤ (disc_begin -ℤ offset) disc_begin disc_end in
    let correctable_end = clamp_ℤ (disc_end -ℤ offset) disc_begin disc_end in
    record {
      offset_samples = offset;
      disc_begin_sample = disc_begin;
      disc_end_sample = disc_end;
      correctable_begin_sample = correctable_begin;
      correctable_end_sample = correctable_end;
      playable_begin_lba = div_588 (correctable_begin +ℤ pos 587);
      playable_end_lba = div_588 correctable_end;
    }

unfoldable pub make_read_offset_window : ℤ → ℤ → ℤ → Outcome ReadOffsetWindow
unfolding window_of
make_read_offset_window begin end offset =
    if ltb_ℤ begin (pos 0) || leb_ℤ end begin
    then thrown invalid_argument
    else returned (window_of begin end offset)

module _ (R : CddaReader) where
  open R use {State as Inner, seek as inner_seek, read as inner_read}

  pub record OffsetReader : Type 0 where
    pub inner : Inner
    pub window : ReadOffsetWindow
    pub position : ℤ
    pub positioned : Bool

  unfoldable pub make_offset_reader : Inner → ReadOffsetWindow → Outcome OffsetReader
  make_offset_reader s w =
      if not (is_playable w)
      then thrown invalid_argument
      else returned (record { inner = s; window = w; position = pos 0; positioned = false })

  unfoldable pub seek : ℤ → OffsetReader → Outcome (Unit {0}) × OffsetReader
  seek lba o =
      if ltb_ℤ lba o.window.playable_begin_lba || leb_ℤ o.window.playable_end_lba lba
      then (thrown invalid_argument, record o { positioned = false })
      else (returned tt, record o { position = lba; positioned = true })

  -- The physical range of a call: first_sample, first_lba, physical_frames and the entries to skip.
  pub record Physical : Type 0 where
    pub first_sample : ℤ
    pub first_lba : ℤ
    pub frames : ℕ
    pub skip : ℕ

  unfoldable pub physical_of : OffsetReader → ℕ → Physical
  unfolding times_588 div_588
  physical_of o frames =
      let first_sample = times_588 o.position +ℤ o.window.offset_samples in
      let last_sample = first_sample +ℤ times_588 (pos frames) in
      let first_lba = div_588 first_sample in
      let end_lba = div_588 (last_sample +ℤ pos 587) in
      record {
        first_sample = first_sample;
        first_lba = first_lba;
        frames = to_size (end_lba -ℤ first_lba);
        skip = to_size (first_sample -ℤ times_588 first_lba) * 2;
      }

  unfoldable pub failed_result : OffsetReader → ℕ → ReadResult
  failed_result o frames = record (read_result o.position frames 0 ReadStatus.read_error erange 0) {
    offset = some (record { samples = o.window.offset_samples; single_physical_read = none });
  }

  -- What the wrapped reader's result adds to the failed result.
  unfoldable pub with_raw : OffsetReader → ℕ → Physical → ReadResult → ReadResult
  unfolding failed_result
  with_raw o frames g raw = record (failed_result o frames) {
    offset = some (record {
      samples = o.window.offset_samples;
      single_physical_read = some (record {
        start_lba = g.first_lba;
        frames_requested = g.frames;
        observed_start_lba = raw.start_lba;
        frames_read = raw.frames_read;
        native_error = raw.native_error;
      });
    });
    native_error = raw.native_error;
    retries = raw.retries;
    paranoia = raw.paranoia;
    read_independence = raw.read_independence;
    c2_status = raw.c2_status;
  }

  abbrev pub is_whole : Physical → ReadResult → Bool
  is_whole g raw =
      is_ok raw.status
      && (raw.start_lba ==ℤ g.first_lba)
      && (raw.frames_requested == g.frames)
      && (raw.frames_read == g.frames)

  -- After the wrapped reader's read.
  unfoldable pub deliver :
      OffsetReader
      → ℕ
      → Physical
      → List ℤ
      → Outcome (ReadResult × List ℤ) × Inner
      → Outcome (ReadResult × List ℤ) × OffsetReader
  unfolding with_raw
  deliver o frames g pcm (returned (raw, physical), s) =
      let result = with_raw o frames g raw in
      if is_whole g raw
      then (
        returned (
          record result { status = ReadStatus.ok; native_error = pos 0; frames_read = frames },
          take (length pcm) (drop g.skip physical),
        ),
        record o { inner = s; position = o.position +ℤ pos frames; positioned = true },
      )
      else (
        returned (
          record result {
            native_error = if result.native_error ==ℤ pos 0 then eio else result.native_error;
          },
          pcm,
        ),
        record o { inner = s; positioned = false },
      )
  deliver o frames g pcm (thrown e, s) = (thrown e, record o { inner = s; positioned = false })
  deliver o frames g pcm (undefined, s) = (undefined, record o { inner = s; positioned = false })

  -- reader_->read on a zeroed buffer, after the seek.
  unfoldable pub read_physical :
      ℕ → Outcome (Unit {0}) × Inner → Outcome (ReadResult × List ℤ) × Inner
  read_physical n (returned _, s) = inner_read (replicate n (pos 0)) s
  read_physical n (thrown e, s) = (thrown e, s)
  read_physical n (undefined, s) = (undefined, s)

  -- What the wrapped reader does on a call for this range.
  unfoldable pub fetch : Physical → Inner → Outcome (ReadResult × List ℤ) × Inner
  unfolding read_physical
  fetch g s = read_physical (g.frames * samples_per_frame) (inner_seek g.first_lba s)

  unfoldable pub frames_in : List ℤ → ℕ
  frames_in pcm = length pcm / samples_per_frame

  -- The range fits what is left of the window.
  abbrev pub fits : OffsetReader → ℕ → Bool
  fits o frames = not (ltb (to_size (o.window.playable_end_lba -ℤ o.position)) frames)

  unfoldable pub read : List ℤ → OffsetReader → Outcome (ReadResult × List ℤ) × OffsetReader
  unfolding frames_in failed_result physical_of fetch deliver
  read pcm o =
      let frames = frames_in pcm in
      let g = physical_of o frames in
      if not o.positioned
      then (thrown logic_error, o)
      else if is_nil pcm || not (length pcm % samples_per_frame == 0)
      then (thrown invalid_argument, o)
      else if not (fits o frames)
      then (returned (failed_result o frames, pcm), record o { positioned = false })
      else if ltb ((2 ^ 64 - 1) / samples_per_frame) g.frames
      then (thrown invalid_argument, record o { positioned = false })
      else deliver o frames g pcm (fetch g o.inner)

  abbrev pub offset_reader : CddaReader
  offset_reader = record { State = OffsetReader; seek = seek; read = read }
