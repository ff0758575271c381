-- ===== src/Worker.antt =====
-- include/pcm_worker.hpp and src/pcm_worker.cpp: the state of PcmWorker, and the calls of its owner.
-- Each call holds the mutex throughout. An error is none for the empty text.
-- A time is a number of nanoseconds. The history's `evicted` is diagnostics_.history_evicted.
pub mod History
pub mod Thread
pub mod Run
pub mod Release
pub mod Blocks
pub mod Order
pub mod Turns
pub mod Fresh
pub mod Popping
pub mod Delivery
use History.{Ring, cleared, recent_reads}
use picdplayer.Outcome.{
  Outcome, returned, thrown, Exception, invalid_argument, logic_error, throw_if, ◌>>◌,
}
use picdplayer.Prelude.{
  ℕ, suc, ◌+◌, ◌-◌, ◌*◌, ◌/◌, ◌%◌, ◌^◌, Bool, true, false, not, ◌&&◌, ◌||◌, Option, none, some,
  List, [], ◌∷◌, ℤ, pos, negsuc, if◌then◌else◌, ltb, ltb_ℤ, leb_ℤ, ◌==◌, length, min, replicate,
}
use picdplayer.Reader.{add64}
use picdplayer.Coverage.{ReadCoverage, empty_coverage}
use picdplayer.DiscMap.{DiscReadMap}
use picdplayer.Evidence.{ReadEvidence, IntegrityStats, zero_stats}
use picdplayer.Evidence.Names.{ReadActivity}

abbrev pub pcm_block_cd_frames : ℕ
pcm_block_cd_frames = 15

abbrev pub maximum_buffer_cd_frames : ℕ
maximum_buffer_cd_frames = 2250

pub record PcmBufferConfig : Type 0 where
  pub capacity_cd_frames : ℕ
  pub startup_cd_frames : ℕ

pub record PcmBlock : Type 0 where
  pub generation : ℕ
  pub lba : ℤ
  pub samples : List ℤ
  pub evidence : ReadEvidence

pub data EventSeverity : Type 0 where
  debug info warning error : EventSeverity

pub data PresentationPriority : Type 0 where
  background normal activity important sticky : PresentationPriority

-- Its type has one value.
pub record PlayerEvent : Type 0 where
  pub sequence : ℕ
  pub stream_generation : ℕ
  pub severity : EventSeverity
  pub presentation : PresentationPriority
  pub read : ReadEvidence

-- The members of ReadDiagnostics that the worker keeps.
pub record Diagnostics : Type 0 where
  pub stream_generation : ℕ
  pub policy_revision : ℕ
  pub coverage : ReadCoverage
  pub activity : ReadActivity
  pub requested_mode : List ℕ
  pub effective_strategy : List ℕ
  pub latest : Option ReadEvidence
  pub active_warning : Option ReadEvidence
  pub buffer_capacity_frames : ℕ
  pub startup_buffer_frames : ℕ
  pub read_block_frames : ℕ
  pub stats : IntegrityStats

pub record PcmWorker : Type 0 where
  pub buffer_config : PcmBufferConfig
  pub capacity_blocks : ℕ
  pub startup_blocks : ℕ
  pub read_block_cd_frames : ℕ
  pub queue : List PcmBlock
  pub events : List PlayerEvent
  pub closing : Bool
  pub active : Bool
  pub done : Bool
  pub discard : Bool
  pub reader_open : Bool
  pub drive_call_inflight : Bool
  pub reading : Bool
  pub read_started : ℕ
  pub last_read_us : ℕ
  pub diagnostics : Diagnostics
  pub disc_map : DiscReadMap
  pub dropped_events : ℕ
  pub generation : ℕ
  pub device_generation : ℕ
  pub disc_generation : ℕ
  pub history : Ring ReadEvidence
  pub begin : ℤ
  pub end : ℤ
  pub error : Option Exception

unfoldable pub validate_pcm_buffer_config : PcmBufferConfig → Outcome (Unit {0})
validate_pcm_buffer_config c =
    throw_if
      (ltb c.capacity_cd_frames pcm_block_cd_frames
        || ltb maximum_buffer_cd_frames c.capacity_cd_frames
        || not (c.capacity_cd_frames % pcm_block_cd_frames == 0))
      invalid_argument
    >> throw_if
        (ltb c.startup_cd_frames pcm_block_cd_frames
          || ltb c.capacity_cd_frames c.startup_cd_frames
          || not (c.startup_cd_frames % pcm_block_cd_frames == 0))
        invalid_argument

abbrev pub bad_block : PcmBufferConfig → ℕ → Bool
bad_block c frames =
    ltb frames pcm_block_cd_frames
    || not (frames % pcm_block_cd_frames == 0)
    || ltb c.capacity_cd_frames frames

abbrev pub startup_of : PcmBufferConfig → ℕ → ℕ
startup_of c frames =
    min (c.capacity_cd_frames / frames) ((c.startup_cd_frames + frames - 1) / frames)

-- What start, cancel and discard_reader set alike, for a new generation.
abbrev pub next_stream : PcmWorker → ReadActivity → Bool → PcmWorker
next_stream w now_doing is_active = record w {
  generation = add64 w.generation 1;
  active = is_active;
  done = false;
  queue = [];
  error = none;
  diagnostics = record w.diagnostics {
    activity = now_doing;
    latest = none;
    stats = zero_stats;
    stream_generation = add64 w.generation 1;
    coverage = empty_coverage;
    active_warning = none;
  };
  history = cleared w.history;
  events = [];
  dropped_events = 0;
}

unfoldable pub start : PcmWorker → ℤ → ℤ → Outcome ℕ × PcmWorker
start w begin end =
    if ltb_ℤ begin (pos 0) || leb_ℤ end begin then (thrown invalid_argument, w) else (
      returned (add64 w.generation 1),
      record (next_stream w ReadActivity.buffering true) { begin = begin; end = end },
    )

unfoldable pub cancel : PcmWorker → PcmWorker
cancel w = next_stream w ReadActivity.idle false

unfoldable pub discard_reader : PcmWorker → PcmWorker
discard_reader w = record (next_stream w ReadActivity.idle false) { discard = true }

unfoldable pub reconfigure : PcmWorker → List ℕ → List ℕ → ℕ → Outcome (Unit {0}) × PcmWorker
reconfigure w strategy mode frames =
    if bad_block w.buffer_config frames then (thrown invalid_argument, w) else (
      returned tt,
      record w {
        read_block_cd_frames = frames;
        capacity_blocks = w.buffer_config.capacity_cd_frames / frames;
        startup_blocks = startup_of w.buffer_config frames;
        diagnostics = record w.diagnostics {
          policy_revision = add64 w.diagnostics.policy_revision 1;
          effective_strategy = strategy;
          requested_mode = mode;
          read_block_frames = frames;
        };
        discard = true;
      },
    )

abbrev pub empty_map : ℕ → DiscReadMap
empty_map generation = record {
  regions = [];
  disc_generation = generation;
  revision = 0;
  complete = true;
}

abbrev pub new_diagnostics : PcmBufferConfig → List ℕ → List ℕ → ℕ → Diagnostics
new_diagnostics c strategy mode frames = record {
  stream_generation = 0;
  policy_revision = 1;
  coverage = empty_coverage;
  activity = ReadActivity.idle;
  requested_mode = mode;
  effective_strategy = strategy;
  latest = none;
  active_warning = none;
  buffer_capacity_frames = c.capacity_cd_frames;
  startup_buffer_frames = c.startup_cd_frames;
  read_block_frames = frames;
  stats = zero_stats;
}

-- The slots of the new array are given: none is read before it is written.
abbrev pub fresh : (ℕ → ReadEvidence) → PcmBufferConfig → List ℕ → List ℕ → ℕ → PcmWorker
fresh slots c strategy mode frames = record {
  buffer_config = c;
  capacity_blocks = c.capacity_cd_frames / frames;
  startup_blocks = startup_of c frames;
  read_block_cd_frames = frames;
  queue = [];
  events = [];
  closing = false;
  active = false;
  done = false;
  discard = false;
  reader_open = false;
  drive_call_inflight = false;
  reading = false;
  read_started = 0;
  last_read_us = 0;
  diagnostics = new_diagnostics c strategy mode frames;
  disc_map = empty_map 0;
  dropped_events = 0;
  generation = 0;
  device_generation = 0;
  disc_generation = 0;
  history = record { slots = slots; begin = 0; size = 0; evicted = 0 };
  begin = pos 0;
  end = pos 0;
  error = none;
}

unfoldable pub new_worker :
    (ℕ → ReadEvidence) → PcmBufferConfig → List ℕ → List ℕ → ℕ → Outcome PcmWorker
unfolding validate_pcm_buffer_config
new_worker slots c strategy mode frames =
    validate_pcm_buffer_config c
    >> (throw_if (bad_block c frames) invalid_argument
        >> returned (fresh slots c strategy mode frames))

-- The destructor, up to the join.
unfoldable pub close : PcmWorker → PcmWorker
close w = record w { closing = true; generation = add64 w.generation 1 }

unfoldable pub device_released : PcmWorker → Bool
device_released w = not w.active && not w.drive_call_inflight && not w.discard && not w.reader_open

abbrev pub pop_from : PcmWorker → List PcmBlock → Option PcmBlock × PcmWorker
pop_from w [] = (none, w)
pop_from w (block ∷ rest) = (some block, record w { queue = rest })

unfoldable pub pop : PcmWorker → Option PcmBlock × PcmWorker
pop w = pop_from w w.queue

abbrev pub pop_event_from : PcmWorker → List PlayerEvent → Option PlayerEvent × PcmWorker
pop_event_from w [] = (none, w)
pop_event_from w (event ∷ rest) = (some event, record w { events = rest })

unfoldable pub pop_event : PcmWorker → Option PlayerEvent × PcmWorker
pop_event w = pop_event_from w w.events

unfoldable pub set_disc_generation : PcmWorker → ℕ → Outcome (Unit {0}) × PcmWorker
set_disc_generation w generation =
    if w.active
    then (thrown logic_error, w)
    else (returned tt, record w { disc_generation = generation; disc_map = empty_map generation })

pub record WorkerStatus : Type 0 where
  pub queued : ℕ
  pub done : Bool
  pub error : Option Exception
  pub last_read_us : ℕ
  pub read_inflight_us : ℕ
  pub diagnostics : Diagnostics
  pub dropped_events : ℕ
  pub history_included : Bool
  pub disc_map : Option DiscReadMap
  pub recent_reads : List ReadEvidence
  pub history_evicted : ℕ

unfoldable pub status : PcmWorker → ℕ → Bool → Bool → WorkerStatus
unfolding recent_reads
status w now include_history include_disc_map = record {
  queued = length w.queue;
  done = w.done;
  error = w.error;
  last_read_us = w.last_read_us;
  read_inflight_us = if w.reading then (now - w.read_started) / 1000 else 0;
  diagnostics = w.diagnostics;
  dropped_events = w.dropped_events;
  history_included = include_history;
  disc_map =
      if (include_history || include_disc_map) && not (w.disc_map.disc_generation == 0)
      then some w.disc_map
      else none;
  recent_reads = if include_history then recent_reads w.history else [];
  history_evicted = w.history.evicted;
}
