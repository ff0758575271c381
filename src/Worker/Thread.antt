-- ===== src/Worker/Thread.antt =====
-- src/pcm_worker.cpp, PcmWorker::run: the thread that owns the reader.
-- A point is where the thread stands without the mutex, with the locals that are live there; a turn
-- goes from one point to the next, or stays where it waits. Between two turns the owner may make any calls. What the reader
-- and its factory answer, and the clock, come with the turn. A close of the reader is made in one
-- turn with the assignments that follow it under the mutex. The log is left out.
use picdplayer.Outcome.{Exception, runtime_error}
use picdplayer.Prelude.{
  ℕ, ◌+◌, ◌-◌, ◌*◌, ◌/◌, Bool, true, false, not, ◌&&◌, ◌||◌, some, List, [], ◌∷◌, ◌++◌, ℤ, pos,
  ◌+ℤ◌, ◌-ℤ◌, pos_part, if◌then◌else◌, ltb, ltb_ℤ, ◌==◌, length, drop, min, replicate,
}
use picdplayer.Reader.{ReadResult, add64, samples_per_frame, is_ok}
use picdplayer.Coverage
use picdplayer.DiscMap
use picdplayer.DiscMap.{is_uncertain, revision_max}
use picdplayer.Evidence.{ReadEvidence, IntegrityReadStatus, make_read_evidence, observe_read}
use picdplayer.Evidence.Names.{ReadActivity}
use picdplayer.Worker.{PcmWorker, PcmBlock, PlayerEvent, EventSeverity, PresentationPriority}
use picdplayer.Worker.History.{remember}

abbrev pub read_event_capacity : ℕ
read_event_capacity = 256

-- What a call of the factory or of the reader gives.
pub data Answer {ℓ} (A : Type ℓ) : Type ℓ where
  gave : A → Answer A
  threw : Exception → Answer A

-- The answers to the calls that a turn may make: whether the factory gives a reader, and the ends of
-- the reader's seek to a position, and of its read at a position into a buffer.
pub record Drive : Type 0 where
  pub now : ℕ
  pub open_reader : Answer Bool
  pub seek : ℤ → Answer (Unit {0})
  pub read : ℤ → List ℤ → Answer (ReadResult × List ℤ)

-- The locals of one stream.
pub record Stream : Type 0 where
  pub generation : ℕ
  pub policy_revision : ℕ
  pub disc_generation : ℕ
  pub position : ℤ
  pub end : ℤ
  pub capacity_blocks : ℕ
  pub read_block_cd_frames : ℕ

pub data Point : Type 0 where
  waiting discarding retired finished : Point
  begun opening opened settled seeking looping in_read_admission : Stream → Point
  in_factory in_seek in_read : Stream → Point
  accounted : Stream → ReadResult → PcmBlock → Point
  failing : Stream → Exception → Bool → Point

-- The members, whether the local `reader` holds one, and where the thread stands.
pub record System : Type 0 where
  pub worker : PcmWorker
  pub reader : Bool
  pub point : Point

abbrev pub at : System → Point → System
at s p = record s { point = p }

-- `if (closing_) { close_reader(); return; }`
abbrev pub shut : System → System
shut s = record s { reader = false; point = Point.finished }

abbrev pub frames_of : Stream → ℕ
frames_of st = min st.read_block_cd_frames (pos_part (st.end -ℤ st.position))

abbrev pub is_retired : PcmWorker → Stream → Bool
is_retired w st = w.closing || not (st.generation == w.generation) || not w.active || w.discard

-- The test of invoke_current, before the call.
abbrev pub admit : System → Stream → Point → System
admit s st p = at s (if is_retired s.worker st then Point.retired else p)

abbrev pub stream_of : PcmWorker → Stream
stream_of w = record {
  generation = w.generation;
  policy_revision = w.diagnostics.policy_revision;
  disc_generation = w.disc_generation;
  position = w.begin;
  end = w.end;
  capacity_blocks = w.capacity_blocks;
  read_block_cd_frames = w.read_block_cd_frames;
}

unfoldable pub wait : System → System
wait s =
    if s.worker.closing
    then shut s
    else if s.worker.discard
    then record s {
      worker = record s.worker { discard = false; drive_call_inflight = true };
      point = Point.discarding;
    }
    else at s (if s.worker.active then Point.begun (stream_of s.worker) else Point.waiting)

unfoldable pub close_discarded : System → System
close_discarded s = record s {
  worker = record s.worker { drive_call_inflight = false; reader_open = false };
  reader = false;
  point = Point.waiting;
}

abbrev pub with_inflight : PcmWorker → Bool → PcmWorker
with_inflight w inflight = record w { drive_call_inflight = inflight }

unfoldable pub open_if_needed : System → Stream → System
open_if_needed s st =
    if s.reader
    then at s (Point.opened st)
    else record s { worker = with_inflight s.worker true; point = Point.opening st }

abbrev pub take_reader : System → Stream → Answer Bool → System
take_reader s st (threw e) = at s (Point.failing st e false)
take_reader s st (gave is_open) = record s {
  worker = record s.worker {
    drive_call_inflight = false;
    reader_open = is_open;
    device_generation =
        if is_open then add64 s.worker.device_generation 1 else s.worker.device_generation;
  };
  reader = is_open;
  point = Point.opened st;
}

unfoldable pub check_opened : System → Stream → System
check_opened s st =
    if not s.reader
    then at s (Point.failing st runtime_error false)
    else if s.worker.closing
    then shut s
    else if not (st.generation == s.worker.generation)
    then at s Point.waiting
    else at s (Point.settled st)

abbrev pub take_seek : System → Stream → Answer (Unit {0}) → System
take_seek s st (threw e) = at s (Point.failing st e false)
take_seek s st (gave _) = record s {
  worker = with_inflight s.worker false;
  point = Point.looping st;
}

-- The end of the loop: a range that was read to its end is done.
abbrev pub end_stream : System → Stream → System
end_stream s st =
    if st.generation == s.worker.generation
    then record s {
      worker = record s.worker {
        active = false;
        done = true;
        diagnostics = record s.worker.diagnostics { activity = ReadActivity.complete };
      };
      point = Point.waiting;
    }
    else at s Point.waiting

unfoldable pub begin_read : System → Stream → ℕ → System
begin_read s st now =
    if not (ltb_ℤ st.position st.end)
    then end_stream s st
    else if s.worker.closing
    then shut s
    else if not (st.generation == s.worker.generation)
    then at s Point.waiting
    else if ltb (length s.worker.queue) st.capacity_blocks
    then record s {
      worker = record s.worker {
        reading = true;
        drive_call_inflight = true;
        read_started = now;
        diagnostics = record s.worker.diagnostics { activity = ReadActivity.reading };
      };
      point = Point.in_read_admission st;
    }
    else at s (Point.looping st)

abbrev pub block_evidence : PcmWorker → Stream → ReadResult → ReadEvidence
block_evidence w st r = record (make_read_evidence r) {
  stream_generation = st.generation;
  policy_revision = st.policy_revision;
  device_generation = w.device_generation;
  disc_generation = st.disc_generation;
  read_sequence = (observe_read w.diagnostics.stats r).read_calls;
}

abbrev pub event_severity : IntegrityReadStatus → EventSeverity
event_severity IntegrityReadStatus.uncertain = EventSeverity.warning
event_severity IntegrityReadStatus.recovered = EventSeverity.info
event_severity IntegrityReadStatus.clean = EventSeverity.debug
event_severity IntegrityReadStatus.unknown = EventSeverity.debug

abbrev pub event_presentation : IntegrityReadStatus → PresentationPriority
event_presentation IntegrityReadStatus.uncertain = PresentationPriority.sticky
event_presentation IntegrityReadStatus.recovered = PresentationPriority.activity
event_presentation IntegrityReadStatus.clean = PresentationPriority.background
event_presentation IntegrityReadStatus.unknown = PresentationPriority.background

abbrev pub event_of : ReadEvidence → PlayerEvent
event_of e = record {
  sequence = 0;
  stream_generation = e.stream_generation;
  severity = event_severity e.status;
  presentation = event_presentation e.status;
  read = e;
}

-- The oldest event is dropped from a full queue.
unfoldable pub push_event : PcmWorker → PlayerEvent → PcmWorker
push_event w event =
    if length w.events == read_event_capacity
    then record w {
      events = drop 1 w.events ++ (event ∷ []);
      dropped_events = add64 w.dropped_events 1;
    }
    else record w { events = w.events ++ (event ∷ []) }

-- The evidence of a read of an earlier stream is made too, and not used.
-- What a read of the present stream adds to the members.
unfoldable pub account : PcmWorker → Stream → ReadResult → PcmWorker
unfolding push_event remember observe_read make_read_evidence
account w st r =
    let e = block_evidence w st r in
    push_event
      (record w {
        diagnostics = record w.diagnostics {
          stats = observe_read w.diagnostics.stats r;
          coverage = Coverage.observe w.diagnostics.coverage r;
          latest = some e;
          active_warning = if is_uncertain e.status then some e else w.diagnostics.active_warning;
          activity = ReadActivity.buffering;
        };
        history = remember w.history e;
      })
      (event_of e)

-- The critical section after a read, but for the accounts of the present stream.
unfoldable pub after_read : PcmWorker → Stream → ReadResult → ℕ → PcmWorker
after_read w st r now = record w {
  last_read_us = (now - w.read_started) / 1000;
  reading = false;
  drive_call_inflight = false;
  disc_map =
      if st.disc_generation == w.disc_generation then DiscMap.observe w.disc_map r else w.disc_map;
}

abbrev pub block_of : PcmWorker → Stream → ReadResult → List ℤ → PcmBlock
block_of w st r samples = record {
  generation = st.generation;
  lba = st.position;
  samples = samples;
  evidence = block_evidence w st r;
}

unfoldable pub take_read : System → Stream → ℕ → Answer (ReadResult × List ℤ) → System
unfolding after_read account
take_read s st now (threw e) = at s (Point.failing st e true)
take_read s st now (gave (r, samples)) =
    let w = after_read s.worker st r now in
    record s {
      worker = if st.generation == w.generation then account w st r else w;
      point = Point.accounted st r (block_of w st r samples);
    }

unfoldable pub push_block : System → Stream → ReadResult → PcmBlock → System
push_block s st r block =
    if not (is_ok r.status) || not (r.frames_read == frames_of st)
    then at s (Point.failing st runtime_error false)
    else if s.worker.closing
    then shut s
    else if not (st.generation == s.worker.generation)
    then at s Point.waiting
    else record s {
      worker = record s.worker { queue = s.worker.queue ++ (block ∷ []) };
      point = Point.looping (record st { position = st.position +ℤ pos (frames_of st) });
    }

unfoldable pub retire : System → System
retire s = record s {
  worker = record s.worker { reading = false; drive_call_inflight = false };
  point = Point.waiting;
}

abbrev pub incomplete_map : PcmWorker → Stream → Bool → PcmWorker
incomplete_map w st unobserved =
    if unobserved && (st.disc_generation == w.disc_generation) && w.disc_map.complete
    then record w {
      disc_map = record w.disc_map {
        complete = false;
        revision =
            if w.disc_map.revision == revision_max then revision_max else w.disc_map.revision + 1;
      };
    }
    else w

abbrev pub failed : PcmWorker → Stream → Exception → PcmWorker
failed w st e =
    if st.generation == w.generation
    then record w {
      error = some e;
      active = false;
      done = false;
      queue = [];
      diagnostics = record w.diagnostics { activity = ReadActivity.failed };
    }
    else w

-- The handler of the exceptions, with the close of the reader.
unfoldable pub fail : System → Stream → Exception → Bool → System
fail s st e unobserved = record s {
  worker =
      failed
        (record (incomplete_map s.worker st unobserved) {
          reader_open = false;
          reading = false;
          drive_call_inflight = false;
        })
        st e;
  reader = false;
  point = Point.waiting;
}

-- The calls are made for the position of the stream, into a buffer of the block's size.
unfoldable pub turn_at : System → Point → Drive → System
unfolding wait close_discarded open_if_needed check_opened begin_read take_read push_block retire
    fail
turn_at s Point.waiting d = wait s
turn_at s Point.discarding d = close_discarded s
turn_at s (Point.begun st) d = open_if_needed s st
turn_at s (Point.opening st) d = admit s st (Point.in_factory st)
turn_at s (Point.in_factory st) d = take_reader s st d.open_reader
turn_at s (Point.opened st) d = check_opened s st
turn_at s (Point.settled st) d = record s {
  worker = with_inflight s.worker true;
  point = Point.seeking st;
}
turn_at s (Point.seeking st) d = admit s st (Point.in_seek st)
turn_at s (Point.in_seek st) d = take_seek s st (d.seek st.position)
turn_at s (Point.looping st) d = begin_read s st d.now
turn_at s (Point.in_read_admission st) d = admit s st (Point.in_read st)
turn_at s (Point.in_read st) d =
    take_read s st d.now (d.read st.position (replicate (frames_of st * samples_per_frame) (pos 0)))
turn_at s (Point.accounted st r block) d = push_block s st r block
turn_at s Point.retired d = retire s
turn_at s (Point.failing st e unobserved) d = fail s st e unobserved
turn_at s Point.finished d = at s Point.finished

unfoldable pub turn : System → Drive → System
unfolding turn_at
turn s d = turn_at s s.point d
