-- ===== src/Engine.antt =====
-- include/playback_engine.hpp and src/playback_engine.cpp: PlaybackEngine, over the calls of a worker
-- and of an audio output. The log is left out, and with it last_tick_. A time is a number of
-- nanoseconds. The state W of the worker holds its thread too: a call may come after turns of it.
pub mod Effect
pub mod Tick
pub mod Log
pub mod Invariant
pub mod Writing
pub mod Starting
pub mod Ticking
pub mod Failing
pub mod Run
pub mod Threaded
pub mod OnDisc
pub mod Proven
pub mod Heard
use Effect.{
  ended_of, Action, Failure, Reply, Ended, modify, gets, lifted, throw, throw_if, pure, ◌>>=◌, ◌>>◌,
}
use picdplayer.Evidence.{ReadEvidence, IntegrityReadStatus, LocalVerification, OffsetStatus}
use picdplayer.Outcome.{
  Outcome, returned, thrown, undefined, invalid_argument, logic_error, runtime_error,
}
use picdplayer.Outcome
use picdplayer.Player.{PlayerController, PlaybackState, is_playing}
use picdplayer.Prelude.{
  ℕ, ◌+◌, ◌*◌, ◌/◌, Bool, true, false, not, ◌&&◌, ◌||◌, Option, none, some, List, [], ◌∷◌, ℤ, pos,
  if◌then◌else◌, ltb, leb, ltb_ℤ, leb_ℤ, ◌==◌,
}
use picdplayer.Reader.{ReadIndependence, C2Status, no_events, no_verification}
use picdplayer.Worker.{PcmBlock, WorkerStatus, Diagnostics}

abbrev pub maximum_underrun_recoveries : ℕ
maximum_underrun_recoveries = 3

abbrev pub default_read_stall_timeout : ℤ
default_read_stall_timeout = pos 10000

pub record SubmittedEvidence : Type 0 where
  pub begin_stereo_frame : ℕ
  pub end_stereo_frame : ℕ
  pub evidence : ReadEvidence

pub record Engine : Type 0 where
  pub end : ℤ
  pub start : ℤ
  pub submitted : ℕ
  pub generation : ℕ
  pub block : PcmBlock
  pub offset : ℕ
  pub active : Bool
  pub primed : Bool
  pub draining : Bool
  pub quiescent : Bool
  pub prebuffer_blocks : ℕ
  pub prebuffer_started_at : ℕ
  pub last_prebuffer_wait_ms : Option ℕ
  pub read_stall_timeout : ℤ
  pub last_read_stall_ms : Option ℕ
  pub underrun_recoveries : ℕ
  pub reader_failure : Bool
  pub submitted_evidence : List SubmittedEvidence
  pub current_evidence : Option ReadEvidence

-- The diagnostics of the worker, with the members that the engine sets.
pub record EngineDiagnostics : Type 0 where
  pub worker : Diagnostics
  pub current_playback : Option ReadEvidence
  pub queued_blocks : ℕ
  pub prebuffer_target_frames : ℕ
  pub last_prebuffer_wait_ms : Option ℕ
  pub read_inflight_ms : Option ℕ
  pub read_stall_timeout_ms : ℤ
  pub last_read_stall_ms : Option ℕ

abbrev pub no_evidence : ReadEvidence
no_evidence = record {
  device_generation = 0;
  disc_generation = 0;
  read_sequence = 0;
  stream_generation = 0;
  policy_revision = 0;
  start_lba = pos 0;
  frames_requested = 0;
  frames_read = 0;
  status = IntegrityReadStatus.unknown;
  local_verification = LocalVerification.none;
  read_independence = ReadIndependence.unknown;
  c2_status = C2Status.unknown;
  offset_status = OffsetStatus.unknown;
  direct_retries = 0;
  backend_events = no_events;
  verification = no_verification;
  offset = none;
}

-- `{}`
abbrev pub empty_block : PcmBlock
empty_block = record { generation = 0; lba = pos 0; samples = []; evidence = no_evidence }

-- The calls of PcmWorker that the engine makes.
pub record WorkerCalls (W : Type 0) : Type 0 where
  pub startup_buffer_blocks : W → ℕ
  pub buffer_capacity_blocks : W → ℕ
  pub read_block_cd_frames : W → ℕ
  pub start : ℤ → ℤ → W → Reply ℕ × W
  pub cancel : W → W
  pub discard_reader : W → W
  pub status : Bool → Bool → W → WorkerStatus × W
  pub pop : W → Option PcmBlock × W

-- include/audio_output.hpp
pub record AudioOutput (O : Type 0) : Type 0 where
  pub reset : O → Reply (Unit {0}) × O
  pub write : List ℤ → O → Reply ℕ × O
  pub delay : O → Reply ℤ × O
  pub drain : O → Reply Bool × O

-- The engine with the objects that it refers to.
pub record System (W O : Type 0) : Type 0 where
  pub engine : Engine
  pub controller : PlayerController
  pub worker : W
  pub output : O

module _ {W O : Type 0} where
  abbrev pub change : (Engine → Engine) → Action (System W O) (Unit {0})
  change f = modify (λ s. record s { engine = f s.engine })

  abbrev pub on_worker : (W → W) → Action (System W O) (Unit {0})
  on_worker f = modify (λ s. record s { worker = f s.worker })

  abbrev pub asked : {A : Type 0} → (W → A × W) → Action (System W O) A
  asked f s = (Ended.done (f s.worker).0, record s { worker = (f s.worker).1 })

  abbrev pub on_start : (W → Reply ℕ × W) → Action (System W O) ℕ
  on_start f s = (ended_of (f s.worker).0, record s { worker = (f s.worker).1 })

  abbrev pub on_output : {A : Type 0} → (O → Reply A × O) → Action (System W O) A
  on_output f s = (ended_of (f s.output).0, record s { output = (f s.output).1 })

  abbrev pub put_controller :
      System W O → Outcome (PlayerController × Bool) → Ended (Unit {0}) × System W O
  put_controller s (returned (c, _)) = (Ended.done tt, record s { controller = c })
  put_controller s (thrown e) = (Ended.failed (Failure.error e), s)
  put_controller s undefined = (Ended.undefined, s)

  abbrev pub on_controller :
      (PlayerController → Outcome (PlayerController × Bool)) → Action (System W O) (Unit {0})
  on_controller f s = put_controller s (f s.controller)

abbrev pub new_engine : ℤ → ℤ → ℕ → Engine
new_engine end timeout prebuffer = record {
  end = end;
  start = pos 0;
  submitted = 0;
  generation = 0;
  block = empty_block;
  offset = 0;
  active = false;
  primed = false;
  draining = false;
  quiescent = false;
  prebuffer_blocks = prebuffer;
  prebuffer_started_at = 0;
  last_prebuffer_wait_ms = none;
  read_stall_timeout = timeout;
  last_read_stall_ms = none;
  underrun_recoveries = 0;
  reader_failure = false;
  submitted_evidence = [];
  current_evidence = none;
}

abbrev pub no_stream : Engine → Engine
no_stream e = record e { quiescent = false; active = false; underrun_recoveries = 0 }

-- What synchronize clears behind the reset of the output.
abbrev pub cleared : ℕ → Engine → Engine
cleared later e = record e {
  block = empty_block;
  offset = 0;
  submitted = 0;
  primed = false;
  draining = false;
  prebuffer_started_at = later;
  last_prebuffer_wait_ms = none;
  last_read_stall_ms = none;
  submitted_evidence = [];
  current_evidence = none;
}

module _ {W O : Type 0} (calls : WorkerCalls W) (sink : AudioOutput O) where
  unfoldable pub new_playback_engine : ℤ → ℤ → W → Outcome Engine
  new_playback_engine end timeout w =
      if ltb_ℤ end (pos 0) || leb_ℤ timeout (pos 0)
      then thrown invalid_argument
      else returned (new_engine end timeout (calls.startup_buffer_blocks w))

  unfoldable pub set_disc_end : ℤ → Action (System W O) (Unit {0})
  set_disc_end end = do
    throw_if (ltb_ℤ end (pos 0)) (Failure.error invalid_argument)
    change (λ e. record e { end = end })

  unfoldable pub set_read_stall_timeout : ℤ → Action (System W O) (Unit {0})
  set_read_stall_timeout timeout = do
    active ← gets (λ s. s.engine.active)
    throw_if (active || leb_ℤ timeout (pos 0)) (Failure.error invalid_argument)
    change (λ e. record e { read_stall_timeout = timeout })

  unfoldable pub reset_prebuffer_target : Action (System W O) (Unit {0})
  reset_prebuffer_target = do
    active ← gets (λ s. s.engine.active)
    throw_if active (Failure.error logic_error)
    modify (λ s. record s {
      engine = record s.engine { prebuffer_blocks = calls.startup_buffer_blocks s.worker };
    })

  -- The start of a stream at a position.
  unfoldable pub start_at : ℤ → Action (System W O) (Unit {0})
  start_at position = do
    end ← gets (λ s. s.engine.end)
    throw_if (leb_ℤ end position) (Failure.error runtime_error)
    change (λ e. record e { start = position })
    generation ← on_start (calls.start position end)
    change (λ e. record e { generation = generation; active = true })

  unfoldable pub start_playing : Action (System W O) (Unit {0})
  unfolding start_at
  start_playing = do
    playing_from ← gets (λ s. s.controller.state.position_lba)
    position ← lifted playing_from
    start_at position

  abbrev pub follow_state : PlaybackState → Action (System W O) (Unit {0})
  follow_state PlaybackState.playing = start_playing
  follow_state PlaybackState.stopped = do
    on_worker calls.discard_reader
    change (λ e. record e { quiescent = true })
  follow_state PlaybackState.paused = pure tt
  follow_state PlaybackState.no_disc = pure tt

  -- `later` is the time at which the prebuffer begins.
  unfoldable pub synchronize : ℕ → Action (System W O) (Unit {0})
  unfolding start_playing
  synchronize later = do
    change no_stream
    on_worker calls.cancel
    on_output sink.reset
    change (cleared later)
    playback ← gets (λ s. s.controller.state.playback)
    follow_state playback

  unfoldable pub quiescent : System W O → Bool
  quiescent s = s.engine.quiescent && (elim s.controller.state.playback [
    | PlaybackState.stopped ↦ true
    | PlaybackState.playing ↦ false
    | PlaybackState.paused ↦ false
    | PlaybackState.no_disc ↦ false
  ])

  unfoldable pub take_reader_failure : Action (System W O) Bool
  take_reader_failure = do
    value ← gets (λ s. s.engine.reader_failure)
    change (λ e. record e { reader_failure = false })
    pure value

  unfoldable pub read_diagnostics : Bool → Bool → Action (System W O) EngineDiagnostics
  read_diagnostics include_history include_disc_map = do
    status ← asked (calls.status include_history include_disc_map)
    s ← gets (λ t. t)
    pure (record {
      worker = status.diagnostics;
      current_playback = s.engine.current_evidence;
      queued_blocks = status.queued;
      prebuffer_target_frames = s.engine.prebuffer_blocks * calls.read_block_cd_frames s.worker;
      last_prebuffer_wait_ms = s.engine.last_prebuffer_wait_ms;
      read_inflight_ms =
          if ltb 0 status.read_inflight_us then some (status.read_inflight_us / 1000) else none;
      read_stall_timeout_ms = s.engine.read_stall_timeout;
      last_read_stall_ms = s.engine.last_read_stall_ms;
    })
