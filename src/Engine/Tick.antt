-- ===== src/Engine/Tick.antt =====
-- src/playback_engine.cpp: PlaybackEngine::tick.
-- Its handlers read the status for the log; the call of the worker stays.
use picdplayer.Engine.Effect.{
  Action, Failure, modify, gets, lifted, throw, throw_if, pure, try_catch, ◌>>=◌, ◌>>◌,
}
use picdplayer.Engine.{
  Engine, System, SubmittedEvidence, WorkerCalls, AudioOutput, change, on_worker, asked, on_start,
  on_output, on_controller, synchronize, empty_block, maximum_underrun_recoveries,
}
use picdplayer.Evidence.{ReadEvidence}
use picdplayer.Outcome.{Exception, runtime_error}
use picdplayer.Player.{stop, finished, playback_position}
use picdplayer.Prelude.{
  ℕ, zero, suc, ◌+◌, ◌-◌, ◌*◌, ◌/◌, Bool, true, false, not, ◌&&◌, ◌||◌, Option, none, some, List,
  [], ◌∷◌, ◌++◌, ℤ, pos, ◌+ℤ◌, ◌-ℤ◌, clamp_ℤ, min_ℤ, pos_part, if◌then◌else◌, ltb, leb, leb_ℤ, ◌==◌,
  length, drop, min,
}
use picdplayer.Worker.{PcmBlock, WorkerStatus}

-- What a handler clears before it stops the worker.
abbrev pub silenced : Engine → Engine
silenced e = record e {
  active = false;
  submitted_evidence = [];
  current_evidence = none;
  block = empty_block;
  offset = 0;
}

-- The part of submitted_evidence_ that is not played in full.
abbrev pub unplayed : ℤ → List SubmittedEvidence → List SubmittedEvidence
unplayed played [] = []
unplayed played (s ∷ rest) =
    let later = unplayed played rest in
    if leb_ℤ (pos s.end_stereo_frame) played then later else s ∷ rest

abbrev pub playing_now : ℤ → List SubmittedEvidence → Option ReadEvidence
playing_now played [] = none
playing_now played (s ∷ rest) =
    if leb_ℤ (pos s.begin_stereo_frame) played then some s.evidence else none

-- What the loop does with the present block: nothing is left, it is of an earlier stream, or there is
-- PCM to write.
pub data Filling : Type 0 where
  break continue ready : Filling

-- The engine after a write of `accepted` stereo frames.
abbrev pub submit : ℕ → Engine → Engine
submit accepted e = record e {
  submitted_evidence =
      if accepted == 0
      then e.submitted_evidence
      else e.submitted_evidence
        ++ (record {
          begin_stereo_frame = e.submitted;
          end_stereo_frame = e.submitted + accepted;
          evidence = e.block.evidence;
        }
            ∷ []);
  offset = e.offset + accepted * 2;
  submitted = e.submitted + accepted;
}

abbrev pub resume_at : Engine → ℤ
resume_at e = min_ℤ (e.end -ℤ pos 1) (e.start +ℤ pos (e.submitted / 588))

-- What the recovery from an underrun clears.
abbrev pub restarted : ℕ → Engine → Engine
restarted later e = record e {
  block = empty_block;
  offset = 0;
  submitted = 0;
  primed = false;
  draining = false;
  prebuffer_started_at = later;
  last_prebuffer_wait_ms = none;
  submitted_evidence = [];
  current_evidence = none;
}

module _ {W O : Type 0} (calls : WorkerCalls W) (sink : AudioOutput O) where
  abbrev pub put_block : Option PcmBlock → Action (System W O) Filling
  put_block none = pure Filling.break
  put_block (some block) = do
    change (λ e. record e { block = block })
    generation ← gets (λ s. s.engine.generation)
    if block.generation == generation
        then pure Filling.ready
        else (change (λ e. record e { block = empty_block }) >> pure Filling.continue)

  unfoldable pub fill : Action (System W O) Filling
  fill = do
    e ← gets (λ s. s.engine)
    if e.offset == length e.block.samples
        then (do
          change (λ f. record f { block = empty_block; offset = 0 })
          popped ← asked calls.pop
          put_block popped)
        else pure Filling.ready

  -- A span behind the end of the samples is undefined.
  unfoldable pub send : Action (System W O) (Unit {0}) → Action (System W O) (Unit {0})
  send next = do
    e ← gets (λ s. s.engine)
    remaining ← lifted (
        if leb e.offset (length e.block.samples)
        then some (drop e.offset e.block.samples)
        else none)
    accepted ← on_output (sink.write remaining)
    throw_if (ltb (length remaining / 2) accepted) (Failure.error runtime_error)
    change (submit accepted)
    if accepted == 0 then pure tt else next

  abbrev pub after_fill : Action (System W O) (Unit {0}) → Filling → Action (System W O) (Unit {0})
  after_fill next Filling.break = pure tt
  after_fill next Filling.continue = next
  after_fill next Filling.ready = send next

  -- At most as many rounds as the first argument.
  unfoldable pub write_loop : ℕ → Action (System W O) (Unit {0})
  unfolding fill send
  write_loop zero = pure tt
  write_loop (suc n) = do filling ← fill; after_fill (write_loop n) filling

  abbrev pub finish_if : ℕ → Bool → Action (System W O) (Unit {0})
  finish_if later drained =
      if drained then (on_controller finished >> synchronize calls sink later) else pure tt

  unfoldable pub drain : ℕ → Action (System W O) (Unit {0})
  drain later = do drained ← on_output sink.drain; finish_if later drained

  -- The position that is heard, and its evidence.
  unfoldable pub report : Action (System W O) (Unit {0})
  report = do
    delay ← on_output sink.delay
    e ← gets (λ s. s.engine)
    let played = clamp_ℤ (pos e.submitted -ℤ delay) (pos 0) (pos e.submitted)
    change (λ f. record f {
      submitted_evidence = unplayed played f.submitted_evidence;
      current_evidence = playing_now played (unplayed played f.submitted_evidence);
    })
    on_controller
        (λ c. playback_position c (min_ℤ (e.end -ℤ pos 1) (e.start +ℤ pos (pos_part played / 588))))

  -- The body of tick behind the prebuffer.
  unfoldable pub feed : ℕ → Action (System W O) (Unit {0})
  unfolding write_loop report drain
  feed later = do
    write_loop 12
    report
    status ← asked (calls.status false false)
    e ← gets (λ s. s.engine)
    if status.done && (status.queued == 0) && (e.offset == length e.block.samples)
        then (change (λ f. record f { draining = true }) >> drain later)
        else pure tt

  -- A call of the reader that lasts too long.
  unfoldable pub stall : ℕ → Action (System W O) (Unit {0})
  stall inflight_us = do
    change (λ e. record e { reader_failure = true; last_read_stall_ms = some (inflight_us / 1000) })
    on_controller stop
    change silenced
    on_worker calls.cancel
    on_worker calls.discard_reader
    on_output sink.reset

  unfoldable pub prebuffered : ℕ → ℕ → WorkerStatus → Action (System W O) (Unit {0})
  unfolding feed
  prebuffered now later status = do
    e ← gets (λ s. s.engine)
    if e.primed
        then feed later
        else if ltb status.queued e.prebuffer_blocks && not status.done
        then pure tt
        else (do
          change (λ f. record f {
            primed = true;
            last_prebuffer_wait_ms = some ((now - f.prebuffer_started_at) / 1000000);
          })
          feed later)

  abbrev pub check_error : Option Exception → Action (System W O) (Unit {0})
  check_error none = pure tt
  check_error (some e) =
      change (λ f. record f { reader_failure = true }) >> throw (Failure.error runtime_error)

  -- A timeout is positive.
  unfoldable pub body : ℕ → ℕ → Action (System W O) (Unit {0})
  unfolding stall prebuffered
  body now later = do
    status ← asked (calls.status false false)
    check_error status.error
    e ← gets (λ s. s.engine)
    if leb (pos_part e.read_stall_timeout * 1000) status.read_inflight_us
        then stall status.read_inflight_us
        else if e.draining
        then drain later
        else prebuffered now later status

  abbrev pub silence : Action (System W O) (Unit {0})
  silence = do
    on_controller stop
    change silenced
    on_worker calls.cancel
    on_worker calls.discard_reader

  -- The recovery behind the reset of the output.
  unfoldable pub restart : ℕ → Action (System W O) (Unit {0})
  restart later = do
    change (restarted later)
    position ← gets (λ s. s.controller.state.position_lba)
    start ← lifted position
    modify (λ s. record s {
      engine = record s.engine {
        start = start;
        prebuffer_blocks =
            min (calls.buffer_capacity_blocks s.worker) (s.engine.prebuffer_blocks + 5);
        underrun_recoveries = s.engine.underrun_recoveries + 1;
      };
    })
    end ← gets (λ s. s.engine.end)
    generation ← on_start (calls.start start end)
    change (λ f. record f { generation = generation; active = true })

  unfoldable pub recover : ℕ → Action (System W O) (Unit {0})
  unfolding restart
  recover later = do
    e ← gets (λ s. s.engine)
    throw_if
        (e.draining
          || leb (pos_part (e.end -ℤ e.start) * 588) e.submitted
          || leb maximum_underrun_recoveries e.underrun_recoveries)
        Failure.underrun
    on_controller (λ c. playback_position c (resume_at e))
    change (λ f. record f { active = false })
    on_worker calls.discard_reader
    on_output sink.reset
    restart later

  -- The exception of a failed reset is dropped.
  abbrev pub give_up : Failure → Action (System W O) (Unit {0})
  give_up failure = do silence; try_catch (on_output sink.reset) (λ _. pure tt); throw failure

  unfoldable pub on_failure : ℕ → Failure → Action (System W O) (Unit {0})
  unfolding recover
  on_failure later Failure.underrun = do
    status ← asked (calls.status false false)
    try_catch (recover later) give_up
  on_failure later (Failure.error e) = do
    status ← asked (calls.status false false)
    silence
    on_output sink.reset
    throw (Failure.error e)

  -- `now` is the time of the call, and `later` that of a restart of the prebuffer in it.
  unfoldable pub tick : ℕ → ℕ → Action (System W O) (Unit {0})
  unfolding body on_failure
  tick now later = do
    active ← gets (λ s. s.engine.active)
    if active then try_catch (body now later) (on_failure later) else pure tt
