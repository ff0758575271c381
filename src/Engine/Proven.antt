-- ===== src/Engine/Proven.antt =====
-- The calls of the engine on PcmWorker over a drive that is faithful to a disc.
use picdplayer.Engine.{WorkerCalls}
use picdplayer.Engine.Log.{IsStarted, IsPopped, WorkerLog}
use picdplayer.Engine.Threaded.{
  Threaded, entered, started_by, popped_by, start_of, cancel_of, discard_of, status_of, pop_of,
}
use picdplayer.Outcome.{Outcome, returned, thrown, undefined}
use picdplayer.Prelude.{ℕ, refl, Option, none, some, ℤ}
use picdplayer.Worker.{PcmWorker, PcmBlock}
use picdplayer.Worker
use picdplayer.Engine.OnDisc.{
  IsValid, start-IsValid, entered-IsValid, cancel-IsValid, discard-IsValid, pop-IsValid,
}

-- The worker with what is true of it.
pub record Proven (disc : ℕ → ℤ) : Type 0 where
  pub threaded : Threaded
  pub valid : IsValid disc threaded

module _ (disc : ℕ → ℤ) where
  abbrev pub proven : {A : Type 0} (r : A × Threaded) → IsValid disc r.1 → A × Proven disc
  proven r v = (r.0, record { threaded = r.1; valid = v })

  -- The calls of the engine on a worker whose drive is faithful.
  abbrev pub pcm_worker : WorkerCalls (Proven disc)
  pcm_worker = record {
    startup_buffer_blocks = λ p. p.threaded.system.worker.startup_blocks;
    buffer_capacity_blocks = λ p. p.threaded.system.worker.capacity_blocks;
    read_block_cd_frames = λ p. p.threaded.system.worker.read_block_cd_frames;
    start = λ from to p.
        proven (start_of from to p.threaded) (
          start-IsValid disc from to (entered p.threaded)
            (entered-IsValid disc p.threaded p.valid));
    cancel = λ p. record {
      threaded = cancel_of p.threaded;
      valid = cancel-IsValid disc (entered p.threaded) (entered-IsValid disc p.threaded p.valid);
    };
    discard_reader = λ p. record {
      threaded = discard_of p.threaded;
      valid = discard-IsValid disc (entered p.threaded) (entered-IsValid disc p.threaded p.valid);
    };
    status = λ history map p.
        proven (status_of history map p.threaded, entered p.threaded)
          (entered-IsValid disc p.threaded p.valid);
    pop = λ p.
        proven (pop_of p.threaded)
          (pop-IsValid disc (entered p.threaded) (entered-IsValid disc p.threaded p.valid));
  }

  pub started_by-IsStarted :
      (from : ℤ) (t : Threaded) (r : Outcome ℕ × PcmWorker)
      (v : IsValid disc (started_by from t r).1)
      → IsStarted
          (λ (p : Proven disc). p.threaded.generation)
          (λ p. p.threaded.samples)
          (λ p. p.threaded.begin)
          from
          (proven (started_by from t r) v)
  started_by-IsStarted from t (returned g, w) v = (refl, refl, refl)
  started_by-IsStarted from t (thrown e, w) v = tt
  started_by-IsStarted from t (undefined, w) v = tt

  pub popped_by-IsPopped :
      (p : Proven disc) (r : Option PcmBlock × PcmWorker)
      (v : IsValid disc (popped_by (entered p.threaded) r).1)
      → IsPopped
          (λ (q : Proven disc). q.threaded.generation)
          (λ q. q.threaded.samples)
          (λ q. q.threaded.begin)
          p
          (proven (popped_by (entered p.threaded) r) v)
  popped_by-IsPopped p (none, w) v = (refl, refl, refl)
  popped_by-IsPopped p (some block, w) v = (refl, refl, refl)

  abbrev pub pcm_log : WorkerLog pcm_worker
  pcm_log = record {
    generation = λ p. p.threaded.generation;
    samples = λ p. p.threaded.samples;
    begin = λ p. p.threaded.begin;
    started = λ from to p.
        started_by-IsStarted from (entered p.threaded)
          (Worker.start (entered p.threaded).system.worker from to)
          (start-IsValid disc from to (entered p.threaded)
            (entered-IsValid disc p.threaded p.valid));
    popped = λ p.
        popped_by-IsPopped p (Worker.pop (entered p.threaded).system.worker)
          (pop-IsValid disc (entered p.threaded) (entered-IsValid disc p.threaded p.valid));
    asked = λ history map p. (refl, refl, refl);
  }
