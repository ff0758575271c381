-- ===== src/Engine/Log.antt =====
-- What goes through the engine: the samples of the present stream that were popped from the worker,
-- and those that the output accepted since its last reset. Any worker and output can be watched.
use picdplayer.Engine.Effect.{Reply}
use picdplayer.Engine.{WorkerCalls, AudioOutput}
use picdplayer.Prelude.{
  ℕ, ◌≡◌, refl, Bool, ◌*◌, Option, none, some, List, [], ◌++◌, ℤ, if◌then◌else◌, ◌==◌, take,
}
use picdplayer.Worker.{PcmBlock}

pub record Taken (W : Type 0) : Type 0 where
  pub worker : W
  pub generation : ℕ
  pub samples : List ℤ
  pub begin : ℤ

pub record Sent (O : Type 0) : Type 0 where
  pub output : O
  pub samples : List ℤ

-- A block of an earlier stream adds nothing.
abbrev pub samples_of : ℕ → PcmBlock → List ℤ
samples_of generation block = if block.generation == generation then block.samples else []

module _ {W : Type 0} (generation : W → ℕ) (samples : W → List ℤ) (begin : W → ℤ) where
  -- The same stream.
  abbrev pub IsKept : W → W → Type 0
  IsKept w x = (generation x ≡ generation w) × (samples x ≡ samples w) × (begin x ≡ begin w)

  -- A new stream of which nothing is popped.
  abbrev pub IsStarted : ℤ → Reply ℕ × W → Type 0
  IsStarted from (Reply.gave g, w) = (generation w ≡ g) × (samples w ≡ []) × (begin w ≡ from)
  IsStarted from (Reply.threw f, w) = Unit {0}

  abbrev pub IsPopped : W → Option PcmBlock × W → Type 0
  IsPopped w (none, x) = IsKept w x
  IsPopped w (some block, x) =
      (generation x ≡ generation w)
      × (samples x ≡ samples w ++ samples_of (generation w) block)
      × (begin x ≡ begin w)

-- What a worker tells of its present stream: its generation and first LBA, and the samples popped.
pub record WorkerLog {W : Type 0} (calls : WorkerCalls W) : Type 0 where
  pub generation : W → ℕ
  pub samples : W → List ℤ
  pub begin : W → ℤ
  pub started :
      (from to : ℤ) (w : W) → IsStarted generation samples begin from (calls.start from to w)
  pub popped : (w : W) → IsPopped generation samples begin w (calls.pop w)
  pub asked :
      (history map : Bool) (w : W)
      → IsKept generation samples begin w (calls.status history map w).1

module _ {W : Type 0} where
  abbrev pub on_taken : Taken W → W → Taken W
  on_taken t w = record t { worker = w }

  abbrev pub new_stream : ℤ → Taken W → Reply ℕ × W → Reply ℕ × Taken W
  new_stream from t (Reply.gave g, w) =
      (Reply.gave g, record { worker = w; generation = g; samples = []; begin = from })
  new_stream from t (Reply.threw f, w) = (Reply.threw f, on_taken t w)

  abbrev pub add_block : Taken W → Option PcmBlock × W → Option PcmBlock × Taken W
  add_block t (none, w) = (none, on_taken t w)
  add_block t (some block, w) =
      (some block, record t { worker = w; samples = t.samples ++ samples_of t.generation block })

  abbrev pub watched_worker : WorkerCalls W → WorkerCalls (Taken W)
  watched_worker calls = record {
    startup_buffer_blocks = λ t. calls.startup_buffer_blocks t.worker;
    buffer_capacity_blocks = λ t. calls.buffer_capacity_blocks t.worker;
    read_block_cd_frames = λ t. calls.read_block_cd_frames t.worker;
    start = λ from to t. new_stream from t (calls.start from to t.worker);
    cancel = λ t. on_taken t (calls.cancel t.worker);
    discard_reader = λ t. on_taken t (calls.discard_reader t.worker);
    status = λ history map t.
        ((calls.status history map t.worker).0, on_taken t (calls.status history map t.worker).1);
    pop = λ t. add_block t (calls.pop t.worker);
  }

  pub new_stream-IsStarted :
      (from : ℤ) (t : Taken W) (r : Reply ℕ × W)
      → IsStarted (λ t. t.generation) (λ t. t.samples) (λ t. t.begin) from (new_stream from t r)
  new_stream-IsStarted from t (Reply.gave g, w) = (refl, refl, refl)
  new_stream-IsStarted from t (Reply.threw f, w) = tt

  pub add_block-IsPopped :
      (t : Taken W) (r : Option PcmBlock × W)
      → IsPopped (λ t. t.generation) (λ t. t.samples) (λ t. t.begin) t (add_block t r)
  add_block-IsPopped t (none, w) = (refl, refl, refl)
  add_block-IsPopped t (some block, w) = (refl, refl, refl)

  -- Any worker can be watched.
  abbrev pub watched_log : (calls : WorkerCalls W) → WorkerLog (watched_worker calls)
  watched_log calls = record {
    generation = λ t. t.generation;
    samples = λ t. t.samples;
    begin = λ t. t.begin;
    started = λ from to t. new_stream-IsStarted from t (calls.start from to t.worker);
    popped = λ t. add_block-IsPopped t (calls.pop t.worker);
    asked = λ history map t. (refl, refl, refl);
  }

module _ {O : Type 0} where
  abbrev pub on_sent : Sent O → O → Sent O
  on_sent s o = record s { output = o }

  abbrev pub emptied : Sent O → Reply (Unit {0}) × O → Reply (Unit {0}) × Sent O
  emptied s (Reply.gave u, o) = (Reply.gave u, record { output = o; samples = [] })
  emptied s (Reply.threw f, o) = (Reply.threw f, on_sent s o)

  abbrev pub written : Sent O → List ℤ → Reply ℕ × O → Reply ℕ × Sent O
  written s xs (Reply.gave n, o) =
      (Reply.gave n, record { output = o; samples = s.samples ++ take (n * 2) xs })
  written s xs (Reply.threw f, o) = (Reply.threw f, on_sent s o)

  abbrev pub watched_output : AudioOutput O → AudioOutput (Sent O)
  watched_output sink = record {
    reset = λ s. emptied s (sink.reset s.output);
    write = λ xs s. written s xs (sink.write xs s.output);
    delay = λ s. ((sink.delay s.output).0, on_sent s (sink.delay s.output).1);
    drain = λ s. ((sink.drain s.output).0, on_sent s (sink.drain s.output).1);
  }
