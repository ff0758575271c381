-- ===== src/Engine/Threaded.antt =====
-- The calls of the engine on PcmWorker: before each call the thread of the worker has made some turns.
use picdplayer.Engine.Effect.{Failure, Reply}
use picdplayer.Engine.Log.{samples_of}
use picdplayer.Outcome.{Outcome, returned, thrown, undefined, logic_error}
use picdplayer.Prelude.{ℕ, suc, Bool, Option, none, some, List, [], ◌∷◌, ◌++◌, ℤ}
use picdplayer.Worker.{PcmWorker, PcmBlock, WorkerStatus}
use picdplayer.Worker
use picdplayer.Worker.Thread.{System, Drive, turn}

-- The turns before a call, and the time of it.
pub record Slot : Type 0 where
  pub drives : List Drive
  pub now : ℕ

-- The worker with its thread, the turns to come, and a log: how often a generation began, and of the
-- stream that was started last its generation, its first LBA and the samples popped.
pub record Threaded : Type 0 where
  pub system : System
  pub schedule : List Slot
  pub generations : ℕ
  pub generation : ℕ
  pub begin : ℤ
  pub samples : List ℤ

abbrev pub turned : System → List Drive → System
turned s [] = s
turned s (d ∷ ds) = turned (turn s d) ds

abbrev pub slot_of : List Slot → Slot
slot_of [] = record { drives = []; now = 0 }
slot_of (slot ∷ rest) = slot

abbrev pub rest_of : List Slot → List Slot
rest_of [] = []
rest_of (slot ∷ rest) = rest

-- The turns before a call.
abbrev pub entered : Threaded → Threaded
entered t = record t {
  system = turned t.system (slot_of t.schedule).drives;
  schedule = rest_of t.schedule;
}

abbrev pub put_worker : Threaded → PcmWorker → Threaded
put_worker t w = record t { system = record t.system { worker = w } }

abbrev pub next_generation : Threaded → PcmWorker → Threaded
next_generation t w = record (put_worker t w) { generations = suc t.generations }

-- start returns or throws.
abbrev pub started_by : ℤ → Threaded → Outcome ℕ × PcmWorker → Reply ℕ × Threaded
started_by from t (returned g, w) =
    (Reply.gave g, record (next_generation t w) { generation = g; begin = from; samples = [] })
started_by from t (thrown e, w) = (Reply.threw (Failure.error e), put_worker t w)
started_by from t (undefined, w) = (Reply.threw (Failure.error logic_error), put_worker t w)

abbrev pub popped_by : Threaded → Option PcmBlock × PcmWorker → Option PcmBlock × Threaded
popped_by t (none, w) = (none, put_worker t w)
popped_by t (some block, w) =
    (some block, record (put_worker t w) { samples = t.samples ++ samples_of t.generation block })

abbrev pub start_of : ℤ → ℤ → Threaded → Reply ℕ × Threaded
start_of from to t = started_by from (entered t) (Worker.start (entered t).system.worker from to)

abbrev pub cancel_of : Threaded → Threaded
cancel_of t = next_generation (entered t) (Worker.cancel (entered t).system.worker)

abbrev pub discard_of : Threaded → Threaded
discard_of t = next_generation (entered t) (Worker.discard_reader (entered t).system.worker)

abbrev pub status_of : Bool → Bool → Threaded → WorkerStatus
status_of history map t =
    Worker.status (entered t).system.worker (slot_of t.schedule).now history map

abbrev pub pop_of : Threaded → Option PcmBlock × Threaded
pop_of t = popped_by (entered t) (Worker.pop (entered t).system.worker)
