-- ===== src/Examples/Engines.antt =====
-- An engine over a worker that has two blocks of a CD frame ready, and an output that takes all of it.
use picdplayer.Prelude.{
  ℕ, ◌+◌, ◌/◌, ◌≡◌, refl, true, false, Option, none, some, List, [], ◌∷◌, ℤ, pos, length, replicate,
  arith, inl,
}
use picdplayer.Engine.Effect.{Reply, Post}
use picdplayer.Engine.{
  Engine, System, WorkerCalls, AudioOutput, new_engine, empty_block, no_evidence,
}
use picdplayer.Engine
use picdplayer.Engine.Invariant.{Inv, Settles}
use picdplayer.Engine.Log.{Taken, Sent, watched_log, watched_worker, watched_output}
use picdplayer.Engine.Tick
use picdplayer.Engine.Failing
use picdplayer.Engine.Run
use picdplayer.Engine.Run.{Event}
use picdplayer.Examples.Discs.{two_tracks, playing_one, playing_one-HasDisc, playing_one-At}
use picdplayer.Player.Invariant.{loaded}
use picdplayer.Player.Run.{loads, plays, stops}
use picdplayer.Worker.{PcmBlock, WorkerStatus, new_diagnostics}

-- The blocks that are ready.
abbrev Blocks : Type 0
Blocks = List PcmBlock

abbrev block_at : ℤ → PcmBlock
block_at lba = record {
  generation = 1;
  lba = lba;
  samples = replicate 1176 (pos 7);
  evidence = no_evidence;
}

abbrev popped : Blocks → Option PcmBlock × Blocks
popped [] = (none, [])
popped (block ∷ rest) = (some block, rest)

abbrev status_of : Blocks → WorkerStatus
status_of blocks = record {
  queued = length blocks;
  done = true;
  error = none;
  last_read_us = 0;
  read_inflight_us = 0;
  diagnostics =
      new_diagnostics (record { capacity_cd_frames = 30; startup_cd_frames = 15 }) [] [] 15;
  dropped_events = 0;
  history_included = false;
  disc_map = none;
  recent_reads = [];
  history_evicted = 0;
}

abbrev two_blocks : WorkerCalls Blocks
two_blocks = record {
  startup_buffer_blocks = λ w. 1;
  buffer_capacity_blocks = λ w. 2;
  read_block_cd_frames = λ w. 15;
  start = λ begin end w. (Reply.gave 1, block_at begin ∷ block_at (pos 0) ∷ []);
  cancel = λ w. [];
  discard_reader = λ w. [];
  status = λ history map w. (status_of w, w);
  pop = popped;
}

abbrev pub all_taken : AudioOutput ℕ
all_taken = record {
  reset = λ o. (Reply.gave tt, 0);
  write = λ xs o. (Reply.gave (length xs / 2), o + length xs / 2);
  delay = λ o. (Reply.gave (pos 0), o);
  drain = λ o. (Reply.gave false, o);
}

abbrev new_worker : Taken Blocks
new_worker = record { worker = []; generation = 0; samples = []; begin = pos 0 }

abbrev streaming : System (Taken Blocks) (Sent ℕ)
streaming = record {
  engine = record (new_engine (pos 450) (pos 10000) 1) {
    active = true;
    generation = 1;
    start = pos 10;
  };
  controller = playing_one;
  worker = record {
    worker = block_at (pos 10) ∷ block_at (pos 11) ∷ [];
    generation = 1;
    samples = [];
    begin = pos 10;
  };
  output = record { output = 0; samples = [] };
}

streaming-Inv : Inv (watched_log two_blocks) streaming
streaming-Inv =
    let player = loaded two_tracks playing_one-HasDisc playing_one-At in
    record {
      inside = omega arith;
      bounded = omega arith;
      player = player;
      streamed = λ _. (
        record { toc = two_tracks; has = refl; keeps = player },
        record { current = refl; located = refl; joined = refl; counted = refl },
      );
    }

tick-Settles_example :
    Post
      (Settles (watched_log two_blocks))
      (Failing.Fails (watched_log two_blocks))
      (Tick.tick (watched_worker two_blocks) (watched_output all_taken) 5 6 streaming)
tick-Settles_example =
    Failing.tick-Settles (watched_worker two_blocks) (watched_log two_blocks) all_taken 5 6
      streaming streaming-Inv (inl refl)

abbrev session : List Event
session =
    Event.sets_disc_end (pos 450)
    ∷ Event.commands (loads two_tracks) 1
    ∷ Event.commands plays 2
    ∷ Event.ticks 3 4
    ∷ Event.ticks 5 6
    ∷ Event.commands stops 7
    ∷ []

run_from-begun_example :
    (t : System (Taken Blocks) (Sent ℕ)) × (Run.run_from
        (watched_worker two_blocks)
        (watched_output all_taken)
        (some (Run.begun (new_engine (pos 0) (pos 10000) 1) new_worker 0))
        session
      ≡ some t)
    × Inv (watched_log two_blocks) t
unfolding Engine.new_playback_engine
run_from-begun_example =
    Run.run_from-begun (watched_worker two_blocks) (watched_log two_blocks) all_taken (pos 0)
      (pos 10000) new_worker 0 (new_engine (pos 0) (pos 10000) 1) session refl
