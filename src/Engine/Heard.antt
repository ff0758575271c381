-- ===== src/Engine/Heard.antt =====
-- The player as a whole: engine, worker, thread and player over a faithful drive.
use picdplayer.Engine.{System, AudioOutput, Engine, new_playback_engine}
use picdplayer.Engine.Log.{Sent, watched_output}
use picdplayer.Engine.OnDisc.{OnDisc, Faithful, Follows, IsValid}
use picdplayer.Engine.Proven.{Proven, pcm_worker, pcm_log}
use picdplayer.Engine.Run.{Event, run_from, begun, run_from-begun}
use picdplayer.Engine.Threaded.{Slot, Threaded}
use picdplayer.Evidence.{ReadEvidence}
use picdplayer.Outcome.{returned}
use picdplayer.Prelude.{
  ℕ, ◌*◌, ◌^◌, ◌≤◌, ◌<◌, ◌≡◌, refl, sym, ap, ◌∙◌, true, some, List, [], ◌++◌, ℤ, pos, pos_part,
  length, length-append, take, drop, arith,
}
use picdplayer.Prelude.Slice.{slice, take-slice, take-append, length-slice}
use picdplayer.Worker.{PcmWorker, PcmBufferConfig, new_worker}
use picdplayer.Worker.Fresh.{new-Holds, IsNew, new_worker-IsNew}
use picdplayer.Worker.Run.{started}

front_of_slice :
    (disc : ℕ → ℤ) (xs ys : List ℤ) (i n : ℕ)
    → xs ++ ys ≡ slice disc i n
    → xs ≡ slice disc i (length xs)
front_of_slice disc xs ys i n e =
    let fits : length xs ≤ n =
      omega (arith, length-append xs ys, length-slice disc i n, ap (λ t. length t) e) in
    sym (take-append xs ys (length xs) refl)
    ∙ ap (take (length xs)) e
    ∙ take-slice disc (length xs) i n fits

-- A new worker with the turns to come.
abbrev pub resting : PcmWorker → List Slot → Threaded
resting w schedule = record {
  system = started w;
  schedule = schedule;
  generations = 0;
  generation = 0;
  begin = pos 0;
  samples = [];
}

module _ (disc : ℕ → ℤ) where
  pub resting-IsValid :
      (w : PcmWorker) (schedule : List Slot)
      → IsNew w
      → Faithful disc schedule
      → IsValid disc (resting w schedule)
  unfolding slice
  resting-IsValid w schedule new good = record {
    faithful = good;
    follows = λ _. record {
      next = pos 0;
      holds = new-Holds (OnDisc disc) w new;
      few = omega (arith, new.4);
      earlier = omega arith;
      low = omega arith;
      on_disc = refl;
      reached = λ _. (omega arith, refl);
    };
  }

  -- A stream is active: what was accepted since the reset is the disc from its first LBA on.
  abbrev pub Hears : {O : Type 0} → System (Proven disc) (Sent O) → Type 0
  Hears t =
      t.engine.active ≡ true
      → t.worker.threaded.generations < 2 ^ 64
      → (t.output.samples ≡ slice disc (pos_part t.engine.start * 1176) (t.engine.submitted * 2))

  -- With a new worker over a drive that is faithful to a disc whenever it accepts a read, a new engine
  -- and a new player, any output and any turns of the thread between the calls: any session of ticks,
  -- commands and changes is free of undefined behaviour, and while a stream is active and fewer than
  -- 2 ^ 64 generations were begun, the samples that the output accepted since its reset are those of
  -- the disc from the start of the stream on, as many as the engine counts.
  pub run_from-Hears :
      {O : Type 0} (sink : AudioOutput O) (o : O) (slots : ℕ → ReadEvidence) (c : PcmBufferConfig)
      (strategy mode : List ℕ) (frames : ℕ) (w : PcmWorker) (schedule : List Slot) (end timeout : ℤ)
      (e : Engine) (es : List Event)
      → (made : new_worker slots c strategy mode frames ≡ returned w)
      → (good : Faithful disc schedule)
      → new_playback_engine (pcm_worker disc) (watched_output sink) end timeout (record {
        threaded = resting w schedule;
        valid =
            resting-IsValid w schedule (new_worker-IsNew slots c strategy mode frames w made) good;
      })
        ≡ returned e
      → (t : System (Proven disc) (Sent O)) × (run_from
            (pcm_worker disc)
            (watched_output sink)
            (some (
              begun e
                (record {
                  threaded = resting w schedule;
                  valid =
                      resting-IsValid w schedule
                        (new_worker-IsNew slots c strategy mode frames w made)
                        good;
                })
                o))
            es
          ≡ some t)
        × Hears t
  run_from-Hears sink o slots c strategy mode frames w schedule end timeout e es made good fresh =
      let p : Proven disc = record {
        threaded = resting w schedule;
        valid =
            resting-IsValid w schedule (new_worker-IsNew slots c strategy mode frames w made) good;
      } in
      let (t, run, i) =
        run_from-begun (pcm_worker disc) (pcm_log disc) sink end timeout p o e es fresh in
      (
        t,
        run,
        λ on few.
            let (_, s) = i.streamed on in
            let f : Follows disc t.worker.threaded = t.worker.valid.follows few in
            front_of_slice disc t.output.samples (drop t.engine.offset t.engine.block.samples)
              (pos_part t.worker.threaded.begin * 1176) (length t.worker.threaded.samples)
              (s.joined ∙ f.on_disc)
            ∙ ap (λ n. slice disc (pos_part t.worker.threaded.begin * 1176) n) s.counted
            ∙ ap (λ l. slice disc (pos_part l * 1176) (t.engine.submitted * 2)) s.located,
      )
