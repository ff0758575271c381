-- ===== src/Engine/Failing.antt =====
-- The handlers of a tick, and the whole tick.
use mathlib.Core.Path.{subst}
use picdplayer.Engine.Effect.{
  Action, Failure, Reply, Post, then_do, caught, ended_of, pure, throw, try_catch,
}
use picdplayer.Engine.{System, WorkerCalls, AudioOutput, change}
use picdplayer.Engine.Invariant.{
  Inv, Broken, Silent, Settled, Settles, then_do-Post, caught-Post, Post-map, lifted-Post,
  on_controller-Post, reset-Post,
}
use picdplayer.Engine.Log.{WorkerLog, Sent, on_sent, emptied, watched_output}
use picdplayer.Engine.Starting.{Ceased, streams, started-Settles}
use picdplayer.Engine.Tick.{
  restart, silence, resume_at, restarted, recover, give_up, on_failure, body, tick,
}
use picdplayer.Engine.Ticking.{body-Settles}
use picdplayer.Player.{stop, playback_position}
use picdplayer.Player.Loaded.{
  Loaded, Halted, Loaded-position, stop-Halted, playback_position-Loaded,
}
use picdplayer.Prelude.{
  ℕ, ◌+◌, ◌*◌, ◌<◌, ◌≡◌, refl, false, ◌||◌, [], ◌-ℤ◌, pos_part, if◌then◌else◌, if-both, leb, min,
  arith, Bool-cases, inl, inr,
}

module _ {W O : Type 0} {calls : WorkerCalls W} (log : WorkerLog calls) where
  -- What a tick that throws leaves.
  abbrev pub Fails : Failure → System W (Sent O) → Type 0
  Fails f s = Inv log s × Silent s

  -- Another state of the output changes nothing of it.
  other_output-Fails :
      (f : Failure) (s : System W (Sent O)) (o : Sent O)
      → Fails f s
      → Fails f (record s { output = o })
  other_output-Fails f s o (i, h) = (
    record {
      inside = i.inside;
      bounded = i.bounded;
      player = i.player;
      streamed = λ e. let quiet = h.inactive in absurd (cc);
    },
    record {
      inactive = h.inactive;
      halted = h.halted;
      no_block = h.no_block;
      no_evidence = h.no_evidence;
    },
  )

  throw-Fails :
      (g : Failure) (s : System W (Sent O)) (r : Reply (Unit {0}) × O)
      → Fails g s
      → Post (Settles log) Fails (
          then_do
            (λ _. throw {A = Unit {0}} g)
            (ended_of (emptied s.output r).0, record s { output = (emptied s.output r).1 }))
  throw-Fails g s (Reply.gave u, o) h =
      other_output-Fails g s (record { output = o; samples = [] }) h
  throw-Fails g s (Reply.threw f, o) h = other_output-Fails f s (on_sent s.output o) h

  throw_after-Fails :
      (g : Failure) (s : System W (Sent O)) (r : Reply (Unit {0}) × O)
      → Fails g s
      → Post (Settles log) Fails (
          then_do
            (λ _. throw {A = Unit {0}} g)
            (caught
              (λ _. pure tt)
              (ended_of (emptied s.output r).0, record s { output = (emptied s.output r).1 })))
  throw_after-Fails g s (Reply.gave u, o) h =
      other_output-Fails g s (record { output = o; samples = [] }) h
  throw_after-Fails g s (Reply.threw f, o) h = other_output-Fails g s (on_sent s.output o) h

module _ {W O : Type 0} (calls : WorkerCalls W) (log : WorkerLog calls) (sink : AudioOutput O) where
  silence-Fails :
      (f : Failure) (s : System W (Sent O))
      → Broken f s
      → Post (λ (a : Unit {0}) t. Fails log f t) (Fails log) (silence calls (watched_output sink) s)
  silence-Fails f s b =
      on_controller-Post (λ (a : Unit {0}) t. Fails log f t) (Fails log) Halted _ s
        (stop s.controller) (stop-Halted s.controller b.disc)
        (λ c h. (
          record {
            inside = omega arith;
            bounded = b.bounded;
            player = h.0.keeps;
            streamed = λ e. absurd (cc);
          },
          record { inactive = refl; halted = h.1; no_block = refl; no_evidence = (refl, refl) },
        ))

  -- The recovery behind the reset of the output.
  restart-Settles :
      (later : ℕ) (s : System W (Sent O))
      → s.engine.active ≡ false
      → s.engine.underrun_recoveries < 3
      → Loaded s.controller
      → s.output.samples ≡ []
      → Post (Settles log) Broken (restart calls (watched_output sink) later s)
  unfolding restart
  restart-Settles later s off few l sent =
      let (p, at_p) = Loaded-position s.controller l in
      let t : System W (Sent O) = record s { engine = restarted later s.engine } in
      let u : System W (Sent O) = record t {
        engine = record t.engine {
          start = p;
          prebuffer_blocks =
              min (calls.buffer_capacity_blocks s.worker) (s.engine.prebuffer_blocks + 5);
          underrun_recoveries = s.engine.underrun_recoveries + 1;
        };
      } in
      lifted-Post (Settles log) Broken _ t s.controller.state.position_lba p at_p (
        Post-map (Settles log) Broken (Settles log) (Ceased log s.controller)
          (then_do (λ generation. change (streams generation))
            (
              ended_of (calls.start p s.engine.end s.worker).0,
              record u { worker = (calls.start p s.engine.end s.worker).1 },
            ))
          (λ a v h. h) (λ f v h. record { bounded = h.0.bounded; disc = rw h.2 l })
          (started-Settles log u (calls.start p s.engine.end s.worker)
            (record {
              inactive = off;
              bounded = omega (arith, few);
              player = l.keeps;
              no_block = refl;
              at_zero = refl;
              none_submitted = refl;
              none_sent = sent;
            })
            l (log.started p s.engine.end s.worker)))

  recover-Settles :
      (later : ℕ) (s : System W (Sent O))
      → Broken Failure.underrun s
      → Post (Settles log) Broken (recover calls (watched_output sink) later s)
  unfolding recover
  recover-Settles later s b =
      elim (Bool-cases (
        s.engine.draining
        || leb (pos_part (s.engine.end -ℤ s.engine.start) * 588) s.engine.submitted
        || leb 3 s.engine.underrun_recoveries)) [
          | inl over ↦ rw over (record { bounded = b.bounded; disc = b.disc })
          | inr fine ↦ rw fine (
              on_controller-Post (Settles log) Broken Loaded _ s
                (playback_position s.controller (resume_at s.engine))
                (playback_position-Loaded s.controller b.disc (resume_at s.engine))
                (λ c l.
                  reset-Post (Settles log) Broken (λ _. restart calls (watched_output sink) later)
                    (record s {
                      engine = record s.engine { active = false };
                      controller = c;
                      worker = (calls.discard_reader s.worker);
                    })
                    (sink.reset s.output.output) (λ f o. record { bounded = b.bounded; disc = l })
                    (λ o.
                      restart-Settles later
                        (record s {
                          engine = record s.engine { active = false };
                          controller = c;
                          worker = (calls.discard_reader s.worker);
                          output = record { output = o; samples = [] };
                        })
                        refl (ground (arith, fine)) l refl)))
        ]

  give_up-Fails :
      (f : Failure) (s : System W (Sent O))
      → Broken f s
      → Post (Settles log) (Fails log) (give_up calls (watched_output sink) f s)
  give_up-Fails f s b =
      then_do-Post (Settles log) (Fails log) (λ a t. Fails log f t) _
        (silence calls (watched_output sink) s) (silence-Fails f s b)
        (λ _ t h. throw_after-Fails log f t (sink.reset t.output.output) h)

  on_failure-Settles :
      (later : ℕ) (f : Failure) (s : System W (Sent O))
      → Broken f s
      → Post (Settles log) (Fails log) (on_failure calls (watched_output sink) later f s)
  unfolding on_failure
  on_failure-Settles later Failure.underrun s b =
      let t = record s { worker = (calls.status false false s.worker).1 } in
      caught-Post (Settles log) (Fails log) Broken (give_up calls (watched_output sink))
        (recover calls (watched_output sink) later t)
        (recover-Settles later t (record { bounded = b.bounded; disc = b.disc })) give_up-Fails
  on_failure-Settles later (Failure.error e) s b =
      let t = record s { worker = (calls.status false false s.worker).1 } in
      then_do-Post (Settles log) (Fails log) (λ a u. Fails log (Failure.error e) u) _
        (silence calls (watched_output sink) t)
        (silence-Fails (Failure.error e) t (record { bounded = b.bounded; disc = b.disc }))
        (λ _ u h. throw-Fails log (Failure.error e) u (sink.reset u.output.output) h)

  -- Over any worker with its log, and any output, for a tick of an engine that keeps its invariant and has a stream
  -- if the player plays: the tick is free of undefined behaviour. When it returns, both are so again;
  -- in particular the samples that the output accepted since its reset, and then the rest of the block,
  -- are those popped of the present stream, in order, and at most three underruns were recovered.
  -- When it throws, the stream has ended, the player does not play, and no block or evidence is left.
  pub tick-Settles :
      (now later : ℕ) (s : System W (Sent O))
      → Inv log s
      → Settled s
      → Post (Settles log) (Fails log) (tick calls (watched_output sink) now later s)
  unfolding tick
  tick-Settles now later s i settled =
      if-both (λ (m : Action (System W (Sent O)) (Unit {0})). Post (Settles log) (Fails log) (m s))
        s.engine.active
        (λ on.
          caught-Post (Settles log) (Fails log) Broken
            (on_failure calls (watched_output sink) later)
            (body calls (watched_output sink) now later s)
            (body-Settles calls log sink now later s (record {
              inside = i.inside;
              bounded = i.bounded;
              disc = (i.streamed on).0;
              running = on;
              streamed = (i.streamed on).1;
            }))
            (on_failure-Settles later))
        (λ _. (i, settled))

  pub tick-Inv :
      (now later : ℕ) (s : System W (Sent O))
      → Inv log s
      → Post (λ a t. Inv log t) (λ f t. Inv log t) (tick calls (watched_output sink) now later s)
  unfolding tick
  tick-Inv now later s i =
      if-both
        (λ (m : Action (System W (Sent O)) (Unit {0})).
          Post (λ a t. Inv log t) (λ f t. Inv log t) (m s))
        s.engine.active
        (λ on.
          Post-map (λ a t. Inv log t) (λ f t. Inv log t) (Settles log) (Fails log)
            (try_catch (body calls (watched_output sink) now later)
              (on_failure calls (watched_output sink) later) s)
            (λ a t h. h.0) (λ f t h. h.0)
            (subst
              (λ b. Post (Settles log) (Fails log) (
                (if b
                    then try_catch (body calls (watched_output sink) now later)
                        (on_failure calls (watched_output sink) later)
                    else pure tt)
                  s))
              on (tick-Settles now later s i (inl on))))
        (λ _. i)
