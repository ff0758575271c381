-- ===== src/Engine/Ticking.antt =====
-- The body of a tick: with a stream that goes on, it settles or throws with a disc in the player.
use picdplayer.Engine.Effect.{Action, Ended, Post}
use picdplayer.Engine.{System, WorkerCalls, AudioOutput, synchronize}
use picdplayer.Engine.Invariant.{
  Going, Broken, Settles, Going-Broken, Going-Settles, then_do-Post, Post-map, on_controller-Post,
  on_output-Post, put_controller-Post, last_reset-Post,
}
use picdplayer.Engine.Log.{WorkerLog, IsKept, Sent, on_sent, watched_output}
use picdplayer.Engine.Starting.{Ceased, synchronize-Settles}
use picdplayer.Engine.Tick.{
  silenced, unplayed, playing_now, finish_if, drain, report, feed, stall, prebuffered, check_error,
  body, write_loop,
}
use picdplayer.Engine.Writing.{write_loop-Going}
use picdplayer.Player.{stop, finished, playback_position}
use picdplayer.Player.Loaded.{
  Loaded, Halted, stop-Halted, finished-Halted, playback_position-Loaded,
}
use picdplayer.Prelude.{
  ℕ, ◌*◌, ◌/◌, ◌-◌, ◌≡◌, refl, Bool, true, false, not, ◌&&◌, Option, none, some, pos, ◌+ℤ◌, ◌-ℤ◌,
  clamp_ℤ, min_ℤ, pos_part, if-both, ltb, leb, ◌==◌, length, arith, inr,
}
use picdplayer.Outcome.{Exception}
use picdplayer.Worker.{WorkerStatus}

module _ {W O : Type 0} (calls : WorkerCalls W) (log : WorkerLog calls) (sink : AudioOutput O) where
  abbrev pub GoesOrBreaks : {A : Type 0} → Ended A × System W (Sent O) → Type 0
  GoesOrBreaks r = Post (λ a t. Going log t) Broken r

  abbrev pub SettlesOrBreaks : Ended (Unit {0}) × System W (Sent O) → Type 0
  SettlesOrBreaks r = Post (Settles log) Broken r

  -- The same stream, with other members of the worker and the output.
  same-Going :
      (s t : System W (Sent O))
      → Going log s
      → t.engine ≡ s.engine
      → t.controller ≡ s.controller
      → IsKept log.generation log.samples log.begin s.worker t.worker
      → t.output.samples ≡ s.output.samples
      → Going log t
  same-Going s t g e c (n, w, f) o = record {
    inside = rw e g.inside;
    bounded = rw e g.bounded;
    disc = rw c g.disc;
    running = rw e g.running;
    streamed = record {
      current = rw (n, e) g.streamed.current;
      located = rw (f, e) g.streamed.located;
      joined = rw (o, e, w) g.streamed.joined;
      counted = rw (o, e) g.streamed.counted;
    };
  }

  finish_if-Settles :
      (later : ℕ) (drained : Bool) (s : System W (Sent O))
      → Going log s
      → SettlesOrBreaks (finish_if calls (watched_output sink) later drained s)
  finish_if-Settles later false s g = Going-Settles log s g
  finish_if-Settles later true s g =
      on_controller-Post (Settles log) Broken Halted
        (λ _. synchronize calls (watched_output sink) later) s (finished s.controller)
        (finished-Halted s.controller g.disc)
        (λ c h.
          Post-map (Settles log) Broken (Settles log) (Ceased log c)
            (synchronize calls (watched_output sink) later (record s { controller = c }))
            (λ u t p. p) (λ f t p. record { bounded = p.0.bounded; disc = rw p.2 h.0 })
            (synchronize-Settles calls log sink later (record s { controller = c }) g.inside
              h.0.keeps))

  drain-Settles :
      (later : ℕ) (s : System W (Sent O))
      → Going log s
      → SettlesOrBreaks (drain calls (watched_output sink) later s)
  unfolding drain
  drain-Settles later s g =
      let t = record s { output = on_sent s.output (sink.drain s.output.output).1 } in
      let h = same-Going s t g refl refl (refl, refl, refl) refl in
      on_output-Post (Settles log) Broken (finish_if calls (watched_output sink) later)
        (sink.drain s.output.output).0 t (λ f. Going-Broken log f t h)
        (λ drained. finish_if-Settles later drained t h)

  report-Going :
      (s : System W (Sent O)) → Going log s → GoesOrBreaks (report calls (watched_output sink) s)
  unfolding report
  report-Going s g =
      let t = record s { output = on_sent s.output (sink.delay s.output.output).1 } in
      let h = same-Going s t g refl refl (refl, refl, refl) refl in
      on_output-Post (λ a t. Going log t) Broken _ (sink.delay s.output.output).0 t
        (λ f. Going-Broken log f t h)
        (λ delay.
          let played = clamp_ℤ (pos s.engine.submitted -ℤ delay) (pos 0) (pos s.engine.submitted) in
          let heard =
            min_ℤ (s.engine.end -ℤ pos 1) (s.engine.start +ℤ pos (pos_part played / 588)) in
          put_controller-Post (λ (a : Unit {0}) (u : System W (Sent O)). Going log u) Broken Loaded
            (record t {
              engine = record s.engine {
                submitted_evidence = unplayed played s.engine.submitted_evidence;
                current_evidence = playing_now played (unplayed played s.engine.submitted_evidence);
              };
            })
            (playback_position s.controller heard)
            (playback_position-Loaded s.controller g.disc heard)
            (λ c l. record {
              inside = g.inside;
              bounded = g.bounded;
              disc = l;
              running = g.running;
              streamed = record {
                current = g.streamed.current;
                located = g.streamed.located;
                joined = g.streamed.joined;
                counted = g.streamed.counted;
              };
            }))

  feed-Settles :
      (later : ℕ) (s : System W (Sent O))
      → Going log s
      → SettlesOrBreaks (feed calls (watched_output sink) later s)
  unfolding feed
  feed-Settles later s g =
      then_do-Post (Settles log) Broken (λ a t. Going log t) _
        (write_loop calls (watched_output sink) 12 s) (write_loop-Going calls log sink 12 s g)
        (λ _ t h.
          then_do-Post (Settles log) Broken (λ a t. Going log t) _
            (report calls (watched_output sink) t) (report-Going t h)
            (λ _ u k.
              let status = (calls.status false false u.worker).0 in
              let v = record u { worker = (calls.status false false u.worker).1 } in
              let l = same-Going u v k refl refl (log.asked false false u.worker) refl in
              if-both (λ (m : Action (System W (Sent O)) (Unit {0})). SettlesOrBreaks (m v))
                (status.done
                  && (status.queued == 0)
                  && (u.engine.offset == length u.engine.block.samples))
                (λ _.
                  drain-Settles later (record v { engine = record u.engine { draining = true } })
                    (record {
                      inside = l.inside;
                      bounded = l.bounded;
                      disc = l.disc;
                      running = l.running;
                      streamed = record {
                        current = l.streamed.current;
                        located = l.streamed.located;
                        joined = l.streamed.joined;
                        counted = l.streamed.counted;
                      };
                    }))
                (λ _. Going-Settles log v l)))

  stall-Settles :
      (inflight_us : ℕ) (s : System W (Sent O))
      → Going log s
      → SettlesOrBreaks (stall calls (watched_output sink) inflight_us s)
  unfolding stall
  stall-Settles inflight_us s g =
      let t : System W (Sent O) = record s {
        engine = record s.engine {
          last_read_stall_ms = some (inflight_us / 1000);
          reader_failure = true;
        };
      } in
      on_controller-Post (Settles log) Broken Halted _ t (stop s.controller)
        (stop-Halted s.controller g.disc)
        (λ c h.
          last_reset-Post (Settles log) Broken
            (record t {
              engine = silenced t.engine;
              controller = c;
              worker = (calls.discard_reader (calls.cancel s.worker));
            })
            (sink.reset s.output.output) (λ f o. record { bounded = g.bounded; disc = h.0 })
            (λ o. (
              record {
                inside = omega arith;
                bounded = g.bounded;
                player = h.0.keeps;
                streamed = λ e. absurd (cc);
              },
              inr h.1,
            )))

  prebuffered-Settles :
      (now later : ℕ) (status : WorkerStatus) (s : System W (Sent O))
      → Going log s
      → SettlesOrBreaks (prebuffered calls (watched_output sink) now later status s)
  unfolding prebuffered
  prebuffered-Settles now later status s g =
      if-both (λ (m : Action (System W (Sent O)) (Unit {0})). SettlesOrBreaks (m s)) s.engine.primed
        (λ _. feed-Settles later s g)
        (λ _.
          if-both (λ (m : Action (System W (Sent O)) (Unit {0})). SettlesOrBreaks (m s))
            (ltb status.queued s.engine.prebuffer_blocks && not status.done)
            (λ _. Going-Settles log s g)
            (λ _.
              feed-Settles later
                (record s {
                  engine = record s.engine {
                    primed = true;
                    last_prebuffer_wait_ms = some ((now - s.engine.prebuffer_started_at) / 1000000);
                  };
                })
                (record {
                  inside = g.inside;
                  bounded = g.bounded;
                  disc = g.disc;
                  running = g.running;
                  streamed = record {
                    current = g.streamed.current;
                    located = g.streamed.located;
                    joined = g.streamed.joined;
                    counted = g.streamed.counted;
                  };
                })))

  check_error-Going :
      (e : Option Exception) (s : System W (Sent O))
      → Going log s
      → GoesOrBreaks (check_error calls (watched_output sink) e s)
  check_error-Going none s g = g
  check_error-Going (some e) s g = record { bounded = g.bounded; disc = g.disc }

  pub body-Settles :
      (now later : ℕ) (s : System W (Sent O))
      → Going log s
      → SettlesOrBreaks (body calls (watched_output sink) now later s)
  unfolding body
  body-Settles now later s g =
      let status = (calls.status false false s.worker).0 in
      let t = record s { worker = (calls.status false false s.worker).1 } in
      then_do-Post (Settles log) Broken (λ a u. Going log u) _
        (check_error calls (watched_output sink) status.error t)
        (check_error-Going status.error t
          (same-Going s t g refl refl (log.asked false false s.worker) refl))
        (λ _ u h.
          if-both (λ (m : Action (System W (Sent O)) (Unit {0})). SettlesOrBreaks (m u))
            (leb (pos_part u.engine.read_stall_timeout * 1000) status.read_inflight_us)
            (λ _. stall-Settles status.read_inflight_us u h)
            (λ _.
              if-both (λ (m : Action (System W (Sent O)) (Unit {0})). SettlesOrBreaks (m u))
                u.engine.draining (λ _. drain-Settles later u h)
                (λ _. prebuffered-Settles now later status u h)))
