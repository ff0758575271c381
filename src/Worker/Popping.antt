-- ===== src/Worker/Popping.antt =====
-- While a stream goes on, the popped blocks are consecutive.
use picdplayer.Outcome.{Outcome}
use picdplayer.Prelude.{ℕ, ◌≡◌, refl, ◌∙◌, false, List, [], ◌∷◌, ℤ, pos, ◌+ℤ◌, if-both, arith}
use mathlib.Core.Path.{subst}
use picdplayer.Worker.{
  PcmWorker, PcmBlock, PlayerEvent, reconfigure, pop, pop_from, pop_event, pop_event_from,
  set_disc_generation, bad_block,
}
use picdplayer.Worker.Blocks.{Chain, Chain-append}
use picdplayer.Worker.Order.{core, stream_at, Progress-queue, Progress-idle}
use picdplayer.Worker.Run.{Event, step, run, popped, popped_by, to_list, with_worker}
use picdplayer.Worker.Thread.{System, turn}
use picdplayer.Worker.Turns.{IsFaithful, Holds, SameRange, turn_at-Holds, turn_at-SameRange}

module _ (Given : ℤ → List ℤ → Type 0) where
  -- A call of the owner that is made while a stream is on, or a turn: reconfigure is for a worker
  -- that is not active, and the destructor is the last call.
  abbrev pub Continues : System → Event → Type 0
  Continues s (Event.turns d) = IsFaithful Given d
  Continues s Event.pops = Unit {0}
  Continues s Event.pops_event = Unit {0}
  Continues s (Event.sets_disc generation) = Unit {0}
  Continues s (Event.reconfigures strategy mode frames) = s.worker.active ≡ false
  Continues s (Event.starts begin end) = ⊥
  Continues s Event.cancels = ⊥
  Continues s Event.discards = ⊥
  Continues s Event.closes = ⊥

  abbrev pub Allowed : System → Event → Type 0
  Allowed s (Event.turns d) = IsFaithful Given d
  Allowed s Event.pops = Unit {0}
  Allowed s Event.pops_event = Unit {0}
  Allowed s (Event.sets_disc generation) = Unit {0}
  Allowed s (Event.reconfigures strategy mode frames) = s.worker.active ≡ false
  Allowed s (Event.starts begin end) = Unit {0}
  Allowed s Event.cancels = Unit {0}
  Allowed s Event.discards = Unit {0}
  Allowed s Event.closes = ⊥

  abbrev pub Along : (System → Event → Type 0) → System → List Event → Type 0
  Along Rule s [] = Unit {0}
  Along Rule s (e ∷ es) = Rule s e × Along Rule (step s e) es

  -- The stream goes on: the popped blocks lead from one LBA to the next.
  unfoldable pub Goes : System → ℤ → System → List PcmBlock → Type 0
  Goes s next s' out =
      (next' : ℤ) × Holds Given s' next'
      × Chain Given s.worker.generation next next' out
      × SameRange s.worker s'.worker

  module _ (s : System) (next : ℤ) (v : Holds Given s next) where
    pub popped-Holds :
        (block : PcmBlock) (rest : List PcmBlock) (frames : ℕ)
        → Chain Given s.worker.generation (next +ℤ pos frames) v.to rest
        → Holds Given (with_worker s (pop_from s.worker (block ∷ rest)).1) (next +ℤ pos frames)
    popped-Holds block rest frames c = record {
      to = v.to;
      chain = c;
      open_worker = v.open_worker;
      ended = v.ended;
      undone = v.undone;
      sized = v.sized;
      range = v.range;
      ahead = v.ahead;
      progress = Progress-queue (core s.worker) rest v.to (stream_at s.point) v.progress;
      known = v.known;
    }

    pop_from-Goes :
        (q : List PcmBlock)
        → Chain Given s.worker.generation next v.to q
        → Goes s next (with_worker s (pop_from s.worker q).1) (to_list (pop_from s.worker q).0)
    unfolding Goes
    pop_from-Goes [] c = (next, v, refl, (refl, refl))
    pop_from-Goes (block ∷ rest) (frames, good, c) =
        (next +ℤ pos frames, popped-Holds block rest frames c, (frames, good, refl), (refl, refl))

    pop_event_from-Goes :
        (q : List PlayerEvent) → Goes s next (with_worker s (pop_event_from s.worker q).1) []
    unfolding Goes
    pop_event_from-Goes [] = (next, v, refl, (refl, refl))
    pop_event_from-Goes (event ∷ rest) = (next, v, refl, (refl, refl))

    reconfigure-Goes :
        (strategy mode : List ℕ) (frames : ℕ)
        → s.worker.active ≡ false
        → Goes s next (with_worker s (reconfigure s.worker strategy mode frames).1) []
    unfolding Goes reconfigure
    reconfigure-Goes strategy mode frames idle =
        if-both (λ (x : Outcome (Unit {0}) × PcmWorker). Goes s next (with_worker s x.1) [])
          (bad_block s.worker.buffer_config frames) (λ _. (next, v, refl, (refl, refl)))
          (λ good. (
            next,
            record {
              to = v.to;
              chain = v.chain;
              open_worker = v.open_worker;
              ended = v.ended;
              undone = v.undone;
              sized = ground arith;
              range = v.range;
              ahead = v.ahead;
              progress =
                  Progress-idle (core s.worker) frames v.to (stream_at s.point) idle v.progress;
              known = v.known;
            },
            refl,
            (refl, refl),
          ))

    pub step-Goes : (e : Event) → Continues s e → Goes s next (step s e) (popped_by s.worker e)
    unfolding Goes step turn pop pop_event set_disc_generation
    step-Goes (Event.turns d) good =
        (next, turn_at-Holds Given s next s.point d good v, refl, turn_at-SameRange s s.point d)
    step-Goes Event.pops _ = pop_from-Goes s.worker.queue v.chain
    step-Goes Event.pops_event _ = pop_event_from-Goes s.worker.events
    step-Goes (Event.sets_disc generation) _ =
        if-both (λ (x : Outcome (Unit {0}) × PcmWorker). Goes s next (with_worker s x.1) [])
          s.worker.active (λ _. (next, v, refl, (refl, refl))) (λ _. (next, v, refl, (refl, refl)))
    step-Goes (Event.reconfigures strategy mode frames) idle =
        reconfigure-Goes strategy mode frames idle
    step-Goes (Event.starts begin end) no_event = absurd no_event
    step-Goes Event.cancels no_event = absurd no_event
    step-Goes Event.discards no_event = absurd no_event
    step-Goes Event.closes no_event = absurd no_event

  pub run-Goes :
      (s : System) (next : ℤ) (es : List Event)
      → Holds Given s next
      → Along Continues s es
      → Goes s next (run s es) (popped s es)
  unfolding Goes run popped
  run-Goes s next [] v along = (next, v, refl, (refl, refl))
  run-Goes s next (e ∷ es) v (rule, along) =
      let (via, w, front, (same, kept)) = step-Goes s next v e rule in
      let (to, x, back, (again, still)) = run-Goes (step s e) via es w along in
      (
        to,
        x,
        Chain-append Given s.worker.generation next via to (popped_by s.worker e)
            (popped (step s e) es) front
            (subst (λ g. Chain Given g via to (popped (step s e) es)) same back),
        (again ∙ same, still ∙ kept),
      )
