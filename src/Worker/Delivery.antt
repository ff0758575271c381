-- ===== src/Worker/Delivery.antt =====
-- The blocks that the owner pops: those of the range that it started, once each and in order.
use picdplayer.Outcome.{Outcome, returned}
use picdplayer.Prelude.{
  ℕ, ◌+◌, ◌%◌, ◌^◌, ◌≤◌, ◌<◌, ◌≡◌, refl, ◌∙◌, Bool, true, false, ◌||◌, List, [], ◌∷◌, ℤ, pos, ◌≤ℤ◌,
  ◌<ℤ◌, ltb_ℤ, leb_ℤ, if-both, length, arith,
}
use mathlib.Core.Path.{subst}
use picdplayer.Worker.{
  PcmWorker, PcmBlock, PcmBufferConfig, new_worker, start, cancel, discard_reader,
}
use picdplayer.Evidence.{ReadEvidence}
use picdplayer.Worker.Blocks.{Chain, Chain-le}
use picdplayer.Worker.Order.{Core, core, stream_at, Inv, Progress-later, le_trans_ℤ}
use picdplayer.Worker.Run.{Event, step, run, popped, popped_by, started, with_worker}
use picdplayer.Worker.Thread.{System}
use picdplayer.Worker.Turns.{Holds}
use picdplayer.Worker.Fresh.{IsNew, new_worker-IsNew, new-Holds}
use picdplayer.Worker.Popping.{Continues, Allowed, Along, Goes, step-Goes, run-Goes}

module _ (Given : ℤ → List ℤ → Type 0) where
  -- A call that begins a new generation.
  module _ (s : System) (next : ℤ) (v : Holds Given s next)
      (few : s.worker.generation + 1 < 2 ^ 64) where
    pub restarted :
        (begin end from : ℤ) (active discard : Bool)
        → from ≤ℤ end
        → (active ≡ true → begin <ℤ end)
        → (active ≡ true → from ≡ begin)
        → Inv Given
            (record (core s.worker) {
              queue = [];
              active = active;
              discard = discard;
              done = false;
              generation = (s.worker.generation + 1) % 2 ^ 64;
              begin = begin;
              end = end;
            })
            s.point
            from
    restarted begin end from active discard ahead range behind =
        let c : Core = record (core s.worker) {
          queue = [];
          active = active;
          discard = discard;
          done = false;
          generation = (s.worker.generation + 1) % 2 ^ 64;
          begin = begin;
          end = end;
        } in
        record {
          to = from;
          chain = refl;
          open_worker = v.open_worker;
          ended = λ h. cc;
          undone = λ _. refl;
          sized = v.sized;
          range = range;
          ahead = ahead;
          progress =
              Progress-later (core s.worker) c v.to from (stream_at s.point) (omega (arith, few))
                behind v.progress;
          known = v.known;
        }

    pub start-Holds :
        (begin end : ℤ)
        → pos 0 ≤ℤ begin
        → begin <ℤ end
        → Holds Given (with_worker s (start s.worker begin end).1) begin
    unfolding start
    start-Holds begin end low range =
        if-both (λ (x : Outcome ℕ × PcmWorker). Holds Given (with_worker s x.1) begin)
          (ltb_ℤ begin (pos 0) || leb_ℤ end begin) (λ bad. absurd (ground (arith, low, range, bad)))
          (λ _.
            restarted begin end begin true s.worker.discard (omega (arith, range)) (λ _. range)
              (λ _. refl))

    start-Reaches :
        (begin end : ℤ)
        → (from : ℤ) × Holds Given (with_worker s (start s.worker begin end).1) from
          × ((start s.worker begin end).1.generation ≤ s.worker.generation + 1)
    unfolding start
    start-Reaches begin end =
        if-both
          (λ (x : Outcome ℕ × PcmWorker).
            (from : ℤ) × Holds Given (with_worker s x.1) from
            × (x.1.generation ≤ s.worker.generation + 1))
          (ltb_ℤ begin (pos 0) || leb_ℤ end begin) (λ _. (next, v, omega arith))
          (λ good. (
            begin,
            restarted begin end begin true s.worker.discard (ground (arith, good))
                (λ _. ground (arith, good)) (λ _. refl),
            omega arith,
          ))

  module _ (s : System) (next : ℤ) (v : Holds Given s next) where
    Reaches : System → Type 0
    Reaches s' = (from : ℤ) × Holds Given s' from × (s'.worker.generation ≤ s.worker.generation + 1)

    Goes-Reaches : (s' : System) (out : List PcmBlock) → Goes Given s next s' out → Reaches s'
    unfolding Goes Reaches
    Goes-Reaches s' out (from, w, _, (same, _)) = (from, w, omega (arith, same))

    step-Reaches :
        (e : Event) → s.worker.generation + 1 < 2 ^ 64 → Allowed Given s e → Reaches (step s e)
    unfolding Reaches step cancel discard_reader
    step-Reaches (Event.turns d) few good =
        Goes-Reaches (step s (Event.turns d)) [] (step-Goes Given s next v (Event.turns d) good)
    step-Reaches Event.pops few _ =
        Goes-Reaches (step s Event.pops) (popped_by s.worker Event.pops)
          (step-Goes Given s next v Event.pops tt)
    step-Reaches Event.pops_event few _ =
        Goes-Reaches (step s Event.pops_event) [] (step-Goes Given s next v Event.pops_event tt)
    step-Reaches (Event.sets_disc generation) few _ =
        Goes-Reaches (step s (Event.sets_disc generation)) []
          (step-Goes Given s next v (Event.sets_disc generation) tt)
    step-Reaches (Event.reconfigures strategy mode frames) few idle =
        Goes-Reaches (step s (Event.reconfigures strategy mode frames)) []
          (step-Goes Given s next v (Event.reconfigures strategy mode frames) idle)
    step-Reaches (Event.starts begin end) few _ = start-Reaches s next v few begin end
    step-Reaches Event.cancels few _ = (
      s.worker.end,
      restarted s next v few s.worker.begin s.worker.end s.worker.end false s.worker.discard
          (omega arith) (λ h. cc) (λ h. cc),
      omega arith,
    )
    step-Reaches Event.discards few _ = (
      s.worker.end,
      restarted s next v few s.worker.begin s.worker.end s.worker.end false true (omega arith)
          (λ h. cc) (λ h. cc),
      omega arith,
    )
    step-Reaches Event.closes few no_event = absurd no_event

  run-Reaches :
      (s : System) (next : ℤ) (es : List Event)
      → Holds Given s next
      → Along Given (Allowed Given) s es
      → length es + s.worker.generation < 2 ^ 64
      → (from : ℤ) × Holds Given (run s es) from
        × ((run s es).worker.generation ≤ s.worker.generation + length es)
  unfolding run Reaches
  run-Reaches s next [] v along few = (next, v, omega arith)
  run-Reaches s next (e ∷ es) v (rule, along) few =
      let (via, w, small) = step-Reaches s next v e (omega (arith, few)) rule in
      let (from, x, less) = run-Reaches (step s e) via es w along (omega (arith, few, small)) in
      (from, x, omega (arith, small, less))

  -- A worker that was used in any way, and is then asked for a range.
  module _ (w : PcmWorker) (before after : List Event) (begin end : ℤ) where
    abbrev pub used : System
    used = run (started w) before

    abbrev pub asked : System
    asked = step used (Event.starts begin end)

    abbrev pub Delivered : Type 0
    Delivered =
        (next : ℤ) × Chain Given asked.worker.generation begin next (popped asked after)
        × (next ≤ℤ end)
        × ((run asked after).worker.done ≡ true → (run asked after).worker.queue ≡ [] → next ≡ end)

    asked-end : pos 0 ≤ℤ begin → begin <ℤ end → asked.worker.end ≡ end
    unfolding step start
    asked-end low range =
        if-both (λ (x : Outcome ℕ × PcmWorker). x.1.end ≡ end)
          (ltb_ℤ begin (pos 0) || leb_ℤ end begin) (λ bad. absurd (ground (arith, low, range, bad)))
          (λ _. refl)

    -- A new worker is used in any way with fewer than 2 ^ 64 calls and turns, and is then asked for a
    -- range from 0 on that is not empty; after that the owner pops blocks and makes no call that begins
    -- or ends a stream, and reconfigures only an inactive worker. Then, whatever the interleaving with
    -- the thread and however the drive answers, if the accepted reads fill the buffer as the reader
    -- promises: the popped blocks are those of this stream, the first begins where the range begins, each
    -- other one where the one before ends, none ends behind the range, and their samples are as
    -- promised for their LBA; and once the stream is done and the queue empty, they reach its end.
    pub run-Delivered :
        (slots : ℕ → ReadEvidence) (c : PcmBufferConfig) (strategy mode : List ℕ) (frames : ℕ)
        → new_worker slots c strategy mode frames ≡ returned w
        → Along Given (Allowed Given) (started w) before
        → length before + 1 < 2 ^ 64
        → pos 0 ≤ℤ begin
        → begin <ℤ end
        → Along Given (Continues Given) asked after
        → Delivered
    unfolding step Goes Reaches
    run-Delivered slots c strategy mode frames made allowed few low range along =
        let new : IsNew w = new_worker-IsNew slots c strategy mode frames w made in
        let (from, u, small) =
          run-Reaches (started w) (pos 0) before (new-Holds Given w new) allowed
            (omega (arith, few, new.4)) in
        let v : Holds Given asked begin =
          start-Holds used from u (omega (arith, few, small, new.4)) begin end low range in
        let (next, x, out, (_, kept)) = run-Goes Given asked begin after v along in
        let last : (run asked after).worker.end ≡ end = kept ∙ asked-end low range in
        (
          next,
          out,
          subst (λ e. next ≤ℤ e) last
              (le_trans_ℤ next x.to (run asked after).worker.end
                (Chain-le Given (run asked after).worker.generation next x.to
                  (run asked after).worker.queue x.chain)
                x.ahead),
          λ done empty.
              subst (Chain Given (run asked after).worker.generation next x.to) empty x.chain
              ∙ x.ended done
              ∙ last,
        )
