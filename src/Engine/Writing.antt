-- ===== src/Engine/Writing.antt =====
-- The loop that writes PCM: nothing of a stream is skipped, repeated or put in between.
use picdplayer.Engine.Effect.{
  Action, Failure, Reply, Ended, Post, then_do, ended_of, pure, throw_if,
}
use picdplayer.Engine.{System, WorkerCalls, AudioOutput, empty_block, change}
use picdplayer.Engine.Invariant.{then_do-Post, Going, Broken}
use picdplayer.Engine.Log.{WorkerLog, IsPopped, Sent, written, watched_output}
use picdplayer.Engine.Tick.{Filling, put_block, fill, submit, send, after_fill, write_loop}
use picdplayer.Outcome.{runtime_error}
use picdplayer.Prelude.{
  ℕ, zero, suc, ◌+◌, ◌-◌, ◌*◌, ◌/◌, ◌≤◌, ◌≡◌, refl, sym, ap, ◌∙◌, true, false, Option, none, some,
  List, [], ◌++◌, ℤ, if◌then◌else◌, if-both, ltb, leb, ◌==◌, length, length-append, length-take,
  length-drop, take, drop, arith, Bool-cases, inl, inr,
}
use picdplayer.Prelude.Slice.{append-drop, append_nil, append_assoc, drop-drop, take-drop}
use picdplayer.Worker.{PcmBlock}

module _ {W O : Type 0} (calls : WorkerCalls W) (log : WorkerLog calls) (sink : AudioOutput O) where
  -- All that was popped is sent when the block is used up.
  used_up :
      (s : System W (Sent O))
      → Going log s
      → (s.engine.offset == length s.engine.block.samples) ≡ true
      → s.output.samples ≡ log.samples s.worker
  used_up s g e =
      let all : length s.engine.block.samples ≡ s.engine.offset = ground arith in
      sym (append-drop s.output.samples s.engine.block.samples)
      ∙ ap (λ n. s.output.samples ++ drop n s.engine.block.samples) all
      ∙ g.streamed.joined

  abbrev emptied_system : System W (Sent O) → System W (Sent O)
  emptied_system s = record s { engine = record s.engine { block = empty_block; offset = 0 } }

  abbrev GoesOn : {A : Type 0} → Ended A × System W (Sent O) → Type 0
  GoesOn r = Post (λ a t. Going log t) Broken r

  -- The stream of a worker that gave a block or none.
  popped-Streamed :
      (s : System W (Sent O)) (w : W) (xs : List ℤ)
      → Going log s
      → s.output.samples ≡ log.samples s.worker
      → (log.generation w ≡ log.generation s.worker)
        × (log.samples w ≡ log.samples s.worker ++ xs)
        × (log.begin w ≡ log.begin s.worker)
      → (block : PcmBlock) → block.samples ≡ xs
      → Going log (record s { engine = record s.engine { block = block; offset = 0 }; worker = w })
  popped-Streamed s w xs g all (same, more, from) block e = record {
    inside = omega arith;
    bounded = g.bounded;
    running = g.running;
    disc = g.disc;
    streamed = record {
      current = same ∙ g.streamed.current;
      located = from ∙ g.streamed.located;
      joined = ap (λ ys. s.output.samples ++ ys) e ∙ ap (λ ys. ys ++ xs) all ∙ sym more;
      counted = g.streamed.counted;
    };
  }

  put_block-Going :
      (s : System W (Sent O)) (r : Option PcmBlock × W)
      → Going log s
      → s.output.samples ≡ log.samples s.worker
      → IsPopped log.generation log.samples log.begin s.worker r
      → GoesOn
          (put_block calls (watched_output sink) r.0 (record (emptied_system s) { worker = r.1 }))
  put_block-Going s (none, w) g all (same, kept, from) =
      popped-Streamed s w [] g all (same, kept ∙ sym (append_nil (log.samples s.worker)), from)
        empty_block refl
  put_block-Going s (some block, w) g all (same, more, from) =
      elim (Bool-cases (block.generation == s.engine.generation)) [
        | inl present ↦
            let here : (block.generation == log.generation s.worker) ≡ true =
              ground (arith, present, g.streamed.current) in
            rw present
              (popped-Streamed s w block.samples g all (same, more ∙ rw here refl, from) block refl)
        | inr other ↦
            let here : (block.generation == log.generation s.worker) ≡ false =
              ground (arith, other, g.streamed.current) in
            rw other
              (popped-Streamed s w [] g all (same, more ∙ rw here refl, from) empty_block refl)
      ]

  fill-Going : (s : System W (Sent O)) → Going log s → GoesOn (fill calls (watched_output sink) s)
  unfolding fill
  fill-Going s g =
      if-both (λ (m : Action (System W (Sent O)) Filling). GoesOn (m s))
        (s.engine.offset == length s.engine.block.samples)
        (λ e. put_block-Going s (calls.pop s.worker) g (used_up s g e) (log.popped s.worker))
        (λ _. g)

  -- A write of no more than what is left.
  submit-Going :
      (s : System W (Sent O)) (n : ℕ) (o : O)
      → Going log s
      → ltb (length (drop s.engine.offset s.engine.block.samples) / 2) n ≡ false
      → Going log (record s {
        engine = submit n s.engine;
        output = record {
          output = o;
          samples = s.output.samples ++ take (n * 2) (drop s.engine.offset s.engine.block.samples);
        };
      })
  submit-Going s n o g fits =
      let rest : List ℤ = drop s.engine.offset s.engine.block.samples in
      let size : length rest ≡ length s.engine.block.samples - s.engine.offset =
        length-drop s.engine.offset s.engine.block.samples in
      let few : n * 2 ≤ length rest = ground (arith, fits) in
      record {
        inside = omega (arith, few, size, g.inside);
        bounded = g.bounded;
        running = g.running;
        disc = g.disc;
        streamed = record {
          current = g.streamed.current;
          located = g.streamed.located;
          joined =
              append_assoc s.output.samples (take (n * 2) rest)
                (drop (s.engine.offset + n * 2) s.engine.block.samples)
              ∙ ap (λ t. s.output.samples ++ (take (n * 2) rest ++ t))
                  (sym (
                    drop-drop s.engine.offset (n * 2) (s.engine.offset + n * 2)
                      s.engine.block.samples refl))
              ∙ ap (λ t. s.output.samples ++ t) (take-drop (n * 2) rest)
              ∙ g.streamed.joined;
          counted = omega (
            arith,
            length-append s.output.samples (take (n * 2) rest),
            length-take (n * 2) rest,
            few,
            g.streamed.counted,
          );
        };
      }

  module _ (next : Action (System W (Sent O)) (Unit {0}))
      (goes : (s : System W (Sent O)) → Going log s → GoesOn (next s)) where
    sent-Going :
        (s : System W (Sent O)) (r : Reply ℕ × O)
        → Going log s
        → GoesOn (
            then_do
              (λ accepted t.
                then_do
                  (λ _ u.
                    then_do
                      (λ _. if accepted == 0 then pure tt else next)
                      (change (submit accepted) u))
                  (throw_if
                    (ltb (length (drop s.engine.offset s.engine.block.samples) / 2) accepted)
                    (Failure.error runtime_error)
                    t))
              (
                ended_of (written s.output (drop s.engine.offset s.engine.block.samples) r).0,
                record s {
                  output = (written s.output (drop s.engine.offset s.engine.block.samples) r).1;
                },
              ))
    sent-Going s (Reply.threw f, o) g = record { bounded = g.bounded; disc = g.disc }
    sent-Going s (Reply.gave n, o) g =
        elim (Bool-cases (ltb (length (drop s.engine.offset s.engine.block.samples) / 2) n)) [
          | inl too_many ↦ rw too_many (record { bounded = g.bounded; disc = g.disc })
          | inr fits ↦ rw fits (
              let went = submit-Going s n o g fits in
              if-both
                (λ (m : Action (System W (Sent O)) (Unit {0})). GoesOn (
                  m (record s {
                    engine = submit n s.engine;
                    output = record {
                      output = o;
                      samples =
                          s.output.samples
                          ++ take (n * 2) (drop s.engine.offset s.engine.block.samples);
                    };
                  })))
                (n == 0) (λ _. went) (λ _. goes _ went))
        ]

    send-Going :
        (s : System W (Sent O)) → Going log s → GoesOn (send calls (watched_output sink) next s)
    unfolding send
    send-Going s g =
        let there : leb s.engine.offset (length s.engine.block.samples) ≡ true =
          ground (arith, g.inside) in
        rw there (
          sent-Going s (sink.write (drop s.engine.offset s.engine.block.samples) s.output.output) g)

    after_fill-Going :
        (filling : Filling) (s : System W (Sent O))
        → Going log s
        → GoesOn (after_fill calls (watched_output sink) next filling s)
    after_fill-Going Filling.break s g = g
    after_fill-Going Filling.continue s g = goes s g
    after_fill-Going Filling.ready s g = send-Going s g

  pub write_loop-Going :
      (n : ℕ) (s : System W (Sent O))
      → Going log s
      → GoesOn (write_loop calls (watched_output sink) n s)
  unfolding write_loop
  write_loop-Going zero s g = g
  write_loop-Going (suc n) s g =
      then_do-Post (λ a t. Going log t) Broken (λ a t. Going log t)
        (after_fill calls (watched_output sink) (write_loop calls (watched_output sink) n))
        (fill calls (watched_output sink) s) (fill-Going s g)
        (λ filling t h.
          after_fill-Going (write_loop calls (watched_output sink) n) (write_loop-Going n) filling t
            h)
