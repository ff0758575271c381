-- ===== src/Engine/Starting.antt =====
-- synchronize, and the start of a stream.
use picdplayer.Engine.Effect.{Failure, Reply, Post, then_do, ended_of, gets, ◌>>=◌, ◌>>◌}
use picdplayer.Engine.{
  Engine, System, WorkerCalls, AudioOutput, empty_block, change, no_stream, cleared, start_at,
  start_playing, follow_state, synchronize,
}
use picdplayer.Engine.Invariant.{Inv, Settles, reset-Post, lifted-Post}
use picdplayer.Engine.Log.{WorkerLog, IsStarted, Sent, watched_output}
use picdplayer.Outcome.{runtime_error}
use picdplayer.Player.{PlayerController, PlaybackState}
use picdplayer.Player
use picdplayer.Player.Loaded.{Loaded, Loaded-position}
use picdplayer.Player.Invariant.{empty, loaded}
use picdplayer.Prelude.{
  ℕ, ◌≤◌, ◌≡◌, refl, true, false, [], ℤ, leb_ℤ, length, arith, Bool-cases, inl, inr,
}

abbrev pub streams : ℕ → Engine → Engine
streams generation e = record e { generation = generation; active = true }

module _ {W O : Type 0} where
  -- Nothing is popped or sent.
  pub record Ready (s : System W (Sent O)) : Type 0 where
    pub inactive : s.engine.active ≡ false
    pub bounded : s.engine.underrun_recoveries ≤ 3
    pub player : Player.Invariant.Inv s.controller
    pub no_block : s.engine.block ≡ empty_block
    pub at_zero : s.engine.offset ≡ 0
    pub none_submitted : s.engine.submitted ≡ 0
    pub none_sent : s.output.samples ≡ []

module _ {W O : Type 0} {calls : WorkerCalls W} (log : WorkerLog calls) where
  -- What is left by a throw behind the end of a stream.
  abbrev pub Ceased : PlayerController → Failure → System W (Sent O) → Type 0
  Ceased c f s = Inv log s × (s.engine.active ≡ false) × (s.controller ≡ c)

  pub Ready-Ceased : (f : Failure) (s : System W (Sent O)) → Ready s → Ceased s.controller f s
  Ready-Ceased f s r = (
    record {
      inside = rw (r.at_zero, r.no_block) (omega arith);
      bounded = r.bounded;
      player = r.player;
      streamed = λ e. absurd (cc);
    },
    r.inactive,
    refl,
  )

  pub started-Settles :
      (s : System W (Sent O)) (r : Reply ℕ × W)
      → Ready s
      → Loaded s.controller
      → IsStarted log.generation log.samples log.begin s.engine.start r
      → Post (Settles log) (Ceased s.controller) (
          then_do
            (λ generation. change (streams generation))
            (ended_of r.0, record s { worker = r.1 }))
  started-Settles s (Reply.threw f, w) ready l e =
      Ready-Ceased f (record s { worker = w })
        (record {
          inactive = ready.inactive;
          bounded = ready.bounded;
          player = ready.player;
          no_block = ready.no_block;
          at_zero = ready.at_zero;
          none_submitted = ready.none_submitted;
          none_sent = ready.none_sent;
        })
  started-Settles s (Reply.gave generation, w) ready l (same, fresh, from) = (
    record {
      inside = rw (ready.at_zero, ready.no_block) (omega arith);
      bounded = ready.bounded;
      player = ready.player;
      streamed = λ _. (
        l,
        record {
          current = same;
          located = from;
          joined = rw (ready.none_sent, ready.at_zero, ready.no_block, fresh) refl;
          counted = rw (ready.none_sent, ready.none_submitted) refl;
        },
      );
    },
    inl refl,
  )

playing-Loaded :
    (c : PlayerController)
    → Player.Invariant.Inv c
    → c.state.playback ≡ PlaybackState.playing
    → Loaded c
playing-Loaded c (empty e i) p = absurd (cc)
playing-Loaded c (loaded toc h a) p = record { toc = toc; has = h.has; keeps = loaded toc h a }

module _ {W O : Type 0} (calls : WorkerCalls W) (log : WorkerLog calls) (sink : AudioOutput O) where
  start_at-Settles :
      (position : ℤ) (s : System W (Sent O))
      → Ready s
      → Loaded s.controller
      → Post
          (Settles log)
          (Ceased log s.controller)
          (start_at calls (watched_output sink) position s)
  unfolding start_at
  start_at-Settles position s ready l = elim (Bool-cases (leb_ℤ s.engine.end position)) [
    | inl bad ↦ rw bad (Ready-Ceased log (Failure.error runtime_error) s ready)
    | inr good ↦ rw good (
        started-Settles log (record s { engine = record s.engine { start = position } })
          (calls.start position s.engine.end s.worker)
          (record {
            inactive = ready.inactive;
            bounded = ready.bounded;
            player = ready.player;
            no_block = ready.no_block;
            at_zero = ready.at_zero;
            none_submitted = ready.none_submitted;
            none_sent = ready.none_sent;
          })
          l (log.started position s.engine.end s.worker))
  ]

  follow_state-Settles :
      (p : PlaybackState) (s : System W (Sent O))
      → s.controller.state.playback ≡ p
      → Ready s
      → Post (Settles log) (Ceased log s.controller) (follow_state calls (watched_output sink) p s)
  unfolding start_playing
  follow_state-Settles PlaybackState.playing s e ready =
      let l = playing-Loaded s.controller ready.player e in
      let (p, at_p) = Loaded-position s.controller l in
      lifted-Post (Settles log) (Ceased log s.controller) (start_at calls (watched_output sink)) s
        s.controller.state.position_lba p at_p (start_at-Settles p s ready l)
  follow_state-Settles PlaybackState.stopped s e ready = (
    (Ready-Ceased log Failure.underrun
        (record s {
          engine = record s.engine { quiescent = true };
          worker = (calls.discard_reader s.worker);
        })
        (record {
          inactive = ready.inactive;
          bounded = ready.bounded;
          player = ready.player;
          no_block = ready.no_block;
          at_zero = ready.at_zero;
          none_submitted = ready.none_submitted;
          none_sent = ready.none_sent;
        })).0,
    inr (λ f. cc),
  )
  follow_state-Settles PlaybackState.paused s e ready =
      ((Ready-Ceased log Failure.underrun s ready).0, inr (λ f. cc))
  follow_state-Settles PlaybackState.no_disc s e ready =
      ((Ready-Ceased log Failure.underrun s ready).0, inr (λ f. cc))

  pub synchronize-Settles :
      (later : ℕ) (s : System W (Sent O))
      → s.engine.offset ≤ length s.engine.block.samples
      → Player.Invariant.Inv s.controller
      → Post
          (Settles log)
          (Ceased log s.controller)
          (synchronize calls (watched_output sink) later s)
  unfolding synchronize
  synchronize-Settles later s inside player =
      let w = (calls.cancel s.worker) in
      reset-Post (Settles log) (Ceased log s.controller)
        (λ _. do
          change (cleared later)
          playback ← gets (λ t. t.controller.state.playback)
          follow_state calls (watched_output sink) playback)
        (record s { engine = no_stream s.engine; worker = w }) (sink.reset s.output.output)
        (λ f o. (
          record {
            inside = inside;
            bounded = omega arith;
            player = player;
            streamed = λ e. absurd (cc);
          },
          refl,
          refl,
        ))
        (λ o.
          follow_state-Settles s.controller.state.playback
            (record s {
              engine = cleared later (no_stream s.engine);
              worker = w;
              output = record { output = o; samples = [] };
            })
            refl
            (record {
              inactive = refl;
              bounded = omega arith;
              player = player;
              no_block = refl;
              at_zero = refl;
              none_submitted = refl;
              none_sent = refl;
            }))
