-- ===== src/Engine/Run.antt =====
-- Any sequence of ticks, commands and changes of the engine, as the session makes them: a command of
-- the player is followed by synchronize, and an exception is caught.
use mathlib.Core.Path.{subst}
use picdplayer.Engine.Effect.{Action, Failure, Ended, Post, then_do, pure, throw_if, ◌>>=◌, ◌>>◌}
use picdplayer.Engine.{
  Engine, System, WorkerCalls, AudioOutput, on_controller, put_controller, synchronize,
  set_disc_end, set_read_stall_timeout, reset_prebuffer_target, take_reader_failure,
  new_playback_engine,
}
use picdplayer.Engine.Invariant.{Inv, Settles, Post-map}
use picdplayer.Engine.Failing.{tick-Inv}
use picdplayer.Engine.Log.{WorkerLog, Sent, watched_output}
use picdplayer.Engine.Starting.{Ceased, synchronize-Settles}
use picdplayer.Engine.Tick.{tick}
use picdplayer.Outcome.{Outcome, returned, thrown, undefined, invalid_argument, logic_error}
use picdplayer.Player.{PlayerController, new_player}
use picdplayer.Player.Invariant.{Keeps, empty}
use picdplayer.Player.Run.{Command, call, call-Keeps}
use picdplayer.Prelude.{
  ℕ, ◌≡◌, refl, Bool, true, false, ◌||◌, Option, none, some, List, [], ◌∷◌, ℤ, pos, ltb_ℤ, leb_ℤ,
  if-both, arith,
}

pub data Event : Type 0 where
  ticks : ℕ → ℕ → Event
  commands : Command → ℕ → Event
  sets_disc_end sets_timeout : ℤ → Event
  resets_prebuffer takes_failure : Event

module _ {W O : Type 0} (calls : WorkerCalls W) (sink : AudioOutput O) where
  abbrev pub step : Event → Action (System W O) (Unit {0})
  step (ticks now later) = tick calls sink now later
  step (commands m later) = on_controller (λ c. call c m) >> synchronize calls sink later
  step (sets_disc_end end) = set_disc_end calls sink end
  step (sets_timeout timeout) = set_read_stall_timeout calls sink timeout
  step resets_prebuffer = reset_prebuffer_target calls sink
  step takes_failure = take_reader_failure calls sink >>= λ _. pure tt

  abbrev pub after : Ended (Unit {0}) × System W O → Option (System W O)
  after (Ended.done a, s) = some s
  after (Ended.failed f, s) = some s
  after (Ended.undefined, s) = none

  -- `none` is undefined behaviour, and stays.
  abbrev pub run_from : Option (System W O) → List Event → Option (System W O)
  run_from none es = none
  run_from (some s) [] = some s
  run_from (some s) (e ∷ es) = run_from (after (step e s)) es

-- What a new engine and its objects are: nothing is sent.
abbrev pub begun : {W O : Type 0} → Engine → W → O → System W (Sent O)
begun e w o = record {
  engine = e;
  controller = new_player;
  worker = w;
  output = record { output = o; samples = [] };
}

module _ {W O : Type 0} (calls : WorkerCalls W) (log : WorkerLog calls) (sink : AudioOutput O) where
  abbrev Stays : {A : Type 0} → Ended A × System W (Sent O) → Type 0
  Stays r = Post (λ a t. Inv log t) (λ f t. Inv log t) r

  command-Inv :
      (later : ℕ) (s : System W (Sent O))
      → Inv log s
      → (o : Outcome (PlayerController × Bool)) → Keeps o
      → Stays (then_do (λ _. synchronize calls (watched_output sink) later) (put_controller s o))
  command-Inv later s i (returned r) k =
      Post-map (λ a t. Inv log t) (λ f t. Inv log t) (Settles log) (Ceased log r.0)
        (synchronize calls (watched_output sink) later (record s { controller = r.0 }))
        (λ a t h. h.0) (λ f t h. h.0)
        (synchronize-Settles calls log sink later (record s { controller = r.0 }) i.inside k)
  command-Inv later s i (thrown e) k = i
  command-Inv later s i undefined k = absurd k

  -- A change of members that the invariant does not speak of.
  member-Inv :
      (s : System W (Sent O)) (end timeout : ℤ) (prebuffer : ℕ) (failure : Bool)
      → Inv log s
      → Inv log (record s {
        engine = record s.engine {
          end = end;
          read_stall_timeout = timeout;
          prebuffer_blocks = prebuffer;
          reader_failure = failure;
        };
      })
  member-Inv s end timeout prebuffer failure i = record {
    inside = i.inside;
    bounded = i.bounded;
    player = i.player;
    streamed = λ on. (
      (i.streamed on).0,
      record {
        current = (i.streamed on).1.current;
        located = (i.streamed on).1.located;
        joined = (i.streamed on).1.joined;
        counted = (i.streamed on).1.counted;
      },
    );
  }

  throw_if-Stays :
      (b : Bool) (f : Failure) (k : Unit {0} → Action (System W (Sent O)) (Unit {0}))
      (s : System W (Sent O))
      → Inv log s
      → Stays (k tt s)
      → Stays (then_do k (throw_if b f s))
  throw_if-Stays true f k s i h = i
  throw_if-Stays false f k s i h = h

  step-Inv :
      (e : Event) (s : System W (Sent O)) → Inv log s → Stays (step calls (watched_output sink) e s)
  unfolding set_disc_end set_read_stall_timeout reset_prebuffer_target take_reader_failure
  step-Inv (ticks now later) s i = tick-Inv calls log sink now later s i
  step-Inv (commands m later) s i =
      command-Inv later s i (call s.controller m) (call-Keeps s.controller m i.player)
  step-Inv (sets_disc_end end) s i =
      throw_if-Stays (ltb_ℤ end (pos 0)) (Failure.error invalid_argument) _ s i (
        member-Inv s end s.engine.read_stall_timeout s.engine.prebuffer_blocks
          s.engine.reader_failure i)
  step-Inv (sets_timeout timeout) s i =
      throw_if-Stays (s.engine.active || leb_ℤ timeout (pos 0)) (Failure.error invalid_argument) _ s
        i (member-Inv s s.engine.end timeout s.engine.prebuffer_blocks s.engine.reader_failure i)
  step-Inv resets_prebuffer s i = throw_if-Stays s.engine.active (Failure.error logic_error) _ s i (
      member-Inv s s.engine.end s.engine.read_stall_timeout (calls.startup_buffer_blocks s.worker)
        s.engine.reader_failure i)
  step-Inv takes_failure s i =
      member-Inv s s.engine.end s.engine.read_stall_timeout s.engine.prebuffer_blocks false i

  after-Inv :
      (r : Ended (Unit {0}) × System W (Sent O))
      → Stays r
      → (t : System W (Sent O)) × (after calls (watched_output sink) r ≡ some t) × Inv log t
  after-Inv (Ended.done a, s) h = (s, refl, h)
  after-Inv (Ended.failed f, s) h = (s, refl, h)
  after-Inv (Ended.undefined, s) h = absurd h

  run_from-Inv :
      (s : System W (Sent O)) (es : List Event)
      → Inv log s
      → (t : System W (Sent O)) × (run_from calls (watched_output sink) (some s) es ≡ some t)
        × Inv log t
  run_from-Inv s [] i = (s, refl, i)
  run_from-Inv s (e ∷ es) i =
      let (u, p, j) = after-Inv (step calls (watched_output sink) e s) (step-Inv e s i) in
      let (t, q, k) = run_from-Inv u es j in (t, rw (p, run_from) q, k)

  abbrev Begins : W → O → Outcome Engine → Type 0
  Begins w o (returned e) = Inv log (begun e w o)
  Begins w o (thrown x) = Unit
  Begins w o undefined = Unit

  made-Begins :
      (end timeout : ℤ) (w : W) (o : O)
      → Begins w o (new_playback_engine calls (watched_output sink) end timeout w)
  unfolding new_playback_engine
  made-Begins end timeout w o =
      if-both (Begins w o) (ltb_ℤ end (pos 0) || leb_ℤ timeout (pos 0)) (λ _. tt)
        (λ _. record {
          inside = omega arith;
          bounded = omega arith;
          player = empty refl refl;
          streamed = λ on. absurd (cc);
        })

  -- Over any worker with its log, and any output, a new engine with a new player, after any sequence of ticks,
  -- commands with their synchronize and changes of the engine, with exceptions caught: there is no
  -- undefined behaviour, the player keeps its invariant, at most three underruns are recovered since
  -- the last synchronize, and while a stream is active, what the output accepted since its reset and
  -- then the rest of the block are the samples popped of that stream, in order, with none left out,
  -- repeated or added; the engine's count is that of what was accepted.
  pub run_from-begun :
      (end timeout : ℤ) (w : W) (o : O) (e : Engine) (es : List Event)
      → new_playback_engine calls (watched_output sink) end timeout w ≡ returned e
      → (t : System W (Sent O)) × (run_from calls (watched_output sink) (some (begun e w o)) es
          ≡ some t)
        × Inv log t
  run_from-begun end timeout w o e es made =
      run_from-Inv (begun e w o) es (subst (Begins w o) made (made-Begins end timeout w o))
