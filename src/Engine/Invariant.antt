-- ===== src/Engine/Invariant.antt =====
-- The invariant of the engine between ticks, and the rules that its proofs step by.
use picdplayer.Engine.Effect.{
  Action, Failure, Reply, Ended, Post, then_do, caught, ended_of, lifted,
}
use picdplayer.Engine.{WorkerCalls, System, put_controller}
use picdplayer.Engine.Log.{WorkerLog, Sent, on_sent, emptied}
use picdplayer.Outcome.{Outcome, returned, thrown, undefined}
use picdplayer.Player.{PlayerController, PlaybackState}
use picdplayer.Player
use picdplayer.Player.Loaded.{Loaded, Returns}
use picdplayer.Prelude.{
  ◌*◌, ◌≤◌, ◌≡◌, ◌≢◌, Bool, true, false, ◌⊎◌, inl, Option, none, some, [], ◌++◌, length, drop,
}

module _ {S A B : Type 0} (Q : B → S → Type 0) (E : Failure → S → Type 0) where
  -- A sequence, from what its first part leaves.
  pub then_do-Post :
      (R : A → S → Type 0) (k : A → Action S B) (r : Ended A × S)
      → Post R E r
      → ((a : A) (s : S) → R a s → Post Q E (k a s))
      → Post Q E (then_do k r)
  then_do-Post R k (Ended.done a, s) p h = h a s p
  then_do-Post R k (Ended.failed f, s) p h = p
  then_do-Post R k (Ended.undefined, s) p h = p

module _ {S A : Type 0} (Q : A → S → Type 0) (E : Failure → S → Type 0) where
  pub caught-Post :
      (F : Failure → S → Type 0) (handler : Failure → Action S A) (r : Ended A × S)
      → Post Q F r
      → ((f : Failure) (s : S) → F f s → Post Q E (handler f s))
      → Post Q E (caught handler r)
  caught-Post F handler (Ended.done a, s) p h = p
  caught-Post F handler (Ended.failed f, s) p h = h f s p
  caught-Post F handler (Ended.undefined, s) p h = p

  pub Post-map :
      (R : A → S → Type 0) (F : Failure → S → Type 0) (r : Ended A × S)
      → ((a : A) (s : S) → R a s → Q a s)
      → ((f : Failure) (s : S) → F f s → E f s)
      → Post R F r
      → Post Q E r
  Post-map R F (Ended.done a, s) h k p = h a s p
  Post-map R F (Ended.failed f, s) h k p = k f s p
  Post-map R F (Ended.undefined, s) h k p = p

module _ {W O : Type 0} where
  -- The stream has ended, and nothing of it is left.
  pub record Silent (s : System W (Sent O)) : Type 0 where
    pub inactive : s.engine.active ≡ false
    pub halted : s.controller.state.playback ≢ PlaybackState.playing
    pub no_block : s.engine.block.samples ≡ []
    pub no_evidence : (s.engine.submitted_evidence ≡ []) × (s.engine.current_evidence ≡ none)

  -- What may be thrown in the middle of a tick: there is a disc, and no more than three recoveries.
  pub record Broken (f : Failure) (s : System W (Sent O)) : Type 0 where
    pub bounded : s.engine.underrun_recoveries ≤ 3
    pub disc : Loaded s.controller

  -- The engine has a stream, or the player does not play.
  abbrev pub Settled : System W (Sent O) → Type 0
  Settled s = (s.engine.active ≡ true) ⊎ (s.controller.state.playback ≢ PlaybackState.playing)

module _ {W O : Type 0} {calls : WorkerCalls W} (log : WorkerLog calls) where
  -- What the output accepted and what is left of the block are what was popped of this stream.
  pub record Streamed (s : System W (Sent O)) : Type 0 where
    pub current : log.generation s.worker ≡ s.engine.generation
    pub located : log.begin s.worker ≡ s.engine.start
    pub joined :
        s.output.samples ++ drop s.engine.offset s.engine.block.samples ≡ log.samples s.worker
    pub counted : length s.output.samples ≡ s.engine.submitted * 2

  pub record Inv (s : System W (Sent O)) : Type 0 where
    pub inside : s.engine.offset ≤ length s.engine.block.samples
    pub bounded : s.engine.underrun_recoveries ≤ 3
    pub player : Player.Invariant.Inv s.controller
    pub streamed : s.engine.active ≡ true → Loaded s.controller × Streamed s

  -- A stream that goes on, in the middle of a tick.
  pub record Going (s : System W (Sent O)) : Type 0 where
    pub inside : s.engine.offset ≤ length s.engine.block.samples
    pub bounded : s.engine.underrun_recoveries ≤ 3
    pub disc : Loaded s.controller
    pub running : s.engine.active ≡ true
    pub streamed : Streamed s

  abbrev pub Settles : Unit {0} → System W (Sent O) → Type 0
  Settles a s = Inv s × Settled s

  pub Going-Broken : (f : Failure) (s : System W (Sent O)) → Going s → Broken f s
  Going-Broken f s g = record { bounded = g.bounded; disc = g.disc }

  pub Going-Settles : (s : System W (Sent O)) → Going s → Inv s × Settled s
  Going-Settles s g = (
    record {
      inside = g.inside;
      bounded = g.bounded;
      player = g.disc.keeps;
      streamed = λ _. (g.disc, g.streamed);
    },
    inl g.running,
  )

module _ {S A B : Type 0} (Q : B → S → Type 0) (E : Failure → S → Type 0) where
  pub lifted-Post :
      (k : A → Action S B) (s : S) (o : Option A) (a : A)
      → o ≡ some a
      → Post Q E (k a s)
      → Post Q E (then_do k (lifted o s))
  lifted-Post k s o a e p = rw e p

module _ {W O B : Type 0} (Q : B → System W O → Type 0) (E : Failure → System W O → Type 0) where
  -- A call of the player that returns.
  pub on_controller-Post :
      (P : PlayerController → Type 0) (k : Unit {0} → Action (System W O) B) (s : System W O)
      (o : Outcome (PlayerController × Bool))
      → Returns P o
      → ((c : PlayerController) → P c → Post Q E (k tt (record s { controller = c })))
      → Post Q E (then_do k (put_controller s o))
  on_controller-Post P k s (returned r) p h = h r.0 p
  on_controller-Post P k s (thrown e) p h = absurd p
  on_controller-Post P k s undefined p h = absurd p

  -- A call of the output that may throw.
  pub on_output-Post :
      {A : Type 0} (k : A → Action (System W O) B) (r : Reply A) (s : System W O)
      → ((f : Failure) → E f s)
      → ((a : A) → Post Q E (k a s))
      → Post Q E (then_do k (ended_of r, s))
  on_output-Post k (Reply.gave a) s t h = h a
  on_output-Post k (Reply.threw f) s t h = t f

module _ {W O B : Type 0} (Q : B → System W (Sent O) → Type 0)
    (E : Failure → System W (Sent O) → Type 0) where
  -- A reset of a watched output.
  pub reset-Post :
      (k : Unit {0} → Action (System W (Sent O)) B) (s : System W (Sent O))
      (r : Reply (Unit {0}) × O)
      → ((f : Failure) (o : O) → E f (record s { output = on_sent s.output o }))
      → ((o : O) → Post Q E (k tt (record s { output = record { output = o; samples = [] } })))
      → Post Q E (
          then_do k (ended_of (emptied s.output r).0, record s { output = (emptied s.output r).1 }))
  reset-Post k s (Reply.gave u, o) t h = h o
  reset-Post k s (Reply.threw f, o) t h = t f o

-- The same calls at the end of a sequence.
module _ {W O : Type 0} where
  pub put_controller-Post :
      (Q : Unit {0} → System W O → Type 0) (E : Failure → System W O → Type 0)
      (P : PlayerController → Type 0) (s : System W O) (o : Outcome (PlayerController × Bool))
      → Returns P o
      → ((c : PlayerController) → P c → Q tt (record s { controller = c }))
      → Post Q E (put_controller s o)
  put_controller-Post Q E P s (returned r) p h = h r.0 p
  put_controller-Post Q E P s (thrown e) p h = absurd p
  put_controller-Post Q E P s undefined p h = absurd p

  pub last_reset-Post :
      (Q : Unit {0} → System W (Sent O) → Type 0) (E : Failure → System W (Sent O) → Type 0)
      (s : System W (Sent O)) (r : Reply (Unit {0}) × O)
      → ((f : Failure) (o : O) → E f (record s { output = on_sent s.output o }))
      → ((o : O) → Q tt (record s { output = record { output = o; samples = [] } }))
      → Post Q E (ended_of (emptied s.output r).0, record s { output = (emptied s.output r).1 })
  last_reset-Post Q E s (Reply.gave u, o) t h = h o
  last_reset-Post Q E s (Reply.threw f, o) t h = t f o
