-- ===== src/Worker/Order.antt =====
-- The queue and the thread's stream: the invariant of the worker, and the turns that keep it.
use picdplayer.Prelude.{
  ℕ, ◌+◌, ◌≤◌, ◌<◌, ◌≡◌, refl, sym, ap, ◌∙◌, Bool, true, false, not, ◌||◌, ◌⊎◌, inl, inr, Option,
  none, some, List, [], ◌∷◌, ◌++◌, ℤ, pos, pos_part, neg_part, ◌+ℤ◌, ◌≤ℤ◌, ◌<ℤ◌, ltb_ℤ, ◌==◌,
  if◌then◌else◌, if-both, eq_of_parts, -ℤ_parts, int_laws, arith,
}
use mathlib.Core.Path.{subst}
use picdplayer.Reader.{is_ok}
use picdplayer.Worker.{PcmWorker, PcmBlock}
use picdplayer.Worker.Blocks.{IsBlock, Chain, Chain-append, Chain-le}
use picdplayer.Worker.Thread.{Stream, Point, frames_of}

pub le_trans_ℤ : (a b c : ℤ) → a ≤ℤ b → b ≤ℤ c → a ≤ℤ c
le_trans_ℤ a b c h k = omega arith

-- The members that the order of the blocks depends on.
pub record Core : Type 0 where
  pub queue : List PcmBlock
  pub active : Bool
  pub discard : Bool
  pub done : Bool
  pub closing : Bool
  pub generation : ℕ
  pub begin : ℤ
  pub end : ℤ
  pub read_block_cd_frames : ℕ

abbrev pub core : PcmWorker → Core
core w = record {
  queue = w.queue;
  active = w.active;
  discard = w.discard;
  done = w.done;
  closing = w.closing;
  generation = w.generation;
  begin = w.begin;
  end = w.end;
  read_block_cd_frames = w.read_block_cd_frames;
}

abbrev pub stream_at : Point → Option Stream
stream_at Point.waiting = none
stream_at Point.discarding = none
stream_at Point.retired = none
stream_at Point.finished = none
stream_at (Point.begun st) = some st
stream_at (Point.opening st) = some st
stream_at (Point.opened st) = some st
stream_at (Point.settled st) = some st
stream_at (Point.seeking st) = some st
stream_at (Point.looping st) = some st
stream_at (Point.in_read_admission st) = some st
stream_at (Point.in_factory st) = some st
stream_at (Point.in_seek st) = some st
stream_at (Point.in_read st) = some st
stream_at (Point.accounted st r block) = some st
stream_at (Point.failing st e unobserved) = some st

-- A stream that is to be entered begins where the queue ends.
abbrev pub Behind : Core → ℤ → Type 0
Behind c to = c.active ≡ true → to ≡ c.begin

pub record Current (c : Core) (to : ℤ) (st : Stream) : Type 0 where
  pub at : to ≡ st.position
  pub end : st.end ≡ c.end
  pub active : c.active ≡ true
  pub kept : c.discard ≡ false
  pub within : st.position ≤ℤ st.end

abbrev pub Progress : Core → ℤ → Option Stream → Type 0
Progress c to none = Behind c to
Progress c to (some st) =
    (0 < st.read_block_cd_frames)
    × (((st.generation < c.generation) × Behind c to)
        ⊎ ((st.generation ≡ c.generation) × Current c to st))

Current-queue :
    (c : Core) (q : List PcmBlock) (to : ℤ) (st : Stream)
    → Current c to st
    → Current (record c { queue = q }) to st
Current-queue c q to st now = record {
  at = now.at;
  end = now.end;
  active = now.active;
  kept = now.kept;
  within = now.within;
}

-- The owner takes blocks from the queue, reconfigures an inactive worker, or begins a generation.
pub Progress-queue :
    (c : Core) (q : List PcmBlock) (to : ℤ) (o : Option Stream)
    → Progress c to o
    → Progress (record c { queue = q }) to o
Progress-queue c q to none behind = behind
Progress-queue c q to (some st) (sized, inl (older, behind)) = (sized, inl (older, behind))
Progress-queue c q to (some st) (sized, inr (same, now)) =
    (sized, inr (same, Current-queue c q to st now))

pub Progress-idle :
    (c : Core) (frames : ℕ) (to : ℤ) (o : Option Stream)
    → c.active ≡ false
    → Progress c to o
    → Progress (record c { discard = true; read_block_cd_frames = frames }) to o
Progress-idle c frames to none idle behind = behind
Progress-idle c frames to (some st) idle (sized, inl (older, behind)) = (sized, inl (older, behind))
Progress-idle c frames to (some st) idle (sized, inr (same, now)) =
    (let busy = now.active in absurd (ground (arith, idle)))

pub Progress-later :
    (c d : Core) (to from : ℤ) (o : Option Stream)
    → c.generation < d.generation
    → Behind d from
    → Progress c to o
    → Progress d from o
Progress-later c d to from none later behind old = behind
Progress-later c d to from (some st) later behind (sized, inl (older, _)) =
    (sized, inl (omega (arith, older, later), behind))
Progress-later c d to from (some st) later behind (sized, inr (same, _)) =
    (sized, inl (omega (arith, same, later), behind))

module _ (Given : ℤ → List ℤ → Type 0) where
  -- What the thread knows of the block that it reads.
  abbrev pub Known : Point → Type 0
  Known (Point.in_read_admission st) = st.position <ℤ st.end
  Known (Point.in_read st) = st.position <ℤ st.end
  Known (Point.accounted st r block) =
      is_ok r.status ≡ true
      → r.frames_read ≡ frames_of st
      → (st.position <ℤ st.end) × IsBlock Given st.generation st.position (frames_of st) block
  Known Point.waiting = Unit {0}
  Known Point.discarding = Unit {0}
  Known Point.retired = Unit {0}
  Known Point.finished = Unit {0}
  Known (Point.begun st) = Unit {0}
  Known (Point.opening st) = Unit {0}
  Known (Point.opened st) = Unit {0}
  Known (Point.settled st) = Unit {0}
  Known (Point.seeking st) = Unit {0}
  Known (Point.looping st) = Unit {0}
  Known (Point.in_factory st) = Unit {0}
  Known (Point.in_seek st) = Unit {0}
  Known (Point.failing st e unobserved) = Unit {0}

  -- `next` is where the next popped block begins, and `to` where the queue ends.
  pub record Inv (c : Core) (p : Point) (next : ℤ) : Type 0 where
    pub to : ℤ
    pub chain : Chain Given c.generation next to c.queue
    pub open_worker : c.closing ≡ false
    pub ended : c.done ≡ true → to ≡ c.end
    pub undone : c.active ≡ true → c.done ≡ false
    pub sized : 0 < c.read_block_cd_frames
    pub range : c.active ≡ true → c.begin <ℤ c.end
    pub ahead : to ≤ℤ c.end
    pub progress : Progress c to (stream_at p)
    pub known : Known p

  -- The thread moves with its stream.
  pub Inv-move :
      (c : Core) (p q : Point) (next : ℤ)
      → stream_at p ≡ stream_at q
      → Known q
      → Inv c p next
      → Inv c q next
  Inv-move c p q next e known v = record {
    to = v.to;
    chain = v.chain;
    open_worker = v.open_worker;
    ended = v.ended;
    undone = v.undone;
    sized = v.sized;
    range = v.range;
    ahead = v.ahead;
    progress = subst (Progress c v.to) e v.progress;
    known = known;
  }

  module _ (c : Core) (p : Point) (next : ℤ) (st : Stream) (here : stream_at p ≡ some st)
      (v : Inv c p next) where
    pub Inv-progress : Progress c v.to (some st)
    Inv-progress = subst (Progress c v.to) here v.progress

    -- The thread leaves an earlier stream.
    pub Inv-leave :
        (q : Point)
        → stream_at q ≡ none
        → Known q
        → (st.generation == c.generation) ≡ false
        → Inv c q next
    Inv-leave q e known other = record {
      to = v.to;
      chain = v.chain;
      open_worker = v.open_worker;
      ended = v.ended;
      undone = v.undone;
      sized = v.sized;
      range = v.range;
      ahead = v.ahead;
      progress = subst (Progress c v.to) (sym e) (elim Inv-progress.1 [
        | inl (older, behind) ↦ behind
        | inr (same, now) ↦ absurd (ground (arith, other, same))
      ]);
      known = known;
    }

    pub Inv-Current : (st.generation == c.generation) ≡ true → Current c v.to st
    Inv-Current same = elim Inv-progress.1 [
      | inl (older, behind) ↦ absurd (ground (arith, same, older))
      | inr (same, now) ↦ now
    ]

    -- A stream in its range is not retired before a later one begins.
    pub Inv-admitted :
        (q : Point)
        → stream_at q ≡ some st
        → Known q
        → Inv c
            (if c.closing || not (st.generation == c.generation) || not c.active || c.discard
              then Point.retired
              else q)
            next
    Inv-admitted q e known = elim Inv-progress.1 [
      | inl (older, behind) ↦
          if-both (λ (x : Point). Inv c x next)
            (c.closing || not (st.generation == c.generation) || not c.active || c.discard)
            (λ _. Inv-leave Point.retired refl tt (ground (arith, older)))
            (λ _. Inv-move c p q next (here ∙ sym e) known v)
      | inr (same, now) ↦
          if-both (λ (x : Point). Inv c x next)
            (c.closing || not (st.generation == c.generation) || not c.active || c.discard)
            (λ refused.
              let stays = v.open_worker in
              let kept = now.kept in let active = now.active in absurd (ground (arith, same)))
            (λ _. Inv-move c p q next (here ∙ sym e) known v)
    ]

    pub Inv-ended :
        ltb_ℤ st.position st.end ≡ false
        → (st.generation == c.generation) ≡ true
        → Inv (record c { active = false; done = true }) Point.waiting next
    Inv-ended reached same = record {
      to = v.to;
      chain = v.chain;
      open_worker = v.open_worker;
      ended = λ _.
          (let now : Current c v.to st = Inv-Current same in
            now.at ∙ eq_of_parts st.position st.end (ground (arith, now.within)) ∙ now.end);
      undone = λ h. cc;
      sized = v.sized;
      range = λ h. cc;
      ahead = v.ahead;
      progress = λ h. cc;
      known = tt;
    }

    pub Inv-failed :
        (st.generation == c.generation) ≡ true
        → Inv (record c { active = false; done = false; queue = [] }) Point.waiting next
    Inv-failed same = record {
      to = next;
      chain = refl;
      open_worker = v.open_worker;
      ended = λ h. cc;
      undone = λ h. cc;
      sized = v.sized;
      range = λ h. cc;
      ahead =
          le_trans_ℤ next v.to c.end (Chain-le Given c.generation next v.to c.queue v.chain)
            v.ahead;
      progress = λ h. cc;
      known = tt;
    }

    pub Inv-pushed :
        (block : PcmBlock)
        → st.position <ℤ st.end
        → IsBlock Given st.generation st.position (frames_of st) block
        → (st.generation == c.generation) ≡ true
        → Inv
            (record c { queue = c.queue ++ (block ∷ []) })
            (Point.looping (record st { position = st.position +ℤ pos (frames_of st) }))
            next
    Inv-pushed block inside good same =
        let now : Current c v.to st = Inv-Current same in
        let here_generation : st.generation ≡ c.generation = ground arith in
        let frames-le : pos_part st.position + neg_part st.end + frames_of st
            ≤ pos_part st.end + neg_part st.position =
          ground (arith, inside, -ℤ_parts st.end st.position) in
        record {
          to = st.position +ℤ pos (frames_of st);
          chain =
              Chain-append Given c.generation next v.to (st.position +ℤ pos (frames_of st)) c.queue
                (block ∷ []) v.chain
                (
                  frames_of st,
                  (
                    good.0 ∙ here_generation,
                    good.1 ∙ sym now.at,
                    good.2,
                    good.3,
                    subst (λ lba. Given lba block.samples) (sym now.at) good.4,
                  ),
                  ap (λ lba. lba +ℤ pos (frames_of st)) now.at,
                );
          open_worker = v.open_worker;
          ended = λ h. (let busy = v.undone now.active in cc);
          undone = v.undone;
          sized = v.sized;
          range = v.range;
          ahead = (let e : st.end ≡ c.end = now.end in rw (sym e) (omega (int_laws, frames-le)));
          progress = (
            Inv-progress.0,
            inr (
              here_generation,
              record {
                at = refl;
                end = now.end;
                active = now.active;
                kept = now.kept;
                within = omega (int_laws, frames-le);
              },
            ),
          );
          known = tt;
        }
