-- ===== src/Worker/Fresh.antt =====
-- A new worker satisfies the invariant.
use picdplayer.Outcome.{Outcome, returned, thrown, undefined, ◌>>◌, throw_if, invalid_argument}
use picdplayer.Prelude.{ℕ, ◌<◌, ◌≡◌, refl, sym, Bool, true, false, List, [], ℤ, pos, arith}
use mathlib.Core.Path.{subst}
use picdplayer.Worker.{
  PcmWorker, PcmBufferConfig, new_worker, fresh, validate_pcm_buffer_config, bad_block,
}
use picdplayer.Evidence.{ReadEvidence}
use picdplayer.Worker.Blocks.{Chain}
use picdplayer.Worker.Run.{started}
use picdplayer.Worker.Turns.{Holds}

-- The worker as its constructor leaves it.
abbrev pub IsNew : PcmWorker → Type 0
IsNew w =
    (w.queue ≡ [])
    × (w.active ≡ false)
    × (w.done ≡ false)
    × (w.closing ≡ false)
    × (w.generation ≡ 0)
    × (w.begin ≡ pos 0)
    × (w.end ≡ pos 0)
    × (0 < w.read_block_cd_frames)

bind-returned :
    (m : Outcome (Unit {0})) (k : Outcome PcmWorker) (w : PcmWorker)
    → (m >> k) ≡ returned w
    → k ≡ returned w
bind-returned (returned tt) k w e = e
bind-returned (thrown x) k w e = absurd (ground arith)
bind-returned undefined k w e = absurd (ground arith)

throw_if-returned :
    (b : Bool) (k : Outcome PcmWorker) (w : PcmWorker)
    → (throw_if b invalid_argument >> k) ≡ returned w
    → (b ≡ false) × (k ≡ returned w)
throw_if-returned true k w e = absurd (ground arith)
throw_if-returned false k w e = (refl, e)

pub new_worker-IsNew :
    (slots : ℕ → ReadEvidence) (c : PcmBufferConfig) (strategy mode : List ℕ) (frames : ℕ)
    (w : PcmWorker)
    → new_worker slots c strategy mode frames ≡ returned w
    → IsNew w
unfolding new_worker
new_worker-IsNew slots c strategy mode frames w e =
    let (good, made) =
      throw_if-returned (bad_block c frames) (returned (fresh slots c strategy mode frames)) w
        (bind-returned (validate_pcm_buffer_config c) _ w e) in
    let same : fresh slots c strategy mode frames ≡ w = cc in
    subst IsNew same (refl, refl, refl, refl, refl, refl, refl, ground (arith, good))

module _ (Given : ℤ → List ℤ → Type 0) where
  pub new-Holds : (w : PcmWorker) → IsNew w → Holds Given (started w) (pos 0)
  new-Holds w (queue, active, done, closing, generation, begin, end, sized) = record {
    to = pos 0;
    chain = subst (Chain Given w.generation (pos 0) (pos 0)) (sym queue) refl;
    open_worker = closing;
    ended = λ h. cc;
    undone = λ _. done;
    sized = sized;
    range = λ h. cc;
    ahead = rw end (omega arith);
    progress = λ h. cc;
    known = tt;
  }
