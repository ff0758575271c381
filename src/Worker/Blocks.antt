-- ===== src/Worker/Blocks.antt =====
-- What the queue holds: consecutive blocks of one stream.
use picdplayer.Prelude.{
  ℕ, ◌*◌, ◌<◌, ◌≡◌, List, [], ◌∷◌, ◌++◌, ℤ, pos, ◌+ℤ◌, ◌≤ℤ◌, length, int_laws, arith,
}
use picdplayer.Reader.{samples_per_frame}
use picdplayer.Worker.{PcmBlock}

-- `Given lba samples` is what the reader promises of the samples of an accepted read.
module _ (Given : ℤ → List ℤ → Type 0) where
  abbrev pub IsBlock : ℕ → ℤ → ℕ → PcmBlock → Type 0
  IsBlock g from frames b =
      (b.generation ≡ g)
      × (b.lba ≡ from)
      × (0 < frames)
      × (length b.samples ≡ frames * samples_per_frame)
      × Given from b.samples

  -- The blocks are of one generation, the first begins at `from`, each of the others where the one
  -- before ends, and the last ends at `to`.
  abbrev pub Chain : ℕ → ℤ → ℤ → List PcmBlock → Type 0
  Chain g from to [] = from ≡ to
  Chain g from to (b ∷ bs) =
      (frames : ℕ) × IsBlock g from frames b × Chain g (from +ℤ pos frames) to bs

  pub Chain-append :
      (g : ℕ) (from via to : ℤ) (bs cs : List PcmBlock)
      → Chain g from via bs
      → Chain g via to cs
      → Chain g from to (bs ++ cs)
  Chain-append g from via to [] cs e c = rw e c
  Chain-append g from via to (b ∷ bs) cs (frames, block, rest) c =
      (frames, block, Chain-append g (from +ℤ pos frames) via to bs cs rest c)

  pub Chain-le : (g : ℕ) (from to : ℤ) (bs : List PcmBlock) → Chain g from to bs → from ≤ℤ to
  Chain-le g from to [] e = rw e (omega arith)
  Chain-le g from to (b ∷ bs) (frames, block, rest) =
      omega (int_laws, Chain-le g (from +ℤ pos frames) to bs rest)
