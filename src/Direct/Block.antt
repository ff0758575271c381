-- ===== src/Direct/Block.antt =====
-- LinuxIoctlReader: the reads of one block.
use picdplayer.Prelude.{
  ℕ, zero, suc, ◌+◌, ◌*◌, ◌≤◌, ◌≡◌, refl, sym, ◌∙◌, true, false, ◌&&◌, List, ℤ, pos, neg_part,
  pos_part, ◌==ℤ◌, if-both, length, arith,
}
use picdplayer.Prelude.Slice.{slice}
use picdplayer.Reader.{C2Status, add32}
use picdplayer.Direct.{
  Transports, DirectOptions, Tried, try_read, BlockRead, pointers_required, block_read, read_plain,
  read_again, after_c2, read_block, is_observed, eio,
}

-- A buffer of the same length, and the entries of the frames from `lba` on when there is no error.
pub record Gives (disc : ℕ → ℤ) (lba : ℤ) (size : ℕ) (error : ℤ) (block : List ℤ) : Type 0 where
  pub length-kept : length block ≡ size
  pub entries : (error ==ℤ pos 0) ≡ true → block ≡ slice disc (pos_part lba * 1176) size

pub record GivesDisc (T : Transports) (disc : ℕ → ℤ) : Type 0 where
  pub audio :
      (lba : ℤ) (b : List ℤ) (d : T.Device)
      → neg_part lba ≡ 0
      → Gives disc lba (length b) (T.audio_read lba b d).0 (T.audio_read lba b d).1
  pub pointers :
      (lba : ℤ) (b : List ℤ) (d : T.Device)
      → neg_part lba ≡ 0
      → Gives disc lba (length b) (T.c2_read lba b d).0.0 (T.c2_read lba b d).1

module _ (T : Transports) (disc : ℕ → ℤ) (gives : GivesDisc T disc) (o : DirectOptions) (lba : ℤ)
    (fine : neg_part lba ≡ 0) where
  open T use {Device}

  pub record TriedPost (size n extra : ℕ) (t : Tried T) : Type 0 where
    pub block : Gives disc lba size t.error t.block
    pub retries : t.retries ≤ n + extra

  abbrev pub BlockPost : ℕ → ℕ → BlockRead T → Type 0
  BlockPost size n (pointers_required error block d) =
      (length block ≡ size) × ((error ==ℤ pos 0) ≡ false)
  BlockPost size n (block_read t c2) = TriedPost size n (2 * o.retries) t

  try_read-TriedPost :
      (left n size : ℕ) (b : List ℤ) (d : Device)
      → length b ≡ size
      → TriedPost size n left (try_read T left lba n b d)
  unfolding try_read
  try_read-TriedPost zero n size b d e = record {
    block = rw (sym e) (gives.audio lba b d fine);
    retries = omega arith;
  }
  try_read-TriedPost (suc left) n size b d e =
      if-both (TriedPost size n (suc left)) ((T.audio_read lba b d).0 ==ℤ eio)
        (λ _.
          let again =
            try_read-TriedPost left (add32 n 1) size (T.audio_read lba b d).1
              (T.audio_read lba b d).2 ((gives.audio lba b d fine).length-kept ∙ e) in
          record { block = again.block; retries = omega (arith, again.retries) })
        (λ _. record { block = rw (sym e) (gives.audio lba b d fine); retries = omega arith })

  read_again-BlockPost :
      (size n : ℕ) (t : Tried T)
      → TriedPost size n o.retries t
      → BlockPost size n (read_again T o lba t)
  unfolding read_again
  read_again-BlockPost size n t h =
      if-both (BlockPost size n) (t.error ==ℤ pos 0)
        (λ _. record { block = h.block; retries = omega (arith, h.retries) })
        (λ _.
          let again =
            try_read-TriedPost o.retries t.retries size t.block t.device h.block.length-kept in
          record { block = again.block; retries = omega (arith, h.retries, again.retries) })

  after_c2-BlockPost :
      (size n : ℕ) (x : (ℤ × C2Status) × List ℤ × Device)
      → Gives disc lba size x.0.0 x.1
      → BlockPost size n (after_c2 T o lba n x)
  unfolding after_c2
  after_c2-BlockPost size n ((error, status), block, d) h =
      if-both (BlockPost size n) ((error ==ℤ pos 0) && is_observed status)
        (λ good. record {
          block = record { length-kept = h.length-kept; entries = λ _. h.entries (ground arith) };
          retries = omega arith;
        })
        (λ _.
          if-both (BlockPost size n) o.require_c2_pointers
            (λ _. (
              h.length-kept,
              if-both (λ e. (e ==ℤ pos 0) ≡ false) (error ==ℤ pos 0) (λ _. refl) (λ bad. bad),
            ))
            (λ _.
              read_again-BlockPost size n _
                (try_read-TriedPost o.retries n size block d h.length-kept)))

  -- The reads of one block leave a buffer of the block's length, which holds the entries of its frames
  -- when the last error is 0, and add at most twice the option's number to the retries; a call that
  -- requires pointers and gets none ends with an error other than 0.
  pub read_block-BlockPost :
      (n : ℕ) (b : List ℤ) (d : Device) → BlockPost (length b) n (read_block T o lba n b d)
  unfolding read_block read_plain
  read_block-BlockPost n b d =
      if-both (BlockPost (length b) n) o.request_c2_pointers
        (λ _. after_c2-BlockPost (length b) n (T.c2_read lba b d) (gives.pointers lba b d fine))
        (λ _.
          let t = try_read-TriedPost o.retries n (length b) b d refl in
          record { block = t.block; retries = omega (arith, t.retries) })
