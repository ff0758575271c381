-- ===== src/Direct/Read.antt =====
-- LinuxIoctlReader::read: the loop over the blocks.
use mathlib.Core.Path.{subst}
use picdplayer.Outcome.{Outcome, returned, thrown, undefined}
use picdplayer.Prelude.{
  ℕ, zero, suc, ◌+◌, ◌*◌, ◌/◌, ◌%◌, ◌≤◌, ◌<◌, ◌≡◌, refl, ap, ◌∙◌, Bool, true, false, not, ◌||◌, ◌⊎◌,
  inl, inr, List, ℤ, pos, neg_part, pos_part, ◌-ℤ◌, ltb_ℤ, ◌==ℤ◌, if◌then◌else◌, if-both, ltb, ◌==◌,
  length, length-append, length-take, length-drop, length-replicate, take, drop, arith, add_pos,
}
use picdplayer.Prelude.Slice.{slice, append-drop}
use picdplayer.Reader.{ReadResult, ReadStatus, samples_per_frame, int32_max}
use picdplayer.Verifier.{is_nil}
use picdplayer.Direct.{
  Transports, DirectOptions, BlockRead, pointers_required, block_read, read_block, Reading,
  block_frames, after_block, read_step, read_loop, fail, with_block, scratch_after, copy_to,
  LinuxIoctlReader, start_reading, read, finish,
}
use picdplayer.Direct.Block.{GivesDisc, BlockPost, read_block-BlockPost}
use picdplayer.Direct.Copy.{filled, copy_to-filled}

module _ (T : Transports) (disc : ℕ → ℤ) (gives : GivesDisc T disc) (o : DirectOptions) (start : ℤ)
    (pcm : List ℤ) where
  abbrev count : ℕ
  count = length pcm / samples_per_frame

  -- The first `frames_read` frames of the buffer hold the stream from `start` on, the rest is as it was.
  pub record Partial (g : Reading T) : Type 0 where
    pub not_negative : neg_part g.cursor ≡ 0
    pub cursor : pos_part g.cursor ≡ pos_part start + g.result.frames_read
    pub scratch : length g.scratch ≡ 75 * 1176
    pub buffer : g.pcm ≡ filled disc (pos_part start * 1176) (g.result.frames_read * 1176) pcm
    pub requested : g.result.frames_requested ≡ count
    pub at_most : g.result.frames_read ≤ count
    pub start_lba : g.result.start_lba ≡ start

  pub record IsGoing (g : Reading T) : Type 0 where
    pub status : g.result.status ≡ ReadStatus.ok
    pub native_error : g.result.native_error ≡ pos 0
    pub positioned : g.positioned ≡ true

  pub record IsBroken (g : Reading T) : Type 0 where
    pub status : g.result.status ≡ ReadStatus.read_error
    pub native_error : (g.result.native_error ==ℤ pos 0) ≡ false
    pub positioned : g.positioned ≡ false
    pub short : g.result.frames_read < count

  abbrev TurnPost : ℕ → Reading T × Bool → Type 0
  TurnPost before (g, true) = Partial g × IsGoing g × (before < g.result.frames_read)
  TurnPost before (g, false) = Partial g × IsBroken g

  module _ (g : Reading T) (p : Partial g) (i : IsGoing g)
      (more : g.result.frames_read < count) where
    abbrev frames : ℕ
    frames = block_frames T g.result

    scratch_after-length :
        (block : List ℤ)
        → length block ≡ frames * 1176
        → length (scratch_after T block g.scratch) ≡ 75 * 1176
    scratch_after-length block e = omega (
      arith,
      e,
      length-append block (drop (length block) g.scratch),
      length-drop (length block) g.scratch,
      p.scratch,
    )

    after_block-TurnPost :
        (x : BlockRead T)
        → BlockPost T disc gives o g.cursor p.not_negative (frames * 1176) g.result.retries x
        → TurnPost g.result.frames_read (after_block T g x)
    unfolding after_block fail with_block
    after_block-TurnPost (pointers_required error block d) (size, bad) = (
      record {
        not_negative = p.not_negative;
        cursor = p.cursor;
        scratch = scratch_after-length block size;
        buffer = p.buffer;
        requested = p.requested;
        at_most = p.at_most;
        start_lba = p.start_lba;
      },
      record { status = refl; native_error = bad; positioned = refl; short = more },
    )
    after_block-TurnPost (block_read t c2) h =
        if-both (TurnPost g.result.frames_read) (t.error ==ℤ pos 0)
          (λ good. (
            record {
              not_negative = (add_pos g.cursor frames p.not_negative).0;
              cursor = omega (arith, (add_pos g.cursor frames p.not_negative).1, p.cursor);
              scratch = scratch_after-length t.block h.block.length-kept;
              buffer =
                  ap (λ b. copy_to T b (g.result.frames_read * 1176) t.block) p.buffer
                  ∙ ap
                      (copy_to T
                        (filled disc (pos_part start * 1176) (g.result.frames_read * 1176) pcm)
                        (g.result.frames_read * 1176))
                      (h.block.entries good)
                  ∙ copy_to-filled T disc (pos_part start * 1176) (g.result.frames_read * 1176)
                      (pos_part g.cursor * 1176) (frames * 1176)
                      ((g.result.frames_read + frames) * 1176) pcm (omega (arith, p.cursor))
                      (omega arith);
              requested = p.requested;
              at_most = omega (arith, p.requested, more);
              start_lba = p.start_lba;
            },
            record { status = i.status; native_error = i.native_error; positioned = i.positioned },
            omega (arith, p.requested, more),
          ))
          (λ bad. (
            record {
              not_negative = p.not_negative;
              cursor = p.cursor;
              scratch = scratch_after-length t.block h.block.length-kept;
              buffer = p.buffer;
              requested = p.requested;
              at_most = p.at_most;
              start_lba = p.start_lba;
            },
            record { status = refl; native_error = bad; positioned = refl; short = more },
          ))

    read_step-TurnPost : TurnPost g.result.frames_read (read_step T o g)
    unfolding read_step
    read_step-TurnPost =
        let block : List ℤ = take (frames * samples_per_frame) g.scratch in
        let size : length block ≡ frames * 1176 =
          omega (arith, length-take (frames * samples_per_frame) g.scratch, p.scratch) in
        after_block-TurnPost _ (
          subst
            (λ k.
              BlockPost T disc gives o g.cursor p.not_negative k g.result.retries
                (read_block T o g.cursor g.result.retries block g.device))
            size
            (read_block-BlockPost T disc gives o g.cursor p.not_negative g.result.retries block
              g.device))

  pub LoopPost : Reading T → Type 0
  LoopPost g = Partial g × ((IsGoing g × (g.result.frames_read ≡ count)) ⊎ IsBroken g)

  turn-LoopPost :
      (before : ℕ) (turn : Reading T × Bool) (rest : Reading T)
      → TurnPost before turn
      → (Partial turn.0 → IsGoing turn.0 → before < turn.0.result.frames_read → LoopPost rest)
      → LoopPost (if turn.1 then rest else turn.0)
  unfolding LoopPost
  turn-LoopPost before (g, true) rest (p, i, h) k = k p i h
  turn-LoopPost before (g, false) rest (p, b) k = (p, inr b)

  pub read_loop-LoopPost :
      (fuel : ℕ) (g : Reading T)
      → Partial g
      → IsGoing g
      → count ≤ g.result.frames_read + fuel
      → LoopPost (read_loop T o fuel g)
  unfolding read_loop LoopPost
  read_loop-LoopPost zero g p i enough = (p, inl (i, omega (arith, p.at_most)))
  read_loop-LoopPost (suc fuel) g p i enough =
      if-both LoopPost (ltb g.result.frames_read g.result.frames_requested)
        (λ more.
          turn-LoopPost g.result.frames_read (read_step T o g) _
            (read_step-TurnPost g p i (ground (arith, p.requested)))
            (λ p' i' further.
              read_loop-LoopPost fuel (read_step T o g).0 p' i' (omega (arith, further, enough))))
        (λ done. (p, inl (i, ground (arith, p.requested, p.at_most))))

module _ (T : Transports) (disc : ℕ → ℤ) (gives : GivesDisc T disc) (pcm : List ℤ)
    (r : LinuxIoctlReader T) where
  pub record Complete (result : ReadResult) (out : List ℤ) (r' : LinuxIoctlReader T) : Type 0 where
    pub status : result.status ≡ ReadStatus.ok
    pub native_error : result.native_error ≡ pos 0
    pub frames_read : result.frames_read ≡ length pcm / 1176
    pub block : out ≡ slice disc (pos_part r.cursor * 1176) (length pcm)
    pub cursor : pos_part r'.cursor ≡ pos_part r.cursor + length pcm / 1176
    pub not_negative : neg_part r'.cursor ≡ 0
    pub positioned : r'.positioned ≡ true

  pub record Short (result : ReadResult) (out : List ℤ) (r' : LinuxIoctlReader T) : Type 0 where
    pub status : result.status ≡ ReadStatus.read_error
    pub native_error : (result.native_error ==ℤ pos 0) ≡ false
    pub frames_read : result.frames_read < length pcm / 1176
    pub block : out ≡ filled disc (pos_part r.cursor * 1176) (result.frames_read * 1176) pcm
    pub cursor : pos_part r'.cursor ≡ pos_part r.cursor + result.frames_read
    pub positioned : r'.positioned ≡ false

  abbrev pub DirectPost : Outcome (ReadResult × List ℤ) × LinuxIoctlReader T → Type 0
  DirectPost (returned (result, out), r') = Complete result out r' ⊎ Short result out r'
  DirectPost (thrown e, r') = r' ≡ r
  DirectPost (undefined, r') = ⊥

  start-Partial :
      neg_part r.cursor ≡ 0 → Partial T disc gives r.options r.cursor pcm (start_reading T pcm r)
  unfolding start_reading slice
  start-Partial fine = record {
    not_negative = fine;
    cursor = omega arith;
    scratch = length-replicate (75 * samples_per_frame) (pos 0);
    buffer = refl;
    requested = refl;
    at_most = omega arith;
    start_lba = refl;
  }

  finish-DirectPost :
      (g : Reading T)
      → length pcm ≡ length pcm / 1176 * 1176
      → LoopPost T disc gives r.options r.cursor pcm g
      → DirectPost (finish T r g)
  unfolding LoopPost
  finish-DirectPost g whole (p, inl (i, all)) = inl (record {
    status = i.status;
    native_error = i.native_error;
    frames_read = all;
    block =
        p.buffer
        ∙ ap (λ n. filled disc (pos_part r.cursor * 1176) n pcm) (omega (arith, all, whole))
        ∙ append-drop (slice disc (pos_part r.cursor * 1176) (length pcm)) pcm;
    cursor = omega (arith, p.cursor, all);
    not_negative = p.not_negative;
    positioned = i.positioned;
  })
  finish-DirectPost g whole (p, inr b) = inr (record {
    status = b.status;
    native_error = b.native_error;
    frames_read = b.short;
    block = p.buffer;
    cursor = p.cursor;
    positioned = b.positioned;
  })

  -- At a cursor from 0 on, over transports whose reads without error give the entries of a stream: a call either throws and leaves the reader, or returns ok with the whole buffer filled from the cursor on and the cursor behind it, or returns an error with the frames that it counts filled, the rest of the buffer as it was and a new seek needed.
  pub read-DirectPost : neg_part r.cursor ≡ 0 → DirectPost (read T pcm r)
  unfolding read start_reading
  read-DirectPost fine =
      if-both DirectPost (not r.positioned) (λ _. refl)
        (λ on.
          if-both DirectPost (is_nil pcm || not (length pcm % samples_per_frame == 0)) (λ _. refl)
            (λ shaped.
              if-both DirectPost
                (ltb_ℤ (pos int32_max -ℤ r.cursor) (pos (length pcm / samples_per_frame)))
                (λ _. refl)
                (λ _.
                  let no_rest : length pcm % 1176 ≡ 0 = ground arith in
                  finish-DirectPost _ (omega (arith, no_rest)) (
                    read_loop-LoopPost T disc gives r.options r.cursor pcm
                      (length pcm / samples_per_frame) (start_reading T pcm r) (start-Partial fine)
                      (record { status = refl; native_error = refl; positioned = ground arith })
                      (omega arith)))))
