-- ===== src/Offset/Shift.antt =====
-- OffsetReader::read: the block that it returns is the wrapped reader's stream, shifted.
use picdplayer.Outcome.{Outcome, returned, thrown, undefined}
use picdplayer.Prelude.{
  ℕ, ◌+◌, ◌-◌, ◌*◌, ◌/◌, ◌%◌, ◌^◌, ◌≤◌, ◌≡◌, refl, ap, sym, ◌∙◌, true, false, not, ◌||◌, ◌⊎◌, inl,
  inr, List, [], ◌∷◌, ℤ, pos, pos_part, neg_part, ◌+ℤ◌, ◌-ℤ◌, ◌≤ℤ◌, ◌<ℤ◌, ltb, ◌==◌, length, arith,
  int_laws, Bool-cases, if-both,
}
use picdplayer.Reader.{CddaReader, ReadResult, ReadStatus, samples_per_frame}
use picdplayer.Verifier.{is_nil}
use picdplayer.Offset.{
  times_588, OffsetReader, Physical, physical_of, to_size, fetch, is_whole, frames_in, fits, read,
  deliver, with_raw, failed_result,
}
use picdplayer.Offset.Window.{nonnegative}
use picdplayer.Prelude.Slice.{slice, slice-part}
use picdplayer.Offset.Read.{IsInside, IsOnDisc, physical_of-IsOnDisc, to_size_part, window}

-- What a complete read of the wrapped reader gives: the entries of its frames in the stream.
abbrev pub GivesDisc : CddaReader → (ℕ → ℤ) → Type 0
GivesDisc R disc =
    (g : Physical R) (s : R.State) (r : ReadResult) (p : List ℤ)
    → neg_part g.first_lba ≡ 0
    → (fetch R g s).0 ≡ returned (r, p)
    → is_whole R g r ≡ true
    → p ≡ slice disc (pos_part g.first_lba * 1176) (g.frames * 1176)

module _ (R : CddaReader) (disc : ℕ → ℤ) (begin end offset : ℤ) (fine : pos 0 ≤ℤ begin)
    (some_frames : begin <ℤ end) (pcm : List ℤ) (o : OffsetReader R) where
  abbrev n : ℕ
  n = frames_in R pcm

  pub record Shifted (r : ReadResult) (out : List ℤ) (o' : OffsetReader R) : Type 0 where
    pub status : r.status ≡ ReadStatus.ok
    pub frames_read : r.frames_read ≡ n
    pub not_negative : neg_part (times_588 o.position +ℤ offset) ≡ 0
    pub block : out ≡ slice disc (2 * pos_part (times_588 o.position +ℤ offset)) (length pcm)
    pub inside : IsInside R begin end offset fine some_frames o'
    pub position : o'.position ≡ o.position +ℤ pos n
    pub positioned : o'.positioned ≡ true

  pub record Failed (r : ReadResult) (out : List ℤ) (o' : OffsetReader R) : Type 0 where
    pub status : r.status ≡ ReadStatus.read_error
    pub frames_read : r.frames_read ≡ 0
    pub buffer : out ≡ pcm
    pub positioned : o'.positioned ≡ false

  abbrev pub ShiftPost : Outcome (ReadResult × List ℤ) × OffsetReader R → Type 0
  ShiftPost (returned (r, out), o') = Shifted r out o' ⊎ Failed r out o'
  ShiftPost (thrown e, o') = (o'.positioned ≡ false) ⊎ (o' ≡ o)
  ShiftPost (undefined, o') = o'.positioned ≡ false

  module _ (inside : IsInside R begin end offset fine some_frames o) (some_n : 1 ≤ n)
      (whole : length pcm ≡ n * 1176)
      (room : o.position +ℤ pos n
        ≤ℤ (window R begin end offset fine some_frames).playable_end_lba) where
    on_disc : IsOnDisc R begin end offset fine some_frames o n (physical_of R o n)
    on_disc = physical_of-IsOnDisc R begin end offset fine some_frames o n inside some_n room

    deliver-ShiftPost :
        (x : Outcome (ReadResult × List ℤ) × R.State)
        → ((r : ReadResult) (p : List ℤ)
            → x.0 ≡ returned (r, p)
            → is_whole R (physical_of R o n) r ≡ true
            → p
              ≡ slice disc
                  (pos_part (physical_of R o n).first_lba * 1176)
                  ((physical_of R o n).frames * 1176))
        → ShiftPost (deliver R o n (physical_of R o n) pcm x)
    unfolding deliver with_raw failed_result
    deliver-ShiftPost (returned (r, p), s) gives =
        elim (Bool-cases (is_whole R (physical_of R o n) r)) [
          | inl complete ↦ rw complete (
              inl (record {
                status = refl;
                frames_read = refl;
                not_negative = (omega (arith, ap neg_part on_disc.sample));
                block = rw (gives r p refl complete) (
                    let same_start : pos_part (physical_of R o n).first_lba * 1176
                          + (physical_of R o n).skip
                        ≡ 2 * pos_part (times_588 o.position +ℤ offset) =
                      omega (arith, ap pos_part on_disc.sample, on_disc.skip) in
                    slice-part disc (physical_of R o n).skip (length pcm)
                      (pos_part (physical_of R o n).first_lba * 1176)
                      ((physical_of R o n).frames * 1176)
                      (omega (arith, on_disc.skip, on_disc.covers, whole))
                    ∙ ap (λ i. slice disc i (length pcm)) same_start);
                inside = record {
                  same = inside.same;
                  low = omega (int_laws, inside.low);
                  high = room;
                };
                position = refl;
                positioned = refl;
              }))
          | inr partial ↦
              rw partial (
                inr
                  (record { status = refl; frames_read = refl; buffer = refl; positioned = refl }))
        ]
    deliver-ShiftPost (thrown e, s) gives = inl refl
    deliver-ShiftPost (undefined, s) gives = refl

  failed : Failed (failed_result R o n) pcm (record o { positioned = false })
  unfolding failed_result
  failed = record { status = refl; frames_read = refl; buffer = refl; positioned = refl }

  not_empty : (xs : List ℤ) → is_nil xs ≡ false → 1 ≤ length xs
  not_empty [] h = cc
  not_empty (x ∷ xs) h = omega arith

  whole_frames :
      (is_nil pcm || not (length pcm % samples_per_frame == 0)) ≡ false
      → (1 ≤ n) × (length pcm ≡ n * 1176)
  unfolding frames_in
  whole_frames shaped = elim (Bool-cases (is_nil pcm)) [
    | inl empty ↦ absurd (ground arith)
    | inr some_entries ↦
        let no_rest : length pcm % 1176 ≡ 0 = ground arith in
        (omega (arith, no_rest, not_empty pcm some_entries), omega (arith, no_rest))
  ]

  has_room :
      IsInside R begin end offset fine some_frames o
      → not (fits R o n) ≡ false
      → o.position +ℤ pos n ≤ℤ (window R begin end offset fine some_frames).playable_end_lba
  has_room inside room =
      let ahead : neg_part (o.window.playable_end_lba -ℤ o.position) ≡ 0 =
        nonnegative _
          (rw (ap (λ w. w.playable_end_lba) inside.same) (omega (int_laws, inside.high))) in
      let enough : n ≤ to_size (o.window.playable_end_lba -ℤ o.position) = ground arith in
      rw (sym (ap (λ w. w.playable_end_lba) inside.same))
        (omega (int_laws, enough, to_size_part _ ahead, ahead))

  -- On a reader inside its window, over a wrapped reader whose complete reads give the entries of a stream: a returned block is the stream from entry 2 * (588 * position + offset) on, and the reader stays inside its window at the next position; a returned failure leaves the buffer and needs a new seek, and so does an exception, except that a refused argument leaves the reader as it was.
  pub read-ShiftPost :
      GivesDisc R disc → IsInside R begin end offset fine some_frames o → ShiftPost (read R pcm o)
  unfolding read frames_in
  read-ShiftPost gives inside =
      if-both ShiftPost (not o.positioned) (λ _. inr refl)
        (λ _.
          if-both ShiftPost (is_nil pcm || not (length pcm % samples_per_frame == 0))
            (λ _. inr refl)
            (λ shaped.
              if-both ShiftPost (not (fits R o n)) (λ _. inr failed)
                (λ room.
                  if-both ShiftPost
                    (ltb ((2 ^ 64 - 1) / samples_per_frame) (physical_of R o n).frames)
                    (λ _. inl refl)
                    (λ _.
                      let (some_n, whole) = whole_frames shaped in
                      deliver-ShiftPost inside some_n whole (has_room inside room)
                        (fetch R (physical_of R o n) o.inner)
                        (λ r p e complete.
                          gives (physical_of R o n) o.inner r p
                            (on_disc inside some_n whole (has_room inside room)).not_negative e
                            complete)))))
