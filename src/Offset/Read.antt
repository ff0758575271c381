-- ===== src/Offset/Read.antt =====
-- OffsetReader: the range that it reads lies on the disc, and the block is the shifted stream.
use picdplayer.Prelude.{
  ℕ, ◌+◌, ◌-◌, ◌*◌, ◌/◌, ◌≤◌, ◌<◌, ◌≡◌, refl, ap, sym, ℤ, pos, negsuc, pos_part, neg_part, ◌+ℤ◌,
  ◌-ℤ◌, ◌≤ℤ◌, ◌<ℤ◌, arith, int_laws, eq_of_parts,
}
use picdplayer.Reader.{CddaReader}
use picdplayer.Offset.{
  ReadOffsetWindow, window_of, times_588, div_588, OffsetReader, Physical, physical_of, to_size,
}
use picdplayer.Offset.Window.{
  times_588_parts, times_588_neg, div_588-bounds, nonnegative, window_of-IsCorrectable,
  IsCorrectable,
}

pub to_size_part : (x : ℤ) → neg_part x ≡ 0 → to_size x ≡ pos_part x
to_size_part (pos n) h = refl
to_size_part (negsuc n) h = absurd (omega arith)

module _ (R : CddaReader) (begin end offset : ℤ) (fine : pos 0 ≤ℤ begin)
    (some_frames : begin <ℤ end) where
  abbrev pub window : ReadOffsetWindow
  window = window_of begin end offset

  -- A reader of this window that has been positioned in it.
  pub record IsInside (o : OffsetReader R) : Type 0 where
    pub same : o.window ≡ window
    pub low : window.playable_begin_lba ≤ℤ o.position
    pub high : o.position ≤ℤ window.playable_end_lba

  -- What the range of a call is, in natural numbers: its frames are the fewest that cover the block.
  pub record IsOnDisc (o : OffsetReader R) (n : ℕ) (g : Physical R) : Type 0 where
    pub not_negative : neg_part g.first_lba ≡ 0
    pub first : begin ≤ℤ g.first_lba
    pub last : g.first_lba +ℤ pos g.frames ≤ℤ end
    pub sample : times_588 o.position +ℤ offset ≡ pos (pos_part g.first_lba * 588 + g.skip / 2)
    pub skip : g.skip ≡ 2 * (g.skip / 2)
    pub skip-lt : g.skip / 2 < 588
    pub covers : g.skip / 2 + n * 588 ≤ g.frames * 588
    pub fewest : g.frames * 588 < g.skip / 2 + n * 588 + 588

  module _ (o : OffsetReader R) (n : ℕ) (inside : IsInside o) (some_n : 1 ≤ n)
      (room : o.position +ℤ pos n ≤ℤ window.playable_end_lba) where
    position-IsCorrectable : IsCorrectable begin end offset o.position
    position-IsCorrectable =
        (window_of-IsCorrectable begin end offset fine some_frames o.position).0
          (inside.low, omega (int_laws, room))

    last-IsCorrectable : IsCorrectable begin end offset (o.position +ℤ pos (n - 1))
    last-IsCorrectable =
        (window_of-IsCorrectable begin end offset fine some_frames (o.position +ℤ pos (n - 1))).0
          (omega (int_laws, inside.low), omega (int_laws, room))

    abbrev shifted : ℤ
    shifted = times_588 o.position +ℤ o.window.offset_samples

    same_offset : o.window.offset_samples ≡ offset
    unfolding window_of
    same_offset = ap (λ w. w.offset_samples) inside.same

    begins : times_588 begin ≤ℤ shifted
    begins = rw same_offset position-IsCorrectable.first

    ends : shifted +ℤ pos (n * 588) ≤ℤ times_588 end
    ends = rw same_offset (
        omega (
          int_laws,
          some_n,
          last-IsCorrectable.last,
          times_588_parts o.position,
          times_588_neg o.position,
          times_588_parts (o.position +ℤ pos (n - 1)),
          times_588_neg (o.position +ℤ pos (n - 1)),
        ))

    not_before : neg_part shifted ≡ 0
    not_before = nonnegative _ (omega (arith, begins, times_588_parts begin, times_588_neg begin))

    not_before_end : neg_part (shifted +ℤ pos (n * 588) +ℤ pos 587) ≡ 0
    not_before_end = nonnegative _ (omega (int_laws, not_before))

    pub physical_of-IsOnDisc : IsOnDisc o n (physical_of R o n)
    unfolding physical_of
    physical_of-IsOnDisc =
        let (q, at_least, below) = div_588-bounds shifted not_before in
        let (e, at_least_end, below_end) =
          div_588-bounds (shifted +ℤ pos (n * 588) +ℤ pos 587) not_before_end in
        let ordered : neg_part (div_588 (shifted +ℤ pos (n * 588) +ℤ pos 587) -ℤ div_588 shifted)
            ≡ 0 =
          nonnegative _ (omega (int_laws, q, e, at_least, below_end, not_before, not_before_end)) in
        let frames = to_size_part _ ordered in
        let behind : neg_part (shifted -ℤ times_588 (div_588 shifted)) ≡ 0 = nonnegative _ (
          omega (
            int_laws,
            q,
            at_least,
            not_before,
            times_588_parts (div_588 shifted),
            times_588_neg (div_588 shifted),
          )) in
        let skip = to_size_part _ behind in
        record {
          not_negative = q;
          first = omega (
            arith,
            q,
            below,
            begins,
            not_before,
            times_588_parts begin,
            times_588_neg begin,
            nonnegative begin fine,
          );
          last = omega (
            int_laws,
            frames,
            q,
            e,
            ordered,
            at_least,
            below,
            at_least_end,
            below_end,
            not_before,
            not_before_end,
            ends,
            times_588_parts end,
            times_588_neg end,
            some_frames,
          );
          sample = eq_of_parts _ _ (
              rw (sym same_offset) (
                omega (
                  int_laws,
                  skip,
                  q,
                  at_least,
                  below,
                  not_before,
                  behind,
                  times_588_parts (div_588 shifted),
                  times_588_neg (div_588 shifted),
                )));
          skip = omega arith;
          skip-lt = omega (
            int_laws,
            skip,
            q,
            at_least,
            below,
            not_before,
            behind,
            times_588_parts (div_588 shifted),
            times_588_neg (div_588 shifted),
          );
          covers = omega (
            int_laws,
            frames,
            q,
            e,
            ordered,
            at_least,
            below,
            at_least_end,
            below_end,
            not_before,
            not_before_end,
            skip,
            q,
            at_least,
            below,
            not_before,
            behind,
            times_588_parts (div_588 shifted),
            times_588_neg (div_588 shifted),
          );
          fewest = omega (
            int_laws,
            frames,
            q,
            e,
            ordered,
            at_least,
            below,
            at_least_end,
            below_end,
            not_before,
            not_before_end,
            skip,
            q,
            at_least,
            below,
            not_before,
            behind,
            times_588_parts (div_588 shifted),
            times_588_neg (div_588 shifted),
          );
        }
