-- ===== src/Offset/Window.antt =====
-- make_read_offset_window: which blocks can be read in full after the shift.
use picdplayer.Prelude.{
  ◌+◌, ◌*◌, ◌≤◌, ◌<◌, ◌≡◌, refl, ℤ, pos, negsuc, pos_part, neg_part, ◌+ℤ◌, ◌-ℤ◌, ◌≤ℤ◌, ◌<ℤ◌,
  clamp_ℤ, arith, int_laws, clamp_ℤ-bounds, ◌↔◌, ◌⊎◌, inl, inr,
}
use picdplayer.Offset.{window_of, times_588, div_588}

pub times_588_parts : (x : ℤ) → pos_part (times_588 x) ≡ pos_part x * 588
unfolding times_588
times_588_parts (pos n) = refl
times_588_parts (negsuc n) = ground arith

pub times_588_neg : (x : ℤ) → neg_part (times_588 x) ≡ neg_part x * 588
unfolding times_588
times_588_neg (pos n) = refl
times_588_neg (negsuc n) = ground arith

-- On what is not negative, the quotient's bounds.
pub div_588-bounds :
    (x : ℤ)
    → neg_part x ≡ 0
    → (neg_part (div_588 x) ≡ 0)
      × (pos_part (div_588 x) * 588 ≤ pos_part x)
      × (pos_part x < pos_part (div_588 x) * 588 + 588)
unfolding div_588
div_588-bounds (pos n) h = (refl, omega arith, omega arith)
div_588-bounds (negsuc n) h = absurd (ground arith)

pub nonnegative : (x : ℤ) → pos 0 ≤ℤ x → neg_part x ≡ 0
nonnegative (pos n) h = refl
nonnegative (negsuc n) h = absurd (ground arith)

-- Rounding up and down against a frame number.
pub ceil_588 :
    (x : ℤ) → neg_part x ≡ 0 → (lba : ℤ) → (div_588 (x +ℤ pos 587) ≤ℤ lba) ↔ (x ≤ℤ times_588 lba)
ceil_588 x fine lba =
    let more : neg_part (x +ℤ pos 587) ≡ 0 = nonnegative _ (omega (int_laws, fine)) in
    let (a, b, c) = div_588-bounds (x +ℤ pos 587) more in
    (
      λ h. omega (int_laws, a, b, c, h, fine, more, times_588_parts lba, times_588_neg lba),
      λ h. omega (int_laws, a, b, c, h, fine, more, times_588_parts lba, times_588_neg lba),
    )

pub floor_588 :
    (x : ℤ) → neg_part x ≡ 0 → (lba : ℤ) → (lba <ℤ div_588 x) ↔ (times_588 lba +ℤ pos 588 ≤ℤ x)
floor_588 x fine lba =
    let (a, b, c) = div_588-bounds x fine in
    (
      λ h. omega (int_laws, a, b, c, h, fine, times_588_parts lba, times_588_neg lba),
      λ h. omega (int_laws, a, b, c, h, fine, times_588_parts lba, times_588_neg lba),
    )

pub times_588-mono : (a b : ℤ) → a ≤ℤ b → times_588 a ≤ℤ times_588 b
times_588-mono a b h =
    omega (arith, times_588_parts a, times_588_neg a, times_588_parts b, times_588_neg b)

module _ (x lo hi : ℤ) (range : lo ≤ℤ hi) where
  clamp_ℤ-least : (n : ℤ) → (clamp_ℤ x lo hi ≤ℤ n) ↔ ((lo ≤ℤ n) × ((x ≤ℤ n) ⊎ (hi ≤ℤ n)))
  clamp_ℤ-least n = ground arith

  clamp_ℤ-greatest : (n : ℤ) → (n ≤ℤ clamp_ℤ x lo hi) ↔ ((n ≤ℤ hi) × ((n ≤ℤ x) ⊎ (n ≤ℤ lo)))
  clamp_ℤ-greatest n = ground arith

-- A block as long as a frame at `lba` has its shifted samples on the disc.
pub record IsCorrectable (begin end offset lba : ℤ) : Type 0 where
  pub on_disc : begin ≤ℤ lba
  pub before_end : lba <ℤ end
  pub first : times_588 begin ≤ℤ times_588 lba +ℤ offset
  pub last : times_588 lba +ℤ offset +ℤ pos 588 ≤ℤ times_588 end

module _ (begin end offset : ℤ) (fine : pos 0 ≤ℤ begin) (some_frames : begin <ℤ end) (lba : ℤ) where
  abbrev first_sample : ℤ
  first_sample = times_588 begin

  abbrev last_sample : ℤ
  last_sample = times_588 end

  abbrev cut_begin : ℤ
  cut_begin = clamp_ℤ (first_sample -ℤ offset) first_sample last_sample

  abbrev cut_end : ℤ
  cut_end = clamp_ℤ (last_sample -ℤ offset) first_sample last_sample

  ordered : first_sample ≤ℤ last_sample
  ordered =
      omega
        (arith, times_588_parts begin, times_588_neg begin, times_588_parts end, times_588_neg end)

  cut_begin-lt : (first_sample ≤ℤ cut_begin) × (cut_begin ≤ℤ last_sample)
  cut_begin-lt = clamp_ℤ-bounds (first_sample -ℤ offset) first_sample last_sample ordered

  cut_end-lt : (first_sample ≤ℤ cut_end) × (cut_end ≤ℤ last_sample)
  cut_end-lt = clamp_ℤ-bounds (last_sample -ℤ offset) first_sample last_sample ordered

  at_least : (x : ℤ) → first_sample ≤ℤ x → neg_part x ≡ 0
  at_least x h = nonnegative x (omega (arith, times_588_parts begin, times_588_neg begin))

  IsShifted : Type 0
  IsShifted =
      ((first_sample ≤ℤ times_588 lba)
        × ((first_sample -ℤ offset ≤ℤ times_588 lba) ⊎ (last_sample ≤ℤ times_588 lba)))
      × ((times_588 lba +ℤ pos 588 ≤ℤ last_sample)
          × ((times_588 lba +ℤ pos 588 ≤ℤ last_sample -ℤ offset)
              ⊎ (times_588 lba +ℤ pos 588 ≤ℤ first_sample)))

  IsShifted-IsCorrectable : IsShifted → IsCorrectable begin end offset lba
  unfolding IsShifted
  IsShifted-IsCorrectable ((a, inr over), (b, d)) = absurd (omega (int_laws, over, b))
  IsShifted-IsCorrectable ((a, inl c), (b, inr under)) = absurd (omega (int_laws, a, under))
  IsShifted-IsCorrectable ((a, inl c), (b, inl d)) = record {
    on_disc = omega (
      int_laws,
      a,
      times_588_parts lba,
      times_588_neg lba,
      times_588_parts begin,
      times_588_neg begin,
    );
    before_end = omega (
      int_laws,
      b,
      times_588_parts lba,
      times_588_neg lba,
      times_588_parts end,
      times_588_neg end,
    );
    first = omega (int_laws, c);
    last = omega (int_laws, d);
  }

  IsCorrectable-IsShifted : IsCorrectable begin end offset lba → IsShifted
  unfolding IsShifted
  IsCorrectable-IsShifted c = (
    (times_588-mono begin lba c.on_disc, inl (omega (int_laws, c.first))),
    (
      omega (
        int_laws,
        c.before_end,
        times_588_parts lba,
        times_588_neg lba,
        times_588_parts end,
        times_588_neg end,
      ),
      inl (omega (int_laws, c.last)),
    ),
  )

  -- The playable window of an audio range holds exactly the frames of the range whose 588 shifted samples all lie in the range.
  pub window_of-IsCorrectable :
      (((window_of begin end offset).playable_begin_lba ≤ℤ lba)
        × (lba <ℤ (window_of begin end offset).playable_end_lba))
      ↔ IsCorrectable begin end offset lba
  unfolding window_of IsShifted
  window_of-IsCorrectable =
      let from_low = ceil_588 cut_begin (at_least cut_begin cut_begin-lt.0) lba in
      let from_high = floor_588 cut_end (at_least cut_end cut_end-lt.0) lba in
      let least =
        clamp_ℤ-least (first_sample -ℤ offset) first_sample last_sample ordered (times_588 lba) in
      let greatest =
        clamp_ℤ-greatest (last_sample -ℤ offset) first_sample last_sample ordered
          (times_588 lba +ℤ pos 588) in
      (
        λ h. IsShifted-IsCorrectable (least.0 (from_low.0 h.0), greatest.0 (from_high.0 h.1)),
        λ c. (
          from_low.1 (least.1 (IsCorrectable-IsShifted c).0),
          from_high.1 (greatest.1 (IsCorrectable-IsShifted c).1),
        ),
      )
