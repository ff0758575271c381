-- ===== src/Prelude/Int.antt =====
-- Signed integers over the native numbers: the source's int32_t and int64_t values whose arithmetic
-- does not wrap. Sums and orders go through the two parts of an integer.
use Prim.Native.Nat.{ℕ, suc, ◌+◌, ◌-◌, ◌≤◌, ◌<◌}
use mathlib.Core.Path.{◌≡◌, sym}
use mathlib.Core.Logic.{inl, inr}
use mathlib.Core.Bool.{Bool, false}
use native.Mathlib.Omega.{arith}
use picdplayer.Prelude.Tests.{ltb, leb, ◌==◌, if◌then◌else◌, ltb→lt, Bool-cases}

-- `negsuc n` is -(n + 1).
pub data ℤ : Type 0 where
  pos : ℕ → ℤ
  negsuc : ℕ → ℤ

abbrev pub pos_part : ℤ → ℕ
pos_part (pos n) = n
pos_part (negsuc n) = 0

abbrev pub neg_part : ℤ → ℕ
neg_part (pos n) = 0
neg_part (negsuc n) = suc n

-- a - b, as an integer.
abbrev pub sub_ℕ : ℕ → ℕ → ℤ
sub_ℕ a b = if leb b a then pos (a - b) else negsuc (b - a - 1)

infixl 65 ◌+ℤ◌ ◌-ℤ◌
infix 50 ◌≤ℤ◌ ◌<ℤ◌ ◌==ℤ◌
unfoldable pub ◌+ℤ◌ : ℤ → ℤ → ℤ
a +ℤ b = sub_ℕ (pos_part a + pos_part b) (neg_part a + neg_part b)

unfoldable pub ◌-ℤ◌ : ℤ → ℤ → ℤ
a -ℤ b = sub_ℕ (pos_part a + neg_part b) (neg_part a + pos_part b)

abbrev pub ◌≤ℤ◌ : ℤ → ℤ → Type 0
a ≤ℤ b = pos_part a + neg_part b ≤ pos_part b + neg_part a

abbrev pub ◌<ℤ◌ : ℤ → ℤ → Type 0
a <ℤ b = pos_part a + neg_part b < pos_part b + neg_part a

abbrev pub ltb_ℤ : ℤ → ℤ → Bool
ltb_ℤ a b = ltb (pos_part a + neg_part b) (pos_part b + neg_part a)

abbrev pub leb_ℤ : ℤ → ℤ → Bool
leb_ℤ a b = leb (pos_part a + neg_part b) (pos_part b + neg_part a)

abbrev pub ◌==ℤ◌ : ℤ → ℤ → Bool
a ==ℤ b = pos_part a + neg_part b == pos_part b + neg_part a

abbrev pub max_ℤ : ℤ → ℤ → ℤ
max_ℤ a b = if ltb_ℤ a b then b else a

abbrev pub min_ℤ : ℤ → ℤ → ℤ
min_ℤ a b = if ltb_ℤ b a then b else a

-- std::clamp
abbrev pub clamp_ℤ : ℤ → ℤ → ℤ → ℤ
clamp_ℤ x lo hi = if ltb_ℤ x lo then lo else if ltb_ℤ hi x then hi else x

pub +ℤ_parts :
    (a b : ℤ)
    → pos_part (a +ℤ b) + neg_part a + neg_part b ≡ neg_part (a +ℤ b) + pos_part a + pos_part b
unfolding ◌+ℤ◌
+ℤ_parts a b = ground arith

pub -ℤ_parts :
    (a b : ℤ)
    → pos_part (a -ℤ b) + neg_part a + pos_part b ≡ neg_part (a -ℤ b) + pos_part a + neg_part b
unfolding ◌-ℤ◌
-ℤ_parts a b = ground arith

pub eq_of_parts : (a b : ℤ) → pos_part a + neg_part b ≡ pos_part b + neg_part a → a ≡ b
eq_of_parts a b h = ground arith

pub ruleset int_laws = (arith, +ℤ_parts, -ℤ_parts, eq_of_parts)

module _ (x lo hi : ℤ) (range : lo ≤ℤ hi) where
  pub clamp_ℤ-bounds : (lo ≤ℤ clamp_ℤ x lo hi) × (clamp_ℤ x lo hi ≤ℤ hi)
  clamp_ℤ-bounds = ground arith

  pub clamp_ℤ-low : x ≤ℤ lo → clamp_ℤ x lo hi ≡ lo
  clamp_ℤ-low h = eq_of_parts _ _ (ground arith)

  pub clamp_ℤ-high : hi ≤ℤ x → clamp_ℤ x lo hi ≡ hi
  clamp_ℤ-high h = eq_of_parts _ _ (ground arith)

-- Clamping a delta to a range, and then the sum to a part of the range, is one clamp of the sum.
pub clamp_ℤ-delta :
    (p f first last lo hi : ℤ)
    → first ≤ℤ lo
    → lo ≤ℤ hi
    → hi ≤ℤ last
    → clamp_ℤ (p +ℤ clamp_ℤ f (first -ℤ p) (last -ℤ p)) lo hi ≡ clamp_ℤ (p +ℤ f) lo hi
clamp_ℤ-delta p f first last lo hi a b c = elim (Bool-cases (ltb_ℤ f (first -ℤ p))) [
  | inl low ↦
      rw (low, clamp_ℤ-low (p +ℤ (first -ℤ p)) lo hi b (omega int_laws))
        (sym (clamp_ℤ-low (p +ℤ f) lo hi b (omega (int_laws, ltb→lt _ _ low))))
  | inr above ↦ rw above (elim (Bool-cases (ltb_ℤ (last -ℤ p) f)) [
    | inl high ↦
        rw (high, clamp_ℤ-high (p +ℤ (last -ℤ p)) lo hi b (omega int_laws))
          (sym (clamp_ℤ-high (p +ℤ f) lo hi b (omega (int_laws, ltb→lt _ _ high))))
    | inr below ↦ rw below
  ])
]

pub min-max_room :
    (a lo b hi : ℤ)
    → a <ℤ b
    → a <ℤ hi
    → lo <ℤ b
    → lo <ℤ hi
    → leb_ℤ (min_ℤ b hi) (max_ℤ a lo) ≡ false
min-max_room a lo b hi p q r s = ground arith

-- A number from 0 on, with a natural number more.
pub add_pos :
    (x : ℤ) (n : ℕ)
    → neg_part x ≡ 0
    → (neg_part (x +ℤ pos n) ≡ 0) × (pos_part (x +ℤ pos n) ≡ pos_part x + n)
unfolding ◌+ℤ◌
add_pos x n h = (ground arith, ground arith)
