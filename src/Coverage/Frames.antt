-- ===== src/Coverage/Frames.antt =====
-- The set of CD frames that the regions cover, and its size.
use picdplayer.Prelude.{
  ℕ, zero, suc, ◌+◌, ◌-◌, ◌≤◌, ◌<◌, ◌≡◌, refl, sym, Bool, true, false, ◌&&◌, ◌||◌, List, [], ◌∷◌,
  ltb, leb, if◌then◌else◌, min, arith,
}
use picdplayer.Reader.{int32_max}
use picdplayer.Coverage.{Region, union}
use picdplayer.Coverage.Splice.{merge, insert}
use picdplayer.Coverage.Invariant.{Separated, total}

abbrev pub inside : ℕ → Region → Bool
inside x r = leb r.begin x && ltb x r.end

abbrev pub covered : ℕ → List Region → Bool
covered x [] = false
covered x (r ∷ rs) = inside x r || covered x rs

covered-merge :
    (x lo : ℕ) (m : Region) (rs : List Region)
    → m.begin ≤ lo
    → m.begin < m.end
    → Separated lo rs
    → covered x (merge m rs) ≡ (inside x m || covered x rs)
unfolding merge
covered-merge x lo m [] h k s = refl
covered-merge x lo m (r ∷ rs) h k s = ground (arith, covered-merge x (suc r.end) (union m r) rs)

pub covered-insert :
    (x lo : ℕ) (m : Region) (rs : List Region)
    → m.begin < m.end
    → Separated lo rs
    → covered x (insert m rs) ≡ (inside x m || covered x rs)
unfolding insert merge
covered-insert x lo m [] k s = refl
covered-insert x lo m (r ∷ rs) k s =
    ground (arith, covered-insert x (suc r.end) m rs, covered-merge x (suc r.end) (union m r) rs)

-- How many of the numbers below `n` pass the test.
unfoldable pub count_below : ℕ → (ℕ → Bool) → ℕ
count_below zero p = 0
count_below (suc n) p = (if p n then 1 else 0) + count_below n p

pub count_below_mono :
    (n : ℕ) (p q : ℕ → Bool)
    → ((x : ℕ) → p x ≡ true → q x ≡ true)
    → count_below n p ≤ count_below n q
unfolding count_below
count_below_mono zero p q h = omega arith
count_below_mono (suc n) p q h = ground (arith, h n, count_below_mono n p q h)

pub count_below-ext :
    (n : ℕ) (p q : ℕ → Bool) → ((x : ℕ) → p x ≡ q x) → count_below n p ≡ count_below n q
unfolding count_below
count_below-ext zero p q h = refl
count_below-ext (suc n) p q h = ground (arith, h n, count_below-ext n p q h)

pub count_below-or_le :
    (n : ℕ) (p q : ℕ → Bool) → count_below n (λ x. p x || q x) ≤ count_below n p + count_below n q
unfolding count_below
count_below-or_le zero p q = omega arith
count_below-or_le (suc n) p q = ground (arith, count_below-or_le n p q)

count_below-or :
    (n : ℕ) (p q : ℕ → Bool)
    → ((x : ℕ) → (p x && q x) ≡ false)
    → count_below n (λ x. p x || q x) ≡ count_below n p + count_below n q
unfolding count_below
count_below-or zero p q h = omega arith
count_below-or (suc n) p q h = ground (arith, h n, count_below-or n p q h)

count_below-inside :
    (n : ℕ) (r : Region) → count_below n (λ x. inside x r) ≡ min n r.end - min n r.begin
unfolding count_below
count_below-inside zero r = omega arith
count_below-inside (suc n) r = ground (arith, count_below-inside n r)

covered-above : (x lo : ℕ) (rs : List Region) → Separated lo rs → x < lo → covered x rs ≡ false
covered-above x lo [] s h = refl
covered-above x lo (r ∷ rs) s h = ground (arith, covered-above x (suc r.end) rs)

inside-covered-apart :
    (x : ℕ) (r : Region) (rs : List Region)
    → Separated (suc r.end) rs
    → (inside x r && covered x rs) ≡ false
inside-covered-apart x r rs s = ground (arith, covered-above x (suc r.end) rs)

pub count_below-false : (n : ℕ) → count_below n (λ x. false) ≡ 0
unfolding count_below
count_below-false zero = refl
count_below-false (suc n) = omega (arith, count_below-false n)

-- The total length of the regions is the number of frames that they cover.
pub total-count :
    (lo : ℕ) (rs : List Region)
    → Separated lo rs
    → total rs ≡ count_below int32_max (λ x. covered x rs)
total-count lo [] s = sym (count_below-false int32_max)
total-count lo (r ∷ rs) s = omega (
  arith,
  count_below-or int32_max (λ x. inside x r) (λ x. covered x rs)
      (λ x. inside-covered-apart x r rs s.3),
  count_below-inside int32_max r,
  total-count (suc r.end) rs s.3,
)
