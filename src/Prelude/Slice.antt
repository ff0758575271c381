-- ===== src/Prelude/Slice.antt =====
-- Parts of a stream, which is a function from the index of an entry, and parts of lists.
use Prim.Native.Nat.{ℕ, zero, suc, ◌+◌, ◌-◌, ◌≤◌}
use mathlib.Core.Path.{◌≡◌, refl, ap, ◌∙◌}
use mathlib.Core.List.{List, [], ◌∷◌, ◌++◌}
use native.Mathlib.Omega.{arith}
use picdplayer.Prelude.Lists.{length, take, drop}
use picdplayer.Prelude.Int.{ℤ}

-- `n` entries of a stream, from entry `i` on.
unfoldable pub slice : (ℕ → ℤ) → ℕ → ℕ → List ℤ
slice disc i zero = []
slice disc i (suc n) = disc i ∷ slice disc (suc i) n

module _ (disc : ℕ → ℤ) where
  drop-slice : (k i n j m : ℕ) → j ≡ i + k → n ≡ k + m → drop k (slice disc i n) ≡ slice disc j m
  unfolding slice
  drop-slice zero i n j m e f =
      let same_start : j ≡ i = omega arith in
      let same_length : n ≡ m = omega arith in rw (same_start, same_length) refl
  drop-slice (suc k) i zero j m e f = absurd (omega arith)
  drop-slice (suc k) i (suc n) j m e f = drop-slice k (suc i) n j m (omega arith) (omega arith)

  pub take-slice : (k i n : ℕ) → k ≤ n → take k (slice disc i n) ≡ slice disc i k
  unfolding slice
  take-slice zero i n h = refl
  take-slice (suc k) i zero h = absurd (omega arith)
  take-slice (suc k) i (suc n) h = ap (λ t. disc i ∷ t) (take-slice k (suc i) n (omega arith))

  pub slice-part :
      (k m i n : ℕ) → k + m ≤ n → take m (drop k (slice disc i n)) ≡ slice disc (i + k) m
  slice-part k m i n h =
      ap (take m) (drop-slice k i n (i + k) (n - k) refl (omega arith))
      ∙ take-slice m (i + k) (n - k) (omega arith)

module _ {ℓ} {A : Type ℓ} where
  pub take-append : (xs ys : List A) (n : ℕ) → n ≡ length xs → take n (xs ++ ys) ≡ xs
  take-append [] ys zero e = refl
  take-append [] ys (suc n) e = absurd (omega arith)
  take-append (x ∷ xs) ys zero e = absurd (omega arith)
  take-append (x ∷ xs) ys (suc n) e = ap (λ t. x ∷ t) (take-append xs ys n (omega arith))

  pub drop-append : (xs ys : List A) (n m : ℕ) → n ≡ length xs + m → drop n (xs ++ ys) ≡ drop m ys
  drop-append [] ys n m e = let same : n ≡ m = omega arith in ap (λ k. drop k ys) same
  drop-append (x ∷ xs) ys zero m e = absurd (omega arith)
  drop-append (x ∷ xs) ys (suc n) m e = drop-append xs ys n m (omega arith)

  pub drop-drop : (n m k : ℕ) (xs : List A) → k ≡ n + m → drop m (drop n xs) ≡ drop k xs
  drop-drop zero m k xs e = let same : m ≡ k = omega arith in ap (λ i. drop i xs) same
  drop-drop (suc n) zero zero [] e = refl
  drop-drop (suc n) zero (suc k) [] e = refl
  drop-drop (suc n) (suc m) zero [] e = refl
  drop-drop (suc n) (suc m) (suc k) [] e = refl
  drop-drop (suc n) m zero (x ∷ xs) e = absurd (omega arith)
  drop-drop (suc n) m (suc k) (x ∷ xs) e = drop-drop n m k xs (omega arith)

  pub take-drop : (n : ℕ) (xs : List A) → take n xs ++ drop n xs ≡ xs
  take-drop zero xs = refl
  take-drop (suc n) [] = refl
  take-drop (suc n) (x ∷ xs) = ap (λ t. x ∷ t) (take-drop n xs)

  pub append_assoc : (xs ys zs : List A) → (xs ++ ys) ++ zs ≡ xs ++ (ys ++ zs)
  append_assoc [] ys zs = refl
  append_assoc (x ∷ xs) ys zs = ap (λ t. x ∷ t) (append_assoc xs ys zs)

pub length-slice : (disc : ℕ → ℤ) (i n : ℕ) → length (slice disc i n) ≡ n
unfolding slice
length-slice disc i zero = refl
length-slice disc i (suc n) = ap suc (length-slice disc (suc i) n)

pub slice-append :
    (disc : ℕ → ℤ) (i n j m k : ℕ)
    → j ≡ i + n
    → k ≡ n + m
    → slice disc i n ++ slice disc j m ≡ slice disc i k
unfolding slice
slice-append disc i zero j m k e f =
    let same_start : j ≡ i = omega arith in
    let same_length : m ≡ k = omega arith in rw (same_start, same_length) refl
slice-append disc i (suc n) j m zero e f = absurd (omega arith)
slice-append disc i (suc n) j m (suc k) e f =
    ap (λ t. disc i ∷ t) (slice-append disc (suc i) n j m k (omega arith) (omega arith))

module _ {ℓ} {A : Type ℓ} where
  drop-length : (xs : List A) → drop (length xs) xs ≡ []
  drop-length [] = refl
  drop-length (x ∷ xs) = drop-length xs

  pub append_nil : (xs : List A) → xs ++ [] ≡ xs
  append_nil [] = refl
  append_nil (x ∷ xs) = ap (λ t. x ∷ t) (append_nil xs)

pub append-drop : (xs ys : List ℤ) → xs ++ drop (length ys) ys ≡ xs
append-drop xs ys = ap (λ t. xs ++ t) (drop-length ys) ∙ append_nil xs
