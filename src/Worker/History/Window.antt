-- ===== src/Worker/History/Window.antt =====
-- The ring of the last reads, as the list of the last 128.
use picdplayer.Prelude.{
  ℕ, zero, suc, ◌+◌, ◌-◌, ◌%◌, ◌^◌, ◌≤◌, ◌<◌, ◌≡◌, ◌≢◌, refl, sym, ap, ◌∙◌, true, false, List, [],
  ◌∷◌, ◌++◌, if◌then◌else◌, ◌==◌, ltb, length, length-append, drop, length-drop, arith, Bool-cases,
  inl, inr,
}
use mathlib.Core.Path.{ap₂}
use mathlib.Core.List.{append-nil}
use picdplayer.Prelude.Slice.{drop-drop, append_assoc}
use picdplayer.Worker.History.{
  Ring, put_slot, cleared, make_room, put_back, remember, entries, recent_reads,
  read_history_capacity,
}

module _ {ℓ} {A : Type ℓ} where
  unfoldable pub remember_all : Ring A → List A → Ring A
  remember_all r [] = r
  remember_all r (a ∷ rest) = remember_all (remember r a) rest

  -- The last 128 of a list.
  abbrev pub last_reads : List A → List A
  last_reads xs = drop (length xs - read_history_capacity) xs

  abbrev IsRing : Ring A → Type 0
  IsRing r = (r.begin < 128) × (r.size ≤ 128)

  entries-mod :
      (slots : ℕ → A) (i j n : ℕ) → i % 128 ≡ j % 128 → entries slots i n ≡ entries slots j n
  unfolding entries
  entries-mod slots i j zero e = refl
  entries-mod slots i j (suc n) e = rw (e, entries-mod slots (suc i) (suc j) n (omega arith)) refl

  entries-snoc :
      (slots : ℕ → A) (i n : ℕ)
      → entries slots i (suc n) ≡ entries slots i n ++ (slots ((i + n) % 128) ∷ [])
  unfolding entries
  entries-snoc slots i zero = ap (λ k. slots (k % 128) ∷ []) (omega arith)
  entries-snoc slots i (suc n) =
      ap (λ rest. slots (i % 128) ∷ rest)
        (entries-snoc slots (suc i) n
          ∙ ap (λ k. entries slots (suc i) n ++ (slots (k % 128) ∷ [])) (omega arith))

  put_slot-other : (slots : ℕ → A) (i j : ℕ) (a : A) → j ≢ i → put_slot slots i a j ≡ slots j
  put_slot-other slots i j a h = ground arith

  entries-put :
      (slots : ℕ → A) (i n k : ℕ) (a : A)
      → n + k < 128
      → entries (put_slot slots ((i + n + k) % 128) a) i n ≡ entries slots i n
  unfolding entries
  entries-put slots i zero k a h = refl
  entries-put slots i (suc n) k a h =
      ap₂ ◌∷◌ (put_slot-other slots ((i + suc n + k) % 128) (i % 128) a (λ e. omega arith)) (
        ap (λ j. entries (put_slot slots (j % 128) a) (suc i) n) (omega arith)
        ∙ entries-put slots (suc i) n k a (omega arith))

  put_back-recent :
      (r : Ring A) (a : A) → r.size < 128 → recent_reads (put_back r a) ≡ recent_reads r ++ (a ∷ [])
  unfolding recent_reads
  put_back-recent r a h =
      let slots : ℕ → A = put_slot r.slots ((r.begin + r.size) % 128) a in
      let written : slots ((r.begin + r.size) % 128) ≡ a = ground arith in
      let others : entries slots r.begin r.size ≡ entries r.slots r.begin r.size =
        ap (λ j. entries (put_slot r.slots (j % 128) a) r.begin r.size) (omega arith)
        ∙ entries-put r.slots r.begin r.size 0 a (omega (arith, h)) in
      let more : r.size + 1 ≡ suc r.size = omega arith in
      ap (entries slots r.begin) more
      ∙ entries-snoc slots r.begin r.size
      ∙ ap₂ (λ xs x. xs ++ (x ∷ [])) others written

  make_room-recent :
      (r : Ring A)
      → recent_reads (make_room r)
        ≡ (if r.size == 128 then drop 1 (recent_reads r) else recent_reads r)
  unfolding recent_reads
  make_room-recent r = elim (Bool-cases (r.size == 128)) [
    | inl full ↦ rw full (
        let size : r.size ≡ 128 = ground (arith, full) in
        rw size (entries-mod r.slots ((r.begin + 1) % 128) (suc r.begin) 127 (omega arith)))
    | inr room ↦ rw room refl
  ]

  IsRing-remember : (r : Ring A) (a : A) → IsRing r → IsRing (remember r a)
  unfolding remember
  IsRing-remember r a v = ground arith

  entries-length : (slots : ℕ → A) (i n : ℕ) → length (entries slots i n) ≡ n
  unfolding entries
  entries-length slots i zero = refl
  entries-length slots i (suc n) = ap suc (entries-length slots (suc i) n)

  remember-recent :
      (r : Ring A) (a : A)
      → IsRing r
      → recent_reads (remember r a)
        ≡ (if length (recent_reads r) == 128 then drop 1 (recent_reads r) else recent_reads r)
          ++ (a ∷ [])
  unfolding remember recent_reads
  remember-recent r a v =
      put_back-recent (make_room r) a (ground arith)
      ∙ ap (λ xs. xs ++ (a ∷ []))
          (make_room-recent r ∙ rw (entries-length r.slots r.begin r.size) refl)

  drop-append_le : (n : ℕ) (xs ys : List A) → n ≤ length xs → drop n (xs ++ ys) ≡ drop n xs ++ ys
  drop-append_le zero xs ys h = refl
  drop-append_le (suc n) [] ys h = absurd (omega arith)
  drop-append_le (suc n) (x ∷ xs) ys h = drop-append_le n xs ys (omega arith)

  last_reads-snoc :
      (xs : List A) (a : A)
      → (if length (last_reads xs) == 128 then drop 1 (last_reads xs) else last_reads xs)
          ++ (a ∷ [])
        ≡ last_reads (xs ++ (a ∷ []))
  last_reads-snoc xs a = elim (Bool-cases (ltb (length xs) 128)) [
    | inl few ↦
        (let fits : length xs < 128 = ground (arith, few) in
          let none_over : length xs - 128 ≡ 0 = omega (arith, fits) in
          let none_over_then : length (xs ++ (a ∷ [])) - 128 ≡ 0 =
            omega (arith, fits, length-append xs (a ∷ [])) in
          let not_full : (length xs == 128) ≡ false = ground (arith, fits) in
          rw (none_over, none_over_then, not_full) refl)
    | inr many ↦
        (let over : 128 ≤ length xs = ground (arith, many) in
          let full : (length (last_reads xs) == 128) ≡ true =
            ground (arith, over, length-drop (length xs - 128) xs) in
          let left : ℕ = length xs - 128 in
          let one_more : length (xs ++ (a ∷ [])) - 128 ≡ left + 1 =
            omega (arith, over, length-append xs (a ∷ [])) in
          rw (full, one_more)
            (ap (λ ys. ys ++ (a ∷ [])) (drop-drop left 1 (left + 1) xs refl)
              ∙ sym (drop-append_le (left + 1) xs (a ∷ []) (omega (arith, over)))))
  ]

  remember-evicted :
      (r : Ring A) (a : A) (n : ℕ)
      → r.size ≡ n - (n - 128)
      → r.evicted ≡ (n - 128) % 2 ^ 64
      → (remember r a).evicted ≡ (n + 1 - 128) % 2 ^ 64
  unfolding remember
  remember-evicted r a n size e = ground arith

  remember_all-last :
      (xs seen : List A) (r : Ring A)
      → IsRing r
      → recent_reads r ≡ last_reads seen
      → r.evicted ≡ (length seen - 128) % 2 ^ 64
      → (recent_reads (remember_all r xs) ≡ last_reads (seen ++ xs))
        × ((remember_all r xs).evicted ≡ (length (seen ++ xs) - 128) % 2 ^ 64)
  unfolding remember_all recent_reads
  remember_all-last [] seen r v e f = rw (append-nil seen) (e, f)
  remember_all-last (x ∷ xs) seen r v e f =
      let kept =
        remember-recent r x v
        ∙ ap (λ ys. (if length ys == 128 then drop 1 ys else ys) ++ (x ∷ [])) e
        ∙ last_reads-snoc seen x in
      let size : r.size ≡ length seen - (length seen - 128) =
        sym (entries-length r.slots r.begin r.size)
        ∙ ap length e
        ∙ length-drop (length seen - 128) seen in
      let counted : (remember r x).evicted ≡ (length (seen ++ (x ∷ [])) - 128) % 2 ^ 64 =
        remember-evicted r x (length seen) size f
        ∙ ap (λ (n : ℕ). (n - 128) % 2 ^ 64) (omega (arith, length-append seen (x ∷ []))) in
      rw (← append_assoc seen (x ∷ []) xs) (
        remember_all-last xs (seen ++ (x ∷ [])) (remember r x) (IsRing-remember r x v) kept counted)

  -- From a cleared ring on, whatever its slots hold: the history that status copies is the list of the
  -- last 128 remembered reads, the oldest first, and the reads that are gone are counted, modulo 2 ^ 64.
  pub remember_all-last_reads :
      (r : Ring A) (xs : List A)
      → (recent_reads (remember_all (cleared r) xs) ≡ last_reads xs)
        × ((remember_all (cleared r) xs).evicted ≡ (length xs - 128) % 2 ^ 64)
  unfolding recent_reads entries
  remember_all-last_reads r xs = remember_all-last xs [] (cleared r) (omega arith) refl refl
