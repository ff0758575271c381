-- ===== src/Metadata/Stale.antt =====
-- MetadataSession: an answer is applied only while the request that it answers is current.
use picdplayer.Prelude.{
  ℕ, ◌+◌, ◌≤◌, ◌<◌, ◌%◌, ◌^◌, ◌≡◌, refl, ap, sym, ◌∙◌, Bool, true, false, not, ◌&&◌, ◌||◌, ◌⊎◌, inl,
  inr, Option, none, some, List, [], ◌∷◌, ℤ, if-both, ltb, ◌==◌, length, arith, eq_of_parts,
}
use mathlib.Core.Path.{ap₂}
use picdplayer.Toc.{Track, DiscToc}
use picdplayer.Metadata.{
  MetadataSession, MetadataRequest, MetadataWorkerResult, ArtworkInfo, begin, invalidate,
  begin_if_needed, apply, select_candidate, decline_candidates, apply_artwork, same_toc,
  same_entries, holds, is_other, is_choice, has_toc, is_selected,
}

pub data Event : Type 0 where
  begins begins_if_needed : DiscToc → Event
  invalidates : Event
  applies : MetadataWorkerResult → Event
  selects : ℕ → ℕ → Event
  declines : ℕ → Event
  applies_artwork : ℕ → List ℕ → ArtworkInfo → Event

unfoldable pub step : MetadataSession → Event → MetadataSession
unfolding begin invalidate begin_if_needed apply select_candidate decline_candidates apply_artwork
step s (begins toc) = (begin s toc).0
step s (begins_if_needed toc) = (begin_if_needed s toc).0
step s invalidates = invalidate s
step s (applies r) = (apply s r).0
step s (selects generation index) = (select_candidate s generation index).0
step s (declines generation) = (decline_candidates s generation).0
step s (applies_artwork generation id artwork) = (apply_artwork s generation id artwork).0

unfoldable pub run : MetadataSession → List Event → MetadataSession
unfolding step
run s [] = s
run s (e ∷ es) = run (step s e) es

-- The event starts no request and drops none.
pub Keeps : MetadataSession → Event → Type 0
Keeps s (begins toc) = ⊥
Keeps s (begins_if_needed toc) = holds s.toc toc ≡ true
Keeps s invalidates = ⊥
Keeps s _ = Unit {0}

pub AllKeep : MetadataSession → List Event → Type 0
AllKeep s [] = Unit {0}
AllKeep s (e ∷ es) = Keeps s e × AllKeep (step s e) es

Kept : MetadataSession → MetadataSession → Type 0
Kept s t = (t.generation ≡ s.generation) × (t.toc ≡ s.toc)

Moved : MetadataSession → MetadataSession → Type 0
Moved s t = t.generation ≡ (s.generation + 1) % 2 ^ 64

-- A step keeps generation and disc, or moves to the next generation.
step-cases :
    (s : MetadataSession) (e : Event) → (Keeps s e × Kept s (step s e)) ⊎ Moved s (step s e)
unfolding step begin_if_needed apply select_candidate decline_candidates apply_artwork Keeps Kept
    Moved
step-cases s (begins toc) = inr refl
step-cases s (begins_if_needed toc) =
    if-both
      (λ (x : MetadataSession × Option MetadataRequest).
        ((holds s.toc toc ≡ true) × Kept s x.0) ⊎ Moved s x.0)
      (holds s.toc toc) (λ same. inl (same, (refl, refl))) (λ _. inr refl)
step-cases s invalidates = inr refl
step-cases s (applies r) = inl (
  tt,
  if-both (λ (x : MetadataSession × Bool). Kept s x.0)
      (not (r.generation == s.generation) || is_other r.toc s.toc) (λ _. (refl, refl))
      (λ _. (refl, refl)),
)
step-cases s (selects generation index) = inl (
  tt,
  if-both (λ (x : MetadataSession × Bool). Kept s x.0)
      (is_choice s generation && ltb index (length s.snapshot.candidates)) (λ _. (refl, refl))
      (λ _. (refl, refl)),
)
step-cases s (declines generation) = inl (
  tt,
  if-both (λ (x : MetadataSession × Bool). Kept s x.0) (is_choice s generation) (λ _. (refl, refl))
      (λ _. (refl, refl)),
)
step-cases s (applies_artwork generation id artwork) = inl (
  tt,
  if-both (λ (x : MetadataSession × Bool). Kept s x.0)
      ((generation == s.generation) && has_toc s && is_selected s.snapshot id) (λ _. (refl, refl))
      (λ _. (refl, refl)),
)

-- The generation never falls while the counter does not wrap.
run-le :
    (s : MetadataSession) (es : List Event)
    → length es + s.generation < 2 ^ 64
    → s.generation ≤ (run s es).generation
unfolding run Kept Moved
run-le s [] h = omega arith
run-le s (e ∷ es) h = elim (step-cases s e) [
  | inl (_, (same, _)) ↦ omega (arith, same, run-le (step s e) es (omega arith))
  | inr next ↦ omega (arith, next, run-le (step s e) es (omega arith))
]

run-AllKeep :
    (s : MetadataSession) (es : List Event)
    → length es + s.generation < 2 ^ 64
    → (run s es).generation ≡ s.generation
    → AllKeep s es × ((run s es).toc ≡ s.toc)
unfolding run AllKeep Kept Moved
run-AllKeep s [] h same = (tt, refl)
run-AllKeep s (e ∷ es) h same = elim (step-cases s e) [
  | inl (keeps, (here, toc)) ↦
      let (all, later) = run-AllKeep (step s e) es (omega arith) (omega (arith, here, same)) in
      ((keeps, all), later ∙ toc)
  | inr next ↦ absurd (omega (arith, next, same, run-le (step s e) es (omega arith)))
]

abbrev entry : ℤ → ℤ → ℤ → Track
entry number start long = record { number = number; start_lba = start; length_frames = long }

same_entries-eq : (xs ys : List Track) → same_entries xs ys ≡ true → xs ≡ ys
unfolding same_entries
same_entries-eq [] [] h = refl
same_entries-eq [] (y ∷ ys) h = cc
same_entries-eq (x ∷ xs) [] h = cc
same_entries-eq (x ∷ xs) (y ∷ ys) h =
    let numbers : x.number ≡ y.number = eq_of_parts _ _ (ground arith) in
    let starts : x.start_lba ≡ y.start_lba = eq_of_parts _ _ (ground arith) in
    let lengths : x.length_frames ≡ y.length_frames = eq_of_parts _ _ (ground arith) in
    let entries : entry x.number x.start_lba x.length_frames
        ≡ entry y.number y.start_lba y.length_frames =
      rw (numbers, starts, lengths) refl in
    let rest : xs ≡ ys = same_entries-eq xs ys (ground arith) in ap₂ (λ a as'. a ∷ as') entries rest

same_toc-eq : (l r : DiscToc) → same_toc l r ≡ true → l ≡ r
unfolding same_toc
same_toc-eq l r h =
    let leadouts : l.leadout_lba ≡ r.leadout_lba = eq_of_parts _ _ (ground arith) in
    let tracks : l.tracks ≡ r.tracks = same_entries-eq l.tracks r.tracks (ground arith) in
    ap₂ (λ ts leadout. record { tracks = ts; leadout_lba = leadout }) tracks leadouts

is_other-eq : (toc : DiscToc) (o : Option DiscToc) → is_other toc o ≡ false → o ≡ some toc
unfolding is_other
is_other-eq toc none h = cc
is_other-eq toc (some old) h = ap some (sym (same_toc-eq toc old (ground arith)))

some_injective : (a b : DiscToc) → some a ≡ some b → a ≡ b
some_injective a b e = cc

-- The answer to a request that was begun before some events, too few to wrap the counter, is applied
-- only if none of the events began another request or dropped it, a request for an unchanged disc
-- included, and the answer is about the disc of the request; else the session stays as it is.
pub apply-AllKeep :
    (s : MetadataSession) (toc : DiscToc) (es : List Event) (r : MetadataWorkerResult)
    → r.generation ≡ (begin s toc).1.generation
    → length es + (begin s toc).1.generation < 2 ^ 64
    → (((apply (run (begin s toc).0 es) r).1 ≡ true)
        × AllKeep (begin s toc).0 es
        × (r.toc ≡ toc)
        × ((apply (run (begin s toc).0 es) r).0.snapshot ≡ r.metadata))
      ⊎ (apply (run (begin s toc).0 es) r ≡ (run (begin s toc).0 es, false))
unfolding begin apply
apply-AllKeep s toc es r answers small =
    if-both
      (λ (x : MetadataSession × Bool).
        ((x.1 ≡ true) × AllKeep (begin s toc).0 es × (r.toc ≡ toc) × (x.0.snapshot ≡ r.metadata))
        ⊎ (x ≡ (run (begin s toc).0 es, false)))
      (not (r.generation == (run (begin s toc).0 es).generation)
        || is_other r.toc (run (begin s toc).0 es).toc)
      (λ _. inr refl)
      (λ current.
        let same : (run (begin s toc).0 es).generation ≡ (begin s toc).0.generation =
          ground arith in
        let (keep, held) = run-AllKeep (begin s toc).0 es small same in
        inl
          (refl, keep, some_injective _ _ (sym (is_other-eq r.toc _ (ground arith)) ∙ held), refl))
