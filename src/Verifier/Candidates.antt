-- ===== src/Verifier/Candidates.antt =====
-- The votes: a candidate's matches are the complete samples that are equal to it.
use mathlib.Core.Path.{subst}
use picdplayer.Prelude.{
  ℕ, ◌+◌, ◌≡◌, refl, true, false, inl, inr, List, [], ◌∷◌, ℤ, if◌then◌else◌, arith, Bool-cases,
}
use picdplayer.Reader.{C2Status}
use picdplayer.Verifier.{Candidate, vote, same_pcm}

pub same_pcm_refl : (xs : List ℤ) → same_pcm xs xs ≡ true
unfolding same_pcm
same_pcm_refl [] = refl
same_pcm_refl (x ∷ xs) = ground (arith, same_pcm_refl xs)

pub same_pcm-eq : (xs ys : List ℤ) → same_pcm xs ys ≡ true → xs ≡ ys
unfolding same_pcm
same_pcm-eq [] [] h = refl
same_pcm-eq [] (y ∷ ys) h = cc
same_pcm-eq (x ∷ xs) [] h = cc
same_pcm-eq (x ∷ xs) (y ∷ ys) h = ground (arith, same_pcm-eq xs ys)

-- How many of the samples are `pcm`.
unfoldable pub occurrences : List ℤ → List (List ℤ) → ℕ
occurrences pcm [] = 0
occurrences pcm (s ∷ ss) = (if same_pcm pcm s then 1 else 0) + occurrences pcm ss

-- The matches of the first candidate with this PCM.
unfoldable pub matches_of : List ℤ → List Candidate → ℕ
matches_of pcm [] = 0
matches_of pcm (c ∷ cs) = if same_pcm c.pcm pcm then c.matches else matches_of pcm cs

pub same_pcm-sym : (xs ys : List ℤ) → same_pcm xs ys ≡ same_pcm ys xs
unfolding same_pcm
same_pcm-sym [] [] = refl
same_pcm-sym [] (y ∷ ys) = refl
same_pcm-sym (x ∷ xs) [] = refl
same_pcm-sym (x ∷ xs) (y ∷ ys) = ground (arith, same_pcm-sym xs ys)

pub vote-found :
    (cs : List Candidate) (sample : List ℤ) (c2 : C2Status) → (vote cs sample c2).found.pcm ≡ sample
unfolding vote
vote-found [] sample c2 = refl
vote-found (c ∷ cs) sample c2 = elim (Bool-cases (same_pcm c.pcm sample)) [
  | inl hit ↦ rw hit (same_pcm-eq c.pcm sample hit)
  | inr miss ↦ rw miss (vote-found cs sample c2)
]

pub vote-found_matches :
    (cs : List Candidate) (sample : List ℤ) (c2 : C2Status)
    → (vote cs sample c2).found.matches ≡ matches_of sample cs + 1
unfolding vote matches_of
vote-found_matches [] sample c2 = omega arith
vote-found_matches (c ∷ cs) sample c2 = elim (Bool-cases (same_pcm c.pcm sample)) [
  | inl hit ↦ rw hit refl
  | inr miss ↦ rw miss (vote-found_matches cs sample c2)
]

-- A vote adds one to the matches of its sample and leaves the others.
pub matches_of-vote :
    (pcm : List ℤ) (cs : List Candidate) (sample : List ℤ) (c2 : C2Status)
    → matches_of pcm (vote cs sample c2).candidates
      ≡ matches_of pcm cs + (if same_pcm pcm sample then 1 else 0)
unfolding vote matches_of
matches_of-vote pcm [] sample c2 = ground (arith, same_pcm-sym pcm sample)
matches_of-vote pcm (c ∷ cs) sample c2 = elim (Bool-cases (same_pcm c.pcm sample)) [
  | inl hit ↦ rw (hit, same_pcm-eq c.pcm sample hit) (rw (same_pcm-sym sample pcm) (ground arith))
  | inr miss ↦ rw miss (elim (Bool-cases (same_pcm c.pcm pcm)) [
    | inl here ↦ rw here (
        let other : same_pcm pcm sample ≡ false =
          subst (λ q. same_pcm q sample ≡ false) (same_pcm-eq c.pcm pcm here) miss in
        rw other (omega arith))
    | inr there ↦ rw there (matches_of-vote pcm cs sample c2)
  ])
]
