-- ===== src/Policy/Bounds.antt =====
-- Which policies an operator may configure.
use picdplayer.Outcome.{Outcome, returned, thrown, invalid_argument, throw_if, ◌>>◌}
use picdplayer.Prelude.{ℕ, ◌%◌, ◌≤◌, ◌≡◌, refl, Bool, true, false, ◌⊎◌, inl, inr, arith}
use picdplayer.Policy.{ReadPolicy, validate_read_policy}
use picdplayer.Verifier.{validate_repeated_read_policy}

abbrev pub IsConfigurable : ReadPolicy → ℕ → Type 0
IsConfigurable p capacity =
    (15 ≤ p.region_frames)
    × (p.region_frames ≤ capacity)
    × (p.region_frames % 15 ≡ 0)
    × (2 ≤ p.required_matches)
    × (p.required_matches ≤ p.maximum_attempts)
    × (p.maximum_attempts ≤ 8)
    × (1 ≤ p.time_budget_ms)
    × (p.time_budget_ms ≤ 60000)

throw_if-both :
    (b c : Bool) (P : Outcome (Unit {0}) → Type 0)
    → (b ≡ true → P (thrown invalid_argument))
    → (b ≡ false → c ≡ true → P (thrown invalid_argument))
    → (b ≡ false → c ≡ false → P (returned tt))
    → P (throw_if b invalid_argument >> throw_if c invalid_argument)
throw_if-both true c P f g h = f refl
throw_if-both false true P f g h = g refl refl
throw_if-both false false P f g h = h refl refl

module _ (p : ReadPolicy) (capacity : ℕ) where
  abbrev pub Validated : Outcome (Unit {0}) → Type 0
  Validated o =
      ((o ≡ returned tt) × IsConfigurable p capacity)
      ⊎ ((o ≡ thrown invalid_argument) × ¬ IsConfigurable p capacity)

  -- validate_read_policy returns exactly for the policies in bounds: regions of whole blocks of 15
  -- frames that fit the buffer, from 2 to 8 matches within as many attempts, and from 1 to 60000 ms.
  -- For all others it throws invalid_argument.
  pub validate_read_policy-Validated : Validated (validate_read_policy p capacity)
  unfolding validate_read_policy validate_repeated_read_policy
  validate_read_policy-Validated =
      throw_if-both _ _ Validated (λ e. inr (refl, λ v. ground (arith, e, v)))
        (λ _ e. inr (refl, λ v. ground (arith, e, v))) (λ e f. inl (refl, ground arith))
