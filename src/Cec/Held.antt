-- ===== src/Cec/Held.antt =====
-- A navigation key that is held: the remote control repeats its code.
use picdplayer.Prelude.{
  ℕ, ◌+◌, ◌-◌, ◌≤◌, ◌<◌, ◌≡◌, refl, Bool, true, false, not, ◌&&◌, ◌||◌, Option, none, some, List,
  [], ◌∷◌, if◌then◌else◌, if-both, ltb, ◌==◌, arith,
}
use picdplayer.Cec.{
  CecNavigation, CecNavigationFilter, UiCodes, cec_navigation_from_ui_code, press_navigation, press,
  ms, is_direction, is_code, release,
}

module _ (u : UiCodes) (code source : ℕ) where
  -- The times at which a press, repeated at the given times, has an effect.
  abbrev pub prepend_if : Option CecNavigation → ℕ → List ℕ → List ℕ
  prepend_if none now rest = rest
  prepend_if (some n) now rest = now ∷ rest

  unfoldable pub emitted : CecNavigationFilter → List ℕ → List ℕ
  emitted f [] = []
  emitted f (now ∷ times) =
      let x = press u f code source now in prepend_if x.0 now (emitted x.1 times)

  -- Each time follows the one before by less than half a second.
  abbrev pub Repeats : ℕ → List ℕ → Type 0
  Repeats before [] = Unit {0}
  Repeats before (now ∷ times) = (before ≤ now) × (now < before + ms 500) × Repeats now times

  -- Each time follows the one before by 150 milliseconds or more.
  abbrev pub Spaced : ℕ → List ℕ → Type 0
  Spaced before [] = Unit {0}
  Spaced before (now ∷ times) = (before + ms 150 ≤ now) × Spaced now times

  -- The key is down, and its last press was received at a time not before the last effect.
  abbrev pub IsHeld : CecNavigationFilter → Type 0
  IsHeld f = (f.pressed_code ≡ some code) × (f.source ≡ source) × (f.last_emitted ≤ f.last_received)

  abbrev pub HeldPost : Bool → ℕ → List ℕ → Type 0
  HeldPost true before out = Spaced before out
  HeldPost false before out = out ≡ []

  HeldPost-cons :
      (b : Bool) (before now : ℕ) (out : List ℕ)
      → b ≡ true
      → before + ms 150 ≤ now
      → HeldPost b now out
      → HeldPost b before (now ∷ out)
  HeldPost-cons true before now out e h spaced = (h, spaced)
  HeldPost-cons false before now out e h spaced = absurd (ground arith)

  module _ (navigation : CecNavigation)
      (known : cec_navigation_from_ui_code u code ≡ some navigation) where
    press-held :
        (f : CecNavigationFilter) (now : ℕ)
        → IsHeld f
        → now < f.last_received + ms 500
        → press u f code source now ≡ (
            if not (is_direction navigation) || ltb (now - f.last_emitted) (ms 150)
            then (none, record f { pressed_code = some code; source = source; last_received = now })
            else (
              some navigation,
              record {
                pressed_code = some code;
                source = source;
                last_received = now;
                last_emitted = now;
              },
            ))
    unfolding press
    press-held f now (pressed, from, _) soon =
        let repeated : (is_code f.pressed_code code
              && (f.source == source)
              && ltb (now - f.last_received) (ms 500))
            ≡ true =
          rw pressed (ground arith) in
        rw (known, repeated) refl

    emitted-HeldPost :
        (f : CecNavigationFilter) (times : List ℕ)
        → IsHeld f
        → Repeats f.last_received times
        → HeldPost (is_direction navigation) f.last_emitted (emitted f times)
    unfolding emitted
    emitted-HeldPost f [] held repeats = nothing (is_direction navigation)
      where
        nothing : (b : Bool) → HeldPost b f.last_emitted []
        nothing true = tt
        nothing false = refl
    emitted-HeldPost f (now ∷ times) held (later, soon, repeats) =
        let silent : CecNavigationFilter = record f {
          pressed_code = some code;
          source = source;
          last_received = now;
        } in
        let loud : CecNavigationFilter = record {
          pressed_code = some code;
          source = source;
          last_received = now;
          last_emitted = now;
        } in
        let after_silent =
          emitted-HeldPost silent times (refl, refl, omega (arith, held.2, later)) repeats in
        let after_loud = emitted-HeldPost loud times (refl, refl, omega arith) repeats in
        rw (press-held f now held soon) (
          if-both
            (λ (x : Option CecNavigation × CecNavigationFilter).
              HeldPost (is_direction navigation) f.last_emitted
                (prepend_if x.0 now (emitted x.1 times)))
            (not (is_direction navigation) || ltb (now - f.last_emitted) (ms 150))
            (λ _. after_silent)
            (λ spaced.
              HeldPost-cons (is_direction navigation) f.last_emitted now (emitted loud times)
                (ground arith) (ground arith) after_loud))

    press-first :
        (f : CecNavigationFilter) (now : ℕ)
        → press u (release f source) code source now ≡ (
          some navigation,
          record {
            pressed_code = some code;
            source = source;
            last_received = now;
            last_emitted = now;
          },
        )
    unfolding press release
    press-first f now = rw known (
        if-both
          (λ g. press_navigation u g (some navigation) code source now ≡ (
            some navigation,
            record {
              pressed_code = some code;
              source = source;
              last_received = now;
              last_emitted = now;
            },
          ))
          (f.source == source) (λ same. refl)
          (λ other.
            let quiet : (is_code f.pressed_code code
                  && (f.source == source)
                  && ltb (now - f.last_received) (ms 500))
                ≡ false =
              ground (arith, other) in
            rw quiet refl))

    -- After the source of the presses released its key, the press of a navigation key has an effect at
    -- once. While the code is repeated in intervals of less than half a second, a direction has further
    -- effects, each 150 milliseconds or more after the one before, and select and back have none.
    pub hold-HeldPost :
        (f : CecNavigationFilter) (now : ℕ) (times : List ℕ)
        → Repeats now times
        → (out : List ℕ) × (emitted (release f source) (now ∷ times) ≡ (now ∷ out))
          × HeldPost (is_direction navigation) now out
    unfolding emitted
    hold-HeldPost f now times repeats =
        let loud : CecNavigationFilter = record {
          pressed_code = some code;
          source = source;
          last_received = now;
          last_emitted = now;
        } in
        (
          emitted loud times,
          rw (press-first f now) refl,
          emitted-HeldPost loud times (refl, refl, omega arith) repeats,
        )
