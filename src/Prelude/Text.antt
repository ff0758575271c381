-- ===== src/Prelude/Text.antt =====
-- Texts as lists of bytes: literals, comparison, and the decimal digits that std::to_string writes.
use Prim.Native.Char.{code}
use Prim.Native.Nat.{ℕ, zero, suc, ◌+◌, ◌/◌, ◌%◌}
use Prim.Native.String.{String}
use mathlib.Core.Bool.{Bool, true, false, ◌&&◌}
use mathlib.Core.List.{List, [], ◌∷◌, ◌++◌}
use picdplayer.Prelude.Tests.{if◌then◌else◌, ltb, ◌==◌}

-- The bytes of an ASCII literal.
abbrev pub codes : String → List ℕ
codes String.[] = []
codes (String.◌∷◌ c s) = code c ∷ codes s

abbrev pub same_text : List ℕ → List ℕ → Bool
same_text [] [] = true
same_text (a ∷ rest) (b ∷ others) = (a == b) && same_text rest others
same_text _ _ = false

abbrev pub starts_with : List ℕ → List ℕ → Bool
starts_with value [] = true
starts_with [] (b ∷ prefix) = false
starts_with (a ∷ value) (b ∷ prefix) = (a == b) && starts_with value prefix

-- The last digits of a number, as many as there is fuel for.
unfoldable pub digits : ℕ → ℕ → List ℕ
digits zero n = []
digits (suc fuel) n =
    let front = digits fuel (n / 10) in
    if ltb n 10 then (48 + n) ∷ [] else front ++ ((48 + n % 10) ∷ [])

-- std::to_string of an `unsigned`, which has ten digits at most.
abbrev pub to_string : ℕ → List ℕ
to_string n = digits 10 n
