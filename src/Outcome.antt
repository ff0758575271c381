-- ===== src/Outcome.antt =====
-- How a call of a C++ function ends: with a value, by an exception, or in undefined behaviour.
use picdplayer.Prelude.{◌≡◌, if◌then◌else◌, Bool, true, false, Option, none, some}

-- The exceptions that the modelled code throws, by their standard type.
pub data Exception : Type 0 where
  invalid_argument logic_error runtime_error system_error : Exception

-- `undefined` stands for a read outside a vector or of an empty std::optional.
pub data Outcome {ℓ} (A : Type ℓ) : Type ℓ where
  returned : A → Outcome A
  thrown : Exception → Outcome A
  undefined : Outcome A

infixl 5 ◌>>=◌ ◌>>◌
abbrev pub ◌>>=◌ {ℓ κ} : {A : Type ℓ} {B : Type κ} → Outcome A → (A → Outcome B) → Outcome B
returned a >>= f = f a
thrown e >>= f = thrown e
undefined >>= f = undefined

abbrev pub ◌>>◌ {ℓ} : {B : Type ℓ} → Outcome (Unit {0}) → Outcome B → Outcome B
m >> k = m >>= λ _. k

-- `*optional` and `vector[index]`.
abbrev pub deref {ℓ} : {A : Type ℓ} → Option A → Outcome A
deref none = undefined
deref (some a) = returned a

-- `if (bad) throw e;`
abbrev pub throw_if : Bool → Exception → Outcome (Unit {0})
throw_if true e = thrown e
throw_if false e = returned tt

-- How a chain runs where the values are known.
pub deref-eq {ℓ κ} :
    {A : Type ℓ} {B : Type κ} (f : A → Outcome B) (o : Option A) (a : A)
    → o ≡ some a
    → (deref o >>= f) ≡ f a
deref-eq f o a e = rw e

pub if_true-eq {ℓ} : {A : Type ℓ} (x y : A) (b : Bool) → b ≡ true → (if b then x else y) ≡ x
if_true-eq x y b e = rw e

pub if_false-eq {ℓ} : {A : Type ℓ} (x y : A) (b : Bool) → b ≡ false → (if b then x else y) ≡ y
if_false-eq x y b e = rw e
