-- ===== src/Engine/Effect.antt =====
-- A call that changes a state and may throw. The state comes back after a throw too, since what was
-- written stays written. AudioUnderrun is told apart from the other exceptions.
use picdplayer.Outcome.{Exception}
use picdplayer.Prelude.{Option, none, some, Bool, true, false}

pub data Failure : Type 0 where
  underrun : Failure
  error : Exception → Failure

-- What a call of an interface gives.
pub data Reply {ℓ} (A : Type ℓ) : Type ℓ where
  gave : A → Reply A
  threw : Failure → Reply A

pub data Ended {ℓ} (A : Type ℓ) : Type ℓ where
  done : A → Ended A
  failed : Failure → Ended A
  undefined : Ended A

abbrev pub ended_of {ℓ} : {A : Type ℓ} → Reply A → Ended A
ended_of (Reply.gave a) = Ended.done a
ended_of (Reply.threw f) = Ended.failed f

abbrev pub Action {ℓ κ} : Type ℓ → Type κ → Type (ℓ ⊔ κ)
Action S A = S → Ended A × S

module _ {ℓ κ} {S : Type ℓ} {A : Type κ} where
  abbrev pub pure : A → Action S A
  pure a s = (Ended.done a, s)

  abbrev pub throw : Failure → Action S A
  throw f s = (Ended.failed f, s)

  abbrev pub gets : (S → A) → Action S A
  gets f s = (Ended.done (f s), s)

  abbrev pub lifted : Option A → Action S A
  lifted none s = (Ended.undefined, s)
  lifted (some a) s = (Ended.done a, s)

  abbrev pub caught : (Failure → Action S A) → Ended A × S → Ended A × S
  caught handler (Ended.done a, s) = (Ended.done a, s)
  caught handler (Ended.failed f, s) = handler f s
  caught handler (Ended.undefined, s) = (Ended.undefined, s)

  -- try { m } catch { handler }
  abbrev pub try_catch : Action S A → (Failure → Action S A) → Action S A
  try_catch m handler s = caught handler (m s)

abbrev pub modify {ℓ} : {S : Type ℓ} → (S → S) → Action S (Unit {0})
modify f s = (Ended.done tt, f s)

abbrev pub throw_if {ℓ} : {S : Type ℓ} → Bool → Failure → Action S (Unit {0})
throw_if true f = throw f
throw_if false f = pure tt

module _ {ℓ κ μ} {S : Type ℓ} {A : Type κ} {B : Type μ} where
  abbrev pub then_do : (A → Action S B) → Ended A × S → Ended B × S
  then_do k (Ended.done a, s) = k a s
  then_do k (Ended.failed f, s) = (Ended.failed f, s)
  then_do k (Ended.undefined, s) = (Ended.undefined, s)

infixl 5 ◌>>=◌ ◌>>◌
abbrev pub ◌>>=◌ {ℓ κ μ} :
    {S : Type ℓ} {A : Type κ} {B : Type μ} → Action S A → (A → Action S B) → Action S B
◌>>=◌ m k s = then_do k (m s)

abbrev pub ◌>>◌ {ℓ κ μ} :
    {S : Type ℓ} {A : Type κ} {B : Type μ} → Action S A → Action S B → Action S B
m >> k = m >>= λ _. k

-- How a call ended, by what is asked of a result and of a failure; it is never undefined.
abbrev pub Post {ℓ κ} :
    {S : Type ℓ} {A : Type κ} → (A → S → Type 0) → (Failure → S → Type 0) → Ended A × S → Type 0
Post Q E (Ended.done a, s) = Q a s
Post Q E (Ended.failed f, s) = E f s
Post Q E (Ended.undefined, s) = ⊥
