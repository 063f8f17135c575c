-- ===== src/Prelude/Outcome.antt =====
-- The result of a call: a value, an exception of common/exception.hpp or of the standard library, a
-- failed `assert`, an access through a null or deleted pointer, or a loop that used up its fuel.
use mathlib.Core.Path.{◌≡◌, refl}
use mathlib.Core.Bool.{Bool, true, false}

pub data Error : Type 0 where
  not_implemented_exception abstract_exception io_exception parameter_exception : Error
  concurrency_exception runtime_error assertion : Error

pub data Run {ℓ} (A : Type ℓ) : Type ℓ where
  ok : A → Run A
  throw : Error → Run A
  fault : Run A
  out_of_fuel : Run A

infixl 5 ◌>>=◌ ◌>>◌
abbrev pub ◌>>=◌ {ℓ κ} : {A : Type ℓ} {B : Type κ} → Run A → (A → Run B) → Run B
ok a >>= f = f a
throw e >>= f = throw e
fault >>= f = fault
out_of_fuel >>= f = out_of_fuel

abbrev pub ◌>>◌ {ℓ} : {B : Type ℓ} → Run (Unit {0}) → Run B → Run B
m >> k = m >>= λ _. k

-- `if (!b) throw e`, and `assert(b)` with `assertion`
abbrev pub require : Bool → Error → Run (Unit {0})
require true e = ok tt
require false e = throw e

-- Total correctness: the call returns, and its value satisfies `P`.
abbrev pub Returns {ℓ} : {A : Type ℓ} → (A → Type 0) → Run A → Type 0
Returns P (ok a) = P a
Returns P (throw e) = ⊥
Returns P fault = ⊥
Returns P out_of_fuel = ⊥

module _ {ℓ κ} {A : Type ℓ} {B : Type κ} where
  pub bind-Returns :
      {P : A → Type 0} (Q : B → Type 0) (r : Run A) (k : A → Run B)
      → Returns P r
      → ((a : A) → P a → Returns Q (k a))
      → Returns Q (r >>= k)
  bind-Returns Q (ok a) k h next = next a h
  bind-Returns Q (throw e) k h next = h
  bind-Returns Q fault k h next = h
  bind-Returns Q out_of_fuel k h next = h

pub Returns-mono {ℓ} :
    {A : Type ℓ} {P : A → Type 0} (Q : A → Type 0) (r : Run A)
    → Returns P r
    → ((a : A) → P a → Q a)
    → Returns Q r
Returns-mono Q (ok a) h weaken = weaken a h
Returns-mono Q (throw e) h weaken = h
Returns-mono Q fault h weaken = h
Returns-mono Q out_of_fuel h weaken = h

abbrev pub value_or {ℓ} : {A : Type ℓ} → A → Run A → A
value_or x (ok y) = y
value_or x _ = x

-- A call that returns gives its value.
pub Returns-value {ℓ} :
    {A : Type ℓ} (x : A) (r : Run A) → Returns (λ _. Unit {0}) r → r ≡ ok (value_or x r)
Returns-value x (ok y) h = refl
Returns-value x (throw e) h = absurd h
Returns-value x fault h = absurd h
Returns-value x out_of_fuel h = absurd h
