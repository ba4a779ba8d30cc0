-- ===== src/Prelude/Outcomes.antt =====
-- What a call of C++ code comes to: a value, or one of the ways not to return.
use mathlib.Core.Option.{Option, none, some}
use mathlib.Core.Bool.{Bool, true, false}
use Prim.Native.Nat.{ℕ, ◌+◌}
use test_buffer.Prelude.Tests.{ltb, if◌then◌else◌}
use test_buffer.Prelude.Ints.{int_max}

pub data Outcome {ℓ} (A : Type ℓ) : Type ℓ where
  value : A → Outcome A
  waits : Outcome A  -- blocked in a `wait`
  throws : Outcome A
  exits : ℕ → Outcome A  -- `exit(n)`
  undefined : Outcome A  -- undefined behaviour

infixl 5 ◌>>=◌
abbrev pub ◌>>=◌ {ℓ κ} : {A : Type ℓ} {B : Type κ} → Outcome A → (A → Outcome B) → Outcome B
value a >>= f = f a
waits >>= f = waits
throws >>= f = throws
exits n >>= f = exits n
undefined >>= f = undefined

-- A read outside its precondition is undefined behaviour.
abbrev pub defined {ℓ} : {A : Type ℓ} → Option A → Outcome A
defined (some a) = value a
defined none = undefined

-- `array::at` throws out of range.
abbrev pub checked {ℓ} : {A : Type ℓ} → Option A → Outcome A
checked (some a) = value a
checked none = throws

-- A use of a pointer, `true` if it is not null.
abbrev pub deref : Bool → Outcome (Unit {0})
deref true = value tt
deref false = undefined

-- `++` on an `int` that is not negative: past INT_MAX it is undefined behaviour.
abbrev pub increment : ℕ → Outcome ℕ
increment n = if ltb n int_max then value (n + 1) else undefined

infixl 5 ◌>>◌
abbrev pub ◌>>◌ {ℓ} : {B : Type ℓ} → Outcome (Unit {0}) → Outcome B → Outcome B
m >> k = m >>= λ _. k
