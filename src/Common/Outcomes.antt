-- ===== src/Common/Outcomes.antt =====
-- The outcome of C code: a value, or a stop at a failed `assert` or at an access outside an object.
use mathlib.Core.Path.{◌≡◌, ap}
use mathlib.Core.Bool.{Bool, true, false}

pub data Fault : Type 0 where
  assertion : Fault
  out_of_bounds : Fault
  -- no fault of the code: the model stopped before it did
  out_of_fuel : Fault

pub data Outcome {ℓ} (A : Type ℓ) : Type ℓ where
  done : A → Outcome A
  stop : Fault → Outcome A

infixl 5 ◌>>=◌ ◌>>◌
abbrev pub ◌>>=◌ {ℓ κ} : {A : Type ℓ} {B : Type κ} → Outcome A → (A → Outcome B) → Outcome B
done a >>= f = f a
stop e >>= f = stop e

abbrev pub ◌>>◌ {ℓ} : {B : Type ℓ} → Outcome (Unit {0}) → Outcome B → Outcome B
m >> k = m >>= λ _. k

-- `assert(b)`
abbrev pub assert : Bool → Outcome (Unit {0})
assert true = done tt
assert false = stop assertion

pub done_inj {ℓ} : {A : Type ℓ} {a b : A} → Path (Outcome A) (done a) (done b) → a ≡ b
done_inj {A = A} {a = a} e = ap value e
  where
    value : Outcome A → A
    value (done b) = b
    value (stop f) = a
