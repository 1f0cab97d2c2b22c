-- ===== src/Base/Result.antt =====
-- What a kernel function may come to: a result, `panic` (a failed `assert` too), a fault by a null
-- or wild pointer, or no result within the rounds that were allowed to its loops.
use mathlib.Core.Bool.{Bool, true, false}

pub data Outcome {ℓ} (A : Type ℓ) : Type ℓ where
  ok : A → Outcome A
  panic fault no_fuel : Outcome A

infixl 5 ◌>>=◌
abbrev pub ◌>>=◌ {ℓ κ} : {A : Type ℓ} {B : Type κ} → Outcome A → (A → Outcome B) → Outcome B
ok a >>= f = f a
panic >>= f = panic
fault >>= f = fault
no_fuel >>= f = no_fuel

infixl 5 ◌>>◌
abbrev pub ◌>>◌ {ℓ} : {A : Type ℓ} → Outcome (Unit {0}) → Outcome A → Outcome A
m >> k = m >>= λ _. k

-- `assert`
abbrev pub assert : Bool → Outcome (Unit {0})
assert true = ok tt
assert false = panic
