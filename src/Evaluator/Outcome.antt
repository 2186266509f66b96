-- ===== src/Evaluator/Outcome.antt =====
-- How a step of the evaluator ends: with a value, with an error of the program, with a panic of the
-- interpreter itself, or not within the fuel given.
use metel.Error.{MetelError}

pub data Outcome {ℓ} (A : Type ℓ) : Type ℓ where
  done : A → Outcome A
  failed : MetelError → Outcome A
  aborted : Outcome A
  out_of_fuel : Outcome A

infixl 5 ◌>>=◌
abbrev pub ◌>>=◌ {ℓ κ} : {A : Type ℓ} {B : Type κ} → Outcome A → (A → Outcome B) → Outcome B
done a >>= f = f a
failed e >>= f = failed e
aborted >>= f = aborted
out_of_fuel >>= f = out_of_fuel
