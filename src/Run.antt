-- ===== src/Run.antt =====
-- How a call of the program ends: with a value, with an error, or not within the fuel given.
pub mod Returns
use metel.Prelude.{◌≡◌, refl}
use metel.Error.{MetelError}

pub data Run {ℓ} (A : Type ℓ) : Type ℓ where
  ok : A → Run A
  err : MetelError → Run A
  out_of_fuel : Run A

module _ {ℓ κ} {A : Type ℓ} {B : Type κ} where
  infixl 5 ◌>>=◌ ◌>>◌
  abbrev pub ◌>>=◌ : Run A → (A → Run B) → Run B
  ok a >>= f = f a
  err e >>= f = err e
  out_of_fuel >>= f = out_of_fuel

  abbrev pub ◌>>◌ : Run A → Run B → Run B
  m >> k = m >>= λ _. k

  -- A successful chain has a successful first step.
  pub >>=-eq-ok :
      (m : Run A) (next : A → Run B) {v : B}
      → (m >>= next) ≡ ok v
      → (a : A) × (m ≡ ok a) × (next a ≡ ok v)
  >>=-eq-ok out_of_fuel next p = cc
  >>=-eq-ok (err e) next p = cc
  >>=-eq-ok (ok a) next p = (a, refl, p)
