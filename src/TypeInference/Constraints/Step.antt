-- ===== src/TypeInference/Constraints/Step.antt =====
-- One constraint is one round of `unify` with another error; the check of the literal variables.
use metel.Prelude.{ℕ, Bool, true, false, [], ◌∷◌, List, ◌≡◌, refl, ◌∙◌, sym}
use metel.Error.{Span, MetelError, type_error, t0001}
use metel.Run.{Run, ok, err, out_of_fuel, ◌>>=◌, >>=-eq-ok}
use metel.Types.{ResolvedType}
use metel.TypeInference.Syntax.{TypeVar, InferType, var}
use metel.TypeInference.Substitution.Defs.{Substitution}
use metel.TypeInference.Substitution.Idempotent.{IsIdempotent, image, apply-IsIdempotent}
use metel.TypeInference.Unify.Defs.{unify, unify_next}
use metel.TypeInference.Unify.Advance.{Advances, Unifies, Equates, VarsOf, Solves}
use metel.TypeInference.Unify.Next.{Advances-unify_next}
use metel.TypeInference.Unify.Sound.{Solves-unify}
use metel.TypeInference.Constraints.Defs.{
  Constraint, map_err, fits, check, check_literals, solve_constraint,
}

-- `unify` with the error of a constraint.
abbrev pub unify_at : ℕ → Span → InferType → InferType → Run Substitution
unify_at fuel span a b = map_err (type_error t0001 span) (unify fuel a b)

pub map_err-eq-ok {ℓ} :
    {A : Type ℓ} (e : MetelError) (m : Run A) {a : A} → map_err e m ≡ ok a → m ≡ ok a
map_err-eq-ok e (ok a) h = h
map_err-eq-ok e (err x) h = cc
map_err-eq-ok e out_of_fuel h = cc

pub map_err-eq-err {ℓ} :
    {A : Type ℓ} (e : MetelError) (m : Run A) {x : MetelError}
    → map_err e m ≡ err x
    → (x ≡ e) × (y : MetelError) × (m ≡ err y)
map_err-eq-err e (ok a) h = cc
map_err-eq-err e (err y) h = (cc, y, refl)
map_err-eq-err e out_of_fuel h = cc

pub solve_constraint_lem :
    (fuel : ℕ) (s : Substitution) (c : Constraint)
    → solve_constraint fuel s c ≡ unify_next (unify_at fuel c.span) fuel s c.lhs c.rhs
unfolding solve_constraint unify_next
solve_constraint_lem fuel s c = refl

pub Solves-unify_at :
    (fuel : ℕ) (span : Span) (a b : InferType) (q : Substitution)
    → unify_at fuel span a b ≡ ok q
    → Solves a b q
Solves-unify_at fuel span a b q h =
    Solves-unify fuel a b q (map_err-eq-ok (type_error t0001 span) (unify fuel a b) h)

pub Advances-solve_constraint :
    (fuel : ℕ) (s : Substitution) (c : Constraint) (r : Substitution)
    → IsIdempotent s
    → solve_constraint fuel s c ≡ ok r
    → Advances s r (Unifies c.lhs c.rhs r) (Equates c.lhs c.rhs) (VarsOf c.lhs c.rhs)
Advances-solve_constraint fuel s c r id h =
    Advances-unify_next (unify_at fuel c.span) fuel s c.lhs c.rhs (Solves-unify_at fuel c.span) id
      (sym (solve_constraint_lem fuel s c) ∙ h)

-- Every literal variable stands for something of its kind.
abbrev pub LiteralsFit : (ResolvedType → Bool) → Substitution → List TypeVar → Type 0
LiteralsFit kind s [] = Unit
LiteralsFit kind s (v ∷ vs) = (fits kind (image s v) ≡ true) × LiteralsFit kind s vs

check-eq-ok : (b : Bool) (e : MetelError) → check b e ≡ ok tt → b ≡ true
check-eq-ok true e h = refl
check-eq-ok false e h = cc

module _ (kind : ResolvedType → Bool) (fuel : ℕ) (s : Substitution) (span : Span)
    (id : IsIdempotent s) where
  -- The check, with what the variable stands for.
  pub check_step :
      (v : TypeVar) (vs : List TypeVar)
      → check_literals kind fuel s span (v ∷ vs) ≡ (
          check (fits kind (image s v)) (type_error t0001 span) >>= λ _.
          check_literals kind fuel s span vs)
  unfolding check_literals
  check_step v vs = rw (apply-IsIdempotent fuel s (var v) id)

  pub check_literals_ok :
      (vs : List TypeVar) → check_literals kind fuel s span vs ≡ ok tt → LiteralsFit kind s vs
  check_literals_ok [] h = tt
  check_literals_ok (v ∷ vs) h =
      let (x, e, f) =
        >>=-eq-ok (check (fits kind (image s v)) (type_error t0001 span))
          (λ _. check_literals kind fuel s span vs) (sym (check_step v vs) ∙ h) in
      (check-eq-ok (fits kind (image s v)) (type_error t0001 span) e, check_literals_ok vs f)

  pub check_literals_fit :
      (vs : List TypeVar) → LiteralsFit kind s vs → check_literals kind fuel s span vs ≡ ok tt
  unfolding check_literals
  check_literals_fit [] h = refl
  check_literals_fit (v ∷ vs) h = check_step v vs ∙ rw (h.0) (check_literals_fit vs h.1)
