-- ===== src/TypeInference/Constraints/Errors.antt =====
-- The errors of `solve_constraints` are type mismatches, each at the span of a constraint.
use metel.Prelude.{ℕ, suc, Bool, true, false, [], ◌∷◌, List, ◌≡◌, refl, ◌∙◌, sym, ◌⊎◌, inl, inr}
use metel.Error.{MetelError, Span, type_error, t0001}
use metel.Run.{Run, ok, err, out_of_fuel, ◌>>=◌}
use metel.Types.{ResolvedType}
use metel.TypeInference.Syntax.{TypeVar}
use metel.TypeInference.Substitution.Defs.{Substitution, compose}
use metel.TypeInference.Substitution.Algebra.{substitute}
use metel.TypeInference.Substitution.Idempotent.{IsIdempotent, image}
use metel.TypeInference.Substitution.Compose.{compose_lem}
use metel.TypeInference.Unify.Defs.{unify}
use metel.TypeInference.Unify.Advance.{empty-IsIdempotent}
use metel.TypeInference.Unify.Next.{unify_next_lem}
use metel.TypeInference.Constraints.Defs.{
  Constraint, is_integer_type, is_float_type, fits, check, check_literals, solve_constraint,
  solve_from, solve_constraints,
}
use metel.TypeInference.Constraints.Step.{
  unify_at, Solves-unify_at, map_err-eq-err, solve_constraint_lem, Advances-solve_constraint,
  check_step,
}

-- The error is a type mismatch at the span of one of the constraints.
abbrev pub IsMismatchOf : List Constraint → MetelError → Type 0
IsMismatchOf [] e = ⊥
IsMismatchOf (c ∷ cs) e = (e ≡ type_error t0001 c.span) ⊎ IsMismatchOf cs e

-- The first error of a chain comes from its first step, or from the rest.
bind-eq-err :
    {A B : Type 0} (m : Run A) (f : A → Run B) {e : MetelError}
    → (m >>= f) ≡ err e
    → (m ≡ err e) ⊎ ((a : A) × (m ≡ ok a) × (f a ≡ err e))
bind-eq-err (ok a) f h = inr (a, refl, h)
bind-eq-err (err x) f h = inl cc
bind-eq-err out_of_fuel f h = cc

check-eq-err : (b : Bool) (x : MetelError) {e : MetelError} → check b x ≡ err e → e ≡ x
check-eq-err true x h = cc
check-eq-err false x h = cc

check_literals-err :
    (kind : ResolvedType → Bool) (fuel : ℕ) (s : Substitution) (span : Span) (vs : List TypeVar)
    {e : MetelError}
    → IsIdempotent s
    → check_literals kind fuel s span vs ≡ err e
    → e ≡ type_error t0001 span
unfolding check_literals
check_literals-err kind fuel s span [] id h = cc
check_literals-err kind fuel s span (v ∷ vs) id h =
    elim (bind-eq-err (check (fits kind (image s v)) (type_error t0001 span)) _
      (sym (check_step kind fuel s span id v vs) ∙ h)) [
        | inl p ↦ check-eq-err (fits kind (image s v)) (type_error t0001 span) p
        | inr (x, p, q) ↦ check_literals-err kind fuel s span vs id q
      ]

solve_constraint-err :
    (fuel : ℕ) (s : Substitution) (c : Constraint) {e : MetelError}
    → IsIdempotent s
    → solve_constraint fuel s c ≡ err e
    → e ≡ type_error t0001 c.span
solve_constraint-err fuel s c id h =
    let t = substitute (image s) c.lhs in
    let u = substitute (image s) c.rhs in
    elim (bind-eq-err (unify_at fuel c.span t u) (compose (suc (suc fuel)) s) (
      sym (unify_next_lem (unify_at fuel c.span) fuel s c.lhs c.rhs id)
      ∙ sym (solve_constraint_lem fuel s c)
      ∙ h)) [
        | inl p ↦ (map_err-eq-err (type_error t0001 c.span) (unify fuel t u) p).0
        | inr (q, p, x) ↦
            let id' = (Solves-unify_at fuel c.span t u q p).idempotent in
            absurd (cc (compose_lem fuel s q id'))
      ]

solve_from-err :
    (fuel : ℕ) (s : Substitution) (cs : List Constraint) (ints floats : List TypeVar)
    {e : MetelError}
    → IsIdempotent s
    → solve_from fuel s cs ints floats ≡ err e
    → IsMismatchOf cs e
unfolding solve_from
solve_from-err fuel s [] ints floats id h = cc
solve_from-err fuel s (c ∷ cs) ints floats id h =
    elim (bind-eq-err (solve_constraint fuel s c) _ h) [
      | inl p ↦ inl (solve_constraint-err fuel s c id p)
      | inr (q, p, h₁) ↦
          let id' = (Advances-solve_constraint fuel s c q id p).idempotent in
          elim (bind-eq-err (check_literals is_integer_type fuel q c.span ints) _ h₁) [
            | inl p₁ ↦ inl (check_literals-err is_integer_type fuel q c.span ints id' p₁)
            | inr (x, p₁, h₂) ↦
                elim (bind-eq-err (check_literals is_float_type fuel q c.span floats) _ h₂) [
                  | inl p₂ ↦ inl (check_literals-err is_float_type fuel q c.span floats id' p₂)
                  | inr (y, p₂, h₃) ↦ inr (solve_from-err fuel q cs ints floats id' h₃)
                ]
          ]
    ]

-- If `solve_constraints` fails, its error is `T0001` at the span of one of the constraints.
pub solve_constraints-err :
    (fuel : ℕ) (cs : List Constraint) (ints floats : List TypeVar) (e : MetelError)
    → solve_constraints fuel cs ints floats ≡ err e
    → IsMismatchOf cs e
unfolding solve_constraints
solve_constraints-err fuel cs ints floats e h =
    solve_from-err fuel [] cs ints floats empty-IsIdempotent h
