-- ===== src/TypeInference/Constraints/Terminates.antt =====
-- Every call of `solve_constraints` returns.
use metel.Prelude.{ℕ, suc, Bool, [], ◌∷◌, List, ◌≢◌, refl, ◌∙◌, sym, true, false}
use metel.Error.{MetelError, Span, type_error, t0001}
use metel.Run.{Run, ok, err, out_of_fuel, ◌>>=◌}
use metel.Run.Returns.{Returns, Returns-ok, Returns-err, Returns-map, Returns-bind}
use metel.Types.{ResolvedType}
use metel.TypeInference.Syntax.{TypeVar}
use metel.TypeInference.Substitution.Defs.{Substitution, compose}
use metel.TypeInference.Substitution.Algebra.{substitute}
use metel.TypeInference.Substitution.Idempotent.{IsIdempotent, image}
use metel.TypeInference.Substitution.Compose.{composition, compose_lem}
use metel.TypeInference.Unify.Defs.{unify}
use metel.TypeInference.Unify.Advance.{empty-IsIdempotent}
use metel.TypeInference.Unify.Next.{unify_next_lem}
use metel.TypeInference.Unify.Terminates.{unify_terminates}
use metel.TypeInference.Constraints.Defs.{
  Constraint, is_integer_type, is_float_type, map_err, fits, check, check_literals,
  solve_constraint, solve_from, solve_constraints,
}
use metel.TypeInference.Constraints.Step.{
  unify_at, Solves-unify_at, solve_constraint_lem, Advances-solve_constraint, check_step,
}

-- Changing the error changes nothing about returning.
Returns-map_err :
    (e : MetelError) (g : ℕ → Run Substitution) → Returns g → Returns (λ fuel. map_err e (g fuel))
Returns-map_err e g r = record {
  from = r.from;
  result = map_err e r.result;
  stable = λ fuel h. rw (r.stable fuel h);
  returned = still r.result r.returned;
}
  where
    still : (o : Run Substitution) → o ≢ out_of_fuel → map_err e o ≢ out_of_fuel
    still (ok a) h = cc
    still (err x) h = cc
    still out_of_fuel h = λ _. h refl

Returns-check : (b : Bool) (e : MetelError) → Returns (λ fuel. check b e)
Returns-check true e = Returns-ok tt
Returns-check false e = Returns-err e

solve_constraint-Returns :
    (s : Substitution) (c : Constraint)
    → IsIdempotent s
    → Returns (λ fuel. solve_constraint fuel s c)
solve_constraint-Returns s c id =
    let t = substitute (image s) c.lhs in
    let u = substitute (image s) c.rhs in
    Returns-map (λ fuel. unify_at fuel c.span t u >>= compose (suc (suc fuel)) s)
      (λ fuel. solve_constraint fuel s c)
      (λ fuel.
        sym (unify_next_lem (unify_at fuel c.span) fuel s c.lhs c.rhs id)
        ∙ sym (solve_constraint_lem fuel s c))
      (Returns-bind (λ fuel. unify_at fuel c.span t u) (λ fuel. compose (suc (suc fuel)) s)
        (Returns-map_err (type_error t0001 c.span) (λ fuel. unify fuel t u) (unify_terminates t u))
        (λ q e.
          let id' = (Solves-unify_at _ c.span t u q e).idempotent in
          Returns-map (λ fuel. ok (composition s q)) (λ fuel. compose (suc (suc fuel)) s q)
            (λ fuel. sym (compose_lem fuel s q id')) (Returns-ok (composition s q))))

check_literals-Returns :
    (kind : ResolvedType → Bool) (s : Substitution) (span : Span) (vs : List TypeVar)
    → IsIdempotent s
    → Returns (λ fuel. check_literals kind fuel s span vs)
unfolding check_literals
check_literals-Returns kind s span [] id = Returns-ok tt
check_literals-Returns kind s span (v ∷ vs) id =
    Returns-map
      (λ fuel. check (fits kind (image s v)) (type_error t0001 span) >>= λ _.
        check_literals kind fuel s span vs)
      (λ fuel. check_literals kind fuel s span (v ∷ vs))
      (λ fuel. sym (check_step kind fuel s span id v vs))
      (Returns-bind (λ fuel. check (fits kind (image s v)) (type_error t0001 span))
        (λ fuel _. check_literals kind fuel s span vs)
        (Returns-check (fits kind (image s v)) (type_error t0001 span))
        (λ x e. check_literals-Returns kind s span vs id))

solve_from-Returns :
    (s : Substitution) (cs : List Constraint) (ints floats : List TypeVar)
    → IsIdempotent s
    → Returns (λ fuel. solve_from fuel s cs ints floats)
unfolding solve_from
solve_from-Returns s [] ints floats id = Returns-ok s
solve_from-Returns s (c ∷ cs) ints floats id =
    Returns-bind (λ fuel. solve_constraint fuel s c) _ (solve_constraint-Returns s c id)
      (λ q e.
        let id' = (Advances-solve_constraint _ s c q id e).idempotent in
        Returns-bind (λ fuel. check_literals is_integer_type fuel q c.span ints) _
          (check_literals-Returns is_integer_type q c.span ints id')
          (λ x p.
            Returns-bind (λ fuel. check_literals is_float_type fuel q c.span floats)
              (λ fuel _. solve_from fuel q cs ints floats)
              (check_literals-Returns is_float_type q c.span floats id')
              (λ y p'. solve_from-Returns q cs ints floats id')))

-- For any constraints there is fuel from which on `solve_constraints` returns, with the same result.
pub solve_constraints_terminates :
    (cs : List Constraint) (ints floats : List TypeVar)
    → Returns (λ fuel. solve_constraints fuel cs ints floats)
unfolding solve_constraints
solve_constraints_terminates cs ints floats =
    solve_from-Returns [] cs ints floats empty-IsIdempotent
