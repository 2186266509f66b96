-- ===== src/TypeInference/Constraints/Complete.antt =====
-- Which errors `solve_constraints` makes, and that solvable constraints make none.
use metel.Prelude.{ℕ, Bool, true, [], ◌∷◌, List, ◌≡◌, ◌≢◌, refl, ◌∙◌, sym, ap, arith}
use metel.Error.{MetelError, Span, type_error, t0001}
use metel.Run.{Run, ok, err, out_of_fuel}
use metel.Types.{ResolvedType}
use metel.TypeInference.Syntax.{TypeVar, InferType, concrete, var, never}
use metel.TypeInference.Substitution.Defs.{Substitution}
use metel.TypeInference.Substitution.Algebra.{substitute}
use metel.TypeInference.Substitution.Idempotent.{IsIdempotent, image}
use metel.TypeInference.Unify.Defs.{unify}
use metel.TypeInference.Unify.Advance.{Refines, Refines-empty, Equates, empty-IsIdempotent}
use metel.TypeInference.Unify.Complete.{unify_next_refuses, unify-err}
use metel.TypeInference.Constraints.Defs.{
  Constraint, is_integer_type, is_float_type, fits, check_literals, solve_constraint, solve_from,
  solve_constraints,
}
use metel.TypeInference.Constraints.Step.{
  unify_at, Solves-unify_at, map_err-eq-err, solve_constraint_lem, Advances-solve_constraint,
  LiteralsFit, check_literals_fit,
}
use metel.TypeInference.Constraints.Sound.{EquatesEach}

-- Every literal variable is of its kind under `τ`.
abbrev pub LiteralsAre : (ResolvedType → Bool) → (TypeVar → InferType) → List TypeVar → Type 0
LiteralsAre kind τ [] = Unit
LiteralsAre kind τ (v ∷ vs) = (fits kind (τ v) ≡ true) × LiteralsAre kind τ vs

fits_before :
    (kind : ResolvedType → Bool) (τ : TypeVar → InferType) (t : InferType)
    → fits kind (substitute τ t) ≡ true
    → fits kind t ≡ true
unfolding fits
fits_before kind τ (var v) h = refl
fits_before kind τ never h = refl
fits_before kind τ (concrete t) h = h
fits_before kind τ _ h = cc

-- A most general substitution passes the check that a solution passes.
LiteralsFit-of_LiteralsAre :
    (kind : ResolvedType → Bool) (τ : TypeVar → InferType) (s : Substitution) (vs : List TypeVar)
    → Refines τ s
    → LiteralsAre kind τ vs
    → LiteralsFit kind s vs
LiteralsFit-of_LiteralsAre kind τ s [] r h = tt
LiteralsFit-of_LiteralsAre kind τ s (v ∷ vs) r h = (
  fits_before kind τ (image s v) (ap (fits kind) (r v) ∙ h.0),
  LiteralsFit-of_LiteralsAre kind τ s vs r h.1,
)

unify_at_refuses :
    (fuel : ℕ) (span : Span) (a b : InferType) (e : MetelError)
    → unify_at fuel span a b ≡ err e
    → (τ : TypeVar → InferType) → ¬ Equates a b τ
unify_at_refuses fuel span a b e h =
    let (x, y, p) = map_err-eq-err (type_error t0001 span) (unify fuel a b) h in
    unify-err fuel a b y p

solve_constraint_refuses :
    (fuel : ℕ) (s : Substitution) (c : Constraint) (e : MetelError) (τ : TypeVar → InferType)
    → IsIdempotent s
    → Refines τ s
    → solve_constraint fuel s c ≡ err e
    → ¬ Equates c.lhs c.rhs τ
solve_constraint_refuses fuel s c e τ id r h =
    unify_next_refuses (unify_at fuel c.span) (Solves-unify_at fuel c.span)
      (unify_at_refuses fuel c.span) fuel τ s c.lhs c.rhs id r
      (sym (solve_constraint_lem fuel s c) ∙ h)

-- A round whose parts are known.
round_eq :
    (fuel : ℕ) (s q : Substitution) (c : Constraint) (cs : List Constraint)
    (ints floats : List TypeVar)
    → solve_constraint fuel s c ≡ ok q
    → check_literals is_integer_type fuel q c.span ints ≡ ok tt
    → check_literals is_float_type fuel q c.span floats ≡ ok tt
    → solve_from fuel s (c ∷ cs) ints floats ≡ solve_from fuel q cs ints floats
unfolding solve_from
round_eq fuel s q c cs ints floats e f g = rw (e, f, g)

module _ (fuel : ℕ) (ints floats : List TypeVar) (τ : TypeVar → InferType)
    (hi : LiteralsAre is_integer_type τ ints) (hf : LiteralsAre is_float_type τ floats) where
  solve_from-ne-err :
      (s : Substitution) (cs : List Constraint) (e : MetelError)
      → IsIdempotent s
      → Refines τ s
      → EquatesEach cs τ
      → solve_from fuel s cs ints floats ≢ err e
  unfolding solve_from
  solve_from-ne-err s [] e id r h p = cc
  solve_from-ne-err s (c ∷ cs) e id r h p =
      go (solve_constraint fuel s c) refl (λ q. solve_from-ne-err q cs e)
    where
      go :
          (o : Run Substitution)
          → solve_constraint fuel s c ≡ o
          → ((q : Substitution)
              → IsIdempotent q
              → Refines τ q
              → EquatesEach cs τ
              → solve_from fuel q cs ints floats ≢ err e)
          → ⊥
      go (ok q) x ih =
          let step = Advances-solve_constraint fuel s c q id x in
          let finer = step.general τ r h.0 in
          let same =
            round_eq fuel s q c cs ints floats x
              (check_literals_fit is_integer_type fuel q c.span step.idempotent ints
                (LiteralsFit-of_LiteralsAre is_integer_type τ q ints finer hi))
              (check_literals_fit is_float_type fuel q c.span step.idempotent floats
                (LiteralsFit-of_LiteralsAre is_float_type τ q floats finer hf)) in
          ih q step.idempotent finer h.1 (sym same ∙ p)
      go (err y) x ih = solve_constraint_refuses fuel s c y τ id r x h.0
      go out_of_fuel x ih = ground (arith, x, p)

-- If some `τ` makes both sides of each constraint equal and takes the literal variables to types of
-- their kind, then `solve_constraints` does not fail.
pub solve_constraints-ne-err :
    (fuel : ℕ) (cs : List Constraint) (ints floats : List TypeVar) (τ : TypeVar → InferType)
    → EquatesEach cs τ
    → LiteralsAre is_integer_type τ ints
    → LiteralsAre is_float_type τ floats
    → (e : MetelError) → solve_constraints fuel cs ints floats ≢ err e
unfolding solve_constraints
solve_constraints-ne-err fuel cs ints floats τ h hi hf e =
    solve_from-ne-err fuel ints floats τ hi hf [] cs e empty-IsIdempotent (Refines-empty τ) h
