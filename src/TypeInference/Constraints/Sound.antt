-- ===== src/TypeInference/Constraints/Sound.antt =====
-- What `solve_constraints` returns satisfies every constraint and every literal variable.
use metel.Prelude.{ℕ, Bool, [], ◌∷◌, List, ◌≡◌, refl, arith}
use metel.Run.{ok, >>=-eq-ok}
use metel.Types.{ResolvedType}
use metel.TypeInference.Syntax.{TypeVar, InferType}
use metel.TypeInference.Substitution.Defs.{Substitution, lookup}
use metel.TypeInference.Substitution.Idempotent.{IsIdempotent}
use metel.TypeInference.Unify.Advance.{
  Advances, Advances-nothing, Advances-then, Refines, Refines-empty, Unifies, Equates, VarsOf,
  empty-IsIdempotent,
}
use metel.TypeInference.Unify.Sound.{later-Unifies}
use metel.TypeInference.Constraints.Defs.{
  Constraint, is_integer_type, is_float_type, fits, check_literals, solve_constraint, solve_from,
  solve_constraints,
}
use metel.TypeInference.Constraints.Step.{Advances-solve_constraint, LiteralsFit, check_literals_ok}

-- Every constraint of the list holds under the substitution, up to coercion.
abbrev pub UnifiesEach : List Constraint → Substitution → Type 0
UnifiesEach [] s = Unit
UnifiesEach (c ∷ cs) s = Unifies c.lhs c.rhs s × UnifiesEach cs s

abbrev pub EquatesEach : List Constraint → (TypeVar → InferType) → Type 0
EquatesEach [] τ = Unit
EquatesEach (c ∷ cs) τ = Equates c.lhs c.rhs τ × EquatesEach cs τ

abbrev pub VarsOfEach : List Constraint → (TypeVar → Type 0) → Type 0
VarsOfEach [] P = Unit
VarsOfEach (c ∷ cs) P = VarsOf c.lhs c.rhs P × VarsOfEach cs P

-- The parts of a successful round.
pub record Round (fuel : ℕ) (s : Substitution) (c : Constraint) (cs : List Constraint)
    (ints floats : List TypeVar) (r : Substitution) : Type 0 where
  pub next : Substitution
  pub solved : solve_constraint fuel s c ≡ ok next
  pub ints_pass : check_literals is_integer_type fuel next c.span ints ≡ ok tt
  pub floats_pass : check_literals is_float_type fuel next c.span floats ≡ ok tt
  pub rest : solve_from fuel next cs ints floats ≡ ok r

round :
    (fuel : ℕ) (s : Substitution) (c : Constraint) (cs : List Constraint)
    (ints floats : List TypeVar) {r : Substitution}
    → solve_from fuel s (c ∷ cs) ints floats ≡ ok r
    → Round fuel s c cs ints floats r
unfolding solve_from
round fuel s c cs ints floats h =
    let (q, e, f) = >>=-eq-ok (solve_constraint fuel s c) _ h in
    let (x, e₁, f₁) = >>=-eq-ok (check_literals is_integer_type fuel q c.span ints) _ f in
    let (y, e₂, f₂) = >>=-eq-ok (check_literals is_float_type fuel q c.span floats) _ f₁ in
    record { next = q; solved = e; ints_pass = e₁; floats_pass = e₂; rest = f₂ }

module _ (fuel : ℕ) (ints floats : List TypeVar) where
  pub Advances-solve_from :
      (s : Substitution) (cs : List Constraint) (r : Substitution)
      → IsIdempotent s
      → solve_from fuel s cs ints floats ≡ ok r
      → Advances s r (UnifiesEach cs r) (EquatesEach cs) (VarsOfEach cs)
  unfolding solve_from
  Advances-solve_from s [] r id h =
      let e : s ≡ r = ground arith in rw (← e) (Advances-nothing s (UnifiesEach [] s) id tt)
  Advances-solve_from s (c ∷ cs) r id h =
      let now = round fuel s c cs ints floats h in
      let first = Advances-solve_constraint fuel s c now.next id now.solved in
      let others = Advances-solve_from now.next cs r first.idempotent now.rest in
      Advances-then (UnifiesEach (c ∷ cs) r) first others
        (λ x u us. (later-Unifies c.lhs c.rhs now.next r others.later x u, us))

  -- Literal variables that fit still fit at the end.
  solve_from-LiteralsFit :
      (s : Substitution) (cs : List Constraint) (r : Substitution)
      → IsIdempotent s
      → LiteralsFit is_integer_type s ints
      → LiteralsFit is_float_type s floats
      → solve_from fuel s cs ints floats ≡ ok r
      → LiteralsFit is_integer_type r ints × LiteralsFit is_float_type r floats
  unfolding solve_from
  solve_from-LiteralsFit s [] r id hi hf h = let e : s ≡ r = ground arith in rw (← e) (hi, hf)
  solve_from-LiteralsFit s (c ∷ cs) r id hi hf h =
      let now = round fuel s c cs ints floats h in
      let id' = (Advances-solve_constraint fuel s c now.next id now.solved).idempotent in
      solve_from-LiteralsFit now.next cs r id'
        (check_literals_ok is_integer_type fuel now.next c.span id' ints now.ints_pass)
        (check_literals_ok is_float_type fuel now.next c.span id' floats now.floats_pass) now.rest

-- Variables fit.
empty-LiteralsFit : (kind : ResolvedType → Bool) (vs : List TypeVar) → LiteralsFit kind [] vs
unfolding lookup fits
empty-LiteralsFit kind [] = tt
empty-LiteralsFit kind (v ∷ vs) = (refl, empty-LiteralsFit kind vs)

-- If `solve_constraints` returns a substitution, then under it every constraint holds up to
-- coercion, and every literal variable stands for a variable, `Never` or a type of its kind.
pub solve_constraints_sound :
    (fuel : ℕ) (cs : List Constraint) (ints floats : List TypeVar) (s : Substitution)
    → solve_constraints fuel cs ints floats ≡ ok s
    → UnifiesEach cs s × LiteralsFit is_integer_type s ints × LiteralsFit is_float_type s floats
unfolding solve_constraints
solve_constraints_sound fuel cs ints floats s h =
    let advance = Advances-solve_from fuel ints floats [] cs s empty-IsIdempotent h in
    let fit =
      solve_from-LiteralsFit fuel ints floats [] cs s empty-IsIdempotent
        (empty-LiteralsFit is_integer_type ints) (empty-LiteralsFit is_float_type floats) h in
    (advance.achieves, fit.0, fit.1)

-- If `solve_constraints` returns a substitution, then every `τ` that makes both sides of each
-- constraint equal factors through it.
pub solve_constraints_most_general :
    (fuel : ℕ) (cs : List Constraint) (ints floats : List TypeVar) (s : Substitution)
    → solve_constraints fuel cs ints floats ≡ ok s
    → (τ : TypeVar → InferType) → EquatesEach cs τ
    → Refines τ s
unfolding solve_constraints
solve_constraints_most_general fuel cs ints floats s h τ e =
    (Advances-solve_from fuel ints floats [] cs s empty-IsIdempotent h).general τ (Refines-empty τ)
      e
