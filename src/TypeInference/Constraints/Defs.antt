-- ===== src/TypeInference/Constraints/Defs.antt =====
-- typeinference/mod.rs, `Constraint`, the tests on resolved types and `solve_constraints`. The sets
-- of literal variables are lists: the order in which a `HashSet` is walked is left open.
use metel.Prelude.{ℕ, suc, Bool, true, false, [], ◌∷◌, List}
use metel.Error.{Span, MetelError, type_error, t0001}
use metel.Run.{Run, ok, err, out_of_fuel, ◌>>=◌, ◌>>◌}
use metel.Types.{ResolvedType, i8, i16, i32, i64, u8, u16, u32, u64, f32, f64}
use metel.TypeInference.Syntax.{TypeVar, InferType, concrete, var, never}
use metel.TypeInference.Substitution.Defs.{Substitution, apply, compose}
use metel.TypeInference.Unify.Defs.{unify}

pub record Constraint : Type 0 where
  pub lhs : InferType
  pub rhs : InferType
  pub span : Span

unfoldable pub is_integer_type : ResolvedType → Bool
is_integer_type i8 = true
is_integer_type i16 = true
is_integer_type i32 = true
is_integer_type i64 = true
is_integer_type u8 = true
is_integer_type u16 = true
is_integer_type u32 = true
is_integer_type u64 = true
is_integer_type _ = false

unfoldable pub is_float_type : ResolvedType → Bool
is_float_type f32 = true
is_float_type f64 = true
is_float_type _ = false

-- `map_err(|_| …)`
abbrev pub map_err {ℓ} : {A : Type ℓ} → MetelError → Run A → Run A
map_err e (ok a) = ok a
map_err e (err _) = err e
map_err e out_of_fuel = out_of_fuel

-- The arms that let a literal variable pass: a variable, `Never`, or a type of the kind.
unfoldable pub fits : (ResolvedType → Bool) → InferType → Bool
fits kind (var _) = true
fits kind never = true
fits kind (concrete t) = kind t
fits kind _ = false

abbrev pub check : Bool → MetelError → Run (Unit {0})
check true e = ok tt
check false e = err e

-- The loop over the literal variables of one kind.
unfoldable pub check_literals :
    (ResolvedType → Bool) → ℕ → Substitution → Span → List TypeVar → Run (Unit {0})
unfolding fits
check_literals kind fuel subst span [] = ok tt
check_literals kind fuel subst span (v ∷ vs) = do
  t ← apply (suc (suc fuel)) subst (var v)
  check (fits kind t) (type_error t0001 span)
  check_literals kind fuel subst span vs

-- One constraint: both sides applied, unified, the result composed.
unfoldable pub solve_constraint : ℕ → Substitution → Constraint → Run Substitution
solve_constraint fuel subst c = do
  lhs ← apply (suc (suc fuel)) subst c.lhs
  rhs ← apply (suc (suc fuel)) subst c.rhs
  s ← map_err (type_error t0001 c.span) (unify fuel lhs rhs)
  compose (suc (suc fuel)) subst s

-- The loop over the constraints.
unfoldable pub solve_from :
    ℕ → Substitution → List Constraint → List TypeVar → List TypeVar → Run Substitution
unfolding solve_constraint check_literals is_integer_type is_float_type
solve_from fuel subst [] ints floats = ok subst
solve_from fuel subst (c ∷ cs) ints floats = do
  subst' ← solve_constraint fuel subst c
  check_literals is_integer_type fuel subst' c.span ints
  check_literals is_float_type fuel subst' c.span floats
  solve_from fuel subst' cs ints floats

unfoldable pub solve_constraints :
    ℕ → List Constraint → List TypeVar → List TypeVar → Run Substitution
unfolding solve_from
solve_constraints fuel constraints ints floats = solve_from fuel [] constraints ints floats
