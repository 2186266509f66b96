-- ===== src/Examples/Inference.antt =====
-- typeinference/mod.rs: unification and constraint solving at concrete types.
use metel.Prelude.{
  list_eq, List, [], ◌∷◌, ◌≡◌, ◌≢◌, refl, if◌then◌else◌, ◌==◌, ℕ_eq, string_eq, pair_eq,
}
use metel.Prelude.Map.{get, or_insert}
use metel.Error.{Span, internal, i0001, type_error, t0001}
use metel.Run.{ok, err}
use metel.Run.Returns.{Returns}
use metel.TypeInference.Syntax.{TypeVar, InferType, var, fun, tuple, array, nil, cons, int, float}
use metel.TypeInference.Substitution.Defs.{Substitution, apply, lookup}
use metel.TypeInference.Substitution.Walk.{apply_with}
use metel.TypeInference.Substitution.Algebra.{substitute}
use metel.TypeInference.Unify.Compatible.{Compatible}
use metel.TypeInference.Unify.Defs.{unify}
use metel.TypeInference.Unify.Advance.{Equates, Refines}
use metel.TypeInference.Unify.Correct.{unify_sound, unify_most_general, unify_idempotent}
use metel.TypeInference.Unify.Complete.{unify-err}
use metel.TypeInference.Unify.Terminates.{unify_terminates}
use metel.TypeInference.Constraints.Defs.{
  Constraint, is_integer_type, is_float_type, solve_constraints,
}
use metel.TypeInference.Constraints.Step.{LiteralsFit}
use metel.TypeInference.Constraints.Sound.{
  UnifiesEach, EquatesEach, solve_constraints_sound, solve_constraints_most_general,
}
use metel.TypeInference.Constraints.Complete.{LiteralsAre, solve_constraints-ne-err}
use metel.TypeInference.Constraints.Errors.{IsMismatchOf, solve_constraints-err}
use metel.TypeInference.Constraints.Terminates.{solve_constraints_terminates}
use metel.TypeInference.Constraints.Defs.{fits}

abbrev pub span : Span
span = record { start = 0; end = 3; filename = "main.mtl"; line = 1; col = 1 }

-- `(α1, [α2]) -> α1` and `(Int, [Bool array of 3]) -> α3`.
abbrev pub generic_fun : InferType
generic_fun = fun (cons (var 1) (cons (array (var 2)) nil)) (var 1)

abbrev int_fun : InferType
int_fun = fun (cons int (cons (array (tuple (cons (var 4) nil))) nil)) (var 3)

abbrev fun_solution : Substitution
fun_solution = (2, tuple (cons (var 4) nil)) ∷ (1, int) ∷ (3, int) ∷ []

unify_runs : unify 6 generic_fun int_fun ≡ ok fun_solution
unfolding unify apply_with lookup or_insert
unify_runs = refl

unify_sound_example :
    (t : InferType) × (u : InferType) × (apply 2 fun_solution generic_fun ≡ ok t)
    × (apply 2 fun_solution int_fun ≡ ok u)
    × Compatible t u
unify_sound_example = unify_sound 6 generic_fun int_fun fun_solution unify_runs 0

-- A substitution that makes the two types equal.
abbrev ground_types : TypeVar → InferType
ground_types v = if v == 2 then tuple (cons float nil) else if v == 4 then float else int

ground_types-Equates : Equates generic_fun int_fun ground_types
ground_types-Equates = refl

apply_solution : apply 2 fun_solution (array (var 2)) ≡ ok (array (tuple (cons (var 4) nil)))
unfolding apply apply_with lookup get
apply_solution = refl

unify_most_general_example :
    substitute ground_types (array (tuple (cons (var 4) nil)))
    ≡ substitute ground_types (array (var 2))
unify_most_general_example =
    unify_most_general 6 generic_fun int_fun fun_solution unify_runs ground_types
      ground_types-Equates 0 (array (var 2)) (array (tuple (cons (var 4) nil))) apply_solution

unify_idempotent_example :
    apply 1 fun_solution (array (tuple (cons (var 4) nil))) ≡ ok (array (tuple (cons (var 4) nil)))
unify_idempotent_example =
    unify_idempotent 6 generic_fun int_fun fun_solution unify_runs 0 (array (var 2))
      (array (tuple (cons (var 4) nil))) apply_solution

-- `α1` and `[α1]`: the occurs check.
occurs_runs : unify 3 (var 1) (array (var 1)) ≡ err (internal i0001)
unfolding unify
occurs_runs = refl

unify-err_example : ¬ Equates (var 1) (array (var 1)) ground_types
unify-err_example = unify-err 3 (var 1) (array (var 1)) (internal i0001) occurs_runs ground_types

unify_terminates_example : Returns (λ fuel. unify fuel generic_fun int_fun)
unify_terminates_example = unify_terminates generic_fun int_fun

-- `let x = 1; y: Int = x` and a list of the two.
abbrev pub constraints : List Constraint
constraints =
    record { lhs = var 1; rhs = var 2; span = span }
    ∷ record { lhs = array (var 2); rhs = array int; span = span }
    ∷ []

abbrev solution : Substitution
solution = (1, int) ∷ (2, int) ∷ []

solve_runs : solve_constraints 5 constraints (1 ∷ []) [] ≡ ok solution
unfolding solve_constraints apply_with lookup or_insert unify
solve_runs = refl

solve_constraints_sound_example :
    UnifiesEach constraints solution
    × LiteralsFit is_integer_type solution (1 ∷ [])
    × LiteralsFit is_float_type solution []
solve_constraints_sound_example =
    solve_constraints_sound 5 constraints (1 ∷ []) [] solution solve_runs

abbrev all_int : TypeVar → InferType
all_int _ = int

all_int-EquatesEach : EquatesEach constraints all_int
all_int-EquatesEach = (refl, (refl, tt))

all_int-LiteralsAre : LiteralsAre is_integer_type all_int (1 ∷ [])
unfolding fits is_integer_type
all_int-LiteralsAre = (refl, tt)

solve_constraints_most_general_example : Refines all_int solution
solve_constraints_most_general_example =
    solve_constraints_most_general 5 constraints (1 ∷ []) [] solution solve_runs all_int
      all_int-EquatesEach

solve_constraints-ne-err_example :
    solve_constraints 5 constraints (1 ∷ []) [] ≢ err (type_error t0001 span)
solve_constraints-ne-err_example =
    solve_constraints-ne-err 5 constraints (1 ∷ []) [] all_int all_int-EquatesEach
      all_int-LiteralsAre tt (type_error t0001 span)

-- The literal is integral, and its variable is made a float.
abbrev float_constraint : List Constraint
float_constraint = record { lhs = var 1; rhs = float; span = span } ∷ []

literal_runs : solve_constraints 5 float_constraint (1 ∷ []) [] ≡ err (type_error t0001 span)
unfolding solve_constraints apply_with lookup or_insert unify
literal_runs = refl

solve_constraints-err_example : IsMismatchOf float_constraint (type_error t0001 span)
solve_constraints-err_example =
    solve_constraints-err 5 float_constraint (1 ∷ []) [] (type_error t0001 span) literal_runs

solve_constraints_terminates_example :
    Returns (λ fuel. solve_constraints fuel constraints (1 ∷ []) [])
solve_constraints_terminates_example = solve_constraints_terminates constraints (1 ∷ []) []
