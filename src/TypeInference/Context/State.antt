-- ===== src/TypeInference/Context/State.antt =====
-- typeinference/mod.rs, `InferContext`. The source's stacks of scopes are never empty: a stack is its
-- innermost scope and the list of the outer ones, the nearest first. The calls that only hand on to
-- the registry are those of Registry.
use metel.Prelude.{ℕ, String, List, [], ◌∷◌, Option, some, none, Bool, string_eq, ℕ_eq}
use metel.Prelude.Map.{HashMap, get, insert}
use metel.Error.{Span, MetelError, type_error, t0011}
use metel.Run.{Run}
use metel.TypeInference.Syntax.{TypeVar, TypeVarGenerator, fresh, InferType}
use metel.TypeInference.Substitution.Defs.{Substitution}
use metel.TypeInference.Constraints.Defs.{Constraint, solve_constraints}
use metel.TypeInference.Scheme.Defs.{TypeScheme}
use metel.TypeInference.Registry.Types.{ModulePath, TypeDefinitionRegistry}

pub record Scopes (V : Type 0) : Type 0 where
  pub inner : HashMap String V
  pub outer : List (HashMap String V)

pub record InferContext : Type 0 where
  pub var_gen : TypeVarGenerator
  pub mono_env : Scopes (InferType × Bool)
  pub poly_env : Scopes TypeScheme
  pub constraints : List Constraint
  pub current_return_type : Option InferType
  pub current_break_type : Option InferType
  pub registry : TypeDefinitionRegistry
  pub current_type_params : HashMap String TypeVar
  pub current_type_param_bounds : HashMap TypeVar (List String)
  pub current_module_path : ModulePath
  pub deferred_glob_conflicts : HashMap String (List ModulePath)
  pub integer_literal_vars : List TypeVar
  pub float_literal_vars : List TypeVar

-- `last_mut().unwrap().insert(name, v)`
abbrev pub insert_inner : {V : Type 0} → String → V → Scopes V → Scopes V
insert_inner name v s = record s { inner = insert name v s.inner }

unfoldable pub bind_poly : String → TypeScheme → InferContext → InferContext
bind_poly name scheme ctx = record ctx { poly_env = insert_inner name scheme ctx.poly_env }

-- The loop of `new` over the imported schemes.
unfoldable pub bind_imported : List (String × TypeScheme) → InferContext → InferContext
unfolding bind_poly
bind_imported [] ctx = ctx
bind_imported ((name, scheme) ∷ schemes) ctx = bind_imported schemes (bind_poly name scheme ctx)

-- `InferContext::new`
unfoldable pub new_context :
    TypeDefinitionRegistry
    → TypeVarGenerator
    → HashMap String TypeScheme
    → ModulePath
    → InferContext
unfolding bind_imported
new_context registry gen imported_schemes current_module_path =
    bind_imported imported_schemes (record {
      var_gen = gen;
      mono_env = record { inner = []; outer = [] };
      poly_env = record { inner = []; outer = [] };
      constraints = [];
      current_return_type = none;
      current_break_type = none;
      registry = registry;
      current_type_params = [];
      current_type_param_bounds = [];
      current_module_path = current_module_path;
      deferred_glob_conflicts = [];
      integer_literal_vars = [];
      float_literal_vars = [];
    })

unfoldable pub seed_glob_conflicts : HashMap String (List ModulePath) → InferContext → InferContext
seed_glob_conflicts conflicts ctx = record ctx { deferred_glob_conflicts = conflicts }

unfoldable pub check_glob_conflict : String → Span → InferContext → Option MetelError
check_glob_conflict name span ctx = elim (get name ctx.deferred_glob_conflicts) [
  | none ↦ none
  | some sources ↦ some (type_error t0011 span)
]

unfoldable pub fresh_type_var_raw : InferContext → TypeVar × InferContext
unfolding fresh
fresh_type_var_raw ctx = let (v, gen) = fresh ctx.var_gen in (v, record ctx { var_gen = gen })

unfoldable pub swap_type_params :
    HashMap String TypeVar → InferContext → HashMap String TypeVar × InferContext
swap_type_params map ctx = (ctx.current_type_params, record ctx { current_type_params = map })

unfoldable pub swap_type_param_bounds :
    HashMap TypeVar (List String) → InferContext → HashMap TypeVar (List String) × InferContext
swap_type_param_bounds bounds ctx =
    (ctx.current_type_param_bounds, record ctx { current_type_param_bounds = bounds })

unfoldable pub bounds_for_type_var : TypeVar → InferContext → Option (List String)
bounds_for_type_var v ctx = get v ctx.current_type_param_bounds

unfoldable pub split_gen : InferContext → TypeVarGenerator
split_gen ctx = record { counter = ctx.var_gen.counter }

unfoldable pub add_constraint : InferType → InferType → Span → InferContext → InferContext
add_constraint lhs rhs span ctx = record ctx {
  constraints = append ctx.constraints (record { lhs = lhs; rhs = rhs; span = span });
}
  where
    append : List Constraint → Constraint → List Constraint
    append [] c = c ∷ []
    append (d ∷ ds) c = d ∷ append ds c

unfoldable pub solve : ℕ → InferContext → Run Substitution
unfolding solve_constraints
solve fuel ctx =
    solve_constraints fuel ctx.constraints ctx.integer_literal_vars ctx.float_literal_vars

unfoldable pub push_return_type : InferType → InferContext → Option InferType × InferContext
push_return_type t ctx = (ctx.current_return_type, record ctx { current_return_type = some t })

unfoldable pub pop_return_type : Option InferType → InferContext → InferContext
pop_return_type prev ctx = record ctx { current_return_type = prev }

unfoldable pub push_break_type : InferType → InferContext → Option InferType × InferContext
push_break_type t ctx = (ctx.current_break_type, record ctx { current_break_type = some t })

unfoldable pub pop_break_type : Option InferType → InferContext → InferContext
pop_break_type prev ctx = record ctx { current_break_type = prev }
