-- ===== src/TypeInference/Scheme/Defs.antt =====
-- typeinference/mod.rs, `free_vars`, `TypeScheme`, `generalize` and `instantiate`.
use metel.Prelude.{ℕ, List, [], ◌∷◌, String, map, Option, some, none, ℕ_eq}
use metel.Prelude.Map.{HashMap, get, insert}
use metel.Prelude.Sets.{extend, difference, sort}
use metel.Run.{Run, ok, ◌>>=◌}
use metel.TypeInference.Syntax.{
  TypeVar, TypeVarGenerator, fresh, InferType, InferTypes, concrete, var, never, fun, tuple, array,
  sized_array, pointer, mut_pointer, named, nil, cons,
}
use metel.TypeInference.Substitution.Defs.{Substitution, bind, apply}

unfoldable mutual
  unfolding extend

  pub free_vars : InferType → List TypeVar
  free_vars (concrete _) = []
  free_vars never = []
  free_vars (var v) = v ∷ []
  free_vars (fun params ret) = extend (free_vars ret) (free_vars_all params)
  free_vars (tuple ts) = free_vars_all ts
  free_vars (array t) = free_vars t
  free_vars (sized_array t _) = free_vars t
  free_vars (pointer t) = free_vars t
  free_vars (mut_pointer t) = free_vars t
  free_vars (named _ args) = free_vars_all args

  -- `flat_map(free_vars).collect()`
  pub free_vars_all : InferTypes → List TypeVar
  free_vars_all nil = []
  free_vars_all (cons t ts) = extend (free_vars t) (free_vars_all ts)

pub record TypeScheme : Type 0 where
  pub quantified_vars : List TypeVar
  pub param_names : List String
  pub ty : InferType

unfoldable pub mono : InferType → TypeScheme
mono t = record { quantified_vars = []; param_names = []; ty = t }

unfoldable pub generalize : InferType → List TypeVar → TypeScheme
unfolding free_vars difference sort
generalize t env_free_vars = record {
  quantified_vars = sort (difference (free_vars t) env_free_vars);
  param_names = [];
  ty = t;
}

-- `unwrap_or_default`
abbrev pub name_or_empty : Option String → String
name_or_empty (some name) = name
name_or_empty none = ""

unfoldable pub generalize_with_names :
    InferType → List TypeVar → HashMap TypeVar String → TypeScheme
unfolding generalize
generalize_with_names t env_free_vars name_map =
    let scheme = generalize t env_free_vars in
    record scheme { param_names = map (λ v. name_or_empty (get v name_map)) scheme.quantified_vars }

-- The loop of `instantiate`: each quantified variable is bound to a fresh one.
unfoldable pub bind_fresh :
    List TypeVar → TypeVarGenerator → Substitution → Substitution × TypeVarGenerator
unfolding fresh
bind_fresh [] gen subst = (subst, gen)
bind_fresh (v ∷ vs) gen subst =
    let (w, gen') = fresh gen in bind_fresh vs gen' (bind v (var w) subst)

unfoldable pub instantiate : ℕ → TypeScheme → TypeVarGenerator → Run (InferType × TypeVarGenerator)
unfolding bind_fresh
instantiate fuel scheme gen =
    let (subst, gen') = bind_fresh scheme.quantified_vars gen [] in
    apply fuel subst scheme.ty >>= λ t. ok (t, gen')

-- The loop of `instantiate_with_renaming`.
unfoldable pub bind_fresh_renaming :
    List TypeVar
    → TypeVarGenerator
    → Substitution
    → HashMap TypeVar TypeVar
    → Substitution × HashMap TypeVar TypeVar × TypeVarGenerator
unfolding fresh
bind_fresh_renaming [] gen subst renaming = (subst, renaming, gen)
bind_fresh_renaming (v ∷ vs) gen subst renaming =
    let (w, gen') = fresh gen in
    bind_fresh_renaming vs gen' (bind v (var w) subst) (insert v w renaming)

unfoldable pub instantiate_with_renaming :
    ℕ → TypeScheme → TypeVarGenerator → Run (InferType × HashMap TypeVar TypeVar × TypeVarGenerator)
unfolding bind_fresh_renaming
instantiate_with_renaming fuel scheme gen =
    let (subst, renaming, gen') = bind_fresh_renaming scheme.quantified_vars gen [] [] in
    apply fuel subst scheme.ty >>= λ t. ok (t, renaming, gen')
