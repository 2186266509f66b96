-- ===== src/TypeInference/Scheme/Generalize.antt =====
-- What `generalize` quantifies over.
use metel.Prelude.{false, List, ◌≡◌, refl, ◌∙◌, arith, if◌then◌else◌}
use metel.Prelude.Sets.{
  contains, contains-extend, contains-difference, contains-sort, difference, IsSorted,
  sort-IsSorted,
}
use metel.TypeInference.Syntax.{
  TypeVar, InferType, InferTypes, concrete, var, never, fun, tuple, array, sized_array, pointer,
  mut_pointer, named, nil, cons, occurs_in, occurs_in_any,
}
use metel.TypeInference.Scheme.Defs.{free_vars, free_vars_all, generalize}

-- The free variables are those that occur.
mutual
  unfolding free_vars occurs_in contains

  pub contains-free_vars : (v : TypeVar) (t : InferType) → contains v (free_vars t) ≡ occurs_in v t
  contains-free_vars v (concrete _) = refl
  contains-free_vars v never = refl
  contains-free_vars v (var w) = ground arith
  contains-free_vars v (fun ps t) = ground (
    arith,
    contains-extend v (free_vars t) (free_vars_all ps),
    contains-free_vars v t,
    contains-free_vars_all v ps,
  )
  contains-free_vars v (tuple ts) = contains-free_vars_all v ts
  contains-free_vars v (array t) = contains-free_vars v t
  contains-free_vars v (sized_array t _) = contains-free_vars v t
  contains-free_vars v (pointer t) = contains-free_vars v t
  contains-free_vars v (mut_pointer t) = contains-free_vars v t
  contains-free_vars v (named _ ts) = contains-free_vars_all v ts

  contains-free_vars_all :
      (v : TypeVar) (ts : InferTypes) → contains v (free_vars_all ts) ≡ occurs_in_any v ts
  contains-free_vars_all v nil = refl
  contains-free_vars_all v (cons t ts) = ground (
    arith,
    contains-extend v (free_vars t) (free_vars_all ts),
    contains-free_vars v t,
    contains-free_vars_all v ts,
  )

-- `generalize` quantifies, in ascending order, over exactly the variables that occur in the type and
-- not in the environment, and keeps the type.
pub generalize_lem :
    (t : InferType) (env : List TypeVar)
    → ((v : TypeVar)
        → contains v (generalize t env).quantified_vars
          ≡ (if contains v env then false else occurs_in v t))
      × IsSorted (generalize t env).quantified_vars
      × ((generalize t env).ty ≡ t)
unfolding generalize
generalize_lem t env = (
  (λ v.
      contains-sort v (difference (free_vars t) env)
      ∙ contains-difference v (free_vars t) env
      ∙ rw (contains-free_vars v t)),
  sort-IsSorted (difference (free_vars t) env),
  refl,
)
