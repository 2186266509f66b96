-- ===== src/TypeInference/Context/Names.antt =====
-- typeinference/mod.rs, `InferContext`: scopes and the names bound in them.
use metel.Prelude.{ℕ, String, List, [], ◌∷◌, Option, some, none, Bool, true, false, string_eq, ℕ_eq}
use metel.Prelude.Map.{HashMap, get, or_insert, or_else}
use metel.Prelude.Sets.{extend}
use metel.Error.{Span, type_error, t0003, t0006}
use metel.Run.{Run, ok, err, ◌>>=◌}
use metel.TypeInference.Syntax.{TypeVar, InferType}
use metel.TypeInference.Scheme.Defs.{TypeScheme, free_vars, instantiate}
use metel.TypeInference.Context.State.{Scopes, InferContext, insert_inner}

abbrev pub push : {V : Type 0} → Scopes V → Scopes V
push s = record { inner = []; outer = s.inner ∷ s.outer }

-- `none` is the panic at the root scope.
abbrev pub pop_outer : {V : Type 0} → List (HashMap String V) → Option (Scopes V)
pop_outer [] = none
pop_outer (scope ∷ scopes) = some (record { inner = scope; outer = scopes })

unfoldable pub push_scope : InferContext → InferContext
push_scope ctx = record ctx { mono_env = push ctx.mono_env; poly_env = push ctx.poly_env }

unfoldable pub pop_scope : InferContext → Option InferContext
pop_scope ctx = elim (pop_outer ctx.mono_env.outer) [
  | none ↦ none
  | some mono ↦ elim (pop_outer ctx.poly_env.outer) [
    | none ↦ none
    | some poly ↦ some (record ctx { mono_env = mono; poly_env = poly })
  ]
]

unfoldable pub bind_mono : String → InferType → Bool → InferContext → InferContext
bind_mono name t is_mutable ctx = record ctx {
  mono_env = insert_inner name (t, is_mutable) ctx.mono_env;
}

unfoldable pub bind_poly_if_absent : String → TypeScheme → InferContext → InferContext
bind_poly_if_absent name scheme ctx = record ctx {
  poly_env = record (ctx.poly_env) { inner = or_insert name scheme ctx.poly_env.inner };
}

-- `iter().rev().find_map(|s| s.get(name))`
unfoldable pub find_in : {V : Type 0} → String → List (HashMap String V) → Option V
find_in name [] = none
find_in name (scope ∷ scopes) = or_else (get name scope) (find_in name scopes)

unfoldable pub find_name : {V : Type 0} → String → Scopes V → Option V
unfolding find_in
find_name name s = find_in name (s.inner ∷ s.outer)

abbrev pub mono_type : Option (InferType × Bool) → Option InferType
mono_type (some (t, _)) = some t
mono_type none = none

-- A scheme, where there is one, instantiated with variables drawn from the generator; else the type.
abbrev pub lookup_result :
    ℕ
    → InferContext
    → Option (InferType × Bool)
    → Option TypeScheme
    → Run (Option InferType × InferContext)
lookup_result fuel ctx mono (some scheme) =
    instantiate fuel scheme ctx.var_gen >>= λ (t, gen). ok (some t, record ctx { var_gen = gen })
lookup_result fuel ctx mono none = ok (mono_type mono, ctx)

-- `InferContext::lookup`
unfoldable pub lookup_name : ℕ → String → InferContext → Run (Option InferType × InferContext)
lookup_name fuel name ctx =
    lookup_result fuel ctx (find_name name ctx.mono_env) (find_name name ctx.poly_env)

abbrev pub write_type : Span → Option (InferType × Bool) → Run InferType
write_type span none = err (type_error t0003 span)
write_type span (some (t, false)) = err (type_error t0006 span)
write_type span (some (t, true)) = ok t

unfoldable pub lookup_for_write : String → Span → InferContext → Run InferType
unfolding find_name
lookup_for_write name span ctx = write_type span (find_name name ctx.mono_env)

-- `scope.values()`, each with its free variables.
unfoldable pub scope_free_vars : HashMap String (InferType × Bool) → List TypeVar
scope_free_vars [] = []
scope_free_vars ((_, (t, _)) ∷ scope) = extend (free_vars t) (scope_free_vars scope)

unfoldable pub scopes_free_vars : List (HashMap String (InferType × Bool)) → List TypeVar
unfolding scope_free_vars
scopes_free_vars [] = []
scopes_free_vars (scope ∷ scopes) = extend (scope_free_vars scope) (scopes_free_vars scopes)

unfoldable pub env_free_vars : InferContext → List TypeVar
unfolding scopes_free_vars
env_free_vars ctx = scopes_free_vars (ctx.mono_env.inner ∷ ctx.mono_env.outer)
