-- ===== src/Examples/Context.antt =====
-- typeinference/mod.rs: schemes, the inference context and the registry at concrete values.
use metel.Prelude.{
  list_eq, List, [], ◌∷◌, some, none, true, false, ◌≡◌, refl, arith, ◌+◌, if◌then◌else◌, str_eq,
  ◌||◌, ◌&&◌, ◌==◌, ℕ_eq, string_eq, pair_eq,
}
use metel.Prelude.Map.{get, or_else}
use metel.Run.{ok, err}
use metel.Error.{type_error, t0006}
use metel.Types.{f64}
use metel.Prelude.Sets.{contains, IsSorted}
use metel.TypeInference.Syntax.{TypeVar, TypeVarGenerator, InferType, var, int, float, occurs_in}
use metel.TypeInference.Substitution.Defs.{Substitution, lookup, apply}
use metel.TypeInference.Substitution.Vars.{AllVars}
use metel.TypeInference.Substitution.Algebra.{substitute}
use metel.TypeInference.Substitution.Idempotent.{image, IsIdempotent}
use metel.TypeInference.Scheme.Defs.{TypeScheme, generalize, instantiate}
use metel.TypeInference.Scheme.Generalize.{generalize_lem}
use metel.TypeInference.Scheme.Instantiate.{
  AllBelow, FreshOrFree, MovesQuantified, instantiate_fresh,
}
use metel.TypeInference.Registry.Types.{TypeDefinitionRegistry, new}
use metel.TypeInference.Registry.Structs.{push_struct_scope, pop_struct_scope}
use metel.TypeInference.Registry.Entries.{
  struct_fields, enum_info, method_type, fun_bounds_for, merge_from, has_from_impl,
  register_aspect_impl, starts_with_type,
}
use metel.TypeInference.Registry.Scopes.{register_all, registers, struct_scope}
use metel.TypeInference.Registry.Merge.{methods_or, merge_from_lem}
use metel.TypeInference.Registry.Impls.{has_from_impl-register_aspect_impl}
use metel.TypeInference.Context.State.{InferContext}
use metel.TypeInference.Context.Names.{push_scope, pop_scope, bind_mono, lookup_for_write}
use metel.TypeInference.Context.Literals.{default_literal_vars}
use metel.TypeInference.Context.Defaults.{default_type, apply-default_literal_vars}
use metel.TypeInference.Context.Scoping.{
  Binding, mono, poly, poly_if_absent, bind_all, pop_scope-push_scope,
}
use metel.TypeInference.Context.Lookup.{lookup_for_write-bind_mono}
use metel.Examples.Inference.{span, generic_fun, constraints}

-- `{ let id = ...; }` where `α2` is free in the environment.
generalize_lem_example :
    ((v : TypeVar)
      → contains v (generalize generic_fun (2 ∷ [])).quantified_vars
        ≡ (if contains v (2 ∷ []) then false else occurs_in v generic_fun))
    × IsSorted (generalize generic_fun (2 ∷ [])).quantified_vars
    × ((generalize generic_fun (2 ∷ [])).ty ≡ generic_fun)
generalize_lem_example = generalize_lem generic_fun (2 ∷ [])

abbrev scheme : TypeScheme
scheme = record { quantified_vars = 1 ∷ 2 ∷ []; param_names = []; ty = generic_fun }

abbrev gen : TypeVarGenerator
gen = record { counter = 7 }

scheme-AllBelow : AllBelow 7 (1 ∷ 2 ∷ [])
scheme-AllBelow = (omega arith, (omega arith, tt))

instantiate_fresh_example :
    (s : Substitution) × (gen' : TypeVarGenerator) × (instantiate 2 scheme gen
      ≡ ok (substitute (image s) generic_fun, gen'))
    × (gen'.counter ≡ 7 + 2)
    × AllVars (FreshOrFree scheme 7 gen'.counter) (substitute (image s) generic_fun)
    × ((v : TypeVar) → MovesQuantified scheme 7 gen'.counter s v)
    × ((v w x : TypeVar) → lookup v s ≡ some (var x) → lookup w s ≡ some (var x) → v ≡ w)
instantiate_fresh_example = instantiate_fresh 0 scheme gen scheme-AllBelow (omega arith)

abbrev registry : TypeDefinitionRegistry
registry = record new { struct_env = ("Point", []) ∷ [] }

abbrev context : InferContext
context = record {
  var_gen = gen;
  mono_env = record { inner = ("x", (var 2, false)) ∷ []; outer = [] };
  poly_env = record { inner = ("id", scheme) ∷ []; outer = [] };
  constraints = constraints;
  current_return_type = none;
  current_break_type = none;
  registry = registry;
  current_type_params = [];
  current_type_param_bounds = [];
  current_module_path = [];
  deferred_glob_conflicts = [];
  integer_literal_vars = 1 ∷ 5 ∷ [];
  float_literal_vars = 6 ∷ [];
}

-- `α5` stands for `α1`.
abbrev literals : Substitution
literals = (5, var 1) ∷ []

literals-IsIdempotent : IsIdempotent literals
unfolding lookup get
literals-IsIdempotent = record { closed = λ v t e. ground (arith, e) }

apply-default_literal_vars_example :
    (r : Substitution) × (default_literal_vars 3 context literals ≡ ok r)
    × ((t : InferType)
        → apply 3 r t
          ≡ ok (substitute (default_type context literals) (substitute (image literals) t)))
apply-default_literal_vars_example =
    apply-default_literal_vars 0 context literals literals-IsIdempotent

-- `α1` and `α5` become `i64`, `α6` becomes `f64`, and `α2` is left.
defaults_of_literals :
    (substitute (default_type context literals) (substitute (image literals) generic_fun)
      ≡ substitute (λ v. if v == 1 then int else var v) generic_fun)
    × (substitute (default_type context literals) (image literals 5) ≡ int)
    × (substitute (default_type context literals) (image literals 6) ≡ float)
unfolding default_type lookup
defaults_of_literals = (refl, refl, refl)

abbrev bindings : List Binding
bindings = mono "x" int true ∷ poly_if_absent "id" scheme ∷ poly "f" scheme ∷ []

pop_scope-push_scope_example : pop_scope (bind_all bindings (push_scope context)) ≡ some context
pop_scope-push_scope_example = pop_scope-push_scope bindings context

-- A parameter `x` that can be written to, where the `x` outside cannot.
lookup_for_write-bind_mono_example :
    lookup_for_write "x" span (bind_mono "x" int true (push_scope context)) ≡ (
      if str_eq "x" "x"
      then if true then ok int else err (type_error t0006 span)
      else lookup_for_write "x" span context)
lookup_for_write-bind_mono_example = lookup_for_write-bind_mono "x" "x" int true span context

-- A local struct `Point`, where there is a `Point` outside.
struct_scope_example :
    (struct_fields "Point" (
        pop_struct_scope
          (register_all (("Point", [], []) ∷ ("Local", [], []) ∷ []) (push_struct_scope registry)))
      ≡ (if registers "Point" (("Point", [], []) ∷ ("Local", [], []) ∷ [])
          then none
          else struct_fields "Point" registry))
    × ((pop_struct_scope (
          register_all
            (("Point", [], []) ∷ ("Local", [], []) ∷ [])
            (push_struct_scope registry))).struct_scope_stack
        ≡ registry.struct_scope_stack)
struct_scope_example = struct_scope (("Point", [], []) ∷ ("Local", [], []) ∷ []) registry "Point"

abbrev imported : TypeDefinitionRegistry
imported = record new {
  struct_env = ("Line", []) ∷ [];
  method_env = ("Point", ("norm", float) ∷ []) ∷ [];
}

merge_from_lem_example :
    (struct_fields "Line" (merge_from registry imported)
      ≡ or_else (struct_fields "Line" registry) (struct_fields "Line" imported))
    × (enum_info "Line" (merge_from registry imported)
        ≡ or_else (enum_info "Line" registry) (enum_info "Line" imported))
    × (fun_bounds_for "Line" (merge_from registry imported)
        ≡ or_else (fun_bounds_for "Line" registry) (fun_bounds_for "Line" imported))
    × (method_type "Line" "norm" (merge_from registry imported)
        ≡ methods_or "norm" (get "Line" registry.method_env) (method_type "Line" "norm" imported))
merge_from_lem_example = merge_from_lem registry imported "Line" "norm"

has_from_impl-register_aspect_impl_example :
    has_from_impl "Meters" f64 (register_aspect_impl "Meters" "From" (f64 ∷ []) registry) ≡ (
      has_from_impl "Meters" f64 registry
      || (str_eq "Meters" "Meters" && str_eq "From" "From" && starts_with_type f64 (f64 ∷ [])))
has_from_impl-register_aspect_impl_example =
    has_from_impl-register_aspect_impl "Meters" "From" (f64 ∷ []) registry "Meters" f64
