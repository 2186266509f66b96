-- ===== src/TypeInference/Registry/Merge.antt =====
-- What `merge_from` finds under a name.
use metel.Prelude.{String, Option, some, none, ◌≡◌, string_eq, pair_eq, arith}
use metel.Prelude.Map.{HashMap, get, or_else, get-merge}
use metel.TypeInference.Registry.Types.{TypeDefinitionRegistry}
use metel.TypeInference.Registry.Entries.{
  struct_fields, enum_info, method_type, get_in, fun_bounds_for, merge_from, struct_fields,
}

-- The methods of a type that one registry knows.
abbrev pub methods_or : {V : Type 0} → String → Option (HashMap String V) → Option V → Option V
methods_or m (some methods) o = get m methods
methods_or m none o = o

-- `merge_from` finds under the name of a struct, an enum or a function what the registry had, and
-- what the other had where it had nothing. Methods are found by the type as a whole: where the
-- registry knows any method of a type, it gains none.
pub merge_from_lem :
    (self other : TypeDefinitionRegistry) (name method : String)
    → (struct_fields name (merge_from self other)
        ≡ or_else (struct_fields name self) (struct_fields name other))
      × (enum_info name (merge_from self other)
          ≡ or_else (enum_info name self) (enum_info name other))
      × (fun_bounds_for name (merge_from self other)
          ≡ or_else (fun_bounds_for name self) (fun_bounds_for name other))
      × (method_type name method (merge_from self other)
          ≡ methods_or method (get name self.method_env) (method_type name method other))
unfolding merge_from struct_fields enum_info fun_bounds_for method_type get_in
merge_from_lem self other name method = (
  get-merge name self.struct_env other.struct_env,
  get-merge name self.enum_env other.enum_env,
  get-merge name self.fun_bounds other.fun_bounds,
  ground (arith, get-merge name self.method_env other.method_env),
)
