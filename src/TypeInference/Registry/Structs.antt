-- ===== src/TypeInference/Registry/Structs.antt =====
-- typeinference/mod.rs, `TypeDefinitionRegistry`: the fields of structs and their lexical scopes.
use metel.Prelude.{String, List, [], ◌∷◌, ◌++◌, string_eq, ℕ_eq, pair_eq}
use metel.Prelude.Map.{insert, remove}
use metel.TypeInference.Registry.Types.{ModulePath, FieldEntry, TypeDefinitionRegistry}

-- `scope.push(name)` on the last scope, if there is one.
unfoldable pub push_name : String → List (List String) → List (List String)
push_name name [] = []
push_name name (scope ∷ scopes) = (scope ++ name ∷ []) ∷ scopes

unfoldable pub register_struct_fields :
    String → List FieldEntry → ModulePath → TypeDefinitionRegistry → TypeDefinitionRegistry
unfolding push_name
register_struct_fields name fields declaring_module r = record r {
  struct_env = insert name fields r.struct_env;
  struct_decl_modules = insert name declaring_module r.struct_decl_modules;
  struct_scope_stack = push_name name r.struct_scope_stack;
}

unfoldable pub push_struct_scope : TypeDefinitionRegistry → TypeDefinitionRegistry
push_struct_scope r = record r { struct_scope_stack = [] ∷ r.struct_scope_stack }

-- The loop of `pop_struct_scope`.
unfoldable pub remove_structs : List String → TypeDefinitionRegistry → TypeDefinitionRegistry
remove_structs [] r = r
remove_structs (name ∷ names) r = remove_structs names (record r {
  struct_env = remove name r.struct_env;
  struct_decl_modules = remove name r.struct_decl_modules;
})

abbrev pub pop_names : List (List String) → TypeDefinitionRegistry → TypeDefinitionRegistry
pop_names [] r = r
pop_names (names ∷ scopes) r = remove_structs names (record r { struct_scope_stack = scopes })

unfoldable pub pop_struct_scope : TypeDefinitionRegistry → TypeDefinitionRegistry
unfolding remove_structs
pop_struct_scope r = pop_names r.struct_scope_stack r
