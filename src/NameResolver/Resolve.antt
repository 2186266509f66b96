-- ===== src/NameResolver/Resolve.antt =====
-- name_resolver.rs, `resolve`: its three passes over the modules of the graph.
use metel.Prelude.{
  String, List, [], ◌∷◌, Option, some, none, if◌then◌else◌, string_eq, list_eq, pair_eq,
}
use metel.Prelude.Map.{HashMap, get, insert}
use metel.Run.{Run, ok, ◌>>=◌}
use metel.Ast.Trees.{Decl, Decls, nil_decls, cons_decls}
use metel.NameResolver.Defs.{
  ModulePath, ImportBinding, ModuleScope, SymbolTable, LoadedModule, ModuleGraph, ResolvedNames,
  new_table, intern, member, decl_pub_name, decl_any_name,
}
use metel.NameResolver.Imports.{collect_re_exports, resolve_module}

abbrev add_name : Option String → List String → List String
add_name none names = names
add_name (some name) names = if member name names then names else name ∷ names

-- `filter_map(…).collect()`
unfoldable pub names_by : (Decl → Option String) → Decls → List String
names_by f nil_decls = []
names_by f (cons_decls d decls) = add_name (f d) (names_by f decls)

-- The names by module; a module that occurs twice has those of its last occurrence.
unfoldable pub names_of_modules :
    (Decl → Option String)
    → List LoadedModule
    → HashMap ModulePath (List String)
    → HashMap ModulePath (List String)
unfolding names_by insert
names_of_modules f [] found = found
names_of_modules f (m ∷ modules) found =
    names_of_modules f modules (insert m.module_path (names_by f m.program.decls) found)

abbrev pub intern_name : ModulePath → Option String → SymbolTable → SymbolTable
intern_name path none sym = sym
intern_name path (some name) sym = (intern path name sym).1

unfoldable pub intern_decls : ModulePath → Decls → SymbolTable → SymbolTable
unfolding intern decl_any_name
intern_decls path nil_decls sym = sym
intern_decls path (cons_decls d decls) sym =
    intern_decls path decls (intern_name path (decl_any_name d) sym)

unfoldable pub intern_modules : List LoadedModule → SymbolTable → SymbolTable
unfolding intern_decls
intern_modules [] sym = sym
intern_modules (m ∷ modules) sym =
    intern_modules modules (intern_decls m.module_path m.program.decls sym)

abbrev pub or_empty : Option (List String) → List String
or_empty (some names) = names
or_empty none = []

-- `extend(re_exported.keys().cloned())`
abbrev pub extend_names : List String → HashMap String ImportBinding → List String
extend_names names [] = names
extend_names names ((name, _) ∷ re_exported) = extend_names (add_name (some name) names) re_exported

module _ (known_modules : List ModulePath) (path_aliases : HashMap ModulePath ModulePath) where
  -- The second pass.
  unfoldable pub extend_surface :
      List LoadedModule
      → HashMap ModulePath (List String)
      → SymbolTable
      → Run (HashMap ModulePath (List String) × SymbolTable)
  unfolding collect_re_exports get insert
  extend_surface [] pub_surface sym = ok (pub_surface, sym)
  extend_surface (loaded ∷ modules) pub_surface sym = do
    (re_exported, sym') ← collect_re_exports known_modules pub_surface path_aliases loaded sym
    extend_surface modules
        (insert loaded.module_path
          (extend_names (or_empty (get loaded.module_path pub_surface)) re_exported) pub_surface)
        sym'

  -- The third pass.
  unfoldable pub resolve_modules :
      HashMap ModulePath (List String)
      → List LoadedModule
      → HashMap ModulePath ModuleScope
      → SymbolTable
      → Run (HashMap ModulePath ModuleScope × SymbolTable)
  unfolding resolve_module insert
  resolve_modules pub_surface [] scopes sym = ok (scopes, sym)
  resolve_modules pub_surface (loaded ∷ modules) scopes sym = do
    (scope, sym') ← resolve_module known_modules pub_surface path_aliases loaded sym
    resolve_modules pub_surface modules (insert loaded.module_path scope scopes) sym'

abbrev pub std_core_surface : List String
std_core_surface = "Perhaps" ∷ "Result" ∷ "Display" ∷ "Iterable" ∷ "From" ∷ "List" ∷ []

abbrev pub paths_of : List LoadedModule → List ModulePath
paths_of [] = []
paths_of (m ∷ modules) = m.module_path ∷ paths_of modules

unfoldable pub resolve : ModuleGraph → Run ResolvedNames
unfolding names_of_modules decl_pub_name decl_any_name intern_modules new_table extend_surface
    resolve_modules insert
resolve graph = do
  let known_modules = paths_of graph.modules
  let sym = intern_modules graph.modules new_table
  (pub_surface, sym₁) ←
      extend_surface known_modules graph.path_aliases graph.modules
        (names_of_modules decl_pub_name graph.modules []) sym
  (scopes, sym₂) ←
      resolve_modules known_modules graph.path_aliases pub_surface graph.modules [] sym₁
  ok (record {
    scopes = scopes;
    pub_surface = insert ("std" ∷ "core" ∷ []) std_core_surface pub_surface;
    declared_names = names_of_modules decl_any_name graph.modules [];
    symbols = sym₂.map;
  })
