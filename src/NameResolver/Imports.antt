-- ===== src/NameResolver/Imports.antt =====
-- name_resolver.rs: `process_tree`, `process_export_tree` and the resolution of one module.
use metel.Prelude.{
  String, List, [], ◌∷◌, ◌++◌, Option, some, none, Bool, false, if◌then◌else◌, not, string_eq,
  list_eq, pair_eq,
}
use metel.Prelude.Map.{HashMap, get, insert}
use metel.Error.{Span, type_error, t0009}
use metel.Run.{Run, ok, err, ◌>>=◌}
use metel.Ast.Modules.{ImportTree, ImportTrees, ImportDecl, ExportDecl}
use metel.ModulePaths.{resolve_path_root}
use metel.NameResolver.Defs.{
  ModulePath, GlobTier, BindingKind, item, module_, ImportBinding, ModuleScope, SymbolTable,
  LoadedModule, intern, member, canonical_path, add_explicit,
}

abbrev pub or_name : Option String → String → String
or_name (some alias) name = alias
or_name none name = name

abbrev pub binding : ModulePath → String → BindingKind → SymbolTable → ImportBinding × SymbolTable
binding source_module name kind sym =
    let (id, sym') = intern source_module name sym in
    (
      record { source_module = source_module; source_name = name; kind = kind; symbol_id = id },
      sym',
    )

-- What the name imports from the module: the module of that path, if there is one, else an item.
unfoldable pub name_binding :
    List ModulePath → ModulePath → String → SymbolTable → ImportBinding × SymbolTable
unfolding intern
name_binding known_modules base name sym =
    if member (base ++ name ∷ []) known_modules
    then binding (base ++ name ∷ []) name module_ sym
    else binding base name item sym

-- The arm of `process_tree` for a name.
unfoldable pub import_name :
    List ModulePath
    → ModulePath
    → String
    → Option String
    → Span
    → ModuleScope
    → SymbolTable
    → Run (ModuleScope × SymbolTable)
unfolding name_binding add_explicit
import_name known_modules base name alias import_span scope sym =
    let (b, sym') = name_binding known_modules base name sym in
    add_explicit (or_name alias name) b import_span scope >>= λ scope'. ok (scope', sym')

module _ (known_modules : List ModulePath) (path_aliases : HashMap ModulePath ModulePath) where
  unfoldable mutual
    unfolding canonical_path import_name

    pub process_tree :
        ModulePath → ImportTree → Span → ModuleScope → SymbolTable → Run (ModuleScope × SymbolTable)
    process_tree base ImportTree.glob import_span scope sym = ok (
      record scope {
        globs = scope.globs ++ (GlobTier.user, canonical_path base path_aliases) ∷ [];
      },
      sym,
    )
    process_tree base (ImportTree.name name alias) import_span scope sym =
        import_name known_modules (canonical_path base path_aliases) name alias import_span scope
          sym
    process_tree base (ImportTree.path name tree) import_span scope sym =
        process_tree (canonical_path base path_aliases ++ name ∷ []) tree import_span scope sym
    process_tree base (ImportTree.group items) import_span scope sym =
        process_trees (canonical_path base path_aliases) items import_span scope sym

    pub process_trees :
        ModulePath
        → ImportTrees
        → Span
        → ModuleScope
        → SymbolTable
        → Run (ModuleScope × SymbolTable)
    process_trees base ImportTrees.nil import_span scope sym = ok (scope, sym)
    process_trees base (ImportTrees.cons tree trees) import_span scope sym = do
      (scope', sym') ← process_tree base tree import_span scope sym
      process_trees base trees import_span scope' sym'

  -- The loop over the imports of a module.
  unfoldable pub process_imports :
      ModulePath → List ImportDecl → ModuleScope → SymbolTable → Run (ModuleScope × SymbolTable)
  unfolding process_tree resolve_path_root
  process_imports module_path [] scope sym = ok (scope, sym)
  process_imports module_path (import_ ∷ imports) scope sym = do
    (scope', sym') ←
        process_tree (resolve_path_root import_.path.root module_path) import_.path.tree
          import_.span scope sym
    process_imports module_path imports scope' sym'

abbrev pub ReExports : Type 0
ReExports = HashMap String ImportBinding × SymbolTable

-- The loop over the names of a glob.
unfoldable pub export_names : ModulePath → List String → ReExports → ReExports
unfolding intern insert
export_names base [] state = state
export_names base (name ∷ names) (re_exports, sym) =
    let (b, sym') = binding base name item sym in
    export_names base names (insert name b re_exports, sym')

abbrev pub export_glob : ModulePath → Option (List String) → ReExports → ReExports
export_glob base (some names) state = export_names base names state
export_glob base none state = state

-- `if let Some(surface) = … { if !surface.contains(name) … }`
abbrev pub is_hidden : String → Option (List String) → Bool
is_hidden name (some surface) = not (member name surface)
is_hidden name none = false

-- The arm of `process_export_tree` for a name.
unfoldable pub export_name :
    List ModulePath
    → HashMap ModulePath (List String)
    → ModulePath
    → String
    → Option String
    → Span
    → ReExports
    → Run ReExports
unfolding name_binding insert get
export_name known_modules pub_surface base name alias export_span (re_exports, sym) =
    let (b, sym') = name_binding known_modules base name sym in
    let done : ReExports = (insert (or_name alias name) b re_exports, sym') in
    if member (base ++ name ∷ []) known_modules
    then ok done
    else if is_hidden name (get base pub_surface)
    then err (type_error t0009 export_span)
    else ok done

module _ (known_modules : List ModulePath) (pub_surface : HashMap ModulePath (List String))
    (path_aliases : HashMap ModulePath ModulePath) where
  unfoldable mutual
    unfolding canonical_path export_name export_names get

    pub process_export_tree : ModulePath → ImportTree → Span → ReExports → Run ReExports
    process_export_tree base ImportTree.glob export_span state =
        let canon_base = canonical_path base path_aliases in
        ok (export_glob canon_base (get canon_base pub_surface) state)
    process_export_tree base (ImportTree.name name alias) export_span state =
        export_name known_modules pub_surface (canonical_path base path_aliases) name alias
          export_span state
    process_export_tree base (ImportTree.path name tree) export_span state =
        process_export_tree (canonical_path base path_aliases ++ name ∷ []) tree export_span state
    process_export_tree base (ImportTree.group items) export_span state =
        process_export_trees (canonical_path base path_aliases) items export_span state

    pub process_export_trees : ModulePath → ImportTrees → Span → ReExports → Run ReExports
    process_export_trees base ImportTrees.nil export_span state = ok state
    process_export_trees base (ImportTrees.cons tree trees) export_span state = do
      state' ← process_export_tree base tree export_span state
      process_export_trees base trees export_span state'

  -- The loop of `collect_re_exports`.
  unfoldable pub process_exports : ModulePath → List ExportDecl → ReExports → Run ReExports
  unfolding process_export_tree resolve_path_root
  process_exports module_path [] state = ok state
  process_exports module_path (export_ ∷ exports) state = do
    state' ←
        process_export_tree (resolve_path_root export_.path.root module_path) export_.path.tree
          export_.span state
    process_exports module_path exports state'

  unfoldable pub collect_re_exports : LoadedModule → SymbolTable → Run ReExports
  unfolding process_exports
  collect_re_exports loaded sym =
      process_exports loaded.module_path loaded.program.exports ([], sym)

  unfoldable pub resolve_module : LoadedModule → SymbolTable → Run (ModuleScope × SymbolTable)
  unfolding collect_re_exports process_imports
  resolve_module loaded sym = do
    (re_exports, sym₁) ← collect_re_exports loaded sym
    (scope, sym₂) ←
        process_imports known_modules path_aliases loaded.module_path loaded.program.imports
          (record { explicit = []; globs = []; re_exports = re_exports }) sym₁
    ok (record scope { globs = scope.globs ++ (GlobTier.std, "std" ∷ "core" ∷ []) ∷ [] }, sym₂)
