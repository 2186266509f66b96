-- ===== src/NameResolver/Trees.antt =====
-- `process_tree` and the loop over the imports of a module, on every path.
use metel.Prelude.{
  String, List, [], ◌∷◌, ◌++◌, Option, ◌≡◌, refl, inl, inr, string_eq, list_eq, pair_eq,
}
use metel.Prelude.Map.{HashMap}
use metel.Error.{Span, MetelError, type_error, t0011}
use metel.Run.{Run, ok, err, out_of_fuel, ◌>>=◌}
use metel.Ast.Modules.{ImportTree, ImportTrees}
use metel.NameResolver.Defs.{ModulePath, ModuleScope, SymbolTable, canonical_path}
use metel.NameResolver.Imports.{or_name, name_binding, import_name, process_tree, process_trees}
use metel.NameResolver.Links.{
  Grows, Grows-refl, Grows-trans, Grows-explicit, add_explicit-cases, name_binding_lem,
}
use metel.NameResolver.Symbols.{Extends-refl}

-- A step of the imports ends with a scope and symbols that have grown, or with an error of `E`.
pub data Imported (E : MetelError → Type 0) (s : ModuleScope) (t : SymbolTable)
    : Run (ModuleScope × SymbolTable) → Type 0 where
  grown : {s' : ModuleScope} {t' : SymbolTable} → Grows s t s' t' → Imported E s t (ok (s', t'))
  refused : {e : MetelError} → E e → Imported E s t (err e)

-- Two steps, one after the other.
pub Imported-then :
    {E : MetelError → Type 0} {s : ModuleScope} {t : SymbolTable}
    {m : Run (ModuleScope × SymbolTable)}
    (f : ModuleScope × SymbolTable → Run (ModuleScope × SymbolTable))
    → Imported E s t m
    → ((s' : ModuleScope) (t' : SymbolTable) → Imported E s' t' (f (s', t')))
    → Imported E s t (m >>= f)
Imported-then {E} {s} {t} f (grown {s'} {t'} g) h = go (f (s', t')) (h s' t')
  where
    go : (r : Run (ModuleScope × SymbolTable)) → Imported E s' t' r → Imported E s t r
    go (ok (s'', t'')) (grown g') = grown (Grows-trans g g')
    go (err e) (refused x) = refused x
    go out_of_fuel x = elim x [ ]
Imported-then f (refused x) h = refused x

-- The conflict of an import.
abbrev pub IsConflictAt : Span → MetelError → Type 0
IsConflictAt span e = e ≡ type_error t0011 span

module _ (known_modules : List ModulePath) (path_aliases : HashMap ModulePath ModulePath) where
  Imported-name :
      (base : ModulePath) (name : String) (alias : Option String) (span : Span) (s : ModuleScope)
      (t : SymbolTable)
      → Imported (IsConflictAt span) s t (import_name known_modules base name alias span s t)
  unfolding import_name
  Imported-name base name alias span s t =
      let made = name_binding known_modules base name t in
      let (links, kept) = name_binding_lem known_modules base name t in
      elim (add_explicit-cases (or_name alias name) made.0 span s) [
        | inl e ↦ rw e (refused refl)
        | inr (e, f) ↦
            rw f (grown (Grows-explicit (or_name alias name) made.0 s t made.1 e links kept))
      ]

  mutual
    unfolding process_tree

    tree-Imported :
        (base : ModulePath) (tree : ImportTree) (span : Span) (s : ModuleScope) (t : SymbolTable)
        → Imported
            (IsConflictAt span)
            s
            t
            (process_tree known_modules path_aliases base tree span s t)
    tree-Imported base ImportTree.glob span s t = grown (record {
      explicit_kept = λ name b h. h;
      re_exports_kept = refl;
      symbols_kept = Extends-refl t;
      linked = λ l. l;
    })
    tree-Imported base (ImportTree.name name alias) span s t =
        Imported-name (canonical_path base path_aliases) name alias span s t
    tree-Imported base (ImportTree.path name tree) span s t =
        tree-Imported (canonical_path base path_aliases ++ name ∷ []) tree span s t
    tree-Imported base (ImportTree.group items) span s t =
        trees-Imported (canonical_path base path_aliases) items span s t

    trees-Imported :
        (base : ModulePath) (trees : ImportTrees) (span : Span) (s : ModuleScope) (t : SymbolTable)
        → Imported
            (IsConflictAt span)
            s
            t
            (process_trees known_modules path_aliases base trees span s t)
    trees-Imported base ImportTrees.nil span s t = grown (Grows-refl s t)
    trees-Imported base (ImportTrees.cons tree trees) span s t =
        Imported-then _ (tree-Imported base tree span s t)
          (λ s' t'. trees-Imported base trees span s' t')

  -- `process_tree` fails only with `T0011` at the span of the import. Otherwise it keeps the
  -- bindings, the re-exports and the symbols that there were, and if each binding carried the symbol
  -- of its module and name, then each does afterwards.
  pub process_tree-Imported :
      (base : ModulePath) (tree : ImportTree) (span : Span) (s : ModuleScope) (t : SymbolTable)
      → Imported
          (IsConflictAt span)
          s
          t
          (process_tree known_modules path_aliases base tree span s t)
  process_tree-Imported base tree span s t = tree-Imported base tree span s t
