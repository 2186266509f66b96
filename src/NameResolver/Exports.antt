-- ===== src/NameResolver/Exports.antt =====
-- `process_export_tree` and the loop over the exports of a module, on every path.
use metel.Prelude.{
  String, List, [], ◌∷◌, ◌++◌, Option, some, none, Bool, true, false, ◌≡◌, refl, string_eq, list_eq,
  pair_eq, if◌then◌else◌,
}
use metel.Prelude.Map.{HashMap, get, insert}
use metel.Error.{Span, MetelError, type_error, t0009}
use metel.Run.{Run, ok, err, out_of_fuel, ◌>>=◌}
use metel.Ast.Modules.{ImportTree, ImportTrees}
use metel.NameResolver.Defs.{ModulePath, item, ImportBinding, SymbolTable, member, canonical_path}
use metel.NameResolver.Imports.{
  or_name, binding, name_binding, ReExports, export_names, export_glob, is_hidden, export_name,
  process_export_tree, process_export_trees,
}
use metel.NameResolver.Links.{
  IsSymbolOf, IsLinked, IsLinked-Extends, IsLinked-insert, binding_lem, name_binding_lem,
}
use metel.NameResolver.Symbols.{Extends, Extends-refl, Extends-trans}

-- What a step of the exports keeps: the symbols, and that each binding carries its own.
pub record Widens (s s' : ReExports) : Type 0 where
  pub symbols_kept : Extends s.1 s'.1
  pub linked : IsLinked s.0 s.1 → IsLinked s'.0 s'.1

pub Widens-refl : (s : ReExports) → Widens s s
Widens-refl s = record { symbols_kept = Extends-refl s.1; linked = λ l. l }

pub Widens-trans : {s₀ s₁ s₂ : ReExports} → Widens s₀ s₁ → Widens s₁ s₂ → Widens s₀ s₂
Widens-trans a b = record {
  symbols_kept = Extends-trans a.symbols_kept b.symbols_kept;
  linked = λ l. b.linked (a.linked l);
}

-- A binding is added that was made just before.
Widens-insert :
    (local : String) (b : ImportBinding) (m : HashMap String ImportBinding) (t t' : SymbolTable)
    → IsSymbolOf b t'
    → Extends t t'
    → Widens (m, t) (insert local b m, t')
Widens-insert local b m t t' l x = record {
  symbols_kept = x;
  linked = λ old. IsLinked-insert local b m t' (IsLinked-Extends old x) l;
}

export_names-Widens :
    (base : ModulePath) (names : List String) (m : HashMap String ImportBinding) (t : SymbolTable)
    → Widens (m, t) (export_names base names (m, t))
unfolding export_names
export_names-Widens base [] m t = Widens-refl (m, t)
export_names-Widens base (name ∷ names) m t =
    let made = binding base name item t in
    let (links, kept) = binding_lem base name item t in
    Widens-trans (Widens-insert name made.0 m t made.1 links kept)
      (export_names-Widens base names (insert name made.0 m) made.1)

export_glob-Widens :
    (base : ModulePath) (names : Option (List String)) (s : ReExports)
    → Widens s (export_glob base names s)
export_glob-Widens base (some names) (m, t) = export_names-Widens base names m t
export_glob-Widens base none s = Widens-refl s

-- A step of the exports ends with re-exports and symbols that have widened, or with an error of `E`.
pub data Exported (E : MetelError → Type 0) (s : ReExports) : Run ReExports → Type 0 where
  widened : {s' : ReExports} → Widens s s' → Exported E s (ok s')
  refused : {e : MetelError} → E e → Exported E s (err e)

Exported-then :
    {E : MetelError → Type 0} {s : ReExports} {m : Run ReExports} (f : ReExports → Run ReExports)
    → Exported E s m
    → ((s' : ReExports) → Exported E s' (f s'))
    → Exported E s (m >>= f)
Exported-then {E} {s} f (widened {s'} w) h = go (f s') (h s')
  where
    go : (r : Run ReExports) → Exported E s' r → Exported E s r
    go (ok s'') (widened w') = widened (Widens-trans w w')
    go (err e) (refused x) = refused x
    go out_of_fuel x = elim x [ ]
Exported-then f (refused x) h = refused x

-- The refusal of an export.
abbrev pub IsHiddenAt : Span → MetelError → Type 0
IsHiddenAt span e = e ≡ type_error t0009 span

-- A module handle is exported, an item unless it is hidden.
Exported-unless :
    {s s' : ReExports} (is_module hidden : Bool) (span : Span)
    → Widens s s'
    → Exported
        (IsHiddenAt span)
        s
        (if is_module then ok s' else if hidden then err (type_error t0009 span) else ok s')
Exported-unless true hidden span w = widened w
Exported-unless false true span w = refused refl
Exported-unless false false span w = widened w

module _ (known_modules : List ModulePath) (pub_surface : HashMap ModulePath (List String))
    (path_aliases : HashMap ModulePath ModulePath) where
  Exported-name :
      (base : ModulePath) (name : String) (alias : Option String) (span : Span)
      (m : HashMap String ImportBinding) (t : SymbolTable)
      → Exported
          (IsHiddenAt span)
          (m, t)
          (export_name known_modules pub_surface base name alias span (m, t))
  unfolding export_name
  Exported-name base name alias span m t =
      let made = name_binding known_modules base name t in
      let (links, kept) = name_binding_lem known_modules base name t in
      Exported-unless (member (base ++ name ∷ []) known_modules)
        (is_hidden name (get base pub_surface)) span
        (Widens-insert (or_name alias name) made.0 m t made.1 links kept)

  mutual
    unfolding process_export_tree

    tree-Exported :
        (base : ModulePath) (tree : ImportTree) (span : Span) (s : ReExports)
        → Exported
            (IsHiddenAt span)
            s
            (process_export_tree known_modules pub_surface path_aliases base tree span s)
    tree-Exported base ImportTree.glob span s =
        let canon_base = canonical_path base path_aliases in
        widened (export_glob-Widens canon_base (get canon_base pub_surface) s)
    tree-Exported base (ImportTree.name name alias) span (m, t) =
        Exported-name (canonical_path base path_aliases) name alias span m t
    tree-Exported base (ImportTree.path name tree) span s =
        tree-Exported (canonical_path base path_aliases ++ name ∷ []) tree span s
    tree-Exported base (ImportTree.group items) span s =
        trees-Exported (canonical_path base path_aliases) items span s

    trees-Exported :
        (base : ModulePath) (trees : ImportTrees) (span : Span) (s : ReExports)
        → Exported
            (IsHiddenAt span)
            s
            (process_export_trees known_modules pub_surface path_aliases base trees span s)
    trees-Exported base ImportTrees.nil span s = widened (Widens-refl s)
    trees-Exported base (ImportTrees.cons tree trees) span s =
        Exported-then _ (tree-Exported base tree span s) (λ s'. trees-Exported base trees span s')

  -- `process_export_tree` fails only with `T0009` at the span of the export. Otherwise it keeps the
  -- symbols, and if each re-export carried the symbol of its module and name, then each does
  -- afterwards.
  pub process_export_tree-Exported :
      (base : ModulePath) (tree : ImportTree) (span : Span) (s : ReExports)
      → Exported
          (IsHiddenAt span)
          s
          (process_export_tree known_modules pub_surface path_aliases base tree span s)
  process_export_tree-Exported base tree span s = tree-Exported base tree span s
