-- ===== src/NameResolver/Resolved.antt =====
-- What `resolve` returns: every binding of every module carries the symbol of its declaration.
use metel.Prelude.{
  String, List, [], ◌∷◌, some, ◌≡◌, sym, ap, subst, inl, inr, arith, string_eq, list_eq, pair_eq,
  same, Bool-cases, ◌⊎◌,
}
use metel.Prelude.Map.{HashMap, get, insert, get-insert}
use metel.Error.{MetelError}
use metel.Run.{Run, ok, >>=-eq-ok}
use metel.Ast.Modules.{ImportDecl, ExportDecl}
use metel.ModulePaths.{resolve_path_root}
use metel.NameResolver.Defs.{
  ModulePath, ImportBinding, ModuleScope, SymbolTable, LoadedModule, ModuleGraph, ResolvedNames,
  new_table, decl_pub_name,
}
use metel.NameResolver.Imports.{
  ReExports, process_tree, process_imports, process_export_tree, process_exports,
  collect_re_exports, resolve_module,
}
use metel.NameResolver.Resolve.{
  names_of_modules, intern_modules, extend_surface, resolve_modules, paths_of, resolve,
}
use metel.NameResolver.Links.{
  IsLinked, IsLinked-empty, IsLinked-Extends, Grows, Grows-refl, Grows-trans,
}
use metel.NameResolver.Symbols.{Extends, Extends-trans}
use metel.NameResolver.Trees.{Imported, grown, refused, process_tree-Imported}
use metel.NameResolver.Exports.{
  Exported, widened, refused as hidden, Widens, Widens-refl, Widens-trans,
  process_export_tree-Exported,
}

ok_injective : {A : Type 0} {a b : A} → ok a ≡ ok b → a ≡ b
ok_injective h = cc

-- A step that returned has grown.
grown_of :
    {E : MetelError → Type 0} {s s' : ModuleScope} {t t' : SymbolTable}
    {m : Run (ModuleScope × SymbolTable)}
    → Imported E s t m
    → m ≡ ok (s', t')
    → Grows s t s' t'
grown_of {s} {t} (grown g) h = subst (λ p. Grows s t p.0 p.1) (ok_injective h) g
grown_of (refused x) h = cc

widened_of :
    {E : MetelError → Type 0} {s s' : ReExports} {m : Run ReExports}
    → Exported E s m
    → m ≡ ok s'
    → Widens s s'
widened_of {s} (widened w) h = subst (λ p. Widens s p) (ok_injective h) w
widened_of (hidden x) h = cc

-- The bindings of a scope carry their symbols.
pub record IsScopeLinked (s : ModuleScope) (t : SymbolTable) : Type 0 where
  pub explicit : IsLinked s.explicit t
  pub re_exports : IsLinked s.re_exports t

IsScopeLinked-Extends :
    {s : ModuleScope} {t u : SymbolTable} → IsScopeLinked s t → Extends t u → IsScopeLinked s u
IsScopeLinked-Extends l e = record {
  explicit = IsLinked-Extends l.explicit e;
  re_exports = IsLinked-Extends l.re_exports e;
}

-- All scopes are linked.
record AreLinked (scopes : HashMap ModulePath ModuleScope) (t : SymbolTable) : Type 0 where
  at : (path : ModulePath) (s : ModuleScope) → get path scopes ≡ some s → IsScopeLinked s t

AreLinked-empty : (t : SymbolTable) → AreLinked [] t
unfolding get
AreLinked-empty t = record { at = λ path s h. cc }

AreLinked-insert :
    (path : ModulePath) (s : ModuleScope) (scopes : HashMap ModulePath ModuleScope)
    (t t' : SymbolTable)
    → AreLinked scopes t
    → Extends t t'
    → IsScopeLinked s t'
    → AreLinked (insert path s scopes) t'
AreLinked-insert path s scopes t t' l x new = record {
  at = λ q r h. elim (Bool-cases (same path q)) [
    | inl e ↦
        let same_scope : s ≡ r = ground (arith, get-insert path q s scopes, e, h) in
        rw (← same_scope) new
    | inr e ↦ IsScopeLinked-Extends (l.at q r (ground (arith, get-insert path q s scopes, e, h))) x
  ];
}

module _ (known_modules : List ModulePath) (pub_surface : HashMap ModulePath (List String))
    (path_aliases : HashMap ModulePath ModulePath) where
  Grows-process_imports :
      (path : ModulePath) (imports : List ImportDecl) (s s' : ModuleScope) (t t' : SymbolTable)
      → process_imports known_modules path_aliases path imports s t ≡ ok (s', t')
      → Grows s t s' t'
  unfolding process_imports
  Grows-process_imports path [] s s' t t' h =
      subst (λ p. Grows s t p.0 p.1) (ok_injective h) (Grows-refl s t)
  Grows-process_imports path (i ∷ imports) s s' t t' h =
      let base = resolve_path_root i.path.root path in
      let ((s₁, t₁), e, f) =
        >>=-eq-ok (process_tree known_modules path_aliases base i.path.tree i.span s t) _ h in
      Grows-trans
        (grown_of (process_tree-Imported known_modules path_aliases base i.path.tree i.span s t) e)
        (Grows-process_imports path imports s₁ s' t₁ t' f)

  Widens-process_exports :
      (path : ModulePath) (exports : List ExportDecl) (s s' : ReExports)
      → process_exports known_modules pub_surface path_aliases path exports s ≡ ok s'
      → Widens s s'
  unfolding process_exports
  Widens-process_exports path [] s s' h = subst (λ p. Widens s p) (ok_injective h) (Widens-refl s)
  Widens-process_exports path (x ∷ exports) s s' h =
      let base = resolve_path_root x.path.root path in
      let (s₁, e, f) =
        >>=-eq-ok
          (process_export_tree known_modules pub_surface path_aliases base x.path.tree x.span s) _
          h in
      Widens-trans
        (widened_of
          (process_export_tree-Exported known_modules pub_surface path_aliases base x.path.tree
            x.span s)
          e)
        (Widens-process_exports path exports s₁ s' f)

  -- A module that is resolved has only bindings that carry their symbols, and no symbol is lost.
  resolve_module_linked :
      (loaded : LoadedModule) (t t' : SymbolTable) (s : ModuleScope)
      → resolve_module known_modules pub_surface path_aliases loaded t ≡ ok (s, t')
      → IsScopeLinked s t' × Extends t t'
  unfolding resolve_module collect_re_exports
  resolve_module_linked loaded t t' s h =
      let ((m, t₁), e, f) =
        >>=-eq-ok (collect_re_exports known_modules pub_surface path_aliases loaded t) _ h in
      let start : ModuleScope = record { explicit = []; globs = []; re_exports = m } in
      let ((s₂, t₂), e', f') =
        >>=-eq-ok
          (process_imports known_modules path_aliases loaded.module_path loaded.program.imports
            start t₁)
          _ f in
      let exports =
        Widens-process_exports loaded.module_path loaded.program.exports ([], t) (m, t₁) e in
      let imports =
        Grows-process_imports loaded.module_path loaded.program.imports start s₂ t₁ t₂ e' in
      let linked : IsScopeLinked s₂ t₂ = record {
        explicit = imports.linked (IsLinked-empty t₁);
        re_exports =
            subst (λ r. IsLinked r t₂) (sym imports.re_exports_kept)
              (IsLinked-Extends (exports.linked (IsLinked-empty t)) imports.symbols_kept);
      } in
      subst (λ (p : ModuleScope × SymbolTable). IsScopeLinked p.0 p.1 × Extends t p.1)
        (ok_injective f')
        (
          record { explicit = linked.explicit; re_exports = linked.re_exports },
          Extends-trans exports.symbols_kept imports.symbols_kept,
        )

  resolve_modules_linked :
      (modules : List LoadedModule) (scopes scopes' : HashMap ModulePath ModuleScope)
      (t t' : SymbolTable)
      → AreLinked scopes t
      → resolve_modules known_modules path_aliases pub_surface modules scopes t ≡ ok (scopes', t')
      → AreLinked scopes' t'
  unfolding resolve_modules
  resolve_modules_linked [] scopes scopes' t t' l h =
      subst (λ (p : HashMap ModulePath ModuleScope × SymbolTable). AreLinked p.0 p.1)
        (ok_injective h) l
  resolve_modules_linked (m ∷ modules) scopes scopes' t t' l h =
      let ((s, t₁), e, f) =
        >>=-eq-ok (resolve_module known_modules pub_surface path_aliases m t) _ h in
      let (linked, kept) = resolve_module_linked m t t₁ s e in
      resolve_modules_linked modules (insert m.module_path s scopes) scopes' t₁ t'
        (AreLinked-insert m.module_path s scopes t t₁ l kept linked) f

-- If `resolve` returns, then every explicit binding and every re-export of every module carries the
-- symbol that the returned table has for its module and name.
pub resolve_linked :
    (graph : ModuleGraph) (names : ResolvedNames)
    → resolve graph ≡ ok names
    → (path : ModulePath) (scope : ModuleScope) → get path names.scopes ≡ some scope
    → (name : String) (b : ImportBinding)
    → (get name scope.explicit ≡ some b) ⊎ (get name scope.re_exports ≡ some b)
    → get (b.source_module, b.source_name) names.symbols ≡ some b.symbol_id
unfolding resolve
resolve_linked graph names h path scope found name b bound =
    let known = paths_of graph.modules in
    let ((surface, t₁), e, f) =
      >>=-eq-ok
        (extend_surface known graph.path_aliases graph.modules
          (names_of_modules decl_pub_name graph.modules [])
          (intern_modules graph.modules new_table))
        _ h in
    let ((scopes, t₂), e', f') =
      >>=-eq-ok (resolve_modules known graph.path_aliases surface graph.modules [] t₁) _ f in
    let all =
      resolve_modules_linked known surface graph.path_aliases graph.modules [] scopes t₁ t₂
        (AreLinked-empty t₁) e' in
    let scopes_eq : scopes ≡ names.scopes = ap (λ n. n.scopes) (ok_injective f') in
    let symbols_eq : t₂.map ≡ names.symbols = ap (λ n. n.symbols) (ok_injective f') in
    let linked = all.at path scope (rw scopes_eq found) in
    rw (← symbols_eq) (elim bound [
      | inl x ↦ linked.explicit.links name b x
      | inr x ↦ linked.re_exports.links name b x
    ])
