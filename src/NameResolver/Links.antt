-- ===== src/NameResolver/Links.antt =====
-- What the imports of a module do to its bindings and to the symbols.
use metel.Prelude.{
  String, List, [], ◌∷◌, ◌++◌, some, none, ◌≡◌, refl, ap, ◌∙◌, ◌⊎◌, inl, inr, arith, string_eq,
  list_eq, pair_eq, str_eq, str_eq_iff, Bool-cases, Option-cases,
}
use metel.Prelude.Map.{HashMap, get, insert, get-insert}
use metel.Error.{Span, type_error, t0011}
use metel.Run.{ok, err}
use metel.NameResolver.Defs.{
  ModulePath, BindingKind, item, module_, ImportBinding, ModuleScope, SymbolTable, member,
  add_explicit, added,
}
use metel.NameResolver.Imports.{binding, name_binding}
use metel.NameResolver.Symbols.{
  symbol_of, symbol_of-intern, Extends, Extends-refl, Extends-trans, Extends-intern,
}

-- The symbol that a binding carries is that of its module and name.
abbrev pub IsSymbolOf : ImportBinding → SymbolTable → Type 0
IsSymbolOf b t = symbol_of (b.source_module, b.source_name) t ≡ some b.symbol_id

pub record IsLinked (bindings : HashMap String ImportBinding) (t : SymbolTable) : Type 0 where
  pub links : (name : String) (b : ImportBinding) → get name bindings ≡ some b → IsSymbolOf b t

pub IsLinked-empty : (t : SymbolTable) → IsLinked [] t
unfolding get
IsLinked-empty t = record { links = λ name b h. cc }

pub IsLinked-Extends :
    {bindings : HashMap String ImportBinding} {t u : SymbolTable}
    → IsLinked bindings t
    → Extends t u
    → IsLinked bindings u
IsLinked-Extends l e = record {
  links = λ name b h. e.keeps (b.source_module, b.source_name) b.symbol_id (l.links name b h);
}

pub IsLinked-insert :
    (local : String) (b : ImportBinding) (bindings : HashMap String ImportBinding) (t : SymbolTable)
    → IsLinked bindings t
    → IsSymbolOf b t
    → IsLinked (insert local b bindings) t
IsLinked-insert local b bindings t l s = record {
  links = λ name c h. elim (Bool-cases (str_eq local name)) [
    | inl e ↦
        let same_binding : b ≡ c = ground (arith, get-insert local name b bindings, e, h) in
        rw (← same_binding) s
    | inr e ↦ l.links name c (ground (arith, get-insert local name b bindings, e, h))
  ];
}

-- A binding that is made carries its symbol, and no symbol is lost.
pub binding_lem :
    (m : ModulePath) (name : String) (kind : BindingKind) (t : SymbolTable)
    → IsSymbolOf (binding m name kind t).0 (binding m name kind t).1
      × Extends t (binding m name kind t).1
binding_lem m name kind t = (symbol_of-intern m name t, Extends-intern m name t)

pub name_binding_lem :
    (known_modules : List ModulePath) (base : ModulePath) (name : String) (t : SymbolTable)
    → IsSymbolOf
        (name_binding known_modules base name t).0
        (name_binding known_modules base name t).1
      × Extends t (name_binding known_modules base name t).1
unfolding name_binding
name_binding_lem known_modules base name t =
    elim (Bool-cases (member (base ++ name ∷ []) known_modules)) [
      | inl e ↦ rw e (binding_lem (base ++ name ∷ []) name module_ t)
      | inr e ↦ rw e (binding_lem base name item t)
    ]

-- What a step of the imports keeps: bindings, re-exports and symbols; and what it adds is linked.
pub record Grows (s : ModuleScope) (t : SymbolTable) (s' : ModuleScope) (t' : SymbolTable)
    : Type 0 where
  pub explicit_kept :
      (name : String) (b : ImportBinding)
      → get name s.explicit ≡ some b
      → get name s'.explicit ≡ some b
  pub re_exports_kept : s'.re_exports ≡ s.re_exports
  pub symbols_kept : Extends t t'
  pub linked : IsLinked s.explicit t → IsLinked s'.explicit t'

pub Grows-refl : (s : ModuleScope) (t : SymbolTable) → Grows s t s t
Grows-refl s t = record {
  explicit_kept = λ name b h. h;
  re_exports_kept = refl;
  symbols_kept = Extends-refl t;
  linked = λ l. l;
}

pub Grows-trans :
    {s₀ s₁ s₂ : ModuleScope} {t₀ t₁ t₂ : SymbolTable}
    → Grows s₀ t₀ s₁ t₁
    → Grows s₁ t₁ s₂ t₂
    → Grows s₀ t₀ s₂ t₂
Grows-trans a b = record {
  explicit_kept = λ name c h. b.explicit_kept name c (a.explicit_kept name c h);
  re_exports_kept = b.re_exports_kept ∙ a.re_exports_kept;
  symbols_kept = Extends-trans a.symbols_kept b.symbols_kept;
  linked = λ l. b.linked (a.linked l);
}

-- `add_explicit` refuses a name that is bound, and binds one that is not.
pub add_explicit-cases :
    (local : String) (b : ImportBinding) (span : Span) (s : ModuleScope)
    → (add_explicit local b span s ≡ err (type_error t0011 span))
      ⊎ ((get local s.explicit ≡ none)
          × (add_explicit local b span s ≡ ok (record s { explicit = insert local b s.explicit })))
unfolding add_explicit
add_explicit-cases local b span s = elim (Option-cases (get local s.explicit)) [
  | inl e ↦ inr (e, ap (added local b span s) e)
  | inr (c, e) ↦ inl (ap (added local b span s) e)
]

pub Grows-explicit :
    (local : String) (b : ImportBinding) (s : ModuleScope) (t t' : SymbolTable)
    → get local s.explicit ≡ none
    → IsSymbolOf b t'
    → Extends t t'
    → Grows s t (record s { explicit = insert local b s.explicit }) t'
Grows-explicit local b s t t' e l x = record {
  explicit_kept =
      λ name c h. ground (arith, get-insert local name b s.explicit, str_eq_iff local name, e, h);
  re_exports_kept = refl;
  symbols_kept = x;
  linked = λ old. IsLinked-insert local b s.explicit t' (IsLinked-Extends old x) l;
}
