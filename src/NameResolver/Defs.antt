-- ===== src/NameResolver/Defs.antt =====
-- name_resolver.rs: symbols, imports and re-exports. Of module_loader.rs it has the modules and the
-- path aliases that it reads. A `HashSet` is a list.
use metel.Prelude.{
  ℕ, zero, suc, String, List, [], ◌∷◌, ◌++◌, Option, some, none, Bool, true, false, ◌+◌, ◌%◌, ◌^◌,
  same, if◌then◌else◌, Equality, string_eq, list_eq, pair_eq,
}
use metel.Prelude.Map.{HashMap, get, insert}
use metel.Error.{Span, type_error, t0011}
use metel.Run.{Run, ok, err}
use metel.Ast.Modules.{Visibility, private, public}
use metel.Ast.Trees.{SymbolId, Decl, let_decl, mut_decl, fun_decl, aspect_decl, Program}

abbrev pub ModulePath : Type 0
ModulePath = List String

pub data GlobTier : Type 0 where
  std user : GlobTier

pub data BindingKind : Type 0 where
  item module_ : BindingKind

pub record ImportBinding : Type 0 where
  pub source_module : ModulePath
  pub source_name : String
  pub kind : BindingKind
  pub symbol_id : SymbolId

pub record ModuleScope : Type 0 where
  pub explicit : HashMap String ImportBinding
  pub globs : List (GlobTier × ModulePath)
  pub re_exports : HashMap String ImportBinding

pub record SymbolTable : Type 0 where
  pub map : HashMap (ModulePath × String) SymbolId
  pub next_id : ℕ

-- The fields of `LoadedModule` and `ModuleGraph` that are read.
pub record LoadedModule : Type 0 where
  pub module_path : ModulePath
  pub program : Program

pub record ModuleGraph : Type 0 where
  pub modules : List LoadedModule
  pub path_aliases : HashMap ModulePath ModulePath

pub record ResolvedNames : Type 0 where
  pub scopes : HashMap ModulePath ModuleScope
  pub pub_surface : HashMap ModulePath (List String)
  pub declared_names : HashMap ModulePath (List String)
  pub symbols : HashMap (ModulePath × String) SymbolId

unfoldable pub new_table : SymbolTable
new_table = record { map = []; next_id = 1 }

-- What `entry(key).or_insert_with(…)` does with what the key has.
abbrev pub interned : ModulePath × String → SymbolTable → Option SymbolId → SymbolId × SymbolTable
interned key sym (some id) = (id, sym)
interned key sym none = (
  sym.next_id,
  record { map = insert key sym.next_id sym.map; next_id = (sym.next_id + 1) % 2 ^ 32 },
)

-- The counter, a `u32`, moves only where the key is new.
unfoldable pub intern : ModulePath → String → SymbolTable → SymbolId × SymbolTable
unfolding get
intern source_module source_name sym =
    interned (source_module, source_name) sym (get (source_module, source_name) sym.map)

abbrev pub member {ℓ} : {A : Type ℓ} ⦃e : Equality A⦄ → A → List A → Bool
member x [] = false
member x (y ∷ ys) = if same y x then true else member x ys

-- The tried prefix, a pair of what is before and after the cut, and the shorter prefixes.
abbrev split_at : ℕ → ModulePath → ModulePath × ModulePath
split_at zero path = ([], path)
split_at (suc n) [] = ([], [])
split_at (suc n) (x ∷ path) = let (before, after) = split_at n path in (x ∷ before, after)

abbrev pub path_len : ModulePath → ℕ
path_len [] = 0
path_len (x ∷ path) = suc (path_len path)

-- The loop of `canonical_path`: the longest prefix that is an alias is replaced.
unfoldable pub canonical_from : ℕ → ModulePath → HashMap ModulePath ModulePath → ModulePath
unfolding get
canonical_from zero path aliases = path
canonical_from (suc n) path aliases =
    let shorter = canonical_from n path aliases in
    let (before, after) = split_at (suc n) path in
    elim (get before aliases) [ some prefix_canon ↦ prefix_canon ++ after | none ↦ shorter ]

unfoldable pub canonical_path : ModulePath → HashMap ModulePath ModulePath → ModulePath
unfolding canonical_from
canonical_path path aliases = canonical_from (path_len path) path aliases

abbrev pub if_public : Visibility → String → Option String
if_public public name = some name
if_public private name = none

unfoldable pub decl_pub_name : Decl → Option String
decl_pub_name (Decl.fun (fun_decl visibility name _ _ _ _ _ _)) = if_public visibility name
decl_pub_name (Decl.struct d) = if_public d.visibility d.name
decl_pub_name (Decl.enum d) = if_public d.visibility d.name
decl_pub_name (Decl.aspect (aspect_decl visibility name _ _ _)) = if_public visibility name
decl_pub_name _ = none

unfoldable pub decl_any_name : Decl → Option String
decl_any_name (Decl.fun (fun_decl _ name _ _ _ _ _ _)) = some name
decl_any_name (Decl.struct d) = some d.name
decl_any_name (Decl.enum d) = some d.name
decl_any_name (Decl.aspect (aspect_decl _ name _ _ _)) = some name
decl_any_name (Decl.let_item (let_decl name _ _ _)) = some name
decl_any_name (Decl.mut_item (mut_decl name _ _ _)) = some name
decl_any_name (Decl.impl _) = none
decl_any_name (Decl.stmt _) = none

-- What `add_explicit` does with the binding that the name has.
abbrev pub added :
    String → ImportBinding → Span → ModuleScope → Option ImportBinding → Run ModuleScope
added local_name binding import_span scope (some existing) = err (type_error t0011 import_span)
added local_name binding import_span scope none =
    ok (record scope { explicit = insert local_name binding scope.explicit })

unfoldable pub add_explicit : String → ImportBinding → Span → ModuleScope → Run ModuleScope
unfolding get
add_explicit local_name binding import_span scope =
    added local_name binding import_span scope (get local_name scope.explicit)
