-- ===== src/Examples/Names.antt =====
-- typechecker/conversions.rs, module_paths.rs and name_resolver.rs at concrete values.
use metel.Prelude.{
  inl, ◌<◌, list_eq, String, ◌^◌, [], ◌∷◌, some, none, ◌≡◌, refl, ◌⊎◌, arith, ◌+◌, ℕ_eq, string_eq,
  pair_eq,
}
use metel.Prelude.Map.{get}
use metel.Error.{type_error, t0002}
use metel.Run.{ok, err}
use metel.Types.{ResolvedType}
use metel.TypeInference.Syntax.{var, array}
use metel.Types.{ResolvedTypes}
use metel.Conversions.Defs.{infer_type_to_type, type_to_infer}
use metel.Conversions.RoundTrip.{IsClosed, infer_type_to_type-type_to_infer, infer_type_to_type_lem}
use metel.Ast.Modules.{name, super}
use metel.ModulePaths.{resolve_path_root, super-name}
use metel.Ast.Modules.{PathRoot, ImportTree, public}
use metel.Ast.Types.{StructDecl}
use metel.Ast.Trees.{Decl, nil_decls, cons_decls}
use metel.NameResolver.Defs.{
  GlobTier, item, ImportBinding, ModuleScope, ModuleGraph, ResolvedNames, new_table, intern,
}
use metel.NameResolver.Imports.{process_tree, process_export_tree}
use metel.NameResolver.Resolve.{resolve, std_core_surface}
use metel.NameResolver.Symbols.{IsValid, intern-IsValid, intern-intern}
use metel.NameResolver.Trees.{Imported, IsConflictAt, process_tree-Imported}
use metel.NameResolver.Exports.{Exported, IsHiddenAt, process_export_tree-Exported}
use metel.NameResolver.Resolved.{resolve_linked}
use metel.Examples.Inference.{span}

abbrev resolved : ResolvedType
resolved = ResolvedType.array (ResolvedType.named "Point" ResolvedTypes.nil)

infer_type_to_type-type_to_infer_example :
    infer_type_to_type span (type_to_infer resolved) ≡ ok resolved
infer_type_to_type-type_to_infer_example = infer_type_to_type-type_to_infer span resolved

infer_type_to_type_lem_example :
    (((u : ResolvedType) × (infer_type_to_type span (array (var 3)) ≡ ok u))
      × IsClosed (array (var 3)))
    ⊎ ((infer_type_to_type span (array (var 3)) ≡ err (type_error t0002 span))
        × (¬ IsClosed (array (var 3))))
infer_type_to_type_lem_example = infer_type_to_type_lem span (array (var 3))

super-name_example :
    resolve_path_root super (resolve_path_root (name "geometry") ("app" ∷ [])) ≡ "app" ∷ []
super-name_example = super-name "geometry" ("app" ∷ [])

-- A root module with `import geometry::Point as P; export geometry::*;`, and the module `geometry`
-- with a public struct `Point`.
abbrev point : StructDecl
point = record {
  visibility = public;
  name = "Point";
  generics = [];
  where_clause = none;
  fields = [];
  span = span;
}

abbrev graph : ModuleGraph
graph = record {
  modules =
      record {
        module_path = [];
        program = record {
          imports =
              record {
                path = record {
                  root = PathRoot.name "geometry";
                  tree = ImportTree.name "Point" (some "P");
                };
                span = span;
              }
              ∷ [];
          exports =
              record {
                path = record { root = PathRoot.name "geometry"; tree = ImportTree.glob };
                span = span;
              }
              ∷ [];
          decls = nil_decls;
        };
      }
      ∷ record {
        module_path = "geometry" ∷ [];
        program = record {
          imports = [];
          exports = [];
          decls = cons_decls (Decl.struct point) nil_decls;
        };
      }
      ∷ [];
  path_aliases = [];
}

abbrev point_binding : ImportBinding
point_binding = record {
  source_module = "geometry" ∷ [];
  source_name = "Point";
  kind = item;
  symbol_id = 1;
}

abbrev names : ResolvedNames
names = record {
  scopes =
      (
        [],
        record {
          explicit = ("P", point_binding) ∷ [];
          globs = (GlobTier.std, "std" ∷ "core" ∷ []) ∷ [];
          re_exports = ("Point", point_binding) ∷ [];
        },
      )
      ∷ (
        "geometry" ∷ [],
        record { explicit = []; globs = (GlobTier.std, "std" ∷ "core" ∷ []) ∷ []; re_exports = [] },
      )
      ∷ [];
  pub_surface =
      ([], "Point" ∷ [])
      ∷ ("geometry" ∷ [], "Point" ∷ [])
      ∷ ("std" ∷ "core" ∷ [], std_core_surface)
      ∷ [];
  declared_names = ([], []) ∷ ("geometry" ∷ [], "Point" ∷ []) ∷ [];
  symbols = (("geometry" ∷ [], "Point"), 1) ∷ [];
}

resolve_runs : resolve graph ≡ ok names
unfolding resolve
resolve_runs = refl

root_scope_found :
    get [] names.scopes
    ≡ some (record {
      explicit = ("P", point_binding) ∷ [];
      globs = (GlobTier.std, "std" ∷ "core" ∷ []) ∷ [];
      re_exports = ("Point", point_binding) ∷ [];
    })
unfolding get
root_scope_found = refl

alias_bound : get {K = String} "P" (("P", point_binding) ∷ []) ≡ some point_binding
unfolding get
alias_bound = refl

resolve_linked_example :
    get (point_binding.source_module, point_binding.source_name) names.symbols
    ≡ some point_binding.symbol_id
resolve_linked_example =
    resolve_linked graph names resolve_runs [] _ root_scope_found "P" point_binding
      (inl alias_bound)

new_table-IsValid : IsValid new_table
unfolding new_table get
new_table-IsValid = record { below = λ k i h. cc; injective = λ j k i h g. cc }

new_table_room : new_table.next_id + 1 < 2 ^ 32
unfolding new_table
new_table_room = omega arith

intern-IsValid_example : IsValid (intern ("geometry" ∷ []) "Point" new_table).1
intern-IsValid_example =
    intern-IsValid ("geometry" ∷ []) "Point" new_table new_table_room new_table-IsValid

intern-intern_example :
    intern ("geometry" ∷ []) "Point" (intern ("geometry" ∷ []) "Point" new_table).1
    ≡ intern ("geometry" ∷ []) "Point" new_table
intern-intern_example = intern-intern ("geometry" ∷ []) "Point" new_table

abbrev bound_scope : ModuleScope
bound_scope = record { explicit = ("Point", point_binding) ∷ []; globs = []; re_exports = [] }

-- A second import of the name `Point`.
process_tree-Imported_example :
    Imported
      (IsConflictAt span)
      bound_scope
      new_table
      (process_tree [] [] ("shapes" ∷ []) (ImportTree.name "Point" none) span bound_scope new_table)
process_tree-Imported_example =
    process_tree-Imported [] [] ("shapes" ∷ []) (ImportTree.name "Point" none) span bound_scope
      new_table

-- An export of a name that is not public.
process_export_tree-Exported_example :
    Exported
      (IsHiddenAt span)
      ([], new_table)
      (process_export_tree []
        (("shapes" ∷ [], []) ∷ [])
        []
        ("shapes" ∷ [])
        (ImportTree.name "Secret" none)
        span
        ([], new_table))
process_export_tree-Exported_example =
    process_export_tree-Exported [] (("shapes" ∷ [], []) ∷ []) [] ("shapes" ∷ [])
      (ImportTree.name "Secret" none) span ([], new_table)
