-- ===== src/TypeInference/Registry/Types.antt =====
-- typeinference/mod.rs, `FieldEntry`, `VariantInfo`, `EnumInfo` and the state of
-- `TypeDefinitionRegistry`.
use metel.Prelude.{String, List, [], string_eq, ℕ_eq, pair_eq}
use metel.Prelude.Map.{HashMap}
use metel.Error.{Span}
use metel.Types.{ResolvedType}
use metel.Ast.Modules.{Visibility}
use metel.Ast.Types.{ReceiverKind}
use metel.Ast.Trees.{AspectMethod}
use metel.TypeInference.Syntax.{TypeVar, InferType}
use metel.TypeInference.Scheme.Defs.{TypeScheme}

abbrev pub ModulePath : Type 0
ModulePath = List String

pub record FieldEntry : Type 0 where
  pub name : String
  pub ty : InferType
  pub span : Span
  pub visibility : Visibility

pub record VariantInfo : Type 0 where
  pub name : String
  pub fields : List FieldEntry

pub record EnumInfo : Type 0 where
  pub type_params : List TypeVar
  pub variants : List VariantInfo

pub record TypeDefinitionRegistry : Type 0 where
  pub struct_env : HashMap String (List FieldEntry)
  pub struct_decl_modules : HashMap String ModulePath
  pub struct_type_params : HashMap String (List TypeVar)
  pub struct_generic_names : HashMap String (List String)
  pub method_scheme_env : HashMap String (HashMap String (TypeScheme × List TypeVar))
  pub type_param_bounds : HashMap String (List (List String))
  pub fun_bounds : HashMap String (HashMap TypeVar (List String))
  -- The last scope first.
  pub struct_scope_stack : List (List String)
  pub method_env : HashMap String (HashMap String InferType)
  pub method_receiver_env : HashMap String (HashMap String ReceiverKind)
  pub enum_env : HashMap String EnumInfo
  pub enum_decl_modules : HashMap String ModulePath
  pub aspect_env : HashMap String (List String)
  pub aspect_decl_modules : HashMap String ModulePath
  pub aspect_method_defs : HashMap String (List AspectMethod)
  pub impl_aspect_env : HashMap (String × String) (List (List ResolvedType))

-- `TypeDefinitionRegistry::new`
unfoldable pub new : TypeDefinitionRegistry
new = record {
  struct_env = [];
  struct_decl_modules = [];
  struct_type_params = [];
  struct_generic_names = [];
  method_scheme_env = [];
  type_param_bounds = [];
  fun_bounds = [];
  struct_scope_stack = [];
  method_env = [];
  method_receiver_env = [];
  enum_env = [];
  enum_decl_modules = [];
  aspect_env = [];
  aspect_decl_modules = [];
  aspect_method_defs = [];
  impl_aspect_env = [];
}
