-- ===== src/TypeInference/Registry/Entries.antt =====
-- typeinference/mod.rs, `TypeDefinitionRegistry`: the other entries and `merge_from`. The accessor
-- `aspect_method_defs` is `get_aspect_method_defs` here, beside the field of that name.
use metel.Prelude.{
  String, List, [], ◌∷◌, ◌++◌, Option, some, none, Bool, true, false, decide, if◌then◌else◌,
  string_eq, ℕ_eq, pair_eq,
}
use metel.Prelude.Map.{HashMap, get, insert, merge, contains_key}
use metel.Types.{ResolvedType, ResolvedType-discrete}
use metel.Ast.Types.{ReceiverKind}
use metel.Ast.Trees.{AspectMethod}
use metel.TypeInference.Syntax.{TypeVar, InferType}
use metel.TypeInference.Scheme.Defs.{TypeScheme}
use metel.TypeInference.Registry.Types.{ModulePath, FieldEntry, EnumInfo, TypeDefinitionRegistry}

-- `entry(k).or_default()` of a map of maps or of lists.
abbrev pub or_default {ℓ} : {A : Type ℓ} → Option (List A) → List A
or_default (some xs) = xs
or_default none = []

-- `env.entry(k).or_default().insert(j, v)`
unfoldable pub insert_in :
    {V : Type 0}
    → String
    → String
    → V
    → HashMap String (HashMap String V)
    → HashMap String (HashMap String V)
insert_in k j v env = insert k (insert j v (or_default (get k env))) env

-- `env.get(k)?.get(j)`
unfoldable pub get_in :
    {V : Type 0} → String → String → HashMap String (HashMap String V) → Option V
get_in k j env = elim (get k env) [ some m ↦ get j m | none ↦ none ]

unfoldable pub register_method :
    String → String → InferType → TypeDefinitionRegistry → TypeDefinitionRegistry
unfolding insert_in
register_method type_name method_name fun_ty r = record r {
  method_env = insert_in type_name method_name fun_ty r.method_env;
}

unfoldable pub register_method_receiver :
    String → String → ReceiverKind → TypeDefinitionRegistry → TypeDefinitionRegistry
unfolding insert_in
register_method_receiver type_name method_name kind r = record r {
  method_receiver_env = insert_in type_name method_name kind r.method_receiver_env;
}

unfoldable pub register_struct_type_params :
    String → List TypeVar → TypeDefinitionRegistry → TypeDefinitionRegistry
register_struct_type_params name type_params r = record r {
  struct_type_params = insert name type_params r.struct_type_params;
}

unfoldable pub register_struct_generic_names :
    String → List String → TypeDefinitionRegistry → TypeDefinitionRegistry
register_struct_generic_names name param_names r = record r {
  struct_generic_names = insert name param_names r.struct_generic_names;
}

unfoldable pub struct_generic_names_for : String → TypeDefinitionRegistry → Option (List String)
struct_generic_names_for name r = get name r.struct_generic_names

unfoldable pub register_method_scheme :
    String → String → TypeScheme → List TypeVar → TypeDefinitionRegistry → TypeDefinitionRegistry
unfolding insert_in
register_method_scheme type_name method_name scheme struct_tvars r = record r {
  method_scheme_env = insert_in type_name method_name (scheme, struct_tvars) r.method_scheme_env;
}

unfoldable pub method_scheme_for :
    String → String → TypeDefinitionRegistry → Option (TypeScheme × List TypeVar)
unfolding get_in
method_scheme_for type_name method_name r = get_in type_name method_name r.method_scheme_env

unfoldable pub register_type_param_bounds :
    String → List (List String) → TypeDefinitionRegistry → TypeDefinitionRegistry
register_type_param_bounds name bounds r = record r {
  type_param_bounds = insert name bounds r.type_param_bounds;
}

unfoldable pub type_param_bounds_for : String → TypeDefinitionRegistry → Option (List (List String))
type_param_bounds_for name r = get name r.type_param_bounds

unfoldable pub impl_aspect_env_has : String → String → TypeDefinitionRegistry → Bool
impl_aspect_env_has type_name aspect_name r =
    contains_key (type_name, aspect_name) r.impl_aspect_env

abbrev pub is_empty {ℓ} : {A : Type ℓ} → List A → Bool
is_empty [] = true
is_empty (x ∷ xs) = false

unfoldable pub register_fun_bounds :
    String → HashMap TypeVar (List String) → TypeDefinitionRegistry → TypeDefinitionRegistry
register_fun_bounds name bounds r =
    if is_empty bounds then r else record r { fun_bounds = insert name bounds r.fun_bounds }

unfoldable pub fun_bounds_for :
    String → TypeDefinitionRegistry → Option (HashMap TypeVar (List String))
fun_bounds_for name r = get name r.fun_bounds

unfoldable pub register_enum :
    String → EnumInfo → ModulePath → TypeDefinitionRegistry → TypeDefinitionRegistry
register_enum name info declaring_module r = record r {
  enum_env = insert name info r.enum_env;
  enum_decl_modules = insert name declaring_module r.enum_decl_modules;
}

unfoldable pub struct_fields : String → TypeDefinitionRegistry → Option (List FieldEntry)
struct_fields name r = get name r.struct_env

unfoldable pub struct_type_params_for : String → TypeDefinitionRegistry → Option (List TypeVar)
struct_type_params_for name r = get name r.struct_type_params

unfoldable pub method_type : String → String → TypeDefinitionRegistry → Option InferType
unfolding get_in
method_type type_name method_name r = get_in type_name method_name r.method_env

unfoldable pub method_receiver_kind : String → String → TypeDefinitionRegistry → Option ReceiverKind
unfolding get_in
method_receiver_kind type_name method_name r = get_in type_name method_name r.method_receiver_env

unfoldable pub enum_info : String → TypeDefinitionRegistry → Option EnumInfo
enum_info name r = get name r.enum_env

unfoldable pub struct_declaring_module : String → TypeDefinitionRegistry → Option ModulePath
struct_declaring_module name r = get name r.struct_decl_modules

unfoldable pub enum_declaring_module : String → TypeDefinitionRegistry → Option ModulePath
enum_declaring_module name r = get name r.enum_decl_modules

unfoldable pub register_aspect :
    String → List String → TypeDefinitionRegistry → TypeDefinitionRegistry
register_aspect name methods r = record r { aspect_env = insert name methods r.aspect_env }

unfoldable pub register_aspect_declaring_module :
    String → ModulePath → TypeDefinitionRegistry → TypeDefinitionRegistry
register_aspect_declaring_module name path r = record r {
  aspect_decl_modules = insert name path r.aspect_decl_modules;
}

unfoldable pub aspect_declaring_module : String → TypeDefinitionRegistry → Option ModulePath
aspect_declaring_module name r = get name r.aspect_decl_modules

unfoldable pub register_aspect_method_defs :
    String → List AspectMethod → TypeDefinitionRegistry → TypeDefinitionRegistry
register_aspect_method_defs name methods r = record r {
  aspect_method_defs = insert name methods r.aspect_method_defs;
}

unfoldable pub get_aspect_method_defs : String → TypeDefinitionRegistry → Option (List AspectMethod)
get_aspect_method_defs name r = get name r.aspect_method_defs

unfoldable pub register_aspect_impl :
    String → String → List ResolvedType → TypeDefinitionRegistry → TypeDefinitionRegistry
register_aspect_impl target aspect type_args r = record r {
  impl_aspect_env =
      insert (target, aspect)
        (or_default (get (target, aspect) r.impl_aspect_env) ++ type_args ∷ []) r.impl_aspect_env;
}

-- `args.first() == Some(source)`
unfoldable pub starts_with_type : ResolvedType → List ResolvedType → Bool
unfolding decide
starts_with_type source [] = false
starts_with_type source (t ∷ ts) = decide (ResolvedType-discrete t source)

-- `impls.iter().any(…)`
unfoldable pub any_from : ResolvedType → List (List ResolvedType) → Bool
any_from source [] = false
any_from source (args ∷ impls) =
    if starts_with_type source args then true else any_from source impls

unfoldable pub has_from_impl : String → ResolvedType → TypeDefinitionRegistry → Bool
has_from_impl target source r =
    any_from source (or_default (get (target, "From") r.impl_aspect_env))

abbrev pub first {ℓ} : {A : Type ℓ} → List A → Option A
first [] = none
first (x ∷ xs) = some x

unfoldable pub iterable_elem_type : String → TypeDefinitionRegistry → Option ResolvedType
iterable_elem_type target r = elim (get (target, "Iterable") r.impl_aspect_env) [
  | none ↦ none
  | some impls ↦ elim (first impls) [ none ↦ none | some args ↦ first args ]
]

-- Every map of `self` completed by that of `other`; the scope stack is left.
unfoldable pub merge_from : TypeDefinitionRegistry → TypeDefinitionRegistry → TypeDefinitionRegistry
merge_from self other = record self {
  struct_env = merge self.struct_env other.struct_env;
  struct_decl_modules = merge self.struct_decl_modules other.struct_decl_modules;
  struct_type_params = merge self.struct_type_params other.struct_type_params;
  struct_generic_names = merge self.struct_generic_names other.struct_generic_names;
  method_scheme_env = merge self.method_scheme_env other.method_scheme_env;
  type_param_bounds = merge self.type_param_bounds other.type_param_bounds;
  fun_bounds = merge self.fun_bounds other.fun_bounds;
  method_env = merge self.method_env other.method_env;
  method_receiver_env = merge self.method_receiver_env other.method_receiver_env;
  enum_env = merge self.enum_env other.enum_env;
  enum_decl_modules = merge self.enum_decl_modules other.enum_decl_modules;
  aspect_env = merge self.aspect_env other.aspect_env;
  aspect_decl_modules = merge self.aspect_decl_modules other.aspect_decl_modules;
  aspect_method_defs = merge self.aspect_method_defs other.aspect_method_defs;
  impl_aspect_env = merge self.impl_aspect_env other.impl_aspect_env;
}
