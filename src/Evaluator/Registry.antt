-- ===== src/Evaluator/Registry.antt =====
-- evaluator/mod.rs: `RuntimeRegistry`, the table of the values and methods that are not in an
-- environment, and how it is written.
pub mod Lookup
pub mod Precedence
use metel.Prelude.{
  ℕ, String, List, [], ◌∷◌, ◌++◌, Option, some, none, Bool, true, false, ◌&&◌, if◌then◌else◌,
  str_eq, str_eq_iff, same, Equality, string_eq, list_eq, ◌≡◌, ◌↔◌, refl, arith,
}
use metel.Prelude.Map.{HashMap, get, insert}
use metel.Ast.Types.{ReceiverKind}
use metel.Ast.Trees.{SymbolId}
use metel.Evaluator.Values.{Value, RuntimeCallable, RuntimeTypePattern, str, array, primitive}

pub data RuntimeTypeRef : Type 0 where
  named : String → RuntimeTypeRef

pub record RuntimeSignature : Type 0 where
  pub params : List RuntimeTypeRef
  pub ret : Option RuntimeTypeRef

pub record RuntimeMethod : Type 0 where
  pub label : String
  pub receiver : Option ReceiverKind
  pub signature : RuntimeSignature
  pub body : RuntimeCallable

pub record RuntimeAspectImpl : Type 0 where
  pub aspect_name : String
  pub aspect_id : Option SymbolId
  pub type_args : List String
  pub methods : HashMap String RuntimeMethod

pub record RuntimeTypeEntry : Type 0 where
  pub associated_values : HashMap String RuntimeMethod
  pub inherent_methods : HashMap String RuntimeMethod
  pub aspect_impls : List RuntimeAspectImpl

pub record RuntimeModuleEntry : Type 0 where
  pub values : HashMap String Value

pub record RuntimeRegistry : Type 0 where
  pub modules : HashMap (List String) RuntimeModuleEntry
  pub types : HashMap String RuntimeTypeEntry
  pub pattern_methods : HashMap RuntimeTypePattern (HashMap String RuntimeMethod)

abbrev pub same_pattern : RuntimeTypePattern → RuntimeTypePattern → Bool
same_pattern RuntimeTypePattern.str RuntimeTypePattern.str = true
same_pattern RuntimeTypePattern.array RuntimeTypePattern.array = true
same_pattern (primitive a) (primitive b) = str_eq a b
same_pattern _ _ = false

pub same_pattern_iff : (a b : RuntimeTypePattern) → (same_pattern a b ≡ true) ↔ (a ≡ b)
same_pattern_iff RuntimeTypePattern.str RuntimeTypePattern.str = ground arith
same_pattern_iff RuntimeTypePattern.array RuntimeTypePattern.array = ground arith
same_pattern_iff (primitive a) (primitive b) = ground (arith, str_eq_iff a b)
same_pattern_iff _ _ = ground arith

instance abbrev pub pattern_eq : Equality RuntimeTypePattern
pattern_eq = record { beq = same_pattern; beq_iff = same_pattern_iff }

unfoldable pub new : RuntimeRegistry
new = record { modules = []; types = []; pattern_methods = [] }

-- `unwrap_or_default()`
abbrev pub or_default {ℓ} : {A : Type ℓ} → A → Option A → A
or_default d (some v) = v
or_default d none = d

abbrev pub no_values : RuntimeModuleEntry
no_values = record { values = [] }

abbrev pub no_methods : RuntimeTypeEntry
no_methods = record { associated_values = []; inherent_methods = []; aspect_impls = [] }

-- `self.types.entry(name).or_default()`
unfoldable pub type_entry : RuntimeRegistry → String → RuntimeTypeEntry
unfolding get
type_entry registry name = or_default no_methods (get name registry.types)

abbrev pub with_type : RuntimeRegistry → String → RuntimeTypeEntry → RuntimeRegistry
with_type registry name entry = record registry { types = insert name entry registry.types }

unfoldable pub register_module_value :
    RuntimeRegistry → List String → String → Value → RuntimeRegistry
unfolding get insert
register_module_value registry module_path name v =
    let entry = or_default no_values (get module_path registry.modules) in
    record registry {
      modules =
          insert module_path (record entry { values = insert name v entry.values })
            registry.modules;
    }

abbrev pub std_core : List String
std_core = "std" ∷ "core" ∷ []

unfoldable pub register_std_core_value : RuntimeRegistry → String → Value → RuntimeRegistry
unfolding register_module_value
register_std_core_value registry name v = register_module_value registry std_core name v

unfoldable pub register_type_value :
    RuntimeRegistry → String → String → RuntimeMethod → RuntimeRegistry
unfolding type_entry insert
register_type_value registry type_name name m =
    let entry = type_entry registry type_name in
    with_type registry type_name
      (record entry { associated_values = insert name m entry.associated_values })

unfoldable pub register_inherent_method :
    RuntimeRegistry → String → String → RuntimeMethod → RuntimeRegistry
unfolding type_entry insert
register_inherent_method registry type_name name m =
    let entry = type_entry registry type_name in
    with_type registry type_name
      (record entry { inherent_methods = insert name m entry.inherent_methods })

-- `aspect_id.is_none()` decides which id is kept.
abbrev pub first_id : Option SymbolId → Option SymbolId → Option SymbolId
first_id none id = id
first_id (some old) id = some old

abbrev pub is_impl_of : String → List String → RuntimeAspectImpl → Bool
is_impl_of aspect_name type_args impl =
    str_eq impl.aspect_name aspect_name && same impl.type_args type_args

-- The first implementation of the aspect at the type arguments takes the method; where there is none,
-- one is added at the end.
unfoldable pub add_to_impls :
    String
    → Option SymbolId
    → List String
    → String
    → RuntimeMethod
    → List RuntimeAspectImpl
    → List RuntimeAspectImpl
unfolding insert
add_to_impls aspect_name aspect_id type_args name m [] =
    record {
      aspect_name = aspect_name;
      aspect_id = aspect_id;
      type_args = type_args;
      methods = (name, m) ∷ [];
    }
    ∷ []
add_to_impls aspect_name aspect_id type_args name m (impl ∷ impls) =
    if is_impl_of aspect_name type_args impl
    then record impl {
      aspect_id = first_id impl.aspect_id aspect_id;
      methods = insert name m impl.methods;
    }
      ∷ impls
    else impl ∷ add_to_impls aspect_name aspect_id type_args name m impls

unfoldable pub register_aspect_method :
    RuntimeRegistry
    → String
    → String
    → Option SymbolId
    → List String
    → String
    → RuntimeMethod
    → RuntimeRegistry
unfolding type_entry add_to_impls insert
register_aspect_method registry type_name aspect_name aspect_id type_args name m =
    let entry = type_entry registry type_name in
    with_type registry type_name (record entry {
      aspect_impls = add_to_impls aspect_name aspect_id type_args name m entry.aspect_impls;
    })

unfoldable pub register_pattern_method :
    RuntimeRegistry → RuntimeTypePattern → String → RuntimeMethod → RuntimeRegistry
unfolding get insert
register_pattern_method registry pattern name m =
    let methods = or_default [] (get pattern registry.pattern_methods) in
    record registry {
      pattern_methods = insert pattern (insert name m methods) registry.pattern_methods;
    }
