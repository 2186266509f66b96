-- ===== src/Evaluator/Registry/Lookup.antt =====
-- evaluator/mod.rs: how the registry is read.
use metel.Prelude.{
  String, List, [], ◌∷◌, Option, some, none, Bool, false, if◌then◌else◌, string_eq, list_eq, ◌==◌,
}
use metel.Prelude.Map.{get, or_else}
use metel.Ast.Literals.{IntKind, FloatKind, i8, i16, i32, i64, u8, u16, u32, u64, f32, f64}
use metel.Ast.Trees.{SymbolId}
use metel.Evaluator.Platform.{Platform}
use metel.Evaluator.Values.{
  Value, RuntimeTypePattern, int, float, char, boolean, struct, enum, callable, primitive,
}
use metel.Evaluator.Registry.{
  RuntimeRegistry, RuntimeMethod, RuntimeAspectImpl, is_impl_of, pattern_eq, std_core,
}

-- `o.and_then(f)` and `o.map(f)`
abbrev pub and_then {ℓ κ} : {A : Type ℓ} {B : Type κ} → Option A → (A → Option B) → Option B
and_then none f = none
and_then (some a) f = f a

abbrev pub map_some {ℓ κ} : {A : Type ℓ} {B : Type κ} → (A → B) → Option A → Option B
map_some f none = none
map_some f (some a) = some (f a)

-- `filter(|m| m.receiver.is_some())` and `filter(|m| m.receiver.is_none())`
abbrev pub with_receiver : Option RuntimeMethod → Option RuntimeMethod
with_receiver none = none
with_receiver (some m) = elim (m.receiver) [ some r ↦ some m | none ↦ none ]

abbrev pub without_receiver : Option RuntimeMethod → Option RuntimeMethod
without_receiver none = none
without_receiver (some m) = elim (m.receiver) [ some r ↦ none | none ↦ some m ]

-- `impls.iter().rev().find_map(f)`
abbrev pub find_last :
    (RuntimeAspectImpl → Option RuntimeMethod) → List RuntimeAspectImpl → Option RuntimeMethod
find_last f [] = none
find_last f (impl ∷ impls) = or_else (find_last f impls) (f impl)

unfoldable pub get_module_value : RuntimeRegistry → List String → String → Option Value
unfolding get
get_module_value registry module_path name =
    and_then (get module_path registry.modules) (λ entry. get name entry.values)

unfoldable pub std_core_lookup : String → RuntimeRegistry → Option Value
unfolding get_module_value
std_core_lookup name registry = get_module_value registry std_core name

abbrev pub body_of : RuntimeMethod → Value
body_of m = callable m.body

unfoldable pub get_type_value : RuntimeRegistry → String → String → Option Value
unfolding get
get_type_value registry type_name name = and_then (get type_name registry.types) (λ entry.
    map_some body_of (
      or_else (get name entry.associated_values)
        (find_last (λ impl. without_receiver (get name impl.methods)) entry.aspect_impls)))

unfoldable pub get_inherent_method : RuntimeRegistry → String → String → Option RuntimeMethod
unfolding get
get_inherent_method registry type_name name =
    and_then (get type_name registry.types)
      (λ entry. with_receiver (get name entry.inherent_methods))

unfoldable pub get_aspect_method : RuntimeRegistry → String → String → Option RuntimeMethod
unfolding get
get_aspect_method registry type_name name =
    and_then (get type_name registry.types)
      (λ entry. find_last (λ impl. with_receiver (get name impl.methods)) entry.aspect_impls)

-- `ai.aspect_id == Some(aspect_id)`
abbrev pub has_id : SymbolId → RuntimeAspectImpl → Bool
has_id aspect_id impl = elim (impl.aspect_id) [ some id ↦ id == aspect_id | none ↦ false ]

unfoldable pub get_aspect_method_by_id :
    RuntimeRegistry → String → SymbolId → String → Option RuntimeMethod
unfolding get get_aspect_method
get_aspect_method_by_id registry type_name aspect_id name =
    and_then (get type_name registry.types) (λ entry.
      or_else
        (find_last
          (λ impl. if has_id aspect_id impl then with_receiver (get name impl.methods) else none)
          entry.aspect_impls)
        (get_aspect_method registry type_name name))

unfoldable pub get_regular_method : RuntimeRegistry → String → String → Option RuntimeMethod
unfolding get_inherent_method get_aspect_method
get_regular_method registry type_name name =
    or_else (get_inherent_method registry type_name name)
      (get_aspect_method registry type_name name)

abbrev pub int_name : IntKind → String
int_name i8 = "i8"
int_name i16 = "i16"
int_name i32 = "i32"
int_name i64 = "i64"
int_name u8 = "u8"
int_name u16 = "u16"
int_name u32 = "u32"
int_name u64 = "u64"

abbrev pub float_name : FloatKind → String
float_name f32 = "f32"
float_name f64 = "f64"

unfoldable pub runtime_type_name : Value → Option String
runtime_type_name (struct name fields) = some name
runtime_type_name (enum name variant fields) = some name
runtime_type_name (int k n) = some (int_name k)
runtime_type_name (float k n) = some (float_name k)
runtime_type_name (char c) = some "Char"
runtime_type_name (boolean b) = some "boolean"
runtime_type_name (Value.str s) = some "String"
runtime_type_name _ = none

unfoldable pub runtime_type_pattern : Value → Option RuntimeTypePattern
runtime_type_pattern (Value.str s) = some RuntimeTypePattern.str
runtime_type_pattern (Value.array a) = some RuntimeTypePattern.array
runtime_type_pattern (int k n) = some (primitive (int_name k))
runtime_type_pattern (float k n) = some (primitive (float_name k))
runtime_type_pattern (char c) = some (primitive "Char")
runtime_type_pattern (boolean b) = some (primitive "boolean")
runtime_type_pattern _ = none

unfoldable pub get_method_for_value : RuntimeRegistry → Value → String → Option RuntimeMethod
unfolding get runtime_type_name runtime_type_pattern get_regular_method
get_method_for_value registry v name =
    or_else
      (and_then (runtime_type_name v) (λ type_name. get_regular_method registry type_name name))
      (and_then (runtime_type_pattern v) (λ pattern.
        and_then (get pattern registry.pattern_methods)
          (λ methods. with_receiver (get name methods))))

unfoldable pub inherent_method_without_receiver :
    RuntimeRegistry → String → String → Option RuntimeMethod
unfolding get
inherent_method_without_receiver registry type_name name =
    and_then (get type_name registry.types)
      (λ entry. without_receiver (get name entry.inherent_methods))

unfoldable pub get_from_method : RuntimeRegistry → String → String → Option RuntimeMethod
unfolding get inherent_method_without_receiver
get_from_method registry target source = and_then (get target registry.types) (λ entry.
    or_else
      (find_last
        (λ impl. if is_impl_of "From" (source ∷ []) impl then get "from" impl.methods else none)
        entry.aspect_impls)
      (or_else (get "from" entry.associated_values)
        (inherent_method_without_receiver registry target "from")))

-- The parts of a local name that has exactly two.
abbrev pub of_two_parts : RuntimeRegistry → List String → Option Value
of_two_parts registry (type_name ∷ member_name ∷ []) = get_type_value registry type_name member_name
of_two_parts registry _ = none

module _ (rust : Platform) where
  unfoldable pub resolve_module_export : RuntimeRegistry → List String → String → Option Value
  unfolding get_module_value get_type_value
  resolve_module_export registry module_path local_name =
      or_else (get_module_value registry module_path local_name)
        (of_two_parts registry (rust.split "::" local_name))

  unfoldable pub resolve_path_value : RuntimeRegistry → List String → Option Value
  unfolding resolve_module_export get_type_value
  resolve_path_value registry (a ∷ b ∷ []) = get_type_value registry a b
  resolve_path_value registry (a ∷ b ∷ c ∷ rest) =
      resolve_module_export registry (a ∷ b ∷ []) (rust.join "::" (c ∷ rest))
  resolve_path_value registry _ = none
