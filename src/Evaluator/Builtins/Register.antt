-- ===== src/Evaluator/Builtins/Register.antt =====
-- evaluator/builtins.rs: what is registered under which name.
use metel.Prelude.{String, List, [], ◌∷◌, Option, some, none, if◌then◌else◌, str_eq}
use metel.Ast.Literals.{IntKind, i8, i16, i32, i64, u8, u16, u32, u64, f32, f64}
use metel.Ast.Types.{ReceiverKind}
use metel.Evaluator.Platform.{Platform}
use metel.Evaluator.Values.{
  Intrinsic, RuntimeTypePattern, callable, intrinsic, print, println, i64_to_string, f64_to_string,
  boolean_to_string, char_to_string, string_to_string, string_len_method, array_len, i64_from,
  f64_from, from_int, from_float, u32_from_char, char_from_u32, string_len, string_concat, list_new,
  list_from, list_push, list_pop, list_len, list_get, list_as_slice, clock, assert, assert_msg, dbg,
}
use metel.Evaluator.Registry.{
  RuntimeRegistry, RuntimeMethod, RuntimeTypeRef, named, new, register_std_core_value,
  register_type_value, register_inherent_method, register_aspect_method, register_pattern_method,
}
use metel.Evaluator.Registry.Lookup.{int_name}

abbrev pub named_all : List String → List RuntimeTypeRef
named_all [] = []
named_all (name ∷ names) = named name ∷ named_all names

abbrev pub method :
    String → Option ReceiverKind → List String → Option RuntimeTypeRef → Intrinsic → RuntimeMethod
method label receiver params ret f = record {
  label = label;
  receiver = receiver;
  signature = record { params = named_all params; ret = ret };
  body = intrinsic f;
}

abbrev pub by_value : Option ReceiverKind
by_value = some ReceiverKind.value

abbrev pub by_ref_mut : Option ReceiverKind
by_ref_mut = some ReceiverKind.ref_mut

-- What one `register_…!` line does.
abbrev pub Step : Type 0
Step = RuntimeRegistry → RuntimeRegistry

-- One step and then another.
infixl 3 ◌▷◌
abbrev pub ◌▷◌ : Step → Step → Step
(f ▷ g) registry = g (f registry)

abbrev pub register_pattern : RuntimeTypePattern → String → RuntimeMethod → Step
register_pattern pattern name m registry = register_pattern_method registry pattern name m

abbrev pub register_inherent : String → String → RuntimeMethod → Step
register_inherent type_name name m registry = register_inherent_method registry type_name name m

abbrev pub register_type : String → String → RuntimeMethod → Step
register_type type_name name m registry = register_type_value registry type_name name m

unfoldable pub register_core : String → Intrinsic → Step
unfolding register_std_core_value
register_core name f registry = register_std_core_value registry name (callable (intrinsic f))

unfoldable pub register_display : String → String → Intrinsic → Step
unfolding register_aspect_method
register_display type_name label f registry =
    register_aspect_method registry type_name "Display" none [] "to_string"
      (method label by_value [] (some (named "String")) f)

unfoldable pub register_from : String → String → String → Intrinsic → Step
unfolding register_aspect_method
register_from target source label f registry =
    register_aspect_method registry target "From" none (source ∷ []) "from"
      (method label none (source ∷ []) (some (named target)) f)

abbrev pub sources : List String
sources = "i8" ∷ "i16" ∷ "i32" ∷ "i64" ∷ "u8" ∷ "u16" ∷ "u32" ∷ "u64" ∷ "f32" ∷ "f64" ∷ []

module _ (rust : Platform) where
  -- `concat!(target, "::From<", source, ">::from")`
  abbrev pub from_label : String → String → String
  from_label target source =
      rust.concat target (rust.concat "::From<" (rust.concat source ">::from"))

  unfoldable pub register_cast : String → String → Intrinsic → Step
  unfolding register_from
  register_cast target source f = register_from target source (from_label target source) f

  -- The lines for one target, which leave the target out of the sources.
  unfoldable pub register_casts : String → (String → Intrinsic) → List String → Step
  unfolding register_cast
  register_casts target f [] registry = registry
  register_casts target f (source ∷ rest) registry =
      register_casts target f rest
        (if str_eq source target then registry else register_cast target source (f source) registry)

  abbrev pub register_int_casts : List IntKind → Step
  register_int_casts [] registry = registry
  register_int_casts (k ∷ ks) registry =
      register_int_casts ks (register_casts (int_name k) (from_int k) sources registry)

  -- In the order of the source; each line is a step, the first on the left.
  unfoldable pub register_display_lines : Step
  unfolding register_core register_display register_pattern_method
  register_display_lines =
      register_core "print" print
      ▷ register_core "println" println
      ▷ register_display "i64" "i64::to_string" i64_to_string
      ▷ register_display "f64" "f64::to_string" f64_to_string
      ▷ register_display "boolean" "boolean::to_string" boolean_to_string
      ▷ register_display "Char" "Char::to_string" char_to_string
      ▷ register_display "String" "String::to_string" string_to_string
      ▷ register_pattern RuntimeTypePattern.str "len"
          (method "String::len" by_value [] (some (named "i64")) string_len_method)
      ▷ register_pattern RuntimeTypePattern.array "len"
          (method "Array::len" by_value [] (some (named "i64")) array_len)

  unfoldable pub register_from_lines : Step
  unfolding register_inherent_method register_casts register_cast
  register_from_lines =
      register_inherent "i64" "from"
        (method "i64::from" none ("numeric" ∷ []) (some (named "i64")) i64_from)
      ▷ register_inherent "f64" "from"
          (method "f64::from" none ("numeric" ∷ []) (some (named "f64")) f64_from)
      ▷ register_int_casts (i8 ∷ i16 ∷ i32 ∷ i64 ∷ u8 ∷ u16 ∷ u32 ∷ u64 ∷ [])
      ▷ register_casts "f32" (from_float f32) sources
      ▷ register_casts "f64" (from_float f64) sources
      ▷ register_cast "u32" "Char" u32_from_char
      ▷ register_cast "Char" "u32" char_from_u32

  unfoldable pub register_list_lines : Step
  unfolding register_core register_type_value register_inherent_method
  register_list_lines =
      register_core "string_len" string_len
      ▷ register_core "string_concat" string_concat
      ▷ register_type "List" "new" (method "List::new" none [] (some (named "List<T>")) list_new)
      ▷ register_type "List" "from"
          (method "List::from" none ("T[]" ∷ []) (some (named "List<T>")) list_from)
      ▷ register_inherent "List" "push"
          (method "List::push" by_ref_mut ("T" ∷ []) (some (named "()")) list_push)
      ▷ register_inherent "List" "pop"
          (method "List::pop" by_ref_mut [] (some (named "Perhaps<T>")) list_pop)
      ▷ register_inherent "List" "len"
          (method "List::len" by_value [] (some (named "i64")) list_len)
      ▷ register_inherent "List" "get"
          (method "List::get" by_value ("i64" ∷ []) (some (named "Perhaps<T>")) list_get)
      ▷ register_inherent "List" "as_slice"
          (method "List::as_slice" by_value [] (some (named "T[]")) list_as_slice)
      ▷ register_core "clock" clock
      ▷ register_core "assert" assert
      ▷ register_core "assert_msg" assert_msg
      ▷ register_core "dbg" dbg

  unfoldable pub register_builtins : Step
  unfolding register_display_lines register_from_lines register_list_lines
  register_builtins = register_display_lines ▷ register_from_lines ▷ register_list_lines

  unfoldable pub runtime_registry : RuntimeRegistry
  unfolding register_builtins new
  runtime_registry = register_builtins new
