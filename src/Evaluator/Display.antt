-- ===== src/Evaluator/Display.antt =====
-- evaluator/display.rs: the text of a value.
use metel.Prelude.{String, Option, some, none, Bool, true, false}
use metel.Ast.Literals.{f32, f64}
use metel.Evaluator.Platform.{Platform}
use metel.Evaluator.Values.{Value, int, float, char, boolean, str}

abbrev pub bool_text : Bool → String
bool_text true = "true"
bool_text false = "false"

module _ (rust : Platform) where
  unfoldable pub value_to_display_string : Value → Option String
  value_to_display_string (int k n) = some (rust.show_int n)
  value_to_display_string (float f64 f) = some (rust.format_float f)
  value_to_display_string (float f32 f) = some (rust.show_float f32 f)
  value_to_display_string (char c) = some (rust.show_char c)
  value_to_display_string (boolean b) = some (bool_text b)
  value_to_display_string (str s) = some s
  value_to_display_string _ = none
