-- ===== src/Evaluator/Platform.antt =====
-- What the evaluator takes from Rust's standard library and from the machine: floating point, the text
-- of numbers, the concatenation and length of texts, and the clock.
use metel.Prelude.{ℕ, String, List, Bool}
use metel.Prelude.Int.{ℤ}
use metel.Ast.Literals.{FloatKind}

pub record Platform : Type 0 where
  -- `+ - * / %` and unary `-` of a kind of floats, on bit patterns
  pub f_add : FloatKind → ℕ → ℕ → ℕ
  pub f_sub : FloatKind → ℕ → ℕ → ℕ
  pub f_mul : FloatKind → ℕ → ℕ → ℕ
  pub f_div : FloatKind → ℕ → ℕ → ℕ
  pub f_rem : FloatKind → ℕ → ℕ → ℕ
  pub f_neg : FloatKind → ℕ → ℕ
  -- `== < <=`
  pub f_eq : FloatKind → ℕ → ℕ → Bool
  pub f_lt : FloatKind → ℕ → ℕ → Bool
  pub f_le : FloatKind → ℕ → ℕ → Bool
  -- `as f32` and `as f64`, of the other kind and of an integer
  pub f32_of_f64 : ℕ → ℕ
  pub f64_of_f32 : ℕ → ℕ
  pub f64_of_int : ℤ → ℕ
  -- `as i128` of a float
  pub int_of_float : FloatKind → ℕ → ℤ
  -- `to_string` of an integer; `format_float` and `to_string` of a float; a text of one character
  pub show_int : ℤ → String
  pub format_float : ℕ → String
  pub show_float : FloatKind → ℕ → String
  pub show_char : ℕ → String
  -- `a + &b`
  pub concat : String → String → String
  -- `items.join(separator)` and `text.split(separator)`, the separator first
  pub join : String → List String → String
  pub split : String → String → List String
  -- `chars().count()`
  pub char_count : String → ℕ
  -- milliseconds since the epoch, at the n-th call
  pub clock : ℕ → ℤ
