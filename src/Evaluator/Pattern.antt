-- ===== src/Evaluator/Pattern.antt =====
-- evaluator/pattern.rs: `match_pattern`, which collects the bindings of a pattern. The result is the
-- `bool` and the map that the caller lent.
pub mod Bindings
use metel.Prelude.{
  ℕ, zero, suc, String, List, [], ◌∷◌, Option, some, none, Bool, true, false, ◌==◌, ◌&&◌, not, ltb,
  if◌then◌else◌, str_eq, string_eq, decide, ◌+◌,
}
use metel.Prelude.Map.{HashMap, insert}
use metel.Prelude.Int.{ℤ, eqb_ℤ}
use metel.Ast.Literals.{Literal, Pattern, Patterns, IntKind, FloatKind, i64, f32, f64}
use metel.Evaluator.Values.{
  Value, Values, ValueFields, int, float, char, boolean, str, unit, tuple, array, enum, nil, cons,
}
use metel.Evaluator.Platform.{Platform}
use metel.Evaluator.State.{State, M, ◌>>=◌, return, lift, read_array, new_array}
use metel.Evaluator.Outcome.{Outcome, done, failed, aborted, out_of_fuel}
use metel.Evaluator.Arith.{wrap, same_bool, IntKind-discrete, FloatKind-discrete}
use metel.Evaluator.Paths.{get_field}

abbrev pub Bindings : Type 0
Bindings = HashMap String Value

-- `matches!(value, Value::Enum { name, variant, .. } if name == "Perhaps" && variant == "None")`
unfoldable pub is_none : Value → Bool
is_none (enum name variant fields) = str_eq name "Perhaps" && str_eq variant "None"
is_none _ = false

unfoldable pub values_len : Values → ℕ
values_len nil = 0
values_len (cons v vs) = values_len vs + 1

unfoldable pub patterns_len : Patterns → ℕ
patterns_len Patterns.nil = 0
patterns_len (Patterns.cons p ps) = patterns_len ps + 1

-- `vs[n..]`
unfoldable pub drop_values : ℕ → Values → Values
drop_values zero vs = vs
drop_values (suc n) nil = nil
drop_values (suc n) (cons v vs) = drop_values n vs

-- `path[path.len() - 2]`, or the empty text
unfoldable pub type_segment : List String → String
type_segment [] = ""
type_segment (a ∷ []) = ""
type_segment (a ∷ b ∷ []) = a
type_segment (a ∷ b ∷ c ∷ rest) = type_segment (b ∷ c ∷ rest)

-- `path.last()`, or the empty text
unfoldable pub last_segment : List String → String
last_segment [] = ""
last_segment (a ∷ []) = a
last_segment (a ∷ b ∷ rest) = last_segment (b ∷ rest)

-- The loop over the field names of a variant's pattern.
unfoldable pub bind_fields : List String → ValueFields → Bindings → Bool × Bindings
unfolding insert get_field
bind_fields [] fields out = (true, out)
bind_fields (name ∷ names) fields out = elim (get_field name fields) [
  | some v ↦ bind_fields names fields (insert name v out)
  | none ↦ (false, out)
]

-- Whether an array of a length fits a pattern.
abbrev pub fits : Option String → ℕ → ℕ → Bool
fits none wanted n = n == wanted
fits (some rest) wanted n = not (ltb n wanted)

unfoldable pub bind_rest : Option String → ℕ → Values → Bindings → M (Bool × Bindings)
unfolding new_array drop_values insert
bind_rest none n items out = return (true, out)
bind_rest (some name) n items out = do
  tail ← new_array (drop_values n items)
  return (true, insert name (array tail) out)

-- The rest is bound where the elements have matched.
abbrev pub bind_matched : Option String → ℕ → Values → Bool × Bindings → M (Bool × Bindings)
bind_matched rest n items (matched, out) =
    if matched then bind_rest rest n items out else return (false, out)

module _ (rust : Platform) where
  unfoldable pub match_literal : Literal → Value → Bool
  unfolding wrap is_none decide IntKind-discrete FloatKind-discrete
  match_literal (Literal.int a) (int i64 b) = eqb_ℤ a b
  match_literal (Literal.float a) (float f64 b) = rust.f_eq f64 a b
  match_literal (Literal.char a) (char b) = a == b
  match_literal (Literal.boolean a) (boolean b) = same_bool a b
  match_literal (Literal.str a) (str b) = str_eq a b
  match_literal Literal.unit unit = true
  match_literal Literal.none v = is_none v
  match_literal (Literal.sized_int a kind) (int k b) =
      decide (IntKind-discrete k kind) && eqb_ℤ b (wrap kind a)
  match_literal (Literal.sized_float a f32) (float f32 b) = rust.f_eq f32 b (rust.f32_of_f64 a)
  match_literal (Literal.sized_float a f64) (float f64 b) = rust.f_eq f64 b a
  match_literal _ _ = false

  unfoldable mutual
    unfolding match_literal is_none insert bind_fields type_segment last_segment read_array
        values_len patterns_len bind_rest

    pub match_pattern : Pattern → Value → Bindings → M (Bool × Bindings)
    match_pattern (Pattern.wildcard span) v out = return (true, out)
    match_pattern (Pattern.none span) v out = return (is_none v, out)
    match_pattern (Pattern.literal lit span) v out = return (match_literal lit v, out)
    match_pattern (Pattern.binding name span) v out = return (true, insert name v out)
    match_pattern (Pattern.tuple ps span) (tuple items) out =
        if values_len items == patterns_len ps then match_all ps items out else return (false, out)
    match_pattern (Pattern.enum_variant path names span) (enum name variant fields) out =
        if str_eq name (type_segment path) && str_eq variant (last_segment path)
        then return (bind_fields names fields out)
        else return (false, out)
    match_pattern (Pattern.array ps rest span) (array a) out = do
      items ← read_array a
      if fits rest (patterns_len ps) (values_len items)
          then match_all ps items out >>= bind_matched rest (patterns_len ps) items
          else return (false, out)
    match_pattern _ v out = return (false, out)

    -- Pattern by pattern, up to the first that does not match.
    pub match_all : Patterns → Values → Bindings → M (Bool × Bindings)
    match_all (Patterns.cons p ps) (cons v vs) out = do
      (matched, out') ← match_pattern p v out
      if matched then match_all ps vs out' else return (false, out')
    match_all _ _ out = return (true, out)
