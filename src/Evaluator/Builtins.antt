-- ===== src/Evaluator/Builtins.antt =====
-- evaluator/builtins.rs: what the intrinsic functions do.
pub mod Register
pub mod Casts
use metel.Prelude.{
  ℕ, zero, suc, String, List, [], ◌∷◌, Option, some, none, Bool, true, false, ◌&&◌, ◌||◌, ltb, leb,
  if◌then◌else◌, str_eq, ◌+◌,
}
use metel.Prelude.Int.{ℤ, pos, negsuc}
use metel.Error.{Span, RuntimeErrorCode, r0009, r0013}
use metel.Ast.Literals.{IntKind, FloatKind, i64, u32, u64, f32, f64}
use metel.Evaluator.Outcome.{Outcome, done, failed, aborted, out_of_fuel}
use metel.Evaluator.Platform.{Platform}
use metel.Evaluator.State.{
  State, M, ◌>>=◌, ◌>>◌, return, lift, read_array, write_array, new_array, write_output, tick,
}
use metel.Evaluator.Arith.{panic, internal_failure, wrap}
use metel.Evaluator.Paths.{get_elem?, get_field}
use metel.Evaluator.Pattern.{values_len}
use metel.Evaluator.Display.{value_to_display_string, bool_text}
use metel.Evaluator.Values.{
  Value, Values, ValueFields, Intrinsic, int, float, char, boolean, str, unit, array, struct, enum,
  nil, cons, nil_fields, cons_fields, print, println, i64_to_string, f64_to_string,
  boolean_to_string, char_to_string, string_to_string, string_len_method, array_len, i64_from,
  f64_from, from_int, from_float, u32_from_char, char_from_u32, string_len, string_concat, list_new,
  list_from, list_push, list_pop, list_len, list_get, list_as_slice, clock, assert, assert_msg, dbg,
}

abbrev pub one_field : String → Value → ValueFields
one_field name v = cons_fields name v nil_fields

-- `List` with its array in the field `inner`
abbrev pub list_of : Value → Value
list_of inner = struct "List" (one_field "inner" inner)

abbrev pub none_value : Value
none_value = enum "Perhaps" "None" nil_fields

abbrev pub some_value : Value → Value
some_value v = enum "Perhaps" "Some" (one_field "value" v)

abbrev pub perhaps : Option Value → Value
perhaps (some v) = some_value v
perhaps none = none_value

-- `arr.push(val)`
unfoldable pub push_value : Values → Value → Values
push_value nil v = cons v nil
push_value (cons w ws) v = cons w (push_value ws v)

-- `arr.pop()`: the last element, and what stays.
unfoldable pub pop_value : Values → Option Value × Values
pop_value nil = (none, nil)
pop_value (cons v nil) = (some v, nil)
pop_value (cons v (cons w ws)) = let (last, kept) = pop_value (cons w ws) in (last, cons v kept)

-- The field `inner` of a `List`.
unfoldable pub inner_of : Value → Option Value
unfolding get_field
inner_of (struct name fields) = if str_eq name "List" then get_field "inner" fields else none
inner_of _ = none

-- A scalar value of Unicode is below 0x110000 and is no surrogate.
abbrev pub is_scalar : ℕ → Bool
is_scalar n = ltb n 55296 || (leb 57344 n && ltb n 1114112)

-- `arr.get(idx as usize)`: of a negative index that is above every length.
unfoldable pub list_elem : ℤ → Values → Option Value
unfolding get_elem?
list_elem (pos n) items = get_elem? n items
list_elem (negsuc n) items = none

abbrev pub is_list : Value → Bool
is_list (struct name fields) = str_eq name "List"
is_list _ = false

abbrev pub or_internal : Option Value → Outcome Value
or_internal (some v) = done v
or_internal none = internal_failure

-- What is done with the array of a `List`; anything else is an internal error.
abbrev pub with_inner : {A : Type 0} → Option Value → (ℕ → M A) → M A
with_inner (some (array a)) f = f a
with_inner _ f = lift internal_failure

module _ (rust : Platform) where
  unfoldable pub numeric_as_i128 : Value → Option ℤ
  numeric_as_i128 (int k n) = some n
  numeric_as_i128 (float k f) = some (rust.int_of_float k f)
  numeric_as_i128 _ = none

  unfoldable pub numeric_as_f64_val : Value → Option ℕ
  numeric_as_f64_val (int k n) = some (rust.f64_of_int n)
  numeric_as_f64_val (float f32 f) = some (rust.f64_of_f32 f)
  numeric_as_f64_val (float f64 f) = some f
  numeric_as_f64_val _ = none

  -- `n as k` of the number in the argument
  abbrev pub to_int : IntKind → Option ℤ → Outcome Value
  to_int k (some n) = done (int k (wrap k n))
  to_int k none = internal_failure

  abbrev pub to_float : FloatKind → Option ℕ → Outcome Value
  to_float f32 (some f) = done (float f32 (rust.f32_of_f64 f))
  to_float f64 (some f) = done (float f64 f)
  to_float k none = internal_failure

  -- The text, with what comes after it.
  abbrev pub print_text : Option String → String → Span → M Value
  print_text (some text) end span = do write_output (rust.concat text end); return unit
  print_text none end span = lift (panic r0009 span)

  -- The functions that touch no state.
  unfoldable pub pure_intrinsic : Intrinsic → Values → Span → Outcome Value
  unfolding wrap numeric_as_i128 numeric_as_f64_val
  pure_intrinsic i64_to_string (cons (int i64 n) rest) span = done (str (rust.show_int n))
  pure_intrinsic f64_to_string (cons (float f64 f) rest) span = done (str (rust.format_float f))
  pure_intrinsic boolean_to_string (cons (boolean b) rest) span = done (str (bool_text b))
  pure_intrinsic char_to_string (cons (char c) rest) span = done (str (rust.show_char c))
  pure_intrinsic string_to_string (cons (str s) rest) span = done (str s)
  pure_intrinsic string_len_method (cons (str s) rest) span =
      done (int i64 (wrap i64 (pos (rust.char_count s))))
  pure_intrinsic string_len (cons (str s) rest) span =
      done (int i64 (wrap i64 (pos (rust.char_count s))))
  pure_intrinsic string_concat (cons (str a) (cons (str b) rest)) span =
      done (str (rust.concat a b))
  pure_intrinsic i64_from (cons v rest) span = to_int i64 (numeric_as_i128 v)
  pure_intrinsic f64_from (cons v rest) span = to_float f64 (numeric_as_f64_val v)
  pure_intrinsic (from_int k source) (cons v rest) span = to_int k (numeric_as_i128 v)
  pure_intrinsic (from_float k source) (cons v rest) span = to_float k (numeric_as_f64_val v)
  pure_intrinsic u32_from_char (cons (char c) rest) span = done (int u32 (pos c))
  pure_intrinsic char_from_u32 (cons (int u32 (pos n)) rest) span =
      if is_scalar n then done (char n) else panic r0009 span
  pure_intrinsic assert (cons (boolean true) rest) span = done unit
  pure_intrinsic assert (cons (boolean false) rest) span = panic r0013 span
  pure_intrinsic assert_msg (cons (boolean true) rest) span = done unit
  pure_intrinsic assert_msg (cons (boolean false) rest) span = panic r0013 span
  pure_intrinsic dbg (cons v rest) span = done v
  pure_intrinsic _ args span = internal_failure

  unfoldable pub run_intrinsic : Intrinsic → Values → Span → M Value
  unfolding value_to_display_string read_array write_array new_array write_output tick values_len
      inner_of list_elem push_value pop_value pure_intrinsic wrap
  run_intrinsic print (cons v rest) span = print_text (value_to_display_string rust v) "" span
  run_intrinsic println (cons v rest) span = print_text (value_to_display_string rust v) "\n" span
  run_intrinsic array_len (cons (array a) rest) span = do
    items ← read_array a
    return (int i64 (wrap i64 (pos (values_len items))))
  run_intrinsic list_new args span = do a ← new_array nil; return (list_of (array a))
  run_intrinsic list_from (cons (array a) rest) span = do
    items ← read_array a
    b ← new_array items
    return (list_of (array b))
  run_intrinsic list_push (cons list (cons v rest)) span =
      with_inner (inner_of list)
        (λ a. do items ← read_array a; write_array a (push_value items v); return unit)
  run_intrinsic list_pop (cons list rest) span =
      if is_list list
      then with_inner (inner_of list) (λ a. do
        items ← read_array a
        write_array a (pop_value items).1
        return (perhaps (pop_value items).0))
      else lift (panic r0009 span)
  run_intrinsic list_pop nil span = lift (panic r0009 span)
  run_intrinsic list_len (cons list rest) span =
      with_inner (inner_of list)
        (λ a. do items ← read_array a; return (int i64 (wrap i64 (pos (values_len items)))))
  run_intrinsic list_get (cons list (cons (int i64 i) rest)) span =
      with_inner (inner_of list)
        (λ a. do items ← read_array a; return (perhaps (list_elem i items)))
  run_intrinsic list_as_slice (cons list rest) span = lift (or_internal (inner_of list))
  run_intrinsic clock args span = do n ← tick; return (int i64 (wrap i64 (rust.clock n)))
  run_intrinsic f args span = lift (pure_intrinsic f args span)
