-- ===== src/Evaluator/Operators.antt =====
-- evaluator/mod.rs: the arms of `eval_expr` for literals, names, operators and accesses.
use metel.Prelude.{ℕ, zero, suc, String, List, [], ◌∷◌, Option, some, none, Bool, true, false, not}
use metel.Prelude.Map.{or_else}
use metel.Prelude.Int.{ℤ, pos, negate}
use metel.Error.{Span, r0003, r0004, r0005}
use metel.Types.{ResolvedType}
use metel.Ast.Literals.{
  Literal, IntKind, FloatKind, i8, i16, i32, i64, u8, u16, u32, u64, f32, f64, BinOp, UnaryOp,
}
use metel.Ast.Types.{TypeExpr}
use metel.TypedAst.{TypedExpr, ident}
use metel.Evaluator.Outcome.{Outcome, done, aborted}
use metel.Evaluator.Platform.{Platform}
use metel.Evaluator.State.{M, ◌>>=◌, return, lift, read_cell, new_cell, read_array}
use metel.Evaluator.Env.{get_env, get_value}
use metel.Evaluator.Arith.{internal_failure, wrap, eval_binop}
use metel.Evaluator.Paths.{some_or_panic, get_elem?, read_path, deref_value}
use metel.Evaluator.Registry.{RuntimeMethod}
use metel.Evaluator.Registry.Lookup.{
  and_then, std_core_lookup, resolve_path_value, runtime_type_name, get_from_method,
}
use metel.Evaluator.Place.{cell_of, read_field, is_lvalue_path_typed, build_mut_path}
use metel.Evaluator.Call.{call_function}
use metel.Evaluator.Method.{value_or}
use metel.Evaluator.Machine.{Machine, expr, eval_value}
use metel.Evaluator.Builtins.{none_value}
use metel.Evaluator.Values.{
  Value, Values, int, float, char, boolean, str, unit, tuple, array, enum, callable, pointer,
  mut_pointer, mut_field_pointer, nil, cons, nil_fields, Signal, value,
}

-- The kind that an integer literal takes from its type.
abbrev pub literal_kind : ResolvedType → IntKind
literal_kind ResolvedType.i8 = i8
literal_kind ResolvedType.i16 = i16
literal_kind ResolvedType.i32 = i32
literal_kind ResolvedType.u8 = u8
literal_kind ResolvedType.u16 = u16
literal_kind ResolvedType.u32 = u32
literal_kind ResolvedType.u64 = u64
literal_kind _ = i64

module _ (rust : Platform) where
  abbrev pub float_of : FloatKind → ℕ → Value
  float_of f32 x = float f32 (rust.f32_of_f64 x)
  float_of f64 x = float f64 x

  abbrev pub float_literal : ResolvedType → ℕ → Value
  float_literal ResolvedType.f32 x = float_of f32 x
  float_literal _ x = float_of f64 x

  unfoldable pub eval_literal : Literal → ResolvedType → Value
  unfolding wrap
  eval_literal (Literal.int n) ty = int (literal_kind ty) (wrap (literal_kind ty) n)
  eval_literal (Literal.float x) ty = float_literal ty x
  eval_literal (Literal.sized_int n kind) ty = int kind (wrap kind n)
  eval_literal (Literal.sized_float x kind) ty = float_of kind x
  eval_literal (Literal.char c) ty = char c
  eval_literal (Literal.boolean b) ty = boolean b
  eval_literal (Literal.str s) ty = str s
  eval_literal Literal.none ty = none_value
  eval_literal Literal.unit ty = unit

-- The last two segments of a path of at least two.
unfoldable pub unit_variant : List String → Outcome Value
unit_variant (a ∷ b ∷ []) = done (enum a b nil_fields)
unit_variant (a ∷ b ∷ c ∷ rest) = unit_variant (b ∷ c ∷ rest)
unit_variant _ = aborted

unfoldable pub repeat : ℕ → Value → Values
repeat zero v = nil
repeat (suc n) v = cons v (repeat n v)

-- `wrapping_neg` of the signed kinds and `!`; the operand of `*` is followed.
abbrev pub negated : IntKind → ℤ → Outcome Value
negated i8 n = done (int i8 (wrap i8 (negate n)))
negated i16 n = done (int i16 (wrap i16 (negate n)))
negated i32 n = done (int i32 (wrap i32 (negate n)))
negated i64 n = done (int i64 (wrap i64 (negate n)))
negated _ n = internal_failure

module _ (machine : Machine) where
  unfoldable pub eval_ident : String → Span → M Signal
  unfolding get_value std_core_lookup
  eval_ident name span = do
    env ← get_env
    local ← get_value name env
    v ← lift (some_or_panic (or_else local (std_core_lookup name machine.runtime)) r0003 span)
    return (value v)

  abbrev pub found_or_variant : List String → Option Value → M Signal
  found_or_variant segments (some v) = return (value v)
  found_or_variant segments none = do v ← lift (unit_variant segments); return (value v)

  -- The registry comes before the environment.
  abbrev pub global_or_local : List String → Option Value → M Signal
  global_or_local segments (some v) = return (value v)
  global_or_local segments none = do
    env ← get_env
    local ← get_value (machine.rust.join "::" segments) env
    found_or_variant segments local

  unfoldable pub eval_path : List String → Span → M Signal
  unfolding eval_ident resolve_path_value get_value unit_variant
  eval_path (name ∷ []) span = eval_ident name span
  eval_path segments span =
      global_or_local segments (resolve_path_value machine.rust machine.runtime segments)

  -- `&&` and `||` give the right side's signal where the left side does not decide.
  unfoldable pub short_circuit : Bool → Value → TypedExpr → M Signal
  short_circuit true (boolean true) rhs = machine.run (expr rhs)
  short_circuit true (boolean false) rhs = return (value (boolean false))
  short_circuit false (boolean false) rhs = machine.run (expr rhs)
  short_circuit false (boolean true) rhs = return (value (boolean true))
  short_circuit _ _ rhs = lift internal_failure

  unfoldable pub eval_bin_op : BinOp → TypedExpr → TypedExpr → Span → M Signal
  unfolding eval_value short_circuit eval_binop
  eval_bin_op BinOp.and lhs rhs span = do l ← eval_value machine lhs; short_circuit true l rhs
  eval_bin_op BinOp.or lhs rhs span = do l ← eval_value machine lhs; short_circuit false l rhs
  eval_bin_op op lhs rhs span = do
    lv ← eval_value machine lhs
    rv ← eval_value machine rhs
    v ← lift (eval_binop machine.rust op lv rv span)
    return (value v)

  unfoldable pub eval_unary : UnaryOp → Value → Span → M Value
  unfolding wrap read_cell read_path
  eval_unary UnaryOp.neg (int k n) span = lift (negated k n)
  eval_unary UnaryOp.neg (float k x) span = return (float k (machine.rust.f_neg k x))
  eval_unary UnaryOp.not (boolean b) span = return (boolean (not b))
  eval_unary UnaryOp.deref (pointer a) span = read_cell a
  eval_unary UnaryOp.deref (mut_pointer a) span = read_cell a
  eval_unary UnaryOp.deref (mut_field_pointer root path) span = do
    v ← read_cell root
    read_path v path span
  eval_unary _ v span = lift internal_failure

  -- A pointer to a copy of the place's value.
  unfoldable pub ref_lvalue : Bool → TypedExpr → Span → M Signal
  unfolding eval_value new_cell
  ref_lvalue false operand span = lift internal_failure
  ref_lvalue true operand span = do
    v ← eval_value machine operand
    a ← new_cell v
    return (value (pointer a))

  unfoldable pub eval_ref : TypedExpr → Span → M Signal
  unfolding cell_of is_lvalue_path_typed ref_lvalue
  eval_ref (ident name ty ispan) span = do a ← cell_of name span; return (value (pointer a))
  eval_ref operand span = ref_lvalue (is_lvalue_path_typed operand) operand span

  -- A pointer to the root with the path to the place.
  unfoldable pub ref_mut_lvalue : Bool → TypedExpr → Span → M Signal
  unfolding build_mut_path cell_of
  ref_mut_lvalue false operand span = lift internal_failure
  ref_mut_lvalue true operand span = do
    (root, path) ← build_mut_path machine operand span
    a ← cell_of root span
    return (value (mut_field_pointer a path))

  unfoldable pub eval_ref_mut : TypedExpr → Span → M Signal
  unfolding cell_of is_lvalue_path_typed ref_mut_lvalue
  eval_ref_mut (ident name ty ispan) span = do a ← cell_of name span; return (value (mut_pointer a))
  eval_ref_mut operand span = ref_mut_lvalue (is_lvalue_path_typed operand) operand span

  unfoldable pub eval_unary_op : UnaryOp → TypedExpr → Span → M Signal
  unfolding eval_ref eval_ref_mut eval_value eval_unary
  eval_unary_op UnaryOp.ref operand span = eval_ref operand span
  eval_unary_op UnaryOp.ref_mut operand span = eval_ref_mut operand span
  eval_unary_op op operand span = do
    v ← eval_value machine operand
    result ← eval_unary op v span
    return (value result)

  -- The method that a cast to a type calls.
  unfoldable pub cast_method : TypeExpr → Value → Option RuntimeMethod
  unfolding runtime_type_name get_from_method
  cast_method (TypeExpr.named target args) v =
      and_then (runtime_type_name v) (λ source. get_from_method machine.runtime target source)
  cast_method _ v = none

  -- Without a method the value stays.
  abbrev pub cast_by : Option RuntimeMethod → Value → Span → M Signal
  cast_by (some m) v span = call_function machine (callable m.body) (cons v nil) span
  cast_by none v span = return (value v)

  unfoldable pub cast_value : TypeExpr → Value → Span → M Signal
  unfolding cast_method call_function
  cast_value target v span = cast_by (cast_method target v) v span

  unfoldable pub tuple_elem : Value → ℕ → Span → Outcome Value
  unfolding get_elem?
  tuple_elem (tuple items) i span = some_or_panic (get_elem? i items) r0005 span
  tuple_elem _ i span = internal_failure

  unfoldable pub index_value : Value → Value → Span → M Signal
  unfolding read_array get_elem?
  index_value (array a) (int u64 (pos i)) span = do
    items ← read_array a
    v ← lift (some_or_panic (get_elem? i items) r0004 span)
    return (value v)
  index_value _ _ span = lift internal_failure

  unfoldable pub access_field : Value → String → Span → M Signal
  unfolding deref_value read_field
  access_field v f span = do
    behind ← deref_value v span
    result ← lift (read_field (value_or behind v) f span)
    return (value result)
