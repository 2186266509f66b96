-- ===== src/Examples/Evaluator.antt =====
-- The evaluator on small programs, and the theorems about it at concrete inputs.
use metel.Prelude.{
  string_eq, ℕ, String, List, [], ◌∷◌, some, none, true, ◌≡◌, refl, ◌==◌, ltb, leb, ◌||◌, ◌<◌,
  arith,
}
use metel.Prelude.Map.{contains_key}
use metel.Prelude.Int.{pos, negsuc, ◌+ℤ◌, ◌*ℤ◌, quot, rem}
use metel.Error.{Span, r0007}
use metel.Types.{ResolvedType}
use metel.Ast.Literals.{Literal, Pattern, Patterns, i8, i64, BinOp, AssignOp}
use metel.TypedAst.{
  TypedExpr, TypedBlock, TypedDecl, TypedStmt, let_decl, mut_item, ident_place, nil_decls,
  cons_decls, some_expr,
}
use metel.Evaluator.Outcome.{done, aborted}
use metel.Evaluator.Platform.{Platform}
use metel.Evaluator.State.{State, update}
use metel.Evaluator.Arith.{eval_binop, panic}
use metel.Evaluator.Arith.Bounds.{IsInRange, eval_binop-IsInRange, eval_binop-div-rem}
use metel.Evaluator.Paths.{write_path, read_path}
use metel.Evaluator.Paths.RoundTrip.{write_path-read_path}
use metel.Evaluator.Pattern.{Bindings, match_pattern}
use metel.Evaluator.Pattern.Bindings.{elem, pattern_names, contains_key-match_pattern}
use metel.Evaluator.Machine.{Construct, block}
use metel.Evaluator.Registry.{new}
use metel.Ast.Types.{TypeExpr, TypeExprs}
use metel.Evaluator.Arith.{wrap, in_range}
use metel.Evaluator.Operators.{cast_value}
use metel.Evaluator.Builtins.Register.{runtime_registry}
use metel.Evaluator.Builtins.Casts.{cast_value-int}
use metel.Evaluator.Machine.{Machine}
use metel.Evaluator.Eval.{eval, machine_with}
use metel.Evaluator.Eval.Balance.{Restores, eval-Restores}
use metel.Evaluator.Program.{empty_env}
use metel.Evaluator.Env.{capture_clone, set_value}
use metel.Evaluator.Env.Capture.{set_value-capture_clone}
use metel.Evaluator.Values.{
  Environment, PathSegment, field, array_index, Value, int, boolean, unit, tuple, array, struct,
  nil, cons, nil_fields, cons_fields, value,
}

-- A platform without floating point, whose texts are not joined.
abbrev plain : Platform
plain = record {
  f_add = λ k a b. a;
  f_sub = λ k a b. a;
  f_mul = λ k a b. a;
  f_div = λ k a b. a;
  f_rem = λ k a b. a;
  f_neg = λ k a. a;
  f_eq = λ k a b. a == b;
  f_lt = λ k a b. ltb a b;
  f_le = λ k a b. leb a b;
  f32_of_f64 = λ a. a;
  f64_of_f32 = λ a. a;
  f64_of_int = λ n. 0;
  int_of_float = λ k a. pos a;
  show_int = λ n. "n";
  format_float = λ a. "x";
  show_float = λ k a. "x";
  show_char = λ c. "c";
  concat = λ a b. a;
  join = λ separator items. separator;
  split = λ separator text. text ∷ [];
  char_count = λ text. 0;
  clock = λ n. pos n;
}

abbrev no_generics : Construct
no_generics scheme params types body span ctx = aborted

abbrev here : Span
here = record { start = 0; end = 1; filename = "main.mtl"; line = 1; col = 1 }

-- The array at address 0 holds two numbers.
abbrev initial : State
initial = record {
  env = empty_env;
  cells = λ a. unit;
  next_cell = 0;
  arrays = λ a. cons (int i64 (pos 7)) (cons (int i64 (pos 8)) nil);
  next_array = 1;
  call_stack = [];
  output = [];
  ticks = 0;
}

minus_one_rem : eval_binop plain BinOp.rem (int i8 (negsuc 127)) (int i8 (negsuc 0)) here ≡ aborted
unfolding eval_binop
minus_one_rem = refl

minus_one_div :
    eval_binop plain BinOp.div (int i8 (negsuc 127)) (int i8 (negsuc 0)) here ≡ panic r0007 here
unfolding eval_binop quot
minus_one_div = refl

eval_binop-IsInRange_example : IsInRange (int i8 (pos 127))
unfolding eval_binop ◌+ℤ◌
eval_binop-IsInRange_example =
    eval_binop-IsInRange plain BinOp.add (int i8 (pos 100)) (int i8 (pos 27)) (int i8 (pos 127))
      here refl refl

eval_binop-div-rem_example : (pos 2 *ℤ negsuc 2 +ℤ negsuc 0 ≡ negsuc 6) × (1 < 2)
unfolding eval_binop quot rem
eval_binop-div-rem_example =
    eval_binop-div-rem plain i64 (negsuc 6) (pos 2) (negsuc 2) (negsuc 0) here refl refl

-- `p.items[1]`
abbrev inside : List PathSegment
inside = field "items" ∷ array_index 1 ∷ []

abbrev pair_value : Value
pair_value = struct "P" (cons_fields "items" (array 0) nil_fields)

abbrev written : State
written = record initial {
  arrays = update initial.arrays 0 (cons (int i64 (pos 7)) (cons (int i64 (pos 9)) nil));
}

write_path-read_path_example :
    read_path pair_value inside here written ≡ done (int i64 (pos 9), written)
unfolding write_path
write_path-read_path_example =
    write_path-read_path pair_value inside (int i64 (pos 9)) here initial pair_value written refl

-- `(x, [first, ..rest])`
abbrev nested : Pattern
nested =
    Pattern.tuple
      (Patterns.cons (Pattern.binding "x" here) (
        Patterns.cons
          (Pattern.array (Patterns.cons (Pattern.binding "first" here) Patterns.nil) (some "rest")
            here)
          Patterns.nil))
      here

abbrev bound : Bindings
bound = ("x", boolean true) ∷ ("first", int i64 (pos 7)) ∷ ("rest", array 1) ∷ []

abbrev after_match : State
after_match = record initial {
  arrays = update initial.arrays 1 (cons (int i64 (pos 8)) nil);
  next_array = 2;
}

contains_key-match_pattern_example :
    contains_key "rest" bound
    ≡ (elem "rest" (pattern_names nested) || contains_key {K = String} {V = Value} "rest" [])
unfolding match_pattern
contains_key-match_pattern_example =
    contains_key-match_pattern plain nested (tuple (cons (boolean true) (cons (array 0) nil))) []
      bound initial after_match "rest" refl

-- `{ mut x = 1; x += 2; x }`
abbrev one_plus_two : TypedBlock
one_plus_two =
    TypedBlock.block
      (cons_decls (mut_item (let_decl "x" none (number 1) here)) (
        cons_decls
          (TypedDecl.stmt (
            TypedStmt.expr_stmt (
              TypedExpr.assign (ident_place "x" here) AssignOp.add_assign (number 2)
                ResolvedType.unit here)))
          nil_decls))
      (some_expr (TypedExpr.ident "x" ResolvedType.i64 here)) here
  where
    number : ℕ → TypedExpr
    number n = TypedExpr.literal (Literal.int (pos n)) ResolvedType.i64 here

abbrev after_block : State
after_block = record initial {
  cells = update (update initial.cells 0 (int i64 (pos 1))) 0 (int i64 (pos 3));
  next_cell = 1;
}

eval-Restores_example : Restores (block one_plus_two) initial after_block
unfolding eval ◌+ℤ◌
eval-Restores_example =
    eval-Restores plain no_generics new 6 (block one_plus_two) initial after_block
      (value (int i64 (pos 3))) refl

abbrev with_builtins : Machine
with_builtins =
    machine_with plain no_generics (runtime_registry plain) 3
      (eval plain no_generics (runtime_registry plain) 3)

cast_value-int_example :
    (cast_value with_builtins (TypeExpr.named "i8" TypeExprs.nil) (int i64 (pos 200)) here initial
      ≡ done (value (int i8 (wrap i8 (pos 200))), initial))
    × (in_range i8 (wrap i8 (pos 200)) ≡ true)
    × (in_range i8 (pos 200) ≡ true → wrap i8 (pos 200) ≡ pos 200)
cast_value-int_example =
    cast_value-int with_builtins i8 i64 (pos 200) TypeExprs.nil here initial refl (λ p. absurd cc)

-- `x` is 1 in the cell 0.
abbrev one_x : State
one_x = record initial { cells = λ a. int i64 (pos 1); next_cell = 1 }

abbrev with_x : Environment
with_x = record empty_env { scopes = (("x", 0) ∷ []) ∷ [] }

abbrev captured_x : Environment
captured_x = record empty_env { scopes = (("x", 1) ∷ []) ∷ [] }

abbrev after_capture : State
after_capture = record one_x { cells = update one_x.cells 1 (int i64 (pos 1)); next_cell = 2 }

abbrev after_assignment : State
after_assignment = record after_capture { cells = update after_capture.cells 1 (int i64 (pos 5)) }

set_value-capture_clone_example : int i64 (pos 1) ≡ after_assignment.cells 0
unfolding capture_clone set_value
set_value-capture_clone_example =
    set_value-capture_clone 1 1 with_x captured_x "x" (int i64 (pos 5)) true one_x after_capture
      after_assignment refl refl 0 (omega arith)
