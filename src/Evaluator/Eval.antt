-- ===== src/Evaluator/Eval.antt =====
-- evaluator/mod.rs: `eval_expr`, `eval_stmt`, `eval_decl` and `eval_block`. The four call one another;
-- here each hands a part of the tree to the machine as a task, and the machine spends one unit of fuel.
pub mod Balance
use metel.Prelude.{
  ℕ, zero, suc, String, List, [], ◌∷◌, Option, some, none, Bool, true, false, if◌then◌else◌,
}
use metel.Error.{Span, r0006}
use metel.Types.{ResolvedType}
use metel.Ast.Literals.{Pattern}
use metel.Ast.Types.{Param}
use metel.Ast.Trees.{Block}
use metel.TypedAst.{
  TypedExpr, TypedExprs, OptionTypedExpr, TypedFields, TypedMatchArms, TypedBlock, OptionTypedBlock,
  TypedStmt, TypedDecl, TypedDecls, TypedFunDecl, TypedLetDecl, FunBody, nil_exprs, cons_exprs,
  no_expr, some_expr, no_block, some_block, nil_arms, cons_arms, nil_decls, cons_decls, let_decl,
  fun_decl, let_item, mut_item,
}
use metel.Evaluator.Outcome.{Outcome, done, failed, aborted, out_of_fuel}
use metel.Evaluator.Platform.{Platform}
use metel.Evaluator.Registry.{RuntimeRegistry}
use metel.Evaluator.State.{State, M, ◌>>=◌, ◌>>◌, return, lift, new_array}
use metel.Evaluator.Env.{get_env, set_value, capture_clone, define}
use metel.Evaluator.Arith.{panic, internal_failure}
use metel.Evaluator.Paths.{set_field}
use metel.Evaluator.Pattern.{Bindings, match_pattern}
use metel.Evaluator.Call.{call_function}
use metel.Evaluator.Assign.{eval_assign}
use metel.Evaluator.Method.{call_method}
use metel.Evaluator.Loop.{
  enter, leave, if_true, while_round, loop_round, for_round, iterable_round, eval_for, eval_for_in,
}
use metel.Evaluator.Operators.{
  eval_literal, repeat, eval_ident, eval_path, eval_bin_op, eval_unary_op, cast_value, tuple_elem,
  index_value, access_field,
}
use metel.Evaluator.Machine.{
  Machine, Construct, Task, expr, block, stmt, decl, while_rounds, for_rounds, loop_rounds,
  iterable_rounds, eval_value,
}
use metel.Evaluator.Values.{
  TypeCtx, Environment, ClosureBody, typed, untyped, ClosureValue, RuntimeCallable, closure, Value,
  Values, ValueFields, boolean, unit, tuple, array, struct, enum, callable, nil, cons, nil_fields,
  Signal, value,
}

-- The last segment of a path that is not empty, as the name of a struct; two segments name a variant.
unfoldable pub literal_value : List String → ValueFields → Outcome Value
literal_value (name ∷ variant ∷ []) fields = done (enum name variant fields)
literal_value path fields = last path
  where
    last : List String → Outcome Value
    last [] = internal_failure
    last (a ∷ []) = done (struct a fields)
    last (a ∷ b ∷ rest) = last (b ∷ rest)

-- The body of a closure and the context that a generic body takes with it.
abbrev pub closure_body : FunBody → Option TypeCtx → ClosureBody × Option TypeCtx
closure_body (FunBody.typed b) ctx = (typed b, none)
closure_body (FunBody.generic b) ctx = (untyped b, ctx)

abbrev pub function_value :
    String → List Param → ClosureBody × Option TypeCtx → Environment → RuntimeCallable
function_value name params body captured = closure (record {
  name = some name;
  params = params;
  body = body.0;
  captured = captured;
  type_ctx = body.1;
  fun_type = none;
})

abbrev pub closure_value :
    Option String
    → List Param
    → ClosureBody
    → Environment
    → Option TypeCtx
    → Option ResolvedType
    → Signal
closure_value name params body captured type_ctx fun_type = value (
    callable (
      closure (record {
        name = name;
        params = params;
        body = body;
        captured = captured;
        type_ctx = type_ctx;
        fun_type = fun_type;
      })))

module _ (machine : Machine) where
  unfoldable pub eval_values : TypedExprs → M Values
  unfolding eval_value
  eval_values nil_exprs = return nil
  eval_values (cons_exprs e es) = do
    v ← eval_value machine e
    vs ← eval_values es
    return (cons v vs)

  unfoldable pub eval_fields : TypedFields → ValueFields → M ValueFields
  unfolding eval_value set_field
  eval_fields TypedFields.nil_fields out = return out
  eval_fields (TypedFields.cons_fields name e rest) out = do
    v ← eval_value machine e
    eval_fields rest (set_field name v out)

  unfoldable pub define_all : Bindings → M (Unit {0})
  unfolding define
  define_all [] = return tt
  define_all ((name, v) ∷ rest) = do define machine.fuel name v; define_all rest

  abbrev pub guard_result : Value → Outcome Bool
  guard_result (boolean b) = done b
  guard_result _ = internal_failure

  unfoldable pub eval_guard : OptionTypedExpr → Bindings → M Bool
  unfolding enter leave define_all eval_value
  eval_guard no_expr bindings = return true
  eval_guard (some_expr guard) bindings = do
    enter
    define_all bindings
    v ← eval_value machine guard
    leave
    lift (guard_result v)

  unfoldable pub eval_arm : Bindings → TypedBlock → M Signal
  unfolding enter leave define_all
  eval_arm bindings body = do
    enter
    define_all bindings
    signal ← machine.run (block body)
    leave
    return signal

  unfoldable pub guarded : OptionTypedExpr → Bindings → M (Option Bindings)
  unfolding eval_guard
  guarded guard bindings = do
    chosen ← eval_guard guard bindings
    return (if chosen then some bindings else none)

  -- Whether an arm is taken, with its bindings.
  unfoldable pub try_arm : Pattern → OptionTypedExpr → Value → M (Option Bindings)
  unfolding match_pattern guarded
  try_arm pattern guard scrutinee = do
    (matched, bindings) ← match_pattern machine.rust pattern scrutinee []
    if matched then guarded guard bindings else return none

  abbrev pub arm_or_rest : Option Bindings → TypedBlock → M Signal → M Signal
  arm_or_rest (some bindings) body rest = eval_arm bindings body
  arm_or_rest none body rest = rest

  unfoldable pub eval_arms : TypedMatchArms → Value → Span → M Signal
  unfolding try_arm eval_arm
  eval_arms nil_arms scrutinee span = lift (panic r0006 span)
  eval_arms (cons_arms pattern guard body arm_span arms) scrutinee span = do
    taken ← try_arm pattern guard scrutinee
    arm_or_rest taken body (eval_arms arms scrutinee span)

  abbrev pub eval_else : OptionTypedBlock → M Signal
  eval_else (some_block b) = machine.run (block b)
  eval_else no_block = return (value unit)

  unfoldable pub eval_closure :
      Option String → List Param → ClosureBody → Option TypeCtx → Option ResolvedType → M Signal
  unfolding capture_clone
  eval_closure name params body type_ctx fun_type = do
    env ← get_env
    captured ← capture_clone machine.fuel env
    return (closure_value name params body captured type_ctx fun_type)

  unfoldable pub eval_expr : TypedExpr → M Signal
  unfolding eval_literal eval_ident eval_path eval_values new_array repeat eval_value eval_bin_op
      eval_unary_op eval_assign call_function call_method access_field tuple_elem index_value
      cast_value eval_arms eval_closure eval_fields literal_value
  eval_expr (TypedExpr.literal lit ty span) = return (value (eval_literal machine.rust lit ty))
  eval_expr (TypedExpr.ident name ty span) = eval_ident machine name span
  eval_expr (TypedExpr.path segments ty span) = eval_path machine segments span
  eval_expr (TypedExpr.tuple elems ty span) = do vs ← eval_values elems; return (value (tuple vs))
  eval_expr (TypedExpr.array elems ty span) = do
    vs ← eval_values elems
    a ← new_array vs
    return (value (array a))
  eval_expr (TypedExpr.repeat_array elem n ty span) = do
    v ← eval_value machine elem
    a ← new_array (repeat n v)
    return (value (array a))
  eval_expr (TypedExpr.bin_op lhs op rhs ty span) = eval_bin_op machine op lhs rhs span
  eval_expr (TypedExpr.unary_op op operand ty span) = eval_unary_op machine op operand span
  eval_expr (TypedExpr.assign target op rhs ty span) = do
    v ← eval_value machine rhs
    eval_assign machine target op v span
  eval_expr (TypedExpr.call callee args ty span) = do
    func ← eval_value machine callee
    vs ← eval_values args
    call_function machine func vs span
  eval_expr (TypedExpr.method_call receiver method args ty dispatch span) = do
    recv ← eval_value machine receiver
    vs ← eval_values args
    call_method machine receiver recv method vs dispatch span
  eval_expr (TypedExpr.field_access object f ty span) = do
    v ← eval_value machine object
    access_field machine v f span
  eval_expr (TypedExpr.tuple_access object i ty span) = do
    v ← eval_value machine object
    result ← lift (tuple_elem machine v i span)
    return (value result)
  eval_expr (TypedExpr.index object i ty span) = do
    arr ← eval_value machine object
    idx ← eval_value machine i
    index_value machine arr idx span
  eval_expr (TypedExpr.cast inner target ty span) = do
    v ← eval_value machine inner
    cast_value machine target v span
  eval_expr (TypedExpr.match scrutinee arms ty span) = do
    v ← eval_value machine scrutinee
    eval_arms arms v span
  eval_expr (TypedExpr.if_else condition then_branch else_branch ty span) = do
    test ← machine.run (expr condition)
    if_true test (machine.run (block then_branch)) (eval_else else_branch)
  eval_expr (TypedExpr.loop body ty span) = machine.run (loop_rounds body)
  eval_expr (TypedExpr.closure params ret body ty span) =
      eval_closure none params (typed body) none (some ty)
  eval_expr (TypedExpr.generic_closure name params ret body ty span) = do
    env ← get_env
    eval_closure name params (untyped body) env.type_ctx none
  eval_expr (TypedExpr.struct_literal path fields ty span) = do
    values ← eval_fields fields nil_fields
    v ← lift (literal_value path values)
    return (value v)

  -- `return`, `break`: the value of the expression, or the unit.
  unfoldable pub eval_optional : OptionTypedExpr → M Value
  unfolding eval_value
  eval_optional no_expr = return unit
  eval_optional (some_expr e) = eval_value machine e

  -- A value in statement position is dropped, another signal is passed on.
  abbrev pub drop_value : Signal → Signal
  drop_value (value v) = value unit
  drop_value signal = signal

  unfoldable pub eval_stmt : TypedStmt → M Signal
  unfolding eval_optional eval_for eval_value eval_for_in
  eval_stmt (TypedStmt.expr_stmt e) = do signal ← machine.run (expr e); return (drop_value signal)
  eval_stmt (TypedStmt.return e span) = do v ← eval_optional e; return (Signal.return v)
  eval_stmt (TypedStmt.break e span) = do v ← eval_optional e; return (Signal.break v)
  eval_stmt (TypedStmt.continue span) = return Signal.continue
  eval_stmt (TypedStmt.while condition body span) = machine.run (while_rounds condition body)
  eval_stmt (TypedStmt.for init condition step body span) =
      eval_for machine init condition step body
  eval_stmt (TypedStmt.for_in binding mutable iterable body span) = do
    v ← eval_value machine iterable
    eval_for_in machine binding v body span

  abbrev pub bind_value : String → Signal → M Signal
  bind_value name (value v) = do define machine.fuel name v; return (value unit)
  bind_value name signal = return signal

  unfoldable pub eval_let : TypedLetDecl → M Signal
  unfolding define
  eval_let (let_decl name ann e span) = do signal ← machine.run (expr e); bind_value name signal

  -- The name is bound before the environment is captured, so the function sees itself.
  unfoldable pub eval_fun : TypedFunDecl → M Signal
  unfolding define set_value
  eval_fun (fun_decl name generics params ret body span) = do
    outer ← get_env
    define machine.fuel name unit
    env ← get_env
    let made = function_value name params (closure_body body outer.type_ctx) env
    written ← set_value machine.fuel name (callable made) env
    return (value unit)

  unfoldable pub eval_decl : TypedDecl → M Signal
  unfolding eval_let eval_fun eval_stmt
  eval_decl (let_item d) = eval_let d
  eval_decl (mut_item d) = eval_let d
  eval_decl (TypedDecl.fun f) = eval_fun f
  eval_decl (TypedDecl.stmt s) = machine.run (stmt s)
  eval_decl _ = return (value unit)

  abbrev pub after_decl : Signal → M Signal → M Signal
  after_decl (value v) next = next
  after_decl signal next = return signal

  -- The declarations of a block, up to the first that gives a signal other than a value.
  unfoldable pub eval_decls : TypedDecls → M Signal
  eval_decls nil_decls = return (value unit)
  eval_decls (cons_decls d ds) = do signal ← machine.run (decl d); after_decl signal (eval_decls ds)

  abbrev pub eval_tail : OptionTypedExpr → Signal → M Signal
  eval_tail (some_expr e) (value v) = machine.run (expr e)
  eval_tail no_expr (value v) = return (value unit)
  eval_tail e signal = return signal

  unfoldable pub eval_block : TypedBlock → M Signal
  unfolding enter leave eval_decls
  eval_block (TypedBlock.block decls tail span) = do
    enter
    signal ← eval_decls decls
    result ← eval_tail tail signal
    leave
    return result

  unfoldable pub eval_task : Task → M Signal
  unfolding eval_expr eval_block eval_stmt eval_decl while_round for_round loop_round iterable_round
  eval_task (expr e) = eval_expr e
  eval_task (block b) = eval_block b
  eval_task (stmt s) = eval_stmt s
  eval_task (decl d) = eval_decl d
  eval_task (while_rounds condition body) = while_round machine condition body
  eval_task (for_rounds condition step body) = for_round machine condition step body
  eval_task (loop_rounds body) = loop_round machine body
  eval_task (iterable_rounds binding next cell body span) =
      iterable_round machine binding next cell body span

module _ (rust : Platform) (construct : Construct) (runtime : RuntimeRegistry) where
  abbrev pub machine_with : ℕ → (Task → M Signal) → Machine
  machine_with fuel run = record {
    rust = rust;
    construct_generic_body = construct;
    runtime = runtime;
    run = run;
    fuel = fuel;
  }

  unfoldable pub eval : ℕ → Task → M Signal
  unfolding eval_task
  eval zero task = λ s. out_of_fuel
  eval (suc fuel) task = eval_task (machine_with fuel (eval fuel)) task
