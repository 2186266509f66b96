-- ===== src/Evaluator/Eval/Balance.antt =====
-- What an evaluation leaves as it was.
use metel.Prelude.{ℕ, zero, suc, String, Option, some, none, List, [], ◌∷◌, ◌≡◌, if◌then◌else◌}
use metel.Error.{Span}
use metel.Types.{ResolvedType}
use metel.Ast.Literals.{Pattern}
use metel.Ast.Types.{Param}
use metel.TypedAst.{
  TypedExpr, TypedExprs, OptionTypedExpr, TypedFields, TypedMatchArms, TypedBlock, OptionTypedBlock,
  TypedStmt, TypedDecl, TypedDecls, TypedFunDecl, TypedLetDecl, nil_exprs, cons_exprs, no_expr,
  some_expr, no_block, some_block, nil_arms, cons_arms, nil_decls, cons_decls, let_decl, fun_decl,
  let_item, mut_item,
}
use metel.Evaluator.Outcome.{done, out_of_fuel}
use metel.Evaluator.Platform.{Platform}
use metel.Evaluator.Registry.{RuntimeRegistry}
use metel.Evaluator.State.{State, M}
use metel.Evaluator.Env.{pop_scope}
use metel.Evaluator.Pattern.{Bindings}
use metel.Evaluator.Machine.{
  Machine, Construct, Task, expr, block, stmt, decl, while_rounds, for_rounds, loop_rounds,
  iterable_rounds, eval_value,
}
use metel.Evaluator.Eval.{
  eval_values, eval_fields, define_all, eval_guard, eval_arm, guarded, try_arm, arm_or_rest,
  eval_arms, eval_else, eval_closure, eval_expr, eval_optional, eval_stmt, bind_value, eval_let,
  eval_fun, eval_decl, after_decl, eval_decls, eval_tail, eval_block, eval_task, eval, machine_with,
  guard_result, function_value, closure_body,
}
use metel.Evaluator.Keeps.{
  Keeps, KeepsOuter, Keeps-bind, Keeps-return, Keeps-if, Keeps-lift, Keeps-get_env,
  Keeps-out_of_fuel, Keeps-enter, Closes-bind, Closes-leave, KeepsOuter-of, KeepsOuter-bind,
  keeps_rules,
}
use metel.Evaluator.Keeps.Heap.{Keeps-capture_clone, Keeps-set_value, KeepsOuter-define}
use metel.Evaluator.Keeps.Parts.{Keeps-match_pattern}
use metel.Evaluator.Keeps.Handlers.{Keeps-eval_value, Keeps-call_function}
use metel.Evaluator.Keeps.Arms.{
  Keeps-eval_assign, Keeps-call_method, Keeps-eval_ident, Keeps-eval_path, Keeps-eval_bin_op,
  Keeps-eval_unary_op, Keeps-cast_value, Keeps-index_value, Keeps-access_field,
}
use metel.Evaluator.Keeps.Loops.{
  TaskKept, Keeps-if_true, Keeps-while_round, Keeps-loop_round, Keeps-for_round, Keeps-scoped,
  Keeps-eval_for, Keeps-iterable_round, Keeps-eval_for_in,
}
use metel.Evaluator.Values.{
  TypeCtx, ClosureBody, Value, ValueFields, Signal, value, unit, callable, cons,
}

module _ (machine : Machine) (kept : (t : Task) → TaskKept machine.run t) where
  kept_expr : (e : TypedExpr) → Keeps (machine.run (expr e))
  kept_expr e = kept (expr e)

  kept_block : (b : TypedBlock) → Keeps (machine.run (block b))
  kept_block b = kept (block b)

  value_kept : (e : TypedExpr) → Keeps (eval_value machine e)
  value_kept e = Keeps-eval_value machine kept_expr kept_block e

  Keeps-eval_values : (es : TypedExprs) → Keeps (eval_values machine es)
  unfolding eval_values
  Keeps-eval_values nil_exprs = search keeps_rules
  Keeps-eval_values (cons_exprs e es) =
      Keeps-bind _ _ (value_kept e)
        (λ v. Keeps-bind _ _ (Keeps-eval_values es) (λ vs. Keeps-return (cons v vs)))

  Keeps-eval_fields :
      (fields : TypedFields) (out : ValueFields) → Keeps (eval_fields machine fields out)
  unfolding eval_fields
  Keeps-eval_fields TypedFields.nil_fields out = search keeps_rules
  Keeps-eval_fields (TypedFields.cons_fields name e rest) out =
      search (keeps_rules, value_kept, Keeps-eval_fields rest)

  KeepsOuter-define_all : (bindings : Bindings) → KeepsOuter (define_all machine bindings)
  unfolding define_all
  KeepsOuter-define_all [] = search keeps_rules
  KeepsOuter-define_all ((name, v) ∷ rest) =
      KeepsOuter-bind _ _ (KeepsOuter-define machine.fuel name v) (λ u. KeepsOuter-define_all rest)

  Keeps-eval_guard :
      (guard : OptionTypedExpr) (bindings : Bindings) → Keeps (eval_guard machine guard bindings)
  unfolding eval_guard
  Keeps-eval_guard no_expr bindings = search keeps_rules
  Keeps-eval_guard (some_expr guard) bindings = Keeps-enter _ (
      Closes-bind _ _ (KeepsOuter-define_all bindings) (λ u.
        Closes-bind _ _ (KeepsOuter-of _ (value_kept guard))
          (λ v. Closes-leave _ (Keeps-lift (guard_result machine v)))))

  Keeps-eval_arm :
      (bindings : Bindings) (body : TypedBlock) → Keeps (eval_arm machine bindings body)
  unfolding eval_arm
  Keeps-eval_arm bindings body =
      Keeps-scoped machine kept _ _ (KeepsOuter-define_all bindings)
        (λ u. KeepsOuter-of _ (kept_block body))

  Keeps-try_arm :
      (pattern : Pattern) (guard : OptionTypedExpr) (scrutinee : Value)
      → Keeps (try_arm machine pattern guard scrutinee)
  unfolding try_arm guarded
  Keeps-try_arm pattern guard scrutinee =
      Keeps-bind _ _ (Keeps-match_pattern machine.rust pattern scrutinee []) (λ r.
        Keeps-if r.0 _ _
          (Keeps-bind _ _ (Keeps-eval_guard guard r.1)
            (λ chosen. Keeps-return (if chosen then some r.1 else none)))
          (Keeps-return none))

  Keeps-arm_or_rest :
      (o : Option Bindings) (body : TypedBlock) (rest : M Signal)
      → Keeps rest
      → Keeps (arm_or_rest machine o body rest)
  Keeps-arm_or_rest (some bindings) body rest k = Keeps-eval_arm bindings body
  Keeps-arm_or_rest none body rest k = k

  Keeps-eval_arms :
      (arms : TypedMatchArms) (v : Value) (span : Span) → Keeps (eval_arms machine arms v span)
  unfolding eval_arms
  Keeps-eval_arms nil_arms v span = search keeps_rules
  Keeps-eval_arms (cons_arms pattern guard body arm_span arms) v span =
      Keeps-bind _ _ (Keeps-try_arm pattern guard v)
        (λ taken. Keeps-arm_or_rest taken body _ (Keeps-eval_arms arms v span))

  Keeps-eval_else : (b : OptionTypedBlock) → Keeps (eval_else machine b)
  Keeps-eval_else (some_block b) = kept_block b
  Keeps-eval_else no_block = search keeps_rules

  Keeps-eval_closure :
      (name : Option String) (params : List Param) (body : ClosureBody) (ctx : Option TypeCtx)
      (ty : Option ResolvedType)
      → Keeps (eval_closure machine name params body ctx ty)
  unfolding eval_closure
  Keeps-eval_closure name params body ctx ty = search (keeps_rules, Keeps-capture_clone)

  Keeps-eval_expr : (e : TypedExpr) → Keeps (eval_expr machine e)
  unfolding eval_expr
  Keeps-eval_expr (TypedExpr.literal lit ty span) = search keeps_rules
  Keeps-eval_expr (TypedExpr.ident name ty span) =
      Keeps-eval_ident machine kept_expr kept_block name span
  Keeps-eval_expr (TypedExpr.path segments ty span) =
      Keeps-eval_path machine kept_expr kept_block segments span
  Keeps-eval_expr (TypedExpr.tuple elems ty span) = search (keeps_rules, Keeps-eval_values)
  Keeps-eval_expr (TypedExpr.array elems ty span) = search (keeps_rules, Keeps-eval_values)
  Keeps-eval_expr (TypedExpr.repeat_array elem n ty span) = search (keeps_rules, value_kept)
  Keeps-eval_expr (TypedExpr.bin_op lhs op rhs ty span) =
      Keeps-eval_bin_op machine kept_expr kept_block op lhs rhs span
  Keeps-eval_expr (TypedExpr.unary_op op operand ty span) =
      Keeps-eval_unary_op machine kept_expr kept_block op operand span
  Keeps-eval_expr (TypedExpr.assign target op rhs ty span) =
      Keeps-bind _ _ (value_kept rhs)
        (λ v. Keeps-eval_assign machine kept_expr kept_block target op v span)
  Keeps-eval_expr (TypedExpr.call callee args ty span) = Keeps-bind _ _ (value_kept callee) (λ func.
      Keeps-bind _ _ (Keeps-eval_values args)
        (λ vs. Keeps-call_function machine kept_expr kept_block func vs span))
  Keeps-eval_expr (TypedExpr.method_call receiver method args ty dispatch span) =
      Keeps-bind _ _ (value_kept receiver) (λ recv. Keeps-bind _ _ (Keeps-eval_values args) (λ vs.
        Keeps-call_method machine kept_expr kept_block receiver recv method vs dispatch span))
  Keeps-eval_expr (TypedExpr.field_access object f ty span) =
      Keeps-bind _ _ (value_kept object)
        (λ v. Keeps-access_field machine kept_expr kept_block v f span)
  Keeps-eval_expr (TypedExpr.tuple_access object i ty span) = search (keeps_rules, value_kept)
  Keeps-eval_expr (TypedExpr.index object i ty span) = Keeps-bind _ _ (value_kept object) (λ arr.
      Keeps-bind _ _ (value_kept i)
        (λ idx. Keeps-index_value machine kept_expr kept_block arr idx span))
  Keeps-eval_expr (TypedExpr.cast inner target ty span) =
      Keeps-bind _ _ (value_kept inner)
        (λ v. Keeps-cast_value machine kept_expr kept_block target v span)
  Keeps-eval_expr (TypedExpr.match scrutinee arms ty span) =
      Keeps-bind _ _ (value_kept scrutinee) (λ v. Keeps-eval_arms arms v span)
  Keeps-eval_expr (TypedExpr.if_else condition then_branch else_branch ty span) =
      Keeps-bind _ _ (kept_expr condition)
        (λ test. Keeps-if_true test _ _ (kept_block then_branch) (Keeps-eval_else else_branch))
  Keeps-eval_expr (TypedExpr.loop body ty span) = kept (loop_rounds body)
  Keeps-eval_expr (TypedExpr.closure params ret body ty span) = Keeps-eval_closure _ params _ _ _
  Keeps-eval_expr (TypedExpr.generic_closure name params ret body ty span) =
      Keeps-bind _ _ Keeps-get_env (λ env. Keeps-eval_closure name params _ env.type_ctx none)
  Keeps-eval_expr (TypedExpr.struct_literal path fields ty span) =
      search (keeps_rules, Keeps-eval_fields)

  Keeps-eval_optional : (e : OptionTypedExpr) → Keeps (eval_optional machine e)
  unfolding eval_optional
  Keeps-eval_optional no_expr = search keeps_rules
  Keeps-eval_optional (some_expr e) = value_kept e

  Keeps-eval_stmt : (s : TypedStmt) → Keeps (eval_stmt machine s)
  unfolding eval_stmt
  Keeps-eval_stmt (TypedStmt.expr_stmt e) = search (keeps_rules, kept_expr)
  Keeps-eval_stmt (TypedStmt.return e span) = search (keeps_rules, Keeps-eval_optional)
  Keeps-eval_stmt (TypedStmt.break e span) = search (keeps_rules, Keeps-eval_optional)
  Keeps-eval_stmt (TypedStmt.continue span) = search keeps_rules
  Keeps-eval_stmt (TypedStmt.while condition body span) = kept (while_rounds condition body)
  Keeps-eval_stmt (TypedStmt.for init condition step body span) =
      Keeps-eval_for machine kept init condition step body
  Keeps-eval_stmt (TypedStmt.for_in binding mutable iterable body span) =
      Keeps-bind _ _ (value_kept iterable) (λ v. Keeps-eval_for_in machine kept binding v body span)

  KeepsOuter-bind_value :
      (name : String) (signal : Signal) → KeepsOuter (bind_value machine name signal)
  KeepsOuter-bind_value name (value v) =
      KeepsOuter-bind _ _ (KeepsOuter-define machine.fuel name v) (λ u. search keeps_rules)
  KeepsOuter-bind_value name _ = search keeps_rules

  KeepsOuter-eval_let : (d : TypedLetDecl) → KeepsOuter (eval_let machine d)
  unfolding eval_let
  KeepsOuter-eval_let (let_decl name ann e span) =
      KeepsOuter-bind _ _ (KeepsOuter-of _ (kept_expr e))
        (λ signal. KeepsOuter-bind_value name signal)

  KeepsOuter-eval_fun : (f : TypedFunDecl) → KeepsOuter (eval_fun machine f)
  unfolding eval_fun
  KeepsOuter-eval_fun (fun_decl name generics params ret body span) =
      KeepsOuter-bind _ _ (KeepsOuter-of _ Keeps-get_env) (λ outer.
        KeepsOuter-bind _ _ (KeepsOuter-define machine.fuel name unit) (λ u. KeepsOuter-of _ (
          Keeps-bind _ _ Keeps-get_env (λ env.
            let made =
              callable (function_value name params (closure_body body outer.type_ctx) env) in
            Keeps-bind _ _ (Keeps-set_value machine.fuel name made env)
              (λ written. Keeps-return (value unit))))))

  KeepsOuter-eval_decl : (d : TypedDecl) → KeepsOuter (eval_decl machine d)
  unfolding eval_decl
  KeepsOuter-eval_decl (let_item d) = KeepsOuter-eval_let d
  KeepsOuter-eval_decl (mut_item d) = KeepsOuter-eval_let d
  KeepsOuter-eval_decl (TypedDecl.fun f) = KeepsOuter-eval_fun f
  KeepsOuter-eval_decl (TypedDecl.stmt s) = KeepsOuter-of _ (kept (stmt s))
  KeepsOuter-eval_decl _ = search keeps_rules

  KeepsOuter-after_decl :
      (signal : Signal) (next : M Signal)
      → KeepsOuter next
      → KeepsOuter (after_decl machine signal next)
  KeepsOuter-after_decl (value v) next k = k
  KeepsOuter-after_decl _ next k = search keeps_rules

  KeepsOuter-eval_decls : (ds : TypedDecls) → KeepsOuter (eval_decls machine ds)
  unfolding eval_decls
  KeepsOuter-eval_decls nil_decls = search keeps_rules
  KeepsOuter-eval_decls (cons_decls d ds) =
      KeepsOuter-bind _ _ (kept (decl d))
        (λ signal. KeepsOuter-after_decl signal _ (KeepsOuter-eval_decls ds))

  Keeps-eval_tail :
      (tail : OptionTypedExpr) (signal : Signal) → Keeps (eval_tail machine tail signal)
  Keeps-eval_tail (some_expr e) (value v) = kept_expr e
  Keeps-eval_tail no_expr (value v) = search keeps_rules
  Keeps-eval_tail _ _ = search keeps_rules

  Keeps-eval_block : (b : TypedBlock) → Keeps (eval_block machine b)
  unfolding eval_block
  Keeps-eval_block (TypedBlock.block decls tail span) =
      Keeps-scoped machine kept _ _ (KeepsOuter-eval_decls decls)
        (λ signal. KeepsOuter-of _ (Keeps-eval_tail tail signal))

  eval_task-TaskKept : (t : Task) → TaskKept (eval_task machine) t
  unfolding eval_task
  eval_task-TaskKept (expr e) = Keeps-eval_expr e
  eval_task-TaskKept (block b) = Keeps-eval_block b
  eval_task-TaskKept (stmt s) = Keeps-eval_stmt s
  eval_task-TaskKept (decl d) = KeepsOuter-eval_decl d
  eval_task-TaskKept (while_rounds condition body) = Keeps-while_round machine kept condition body
  eval_task-TaskKept (for_rounds condition step body) =
      Keeps-for_round machine kept condition step body
  eval_task-TaskKept (loop_rounds body) = Keeps-loop_round machine kept body
  eval_task-TaskKept (iterable_rounds binding next cell body span) =
      Keeps-iterable_round machine kept binding next cell body span

nothing_kept : (t : Task) → TaskKept (λ task s. out_of_fuel) t
nothing_kept (decl d) = KeepsOuter-of _ Keeps-out_of_fuel
nothing_kept (expr e) = Keeps-out_of_fuel
nothing_kept (block b) = Keeps-out_of_fuel
nothing_kept (stmt s) = Keeps-out_of_fuel
nothing_kept (while_rounds condition body) = Keeps-out_of_fuel
nothing_kept (for_rounds condition step body) = Keeps-out_of_fuel
nothing_kept (loop_rounds body) = Keeps-out_of_fuel
nothing_kept (iterable_rounds binding next cell body span) = Keeps-out_of_fuel

-- The stack of calls is as it was; so are the scopes, where a declaration may change the innermost.
abbrev pub Restores : Task → State → State → Type 0
Restores (decl d) s t = (pop_scope s.env ≡ pop_scope t.env) × (s.call_stack ≡ t.call_stack)
Restores _ s t = (s.env ≡ t.env) × (s.call_stack ≡ t.call_stack)

module _ (rust : Platform) (construct : Construct) (runtime : RuntimeRegistry) where
  eval-TaskKept : (fuel : ℕ) (t : Task) → TaskKept (eval rust construct runtime fuel) t
  unfolding eval
  eval-TaskKept zero t = nothing_kept t
  eval-TaskKept (suc fuel) t =
      eval_task-TaskKept
        (machine_with rust construct runtime fuel (eval rust construct runtime fuel))
        (eval-TaskKept fuel) t

  -- If an evaluation returns, by whichever signal, then the stack of calls is as it was before. After
  -- an expression, a statement, a block or a loop the environment is as it was before too, and after a
  -- declaration all of it but the innermost scope.
  pub eval-Restores :
      (fuel : ℕ) (task : Task) (s t : State) (signal : Signal)
      → eval rust construct runtime fuel task s ≡ done (signal, t)
      → Restores task s t
  eval-Restores fuel (decl d) s t signal h = (eval-TaskKept fuel (decl d)).at s t signal h
  eval-Restores fuel (expr e) s t signal h = (eval-TaskKept fuel (expr e)).at s t signal h
  eval-Restores fuel (block b) s t signal h = (eval-TaskKept fuel (block b)).at s t signal h
  eval-Restores fuel (stmt x) s t signal h = (eval-TaskKept fuel (stmt x)).at s t signal h
  eval-Restores fuel (while_rounds c b) s t signal h =
      (eval-TaskKept fuel (while_rounds c b)).at s t signal h
  eval-Restores fuel (for_rounds c x b) s t signal h =
      (eval-TaskKept fuel (for_rounds c x b)).at s t signal h
  eval-Restores fuel (loop_rounds b) s t signal h =
      (eval-TaskKept fuel (loop_rounds b)).at s t signal h
  eval-Restores fuel (iterable_rounds x f a b span) s t signal h =
      (eval-TaskKept fuel (iterable_rounds x f a b span)).at s t signal h
