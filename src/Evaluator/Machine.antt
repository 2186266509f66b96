-- ===== src/Evaluator/Machine.antt =====
-- What the parts of the evaluator share: the work that one of them hands to another, and the parts of
-- the machine that do not change during a run.
use metel.Prelude.{ℕ, String, List}
use metel.Error.{Span}
use metel.Types.{ResolvedTypes}
use metel.TypeInference.Scheme.Defs.{TypeScheme}
use metel.Ast.Types.{Param}
use metel.Ast.Trees.{Block}
use metel.TypedAst.{TypedExpr, TypedBlock, TypedStmt, TypedDecl, OptionTypedExpr}
use metel.Evaluator.Outcome.{Outcome, done, aborted}
use metel.Evaluator.Platform.{Platform}
use metel.Evaluator.Registry.{RuntimeRegistry}
use metel.Evaluator.State.{M, ◌>>=◌, lift}
use metel.Evaluator.Values.{Address, TypeCtx, RuntimeCallable, Signal, Value, value}

-- A part of the tree to evaluate, or the rounds of a loop that are left.
pub data Task : Type 0 where
  expr : TypedExpr → Task
  block : TypedBlock → Task
  stmt : TypedStmt → Task
  decl : TypedDecl → Task
  while_rounds : TypedExpr → TypedBlock → Task
  for_rounds : OptionTypedExpr → OptionTypedExpr → TypedBlock → Task
  loop_rounds : TypedBlock → Task
  iterable_rounds : String → RuntimeCallable → Address → TypedBlock → Span → Task

-- `typechecker::construct_generic_body` with the scheme, the parameters, the types of the arguments,
-- the body, the place of the call and the context.
abbrev pub Construct : Type 0
Construct = TypeScheme → List Param → ResolvedTypes → Block → Span → TypeCtx → Outcome TypedBlock

pub record Machine : Type 0 where
  pub rust : Platform
  pub construct_generic_body : Construct
  pub runtime : RuntimeRegistry
  -- what a part of the tree is handed to, and the depth to which values are copied
  pub run : Task → M Signal
  pub fuel : ℕ

-- `Signal::into_value`
unfoldable pub into_value : Signal → Outcome Value
into_value (value v) = done v
into_value _ = aborted

-- `eval_expr(e, env, runtime)?.into_value()`
unfoldable pub eval_value : Machine → TypedExpr → M Value
unfolding into_value
eval_value machine e = do signal ← machine.run (expr e); lift (into_value signal)
