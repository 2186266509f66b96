-- ===== src/Evaluator/Keeps/Loops.antt =====
-- The loops keep the environment and the stack, if what they hand on does.
use metel.Prelude.{String, Option, some, none, true, false, str_eq}
use metel.Error.{Span}
use metel.TypedAst.{
  TypedExpr, TypedBlock, OptionTypedExpr, no_expr, some_expr, TypedLetDecl, let_decl,
  OptionTypedForInit, no_init, some_init, let_init, mut_init, expr_init,
}
use metel.Evaluator.State.{M, ◌>>=◌, ◌>>◌, return}
use metel.Evaluator.Registry.{RuntimeMethod}
use metel.Evaluator.Machine.{
  Machine, Task, expr, block, stmt, decl, while_rounds, for_rounds, loop_rounds, iterable_rounds,
  into_value, eval_value,
}
use metel.Evaluator.Loop.{
  enter, leave, if_true, after_body, after_loop_body, fast_items, next_item, while_round,
  loop_round, eval_step, for_body, for_round, define_value, eval_init, eval_for, eval_item,
  eval_items, item_round, iterable_round, eval_iterable, next_method, eval_sequence, eval_for_in,
}
use metel.Evaluator.Call.{shared}
use metel.Evaluator.Keeps.{
  Keeps, KeepsOuter, Keeps-bind, Keeps-return, Keeps-if, Keeps-lift, Keeps-enter, Closes-bind,
  Closes-leave, KeepsOuter-of, KeepsOuter-bind, keeps_rules,
}
use metel.Evaluator.Keeps.Heap.{Keeps-deep_clone_value, KeepsOuter-define}
use metel.Evaluator.Keeps.Handlers.{Keeps-eval_value, Keeps-call_method_function}
use metel.Evaluator.Values.{
  Address, RuntimeCallable, Value, Values, boolean, array, struct, nil, cons, Signal, value,
}

-- A declaration may bind a name; everything else keeps the environment.
abbrev pub TaskKept : (Task → M Signal) → Task → Type 0
TaskKept run (decl d) = KeepsOuter (run (decl d))
TaskKept run (expr e) = Keeps (run (expr e))
TaskKept run (block b) = Keeps (run (block b))
TaskKept run (stmt s) = Keeps (run (stmt s))
TaskKept run (while_rounds c b) = Keeps (run (while_rounds c b))
TaskKept run (for_rounds c s b) = Keeps (run (for_rounds c s b))
TaskKept run (loop_rounds b) = Keeps (run (loop_rounds b))
TaskKept run (iterable_rounds x f a b span) = Keeps (run (iterable_rounds x f a b span))

pub Keeps-if_true :
    (signal : Signal) (go stop : M Signal) → Keeps go → Keeps stop → Keeps (if_true signal go stop)
Keeps-if_true (value (boolean true)) go stop kg ks = kg
Keeps-if_true (value (boolean false)) go stop kg ks = ks
Keeps-if_true (value _) go stop kg ks = search keeps_rules
Keeps-if_true _ go stop kg ks = search keeps_rules

Keeps-after_body : (signal : Signal) (next : M Signal) → Keeps next → Keeps (after_body signal next)
Keeps-after_body (value v) next k = k
Keeps-after_body Signal.continue next k = k
Keeps-after_body (Signal.break v) next k = search keeps_rules
Keeps-after_body (Signal.return v) next k = search keeps_rules

Keeps-after_loop_body :
    (signal : Signal) (next : M Signal) → Keeps next → Keeps (after_loop_body signal next)
Keeps-after_loop_body (value v) next k = k
Keeps-after_loop_body Signal.continue next k = k
Keeps-after_loop_body (Signal.break v) next k = search keeps_rules
Keeps-after_loop_body (Signal.return v) next k = search keeps_rules

Keeps-fast_items : (v : Value) → Keeps (fast_items v)
unfolding fast_items
Keeps-fast_items (array a) = search keeps_rules
Keeps-fast_items (struct name fields) =
    Keeps-if (str_eq name "Range") _ _ (search keeps_rules)
      (Keeps-if (str_eq name "RangeInclusive") _ _ (search keeps_rules) (search keeps_rules))
Keeps-fast_items _ = search keeps_rules

module _ (machine : Machine) (kept : (t : Task) → TaskKept machine.run t) where
  value_kept : (e : TypedExpr) → Keeps (eval_value machine e)
  value_kept e = Keeps-eval_value machine (λ x. kept (expr x)) (λ b. kept (block b)) e

  pub Keeps-while_round :
      (condition : TypedExpr) (body : TypedBlock) → Keeps (while_round machine condition body)
  unfolding while_round
  Keeps-while_round condition body = Keeps-bind _ _ (kept (expr condition)) (λ test.
      Keeps-if_true test _ _
        (Keeps-bind _ _ (kept (block body))
          (λ signal. Keeps-after_body signal _ (kept (while_rounds condition body))))
        (search keeps_rules))

  pub Keeps-loop_round : (body : TypedBlock) → Keeps (loop_round machine body)
  unfolding loop_round
  Keeps-loop_round body =
      Keeps-bind _ _ (kept (block body))
        (λ signal. Keeps-after_loop_body signal _ (kept (loop_rounds body)))

  Keeps-eval_step : (e : OptionTypedExpr) → Keeps (eval_step machine e)
  unfolding eval_step
  Keeps-eval_step no_expr = search keeps_rules
  Keeps-eval_step (some_expr e) = Keeps-bind _ _ (kept (expr e)) (λ signal. search keeps_rules)

  Keeps-for_body :
      (condition step : OptionTypedExpr) (body : TypedBlock)
      → Keeps (for_body machine condition step body)
  unfolding for_body
  Keeps-for_body condition step body = Keeps-bind _ _ (kept (block body)) (λ signal.
      Keeps-after_body signal _
        (Keeps-bind _ _ (Keeps-eval_step step) (λ u. kept (for_rounds condition step body))))

  pub Keeps-for_round :
      (condition step : OptionTypedExpr) (body : TypedBlock)
      → Keeps (for_round machine condition step body)
  unfolding for_round
  Keeps-for_round no_expr step body = Keeps-for_body no_expr step body
  Keeps-for_round (some_expr condition) step body = Keeps-bind _ _ (kept (expr condition)) (λ test.
      Keeps-if_true test _ _ (Keeps-for_body (some_expr condition) step body) (search keeps_rules))

  KeepsOuter-define_value : (d : TypedLetDecl) → KeepsOuter (define_value machine d)
  unfolding define_value
  KeepsOuter-define_value (let_decl name ann e span) =
      KeepsOuter-bind _ _ (KeepsOuter-of _ (value_kept e))
        (λ v. KeepsOuter-define machine.fuel name v)

  KeepsOuter-eval_init : (init : OptionTypedForInit) → KeepsOuter (eval_init machine init)
  unfolding eval_init
  KeepsOuter-eval_init no_init = search keeps_rules
  KeepsOuter-eval_init (some_init (let_init d)) = KeepsOuter-define_value d
  KeepsOuter-eval_init (some_init (mut_init d)) = KeepsOuter-define_value d
  KeepsOuter-eval_init (some_init (expr_init e)) = KeepsOuter-of _ (Keeps-eval_step (some_expr e))

  -- A step that may bind names, in a scope of its own.
  pub Keeps-scoped :
      {A B : Type 0} (m : M A) (f : A → M B)
      → KeepsOuter m
      → ((a : A) → KeepsOuter (f a))
      → Keeps (enter >> (m >>= λ a. f a >>= λ b. leave >> return b))
  Keeps-scoped m f km kf = Keeps-enter _ (
      Closes-bind m _ km
        (λ a. Closes-bind (f a) _ (kf a) (λ b. Closes-leave (return b) (Keeps-return b))))

  pub Keeps-eval_for :
      (init : OptionTypedForInit) (condition step : OptionTypedExpr) (body : TypedBlock)
      → Keeps (eval_for machine init condition step body)
  unfolding eval_for
  Keeps-eval_for init condition step body =
      Keeps-scoped (eval_init machine init) _ (KeepsOuter-eval_init init)
        (λ u. KeepsOuter-of _ (kept (for_rounds condition step body)))

  Keeps-eval_item :
      (binding : String) (item : Value) (body : TypedBlock)
      → Keeps (eval_item machine binding item body)
  unfolding eval_item
  Keeps-eval_item binding item body =
      Keeps-scoped _ _ (KeepsOuter-define machine.fuel binding item)
        (λ u. KeepsOuter-of _ (kept (block body)))

  Keeps-eval_items :
      (binding : String) (items : Values) (body : TypedBlock)
      → Keeps (eval_items machine binding items body)
  unfolding eval_items
  Keeps-eval_items binding nil body = search keeps_rules
  Keeps-eval_items binding (cons item items) body =
      Keeps-bind _ _ (Keeps-eval_item binding item body)
        (λ signal. Keeps-after_body signal _ (Keeps-eval_items binding items body))

  Keeps-item_round :
      (binding : String) (next : RuntimeCallable) (cell : Address) (body : TypedBlock) (span : Span)
      (o : Option Value)
      → Keeps (item_round machine binding next cell body span o)
  Keeps-item_round binding next cell body span none = search keeps_rules
  Keeps-item_round binding next cell body span (some item) =
      Keeps-bind _ _ (Keeps-eval_item binding item body)
        (λ signal. Keeps-after_body signal _ (kept (iterable_rounds binding next cell body span)))

  pub Keeps-iterable_round :
      (binding : String) (next : RuntimeCallable) (cell : Address) (body : TypedBlock) (span : Span)
      → Keeps (iterable_round machine binding next cell body span)
  unfolding iterable_round
  Keeps-iterable_round binding next cell body span =
      Keeps-bind _ _
        (Keeps-call_method_function machine (λ x. kept (expr x)) (λ b. kept (block b)) next
          (shared cell) nil span)
        (λ signal. Keeps-bind _ _ (Keeps-lift (into_value signal)) (λ result.
          Keeps-bind _ _ (Keeps-lift (next_item result))
            (λ item. Keeps-item_round binding next cell body span item)))

  Keeps-eval_iterable :
      (binding : String) (v : Value) (o : Option RuntimeMethod) (body : TypedBlock) (span : Span)
      → Keeps (eval_iterable machine binding v o body span)
  unfolding eval_iterable
  Keeps-eval_iterable binding v none body span = search keeps_rules
  Keeps-eval_iterable binding v (some next) body span =
      search
        (keeps_rules, Keeps-deep_clone_value, kept (iterable_rounds binding next.body _ body span))

  Keeps-eval_sequence :
      (o : Option Values) (binding : String) (v : Value) (body : TypedBlock) (span : Span)
      → Keeps (eval_sequence machine o binding v body span)
  Keeps-eval_sequence (some items) binding v body span = Keeps-eval_items binding items body
  Keeps-eval_sequence none binding v body span =
      Keeps-eval_iterable binding v (next_method machine v) body span

  pub Keeps-eval_for_in :
      (binding : String) (v : Value) (body : TypedBlock) (span : Span)
      → Keeps (eval_for_in machine binding v body span)
  unfolding eval_for_in
  Keeps-eval_for_in binding v body span =
      Keeps-bind _ _ (Keeps-fast_items v) (λ o. Keeps-eval_sequence o binding v body span)
