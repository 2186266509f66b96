-- ===== src/Evaluator/Loop.antt =====
-- evaluator/mod.rs: the loops of `eval_stmt` and `eval_for_in`. A loop's round hands the rounds that
-- are left on as a task.
use metel.Prelude.{ℕ, zero, suc, String, Option, some, none, true, false, if◌then◌else◌, str_eq}
use metel.Prelude.Int.{ℤ, pos, ◌+ℤ◌, ◌-ℤ◌, pos_part}
use metel.Error.{Span, r0011}
use metel.Ast.Literals.{i64}
use metel.TypedAst.{
  TypedExpr, TypedBlock, OptionTypedExpr, no_expr, some_expr, TypedLetDecl, let_init, mut_init,
  expr_init, OptionTypedForInit, no_init, some_init, let_decl,
}
use metel.Evaluator.Outcome.{Outcome, done, failed, aborted, out_of_fuel}
use metel.Evaluator.State.{M, ◌>>=◌, ◌>>◌, return, lift, read_array, new_cell}
use metel.Evaluator.Env.{get_env, set_env, push_scope, pop_scope, define, deep_clone_value}
use metel.Evaluator.Arith.{panic, internal_failure}
use metel.Evaluator.Paths.{get_field}
use metel.Evaluator.Registry.{RuntimeMethod}
use metel.Evaluator.Registry.Lookup.{get_regular_method}
use metel.Evaluator.Call.{shared, call_method_function}
use metel.Evaluator.Machine.{
  Machine, expr, block, while_rounds, for_rounds, loop_rounds, iterable_rounds, into_value,
  eval_value,
}
use metel.Evaluator.Values.{
  Address, RuntimeCallable, Value, Values, ValueFields, int, boolean, unit, array, struct, enum,
  nil, cons, Signal, value,
}

-- A step inside a scope of its own.
unfoldable pub enter : M (Unit {0})
unfolding push_scope
enter = do env ← get_env; set_env (push_scope env)

unfoldable pub leave : M (Unit {0})
unfolding pop_scope
leave = do env ← get_env; set_env (pop_scope env)

-- What a condition's signal says: to go on, to stop, or to leave with a signal.
abbrev pub if_true : Signal → M Signal → M Signal → M Signal
if_true (value (boolean true)) go stop = go
if_true (value (boolean false)) go stop = stop
if_true (value v) go stop = lift internal_failure
if_true signal go stop = return signal

-- What a body's signal says.
abbrev pub after_body : Signal → M Signal → M Signal
after_body (value v) next = next
after_body Signal.continue next = next
after_body (Signal.break v) next = return (value unit)
after_body (Signal.return v) next = return (Signal.return v)

-- The same of a `loop`, which gives the value that it is left with.
abbrev pub after_loop_body : Signal → M Signal → M Signal
after_loop_body (value v) next = next
after_loop_body Signal.continue next = next
after_loop_body (Signal.break v) next = return (value v)
after_loop_body (Signal.return v) next = return (Signal.return v)

unfoldable pub range_field : ValueFields → String → Outcome ℤ
unfolding get_field
range_field fields name = elim (get_field name fields) [
  | some (int i64 n) ↦ done n
  | _ ↦ internal_failure
]

-- So many integers from one on.
unfoldable pub range_values : ℕ → ℤ → Values
unfolding ◌+ℤ◌
range_values zero n = nil
range_values (suc count) n = cons (int i64 n) (range_values count (n +ℤ pos 1))

unfoldable pub range_items : ValueFields → (ℤ → ℤ → ℕ) → Outcome Values
unfolding range_field range_values
range_items fields count =
    chain (range_field fields "start")
      (λ s. chain (range_field fields "end") (λ e. done (range_values (count s e) s)))
  where
    chain : Outcome ℤ → (ℤ → Outcome Values) → Outcome Values
    chain (done n) f = f n
    chain (failed x) f = failed x
    chain aborted f = aborted
    chain out_of_fuel f = out_of_fuel

-- `s..e` and `s..=e`
unfoldable pub exclusive : ℤ → ℤ → ℕ
unfolding ◌-ℤ◌
exclusive s e = pos_part (e -ℤ s)

unfoldable pub inclusive : ℤ → ℤ → ℕ
unfolding ◌-ℤ◌ ◌+ℤ◌
inclusive s e = pos_part (e -ℤ s +ℤ pos 1)

-- The built-in sequences.
unfoldable pub fast_items : Value → M (Option Values)
unfolding read_array range_items exclusive inclusive
fast_items (array a) = do items ← read_array a; return (some items)
fast_items (struct name fields) =
    if str_eq name "Range"
    then (do items ← lift (range_items fields exclusive); return (some items))
    else if str_eq name "RangeInclusive"
    then (do items ← lift (range_items fields inclusive); return (some items))
    else return none
fast_items _ = return none

-- The item that `next` gives, if there is one.
unfoldable pub next_item : Value → Outcome (Option Value)
unfolding get_field
next_item (enum name variant fields) =
    if str_eq name "Perhaps"
    then (if str_eq variant "None"
        then done none
        else elim (get_field "value" fields) [ some v ↦ done (some v) | none ↦ done (some unit) ])
    else internal_failure
next_item _ = internal_failure

module _ (machine : Machine) where
  unfoldable pub while_round : TypedExpr → TypedBlock → M Signal
  while_round condition body = do
    test ← machine.run (expr condition)
    if_true test
        (do
          signal ← machine.run (block body)
          after_body signal (machine.run (while_rounds condition body)))
        (return (value unit))

  unfoldable pub loop_round : TypedBlock → M Signal
  loop_round body = do
    signal ← machine.run (block body)
    after_loop_body signal (machine.run (loop_rounds body))

  unfoldable pub eval_step : OptionTypedExpr → M (Unit {0})
  eval_step no_expr = return tt
  eval_step (some_expr e) = do signal ← machine.run (expr e); return tt

  unfoldable pub for_body : OptionTypedExpr → OptionTypedExpr → TypedBlock → M Signal
  unfolding eval_step
  for_body condition step body = do
    signal ← machine.run (block body)
    after_body signal (do eval_step step; machine.run (for_rounds condition step body))

  unfoldable pub for_round : OptionTypedExpr → OptionTypedExpr → TypedBlock → M Signal
  unfolding for_body
  for_round no_expr step body = for_body no_expr step body
  for_round (some_expr condition) step body = do
    test ← machine.run (expr condition)
    if_true test (for_body (some_expr condition) step body) (return (value unit))

  unfoldable pub define_value : TypedLetDecl → M (Unit {0})
  unfolding eval_value define
  define_value (let_decl name ann e span) = do v ← eval_value machine e; define machine.fuel name v

  unfoldable pub eval_init : OptionTypedForInit → M (Unit {0})
  unfolding define_value eval_step
  eval_init no_init = return tt
  eval_init (some_init (let_init d)) = define_value d
  eval_init (some_init (mut_init d)) = define_value d
  eval_init (some_init (expr_init e)) = eval_step (some_expr e)

  unfoldable pub eval_for :
      OptionTypedForInit → OptionTypedExpr → OptionTypedExpr → TypedBlock → M Signal
  unfolding enter leave eval_init
  eval_for init condition step body = do
    enter
    eval_init init
    signal ← machine.run (for_rounds condition step body)
    leave
    return signal

  -- The body with one item bound.
  unfoldable pub eval_item : String → Value → TypedBlock → M Signal
  unfolding enter leave define
  eval_item binding item body = do
    enter
    define machine.fuel binding item
    signal ← machine.run (block body)
    leave
    return signal

  unfoldable pub eval_items : String → Values → TypedBlock → M Signal
  unfolding eval_item
  eval_items binding nil body = return (value unit)
  eval_items binding (cons item items) body = do
    signal ← eval_item binding item body
    after_body signal (eval_items binding items body)

  abbrev pub item_round :
      String → RuntimeCallable → Address → TypedBlock → Span → Option Value → M Signal
  item_round binding next cell body span none = return (value unit)
  item_round binding next cell body span (some item) = do
    signal ← eval_item binding item body
    after_body signal (machine.run (iterable_rounds binding next cell body span))

  -- One call of `next` and one round.
  unfoldable pub iterable_round : String → RuntimeCallable → Address → TypedBlock → Span → M Signal
  unfolding call_method_function into_value next_item eval_item
  iterable_round binding next cell body span = do
    signal ← call_method_function machine next (shared cell) nil span
    result ← lift (into_value signal)
    item ← lift (next_item result)
    item_round binding next cell body span item

  unfoldable pub eval_iterable :
      String → Value → Option RuntimeMethod → TypedBlock → Span → M Signal
  unfolding deep_clone_value new_cell
  eval_iterable binding iterable none body span = lift (panic r0011 span)
  eval_iterable binding iterable (some next) body span = do
    copy ← deep_clone_value machine.fuel iterable
    cell ← new_cell copy
    machine.run (iterable_rounds binding next.body cell body span)

  abbrev pub next_method : Value → Option RuntimeMethod
  next_method (struct name fields) = get_regular_method machine.runtime name "next"
  next_method _ = none

  abbrev pub eval_sequence : Option Values → String → Value → TypedBlock → Span → M Signal
  eval_sequence (some items) binding iterable body span = eval_items binding items body
  eval_sequence none binding iterable body span =
      eval_iterable binding iterable (next_method iterable) body span

  unfoldable pub eval_for_in : String → Value → TypedBlock → Span → M Signal
  unfolding fast_items eval_items eval_iterable get_regular_method
  eval_for_in binding iterable body span = do
    fast ← fast_items iterable
    eval_sequence fast binding iterable body span
