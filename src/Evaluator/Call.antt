-- ===== src/Evaluator/Call.antt =====
-- evaluator/call.rs: calls of functions and methods.
use metel.Prelude.{String, List, [], ◌∷◌, Option, some, none, string_eq}
use metel.Prelude.Map.{get}
use metel.Error.{Span, r0002, r0010}
use metel.TypeInference.Scheme.Defs.{TypeScheme}
use metel.Ast.Types.{Param}
use metel.Ast.Trees.{Block}
use metel.Evaluator.State.{
  M, ◌>>=◌, ◌>>◌, return, lift, read_cell, push_frame, pop_frame, attach_stack,
}
use metel.Evaluator.Env.{get_env, set_env, push_scope, define, define_cell}
use metel.Evaluator.Arith.{panic}
use metel.Evaluator.Registry.Lookup.{and_then, map_some}
use metel.Evaluator.TypeOf.{value_types}
use metel.Evaluator.Builtins.{run_intrinsic}
use metel.Evaluator.Machine.{Machine, block}
use metel.Evaluator.Values.{
  Address, TypeCtx, Environment, ClosureBody, ClosureValue, typed, untyped, RuntimeCallable,
  closure, intrinsic, Value, Values, nil, cons, callable, unit, pointer, mut_pointer, Signal, value,
}

pub data ReceiverBinding : Type 0 where
  by_value : Value → ReceiverBinding
  shared : Address → ReceiverBinding

-- The scheme and the context of a generic closure.
unfoldable pub scheme_and_ctx : ClosureValue → Option (TypeScheme × TypeCtx)
unfolding get
scheme_and_ctx c = and_then c.name (λ name.
    and_then c.type_ctx (λ ctx. map_some (λ scheme. (scheme, ctx)) (get name ctx.scheme_env)))

-- The name that the frame of the call has.
abbrev pub frame_name : Option String → String
frame_name (some name) = name
frame_name none = "<closure>"

-- What a call gives to its caller.
unfoldable pub at_boundary : Signal → Signal
at_boundary (Signal.return v) = value v
at_boundary signal = signal

module _ (machine : Machine) where
  unfoldable pub bind_params : List Param → Values → M (Unit {0})
  unfolding define
  bind_params (p ∷ ps) (cons v vs) = do define machine.fuel p.name v; bind_params ps vs
  bind_params _ _ = return tt

  -- The body that a generic closure has at the types of the arguments.
  unfoldable pub run_untyped :
      ClosureValue → Block → Values → Span → Option (TypeScheme × TypeCtx) → M Signal
  unfolding value_types attach_stack
  run_untyped c body args span none = attach_stack (lift (panic r0002 span))
  run_untyped c body args span (some (scheme, ctx)) = do
    types ← value_types machine.rust machine.fuel args
    typed_body ← lift (machine.construct_generic_body scheme c.params types body span ctx)
    attach_stack (machine.run (block typed_body))

  unfoldable pub run_body : ClosureValue → ClosureBody → Values → Span → M Signal
  unfolding run_untyped scheme_and_ctx attach_stack
  run_body c (typed body) args span = attach_stack (machine.run (block body))
  run_body c (untyped body) args span = run_untyped c body args span (scheme_and_ctx c)

  -- The call of a closure in its own environment, with what binds the parameters as an argument.
  unfoldable pub call_closure : ClosureValue → M (Unit {0}) → Values → Span → M Signal
  unfolding run_body push_frame pop_frame push_scope at_boundary
  call_closure c bind args span = do
    push_frame (frame_name c.name) span
    caller ← get_env
    set_env (push_scope c.captured)
    bind
    signal ← run_body c c.body args span
    set_env caller
    pop_frame
    return (at_boundary signal)

  unfoldable pub call_intrinsic : metel.Evaluator.Values.Intrinsic → Values → Span → M Signal
  unfolding run_intrinsic attach_stack
  call_intrinsic f args span = do
    v ← attach_stack (run_intrinsic machine.rust f args span)
    return (value v)

  unfoldable pub call_runtime_callable : RuntimeCallable → Values → Span → M Signal
  unfolding call_closure call_intrinsic bind_params
  call_runtime_callable (intrinsic f) args span = call_intrinsic f args span
  call_runtime_callable (closure c) args span = call_closure c (bind_params c.params args) args span

  -- A function pointer is followed once.
  unfoldable pub through_pointer : Value → M Value
  unfolding read_cell
  through_pointer (pointer a) = read_cell a
  through_pointer (mut_pointer a) = read_cell a
  through_pointer v = return v

  unfoldable pub call_target : Value → Values → Span → M Signal
  unfolding call_runtime_callable attach_stack
  call_target (callable c) args span = call_runtime_callable c args span
  call_target unit args span = attach_stack (lift (panic r0002 span))
  call_target _ args span = attach_stack (lift (panic r0010 span))

  unfoldable pub call_function : Value → Values → Span → M Signal
  unfolding through_pointer call_target
  call_function func args span = do target ← through_pointer func; call_target target args span

  unfoldable pub bind_receiver : String → ReceiverBinding → M (Unit {0})
  unfolding define define_cell
  bind_receiver name (by_value v) = define machine.fuel name v
  bind_receiver name (shared cell) = define_cell name cell

  unfoldable pub bind_method : List Param → ReceiverBinding → Values → M (Unit {0})
  unfolding bind_receiver bind_params
  bind_method [] receiver args = return tt
  bind_method (p ∷ ps) receiver args = do bind_receiver p.name receiver; bind_params ps args

  unfoldable pub receiver_value : ReceiverBinding → M Value
  unfolding read_cell
  receiver_value (by_value v) = return v
  receiver_value (shared cell) = read_cell cell

  unfoldable pub call_method_function : RuntimeCallable → ReceiverBinding → Values → Span → M Signal
  unfolding call_closure call_intrinsic bind_method receiver_value
  call_method_function (closure c) receiver args span =
      call_closure c (bind_method c.params receiver args) args span
  call_method_function (intrinsic f) receiver args span = do
    v ← receiver_value receiver
    call_intrinsic f (cons v args) span
