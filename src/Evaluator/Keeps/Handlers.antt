-- ===== src/Evaluator/Keeps/Handlers.antt =====
-- The parts of the evaluator that hand parts of the tree on keep the environment and the stack, if what
-- they hand on does.
use metel.Prelude.{String, Option, some, none, List, [], ◌∷◌, ◌++◌, ◌≡◌, refl, sym, ◌∙◌, ap}
use metel.Error.{Span, FrameInfo}
use metel.TypeInference.Scheme.Defs.{TypeScheme}
use metel.Ast.Types.{Param}
use metel.Ast.Trees.{Block}
use metel.TypedAst.{
  TypedExpr, TypedBlock, TypedPlace, ident_place, deref_place, field_place, index_place, ident,
  field_access, tuple_access, index,
}
use metel.Evaluator.State.{State, M, push_frame, pop_frame, drop_last}
use metel.Evaluator.Env.{push_scope}
use metel.Evaluator.Returns.{bind-done, done-parts}
use metel.Evaluator.Machine.{Machine, expr, block, eval_value}
use metel.Evaluator.Call.{
  ReceiverBinding, bind_params, run_untyped, run_body, call_closure, call_intrinsic,
  call_runtime_callable, through_pointer, call_target, call_function, bind_receiver, bind_method,
  receiver_value, call_method_function, frame_name, by_value, shared,
}
use metel.Evaluator.Place.{
  cell_of, value_of, index_array, walk, read_pointer, eval_typed_place_value, build_mut_path,
}
use metel.Evaluator.Keeps.{
  Keeps, KeepsOuter, Keeps-bind, KeepsOuter-bind, KeepsOuter-define_cell, keeps_rules,
}
use metel.Evaluator.Keeps.Heap.{KeepsOuter-define, Keeps-get_value}
use metel.Evaluator.Keeps.Parts.{Keeps-value_types, Keeps-run_intrinsic}
use metel.Evaluator.Values.{
  TypeCtx, ClosureBody, typed, untyped, ClosureValue, closure, intrinsic, Intrinsic,
  RuntimeCallable, Value, Values, array, callable, unit, pointer, mut_pointer, cons, Signal,
}

pub Keeps-cell_of : (name : String) (span : Span) → Keeps (cell_of name span)
unfolding cell_of
Keeps-cell_of name span = search keeps_rules

pub Keeps-value_of : (name : String) (span : Span) → Keeps (value_of name span)
unfolding value_of
Keeps-value_of name span = search (keeps_rules, Keeps-get_value)

pub Keeps-read_pointer : (v : Value) (span : Span) → Keeps (read_pointer v span)
unfolding read_pointer
Keeps-read_pointer (pointer a) span = search keeps_rules
Keeps-read_pointer (mut_pointer a) span = search keeps_rules
Keeps-read_pointer _ span = search keeps_rules

pub Keeps-index_array : (v i : Value) (span : Span) → Keeps (index_array v i span)
unfolding index_array
Keeps-index_array (array a) i span = search keeps_rules
Keeps-index_array _ i span = search keeps_rules

Keeps-through_pointer : (machine : Machine) (v : Value) → Keeps (through_pointer machine v)
unfolding through_pointer
Keeps-through_pointer machine (pointer a) = search keeps_rules
Keeps-through_pointer machine (mut_pointer a) = search keeps_rules
Keeps-through_pointer machine _ = search keeps_rules

Keeps-receiver_value : (machine : Machine) (r : ReceiverBinding) → Keeps (receiver_value machine r)
unfolding receiver_value
Keeps-receiver_value machine (by_value v) = search keeps_rules
Keeps-receiver_value machine (shared cell) = search keeps_rules

KeepsOuter-bind_params :
    (machine : Machine) (ps : List Param) (vs : Values) → KeepsOuter (bind_params machine ps vs)
unfolding bind_params
KeepsOuter-bind_params machine (p ∷ ps) (cons v vs) =
    KeepsOuter-bind _ _ (KeepsOuter-define machine.fuel p.name v)
      (λ u. KeepsOuter-bind_params machine ps vs)
KeepsOuter-bind_params machine _ _ = search keeps_rules

KeepsOuter-bind_receiver :
    (machine : Machine) (name : String) (r : ReceiverBinding)
    → KeepsOuter (bind_receiver machine name r)
unfolding bind_receiver
KeepsOuter-bind_receiver machine name (by_value v) = KeepsOuter-define machine.fuel name v
KeepsOuter-bind_receiver machine name (shared cell) = KeepsOuter-define_cell name cell

KeepsOuter-bind_method :
    (machine : Machine) (ps : List Param) (r : ReceiverBinding) (vs : Values)
    → KeepsOuter (bind_method machine ps r vs)
unfolding bind_method
KeepsOuter-bind_method machine [] r vs = search keeps_rules
KeepsOuter-bind_method machine (p ∷ ps) r vs =
    KeepsOuter-bind _ _ (KeepsOuter-bind_receiver machine p.name r)
      (λ u. KeepsOuter-bind_params machine ps vs)

drop_last-snoc : (frames : List FrameInfo) (f : FrameInfo) → drop_last (frames ++ f ∷ []) ≡ frames
drop_last-snoc [] f = refl
drop_last-snoc (x ∷ []) f = refl
drop_last-snoc (x ∷ y ∷ frames) f = ap (λ r. x ∷ r) (drop_last-snoc (y ∷ frames) f)

module _ (machine : Machine) (keeps_expr : (e : TypedExpr) → Keeps (machine.run (expr e)))
    (keeps_block : (b : TypedBlock) → Keeps (machine.run (block b))) where
  pub Keeps-eval_value : (e : TypedExpr) → Keeps (eval_value machine e)
  unfolding eval_value
  Keeps-eval_value e = search (keeps_rules, keeps_expr)

  Keeps-run_untyped :
      (c : ClosureValue) (body : Block) (args : Values) (span : Span)
      (o : Option (TypeScheme × TypeCtx))
      → Keeps (run_untyped machine c body args span o)
  unfolding run_untyped
  Keeps-run_untyped c body args span none = search keeps_rules
  Keeps-run_untyped c body args span (some (scheme, ctx)) =
      search (keeps_rules, Keeps-value_types, keeps_block) depth 8

  Keeps-run_body :
      (c : ClosureValue) (body : ClosureBody) (args : Values) (span : Span)
      → Keeps (run_body machine c body args span)
  unfolding run_body
  Keeps-run_body c (typed body) args span = search (keeps_rules, keeps_block)
  Keeps-run_body c (untyped body) args span = Keeps-run_untyped c body args span _

  Keeps-call_closure :
      (c : ClosureValue) (bind : M (Unit {0})) (args : Values) (span : Span)
      → KeepsOuter bind
      → Keeps (call_closure machine c bind args span)
  unfolding call_closure push_frame pop_frame
  Keeps-call_closure c bind args span kb = record {
    at = λ s t result h.
        let frame : FrameInfo = record { fn_name = frame_name c.name; call_site = span } in
        let s1 : State = record s {
          env = push_scope c.captured;
          call_stack = s.call_stack ++ frame ∷ [];
        } in
        let (u, s2, bound, rest) = bind-done bind _ s1 (result, t) h in
        let (signal, s3, ran, end) =
          bind-done (run_body machine c c.body args span) _ s2 (result, t) rest in
        let stacks =
          (kb.at s1 s2 u bound).1 ∙ ((Keeps-run_body c c.body args span).at s2 s3 signal ran).1 in
        let same = (done-parts {A = Signal} end).1 in
        (
          ap (λ v. v.env) same,
          sym (drop_last-snoc s.call_stack frame)
              ∙ ap drop_last stacks
              ∙ ap (λ v. v.call_stack) same,
        );
  }

  Keeps-call_intrinsic :
      (f : Intrinsic) (args : Values) (span : Span) → Keeps (call_intrinsic machine f args span)
  unfolding call_intrinsic
  Keeps-call_intrinsic f args span = search (keeps_rules, Keeps-run_intrinsic)

  Keeps-call_runtime_callable :
      (c : RuntimeCallable) (args : Values) (span : Span)
      → Keeps (call_runtime_callable machine c args span)
  unfolding call_runtime_callable
  Keeps-call_runtime_callable (intrinsic f) args span = Keeps-call_intrinsic f args span
  Keeps-call_runtime_callable (closure c) args span =
      Keeps-call_closure c _ args span (KeepsOuter-bind_params machine c.params args)

  Keeps-call_target :
      (v : Value) (args : Values) (span : Span) → Keeps (call_target machine v args span)
  unfolding call_target
  Keeps-call_target (callable c) args span = Keeps-call_runtime_callable c args span
  Keeps-call_target unit args span = search keeps_rules
  Keeps-call_target _ args span = search keeps_rules

  pub Keeps-call_function :
      (func : Value) (args : Values) (span : Span) → Keeps (call_function machine func args span)
  unfolding call_function
  Keeps-call_function func args span =
      search (keeps_rules, Keeps-through_pointer, Keeps-call_target)

  pub Keeps-call_method_function :
      (c : RuntimeCallable) (r : ReceiverBinding) (args : Values) (span : Span)
      → Keeps (call_method_function machine c r args span)
  unfolding call_method_function
  Keeps-call_method_function (closure c) r args span =
      Keeps-call_closure c _ args span (KeepsOuter-bind_method machine c.params r args)
  Keeps-call_method_function (intrinsic f) r args span =
      search (keeps_rules, Keeps-receiver_value, Keeps-call_intrinsic)

  pub Keeps-walk : (place : TypedPlace) (span : Span) → Keeps (walk machine place span)
  unfolding walk
  Keeps-walk (ident_place name ident_span) span = search (keeps_rules, Keeps-cell_of)
  Keeps-walk (deref_place object tspan) span = search (keeps_rules, Keeps-eval_value)
  Keeps-walk (field_place object f fspan) span = search (keeps_rules, Keeps-walk object)
  Keeps-walk (index_place object i ispan) span = search keeps_rules

  pub Keeps-eval_typed_place_value :
      (place : TypedPlace) → Keeps (eval_typed_place_value machine place)
  unfolding eval_typed_place_value
  Keeps-eval_typed_place_value (ident_place name ident_span) = Keeps-value_of name ident_span
  Keeps-eval_typed_place_value (deref_place object tspan) =
      search (keeps_rules, Keeps-eval_value, Keeps-read_pointer)
  Keeps-eval_typed_place_value (field_place object f tspan) =
      search (keeps_rules, Keeps-eval_typed_place_value object)
  Keeps-eval_typed_place_value (index_place object i tspan) =
      Keeps-bind _ _ (Keeps-eval_typed_place_value object)
        (λ arr. Keeps-bind _ _ (Keeps-eval_value i) (λ idx. Keeps-index_array arr idx tspan))

  pub Keeps-build_mut_path : (e : TypedExpr) (span : Span) → Keeps (build_mut_path machine e span)
  unfolding build_mut_path
  Keeps-build_mut_path (ident name ty ispan) span = search keeps_rules
  Keeps-build_mut_path (field_access object f ty fspan) span =
      search (keeps_rules, Keeps-build_mut_path object)
  Keeps-build_mut_path (tuple_access object i ty tspan) span =
      search (keeps_rules, Keeps-build_mut_path object)
  Keeps-build_mut_path (index object i ty ispan) span =
      search (keeps_rules, Keeps-build_mut_path object, Keeps-eval_value) depth 8
  Keeps-build_mut_path _ span = search keeps_rules
