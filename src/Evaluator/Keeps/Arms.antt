-- ===== src/Evaluator/Keeps/Arms.antt =====
-- The arms of `eval_expr` keep the environment and the stack, if what they hand on does.
use metel.Prelude.{ℕ, String, Option, some, none, Bool, true, false, List, [], ◌∷◌}
use metel.Error.{Span}
use metel.Ast.Literals.{AssignOp, BinOp, UnaryOp, u64}
use metel.Ast.Types.{TypeExpr, ReceiverKind}
use metel.Prelude.Int.{pos}
use metel.TypedAst.{
  TypedExpr, TypedBlock, TypedPlace, ident_place, deref_place, field_place, index_place, ident,
  field_access, MethodDispatch,
}
use metel.Evaluator.State.{M}
use metel.Evaluator.Registry.{RuntimeMethod}
use metel.Evaluator.Registry.Lookup.{resolve_path_value}
use metel.Evaluator.Machine.{Machine, Task, expr, block}
use metel.Evaluator.Assign.{
  new_value, unit_or_panic, assign_ident, assign_cell, read_cell_path, assign_path, assign_pointer,
  assign_element, assign_index, assign_field, eval_assign,
}
use metel.Evaluator.Method.{
  FieldWriteback, copy_leaf, leaf_of_root, leaf_of_path, lvalue_field_cell, finish, bind_cell,
  reference_binding, call_by_reference, call_found, call_method, value_or, method_or_panic,
  find_method,
}
use metel.Evaluator.Operators.{
  eval_ident, found_or_variant, global_or_local, eval_path, short_circuit, eval_bin_op, eval_unary,
  ref_lvalue, ref_mut_lvalue, eval_ref, eval_ref_mut, eval_unary_op, cast_by, cast_method,
  cast_value, index_value, access_field,
}
use metel.Evaluator.Place.{is_lvalue_path_typed, walk_path, field_at, follow_any}
use metel.Evaluator.Keeps.{
  Keeps, Keeps-bind, Keeps-return, Keeps-lift, Keeps-read_cell, keeps_rules,
}
use metel.Evaluator.Keeps.Heap.{Keeps-get_value, Keeps-set_value}
use metel.Evaluator.Keeps.Parts.{Keeps-read_path, Keeps-write_path, Keeps-deref_value}
use metel.Evaluator.Keeps.Handlers.{
  Keeps-cell_of, Keeps-value_of, Keeps-eval_value, Keeps-walk, Keeps-eval_typed_place_value,
  Keeps-build_mut_path, Keeps-call_function, Keeps-call_method_function,
}
use metel.Evaluator.Values.{
  Address, PathSegment, Value, Values, int, float, boolean, array, pointer, mut_pointer,
  mut_field_pointer, callable, cons, nil,
}

module _ (machine : Machine) where
  Keeps-new_value :
      (op : AssignOp) (current : M Value) (rhs : Value) (span : Span)
      → Keeps current
      → Keeps (new_value machine op current rhs span)
  unfolding new_value
  Keeps-new_value AssignOp.assign current rhs span k = search keeps_rules
  Keeps-new_value _ current rhs span k = search keeps_rules

  Keeps-unit_or_panic : (b : Bool) (span : Span) → Keeps (unit_or_panic machine b span)
  Keeps-unit_or_panic true span = search keeps_rules
  Keeps-unit_or_panic false span = search keeps_rules

  Keeps-assign_ident :
      (name : String) (ident_span : Span) (op : AssignOp) (rhs : Value) (span : Span)
      → Keeps (assign_ident machine name ident_span op rhs span)
  unfolding assign_ident
  Keeps-assign_ident name ident_span op rhs span =
      search (keeps_rules, Keeps-new_value, Keeps-value_of, Keeps-set_value, Keeps-unit_or_panic)
        depth 8

  Keeps-assign_cell :
      (a : Address) (op : AssignOp) (rhs : Value) (span : Span)
      → Keeps (assign_cell machine a op rhs span)
  unfolding assign_cell
  Keeps-assign_cell a op rhs span = search (keeps_rules, Keeps-new_value) depth 8

  Keeps-read_cell_path :
      (a : Address) (path : List PathSegment) (span : Span)
      → Keeps (read_cell_path machine a path span)
  unfolding read_cell_path
  Keeps-read_cell_path a path span = search (keeps_rules, Keeps-read_path)

  Keeps-assign_path :
      (root : Address) (path : List PathSegment) (tspan : Span) (op : AssignOp) (rhs : Value)
      (span : Span)
      → Keeps (assign_path machine root path tspan op rhs span)
  unfolding assign_path
  Keeps-assign_path root path tspan op rhs span =
      search (keeps_rules, Keeps-new_value, Keeps-read_cell_path, Keeps-write_path) depth 10

  Keeps-assign_pointer :
      (ptr : Value) (tspan : Span) (op : AssignOp) (rhs : Value) (span : Span)
      → Keeps (assign_pointer machine ptr tspan op rhs span)
  unfolding assign_pointer
  Keeps-assign_pointer (pointer a) tspan op rhs span = Keeps-assign_cell a op rhs span
  Keeps-assign_pointer (mut_pointer a) tspan op rhs span = Keeps-assign_cell a op rhs span
  Keeps-assign_pointer (mut_field_pointer root path) tspan op rhs span =
      Keeps-assign_path root path tspan op rhs span
  Keeps-assign_pointer _ tspan op rhs span = search keeps_rules

  Keeps-assign_element :
      (a : Address) (i : ℕ) (op : AssignOp) (rhs : Value) (span : Span)
      → Keeps (assign_element machine a i op rhs span)
  unfolding assign_element
  Keeps-assign_element a i op rhs span = search (keeps_rules, Keeps-new_value) depth 10

  Keeps-assign_index :
      (arr idx : Value) (op : AssignOp) (rhs : Value) (span : Span)
      → Keeps (assign_index machine arr idx op rhs span)
  unfolding assign_index
  Keeps-assign_index (array a) (int u64 (pos i)) op rhs span = Keeps-assign_element a i op rhs span
  Keeps-assign_index (array a) _ op rhs span = search keeps_rules
  Keeps-assign_index _ idx op rhs span = search keeps_rules

  Keeps-assign_field :
      (root : Address) (path : List String) (op : AssignOp) (rhs : Value) (span tspan : Span)
      → Keeps (assign_field machine root path op rhs span tspan)
  unfolding assign_field
  Keeps-assign_field root path op rhs span tspan = search keeps_rules depth 8

Keeps-copy_leaf : (a : Address) (path : List String) (o : Option Value) → Keeps (copy_leaf a path o)
Keeps-copy_leaf a path none = search keeps_rules
Keeps-copy_leaf a path (some leaf) = search keeps_rules

Keeps-leaf_of_root : (path : List String) (o : Option Address) → Keeps (leaf_of_root path o)
Keeps-leaf_of_root path none = search keeps_rules
Keeps-leaf_of_root path (some cell) = Keeps-bind _ _ (Keeps-read_cell cell) (λ root.
    Keeps-bind _ _ (Keeps-read_cell (follow_any cell root))
      (λ v. Keeps-copy_leaf (follow_any cell root) path (field_at v path)))

Keeps-leaf_of_path : (o : Option (String × List String)) → Keeps (leaf_of_path o)
unfolding leaf_of_path
Keeps-leaf_of_path none = search keeps_rules
Keeps-leaf_of_path (some (root, path)) = search (keeps_rules, Keeps-leaf_of_root)

Keeps-finish : (w : Option FieldWriteback) → Keeps (finish w)
unfolding finish
Keeps-finish none = search keeps_rules
Keeps-finish (some (struct_cell, path, leaf_cell)) = search keeps_rules depth 8

Keeps-bind_cell : (view : Value) (o : Option Address) → Keeps (bind_cell view o)
Keeps-bind_cell view none = search keeps_rules
Keeps-bind_cell view (some cell) = search keeps_rules

Keeps-reference_binding :
    (receiver : TypedExpr) (recv view : Value) → Keeps (reference_binding receiver recv view)
unfolding reference_binding lvalue_field_cell
Keeps-reference_binding (ident name ty span) recv view = search (keeps_rules, Keeps-bind_cell)
Keeps-reference_binding (field_access object f ty span) recv view =
    Keeps-bind _ _ (Keeps-leaf_of_path (walk_path (field_access object f ty span)))
      (λ leaf. Keeps-return _)
Keeps-reference_binding _ recv view = search keeps_rules

module _ (machine : Machine) (keeps_expr : (e : TypedExpr) → Keeps (machine.run (expr e)))
    (keeps_block : (b : TypedBlock) → Keeps (machine.run (block b))) where
  value_kept : (e : TypedExpr) → Keeps (metel.Evaluator.Machine.eval_value machine e)
  value_kept e = Keeps-eval_value machine keeps_expr keeps_block e

  pub Keeps-eval_assign :
      (place : TypedPlace) (op : AssignOp) (rhs : Value) (span : Span)
      → Keeps (eval_assign machine place op rhs span)
  unfolding eval_assign
  Keeps-eval_assign (ident_place name ident_span) op rhs span =
      Keeps-assign_ident machine name ident_span op rhs span
  Keeps-eval_assign (deref_place object tspan) op rhs span =
      search (keeps_rules, value_kept, Keeps-assign_pointer)
  Keeps-eval_assign (index_place object i ispan) op rhs span =
      Keeps-bind _ _ (Keeps-eval_typed_place_value machine keeps_expr keeps_block object) (λ arr.
        Keeps-bind _ _ (value_kept i) (λ idx. Keeps-assign_index machine arr idx op rhs span))
  Keeps-eval_assign (field_place object f tspan) op rhs span =
      Keeps-bind _ _ (Keeps-walk machine keeps_expr keeps_block (field_place object f tspan) tspan)
        (λ r. Keeps-assign_field machine r.0 r.1 op rhs span tspan)

  Keeps-call_by_reference :
      (receiver : TypedExpr) (recv view : Value) (m : RuntimeMethod) (args : Values) (span : Span)
      → Keeps (call_by_reference machine receiver recv view m args span)
  unfolding call_by_reference
  Keeps-call_by_reference receiver recv view m args span =
      Keeps-bind _ _ (Keeps-reference_binding receiver recv view) (λ r.
        Keeps-bind _ _
          (Keeps-call_method_function machine keeps_expr keeps_block m.body r.0 args span)
          (λ result. Keeps-bind _ _ (Keeps-finish r.1) (λ u. Keeps-return result)))

  Keeps-call_found :
      (kind : Option ReceiverKind) (receiver : TypedExpr) (recv view : Value) (m : RuntimeMethod)
      (args : Values) (span : Span)
      → Keeps (call_found machine kind receiver recv view m args span)
  unfolding call_found
  Keeps-call_found (some ReceiverKind.ref) receiver recv view m args span =
      Keeps-call_by_reference receiver recv view m args span
  Keeps-call_found (some ReceiverKind.ref_mut) receiver recv view m args span =
      Keeps-call_by_reference receiver recv view m args span
  Keeps-call_found (some ReceiverKind.value) receiver recv view m args span =
      Keeps-call_function machine keeps_expr keeps_block (callable m.body) (cons view args) span
  Keeps-call_found none receiver recv view m args span = search keeps_rules

  pub Keeps-call_method :
      (receiver : TypedExpr) (recv : Value) (name : String) (args : Values)
      (dispatch : MethodDispatch) (span : Span)
      → Keeps (call_method machine receiver recv name args dispatch span)
  unfolding call_method
  Keeps-call_method receiver recv name args dispatch span =
      Keeps-bind _ _ (Keeps-deref_value recv span) (λ behind.
        Keeps-bind _ _
          (Keeps-lift (
            method_or_panic (find_method machine.runtime dispatch (value_or behind recv) name)
              span))
          (λ m. Keeps-call_found m.receiver receiver recv (value_or behind recv) m args span))

  pub Keeps-eval_ident : (name : String) (span : Span) → Keeps (eval_ident machine name span)
  unfolding eval_ident
  Keeps-eval_ident name span = search (keeps_rules, Keeps-get_value) depth 8

  Keeps-found_or_variant :
      (segments : List String) (o : Option Value) → Keeps (found_or_variant machine segments o)
  Keeps-found_or_variant segments (some v) = search keeps_rules
  Keeps-found_or_variant segments none = search keeps_rules

  Keeps-global_or_local :
      (segments : List String) (o : Option Value) → Keeps (global_or_local machine segments o)
  Keeps-global_or_local segments (some v) = search keeps_rules
  Keeps-global_or_local segments none =
      search (keeps_rules, Keeps-get_value, Keeps-found_or_variant) depth 8

  pub Keeps-eval_path :
      (segments : List String) (span : Span) → Keeps (eval_path machine segments span)
  unfolding eval_path
  Keeps-eval_path (name ∷ []) span = Keeps-eval_ident name span
  Keeps-eval_path [] span =
      Keeps-global_or_local [] (resolve_path_value machine.rust machine.runtime [])
  Keeps-eval_path (a ∷ b ∷ rest) span =
      Keeps-global_or_local (a ∷ b ∷ rest)
        (resolve_path_value machine.rust machine.runtime (a ∷ b ∷ rest))

  Keeps-short_circuit :
      (b : Bool) (v : Value) (rhs : TypedExpr) → Keeps (short_circuit machine b v rhs)
  unfolding short_circuit
  Keeps-short_circuit true (boolean true) rhs = keeps_expr rhs
  Keeps-short_circuit true (boolean false) rhs = search keeps_rules
  Keeps-short_circuit false (boolean true) rhs = search keeps_rules
  Keeps-short_circuit false (boolean false) rhs = keeps_expr rhs
  Keeps-short_circuit true _ rhs = search keeps_rules
  Keeps-short_circuit false _ rhs = search keeps_rules

  pub Keeps-eval_bin_op :
      (op : BinOp) (lhs rhs : TypedExpr) (span : Span) → Keeps (eval_bin_op machine op lhs rhs span)
  unfolding eval_bin_op
  Keeps-eval_bin_op BinOp.and lhs rhs span = search (keeps_rules, value_kept, Keeps-short_circuit)
  Keeps-eval_bin_op BinOp.or lhs rhs span = search (keeps_rules, value_kept, Keeps-short_circuit)
  Keeps-eval_bin_op _ lhs rhs span = search (keeps_rules, value_kept) depth 8

  Keeps-eval_unary : (op : UnaryOp) (v : Value) (span : Span) → Keeps (eval_unary machine op v span)
  unfolding eval_unary
  Keeps-eval_unary UnaryOp.deref (pointer a) span = search keeps_rules
  Keeps-eval_unary UnaryOp.deref (mut_pointer a) span = search keeps_rules
  Keeps-eval_unary UnaryOp.deref (mut_field_pointer root path) span =
      search (keeps_rules, Keeps-read_path)
  Keeps-eval_unary UnaryOp.neg (int k n) span = search keeps_rules
  Keeps-eval_unary UnaryOp.neg (float k n) span = search keeps_rules
  Keeps-eval_unary UnaryOp.not (boolean b) span = search keeps_rules
  Keeps-eval_unary UnaryOp.deref _ span = search keeps_rules
  Keeps-eval_unary _ v span = search keeps_rules

  Keeps-ref_lvalue :
      (b : Bool) (operand : TypedExpr) (span : Span) → Keeps (ref_lvalue machine b operand span)
  unfolding ref_lvalue
  Keeps-ref_lvalue false operand span = search keeps_rules
  Keeps-ref_lvalue true operand span = search (keeps_rules, value_kept)

  Keeps-eval_ref : (operand : TypedExpr) (span : Span) → Keeps (eval_ref machine operand span)
  unfolding eval_ref
  Keeps-eval_ref (ident name ty ispan) span = search (keeps_rules, Keeps-cell_of)
  Keeps-eval_ref e span = Keeps-ref_lvalue (is_lvalue_path_typed e) e span

  Keeps-ref_mut_lvalue :
      (b : Bool) (operand : TypedExpr) (span : Span) → Keeps (ref_mut_lvalue machine b operand span)
  unfolding ref_mut_lvalue
  Keeps-ref_mut_lvalue false operand span = search keeps_rules
  Keeps-ref_mut_lvalue true operand span =
      Keeps-bind _ _ (Keeps-build_mut_path machine keeps_expr keeps_block operand span)
        (λ r. Keeps-bind _ _ (Keeps-cell_of r.0 span) (λ a. Keeps-return _))

  Keeps-eval_ref_mut :
      (operand : TypedExpr) (span : Span) → Keeps (eval_ref_mut machine operand span)
  unfolding eval_ref_mut
  Keeps-eval_ref_mut (ident name ty ispan) span = search (keeps_rules, Keeps-cell_of)
  Keeps-eval_ref_mut e span = Keeps-ref_mut_lvalue (is_lvalue_path_typed e) e span

  pub Keeps-eval_unary_op :
      (op : UnaryOp) (operand : TypedExpr) (span : Span)
      → Keeps (eval_unary_op machine op operand span)
  unfolding eval_unary_op
  Keeps-eval_unary_op UnaryOp.ref operand span = Keeps-eval_ref operand span
  Keeps-eval_unary_op UnaryOp.ref_mut operand span = Keeps-eval_ref_mut operand span
  Keeps-eval_unary_op _ operand span = search (keeps_rules, value_kept, Keeps-eval_unary)

  Keeps-cast_by :
      (o : Option RuntimeMethod) (v : Value) (span : Span) → Keeps (cast_by machine o v span)
  Keeps-cast_by (some m) v span =
      Keeps-call_function machine keeps_expr keeps_block (callable m.body) (cons v nil) span
  Keeps-cast_by none v span = search keeps_rules

  pub Keeps-cast_value :
      (target : TypeExpr) (v : Value) (span : Span) → Keeps (cast_value machine target v span)
  unfolding cast_value
  Keeps-cast_value target v span = Keeps-cast_by (cast_method machine target v) v span

  pub Keeps-index_value : (v i : Value) (span : Span) → Keeps (index_value machine v i span)
  unfolding index_value
  Keeps-index_value (array a) (int u64 (pos i)) span = search keeps_rules
  Keeps-index_value (array a) _ span = search keeps_rules
  Keeps-index_value _ i span = search keeps_rules

  pub Keeps-access_field :
      (v : Value) (f : String) (span : Span) → Keeps (access_field machine v f span)
  unfolding access_field
  Keeps-access_field v f span = search (keeps_rules, Keeps-deref_value)
