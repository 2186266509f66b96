-- ===== src/Evaluator/Assign.antt =====
-- evaluator/mod.rs: the arm of `eval_expr` for assignments.
use metel.Prelude.{ℕ, String, List, [], ◌∷◌, Bool, true, false}
use metel.Prelude.Int.{pos}
use metel.Error.{Span, r0003, r0004, r0008}
use metel.Ast.Literals.{u64, AssignOp}
use metel.TypedAst.{TypedPlace, ident_place, deref_place, field_place, index_place}
use metel.Evaluator.Outcome.{Outcome, done, ◌>>=◌ as chain}
use metel.Evaluator.State.{
  M, ◌>>=◌, ◌>>◌, return, lift, read_cell, write_cell, read_array, write_array,
}
use metel.Evaluator.Env.{get_env, set_value}
use metel.Evaluator.Arith.{panic, internal_failure, apply_assign_op}
use metel.Evaluator.Paths.{
  some_or_panic, get_field, set_field, get_elem?, set_elem, read_path, write_path,
}
use metel.Evaluator.Place.{value_of, walk, eval_typed_place_value}
use metel.Evaluator.Machine.{Machine, eval_value}
use metel.Evaluator.Values.{
  Address, PathSegment, Value, ValueFields, int, array, struct, enum, unit, pointer, mut_pointer,
  mut_field_pointer, Signal, value,
}

module _ (machine : Machine) where
  -- The value to store: the right side, or the operation on what is there, which is read only then.
  unfoldable pub new_value : AssignOp → M Value → Value → Span → M Value
  unfolding apply_assign_op
  new_value AssignOp.assign current rhs span = return rhs
  new_value op current rhs span = do
    cur ← current
    lift (apply_assign_op machine.rust op cur rhs span)

  abbrev pub unit_or_panic : Bool → Span → M Signal
  unit_or_panic true span = return (value unit)
  unit_or_panic false span = lift (panic r0003 span)

  unfoldable pub assign_ident : String → Span → AssignOp → Value → Span → M Signal
  unfolding new_value value_of set_value
  assign_ident name ident_span op rhs span = do
    new ← new_value op (value_of name ident_span) rhs span
    env ← get_env
    written ← set_value machine.fuel name new env
    unit_or_panic written ident_span

  unfoldable pub assign_cell : Address → AssignOp → Value → Span → M Signal
  unfolding new_value read_cell write_cell
  assign_cell a op rhs span = do
    new ← new_value op (read_cell a) rhs span
    write_cell a new
    return (value unit)

  unfoldable pub read_cell_path : Address → List PathSegment → Span → M Value
  unfolding read_cell read_path
  read_cell_path root path span = do v ← read_cell root; read_path v path span

  unfoldable pub assign_path :
      Address → List PathSegment → Span → AssignOp → Value → Span → M Signal
  unfolding new_value read_cell_path read_cell write_path write_cell
  assign_path root path tspan op rhs span = do
    new ← new_value op (read_cell_path root path tspan) rhs span
    v ← read_cell root
    v' ← write_path [] v path new tspan
    write_cell root v'
    return (value unit)

  unfoldable pub assign_pointer : Value → Span → AssignOp → Value → Span → M Signal
  unfolding assign_cell assign_path
  assign_pointer (pointer a) tspan op rhs span = assign_cell a op rhs span
  assign_pointer (mut_pointer a) tspan op rhs span = assign_cell a op rhs span
  assign_pointer (mut_field_pointer root path) tspan op rhs span =
      assign_path root path tspan op rhs span
  assign_pointer _ tspan op rhs span = lift (panic r0003 tspan)

  -- The element is there, so the write cannot fail.
  unfoldable pub assign_element : Address → ℕ → AssignOp → Value → Span → M Signal
  unfolding new_value read_array write_array get_elem? set_elem
  assign_element a i op rhs span = do
    items ← read_array a
    cur ← lift (some_or_panic (get_elem? i items) r0004 span)
    new ← new_value op (return cur) rhs span
    write_array a (set_elem i new items)
    return (value unit)

  unfoldable pub assign_index : Value → Value → AssignOp → Value → Span → M Signal
  unfolding assign_element
  assign_index (array a) (int u64 (pos i)) op rhs span = assign_element a i op rhs span
  assign_index arr idx op rhs span = lift internal_failure

  unfoldable pub new_field : AssignOp → ValueFields → String → Value → Span → Span → Outcome Value
  unfolding get_field apply_assign_op
  new_field AssignOp.assign fields leaf rhs span tspan = done rhs
  new_field op fields leaf rhs span tspan =
      chain (some_or_panic (get_field leaf fields) r0008 tspan)
        (λ cur. apply_assign_op machine.rust op cur rhs span)

  -- The value that the root becomes, with the field at the end of the path assigned.
  unfoldable pub assign_in : List String → AssignOp → Value → Span → Span → Value → Outcome Value
  unfolding new_field get_field set_field
  assign_in (leaf ∷ []) op rhs span tspan (struct name fields) =
      chain (new_field op fields leaf rhs span tspan)
        (λ new. done (struct name (set_field leaf new fields)))
  assign_in (leaf ∷ []) op rhs span tspan (enum name variant fields) =
      chain (new_field op fields leaf rhs span tspan)
        (λ new. done (enum name variant (set_field leaf new fields)))
  assign_in (segment ∷ next ∷ path) op rhs span tspan (struct name fields) =
      chain (some_or_panic (get_field segment fields) r0008 tspan) (λ child.
        chain (assign_in (next ∷ path) op rhs span tspan child)
          (λ child'. done (struct name (set_field segment child' fields))))
  assign_in (segment ∷ next ∷ path) op rhs span tspan (enum name variant fields) =
      chain (some_or_panic (get_field segment fields) r0008 tspan) (λ child.
        chain (assign_in (next ∷ path) op rhs span tspan child)
          (λ child'. done (enum name variant (set_field segment child' fields))))
  assign_in _ op rhs span tspan v = internal_failure

  unfoldable pub assign_field : Address → List String → AssignOp → Value → Span → Span → M Signal
  unfolding read_cell write_cell assign_in
  assign_field root path op rhs span tspan = do
    v ← read_cell root
    v' ← lift (assign_in path op rhs span tspan v)
    write_cell root v'
    return (value unit)

  unfoldable pub eval_assign : TypedPlace → AssignOp → Value → Span → M Signal
  unfolding eval_value assign_ident assign_pointer assign_index assign_field eval_typed_place_value
      walk
  eval_assign (ident_place name ident_span) op rhs span = assign_ident name ident_span op rhs span
  eval_assign (deref_place object tspan) op rhs span = do
    ptr ← eval_value machine object
    assign_pointer ptr tspan op rhs span
  eval_assign (index_place object i ispan) op rhs span = do
    arr ← eval_typed_place_value machine object
    idx ← eval_value machine i
    assign_index arr idx op rhs span
  eval_assign (field_place object f tspan) op rhs span = do
    (root, path) ← walk machine (field_place object f tspan) tspan
    assign_field root path op rhs span tspan
