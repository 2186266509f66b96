-- ===== src/Evaluator/Method.antt =====
-- evaluator/mod.rs: the arm of `eval_expr` for method calls.
use metel.Prelude.{String, List, [], ◌∷◌, Option, some, none}
use metel.Prelude.Map.{or_else}
use metel.Error.{Span, r0009}
use metel.Ast.Types.{ReceiverKind}
use metel.TypedAst.{TypedExpr, ident, field_access, MethodDispatch, dynamic, inherent, aspect}
use metel.Evaluator.Outcome.{Outcome, done, aborted, ◌>>=◌ as chain}
use metel.Evaluator.State.{M, ◌>>=◌, ◌>>◌, return, lift, read_cell, write_cell, new_cell}
use metel.Evaluator.Env.{get_env, get_rc}
use metel.Evaluator.Arith.{panic}
use metel.Evaluator.Paths.{get_field, set_field, deref_value, receiver_cell_from_value}
use metel.Evaluator.Registry.{RuntimeRegistry, RuntimeMethod}
use metel.Evaluator.Registry.Lookup.{
  and_then, runtime_type_name, get_aspect_method_by_id, get_method_for_value,
}
use metel.Evaluator.Place.{walk_path, field_at, follow_any}
use metel.Evaluator.Call.{ReceiverBinding, by_value, shared, call_function, call_method_function}
use metel.Evaluator.Machine.{Machine}
use metel.Evaluator.Values.{Address, Value, Values, struct, enum, callable, cons, Signal}

-- The struct's cell, the path of the field and the cell of the copy.
abbrev pub FieldWriteback : Type 0
FieldWriteback = Address × List String × Address

unfoldable pub find_method :
    RuntimeRegistry → MethodDispatch → Value → String → Option RuntimeMethod
unfolding runtime_type_name get_aspect_method_by_id get_method_for_value
find_method registry (aspect aspect_id) v name =
    or_else
      (and_then (runtime_type_name v)
        (λ type_name. get_aspect_method_by_id registry type_name aspect_id name))
      (get_method_for_value registry v name)
find_method registry inherent v name = get_method_for_value registry v name
find_method registry dynamic v name = get_method_for_value registry v name

abbrev pub method_or_panic : Option RuntimeMethod → Span → Outcome RuntimeMethod
method_or_panic (some m) span = done m
method_or_panic none span = panic r0009 span

abbrev pub copy_leaf : Address → List String → Option Value → M (Option FieldWriteback)
copy_leaf struct_cell path none = return none
copy_leaf struct_cell path (some leaf) = do
  leaf_cell ← new_cell leaf
  return (some (struct_cell, path, leaf_cell))

abbrev pub leaf_of_root : List String → Option Address → M (Option FieldWriteback)
leaf_of_root path none = return none
leaf_of_root path (some root_cell) = do
  root ← read_cell root_cell
  v ← read_cell (follow_any root_cell root)
  copy_leaf (follow_any root_cell root) path (field_at v path)

unfoldable pub leaf_of_path : Option (String × List String) → M (Option FieldWriteback)
unfolding get_rc
leaf_of_path none = return none
leaf_of_path (some (root, path)) = do env ← get_env; leaf_of_root path (get_rc root env)

unfoldable pub lvalue_field_cell : TypedExpr → M (Option FieldWriteback)
unfolding walk_path leaf_of_path
lvalue_field_cell receiver = leaf_of_path (walk_path receiver)

-- The root with the field replaced. A part on the way that is gone makes `unwrap` panic, one that has
-- no fields ends the walk, and nothing is written.
unfoldable pub write_back : Value → List String → Value → Outcome Value
unfolding get_field set_field
write_back (struct name fields) (last ∷ []) new = done (struct name (set_field last new fields))
write_back (enum name variant fields) (last ∷ []) new =
    done (enum name variant (set_field last new fields))
write_back (struct name fields) (segment ∷ next ∷ path) new = elim (get_field segment fields) [
  | none ↦ aborted
  | some child ↦
      chain (write_back child (next ∷ path) new)
        (λ child'. done (struct name (set_field segment child' fields)))
]
write_back (enum name variant fields) (segment ∷ next ∷ path) new =
    elim (get_field segment fields) [
      | none ↦ aborted
      | some child ↦
          chain (write_back child (next ∷ path) new)
            (λ child'. done (enum name variant (set_field segment child' fields)))
    ]
write_back v path new = done v

unfoldable pub finish : Option FieldWriteback → M (Unit {0})
unfolding read_cell write_back write_cell
finish none = return tt
finish (some (struct_cell, path, leaf_cell)) = do
  new ← read_cell leaf_cell
  v ← read_cell struct_cell
  v' ← lift (write_back v path new)
  write_cell struct_cell v'

abbrev pub shared_or_value : Option Address → Value → ReceiverBinding
shared_or_value (some a) v = shared a
shared_or_value none v = by_value v

abbrev pub no_writeback : ReceiverBinding → ReceiverBinding × Option FieldWriteback
no_writeback binding = (binding, none)

abbrev pub bind_leaf :
    Value → Value → Option FieldWriteback → ReceiverBinding × Option FieldWriteback
bind_leaf recv view none = (shared_or_value (receiver_cell_from_value recv) view, none)
bind_leaf recv view (some (struct_cell, path, leaf_cell)) =
    (shared leaf_cell, some (struct_cell, path, leaf_cell))

abbrev pub bind_cell : Value → Option Address → M (ReceiverBinding × Option FieldWriteback)
bind_cell view none = return (no_writeback (by_value view))
bind_cell view (some cell) = do
  v ← read_cell cell
  return (no_writeback (shared (follow_any cell v)))

-- What a receiver by reference is bound to, from the receiver, its value and the value behind it.
unfoldable pub reference_binding :
    TypedExpr → Value → Value → M (ReceiverBinding × Option FieldWriteback)
unfolding get_rc read_cell lvalue_field_cell receiver_cell_from_value
reference_binding (ident name ty span) recv view = do
  env ← get_env
  bind_cell view (get_rc name env)
reference_binding (field_access object f ty span) recv view = do
  leaf ← lvalue_field_cell (field_access object f ty span)
  return (bind_leaf recv view leaf)
reference_binding _ recv view =
    return (no_writeback (shared_or_value (receiver_cell_from_value recv) view))

abbrev pub value_or : Option Value → Value → Value
value_or (some v) d = v
value_or none d = d

module _ (machine : Machine) where
  unfoldable pub call_by_reference :
      TypedExpr → Value → Value → RuntimeMethod → Values → Span → M Signal
  unfolding reference_binding call_method_function finish
  call_by_reference receiver recv view m args span = do
    (binding, writeback) ← reference_binding receiver recv view
    result ← call_method_function machine m.body binding args span
    finish writeback
    return result

  -- The call of a method whose receiver is of the kind.
  unfoldable pub call_found :
      Option ReceiverKind → TypedExpr → Value → Value → RuntimeMethod → Values → Span → M Signal
  unfolding call_by_reference call_function
  call_found (some ReceiverKind.ref) receiver recv view m args span =
      call_by_reference receiver recv view m args span
  call_found (some ReceiverKind.ref_mut) receiver recv view m args span =
      call_by_reference receiver recv view m args span
  call_found (some ReceiverKind.value) receiver recv view m args span =
      call_function machine (callable m.body) (cons view args) span
  call_found none receiver recv view m args span = lift (panic r0009 span)

  unfoldable pub call_method :
      TypedExpr → Value → String → Values → MethodDispatch → Span → M Signal
  unfolding deref_value find_method call_found
  call_method receiver recv name args dispatch span = do
    behind ← deref_value recv span
    let view = value_or behind recv
    m ← lift (method_or_panic (find_method machine.runtime dispatch view name) span)
    call_found m.receiver receiver recv view m args span
