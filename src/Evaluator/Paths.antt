-- ===== src/Evaluator/Paths.antt =====
-- evaluator/mod.rs: `read_path`, `write_path` and `deref_value`, which follow the path of a fat
-- pointer into a value.
pub mod RoundTrip
use metel.Prelude.{
  ℕ, zero, suc, String, List, [], ◌∷◌, Option, some, none, Bool, true, false, ◌==◌, ◌||◌,
  if◌then◌else◌, str_eq,
}
use metel.Error.{Span, RuntimeErrorCode, r0004, r0008}
use metel.Evaluator.Outcome.{Outcome, done, failed, aborted, out_of_fuel}
use metel.Evaluator.Values.{
  Address, PathSegment, Value, Values, ValueFields, field, tuple_index, array_index, tuple, array,
  struct, enum, pointer, mut_pointer, mut_field_pointer, nil, cons, nil_fields, cons_fields,
}
use metel.Evaluator.State.{State, M, ◌>>=◌, ◌>>◌, return, lift, read_cell, read_array, write_array}
use metel.Evaluator.Arith.{panic, internal_failure}

-- `elems.get(i)`
unfoldable pub get_elem? : ℕ → Values → Option Value
get_elem? i nil = none
get_elem? zero (cons v vs) = some v
get_elem? (suc i) (cons v vs) = get_elem? i vs

-- `*elems.get_mut(i)? = new`
unfoldable pub set_elem : ℕ → Value → Values → Values
set_elem i new nil = nil
set_elem zero new (cons v vs) = cons new vs
set_elem (suc i) new (cons v vs) = cons v (set_elem i new vs)

-- `fields.get(name)`
unfoldable pub get_field : String → ValueFields → Option Value
get_field name nil_fields = none
get_field name (cons_fields k v fields) = if str_eq k name then some v else get_field name fields

-- `fields.insert(name, new)`
unfoldable pub set_field : String → Value → ValueFields → ValueFields
set_field name new nil_fields = cons_fields name new nil_fields
set_field name new (cons_fields k v fields) =
    if str_eq k name
    then cons_fields name new fields
    else cons_fields k v (set_field name new fields)

-- `o.ok_or_else(|| MetelError::panic(code, …, span))`
abbrev pub some_or_panic : Option Value → RuntimeErrorCode → Span → Outcome Value
some_or_panic (some v) code span = done v
some_or_panic none code span = panic code span

-- One round of the loop of `read_path`.
unfoldable pub read_segment : PathSegment → Value → Span → M Value
unfolding get_elem? get_field read_array
read_segment (field f) (struct name fields) span =
    lift (some_or_panic (get_field f fields) r0008 span)
read_segment (field f) (enum name variant fields) span =
    lift (some_or_panic (get_field f fields) r0008 span)
read_segment (tuple_index i) (tuple items) span =
    lift (some_or_panic (get_elem? i items) r0008 span)
read_segment (array_index i) (array a) span = do
  items ← read_array a
  lift (some_or_panic (get_elem? i items) r0004 span)
read_segment _ _ span = lift internal_failure

unfoldable pub read_path : Value → List PathSegment → Span → M Value
unfolding read_segment
read_path root [] span = return root
read_path root (segment ∷ path) span = do
  child ← read_segment segment root span
  read_path child path span

abbrev pub is_borrowed : Address → List Address → Bool
is_borrowed a [] = false
is_borrowed a (b ∷ held) = b == a || is_borrowed a held

-- `borrow_mut`, which panics on an array that is borrowed already.
abbrev pub borrow_mut : Address → List Address → M Values
borrow_mut a held = if is_borrowed a held then lift aborted else read_array a

-- The value that the root becomes. The list has the arrays that the calls above have borrowed.
unfoldable pub write_path : List Address → Value → List PathSegment → Value → Span → M Value
unfolding get_elem? set_elem get_field set_field read_array write_array
write_path held root [] new span = return new
write_path held (struct name fields) (field f ∷ path) new span = do
  child ← lift (some_or_panic (get_field f fields) r0008 span)
  child' ← write_path held child path new span
  return (struct name (set_field f child' fields))
write_path held (enum name variant fields) (field f ∷ path) new span = do
  child ← lift (some_or_panic (get_field f fields) r0008 span)
  child' ← write_path held child path new span
  return (enum name variant (set_field f child' fields))
write_path held (tuple items) (tuple_index i ∷ path) new span = do
  child ← lift (some_or_panic (get_elem? i items) r0008 span)
  child' ← write_path held child path new span
  return (tuple (set_elem i child' items))
write_path held (array a) (array_index i ∷ path) new span = do
  items ← borrow_mut a held
  child ← lift (some_or_panic (get_elem? i items) r0004 span)
  child' ← write_path (a ∷ held) child path new span
  write_array a (set_elem i child' items)
  return (array a)
write_path held _ (segment ∷ path) new span = lift internal_failure

unfoldable pub deref_value : Value → Span → M (Option Value)
unfolding read_cell read_path
deref_value (pointer a) span = do v ← read_cell a; return (some v)
deref_value (mut_pointer a) span = do v ← read_cell a; return (some v)
deref_value (mut_field_pointer root path) span = do
  root_value ← read_cell root
  v ← read_path root_value path span
  return (some v)
deref_value _ span = return none

unfoldable pub receiver_cell_from_value : Value → Option Address
receiver_cell_from_value (pointer a) = some a
receiver_cell_from_value (mut_pointer a) = some a
receiver_cell_from_value _ = none
