-- ===== src/Evaluator/Place.antt =====
-- evaluator/lvalue.rs: the places that an assignment writes to, and the walks of evaluator/mod.rs along
-- an expression that names a place.
use metel.Prelude.{
  ℕ, String, List, [], ◌∷◌, ◌++◌, Option, some, none, Bool, true, false, ltb, if◌then◌else◌,
}
use metel.Prelude.Int.{pos}
use metel.Error.{Span, r0003, r0004, r0008}
use metel.Ast.Literals.{i64, u64}
use metel.TypedAst.{
  TypedExpr, TypedPlace, ident_place, deref_place, field_place, index_place, ident, field_access,
  tuple_access, index,
}
use metel.Evaluator.State.{M, ◌>>=◌, return, lift, read_cell, read_array}
use metel.Evaluator.Env.{get_env, get_value, get_rc}
use metel.Evaluator.Outcome.{Outcome, done}
use metel.Evaluator.Arith.{panic, internal_failure}
use metel.Evaluator.Paths.{some_or_panic, get_field, get_elem?}
use metel.Evaluator.Registry.Lookup.{and_then, map_some}
use metel.Evaluator.Machine.{Machine, eval_value}
use metel.Evaluator.Values.{
  Address, PathSegment, field, tuple_index, array_index, Value, Values, ValueFields, int, array,
  struct, enum, pointer, mut_pointer,
}

-- `env.get_rc(name).ok_or_else(…)`
unfoldable pub cell_of : String → Span → M Address
unfolding get_rc
cell_of name span = do
  env ← get_env
  lift (elim (get_rc name env) [ some a ↦ done a | none ↦ panic r0003 span ])

-- `env.get(name).ok_or_else(…)`
unfoldable pub value_of : String → Span → M Value
unfolding get_value
value_of name span = do
  env ← get_env
  found ← get_value name env
  lift (some_or_panic found r0003 span)

-- The cell that a `*mut` pointer in a cell points to, or the cell.
abbrev pub follow_mut : Address → Value → Address
follow_mut cell (mut_pointer inner) = inner
follow_mut cell _ = cell

-- The same, of any pointer.
abbrev pub follow_any : Address → Value → Address
follow_any cell (pointer inner) = inner
follow_any cell (mut_pointer inner) = inner
follow_any cell _ = cell

abbrev pub fields_of : Value → Option ValueFields
fields_of (struct name fields) = some fields
fields_of (enum name variant fields) = some fields
fields_of _ = none

unfoldable pub read_field : Value → String → Span → Outcome Value
unfolding get_field
read_field v name span = elim (fields_of v) [
  | some fields ↦ some_or_panic (get_field name fields) r0008 span
  | none ↦ internal_failure
]

-- An index that an array of 64 bits cannot have is out of bounds.
unfoldable pub index_within : Value → Values → Span → Outcome Value
unfolding get_elem?
index_within (int u64 (pos i)) items span =
    if ltb 9223372036854775807 i
    then panic r0004 span
    else some_or_panic (get_elem? i items) r0004 span
index_within _ items span = internal_failure

unfoldable pub index_array : Value → Value → Span → M Value
unfolding read_array index_within
index_array (array a) i span = do items ← read_array a; lift (index_within i items span)
index_array v i span = lift (not_an_array i)
  where
    not_an_array : Value → Outcome Value
    not_an_array (int u64 (pos i)) =
        if ltb 9223372036854775807 i then panic r0004 span else internal_failure
    not_an_array _ = internal_failure

unfoldable pub is_lvalue_path_typed : TypedExpr → Bool
is_lvalue_path_typed (ident name ty span) = true
is_lvalue_path_typed (field_access object f ty span) = is_lvalue_path_typed object
is_lvalue_path_typed (tuple_access object i ty span) = is_lvalue_path_typed object
is_lvalue_path_typed (index object i ty span) = is_lvalue_path_typed object
is_lvalue_path_typed _ = false

-- `walk_path` of `lvalue_field_cell`: the root and the fields, from the root on.
unfoldable pub walk_path : TypedExpr → Option (String × List String)
walk_path (ident name ty span) = some (name, [])
walk_path (field_access object f ty span) =
    map_some (λ walked. (walked.0, walked.1 ++ f ∷ [])) (walk_path object)
walk_path _ = none

-- The leaf that `lvalue_field_cell` finds; where a part is missing there is none.
unfoldable pub field_at : Value → List String → Option Value
unfolding get_field
field_at v [] = some v
field_at v (name ∷ names) =
    and_then (fields_of v)
      (λ fields. and_then (get_field name fields) (λ child. field_at child names))

-- What a pointer to a cell points to.
unfoldable pub read_pointer : Value → Span → M Value
unfolding read_cell
read_pointer (pointer a) span = read_cell a
read_pointer (mut_pointer a) span = read_cell a
read_pointer _ span = lift (panic r0003 span)

module _ (machine : Machine) where
  -- `walk` of `resolve_field_assign_root`
  unfoldable pub walk : TypedPlace → Span → M (Address × List String)
  unfolding cell_of read_cell eval_value
  walk (ident_place name ident_span) span = do
    cell ← cell_of name ident_span
    v ← read_cell cell
    return (follow_mut cell v, [])
  walk (deref_place object tspan) span = do
    ptr ← eval_value machine object
    lift (elim ptr [ mut_pointer inner ↦ done (inner, []) | _ ↦ panic r0003 tspan ])
  walk (field_place object f fspan) span = do
    (root, path) ← walk object span
    return (root, path ++ f ∷ [])
  walk (index_place object i ispan) span = lift (panic r0003 span)

  unfoldable pub eval_typed_place_value : TypedPlace → M Value
  unfolding value_of eval_value read_pointer read_field index_array
  eval_typed_place_value (ident_place name ident_span) = value_of name ident_span
  eval_typed_place_value (deref_place object tspan) = do
    ptr ← eval_value machine object
    read_pointer ptr tspan
  eval_typed_place_value (field_place object f tspan) = do
    parent ← eval_typed_place_value object
    lift (read_field parent f tspan)
  eval_typed_place_value (index_place object i tspan) = do
    arr ← eval_typed_place_value object
    idx ← eval_value machine i
    index_array arr idx tspan

  -- The index of a `&mut` path.
  abbrev pub path_index : Value → Span → Outcome ℕ
  path_index (int i64 (pos n)) span = done n
  path_index (int u64 (pos n)) span = done n
  path_index _ span = panic r0004 span

  unfoldable pub build_mut_path : TypedExpr → Span → M (String × List PathSegment)
  unfolding eval_value
  build_mut_path (ident name ty ispan) span = return (name, [])
  build_mut_path (field_access object f ty fspan) span = do
    (root, path) ← build_mut_path object span
    return (root, path ++ field f ∷ [])
  build_mut_path (tuple_access object i ty tspan) span = do
    (root, path) ← build_mut_path object span
    return (root, path ++ tuple_index i ∷ [])
  build_mut_path (index object i ty ispan) span = do
    (root, path) ← build_mut_path object span
    idx ← eval_value machine i
    n ← lift (path_index idx span)
    return (root, path ++ array_index n ∷ [])
  build_mut_path _ span = lift internal_failure
