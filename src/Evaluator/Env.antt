-- ===== src/Evaluator/Env.antt =====
-- evaluator/mod.rs: `deep_clone_value` and `Environment`.
pub mod Cells
pub mod Capture
use metel.Prelude.{
  ℕ, zero, suc, String, List, [], ◌∷◌, Option, some, none, Bool, true, false, string_eq,
}
use metel.Prelude.Map.{HashMap, get, insert, or_else}
use metel.Evaluator.Outcome.{Outcome, done, aborted, out_of_fuel}
use metel.Evaluator.Values.{
  Address, Environment, Value, Values, ValueFields, tuple, array, struct, enum, nil, cons,
  nil_fields, cons_fields,
}
use metel.Evaluator.State.{
  M, ◌>>=◌, ◌>>◌, return, read_cell, write_cell, new_cell, read_array, new_array, lift,
}

-- The walk of `deep_clone_value`, with what it does at an array as an argument.
unfoldable mutual
  pub clone_with : (Address → M Value) → Value → M Value
  clone_with f (array a) = f a
  clone_with f (tuple items) = do items' ← clone_all f items; return (tuple items')
  clone_with f (struct name fields) = do
    fields' ← clone_fields f fields
    return (struct name fields')
  clone_with f (enum name variant fields) = do
    fields' ← clone_fields f fields
    return (enum name variant fields')
  clone_with f v = return v

  pub clone_all : (Address → M Value) → Values → M Values
  clone_all f nil = return nil
  clone_all f (cons v vs) = do v' ← clone_with f v; vs' ← clone_all f vs; return (cons v' vs')

  pub clone_fields : (Address → M Value) → ValueFields → M ValueFields
  clone_fields f nil_fields = return nil_fields
  clone_fields f (cons_fields k v fields) = do
    v' ← clone_with f v
    fields' ← clone_fields f fields
    return (cons_fields k v' fields')

-- An array is copied with its elements, to the depth of the fuel.
unfoldable pub clone_array : ℕ → Address → M Value
unfolding clone_all read_array new_array
clone_array zero a = λ s. out_of_fuel
clone_array (suc fuel) a = do
  items ← read_array a
  items' ← clone_all (clone_array fuel) items
  b ← new_array items'
  return (array b)

unfoldable pub deep_clone_value : ℕ → Value → M Value
unfolding clone_with clone_array
deep_clone_value fuel v = clone_with (clone_array fuel) v

abbrev pub get_env : M Environment
get_env s = done (s.env, s)

abbrev pub set_env : Environment → M (Unit {0})
set_env env s = done (tt, record s { env = env })

abbrev pub with_scopes : Environment → List (HashMap String Address) → Environment
with_scopes env scopes = record env { scopes = scopes }

unfoldable pub push_scope : Environment → Environment
push_scope env = with_scopes env ([] ∷ env.scopes)

abbrev pub drop_innermost : List (HashMap String Address) → List (HashMap String Address)
drop_innermost [] = []
drop_innermost (scope ∷ scopes) = scopes

unfoldable pub pop_scope : Environment → Environment
pop_scope env = with_scopes env (drop_innermost env.scopes)

-- `last_mut().unwrap().insert(name, cell)`, which panics where there is no scope.
abbrev pub insert_innermost :
    String → Address → List (HashMap String Address) → Option (List (HashMap String Address))
insert_innermost name cell [] = none
insert_innermost name cell (scope ∷ scopes) = some (insert name cell scope ∷ scopes)

abbrev pub bind_innermost :
    Environment → Option (List (HashMap String Address)) → Outcome Environment
bind_innermost env none = aborted
bind_innermost env (some scopes) = done (with_scopes env scopes)

unfoldable pub define_rc : String → Address → Environment → Outcome Environment
unfolding insert
define_rc name cell env = bind_innermost env (insert_innermost name cell env.scopes)

-- `iter().rev()`, the first scope that has the name.
unfoldable pub find_cell : String → List (HashMap String Address) → Option Address
unfolding get
find_cell name [] = none
find_cell name (scope ∷ scopes) = or_else (get name scope) (find_cell name scopes)

unfoldable pub get_rc : String → Environment → Option Address
unfolding find_cell
get_rc name env = find_cell name env.scopes

abbrev pub read_found : Option Address → M (Option Value)
read_found none = return none
read_found (some a) = do v ← read_cell a; return (some v)

unfoldable pub get_value : String → Environment → M (Option Value)
unfolding get_rc read_cell
get_value name env = read_found (get_rc name env)

abbrev pub write_found : ℕ → Option Address → Value → M Bool
write_found fuel none v = return false
write_found fuel (some a) v = do copy ← deep_clone_value fuel v; write_cell a copy; return true

-- `Environment::set`
unfoldable pub set_value : ℕ → String → Value → Environment → M Bool
unfolding get_rc deep_clone_value write_cell
set_value fuel name v env = write_found fuel (get_rc name env) v

unfoldable pub capture_scope : ℕ → HashMap String Address → M (HashMap String Address)
unfolding read_cell deep_clone_value new_cell
capture_scope fuel [] = return []
capture_scope fuel ((name, cell) ∷ scope) = do
  v ← read_cell cell
  copy ← deep_clone_value fuel v
  cell' ← new_cell copy
  scope' ← capture_scope fuel scope
  return ((name, cell') ∷ scope')

unfoldable pub capture_scopes :
    ℕ → List (HashMap String Address) → M (List (HashMap String Address))
unfolding capture_scope
capture_scopes fuel [] = return []
capture_scopes fuel (scope ∷ scopes) = do
  scope' ← capture_scope fuel scope
  scopes' ← capture_scopes fuel scopes
  return (scope' ∷ scopes')

unfoldable pub capture_clone : ℕ → Environment → M Environment
unfolding capture_scopes
capture_clone fuel env = do scopes ← capture_scopes fuel env.scopes; return (with_scopes env scopes)

-- The current environment's `define`.
unfoldable pub define : ℕ → String → Value → M (Unit {0})
unfolding deep_clone_value new_cell define_rc
define fuel name v = do
  copy ← deep_clone_value fuel v
  cell ← new_cell copy
  env ← get_env
  env' ← lift (define_rc name cell env)
  set_env env'

-- The current environment's `define_rc`.
unfoldable pub define_cell : String → Address → M (Unit {0})
unfolding define_rc
define_cell name cell = do env ← get_env; env' ← lift (define_rc name cell env); set_env env'
