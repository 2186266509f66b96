-- ===== src/Evaluator/Keeps/Heap.antt =====
-- The steps on values and environments that keep the environment.
use metel.Prelude.{ℕ, zero, suc, String, Option, some, none, List, [], ◌∷◌}
use metel.Prelude.Map.{HashMap}
use metel.Evaluator.State.{M}
use metel.Evaluator.Env.{
  clone_with, clone_all, clone_fields, clone_array, deep_clone_value, get_value, read_found,
  set_value, write_found, capture_scope, capture_scopes, capture_clone, define, get_rc, define_cell,
}
use metel.Evaluator.Keeps.{
  Keeps, Keeps-bind, Keeps-return, Keeps-read_cell, Keeps-new_cell, KeepsOuter, keeps_rules,
  KeepsOuter-define_cell,
}
use metel.Evaluator.Values.{
  Address, Environment, Value, Values, ValueFields, tuple, array, struct, enum, nil, cons,
  nil_fields, cons_fields,
}

mutual
  unfolding clone_with

  Keeps-clone_with :
      (f : Address → M Value) → ((a : Address) → Keeps (f a)) → (v : Value) → Keeps (clone_with f v)
  Keeps-clone_with f k (array a) = k a
  Keeps-clone_with f k (tuple items) = search (keeps_rules, Keeps-clone_all f k items)
  Keeps-clone_with f k (struct name fields) = search (keeps_rules, Keeps-clone_fields f k fields)
  Keeps-clone_with f k (enum name variant fields) =
      search (keeps_rules, Keeps-clone_fields f k fields)
  Keeps-clone_with f k _ = search keeps_rules

  Keeps-clone_all :
      (f : Address → M Value)
      → ((a : Address) → Keeps (f a))
      → (vs : Values) → Keeps (clone_all f vs)
  Keeps-clone_all f k nil = search keeps_rules
  Keeps-clone_all f k (cons v vs) =
      search (keeps_rules, Keeps-clone_with f k v, Keeps-clone_all f k vs)

  Keeps-clone_fields :
      (f : Address → M Value)
      → ((a : Address) → Keeps (f a))
      → (fields : ValueFields) → Keeps (clone_fields f fields)
  Keeps-clone_fields f k nil_fields = search keeps_rules
  Keeps-clone_fields f k (cons_fields name v fields) =
      search (keeps_rules, Keeps-clone_with f k v, Keeps-clone_fields f k fields)

Keeps-clone_array : (fuel : ℕ) (a : Address) → Keeps (clone_array fuel a)
unfolding clone_array
Keeps-clone_array zero a = search keeps_rules
Keeps-clone_array (suc fuel) a =
    search (keeps_rules, Keeps-clone_all (clone_array fuel) (Keeps-clone_array fuel))

pub Keeps-deep_clone_value : (fuel : ℕ) (v : Value) → Keeps (deep_clone_value fuel v)
unfolding deep_clone_value
Keeps-deep_clone_value fuel v = Keeps-clone_with (clone_array fuel) (Keeps-clone_array fuel) v

pub Keeps-get_value : (name : String) (env : Environment) → Keeps (get_value name env)
unfolding get_value
Keeps-get_value name env = found (get_rc name env)
  where
    found : (o : Option Address) → Keeps (read_found o)
    found none = search keeps_rules
    found (some a) = search keeps_rules

pub Keeps-set_value :
    (fuel : ℕ) (name : String) (v : Value) (env : Environment) → Keeps (set_value fuel name v env)
unfolding set_value
Keeps-set_value fuel name v env = found (get_rc name env)
  where
    found : (o : Option Address) → Keeps (write_found fuel o v)
    found none = search keeps_rules
    found (some a) = search (keeps_rules, Keeps-deep_clone_value)

Keeps-capture_scope : (fuel : ℕ) (scope : HashMap String Address) → Keeps (capture_scope fuel scope)
unfolding capture_scope
Keeps-capture_scope fuel [] = search keeps_rules
Keeps-capture_scope fuel ((name, cell) ∷ scope) = Keeps-bind _ _ (Keeps-read_cell cell) (λ v.
    Keeps-bind _ _ (Keeps-deep_clone_value fuel v) (λ copy.
      Keeps-bind _ _ (Keeps-new_cell copy) (λ made.
        Keeps-bind _ _ (Keeps-capture_scope fuel scope)
          (λ rest. Keeps-return ((name, made) ∷ rest)))))

Keeps-capture_scopes :
    (fuel : ℕ) (scopes : List (HashMap String Address)) → Keeps (capture_scopes fuel scopes)
unfolding capture_scopes
Keeps-capture_scopes fuel [] = search keeps_rules
Keeps-capture_scopes fuel (scope ∷ scopes) =
    Keeps-bind _ _ (Keeps-capture_scope fuel scope)
      (λ x. Keeps-bind _ _ (Keeps-capture_scopes fuel scopes) (λ y. Keeps-return (x ∷ y)))

pub Keeps-capture_clone : (fuel : ℕ) (env : Environment) → Keeps (capture_clone fuel env)
unfolding capture_clone
Keeps-capture_clone fuel env = search (keeps_rules, Keeps-capture_scopes)

pub KeepsOuter-define : (fuel : ℕ) (name : String) (v : Value) → KeepsOuter (define fuel name v)
unfolding define define_cell
KeepsOuter-define fuel name v =
    search (keeps_rules, Keeps-deep_clone_value, KeepsOuter-define_cell name) depth 12
