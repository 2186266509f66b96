-- ===== src/Evaluator/Env/Cells.antt =====
-- evaluator/mod.rs: `deep_clone_value` and the allocation of a cell, and the cells that are there.
use metel.Prelude.{ℕ, zero, suc, ◌≡◌, refl, ◌∙◌, ap, ◌≤◌, ◌<◌, arith, string_eq}
use metel.Evaluator.Outcome.{done, out_of_fuel}
use metel.Evaluator.State.{
  State, M, ◌>>=◌, return, read_cell, new_cell, read_array, new_array, update,
}
use metel.Evaluator.Env.{clone_with, clone_all, clone_fields, clone_array, deep_clone_value}
use metel.Evaluator.Returns.{bind-done, done-parts}
use metel.Evaluator.Values.{
  Address, Value, Values, ValueFields, tuple, array, struct, enum, nil, cons, nil_fields,
  cons_fields,
}

-- The cells and their counter are as they were.
pub record KeepsCells {A : Type 0} (m : M A) : Type 0 where
  pub at :
      (s t : State) (a : A) → m s ≡ done (a, t) → (s.cells ≡ t.cells) × (s.next_cell ≡ t.next_cell)

cells_kept :
    {A : Type 0} (a b : A) (s s' t : State)
    → s.cells ≡ s'.cells
    → s.next_cell ≡ s'.next_cell
    → return a s' ≡ return b t
    → (s.cells ≡ t.cells) × (s.next_cell ≡ t.next_cell)
cells_kept a b s s' t e f h =
    let same = (done-parts h).1 in (e ∙ ap (λ u. u.cells) same, f ∙ ap (λ u. u.next_cell) same)

module _ {A : Type 0} where
  KeepsCells-return : (a : A) → KeepsCells (return a)
  KeepsCells-return a = record { at = λ s t b h. cells_kept a b s s t refl refl h }

  KeepsCells-out_of_fuel : KeepsCells {A = A} (λ s. out_of_fuel)
  KeepsCells-out_of_fuel = record { at = λ s t a h. absurd cc }

KeepsCells-bind :
    {A B : Type 0} (m : M A) (f : A → M B)
    → KeepsCells m
    → ((a : A) → KeepsCells (f a))
    → KeepsCells (m >>= f)
KeepsCells-bind m f km kf = record {
  at = λ s t b h.
      let (a, u, first, rest) = bind-done m f s (b, t) h in
      let (e, g) = km.at s u a first in let (e', g') = (kf a).at u t b rest in (e ∙ e', g ∙ g');
}

KeepsCells-read_array : (a : Address) → KeepsCells (read_array a)
unfolding read_array
KeepsCells-read_array a = record { at = λ s t v h. cells_kept (s.arrays a) v s s t refl refl h }

KeepsCells-new_array : (vs : Values) → KeepsCells (new_array vs)
unfolding new_array
KeepsCells-new_array vs = record { at = λ s t v h. cells_kept s.next_array v s _ t refl refl h }

ruleset cells_rules = (
  KeepsCells-return, KeepsCells-bind, KeepsCells-out_of_fuel, KeepsCells-read_array,
  KeepsCells-new_array,
)

mutual
  unfolding clone_with

  KeepsCells-clone_with :
      (f : Address → M Value)
      → ((a : Address) → KeepsCells (f a))
      → (v : Value) → KeepsCells (clone_with f v)
  KeepsCells-clone_with f k (array a) = k a
  KeepsCells-clone_with f k (tuple items) = search (cells_rules, KeepsCells-clone_all f k items)
  KeepsCells-clone_with f k (struct name fields) =
      search (cells_rules, KeepsCells-clone_fields f k fields)
  KeepsCells-clone_with f k (enum name variant fields) =
      search (cells_rules, KeepsCells-clone_fields f k fields)
  KeepsCells-clone_with f k _ = search cells_rules

  KeepsCells-clone_all :
      (f : Address → M Value)
      → ((a : Address) → KeepsCells (f a))
      → (vs : Values) → KeepsCells (clone_all f vs)
  KeepsCells-clone_all f k nil = search cells_rules
  KeepsCells-clone_all f k (cons v vs) =
      search (cells_rules, KeepsCells-clone_with f k v, KeepsCells-clone_all f k vs)

  KeepsCells-clone_fields :
      (f : Address → M Value)
      → ((a : Address) → KeepsCells (f a))
      → (fields : ValueFields) → KeepsCells (clone_fields f fields)
  KeepsCells-clone_fields f k nil_fields = search cells_rules
  KeepsCells-clone_fields f k (cons_fields name v fields) =
      search (cells_rules, KeepsCells-clone_with f k v, KeepsCells-clone_fields f k fields)

KeepsCells-clone_array : (fuel : ℕ) (a : Address) → KeepsCells (clone_array fuel a)
unfolding clone_array
KeepsCells-clone_array zero a = search cells_rules
KeepsCells-clone_array (suc fuel) a =
    search (cells_rules, KeepsCells-clone_all (clone_array fuel) (KeepsCells-clone_array fuel))

pub KeepsCells-deep_clone_value : (fuel : ℕ) (v : Value) → KeepsCells (deep_clone_value fuel v)
unfolding deep_clone_value
KeepsCells-deep_clone_value fuel v =
    KeepsCells-clone_with (clone_array fuel) (KeepsCells-clone_array fuel) v

-- The cells that were there are as they were.
pub record Extends (s t : State) : Type 0 where
  pub grows : s.next_cell ≤ t.next_cell
  pub old : (b : Address) → b < s.next_cell → s.cells b ≡ t.cells b

pub Extends-refl : (s : State) → Extends s s
Extends-refl s = record { grows = omega arith; old = λ b l. refl }

pub Extends-trans : (s t u : State) → Extends s t → Extends t u → Extends s u
Extends-trans s t u e f = record {
  grows = omega (arith, e.grows, f.grows);
  old = λ b l. e.old b l ∙ f.old b (omega (arith, e.grows));
}

pub Extends-same : (s t : State) → (s.cells ≡ t.cells) × (s.next_cell ≡ t.next_cell) → Extends s t
Extends-same s t (e, g) = record { grows = omega (arith, g); old = λ b l. ap (λ f. f b) e }

pub new_cell-Extends :
    (v : Value) (s t : State) (a : Address)
    → new_cell v s ≡ done (a, t)
    → Extends s t × (s.next_cell ≡ a)
unfolding new_cell
new_cell-Extends v s t a h =
    let (at, same) = done-parts {a = s.next_cell} h in
    (
      record {
        grows = omega (arith, ap (λ u. u.next_cell) same);
        old = λ b l. untouched b l ∙ ap (λ u. u.cells b) same;
      },
      at,
    )
  where
    untouched : (b : Address) → b < s.next_cell → s.cells b ≡ update s.cells s.next_cell v b
    untouched b l = ground (arith, l)

pub KeepsCells-read_cell : (a : Address) → KeepsCells (read_cell a)
unfolding read_cell
KeepsCells-read_cell a = record { at = λ s t v h. cells_kept (s.cells a) v s s t refl refl h }
