-- ===== src/Prelude/Map.antt =====
-- A `HashMap` as an association list, with the operations that the program calls.
use mathlib.Core.Path.{◌≡◌, refl}
use mathlib.Core.Bool.{Bool, true, false}
use mathlib.Core.List.{List, [], ◌∷◌}
use mathlib.Core.Option.{Option, none, some}
use native.Mathlib.Omega.{arith}
use metel.Prelude.Tests.{if◌then◌else◌}
use metel.Prelude.Eq.{Eq}

abbrev pub HashMap {ℓ κ} : Type ℓ → Type κ → Type (ℓ ⊔ κ)
HashMap K V = List (K × V)

abbrev pub or_else {ℓ} : {A : Type ℓ} → Option A → Option A → Option A
or_else (some v) o = some v
or_else none o = o

module _ {ℓ κ} {K : Type ℓ} {V : Type κ} ⦃e : Eq K⦄ where
  unfoldable pub get : K → HashMap K V → Option V
  get k [] = none
  get k ((j, v) ∷ m) = if e.beq j k then some v else get k m

  unfoldable pub insert : K → V → HashMap K V → HashMap K V
  insert k v [] = (k, v) ∷ []
  insert k v ((j, w) ∷ m) = if e.beq j k then (k, v) ∷ m else (j, w) ∷ insert k v m

  -- `entry(k).or_insert(v)`
  unfoldable pub or_insert : K → V → HashMap K V → HashMap K V
  or_insert k v m = elim (get k m) [ some _ ↦ m | none ↦ insert k v m ]

  unfoldable pub contains_key : K → HashMap K V → Bool
  contains_key k m = elim (get k m) [ some _ ↦ true | none ↦ false ]

  unfoldable pub remove : K → HashMap K V → HashMap K V
  remove k [] = []
  remove k ((j, w) ∷ m) = if e.beq j k then remove k m else (j, w) ∷ remove k m

  -- The loop `for (k, v) in from { into.entry(k).or_insert(v) }`.
  unfoldable pub merge : HashMap K V → HashMap K V → HashMap K V
  merge into [] = into
  merge into ((k, v) ∷ from) = merge (or_insert k v into) from

  pub get-insert :
      (k j : K) (v : V) (m : HashMap K V)
      → get j (insert k v m) ≡ (if e.beq k j then some v else get j m)
  unfolding get insert
  get-insert k j v [] = refl
  get-insert k j v ((i, w) ∷ m) =
      ground (arith, e.beq_iff k j, e.beq_iff i k, e.beq_iff i j, get-insert k j v m)

  pub get-insert_self : (k : K) (v : V) (m : HashMap K V) → get k (insert k v m) ≡ some v
  get-insert_self k v m = ground (arith, get-insert k k v m, e.beq_iff k k)

  pub get-remove :
      (k j : K) (m : HashMap K V) → get j (remove k m) ≡ (if e.beq k j then none else get j m)
  unfolding get remove
  get-remove k j [] = ground arith
  get-remove k j ((i, w) ∷ m) =
      ground (arith, e.beq_iff k j, e.beq_iff i k, e.beq_iff i j, get-remove k j m)

  pub get-or_insert :
      (k j : K) (v : V) (m : HashMap K V)
      → get j (or_insert k v m) ≡ or_else (get j m) (if e.beq k j then some v else none)
  unfolding or_insert
  get-or_insert k j v m = ground (arith, get-insert k j v m, e.beq_iff k j)

  -- A merge keeps what is there and adds what is missing.
  pub get-merge :
      (j : K) (into from : HashMap K V)
      → get j (merge into from) ≡ or_else (get j into) (get j from)
  unfolding merge get
  get-merge j into [] = ground arith
  get-merge j into ((k, v) ∷ from) =
      ground (arith, get-merge j (or_insert k v into) from, get-or_insert k j v into)
