-- ===== src/Prelude/Sets.antt =====
-- A `HashSet` of numbers as a list without repetitions, and sorted lists of numbers.
use Prim.Native.Nat.{ℕ, ◌≤◌}
use mathlib.Core.Path.{◌≡◌, refl}
use mathlib.Core.Bool.{Bool, true, false}
use mathlib.Core.Logic.{inl, inr}
use mathlib.Core.List.{List, [], ◌∷◌}
use native.Mathlib.Omega.{arith}
use metel.Prelude.Tests.{if◌then◌else◌, ◌==◌, ==_iff, ltb, Bool-cases}

unfoldable pub contains : ℕ → List ℕ → Bool
contains a [] = false
contains a (x ∷ xs) = if x == a then true else contains a xs

unfoldable pub set_insert : ℕ → List ℕ → List ℕ
unfolding contains
set_insert a xs = if contains a xs then xs else a ∷ xs

-- `xs.extend(ys)`
unfoldable pub extend : List ℕ → List ℕ → List ℕ
unfolding set_insert
extend xs [] = xs
extend xs (y ∷ ys) = extend (set_insert y xs) ys

unfoldable pub difference : List ℕ → List ℕ → List ℕ
difference [] ys = []
difference (x ∷ xs) ys = if contains x ys then difference xs ys else x ∷ difference xs ys

unfoldable pub insert_sorted : ℕ → List ℕ → List ℕ
insert_sorted a [] = a ∷ []
insert_sorted a (x ∷ xs) = if ltb x a then x ∷ insert_sorted a xs else a ∷ x ∷ xs

unfoldable pub sort : List ℕ → List ℕ
unfolding insert_sorted
sort [] = []
sort (x ∷ xs) = insert_sorted x (sort xs)

pub contains-set_insert :
    (a b : ℕ) (xs : List ℕ)
    → contains b (set_insert a xs) ≡ (if a == b then true else contains b xs)
unfolding set_insert contains
contains-set_insert a b xs = elim (Bool-cases (contains a xs)) [
  | inl e ↦ elim (Bool-cases (a == b)) [
    | inl f ↦ rw (e, f) (rw (← (==_iff a b).0 f) e)
    | inr f ↦ rw (e, f)
  ]
  | inr e ↦ rw e
]

pub contains-extend :
    (b : ℕ) (xs ys : List ℕ)
    → contains b (extend xs ys) ≡ (if contains b ys then true else contains b xs)
unfolding extend contains
contains-extend b xs [] = refl
contains-extend b xs (y ∷ ys) =
    ground (arith, contains-extend b (set_insert y xs) ys, contains-set_insert y b xs)

pub contains-difference :
    (b : ℕ) (xs ys : List ℕ)
    → contains b (difference xs ys) ≡ (if contains b ys then false else contains b xs)
unfolding difference contains
contains-difference b [] ys = ground arith
contains-difference b (x ∷ xs) ys = elim (Bool-cases (x == b)) [
  | inl e ↦ rw ((==_iff x b).0 e) (ground (arith, contains-difference b xs ys, ==_iff b b))
  | inr e ↦ ground (arith, contains-difference b xs ys)
]

pub contains-insert_sorted :
    (a b : ℕ) (xs : List ℕ)
    → contains b (insert_sorted a xs) ≡ (if a == b then true else contains b xs)
unfolding insert_sorted contains
contains-insert_sorted a b [] = refl
contains-insert_sorted a b (x ∷ xs) = ground (arith, contains-insert_sorted a b xs)

pub contains-sort : (b : ℕ) (xs : List ℕ) → contains b (sort xs) ≡ contains b xs
unfolding sort contains
contains-sort b [] = refl
contains-sort b (x ∷ xs) = ground (arith, contains-insert_sorted x b (sort xs), contains-sort b xs)

-- Every element is below all that follow it.
abbrev pub AllAbove : ℕ → List ℕ → Type 0
AllAbove a [] = Unit
AllAbove a (x ∷ xs) = (a ≤ x) × AllAbove a xs

abbrev pub IsSorted : List ℕ → Type 0
IsSorted [] = Unit
IsSorted (x ∷ xs) = AllAbove x xs × IsSorted xs

AllAbove-trans : (a b : ℕ) (xs : List ℕ) → a ≤ b → AllAbove b xs → AllAbove a xs
AllAbove-trans a b [] l h = tt
AllAbove-trans a b (x ∷ xs) l h = (omega arith, AllAbove-trans a b xs l h.1)

AllAbove-insert_sorted :
    (a b : ℕ) (xs : List ℕ) → b ≤ a → AllAbove b xs → AllAbove b (insert_sorted a xs)
unfolding insert_sorted
AllAbove-insert_sorted a b [] l h = (l, tt)
AllAbove-insert_sorted a b (x ∷ xs) l h = elim (Bool-cases (ltb x a)) [
  | inl e ↦ rw e (h.0, AllAbove-insert_sorted a b xs l h.1)
  | inr e ↦ rw e (l, h)
]

insert_sorted-IsSorted : (a : ℕ) (xs : List ℕ) → IsSorted xs → IsSorted (insert_sorted a xs)
unfolding insert_sorted
insert_sorted-IsSorted a [] h = (tt, tt)
insert_sorted-IsSorted a (x ∷ xs) h = elim (Bool-cases (ltb x a)) [
  | inl e ↦ rw e (AllAbove-insert_sorted a x xs (ground arith) h.0, insert_sorted-IsSorted a xs h.1)
  | inr e ↦ rw e ((ground arith, AllAbove-trans a x xs (ground arith) h.0), h)
]

pub sort-IsSorted : (xs : List ℕ) → IsSorted (sort xs)
unfolding sort
sort-IsSorted [] = tt
sort-IsSorted (x ∷ xs) = insert_sorted-IsSorted x (sort xs) (sort-IsSorted xs)
