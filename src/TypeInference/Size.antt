-- ===== src/TypeInference/Size.antt =====
-- The size of a type, for the occurs check and for termination.
use metel.Prelude.{
  ℕ, Bool, true, false, ◌||◌, ◌≡◌, ◌≢◌, ◌+◌, ◌≤◌, ◌<◌, arith, ==_iff, inl, inr, ◌⊎◌, refl,
}
use metel.TypeInference.Syntax.{
  TypeVar, InferType, InferTypes, concrete, var, never, fun, tuple, array, sized_array, pointer,
  mut_pointer, named, nil, cons, occurs_in, occurs_in_any,
}
use metel.TypeInference.Substitution.Algebra.{substitute, substitute_all}
use metel.TypeInference.Unify.Defs.{is_var}

unfoldable mutual
  pub size : InferType → ℕ
  size (concrete _) = 1
  size never = 1
  size (var _) = 1
  size (fun ps t) = size_all ps + size t + 1
  size (tuple ts) = size_all ts + 1
  size (array t) = size t + 1
  size (sized_array t _) = size t + 1
  size (pointer t) = size t + 1
  size (mut_pointer t) = size t + 1
  size (named _ ts) = size_all ts + 1

  pub size_all : InferTypes → ℕ
  size_all nil = 0
  size_all (cons t ts) = size t + size_all ts

or_true : (a b : Bool) → (a || b) ≡ true → (a ≡ true) ⊎ (b ≡ true)
or_true true b h = inl refl
or_true false b h = inr h

module _ (τ : TypeVar → InferType) (v : TypeVar) where
  mutual
    unfolding size occurs_in

    -- What a variable that occurs stands for is no larger than the whole.
    occurs_size : (t : InferType) → occurs_in v t ≡ true → size (τ v) ≤ size (substitute τ t)
    occurs_size (concrete _) h = cc
    occurs_size never h = cc
    occurs_size (var w) h = rw ((==_iff w v).0 h) (omega arith)
    occurs_size (fun ps t) h = elim (or_true (occurs_in_any v ps) (occurs_in v t) h) [
      | inl e ↦ omega (arith, occurs_size_all ps e)
      | inr e ↦ omega (arith, occurs_size t e)
    ]
    occurs_size (tuple ts) h = omega (arith, occurs_size_all ts h)
    occurs_size (array t) h = omega (arith, occurs_size t h)
    occurs_size (sized_array t _) h = omega (arith, occurs_size t h)
    occurs_size (pointer t) h = omega (arith, occurs_size t h)
    occurs_size (mut_pointer t) h = omega (arith, occurs_size t h)
    occurs_size (named _ ts) h = omega (arith, occurs_size_all ts h)

    occurs_size_all :
        (ts : InferTypes) → occurs_in_any v ts ≡ true → size (τ v) ≤ size_all (substitute_all τ ts)
    occurs_size_all nil h = cc
    occurs_size_all (cons t ts) h = elim (or_true (occurs_in v t) (occurs_in_any v ts) h) [
      | inl e ↦ omega (arith, occurs_size t e)
      | inr e ↦ omega (arith, occurs_size_all ts e)
    ]

  -- Smaller, unless the whole is the variable.
  occurs_size_lt :
      (t : InferType)
      → is_var v t ≡ false
      → occurs_in v t ≡ true
      → size (τ v) < size (substitute τ t)
  unfolding size occurs_in
  occurs_size_lt (concrete _) e h = cc
  occurs_size_lt never e h = cc
  occurs_size_lt (var w) e h = cc
  occurs_size_lt (fun ps t) e h = elim (or_true (occurs_in_any v ps) (occurs_in v t) h) [
    | inl e ↦ omega (arith, occurs_size_all ps e)
    | inr e ↦ omega (arith, occurs_size t e)
  ]
  occurs_size_lt (tuple ts) e h = omega (arith, occurs_size_all ts h)
  occurs_size_lt (array t) e h = omega (arith, occurs_size t h)
  occurs_size_lt (sized_array t _) e h = omega (arith, occurs_size t h)
  occurs_size_lt (pointer t) e h = omega (arith, occurs_size t h)
  occurs_size_lt (mut_pointer t) e h = omega (arith, occurs_size t h)
  occurs_size_lt (named _ ts) e h = omega (arith, occurs_size_all ts h)

  -- The occurs check refuses only equations without a solution.
  pub occurs_no_solution :
      (t : InferType) → is_var v t ≡ false → occurs_in v t ≡ true → τ v ≢ substitute τ t
  occurs_no_solution t e h p = omega (arith, occurs_size_lt t e h, ap_size p)
    where
      ap_size : τ v ≡ substitute τ t → size (τ v) ≡ size (substitute τ t)
      ap_size p = cc
