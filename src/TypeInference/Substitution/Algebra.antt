-- ===== src/TypeInference/Substitution/Algebra.antt =====
-- Substitution as a total function on types, the independent description of `apply`: the laws of
-- composition, and agreement on the variables of a type.
use metel.Prelude.{◌≡◌, refl, ap}
use metel.Run.{Run, ok}
use metel.TypeInference.Syntax.{
  TypeVar, InferType, InferTypes, concrete, var, never, fun, tuple, array, sized_array, pointer,
  mut_pointer, named, nil, cons,
}
use metel.TypeInference.Substitution.Walk.{apply_with, apply_with_all}
use metel.TypeInference.Substitution.Vars.{AllVars, AllVarsOf}

-- Every variable replaced at once.
abbrev mutual
  pub substitute : (TypeVar → InferType) → InferType → InferType
  substitute σ (concrete t) = concrete t
  substitute σ never = never
  substitute σ (var v) = σ v
  substitute σ (fun params ret) = fun (substitute_all σ params) (substitute σ ret)
  substitute σ (tuple ts) = tuple (substitute_all σ ts)
  substitute σ (array t) = array (substitute σ t)
  substitute σ (sized_array t n) = sized_array (substitute σ t) n
  substitute σ (pointer t) = pointer (substitute σ t)
  substitute σ (mut_pointer t) = mut_pointer (substitute σ t)
  substitute σ (named name args) = named name (substitute_all σ args)

  pub substitute_all : (TypeVar → InferType) → InferTypes → InferTypes
  substitute_all σ nil = nil
  substitute_all σ (cons t ts) = cons (substitute σ t) (substitute_all σ ts)

-- Two substitutions that agree on the variables of a type.
module _ (σ τ : TypeVar → InferType) where
  mutual
    pub substitute_congr :
        (t : InferType) → AllVars (λ v. σ v ≡ τ v) t → substitute σ t ≡ substitute τ t
    substitute_congr (concrete _) h = refl
    substitute_congr never h = refl
    substitute_congr (var v) h = h
    substitute_congr (fun params ret) h =
        cc (substitute_all_congr params h.0, substitute_congr ret h.1)
    substitute_congr (tuple ts) h = ap tuple (substitute_all_congr ts h)
    substitute_congr (array t) h = ap array (substitute_congr t h)
    substitute_congr (sized_array t n) h = ap (λ u. sized_array u n) (substitute_congr t h)
    substitute_congr (pointer t) h = ap pointer (substitute_congr t h)
    substitute_congr (mut_pointer t) h = ap mut_pointer (substitute_congr t h)
    substitute_congr (named name args) h = ap (named name) (substitute_all_congr args h)

    pub substitute_all_congr :
        (ts : InferTypes)
        → AllVarsOf (λ v. σ v ≡ τ v) ts
        → substitute_all σ ts ≡ substitute_all τ ts
    substitute_all_congr nil h = refl
    substitute_all_congr (cons t ts) h = cc (substitute_congr t h.0, substitute_all_congr ts h.1)

-- Composition.
module _ (σ τ : TypeVar → InferType) where
  mutual
    pub substitute-substitute :
        (t : InferType) → substitute τ (substitute σ t) ≡ substitute (λ v. substitute τ (σ v)) t
    substitute-substitute (concrete _) = refl
    substitute-substitute never = refl
    substitute-substitute (var v) = refl
    substitute-substitute (fun params ret) =
        cc (substitute_all-substitute_all params, substitute-substitute ret)
    substitute-substitute (tuple ts) = ap tuple (substitute_all-substitute_all ts)
    substitute-substitute (array t) = ap array (substitute-substitute t)
    substitute-substitute (sized_array t n) = ap (λ u. sized_array u n) (substitute-substitute t)
    substitute-substitute (pointer t) = ap pointer (substitute-substitute t)
    substitute-substitute (mut_pointer t) = ap mut_pointer (substitute-substitute t)
    substitute-substitute (named name args) = ap (named name) (substitute_all-substitute_all args)

    pub substitute_all-substitute_all :
        (ts : InferTypes)
        → substitute_all τ (substitute_all σ ts) ≡ substitute_all (λ v. substitute τ (σ v)) ts
    substitute_all-substitute_all nil = refl
    substitute_all-substitute_all (cons t ts) =
        cc (substitute-substitute t, substitute_all-substitute_all ts)

-- A substitution that moves no variable of the type leaves it.
module _ (σ : TypeVar → InferType) where
  mutual
    pub substitute_fixed : (t : InferType) → AllVars (λ v. σ v ≡ var v) t → substitute σ t ≡ t
    substitute_fixed (concrete _) h = refl
    substitute_fixed never h = refl
    substitute_fixed (var v) h = h
    substitute_fixed (fun params ret) h =
        cc (substitute_all_fixed params h.0, substitute_fixed ret h.1)
    substitute_fixed (tuple ts) h = ap tuple (substitute_all_fixed ts h)
    substitute_fixed (array t) h = ap array (substitute_fixed t h)
    substitute_fixed (sized_array t n) h = ap (λ u. sized_array u n) (substitute_fixed t h)
    substitute_fixed (pointer t) h = ap pointer (substitute_fixed t h)
    substitute_fixed (mut_pointer t) h = ap mut_pointer (substitute_fixed t h)
    substitute_fixed (named name args) h = ap (named name) (substitute_all_fixed args h)

    pub substitute_all_fixed :
        (ts : InferTypes) → AllVarsOf (λ v. σ v ≡ var v) ts → substitute_all σ ts ≡ ts
    substitute_all_fixed nil h = refl
    substitute_all_fixed (cons t ts) h = cc (substitute_fixed t h.0, substitute_all_fixed ts h.1)

-- The variables of a substituted type.
module _ (Q : TypeVar → Type 0) (σ : TypeVar → InferType) where
  mutual
    pub AllVars-substitute :
        (t : InferType) → AllVars (λ v. AllVars Q (σ v)) t → AllVars Q (substitute σ t)
    AllVars-substitute (concrete _) h = tt
    AllVars-substitute never h = tt
    AllVars-substitute (var v) h = h
    AllVars-substitute (fun params ret) h =
        (AllVarsOf-substitute_all params h.0, AllVars-substitute ret h.1)
    AllVars-substitute (tuple ts) h = AllVarsOf-substitute_all ts h
    AllVars-substitute (array t) h = AllVars-substitute t h
    AllVars-substitute (sized_array t _) h = AllVars-substitute t h
    AllVars-substitute (pointer t) h = AllVars-substitute t h
    AllVars-substitute (mut_pointer t) h = AllVars-substitute t h
    AllVars-substitute (named _ args) h = AllVarsOf-substitute_all args h

    pub AllVarsOf-substitute_all :
        (ts : InferTypes) → AllVarsOf (λ v. AllVars Q (σ v)) ts → AllVarsOf Q (substitute_all σ ts)
    AllVarsOf-substitute_all nil h = tt
    AllVarsOf-substitute_all (cons t ts) h =
        (AllVars-substitute t h.0, AllVarsOf-substitute_all ts h.1)

-- The walk of `apply` with a function that returns at every variable of the type.
module _ (g : TypeVar → Run InferType) (σ : TypeVar → InferType) where
  mutual
    unfolding apply_with

    pub apply_with-substitute :
        (t : InferType) → AllVars (λ v. g v ≡ ok (σ v)) t → apply_with g t ≡ ok (substitute σ t)
    apply_with-substitute (concrete _) h = refl
    apply_with-substitute never h = refl
    apply_with-substitute (var v) h = h
    apply_with-substitute (fun params ret) h =
        rw (apply_with_all-substitute_all params h.0, apply_with-substitute ret h.1)
    apply_with-substitute (tuple ts) h = rw (apply_with_all-substitute_all ts h)
    apply_with-substitute (array t) h = rw (apply_with-substitute t h)
    apply_with-substitute (sized_array t n) h = rw (apply_with-substitute t h)
    apply_with-substitute (pointer t) h = rw (apply_with-substitute t h)
    apply_with-substitute (mut_pointer t) h = rw (apply_with-substitute t h)
    apply_with-substitute (named name args) h = rw (apply_with_all-substitute_all args h)

    pub apply_with_all-substitute_all :
        (ts : InferTypes)
        → AllVarsOf (λ v. g v ≡ ok (σ v)) ts
        → apply_with_all g ts ≡ ok (substitute_all σ ts)
    apply_with_all-substitute_all nil h = refl
    apply_with_all-substitute_all (cons t ts) h =
        rw (apply_with-substitute t h.0, apply_with_all-substitute_all ts h.1)
