-- ===== src/TypeInference/Substitution/Vars.antt =====
-- A predicate of every variable of a type, and its relation to `occurs_in`.
use metel.Prelude.{Bool, false, ◌||◌, ◌≡◌, ◌≢◌, arith, ==_iff}
use metel.TypeInference.Syntax.{
  TypeVar, InferType, InferTypes, concrete, var, never, fun, tuple, array, sized_array, pointer,
  mut_pointer, named, nil, cons, occurs_in, occurs_in_any,
}

abbrev mutual
  pub AllVars : (TypeVar → Type 0) → InferType → Type 0
  AllVars P (concrete _) = Unit
  AllVars P never = Unit
  AllVars P (var v) = P v
  AllVars P (fun params ret) = AllVarsOf P params × AllVars P ret
  AllVars P (tuple ts) = AllVarsOf P ts
  AllVars P (array t) = AllVars P t
  AllVars P (sized_array t _) = AllVars P t
  AllVars P (pointer t) = AllVars P t
  AllVars P (mut_pointer t) = AllVars P t
  AllVars P (named _ args) = AllVarsOf P args

  pub AllVarsOf : (TypeVar → Type 0) → InferTypes → Type 0
  AllVarsOf P nil = Unit
  AllVarsOf P (cons t ts) = AllVars P t × AllVarsOf P ts

module _ {P Q : TypeVar → Type 0} (imp : (v : TypeVar) → P v → Q v) where
  mutual
    pub AllVars-map : (t : InferType) → AllVars P t → AllVars Q t
    AllVars-map (concrete _) h = tt
    AllVars-map never h = tt
    AllVars-map (var v) h = imp v h
    AllVars-map (fun params ret) h = (AllVarsOf-map params h.0, AllVars-map ret h.1)
    AllVars-map (tuple ts) h = AllVarsOf-map ts h
    AllVars-map (array t) h = AllVars-map t h
    AllVars-map (sized_array t _) h = AllVars-map t h
    AllVars-map (pointer t) h = AllVars-map t h
    AllVars-map (mut_pointer t) h = AllVars-map t h
    AllVars-map (named _ args) h = AllVarsOf-map args h

    pub AllVarsOf-map : (ts : InferTypes) → AllVarsOf P ts → AllVarsOf Q ts
    AllVarsOf-map nil h = tt
    AllVarsOf-map (cons t ts) h = (AllVars-map t h.0, AllVarsOf-map ts h.1)

-- A predicate that holds everywhere.
module _ {P : TypeVar → Type 0} (all : (v : TypeVar) → P v) where
  mutual
    pub AllVars_of : (t : InferType) → AllVars P t
    AllVars_of (concrete _) = tt
    AllVars_of never = tt
    AllVars_of (var v) = all v
    AllVars_of (fun params ret) = (AllVarsOf-of params, AllVars_of ret)
    AllVars_of (tuple ts) = AllVarsOf-of ts
    AllVars_of (array t) = AllVars_of t
    AllVars_of (sized_array t _) = AllVars_of t
    AllVars_of (pointer t) = AllVars_of t
    AllVars_of (mut_pointer t) = AllVars_of t
    AllVars_of (named _ args) = AllVarsOf-of args

    pub AllVarsOf-of : (ts : InferTypes) → AllVarsOf P ts
    AllVarsOf-of nil = tt
    AllVarsOf-of (cons t ts) = (AllVars_of t, AllVarsOf-of ts)

-- Both predicates at once.
module _ (P Q : TypeVar → Type 0) where
  mutual
    pub AllVars-both : (t : InferType) → AllVars P t → AllVars Q t → AllVars (λ v. P v × Q v) t
    AllVars-both (concrete _) h k = tt
    AllVars-both never h k = tt
    AllVars-both (var v) h k = (h, k)
    AllVars-both (fun params ret) h k = (AllVarsOf-both params h.0 k.0, AllVars-both ret h.1 k.1)
    AllVars-both (tuple ts) h k = AllVarsOf-both ts h k
    AllVars-both (array t) h k = AllVars-both t h k
    AllVars-both (sized_array t _) h k = AllVars-both t h k
    AllVars-both (pointer t) h k = AllVars-both t h k
    AllVars-both (mut_pointer t) h k = AllVars-both t h k
    AllVars-both (named _ args) h k = AllVarsOf-both args h k

    pub AllVarsOf-both :
        (ts : InferTypes) → AllVarsOf P ts → AllVarsOf Q ts → AllVarsOf (λ v. P v × Q v) ts
    AllVarsOf-both nil h k = tt
    AllVarsOf-both (cons t ts) h k = (AllVars-both t h.0 k.0, AllVarsOf-both ts h.1 k.1)

or_false : (a b : Bool) → (a || b) ≡ false → (a ≡ false) × (b ≡ false)
or_false a b h = ground arith

-- A variable that does not occur differs from every variable of the type.
mutual
  unfolding occurs_in

  pub AllVars-ne : (v : TypeVar) (t : InferType) → occurs_in v t ≡ false → AllVars (λ w. w ≢ v) t
  AllVars-ne v (concrete _) h = tt
  AllVars-ne v never h = tt
  AllVars-ne v (var w) h = λ e. ground (arith, ==_iff w v)
  AllVars-ne v (fun params ret) h =
      let k = or_false _ _ h in (AllVarsOf-ne v params k.0, AllVars-ne v ret k.1)
  AllVars-ne v (tuple ts) h = AllVarsOf-ne v ts h
  AllVars-ne v (array t) h = AllVars-ne v t h
  AllVars-ne v (sized_array t _) h = AllVars-ne v t h
  AllVars-ne v (pointer t) h = AllVars-ne v t h
  AllVars-ne v (mut_pointer t) h = AllVars-ne v t h
  AllVars-ne v (named _ args) h = AllVarsOf-ne v args h

  pub AllVarsOf-ne :
      (v : TypeVar) (ts : InferTypes) → occurs_in_any v ts ≡ false → AllVarsOf (λ w. w ≢ v) ts
  AllVarsOf-ne v nil h = tt
  AllVarsOf-ne v (cons t ts) h =
      let k = or_false _ _ h in (AllVars-ne v t k.0, AllVarsOf-ne v ts k.1)
