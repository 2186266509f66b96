-- ===== src/TypeInference/Unify/Arms.antt =====
-- The arms of `unify` as a family: which arm a pair of types takes, and what it computes. Where the
-- arm is an error, no substitution makes the two types equal.
use metel.Prelude.{
  ℕ, true, false, [], ◌≡◌, ◌≢◌, refl, arith, ◌==◌, ==_iff, inl, inr, Bool-cases, str_eq, str_eq_iff,
  decide, String, ap, sym, ◌∙◌,
}
use metel.Run.{Run, ok, err, ◌>>=◌}
use metel.Types.{ResolvedType, ResolvedType-discrete}
use metel.TypeInference.Syntax.{
  TypeVar, InferType, InferTypes, concrete, var, never, fun, tuple, array, sized_array, pointer,
  mut_pointer, named, nil, cons, length,
}
use metel.TypeInference.Substitution.Defs.{Substitution}
use metel.TypeInference.Substitution.Algebra.{substitute_all}
use metel.TypeInference.Unify.Defs.{
  bind_var, same_type, unify_next, unify_all, unify_with, internal_error,
}
use metel.TypeInference.Unify.Advance.{Equates}

-- The outcome of an arm, for each recursive call and fuel.
abbrev pub Outcome : Type 0
Outcome = (InferType → InferType → Run Substitution) → ℕ → Run Substitution

pub data Arm : InferType → InferType → Outcome → Type 0 where
  never_left : {b : InferType} → Arm never b (λ rec fuel. ok [])
  never_right : {a : InferType} → Arm a never (λ rec fuel. ok [])
  concretes : {t : ResolvedType} → Arm (concrete t) (concrete t) (λ rec fuel. ok [])
  var_left : {v : TypeVar} {b : InferType} → Arm (var v) b (λ rec fuel. bind_var v b)
  var_right : {v : TypeVar} {a : InferType} → Arm a (var v) (λ rec fuel. bind_var v a)
  funs :
      {ps qs : InferTypes} {t u : InferType}
      → length ps ≡ length qs
      → Arm
          (fun ps t)
          (fun qs u)
          (λ rec fuel. unify_all rec fuel [] ps qs >>= λ q. unify_next rec fuel q t u)
  tuples :
      {ts us : InferTypes}
      → length ts ≡ length us
      → Arm (tuple ts) (tuple us) (λ rec fuel. unify_all rec fuel [] ts us)
  arrays : {t u : InferType} → Arm (array t) (array u) (λ rec fuel. rec t u)
  sized_arrays :
      {t u : InferType} {n : ℕ} → Arm (sized_array t n) (sized_array u n) (λ rec fuel. rec t u)
  sized_to_array : {t u : InferType} {n : ℕ} → Arm (sized_array t n) (array u) (λ rec fuel. rec t u)
  array_to_sized : {t u : InferType} {n : ℕ} → Arm (array t) (sized_array u n) (λ rec fuel. rec t u)
  pointers : {t u : InferType} → Arm (pointer t) (pointer u) (λ rec fuel. rec t u)
  mut_pointers : {t u : InferType} → Arm (mut_pointer t) (mut_pointer u) (λ rec fuel. rec t u)
  pointer_to_mut : {t u : InferType} → Arm (pointer t) (mut_pointer u) (λ rec fuel. rec t u)
  mut_to_pointer : {t u : InferType} → Arm (mut_pointer t) (pointer u) (λ rec fuel. rec t u)
  nameds :
      {name : String} {ts us : InferTypes}
      → length ts ≡ length us
      → Arm (named name ts) (named name us) (λ rec fuel. unify_all rec fuel [] ts us)
  refused :
      {a b : InferType}
      → ((τ : TypeVar → InferType) → ¬ Equates a b τ)
      → Arm a b (λ rec fuel. err internal_error)

same_type→eq : (t u : ResolvedType) → same_type t u ≡ true → t ≡ u
unfolding same_type
same_type→eq t u = go (ResolvedType-discrete t u)
  where
    go : (d : Dec (t ≡ u)) → decide d ≡ true → t ≡ u
    go (yes p) h = p
    go (no p) h = cc

same_type→ne : (t u : ResolvedType) → same_type t u ≡ false → t ≢ u
unfolding same_type
same_type→ne t u = go (ResolvedType-discrete t u)
  where
    go : (d : Dec (t ≡ u)) → decide d ≡ false → t ≢ u
    go (yes p) h = cc
    go (no p) h = p

same_type_refl : (t : ResolvedType) → same_type t t ≡ true
same_type_refl t = elim (Bool-cases (same_type t t)) [
  | inl e ↦ e
  | inr e ↦ absurd (same_type→ne t t e refl)
]

ne_of_test : {n m : ℕ} → (n == m) ≡ false → n ≢ m
ne_of_test h = ground arith

names_differ : {n m : String} → str_eq n m ≡ false → n ≢ m
names_differ {n} {m} h e = ground (arith, str_eq_iff n m)

length-substitute_all :
    (τ : TypeVar → InferType) (ts : InferTypes) → length (substitute_all τ ts) ≡ length ts
unfolding length
length-substitute_all τ nil = refl
length-substitute_all τ (cons t ts) = omega (arith, length-substitute_all τ ts)

-- Lists of different lengths stay different.
lengths_differ :
    (ts us : InferTypes) (τ : TypeVar → InferType)
    → length ts ≢ length us
    → substitute_all τ ts ≢ substitute_all τ us
lengths_differ ts us τ h e =
    h (sym (length-substitute_all τ ts) ∙ ap length e ∙ length-substitute_all τ us)

abbrev ArmOf : InferType → InferType → Type 0
ArmOf a b = Arm a b (λ rec fuel. unify_with rec fuel a b)

arm_concretes : (t u : ResolvedType) → ArmOf (concrete t) (concrete u)
unfolding unify_with
arm_concretes t u = elim (Bool-cases (same_type t u)) [
  | inl e ↦ rw (same_type→eq t u e, same_type_refl u) concretes
  | inr e ↦ rw e (refused (λ τ h. absurd (same_type→ne t u e cc)))
]

arm_funs : (ps qs : InferTypes) (t u : InferType) → ArmOf (fun ps t) (fun qs u)
unfolding unify_with
arm_funs ps qs t u = elim (Bool-cases (length ps == length qs)) [
  | inl e ↦ rw e (funs ((==_iff (length ps) (length qs)).0 e))
  | inr e ↦ rw e (refused (λ τ h. lengths_differ ps qs τ (ne_of_test e) cc))
]

arm_tuples : (ts us : InferTypes) → ArmOf (tuple ts) (tuple us)
unfolding unify_with
arm_tuples ts us = elim (Bool-cases (length ts == length us)) [
  | inl e ↦ rw e (tuples ((==_iff (length ts) (length us)).0 e))
  | inr e ↦ rw e (refused (λ τ h. lengths_differ ts us τ (ne_of_test e) cc))
]

arm_sized : (t u : InferType) (n m : ℕ) → ArmOf (sized_array t n) (sized_array u m)
unfolding unify_with
arm_sized t u n m = elim (Bool-cases (n == m)) [
  | inl e ↦ rw ((==_iff n m).0 e, (==_iff m m).1 refl) sized_arrays
  | inr e ↦ rw e (refused (λ τ h. absurd (ne_of_test e cc)))
]

arm_nameds : (n m : String) (ts us : InferTypes) → ArmOf (named n ts) (named m us)
unfolding unify_with
arm_nameds n m ts us = elim (Bool-cases (str_eq n m)) [
  | inl e ↦ elim (Bool-cases (length ts == length us)) [
    | inl f ↦
        rw ((str_eq_iff n m).0 e, (str_eq_iff m m).1 refl, f)
          (nameds ((==_iff (length ts) (length us)).0 f))
    | inr f ↦ rw (e, f) (refused (λ τ h. lengths_differ ts us τ (ne_of_test f) cc))
  ]
  | inr e ↦ rw e (refused (λ τ h. absurd (names_differ e cc)))
]

pub arm : (a b : InferType) → ArmOf a b
unfolding unify_with
arm never b = never_left
arm (concrete t) (concrete u) = arm_concretes t u
arm (fun ps t) (fun qs u) = arm_funs ps qs t u
arm (tuple ts) (tuple us) = arm_tuples ts us
arm (array t) (array u) = arrays
arm (sized_array t n) (sized_array u m) = arm_sized t u n m
arm (sized_array t n) (array u) = sized_to_array
arm (array t) (sized_array u n) = array_to_sized
arm (pointer t) (pointer u) = pointers
arm (mut_pointer t) (mut_pointer u) = mut_pointers
arm (pointer t) (mut_pointer u) = pointer_to_mut
arm (mut_pointer t) (pointer u) = mut_to_pointer
arm (named n ts) (named m us) = arm_nameds n m ts us
arm (concrete _) never = never_right
arm (var _) never = never_right
arm (fun _ _) never = never_right
arm (tuple _) never = never_right
arm (array _) never = never_right
arm (sized_array _ _) never = never_right
arm (pointer _) never = never_right
arm (mut_pointer _) never = never_right
arm (named _ _) never = never_right
arm (var v) (concrete _) = var_left
arm (var v) _ = var_left
arm (concrete _) (var v) = var_right
arm (fun _ _) (var v) = var_right
arm (tuple _) (var v) = var_right
arm (array _) (var v) = var_right
arm (sized_array _ _) (var v) = var_right
arm (pointer _) (var v) = var_right
arm (mut_pointer _) (var v) = var_right
arm (named _ _) (var v) = var_right
arm a b = refused (λ τ h. cc)
