-- ===== src/TypeInference/Unify/Scope.antt =====
-- Finite sets of variables, for the measure of `unify`: a bound variable leaves the set.
use metel.Prelude.{
  ℕ, suc, List, [], ◌∷◌, ◌++◌, ◌≡◌, ◌≢◌, refl, sym, ◌∙◌, ◌⊎◌, inl, inr, ◌≤◌, ◌<◌, arith, ◌==◌,
  ==_iff, Bool-cases, if◌then◌else◌,
}
use metel.TypeInference.Syntax.{
  TypeVar, InferType, InferTypes, concrete, var, never, fun, tuple, array, sized_array, pointer,
  mut_pointer, named, nil, cons,
}
use metel.TypeInference.Substitution.Vars.{AllVars, AllVarsOf, AllVars-map, AllVarsOf-map}

abbrev pub In : TypeVar → List TypeVar → Type 0
In v [] = ⊥
In v (w ∷ L) = (w ≡ v) ⊎ In v L

abbrev pub card : List TypeVar → ℕ
card [] = 0
card (w ∷ L) = suc (card L)

unfoldable pub without : TypeVar → List TypeVar → List TypeVar
without v [] = []
without v (w ∷ L) = if w == v then without v L else w ∷ without v L

card-without_le : (v : TypeVar) (L : List TypeVar) → card (without v L) ≤ card L
unfolding without
card-without_le v [] = omega arith
card-without_le v (w ∷ L) = ground (arith, card-without_le v L)

pub card-without : (v : TypeVar) (L : List TypeVar) → In v L → card (without v L) < card L
unfolding without
card-without v [] h = elim h [ ]
card-without v (w ∷ L) (inl e) = ground (arith, card-without_le v L)
card-without v (w ∷ L) (inr h) = ground (arith, card-without v L h)

pub In-without : (v w : TypeVar) (L : List TypeVar) → In w L → w ≢ v → In w (without v L)
unfolding without
In-without v w [] h n = elim h [ ]
In-without v w (u ∷ L) (inl e) n = elim (Bool-cases (u == v)) [
  | inl x ↦ absurd (n (sym e ∙ (==_iff u v).0 x))
  | inr x ↦ rw x (inl e)
]
In-without v w (u ∷ L) (inr h) n = elim (Bool-cases (u == v)) [
  | inl x ↦ rw x (In-without v w L h n)
  | inr x ↦ rw x (inr (In-without v w L h n))
]

In-append_left : (v : TypeVar) (L M : List TypeVar) → In v L → In v (L ++ M)
In-append_left v [] M h = elim h [ ]
In-append_left v (w ∷ L) M (inl e) = inl e
In-append_left v (w ∷ L) M (inr h) = inr (In-append_left v L M h)

In-append_right : (v : TypeVar) (L M : List TypeVar) → In v M → In v (L ++ M)
In-append_right v [] M h = h
In-append_right v (w ∷ L) M h = inr (In-append_right v L M h)

unfoldable mutual
  pub vars : InferType → List TypeVar
  vars (concrete _) = []
  vars never = []
  vars (var v) = v ∷ []
  vars (fun ps t) = vars_all ps ++ vars t
  vars (tuple ts) = vars_all ts
  vars (array t) = vars t
  vars (sized_array t _) = vars t
  vars (pointer t) = vars t
  vars (mut_pointer t) = vars t
  vars (named _ ts) = vars_all ts

  pub vars_all : InferTypes → List TypeVar
  vars_all nil = []
  vars_all (cons t ts) = vars t ++ vars_all ts

mutual
  unfolding vars

  AllVars-vars : (t : InferType) → AllVars (λ v. In v (vars t)) t
  AllVars-vars (concrete _) = tt
  AllVars-vars never = tt
  AllVars-vars (var v) = inl refl
  AllVars-vars (fun ps t) = (
    AllVarsOf-map (λ v. In-append_left v (vars_all ps) (vars t)) ps (AllVarsOf-vars ps),
    AllVars-map (λ v. In-append_right v (vars_all ps) (vars t)) t (AllVars-vars t),
  )
  AllVars-vars (tuple ts) = AllVarsOf-vars ts
  AllVars-vars (array t) = AllVars-vars t
  AllVars-vars (sized_array t _) = AllVars-vars t
  AllVars-vars (pointer t) = AllVars-vars t
  AllVars-vars (mut_pointer t) = AllVars-vars t
  AllVars-vars (named _ ts) = AllVarsOf-vars ts

  AllVarsOf-vars : (ts : InferTypes) → AllVarsOf (λ v. In v (vars_all ts)) ts
  AllVarsOf-vars nil = tt
  AllVarsOf-vars (cons t ts) = (
    AllVars-map (λ v. In-append_left v (vars t) (vars_all ts)) t (AllVars-vars t),
    AllVarsOf-map (λ v. In-append_right v (vars t) (vars_all ts)) ts (AllVarsOf-vars ts),
  )

-- Two types and the variables of both.
pub vars_left : (t u : InferType) → AllVars (λ v. In v (vars t ++ vars u)) t
vars_left t u = AllVars-map (λ v. In-append_left v (vars t) (vars u)) t (AllVars-vars t)

pub vars_right : (t u : InferType) → AllVars (λ v. In v (vars t ++ vars u)) u
vars_right t u = AllVars-map (λ v. In-append_right v (vars t) (vars u)) u (AllVars-vars u)
