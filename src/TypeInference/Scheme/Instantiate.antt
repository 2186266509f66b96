-- ===== src/TypeInference/Scheme/Instantiate.antt =====
-- `instantiate` with a generator that is past the quantified variables.
use metel.Prelude.{
  ℕ, suc, true, false, List, [], ◌∷◌, ◌≡◌, ◌≢◌, refl, sym, ◌∙◌, ap, ◌+◌, ◌≤◌, ◌<◌, ◌^◌, ◌%◌, ◌⊎◌,
  inl, inr, subst, Option, some, none, arith, if◌then◌else◌, ◌==◌, ==_iff, Bool-cases, ℕ_eq,
}
use mathlib.Core.Bool.{false≢true}
use metel.Prelude.Map.{get-insert}
use metel.Prelude.Sets.{contains}
use metel.Run.{ok}
use metel.TypeInference.Syntax.{TypeVar, TypeVarGenerator, InferType, var}
use metel.TypeInference.Substitution.Defs.{Substitution, lookup, bind}
use metel.TypeInference.Substitution.Vars.{AllVars, AllVars_of}
use metel.TypeInference.Substitution.Algebra.{substitute, AllVars-substitute}
use metel.TypeInference.Substitution.Idempotent.{IsIdempotent, image, apply-IsIdempotent}
use metel.TypeInference.Scheme.Defs.{TypeScheme, bind_fresh, instantiate}

abbrev pub count : List TypeVar → ℕ
count [] = 0
count (v ∷ vs) = suc (count vs)

abbrev pub AllBelow : ℕ → List TypeVar → Type 0
AllBelow n [] = Unit
AllBelow n (v ∷ vs) = (v < n) × AllBelow n vs

-- Variables below `lo` are bound to variables from `lo` up to `hi`, different ones to different.
record IsRenaming (lo hi : ℕ) (s : Substitution) : Type 0 where
  renames :
      (v : TypeVar) (t : InferType)
      → lookup v s ≡ some t
      → (w : TypeVar) × (t ≡ var w) × (v < lo) × (lo ≤ w) × (w < hi)
  injective : (v w x : TypeVar) → lookup v s ≡ some (var x) → lookup w s ≡ some (var x) → v ≡ w

lookup-bind_any :
    (v w : TypeVar) (t : InferType) (s : Substitution)
    → lookup w (bind v t s) ≡ (if v == w then some t else lookup w s)
unfolding lookup bind
lookup-bind_any v w t s = get-insert v w t s

empty-IsRenaming : (lo hi : ℕ) → IsRenaming lo hi []
unfolding lookup
empty-IsRenaming lo hi = record { renames = λ v t e. cc; injective = λ v w x e f. cc }

module _ (lo hi : ℕ) (s : Substitution) (r : IsRenaming lo hi s) (v : TypeVar) (l : v < lo)
    (m : lo ≤ hi) where
  bind_renames :
      (w : TypeVar) (t : InferType)
      → lookup w (bind v (var hi) s) ≡ some t
      → (x : TypeVar) × (t ≡ var x) × (w < lo) × (lo ≤ x) × (x < suc hi)
  bind_renames w t e = elim (Bool-cases (v == w)) [
    | inl p ↦ (hi, ground (arith, lookup-bind_any v w (var hi) s), ground arith, m, omega arith)
    | inr p ↦
        let (x, f, a, b, c) = r.renames w t (ground (arith, lookup-bind_any v w (var hi) s)) in
        (x, f, a, b, omega arith)
  ]

  -- The new target is past the others.
  new_target : (w : TypeVar) → lookup w s ≢ some (var hi)
  new_target w e = let (x, f, a, b, c) = r.renames w (var hi) e in ground arith

  bind_injective :
      (u w x : TypeVar)
      → lookup u (bind v (var hi) s) ≡ some (var x)
      → lookup w (bind v (var hi) s) ≡ some (var x)
      → u ≡ w
  bind_injective u w x e f = ground (
    arith,
    lookup-bind_any v u (var hi) s,
    lookup-bind_any v w (var hi) s,
    new_target u,
    new_target w,
    r.injective u w x,
    ==_iff v u,
    ==_iff v w,
  )

  bind-IsRenaming : IsRenaming lo (suc hi) (bind v (var hi) s)
  bind-IsRenaming = record { renames = bind_renames; injective = bind_injective }

-- What is covered before a round is covered after it.
covers :
    (v w : TypeVar) (vs : List TypeVar) (n : ℕ) (s : Substitution)
    → (contains w (v ∷ vs) ≡ true) ⊎ (lookup w s ≢ none)
    → (contains w vs ≡ true) ⊎ (lookup w (bind v (var n) s) ≢ none)
unfolding contains
covers v w vs n s k = elim (Bool-cases (v == w)) [
  | inl p ↦ inr (λ q. ground (arith, lookup-bind_any v w (var n) s))
  | inr p ↦ elim k [
    | inl c ↦ inl (ground arith)
    | inr m ↦ inr (λ q. m (ground (arith, lookup-bind_any v w (var n) s)))
  ]
]

-- The loop keeps the renaming, binds each variable of the list and moves the counter on.
bind_fresh_lem :
    (lo : ℕ) (vs : List TypeVar) (gen : TypeVarGenerator) (s : Substitution)
    → lo ≤ gen.counter
    → gen.counter + count vs < 2 ^ 32
    → AllBelow lo vs
    → IsRenaming lo gen.counter s
    → IsRenaming lo (gen.counter + count vs) (bind_fresh vs gen s).0
      × ((bind_fresh vs gen s).1.counter ≡ gen.counter + count vs)
      × ((v : TypeVar)
          → (contains v vs ≡ true) ⊎ (lookup v s ≢ none)
          → lookup v (bind_fresh vs gen s).0 ≢ none)
      × ((v : TypeVar)
          → contains v vs ≡ false
          → lookup v s ≡ none
          → lookup v (bind_fresh vs gen s).0 ≡ none)
unfolding bind_fresh contains
bind_fresh_lem lo [] gen s l b h r =
    let e : gen.counter + 0 ≡ gen.counter = omega arith in
    rw e (r, refl, λ v k. elim k [ inl c ↦ absurd (false≢true c) | inr n ↦ n ], λ v k n. n)
bind_fresh_lem lo (v ∷ vs) gen s l b h r =
    let gen' : TypeVarGenerator = record { counter = (gen.counter + 1) % 2 ^ 32 } in
    let e : gen'.counter ≡ suc gen.counter = omega arith in
    let s' : Substitution = bind v (var gen.counter) s in
    let (r', e', c, d) =
      bind_fresh_lem lo vs gen' s' (omega arith) (omega arith) h.1
        (subst (λ n. IsRenaming lo n s') (sym e) (bind-IsRenaming lo gen.counter s r v h.0 l)) in
    let f : gen'.counter + count vs ≡ gen.counter + suc (count vs) = omega arith in
    (
      subst (λ n. IsRenaming lo n (bind_fresh vs gen' s').0) f r',
      e' ∙ f,
      λ w k. c w (covers v w vs gen.counter s k),
      λ w k n.
          d w (ground (arith, k)) (ground (arith, k, n, lookup-bind_any v w (var gen.counter) s)),
    )

IsRenaming-IsIdempotent : (lo hi : ℕ) (s : Substitution) → IsRenaming lo hi s → IsIdempotent s
IsRenaming-IsIdempotent lo hi s r = record {
  closed = λ v t e. let (w, f, a, b, c) = r.renames v t e in rw f (unbound w b (lookup w s) refl);
}
  where
    unbound : (w : TypeVar) → lo ≤ w → (o : Option InferType) → lookup w s ≡ o → lookup w s ≡ none
    unbound w b none e = e
    unbound w b (some t) e = let (x, f, a, b', c) = r.renames w t e in absurd (omega arith)

-- A variable of the instance is fresh, or is not quantified.
abbrev pub FreshOrFree : TypeScheme → ℕ → ℕ → TypeVar → Type 0
FreshOrFree scheme lo hi w = ((lo ≤ w) × (w < hi)) ⊎ (contains w scheme.quantified_vars ≡ false)

-- A quantified variable is bound to a fresh one, and no other variable is bound.
abbrev pub MovesQuantified : TypeScheme → ℕ → ℕ → Substitution → TypeVar → Type 0
MovesQuantified scheme lo hi s v =
    ((contains v scheme.quantified_vars ≡ true)
      × (w : TypeVar) × (lookup v s ≡ some (var w))
      × (lo ≤ w)
      × (w < hi))
    ⊎ ((contains v scheme.quantified_vars ≡ false) × (lookup v s ≡ none))

bind_fresh-MovesQuantified :
    (scheme : TypeScheme) (lo hi : ℕ) (s : Substitution)
    → IsRenaming lo hi s
    → ((v : TypeVar) → contains v scheme.quantified_vars ≡ true → lookup v s ≢ none)
    → ((v : TypeVar) → contains v scheme.quantified_vars ≡ false → lookup v s ≡ none)
    → (v : TypeVar) → MovesQuantified scheme lo hi s v
bind_fresh-MovesQuantified scheme lo hi s r bound free v =
    elim (Bool-cases (contains v scheme.quantified_vars)) [
      | inl q ↦ let (w, e, b, d) = moved (bound v q) (lookup v s) refl in inl (q, w, e, b, d)
      | inr q ↦ inr (q, free v q)
    ]
  where
    moved :
        lookup v s ≢ none
        → (o : Option InferType) → lookup v s ≡ o
        → (w : TypeVar) × (lookup v s ≡ some (var w)) × (lo ≤ w) × (w < hi)
    moved n none e = absurd (n e)
    moved n (some t) e = let (w, f, a, b, d) = r.renames v t e in (w, e ∙ ap some f, b, d)

FreshOrFree-image :
    (scheme : TypeScheme) (lo hi : ℕ) (s : Substitution) (v : TypeVar)
    → MovesQuantified scheme lo hi s v
    → AllVars (FreshOrFree scheme lo hi) (image s v)
FreshOrFree-image scheme lo hi s v (inl (q, w, e, b, d)) = rw e (inl (b, d))
FreshOrFree-image scheme lo hi s v (inr (q, e)) = rw e (inr q)

lookup-empty : (v : TypeVar) → lookup v [] ≡ none
unfolding lookup
lookup-empty v = refl

-- If the quantified variables lie below the counter of the generator and the counter does not
-- overflow, then `instantiate` returns. The instance is the type under a substitution that binds each
-- quantified variable to a new variable, different ones to different variables, and binds nothing
-- else; all variables of the instance are new or not quantified, and the counter moves on by the
-- number of quantified variables.
pub instantiate_fresh :
    (fuel : ℕ) (scheme : TypeScheme) (gen : TypeVarGenerator)
    → AllBelow gen.counter scheme.quantified_vars
    → gen.counter + count scheme.quantified_vars < 2 ^ 32
    → (s : Substitution) × (gen' : TypeVarGenerator) × (instantiate (suc (suc fuel)) scheme gen
        ≡ ok (substitute (image s) scheme.ty, gen'))
      × (gen'.counter ≡ gen.counter + count scheme.quantified_vars)
      × AllVars (FreshOrFree scheme gen.counter gen'.counter) (substitute (image s) scheme.ty)
      × ((v : TypeVar) → MovesQuantified scheme gen.counter gen'.counter s v)
      × ((v w x : TypeVar) → lookup v s ≡ some (var x) → lookup w s ≡ some (var x) → v ≡ w)
unfolding instantiate
instantiate_fresh fuel scheme gen h b =
    let qs = scheme.quantified_vars in
    let (r, e, c, d) =
      bind_fresh_lem gen.counter qs gen [] (omega arith) b h
        (empty-IsRenaming gen.counter gen.counter) in
    let s = (bind_fresh qs gen []).0 in
    let gen' = (bind_fresh qs gen []).1 in
    let moves : (v : TypeVar) → MovesQuantified scheme gen.counter gen'.counter s v =
      bind_fresh-MovesQuantified scheme gen.counter gen'.counter s
        (subst (λ n. IsRenaming gen.counter n s) (sym e) r) (λ v q. c v (inl q))
        (λ v q. d v q (lookup-empty v)) in
    (
      s,
      gen',
      rw (
          apply-IsIdempotent fuel s scheme.ty
            (IsRenaming-IsIdempotent gen.counter (gen.counter + count qs) s r)),
      e,
      AllVars-substitute _ (image s) scheme.ty (
          AllVars_of (λ v. FreshOrFree-image scheme gen.counter gen'.counter s v (moves v))
            scheme.ty),
      moves,
      r.injective,
    )
