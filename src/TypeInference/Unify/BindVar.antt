-- ===== src/TypeInference/Unify/BindVar.antt =====
-- `bind_var`, which binds a variable after the occurs check.
use metel.Prelude.{
  true, [], ◌≡◌, ◌≢◌, refl, sym, ◌∙◌, ap, arith, ◌==◌, ==_iff, some, none, inl, inr, Bool-cases,
  if◌then◌else◌, ℕ_eq,
}
use metel.Run.{ok}
use metel.TypeInference.Syntax.{TypeVar, InferType, var, concrete, occurs_in}
use metel.TypeInference.Substitution.Defs.{Substitution, lookup, bind}
use metel.TypeInference.Substitution.Vars.{AllVars, AllVars-map, AllVars-ne}
use metel.TypeInference.Substitution.Algebra.{substitute, substitute_fixed}
use metel.TypeInference.Substitution.Idempotent.{IsUnbound, IsIdempotent, image}
use metel.TypeInference.Unify.Compatible.{same}
use metel.TypeInference.Unify.Defs.{is_var, bind_var}
use metel.TypeInference.Unify.Advance.{
  Refines, Advances-nothing, empty-IsIdempotent, Unifies, Solves,
}

pub lookup-bind :
    (v w : TypeVar) (t : InferType) → lookup w (bind v t []) ≡ (if v == w then some t else none)
unfolding lookup bind
lookup-bind v w t = refl

is_var→eq : (v : TypeVar) (t : InferType) → is_var v t ≡ true → t ≡ var v
is_var→eq v (var w) h = ap var ((==_iff w v).0 h)
is_var→eq v (concrete _) h = ground arith
is_var→eq v _ h = ground arith

module _ (v : TypeVar) (t : InferType) (free : AllVars (λ w. w ≢ v) t) where
  bound : (w : TypeVar) (u : InferType) → lookup w (bind v t []) ≡ some u → (w ≡ v) × (u ≡ t)
  bound w u h = ground (arith, lookup-bind v w t, ==_iff v w)

  IsUnbound-of_ne : (w : TypeVar) → w ≢ v → IsUnbound (bind v t []) w
  IsUnbound-of_ne w h = ground (arith, lookup-bind v w t, ==_iff v w)

  bind-IsIdempotent : IsIdempotent (bind v t [])
  bind-IsIdempotent = record {
    closed = λ w u e. rw ((bound w u e).1) (AllVars-map IsUnbound-of_ne t free);
  }

  image_self : image (bind v t []) v ≡ t
  image_self = rw (lookup-bind v v t, (==_iff v v).1 refl)

  image_free : substitute (image (bind v t [])) t ≡ t
  image_free = substitute_fixed (image (bind v t [])) t (
      AllVars-map {Q = λ w. image (bind v t []) w ≡ var w} (λ w h. rw (IsUnbound-of_ne w h)) t free)

  bind_general : (τ : TypeVar → InferType) → τ v ≡ substitute τ t → Refines τ (bind v t [])
  bind_general τ h w = elim (Bool-cases (v == w)) [
    | inl e ↦ rw (lookup-bind v w t, e) (sym h ∙ ap τ ((==_iff v w).0 e))
    | inr e ↦ rw (lookup-bind v w t, e) refl
  ]

  pub Solves-bind : Solves (var v) t (bind v t [])
  unfolding lookup
  Solves-bind = record {
    idempotent = bind-IsIdempotent;
    later = image (bind v t []);
    extends = λ w. refl;
    achieves = rw (image_self, image_free) same;
    general = λ τ h u. bind_general τ u;
    scoped = λ P h k w u e. rw ((bound w u e).0, (bound w u e).1) k;
  }

-- What `bind_var` returns solves the equation of the variable and the type.
pub Solves-bind_var :
    (v : TypeVar) (t : InferType) {s : Substitution} → bind_var v t ≡ ok s → Solves (var v) t s
unfolding bind_var
Solves-bind_var v t {s} h = elim (Bool-cases (is_var v t)) [
  | inl e ↦
      let empty : [] ≡ s = ground arith in
      rw (is_var→eq v t e, ← empty)
        (Advances-nothing [] (Unifies (var v) (var v) []) empty-IsIdempotent same)
  | inr e ↦ elim (Bool-cases (occurs_in v t)) [
    | inl o ↦ absurd (ground arith)
    | inr o ↦
        let bound : bind v t [] ≡ s = ground arith in
        rw (← bound) (Solves-bind v t (AllVars-ne v t o))
  ]
]
