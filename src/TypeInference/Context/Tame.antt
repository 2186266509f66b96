-- ===== src/TypeInference/Context/Tame.antt =====
-- typeinference/mod.rs, `default_literal_vars`: one default bound, and what `apply` makes of it.
use metel.Prelude.{
  ℕ, Bool, ap, suc, Option, some, none, true, false, ◌≡◌, ◌≢◌, refl, sym, ◌∙◌, subst, ◌⊎◌, inl, inr,
  ◌==◌, ==_iff, Bool-cases, if◌then◌else◌, ℕ_eq,
}
use metel.Prelude.Map.{get-insert}
use metel.Run.{ok}
use metel.Types.{ResolvedType}
use metel.TypeInference.Syntax.{TypeVar, InferType, concrete, var}
use metel.TypeInference.Substitution.Walk.{apply_with}
use metel.TypeInference.Substitution.Defs.{Substitution, lookup, bind, resolve_var, apply}
use metel.TypeInference.Substitution.Vars.{AllVars, AllVars-map}
use metel.TypeInference.Substitution.Algebra.{
  substitute, substitute_congr, substitute-substitute, apply_with-substitute,
}
use metel.TypeInference.Substitution.Idempotent.{IsUnbound, IsIdempotent, or_var, image}

-- A variable without a binding, or with a resolved type.
abbrev pub IsEnd : Substitution → TypeVar → Type 0
IsEnd s w = IsUnbound s w ⊎ ((k : ResolvedType) × (lookup w s ≡ some (concrete k)))

-- The types bound have such variables only. Defaults keep this, and not idempotence.
pub record IsTame (s : Substitution) : Type 0 where
  pub ends : (v : TypeVar) (t : InferType) → lookup v s ≡ some t → AllVars (IsEnd s) t

pub IsIdempotent-IsTame : (s : Substitution) → IsIdempotent s → IsTame s
IsIdempotent-IsTame s id = record { ends = λ v t e. AllVars-map (λ w h. inl h) t (id.closed v t e) }

lookup-bind_at :
    (v w : TypeVar) (t : InferType) (s : Substitution)
    → lookup w (bind v t s) ≡ (if v == w then some t else lookup w s)
unfolding lookup bind
lookup-bind_at v w t s = get-insert v w t s

module _ (x : TypeVar) (k : ResolvedType) (s : Substitution) where
  bound_self :
      (w : TypeVar) → (x == w) ≡ true → lookup w (bind x (concrete k) s) ≡ some (concrete k)
  bound_self w e = lookup-bind_at x w (concrete k) s ∙ rw e

  bound_other : (w : TypeVar) → (x == w) ≡ false → lookup w (bind x (concrete k) s) ≡ lookup w s
  bound_other w e = lookup-bind_at x w (concrete k) s ∙ rw e

  IsEnd-bind : (w : TypeVar) → IsEnd s w → IsEnd (bind x (concrete k) s) w
  IsEnd-bind w h = elim (Bool-cases (x == w)) [
    | inl e ↦ inr (k, bound_self w e)
    | inr e ↦ elim h [
      | inl u ↦ inl (bound_other w e ∙ u)
      | inr (j, b) ↦ inr (j, bound_other w e ∙ b)
    ]
  ]

  pub IsTame-bind : IsTame s → IsTame (bind x (concrete k) s)
  IsTame-bind tame = record { ends = go }
    where
      go :
          (v : TypeVar) (t : InferType)
          → lookup v (bind x (concrete k) s) ≡ some t
          → AllVars (IsEnd (bind x (concrete k) s)) t
      go v t h = elim (Bool-cases (x == v)) [
        | inl e ↦ let same : concrete k ≡ t = cc (bound_self v e) in rw (← same) tt
        | inr e ↦ AllVars-map IsEnd-bind t (tame.ends v t (sym (bound_other v e) ∙ h))
      ]

-- What `apply` makes of a variable in a tame substitution.
end_image :
    (fuel : ℕ) (s : Substitution) (w : TypeVar)
    → IsEnd s w
    → resolve_var (apply (suc fuel) s) w (lookup w s) ≡ ok (image s w)
unfolding apply apply_with
end_image fuel s w (inl u) = rw u
end_image fuel s w (inr (k, b)) = rw b

-- What a variable stands for, two steps on.
abbrev pub resolved : Substitution → TypeVar → InferType
resolved s v = substitute (image s) (image s v)

pub apply-IsTame :
    (fuel : ℕ) (s : Substitution) (v : TypeVar)
    → IsTame s
    → apply (suc (suc (suc fuel))) s (var v) ≡ ok (resolved s v)
unfolding apply apply_with
apply-IsTame fuel s v tame = go (lookup v s) refl
  where
    go :
        (o : Option InferType)
        → lookup v s ≡ o
        → resolve_var (apply (suc (suc fuel)) s) v o ≡ ok (substitute (image s) (or_var v o))
    go none e = rw e
    go (some t) e =
        apply_with-substitute _ (image s) t (AllVars-map (end_image fuel s) t (tame.ends v t e))

-- The variables that pass a test replaced by one type.
abbrev pub replace : (TypeVar → Bool) → InferType → TypeVar → InferType
replace p k v = if p v then k else var v

-- In a tame substitution a variable stands for itself, for a resolved type, or for a type whose
-- variables end.
IsEnd-resolved : (s : Substitution) (u : TypeVar) → IsEnd s u → resolved s u ≡ image s u
IsEnd-resolved s u (inl e) = rw (e, e)
IsEnd-resolved s u (inr (k, e)) = rw e

image-IsEnd-var :
    (s : Substitution) (u w : TypeVar) → IsEnd s u → image s u ≡ var w → IsUnbound s u × (u ≡ w)
image-IsEnd-var s u w (inl e) h = (e, go (lookup u s) e h)
  where
    go : (o : Option InferType) → o ≡ none → or_var u o ≡ var w → u ≡ w
    go none e h = cc
    go (some t) e h = absurd cc
image-IsEnd-var s u w (inr (k, e)) h = absurd (go (lookup u s) e h)
  where
    go : (o : Option InferType) → o ≡ some (concrete k) → or_var u o ≢ var w
    go none e h = cc
    go (some t) e h = cc

image-ends : (s : Substitution) (x : TypeVar) → IsTame s → AllVars (IsEnd s) (image s x)
image-ends s x tame = go (lookup x s) refl
  where
    go : (o : Option InferType) → lookup x s ≡ o → AllVars (IsEnd s) (or_var x o)
    go none e = inl e
    go (some t) e = tame.ends x t e

pub not_true : (b : Bool) → b ≢ true → b ≡ false
not_true true n = absurd (n refl)
not_true false n = refl

module _ (s : Substitution) (tame : IsTame s) (v w : TypeVar) (e : resolved s v ≡ var w) where
  -- The variable that another one stands for is not bound.
  target-IsUnbound : IsUnbound s w
  target-IsUnbound = go (lookup v s) refl
    where
      from_type :
          (t : InferType) → AllVars (IsEnd s) t → substitute (image s) t ≡ var w → IsUnbound s w
      from_type (var u) end h =
          let (free, same) = image-IsEnd-var s u w end h in subst (IsUnbound s) same free
      from_type (concrete k) end h = absurd cc
      from_type _ end h = absurd cc

      go : (o : Option InferType) → lookup v s ≡ o → IsUnbound s w
      go none f =
          let (free, same) = image-IsEnd-var s v w (inl f) (sym (IsEnd-resolved s v (inl f)) ∙ e) in
          subst (IsUnbound s) same free
      go (some t) f =
          from_type t (tame.ends v t f) (ap (λ o. substitute (image s) (or_var v o)) (sym f) ∙ e)

  module _ (k : ResolvedType) where
    lookup-both :
        (u : TypeVar)
        → lookup u (bind v (concrete k) (bind w (concrete k) s))
          ≡ (if v == u then some (concrete k) else if w == u then some (concrete k) else lookup u s)
    lookup-both u =
        lookup-bind_at v u (concrete k) (bind w (concrete k) s)
        ∙ ap (λ o. if v == u then some (concrete k) else o) (lookup-bind_at w u (concrete k) s)

    -- A variable that ends, before and after the bindings.
    image-both :
        (u : TypeVar)
        → IsEnd s u
        → image (bind v (concrete k) (bind w (concrete k) s)) u
          ≡ substitute (replace (λ x. w == x) (concrete k)) (image s u)
    image-both u (inl free) = elim (Bool-cases (v == u)) [
      | inl p ↦
          let same : v ≡ u = (==_iff v u).0 p in
          let at_v : IsUnbound s v = subst (IsUnbound s) (sym same) free in
          let (free', target) =
            image-IsEnd-var s v w (inl at_v) (sym (IsEnd-resolved s v (inl at_v)) ∙ e) in
          let q : (w == u) ≡ true = (==_iff w u).1 (sym target ∙ same) in
          rw (lookup-both u, p, free, q)
      | inr p ↦ elim (Bool-cases (w == u)) [
        | inl q ↦ rw (lookup-both u, p, free, q)
        | inr q ↦ rw (lookup-both u, p, free, q)
      ]
    ]
    image-both u (inr (j, b)) =
        let p : (v == u) ≡ false = not_true (v == u) (λ h. not_v ((==_iff v u).0 h)) in
        let q : (w == u) ≡ false = not_true (w == u) (λ h. not_w ((==_iff w u).0 h)) in
        rw (lookup-both u, p, q, b)
      where
        not_v : v ≢ u
        not_v same =
            let at_v : lookup v s ≡ some (concrete j) = ap (λ x. lookup x s) same ∙ b in
            let f : resolved s v ≡ concrete j = ap (λ o. substitute (image s) (or_var v o)) at_v in
            cc (f, e)

        not_w : w ≢ u
        not_w same = cc (sym target-IsUnbound ∙ ap (λ x. lookup x s) same ∙ b)

    -- What any variable stands for, after the bindings.
    pub resolved-both :
        (x : TypeVar)
        → resolved (bind v (concrete k) (bind w (concrete k) s)) x
          ≡ substitute (replace (λ u. w == u) (concrete k)) (resolved s x)
    resolved-both x = elim (Bool-cases (v == x)) [
      | inl p ↦
          let same : v ≡ x = (==_iff v x).0 p in
          let at_x : resolved s x ≡ var w = ap (resolved s) (sym same) ∙ e in
          rw (lookup-both x, p, at_x, (==_iff w w).1 refl)
      | inr p ↦ elim (Bool-cases (w == x)) [
        | inl q ↦
            let same : w ≡ x = (==_iff w x).0 q in
            let free : IsUnbound s x = subst (IsUnbound s) same target-IsUnbound in
            let at_x : resolved s x ≡ var x = IsEnd-resolved s x (inl free) ∙ ap (or_var x) free in
            rw (lookup-both x, p, q, at_x, q)
        | inr q ↦ unmoved p q
      ]
    ]
      where
        unmoved :
            (v == x) ≡ false
            → (w == x) ≡ false
            → resolved (bind v (concrete k) (bind w (concrete k) s)) x
              ≡ substitute (replace (λ u. w == u) (concrete k)) (resolved s x)
        unmoved p q =
            let found : lookup x (bind v (concrete k) (bind w (concrete k) s)) ≡ lookup x s =
              lookup-both x ∙ rw (p, q) in
            let same : image (bind v (concrete k) (bind w (concrete k) s)) x ≡ image s x =
              ap (or_var x) found in
            ap (substitute (image (bind v (concrete k) (bind w (concrete k) s)))) same
            ∙ substitute_congr _ _ (image s x)
                (AllVars-map image-both (image s x) (image-ends s x tame))
            ∙ sym (substitute-substitute (image s) (replace (λ u. w == u) (concrete k)) (image s x))
