-- ===== src/TypeInference/Substitution/Compose.antt =====
-- `compose` with an idempotent substitution: it returns, and acts as the one after the other.
use metel.Prelude.{ℕ, suc, Option, none, some, ◌≡◌, refl, ◌∙◌, ap, sym, subst}
use metel.Prelude.Map.{or_else}
use metel.Run.{ok}
use metel.TypeInference.Syntax.{TypeVar, InferType}
use metel.TypeInference.Substitution.Defs.{Substitution, lookup, compose, add_missing}
use metel.TypeInference.Substitution.Vars.{AllVars, AllVars-map, AllVars-both}
use metel.TypeInference.Substitution.Algebra.{substitute, AllVars-substitute}
use metel.TypeInference.Substitution.Idempotent.{
  IsUnbound, IsIdempotent, or_var, image, option_substitute, substitute_values, apply_to_values_lem,
  lookup-substitute_values, lookup-add_missing,
}

-- No variable of `other` is bound by `s`.
pub record IsApart (s other : Substitution) : Type 0 where
  pub apart :
      (v : TypeVar) (t : InferType)
      → lookup v other ≡ some t
      → IsUnbound s v × AllVars (IsUnbound s) t

-- The bindings of a composition.
pub record IsComposition (s other r : Substitution) : Type 0 where
  pub lookups :
      (v : TypeVar)
      → lookup v r ≡ or_else (option_substitute (image other) (lookup v s)) (lookup v other)

-- `compose`, as a function.
unfoldable pub composition : Substitution → Substitution → Substitution
composition s other = add_missing (substitute_values other s) other

pub compose_lem :
    (fuel : ℕ) (s other : Substitution)
    → IsIdempotent other
    → compose (suc (suc fuel)) s other ≡ ok (composition s other)
unfolding compose composition
compose_lem fuel s other idem = rw (apply_to_values_lem fuel other s idem)

pub composition_lem : (s other : Substitution) → IsComposition s other (composition s other)
unfolding composition
composition_lem s other = record {
  lookups = λ v.
      lookup-add_missing (substitute_values other s) other v
      ∙ ap (λ o. or_else o (lookup v other)) (lookup-substitute_values other s v);
}

-- What holds of a variable and of all in the substitution holds of what the variable stands for.
pub image_scoped :
    (s : Substitution) (P : TypeVar → Type 0)
    → ((v : TypeVar) (t : InferType) → lookup v s ≡ some t → P v × AllVars P t)
    → (w : TypeVar) → P w
    → AllVars P (image s w)
image_scoped s P hs w h = go (lookup w s) refl
  where
    go : (o : Option InferType) → lookup w s ≡ o → AllVars P (or_var w o)
    go none e = h
    go (some t) e = (hs w t e).1

module _ {s other r : Substitution} (comp : IsComposition s other r) where
  -- The composition is the first substitution, then the other.
  pub image-compose : (v : TypeVar) → image r v ≡ substitute (image other) (image s v)
  unfolding option_substitute
  image-compose v = go (lookup v s) (lookup v other) (lookup v r) refl (comp.lookups v)
    where
      go :
          (o p q : Option InferType)
          → lookup v other ≡ p
          → q ≡ or_else (option_substitute (image other) o) p
          → or_var v q ≡ substitute (image other) (or_var v o)
      go (some t) p q e h = rw h
      go none p q e h = rw (h, e)

  pub IsUnbound-compose : (v : TypeVar) → IsUnbound s v → IsUnbound other v → IsUnbound r v
  unfolding option_substitute
  IsUnbound-compose v h k = comp.lookups v ∙ rw (h, k) refl

  module _ (ids : IsIdempotent s) (ido : IsIdempotent other) (ap : IsApart s other) where
    IsUnbound-image : (w : TypeVar) → IsUnbound s w → AllVars (IsUnbound r) (image other w)
    IsUnbound-image w h = go (lookup w other) refl
      where
        go : (o : Option InferType) → lookup w other ≡ o → AllVars (IsUnbound r) (or_var w o)
        go none e = IsUnbound-compose w h e
        go (some t) e =
            AllVars-map (λ u q. IsUnbound-compose u q.0 q.1) t
              (AllVars-both (IsUnbound s) (IsUnbound other) t (ap.apart w t e).1 (ido.closed w t e))

    pub compose-IsIdempotent : IsIdempotent r
    unfolding option_substitute
    compose-IsIdempotent = record {
      closed = λ v t e. go v t (lookup v s) (lookup v other) refl refl (sym e ∙ comp.lookups v);
    }
      where
        go :
            (v : TypeVar) (t : InferType) (o p : Option InferType)
            → lookup v s ≡ o
            → lookup v other ≡ p
            → some t ≡ or_else (option_substitute (image other) o) p
            → AllVars (IsUnbound r) t
        go v t (some u) p e f h =
            let same : t ≡ substitute (image other) u = cc in
            subst (AllVars (IsUnbound r)) (sym same) (
              AllVars-substitute (IsUnbound r) (image other) u
                (AllVars-map IsUnbound-image u (ids.closed v u e)))
        go v t none none e f h = cc
        go v t none (some u) e f h =
            let same : t ≡ u = cc in
            subst (AllVars (IsUnbound r)) (sym same) (
              AllVars-map (λ w q. IsUnbound-compose w q.0 q.1) u
                (AllVars-both (IsUnbound s) (IsUnbound other) u (ap.apart v u f).1
                  (ido.closed v u f)))

  -- What holds of the variables of both substitutions holds of those of their composition.
  module _ (P : TypeVar → Type 0)
      (hs : (v : TypeVar) (t : InferType) → lookup v s ≡ some t → P v × AllVars P t)
      (ho : (v : TypeVar) (t : InferType) → lookup v other ≡ some t → P v × AllVars P t) where
    pub compose_scoped : (v : TypeVar) (t : InferType) → lookup v r ≡ some t → P v × AllVars P t
    unfolding option_substitute
    compose_scoped v t e = go (lookup v s) (lookup v other) refl refl (sym e ∙ comp.lookups v)
      where
        go :
            (o p : Option InferType)
            → lookup v s ≡ o
            → lookup v other ≡ p
            → some t ≡ or_else (option_substitute (image other) o) p
            → P v × AllVars P t
        go (some u) p e f h =
            let same : t ≡ substitute (image other) u = cc in
            (
              (hs v u e).0,
              subst (AllVars P) (sym same) (
                  AllVars-substitute P (image other) u
                    (AllVars-map (image_scoped other P ho) u (hs v u e).1)),
            )
        go none none e f h = cc
        go none (some u) e f h = ho v t (f ∙ sym h)
