-- ===== src/TypeInference/Substitution/Idempotent.antt =====
-- Substitutions in which no bound variable occurs in a bound type. Unification makes no others. For
-- them `apply` and `compose` return, and agree with substitution as a function.
use metel.Prelude.{ℕ, suc, [], ◌∷◌, Option, none, some, ◌≡◌, refl, ◌∙◌, ap, arith, ℕ_eq}
use metel.Prelude.Map.{get, or_insert, or_else, get-insert, get-or_insert}
use metel.Run.{ok}
use metel.TypeInference.Syntax.{TypeVar, InferType, var}
use metel.TypeInference.Substitution.Defs.{
  Substitution, bind, lookup, resolve_var, apply, apply_to_values, add_missing,
}
use metel.TypeInference.Substitution.Vars.{AllVars, AllVars-map, AllVars_of}
use metel.TypeInference.Substitution.Algebra.{substitute, substitute_fixed, apply_with-substitute}

abbrev pub IsUnbound : Substitution → TypeVar → Type 0
IsUnbound s v = lookup v s ≡ none

-- What a variable stands for: itself, if it is not bound.
abbrev pub or_var : TypeVar → Option InferType → InferType
or_var v (some t) = t
or_var v none = var v

abbrev pub image : Substitution → TypeVar → InferType
image s v = or_var v (lookup v s)

pub record IsIdempotent (s : Substitution) : Type 0 where
  pub closed : (v : TypeVar) (t : InferType) → lookup v s ≡ some t → AllVars (IsUnbound s) t

image-unbound : (s : Substitution) (v : TypeVar) → IsUnbound s v → image s v ≡ var v
image-unbound s v h = rw h

-- A type without bound variables is left alone.
pub substitute-unbound :
    (s : Substitution) (t : InferType) → AllVars (IsUnbound s) t → substitute (image s) t ≡ t
substitute-unbound s t h = substitute_fixed (image s) t (AllVars-map (image-unbound s) t h)

pub apply-unbound :
    (fuel : ℕ) (s : Substitution) (t : InferType)
    → AllVars (IsUnbound s) t
    → apply (suc fuel) s t ≡ ok t
unfolding apply
apply-unbound fuel s t h =
    apply_with-substitute _ var t (AllVars-map (λ v u. rw u) t h)
    ∙ ap ok (substitute_fixed var t (AllVars-map (λ v u. refl) t h))

-- What `apply` does at a variable.
resolve_var_lem :
    (fuel : ℕ) (s : Substitution) (v : TypeVar)
    → IsIdempotent s
    → resolve_var (apply (suc fuel) s) v (lookup v s) ≡ ok (image s v)
resolve_var_lem fuel s v idem = go (lookup v s) refl
  where
    go :
        (o : Option InferType)
        → lookup v s ≡ o
        → resolve_var (apply (suc fuel) s) v o ≡ ok (or_var v o)
    go none e = refl
    go (some t) e = apply-unbound fuel s t (idem.closed v t e)

-- Two units of fuel are enough.
pub apply-IsIdempotent :
    (fuel : ℕ) (s : Substitution) (t : InferType)
    → IsIdempotent s
    → apply (suc (suc fuel)) s t ≡ ok (substitute (image s) t)
unfolding apply
apply-IsIdempotent fuel s t idem =
    apply_with-substitute _ (image s) t (AllVars_of (λ v. resolve_var_lem fuel s v idem) t)

-- `compose` of any substitution with an idempotent one, as a function of the variable.
unfoldable pub option_substitute : (TypeVar → InferType) → Option InferType → Option InferType
option_substitute σ (some t) = some (substitute σ t)
option_substitute σ none = none

-- The first loop of `compose`, as a function.
unfoldable pub substitute_values : Substitution → Substitution → Substitution
substitute_values other [] = []
substitute_values other ((v, t) ∷ s) =
    bind v (substitute (image other) t) (substitute_values other s)

pub apply_to_values_lem :
    (fuel : ℕ) (other s : Substitution)
    → IsIdempotent other
    → apply_to_values (suc (suc fuel)) other s ≡ ok (substitute_values other s)
unfolding apply_to_values substitute_values
apply_to_values_lem fuel other [] idem = refl
apply_to_values_lem fuel other ((w, t) ∷ s) idem =
    rw (apply-IsIdempotent fuel other t idem, apply_to_values_lem fuel other s idem)

pub lookup-substitute_values :
    (other s : Substitution) (v : TypeVar)
    → lookup v (substitute_values other s) ≡ option_substitute (image other) (lookup v s)
unfolding substitute_values lookup bind get option_substitute
lookup-substitute_values other [] v = refl
lookup-substitute_values other ((w, t) ∷ s) v =
    get-insert w v (substitute (image other) t) (substitute_values other s)
    ∙ ground (arith, lookup-substitute_values other s v)

pub lookup-add_missing :
    (r other : Substitution) (v : TypeVar)
    → lookup v (add_missing r other) ≡ or_else (lookup v r) (lookup v other)
unfolding add_missing lookup get
lookup-add_missing r [] v = ground arith
lookup-add_missing r ((w, t) ∷ other) v =
    ground (arith, lookup-add_missing (or_insert w t r) other v, get-or_insert w v t r)
