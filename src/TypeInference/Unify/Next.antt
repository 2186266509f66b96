-- ===== src/TypeInference/Unify/Next.antt =====
-- One round of the loops of `unify`, given what the recursive call does.
use metel.Prelude.{ℕ, suc, Option, none, some, ◌≡◌, refl, sym, ap, subst, ◌∙◌}
use mathlib.Core.Path.{subst₂}
use metel.Run.{Run, ok, ◌>>=◌, >>=-eq-ok}
use metel.TypeInference.Syntax.{TypeVar, InferType}
use metel.TypeInference.Substitution.Defs.{Substitution, lookup, compose}
use metel.TypeInference.Substitution.Vars.{AllVars, AllVars-map, AllVars_of}
use metel.TypeInference.Substitution.Algebra.{substitute, AllVars-substitute}
use metel.TypeInference.Substitution.Idempotent.{
  IsUnbound, IsIdempotent, or_var, image, apply-IsIdempotent,
}
use metel.TypeInference.Substitution.Compose.{
  IsApart, IsComposition, composition, composition_lem, compose_lem, image-compose,
  compose-IsIdempotent, image_scoped, compose_scoped,
}
use metel.TypeInference.Unify.Compatible.{Compatible}
use metel.TypeInference.Unify.Defs.{unify_next}
use metel.TypeInference.Unify.Advance.{
  Refines, Scoped, Advances, empty-Scoped, Refines-empty, Unifies, Equates, VarsOf, Solves,
  substitute-Refines, substitute-extends,
}

-- An applied type has no bound variable.
pub AllVars-applied :
    (s : Substitution) (t : InferType)
    → IsIdempotent s
    → AllVars (IsUnbound s) (substitute (image s) t)
AllVars-applied s t id =
    AllVars-substitute (IsUnbound s) (image s) t (AllVars_of (λ v. closed v (lookup v s) refl) t)
  where
    closed :
        (v : TypeVar) (o : Option InferType) → lookup v s ≡ o → AllVars (IsUnbound s) (or_var v o)
    closed v none e = e
    closed v (some u) e = id.closed v u e

-- The variables of an applied type.
pub Scoped-applied :
    (P : TypeVar → Type 0) (s : Substitution) (t : InferType)
    → Scoped P s
    → AllVars P t
    → AllVars P (substitute (image s) t)
Scoped-applied P s t h k = AllVars-substitute P (image s) t (AllVars-map (image_scoped s P h) t k)

module _ (s : Substitution) (t1 t2 : InferType) (id : IsIdempotent s) {q : Substitution}
    (solved : Solves (substitute (image s) t1) (substitute (image s) t2) q) where
  solved-IsApart : IsApart s q
  solved-IsApart = record {
    apart =
        solved.scoped (IsUnbound s) (empty-Scoped (IsUnbound s))
          (AllVars-applied s t1 id, AllVars-applied s t2 id);
  }

  pub Advances-compose :
      {r : Substitution}
      → IsComposition s q r
      → Advances s r (Unifies t1 t2 r) (Equates t1 t2) (VarsOf t1 t2)
  Advances-compose {r} comp = record {
    idempotent = compose-IsIdempotent comp id solved.idempotent solved-IsApart;
    later = image q;
    extends = image-compose comp;
    achieves =
        subst₂ Compatible (substitute-extends s r (image q) (image-compose comp) t1)
          (substitute-extends s r (image q) (image-compose comp) t2) solved.achieves;
    general = λ τ h u v.
        ap (substitute τ) (image-compose comp v)
        ∙ substitute-Refines τ q (refined τ h u) (image s v)
        ∙ h v;
    scoped = λ P h k. compose_scoped comp P h (
        solved.scoped P (empty-Scoped P)
          (Scoped-applied P s t1 h k.0, Scoped-applied P s t2 h k.1));
  }
    where
      refined : (τ : TypeVar → InferType) → Refines τ s → Equates t1 t2 τ → Refines τ q
      refined τ h u =
          solved.general τ (Refines-empty τ)
            (substitute-Refines τ s h t1 ∙ u ∙ sym (substitute-Refines τ s h t2))

-- A round applies the substitution as a function and hands the types to the recursive call.
pub unify_next_lem :
    (rec : InferType → InferType → Run Substitution) (fuel : ℕ) (s : Substitution)
    (t1 t2 : InferType)
    → IsIdempotent s
    → unify_next rec fuel s t1 t2
      ≡ (rec (substitute (image s) t1) (substitute (image s) t2) >>= compose (suc (suc fuel)) s)
unfolding unify_next
unify_next_lem rec fuel s t1 t2 id =
    rw (apply-IsIdempotent fuel s t1 id, apply-IsIdempotent fuel s t2 id)

-- A round whose recursive call meets the specification of `unify`.
pub Advances-unify_next :
    (rec : InferType → InferType → Run Substitution) (fuel : ℕ) (s : Substitution)
    (t1 t2 : InferType) {r : Substitution}
    → ((a b : InferType) (q : Substitution) → rec a b ≡ ok q → Solves a b q)
    → IsIdempotent s
    → unify_next rec fuel s t1 t2 ≡ ok r
    → Advances s r (Unifies t1 t2 r) (Equates t1 t2) (VarsOf t1 t2)
Advances-unify_next rec fuel s t1 t2 {r} spec id h =
    let (q, e, f) =
      >>=-eq-ok (rec (substitute (image s) t1) (substitute (image s) t2))
        (compose (suc (suc fuel)) s) (sym (unify_next_lem rec fuel s t1 t2 id) ∙ h) in
    let solved = spec (substitute (image s) t1) (substitute (image s) t2) q e in
    let same : composition s q ≡ r = cc (compose_lem fuel s q solved.idempotent) in
    subst (λ x. Advances s x (Unifies t1 t2 x) (Equates t1 t2) (VarsOf t1 t2)) same
      (Advances-compose s t1 t2 id solved (composition_lem s q))
