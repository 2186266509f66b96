-- ===== src/TypeInference/Unify/Correct.antt =====
-- What `unify` promises, in terms of the program's own `apply`.
use metel.Prelude.{ℕ, suc, ◌≡◌, ◌∙◌, ap}
use metel.Run.{ok}
use metel.TypeInference.Syntax.{TypeVar, InferType}
use metel.TypeInference.Substitution.Defs.{Substitution, apply}
use metel.TypeInference.Substitution.Algebra.{substitute}
use metel.TypeInference.Substitution.Idempotent.{image, apply-IsIdempotent, apply-unbound}
use metel.TypeInference.Unify.Compatible.{Compatible}
use metel.TypeInference.Unify.Defs.{unify}
use metel.TypeInference.Unify.Advance.{Refines-empty, Equates, substitute-Refines}
use metel.TypeInference.Unify.Next.{AllVars-applied}
use metel.TypeInference.Unify.Sound.{Solves-unify}

-- If `unify` returns a substitution, then applying it to the two types returns, and the results are
-- equal up to the coercions of `unify`.
pub unify_sound :
    (fuel : ℕ) (a b : InferType) (s : Substitution)
    → unify fuel a b ≡ ok s
    → (n : ℕ)
    → (t : InferType) × (u : InferType) × (apply (suc (suc n)) s a ≡ ok t)
      × (apply (suc (suc n)) s b ≡ ok u)
      × Compatible t u
unify_sound fuel a b s h n =
    let solved = Solves-unify fuel a b s h in
    (
      substitute (image s) a,
      substitute (image s) b,
      apply-IsIdempotent n s a solved.idempotent,
      apply-IsIdempotent n s b solved.idempotent,
      solved.achieves,
    )

-- If `unify` returns a substitution, then every `τ` that makes the two types equal factors through
-- it: `τ` does not tell a type from what `apply` makes of it.
pub unify_most_general :
    (fuel : ℕ) (a b : InferType) (s : Substitution)
    → unify fuel a b ≡ ok s
    → (τ : TypeVar → InferType) → Equates a b τ
    → (n : ℕ) (t u : InferType) → apply (suc (suc n)) s t ≡ ok u
    → substitute τ u ≡ substitute τ t
unify_most_general fuel a b s h τ e n t u p =
    let solved = Solves-unify fuel a b s h in
    let same : u ≡ substitute (image s) t = cc (apply-IsIdempotent n s t solved.idempotent) in
    ap (substitute τ) same ∙ substitute-Refines τ s (solved.general τ (Refines-empty τ) e) t

-- If `unify` returns a substitution, then applying it a second time changes nothing.
pub unify_idempotent :
    (fuel : ℕ) (a b : InferType) (s : Substitution)
    → unify fuel a b ≡ ok s
    → (n : ℕ) (t u : InferType) → apply (suc (suc n)) s t ≡ ok u
    → apply (suc n) s u ≡ ok u
unify_idempotent fuel a b s h n t u p =
    let solved = Solves-unify fuel a b s h in
    let same : u ≡ substitute (image s) t = cc (apply-IsIdempotent n s t solved.idempotent) in
    rw same (apply-unbound n s (substitute (image s) t) (AllVars-applied s t solved.idempotent))
