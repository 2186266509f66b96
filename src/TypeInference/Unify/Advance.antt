-- ===== src/TypeInference/Unify/Advance.antt =====
-- What one piece of `unify` adds to a substitution: it stays idempotent, refines what was there, is
-- most general, and takes its variables from the types at hand.
use metel.Prelude.{◌≡◌, refl, sym, ap, ◌∙◌, [], some}
use mathlib.Core.Path.{fun_ext}
use metel.TypeInference.Syntax.{TypeVar, InferType, InferTypes, var}
use metel.TypeInference.Substitution.Defs.{Substitution, lookup}
use metel.TypeInference.Substitution.Vars.{AllVars, AllVars_of}
use metel.TypeInference.Substitution.Algebra.{
  substitute, substitute_all, substitute-substitute, substitute_all-substitute_all,
  substitute_fixed,
}
use metel.TypeInference.Substitution.Idempotent.{IsIdempotent, image}
use metel.TypeInference.Unify.Compatible.{Compatible}

-- `τ` is a refinement of the substitution.
abbrev pub Refines : (TypeVar → InferType) → Substitution → Type 0
Refines τ s = (v : TypeVar) → substitute τ (image s v) ≡ τ v

-- All variables of the substitution have the property.
abbrev pub Scoped : (TypeVar → Type 0) → Substitution → Type 0
Scoped P s = (v : TypeVar) (t : InferType) → lookup v s ≡ some t → P v × AllVars P t

-- `C` is what the step achieves, `U` what a solution of its equations satisfies, `V` where its
-- variables come from.
pub record Advances (s r : Substitution) (C : Type 0) (U : (TypeVar → InferType) → Type 0)
    (V : (TypeVar → Type 0) → Type 0) : Type 1 where
  pub idempotent : IsIdempotent r
  pub later : TypeVar → InferType
  pub extends : (v : TypeVar) → image r v ≡ substitute later (image s v)
  pub achieves : C
  pub general : (τ : TypeVar → InferType) → Refines τ s → U τ → Refines τ r
  pub scoped : (P : TypeVar → Type 0) → Scoped P s → V P → Scoped P r

pub empty-IsIdempotent : IsIdempotent []
unfolding lookup
empty-IsIdempotent = record { closed = λ v t e. cc }

pub empty-Scoped : (P : TypeVar → Type 0) → Scoped P []
unfolding lookup
empty-Scoped P v t e = cc

pub Refines-empty : (τ : TypeVar → InferType) → Refines τ []
unfolding lookup
Refines-empty τ v = refl

-- `s` makes `a` and `b` one type, up to coercion.
abbrev pub Unifies : InferType → InferType → Substitution → Type 0
Unifies a b s = Compatible (substitute (image s) a) (substitute (image s) b)

abbrev pub Equates : InferType → InferType → (TypeVar → InferType) → Type 0
Equates a b τ = substitute τ a ≡ substitute τ b

abbrev pub VarsOf : InferType → InferType → (TypeVar → Type 0) → Type 0
VarsOf a b P = AllVars P a × AllVars P b

-- The specification of `unify`.
abbrev pub Solves : InferType → InferType → Substitution → Type 1
Solves a b s = Advances [] s (Unifies a b s) (Equates a b) (VarsOf a b)

pub Advances-nothing :
    (s : Substitution) (C : Type 0) {U : (TypeVar → InferType) → Type 0}
    {V : (TypeVar → Type 0) → Type 0}
    → IsIdempotent s
    → C
    → Advances s s C U V
Advances-nothing s C id c = record {
  idempotent = id;
  later = var;
  extends = λ v. sym (substitute_fixed var (image s v) (AllVars_of (λ w. refl) (image s v)));
  achieves = c;
  general = λ τ h u. h;
  scoped = λ P h k. h;
}

-- One step after another.
pub Advances-then :
    {s q r : Substitution} {C D : Type 0} (E : Type 0) {U W : (TypeVar → InferType) → Type 0}
    {V X : (TypeVar → Type 0) → Type 0}
    → Advances s q C U V
    → (second : Advances q r D W X)
    → (((v : TypeVar) → image r v ≡ substitute second.later (image q v)) → C → D → E)
    → Advances s r E (λ τ. U τ × W τ) (λ P. V P × X P)
Advances-then E first second join = record {
  idempotent = second.idempotent;
  later = λ v. substitute second.later (first.later v);
  extends = λ v.
      second.extends v
      ∙ ap (substitute second.later) (first.extends v)
      ∙ substitute-substitute first.later second.later (image _ v);
  achieves = join second.extends first.achieves second.achieves;
  general = λ τ h u. second.general τ (first.general τ h u.0) u.1;
  scoped = λ P h k. second.scoped P (first.scoped P h k.0) k.1;
}

-- The same step, described otherwise.
pub Advances-map :
    {s r : Substitution} {C D : Type 0} {U W : (TypeVar → InferType) → Type 0}
    {V X : (TypeVar → Type 0) → Type 0}
    → (C → D)
    → ((τ : TypeVar → InferType) → Refines τ s → W τ → U τ)
    → ((P : TypeVar → Type 0) → Scoped P s → X P → V P)
    → Advances s r C U V
    → Advances s r D W X
Advances-map f g h a = record {
  idempotent = a.idempotent;
  later = a.later;
  extends = a.extends;
  achieves = f a.achieves;
  general = λ τ k w. a.general τ k (g τ k w);
  scoped = λ P k x. a.scoped P k (h P k x);
}

-- A refinement does not see the substitution that it refines.
pub substitute-Refines :
    (τ : TypeVar → InferType) (s : Substitution)
    → Refines τ s
    → (t : InferType) → substitute τ (substitute (image s) t) ≡ substitute τ t
substitute-Refines τ s h t =
    substitute-substitute (image s) τ t
    ∙ ap (λ (ρ : TypeVar → InferType). substitute ρ t) (fun_ext h)

-- A later substitution applied to an applied type.
pub substitute-extends :
    (q r : Substitution) (ρ : TypeVar → InferType)
    → ((v : TypeVar) → image r v ≡ substitute ρ (image q v))
    → (t : InferType) → substitute ρ (substitute (image q) t) ≡ substitute (image r) t
substitute-extends q r ρ h t =
    substitute-substitute (image q) ρ t
    ∙ ap (λ (σ : TypeVar → InferType). substitute σ t) (fun_ext (λ v. sym (h v)))

pub substitute_all-extends :
    (q r : Substitution) (ρ : TypeVar → InferType)
    → ((v : TypeVar) → image r v ≡ substitute ρ (image q v))
    → (ts : InferTypes)
    → substitute_all ρ (substitute_all (image q) ts) ≡ substitute_all (image r) ts
substitute_all-extends q r ρ h ts =
    substitute_all-substitute_all (image q) ρ ts
    ∙ ap (λ (σ : TypeVar → InferType). substitute_all σ ts) (fun_ext (λ v. sym (h v)))
