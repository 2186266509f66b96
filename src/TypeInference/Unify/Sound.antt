-- ===== src/TypeInference/Unify/Sound.antt =====
-- What `unify` returns solves the equation of its arguments: the induction on the fuel.
use metel.Prelude.{ℕ, zero, suc, [], ◌≡◌, sym, arith}
use mathlib.Core.Path.{subst₂}
use metel.Run.{Run, ok, ◌>>=◌, >>=-eq-ok}
use metel.TypeInference.Syntax.{
  TypeVar, InferType, InferTypes, concrete, never, fun, nil, cons, length,
}
use metel.TypeInference.Substitution.Defs.{Substitution}
use metel.TypeInference.Substitution.Vars.{AllVarsOf}
use metel.TypeInference.Substitution.Algebra.{substitute, substitute_all}
use metel.TypeInference.Substitution.Idempotent.{IsIdempotent, image}
use metel.TypeInference.Unify.Compatible.{
  Compatible, CompatibleAll, Compatible-substitute, Compatible-sym, CompatibleAll-substitute,
}
use metel.TypeInference.Unify.Defs.{unify_next, unify_all, unify_with, unify}
use metel.TypeInference.Unify.Advance.{
  Advances, Advances-nothing, Advances-then, Advances-map, empty-IsIdempotent, Unifies, Solves,
  substitute-extends, substitute_all-extends,
}
use metel.TypeInference.Unify.Next.{Advances-unify_next}
use metel.TypeInference.Unify.BindVar.{Solves-bind_var}
use metel.TypeInference.Unify.Arms.{
  Outcome, Arm, never_left, never_right, concretes, var_left, var_right, funs, tuples, arrays,
  sized_arrays, sized_to_array, array_to_sized, pointers, mut_pointers, pointer_to_mut,
  mut_to_pointer, nameds, refused, arm,
}

-- The same for lists of types.
abbrev pub SolvesAll : Substitution → InferTypes → InferTypes → Substitution → Type 1
SolvesAll s ts us r =
    Advances s r (CompatibleAll (substitute_all (image r) ts) (substitute_all (image r) us))
      (λ τ. substitute_all τ ts ≡ substitute_all τ us) (λ P. AllVarsOf P ts × AllVarsOf P us)

-- A compatible pair stays so under a later step.
pub later-Unifies :
    (t u : InferType) (q r : Substitution) (ρ : TypeVar → InferType)
    → ((v : TypeVar) → image r v ≡ substitute ρ (image q v))
    → Unifies t u q
    → Unifies t u r
later-Unifies t u q r ρ h c =
    subst₂ Compatible (substitute-extends q r ρ h t) (substitute-extends q r ρ h u)
      (Compatible-substitute ρ c)

later-UnifiesAll :
    (ts us : InferTypes) (q r : Substitution) (ρ : TypeVar → InferType)
    → ((v : TypeVar) → image r v ≡ substitute ρ (image q v))
    → CompatibleAll (substitute_all (image q) ts) (substitute_all (image q) us)
    → CompatibleAll (substitute_all (image r) ts) (substitute_all (image r) us)
later-UnifiesAll ts us q r ρ h c =
    subst₂ CompatibleAll (substitute_all-extends q r ρ h ts) (substitute_all-extends q r ρ h us)
      (CompatibleAll-substitute ρ c)

module _ (rec : InferType → InferType → Run Substitution)
    (spec : (a b : InferType) (q : Substitution) → rec a b ≡ ok q → Solves a b q) (fuel : ℕ) where
  pub Advances-unify_all :
      (s : Substitution) (ts us : InferTypes) (r : Substitution)
      → IsIdempotent s
      → length ts ≡ length us
      → unify_all rec fuel s ts us ≡ ok r
      → SolvesAll s ts us r
  unfolding unify_all length
  Advances-unify_all s nil nil r id l h =
      let e : s ≡ r = ground arith in
      rw (← e) (Advances-nothing s (CompatibleAll nil nil) id CompatibleAll.nils)
  Advances-unify_all s nil (cons u us) r id l h = absurd (omega arith)
  Advances-unify_all s (cons t ts) nil r id l h = absurd (omega arith)
  Advances-unify_all s (cons t ts) (cons u us) r id l h =
      let (q, e, f) = >>=-eq-ok (unify_next rec fuel s t u) (λ q. unify_all rec fuel q ts us) h in
      let first = Advances-unify_next rec fuel s t u spec id e in
      let rest = Advances-unify_all q ts us r first.idempotent (omega arith) f in
      Advances-map (λ c. c) (λ τ k p. (cc, cc)) (λ P k p. ((p.0.0, p.1.0), (p.0.1, p.1.1)))
        (Advances-then
          (CompatibleAll (substitute_all (image r) (cons t ts))
            (substitute_all (image r) (cons u us)))
          first rest (λ x c d. CompatibleAll.conses (later-Unifies t u q r rest.later x c) d))

  -- The arms for functions, tuples and named types.
  Solves-fun :
      (ps qs : InferTypes) (t u : InferType) (r : Substitution)
      → length ps ≡ length qs
      → (unify_all rec fuel [] ps qs >>= λ q. unify_next rec fuel q t u) ≡ ok r
      → Solves (fun ps t) (fun qs u) r
  Solves-fun ps qs t u r l h =
      let (q, e, f) = >>=-eq-ok (unify_all rec fuel [] ps qs) (λ q. unify_next rec fuel q t u) h in
      let first = Advances-unify_all [] ps qs q empty-IsIdempotent l e in
      let rest = Advances-unify_next rec fuel q t u spec first.idempotent f in
      Advances-map (λ c. c) (λ τ k p. (cc, cc)) (λ P k p. ((p.0.0, p.1.0), (p.0.1, p.1.1)))
        (Advances-then (Unifies (fun ps t) (fun qs u) r) first rest
          (λ x c d. Compatible.funs (later-UnifiesAll ps qs q r rest.later x c) d))

  -- Two types that need no substitution.
  nothing : (a b : InferType) {r : Substitution} → Unifies a b [] → ok [] ≡ ok r → Solves a b r
  nothing a b {r} c h =
      let e : [] ≡ r = ground arith in
      rw (← e) (Advances-nothing [] (Unifies a b []) empty-IsIdempotent c)

  -- Every arm of `unify`.
  Solves-Arm :
      {a b : InferType} {o : Outcome} (r : Substitution)
      → Arm a b o
      → o rec fuel ≡ ok r
      → Solves a b r
  Solves-Arm r (never_left {b}) h = nothing never b Compatible.never_left h
  Solves-Arm r (never_right {a}) h = nothing a never Compatible.never_right h
  Solves-Arm r (concretes {t}) h = nothing (concrete t) (concrete t) Compatible.same h
  Solves-Arm r (var_left {v} {b}) h = Solves-bind_var v b h
  Solves-Arm r (var_right {v} {a}) h =
      Advances-map Compatible-sym (λ τ k e. sym e) (λ P k p. (p.1, p.0)) (Solves-bind_var v a h)
  Solves-Arm r (funs {ps} {qs} {t} {u} l) h = Solves-fun ps qs t u r l h
  Solves-Arm r (tuples {ts} {us} l) h =
      Advances-map Compatible.tuples (λ τ k e. cc) (λ P k p. p)
        (Advances-unify_all [] ts us r empty-IsIdempotent l h)
  Solves-Arm r (arrays {t} {u}) h =
      Advances-map Compatible.arrays (λ τ k e. cc) (λ P k p. p) (spec t u r h)
  Solves-Arm r (sized_arrays {t} {u}) h =
      Advances-map Compatible.sized_arrays (λ τ k e. cc) (λ P k p. p) (spec t u r h)
  Solves-Arm r (sized_to_array {t} {u}) h =
      Advances-map Compatible.sized_to_array (λ τ k e. cc) (λ P k p. p) (spec t u r h)
  Solves-Arm r (array_to_sized {t} {u}) h =
      Advances-map Compatible.array_to_sized (λ τ k e. cc) (λ P k p. p) (spec t u r h)
  Solves-Arm r (pointers {t} {u}) h =
      Advances-map Compatible.pointers (λ τ k e. cc) (λ P k p. p) (spec t u r h)
  Solves-Arm r (mut_pointers {t} {u}) h =
      Advances-map Compatible.mut_pointers (λ τ k e. cc) (λ P k p. p) (spec t u r h)
  Solves-Arm r (pointer_to_mut {t} {u}) h =
      Advances-map Compatible.pointer_to_mut (λ τ k e. cc) (λ P k p. p) (spec t u r h)
  Solves-Arm r (mut_to_pointer {t} {u}) h =
      Advances-map Compatible.mut_to_pointer (λ τ k e. cc) (λ P k p. p) (spec t u r h)
  Solves-Arm r (nameds {ts = ts} {us = us} l) h =
      Advances-map Compatible.nameds (λ τ k e. cc) (λ P k p. p)
        (Advances-unify_all [] ts us r empty-IsIdempotent l h)
  Solves-Arm r (refused n) h = cc

  pub Solves-unify_with :
      (a b : InferType) (r : Substitution) → unify_with rec fuel a b ≡ ok r → Solves a b r
  Solves-unify_with a b r h = Solves-Arm r (arm a b) h

-- `unify` meets its specification.
pub Solves-unify :
    (fuel : ℕ) (a b : InferType) (s : Substitution) → unify fuel a b ≡ ok s → Solves a b s
unfolding unify
Solves-unify zero a b s h = cc
Solves-unify (suc fuel) a b s h = Solves-unify_with (unify fuel) (Solves-unify fuel) fuel a b s h
