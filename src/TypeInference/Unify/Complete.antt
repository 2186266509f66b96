-- ===== src/TypeInference/Unify/Complete.antt =====
-- `unify` fails only where no substitution makes the two types equal.
use metel.Prelude.{ℕ, zero, suc, [], ◌≡◌, refl, sym, ◌∙◌, inl, inr, Bool-cases, arith}
use metel.Error.{MetelError}
use metel.Run.{Run, ok, err, out_of_fuel, ◌>>=◌}
use metel.TypeInference.Syntax.{TypeVar, InferType, InferTypes, var, nil, cons, occurs_in, length}
use metel.TypeInference.Size.{occurs_no_solution}
use metel.TypeInference.Substitution.Defs.{Substitution, compose}
use metel.TypeInference.Substitution.Algebra.{substitute, substitute_all}
use metel.TypeInference.Substitution.Idempotent.{IsIdempotent, image}
use metel.TypeInference.Substitution.Compose.{compose_lem}
use metel.TypeInference.Unify.Defs.{is_var, bind_var, unify_next, unify_all, unify}
use metel.TypeInference.Unify.Advance.{
  Refines, Refines-empty, Equates, Solves, empty-IsIdempotent, substitute-Refines,
}
use metel.TypeInference.Unify.Next.{unify_next_lem, Advances-unify_next}
use metel.TypeInference.Unify.Sound.{Advances-unify_all, Solves-unify}
use metel.TypeInference.Unify.Arms.{
  Outcome, Arm, never_left, never_right, concretes, var_left, var_right, funs, tuples, arrays,
  sized_arrays, sized_to_array, array_to_sized, pointers, mut_pointers, pointer_to_mut,
  mut_to_pointer, nameds, refused, arm,
}

-- `bind_var` fails only by the occurs check.
bind_var_refuses :
    (v : TypeVar) (t : InferType) {e : MetelError}
    → bind_var v t ≡ err e
    → (τ : TypeVar → InferType) → ¬ Equates (var v) t τ
unfolding bind_var
bind_var_refuses v t h τ = elim (Bool-cases (is_var v t)) [
  | inl x ↦ absurd (ground arith)
  | inr x ↦ elim (Bool-cases (occurs_in v t)) [
    | inl o ↦ occurs_no_solution τ v t x o
    | inr o ↦ absurd (ground arith)
  ]
]

module _ (rec : InferType → InferType → Run Substitution)
    (spec : (a b : InferType) (q : Substitution) → rec a b ≡ ok q → Solves a b q)
    (refuses : (a b : InferType) (e : MetelError)
      → rec a b ≡ err e
      → (τ : TypeVar → InferType) → ¬ Equates a b τ)
    (fuel : ℕ) (τ : TypeVar → InferType) where
  pub unify_next_refuses :
      (s : Substitution) (t u : InferType) {e : MetelError}
      → IsIdempotent s
      → Refines τ s
      → unify_next rec fuel s t u ≡ err e
      → ¬ Equates t u τ
  unify_next_refuses s t u {e} id h f p =
      go (rec (substitute (image s) t) (substitute (image s) u)) refl
        (sym (unify_next_lem rec fuel s t u id) ∙ f)
    where
      go :
          (o : Run Substitution)
          → rec (substitute (image s) t) (substitute (image s) u) ≡ o
          → (o >>= compose (suc (suc fuel)) s) ≡ err e
          → ⊥
      go (ok q) x y =
          let solved = spec (substitute (image s) t) (substitute (image s) u) q x in
          cc (compose_lem fuel s q solved.idempotent)
      go (err e') x y =
          refuses (substitute (image s) t) (substitute (image s) u) e' x τ
            (substitute-Refines τ s h t ∙ p ∙ sym (substitute-Refines τ s h u))
      go out_of_fuel x y = cc

  unify_all_refuses :
      (s : Substitution) (ts us : InferTypes) {e : MetelError}
      → IsIdempotent s
      → Refines τ s
      → unify_all rec fuel s ts us ≡ err e
      → ¬ (substitute_all τ ts ≡ substitute_all τ us)
  unfolding unify_all
  unify_all_refuses s nil us id h f p = cc
  unify_all_refuses s (cons t ts) nil id h f p = cc
  unify_all_refuses s (cons t ts) (cons u us) {e} id h f p =
      go (unify_next rec fuel s t u) refl f (λ q. unify_all_refuses q ts us)
    where
      go :
          (o : Run Substitution)
          → unify_next rec fuel s t u ≡ o
          → (o >>= λ q. unify_all rec fuel q ts us) ≡ err e
          → ((q : Substitution)
              → IsIdempotent q
              → Refines τ q
              → unify_all rec fuel q ts us ≡ err e
              → ¬ (substitute_all τ ts ≡ substitute_all τ us))
          → ⊥
      go (ok q) x y ih =
          let first = Advances-unify_next rec fuel s t u spec id x in
          ih q first.idempotent (first.general τ h cc) y cc
      go (err e') x y ih = unify_next_refuses s t u id h x cc
      go out_of_fuel x y ih = cc

  fun_refuses :
      (ps qs : InferTypes) (t u : InferType) {e : MetelError}
      → length ps ≡ length qs
      → (unify_all rec fuel [] ps qs >>= λ q. unify_next rec fuel q t u) ≡ err e
      → substitute_all τ ps ≡ substitute_all τ qs
      → ¬ Equates t u τ
  fun_refuses ps qs t u {e} l f p q = go (unify_all rec fuel [] ps qs) refl f
    where
      go :
          (o : Run Substitution)
          → unify_all rec fuel [] ps qs ≡ o
          → (o >>= λ q. unify_next rec fuel q t u) ≡ err e
          → ⊥
      go (ok s) x y =
          let first = Advances-unify_all rec spec fuel [] ps qs s empty-IsIdempotent l x in
          unify_next_refuses s t u first.idempotent (first.general τ (Refines-empty τ) p) y q
      go (err e') x y = unify_all_refuses [] ps qs empty-IsIdempotent (Refines-empty τ) x p
      go out_of_fuel x y = cc

  Arm-refuses :
      {a b : InferType} {o : Outcome} (e : MetelError)
      → Arm a b o
      → o rec fuel ≡ err e
      → ¬ Equates a b τ
  Arm-refuses e never_left h p = cc
  Arm-refuses e never_right h p = cc
  Arm-refuses e concretes h p = cc
  Arm-refuses e (var_left {v} {b}) h p = bind_var_refuses v b h τ p
  Arm-refuses e (var_right {v} {a}) h p = bind_var_refuses v a h τ (sym p)
  Arm-refuses e (funs {ps} {qs} {t} {u} l) h p =
      let params : substitute_all τ ps ≡ substitute_all τ qs = cc in
      let ret : Equates t u τ = cc in fun_refuses ps qs t u l h params ret
  Arm-refuses e (tuples {ts} {us} l) h p =
      unify_all_refuses [] ts us empty-IsIdempotent (Refines-empty τ) h cc
  Arm-refuses e (nameds {ts = ts} {us = us} l) h p =
      unify_all_refuses [] ts us empty-IsIdempotent (Refines-empty τ) h cc
  Arm-refuses e (refused n) h p = n τ p
  Arm-refuses e (arrays {t} {u}) h p = refuses t u e h τ cc
  Arm-refuses e (sized_arrays {t} {u}) h p = refuses t u e h τ cc
  Arm-refuses e (sized_to_array {t} {u}) h p = cc
  Arm-refuses e (array_to_sized {t} {u}) h p = cc
  Arm-refuses e (pointers {t} {u}) h p = refuses t u e h τ cc
  Arm-refuses e (mut_pointers {t} {u}) h p = refuses t u e h τ cc
  Arm-refuses e (pointer_to_mut {t} {u}) h p = cc
  Arm-refuses e (mut_to_pointer {t} {u}) h p = cc

-- A failure of `unify` means that the two types have no unifier.
pub unify-err :
    (fuel : ℕ) (a b : InferType) (e : MetelError)
    → unify fuel a b ≡ err e
    → (τ : TypeVar → InferType) → ¬ Equates a b τ
unfolding unify
unify-err zero a b e h τ = cc
unify-err (suc fuel) a b e h τ =
    Arm-refuses (unify fuel) (Solves-unify fuel) (unify-err fuel) fuel τ e (arm a b) h
