-- ===== src/TypeInference/Unify/Terminates.antt =====
-- Every call of `unify` returns: each recursive call has fewer variables, or as many and smaller
-- types.
use metel.Prelude.{
  ℕ, zero, suc, [], ◌∷◌, List, ◌++◌, ◌≡◌, ◌≢◌, refl, sym, ◌+◌, ◌≤◌, ◌<◌, arith, some, Bool-cases,
  inl, inr, ℕ_eq,
}
use metel.Run.{ok, ◌>>=◌}
use metel.Run.Returns.{Returns, Returns-ok, Returns-err, Returns-map, Returns-suc, Returns-bind}
use metel.TypeInference.Syntax.{TypeVar, InferType, InferTypes, nil, cons, occurs_in}
use metel.TypeInference.Size.{size, size_all}
use metel.TypeInference.Substitution.Defs.{Substitution, lookup, compose, bind}
use metel.TypeInference.Substitution.Vars.{
  AllVars, AllVarsOf, AllVars-map, AllVars-both, AllVars_of,
}
use metel.TypeInference.Substitution.Algebra.{substitute, substitute_fixed}
use metel.TypeInference.Substitution.Idempotent.{IsUnbound, IsIdempotent, image}
use metel.TypeInference.Substitution.Compose.{composition, compose_lem}
use metel.TypeInference.Unify.Defs.{is_var, bind_var, unify_next, unify_all, unify, internal_error}
use metel.TypeInference.Unify.Advance.{Scoped, empty-IsIdempotent, empty-Scoped}
use metel.TypeInference.Unify.Next.{
  unify_next_lem, Advances-unify_next, AllVars-applied, Scoped-applied,
}
use metel.TypeInference.Unify.Sound.{Solves-unify, Advances-unify_all}
use metel.TypeInference.Unify.Scope.{
  In, card, without, card-without, In-without, vars, vars_left, vars_right,
}
use metel.TypeInference.Unify.Arms.{
  Outcome, Arm, never_left, never_right, concretes, var_left, var_right, funs, tuples, arrays,
  sized_arrays, sized_to_array, array_to_sized, pointers, mut_pointers, pointer_to_mut,
  mut_to_pointer, nameds, refused, arm,
}

abbrev Settles : InferType → InferType → Type 0
Settles a b = Returns (λ fuel. unify fuel a b)

bind_var-Returns : (v : TypeVar) (t : InferType) → Returns (λ fuel. bind_var v t)
unfolding bind_var
bind_var-Returns v t = elim (Bool-cases (is_var v t)) [
  | inl x ↦ rw x (Returns-ok [])
  | inr x ↦ elim (Bool-cases (occurs_in v t)) [
    | inl o ↦ rw (x, o) (Returns-err internal_error)
    | inr o ↦ rw (x, o) (Returns-ok (bind v t []))
  ]
]

-- The induction hypotheses: types over fewer variables, and smaller types.
module _ (L : List TypeVar) (bound : ℕ)
    (fewer : (M : List TypeVar) (a b : InferType)
      → card M < card L
      → AllVars (λ v. In v M) a
      → AllVars (λ v. In v M) b
      → Settles a b)
    (smaller : (a b : InferType)
      → size a + size b < bound
      → AllVars (λ v. In v L) a
      → AllVars (λ v. In v L) b
      → Settles a b) where
  -- A type to which a substitution with a binding is applied has fewer variables.
  applied_fewer :
      (s : Substitution) (v : TypeVar) (u t : InferType)
      → IsIdempotent s
      → Scoped (λ w. In w L) s
      → lookup v s ≡ some u
      → AllVars (λ w. In w L) t
      → AllVars (λ w. In w (without v L)) (substitute (image s) t)
  applied_fewer s v u t id sc e h =
      AllVars-map (λ w p. In-without v w L p.0 (bound_ne w p.1)) (substitute (image s) t)
        (AllVars-both (λ w. In w L) (IsUnbound s) (substitute (image s) t)
          (Scoped-applied (λ w. In w L) s t sc h) (AllVars-applied s t id))
    where
      bound_ne : (w : TypeVar) → IsUnbound s w → w ≢ v
      bound_ne w n p = let same : lookup w s ≡ lookup v s = cc in cc

  -- The recursive call of a round.
  applied_settles :
      (s : Substitution) (t u : InferType)
      → IsIdempotent s
      → Scoped (λ w. In w L) s
      → size t + size u < bound
      → AllVars (λ w. In w L) t
      → AllVars (λ w. In w L) u
      → Settles (substitute (image s) t) (substitute (image s) u)
  unfolding lookup
  applied_settles [] t u id sc l h k =
      rw
        (
          substitute_fixed (image []) t (AllVars_of (λ v. refl) t),
          substitute_fixed (image []) u (AllVars_of (λ v. refl) u),
        )
        (smaller t u l h k)
  applied_settles ((v, x) ∷ s) t u id sc l h k =
      let e : lookup v ((v, x) ∷ s) ≡ some x = ground arith in
      let member = (sc v x e).0 in
      fewer (without v L) (substitute (image ((v, x) ∷ s)) t) (substitute (image ((v, x) ∷ s)) u)
        (card-without v L member) (applied_fewer ((v, x) ∷ s) v x t id sc e h)
        (applied_fewer ((v, x) ∷ s) v x u id sc e k)

  next-Returns :
      (s : Substitution) (t u : InferType)
      → IsIdempotent s
      → Scoped (λ w. In w L) s
      → size t + size u < bound
      → AllVars (λ w. In w L) t
      → AllVars (λ w. In w L) u
      → Returns (λ fuel. unify_next (unify fuel) fuel s t u)
  next-Returns s t u id sc l h k =
      Returns-map
        (λ fuel.
          unify fuel (substitute (image s) t) (substitute (image s) u)
          >>= compose (suc (suc fuel)) s)
        (λ fuel. unify_next (unify fuel) fuel s t u)
        (λ fuel. sym (unify_next_lem (unify fuel) fuel s t u id))
        (Returns-bind (λ fuel. unify fuel (substitute (image s) t) (substitute (image s) u))
          (λ fuel. compose (suc (suc fuel)) s) (applied_settles s t u id sc l h k)
          (λ q e.
            composed q
              (Solves-unify _ (substitute (image s) t) (substitute (image s) u) q e).idempotent))
    where
      composed :
          (q : Substitution) → IsIdempotent q → Returns (λ fuel. compose (suc (suc fuel)) s q)
      composed q id' =
          Returns-map (λ fuel. ok (composition s q)) (λ fuel. compose (suc (suc fuel)) s q)
            (λ fuel. sym (compose_lem fuel s q id')) (Returns-ok (composition s q))

  all-Returns :
      (s : Substitution) (ts us : InferTypes)
      → IsIdempotent s
      → Scoped (λ w. In w L) s
      → size_all ts + size_all us < bound
      → AllVarsOf (λ w. In w L) ts
      → AllVarsOf (λ w. In w L) us
      → Returns (λ fuel. unify_all (unify fuel) fuel s ts us)
  unfolding unify_all size
  all-Returns s nil us id sc l h k = Returns-ok s
  all-Returns s (cons t ts) nil id sc l h k = Returns-ok s
  all-Returns s (cons t ts) (cons u us) id sc l h k =
      Returns-bind (λ fuel. unify_next (unify fuel) fuel s t u)
        (λ fuel q. unify_all (unify fuel) fuel q ts us)
        (next-Returns s t u id sc (omega arith) h.0 k.0)
        (λ q e.
          let first = Advances-unify_next _ _ s t u (Solves-unify _) id e in
          all-Returns q ts us first.idempotent (first.scoped (λ w. In w L) sc (h.0, k.0))
            (omega arith) h.1 k.1)

  Arm-Returns :
      {a b : InferType} {o : Outcome}
      → Arm a b o
      → size a + size b ≤ bound
      → AllVars (λ w. In w L) a
      → AllVars (λ w. In w L) b
      → Returns (λ fuel. o (unify fuel) fuel)
  unfolding size
  Arm-Returns never_left l h k = Returns-ok []
  Arm-Returns never_right l h k = Returns-ok []
  Arm-Returns concretes l h k = Returns-ok []
  Arm-Returns (var_left {v} {b}) l h k = bind_var-Returns v b
  Arm-Returns (var_right {v} {a}) l h k = bind_var-Returns v a
  Arm-Returns (funs {ps} {qs} {t} {u} e) l h k =
      Returns-bind (λ fuel. unify_all (unify fuel) fuel [] ps qs)
        (λ fuel q. unify_next (unify fuel) fuel q t u)
        (all-Returns [] ps qs empty-IsIdempotent (empty-Scoped (λ w. In w L)) (omega arith) h.0 k.0)
        (λ q x.
          let first = Advances-unify_all _ (Solves-unify _) _ [] ps qs q empty-IsIdempotent e x in
          next-Returns q t u first.idempotent
            (first.scoped (λ w. In w L) (empty-Scoped (λ w. In w L)) (h.0, k.0)) (omega arith) h.1
            k.1)
  Arm-Returns (tuples {ts} {us} e) l h k =
      all-Returns [] ts us empty-IsIdempotent (empty-Scoped (λ w. In w L)) (omega arith) h k
  Arm-Returns (nameds {ts = ts} {us = us} e) l h k =
      all-Returns [] ts us empty-IsIdempotent (empty-Scoped (λ w. In w L)) (omega arith) h k
  Arm-Returns (refused n) l h k = Returns-err internal_error
  Arm-Returns (arrays {t} {u}) l h k = smaller t u (omega arith) h k
  Arm-Returns (sized_arrays {t} {u}) l h k = smaller t u (omega arith) h k
  Arm-Returns (sized_to_array {t} {u}) l h k = smaller t u (omega arith) h k
  Arm-Returns (array_to_sized {t} {u}) l h k = smaller t u (omega arith) h k
  Arm-Returns (pointers {t} {u}) l h k = smaller t u (omega arith) h k
  Arm-Returns (mut_pointers {t} {u}) l h k = smaller t u (omega arith) h k
  Arm-Returns (pointer_to_mut {t} {u}) l h k = smaller t u (omega arith) h k
  Arm-Returns (mut_to_pointer {t} {u}) l h k = smaller t u (omega arith) h k

  unify_settles :
      (a b : InferType)
      → size a + size b ≤ bound
      → AllVars (λ w. In w L) a
      → AllVars (λ w. In w L) b
      → Settles a b
  unfolding unify
  unify_settles a b l h k = Returns-suc (λ fuel. unify fuel a b) (Arm-Returns (arm a b) l h k)

-- The two measures, the first one first.
settles :
    (k m : ℕ) (L : List TypeVar) (a b : InferType)
    → card L < k
    → size a + size b ≤ m
    → AllVars (λ v. In v L) a
    → AllVars (λ v. In v L) b
    → Settles a b
settles zero m L a b c l = absurd (omega arith)
settles (suc n) zero L a b c l =
    unify_settles L 0 (λ M t u d. settles n (size t + size u) M t u (omega arith) (omega arith))
      (λ t u d. absurd (omega arith)) a b l
settles (suc n) (suc m) L a b c l =
    unify_settles L (suc m)
      (λ M t u d. settles n (size t + size u) M t u (omega arith) (omega arith))
      (λ t u d. settles (suc n) m L t u c (omega arith)) a b l

-- For any two types there is fuel from which on `unify` returns, with the same result.
pub unify_terminates : (a b : InferType) → Returns (λ fuel. unify fuel a b)
unify_terminates a b =
    let L = vars a ++ vars b in
    settles (suc (card L)) (size a + size b) L a b (omega arith) (omega arith) (vars_left a b)
      (vars_right a b)
