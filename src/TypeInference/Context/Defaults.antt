-- ===== src/TypeInference/Context/Defaults.antt =====
-- typeinference/mod.rs, `default_literal_vars`: what the loops over the literal variables come to.
use metel.Prelude.{
  ℕ, Bool, arith, ap, ◌||◌, suc, List, [], ◌∷◌, Option, some, none, true, false, ◌≡◌, ◌≢◌, refl,
  sym, ◌∙◌, inl, inr, ◌==◌, ==_iff, Bool-cases, if◌then◌else◌, ℕ_eq,
}
use metel.Run.{ok}
use metel.Types.{ResolvedType, i64, f64}
use metel.TypeInference.Syntax.{TypeVar, InferType, concrete, var}
use metel.TypeInference.Substitution.Walk.{apply_with}
use metel.TypeInference.Substitution.Defs.{Substitution, lookup, bind, apply}
use metel.TypeInference.Substitution.Vars.{AllVars_of}
use metel.TypeInference.Unify.Defs.{is_var}
use metel.TypeInference.Substitution.Algebra.{
  substitute, substitute_congr, substitute-substitute, substitute_fixed, apply_with-substitute,
}
use metel.TypeInference.Substitution.Idempotent.{IsIdempotent, or_var, image, substitute-unbound}
use metel.TypeInference.Context.State.{InferContext}
use metel.TypeInference.Context.Literals.{default_to, default_all, default_literal_vars}
use metel.TypeInference.Context.Tame.{
  IsTame, IsIdempotent-IsTame, IsTame-bind, resolved, apply-IsTame, replace, not_true,
  resolved-both,
}

-- Some of the variables stands for this one.
abbrev pub hits : (TypeVar → InferType) → List TypeVar → TypeVar → Bool
hits ρ [] u = false
hits ρ (v ∷ vs) u = is_var u (ρ v) || hits ρ vs u

-- One variable.
default_step :
    (k : ResolvedType) (s : Substitution) (v : TypeVar) (t : InferType)
    → IsTame s
    → resolved s v ≡ t
    → IsTame (default_to (concrete k) v t s)
      × ((x : TypeVar)
          → resolved (default_to (concrete k) v t s) x
            ≡ substitute (replace (λ u. is_var u t) (concrete k)) (resolved s x))
default_step k s v (var w) tame e =
    (IsTame-bind v k (bind w (concrete k) s) (IsTame-bind w k s tame), resolved-both s tame v w e k)
default_step k s v (concrete t) tame e =
    (tame, λ x. sym (substitute_fixed var (resolved s x) (AllVars_of (λ u. refl) (resolved s x))))
default_step k s v _ tame e =
    (tame, λ x. sym (substitute_fixed var (resolved s x) (AllVars_of (λ u. refl) (resolved s x))))

-- A replacement leaves the tests for the other variables as they are.
is_var-replace :
    (p : TypeVar → Bool) (k : ResolvedType) (u : TypeVar) (t : InferType)
    → p u ≡ false
    → is_var u (substitute (replace p (concrete k)) t) ≡ is_var u t
is_var-replace p k u (var y) h = elim (Bool-cases (p y)) [
  | inl q ↦ rw q (sym (not_true (y == u) (λ e. true≢false q e)))
  | inr q ↦ rw q refl
]
  where
    true≢false : p y ≡ true → (y == u) ≢ true
    true≢false q e = let same : y ≡ u = (==_iff y u).0 e in cc (ap p same, q, h)
is_var-replace p k u (concrete t) h = refl
is_var-replace p k u _ h = refl

hits-replace :
    (p : TypeVar → Bool) (k : ResolvedType) (ρ ρ' : TypeVar → InferType) (vs : List TypeVar)
    (u : TypeVar)
    → ((x : TypeVar) → ρ' x ≡ substitute (replace p (concrete k)) (ρ x))
    → p u ≡ false
    → hits ρ' vs u ≡ hits ρ vs u
hits-replace p k ρ ρ' [] u after h = refl
hits-replace p k ρ ρ' (v ∷ vs) u after h =
    let here : is_var u (ρ' v) ≡ is_var u (ρ v) =
      ap (is_var u) (after v) ∙ is_var-replace p k u (ρ v) h in
    cc (here, hits-replace p k ρ ρ' vs u after h)

-- Two replacements in a row.
replace-replace :
    (p q q' : TypeVar → Bool) (k j : ResolvedType) (σ : TypeVar → InferType) (t : InferType)
    → ((u : TypeVar) → p u ≡ false → q' u ≡ q u)
    → ((u : TypeVar) → σ u ≡ (if p u then concrete k else if q u then concrete j else var u))
    → substitute (replace q' (concrete j)) (substitute (replace p (concrete k)) t) ≡ substitute σ t
replace-replace p q q' k j σ t same σ_at =
    substitute-substitute (replace p (concrete k)) (replace q' (concrete j)) t
    ∙ substitute_congr _ σ t (AllVars_of at t)
  where
    at : (u : TypeVar) → substitute (replace q' (concrete j)) (replace p (concrete k) u) ≡ σ u
    at u = elim (Bool-cases (p u)) [
      | inl h ↦ rw (h, σ_at u, h) refl
      | inr h ↦ rw (h, σ_at u, h, same u h) refl
    ]

-- One loop.
default_all_lem :
    (k : ResolvedType) (fuel : ℕ) (vs : List TypeVar) (s : Substitution)
    → IsTame s
    → (r : Substitution) × (default_all (suc (suc (suc fuel))) (concrete k) vs s ≡ ok r)
      × IsTame r
      × ((x : TypeVar)
          → resolved r x ≡ substitute (replace (hits (resolved s) vs) (concrete k)) (resolved s x))
unfolding default_all
default_all_lem k fuel [] s tame = (
  s,
  refl,
  tame,
  λ x. sym (substitute_fixed var (resolved s x) (AllVars_of (λ u. refl) (resolved s x))),
)
default_all_lem k fuel (v ∷ vs) s tame =
    let (tame', now) = default_step k s v (resolved s v) tame refl in
    let s' : Substitution = default_to (concrete k) v (resolved s v) s in
    let (r, e, tame'', rest) = default_all_lem k fuel vs s' tame' in
    let p : TypeVar → Bool = λ u. is_var u (resolved s v) in
    (
      r,
      rw (apply-IsTame fuel s v tame) e,
      tame'',
      λ x.
          rest x
          ∙ ap (substitute (replace (hits (resolved s') vs) (concrete k))) (now x)
          ∙ replace-replace p (hits (resolved s) vs) (hits (resolved s') vs) k k
              (replace (hits (resolved s) (v ∷ vs)) (concrete k)) (resolved s x)
              (λ u h. hits-replace p k (resolved s) (resolved s') vs u now h) (λ u. ground arith),
    )

apply-IsTame_type :
    (fuel : ℕ) (s : Substitution) (t : InferType)
    → IsTame s
    → apply (suc (suc (suc fuel))) s t ≡ ok (substitute (resolved s) t)
unfolding apply apply_with
apply-IsTame_type fuel s t tame =
    apply_with-substitute _ (resolved s) t (AllVars_of (λ v. apply-IsTame fuel s v tame) t)

-- What a variable of a solved type becomes: `i64` if an integer literal stands for it, or else `f64`
-- if a float literal does.
unfoldable pub default_type : InferContext → Substitution → TypeVar → InferType
default_type ctx s u =
    if hits (image s) ctx.integer_literal_vars u
    then concrete i64
    else if hits (image s) ctx.float_literal_vars u
    then concrete f64
    else var u

resolved-IsIdempotent : (s : Substitution) (v : TypeVar) → IsIdempotent s → resolved s v ≡ image s v
resolved-IsIdempotent s v id = go (lookup v s) refl
  where
    go : (o : Option InferType) → lookup v s ≡ o → substitute (image s) (or_var v o) ≡ or_var v o
    go none e = rw e
    go (some t) e = substitute-unbound s t (id.closed v t e)

hits-congr :
    (ρ ρ' : TypeVar → InferType) (vs : List TypeVar) (u : TypeVar)
    → ((x : TypeVar) → ρ x ≡ ρ' x)
    → hits ρ vs u ≡ hits ρ' vs u
hits-congr ρ ρ' [] u same = refl
hits-congr ρ ρ' (v ∷ vs) u same = cc (same v, hits-congr ρ ρ' vs u same)

-- The two loops in a row.
both_loops :
    (ctx : InferContext) (s q r : Substitution)
    → IsIdempotent s
    → ((x : TypeVar)
        → resolved q x
          ≡ substitute
              (replace (hits (resolved s) ctx.integer_literal_vars) (concrete i64))
              (resolved s x))
    → ((x : TypeVar)
        → resolved r x
          ≡ substitute
              (replace (hits (resolved q) ctx.float_literal_vars) (concrete f64))
              (resolved q x))
    → (x : TypeVar) → resolved r x ≡ substitute (default_type ctx s) (image s x)
unfolding default_type
both_loops ctx s q r id ints floats x =
    let same : (v : TypeVar) → image s v ≡ resolved s v = λ v. sym (resolved-IsIdempotent s v id) in
    let is = ctx.integer_literal_vars in
    let fs = ctx.float_literal_vars in
    floats x
    ∙ ap (substitute (replace (hits (resolved q) fs) (concrete f64))) (ints x)
    ∙ replace-replace (hits (resolved s) is) (hits (resolved s) fs) (hits (resolved q) fs) i64 f64
        (default_type ctx s) (resolved s x)
        (λ u h. hits-replace (hits (resolved s) is) i64 (resolved s) (resolved q) fs u ints h)
        (λ u. cc (
          hits-congr (image s) (resolved s) is u same,
          hits-congr (image s) (resolved s) fs u same,
        ))
    ∙ ap (substitute (default_type ctx s)) (sym (same x))

-- For an idempotent substitution `default_literal_vars` returns, and the substitution that it returns
-- makes of any type what the given one makes of it, with `i64` for every variable that an integer
-- literal stands for, `f64` for every other variable that a float literal stands for, and nothing
-- else changed.
pub apply-default_literal_vars :
    (fuel : ℕ) (ctx : InferContext) (s : Substitution)
    → IsIdempotent s
    → (r : Substitution) × (default_literal_vars (suc (suc (suc fuel))) ctx s ≡ ok r)
      × ((t : InferType)
          → apply (suc (suc (suc fuel))) r t
            ≡ ok (substitute (default_type ctx s) (substitute (image s) t)))
unfolding default_literal_vars default_type
apply-default_literal_vars fuel ctx s id =
    let (q, e, tame, ints) =
      default_all_lem i64 fuel ctx.integer_literal_vars s (IsIdempotent-IsTame s id) in
    let (r, f, tame', floats) = default_all_lem f64 fuel ctx.float_literal_vars q tame in
    (
      r,
      rw e f,
      λ t.
          apply-IsTame_type fuel r t tame'
          ∙ ap ok (
              substitute_congr (resolved r) _ t (AllVars_of (both_loops ctx s q r id ints floats) t)
              ∙ sym (substitute-substitute (image s) (default_type ctx s) t)),
    )
