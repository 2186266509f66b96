-- ===== src/TypeInference/Substitution/Defs.antt =====
-- typeinference/mod.rs, `Substitution`. `apply` follows a bound variable to the type bound to it,
-- and what is bound there again, so it takes fuel for the number of bindings in a row.
use metel.Prelude.{ℕ, zero, suc, [], ◌∷◌, Option, none, some, ℕ_eq}
use metel.Prelude.Map.{HashMap, get, insert, or_insert}
use metel.Run.{Run, ok, out_of_fuel, ◌>>=◌}
use metel.TypeInference.Syntax.{TypeVar, InferType, var}
use metel.TypeInference.Substitution.Walk.{apply_with}

abbrev pub Substitution : Type 0
Substitution = HashMap TypeVar InferType

unfoldable pub bind : TypeVar → InferType → Substitution → Substitution
unfolding insert
bind v t s = insert v t s

unfoldable pub lookup : TypeVar → Substitution → Option InferType
unfolding get
lookup v s = get v s

-- What `apply` does at a variable, given what is bound to it.
abbrev pub resolve_var : (InferType → Run InferType) → TypeVar → Option InferType → Run InferType
resolve_var again v (some resolved) = again resolved
resolve_var again v none = ok (var v)

-- `Substitution::apply`
unfoldable pub apply : ℕ → Substitution → InferType → Run InferType
apply zero s t = out_of_fuel
apply (suc fuel) s t = apply_with (λ v. resolve_var (apply fuel s) v (lookup v s)) t

-- The first loop of `compose`: `other` applied to each value of `self`.
unfoldable pub apply_to_values : ℕ → Substitution → Substitution → Run Substitution
apply_to_values fuel other [] = ok []
apply_to_values fuel other ((v, t) ∷ bindings) = do
  u ← apply fuel other t
  rest ← apply_to_values fuel other bindings
  ok (bind v u rest)

-- Its second loop: the bindings of `other` that are missing.
unfoldable pub add_missing : Substitution → Substitution → Substitution
add_missing result [] = result
add_missing result ((v, t) ∷ bindings) = add_missing (or_insert v t result) bindings

-- `Substitution::compose`
unfoldable pub compose : ℕ → Substitution → Substitution → Run Substitution
unfolding apply_to_values add_missing
compose fuel self other = do result ← apply_to_values fuel other self; ok (add_missing result other)
