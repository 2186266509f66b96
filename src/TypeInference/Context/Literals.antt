-- ===== src/TypeInference/Context/Literals.antt =====
-- typeinference/mod.rs, `InferContext`: the variables of literals and their default types.
use metel.Prelude.{ℕ, List, [], ◌∷◌, Bool, ℕ_eq}
use metel.Prelude.Sets.{set_insert, contains}
use metel.Run.{Run, ok, ◌>>=◌}
use metel.TypeInference.Syntax.{TypeVar, fresh, InferType, var, int, float}
use metel.TypeInference.Substitution.Defs.{Substitution, bind, apply}
use metel.TypeInference.Context.State.{InferContext}

unfoldable pub fresh_var : InferContext → InferType × InferContext
unfolding fresh
fresh_var ctx = let (v, gen) = fresh ctx.var_gen in (var v, record ctx { var_gen = gen })

unfoldable pub fresh_integer_literal_var : InferContext → InferType × InferContext
unfolding fresh set_insert
fresh_integer_literal_var ctx =
    let (v, gen) = fresh ctx.var_gen in
    (
      var v,
      record ctx { var_gen = gen; integer_literal_vars = set_insert v ctx.integer_literal_vars },
    )

unfoldable pub fresh_float_literal_var : InferContext → InferType × InferContext
unfolding fresh set_insert
fresh_float_literal_var ctx =
    let (v, gen) = fresh ctx.var_gen in
    (var v, record ctx { var_gen = gen; float_literal_vars = set_insert v ctx.float_literal_vars })

-- `if let InferType::Var(final_var) = …` and the two bindings.
abbrev pub default_to : InferType → TypeVar → InferType → Substitution → Substitution
default_to default v (var final_var) s = bind v default (bind final_var default s)
default_to default v _ s = s

-- The loop over the literal variables of one kind.
unfoldable pub default_all : ℕ → InferType → List TypeVar → Substitution → Run Substitution
default_all fuel default [] s = ok s
default_all fuel default (v ∷ vs) s = do
  t ← apply fuel s (var v)
  default_all fuel default vs (default_to default v t s)

unfoldable pub default_literal_vars : ℕ → InferContext → Substitution → Run Substitution
unfolding default_all
default_literal_vars fuel ctx s = do
  extended ← default_all fuel int ctx.integer_literal_vars s
  default_all fuel float ctx.float_literal_vars extended

unfoldable pub is_integer_literal_var : TypeVar → InferContext → Bool
is_integer_literal_var v ctx = contains v ctx.integer_literal_vars

unfoldable pub is_float_literal_var : TypeVar → InferContext → Bool
is_float_literal_var v ctx = contains v ctx.float_literal_vars
