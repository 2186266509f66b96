-- ===== src/TypeInference/Substitution/Walk.antt =====
-- typeinference/mod.rs, `Substitution::apply`: its walk over a type, with what it does at a variable
-- as an argument.
use metel.Run.{Run, ok, ◌>>=◌}
use metel.TypeInference.Syntax.{
  TypeVar, InferType, InferTypes, concrete, var, never, fun, tuple, array, sized_array, pointer,
  mut_pointer, named, nil, cons,
}

unfoldable mutual
  pub apply_with : (TypeVar → Run InferType) → InferType → Run InferType
  apply_with g (concrete t) = ok (concrete t)
  apply_with g never = ok never
  apply_with g (var v) = g v
  apply_with g (fun params ret) = do
    ps ← apply_with_all g params
    r ← apply_with g ret
    ok (fun ps r)
  apply_with g (tuple ts) = do us ← apply_with_all g ts; ok (tuple us)
  apply_with g (array t) = do u ← apply_with g t; ok (array u)
  apply_with g (sized_array t n) = do u ← apply_with g t; ok (sized_array u n)
  apply_with g (pointer t) = do u ← apply_with g t; ok (pointer u)
  apply_with g (mut_pointer t) = do u ← apply_with g t; ok (mut_pointer u)
  apply_with g (named name args) = do us ← apply_with_all g args; ok (named name us)

  pub apply_with_all : (TypeVar → Run InferType) → InferTypes → Run InferTypes
  apply_with_all g nil = ok nil
  apply_with_all g (cons t ts) = do u ← apply_with g t; us ← apply_with_all g ts; ok (cons u us)
