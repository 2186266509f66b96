-- ===== src/TypeInference/Unify/Defs.antt =====
-- typeinference/mod.rs, `bind_var` and `unify`. `unify` calls itself on types to which it has applied
-- what it found so far, so it takes fuel.
use metel.Prelude.{
  ℕ, zero, suc, Bool, false, [], if◌then◌else◌, ◌==◌, str_eq, decide, not, ◌||◌, ℕ_eq,
}
use metel.Error.{MetelError, internal, i0001}
use metel.Run.{Run, ok, err, out_of_fuel, ◌>>=◌}
use metel.Types.{ResolvedType, ResolvedType-discrete}
use metel.TypeInference.Syntax.{
  TypeVar, InferType, InferTypes, concrete, var, never, fun, tuple, array, sized_array, pointer,
  mut_pointer, named, cons, occurs_in, length,
}
use metel.TypeInference.Substitution.Defs.{Substitution, bind, apply, compose}

-- `InferType::Var(v) if *v == var`
abbrev pub is_var : TypeVar → InferType → Bool
is_var v (var w) = w == v
is_var v _ = false

-- `MetelError::internal`
abbrev pub internal_error : MetelError
internal_error = internal i0001

unfoldable pub bind_var : TypeVar → InferType → Run Substitution
unfolding occurs_in bind
bind_var v t =
    if is_var v t then ok [] else if occurs_in v t then err internal_error else ok (bind v t [])

-- `t1 == t2` on resolved types.
unfoldable pub same_type : ResolvedType → ResolvedType → Bool
unfolding ResolvedType-discrete decide
same_type t u = decide (ResolvedType-discrete t u)

-- One round of the loops of `unify`: apply, unify, compose. `rec` is the recursive call.
unfoldable pub unify_next :
    (InferType → InferType → Run Substitution)
    → ℕ
    → Substitution
    → InferType
    → InferType
    → Run Substitution
unfolding apply compose
unify_next rec fuel subst t1 t2 = do
  u1 ← apply (suc (suc fuel)) subst t1
  u2 ← apply (suc (suc fuel)) subst t2
  s ← rec u1 u2
  compose (suc (suc fuel)) subst s

-- The loop over `zip`, which stops at the end of the shorter list.
unfoldable pub unify_all :
    (InferType → InferType → Run Substitution)
    → ℕ
    → Substitution
    → InferTypes
    → InferTypes
    → Run Substitution
unfolding unify_next
unify_all rec fuel subst (cons t1 ts1) (cons t2 ts2) = do
  subst' ← unify_next rec fuel subst t1 t2
  unify_all rec fuel subst' ts1 ts2
unify_all rec fuel subst _ _ = ok subst

-- The body of `unify`, in the order of its arms.
unfoldable pub unify_with :
    (InferType → InferType → Run Substitution) → ℕ → InferType → InferType → Run Substitution
unfolding bind_var unify_all length
unify_with rec fuel never b = ok []
unify_with rec fuel a never = ok []
unify_with rec fuel (concrete t1) (concrete t2) =
    if same_type t1 t2 then ok [] else err internal_error
unify_with rec fuel (var v) b = bind_var v b
unify_with rec fuel a (var v) = bind_var v a
unify_with rec fuel (fun params1 ret1) (fun params2 ret2) =
    if not (length params1 == length params2)
    then err internal_error
    else do subst ← unify_all rec fuel [] params1 params2; unify_next rec fuel subst ret1 ret2
unify_with rec fuel (tuple ts1) (tuple ts2) =
    if not (length ts1 == length ts2) then err internal_error else unify_all rec fuel [] ts1 ts2
unify_with rec fuel (array t1) (array t2) = rec t1 t2
unify_with rec fuel (sized_array t1 n1) (sized_array t2 n2) =
    if not (n1 == n2) then err internal_error else rec t1 t2
unify_with rec fuel (sized_array t1 _) (array t2) = rec t1 t2
unify_with rec fuel (array t1) (sized_array t2 _) = rec t1 t2
unify_with rec fuel (pointer t1) (pointer t2) = rec t1 t2
unify_with rec fuel (mut_pointer t1) (mut_pointer t2) = rec t1 t2
unify_with rec fuel (pointer t1) (mut_pointer t2) = rec t1 t2
unify_with rec fuel (mut_pointer t1) (pointer t2) = rec t1 t2
unify_with rec fuel (named n1 args1) (named n2 args2) =
    if not (str_eq n1 n2) || not (length args1 == length args2)
    then err internal_error
    else unify_all rec fuel [] args1 args2
unify_with rec fuel _ _ = err internal_error

unfoldable pub unify : ℕ → InferType → InferType → Run Substitution
unfolding unify_with
unify zero a b = out_of_fuel
unify (suc fuel) a b = unify_with (unify fuel) fuel a b
