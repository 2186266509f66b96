-- ===== src/Evaluator/Builtins/Casts.antt =====
-- The casts between kinds of integers.
use metel.Prelude.{String, Option, some, none, true, ◌≡◌, ◌≢◌, refl}
use metel.Prelude.Int.{ℤ}
use metel.Error.{Span}
use metel.Ast.Literals.{IntKind, i8, i16, i32, i64, u8, u16, u32, u64}
use metel.Ast.Types.{TypeExpr, TypeExprs}
use metel.Evaluator.Arith.{in_range, wrap}
use metel.Evaluator.Arith.Bounds.{wrap-in_range, wrap_id}
use metel.Evaluator.Outcome.{done}
use metel.Evaluator.Platform.{Platform}
use metel.Evaluator.State.{State}
use metel.Evaluator.Machine.{Machine}
use metel.Evaluator.Call.{call_function}
use metel.Evaluator.Operators.{cast_by, cast_value}
use metel.Evaluator.Registry.{RuntimeMethod}
use metel.Evaluator.Registry.Lookup.{get_from_method, int_name, map_some}
use metel.Evaluator.Builtins.{run_intrinsic}
use metel.Evaluator.Builtins.Register.{runtime_registry}
use metel.Evaluator.Values.{RuntimeCallable, value, int, intrinsic, from_int}

abbrev pub callable_of : RuntimeMethod → RuntimeCallable
callable_of m = m.body

-- What a cast between two kinds calls.
abbrev pub CallsFromInt : Platform → IntKind → IntKind → Type 0
CallsFromInt rust k j =
    map_some callable_of (get_from_method (runtime_registry rust) (int_name k) (int_name j))
    ≡ some (intrinsic (from_int k (int_name j)))

module _ (rust : Platform) where
  calls_from_int : (k j : IntKind) → k ≢ j → CallsFromInt rust k j
  unfolding get_from_method runtime_registry
  calls_from_int i8 i8 h = absurd (h refl)
  calls_from_int i16 i16 h = absurd (h refl)
  calls_from_int i32 i32 h = absurd (h refl)
  calls_from_int i64 i64 h = absurd (h refl)
  calls_from_int u8 u8 h = absurd (h refl)
  calls_from_int u16 u16 h = absurd (h refl)
  calls_from_int u32 u32 h = absurd (h refl)
  calls_from_int u64 u64 h = absurd (h refl)
  calls_from_int _ _ h = refl

module _ (machine : Machine) where
  cast_by_from_int :
      (o : Option RuntimeMethod) (k j : IntKind) (n : ℤ) (source : String) (span : Span) (s : State)
      → map_some callable_of o ≡ some (intrinsic (from_int k source))
      → cast_by machine o (int j n) span s ≡ done (value (int k (wrap k n)), s)
  unfolding call_function run_intrinsic
  cast_by_from_int (some m) k j n source span s h = rw (body_eq h) refl
    where
      body_eq :
          some m.body ≡ some (intrinsic (from_int k source))
          → m.body ≡ intrinsic (from_int k source)
      body_eq e = cc
  cast_by_from_int none k j n source span s h = absurd cc

  -- A cast of an integer to another kind of integers, with the registry of the builtin functions,
  -- always returns the integer of that kind with the same low bits, and changes no state. It is in the
  -- range of the kind, and it is the integer itself where that is in the range.
  pub cast_value-int :
      (k j : IntKind) (n : ℤ) (args : TypeExprs) (span : Span) (s : State)
      → machine.runtime ≡ runtime_registry machine.rust
      → k ≢ j
      → (cast_value machine (TypeExpr.named (int_name k) args) (int j n) span s
          ≡ done (value (int k (wrap k n)), s))
        × (in_range k (wrap k n) ≡ true)
        × (in_range k n ≡ true → wrap k n ≡ n)
  unfolding cast_value
  cast_value-int k j n args span s r h = (
    cast_by_from_int (get_from_method machine.runtime (int_name k) (int_name j)) k j n (int_name j)
        span s (rw r (calls_from_int machine.rust k j h)),
    wrap-in_range k n,
    wrap_id k n,
  )
