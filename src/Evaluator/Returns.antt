-- ===== src/Evaluator/Returns.antt =====
-- What is known of the parts of a step that returns.
use metel.Prelude.{Option, some, none, ◌≡◌, refl, arith}
use metel.Error.{Span, RuntimeErrorCode}
use metel.Evaluator.Outcome.{Outcome, done, failed, aborted, out_of_fuel}
use metel.Evaluator.Values.{Value}
use metel.Evaluator.State.{State, M, ◌>>=◌, and_then, lift, return}
use metel.Evaluator.Paths.{some_or_panic}

and_then-done :
    {A B : Type 0} (o : Outcome (A × State)) (f : A → M B) (r : B × State)
    → and_then o f ≡ done r
    → (a : A) × (t : State) × (o ≡ done (a, t)) × (f a t ≡ done r)
and_then-done (done (a, t)) f r h = (a, t, refl, h)
and_then-done (failed e) f r h = ground (arith, h)
and_then-done aborted f r h = ground (arith, h)
and_then-done out_of_fuel f r h = ground (arith, h)

pub bind-done :
    {A B : Type 0} (m : M A) (f : A → M B) (s : State) (r : B × State)
    → (m >>= f) s ≡ done r
    → (a : A) × (t : State) × (m s ≡ done (a, t)) × (f a t ≡ done r)
bind-done m f s r h = and_then-done (m s) f r h

pub lift-done :
    {A : Type 0} (o : Outcome A) (s t : State) (a : A)
    → lift o s ≡ done (a, t)
    → (o ≡ done a) × (s ≡ t)
lift-done (done b) s t a h = (cc, cc)
lift-done (failed e) s t a h = absurd cc
lift-done aborted s t a h = absurd cc
lift-done out_of_fuel s t a h = absurd cc

pub some_or_panic-done :
    (o : Option Value) (code : RuntimeErrorCode) (span : Span) (v : Value)
    → some_or_panic o code span ≡ done v
    → o ≡ some v
some_or_panic-done (some w) code span v h = ground (arith, h)
some_or_panic-done none code span v h = ground (arith, h)

pub done-parts :
    {A : Type 0} {a b : A} {s t : State}
    → return {A = A} a s ≡ return {A = A} b t
    → (a ≡ b) × (s ≡ t)
done-parts h = (cc, cc)
