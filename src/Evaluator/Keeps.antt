-- ===== src/Evaluator/Keeps.antt =====
-- What a step that returns leaves as it was, with one rule for each way to build a step.
pub mod Heap
pub mod Parts
pub mod Handlers
pub mod Arms
pub mod Loops
use metel.Prelude.{
  string_eq, String, Option, some, none, Bool, true, false, List, [], ◌∷◌, ◌++◌, ◌≡◌, refl, sym,
  ◌∙◌, ap, if◌then◌else◌,
}
use metel.Prelude.Map.{HashMap, insert}
use metel.Error.{Span, FrameInfo}
use metel.Evaluator.Outcome.{Outcome, done, failed, aborted, out_of_fuel}
use metel.Evaluator.State.{
  State, M, ◌>>=◌, ◌>>◌, and_then, return, lift, read_cell, write_cell, new_cell, read_array,
  write_array, new_array, attach_stack, stack_on_error, write_output, tick, drop_last,
}
use metel.Evaluator.Env.{
  get_env, set_env, push_scope, pop_scope, define_rc, insert_innermost, bind_innermost,
  drop_innermost, with_scopes, define_cell,
}
use metel.Evaluator.Values.{Address, Environment, Value, Values}
use metel.Evaluator.Returns.{bind-done, lift-done, done-parts}
use metel.Evaluator.Loop.{enter, leave}

-- The environment and the stack of calls are as they were.
pub record Keeps {A : Type 0} (m : M A) : Type 0 where
  pub at :
      (s t : State) (a : A) → m s ≡ done (a, t) → (s.env ≡ t.env) × (s.call_stack ≡ t.call_stack)

-- All but the innermost scope is as it was.
pub record KeepsOuter {A : Type 0} (m : M A) : Type 0 where
  pub at :
      (s t : State) (a : A)
      → m s ≡ done (a, t)
      → (pop_scope s.env ≡ pop_scope t.env) × (s.call_stack ≡ t.call_stack)

-- The innermost scope is gone, and the others are as they were.
pub record Closes {A : Type 0} (m : M A) : Type 0 where
  pub at :
      (s t : State) (a : A)
      → m s ≡ done (a, t)
      → (pop_scope s.env ≡ t.env) × (s.call_stack ≡ t.call_stack)

stack_on_error-done :
    {B : Type 0} (frames : List FrameInfo) (o : Outcome B) (b : B)
    → stack_on_error frames o ≡ done b
    → o ≡ done b
unfolding stack_on_error
stack_on_error-done frames (done c) b h = h
stack_on_error-done frames (failed e) b h = absurd cc
stack_on_error-done frames aborted b h = absurd cc
stack_on_error-done frames out_of_fuel b h = absurd cc

module _ {A : Type 0} where
  pub Keeps-return : (a : A) → Keeps (return a)
  Keeps-return a = record { at = λ s t b h. (cc, cc) }

  pub Keeps-lift : (o : Outcome A) → Keeps (lift o)
  Keeps-lift o = record {
    at = λ s t a h.
        let same = (lift-done o s t a h).1 in (ap (λ u. u.env) same, ap (λ u. u.call_stack) same);
  }

  pub Keeps-if : (b : Bool) (m n : M A) → Keeps m → Keeps n → Keeps (if b then m else n)
  Keeps-if true m n km kn = km
  Keeps-if false m n km kn = kn

  pub Keeps-attach : (m : M A) → Keeps m → Keeps (attach_stack m)
  unfolding attach_stack
  Keeps-attach m km = record {
    at = λ s t a h. km.at s t a (stack_on_error-done s.call_stack (m s) (a, t) h);
  }

  pub KeepsOuter-of : (m : M A) → Keeps m → KeepsOuter m
  KeepsOuter-of m km = record { at = λ s t a h. let (e, f) = km.at s t a h in (ap pop_scope e, f) }

module _ {A B : Type 0} where
  pub Keeps-bind : (m : M A) (f : A → M B) → Keeps m → ((a : A) → Keeps (f a)) → Keeps (m >>= f)
  Keeps-bind m f km kf = record {
    at = λ s t b h.
        let (a, u, first, rest) = bind-done m f s (b, t) h in
        let (e, g) = km.at s u a first in let (e', g') = (kf a).at u t b rest in (e ∙ e', g ∙ g');
  }

  pub KeepsOuter-bind :
      (m : M A) (f : A → M B) → KeepsOuter m → ((a : A) → KeepsOuter (f a)) → KeepsOuter (m >>= f)
  KeepsOuter-bind m f km kf = record {
    at = λ s t b h.
        let (a, u, first, rest) = bind-done m f s (b, t) h in
        let (e, g) = km.at s u a first in let (e', g') = (kf a).at u t b rest in (e ∙ e', g ∙ g');
  }

  pub Closes-bind :
      (m : M A) (f : A → M B) → KeepsOuter m → ((a : A) → Closes (f a)) → Closes (m >>= f)
  Closes-bind m f km kf = record {
    at = λ s t b h.
        let (a, u, first, rest) = bind-done m f s (b, t) h in
        let (e, g) = km.at s u a first in let (e', g') = (kf a).at u t b rest in (e ∙ e', g ∙ g');
  }

module _ {A : Type 0} where
  pub Closes-leave : (m : M A) → Keeps m → Closes (leave >> m)
  unfolding leave
  Closes-leave m km = record { at = λ s t a h. km.at (record s { env = pop_scope s.env }) t a h }

  pub Keeps-enter : (m : M A) → Closes m → Keeps (enter >> m)
  unfolding enter push_scope pop_scope
  Keeps-enter m cm = record { at = λ s t a h. cm.at (record s { env = push_scope s.env }) t a h }

-- A step that puts one state in place of another with the same environment and stack.
kept :
    {A : Type 0} (a b : A) (s s' t : State)
    → s.env ≡ s'.env
    → s.call_stack ≡ s'.call_stack
    → return a s' ≡ return b t
    → (s.env ≡ t.env) × (s.call_stack ≡ t.call_stack)
kept a b s s' t e f h =
    let same = (done-parts h).1 in (e ∙ ap (λ u. u.env) same, f ∙ ap (λ u. u.call_stack) same)

pub Keeps-get_env : Keeps get_env
Keeps-get_env = record { at = λ s t a h. kept s.env a s s t refl refl h }

pub Keeps-read_cell : (a : Address) → Keeps (read_cell a)
unfolding read_cell
Keeps-read_cell a = record { at = λ s t v h. kept (s.cells a) v s s t refl refl h }

pub Keeps-read_array : (a : Address) → Keeps (read_array a)
unfolding read_array
Keeps-read_array a = record { at = λ s t v h. kept (s.arrays a) v s s t refl refl h }

pub Keeps-write_cell : (a : Address) (v : Value) → Keeps (write_cell a v)
unfolding write_cell
Keeps-write_cell a v = record { at = λ s t u h. kept {A = Unit {0}} tt u s _ t refl refl h }

pub Keeps-new_cell : (v : Value) → Keeps (new_cell v)
unfolding new_cell
Keeps-new_cell v = record { at = λ s t u h. kept s.next_cell u s _ t refl refl h }

pub Keeps-write_array : (a : Address) (vs : Values) → Keeps (write_array a vs)
unfolding write_array
Keeps-write_array a vs = record { at = λ s t u h. kept {A = Unit {0}} tt u s _ t refl refl h }

pub Keeps-new_array : (vs : Values) → Keeps (new_array vs)
unfolding new_array
Keeps-new_array vs = record { at = λ s t u h. kept s.next_array u s _ t refl refl h }

pub Keeps-write_output : (text : String) → Keeps (write_output text)
unfolding write_output
Keeps-write_output text = record { at = λ s t u h. kept {A = Unit {0}} tt u s _ t refl refl h }

pub Keeps-tick : Keeps tick
unfolding tick
Keeps-tick = record { at = λ s t u h. kept s.ticks u s _ t refl refl h }

pub Keeps-out_of_fuel : {A : Type 0} → Keeps {A = A} (λ s. out_of_fuel)
Keeps-out_of_fuel = record { at = λ s t a h. absurd cc }

define_rc-outer :
    (name : String) (cell : Address) (env env' : Environment)
    → define_rc name cell env ≡ done env'
    → pop_scope env ≡ pop_scope env'
unfolding define_rc pop_scope
define_rc-outer name cell env env' h = go env.scopes h
  where
    go :
        (scopes : List (HashMap String Address))
        → bind_innermost env (insert_innermost name cell scopes) ≡ done env'
        → with_scopes env (drop_innermost scopes) ≡ pop_scope env'
    go [] e = absurd cc
    go (scope ∷ scopes) e =
        ap pop_scope {x = with_scopes env (insert name cell scope ∷ scopes)} {y = env'} cc

-- A new name changes the innermost scope.
pub KeepsOuter-define_cell : (name : String) (cell : Address) → KeepsOuter (define_cell name cell)
unfolding define_cell
KeepsOuter-define_cell name cell = record {
  at = λ s t u h.
      let (env, s1, found, last) =
        bind-done (lift (define_rc name cell s.env)) (λ e. set_env e) s (u, t) h in
      let (defined, same) = lift-done (define_rc name cell s.env) s s1 env found in
      let end = (done-parts {A = Unit {0}} last).1 in
      (
        define_rc-outer name cell s.env env defined ∙ ap (λ v. pop_scope v.env) end,
        ap (λ v. v.call_stack) same ∙ ap (λ v. v.call_stack) end,
      );
}

pub ruleset keeps_rules = (
  Keeps-return, Keeps-lift, Keeps-if, Keeps-bind, Keeps-attach, Keeps-enter, Closes-leave,
  Closes-bind, KeepsOuter-of, KeepsOuter-bind, Keeps-get_env, Keeps-read_cell, Keeps-read_array,
  Keeps-write_cell, Keeps-new_cell, Keeps-write_array, Keeps-new_array, Keeps-write_output,
  Keeps-tick, Keeps-out_of_fuel,
)
