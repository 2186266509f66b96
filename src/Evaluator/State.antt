-- ===== src/Evaluator/State.antt =====
-- The state that the evaluator works on: its environment, the heap of cells and arrays, the stack of
-- calls, and what it has written. `CALL_STACK` of evaluator/mod.rs is thread-local there.
use metel.Prelude.{ℕ, String, List, [], ◌∷◌, ◌++◌, ◌+◌, ◌==◌, if◌then◌else◌}
use metel.Error.{Span, MetelError, FrameInfo, runtime_panic}
use metel.Evaluator.Outcome.{Outcome, done, failed, aborted, out_of_fuel}
use metel.Evaluator.Values.{Address, Environment, Value, Values}

-- An address that is not below the counter has not been given out.
pub record State : Type 0 where
  pub env : Environment
  pub cells : Address → Value
  pub next_cell : Address
  pub arrays : Address → Values
  pub next_array : Address
  pub call_stack : List FrameInfo
  pub output : List String
  pub ticks : ℕ

abbrev pub M : Type 0 → Type 0
M A = State → Outcome (A × State)

-- What follows an outcome.
abbrev pub and_then : {A B : Type 0} → Outcome (A × State) → (A → M B) → Outcome (B × State)
and_then (done (a, s)) f = f a s
and_then (failed e) f = failed e
and_then aborted f = aborted
and_then out_of_fuel f = out_of_fuel

infixl 5 ◌>>=◌ ◌>>◌
abbrev pub ◌>>=◌ : {A B : Type 0} → M A → (A → M B) → M B
◌>>=◌ m f s = and_then (m s) f

abbrev pub ◌>>◌ : {A B : Type 0} → M A → M B → M B
m >> k = m >>= λ _. k

abbrev pub return : {A : Type 0} → A → M A
return a s = done (a, s)

-- A step that reads and writes no state.
abbrev pub lift : {A : Type 0} → Outcome A → M A
lift (done a) s = done (a, s)
lift (failed e) s = failed e
lift aborted s = aborted
lift out_of_fuel s = out_of_fuel

abbrev pub update : {V : Type 0} → (Address → V) → Address → V → Address → V
update f a v b = if b == a then v else f b

-- `rc.borrow().clone()`
unfoldable pub read_cell : Address → M Value
read_cell a s = done (s.cells a, s)

-- `*rc.borrow_mut() = v`
unfoldable pub write_cell : Address → Value → M (Unit {0})
write_cell a v s = done (tt, record s { cells = update s.cells a v })

-- `Rc::new(RefCell::new(v))`
unfoldable pub new_cell : Value → M Address
new_cell v s =
    done
      (s.next_cell, record s { cells = update s.cells s.next_cell v; next_cell = s.next_cell + 1 })

unfoldable pub read_array : Address → M Values
read_array a s = done (s.arrays a, s)

unfoldable pub write_array : Address → Values → M (Unit {0})
write_array a vs s = done (tt, record s { arrays = update s.arrays a vs })

unfoldable pub new_array : Values → M Address
new_array vs s = done (
  s.next_array,
  record s { arrays = update s.arrays s.next_array vs; next_array = s.next_array + 1 },
)

abbrev pub drop_last : List FrameInfo → List FrameInfo
drop_last [] = []
drop_last (x ∷ []) = []
drop_last (x ∷ y ∷ ys) = x ∷ drop_last (y ∷ ys)

unfoldable pub push_frame : String → Span → M (Unit {0})
push_frame fn_name call_site s = done (
  tt,
  record s {
    call_stack = s.call_stack ++ record { fn_name = fn_name; call_site = call_site } ∷ [];
  },
)

unfoldable pub pop_frame : M (Unit {0})
pop_frame s = done (tt, record s { call_stack = drop_last s.call_stack })

-- `MetelError::with_stack`
unfoldable pub with_stack : MetelError → List FrameInfo → MetelError
with_stack (runtime_panic code span []) frames = runtime_panic code span frames
with_stack e frames = e

-- `map_err(|e| e.with_stack(frames))`
unfoldable pub stack_on_error : {B : Type 0} → List FrameInfo → Outcome B → Outcome B
unfolding with_stack
stack_on_error frames (done b) = done b
stack_on_error frames (failed e) = failed (with_stack e frames)
stack_on_error frames aborted = aborted
stack_on_error frames out_of_fuel = out_of_fuel

-- `map_err(attach_stack)`: the stack is that at the end of the step, which an error ends as it began,
-- with the frame of the call that the step makes.
unfoldable pub attach_stack : {A : Type 0} → M A → M A
unfolding stack_on_error
attach_stack m s = stack_on_error s.call_stack (m s)

unfoldable pub write_output : String → M (Unit {0})
write_output text s = done (tt, record s { output = s.output ++ text ∷ [] })

-- The number of readings of the clock so far.
unfoldable pub tick : M ℕ
tick s = done (s.ticks, record s { ticks = s.ticks + 1 })

-- `CALL_STACK.with(|s| s.borrow_mut().clear())`
unfoldable pub clear_stack : M (Unit {0})
clear_stack s = done (tt, record s { call_stack = [] })
