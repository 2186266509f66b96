-- ===== src/Evaluator/Env/Capture.antt =====
-- evaluator/mod.rs: `capture_clone`, and what its cells are to the cells of the environment.
use metel.Prelude.{
  ℕ, String, Option, some, none, Bool, List, [], ◌∷◌, ◌≡◌, refl, ◌∙◌, ap, ◌≤◌, ◌<◌, arith,
  string_eq, subst, ◌⊎◌, inl, inr,
}
use metel.Prelude.Map.{HashMap, get, or_else}
use metel.Evaluator.Outcome.{done}
use metel.Evaluator.State.{State, M, ◌>>=◌, return, read_cell, write_cell, new_cell, update}
use metel.Evaluator.Env.{
  deep_clone_value, find_cell, get_rc, set_value, write_found, capture_scope, capture_scopes,
  capture_clone,
}
use metel.Evaluator.Returns.{bind-done, done-parts}
use metel.Evaluator.Values.{Address, Environment, Value}
use metel.Evaluator.Env.Cells.{
  Extends, KeepsCells-read_cell, KeepsCells-deep_clone_value, Extends-refl, Extends-trans,
  Extends-same, new_cell-Extends,
}

-- Every cell of the scope is at the bound or above it.
abbrev pub IsFrom : ℕ → HashMap String Address → Type 0
IsFrom n [] = Unit {0}
IsFrom n ((name, a) ∷ scope) = (n ≤ a) × IsFrom n scope

abbrev pub AreFrom : ℕ → List (HashMap String Address) → Type 0
AreFrom n [] = Unit {0}
AreFrom n (scope ∷ scopes) = IsFrom n scope × AreFrom n scopes

IsFrom-mono : (m n : ℕ) (scope : HashMap String Address) → m ≤ n → IsFrom n scope → IsFrom m scope
IsFrom-mono m n [] l h = tt
IsFrom-mono m n ((name, a) ∷ scope) l (h, rest) = (omega arith, IsFrom-mono m n scope l rest)

AreFrom-mono :
    (m n : ℕ) (scopes : List (HashMap String Address)) → m ≤ n → AreFrom n scopes → AreFrom m scopes
AreFrom-mono m n [] l h = tt
AreFrom-mono m n (scope ∷ scopes) l (h, rest) =
    (IsFrom-mono m n scope l h, AreFrom-mono m n scopes l rest)

capture_scope-IsFrom :
    (fuel : ℕ) (scope : HashMap String Address) (s t : State) (scope' : HashMap String Address)
    → capture_scope fuel scope s ≡ done (scope', t)
    → Extends s t × IsFrom s.next_cell scope'
unfolding capture_scope
capture_scope-IsFrom fuel [] s t scope' h =
    let (e, g) = done-parts h in
    (subst (λ u. Extends s u) g (Extends-refl s), subst (IsFrom s.next_cell) e tt)
capture_scope-IsFrom fuel ((name, cell) ∷ scope) s t scope' h =
    let consed : Address → HashMap String Address → M (HashMap String Address) =
      λ c r. return ((name, c) ∷ r) in
    let others : Address → M (HashMap String Address) =
      λ c. capture_scope fuel scope >>= consed c in
    let stored : Value → M (HashMap String Address) = λ v. new_cell v >>= others in
    let copied : Value → M (HashMap String Address) = λ v. deep_clone_value fuel v >>= stored in
    let (v, s1, h1, k1) = bind-done (read_cell cell) copied s (scope', t) h in
    let (copy, s2, h2, k2) = bind-done (deep_clone_value fuel v) stored s1 (scope', t) k1 in
    let (a, s3, h3, k3) = bind-done (new_cell copy) others s2 (scope', t) k2 in
    let (rest, s4, h4, k4) = bind-done (capture_scope fuel scope) (consed a) s3 (scope', t) k3 in
    let e1 = Extends-same s s1 ((KeepsCells-read_cell cell).at s s1 v h1) in
    let e2 = Extends-same s1 s2 ((KeepsCells-deep_clone_value fuel v).at s1 s2 copy h2) in
    let (e3, fresh) = new_cell-Extends copy s2 s3 a h3 in
    let (e4, from) = capture_scope-IsFrom fuel scope s3 s4 rest h4 in
    let (e, g) = done-parts k4 in
    let before = Extends-trans s s1 s2 e1 e2 in
    let middle = Extends-trans s s2 s3 before e3 in
    let all = Extends-trans s s3 s4 middle e4 in
    let low : s.next_cell ≤ a = omega (arith, before.grows, fresh) in
    let low_rest = IsFrom-mono s.next_cell s3.next_cell rest middle.grows from in
    let both : IsFrom s.next_cell ((name, a) ∷ rest) = (low, low_rest) in
    (subst (λ u. Extends s u) g all, subst (IsFrom s.next_cell) e both)

capture_scopes-AreFrom :
    (fuel : ℕ) (scopes : List (HashMap String Address)) (s t : State)
    (scopes' : List (HashMap String Address))
    → capture_scopes fuel scopes s ≡ done (scopes', t)
    → Extends s t × AreFrom s.next_cell scopes'
unfolding capture_scopes
capture_scopes-AreFrom fuel [] s t scopes' h =
    let (e, g) = done-parts h in
    (subst (λ u. Extends s u) g (Extends-refl s), subst (AreFrom s.next_cell) e tt)
capture_scopes-AreFrom fuel (scope ∷ scopes) s t scopes' h =
    let (scope', s1, h1, k1) = bind-done (capture_scope fuel scope) _ s (scopes', t) h in
    let (rest, s2, h2, k2) = bind-done (capture_scopes fuel scopes) _ s1 (scopes', t) k1 in
    let (e1, from1) = capture_scope-IsFrom fuel scope s s1 scope' h1 in
    let (e2, from2) = capture_scopes-AreFrom fuel scopes s1 s2 rest h2 in
    let (e, g) = done-parts k2 in
    let low_rest = AreFrom-mono s.next_cell s1.next_cell rest e1.grows from2 in
    let both : AreFrom s.next_cell (scope' ∷ rest) = (from1, low_rest) in
    (subst (λ u. Extends s u) g (Extends-trans s s1 s2 e1 e2), subst (AreFrom s.next_cell) e both)

get-IsFrom :
    (n : ℕ) (name : String) (scope : HashMap String Address) (a : Address)
    → IsFrom n scope
    → get name scope ≡ some a
    → n ≤ a
unfolding get
get-IsFrom n name [] a from h = absurd cc
get-IsFrom n name ((k, cell) ∷ scope) a (low, from) h =
    ground (arith, get-IsFrom n name scope a from)

or_else-some :
    (o p : Option Address) (a : Address) → or_else o p ≡ some a → (o ≡ some a) ⊎ (p ≡ some a)
or_else-some (some b) p a h = inl h
or_else-some none p a h = inr h

find_cell-AreFrom :
    (n : ℕ) (name : String) (scopes : List (HashMap String Address)) (a : Address)
    → AreFrom n scopes
    → find_cell name scopes ≡ some a
    → n ≤ a
unfolding find_cell
find_cell-AreFrom n name [] a from h = absurd cc
find_cell-AreFrom n name (scope ∷ scopes) a (inner, outer) h =
    elim (or_else-some (get name scope) (find_cell name scopes) a h) [
      | inl e ↦ get-IsFrom n name scope a inner e
      | inr e ↦ find_cell-AreFrom n name scopes a outer e
    ]

write_cell-below :
    (a b n : Address) (v : Value) (s t : State) (r : Unit {0})
    → n ≤ a
    → b < n
    → write_cell a v s ≡ done (r, t)
    → s.cells b ≡ t.cells b
unfolding write_cell
write_cell-below a b n v s t r from below h =
    let (_, same) = done-parts h in untouched ∙ ap (λ u. u.cells b) same
  where
    untouched : s.cells b ≡ update s.cells a v b
    untouched = ground (arith, from, below)

write_found-below :
    (fuel : ℕ) (o : Option Address) (b n : Address) (v : Value) (s t : State) (w : Bool)
    → ((a : Address) → o ≡ some a → n ≤ a)
    → b < n
    → write_found fuel o v s ≡ done (w, t)
    → s.cells b ≡ t.cells b
write_found-below fuel none b n v s t w from below h =
    let (_, same) = done-parts h in ap (λ u. u.cells b) same
write_found-below fuel (some a) b n v s t w from below h =
    let (copy, s1, h1, k1) = bind-done (deep_clone_value fuel v) _ s (w, t) h in
    let (r, s2, h2, k2) = bind-done (write_cell a copy) _ s1 (w, t) k1 in
    let (_, same) = done-parts k2 in
    let (kept, _) = (KeepsCells-deep_clone_value fuel v).at s s1 copy h1 in
    ap (λ f. f b) kept
    ∙ write_cell-below a b n copy s1 s2 r (from a refl) below h2
    ∙ ap (λ u. u.cells b) same

capture_clone-AreFrom :
    (fuel : ℕ) (env env' : Environment) (s t : State)
    → capture_clone fuel env s ≡ done (env', t)
    → Extends s t × AreFrom s.next_cell env'.scopes
unfolding capture_clone
capture_clone-AreFrom fuel env env' s t h =
    let (scopes, s1, h1, k1) = bind-done (capture_scopes fuel env.scopes) _ s (env', t) h in
    let (e1, from) = capture_scopes-AreFrom fuel env.scopes s s1 scopes h1 in
    let (e, g) = done-parts k1 in
    (subst (λ u. Extends s u) g e1, subst (λ x. AreFrom s.next_cell x.scopes) e from)

-- Capturing an environment for a closure, and then assigning through the copy to any of its
-- names, leaves every cell that was allocated before the capture with the value it had.
pub set_value-capture_clone :
    (fuel fuel' : ℕ) (env env' : Environment) (name : String) (v : Value) (w : Bool) (s t u : State)
    → capture_clone fuel env s ≡ done (env', t)
    → set_value fuel' name v env' t ≡ done (w, u)
    → (b : Address) → b < s.next_cell
    → s.cells b ≡ u.cells b
unfolding set_value get_rc
set_value-capture_clone fuel fuel' env env' name v w s t u h k b below =
    let (ext, from) = capture_clone-AreFrom fuel env env' s t h in
    ext.old b below
    ∙ write_found-below fuel' (get_rc name env') b s.next_cell v t u w
        (λ a e. find_cell-AreFrom s.next_cell name env'.scopes a from e) below k
