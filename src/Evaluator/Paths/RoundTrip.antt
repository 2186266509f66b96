-- ===== src/Evaluator/Paths/RoundTrip.antt =====
-- What is written through a path is what is read through it.
use metel.Prelude.{
  ℕ, zero, suc, String, List, [], ◌∷◌, some, false, str_eq_iff, ◌≡◌, refl, sym, ◌∙◌, ap, arith,
  Bool-cases, inl, inr,
}
use metel.Error.{Span, r0004, r0008}
use metel.Evaluator.Outcome.{done, aborted}
use metel.Evaluator.Values.{
  Address, PathSegment, Value, Values, ValueFields, field, tuple_index, array_index, tuple, array,
  struct, enum, nil, cons, nil_fields, cons_fields,
}
use metel.Evaluator.State.{State, return, lift, read_array, write_array, update}
use metel.Evaluator.Returns.{bind-done, done-parts, lift-done, some_or_panic-done}
use metel.Evaluator.Paths.{
  get_elem?, set_elem, get_field, set_field, some_or_panic, read_path, is_borrowed, borrow_mut,
  write_path,
}

get_elem?-set_elem :
    (i : ℕ) (items : Values) (v new : Value)
    → get_elem? i items ≡ some v
    → get_elem? i (set_elem i new items) ≡ some new
unfolding get_elem? set_elem
get_elem?-set_elem i nil v new h = ground (arith, h)
get_elem?-set_elem zero (cons w items) v new h = refl
get_elem?-set_elem (suc i) (cons w items) v new h = get_elem?-set_elem i items v new h

get_field-set_field :
    (f : String) (fields : ValueFields) (new : Value)
    → get_field f (set_field f new fields) ≡ some new
unfolding get_field set_field
get_field-set_field f nil_fields new = ground (arith, str_eq_iff f f)
get_field-set_field f (cons_fields k v fields) new =
    ground (arith, get_field-set_field f fields new, str_eq_iff f f)

-- Equal outside of the borrowed arrays.
abbrev pub AgreeOff : List Address → State → State → Type 0
AgreeOff held s t = (b : Address) → is_borrowed b held ≡ false → s.arrays b ≡ t.arrays b

update_self : {V : Type 0} (f : Address → V) (a : Address) (v : V) → update f a v a ≡ v
update_self f a v = ground arith

update_other :
    {V : Type 0} (f : Address → V) (a b : Address) (held : List Address) (v : V)
    → is_borrowed b (a ∷ held) ≡ false
    → f b ≡ update f a v b
update_other f a b held v h = ground (arith, h)

-- A borrow succeeds on what is not borrowed.
borrow_mut-done :
    (a : Address) (held : List Address) (s t : State) (items : Values)
    → borrow_mut a held s ≡ done (items, t)
    → is_borrowed a held ≡ false
unfolding read_array
borrow_mut-done a held s t items h = elim (Bool-cases (is_borrowed a held)) [
  | inl e ↦ absurd (clash (rw e at h))
  | inr e ↦ e
]
  where
    clash : ¬ (lift {A = Values} aborted s ≡ done (items, t))
    clash p = cc

-- Reading along the path gives the value, in every state that agrees with this one.
Reads : List Address → Value → List PathSegment → Value → Span → State → Type 0
Reads held root path new span t =
    (u : State) → AgreeOff held t u → read_path root path span u ≡ done (new, u)

empty-Reads :
    (held : List Address) (root new : Value) (span : Span) (t : State)
    → root ≡ new
    → Reads held root [] new span t
unfolding read_path Reads
empty-Reads held root new span t e u agree = rw e refl

struct-Reads :
    (held : List Address) (name f : String) (fields : ValueFields) (child new : Value)
    (path : List PathSegment) (span : Span) (t : State)
    → Reads held child path new span t
    → Reads held (struct name (set_field f child fields)) (field f ∷ path) new span t
unfolding read_path Reads
struct-Reads held name f fields child new path span t below u agree =
    rw (get_field-set_field f fields child) (below u agree)

enum-Reads :
    (held : List Address) (name variant f : String) (fields : ValueFields) (child new : Value)
    (path : List PathSegment) (span : Span) (t : State)
    → Reads held child path new span t
    → Reads held (enum name variant (set_field f child fields)) (field f ∷ path) new span t
unfolding read_path Reads
enum-Reads held name variant f fields child new path span t below u agree =
    rw (get_field-set_field f fields child) (below u agree)

tuple-Reads :
    (held : List Address) (i : ℕ) (items : Values) (old child new : Value) (path : List PathSegment)
    (span : Span) (t : State)
    → get_elem? i items ≡ some old
    → Reads held child path new span t
    → Reads held (tuple (set_elem i child items)) (tuple_index i ∷ path) new span t
unfolding read_path Reads
tuple-Reads held i items old child new path span t found below u agree =
    rw (get_elem?-set_elem i items old child found) (below u agree)

-- An array that was not borrowed, after the write.
array-Reads :
    (held : List Address) (a : Address) (i : ℕ) (items : Values) (old child new : Value)
    (path : List PathSegment) (span : Span) (t t' : State)
    → get_elem? i items ≡ some old
    → is_borrowed a held ≡ false
    → write_array a (set_elem i child items) t ≡ done (tt, t')
    → Reads (a ∷ held) child path new span t
    → Reads held (array a) (array_index i ∷ path) new span t'
unfolding read_path Reads write_array
array-Reads held a i items old child new path span t t' found free wrote below u agree =
    let (unit_eq, state_eq) = done-parts {A = Unit {0}} wrote in
    let here : u.arrays a ≡ set_elem i child items =
      sym (agree a free) ∙ ap (λ s. s.arrays a) (sym state_eq) ∙ update_self t.arrays a _ in
    let there : AgreeOff (a ∷ held) t u =
      λ b apart. elsewhere b apart ∙ ap (λ s. s.arrays b) state_eq ∙ agree b (still_free b apart) in
    rw (here, get_elem?-set_elem i items old child found) (below u there)
  where
    elsewhere :
        (b : Address)
        → is_borrowed b (a ∷ held) ≡ false
        → t.arrays b ≡ update t.arrays a (set_elem i child items) b
    elsewhere b apart = update_other t.arrays a b held _ apart

    still_free : (b : Address) → is_borrowed b (a ∷ held) ≡ false → is_borrowed b held ≡ false
    still_free b apart = ground (arith, apart)

write-Reads :
    (held : List Address) (root : Value) (path : List PathSegment) (new : Value) (span : Span)
    (s : State) (root' : Value) (t : State)
    → write_path held root path new span s ≡ done (root', t)
    → Reads held root' path new span t
unfolding write_path
write-Reads held root [] new span s root' t h = empty-Reads held root' new span t cc
write-Reads held (struct name fields) (field f ∷ path) new span s root' t h =
    let (child, s1, found, rest) =
      bind-done (lift (some_or_panic (get_field f fields) r0008 span)) _ s (root', t) h in
    let (child', t1, wrote, end) =
      bind-done (write_path held child path new span) _ s1 (root', t) rest in
    let below = write-Reads held child path new span s1 child' t1 wrote in
    let whole = struct-Reads held name f fields child' new path span t1 below in
    let (root_eq, state_eq) = done-parts end in rw (← root_eq, ← state_eq) whole
write-Reads held (enum name variant fields) (field f ∷ path) new span s root' t h =
    let (child, s1, found, rest) =
      bind-done (lift (some_or_panic (get_field f fields) r0008 span)) _ s (root', t) h in
    let (child', t1, wrote, end) =
      bind-done (write_path held child path new span) _ s1 (root', t) rest in
    let below = write-Reads held child path new span s1 child' t1 wrote in
    let whole = enum-Reads held name variant f fields child' new path span t1 below in
    let (root_eq, state_eq) = done-parts end in rw (← root_eq, ← state_eq) whole
write-Reads held (tuple items) (tuple_index i ∷ path) new span s root' t h =
    let (child, s1, found, rest) =
      bind-done (lift (some_or_panic (get_elem? i items) r0008 span)) _ s (root', t) h in
    let (child', t1, wrote, end) =
      bind-done (write_path held child path new span) _ s1 (root', t) rest in
    let below = write-Reads held child path new span s1 child' t1 wrote in
    let there =
      some_or_panic-done (get_elem? i items) r0008 span child
        (lift-done (some_or_panic (get_elem? i items) r0008 span) s s1 child found).0 in
    let whole = tuple-Reads held i items child child' new path span t1 there below in
    let (root_eq, state_eq) = done-parts end in rw (← root_eq, ← state_eq) whole
write-Reads held (array a) (array_index i ∷ path) new span s root' t h =
    let (items, s0, borrowed, rest0) = bind-done (borrow_mut a held) _ s (root', t) h in
    let (child, s1, found, rest) =
      bind-done (lift (some_or_panic (get_elem? i items) r0004 span)) _ s0 (root', t) rest0 in
    let (child', t1, wrote, rest2) =
      bind-done (write_path (a ∷ held) child path new span) _ s1 (root', t) rest in
    let (done_unit, t2, stored, end) =
      bind-done (write_array a (set_elem i child' items)) (λ x. return (array a)) t1 (root', t)
        rest2 in
    let below = write-Reads (a ∷ held) child path new span s1 child' t1 wrote in
    let there =
      some_or_panic-done (get_elem? i items) r0004 span child
        (lift-done (some_or_panic (get_elem? i items) r0004 span) s0 s1 child found).0 in
    let free = borrow_mut-done a held s s0 items borrowed in
    let whole =
      array-Reads held a i items child child' new path span t1 t2 there free stored below in
    let (root_eq, state_eq) = done-parts {a = array a} {s = t2} end in
    rw (← root_eq, ← state_eq) whole
write-Reads held _ (segment ∷ path) new span s root' t h = absurd cc

-- If a write through a path returns, then a read through the same path, of the value that the root has
-- become and in the state after the write, returns what was written and changes no state.
pub write_path-read_path :
    (root : Value) (path : List PathSegment) (new : Value) (span : Span) (s : State) (root' : Value)
    (t : State)
    → write_path [] root path new span s ≡ done (root', t)
    → read_path root' path span t ≡ done (new, t)
unfolding Reads
write_path-read_path root path new span s root' t h =
    write-Reads [] root path new span s root' t h t (λ b apart. refl)
