-- ===== src/Evaluator/Pattern/Bindings.antt =====
-- The names that a match binds.
use metel.Prelude.{
  ℕ, String, List, [], ◌∷◌, ◌++◌, Option, some, none, Bool, true, false, ◌||◌, ◌≡◌, refl, arith,
  str_eq, str_eq_iff, string_eq, if◌then◌else◌, ap, inl, inr, Option-cases, ◌≤◌, ◌==◌, ◌&&◌,
  Bool-cases,
}
use metel.Prelude.Map.{contains_key, insert, get}
use metel.Ast.Literals.{Pattern, Patterns}
use metel.Evaluator.Values.{Value, Values, ValueFields}
use metel.Evaluator.Platform.{Platform}
use metel.Evaluator.State.{State, M, and_then, return, read_array}
use metel.Evaluator.Returns.{done-parts}
use metel.Evaluator.Outcome.{Outcome, done, failed, aborted, out_of_fuel}
use metel.Evaluator.Paths.{get_field}
use metel.Evaluator.Pattern.{
  Bindings, patterns_len, values_len, type_segment, last_segment, fits, bind_fields, bind_rest,
  match_pattern, match_all,
}

abbrev pub elem : String → List String → Bool
elem k [] = false
elem k (name ∷ names) = str_eq name k || elem k names

abbrev pub rest_names : Option String → List String
rest_names none = []
rest_names (some name) = name ∷ []

-- The names that a pattern introduces, in the order that they stand in.
unfoldable mutual
  pub pattern_names : Pattern → List String
  pattern_names (Pattern.binding name span) = name ∷ []
  pattern_names (Pattern.enum_variant path names span) = names
  pattern_names (Pattern.tuple ps span) = patterns_names ps
  pattern_names (Pattern.array ps rest span) = patterns_names ps ++ rest_names rest
  pattern_names _ = []

  pub patterns_names : Patterns → List String
  patterns_names Patterns.nil = []
  patterns_names (Patterns.cons p ps) = pattern_names p ++ patterns_names ps

elem-++ : (k : String) (xs ys : List String) → elem k (xs ++ ys) ≡ (elem k xs || elem k ys)
elem-++ k [] ys = refl
elem-++ k (x ∷ xs) ys = ground (arith, elem-++ k xs ys)

contains_key-insert :
    (k name : String) (v : Value) (out : Bindings)
    → contains_key k (insert name v out) ≡ (str_eq name k || contains_key k out)
unfolding contains_key insert get
contains_key-insert k name v [] = ground arith
contains_key-insert k name v ((j, w) ∷ out) =
    ground (
      arith,
      contains_key-insert k name v out,
      str_eq_iff j name,
      str_eq_iff j k,
      str_eq_iff name k,
    )

-- The keys of a map, after a match, are the names and those that it had.
Binds : List String → Bindings → Bindings → Type 0
Binds names out out' = (k : String) → contains_key k out' ≡ (elem k names || contains_key k out)

nothing-Binds : (out out' : Bindings) → out ≡ out' → Binds [] out out'
unfolding Binds
nothing-Binds out out' e k = rw e refl

insert-Binds :
    (name : String) (v : Value) (out out' : Bindings)
    → insert name v out ≡ out'
    → Binds (name ∷ []) out out'
unfolding Binds
insert-Binds name v out out' e k = rw (← e, contains_key-insert k name v out) (ground arith)

-- A match of one part and then of the others.
and_then-Binds :
    (xs ys : List String) (a b c : Bindings) → Binds xs a b → Binds ys b c → Binds (xs ++ ys) a c
unfolding Binds
and_then-Binds xs ys a b c f g k = ground (arith, f k, g k, elem-++ k xs ys)

not_matched : (a b : Bindings) → ◌≡◌ {A = Bool × Bindings} (false, a) (true, b) → ⊥
not_matched a b p = ground (arith, ap (λ r. r.0) p)

bind_fields-Binds :
    (names : List String) (fields : ValueFields) (out out' : Bindings)
    → bind_fields names fields out ≡ (true, out')
    → Binds names out out'
unfolding bind_fields Binds
bind_fields-Binds [] fields out out' h = nothing-Binds out out' (ap (λ r. r.1) h)
bind_fields-Binds (name ∷ names) fields out out' h = elim (Option-cases (get_field name fields)) [
  | inl e ↦ absurd (not_matched out out' (rw (bind_fields, e) at h))
  | inr (v, e) ↦
      and_then-Binds (name ∷ []) names out _ out' (insert-Binds name v out _ refl)
        (bind_fields-Binds names fields (insert name v out) out' (rw (bind_fields, e) at h))
]

bind_rest-Binds :
    (rest : Option String) (n : ℕ) (items : Values) (out out' : Bindings) (s t : State)
    → bind_rest rest n items out s ≡ done ((true, out'), t)
    → Binds (rest_names rest) out out'
unfolding bind_rest Binds
bind_rest-Binds none n items out out' s t h =
    nothing-Binds out out' (ap (λ r. r.1) (done-parts h).0)
bind_rest-Binds (some name) n items out out' s t h =
    insert-Binds name (Value.array s.next_array) out out'
      (ap (λ r. r.1) (done-parts {A = Bool × Bindings} h).0)

-- What a step that returns whether it has matched, and the bindings, has returned.
returned-Binds :
    (b : Bool) (names : List String) (a out out' : Bindings) (s t : State)
    → Binds names a out
    → return {A = Bool × Bindings} (b, out) s ≡ return {A = Bool × Bindings} (true, out') t
    → Binds names a out'
returned-Binds b names a out out' s t below h =
    rw (← ap (λ r. r.1) (done-parts {A = Bool × Bindings} h).0) below

-- What follows where the first has matched.
abbrev pub if_matched : (Bindings → M (Bool × Bindings)) → Bool × Bindings → M (Bool × Bindings)
if_matched next (matched, out) = if matched then next out else return (false, out)

two_steps-Binds :
    (xs ys : List String) (first : Outcome ((Bool × Bindings) × State))
    (next : Bindings → M (Bool × Bindings)) (a c : Bindings) (t : State)
    → ((b : Bindings) (u : State) → first ≡ done ((true, b), u) → Binds xs a b)
    → ((b : Bindings) (u : State) → next b u ≡ done ((true, c), t) → Binds ys b c)
    → and_then first (if_matched next) ≡ done ((true, c), t)
    → Binds (xs ++ ys) a c
two_steps-Binds xs ys (done ((true, b), u)) next a c t f g h =
    and_then-Binds xs ys a b c (f b u refl) (g b u h)
two_steps-Binds xs ys (done ((false, b), u)) next a c t f g h =
    absurd (not_matched b c (done-parts {A = Bool × Bindings} h).0)
two_steps-Binds xs ys (failed e) next a c t f g h = absurd cc
two_steps-Binds xs ys aborted next a c t f g h = absurd cc
two_steps-Binds xs ys out_of_fuel next a c t f g h = absurd cc

fits-≤ : (rest : Option String) (a b : ℕ) → fits rest a b ≡ true → a ≤ b
fits-≤ none a b h = ground (arith, h)
fits-≤ (some name) a b h = ground (arith, h)

module _ (rust : Platform) where
  mutual
    unfolding match_pattern pattern_names values_len patterns_len read_array

    match_pattern-Binds :
        (p : Pattern) (v : Value) (out out' : Bindings) (s t : State)
        → match_pattern rust p v out s ≡ done ((true, out'), t)
        → Binds (pattern_names p) out out'
    match_pattern-Binds (Pattern.wildcard span) v out out' s t h =
        returned-Binds _ [] out out out' s t (nothing-Binds out out refl) h
    match_pattern-Binds (Pattern.none span) v out out' s t h =
        returned-Binds _ [] out out out' s t (nothing-Binds out out refl) h
    match_pattern-Binds (Pattern.literal lit span) v out out' s t h =
        returned-Binds _ [] out out out' s t (nothing-Binds out out refl) h
    match_pattern-Binds (Pattern.binding name span) v out out' s t h =
        returned-Binds true (name ∷ []) out _ out' s t (insert-Binds name v out _ refl) h
    match_pattern-Binds (Pattern.tuple ps span) (Value.tuple items) out out' s t h =
        elim (Bool-cases (values_len items == patterns_len ps)) [
          | inl e ↦ match_all-Binds ps items out out' s t (fits-≤ none _ _ e) (rw e at h)
          | inr e ↦ absurd (not_matched out out' (done-parts {A = Bool × Bindings} (rw e at h)).0)
        ]
    match_pattern-Binds (Pattern.enum_variant path names span) (Value.enum tag variant fields) out
          out' s t h =
        elim (Bool-cases (str_eq tag (type_segment path) && str_eq variant (last_segment path))) [
          | inl e ↦
              bind_fields-Binds names fields out out'
                (ap (λ r. r) (done-parts {A = Bool × Bindings} (rw e at h)).0)
          | inr e ↦ absurd (not_matched out out' (done-parts {A = Bool × Bindings} (rw e at h)).0)
        ]
    match_pattern-Binds (Pattern.array ps rest span) (Value.array a) out out' s t h =
        elim (Bool-cases (fits rest (patterns_len ps) (values_len (s.arrays a)))) [
          | inl e ↦
              two_steps-Binds (patterns_names ps) (rest_names rest)
                (match_all rust ps (s.arrays a) out s)
                (bind_rest rest (patterns_len ps) (s.arrays a)) out out' t
                (λ b u f. match_all-Binds ps (s.arrays a) out b s u (fits-≤ rest _ _ e) f)
                (λ b u f. bind_rest-Binds rest (patterns_len ps) (s.arrays a) b out' u t f)
                (rw e at h)
          | inr e ↦ absurd (not_matched out out' (done-parts {A = Bool × Bindings} (rw e at h)).0)
        ]
    match_pattern-Binds _ v out out' s t h =
        absurd (not_matched out out' (done-parts {A = Bool × Bindings} h).0)

    match_all-Binds :
        (ps : Patterns) (vs : Values) (out out' : Bindings) (s t : State)
        → patterns_len ps ≤ values_len vs
        → match_all rust ps vs out s ≡ done ((true, out'), t)
        → Binds (patterns_names ps) out out'
    match_all-Binds Patterns.nil vs out out' s t l h =
        returned-Binds _ [] out out out' s t (nothing-Binds out out refl) h
    match_all-Binds (Patterns.cons p ps) (Values.cons v vs) out out' s t l h =
        two_steps-Binds (pattern_names p) (patterns_names ps) (match_pattern rust p v out s)
          (match_all rust ps vs) out out' t (λ b u f. match_pattern-Binds p v out b s u f)
          (λ b u f. match_all-Binds ps vs b out' u t (omega arith) f) h
    match_all-Binds (Patterns.cons p ps) Values.nil out out' s t l h = absurd (omega arith)

  -- If a pattern matches, then the names that are bound after the match are those that were bound
  -- before it and those that the pattern introduces.
  pub contains_key-match_pattern :
      (p : Pattern) (v : Value) (out out' : Bindings) (s t : State) (k : String)
      → match_pattern rust p v out s ≡ done ((true, out'), t)
      → contains_key k out' ≡ (elem k (pattern_names p) || contains_key k out)
  unfolding Binds
  contains_key-match_pattern p v out out' s t k h = match_pattern-Binds p v out out' s t h k
