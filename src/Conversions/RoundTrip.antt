-- ===== src/Conversions/RoundTrip.antt =====
-- A resolved type survives the way through the types with variables, and the way back fails exactly
-- at types with variables.
use metel.Prelude.{◌≡◌, refl, ◌⊎◌, inl, inr}
use metel.Error.{Span, type_error, t0002}
use metel.Run.{Run, ok, err, ◌>>=◌}
use metel.Types.{ResolvedType, ResolvedTypes}
use metel.TypeInference.Syntax.{
  InferType, InferTypes, concrete, var, never, fun, tuple, array, sized_array, pointer, mut_pointer,
  named, nil, cons,
}
use metel.TypeInference.Substitution.Vars.{AllVars, AllVarsOf}
use metel.Conversions.Defs.{infer_type_to_type, infer_types_to_types, type_to_infer, types_to_infer}

mutual
  unfolding infer_type_to_type type_to_infer

  round_trip : (span : Span) (t : ResolvedType) → infer_type_to_type span (type_to_infer t) ≡ ok t
  round_trip span (ResolvedType.array t) = rw (round_trip span t)
  round_trip span (ResolvedType.sized_array t n) = rw (round_trip span t)
  round_trip span (ResolvedType.tuple ts) = rw (round_trips span ts)
  round_trip span (ResolvedType.pointer t) = rw (round_trip span t)
  round_trip span (ResolvedType.mut_pointer t) = rw (round_trip span t)
  round_trip span (ResolvedType.fun ps t) = rw (round_trips span ps, round_trip span t)
  round_trip span (ResolvedType.named name ts) = rw (round_trips span ts)
  round_trip span _ = refl

  round_trips :
      (span : Span) (ts : ResolvedTypes) → infer_types_to_types span (types_to_infer ts) ≡ ok ts
  round_trips span ResolvedTypes.nil = refl
  round_trips span (ResolvedTypes.cons t ts) = rw (round_trip span t, round_trips span ts)

-- A resolved type turned into one with variables converts back to itself.
pub infer_type_to_type-type_to_infer :
    (span : Span) (t : ResolvedType) → infer_type_to_type span (type_to_infer t) ≡ ok t
infer_type_to_type-type_to_infer span t = round_trip span t

-- No variable occurs.
abbrev pub IsClosed : InferType → Type 0
IsClosed = AllVars (λ v. ⊥)

-- What a conversion says of its type: a value, and no variable occurs; or the error, and one does.
data Verdict {A : Type 0} (span : Span) (Closed : Type 0) : Run A → Type 0 where
  converts : {a : A} → Closed → Verdict span Closed (ok a)
  fails : ¬ Closed → Verdict span Closed (err (type_error t0002 span))

-- A conversion of one part under a constructor.
Verdict-map :
    {A B : Type 0} {span : Span} {Closed : Type 0} {m : Run A} (f : A → B)
    → Verdict span Closed m
    → Verdict span Closed (m >>= λ a. ok (f a))
Verdict-map f (converts c) = converts c
Verdict-map f (fails n) = fails n

-- Two conversions, one after the other.
Verdict-both :
    {A B C : Type 0} {span : Span} {P Q : Type 0} {m : Run A} {n : Run B} (f : A → B → C)
    → Verdict span P m
    → Verdict span Q n
    → Verdict span (P × Q) (m >>= λ a. n >>= λ b. ok (f a b))
Verdict-both f (converts p) (converts q) = converts (p, q)
Verdict-both f (converts p) (fails n) = fails (λ h. n h.1)
Verdict-both f (fails n) v = fails (λ h. n h.0)

mutual
  unfolding infer_type_to_type

  verdict : (span : Span) (t : InferType) → Verdict span (IsClosed t) (infer_type_to_type span t)
  verdict span (concrete t) = converts tt
  verdict span never = converts tt
  verdict span (var v) = fails (λ h. h)
  verdict span (fun ps t) = Verdict-both ResolvedType.fun (verdicts span ps) (verdict span t)
  verdict span (tuple ts) = Verdict-map ResolvedType.tuple (verdicts span ts)
  verdict span (array t) = Verdict-map ResolvedType.array (verdict span t)
  verdict span (sized_array t n) = Verdict-map (λ u. ResolvedType.sized_array u n) (verdict span t)
  verdict span (pointer t) = Verdict-map ResolvedType.pointer (verdict span t)
  verdict span (mut_pointer t) = Verdict-map ResolvedType.mut_pointer (verdict span t)
  verdict span (named name ts) = Verdict-map (ResolvedType.named name) (verdicts span ts)

  verdicts :
      (span : Span) (ts : InferTypes)
      → Verdict span (AllVarsOf (λ v. ⊥) ts) (infer_types_to_types span ts)
  verdicts span nil = converts tt
  verdicts span (cons t ts) = Verdict-both ResolvedTypes.cons (verdict span t) (verdicts span ts)

Verdict-says :
    {A : Type 0} {span : Span} {Closed : Type 0} {m : Run A}
    → Verdict span Closed m
    → (((a : A) × (m ≡ ok a)) × Closed) ⊎ ((m ≡ err (type_error t0002 span)) × (¬ Closed))
Verdict-says (converts {a} c) = inl ((a, refl), c)
Verdict-says (fails n) = inr (refl, n)

-- `infer_type_to_type` returns a type, and then no variable occurs in its argument, or it fails with
-- `T0002` at the span, and then some variable does.
pub infer_type_to_type_lem :
    (span : Span) (t : InferType)
    → (((u : ResolvedType) × (infer_type_to_type span t ≡ ok u)) × IsClosed t)
      ⊎ ((infer_type_to_type span t ≡ err (type_error t0002 span)) × (¬ IsClosed t))
infer_type_to_type_lem span t = Verdict-says (verdict span t)
