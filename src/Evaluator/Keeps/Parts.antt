-- ===== src/Evaluator/Keeps/Parts.antt =====
-- The parts of the evaluator that run no other part of the tree keep the environment and the stack.
use metel.Prelude.{
  ℕ, zero, suc, String, Option, some, none, false, List, [], ◌∷◌, ◌==◌, ◌&&◌, str_eq,
}
use metel.Error.{Span}
use metel.Types.{ResolvedType}
use metel.Ast.Literals.{Pattern, Patterns, i64}
use metel.Evaluator.Platform.{Platform}
use metel.Evaluator.State.{M}
use metel.Evaluator.Paths.{read_segment, read_path, write_path, deref_value}
use metel.Evaluator.Pattern.{
  Bindings, match_pattern, match_all, bind_rest, fits, patterns_len, values_len, type_segment,
  last_segment, bind_fields,
}
use metel.Evaluator.TypeOf.{type_with, types_with, first_type, value_to_type, value_types}
use metel.Evaluator.Builtins.{run_intrinsic, with_inner, inner_of, print_text, is_list}
use metel.Evaluator.Display.{value_to_display_string}
use metel.Evaluator.Keeps.{Keeps, Keeps-if, Keeps-bind, Keeps-return, Keeps-read_array, keeps_rules}
use metel.Evaluator.Values.{
  Address, PathSegment, field, tuple_index, array_index, Value, Values, Intrinsic, closure,
  intrinsic, int, tuple, array, struct, enum, callable, pointer, mut_pointer, mut_field_pointer,
  nil, cons, print, println, array_len, list_new, list_from, list_push, list_pop, list_len,
  list_get, list_as_slice, clock,
}

Keeps-read_segment :
    (segment : PathSegment) (v : Value) (span : Span) → Keeps (read_segment segment v span)
unfolding read_segment
Keeps-read_segment (array_index i) (array a) span = search keeps_rules
Keeps-read_segment (field f) (struct name fields) span = search keeps_rules
Keeps-read_segment (field f) (enum name variant fields) span = search keeps_rules
Keeps-read_segment (tuple_index i) (tuple items) span = search keeps_rules
Keeps-read_segment _ v span = search keeps_rules

pub Keeps-read_path :
    (path : List PathSegment) (v : Value) (span : Span) → Keeps (read_path v path span)
unfolding read_path
Keeps-read_path [] v span = search keeps_rules
Keeps-read_path (segment ∷ path) v span =
    search (keeps_rules, Keeps-read_segment, Keeps-read_path path)

pub Keeps-write_path :
    (path : List PathSegment) (held : List Address) (v new : Value) (span : Span)
    → Keeps (write_path held v path new span)
unfolding write_path
Keeps-write_path [] held v new span = search keeps_rules
Keeps-write_path (field f ∷ path) held (struct name fields) new span =
    search (keeps_rules, Keeps-write_path path) depth 8
Keeps-write_path (field f ∷ path) held (enum name variant fields) new span =
    search (keeps_rules, Keeps-write_path path) depth 8
Keeps-write_path (tuple_index i ∷ path) held (tuple items) new span =
    search (keeps_rules, Keeps-write_path path) depth 8
Keeps-write_path (array_index i ∷ path) held (array a) new span =
    search (keeps_rules, Keeps-write_path path) depth 12
Keeps-write_path (segment ∷ path) held _ new span = search keeps_rules

pub Keeps-deref_value : (v : Value) (span : Span) → Keeps (deref_value v span)
unfolding deref_value
Keeps-deref_value (pointer a) span = search keeps_rules
Keeps-deref_value (mut_pointer a) span = search keeps_rules
Keeps-deref_value (mut_field_pointer root path) span = search (keeps_rules, Keeps-read_path path)
Keeps-deref_value _ span = search keeps_rules

pub Keeps-bind_rest :
    (rest : Option String) (n : ℕ) (items : Values) (out : Bindings)
    → Keeps (bind_rest rest n items out)
unfolding bind_rest
Keeps-bind_rest none n items out = search keeps_rules
Keeps-bind_rest (some name) n items out = search keeps_rules

Keeps-with_inner :
    {A : Type 0} (o : Option Value) (f : ℕ → M A) → ((a : ℕ) → Keeps (f a)) → Keeps (with_inner o f)
Keeps-with_inner (some (array a)) f k = k a
Keeps-with_inner none f k = search keeps_rules
Keeps-with_inner (some _) f k = search keeps_rules

Keeps-first_type :
    (f : Value → M ResolvedType)
    → ((v : Value) → Keeps (f v))
    → (vs : Values) → Keeps (first_type f vs)
Keeps-first_type f k nil = search keeps_rules
Keeps-first_type f k (cons v vs) = k v

module _ (rust : Platform) where
  mutual
    unfolding match_pattern

    pub Keeps-match_pattern :
        (p : Pattern) (v : Value) (out : Bindings) → Keeps (match_pattern rust p v out)
    Keeps-match_pattern (Pattern.tuple ps span) (tuple items) out =
        Keeps-if (values_len items == patterns_len ps) _ _ (Keeps-match_all ps items out)
          (Keeps-return (false, out))
    Keeps-match_pattern (Pattern.array ps rest span) (array a) out =
        Keeps-bind _ _ (Keeps-read_array a) (λ items.
          Keeps-if (fits rest (patterns_len ps) (values_len items)) _ _
            (Keeps-bind _ _ (Keeps-match_all ps items out) (λ r.
              Keeps-if r.0 _ _ (Keeps-bind_rest rest (patterns_len ps) items r.1)
                (Keeps-return (false, r.1))))
            (Keeps-return (false, out)))
    Keeps-match_pattern (Pattern.enum_variant path names span) (enum name variant fields) out =
        Keeps-if (str_eq name (type_segment path) && str_eq variant (last_segment path)) _ _
          (Keeps-return (bind_fields names fields out)) (Keeps-return (false, out))
    Keeps-match_pattern _ v out = search keeps_rules

    Keeps-match_all :
        (ps : Patterns) (vs : Values) (out : Bindings) → Keeps (match_all rust ps vs out)
    Keeps-match_all (Patterns.cons p ps) (cons v vs) out =
        Keeps-bind _ _ (Keeps-match_pattern p v out)
          (λ r. Keeps-if r.0 _ _ (Keeps-match_all ps vs r.1) (Keeps-return (false, r.1)))
    Keeps-match_all _ _ out = search keeps_rules

  mutual
    unfolding type_with

    Keeps-type_with :
        (f : Value → M ResolvedType)
        → ((v : Value) → Keeps (f v))
        → (v : Value) → Keeps (type_with rust f v)
    Keeps-type_with f k (tuple items) = search (keeps_rules, Keeps-types_with f k items)
    Keeps-type_with f k (array a) = search (keeps_rules, Keeps-first_type f k, k)
    Keeps-type_with f k (pointer a) = search (keeps_rules, k)
    Keeps-type_with f k (mut_pointer a) = search (keeps_rules, k)
    Keeps-type_with f k (mut_field_pointer root path) = search (keeps_rules, k)
    Keeps-type_with f k (callable (closure c)) = search keeps_rules
    Keeps-type_with f k (callable (intrinsic i)) = search keeps_rules
    Keeps-type_with f k _ = search keeps_rules

    Keeps-types_with :
        (f : Value → M ResolvedType)
        → ((v : Value) → Keeps (f v))
        → (vs : Values) → Keeps (types_with rust f vs)
    Keeps-types_with f k nil = search keeps_rules
    Keeps-types_with f k (cons v vs) =
        search (keeps_rules, Keeps-type_with f k v, Keeps-types_with f k vs)

  Keeps-value_to_type : (fuel : ℕ) (v : Value) → Keeps (value_to_type rust fuel v)
  unfolding value_to_type
  Keeps-value_to_type zero v = search keeps_rules
  Keeps-value_to_type (suc fuel) v =
      Keeps-type_with (value_to_type rust fuel) (Keeps-value_to_type fuel) v

  pub Keeps-value_types : (fuel : ℕ) (vs : Values) → Keeps (value_types rust fuel vs)
  unfolding value_types
  Keeps-value_types fuel vs =
      Keeps-types_with (value_to_type rust fuel) (Keeps-value_to_type fuel) vs

  Keeps-print_text :
      (o : Option String) (end : String) (span : Span) → Keeps (print_text rust o end span)
  Keeps-print_text (some text) end span = search keeps_rules
  Keeps-print_text none end span = search keeps_rules

  pub Keeps-run_intrinsic :
      (f : Intrinsic) (args : Values) (span : Span) → Keeps (run_intrinsic rust f args span)
  unfolding run_intrinsic
  Keeps-run_intrinsic print (cons v rest) span =
      Keeps-print_text (value_to_display_string rust v) "" span
  Keeps-run_intrinsic println (cons v rest) span =
      Keeps-print_text (value_to_display_string rust v) "\n" span
  Keeps-run_intrinsic array_len (cons (array a) rest) span = search keeps_rules
  Keeps-run_intrinsic list_new args span = search keeps_rules
  Keeps-run_intrinsic list_from (cons (array a) rest) span = search keeps_rules
  Keeps-run_intrinsic list_push (cons list (cons v rest)) span =
      Keeps-with_inner (inner_of list) _ (λ a. search keeps_rules)
  Keeps-run_intrinsic list_pop (cons list rest) span =
      Keeps-if (is_list list) _ _ (Keeps-with_inner (inner_of list) _ (λ a. search keeps_rules))
        (search keeps_rules)
  Keeps-run_intrinsic list_len (cons list rest) span =
      Keeps-with_inner (inner_of list) _ (λ a. search keeps_rules)
  Keeps-run_intrinsic list_get (cons list (cons (int i64 i) rest)) span =
      Keeps-with_inner (inner_of list) _ (λ a. search keeps_rules)
  Keeps-run_intrinsic list_as_slice (cons list rest) span = search keeps_rules
  Keeps-run_intrinsic clock args span = search keeps_rules
  Keeps-run_intrinsic f args span = search keeps_rules
