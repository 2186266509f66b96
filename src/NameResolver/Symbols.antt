-- ===== src/NameResolver/Symbols.antt =====
-- The symbol table: what interning a name does to the symbols of others.
use metel.Prelude.{
  String, Option, some, none, ◌≡◌, sym, ap, ◌∙◌, ◌+◌, ◌<◌, ◌^◌, ◌%◌, arith, Option-cases,
  Bool-cases, inl, inr, ◌⊎◌, string_eq, list_eq, pair_eq, same, pair_beq_iff,
}
use metel.Prelude.Map.{get, insert, get-insert, get-insert_self}
use metel.Ast.Trees.{SymbolId}
use metel.NameResolver.Defs.{ModulePath, SymbolTable, intern, interned}

-- The module and the name of a declaration.
abbrev pub Key : Type 0
Key = ModulePath × String

-- The symbol of a name.
abbrev pub symbol_of : Key → SymbolTable → Option SymbolId
symbol_of k t = get k t.map

-- Every id that the table has given is below its counter, and no two names have the same id.
pub record IsValid (t : SymbolTable) : Type 0 where
  pub below : (k : Key) (i : SymbolId) → symbol_of k t ≡ some i → i < t.next_id
  pub injective :
      (j k : Key) (i : SymbolId) → symbol_of j t ≡ some i → symbol_of k t ≡ some i → j ≡ k

-- The second table has every symbol of the first.
pub record Extends (t u : SymbolTable) : Type 0 where
  pub keeps : (k : Key) (i : SymbolId) → symbol_of k t ≡ some i → symbol_of k u ≡ some i

pub Extends-refl : (t : SymbolTable) → Extends t t
Extends-refl t = record { keeps = λ k i h. h }

pub Extends-trans : {t u v : SymbolTable} → Extends t u → Extends u v → Extends t v
Extends-trans a b = record { keeps = λ k i h. b.keeps k i (a.keeps k i h) }

-- The table with a new symbol.
abbrev add : Key → SymbolTable → SymbolTable
add k t = record { map = insert k t.next_id t.map; next_id = (t.next_id + 1) % 2 ^ 32 }

-- `intern` finds the name or adds it.
intern-cases :
    (m : ModulePath) (n : String) (t : SymbolTable)
    → ((symbol_of (m, n) t ≡ none) × (intern m n t ≡ (t.next_id, add (m, n) t)))
      ⊎ ((i : SymbolId) × (symbol_of (m, n) t ≡ some i) × (intern m n t ≡ (i, t)))
unfolding intern
intern-cases m n t = elim (Option-cases (symbol_of (m, n) t)) [
  | inl e ↦ inl (e, ap (interned (m, n) t) e)
  | inr (i, e) ↦ inr (i, e, ap (interned (m, n) t) e)
]

-- The symbol that `intern` returns is that of the name.
pub symbol_of-intern :
    (m : ModulePath) (n : String) (t : SymbolTable)
    → symbol_of (m, n) (intern m n t).1 ≡ some ((intern m n t).0)
symbol_of-intern m n t = elim (intern-cases m n t) [
  | inl (e, f) ↦ rw f (get-insert_self (m, n) t.next_id t.map)
  | inr (i, e, f) ↦ rw f e
]

-- A name that is interned a second time has the same symbol, and the table stays as it is.
pub intern-intern :
    (m : ModulePath) (n : String) (t : SymbolTable) → intern m n (intern m n t).1 ≡ intern m n t
unfolding intern
intern-intern m n t = ap (interned (m, n) (intern m n t).1) (symbol_of-intern m n t)

-- No symbol is lost.
pub Extends-intern : (m : ModulePath) (n : String) (t : SymbolTable) → Extends t (intern m n t).1
Extends-intern m n t = elim (intern-cases m n t) [
  | inl (e, f) ↦ rw f (record {
    keeps = λ k i h.
        let key : Key = (m, n) in
        ground (arith, get-insert key k t.next_id t.map, pair_beq_iff key k, e, h);
  })
  | inr (i, e, f) ↦ rw f (Extends-refl t)
]

-- A symbol of that table is the new one, or was there.
symbol_of-add :
    (k j : Key) (t : SymbolTable) (i : SymbolId)
    → symbol_of j (add k t) ≡ some i
    → ((k ≡ j) × (i ≡ t.next_id)) ⊎ (symbol_of j t ≡ some i)
symbol_of-add k j t i h = elim (Bool-cases (same k j)) [
  | inl e ↦ inl ((pair_beq_iff k j).0 e, ground (arith, get-insert k j t.next_id t.map, e, h))
  | inr e ↦ inr (ground (arith, get-insert k j t.next_id t.map, e, h))
]

IsValid-add : (k : Key) (t : SymbolTable) → t.next_id + 1 < 2 ^ 32 → IsValid t → IsValid (add k t)
IsValid-add k t b v = record {
  below = λ j i h. elim (symbol_of-add k j t i h) [
    | inl (e, f) ↦ omega arith
    | inr g ↦ let old = v.below j i g in omega arith
  ];
  injective = λ j l i h g. elim (symbol_of-add k j t i h) [
    | inl (e, f) ↦ elim (symbol_of-add k l t i g) [
      | inl (e', f') ↦ sym e ∙ e'
      | inr g' ↦ let old = v.below l i g' in absurd (omega arith)
    ]
    | inr h' ↦ elim (symbol_of-add k l t i g) [
      | inl (e', f') ↦ let old = v.below j i h' in absurd (omega arith)
      | inr g' ↦ v.injective j l i h' g'
    ]
  ];
}

-- As long as the counter does not overflow, interning a name keeps all ids below the counter and
-- the ids of different names different.
pub intern-IsValid :
    (m : ModulePath) (n : String) (t : SymbolTable)
    → t.next_id + 1 < 2 ^ 32
    → IsValid t
    → IsValid (intern m n t).1
intern-IsValid m n t b v = elim (intern-cases m n t) [
  | inl (e, f) ↦ rw f (IsValid-add (m, n) t b v)
  | inr (i, e, f) ↦ rw f v
]
