-- ===== src/TypeInference/Registry/Scopes.antt =====
-- A lexical scope of structs: what leaving it undoes.
use metel.Prelude.{
  String, List, [], ◌∷◌, ◌++◌, none, Bool, true, false, ◌≡◌, refl, ◌∙◌, ap, inl, inr, if◌then◌else◌,
  string_eq, Bool-cases, str_eq, str_eq_iff, arith,
}
use mathlib.Core.List.{append-nil, append_assoc}
use metel.Prelude.Map.{remove, get-insert, get-remove}
use metel.TypeInference.Registry.Types.{ModulePath, FieldEntry, TypeDefinitionRegistry}
use metel.TypeInference.Registry.Structs.{
  push_name, pop_names, register_struct_fields, push_struct_scope, remove_structs, pop_struct_scope,
}
use metel.TypeInference.Registry.Entries.{struct_fields}

-- Structs registered one after another, each with its fields and module.
abbrev pub Entry : Type 0
Entry = String × List FieldEntry × ModulePath

unfoldable pub register_all : List Entry → TypeDefinitionRegistry → TypeDefinitionRegistry
register_all [] r = r
register_all ((name, fields, path) ∷ es) r =
    register_all es (register_struct_fields name fields path r)

-- Whether a name is among the registered.
unfoldable pub registers : String → List Entry → Bool
registers name [] = false
registers name ((j, fields, path) ∷ es) = if str_eq j name then true else registers name es

abbrev names_of : List Entry → List String
names_of [] = []
names_of ((name, _, _) ∷ es) = name ∷ names_of es

unfoldable removes : String → List String → Bool
removes name [] = false
removes name (j ∷ js) = if str_eq j name then true else removes name js

struct_fields-remove_structs :
    (name : String) (js : List String) (r : TypeDefinitionRegistry)
    → struct_fields name (remove_structs js r)
      ≡ (if removes name js then none else struct_fields name r)
unfolding struct_fields remove_structs removes
struct_fields-remove_structs name [] r = refl
struct_fields-remove_structs name (j ∷ js) r = ground (
  arith,
  struct_fields-remove_structs name js (record r {
    struct_env = remove j r.struct_env;
    struct_decl_modules = remove j r.struct_decl_modules;
  }),
  get-remove j name r.struct_env,
  str_eq_iff j name,
)

struct_fields-register_all :
    (name : String) (es : List Entry) (r : TypeDefinitionRegistry)
    → registers name es ≡ false
    → struct_fields name (register_all es r) ≡ struct_fields name r
unfolding struct_fields register_all registers register_struct_fields
struct_fields-register_all name [] r h = refl
struct_fields-register_all name ((j, fields, path) ∷ es) r h = ground (
  arith,
  struct_fields-register_all name es (register_struct_fields j fields path r),
  get-insert j name fields r.struct_env,
)

register_all_stack :
    (es : List Entry) (r : TypeDefinitionRegistry) (scope : List String)
    (scopes : List (List String))
    → r.struct_scope_stack ≡ scope ∷ scopes
    → (register_all es r).struct_scope_stack ≡ (scope ++ names_of es) ∷ scopes
unfolding register_all register_struct_fields push_name
register_all_stack [] r scope scopes h = rw append-nil h
register_all_stack ((j, fields, path) ∷ es) r scope scopes h =
    register_all_stack es (register_struct_fields j fields path r) (scope ++ j ∷ []) scopes
      (ap (push_name j) h)
    ∙ ap (λ (x : List String). x ∷ scopes) (append_assoc scope (j ∷ []) (names_of es))

removes-names_of :
    (name : String) (es : List Entry) → removes name (names_of es) ≡ registers name es
unfolding removes registers
removes-names_of name [] = refl
removes-names_of name ((j, fields, path) ∷ es) = rw (removes-names_of name es)

remove_structs_stack :
    (js : List String) (r : TypeDefinitionRegistry)
    → (remove_structs js r).struct_scope_stack ≡ r.struct_scope_stack
unfolding remove_structs
remove_structs_stack [] r = refl
remove_structs_stack (j ∷ js) r = remove_structs_stack js _

pop_lem :
    (r : TypeDefinitionRegistry) (names : List String) (scopes : List (List String))
    → r.struct_scope_stack ≡ names ∷ scopes
    → pop_struct_scope r ≡ remove_structs names (record r { struct_scope_stack = scopes })
unfolding pop_struct_scope
pop_lem r names scopes e = ap (λ x. pop_names x r) e

-- After a scope in which structs were registered is left, the scopes are as before it was entered.
-- A name that was registered in it has no fields, whatever it had before; any other name has the
-- fields that it had.
pub struct_scope :
    (es : List Entry) (r : TypeDefinitionRegistry) (name : String)
    → (struct_fields name (pop_struct_scope (register_all es (push_struct_scope r)))
        ≡ (if registers name es then none else struct_fields name r))
      × ((pop_struct_scope (register_all es (push_struct_scope r))).struct_scope_stack
          ≡ r.struct_scope_stack)
unfolding push_struct_scope struct_fields
struct_scope es r name =
    rw
      (pop_lem inner (names_of es) r.struct_scope_stack
        (register_all_stack es (push_struct_scope r) [] r.struct_scope_stack refl))
      (
        struct_fields-remove_structs name (names_of es) left
            ∙ rw (removes-names_of name es) outside,
        remove_structs_stack (names_of es) left,
      )
  where
    inner : TypeDefinitionRegistry
    inner = register_all es (push_struct_scope r)

    left : TypeDefinitionRegistry
    left = record inner { struct_scope_stack = r.struct_scope_stack }

    outside :
        (if registers name es then none else struct_fields name left)
        ≡ (if registers name es then none else struct_fields name r)
    outside = elim (Bool-cases (registers name es)) [
      | inl e ↦ rw e
      | inr e ↦ rw e (struct_fields-register_all name es (push_struct_scope r) e)
    ]
