-- ===== src/ModulePaths.antt =====
-- metel-interpreter/src/module_paths.rs.
use metel.Prelude.{String, List, [], ◌∷◌, ◌++◌, ◌≡◌, refl, ap}
use metel.Ast.Modules.{PathRoot, root, std, self_, super, name}

-- `current[..current.len() - 1]`
unfoldable pub init : List String → List String
init [] = []
init (x ∷ []) = []
init (x ∷ y ∷ ys) = x ∷ init (y ∷ ys)

unfoldable pub resolve_path_root : PathRoot → List String → List String
unfolding init
resolve_path_root root current = []
resolve_path_root std current = "std" ∷ []
resolve_path_root self_ current = current
resolve_path_root super [] = []
resolve_path_root super (x ∷ current) = init (x ∷ current)
resolve_path_root (name n) current = current ++ n ∷ []

init-append : (xs : List String) (n : String) → init (xs ++ n ∷ []) ≡ xs
unfolding init
init-append [] n = refl
init-append (x ∷ []) n = refl
init-append (x ∷ y ∷ ys) n = ap (λ (zs : List String). x ∷ zs) (init-append (y ∷ ys) n)

-- From the path of a child that a name leads to, `super` leads back.
pub super-name :
    (n : String) (current : List String)
    → resolve_path_root super (resolve_path_root (name n) current) ≡ current
unfolding resolve_path_root
super-name n [] = refl
super-name n (x ∷ current) = init-append (x ∷ current) n
