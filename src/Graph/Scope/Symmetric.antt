-- ===== src/Graph/Scope/Symmetric.antt =====
-- Overlap is symmetric, a scope overlaps itself, and runs of `_scopes_overlap`.
use graph_coder.Base.{ℕ, String, Bool, true, false, ◌||◌, List, [], ◌∷◌, ◌≡◌, refl, arith}
use graph_coder.Graph.Scope.{eq_codes, fnmatch, normalize, overlap_paths, scopes_overlap}

eq_codes_comm : (a b : List ℕ) → eq_codes a b ≡ eq_codes b a
unfolding eq_codes
eq_codes_comm [] [] = refl
eq_codes_comm [] (y ∷ ys) = refl
eq_codes_comm (x ∷ xs) [] = refl
eq_codes_comm (x ∷ xs) (y ∷ ys) = ground (arith, eq_codes_comm xs ys)

eq_codes_refl : (a : List ℕ) → eq_codes a a ≡ true
unfolding eq_codes
eq_codes_refl [] = refl
eq_codes_refl (x ∷ xs) = ground (arith, eq_codes_refl xs)

or_swap : (e f a b c d : Bool) → e ≡ f → (e || a || b || (c || d)) ≡ (f || b || a || (d || c))
or_swap e f a b c d h = ground arith

overlap_paths_comm : (a b : List ℕ) → overlap_paths a b ≡ overlap_paths b a
unfolding overlap_paths
overlap_paths_comm a b =
    or_swap (eq_codes a b) (eq_codes b a) _ _ (fnmatch a b) (fnmatch b a) (eq_codes_comm a b)

overlap_paths_refl : (a : List ℕ) → overlap_paths a a ≡ true
unfolding overlap_paths
overlap_paths_refl a = rw (eq_codes_refl a)

-- Whether two scopes overlap does not depend on their order, and a scope overlaps itself.
pub scopes_overlap_symmetric :
    (left right : String)
    → (scopes_overlap left right ≡ scopes_overlap right left) × (scopes_overlap left left ≡ true)
unfolding scopes_overlap
scopes_overlap_symmetric left right =
    (overlap_paths_comm (normalize left) (normalize right), overlap_paths_refl (normalize left))

-- Runs.
runs :
    (scopes_overlap "src\\Api" "src/api/routes.py" ≡ true)
    × (scopes_overlap "src/*.py" "src/a.py" ≡ true)
    × (scopes_overlap "src/[a-c]x" "./src//bx/" ≡ true)
    × (scopes_overlap "src/[!a-c]x" "src/bx" ≡ false)
    × (scopes_overlap "src/api" "src/apiary" ≡ false)
unfolding scopes_overlap
runs = (refl, refl, refl, refl, refl)
