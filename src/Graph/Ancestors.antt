-- ===== src/Graph/Ancestors.antt =====
-- graph.py `_ancestors`: a depth-first search on a stack, through `nodes[dep].depends_on`.
pub mod Reached
use graph_coder.Base.{
  String, Bool, true, false, ◌||◌, List, [], ◌∷◌, ◌++◌, Option, none, some, reverse, length, has,
  Dict, lookup, ok, err, ◌≡◌, refl, arith, ◌+◌, ℕ, has-append, length-append, ◌∙◌, ap, suc,
}
use mathlib.Core.List.{reverse-append}
use graph_coder.Walk.{Frontier, Outcome, done, missing, out_of_fuel, walk}
use graph_coder.Walk.Facts.{budget}
use graph_coder.Graph.Node.{GraphNode, Checked, key_error, entries, ids}
use graph_coder.Graph.Node

pub has-reverse : (x : String) (xs : List String) → has x (reverse xs) ≡ has x xs
has-reverse x [] = refl
has-reverse x (y ∷ xs) =
    ap (has x) (reverse-append (y ∷ []) xs)
    ∙ ground (arith, has-append x (reverse xs) (y ∷ []), has-reverse x xs)

length-reverse : (xs : List String) → length (reverse xs) ≡ length xs
length-reverse [] = refl
length-reverse (y ∷ xs) =
    ap length (reverse-append (y ∷ []) xs)
    ∙ omega (arith, length-append (reverse xs) (y ∷ []), length-reverse xs)

pub has-push_stack :
    (x : String) (rest new : List String) → has x (reverse new ++ rest) ≡ (has x rest || has x new)
has-push_stack x rest new = ground (arith, has-append x (reverse new) rest, has-reverse x new)

pub length-push_stack :
    (rest new : List String) → length (reverse new ++ rest) ≡ length rest + length new
length-push_stack rest new = omega (arith, length-append (reverse new) rest, length-reverse new)

-- `stack.pop()` and `stack.extend(...)`, with the end of the Python list as the head.
abbrev pub stack : Frontier
stack = record {
  push = λ rest new. reverse new ++ rest;
  has-push = has-push_stack;
  length-push = length-push_stack;
}

-- `nodes[dep].depends_on`.
abbrev pub dependencies : List GraphNode → String → Option (List String)
dependencies nodes x = elim (lookup x (entries nodes)) [ none ↦ none | some n ↦ some n.depends_on ]

abbrev pub skip_none : String → Bool
skip_none x = false

unfoldable pub found : Outcome → Checked (List String)
found (done seen) = ok seen
found (missing x) = err (key_error x)
found out_of_fuel = err Node.out_of_fuel

unfoldable pub ancestors : String → List GraphNode → Checked (List String)
unfolding found budget walk lookup
ancestors id nodes = elim (dependencies nodes id) [
  | none ↦ err (key_error id)
  | some deps ↦ found (
      walk stack (dependencies nodes) skip_none
        (budget (dependencies nodes) (ids nodes) (reverse deps)) [] (reverse deps))
]
