-- ===== src/Walk.antt =====
-- The worklist search that graph.py `_ancestors` (a stack) and execution.py `block_descendants`
-- (a queue) share: pop a text, skip it if it is known, else record it and push its successors.
pub mod Facts
use graph_coder.Base.{
  ℕ, zero, suc, ◌+◌, String, Bool, true, false, ◌||◌, Option, none, some, List, [], ◌∷◌, ◌++◌,
  reverse, length, has, ◌≡◌,
}

-- What the loop leaves: the set that it built, or the key that `nodes[dep]` misses.
pub data Outcome : Type 0 where
  done : List String → Outcome
  missing : String → Outcome
  out_of_fuel : Outcome

-- The pending texts: the head is popped next. `push rest new` extends them.
pub record Frontier : Type 0 where
  pub push : List String → List String → List String
  pub has-push :
      (x : String) (rest new : List String) → has x (push rest new) ≡ (has x rest || has x new)
  pub length-push : (rest new : List String) → length (push rest new) ≡ length rest + length new

module _ (frontier : Frontier) (next : String → Option (List String)) (skip : String → Bool) where
  open frontier use {push}

  unfoldable pub walk : ℕ → List String → List String → Outcome
  walk fuel seen [] = done seen
  walk zero seen (x ∷ rest) = out_of_fuel
  walk (suc fuel) seen (x ∷ rest) = elim (has x seen || skip x) [
    | true ↦ walk fuel seen rest
    | false ↦ elim (next x) [ none ↦ missing x | some new ↦ walk fuel (x ∷ seen) (push rest new) ]
  ]
