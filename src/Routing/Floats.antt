-- ===== src/Routing/Floats.antt =====
-- routing.py: what it uses of Python's `float`, and `_bounded`.
pub mod Bounds
use graph_coder.Base.{ℕ, String, Bool, true, false, List, if◌then◌else◌, ◌≡◌}

-- Floating-point numbers as Python computes with them.
pub record Floats (F : Type 0) : Type 0 where
  pub zero : F
  pub one : F
  -- `<`, `<=` and `==`; each is false on NaN.
  pub less : F → F → Bool
  pub at_most : F → F → Bool
  pub same : F → F → Bool
  pub is_nan : F → Bool
  pub plus : F → F → F
  pub minus : F → F → F
  pub times : F → F → F
  -- `/`, where the divisor is not zero.
  pub over : F → F → F
  pub negate : F → F
  -- `x ** n` for a whole number `n`, where it does not overflow; and whether it does, in which case
  -- Python raises OverflowError. Powers of numbers from -1 to 1 do not.
  pub power : F → ℕ → F
  pub overflows : F → ℕ → Bool
  -- The builtin `sum`.
  pub sum : List F → F
  -- `round(x, 12)` and `f"{x:.6f}"`.
  pub round12 : F → F
  pub fixed6 : F → String

-- The order of IEEE 754 numbers. Only totality needs numbers that are not NaN.
pub record IsOrder {F : Type 0} (floats : Floats F) : Type 0 where
  pub less_irrefl : (x : F) → floats.less x x ≡ false
  pub less_trans :
      (x y z : F) → floats.less x y ≡ true → floats.less y z ≡ true → floats.less x z ≡ true
  pub less-at_most :
      (x y z : F) → floats.less x y ≡ true → floats.at_most y z ≡ true → floats.less x z ≡ true
  pub at_most-less :
      (x y z : F) → floats.at_most x y ≡ true → floats.less y z ≡ true → floats.less x z ≡ true
  pub at_most_trans :
      (x y z : F)
      → floats.at_most x y ≡ true
      → floats.at_most y z ≡ true
      → floats.at_most x z ≡ true
  pub at_most_of_not_less :
      (x y : F)
      → floats.is_nan x ≡ false
      → floats.is_nan y ≡ false
      → floats.less x y ≡ false
      → floats.at_most y x ≡ true
  pub at_most_of_less : (x y : F) → floats.less x y ≡ true → floats.at_most x y ≡ true
  pub not_same_of_less : (x y : F) → floats.less x y ≡ true → floats.same x y ≡ false
  pub same_trans :
      (x y z : F) → floats.same x y ≡ true → floats.same y z ≡ true → floats.same x z ≡ true
  pub same-less :
      (x y z : F) → floats.same x y ≡ true → floats.less y z ≡ true → floats.less x z ≡ true
  pub less-same :
      (x y z : F) → floats.less x y ≡ true → floats.same y z ≡ true → floats.less x z ≡ true
  pub zero_number : floats.is_nan floats.zero ≡ false
  pub one_number : floats.is_nan floats.one ≡ false
  pub zero_one : floats.at_most floats.zero floats.one ≡ true

module _ {F : Type 0} (floats : Floats F) where
  -- `max(a, b)` and `min(a, b)`: the first of the two, unless the second is beyond it.
  abbrev pub larger : F → F → F
  larger a b = if floats.less a b then b else a

  abbrev pub smaller : F → F → F
  smaller a b = if floats.less b a then b else a

  unfoldable pub bounded : F → F
  bounded value =
      if floats.is_nan value then floats.zero else larger floats.zero (smaller floats.one value)
