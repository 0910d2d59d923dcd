-- ===== src/Routing/Floats/Bounds.antt =====
-- `_bounded` is between 0.0 and 1.0.
use graph_coder.Base.{true, false, ◌≡◌, Bool-cases, inl, inr}
use graph_coder.Routing.Floats.{Floats, IsOrder, larger, smaller, bounded}

module _ {F : Type 0} (floats : Floats F) (order : IsOrder floats) where
  -- Between zero and one.
  pub record IsBounded (x : F) : Type 0 where
    pub low : floats.at_most floats.zero x ≡ true
    pub high : floats.at_most x floats.one ≡ true

  zero-IsBounded : IsBounded floats.zero
  zero-IsBounded = record {
    low =
        order.at_most_of_not_less floats.zero floats.zero order.zero_number order.zero_number
          (order.less_irrefl floats.zero);
    high = order.zero_one;
  }

  one-IsBounded : IsBounded floats.one
  one-IsBounded = record {
    low = order.zero_one;
    high =
        order.at_most_of_not_less floats.one floats.one order.one_number order.one_number
          (order.less_irrefl floats.one);
  }

  clamped :
      (x : F)
      → floats.is_nan x ≡ false
      → IsBounded (larger floats floats.zero (smaller floats floats.one x))
  clamped x number = elim (Bool-cases (floats.less x floats.one)) [
    | inl e ↦ elim (Bool-cases (floats.less floats.zero x)) [
      | inl f ↦
          rw (e, f)
            record {
              low = order.at_most_of_less floats.zero x f;
              high = order.at_most_of_less x floats.one e;
            }
      | inr f ↦ rw (e, f) zero-IsBounded
    ]
    | inr e ↦ elim (Bool-cases (floats.less floats.zero floats.one)) [
      | inl f ↦ rw (e, f) one-IsBounded
      | inr f ↦ rw (e, f) zero-IsBounded
    ]
  ]

  -- In numbers ordered as IEEE 754 has it, `_bounded` gives a number from zero to one for every
  -- argument, NaN included.
  pub bounded-IsBounded : (x : F) → IsBounded (bounded floats x)
  unfolding bounded
  bounded-IsBounded x = elim (Bool-cases (floats.is_nan x)) [
    | inl e ↦ rw e zero-IsBounded
    | inr e ↦ rw e (clamped x e)
  ]
