-- ===== src/Values/Parts.antt =====
-- The parts of a JSON value: a member by its place in an object, and what the value holds.
use graph_coder.Base.{ℕ, zero, suc, String, Option, none, some, ◌≡◌, refl, sym, ap, ◌∙◌}
use graph_coder.Base.Integers.{ℤ, pos}
use graph_coder.Values.{
  Json, null, integer, text, array, object, Items, no_items, Members, no_members, member,
  optional_text,
}

abbrev pub value_at : ℕ → Members → Json
value_at n no_members = null
value_at zero (member k v rest) = v
value_at (suc n) (member k v rest) = value_at n rest

abbrev pub members_of : Json → Members
members_of (object members) = members
members_of _ = no_members

abbrev pub place : ℕ → Json → Json
place n v = value_at n (members_of v)

abbrev pub text_of : Json → String
text_of (text s) = s
text_of _ = ""

abbrev pub integer_of : Json → ℤ
integer_of (integer n) = n
integer_of _ = pos 0

abbrev pub elements : Json → Items
elements (array items) = items
elements _ = no_items

abbrev pub text_or_none : Json → Option String
text_or_none (text s) = some s
text_or_none _ = none

text_or_none-optional_text : (o : Option String) → text_or_none (optional_text o) ≡ o
text_or_none-optional_text none = refl
text_or_none-optional_text (some s) = refl

pub optional_text_injective : (o p : Option String) → optional_text o ≡ optional_text p → o ≡ p
optional_text_injective o p h =
    sym (text_or_none-optional_text o) ∙ ap text_or_none h ∙ text_or_none-optional_text p
