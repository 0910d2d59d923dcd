-- ===== src/Ledger/Redaction/Hidden.antt =====
-- What a redacted value can hold.
use graph_coder.Base.{String, Bool, true, false, ◌≡◌, Bool-cases, inl, inr}
use graph_coder.Base.Integers.{ℤ}
use graph_coder.Values.{
  Json, null, boolean, integer, number, text, array, object, Items, no_items, item, Members,
  no_members, member, Library,
}
use graph_coder.Ledger.Redaction.{
  redacted, patterns, is_secret_key, scrub, redact, redact_items, redact_members,
}

module _ (lib : Library) where
  -- At every depth: a member with a secret key holds the redaction mark, and a text anywhere else
  -- is what the pattern substitutions make of some text.
  mutual
    pub data IsClean : Json → Type 0 where
      null_clean : IsClean null
      boolean_clean : (b : Bool) → IsClean (boolean b)
      integer_clean : (n : ℤ) → IsClean (integer n)
      number_clean : (n : String) → IsClean (number n)
      text_clean : (s : String) → IsClean (text (scrub lib patterns s))
      array_clean : {items : Items} → AreClean items → IsClean (array items)
      object_clean : {members : Members} → IsHidden members → IsClean (object members)

    pub data AreClean : Items → Type 0 where
      all_clean : AreClean no_items
      item_clean : {v : Json} {rest : Items} → IsClean v → AreClean rest → AreClean (item v rest)

    pub data IsHidden : Members → Type 0 where
      end_hidden : IsHidden no_members
      secret_hidden :
          {k : String} {rest : Members}
          → is_secret_key lib k ≡ true
          → IsHidden rest
          → IsHidden (member k (text redacted) rest)
      open_member :
          {k : String} {v : Json} {rest : Members}
          → is_secret_key lib k ≡ false
          → IsClean v
          → IsHidden rest
          → IsHidden (member k v rest)

  mutual
    unfolding redact redact_items redact_members

    redacted-IsClean : (v : Json) → IsClean (redact lib v)
    redacted-IsClean null = null_clean
    redacted-IsClean (boolean b) = boolean_clean b
    redacted-IsClean (integer n) = integer_clean n
    redacted-IsClean (number n) = number_clean n
    redacted-IsClean (text s) = text_clean s
    redacted-IsClean (array items) = array_clean (redact_items-AreClean items)
    redacted-IsClean (object members) = object_clean (redact_members-IsHidden members)

    redact_items-AreClean : (items : Items) → AreClean (redact_items lib items)
    redact_items-AreClean no_items = all_clean
    redact_items-AreClean (item v rest) =
        item_clean (redacted-IsClean v) (redact_items-AreClean rest)

    redact_members-IsHidden : (members : Members) → IsHidden (redact_members lib members)
    redact_members-IsHidden no_members = end_hidden
    redact_members-IsHidden (member k v rest) = elim (Bool-cases (is_secret_key lib k)) [
      | inl e ↦ rw e (secret_hidden e (redact_members-IsHidden rest))
      | inr e ↦ rw e (open_member e (redacted-IsClean v) (redact_members-IsHidden rest))
    ]
