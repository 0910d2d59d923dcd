-- ===== src/Ledger/Redaction.antt =====
-- redaction.py: secrets are taken out of a value before it is recorded.
pub mod Hidden
use Prim.Native.Char.{code, Char}
use graph_coder.Base.{
  ℕ, String, Bool, true, false, ◌&&◌, ◌||◌, List, [], ◌∷◌, codes, length, reverse, has, eqb, ◌==◌,
  if◌then◌else◌,
}
use graph_coder.Values.{
  Json, null, boolean, integer, number, text, array, object, Items, no_items, item, Members,
  no_members, member, Library,
}

abbrev pub redacted : String
redacted = "[REDACTED]"

abbrev pub secret_keys : List String
secret_keys =
    "password" ∷ "passwd" ∷ "secret" ∷ "token" ∷ "api_key" ∷ "apikey" ∷ "authorization"
    ∷ "access_token" ∷ "refresh_token" ∷ []

-- `_PATTERNS`, in order.
abbrev pub patterns : List String
patterns =
    "(?i)(Bearer\\s+)[A-Za-z0-9._~+/=-]+" ∷ "(?i)(api[_-]?key\\s*[=:]\\s*)[^\\s,;]+"
    ∷ "(?i)(password\\s*[=:]\\s*)[^\\s,;]+" ∷ []

-- `s.replace("-", "_")`.
unfoldable pub underscored : String → String
underscored String.[] = String.[]
underscored (String.◌∷◌ c s) = String.◌∷◌ (if eqb (code c) b'-' then "_" else c) (underscored s)

abbrev pub starts : List ℕ → List ℕ → Bool
starts [] ys = true
starts (x ∷ xs) [] = false
starts (x ∷ xs) (y ∷ ys) = eqb x y && starts xs ys

-- `s.endswith(suffix)`.
unfoldable pub ends_with : String → String → Bool
ends_with s suffix = starts (reverse (codes suffix)) (reverse (codes s))

module _ (lib : Library) where
  open lib use {lower, substitute}

  unfoldable pub is_secret_key : String → Bool
  unfolding underscored ends_with
  is_secret_key key =
      let normalized = underscored (lower key) in
      has normalized secret_keys || ends_with normalized "_token" || ends_with normalized "_secret"

  unfoldable pub scrub : List String → String → String
  scrub [] s = s
  scrub (p ∷ ps) s = scrub ps (substitute p s)

  unfoldable mutual
    unfolding is_secret_key scrub

    pub redact : Json → Json
    redact null = null
    redact (boolean b) = boolean b
    redact (integer n) = integer n
    redact (number n) = number n
    redact (text s) = text (scrub patterns s)
    redact (array items) = array (redact_items items)
    redact (object members) = object (redact_members members)

    pub redact_items : Items → Items
    redact_items no_items = no_items
    redact_items (item v rest) = item (redact v) (redact_items rest)

    pub redact_members : Members → Members
    redact_members no_members = no_members
    redact_members (member k v rest) =
        member k (if is_secret_key k then text redacted else redact v) (redact_members rest)
