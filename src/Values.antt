-- ===== src/Values.antt =====
-- JSON and YAML values as the program handles them, and what it uses of Python's `json`, `re`,
-- `hashlib` and `str`. A Python tuple in a value is an array, as `json.dumps` has it.
pub mod Parts
use graph_coder.Base.{
  zero, String, Bool, true, false, not, Option, none, some, List, [], ◌∷◌, ◌==◌, if◌then◌else◌,
}
use graph_coder.Base.Integers.{ℤ, pos}

mutual
  -- A number that is not an integer is its text.
  pub data Json : Type 0 where
    null : Json
    boolean : Bool → Json
    integer : ℤ → Json
    number : String → Json
    text : String → Json
    array : Items → Json
    object : Members → Json

  pub data Items : Type 0 where
    no_items : Items
    item : Json → Items → Items

  pub data Members : Type 0 where
    no_members : Members
    member : String → Json → Members → Members

pub record Library : Type 0 where
  -- `str.lower`, and `pattern.sub(lambda m: m.group(1) + REDACTED, text)`, the pattern first.
  pub lower : String → String
  pub substitute : String → String → String
  -- `json.dumps(value, sort_keys=True, ...)` and `json.loads`.
  pub dumps : Json → String
  pub loads : String → Json
  -- `hashlib.sha256(text.encode("utf-8")).hexdigest()`.
  pub sha256 : String → String
  -- `str` of an integer.
  pub decimal : ℤ → String
  -- `repr` of a text.
  pub repr : String → String
  -- `str`, `int` and `dict` of a value that is not a text, an integer or a mapping already.
  pub str : Json → String
  pub int : Json → Option ℤ
  pub dict : Json → Option Members

-- A value that may be None.
abbrev pub optional_text : Option String → Json
optional_text none = null
optional_text (some s) = text s

unfoldable pub items_of : List String → Items
items_of [] = no_items
items_of (s ∷ rest) = item (text s) (items_of rest)

-- `d.get(key)`.
unfoldable pub get : String → Members → Option Json
get key no_members = none
get key (member k v rest) = if k == key then some v else get key rest

-- `key in d`.
abbrev pub has_key : String → Members → Bool
has_key key d = elim (get key d) [ none ↦ false | some v ↦ true ]

-- `d[key] = value`: a known key keeps its place.
unfoldable pub set : String → Json → Members → Members
set key value no_members = member key value no_members
set key value (member k v rest) =
    if k == key then member k value rest else member k v (set key value rest)

-- `bool(value)`; a number that is not an integer is zero only as `0.0` or `-0.0`.
abbrev pub is_truthy : Json → Bool
is_truthy null = false
is_truthy (boolean b) = b
is_truthy (integer (pos zero)) = false
is_truthy (integer _) = true
is_truthy (number s) = if s == "0.0" then false else not (s == "-0.0")
is_truthy (text s) = not (s == "")
is_truthy (array no_items) = false
is_truthy (array (item _ _)) = true
is_truthy (object no_members) = false
is_truthy (object (member _ _ _)) = true

-- `bool(d.get(key))`.
abbrev pub get_truthy : String → Members → Bool
get_truthy key d = elim (get key d) [ none ↦ false | some v ↦ is_truthy v ]

-- `isinstance(value, int)`, with the value: a Boolean is an integer of Python.
abbrev pub as_integer : Json → Option ℤ
as_integer (boolean true) = some (pos 1)
as_integer (boolean false) = some (pos 0)
as_integer (integer n) = some n
as_integer _ = none

-- `value != 0` is false of these.
abbrev pub is_zero : Json → Bool
is_zero (boolean b) = not b
is_zero (integer (pos zero)) = true
is_zero (number s) = if s == "0.0" then true else s == "-0.0"
is_zero _ = false

-- `isinstance(value, (int, float))`.
abbrev pub is_number : Json → Bool
is_number (boolean b) = true
is_number (integer n) = true
is_number (number s) = true
is_number _ = false

-- `value is True`.
abbrev pub is_true : Json → Bool
is_true (boolean b) = b
is_true _ = false

-- `value == t`, for a text `t`.
abbrev pub is_text : String → Json → Bool
is_text t (text s) = s == t
is_text t _ = false

-- `isinstance(value, dict)`, with its members.
abbrev pub as_members : Json → Option Members
as_members (object m) = some m
as_members _ = none

abbrev pub get_or_null : String → Members → Json
get_or_null key d = elim (get key d) [ none ↦ null | some v ↦ v ]

-- `str(value)`.
abbrev pub str_of : Library → Json → String
str_of library (text s) = s
str_of library value = library.str value
