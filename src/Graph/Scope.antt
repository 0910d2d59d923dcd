-- ===== src/Graph/Scope.antt =====
-- graph.py `_scopes_overlap`, with what it uses of Python's library: `PurePosixPath` and `fnmatch`
-- (on POSIX), over code points. `lower` is that of ASCII.
pub mod Symmetric
use graph_coder.Base.{
  ℕ, zero, suc, ◌+◌, ◌≤◌, String, Bool, true, false, not, ◌&&◌, ◌||◌, List, [], ◌∷◌, ◌++◌, Option,
  none, some, map, reverse, length, is_nil, leb, eqb, keep, codes, if◌then◌else◌,
}

pub eq_codes : List ℕ → List ℕ → Bool
eq_codes [] [] = true
eq_codes (x ∷ xs) (y ∷ ys) = eqb x y && eq_codes xs ys
eq_codes _ _ = false

-- `a.startswith(b)`.
unfoldable pub starts_with : List ℕ → List ℕ → Bool
starts_with xs [] = true
starts_with [] (y ∷ ys) = false
starts_with (x ∷ xs) (y ∷ ys) = eqb x y && starts_with xs ys

-- `value.replace("\\", "/")`; 92 is the backslash.
pub slashes : List ℕ → List ℕ
slashes [] = []
slashes (c ∷ cs) = (if eqb c 92 then b'/' else c) ∷ slashes cs

-- The parts between slashes: `path.split("/")`.
pub split_from : List ℕ → List ℕ → List (List ℕ)
split_from part [] = reverse part ∷ []
split_from part (c ∷ cs) =
    let same = split_from (c ∷ part) cs in
    let next = split_from [] cs in if eqb c b'/' then reverse part ∷ next else same

is_part : List ℕ → Bool
is_part [] = false
is_part (c ∷ []) = not (eqb c b'.')
is_part (c ∷ d ∷ cs) = true

-- The root of a POSIX path: two slashes, and not three, are kept.
pub path_root : List ℕ → List ℕ
path_root (a ∷ b ∷ c ∷ cs) =
    if eqb a b'/'
    then (if eqb b b'/' && not (eqb c b'/') then b'/' ∷ b'/' ∷ [] else b'/' ∷ [])
    else []
path_root (a ∷ b ∷ []) =
    if eqb a b'/' then (if eqb b b'/' then b'/' ∷ b'/' ∷ [] else b'/' ∷ []) else []
path_root (a ∷ []) = if eqb a b'/' then b'/' ∷ [] else []
path_root [] = []

pub join_parts : List (List ℕ) → List ℕ
join_parts [] = []
join_parts (p ∷ []) = p
join_parts (p ∷ q ∷ ps) = p ++ (b'/' ∷ join_parts (q ∷ ps))

-- `str(PurePosixPath(value))`.
pub pure_path : List ℕ → List ℕ
unfolding split_from is_part path_root join_parts
pure_path value =
    let text = path_root value ++ join_parts (keep is_part (split_from [] value)) in
    if is_nil text then b'.' ∷ [] else text

-- `rstrip("/")`.
pub rstrip_slash : List ℕ → List ℕ
rstrip_slash [] = []
rstrip_slash (c ∷ cs) =
    let rest = rstrip_slash cs in if eqb c b'/' && is_nil rest then [] else c ∷ rest

pub lower : List ℕ → List ℕ
lower [] = []
lower (c ∷ cs) = (if leb b'A' c && leb c b'Z' then c + 32 else c) ∷ lower cs

unfoldable pub normalize : String → List ℕ
unfolding slashes pure_path rstrip_slash lower
normalize value = lower (rstrip_slash (pure_path (slashes (codes value))))

-- The parts of an `fnmatch` pattern. A range whose ends are the wrong way round holds nothing.
pub data Token : Type 0 where
  star any_char : Token
  literal : ℕ → Token
  set : (negated : Bool) → (ranges : List (ℕ × ℕ)) → Token

-- The text up to the bracket that closes a set, and what stands behind it.
pub split_set : List ℕ → Option (List ℕ × List ℕ)
split_set [] = none
split_set (c ∷ cs) =
    let rest = split_set cs in
    if eqb c b']'
    then some ([], cs)
    else elim rest [ none ↦ none | some (inside, behind) ↦ some (c ∷ inside, behind) ]

-- A bracket that stands first, behind `!` if there is one, does not close the set.
pub read_set : List ℕ → Option (Bool × List ℕ × List ℕ)
unfolding split_set
read_set pattern = negation pattern
  where
    body : Bool → List ℕ → Option (Bool × List ℕ × List ℕ)
    body negated [] = none
    body negated (c ∷ cs) =
        if eqb c b']'
        then elim (split_set cs) [
          | none ↦ none
          | some (inside, behind) ↦ some (negated, c ∷ inside, behind)
        ]
        else elim (split_set (c ∷ cs)) [
          | none ↦ none
          | some (inside, behind) ↦ some (negated, inside, behind)
        ]

    negation : List ℕ → Option (Bool × List ℕ × List ℕ)
    negation [] = none
    negation (c ∷ cs) = if eqb c b'!' then body true cs else body false (c ∷ cs)

pub ranges_of : List ℕ → List (ℕ × ℕ)
ranges_of [] = []
ranges_of (a ∷ []) = (a, a) ∷ []
ranges_of (a ∷ b ∷ []) = (a, a) ∷ (b, b) ∷ []
ranges_of (a ∷ b ∷ c ∷ rest) =
    let range = ranges_of rest in
    let single = ranges_of (b ∷ c ∷ rest) in if eqb b b'-' then (a, c) ∷ range else (a, a) ∷ single

-- The tokens of a pattern; each round reads one character or more.
pub tokens : ℕ → List ℕ → List Token
unfolding read_set ranges_of
tokens zero pattern = []
tokens (suc fuel) [] = []
tokens (suc fuel) (c ∷ cs) =
    let rest = tokens fuel cs in
    let bracket : List Token = elim (read_set cs) [
      | none ↦ literal c ∷ tokens fuel cs
      | some (negated, inside, behind) ↦ set negated (ranges_of inside) ∷ tokens fuel behind
    ] in
    if eqb c b'*'
    then star ∷ rest
    else if eqb c b'?'
    then any_char ∷ rest
    else if eqb c b'['
    then bracket
    else literal c ∷ rest

pub in_ranges : ℕ → List (ℕ × ℕ) → Bool
in_ranges c [] = false
in_ranges c ((lo, hi) ∷ rest) = leb lo c && leb c hi || in_ranges c rest

pub some_suffix : (List ℕ → Bool) → List ℕ → Bool
some_suffix f [] = f []
some_suffix f (c ∷ cs) = f (c ∷ cs) || some_suffix f cs

pub matches : List Token → List ℕ → Bool
unfolding some_suffix in_ranges
matches [] text = is_nil text
matches (star ∷ rest) text = some_suffix (matches rest) text
matches (any_char ∷ rest) [] = false
matches (any_char ∷ rest) (c ∷ cs) = matches rest cs
matches (literal x ∷ rest) [] = false
matches (literal x ∷ rest) (c ∷ cs) = eqb x c && matches rest cs
matches (set negated ranges ∷ rest) [] = false
matches (set negated ranges ∷ rest) (c ∷ cs) =
    (if negated then not (in_ranges c ranges) else in_ranges c ranges) && matches rest cs

-- `fnmatch.fnmatch(name, pattern)`.
unfoldable pub fnmatch : List ℕ → List ℕ → Bool
unfolding matches tokens
fnmatch name pattern = matches (tokens (length pattern) pattern) name

unfoldable pub overlap_paths : List ℕ → List ℕ → Bool
unfolding eq_codes starts_with fnmatch
overlap_paths a b =
    eq_codes a b
    || starts_with a (b ++ b'/' ∷ [])
    || starts_with b (a ++ b'/' ∷ [])
    || (fnmatch a b || fnmatch b a)

unfoldable pub scopes_overlap : String → String → Bool
unfolding overlap_paths normalize
scopes_overlap left right = overlap_paths (normalize left) (normalize right)
