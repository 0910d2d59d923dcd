-- ===== src/Base/Text.antt =====
-- Identifiers are texts. Python orders texts by code points.
use Prim.Native.Nat.{ℕ, compare, Ordering}
use Prim.Native.Char.{code}
use Prim.Native.String.{String}
use mathlib.Core.Path.{◌≡◌, refl}
use mathlib.Core.Bool.{Bool, true, false, not, ◌&&◌, ◌||◌}
use mathlib.Core.List.{List, [], ◌∷◌, ◌++◌}
use mathlib.Core.Logic.{◌⊎◌}
use native.Mathlib.Omega.{arith}
use graph_coder.Base.Tests.{if◌then◌else◌}
use graph_coder.Base.Lists.{length}
use Prim.Native.Nat.{suc, ◌+◌, ◌≤◌}
pub use text.Mathlib.Text.{◌==◌}
pub use text.Mathlib.TextEquality.{eq_iff}
pub use text.Mathlib.TextPositions.{eq_refl}

abbrev pub codes : String → List ℕ
codes String.[] = []
codes (String.◌∷◌ c s) = code c ∷ codes s

unfoldable pub codes_leb : List ℕ → List ℕ → Bool
codes_leb [] ys = true
codes_leb (x ∷ xs) [] = false
codes_leb (x ∷ xs) (y ∷ ys) = elim (compare x y) [
  | Ordering.lt ↦ true
  | Ordering.gt ↦ false
  | Ordering.eq ↦ codes_leb xs ys
]

-- `s <= t` on texts.
unfoldable pub str_leb : String → String → Bool
unfolding codes_leb
str_leb s t = codes_leb (codes s) (codes t)

-- `x in xs`, for a list or a set of texts.
abbrev pub has : String → List String → Bool
has x [] = false
has x (y ∷ ys) = y == x || has x ys

-- `len(set(xs)) == len(xs)`.
abbrev pub distinct : List String → Bool
distinct [] = true
distinct (x ∷ xs) = not (has x xs) && distinct xs

abbrev pub subset : List String → List String → Bool
subset [] ys = true
subset (x ∷ xs) ys = has x ys && subset xs ys

-- The members of a set in some order, each once: `set(xs)`.
abbrev pub unique : List String → List String
unique [] = []
unique (x ∷ xs) = let rest = unique xs in if has x rest then rest else x ∷ rest

-- `sorted(xs, key=...)`, by a test of the order; stable, as Python's.
module _ {ℓ} {A : Type ℓ} (le : A → A → Bool) where
  abbrev pub insert_by : A → List A → List A
  insert_by x [] = x ∷ []
  insert_by x (y ∷ ys) = let rest = insert_by x ys in if le x y then x ∷ y ∷ ys else y ∷ rest

  abbrev pub sort_by : List A → List A
  sort_by [] = []
  sort_by (x ∷ xs) = insert_by x (sort_by xs)

unfoldable pub sorted : List String → List String
unfolding str_leb
sorted = sort_by str_leb

pub has-append : (x : String) (xs ys : List String) → has x (xs ++ ys) ≡ (has x xs || has x ys)
has-append x [] ys = refl
has-append x (y ∷ xs) ys = ground (arith, has-append x xs ys)

pub has-insert_by :
    (le : String → String → Bool) (x y : String) (ys : List String)
    → has x (insert_by le y ys) ≡ (y == x || has x ys)
has-insert_by le x y [] = refl
has-insert_by le x y (z ∷ ys) = ground (arith, has-insert_by le x y ys)

pub has-sort_by :
    (le : String → String → Bool) (x : String) (xs : List String) → has x (sort_by le xs) ≡ has x xs
has-sort_by le x [] = refl
has-sort_by le x (y ∷ xs) =
    ground (arith, has-insert_by le x y (sort_by le xs), has-sort_by le x xs)

pub has-sorted : (x : String) (xs : List String) → has x (sorted xs) ≡ has x xs
unfolding sorted
has-sorted x xs = has-sort_by str_leb x xs

pub has-unique : (x : String) (xs : List String) → has x (unique xs) ≡ has x xs
has-unique x [] = refl
has-unique x (y ∷ xs) = ground (arith, has-unique x xs, has-unique y xs, eq_iff y x)

pub has-subset :
    (x : String) (xs ys : List String) → subset xs ys ≡ true → has x xs ≡ true → has x ys ≡ true
has-subset x [] ys h i = cc
has-subset x (y ∷ xs) ys h i = ground (arith, eq_iff y x, has-subset x xs ys)

pub subset_of_has :
    (xs ys : List String) → ((x : String) → has x xs ≡ true → has x ys ≡ true) → subset xs ys ≡ true
subset_of_has [] ys h = refl
subset_of_has (x ∷ xs) ys h =
    ground (arith, h x, eq_refl x, subset_of_has xs ys (λ z i. h z (ground arith)))

pub has-cons_cases :
    (z x : String) (xs : List String) → has z (x ∷ xs) ≡ true → (x ≡ z) ⊎ (has z xs ≡ true)
has-cons_cases z x xs h = ground (arith, eq_iff x z)

pub has-append_cases :
    (z : String) (xs ys : List String)
    → has z (xs ++ ys) ≡ true
    → (has z xs ≡ true) ⊎ (has z ys ≡ true)
has-append_cases z xs ys h = ground (arith, has-append z xs ys)

pub has_self : (x : String) (xs : List String) → has x (x ∷ xs) ≡ true
has_self x xs = ground (arith, eq_refl x)

pub not-has-nil : (x : String) (xs : List String) → xs ≡ [] → has x xs ≡ true → ⊥
not-has-nil x xs e h = cc

-- How often a text occurs.
abbrev pub count : String → List String → ℕ
count x [] = 0
count x (y ∷ ys) = let rest = count x ys in if y == x then suc rest else rest

pub count-append : (x : String) (xs ys : List String) → count x (xs ++ ys) ≡ count x xs + count x ys
count-append x [] ys = omega arith
count-append x (y ∷ xs) ys = ground (arith, count-append x xs ys)

pub count-zero : (x : String) (xs : List String) → has x xs ≡ false → count x xs ≡ 0
count-zero x [] h = refl
count-zero x (y ∷ xs) h = ground (arith, count-zero x xs)

pub distinct-concat :
    (x : String) (xs : List String)
    → distinct xs ≡ true
    → has x xs ≡ false
    → distinct (xs ++ x ∷ []) ≡ true
distinct-concat x [] d h = refl
distinct-concat x (y ∷ xs) d h =
    ground (arith, has-append y xs (x ∷ []), distinct-concat x xs, eq_iff x y, eq_iff y x)

pub not-has_of_distinct :
    (x : String) (xs ys : List String) → distinct (xs ++ x ∷ ys) ≡ true → has x xs ≡ false
not-has_of_distinct x [] ys d = refl
not-has_of_distinct x (z ∷ xs) ys d =
    ground (arith, not-has_of_distinct x xs ys, has-append z xs (x ∷ ys), eq_iff z x, eq_refl x)

-- `xs` without the first occurrence of a text.
abbrev pub erase : String → List String → List String
erase x [] = []
erase x (y ∷ ys) = let rest = erase x ys in if y == x then ys else y ∷ rest

pub length-erase :
    (x : String) (xs : List String) → has x xs ≡ true → suc (length (erase x xs)) ≡ length xs
length-erase x [] h = cc
length-erase x (y ∷ xs) h = ground (arith, length-erase x xs)

pub has-erase : (x z : String) (xs : List String) → (x == z) ≡ false → has z (erase x xs) ≡ has z xs
has-erase x z [] h = refl
has-erase x z (y ∷ xs) h = ground (arith, has-erase x z xs, eq_iff y x, eq_iff y z, eq_iff x z)

-- Pigeonhole: distinct texts among `ys`, as many as `ys`, are all of `ys`.
pub has_of_length :
    (xs ys : List String)
    → distinct xs ≡ true
    → ((x : String) → has x xs ≡ true → has x ys ≡ true)
    → length ys ≤ length xs
    → (x : String) → has x ys ≡ true
    → has x xs ≡ true
has_of_length [] [] d s l x h = h
has_of_length [] (y ∷ ys) d s l x h = absurd (omega arith)
has_of_length (z ∷ xs) ys d s l x h =
    let inside = s z (has_self z xs) in
    ground (
      arith,
      has-erase z x ys,
      has_of_length xs (erase z ys) (ground arith)
          (λ w p. ground (arith, has-erase z w ys, s w, eq_iff z w))
          (omega (arith, length-erase z ys inside)) x,
    )

-- Distinct texts among `ys` are no more than `ys`.
pub length-le_of_distinct :
    (xs ys : List String)
    → distinct xs ≡ true
    → ((x : String) → has x xs ≡ true → has x ys ≡ true)
    → length xs ≤ length ys
length-le_of_distinct [] ys d s = omega arith
length-le_of_distinct (z ∷ xs) ys d s = omega (
  arith,
  length-erase z ys (s z (has_self z xs)),
  length-le_of_distinct xs (erase z ys) (ground arith)
      (λ w p. ground (arith, has-erase z w ys, s w, eq_iff z w)),
)
