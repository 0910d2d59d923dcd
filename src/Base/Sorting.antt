-- ===== src/Base/Sorting.antt =====
-- `sorted` gives the same texts in order.
use Prim.Native.Nat.{ℕ, suc}
use Prim.Native.String.{String}
use mathlib.Core.Path.{◌≡◌, refl}
use mathlib.Core.Bool.{Bool, true, false, not}
use mathlib.Core.List.{List, [], ◌∷◌}
use native.Mathlib.Omega.{arith}
use graph_coder.Base.Tests.{if◌then◌else◌, Bool-cases}
use graph_coder.Base.Lists.{In}
use graph_coder.Base.Text.{◌==◌, codes, codes_leb, str_leb, sort_by, insert_by, sorted, count}
use mathlib.Core.Logic.{◌⊎◌, ◌↔◌, inl, inr}

module _ {A : Type 0} (le : A → A → Bool) where
  abbrev pub Above : A → List A → Type 0
  Above x [] = Unit
  Above x (y ∷ ys) = le x y ≡ true

  -- Each item is at most the next.
  abbrev pub IsSorted : List A → Type 0
  IsSorted [] = Unit
  IsSorted (x ∷ xs) = Above x xs × IsSorted xs

  module _ (total : (x y : A) → le x y ≡ false → le y x ≡ true) where
    Above-insert_by :
        (y x : A) (xs : List A) → le y x ≡ true → Above y xs → Above y (insert_by le x xs)
    Above-insert_by y x [] h a = h
    Above-insert_by y x (z ∷ xs) h a = ground arith

    insert_by-IsSorted : (x : A) (xs : List A) → IsSorted xs → IsSorted (insert_by le x xs)
    insert_by-IsSorted x [] s = (tt, tt)
    insert_by-IsSorted x (y ∷ xs) s = elim (Bool-cases (le x y)) [
      | inl h ↦ rw h (h, s)
      | inr h ↦ rw h (Above-insert_by y x xs (total x y h) s.0, insert_by-IsSorted x xs s.1)
    ]

    pub sort_by-IsSorted : (xs : List A) → IsSorted (sort_by le xs)
    sort_by-IsSorted [] = tt
    sort_by-IsSorted (x ∷ xs) = insert_by-IsSorted x (sort_by le xs) (sort_by-IsSorted xs)

codes_leb_total : (xs ys : List ℕ) → codes_leb xs ys ≡ false → codes_leb ys xs ≡ true
unfolding codes_leb
codes_leb_total [] ys h = cc
codes_leb_total (x ∷ xs) [] h = refl
codes_leb_total (x ∷ xs) (y ∷ ys) h = ground (arith, codes_leb_total xs ys)

pub str_leb_total : (s t : String) → str_leb s t ≡ false → str_leb t s ≡ true
unfolding str_leb
str_leb_total s t h = codes_leb_total (codes s) (codes t) h

pub sorted-IsSorted : (xs : List String) → IsSorted str_leb (sorted xs)
unfolding sorted
sorted-IsSorted xs = sort_by-IsSorted str_leb str_leb_total xs

count-insert_by :
    (le : String → String → Bool) (x y : String) (ys : List String)
    → count x (insert_by le y ys) ≡ (if y == x then suc (count x ys) else count x ys)
count-insert_by le x y [] = refl
count-insert_by le x y (z ∷ ys) = ground (arith, count-insert_by le x y ys)

count-sort_by :
    (le : String → String → Bool) (x : String) (xs : List String)
    → count x (sort_by le xs) ≡ count x xs
count-sort_by le x [] = refl
count-sort_by le x (y ∷ xs) =
    ground (arith, count-insert_by le x y (sort_by le xs), count-sort_by le x xs)

pub count-sorted : (x : String) (xs : List String) → count x (sorted xs) ≡ count x xs
unfolding sorted
count-sorted x xs = count-sort_by str_leb x xs

module _ {A : Type 0} (le : A → A → Bool) where
  In-insert_by : (a x : A) (xs : List A) → In a (insert_by le x xs) ↔ ((x ≡ a) ⊎ In a xs)
  In-insert_by a x [] = ground arith
  In-insert_by a x (y ∷ xs) = ground (arith, In-insert_by a x xs)

  pub In-sort_by : (a : A) (xs : List A) → In a (sort_by le xs) ↔ In a xs
  In-sort_by a [] = ground arith
  In-sort_by a (x ∷ xs) = ground (arith, In-insert_by a x (sort_by le xs), In-sort_by a xs)

codes_leb_trans :
    (xs ys zs : List ℕ) → codes_leb xs ys ≡ true → codes_leb ys zs ≡ true → codes_leb xs zs ≡ true
unfolding codes_leb
codes_leb_trans [] ys zs h k = refl
codes_leb_trans (x ∷ xs) [] zs h k = cc
codes_leb_trans (x ∷ xs) (y ∷ ys) [] h k = cc
codes_leb_trans (x ∷ xs) (y ∷ ys) (z ∷ zs) h k = ground (arith, codes_leb_trans xs ys zs)

pub str_leb_trans : (s t u : String) → str_leb s t ≡ true → str_leb t u ≡ true → str_leb s u ≡ true
unfolding str_leb
str_leb_trans s t u h k = codes_leb_trans (codes s) (codes t) (codes u) h k

-- `s < t` on texts has no cycle.
pub str_below_irrefl : (s : String) → not (str_leb s s) ≡ false
str_below_irrefl s = ground (arith, str_leb_total s s)

pub str_below_trans :
    (s t u : String)
    → not (str_leb t s) ≡ true
    → not (str_leb u t) ≡ true
    → not (str_leb u s) ≡ true
str_below_trans s t u h k =
    ground (arith, str_leb_total t s, str_leb_total u t, str_leb_trans u s t)
