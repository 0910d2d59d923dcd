-- ===== src/Base/Permuted.antt =====
-- `sorted` forgets the order: texts with the same counts are sorted to the same list.
use Prim.Native.Nat.{ℕ}
use Prim.Native.Char.{code}
use Prim.Native.String.{String}
use mathlib.Core.Path.{ap, ◌≡◌, refl, sym, ◌∙◌, subst}
use mathlib.Core.Bool.{true}
use mathlib.Core.List.{List, [], ◌∷◌}
use mathlib.Core.Logic.{inl, inr}
use native.Mathlib.Omega.{arith}
use text.Mathlib.TextEquality.{Char-path}
use graph_coder.Base.Tests.{Bool-cases}
use graph_coder.Base.Text.{◌==◌, eq_iff, codes, codes_leb, str_leb, sorted, count, has, count-zero}
use graph_coder.Base.Sorting.{IsSorted, str_leb_trans, sorted-IsSorted, count-sorted}

codes_leb_antisym : (xs ys : List ℕ) → codes_leb xs ys ≡ true → codes_leb ys xs ≡ true → xs ≡ ys
unfolding codes_leb
codes_leb_antisym [] [] h k = refl
codes_leb_antisym [] (y ∷ ys) h k = cc
codes_leb_antisym (x ∷ xs) [] h k = cc
codes_leb_antisym (x ∷ xs) (y ∷ ys) h k = ground (arith, codes_leb_antisym xs ys)

codes-injective : (s t : String) → codes s ≡ codes t → s ≡ t
codes-injective String.[] String.[] h = refl
codes-injective String.[] (String.◌∷◌ d t) h = cc
codes-injective (String.◌∷◌ c s) String.[] h = cc
codes-injective (String.◌∷◌ c s) (String.◌∷◌ d t) h =
    let a : code c ≡ code d = cc in
    let b : codes s ≡ codes t = cc in let e = Char-path c d a in let f = codes-injective s t b in cc

str_leb_antisym : (s t : String) → str_leb s t ≡ true → str_leb t s ≡ true → s ≡ t
unfolding str_leb
str_leb_antisym s t h k = codes-injective s t (codes_leb_antisym (codes s) (codes t) h k)

-- The first of a sorted list is at most each other.
IsSorted-head :
    (x z : String) (xs : List String)
    → IsSorted str_leb (x ∷ xs)
    → has z xs ≡ true
    → str_leb x z ≡ true
IsSorted-head x z [] s h = cc
IsSorted-head x z (y ∷ xs) s h = elim (Bool-cases (y == z)) [
  | inl e ↦ subst (λ w. str_leb x w ≡ true) ((eq_iff y z).0 e) s.0
  | inr e ↦ str_leb_trans x y z s.0 (IsSorted-head y z xs s.1 (ground arith))
]

has_of_count : (x : String) (xs ys : List String) → count x (x ∷ xs) ≡ count x ys → has x ys ≡ true
has_of_count x xs ys h = elim (Bool-cases (has x ys)) [
  | inl e ↦ e
  | inr e ↦ ground (arith, eq_iff x x, count-zero x ys e)
]

pub IsSorted-unique :
    (xs ys : List String)
    → IsSorted str_leb xs
    → IsSorted str_leb ys
    → ((x : String) → count x xs ≡ count x ys)
    → xs ≡ ys
IsSorted-unique [] [] s t h = refl
IsSorted-unique [] (y ∷ ys) s t h = let bad = has_of_count y ys [] (sym (h y)) in cc
IsSorted-unique (x ∷ xs) [] s t h = let bad = has_of_count x xs [] (h x) in cc
IsSorted-unique (x ∷ xs) (y ∷ ys) s t h =
    let e : x ≡ y = elim (Bool-cases (x == y)) [
      | inl e ↦ (eq_iff x y).0 e
      | inr e ↦
          let i = has_of_count x xs (y ∷ ys) (h x) in
          let j = has_of_count y ys (x ∷ xs) (sym (h y)) in
          str_leb_antisym x y (IsSorted-head x y xs s (ground arith))
            (IsSorted-head y x ys t (ground (arith, eq_iff x y, eq_iff y x)))
    ] in
    let rest = IsSorted-unique xs ys s.1 t.1 (λ z.
      let c = h z in
      subst (λ w. count z (x ∷ xs) ≡ count z (w ∷ ys) → count z xs ≡ count z ys) e
        (λ d. ground arith) c) in
    cc

-- The same texts, each as often.
abbrev pub SameTexts : List String → List String → Type 0
SameTexts xs ys = (x : String) → count x xs ≡ count x ys

pub SameTexts_of_sorted : (xs ys : List String) → sorted xs ≡ sorted ys → SameTexts xs ys
SameTexts_of_sorted xs ys h x = sym (count-sorted x xs) ∙ ap (count x) h ∙ count-sorted x ys

pub sorted_of_SameTexts : (xs ys : List String) → SameTexts xs ys → sorted xs ≡ sorted ys
sorted_of_SameTexts xs ys h =
    IsSorted-unique (sorted xs) (sorted ys) (sorted-IsSorted xs) (sorted-IsSorted ys)
      (λ x. count-sorted x xs ∙ h x ∙ sym (count-sorted x ys))
