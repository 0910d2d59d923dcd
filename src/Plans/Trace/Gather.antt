-- ===== src/Plans/Trace/Gather.antt =====
-- Dictionaries made by a comprehension over distinct keys, and links between two of them in terms of
-- the lists that they are made of.
use graph_coder.Base.{
  String, Bool, true, false, ◌&&◌, List, [], ◌∷◌, ◌++◌, append_assoc, none, some, is_nil, has,
  lookup, insert, distinct, map, ◌==◌, eq_iff, ◌≡◌, ◌↔◌, inl, inr, refl, sym, ap, ◌∙◌, subst, arith,
  In, In-map, In-map_inv, Bool-cases, append_nil,
}
use graph_coder.Plans.Trace.{Links}
use graph_coder.Plans.Trace.Linked.{IsLinked}

module _ {A : Type 0} (key : A → String) (value : A → List String) where
  abbrev pub pair_of : A → String × List String
  pair_of x = (key x, value x)

  -- A dict comprehension, one insertion after the other.
  unfoldable pub gather : List A → Links → Links
  gather [] d = d
  gather (x ∷ xs) d = gather xs (insert (key x) (value x) d)

  insert_fresh :
      (k : String) (v : List String) (d : Links)
      → lookup k d ≡ none
      → insert k v d ≡ d ++ (k, v) ∷ []
  unfolding insert lookup
  insert_fresh k v [] h = refl
  insert_fresh k v ((j, w) ∷ d) h = elim (Bool-cases (j == k)) [
    | inl e ↦ let bad : some w ≡ none = rw (e, lookup) at h in cc
    | inr e ↦ rw e (ap (λ t. (j, w) ∷ t) (insert_fresh k v d (rw (e, lookup) at h)))
  ]

  lookup-append_absent :
      (k : String) (d e : Links) → lookup k d ≡ none → lookup k (d ++ e) ≡ lookup k e
  unfolding lookup
  lookup-append_absent k [] e h = refl
  lookup-append_absent k ((j, w) ∷ d) e h = ground (arith, lookup-append_absent k d e)

  pub gather-distinct :
      (xs : List A) (d : Links)
      → distinct (map key xs) ≡ true
      → ((k : String) → has k (map key xs) ≡ true → lookup k d ≡ none)
      → gather xs d ≡ d ++ map pair_of xs
  unfolding gather lookup
  gather-distinct [] d u f = sym (append_nil d)
  gather-distinct (x ∷ xs) d u f =
      let first =
        insert_fresh (key x) (value x) d (f (key x) (ground (arith, eq_iff (key x) (key x)))) in
      rw first (
        gather-distinct xs (d ++ pair_of x ∷ []) (ground arith) (λ k h.
          lookup-append_absent k d (pair_of x ∷ []) (f k (ground arith))
          ∙ ground (arith, eq_iff (key x) k))
        ∙ append_assoc d (pair_of x ∷ []) (map pair_of xs))

  lookup-pairs_In :
      (xs : List A) (k : String) (v : List String)
      → lookup k (map pair_of xs) ≡ some v
      → (x : A) × In x xs × (key x ≡ k) × (value x ≡ v)
  unfolding lookup
  lookup-pairs_In [] k v h = let bad : none ≡ some v = h in cc
  lookup-pairs_In (x ∷ xs) k v h = elim (Bool-cases (key x == k)) [
    | inl e ↦
        let same : some (value x) ≡ some v = rw (e, lookup) at h in
        let eq : value x ≡ v = cc in (x, inl refl, (eq_iff (key x) k).0 e, eq)
    | inr e ↦ let (y, i, p, q) = lookup-pairs_In xs k v (rw (e, lookup) at h) in (y, inr i, p, q)
  ]

  has_In : (y : A) (xs : List A) → In y xs → has (key y) (map key xs) ≡ true
  has_In y [] i = elim i [ ]
  has_In y (x ∷ xs) (inl e) = let t = (eq_iff (key x) (key y)).1 (ap key e) in ground arith
  has_In y (x ∷ xs) (inr i) = ground (arith, has_In y xs i)

  lookup-pairs_of_In :
      (xs : List A) (y : A)
      → distinct (map key xs) ≡ true
      → In y xs
      → lookup (key y) (map pair_of xs) ≡ some (value y)
  unfolding lookup
  lookup-pairs_of_In [] y u i = elim i [ ]
  lookup-pairs_of_In (x ∷ xs) y u (inl e) =
      rw ((eq_iff (key x) (key y)).1 (ap key e)) (ap (λ z. some (value z)) e)
  lookup-pairs_of_In (x ∷ xs) y u (inr i) = elim (Bool-cases (key x == key y)) [
    | inl e ↦
        let same = (eq_iff (key x) (key y)).0 e in
        let t = subst (λ z. has z (map key xs) ≡ true) (sym same) (has_In y xs i) in
        let bad : true ≡ false = ground arith in cc
    | inr e ↦ rw e (lookup-pairs_of_In xs y (ground arith) i)
  ]

-- Each of the first names one of the second where that is asked, and each name is that of one of
-- the second, which names it in return.
abbrev pub Named :
    {A B : Type 0}
    → Bool
    → (A → String)
    → (A → List String)
    → List A
    → (B → String)
    → (B → List String)
    → List B
    → Type 0
Named {A} {B} strict key value xs key' value' ys =
    (x : A)
    → In x xs
    → ((strict && is_nil (value x)) ≡ false)
      × ((t : String)
          → has t (value x) ≡ true
          → (y : B) × In y ys × (key' y ≡ t) × (has (key x) (value' y) ≡ true))

module _ {A B : Type 0} (strict : Bool) (key : A → String) (value : A → List String) (xs : List A)
    (key' : B → String) (value' : B → List String) (ys : List B) where
  pub IsLinked-Named :
      distinct (map key' ys) ≡ true
      → IsLinked strict (map (pair_of key' value') ys) (map (pair_of key value) xs)
        ↔ Named strict key value xs key' value' ys
  IsLinked-Named u = (
    λ h x i.
        let (a, b) = h (key x) (value x) (In-map (pair_of key value) x xs i) in
        (
          a,
          λ t m.
              let (back, l, n) = b t m in
              let (y, j, p, q) = lookup-pairs_In key' value' ys t back l in
              (y, j, p, subst (λ z. has (key x) z ≡ true) (sym q) n),
        ),
    λ h source targets i.
        let (x, j, e) = In-map_inv (pair_of key value) (source, targets) xs i in
        let k : key x ≡ source = ap (λ z. z.0) e in
        let v : value x ≡ targets = ap (λ z. z.1) e in
        let (a, b) = h x j in
        (
          subst (λ z. (strict && is_nil z) ≡ false) v a,
          λ t m.
              let (y, o, p, q) = b t (subst (λ z. has t z ≡ true) (sym v) m) in
              (
                value' y,
                subst (λ z. lookup z (map (pair_of key' value') ys) ≡ some (value' y)) p
                    (lookup-pairs_of_In key' value' ys y u o),
                subst (λ z. has z (value' y) ≡ true) k q,
              ),
        ),
  )
