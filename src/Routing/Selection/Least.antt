-- ===== src/Routing/Selection/Least.antt =====
-- `min` by the selection key gives a member that no member goes before.
use graph_coder.Base.{
  Bool, true, false, List, [], ◌∷◌, some, In, if◌then◌else◌, ◌≡◌, ◌⊎◌, inl, inr, refl, sym, ◌∙◌,
  subst, arith, Bool-cases, str_below_irrefl, str_below_trans,
}
use graph_coder.Routing.Floats.{Floats, IsOrder}
use graph_coder.Routing.Models.{CandidateScore}
use graph_coder.Routing.Selection.{before, key_less, least, first_least}

module _ {F : Type 0} (floats : Floats F) where
  -- The better of the two.
  abbrev next : CandidateScore F → CandidateScore F → CandidateScore F
  next s best = if key_less floats s best then s else best

  next-cases : (s best : CandidateScore F) → (next s best ≡ s) ⊎ (next s best ≡ best)
  next-cases s best = elim (Bool-cases (key_less floats s best)) [
    | inl e ↦ rw e (inl refl)
    | inr e ↦ rw e (inr refl)
  ]

  least-cases :
      (best : CandidateScore F) (rest : List (CandidateScore F))
      → (least floats best rest ≡ best) ⊎ In (least floats best rest) rest
  unfolding least
  least-cases best [] = inl refl
  least-cases best (s ∷ rest) = elim (least-cases (next s best) rest) [
    | inr i ↦ inr (inr i)
    | inl f ↦ elim (next-cases s best) [ inl e ↦ inr (inl (sym (f ∙ e))) | inr e ↦ inl (f ∙ e) ]
  ]

  pub first_least-In :
      (scores : List (CandidateScore F)) (s : CandidateScore F)
      → first_least floats scores ≡ some s
      → In s scores
  first_least-In [] s h = cc
  first_least-In (x ∷ rest) s h =
      let e : least floats x rest ≡ s = cc in
      elim (least-cases x rest) [
        | inl f ↦ inl (sym f ∙ e)
        | inr i ↦ inr (subst (λ z. In z rest) e i)
      ]

  module _ (order : IsOrder floats) where
    before_irrefl : (a : F) (rest : Bool) → rest ≡ false → before floats a a rest ≡ false
    before_irrefl a rest h = ground (arith, order.less_irrefl a)

    before_trans :
        (a b c : F) (r s t : Bool)
        → (r ≡ true → s ≡ true → t ≡ true)
        → before floats a b r ≡ true
        → before floats b c s ≡ true
        → before floats a c t ≡ true
    before_trans a b c r s t f h k = ground (
      arith,
      order.less_trans a b c,
      order.same_trans a b c,
      order.same-less a b c,
      order.less-same a b c,
      order.not_same_of_less a c,
    )

    key_less_irrefl : (a : CandidateScore F) → key_less floats a a ≡ false
    unfolding key_less
    key_less_irrefl a = before_irrefl _ _ (
        before_irrefl _ _
          (before_irrefl _ _ (before_irrefl _ _ (str_below_irrefl a.model.model_id))))

    key_less_trans :
        (a b c : CandidateScore F)
        → key_less floats a b ≡ true
        → key_less floats b c ≡ true
        → key_less floats a c ≡ true
    unfolding key_less
    key_less_trans a b c = before_trans _ _ _ _ _ _ (
        before_trans _ _ _ _ _ _ (
          before_trans _ _ _ _ _ _ (
            before_trans _ _ _ _ _ _
              (str_below_trans a.model.model_id b.model.model_id c.model.model_id))))

    next-bound :
        (t s best : CandidateScore F)
        → key_less floats t best ≡ false
        → key_less floats t (next s best) ≡ false
    next-bound t s best h = elim (Bool-cases (key_less floats s best)) [
      | inl e ↦ rw e (ground (arith, key_less_trans t s best))
      | inr e ↦ rw e h
    ]

    next_self : (s best : CandidateScore F) → key_less floats s (next s best) ≡ false
    next_self s best = elim (Bool-cases (key_less floats s best)) [
      | inl e ↦ rw e (key_less_irrefl s)
      | inr e ↦ rw e e
    ]

    -- No score goes before the least, where none goes before the first.
    least-bound :
        (t best : CandidateScore F) (rest : List (CandidateScore F))
        → key_less floats t best ≡ false
        → key_less floats t (least floats best rest) ≡ false
    unfolding least
    least-bound t best [] h = h
    least-bound t best (s ∷ rest) h = least-bound t (next s best) rest (next-bound t s best h)

    least-member :
        (t best : CandidateScore F) (rest : List (CandidateScore F))
        → In t rest
        → key_less floats t (least floats best rest) ≡ false
    unfolding least
    least-member t best [] i = elim i [ ]
    least-member t best (s ∷ rest) (inr i) = least-member t (next s best) rest i
    least-member t best (s ∷ rest) (inl i) =
        subst (λ z. key_less floats z (least floats best (s ∷ rest)) ≡ false) i
          (least-bound s (next s best) rest (next_self s best))

    pub first_least-member :
        (scores : List (CandidateScore F)) (s t : CandidateScore F)
        → first_least floats scores ≡ some s
        → In t scores
        → key_less floats t s ≡ false
    first_least-member [] s t h i = elim i [ ]
    first_least-member (x ∷ rest) s t h i =
        let e : least floats x rest ≡ s = cc in
        subst (λ z. key_less floats t z ≡ false) e
          (elim i [
            | inl f ↦
                least-bound t x rest
                  (subst (λ z. key_less floats z x ≡ false) f (key_less_irrefl x))
            | inr j ↦ least-member t x rest j
          ])
