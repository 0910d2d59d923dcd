-- ===== src/Routing/Selection/Frontier.antt =====
-- The Pareto frontier is the scores that no score dominates, and each other score has one of the
-- frontier that dominates it.
use graph_coder.Base.{
  append_assoc, Bool, true, false, not, ◌||◌, List, [], ◌∷◌, ◌++◌, keep, any, In, In-keep, ◌≡◌, ◌⊎◌,
  ◌↔◌, inl, inr, refl, sym, ◌∙◌, subst, arith, Bool-cases, and_true,
}
use graph_coder.Routing.Floats.{Floats, IsOrder}
use graph_coder.Routing.Models.{CandidateScore}
use graph_coder.Routing.Selection.{dominates, frontier_from, pareto_frontier}

any-append_cons :
    {A : Type 0} (p : A → Bool) (xs : List A) (y : A) (ys : List A)
    → p y ≡ false
    → any p (xs ++ y ∷ ys) ≡ any p (xs ++ ys)
any-append_cons p [] y ys h = rw h refl
any-append_cons p (x ∷ xs) y ys h = rw (any-append_cons p xs y ys h) refl

module _ {F : Type 0} (floats : Floats F) (order : IsOrder floats) where
  dominates_irrefl : (s : CandidateScore F) → dominates floats s s ≡ false
  unfolding dominates
  dominates_irrefl s = ground (
    arith,
    order.less_irrefl s.quality,
    order.less_irrefl s.expected_passing_cost,
    order.less_irrefl s.provider.reliability,
    order.less_irrefl s.model.latency_ms,
  )

  -- No worse in each respect.
  record IsAsGood (a b : CandidateScore F) : Type 0 where
    quality : floats.at_most b.quality a.quality ≡ true
    cost : floats.at_most a.expected_passing_cost b.expected_passing_cost ≡ true
    reliability : floats.at_most b.provider.reliability a.provider.reliability ≡ true
    latency : floats.at_most a.model.latency_ms b.model.latency_ms ≡ true

  abbrev better : CandidateScore F → CandidateScore F → Bool
  better a b =
      floats.less b.quality a.quality
      || (floats.less a.expected_passing_cost b.expected_passing_cost
          || (floats.less b.provider.reliability a.provider.reliability
              || floats.less a.model.latency_ms b.model.latency_ms))

  dominates-true :
      (a b : CandidateScore F) → dominates floats a b ≡ true → IsAsGood a b × (better a b ≡ true)
  unfolding dominates
  dominates-true a b h =
      let (x, h1) = (and_true _ _).0 h in
      let (y, h2) = (and_true _ _).0 h1 in
      let (z, h3) = (and_true _ _).0 h2 in
      let (w, h4) = (and_true _ _).0 h3 in
      (record { quality = x; cost = y; reliability = z; latency = w }, h4)

  dominates_of :
      (a b : CandidateScore F) → IsAsGood a b → better a b ≡ true → dominates floats a b ≡ true
  unfolding dominates
  dominates_of a b g h = rw (g.quality, g.cost, g.reliability, g.latency) h

  -- At least as good in each respect, and better in one.
  pub record Dominates (a b : CandidateScore F) : Type 0 where
    pub quality : floats.at_most b.quality a.quality ≡ true
    pub cost : floats.at_most a.expected_passing_cost b.expected_passing_cost ≡ true
    pub reliability : floats.at_most b.provider.reliability a.provider.reliability ≡ true
    pub latency : floats.at_most a.model.latency_ms b.model.latency_ms ≡ true
    pub better_in_one :
        (floats.less b.quality a.quality ≡ true)
        ⊎ ((floats.less a.expected_passing_cost b.expected_passing_cost ≡ true)
            ⊎ ((floats.less b.provider.reliability a.provider.reliability ≡ true)
                ⊎ (floats.less a.model.latency_ms b.model.latency_ms ≡ true)))

  dominates-Dominates : (a b : CandidateScore F) → (dominates floats a b ≡ true) ↔ Dominates a b
  dominates-Dominates a b = (
    λ h.
        let (g, x) = dominates-true a b h in
        record {
          quality = g.quality;
          cost = g.cost;
          reliability = g.reliability;
          latency = g.latency;
          better_in_one = ground arith;
        },
    λ d.
        dominates_of a b
          record {
            quality = d.quality;
            cost = d.cost;
            reliability = d.reliability;
            latency = d.latency;
          }
          (ground (arith, d.better_in_one)),
  )

  IsAsGood-trans : (a b c : CandidateScore F) → IsAsGood a b → IsAsGood b c → IsAsGood a c
  IsAsGood-trans a b c g h = record {
    quality = order.at_most_trans c.quality b.quality a.quality h.quality g.quality;
    cost =
        order.at_most_trans a.expected_passing_cost b.expected_passing_cost c.expected_passing_cost
          g.cost h.cost;
    reliability =
        order.at_most_trans c.provider.reliability b.provider.reliability a.provider.reliability
          h.reliability g.reliability;
    latency =
        order.at_most_trans a.model.latency_ms b.model.latency_ms c.model.latency_ms g.latency
          h.latency;
  }

  better_trans : (a b c : CandidateScore F) → better a b ≡ true → IsAsGood b c → better a c ≡ true
  better_trans a b c h g = ground (
    arith,
    order.at_most-less c.quality b.quality a.quality g.quality,
    order.less-at_most a.expected_passing_cost b.expected_passing_cost c.expected_passing_cost,
    order.at_most-less c.provider.reliability b.provider.reliability a.provider.reliability,
    order.less-at_most a.model.latency_ms b.model.latency_ms c.model.latency_ms,
    g.cost,
    g.reliability,
    g.latency,
  )

  dominates_trans :
      (a b c : CandidateScore F)
      → dominates floats a b ≡ true
      → dominates floats b c ≡ true
      → dominates floats a c ≡ true
  dominates_trans a b c h k =
      let (g, x) = dominates-true a b h in
      let (g', y) = dominates-true b c k in
      dominates_of a c (IsAsGood-trans a b c g g') (better_trans a b c x g')

  -- No score of the list dominates it.
  abbrev pub undominated : List (CandidateScore F) → CandidateScore F → Bool
  undominated scores s = not (any (λ other. dominates floats other s) scores)

  frontier_from-keep :
      (all seen rest : List (CandidateScore F))
      → seen ++ rest ≡ all
      → frontier_from floats seen rest ≡ keep (undominated all) rest
  unfolding frontier_from
  frontier_from-keep all seen [] e = refl
  frontier_from-keep all seen (s ∷ rest) e =
      let same =
        any-append_cons (λ other. dominates floats other s) seen s rest (dominates_irrefl s) in
      let rec =
        frontier_from-keep all (seen ++ s ∷ []) rest (append_assoc seen (s ∷ []) rest ∙ e) in
      rw (rec, sym same, e)
        (elim (Bool-cases (any (λ other. dominates floats other s) all)) [
          | inl f ↦ rw f refl
          | inr f ↦ rw f refl
        ])

  pareto_frontier-keep :
      (scores : List (CandidateScore F))
      → pareto_frontier floats scores ≡ keep (undominated scores) scores
  unfolding pareto_frontier
  pareto_frontier-keep scores = frontier_from-keep scores [] scores refl

  undominated-Dominates :
      (scores : List (CandidateScore F)) (s : CandidateScore F)
      → (undominated scores s ≡ true)
        ↔ ((other : CandidateScore F) → In other scores → Dominates other s → ⊥)
  undominated-Dominates [] s = (λ _ o i. elim i [ ], λ _. refl)
  undominated-Dominates (x ∷ scores) s =
      let rest = undominated-Dominates scores s in
      elim (Bool-cases (dominates floats x s)) [
        | inl d ↦ (
          λ h. let bad : false ≡ true = rw d at h in cc,
          λ f. absurd (f x (inl refl) ((dominates-Dominates x s).0 d)),
        )
        | inr d ↦ (
          λ h o i k. elim i [
            | inl e ↦
                let t = (dominates-Dominates x s).1 (subst (λ z. Dominates z s) (sym e) k) in cc
            | inr j ↦ rest.0 (rw d at h) o j k
          ],
          λ f. rw d (rest.1 (λ o i. f o (inr i))),
        )
      ]

  -- In numbers ordered as IEEE 754 has it: a score is on the frontier exactly where it is one of
  -- the scores and none of them dominates it, that is, is at least as good in quality,
  -- reliability, cost and latency and better in one of these (a higher quality or reliability, a
  -- lower cost or latency). The scores of the frontier keep their order.
  pub pareto_frontier-IsUndominated :
      (scores : List (CandidateScore F))
      → ((s : CandidateScore F)
          → In s (pareto_frontier floats scores) ↔ (
              In s scores × ((other : CandidateScore F) → In other scores → Dominates other s → ⊥)))
        × ((p : CandidateScore F → Bool) × (pareto_frontier floats scores ≡ keep p scores))
  pareto_frontier-IsUndominated scores = (
    λ s.
        let kept = In-keep (undominated scores) s scores in
        let free = undominated-Dominates scores s in
        let same = pareto_frontier-keep scores in
        (
          λ i. let (j, u) = kept.0 (subst (λ z. In s z) same i) in (j, free.0 u),
          λ (j, f). subst (λ z. In s z) (sym same) (kept.1 (j, free.1 f)),
        ),
    (undominated scores, pareto_frontier-keep scores),
  )

  -- A score that none of the list dominates and that is at least as good as `s`.
  abbrev Top : List (CandidateScore F) → CandidateScore F → CandidateScore F → Type 0
  Top scores s t =
      ((t ≡ s) ⊎ (In t scores × (dominates floats t s ≡ true))) × (undominated scores t ≡ true)

  undominated_above :
      (scores : List (CandidateScore F)) (x t : CandidateScore F)
      → undominated scores t ≡ true
      → dominates floats x t ≡ true
      → undominated scores x ≡ true
  undominated_above [] x t h d = refl
  undominated_above (o ∷ scores) x t h d =
      ground (arith, undominated_above scores x t, dominates_trans o x t, d)

  topped :
      (scores : List (CandidateScore F)) (s : CandidateScore F)
      → (t : CandidateScore F) × Top scores s t
  topped [] s = (s, (inl refl, refl))
  topped (x ∷ scores) s =
      let (t, top) = topped scores s in
      let (above, free) = top in
      elim (Bool-cases (dominates floats x t)) [
        | inl d ↦ (
          x,
          (
            inr (
              inl refl,
              elim above [
                | inl e ↦ subst (λ z. dominates floats x z ≡ true) e d
                | inr (i, k) ↦ dominates_trans x t s d k
              ],
            ),
            rw (dominates_irrefl x) (undominated_above scores x t free d),
          ),
        )
        | inr d ↦ (t, (elim above [ inl e ↦ inl e | inr (i, k) ↦ inr (inr i, k) ], rw d free))
      ]

  -- In numbers ordered as IEEE 754 has it: each score is on the frontier or is dominated by a score
  -- of the frontier. In particular the frontier of some scores is not empty.
  pub pareto_frontier-covers :
      (scores : List (CandidateScore F)) (s : CandidateScore F)
      → In s scores
      → In s (pareto_frontier floats scores)
        ⊎ ((t : CandidateScore F) × In t (pareto_frontier floats scores)
            × (dominates floats t s ≡ true))
  pareto_frontier-covers scores s i =
      let (t, top) = topped scores s in
      let (above, free) = top in
      rw (pareto_frontier-keep scores) (elim above [
        | inl e ↦ inl (
            (In-keep (undominated scores) s scores).1
              (i, subst (λ z. undominated scores z ≡ true) e free))
        | inr (j, d) ↦ inr (t, (In-keep (undominated scores) t scores).1 (j, free), d)
      ])
