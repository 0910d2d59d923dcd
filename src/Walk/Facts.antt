-- ===== src/Walk/Facts.antt =====
-- The search finds exactly what can be reached, and ends.
use graph_coder.Base.{
  ℕ, zero, suc, ◌+◌, ◌≤◌, String, Bool, true, false, ◌||◌, Option, none, some, List, [], ◌∷◌,
  length, has, ◌≡◌, ◌≢◌, ◌⊎◌, inl, inr, ◌↔◌, arith, refl, Bool-cases, Option-cases, eq_iff,
  has-cons_cases, has-append_cases, has-append, has_self, subst, if◌then◌else◌, sym, ◌∙◌,
}
use graph_coder.Walk.{done, missing, Frontier, walk}

-- What a search from `seeds` can reach without passing through a skipped text.
pub data Reach (next : String → Option (List String)) (skip : String → Bool) (seeds : List String)
    : String → Type 0 where
  seed : {x : String} → has x seeds ≡ true → skip x ≡ false → Reach next skip seeds x
  step :
      {x y : String} {ys : List String}
      → Reach next skip seeds x
      → next x ≡ some ys
      → has y ys ≡ true
      → skip y ≡ false
      → Reach next skip seeds y

module _ (f : Frontier) (next : String → Option (List String)) (skip : String → Bool)
    (seeds : List String) where
  record Sound (seen todo : List String) : Type 0 where
    found : (x : String) → has x seen ≡ true → Reach next skip seeds x
    pending : (x : String) → has x todo ≡ true → skip x ≡ false → Reach next skip seeds x

  record Complete (seen todo : List String) : Type 0 where
    start :
        (x : String)
        → has x seeds ≡ true
        → skip x ≡ false
        → (has x seen ≡ true) ⊎ (has x todo ≡ true)
    closed :
        (x y : String) (ys : List String)
        → has x seen ≡ true
        → next x ≡ some ys
        → has y ys ≡ true
        → skip y ≡ false
        → (has y seen ≡ true) ⊎ (has y todo ≡ true)

  Sound-drop : (x : String) (seen rest : List String) → Sound seen (x ∷ rest) → Sound seen rest
  Sound-drop x seen rest s = record { found = s.found; pending = λ z h. s.pending z (ground arith) }

  Sound-step :
      (x : String) (seen rest new : List String)
      → Sound seen (x ∷ rest)
      → skip x ≡ false
      → next x ≡ some new
      → Sound (x ∷ seen) (f.push rest new)
  Sound-step x seen rest new s k e =
      let at_x : Reach next skip seeds x = s.pending x (has_self x rest) k in
      record {
        found = λ z h. elim (has-cons_cases z x seen h) [
          | inl p ↦ subst (Reach next skip seeds) p at_x
          | inr q ↦ s.found z q
        ];
        pending = λ z h n.
            elim (has-append_cases z rest new
              (ground (arith, f.has-push z rest new, has-append z rest new))) [
                | inl q ↦ s.pending z (ground arith) n
                | inr q ↦ step at_x e q n
              ];
      }

  Complete-drop :
      (x : String) (seen rest : List String)
      → (has x seen || skip x) ≡ true
      → Complete seen (x ∷ rest)
      → Complete seen rest
  Complete-drop x seen rest d c = record {
    start = λ z h n. ground (arith, c.start z h n, eq_iff x z);
    closed = λ y z ys h e m n. ground (arith, c.closed y z ys h e m n, eq_iff x z);
  }

  Complete-step :
      (x : String) (seen rest new : List String)
      → next x ≡ some new
      → Complete seen (x ∷ rest)
      → Complete (x ∷ seen) (f.push rest new)
  Complete-step x seen rest new e c = record {
    start = λ z h n. ground (arith, c.start z h n, f.has-push z rest new);
    closed = λ y z ys h e' m n. ground (arith, c.closed y z ys, f.has-push z rest new, eq_iff x y);
  }

  walk-skip :
      (fuel : ℕ) (x : String) (seen rest : List String)
      → (has x seen || skip x) ≡ true
      → walk f next skip (suc fuel) seen (x ∷ rest) ≡ walk f next skip fuel seen rest
  unfolding walk
  walk-skip fuel x seen rest d = rw (d, walk)

  walk-visit :
      (fuel : ℕ) (x : String) (seen rest new : List String)
      → (has x seen || skip x) ≡ false
      → next x ≡ some new
      → walk f next skip (suc fuel) seen (x ∷ rest)
        ≡ walk f next skip fuel (x ∷ seen) (f.push rest new)
  unfolding walk
  walk-visit fuel x seen rest new d e = ground arith

  walk-missing :
      (fuel : ℕ) (x : String) (seen rest : List String)
      → (has x seen || skip x) ≡ false
      → next x ≡ none
      → walk f next skip (suc fuel) seen (x ∷ rest) ≡ missing x
  unfolding walk
  walk-missing fuel x seen rest d e = ground arith

  -- The loop keeps both invariants, and ends with nothing pending.
  walk_rule :
      (fuel : ℕ) (seen todo t : List String)
      → Sound seen todo
      → Complete seen todo
      → walk f next skip fuel seen todo ≡ done t
      → Sound t [] × Complete t []
  unfolding walk
  walk_rule fuel seen [] t s c h =
      let e : seen ≡ t = cc in (subst (λ z. Sound z []) e s, subst (λ z. Complete z []) e c)
  walk_rule zero seen (x ∷ rest) t s c h = cc
  walk_rule (suc fuel) seen (x ∷ rest) t s c h = elim (Bool-cases (has x seen || skip x)) [
    | inl d ↦
        walk_rule fuel seen rest t (Sound-drop x seen rest s) (Complete-drop x seen rest d c)
          (rw (d, walk) at h)
    | inr d ↦ elim (Option-cases (next x)) [
      | inl e ↦ cc (walk-missing fuel x seen rest d e)
      | inr (new, e) ↦
          walk_rule fuel (x ∷ seen) (f.push rest new) t
            (Sound-step x seen rest new s (ground arith) e) (Complete-step x seen rest new e c)
            (sym (walk-visit fuel x seen rest new d e) ∙ h)
    ]
  ]

  complete :
      (t : List String) → Complete t [] → {x : String} → Reach next skip seeds x → has x t ≡ true
  complete t c (seed {x} h k) = ground (arith, c.start x h k)
  complete t c (step {x} {y} {ys} r e h k) = ground (arith, c.closed x y ys (complete t c r) e h k)

  -- A search that returns has found exactly what can be reached.
  pub walk-Reach :
      (fuel : ℕ) (t : List String)
      → walk f next skip fuel [] seeds ≡ done t
      → (x : String) → (has x t ≡ true) ↔ Reach next skip seeds x
  walk-Reach fuel t h x =
      let (s, c) =
        walk_rule fuel [] seeds t (record { found = λ z p. cc; pending = λ z p k. seed p k })
          (record { start = λ z p k. inr p; closed = λ y z ys p. cc }) h in
      (s.found x, complete t c)

-- The number of successors that texts outside `seen` still have to push.
weight : (String → Option (List String)) → List String → List String → ℕ
weight next seen [] = 0
weight next seen (u ∷ us) =
    (if has u seen then 0 else elim (next u) [ none ↦ 0 | some ys ↦ length ys ])
    + weight next seen us

-- Fuel for a search: each round pops one text.
unfoldable pub budget : (String → Option (List String)) → List String → List String → ℕ
unfolding weight
budget next universe seeds = length seeds + weight next [] universe

weight-le :
    (next : String → Option (List String)) (x : String) (seen us : List String)
    → weight next (x ∷ seen) us ≤ weight next seen us
unfolding weight
weight-le next x seen [] = omega arith
weight-le next x seen (u ∷ us) = ground (arith, weight-le next x seen us)

weight-cons :
    (next : String → Option (List String)) (x : String) (seen new us : List String)
    → has x us ≡ true
    → has x seen ≡ false
    → next x ≡ some new
    → length new + weight next (x ∷ seen) us ≤ weight next seen us
unfolding weight
weight-cons next x seen new [] h k e = cc
weight-cons next x seen new (u ∷ us) h k e =
    ground (arith, weight-le next x seen us, weight-cons next x seen new us, eq_iff u x, eq_iff x u)

module _ (f : Frontier) (next : String → Option (List String)) (skip : String → Bool)
    (universe : List String) (known : (x : String) → has x universe ≡ true → next x ≢ none)
    (inside : (x y : String) (ys : List String)
      → next x ≡ some ys
      → has y ys ≡ true
      → has y universe ≡ true) where
  walk_ends :
      (fuel : ℕ) (seen todo : List String)
      → ((y : String) → has y todo ≡ true → has y universe ≡ true)
      → length todo + weight next seen universe ≤ fuel
      → (t : List String) × (walk f next skip fuel seen todo ≡ done t)
  unfolding walk
  walk_ends fuel seen [] k h = (seen, refl)
  walk_ends zero seen (x ∷ rest) k h = absurd (omega arith)
  walk_ends (suc fuel) seen (x ∷ rest) k h = elim (Bool-cases (has x seen || skip x)) [
    | inl d ↦
        let (t, e) = walk_ends fuel seen rest (λ y p. k y (ground arith)) (omega arith) in
        (t, walk-skip f next skip [] fuel x seen rest d ∙ e)
    | inr d ↦ elim (Option-cases (next x)) [
      | inl e ↦ absurd (known x (k x (has_self x rest)) e)
      | inr (new, e) ↦
          let (t, r) =
            walk_ends fuel (x ∷ seen) (f.push rest new)
              (λ y p.
                elim (has-append_cases y rest new
                  (ground (arith, f.has-push y rest new, has-append y rest new))) [
                    | inl q ↦ k y (ground arith)
                    | inr q ↦ inside x y new e q
                  ])
              (omega (
                arith,
                f.length-push rest new,
                weight-cons next x seen new universe (k x (has_self x rest)) (ground arith) e,
              )) in
          (t, walk-visit f next skip [] fuel x seen rest new d e ∙ r)
    ]
  ]

  -- A search over known texts returns.
  pub walk_returns :
      (seeds : List String)
      → ((y : String) → has y seeds ≡ true → has y universe ≡ true)
      → (t : List String) × (walk f next skip (budget next universe seeds) [] seeds ≡ done t)
  unfolding budget
  walk_returns seeds k = walk_ends (length seeds + weight next [] universe) [] seeds k (omega arith)
