-- ===== src/Conductor/Frontier/Pareto.antt =====
-- The Pareto filter keeps the candidates that nothing dominates, and loses nothing that matters.
use mathlib.Core.Path.{subst}
use agentic_coding_stack.Prelude.{
  ℕ, zero, suc, ◌+◌, ◌<◌, ◌≡◌, refl, ap, Bool, true, false, not, ◌⊎◌, inl, inr, List, [], ◌∷◌, any,
  ◌↔◌, All, In, count, count-lt, any-In, In-keep, keep-In, All-In, keep, get_elem?, some,
  Bool-cases, arith, if◌then◌else◌,
}
use agentic_coding_stack.Base.Number.{Float}
use agentic_coding_stack.Shared.Schemas.{CandidatePlan}
use agentic_coding_stack.Conductor.Frontier.{
  Floats, objectives, all_ge, any_gt, dominates, dominated_from, pareto_from, pareto_filter,
}

-- What IEEE comparison gives on numbers, `is_number` telling them from NaN.
pub record Ordered (f : Floats) : Type 0 where
  pub is_number : Float → Bool
  pub le_refl : (a : Float) → is_number a ≡ true → f.le a a ≡ true
  pub le_trans :
      (a b c : Float)
      → is_number a ≡ true
      → is_number b ≡ true
      → is_number c ≡ true
      → f.le a b ≡ true
      → f.le b c ≡ true
      → f.le a c ≡ true
  pub lt_iff : (a b : Float) → is_number a ≡ true → is_number b ≡ true → f.lt a b ≡ not (f.le b a)

module _ (f : Floats) (law : Ordered f) where
  -- The bounds of the schema keep NaN out of the objectives.
  abbrev pub IsNumeric : CandidatePlan → Type 0
  IsNumeric c = All (λ x. law.is_number x ≡ true) (objectives c)

  abbrev Numbers : List Float → Type 0
  Numbers = All (λ x. law.is_number x ≡ true)

  all_ge_trans :
      (ls ms rs : List Float)
      → Numbers ls
      → Numbers ms
      → Numbers rs
      → all_ge f.le ls ms ≡ true
      → all_ge f.le ms rs ≡ true
      → all_ge f.le ls rs ≡ true
  all_ge_trans [] ms rs na nb nc h k = refl
  all_ge_trans (a ∷ ls) [] rs na nb nc h k = cc
  all_ge_trans (a ∷ ls) (b ∷ ms) [] na nb nc h k = cc
  all_ge_trans (a ∷ ls) (b ∷ ms) (c ∷ rs) na nb nc h k =
      ground (arith, law.le_trans c b a nc.0 nb.0 na.0, all_ge_trans ls ms rs na.1 nb.1 nc.1)

  gt_ge :
      (a b c : Float)
      → law.is_number a ≡ true
      → law.is_number b ≡ true
      → law.is_number c ≡ true
      → f.lt b a ≡ true
      → f.le c b ≡ true
      → f.lt c a ≡ true
  gt_ge a b c na nb nc h k =
      ground (arith, law.lt_iff b a nb na, law.lt_iff c a nc na, law.le_trans a c b na nc nb)

  any_gt_ge :
      (ls ms rs : List Float)
      → Numbers ls
      → Numbers ms
      → Numbers rs
      → any_gt f.lt ls ms ≡ true
      → all_ge f.le ms rs ≡ true
      → any_gt f.lt ls rs ≡ true
  any_gt_ge [] ms rs na nb nc h k = cc
  any_gt_ge (a ∷ ls) [] rs na nb nc h k = cc
  any_gt_ge (a ∷ ls) (b ∷ ms) [] na nb nc h k = cc
  any_gt_ge (a ∷ ls) (b ∷ ms) (c ∷ rs) na nb nc h k =
      ground (arith, gt_ge a b c na.0 nb.0 nc.0, any_gt_ge ls ms rs na.1 nb.1 nc.1)

  any_gt_irrefl : (ls : List Float) → Numbers ls → any_gt f.lt ls ls ≡ false
  any_gt_irrefl [] na = refl
  any_gt_irrefl (a ∷ ls) na =
      ground (arith, law.lt_iff a a na.0 na.0, law.le_refl a na.0, any_gt_irrefl ls na.1)

  dominates_trans :
      (a b c : CandidatePlan)
      → IsNumeric a
      → IsNumeric b
      → IsNumeric c
      → dominates f a b ≡ true
      → dominates f b c ≡ true
      → dominates f a c ≡ true
  unfolding dominates
  dominates_trans a b c na nb nc h k = ground (
    arith,
    all_ge_trans (objectives a) (objectives b) (objectives c) na nb nc,
    any_gt_ge (objectives a) (objectives b) (objectives c) na nb nc,
  )

  dominates_irrefl : (a : CandidatePlan) → IsNumeric a → dominates f a a ≡ false
  unfolding dominates
  dominates_irrefl a na = ground (arith, any_gt_irrefl (objectives a) na)

  -- Does a candidate of the list dominate this one?
  abbrev beaten : List CandidatePlan → CandidatePlan → Bool
  beaten cs c = any (λ d. dominates f d c) cs

  dominated_after :
      (idx jdx : ℕ) (c : CandidatePlan) (rest : List CandidatePlan)
      → idx < jdx
      → dominated_from f idx c jdx rest ≡ beaten rest c
  unfolding dominated_from
  dominated_after idx jdx c [] h = refl
  dominated_after idx jdx c (d ∷ rest) h =
      ground (arith, dominated_after idx (jdx + 1) c rest (omega arith))

  -- Leaving out the own index changes nothing, as nothing dominates itself.
  dominated_from-beaten :
      (idx jdx n : ℕ) (c : CandidatePlan) (rest : List CandidatePlan)
      → idx ≡ jdx + n
      → get_elem? rest n ≡ some c
      → dominates f c c ≡ false
      → dominated_from f idx c jdx rest ≡ beaten rest c
  unfolding dominated_from
  dominated_from-beaten idx jdx n c [] e h irr = cc
  dominated_from-beaten idx jdx zero c (d ∷ rest) e h irr =
      let same : d ≡ c = cc in
      ground
        (arith, ap (λ x. dominates f x c) same, dominated_after idx (jdx + 1) c rest (omega arith))
  dominated_from-beaten idx jdx (suc n) c (d ∷ rest) e h irr =
      ground (arith, dominated_from-beaten idx (jdx + 1) n c rest (omega arith) h irr)

  pareto_from-keep :
      (cs : List CandidatePlan) (idx : ℕ) (rest : List CandidatePlan)
      → ((i : ℕ) (c : CandidatePlan) → get_elem? rest i ≡ some c → get_elem? cs (idx + i) ≡ some c)
      → All IsNumeric rest
      → pareto_from f cs idx rest ≡ keep (λ c. not (beaten cs c)) rest
  unfolding pareto_from
  pareto_from-keep cs idx [] at num = refl
  pareto_from-keep cs idx (c ∷ rest) at num =
      let here : get_elem? cs idx ≡ some c =
        subst (λ i. get_elem? cs i ≡ some c) (omega arith) (at 0 c refl) in
      rw
        (
          dominated_from-beaten idx 0 idx c cs (omega arith) here (dominates_irrefl c num.0),
          pareto_from-keep cs (idx + 1) rest
              (λ i d e. subst (λ i. get_elem? cs i ≡ some d) (omega arith) (at (suc i) d e)) num.1,
        )
        (swap (beaten cs c) _ _)
    where
      swap : {A : Type 0} (b : Bool) (x y : A) → (if b then x else y) ≡ (if not b then y else x)
      swap true x y = refl
      swap false x y = refl

  pareto_filter-keep :
      (cs : List CandidatePlan)
      → All IsNumeric cs
      → pareto_filter f cs ≡ keep (λ c. not (beaten cs c)) cs
  unfolding pareto_filter
  pareto_filter-keep cs num =
      pareto_from-keep cs 0 cs (λ i c e. subst (λ j. get_elem? cs j ≡ some c) (omega arith) e) num

  -- No candidate of the list dominates this one.
  abbrev pub Undominated : List CandidatePlan → CandidatePlan → Type 0
  Undominated cs c = All (λ d. dominates f d c ≡ false) cs

  unbeaten :
      (cs : List CandidatePlan) (c : CandidatePlan) → not (beaten cs c) ≡ true → Undominated cs c
  unbeaten [] c h = tt
  unbeaten (d ∷ cs) c h = elim (Bool-cases (dominates f d c)) [
    | inl e ↦ let b : not true ≡ true = rw e at h in cc
    | inr e ↦ (e, unbeaten cs c (rw e at h))
  ]

  undominated :
      (cs : List CandidatePlan) (c : CandidatePlan) → Undominated cs c → not (beaten cs c) ≡ true
  undominated [] c h = refl
  undominated (d ∷ cs) c h = rw h.0 (undominated cs c h.1)

  -- Where every objective is a number, the filter keeps a candidate exactly when it is one of the
  -- candidates and no candidate dominates it.
  pub pareto_filter_iff :
      (cs : List CandidatePlan) (c : CandidatePlan)
      → All IsNumeric cs
      → (In c (pareto_filter f cs) ↔ (In c cs × Undominated cs c))
  pareto_filter_iff cs c num = rw (pareto_filter-keep cs num) (
    λ i. let (j, e) = keep-In (λ c. not (beaten cs c)) cs c i in (j, unbeaten cs c e),
    λ h. In-keep (λ c. not (beaten cs c)) cs c h.0 (undominated cs c h.1),
  )

  -- A candidate of the list is kept, or one that is kept dominates it.
  abbrev pub Covered : List CandidatePlan → CandidatePlan → Type 0
  Covered kept c = In c kept ⊎ ((d : CandidatePlan) × In d kept × (dominates f d c ≡ true))

  covers_within :
      (n : ℕ) (cs : List CandidatePlan) (c : CandidatePlan)
      → All IsNumeric cs
      → In c cs
      → count (λ d. dominates f d c) cs < n
      → Covered (pareto_filter f cs) c
  covers_within zero cs c num i h = let absurd : ⊥ = omega arith in elim absurd [ ]
  covers_within (suc n) cs c num i h = elim (Bool-cases (beaten cs c)) [
    | inr e ↦ inl ((pareto_filter_iff cs c num).1 (i, unbeaten cs c (rw e refl)))
    | inl e ↦
        let (d, j, q) = any-In (λ d. dominates f d c) cs e in
        let number : (x : CandidatePlan) → In x cs → IsNumeric x =
          λ x k. All-In IsNumeric cs x num k in
        let fewer : count (λ x. dominates f x d) cs < count (λ x. dominates f x c) cs =
          count-lt (λ x. dominates f x d) (λ x. dominates f x c) cs d
            (λ x k r. dominates_trans x d c (number x k) (number d j) (number c i) r q) j
            (dominates_irrefl d (number d j)) q in
        elim (covers_within n cs d num j (omega arith)) [
          | inl kept ↦ inr (d, kept, q)
          | inr (x, kept, r) ↦
              let k = ((pareto_filter_iff cs x num).0 kept).0 in
              inr (x, kept, dominates_trans x d c (number x k) (number d j) (number c i) r q)
        ]
  ]

  -- Where every objective is a number, the filter loses no best choice: each candidate is kept, or a
  -- kept candidate dominates it.
  pub pareto_filter_covers :
      (cs : List CandidatePlan) (c : CandidatePlan)
      → All IsNumeric cs
      → In c cs
      → Covered (pareto_filter f cs) c
  pareto_filter_covers cs c num i =
      covers_within (suc (count (λ d. dominates f d c) cs)) cs c num i (omega arith)
