-- ===== src/Conductor/Memory/Alternatives.antt =====
-- Which alternatives the frontier memory stores.
use agentic_coding_stack.Prelude.{
  ℕ, zero, suc, ◌+◌, ◌⊎◌, ◌≤◌, ◌≡◌, refl, Bool, true, false, not, ◌||◌, inl, inr, List, [], ◌∷◌,
  ◌++◌, any, length, take, length-take-le, keep, keep-In, In, All, All-append, Bool-cases,
}
use agentic_coding_stack.Shared.Schemas.{CandidatePlan}
use agentic_coding_stack.Conductor.Feasibility.{certify}
use agentic_coding_stack.Conductor.Feasibility.Policy.{Meets, feasible_iff}
use agentic_coding_stack.Conductor.Frontier.{
  Floats, dominates, dominated_from, pareto_from, pareto_filter, is_near_duplicate,
}
use agentic_coding_stack.Conductor.Frontier.Dedupe.{Apart, Apart-append}
use agentic_coding_stack.Conductor.Memory.{
  distinct_from, filter_materially_distinct, stored_alternatives,
}

module _ (f : Floats) (chosen : CandidatePlan) where
  -- What a stored alternative is, to the chosen candidate and the candidates that were offered.
  pub record Stored (unchosen : List CandidatePlan) (c : CandidatePlan) : Type 0 where
    pub offered : In c unchosen
    pub meets : Meets c
    pub undominated : dominates f chosen c ≡ false
    pub distinct : is_near_duplicate f chosen c ≡ false

  -- A candidate of the loop is stored if it is not a near duplicate of the chosen one.
  abbrev Fits : (CandidatePlan → Type 0) → CandidatePlan → Type 0
  Fits P c = P c × (is_near_duplicate f chosen c ≡ false)

  or_false : (a b : Bool) → a || b ≡ false → (a ≡ false) × (b ≡ false)
  or_false true b h = cc
  or_false false b h = (refl, h)

  distinct_from-Fits :
      (P : CandidatePlan → Type 0) (unique rest : List CandidatePlan)
      → All (Fits P) unique
      → Apart f unique
      → All P rest
      → All (Fits P) (distinct_from f chosen unique rest)
        × Apart f (distinct_from f chosen unique rest)
  unfolding distinct_from
  distinct_from-Fits P unique [] fits apart h = (fits, apart)
  distinct_from-Fits P unique (a ∷ rest) fits apart h =
      elim (Bool-cases (is_near_duplicate f chosen a || any (is_near_duplicate f a) unique)) [
        | inl e ↦ rw e (distinct_from-Fits P unique rest fits apart h.1)
        | inr e ↦
            let (far, new) =
              or_false (is_near_duplicate f chosen a) (any (is_near_duplicate f a) unique) e in
            rw e (
              distinct_from-Fits P (unique ++ a ∷ []) rest
                (All-append (Fits P) unique (a ∷ []) fits ((h.0, far), tt))
                (Apart-append f unique a apart new) h.1)
      ]

  All-take :
      (P : CandidatePlan → Type 0) (n : ℕ) (xs : List CandidatePlan) → All P xs → All P (take n xs)
  All-take P zero xs h = tt
  All-take P (suc n) [] h = tt
  All-take P (suc n) (x ∷ xs) h = (h.0, All-take P n xs h.1)

  Apart-take : (n : ℕ) (xs : List CandidatePlan) → Apart f xs → Apart f (take n xs)
  Apart-take zero xs h = tt
  Apart-take (suc n) [] h = tt
  Apart-take (suc n) (x ∷ xs) h =
      (All-take (λ d. is_near_duplicate f d x ≡ false) n xs h.0, Apart-take n xs h.1)

  All-of :
      (P : CandidatePlan → Type 0) (xs : List CandidatePlan)
      → ((c : CandidatePlan) → In c xs → P c)
      → All P xs
  All-of P [] h = tt
  All-of P (x ∷ xs) h = (h x (inl refl), All-of P xs (λ c i. h c (inr i)))

  All-weaken :
      (P Q : CandidatePlan → Type 0) (xs : List CandidatePlan)
      → ((c : CandidatePlan) → P c → Q c)
      → All P xs
      → All Q xs
  All-weaken P Q [] h k = tt
  All-weaken P Q (x ∷ xs) h k = (h x k.0, All-weaken P Q xs h k.1)

  pareto_from-In :
      (cs : List CandidatePlan) (idx : ℕ) (rest : List CandidatePlan) (c : CandidatePlan)
      → In c (pareto_from f cs idx rest)
      → In c rest
  unfolding pareto_from
  pareto_from-In cs idx [] c i = i
  pareto_from-In cs idx (x ∷ rest) c i = elim (Bool-cases (dominated_from f idx x 0 cs)) [
    | inl e ↦ inr (pareto_from-In cs (idx + 1) rest c (rw e at i))
    | inr e ↦ elim (let j : (c ≡ x) ⊎ In c (pareto_from f cs (idx + 1) rest) = rw e at i in j) [
      | inl same ↦ inl same
      | inr j ↦ inr (pareto_from-In cs (idx + 1) rest c j)
    ]
  ]

  abbrev Candidate : List CandidatePlan → CandidatePlan → Type 0
  Candidate unchosen c = In c unchosen × (Meets c × (dominates f chosen c ≡ false))

  false_of : (b : Bool) → not b ≡ true → b ≡ false
  false_of true h = cc
  false_of false h = refl

  candidates-Candidate :
      (unchosen : List CandidatePlan) (c : CandidatePlan)
      → In c (
          keep
            (λ c. not (dominates f chosen c))
            (pareto_filter f (keep (λ c. (certify c).feasible) unchosen)))
      → Candidate unchosen c
  unfolding pareto_filter
  candidates-Candidate unchosen c i =
      let feasible_only = keep (λ c. (certify c).feasible) unchosen in
      let (j, free) =
        keep-In (λ c. not (dominates f chosen c)) (pareto_from f feasible_only 0 feasible_only) c
          i in
      let (k, certified) =
        keep-In (λ c. (certify c).feasible) unchosen c
          (pareto_from-In feasible_only 0 feasible_only c j) in
      (k, ((feasible_iff c).0 certified, false_of (dominates f chosen c) free))

  -- The frontier memory stores at most two alternatives. Each was offered, meets the feasibility
  -- policy, is not dominated by the chosen candidate and is not a near duplicate of it, nor of an
  -- alternative stored before it.
  pub stored_alternatives-Stored :
      (unchosen : List CandidatePlan)
      → let stored = stored_alternatives f chosen unchosen in
        (length stored ≤ 2) × (All (Stored unchosen) stored × Apart f stored)
  unfolding stored_alternatives filter_materially_distinct
  stored_alternatives-Stored unchosen =
      let candidates =
        keep (λ c. not (dominates f chosen c))
          (pareto_filter f (keep (λ c. (certify c).feasible) unchosen)) in
      let unique = distinct_from f chosen [] candidates in
      let (fits, apart) =
        distinct_from-Fits (Candidate unchosen) [] candidates tt tt
          (All-of (Candidate unchosen) candidates (candidates-Candidate unchosen)) in
      (
        length-take-le 2 unique,
        (
          All-weaken (Fits (Candidate unchosen)) (Stored unchosen) (take 2 unique)
              (λ c h. record {
                offered = h.0.0;
                meets = h.0.1.0;
                undominated = h.0.1.1;
                distinct = h.1;
              })
              (All-take (Fits (Candidate unchosen)) 2 unique fits),
          Apart-take 2 unique apart,
        ),
      )
