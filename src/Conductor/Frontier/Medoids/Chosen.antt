-- ===== src/Conductor/Frontier/Medoids/Chosen.antt =====
-- Which candidates become medoids.
use agentic_coding_stack.Prelude.{
  ℕ, zero, suc, ◌+◌, ◌≤◌, ◌<◌, ◌≡◌, refl, ap, true, false, ◌⊎◌, inl, inr, some, List, [], ◌∷◌, map,
  length, get_elem?, leb, In, All-In, Bool-cases, arith,
}
use agentic_coding_stack.Base.Number.{Float}
use agentic_coding_stack.Base.Exec.{ok}
use agentic_coding_stack.Shared.Schemas.{CandidatePlan}
use agentic_coding_stack.Conductor.Frontier.{Floats, gram_matrix}
use agentic_coding_stack.Conductor.Frontier.Medoids.{
  range_from, combinations, at_indices, score, select_medoids,
}
use agentic_coding_stack.Conductor.Frontier.Medoids.Choices.{
  Ascending, combinations-Ascending, Ascending-combinations,
}
use agentic_coding_stack.Conductor.Frontier.Medoids.Scores.{
  Strict, IsScore, score_from-IsScore, best_from-Tops,
}

found :
    (cs : List CandidatePlan) (i : ℕ)
    → i < length cs
    → (c : CandidatePlan) × (get_elem? cs i ≡ some c)
found [] i h = let absurd : ⊥ = omega arith in elim absurd [ ]
found (x ∷ cs) zero h = (x, refl)
found (x ∷ cs) (suc i) h = found cs i (omega arith)

taken :
    (cs : List CandidatePlan) (lo k : ℕ) (combo : List ℕ)
    → Ascending lo (length cs) k combo
    → map some (at_indices cs combo) ≡ map (get_elem? cs) combo
taken cs lo zero [] a = refl
taken cs lo zero (i ∷ combo) a = elim a [ ]
taken cs lo (suc k) [] a = elim a [ ]
taken cs lo (suc k) (i ∷ combo) (from, below, more) =
    let (c, e) = found cs i below in
    let rest = taken cs (i + 1) k combo more in rw (at_indices, e) (ap (λ q. some c ∷ q) rest)

module _ (f : Floats) where
  -- The score of a choice of three of the candidates: for each candidate its largest similarity to
  -- one of the three, added up from 0.0.
  abbrev pub Scores : List CandidatePlan → List ℕ → Float → Type 0
  Scores cs combo x = IsScore f combo (f.of_ratio 0 1) (gram_matrix f cs) x

  -- The candidates at three different indices, in order, that no other three outscore.
  pub record Best (cs medoids : List CandidatePlan) : Type 0 where
    pub combo : List ℕ
    pub ascending : Ascending 0 (length cs) 3 combo
    pub at_combo : map some medoids ≡ map (get_elem? cs) combo
    pub value : Float
    pub scored : Scores cs combo value
    pub top :
        (other : List ℕ)
        → Ascending 0 (length cs) 3 other
        → (x : Float) × Scores cs other x × (f.lt value x ≡ false)

  pub data Selected (cs medoids : List CandidatePlan) : Type 0 where
    all_of_them : length cs ≤ 3 → medoids ≡ cs → Selected cs medoids
    best_three : 3 < length cs → Best cs medoids → Selected cs medoids

  module _ (strict : Strict f) where
    score-Scores :
        (cs : List CandidatePlan) (combo : List ℕ)
        → Ascending 0 (length cs) 3 combo
        → Scores cs combo (score f (gram_matrix f cs) combo)
    score-Scores cs [] a = elim a [ ]
    score-Scores cs (i ∷ combo) a =
        score_from-IsScore f strict i combo (f.of_ratio 0 1) (gram_matrix f cs)

    -- The medoids are the three candidates that represent the others best. Let the comparison of doubles
    -- be irreflexive and transitive, and let there be at most three candidates or some three of them
    -- with a score above negative infinity. Then no assertion fails. If there are at most three
    -- candidates, `select_medoids` returns them all; otherwise it returns the candidates at three
    -- different indices, in order, whose score is not below the score of any other three, where the
    -- score adds up over the candidates the largest similarity to one of the three.
    pub select_medoids-Selected :
        (cs : List CandidatePlan)
        → (leb (length cs) 3 ≡ true)
          ⊎ ((three : List ℕ) × Ascending 0 (length cs) 3 three
              × (f.lt f.negative_infinity (score f (gram_matrix f cs) three) ≡ true))
        → (medoids : List CandidatePlan) × (select_medoids f cs ≡ ok medoids) × Selected cs medoids
    unfolding select_medoids
    select_medoids-Selected cs h = elim (Bool-cases (leb (length cs) 3)) [
      | inl few ↦ (cs, rw few refl, all_of_them (ground (arith, few)) refl)
      | inr many ↦
          let (three, ascending, above) = scored many h in
          let (combo, best, from, (top, _)) =
            best_from-Tops f strict (gram_matrix f cs) f.negative_infinity choices three
              (listed three ascending) above in
          let chosen =
            All-In (Ascending 0 (length cs) 3) choices combo
              (combinations-Ascending (length cs) 3 0 (length cs) (omega arith)) from in
          (
            at_indices cs combo,
            rw (many, best) refl,
            best_three (ground (arith, many)) (record {
              combo = combo;
              ascending = chosen;
              at_combo = taken cs 0 3 combo chosen;
              value = score f (gram_matrix f cs) combo;
              scored = score-Scores cs combo chosen;
              top = λ other a. (
                score f (gram_matrix f cs) other,
                score-Scores cs other a,
                All-In
                    (λ d.
                      f.lt (score f (gram_matrix f cs) combo) (score f (gram_matrix f cs) d)
                      ≡ false)
                    choices other top (listed other a),
              );
            }),
          )
    ]
      where
        choices : List (List ℕ)
        choices = combinations 3 (range_from 0 (length cs))

        listed : (c : List ℕ) → Ascending 0 (length cs) 3 c → In c choices
        listed c a = Ascending-combinations (length cs) 3 0 (length cs) c (omega arith) a

        scored :
            leb (length cs) 3 ≡ false
            → (leb (length cs) 3 ≡ true)
              ⊎ ((three : List ℕ) × Ascending 0 (length cs) 3 three
                  × (f.lt f.negative_infinity (score f (gram_matrix f cs) three) ≡ true))
            → (three : List ℕ) × Ascending 0 (length cs) 3 three
              × (f.lt f.negative_infinity (score f (gram_matrix f cs) three) ≡ true)
        scored many (inl few) = cc (many, few)
        scored many (inr x) = x
