-- ===== src/Conductor/Feasibility/Policy.antt =====
-- What a certificate says of a candidate.
use agentic_coding_stack.Prelude.{
  ◌+◌, ◌≤◌, ◌≡◌, refl, Bool, true, List, [], ◌∷◌, map, length, Bool-cases, inl, inr, ◌↔◌, arith,
  All,
}
use agentic_coding_stack.Base.Text.{strip, count_chars}
use agentic_coding_stack.Shared.Schemas.{CandidatePlan}
use agentic_coding_stack.Conductor.Feasibility.{FeasibilityResult, certify, gate}

-- The policy of the docs, in one place.
pub record Meets (c : CandidatePlan) : Type 0 where
  pub six_axes : length c.macro_vec ≡ 6
  pub tagged : 1 ≤ length c.meso_tags
  pub has_files : 1 ≤ length c.micro_targets.files
  pub has_tests : 1 ≤ length c.test_plan
  pub rolls_back : 5 ≤ count_chars (strip c.rollback_plan)
  pub in_scope : length c.micro_targets.files ≤ 12

abbrev passes : CandidatePlan → Bool
passes c = (certify c).feasible

Meets-feasible : (c : CandidatePlan) → passes c ≡ true → Meets c
unfolding certify
Meets-feasible c h = ground arith

feasible-Meets : (c : CandidatePlan) → Meets c → passes c ≡ true
unfolding certify
feasible-Meets c m = ground arith

-- A candidate is certified feasible exactly if it has six macro axes, a tag, a file, a test and a
-- rollback plan of more than four characters when stripped, and touches at most twelve files. So
-- the check of the migration policy never decides.
pub feasible_iff : (c : CandidatePlan) → ((certify c).feasible ≡ true) ↔ Meets c
feasible_iff c = (Meets-feasible c, feasible-Meets c)

-- The candidates dealt out to two lists, each in the order they had: the first takes those that meet
-- the policy, the second the others.
pub data Split : List CandidatePlan → List CandidatePlan → List CandidatePlan → Type 0 where
  none_left : Split [] [] []
  let_through :
      (c : CandidatePlan) (cs good bad : List CandidatePlan)
      → Meets c
      → Split cs good bad
      → Split (c ∷ cs) (c ∷ good) bad
  held_back :
      (c : CandidatePlan) (cs good bad : List CandidatePlan)
      → ¬ Meets c
      → Split cs good bad
      → Split (c ∷ cs) good (c ∷ bad)

abbrev pub candidates_of : List FeasibilityResult → List CandidatePlan
candidates_of results = map (λ x. x.candidate) results

-- Each result is the certificate of its candidate.
abbrev pub Certified : List FeasibilityResult → Type 0
Certified results = All (λ x. x ≡ certify x.candidate) results

-- What the gate lets through meets the policy, what it holds back does not, and nothing is lost.
pub gate_verdicts :
    (cs : List CandidatePlan)
    → All (λ x. Meets x.candidate) (gate cs).0
      × All (λ x. ¬ Meets x.candidate) (gate cs).1
      × (length (gate cs).0 + length (gate cs).1 ≡ length cs)
unfolding gate certify
gate_verdicts [] = (tt, tt, omega arith)
gate_verdicts (c ∷ cs) =
    let (good, bad, count) = gate_verdicts cs in
    elim (Bool-cases (certify c).feasible) [
      | inl e ↦ rw e ((Meets-feasible c e, good), bad, omega arith)
      | inr e ↦ rw e (good, ((λ m. cc (feasible-Meets c m, e)), bad), omega arith)
    ]

-- The gate deals out the candidates: each goes to exactly one of its two results, in the order of the
-- candidates and as often as it occurs among them, those that meet the policy to the first and the
-- others to the second, and each is held with its own certificate.
pub gate_splits :
    (cs : List CandidatePlan)
    → Split cs (candidates_of (gate cs).0) (candidates_of (gate cs).1)
      × Certified (gate cs).0
      × Certified (gate cs).1
unfolding gate certify
gate_splits [] = (none_left, tt, tt)
gate_splits (c ∷ cs) =
    let (split, good, bad) = gate_splits cs in
    elim (Bool-cases (certify c).feasible) [
      | inl e ↦ rw e (let_through c cs _ _ (Meets-feasible c e) split, (rw e refl, good), bad)
      | inr e ↦
          rw e (held_back c cs _ _ (λ m. cc (feasible-Meets c m, e)) split, good, (rw e refl, bad))
    ]
