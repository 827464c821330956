-- ===== src/Conductor/Examples/Frontiers.antt =====
-- Examples of the policy, the arbiter and the frontier.
use agentic_coding_stack.Prelude.{
  ℕ, ◌≡◌, refl, true, not, inl, inr, ◌↔◌, some, List, [], ◌∷◌, In, All, leb, ltb, arith,
}
use agentic_coding_stack.Base.Exec.{ok}
use agentic_coding_stack.Shared.Schemas.{CandidatePlan}
use agentic_coding_stack.Shared.Parsing.{message_content, parse_model_json_content}
use agentic_coding_stack.Conductor.Feasibility.{certify, gate}
use agentic_coding_stack.Conductor.Feasibility.Policy.{
  Meets, Split, candidates_of, Certified, feasible_iff, gate_splits,
}
use agentic_coding_stack.Conductor.Arbiter.{ArbiterOutcome, judge, decide}
use agentic_coding_stack.Conductor.Arbiter.Contract.{Sound, decide-Sound}
use agentic_coding_stack.Conductor.Frontier.{
  objectives, pareto_filter, dedupe, gram_matrix, cosine, norm,
}
use agentic_coding_stack.Conductor.Frontier.Pareto.{
  Ordered, IsNumeric, Undominated, Covered, pareto_filter_iff, pareto_filter_covers,
}
use agentic_coding_stack.Conductor.Frontier.Dedupe.{Apart, Represented, dedupe-Represented}
use agentic_coding_stack.Conductor.Frontier.Medoids.{score_from, score, select_medoids}
use agentic_coding_stack.Conductor.Frontier.Medoids.Choices.{Ascending}
use agentic_coding_stack.Conductor.Frontier.Medoids.Scores.{Strict}
use agentic_coding_stack.Conductor.Frontier.Medoids.Chosen.{Selected, select_medoids-Selected}
use agentic_coding_stack.Conductor.Examples.Worlds.{outside, candidate, decision, readers, floats}

abbrev plan : CandidatePlan
plan = candidate "plan" 2 1

feasible_iff_example : ((certify plan).feasible ≡ true) ↔ Meets plan
feasible_iff_example = feasible_iff plan

abbrev two : List CandidatePlan
two = plan ∷ candidate "other" 1 2 ∷ candidate "worse" 1 1 ∷ []

-- Three feasible candidates behind one without a test.
abbrev offered : List CandidatePlan
offered = record plan { test_plan = [] } ∷ two

gate_splits_example :
    Split offered (candidates_of (gate offered).0) (candidates_of (gate offered).1)
    × Certified (gate offered).0
    × Certified (gate offered).1
gate_splits_example = gate_splits offered

abbrev chosen : ArbiterOutcome
chosen = record {
  status = "chosen";
  selected_candidate = some plan;
  notes = "arbiter_selected_frontier_candidate" ∷ [];
}

chooses_first : (decide (outside true) readers decision two 0 []).0 ≡ ok chosen
unfolding decide judge message_content parse_model_json_content
chooses_first = refl

decide-Sound_example : Sound two chosen
decide-Sound_example = decide-Sound (outside true) readers decision two 0 [] chooses_first

le_self : (a : ℕ) → leb a a ≡ true
le_self a = ground arith

le_through : (a b c : ℕ) → leb a b ≡ true → leb b c ≡ true → leb a c ≡ true
le_through a b c h k = ground arith

lt_not_le : (a b : ℕ) → ltb a b ≡ not (leb b a)
lt_not_le a b = ground arith

abbrev ordered : Ordered floats
ordered = record {
  is_number = λ a. true;
  le_refl = λ a h. le_self a.bits;
  le_trans = λ a b c ha hb hc h k. le_through a.bits b.bits c.bits h k;
  lt_iff = λ a b ha hb. lt_not_le a.bits b.bits;
}

two-IsNumeric : All (IsNumeric floats ordered) two
unfolding objectives
two-IsNumeric = (
  (refl, (refl, (refl, (refl, (refl, tt))))),
  ((refl, (refl, (refl, (refl, (refl, tt))))), ((refl, (refl, (refl, (refl, (refl, tt))))), tt)),
)

pareto_filter_iff_example :
    In plan (pareto_filter floats two) ↔ (In plan two × Undominated floats ordered two plan)
pareto_filter_iff_example = pareto_filter_iff floats ordered two plan two-IsNumeric

pareto_filter_covers_example :
    Covered floats ordered (pareto_filter floats two) (candidate "worse" 1 1)
pareto_filter_covers_example =
    pareto_filter_covers floats ordered two (candidate "worse" 1 1) two-IsNumeric
      (inr (inr (inl refl)))

dedupe-Represented_example :
    (Apart floats (dedupe floats two) × All (λ d. In d two) (dedupe floats two))
    × Represented floats (dedupe floats two) plan
dedupe-Represented_example = dedupe-Represented floats two plan (inl refl)

abbrev four : List CandidatePlan
four = candidate "fourth" 1 3 ∷ two

floats-Strict : Strict floats
floats-Strict = record {
  irreflexive = λ a. ground arith;
  transitive = λ a b c below below'. ground (arith, below, below');
}

abbrev first_three : List ℕ
first_three = 0 ∷ 1 ∷ 2 ∷ []

first_three-Ascending : Ascending 0 4 3 first_three
first_three-Ascending =
    (omega arith, omega arith, (omega arith, omega arith, (omega arith, omega arith, tt)))

three_score : ltb 0 (score floats (gram_matrix floats four) first_three).bits ≡ true
unfolding score_from gram_matrix cosine norm
three_score = refl

select_medoids-Selected_example :
    (medoids : List CandidatePlan) × (select_medoids floats four ≡ ok medoids)
    × Selected floats four medoids
select_medoids-Selected_example =
    select_medoids-Selected floats floats-Strict four
      (inr (first_three, first_three-Ascending, three_score))
