-- ===== src/Conductor/Arbiter.antt =====
-- apps/conductor/services/arbiter.py: the decision over the frontier.
pub mod Contract
use agentic_coding_stack.Prelude.{
  ℕ, String, Bool, true, false, Option, none, some, List, [], ◌∷◌, get_elem?, str_eq, or_else,
  if◌then◌else◌,
}
use agentic_coding_stack.Base.Number.{ℤ, pos, negsuc}
use agentic_coding_stack.Base.Json.{
  Json, null, bool, int, float, str, arr, obj, Items, nil, cons, Fields, end, field, get,
}
use agentic_coding_stack.Base.Exec.{Result, ok, err, pure, lift, ◌>>=◌}
use agentic_coding_stack.Shared.Schemas.{CandidatePlan, DecisionState}
use agentic_coding_stack.Shared.Parsing.{parse_model_json_content, message_content}
use agentic_coding_stack.Conductor.World.{Call}
use agentic_coding_stack.Conductor.Outside.{Outside}
use agentic_coding_stack.Conductor.Feasibility.{certify}

pub record ArbiterOutcome : Type 0 where
  pub status : String
  pub selected_candidate : Option CandidatePlan
  pub notes : List String

abbrev pub rejected : List String → ArbiterOutcome
rejected notes = record { status = "rejected"; selected_candidate = none; notes = notes }

-- `frontier_candidates[index]` inside the bounds.
abbrev pub select : List CandidatePlan → ℤ → Option CandidatePlan
select cs (pos n) = get_elem? cs n
select cs (negsuc n) = none

abbrev pub outcome_of_index : Option CandidatePlan → ArbiterOutcome
outcome_of_index none = rejected ("arbiter_selected_index_invalid" ∷ [])
outcome_of_index (some c) = record {
  status = "chosen";
  selected_candidate = some c;
  notes = "arbiter_selected_frontier_candidate" ∷ [];
}

-- `to_int` is Python's `int`, which may raise; `validate_candidate` is `CandidatePlan.model_validate`
-- and gives the text of a ValidationError.
pub record Readers : Type 0 where
  pub to_int : Json → Result String ℤ
  pub validate_candidate : Json → Result String CandidatePlan

unfoldable pub synthesis : Result String CandidatePlan → ArbiterOutcome
synthesis (err text) = rejected ("synthesis_schema_invalid" ∷ text ∷ [])
synthesis (ok c) =
    let recert = certify c in
    if recert.feasible
    then record {
      status = "chosen";
      selected_candidate = some c;
      notes = "synthesis_recertified" ∷ [];
    }
    else rejected ("synthesis_recertification_failed" ∷ recert.certificate.notes)

unfoldable pub choose : List CandidatePlan → Result String ℤ → Result String ArbiterOutcome
choose frontier (err text) = err text
choose frontier (ok index) = ok (outcome_of_index (select frontier index))

abbrev pub is_text : Json → String → Bool
is_text (str s) t = str_eq s t
is_text j t = false

-- What the parsed content decides.
unfoldable pub judge : Readers → List CandidatePlan → Fields → Result String ArbiterOutcome
unfolding synthesis choose
judge p frontier end = ok (rejected ("arbiter_response_invalid" ∷ []))
judge p frontier (field k v r) =
    let content = field k v r in
    let decision = or_else (get content "decision_type") (str "reject") in
    if is_text decision "choose"
    then choose frontier (p.to_int (or_else (get content "selected_index") (int (negsuc 0))))
    else if is_text decision "synthesis"
    then ok
        (synthesis (p.validate_candidate (or_else (get content "synthesized_candidate") (obj end))))
    else ok (rejected ("arbiter_rejected_all" ∷ []))

abbrev pub dumped : (CandidatePlan → Json) → List CandidatePlan → Items
dumped dump [] = nil
dumped dump (c ∷ cs) = cons (dump c) (dumped dump cs)

module _ {E : Type 0} (o : Outside E) (p : Readers) where
  unfoldable pub decide : DecisionState → List CandidatePlan → ℕ → Call E ArbiterOutcome
  decide decision frontier rejected_count = do
    response ← o.chat "arbiter" "Arbitrate only over the provided filtered frontier." (
        obj (
          field "decision_state" (o.dump_decision decision) (
            field "frontier_candidates" (arr (dumped o.dump_candidate frontier)) (
              field "rejected_count" (int (pos rejected_count)) (
                field "instructions"
                  (str
                    "Choose one frontier candidate or propose synthesis. Do not reference rejected candidates.")
                  end)))))
    content ← lift (message_content response (obj end))
    lift (judge p frontier (parse_model_json_content o.loads content))
