-- ===== src/Conductor/Draft.antt =====
-- apps/conductor/services/pr_writer.py: the draft of a pull request.
use agentic_coding_stack.Prelude.{String, List, [], ◌∷◌, ◌++◌, map, str_eq, if◌then◌else◌}
use agentic_coding_stack.Base.Text.{join, concat}
use agentic_coding_stack.Base.Json.{Json, str, arr, obj, nil, end, field}
use agentic_coding_stack.Shared.Schemas.{ExecutionPackageRequest, DraftPrPayload}
use agentic_coding_stack.Conductor.Execution.Repair.{get_or}

-- `str(value)`, where `repr` serves for what is not a text.
abbrev pub shown : (Json → String) → Json → String
shown repr (str s) = s
shown repr j = repr j

-- `items if items else [default]`
abbrev pub or_line : String → List String → List String
or_line default [] = default ∷ []
or_line default (x ∷ xs) = x ∷ xs

unfoldable pub draft_lines : (Json → String) → ExecutionPackageRequest → List String
unfolding concat
draft_lines repr r =
    let x = r.execution_result in
    let evidence_line : String → String → String =
      λ label key. concat (label ∷ shown repr (get_or x.artifacts key (obj end)) ∷ []) in
    let objections = x.reviewer_verdict.blocking_issues ++ x.reviewer_verdict.non_blocking_issues in
    ("## Summary" ∷ r.decision_state.issue_summary ∷ "" ∷ "## Chosen Strategy"
      ∷ r.chosen_candidate.summary ∷ "" ∷ "## Alternatives Considered" ∷ [])
    ++ (or_line "- None retained" (
          map (λ a. concat ("- " ∷ a.title ∷ ": " ∷ a.summary ∷ [])) r.feasible_unchosen_candidates)
        ++ ((""
              ∷ "## Validation Evidence"
              ∷ evidence_line "- lint: " "lint_output"
              ∷ evidence_line "- typecheck: " "typecheck_output"
              ∷ evidence_line "- tests: " "test_output"
              ∷ ""
              ∷ "## Reviewer Objections and Resolution"
              ∷ [])
            ++ (or_line "- None" (map (λ s. concat ("- " ∷ s ∷ [])) objections)
                ++ ((concat (
                        "- resolution: "
                        ∷ (if str_eq x.status "completed" then "resolved" else "unresolved")
                        ∷ [])
                      ∷ ""
                      ∷ "## Rollback Note"
                      ∷ r.chosen_candidate.rollback_plan
                      ∷ ""
                      ∷ "## Known Risks"
                      ∷ [])
                    ++ or_line "- None recorded"
                        (map (λ s. concat ("- " ∷ s ∷ [])) r.chosen_candidate.risk_notes)))))

unfoldable pub build_draft_payload : (Json → String) → ExecutionPackageRequest → DraftPrPayload
unfolding draft_lines concat join
build_draft_payload repr r = record {
  title = concat (
      "[DRAFT] " ∷ r.repo ∷ " - " ∷ r.decision_state.task_id ∷ ": " ∷ r.chosen_candidate.title
      ∷ []);
  body = join "\n" (draft_lines repr r);
  metadata = field "repo" (str r.repo) (
      field "job_id" (str r.job_id) (
        field "status" (str r.execution_result.status) (
          field "changed_files" (get_or r.execution_result.artifacts "changed_files" (arr nil))
            end)));
}
