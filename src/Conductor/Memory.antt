-- ===== src/Conductor/Memory.antt =====
-- apps/conductor/services/memory_writer.py: what a packaged execution leaves in the memories.
-- Each of the three memories has a transaction of its own, and each may raise.

pub mod Remembered
pub mod Alternatives
use agentic_coding_stack.Prelude.{
  ℕ, String, Bool, true, false, not, ◌||◌, Option, none, some, List, [], ◌∷◌, ◌++◌, any, length,
  take, keep, str_eq, if◌then◌else◌,
}
use agentic_coding_stack.Base.Number.{Float}
use agentic_coding_stack.Base.Text.{join, concat}
use agentic_coding_stack.Base.Json.{
  Json, bool, float, str, arr, obj, nil, Fields, end, field, get, strs,
}
use agentic_coding_stack.Base.Exec.{err, crash, pure, ◌>>=◌, ◌>>◌}
use agentic_coding_stack.Shared.Schemas.{
  CandidatePlan, DecisionState, ExecutionRunResponse, ExecutionPackageRequest, MemoryWriteReport,
}
use agentic_coding_stack.Conductor.Db.{MemoryRow}
use agentic_coding_stack.Conductor.World.{Db, Action, write}
use agentic_coding_stack.Conductor.Outside.{Outside}
use agentic_coding_stack.Conductor.Feasibility.{certify}
use agentic_coding_stack.Conductor.Package.{PackageSemantics, classify_package_status}
use agentic_coding_stack.Conductor.Execution.Repair.{get_or}
use agentic_coding_stack.Conductor.Frontier.{
  Floats, objectives, dominates, pareto_filter, is_near_duplicate,
}

-- `isinstance(item, dict) and item.get("ok") is False`
abbrev pub is_failed : Json → Bool
is_failed (obj d) = elim (get d "ok") [ some (bool b) ↦ not b | _ ↦ false ]
is_failed j = false

abbrev pub reason_if : Bool → String → List String
reason_if b reason = if b then reason ∷ [] else []

abbrev pub some_issue : List String → Bool
some_issue [] = false
some_issue (x ∷ xs) = true

unfoldable pub detect_surprise : ExecutionRunResponse → List String
detect_surprise x =
    reason_if (some_issue x.reviewer_verdict.blocking_issues) "reviewer_caught_important_issue"
    ++ (reason_if
          (any is_failed (
            get_or x.artifacts "lint_output" (obj end)
            ∷ get_or x.artifacts "typecheck_output" (obj end)
            ∷ get_or x.artifacts "test_output" (obj end)
            ∷ []))
          "validation_outcome_contradicts_expectation"
        ++ reason_if (not (str_eq x.status "completed"))
            "final_status_differs_from_expected_success")

-- `{key: round(a[key] - c[key], 6) for key in c}`, by the names of the objectives.
unfoldable pub delta_fields : Floats → List String → List Float → List Float → Fields
delta_fields f (name ∷ names) (a ∷ ls) (c ∷ rs) =
    field name (float (f.round 6 (f.sub a c))) (delta_fields f names ls rs)
delta_fields f names ls rs = end

abbrev pub objective_names : List String
objective_names =
    "correctness_confidence" ∷ "reversibility" ∷ "locality" ∷ "maintainability" ∷ "delivery_speed"
    ∷ []

unfoldable pub objective_delta : Floats → CandidatePlan → CandidatePlan → Fields
unfolding objectives delta_fields
objective_delta f chosen alternative =
    delta_fields f objective_names (objectives alternative) (objectives chosen)

unfoldable pub contrastive_delta : CandidatePlan → CandidatePlan → String
unfolding concat
contrastive_delta chosen alternative = concat (
    "Chosen '" ∷ chosen.title ∷ "' vs alternative '" ∷ alternative.title
    ∷ "' with objective deltas recorded." ∷ [])

module _ (f : Floats) where
  -- The loop of `_filter_materially_distinct`, from what is unique so far.
  unfoldable pub distinct_from :
      CandidatePlan → List CandidatePlan → List CandidatePlan → List CandidatePlan
  distinct_from chosen unique [] = unique
  distinct_from chosen unique (a ∷ rest) =
      distinct_from chosen
        (if is_near_duplicate f chosen a || any (is_near_duplicate f a) unique
          then unique
          else unique ++ a ∷ [])
        rest

  unfoldable pub filter_materially_distinct :
      CandidatePlan → List CandidatePlan → List CandidatePlan
  filter_materially_distinct chosen alternatives = distinct_from chosen [] alternatives

  -- The alternatives that `_write_frontier` stores.
  unfoldable pub stored_alternatives : CandidatePlan → List CandidatePlan → List CandidatePlan
  unfolding filter_materially_distinct
  stored_alternatives chosen unchosen =
      let feasible_only = keep (λ c. (certify c).feasible) unchosen in
      let candidates = keep (λ c. not (dominates f chosen c)) (pareto_filter f feasible_only) in
      take 2 (filter_materially_distinct chosen candidates)

module _ {E : Type 0} (o : Outside E) (f : Floats) where
  unfoldable pub chosen_row : ExecutionPackageRequest → MemoryRow
  unfolding concat
  chosen_row r =
      let artifacts = r.execution_result.artifacts in
      record {
        repo = r.repo;
        payload = field "decision_state" (o.dump_decision r.decision_state) (
            field "chosen_candidate" (o.dump_candidate r.chosen_candidate) (
              field "execution_status" (str r.execution_result.status) (
                field "artifacts"
                  (obj (
                    field "changed_files" (get_or artifacts "changed_files" (arr nil)) (
                      field "lint_output" (get_or artifacts "lint_output" (obj end)) (
                        field "typecheck_output" (get_or artifacts "typecheck_output" (obj end))
                          (field "test_output" (get_or artifacts "test_output" (obj end)) end)))))
                  (field "reviewer_verdict" (o.dump_verdict r.execution_result.reviewer_verdict)
                    end))));
        summary_text = concat (
            "Chosen plan: " ∷ r.chosen_candidate.title ∷ " | status=" ∷ r.execution_result.status
            ∷ []);
      }

  unfoldable pub frontier_row : ExecutionPackageRequest → CandidatePlan → MemoryRow
  unfolding concat objective_delta contrastive_delta
  frontier_row r a = record {
    repo = r.repo;
    payload = field "chosen_candidate_title" (str r.chosen_candidate.title) (
        field "alternative_candidate" (o.dump_candidate a) (
          field "relation_type" (str "feasible_unchosen") (
            field "contrastive_delta" (str (contrastive_delta r.chosen_candidate a))
              (field "objective_delta" (obj (objective_delta f r.chosen_candidate a)) end))));
    summary_text =
        concat ("Alternative vs chosen: " ∷ a.title ∷ " vs " ∷ r.chosen_candidate.title ∷ []);
  }

  unfoldable pub residual_row : ExecutionPackageRequest → List String → MemoryRow
  unfolding concat
  residual_row r reasons = record {
    repo = r.repo;
    payload = field "decision_state_task_id" (str r.decision_state.task_id) (
        field "chosen_candidate_title" (str r.chosen_candidate.title) (
          field "execution_status" (str r.execution_result.status) (
            field "surprise_reasons" (arr (strs reasons)) (
              field "reviewer_verdict" (o.dump_verdict r.execution_result.reviewer_verdict) end))));
    summary_text =
        concat
          ("Surprise detected for " ∷ r.decision_state.task_id ∷ ": " ∷ join ", " reasons ∷ []);
  }

  -- The statements of a transaction and its commit. Where one of them raises, nothing of it stays.
  unfoldable pub commit : String → (Db → Db) → Action E (Unit {0})
  unfolding write
  commit table change w = elim (o.commit_error table w.reads) [
    | none ↦ write change w
    | some text ↦ (err (crash text), w)
  ]

  abbrev pub add_chosen : ExecutionPackageRequest → Db → Db
  add_chosen r db = record db { chosen_memory = chosen_row r ∷ db.chosen_memory }

  unfoldable pub write_chosen : ExecutionPackageRequest → Action E Bool
  write_chosen r = do commit "chosen_memory" (add_chosen r); pure true

  -- The rows of the alternatives, the last one newest.
  unfoldable pub add_alternatives :
      ExecutionPackageRequest → List CandidatePlan → List MemoryRow → List MemoryRow
  add_alternatives r [] rows = rows
  add_alternatives r (a ∷ rest) rows = add_alternatives r rest (frontier_row r a ∷ rows)

  abbrev pub add_frontier : ExecutionPackageRequest → List CandidatePlan → Db → Db
  add_frontier r alternatives db = record db {
    frontier_memory = add_alternatives r alternatives db.frontier_memory;
  }

  unfoldable pub commit_frontier : ExecutionPackageRequest → List CandidatePlan → Action E ℕ
  commit_frontier r alternatives = do
    commit "frontier_memory" (add_frontier r alternatives)
    pure (length alternatives)

  -- `_write_frontier`, of the candidates that were feasible and not chosen.
  unfoldable pub write_frontier : ExecutionPackageRequest → List CandidatePlan → Action E ℕ
  write_frontier r [] = pure 0
  write_frontier r (c ∷ cs) = commit_frontier r (stored_alternatives f r.chosen_candidate (c ∷ cs))

  abbrev pub add_residual : ExecutionPackageRequest → List String → Db → Db
  add_residual r reasons db = record db {
    residual_memory = residual_row r reasons ∷ db.residual_memory;
  }

  unfoldable pub write_residual : ExecutionPackageRequest → List String → Action E (Unit {0})
  write_residual r reasons = commit "residual_memory" (add_residual r reasons)

  unfoldable pub write_chosen_if : Bool → ExecutionPackageRequest → Action E Bool
  write_chosen_if true r = write_chosen r
  write_chosen_if false r = pure false

  unfoldable pub write_residual_if : List String → ExecutionPackageRequest → Action E Bool
  write_residual_if [] r = pure false
  write_residual_if (x ∷ xs) r = do write_residual r (x ∷ xs); pure true

  unfoldable pub write_package : ExecutionPackageRequest → Action E MemoryWriteReport
  write_package r = do
    chosen_written ←
        write_chosen_if (classify_package_status r.execution_result.status).canonical_memory_allowed
          r
    frontier_written ← write_frontier r r.feasible_unchosen_candidates
    let surprise_reasons = detect_surprise r.execution_result
    residual_written ← write_residual_if surprise_reasons r
    pure (record {
      chosen_written = chosen_written;
      frontier_written = frontier_written;
      residual_written = residual_written;
      surprise_reasons = surprise_reasons;
    })
