-- ===== src/Conductor/Execution/Run.antt =====
-- `ExecutionService.run_single_candidate`, in the parts between which it branches.
use agentic_coding_stack.Prelude.{String, false, [], ◌∷◌, or_else, if◌then◌else◌}
use agentic_coding_stack.Base.Number.{zero_float}
use agentic_coding_stack.Base.Json.{Json, null, bool, str, arr, obj, Fields, end, field, put, strs}
use agentic_coding_stack.Base.Exec.{Result, ok, err, pure, ◌>>=◌, ◌>>◌}
use agentic_coding_stack.Shared.Schemas.{
  ReviewerVerdict, Verdict, approve, block, revise, ExecutionRunRequest,
}
use agentic_coding_stack.Conductor.World.{Action, remote, attempt}
use agentic_coding_stack.Conductor.Outside.{Diff, Outside}
use agentic_coding_stack.Conductor.Execution.Save.{save_state}
use agentic_coding_stack.Conductor.Execution.Repair.{
  get_or, is_state, review, attempt_single_repair,
}

-- The dict that `run_single_candidate` returns.
pub record RunResult : Type 0 where
  pub job_id : String
  pub stage : String
  pub status : String
  pub artifacts : Fields
  pub reviewer_verdict : ReviewerVerdict
  pub repair_result : Fields
  pub cause_code : String

-- What the review and the repair hand to the end of the run.
pub record Reviewed : Type 0 where
  pub artifacts : Fields
  pub verdict : ReviewerVerdict
  pub repair_result : Fields

-- A verdict of the conductor itself, for an answer that does not parse.
unfoldable pub blocked_by : String → ReviewerVerdict
blocked_by issue = record {
  verdict = block;
  blocking_issues = issue ∷ [];
  non_blocking_issues = [];
  suggested_repairs = [];
  confidence = zero_float;
}

abbrev pub verdict_text : Verdict → String
verdict_text approve = "approve"
verdict_text block = "block"
verdict_text revise = "revise"

-- The final stage and status, which are one word, and the cause code.
pub record Ending : Type 0 where
  pub final : String
  pub cause : String

unfoldable pub ending : Fields → Verdict → Ending
ending repair verdict =
    if is_state repair "repair_failed"
    then record { final = "failed"; cause = "EXEC_REPAIR_FAILED" }
    else elim verdict [
      | approve ↦ record { final = "completed"; cause = "EXEC_SUCCESS" }
      | _ ↦ record { final = "blocked"; cause = "EXEC_REVIEW_BLOCKED" }
    ]

unfoldable pub diagnostics : String → Fields → Verdict → Json
diagnostics cause repair verdict = obj (
    field "cause_code" (str cause) (
      field "repair_state" (get_or repair "state" null)
        (field "review_verdict" (str (verdict_text verdict)) end)))

-- The outcome of the second review.
unfoldable pub second_review :
    (ReviewerVerdict → Json) → Fields → Fields → Result String ReviewerVerdict → Reviewed
unfolding blocked_by
second_review dump artifacts repair (ok second) =
    let state : String = elim second.verdict [
      | approve ↦ "repaired_and_passed"
      | _ ↦ "repaired_but_still_blocked"
    ] in
    let repair' = put repair "state" (str state) in
    record {
      artifacts =
          put (put artifacts "reviewer_verdict_after_repair" (dump second)) "repair_result"
            (obj repair');
      verdict = second;
      repair_result = repair';
    }
second_review dump artifacts repair (err text) =
    let repair' = put repair "state" (str "repaired_but_still_blocked") in
    record {
      artifacts =
          put (put artifacts "review_error_after_repair" (str text)) "repair_result" (obj repair');
      verdict = blocked_by "review_parse_failed_after_repair";
      repair_result = repair';
    }

-- What the four calls say, put into the artifacts in the order of the source.
unfoldable pub observed : Fields → Diff → Fields → Fields → Fields → Fields
observed artifacts diff lint typecheck test =
    put
      (put
        (put
          (put (put artifacts "changed_files" (arr (strs (or_else diff.changed_files [])))) "diff"
            (str (or_else diff.diff "")))
          "lint_output" (obj lint))
        "typecheck_output" (obj typecheck))
      "test_output" (obj test)

module _ {E : Type 0} (o : Outside E) (job : String) (r : ExecutionRunRequest) where
  unfoldable pub save : String → String → Fields → String → Action E (Unit {0})
  save stage status artifacts note =
      save_state o.clock job r.repo r.task_id stage status r.selected_candidate artifacts note

  unfoldable pub review_now : Fields → Action E (Result String ReviewerVerdict)
  review_now artifacts =
      attempt (review o r.repo r.task_id r.decision_state r.selected_candidate artifacts)

  -- The four calls that look at the worktree, put into the artifacts.
  unfoldable pub validate_worktree : Fields → Action E Fields
  unfolding observed
  validate_worktree artifacts = do
    lint ← remote (o.worker.run_lint r.repo r.task_id)
    typecheck ← remote (o.worker.run_typecheck r.repo r.task_id)
    test ← remote (o.worker.run_tests r.repo r.task_id r.selected_candidate.test_plan)
    diff ← remote (o.worker.git_diff r.repo r.task_id)
    pure (observed artifacts diff lint typecheck test)

  unfoldable pub revalidate : ReviewerVerdict → Fields → Fields → Action E Reviewed
  revalidate verdict artifacts repair =
      if is_state repair "repair_failed"
      then pure (record { artifacts = artifacts; verdict = verdict; repair_result = repair })
      else do
        artifacts' ← validate_worktree artifacts
        second ← review_now artifacts'
        pure (second_review o.dump_verdict artifacts' repair second)

  unfoldable pub repair_phase : ReviewerVerdict → Fields → Action E Reviewed
  repair_phase verdict artifacts = do
    save "repairing" "running" artifacts "repair_started"
    repair ← remote (
        attempt_single_repair o r.repo r.task_id r.decision_state r.selected_candidate verdict
          artifacts)
    revalidate verdict (put artifacts "repair_result" (obj repair)) repair

  unfoldable pub repair_if_blocked : ReviewerVerdict → Fields → Action E Reviewed
  repair_if_blocked verdict artifacts = elim verdict.verdict [
    | block ↦ repair_phase verdict artifacts
    | _ ↦ pure (record {
      artifacts = artifacts;
      verdict = verdict;
      repair_result = field "attempted" (bool false) end;
    })
  ]

  unfoldable pub finalize : Reviewed → Action E RunResult
  unfolding ending diagnostics
  finalize v = do
    save "finalizing" "running" v.artifacts "finalizing"
    let e = ending v.repair_result v.verdict.verdict
    let artifacts =
        put v.artifacts "diagnostics" (diagnostics e.cause v.repair_result v.verdict.verdict)
    save e.final e.final artifacts "execution_finished"
    pure (record {
      job_id = job;
      stage = e.final;
      status = e.final;
      artifacts = artifacts;
      reviewer_verdict = v.verdict;
      repair_result = v.repair_result;
      cause_code = e.cause;
    })

  -- The early return after a first review that does not parse.
  unfoldable pub fail_review : Fields → String → Action E RunResult
  unfolding blocked_by
  fail_review artifacts text = do
    let artifacts' =
        put (put artifacts "review_error" (str text)) "diagnostics"
          (obj (field "cause_code" (str "EXEC_REVIEW_PARSE_FAILED") end))
    save "failed" "failed" artifacts' "review_parse_failed"
    pure (record {
      job_id = job;
      stage = "failed";
      status = "failed";
      artifacts = artifacts';
      reviewer_verdict = blocked_by "review_parse_failed";
      repair_result = field "attempted" (bool false) end;
      cause_code = "EXEC_REVIEW_PARSE_FAILED";
    })

  unfoldable pub after_review : Fields → Result String ReviewerVerdict → Action E RunResult
  after_review artifacts (err text) = fail_review artifacts text
  after_review artifacts (ok verdict) = do
    let artifacts' = put artifacts "reviewer_verdict" (o.dump_verdict verdict)
    save "reviewing" "running" artifacts' "review_completed"
    reviewed ← repair_if_blocked verdict artifacts'
    finalize reviewed

  unfoldable pub run_single_candidate : Action E RunResult
  run_single_candidate = do
    save "queued" "running" end "job_queued"
    prepare ← remote (o.worker.prepare_repo r.repo r.task_id r.base_branch)
    save "prepared" "running" (field "prepare" (obj prepare) end) "worktree_prepared"
    save "implementing" "running" end "implementation_started"
    artifacts ← validate_worktree end
    save "validating" "running" artifacts "validation_completed"
    verdict ← review_now artifacts
    after_review artifacts verdict
