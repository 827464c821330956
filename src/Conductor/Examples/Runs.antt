-- ===== src/Conductor/Examples/Runs.antt =====
-- Examples of the run of a candidate, of repeated executions and of escalation.
use agentic_coding_stack.Prelude.{
  String, ◌≡◌, refl, true, false, none, some, List, [], ◌∷◌, All, arith,
}
use agentic_coding_stack.Base.Json.{end}
use agentic_coding_stack.Base.Exec.{Error, Result, ok, err}
use agentic_coding_stack.Base.Triple.{Post}
use agentic_coding_stack.Shared.Schemas.{
  ExecutionRunRequest, ExecutionRunResponse, JobControlResponse,
}
use agentic_coding_stack.Base.Text.{
  is_space, strip_left, all_space, strip_right, strip, count_chars, text_lt, insert_sorted,
  sorted_set,
}
use agentic_coding_stack.Base.Table.{find, store}
use agentic_coding_stack.Shared.Parsing.{
  after_fence, before_fence, skip_json, fenced, parse_text, parse_model_json_content, get_from,
  first_of_json, message_content,
}
use agentic_coding_stack.Conductor.Db.{latest, complete}
use agentic_coding_stack.Conductor.World.{World, read_clock, write, query, remote, attempt}
use agentic_coding_stack.Conductor.Governance.{
  allowed_roles, enforce_role, ledger, authorize_action,
}
use agentic_coding_stack.Conductor.Reliability.{derive_idempotency_key, emit}
use agentic_coding_stack.Conductor.Escalation.{
  count_outcome, escalate, next_escalation, observe_execution_outcome,
}
use agentic_coding_stack.Conductor.Execution.Save.{history, upsert_state, saved, save_state}
use agentic_coding_stack.Conductor.Execution.Repair.{
  texts, texts_of, evidence, caught, text_field, validated, modifications, repair_failed,
  out_of_bounds, snoc, plan_items, review, generate_repair_plan, repair_context, write_all, give_up,
  after_diff, after_writes, after_write_loop, allowed_paths, apply_plan, with_plan,
  attempt_single_repair,
}
use agentic_coding_stack.Conductor.Execution.Run.{
  blocked_by, ending, diagnostics, second_review, save, review_now, validate_worktree, revalidate,
  repair_phase, repair_if_blocked, finalize, fail_review, after_review, run_single_candidate,
}
use agentic_coding_stack.Conductor.ControlPlane.{
  set_cancelled, stages_of, cancel, resume_validate_and_record, retry_execute_record,
  block_retry_package, accept_retry_package, retry_package_validate_and_record,
}
use agentic_coding_stack.Conductor.Routes.Execute.{
  cancel_job, execution_key, control_of, set_checkpoint, begin_execution, complete_execution,
  after_timeout, response_of, refuse_cancelled, answer_again, replay_execution, refuse_in_progress,
  conclude, run_fresh, dispatch, execute_checked, execute_job,
}
use agentic_coding_stack.Conductor.Execution.Stages.{steps}
use agentic_coding_stack.Conductor.Execution.Traces.{Interrupted}
use agentic_coding_stack.Conductor.Execution.Walks.{Finished, run_walks}
use agentic_coding_stack.Conductor.Execution.Frame.{Respects}
use agentic_coding_stack.Conductor.Execution.Bounds.{run-Keeps}
use agentic_coding_stack.Conductor.Routes.Idempotent.{MayReplay, Replayed, execute-execute}
use agentic_coding_stack.Conductor.Routes.Attempts.{
  Attempt, execute_again, retry_again, resume_from, Refused,
}
use agentic_coding_stack.Conductor.Routes.Cancelled.{request_at, after_requests, cancel_sticks}
use agentic_coding_stack.Conductor.Escalation.Streak.{
  Outcome, observe_all, row_of, escalation_of_streak,
}
use agentic_coding_stack.Conductor.Examples.Worlds.{
  Written, objection, outside, settings, request, world,
}

-- What unfolds when a run is computed.
unfoldable pub whole_run : Unit {0}
unfolding is_space strip_left all_space strip_right strip count_chars text_lt insert_sorted
    sorted_set find store after_fence before_fence skip_json fenced parse_text
    parse_model_json_content get_from first_of_json message_content latest complete read_clock write
    query remote attempt allowed_roles enforce_role ledger authorize_action derive_idempotency_key
    emit count_outcome escalate next_escalation observe_execution_outcome history upsert_state saved
    save_state texts texts_of evidence caught text_field validated modifications repair_failed
    out_of_bounds snoc plan_items review generate_repair_plan repair_context write_all give_up
    after_diff after_writes after_write_loop allowed_paths apply_plan with_plan
    attempt_single_repair blocked_by ending diagnostics second_review save review_now
    validate_worktree revalidate repair_phase repair_if_blocked finalize fail_review after_review
    run_single_candidate set_cancelled stages_of cancel resume_validate_and_record
    retry_execute_record block_retry_package accept_retry_package retry_package_validate_and_record
    control_of set_checkpoint begin_execution complete_execution after_timeout response_of
    refuse_cancelled answer_again replay_execution refuse_in_progress conclude run_fresh dispatch
    execute_checked execute_job
whole_run = tt

run_walks_example :
    Post
      (Finished (outside true) "job" request (steps "job" world.db))
      (Interrupted (outside true) "job" request (steps "job" world.db))
      (run_single_candidate (outside true) "job" request world).0
      (run_single_candidate (outside true) "job" request world).1
run_walks_example = run_walks (outside true) "job" request world

abbrev IsSource : String → Type 0
IsSource path = path ≡ "a.py"

respects : Respects (outside true) "repo" "task" IsSource (All IsSource)
respects = record {
  keeps_prepare = λ base. record { at = λ e h. h };
  keeps_reset = record { at = λ e h. h };
  keeps_lint = record { at = λ e h. h };
  keeps_typecheck = record { at = λ e h. h };
  keeps_tests = λ tests. record { at = λ e h. h };
  keeps_diff = record { at = λ e h. (h, (refl, tt)) };
  keeps_read = λ path. record { at = λ e h. h };
  keeps_write = λ path content allowed. record { at = λ e h. (allowed, h) };
  keeps_chat = λ alias system user. record { at = λ e h. h };
}

run-Keeps_example : All IsSource (run_single_candidate (outside true) "job" request world).1.ext
run-Keeps_example =
    run-Keeps (outside true) "job" request IsSource (All IsSource) respects (refl, tt) tt world tt

-- The repair wrote the file once.
writes_once : (run_single_candidate (outside true) "job" request world).1.ext ≡ "a.py" ∷ []
unfolding whole_run
writes_once = refl

abbrev response_or : ExecutionRunResponse → Result Error ExecutionRunResponse → ExecutionRunResponse
response_or other (ok x) = x
response_or other (err e) = other

abbrev blank : ExecutionRunResponse
blank = record {
  job_id = "";
  stage = "";
  status = "";
  artifacts = end;
  reviewer_verdict = objection;
  repair_result = end;
  cause_code = none;
  replayed = false;
  idempotency_key = none;
}

abbrev first : Result Error ExecutionRunResponse × World Written
first = execute_job (outside true) settings "job" request "operator" world

first_responds : first.0 ≡ ok (response_or blank first.0)
unfolding whole_run
first_responds = refl

first_is_fresh :
    latest "job" (execution_key (outside true) settings request) world.db.execution_idempotency
    ≡ none
unfolding latest
first_is_fresh = refl

not_cancelled_yet : (control_of "job" world.db).cancelled ≡ false
unfolding control_of find
not_cancelled_yet = refl

may_replay : MayReplay "system"
unfolding allowed_roles
may_replay = refl

execute-execute_example :
    Replayed
      (outside true)
      settings
      request
      (execution_key (outside true) settings request)
      (response_or blank first.0)
      first.1
      (execute_job (outside true) settings "job" request "system" first.1)
execute-execute_example =
    execute-execute (outside true) settings request "operator" "system" world not_cancelled_yet
      first_is_fresh first_responds may_replay

abbrev failed_first : Result Error ExecutionRunResponse × World Written
failed_first = execute_job (outside false) settings "job" request "operator" world

abbrev attempts : List Attempt
attempts = resume_from "validating" "operator" ∷ execute_again "system" ∷ []

abbrev outcomes : List Outcome
outcomes =
    (record { status = "failed"; cause = "EXEC_REPAIR_FAILED" })
    ∷ (record { status = "blocked"; cause = "EXEC_REVIEW_BLOCKED" })
    ∷ (record { status = "completed"; cause = "EXEC_SUCCESS" })
    ∷ []

no_row_yet : find "job" world.db.job_escalation ≡ none
unfolding find
no_row_yet = refl

escalation_of_streak_example :
    let row = row_of (λ n. n) 2 "job" (observe_all (λ n. n) 2 "job" outcomes world) in
    (row.failure_streak ≡ 2) × (row.escalated ≡ true) × (row.level ≡ 1)
escalation_of_streak_example =
    escalation_of_streak (λ n. n) 2 "job" outcomes world (omega arith) no_row_yet

abbrev cancelled : Result Error JobControlResponse × World Written
cancelled = cancel_job (outside true) settings "job" "stop" "admin" world

cancel_answers :
    cancelled.0
    ≡ ok (record { job_id = "job"; cancelled = true; reason = some "stop"; updated_at = 0 })
unfolding cancel_job cancel authorize_action enforce_role allowed_roles ledger emit read_clock write
cancel_answers = refl

-- Requests under two keys, one of them for another job.
abbrev later_requests : List (ExecutionRunRequest × Attempt)
later_requests =
    (record request { idempotency_key = some "second" }, execute_again "admin")
    ∷ (record request { job_id = "other" }, retry_again "operator")
    ∷ (request, resume_from "implementing" "admin")
    ∷ []

cancel_sticks_example : Refused cancelled.1 (
    request_at
      (outside true)
      settings
      "job"
      (request, retry_again "operator")
      (after_requests (outside true) settings "job" later_requests cancelled.1))
cancel_sticks_example =
    cancel_sticks (outside true) settings "job" "stop" "admin" later_requests
      (request, retry_again "operator") world cancel_answers
