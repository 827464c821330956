-- ===== src/Conductor/Routes/Execute.antt =====
-- `execute_job`, `cancel_job`, `resume_execute` and `retry_execute` of apps/conductor/main.py.
use Prim.Native.String.{◌++◌ as str_append}
use agentic_coding_stack.Prelude.{
  ℕ, ◌+◌, ◌-◌, ◌*◌, String, true, false, Option, none, some, ◌∷◌, str_eq, ltb, or_else,
  if◌then◌else◌,
}
use agentic_coding_stack.Base.Number.{pos, Float}
use agentic_coding_stack.Base.Json.{int, float, str, obj, end, field, put}
use agentic_coding_stack.Base.Exec.{http, crash, pure, raise, ◌>>=◌, ◌>>◌}
use agentic_coding_stack.Base.Table.{find, store}
use agentic_coding_stack.Shared.Schemas.{
  ExecutionRunRequest, ExecutionRunResponse, ResumeExecuteRequest, JobControlResponse,
}
use agentic_coding_stack.Conductor.Db.{
  JsonText, absent, malformed, text_of, IdempotencyRow, JobControl, latest, complete,
}
use agentic_coding_stack.Conductor.World.{Db, Action, read_clock, query, write}
use agentic_coding_stack.Conductor.Outside.{Outside, Settings}
use agentic_coding_stack.Conductor.Governance.{cause, enforce_role, authorize_action}
use agentic_coding_stack.Conductor.Reliability.{derive_idempotency_key, emit}
use agentic_coding_stack.Conductor.Escalation.{observe_execution_outcome}
use agentic_coding_stack.Conductor.ControlPlane.{
  text_or_empty, cancel, resume_validate_and_record, retry_execute_record,
}
use agentic_coding_stack.Conductor.Execution.Run.{RunResult, run_single_candidate}

-- The control row of a job that has none.
abbrev pub not_cancelled : JobControl
not_cancelled = record { cancelled = false; reason = ""; updated_at = 0 }

-- `_is_cancelled`, with the reason.
unfoldable pub control_of : String → Db → JobControl
control_of job db = or_else (find job db.job_control) not_cancelled

-- The upsert at the end of a run: a row that is there keeps its `cancelled`.
unfoldable pub set_checkpoint : String → String → ℕ → Db → Db
unfolding control_of
set_checkpoint job stage now db = record db {
  job_control =
      store job
        (record {
          cancelled = (control_of job db).cancelled;
          reason = str_append "checkpoint:" stage;
          updated_at = now;
        })
        db.job_control;
}

-- `'{}'`, the payload of a row that is not completed, is the text of no response.
unfoldable pub begin_execution : String → String → ℕ → Db → Db
begin_execution job key now db = record db {
  execution_idempotency =
      (record {
        job_id = job;
        idempotency_key = key;
        status = "in_progress";
        cause_code = "EXEC_IN_PROGRESS";
        response_payload = malformed "{}";
        updated_at = now;
      })
      ∷ db.execution_idempotency;
}

unfoldable pub complete_execution : String → String → String → ExecutionRunResponse → ℕ → Db → Db
complete_execution job key cause response now db = record db {
  execution_idempotency = complete job key cause response now db.execution_idempotency;
}

-- A run that took longer than the request allows is reported failed.
unfoldable pub after_timeout : (ℕ → Float) → Option ℕ → ℕ → ℕ → RunResult → RunResult
after_timeout seconds none started ended result = result
after_timeout seconds (some limit) started ended result =
    if ltb (started + limit * 1000000) ended
    then record result {
      stage = "failed";
      status = "failed";
      artifacts = put result.artifacts "diagnostics" (
          obj (
            field "cause_code" (str "EXEC_TIMEOUT_EXCEEDED") (
              field "elapsed_seconds" (float (seconds (ended - started)))
                (field "timeout_seconds" (int (pos limit)) end))));
      cause_code = "EXEC_TIMEOUT_EXCEEDED";
    }
    else result

unfoldable pub response_of : String → RunResult → ExecutionRunResponse
response_of key result = record {
  job_id = result.job_id;
  stage = result.stage;
  status = result.status;
  artifacts = result.artifacts;
  reviewer_verdict = result.reviewer_verdict;
  repair_result = result.repair_result;
  cause_code = some result.cause_code;
  replayed = false;
  idempotency_key = some key;
}

module _ {E : Type 0} (o : Outside E) (s : Settings) where
  unfoldable pub refuse_cancelled : String → String → String → Action E ExecutionRunResponse
  refuse_cancelled job key reason = do
    emit o.clock job "execute" "validate" "blocked" "EXEC_CANCELLED" false key
        (field "reason" (str reason) end)
    raise (
        http 409
          (obj (field "cause_code" (str "EXEC_CANCELLED") (field "reason" (str reason) end))))

  -- `ExecutionRunResponse.model_validate`, which refuses what is not the text of a response.
  unfoldable pub answer_again :
      String → JsonText ExecutionRunResponse → Action E ExecutionRunResponse
  answer_again key (text_of response) =
      pure (record response { replayed = true; idempotency_key = some key })
  answer_again key absent = raise (crash "validation error")
  answer_again key (malformed s) = raise (crash "validation error")

  unfoldable pub replay_execution :
      String → String → String → IdempotencyRow ExecutionRunResponse → Action E ExecutionRunResponse
  replay_execution job key role row = do
    authorize_action o.clock job role "replay_execute" "REPLAY_KEY_MATCH" "EXEC_REPLAYED"
        (field "idempotency_key" (str key) end)
    emit o.clock job "execute" "replay" "ok" "EXEC_REPLAYED" true key
        (field "mode" (str "idempotent_replay") end)
    answer_again key row.response_payload

  unfoldable pub refuse_in_progress : String → String → String → Action E ExecutionRunResponse
  refuse_in_progress job key role = do
    enforce_role "replay_execute" role
    emit o.clock job "execute" "replay" "blocked" "EXEC_REPLAY_IN_PROGRESS" true key end
    raise (http 409 (cause "EXEC_REPLAY_IN_PROGRESS"))

  -- What follows the run: the row is completed, the outcome counted, the checkpoint noted.
  unfoldable pub conclude : String → String → RunResult → Action E ExecutionRunResponse
  conclude job key result = do
    completed_at ← read_clock o.clock
    write (complete_execution job key result.cause_code (response_of key result) completed_at)
    emit o.clock job "execute" "final" result.status result.cause_code false key
        (field "stage" (str result.stage) end)
    observe_execution_outcome o.clock job result.status result.cause_code
        s.escalation_failure_streak_threshold
    noted_at ← read_clock o.clock
    write (set_checkpoint job result.stage noted_at)
    pure (response_of key result)

  unfoldable pub run_fresh : String → ExecutionRunRequest → String → Action E ExecutionRunResponse
  run_fresh job r key = do
    begun_at ← read_clock o.clock
    write (begin_execution job key begun_at)
    started ← read_clock o.clock
    result ← run_single_candidate o job r
    ended ← read_clock o.clock
    conclude job key (after_timeout o.seconds r.timeout_seconds started ended result)

  -- By the latest row of the key.
  unfoldable pub dispatch :
      String
      → ExecutionRunRequest
      → String
      → String
      → Option (IdempotencyRow ExecutionRunResponse)
      → Action E ExecutionRunResponse
  dispatch job r key role none = run_fresh job r key
  dispatch job r key role (some row) =
      if str_eq row.status "completed"
      then replay_execution job key role row
      else if str_eq row.status "in_progress"
      then refuse_in_progress job key role
      else run_fresh job r key

  unfoldable pub execute_checked :
      String → ExecutionRunRequest → String → String → Action E ExecutionRunResponse
  execute_checked job r key role = do
    control ← query (control_of job)
    if control.cancelled then refuse_cancelled job key control.reason else do
      row ← query (λ db. latest job key db.execution_idempotency)
      dispatch job r key role row

  abbrev pub execution_key : ExecutionRunRequest → String
  execution_key r = derive_idempotency_key (λ _. o.execute_digest r) "execute" r.idempotency_key

  unfoldable pub execute_job : String → ExecutionRunRequest → String → Action E ExecutionRunResponse
  execute_job job r role =
      if str_eq r.job_id job
      then execute_checked job r (execution_key r) role
      else raise (http 400 (str "job id mismatch"))

  unfoldable pub resume_execute :
      String → ResumeExecuteRequest → String → Action E ExecutionRunResponse
  resume_execute job q role =
      if str_eq q.execute_request.job_id job
      then (do
        resume_validate_and_record o.clock job q.checkpoint_stage
            (text_or_empty q.execute_request.idempotency_key) role
        execute_job job q.execute_request role)
      else raise (http 400 (str "job id mismatch"))

  unfoldable pub retry_execute :
      String → ExecutionRunRequest → String → Action E ExecutionRunResponse
  retry_execute job r role =
      if str_eq r.job_id job
      then (do
        retry_execute_record o.clock job (text_or_empty r.idempotency_key) role
        execute_job job r role)
      else raise (http 400 (str "job id mismatch"))

  -- `reason` is the one field of the request.
  unfoldable pub cancel_job : String → String → String → Action E JobControlResponse
  cancel_job job reason role = do
    now ← cancel o.clock job reason role
    pure (record { job_id = job; cancelled = true; reason = some reason; updated_at = now })
