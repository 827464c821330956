-- ===== src/Conductor/Routes/Package.antt =====
-- `package_execution` and `retry_package` of apps/conductor/main.py.
pub mod Gating
pub mod Once
pub mod Approval
use agentic_coding_stack.Prelude.{
  ℕ, ◌+◌, String, Bool, true, false, ◌&&◌, Option, none, some, List, [], ◌∷◌, str_eq, if◌then◌else◌,
}
use agentic_coding_stack.Base.Text.{concat}
use agentic_coding_stack.Base.Json.{str, Fields, end, field, put}
use agentic_coding_stack.Base.Exec.{http, crash, pure, raise, ◌>>=◌, ◌>>◌}
use agentic_coding_stack.Shared.Schemas.{
  ExecutionPackageRequest, ExecutionPackageResponse, MemoryWriteReport, RetryPackageRequest,
}
use agentic_coding_stack.Conductor.Db.{
  JsonText, absent, malformed, text_of, IdempotencyRow, latest, complete,
}
use agentic_coding_stack.Conductor.World.{Db, Action, read_clock, query, write}
use agentic_coding_stack.Conductor.Outside.{Outside, Settings}
use agentic_coding_stack.Conductor.Governance.{cause, enforce_role, authorize_action}
use agentic_coding_stack.Conductor.Reliability.{derive_idempotency_key, emit}
use agentic_coding_stack.Conductor.Package.{mode, classify_package_status}
use agentic_coding_stack.Conductor.Frontier.{Floats}
use agentic_coding_stack.Conductor.Memory.{write_package}
use agentic_coding_stack.Conductor.Draft.{build_draft_payload}
use agentic_coding_stack.Conductor.ControlPlane.{text_or_empty, retry_package_validate_and_record}

unfoldable pub begin_package : String → String → ℕ → Db → Db
begin_package job key now db = record db {
  package_idempotency =
      (record {
        job_id = job;
        idempotency_key = key;
        status = "in_progress";
        cause_code = "PACKAGE_IN_PROGRESS";
        response_payload = malformed "{}";
        updated_at = now;
      })
      ∷ db.package_idempotency;
}

unfoldable pub complete_package : String → String → String → ExecutionPackageResponse → ℕ → Db → Db
complete_package job key cause response now db = record db {
  package_idempotency = complete job key cause response now db.package_idempotency;
}

unfoldable pub package_mode : ExecutionPackageRequest → String
package_mode r = mode (classify_package_status r.execution_result.status)

unfoldable pub package_cause : ExecutionPackageRequest → String
unfolding package_mode
package_cause r =
    if str_eq (package_mode r) "canonical" then "PACKAGE_OK_CANONICAL" else "PACKAGE_OK_DRAFT_ONLY"

-- SELECT COUNT(*) FROM package_idempotency WHERE job_id = :job_id AND status = 'completed'
unfoldable pub count_completed : {R : Type 0} → String → List (IdempotencyRow R) → ℕ
count_completed job [] = 0
count_completed job (row ∷ rows) =
    let n = count_completed job rows in
    if str_eq row.job_id job && str_eq row.status "completed" then n + 1 else n

module _ {E : Type 0} (o : Outside E) (f : Floats) (s : Settings) where
  unfoldable pub package_response :
      ExecutionPackageRequest → String → MemoryWriteReport → ExecutionPackageResponse
  unfolding package_mode package_cause
  package_response r key memory =
      let draft = build_draft_payload o.repr r in
      record {
        job_id = r.job_id;
        draft_pr = record draft {
          metadata = put draft.metadata "package_mode" (str (package_mode r));
        };
        memory_report = memory;
        cause_code = some (package_cause r);
        replayed = false;
        idempotency_key = some key;
      }

  unfoldable pub reject_status : String → String → String → Action E ExecutionPackageResponse
  unfolding concat
  reject_status job key status = do
    emit o.clock job "package" "validate" "blocked" "PACKAGE_REJECTED_STATUS" false key
        (field "execution_status" (str status) end)
    raise (http 409 (str (concat ("execution status '" ∷ status ∷ "' is not packageable" ∷ []))))

  -- `ExecutionPackageResponse.model_validate`, which refuses what is not the text of a response.
  unfoldable pub package_again :
      String → JsonText ExecutionPackageResponse → Action E ExecutionPackageResponse
  package_again key (text_of response) =
      pure (record response { replayed = true; idempotency_key = some key })
  package_again key absent = raise (crash "validation error")
  package_again key (malformed s) = raise (crash "validation error")

  unfoldable pub replay_package :
      String
      → String
      → String
      → IdempotencyRow ExecutionPackageResponse
      → Action E ExecutionPackageResponse
  replay_package job key role row = do
    authorize_action o.clock job role "replay_package" "REPLAY_KEY_MATCH" "PACKAGE_REPLAYED"
        (field "idempotency_key" (str key) end)
    emit o.clock job "package" "replay" "ok" "PACKAGE_REPLAYED" true key end
    package_again key row.response_payload

  unfoldable pub refuse_package_in_progress :
      String → String → String → Action E ExecutionPackageResponse
  refuse_package_in_progress job key role = do
    enforce_role "replay_package" role
    emit o.clock job "package" "replay" "blocked" "PACKAGE_REPLAY_IN_PROGRESS" true key end
    raise (http 409 (cause "PACKAGE_REPLAY_IN_PROGRESS"))

  unfoldable pub package_fresh :
      String → ExecutionPackageRequest → String → Action E ExecutionPackageResponse
  package_fresh job r key = do
    begun_at ← read_clock o.clock
    write (begin_package job key begun_at)
    memory ← write_package o f r
    completed_at ← read_clock o.clock
    write (complete_package job key (package_cause r) (package_response r key memory) completed_at)
    emit o.clock job "package" "final" "completed" (package_cause r) false key
        (field "package_mode" (str (package_mode r)) end)
    pure (package_response r key memory)

  -- By the latest row of the key.
  unfoldable pub dispatch_package :
      String
      → ExecutionPackageRequest
      → String
      → String
      → Option (IdempotencyRow ExecutionPackageResponse)
      → Action E ExecutionPackageResponse
  dispatch_package job r key role none = package_fresh job r key
  dispatch_package job r key role (some row) =
      if str_eq row.status "completed"
      then replay_package job key role row
      else if str_eq row.status "in_progress"
      then refuse_package_in_progress job key role
      else package_fresh job r key

  unfoldable pub package_checked :
      String → ExecutionPackageRequest → String → String → Action E ExecutionPackageResponse
  package_checked job r key role =
      if (classify_package_status r.execution_result.status).rejected
      then reject_status job key r.execution_result.status
      else (do
        row ← query (λ db. latest job key db.package_idempotency)
        dispatch_package job r key role row)

  abbrev pub package_key : ExecutionPackageRequest → String
  package_key r = derive_idempotency_key (λ _. o.package_digest r) "package" r.idempotency_key

  unfoldable pub package_execution :
      String → ExecutionPackageRequest → String → Action E ExecutionPackageResponse
  package_execution job r role =
      if str_eq r.job_id job
      then package_checked job r (package_key r) role
      else raise (http 400 (str "job id mismatch"))

  unfoldable pub retry_package :
      String → RetryPackageRequest → String → Action E ExecutionPackageResponse
  retry_package job q role =
      if str_eq q.package_request.job_id job
      then (do
        existing ← query (λ db. count_completed job db.package_idempotency)
        retry_package_validate_and_record o.clock s job role
            (text_or_empty q.package_request.idempotency_key) existing
            q.allow_duplicate_side_effects q.approval_token q.approval_reason_code
        package_execution job q.package_request role)
      else raise (http 400 (str "job id mismatch"))
