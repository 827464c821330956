-- ===== src/Conductor/ControlPlane.antt =====
-- apps/conductor/services/control_plane.py: cancellation, resumption and retries, each authorized
-- and recorded before it is done.
use Prim.Native.String.{◌++◌ as str_append}
use agentic_coding_stack.Prelude.{
  ℕ, String, Bool, true, false, not, ◌&&◌, ◌||◌, Option, none, some, List, [], ◌∷◌, map, one_of,
  ◌==◌, if◌then◌else◌,
}
use agentic_coding_stack.Base.Json.{bool, str, end, field}
use agentic_coding_stack.Base.Exec.{http, pure, raise, ◌>>=◌, ◌>>◌}
use agentic_coding_stack.Base.Table.{find, store}
use agentic_coding_stack.Base.Text.{truthy}
use agentic_coding_stack.Conductor.World.{Db, Action, read_clock, query, write}
use agentic_coding_stack.Conductor.Outside.{Settings}
use agentic_coding_stack.Conductor.Governance.{
  cause, enforce_role, require_retry_package_approval, ledger, authorize_action,
}
use agentic_coding_stack.Conductor.Reliability.{emit}
use agentic_coding_stack.Conductor.Execution.Save.{history}

abbrev pub valid_checkpoints : List String
valid_checkpoints =
    "prepared" ∷ "validating" ∷ "reviewing" ∷ "repairing" ∷ "finalizing" ∷ "completed" ∷ "blocked"
    ∷ "failed" ∷ []

-- INSERT INTO job_control ... ON CONFLICT: `cancelled` is set.
unfoldable pub set_cancelled : String → String → ℕ → Db → Db
set_cancelled job reason now db = record db {
  job_control =
      store job (record { cancelled = true; reason = reason; updated_at = now }) db.job_control;
}

-- The stages that the history of a job has been through.
unfoldable pub stages_of : String → Db → List String
stages_of job db = map (λ t. t.stage) (history (find job db.execution_state))

-- `reason or default`
abbrev pub or_text : Option String → String → String
or_text none d = d
or_text (some s) d = if truthy s then s else d

abbrev pub text_or_empty : Option String → String
text_or_empty o = or_text o ""

module _ {E : Type 0} (clock : ℕ → ℕ) where
  unfoldable pub cancel : String → String → String → Action E ℕ
  unfolding set_cancelled
  cancel job reason role = do
    now ← read_clock clock
    authorize_action clock job role "cancel" "CONTROL_CANCEL_REQUESTED" "CONTROL_CANCELLED"
        (field "reason" (str reason) end)
    write (set_cancelled job reason now)
    emit clock job "control" "cancel" "completed" "CONTROL_CANCELLED" false
        (str_append "cancel:" job) (field "reason" (str reason) end)
    pure now

  unfoldable pub resume_validate_and_record :
      String → String → String → String → Action E (Unit {0})
  unfolding stages_of
  resume_validate_and_record job stage key role = do
    stages ← query (stages_of job)
    if not (one_of stage valid_checkpoints) || not (one_of stage stages)
        then raise (http 409 (cause "RESUME_INVALID_CHECKPOINT"))
        else do
          authorize_action clock job role "resume_execute" "CONTROL_RESUME_REQUESTED"
              "RESUME_ACCEPTED" (field "checkpoint_stage" (str stage) end)
          emit clock job "control" "resume" "accepted" "RESUME_ACCEPTED" false key
              (field "checkpoint_stage" (str stage) end)

  unfoldable pub retry_execute_record : String → String → String → Action E (Unit {0})
  retry_execute_record job key role = do
    authorize_action clock job role "retry_execute" "CONTROL_RETRY_EXECUTE_REQUESTED"
        "RETRY_EXECUTE_ACCEPTED" (field "idempotency_key" (str key) end)
    emit clock job "control" "retry_execute" "accepted" "RETRY_EXECUTE_ACCEPTED" false key end

  -- A retry of a completed package that does not ask for duplicates.
  unfoldable pub block_retry_package : String → String → String → Action E (Unit {0})
  block_retry_package job role key = do
    ledger clock job role "retry_package" "CONTROL_RETRY_PACKAGE_REQUESTED" false
        "RETRY_PACKAGE_SIDE_EFFECT_BLOCKED" (field "allow_duplicate_side_effects" (bool false) end)
    emit clock job "control" "retry_package" "blocked" "RETRY_PACKAGE_SIDE_EFFECT_BLOCKED" false key
        end
    raise (http 409 (cause "RETRY_PACKAGE_SIDE_EFFECT_BLOCKED"))

  unfoldable pub accept_retry_package :
      String → String → String → ℕ → Bool → Option String → Action E (Unit {0})
  accept_retry_package job role key existing allow reason = do
    ledger clock job role "retry_package" (or_text reason "CONTROL_RETRY_PACKAGE_REQUESTED") true
        "RETRY_PACKAGE_ACCEPTED"
        (field "allow_duplicate_side_effects" (bool allow)
          (field "approval_required" (bool (not (existing == 0) && allow)) end))
    emit clock job "control" "retry_package" "accepted" "RETRY_PACKAGE_ACCEPTED" false key (
        field "allow_duplicate_side_effects" (bool allow)
          (field "approval_reason_code" (str (text_or_empty reason)) end))

  unfoldable pub retry_package_validate_and_record :
      Settings
      → String
      → String
      → String
      → ℕ
      → Bool
      → Option String
      → Option String
      → Action E (Unit {0})
  retry_package_validate_and_record s job role key existing allow token reason = do
    enforce_role "retry_package" role
    if not (existing == 0) && not allow then block_retry_package job role key else do
      require_retry_package_approval allow existing token s.approval_token reason
      accept_retry_package job role key existing allow reason
