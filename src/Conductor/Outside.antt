-- ===== src/Conductor/Outside.antt =====
-- What the conductor reaches over HTTP or takes from libraries, as a parameter of the model:
-- the worker behind shared/clients/worker_client.py, the models behind its chat client, and the
-- library functions whose code is not in the repository.
use agentic_coding_stack.Prelude.{ℕ, String, List, Option}
use agentic_coding_stack.Base.Number.{Float}
use agentic_coding_stack.Base.Json.{Json, Fields}
use agentic_coding_stack.Base.Exec.{Result}
use agentic_coding_stack.Shared.Schemas.{
  CandidatePlan, DecisionState, ReviewerVerdict, ExecutionRunRequest, ExecutionPackageRequest,
}
use agentic_coding_stack.Conductor.World.{Call}

-- The answer of /git/diff, each key of which may be missing.
pub record Diff : Type 0 where
  pub changed_files : Option (List String)
  pub diff : Option String

-- The calls of `WorkerClient`, each with `repo` and `task_id` first. `read_file` gives the answer's
-- `content` and `write_file` its `bytes_written`.
pub record Worker (E : Type 0) : Type 0 where
  pub prepare_repo : String → String → String → Call E Fields
  pub reset_repo : String → String → Call E Fields
  pub run_lint : String → String → Call E Fields
  pub run_typecheck : String → String → Call E Fields
  pub run_tests : String → String → List String → Call E Fields
  pub git_diff : String → String → Call E Diff
  pub read_file : String → String → String → Call E (Option String)
  pub write_file : String → String → String → String → Call E (Option ℕ)

-- `chat alias system user` is one call of a model; `loads` is `json.loads`; `repr` is `str` of a
-- value that is not a text; the `dump_` functions are `model_dump`, `validate_verdict` is
-- `ReviewerVerdict.model_validate`, `commit_error` is what a transaction on a table of the memories
-- raises, if it does, after so many readings of the clock, `seconds` the float of a number of microseconds, the digests are the hashed keys of `derive_idempotency_key`.
pub record Outside (E : Type 0) : Type 0 where
  pub worker : Worker E
  pub chat : String → String → Json → Call E Fields
  pub clock : ℕ → ℕ
  pub loads : String → Option Json
  pub repr : Json → String
  pub dump_candidate : CandidatePlan → Json
  pub dump_verdict : ReviewerVerdict → Json
  pub dump_decision : DecisionState → Json
  pub validate_verdict : Fields → Result String ReviewerVerdict
  pub commit_error : String → ℕ → Option String
  pub seconds : ℕ → Float
  pub execute_digest : ExecutionRunRequest → String
  pub package_digest : ExecutionPackageRequest → String

-- shared/config/settings.py: the settings that the routes read.
pub record Settings : Type 0 where
  pub approval_token : String
  pub escalation_failure_streak_threshold : ℕ
