-- ===== src/Conductor/Routes/Reads.antt =====
-- apps/conductor/main.py: the routes that only read the execution state and the telemetry.
pub mod Reached
use agentic_coding_stack.Prelude.{
  ℕ, ◌+◌, String, Bool, Option, none, some, List, [], ◌∷◌, ◌++◌, keep, length, map, one_of, str_eq,
  if◌then◌else◌,
}
use agentic_coding_stack.Base.Json.{Json, str, Fields}
use agentic_coding_stack.Base.Table.{find}
use agentic_coding_stack.Base.Exec.{http, pure, raise, ◌>>=◌}
use agentic_coding_stack.Conductor.Db.{
  JsonText, absent, malformed, text_of, Transition, ExecutionState, TelemetryEvent,
}
use agentic_coding_stack.Conductor.World.{Action, query}
use agentic_coding_stack.Conductor.ControlPlane.{valid_checkpoints}
use agentic_coding_stack.Conductor.Execution.Save.{history}

pub record CheckpointResponse : Type 0 where
  pub job_id : String
  pub checkpoints : List String

abbrev not_found : Json
not_found = str "execution state not found"

-- The checkpoints among the stages of a history.
unfoldable pub checkpoints_of : List Transition → List String
checkpoints_of ts = keep (λ stage. one_of stage valid_checkpoints) (map (λ t. t.stage) ts)

unfoldable pub checkpoints_of_row : String → Option ExecutionState → Option CheckpointResponse
unfolding checkpoints_of history
checkpoints_of_row job none = none
checkpoints_of_row job (some row) =
    some (record { job_id = job; checkpoints = checkpoints_of (history (some row)) })

-- A 404 in place of what is missing.
abbrev found_or_404 : {E A : Type 0} → Option A → Action E A
found_or_404 none = raise (http 404 not_found)
found_or_404 (some a) = pure a

unfoldable pub get_checkpoints : {E : Type 0} → String → Action E CheckpointResponse
unfolding query checkpoints_of_row
get_checkpoints job = do
  row ← query (λ db. find job db.execution_state)
  found_or_404 (checkpoints_of_row job row)
