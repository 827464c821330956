-- ===== src/Conductor/Execution/Save.antt =====
-- `ExecutionService._save_state`: a row per job, with the history of its stages.
use agentic_coding_stack.Prelude.{ℕ, String, Option, none, some, List, [], ◌∷◌, ◌++◌}
use agentic_coding_stack.Base.Json.{Fields}
use agentic_coding_stack.Base.Exec.{◌>>=◌}
use agentic_coding_stack.Base.Table.{find, store}
use agentic_coding_stack.Shared.Schemas.{CandidatePlan}
use agentic_coding_stack.Conductor.Db.{Transition, ExecutionState, text_of}
use agentic_coding_stack.Conductor.World.{Db, Action, read_clock, query, write}
use agentic_coding_stack.Conductor.Reliability.{stable_json_loads}

-- The history in a row, empty where there is no row or its column does not decode.
unfoldable pub history : Option ExecutionState → List Transition
history none = []
history (some row) = stable_json_loads row.transitions []

-- ON CONFLICT(job_id): the repository and the task of an old row stay.
unfoldable pub upsert_state :
    String
    → String
    → String
    → String
    → CandidatePlan
    → Fields
    → List Transition
    → ℕ
    → Option ExecutionState
    → ExecutionState
upsert_state repo task stage status candidate artifacts transitions now none = record {
  repo = repo;
  task_id = task;
  stage = stage;
  status = status;
  selected_candidate = candidate;
  artifacts = artifacts;
  transitions = text_of transitions;
  updated_at = now;
}
upsert_state repo task stage status candidate artifacts transitions now (some row) = record row {
  stage = stage;
  status = status;
  selected_candidate = candidate;
  artifacts = artifacts;
  transitions = text_of transitions;
  updated_at = now;
}

-- The change of the database: the transition is appended to the history of the job.
unfoldable pub saved :
    String → String → String → String → String → CandidatePlan → Fields → String → ℕ → Db → Db
unfolding history upsert_state
saved job repo task stage status candidate artifacts note now db =
    let row = find job db.execution_state in
    let transitions =
      history row ++ (record { stage = stage; status = status; at = now; note = note }) ∷ [] in
    record db {
      execution_state =
          store job (upsert_state repo task stage status candidate artifacts transitions now row)
            db.execution_state;
    }

module _ {E : Type 0} (clock : ℕ → ℕ) where
  unfoldable pub save_state :
      String
      → String
      → String
      → String
      → String
      → CandidatePlan
      → Fields
      → String
      → Action E (Unit {0})
  unfolding read_clock query write
  save_state job repo task stage status candidate artifacts note = do
    now ← read_clock clock
    write (saved job repo task stage status candidate artifacts note now)
