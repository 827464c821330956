-- ===== src/Conductor/Decision.antt =====
-- apps/conductor/services/decision_state.py, and the route `build_decision_state` of
-- apps/conductor/main.py.
use agentic_coding_stack.Prelude.{ℕ, zero, suc, String, List, [], ◌∷◌}
use agentic_coding_stack.Base.Text.{strip, concat}
use agentic_coding_stack.Base.Exec.{pure, ◌>>=◌, ◌>>◌}
use agentic_coding_stack.Shared.Schemas.{DecisionState, DecisionStateBuildRequest}
use agentic_coding_stack.Conductor.Db.{text_of}
use agentic_coding_stack.Conductor.World.{Action, read_clock, write}
use agentic_coding_stack.Conductor.Outside.{Outside}

-- `text[:n]`
unfoldable pub first_chars : ℕ → String → String
first_chars zero s = String.[]
first_chars (suc n) String.[] = String.[]
first_chars (suc n) (String.◌∷◌ c s) = String.◌∷◌ c (first_chars n s)

abbrev pub macro_rules : List String
macro_rules =
    "No autonomous merge to main" ∷ "Worker executes only; conductor decides policy"
    ∷ "No weighted scalar frontier scoring in v1" ∷ []

abbrev pub micro_of : List String → List String
micro_of [] = "No changed_files_hint supplied" ∷ []
micro_of (f ∷ fs) = f ∷ fs

-- `DecisionStateService.build`, at the time that `created_at` takes by default.
unfoldable pub build : ℕ → DecisionStateBuildRequest → DecisionState
unfolding first_chars concat
build now r = record {
  repo = r.repo;
  task_id = r.task_id;
  issue_summary = strip (concat (r.title ∷ "\n\n" ∷ r.body ∷ []));
  macro_constraints = macro_rules;
  meso_context = concat ("Task type inferred from title: " ∷ first_chars 80 r.title ∷ []) ∷ [];
  micro_context = micro_of r.changed_files_hint;
  created_at = now;
}

unfoldable pub build_decision_state :
    {E : Type 0} → Outside E → DecisionStateBuildRequest → Action E DecisionState
unfolding build read_clock write
build_decision_state o r = do
  now ← read_clock o.clock
  let decision_state = build now r
  write λ db. record db {
    decision_state =
        (record {
          repo = decision_state.repo;
          task_id = decision_state.task_id;
          payload = text_of (o.dump_decision decision_state);
          created_at = decision_state.created_at;
        })
        ∷ db.decision_state;
  }
  pure decision_state
