-- ===== src/Conductor/Examples/Worlds.antt =====
-- The inputs of the examples: an outside, a candidate, a request and a world.
use agentic_coding_stack.Prelude.{
  ℕ, ◌+◌, ◌*◌, String, Bool, true, false, none, some, List, [], ◌∷◌, leb, ltb, ◌==◌, str_eq,
  if◌then◌else◌,
}
use agentic_coding_stack.Base.Number.{pos, Float}
use agentic_coding_stack.Base.Json.{Json, null, bool, str, arr, obj, nil, cons, Fields, end, field}
use agentic_coding_stack.Base.Exec.{ok, err, pure}
use agentic_coding_stack.Shared.Schemas.{
  CandidatePlan, DecisionState, ReviewerVerdict, block, ExecutionRunRequest,
  ExecutionPackageRequest,
}
use agentic_coding_stack.Conductor.World.{World}
use agentic_coding_stack.Conductor.Outside.{Worker, Outside, Settings}
use agentic_coding_stack.Conductor.Arbiter.{Readers}
use agentic_coding_stack.Conductor.Frontier.{Floats}

abbrev pub float_of : ℕ → Float
float_of n = record { bits = n }

-- The outside is the list of the paths that were written, the newest first.
abbrev pub Written : Type 0
Written = List String

abbrev report : Fields
report = field "ok" (bool true) end

-- A worker that can prepare a worktree, or that cannot.
abbrev pub worker : Bool → Worker Written
worker works = record {
  prepare_repo = λ repo task base e. (if works then ok report else err "unreachable", e);
  reset_repo = λ repo task. pure report;
  run_lint = λ repo task. pure report;
  run_typecheck = λ repo task. pure report;
  run_tests = λ repo task tests. pure report;
  git_diff = λ repo task. pure (record { changed_files = some ("a.py" ∷ []); diff = some "+" });
  read_file = λ repo task path. pure (some "old");
  write_file = λ repo task path content e. (ok (some 3), path ∷ e);
}

abbrev answer : Json → Fields
answer content =
    field "choices" (arr (cons (obj (field "message" (obj (field "content" content end)) end)) nil))
      end

abbrev repair_plan : Json
repair_plan = obj (
    field "modifications"
      (arr (cons (obj (field "path" (str "a.py") (field "content" (str "new") end))) nil)) end)

abbrev pub objection : ReviewerVerdict
objection = record {
  verdict = block;
  blocking_issues = "broken" ∷ [];
  non_blocking_issues = [];
  suggested_repairs = [];
  confidence = float_of 1;
}

-- The builder repairs "a.py", the arbiter chooses, the reviewer blocks.
abbrev pub outside : Bool → Outside Written
outside works = record {
  worker = worker works;
  chat = λ alias system user. pure (
      if str_eq alias "arbiter"
      then answer (obj (field "decision_type" (str "choose") end))
      else answer repair_plan);
  clock = λ n. n;
  loads = λ s. none;
  repr = λ j. "";
  dump_candidate = λ c. str c.title;
  dump_verdict = λ v. arr nil;
  dump_decision = λ d. null;
  validate_verdict = λ content. ok objection;
  commit_error = λ table n. none;
  seconds = float_of;
  execute_digest = λ r. "d";
  package_digest = λ r. "p";
}

abbrev pub settings : Settings
settings = record { approval_token = "token"; escalation_failure_streak_threshold = 2 }

-- A candidate by its title and two objectives.
abbrev pub candidate : String → ℕ → ℕ → CandidatePlan
candidate title correctness speed = record {
  title = title;
  summary = "";
  role = "builder";
  macro_vec = pos 0 ∷ pos 0 ∷ pos 0 ∷ pos 0 ∷ pos 0 ∷ pos 0 ∷ [];
  meso_tags = "api" ∷ [];
  micro_targets = record {
    files = "a.py" ∷ [];
    tests = [];
    migration = false;
    config = false;
    endpoint = false;
    env_var = false;
  };
  objective_vec = record {
    correctness_confidence = float_of correctness;
    reversibility = float_of 0;
    locality = float_of 0;
    maintainability = float_of 0;
    delivery_speed = float_of speed;
  };
  rollback_plan = "revert";
  test_plan = "pytest" ∷ [];
  implementation_outline = [];
  risk_notes = [];
}

abbrev pub decision : DecisionState
decision = record {
  repo = "repo";
  task_id = "task";
  issue_summary = "";
  macro_constraints = [];
  meso_context = [];
  micro_context = [];
  created_at = 0;
}

abbrev pub request : ExecutionRunRequest
request = record {
  job_id = "job";
  repo = "repo";
  task_id = "task";
  base_branch = "main";
  idempotency_key = some "key";
  timeout_seconds = none;
  decision_state = decision;
  selected_candidate = candidate "plan" 2 1;
}

abbrev pub world : World Written
world = record {
  db = record {
    execution_state = [];
    execution_idempotency = [];
    package_idempotency = [];
    telemetry_event = [];
    job_control = [];
    operator_action_ledger = [];
    job_escalation = [];
    chosen_memory = [];
    frontier_memory = [];
    residual_memory = [];
    alias_memory_state = [];
    pair_memory_state = [];
    decision_state = [];
    outcome_memory = [];
    memory_fts = [];
  };
  ext = [];
  reads = 0;
}

abbrev pub readers : Readers
readers = record { to_int = λ j. ok (pos 0); validate_candidate = λ j. ok (candidate "new" 1 1) }

-- Comparisons of the bits, which serve for small numbers.
abbrev pub floats : Floats
floats = record {
  le = λ a b. leb a.bits b.bits;
  lt = λ a b. ltb a.bits b.bits;
  eq = λ a b. a.bits == b.bits;
  add = λ a b. float_of (a.bits + b.bits);
  sub = λ a b. a;
  mul = λ a b. float_of (a.bits * b.bits);
  div = λ a b. a;
  sqrt = λ a. a;
  abs = λ a. a;
  round = λ digits a. a;
  sum_of = λ xs. float_of 1;
  of_ℕ = float_of;
  of_ℤ = λ i. float_of 0;
  of_ratio = λ m n. float_of m;
  negative_infinity = float_of 0;
}

-- A packaging request for an execution with this status.
abbrev pub package_request : String → ExecutionPackageRequest
package_request status = record {
  job_id = "job";
  repo = "repo";
  idempotency_key = some "package";
  decision_state = decision;
  chosen_candidate = candidate "plan" 2 1;
  feasible_unchosen_candidates = candidate "other" 1 2 ∷ candidate "worse" 1 1 ∷ [];
  execution_result = record {
    job_id = "job";
    stage = status;
    status = status;
    artifacts = end;
    reviewer_verdict = objection;
    repair_result = end;
    cause_code = none;
    replayed = false;
    idempotency_key = none;
  };
}
