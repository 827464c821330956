-- ===== src/Conductor/Examples/Reads.antt =====
-- Examples of the reading routes and of the jobs of a process.
use Prim.Native.String.{◌++◌ as str_append}
use Prim.Native.String.append
use agentic_coding_stack.Prelude.{
  ℕ, zero, suc, String, ◌≡◌, refl, sym, ap, ◌∙◌, true, none, some, [], In, str_eq, arith,
  if◌then◌else◌,
}
use agentic_coding_stack.Base.Text.{count_chars}
use agentic_coding_stack.Base.Table.{Table, find}
use agentic_coding_stack.Conductor.Jobs.{JobCreate, JobStatus, new_job_id, create_job, get_job}
use agentic_coding_stack.Conductor.Jobs.Fresh.{
  IsDecimal, last_part, AllCounted, create_job-AllCounted,
}
use agentic_coding_stack.Base.Json.{end}
use agentic_coding_stack.Base.Exec.{Result, ok, err, Error}
use agentic_coding_stack.Conductor.World.{World}
use agentic_coding_stack.Conductor.Execution.Run.{RunResult, run_single_candidate}
use agentic_coding_stack.Conductor.Routes.Reads.{CheckpointResponse, get_checkpoints}
use agentic_coding_stack.Conductor.Routes.Reads.Reached.{checkpoint_reached}
use agentic_coding_stack.Conductor.Examples.Runs.{whole_run}
use agentic_coding_stack.Conductor.Examples.Worlds.{Written, objection, outside, request, world}

abbrev run : Result Error RunResult × World Written
run = run_single_candidate (outside true) "job" request world

abbrev result_of : Result Error RunResult → RunResult
result_of (ok x) = x
result_of (err e) = record {
  job_id = "";
  stage = "";
  status = "";
  artifacts = end;
  reviewer_verdict = objection;
  repair_result = end;
  cause_code = "";
}

returns : run.0 ≡ ok (result_of run.0)
unfolding whole_run
returns = refl

checkpoint_reached_example :
    (response : CheckpointResponse) × (get_checkpoints "job" run.1 ≡ (ok response, run.1))
    × In (result_of run.0).stage response.checkpoints
checkpoint_reached_example = checkpoint_reached (outside true) "job" request world returns

-- Numbers in unary, which are as good as decimal ones here.
abbrev unary : ℕ → String
unary zero = ""
unary (suc n) = let rest = unary n in str_append "1" rest

unary_length : (n : ℕ) → count_chars (unary n) ≡ n
unfolding count_chars
unary_length zero = refl
unary_length (suc n) =
    rw (append.cons _ String.[] (unary n), append.nil (unary n), unary_length n) (omega arith)

no_colon_in : (n : ℕ) → last_part (unary n) ≡ none
unfolding last_part
no_colon_in zero = refl
no_colon_in (suc n) =
    rw (append.cons _ String.[] (unary n), append.nil (unary n), last_part, no_colon_in n) refl

unary-IsDecimal : IsDecimal unary
unary-IsDecimal = record {
  distinct = λ m n e. sym (unary_length m) ∙ ap count_chars e ∙ unary_length n;
  no_colon = no_colon_in;
}

abbrev job_request : JobCreate
job_request = record {
  repo = "repo";
  task_id = "task";
  task_type = "bug";
  title = "";
  body = "";
  base_branch = "main";
}

abbrev jobs : Table JobStatus
jobs = (create_job unary job_request []).1

one-AllCounted : AllCounted unary unary-IsDecimal jobs
one-AllCounted = (create_job-AllCounted unary unary-IsDecimal job_request [] tt).1

abbrev second_id : String
second_id = new_job_id unary job_request jobs

create_job-AllCounted_example :
    let job : JobStatus = record { id = second_id; status = "queued"; stage = "created" } in
    let jobs' = (create_job unary job_request jobs).1 in
    (find second_id jobs ≡ none)
    × AllCounted unary unary-IsDecimal jobs'
    × (get_job second_id jobs' ≡ (ok job, jobs'))
    × ((other : String)
        → find other jobs' ≡ (if str_eq second_id other then some job else find other jobs))
create_job-AllCounted_example =
    create_job-AllCounted unary unary-IsDecimal job_request jobs one-AllCounted
