-- ===== src/Conductor/Jobs.antt =====
-- apps/conductor/main.py: `create_job` and `get_job`, over the jobs that the process holds.
pub mod Fresh
use agentic_coding_stack.Prelude.{ℕ, ◌+◌, String, Option, none, some, List, [], ◌∷◌, length}
use agentic_coding_stack.Base.Text.{concat}
use agentic_coding_stack.Base.Json.{str}
use agentic_coding_stack.Base.Table.{Table, find, store}
use agentic_coding_stack.Base.Exec.{Error, http, Exec}
use agentic_coding_stack.Base.Exec.{ok, err}

pub record JobCreate : Type 0 where
  pub repo : String
  pub task_id : String
  pub task_type : String
  pub title : String
  pub body : String
  pub base_branch : String

pub record JobStatus : Type 0 where
  pub id : String
  pub status : String
  pub stage : String

-- `decimal` is `str` of a number.
unfoldable pub new_job_id : (ℕ → String) → JobCreate → Table JobStatus → String
unfolding concat
new_job_id decimal r authored_jobs =
    concat (r.task_id ∷ ":" ∷ decimal (length authored_jobs + 1) ∷ [])

unfoldable pub create_job : (ℕ → String) → JobCreate → Exec (Table JobStatus) Error JobStatus
unfolding new_job_id
create_job decimal r authored_jobs =
    let job_id = new_job_id decimal r authored_jobs in
    let job : JobStatus = record { id = job_id; status = "queued"; stage = "created" } in
    (ok job, store job_id job authored_jobs)

abbrev job_or_404 : Option JobStatus → Exec (Table JobStatus) Error JobStatus
job_or_404 none jobs = (err (http 404 (str "job not found")), jobs)
job_or_404 (some job) jobs = (ok job, jobs)

unfoldable pub get_job : String → Exec (Table JobStatus) Error JobStatus
get_job job_id jobs = job_or_404 (find job_id jobs) jobs
