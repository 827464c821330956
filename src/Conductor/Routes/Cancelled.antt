-- ===== src/Conductor/Routes/Cancelled.antt =====
-- What a cancellation does to the executions of a job.
use mathlib.Core.Path.{subst}
use agentic_coding_stack.Prelude.{
  String, ◌≡◌, refl, sym, ap, ◌∙◌, true, false, List, [], ◌∷◌, str_eq, eq_iff, eq_refl, one_of,
  or_else, Bool-cases, inl, inr,
}
use agentic_coding_stack.Base.Exec.{ok}
use agentic_coding_stack.Base.Table.{find, find-store_self}
use agentic_coding_stack.Shared.Schemas.{
  ExecutionRunRequest, ExecutionRunResponse, JobControlResponse,
}
use agentic_coding_stack.Conductor.World.{World, Action, read_clock, query, write}
use agentic_coding_stack.Conductor.Outside.{Outside, Settings}
use agentic_coding_stack.Conductor.Governance.{
  allowed_roles, enforce_role, authorize_action, ledger,
}
use agentic_coding_stack.Conductor.Reliability.{emit}
use agentic_coding_stack.Conductor.ControlPlane.{set_cancelled, cancel}
use agentic_coding_stack.Conductor.Routes.Execute.{
  control_of, not_cancelled, refuse_cancelled, execute_checked, execute_job, retry_execute,
  resume_execute, cancel_job,
}
use agentic_coding_stack.Conductor.Routes.Attempts.{
  Kept, Kept-trans, Refused, Attempt, execute_again, retry_again, resume_from, attempt-Refused,
}

abbrev pub IsCancelled : {E : Type 0} → String → World E → Type 0
IsCancelled job w = (control_of job w.db).cancelled ≡ true

IsCancelled-Kept :
    {E : Type 0} (job : String) (w w' : World E)
    → Kept w w'
    → IsCancelled job w
    → IsCancelled job w'
unfolding control_of
IsCancelled-Kept job w w' k p =
    ap (λ t. (or_else (find job t) not_cancelled).cancelled) k.control_eq ∙ p

module _ {E : Type 0} (o : Outside E) (s : Settings) where
  execute-Refused :
      (r : ExecutionRunRequest) (role : String) (w : World E)
      → IsCancelled r.job_id w
      → Refused w (execute_job o s r.job_id r role w)
  unfolding execute_job execute_checked query refuse_cancelled emit read_clock write
  execute-Refused r role w p =
      rw (eq_refl r.job_id) (rw p (tt, record { ext_eq = refl; rows_eq = refl; control_eq = refl }))

  -- A cancellation by a role that may cancel, or its refusal.
  cancel-IsCancelled :
      (job reason role : String) (w : World E) {response : JobControlResponse}
      → (cancel_job o s job reason role w).0 ≡ ok response
      → IsCancelled job (cancel_job o s job reason role w).1
  unfolding cancel_job cancel authorize_action enforce_role ledger emit read_clock write
      set_cancelled control_of
  cancel-IsCancelled job reason role w h =
      elim (Bool-cases (one_of role (allowed_roles "cancel"))) [
        | inl may ↦ rw may (rw find-store_self refl)
        | inr may ↦ let e = rw may at h in cc
      ]

  -- A request for an execution on the routes of `job`, whatever job its body names.
  abbrev pub request_at : String → ExecutionRunRequest × Attempt → Action E ExecutionRunResponse
  request_at job (r, execute_again role) = execute_job o s job r role
  request_at job (r, retry_again role) = retry_execute o s job r role
  request_at job (r, resume_from stage role) =
      resume_execute o s job (record { execute_request = r; checkpoint_stage = stage }) role

  abbrev pub after_requests : String → List (ExecutionRunRequest × Attempt) → World E → World E
  after_requests job [] w = w
  after_requests job (q ∷ rest) w = after_requests job rest (request_at job q w).1

  own-Refused :
      (r : ExecutionRunRequest) (a : Attempt) (w : World E)
      → IsCancelled r.job_id w
      → Refused w (request_at r.job_id (r, a) w)
  own-Refused r (execute_again role) w off =
      attempt-Refused o s r (IsCancelled r.job_id) (IsCancelled-Kept r.job_id) (execute-Refused r)
        (execute_again role) w off
  own-Refused r (retry_again role) w off =
      attempt-Refused o s r (IsCancelled r.job_id) (IsCancelled-Kept r.job_id) (execute-Refused r)
        (retry_again role) w off
  own-Refused r (resume_from stage role) w off =
      attempt-Refused o s r (IsCancelled r.job_id) (IsCancelled-Kept r.job_id) (execute-Refused r)
        (resume_from stage role) w off

  foreign-Refused :
      (job : String) (q : ExecutionRunRequest × Attempt) (w : World E)
      → str_eq q.0.job_id job ≡ false
      → Refused w (request_at job q w)
  unfolding execute_job retry_execute resume_execute
  foreign-Refused job (r, execute_again role) w other =
      rw other (tt, record { ext_eq = refl; rows_eq = refl; control_eq = refl })
  foreign-Refused job (r, retry_again role) w other =
      rw other (tt, record { ext_eq = refl; rows_eq = refl; control_eq = refl })
  foreign-Refused job (r, resume_from stage role) w other =
      rw other (tt, record { ext_eq = refl; rows_eq = refl; control_eq = refl })

  request_at-Refused :
      (job : String) (q : ExecutionRunRequest × Attempt) (w : World E)
      → IsCancelled job w
      → Refused w (request_at job q w)
  request_at-Refused job (r, a) w off = elim (Bool-cases (str_eq r.job_id job)) [
    | inr other ↦ foreign-Refused job (r, a) w other
    | inl own ↦
        let same : r.job_id ≡ job = (eq_iff r.job_id job).0 own in
        subst (λ j. Refused w (request_at j (r, a) w)) same
          (own-Refused r a w (subst (λ j. IsCancelled j w) (sym same) off))
  ]

  after_requests-Kept :
      (job : String) (earlier : List (ExecutionRunRequest × Attempt)) (w : World E)
      → IsCancelled job w
      → Kept w (after_requests job earlier w)
  after_requests-Kept job [] w off = record { ext_eq = refl; rows_eq = refl; control_eq = refl }
  after_requests-Kept job (q ∷ rest) w off =
      let k = (request_at-Refused job q w off).1 in
      Kept-trans k
        (after_requests-Kept job rest (request_at job q w).1 (IsCancelled-Kept job w _ k off))

-- A cancellation is final. After `cancel_job` has answered for a job, and after any further requests
-- for executions on the routes of that job, by `execute_job`, `retry_execute` or `resume_execute`, for
-- whatever executions, under whatever keys and by whatever roles, each next one fails, calls neither
-- the worker nor a model and leaves the execution table and the controls as the cancellation left
-- them.
pub cancel_sticks :
    {E : Type 0} (o : Outside E) (s : Settings) (job reason role : String)
    (earlier : List (ExecutionRunRequest × Attempt)) (next : ExecutionRunRequest × Attempt)
    (w : World E) {response : JobControlResponse}
    → (cancel_job o s job reason role w).0 ≡ ok response
    → let w' = (cancel_job o s job reason role w).1 in
      Refused w' (request_at o s job next (after_requests o s job earlier w'))
cancel_sticks o s job reason role earlier next w h =
    let off = cancel-IsCancelled o s job reason role w h in
    let k = after_requests-Kept o s job earlier _ off in
    let out = request_at-Refused o s job next _ (IsCancelled-Kept job _ _ k off) in
    (out.0, Kept-trans k out.1)
