-- ===== src/Conductor/Routes/Idempotent.antt =====
-- What `execute_job` does with a key that was used before, and what a run that raises leaves.
use mathlib.Core.Path.{subst}
use agentic_coding_stack.Prelude.{
  String, ◌≡◌, refl, sym, ap, ◌∙◌, true, false, none, some, eq_refl, one_of,
}
use agentic_coding_stack.Base.Exec.{Error, Result, ok}
use agentic_coding_stack.Shared.Schemas.{ExecutionRunRequest, ExecutionRunResponse}
use agentic_coding_stack.Conductor.Db.{IdempotencyRow, text_of, latest}
use agentic_coding_stack.Conductor.World.{World, read_clock, query, write}
use agentic_coding_stack.Conductor.Outside.{Outside, Settings}
use agentic_coding_stack.Conductor.Governance.{
  allowed_roles, enforce_role, authorize_action, ledger,
}
use agentic_coding_stack.Conductor.Reliability.{emit}
use agentic_coding_stack.Conductor.Routes.Execute.{
  control_of, answer_again, replay_execution, run_fresh, dispatch, execute_checked, execution_key,
  execute_job,
}
use agentic_coding_stack.Conductor.Routes.Replay.{Answered, run_fresh-Answered}

abbrev pub MayReplay : String → Type 0
MayReplay role = one_of role (allowed_roles "replay_execute") ≡ true

module _ {E : Type 0} (o : Outside E) (s : Settings) (r : ExecutionRunRequest) where
  pub execute-dispatch :
      (role : String) (w : World E)
      → (control_of r.job_id w.db).cancelled ≡ false
      → execute_job o s r.job_id r role w
        ≡ dispatch o s r.job_id r
            (execution_key o s r)
            role
            (latest r.job_id (execution_key o s r) w.db.execution_idempotency)
            w
  unfolding execute_job execute_checked query
  execute-dispatch role w live = rw (eq_refl r.job_id) (rw live refl)

  -- An answered request is answered again: the world outside and the table of executions stay.
  pub record Replayed (key : String) (response : ExecutionRunResponse) (w : World E)
      (out : Result Error ExecutionRunResponse × World E) : Type 0 where
    pub outcome : out.0 ≡ ok (record response { replayed = true; idempotency_key = some key })
    pub ext_eq : out.1.ext ≡ w.ext
    pub states_eq : out.1.db.execution_state ≡ w.db.execution_state
    pub rows_eq : out.1.db.execution_idempotency ≡ w.db.execution_idempotency
    pub control_eq : out.1.db.job_control ≡ w.db.job_control

  pub replay-Replayed :
      (key role : String) (response : ExecutionRunResponse)
      (row : IdempotencyRow ExecutionRunResponse) (w : World E)
      → MayReplay role
      → row.response_payload ≡ text_of response
      → Replayed key response w (replay_execution o s r.job_id key role row w)
  unfolding replay_execution authorize_action enforce_role ledger emit answer_again read_clock write
  replay-Replayed key role response row w may p =
      rw (may, p)
        (record {
          outcome = refl;
          ext_eq = refl;
          states_eq = refl;
          rows_eq = refl;
          control_eq = refl;
        })

  Answered-Replayed :
      (role : String) (w : World E) {response : ExecutionRunResponse}
      → MayReplay role
      → Answered r.job_id (execution_key o s r) response w.db
      → Replayed (execution_key o s r) response w (execute_job o s r.job_id r role w)
  Answered-Replayed role w {response} may a =
      let key = execution_key o s r in
      subst (Replayed key response w)
        (sym (
          execute-dispatch role w a.live
          ∙ ap (λ x. dispatch o s r.job_id r key role x w) a.found
          ∙ completed-dispatch))
        (replay-Replayed key role response a.row w may a.payload)
    where
      completed-dispatch :
          dispatch o s r.job_id r (execution_key o s r) role (some a.row) w
          ≡ replay_execution o s r.job_id (execution_key o s r) role a.row w
      completed-dispatch = unfold dispatch in rw a.completed refl

-- A request that was executed once is executed once. Where the job is not cancelled and the key of
-- the request is new to it, and `execute_job` returns a response, the same request sent again, by
-- any role that may replay, returns that response marked as replayed, with the key, and neither
-- calls the worker or a model nor changes a state, a row of the execution table or the control of a
-- job.
pub execute-execute :
    {E : Type 0} (o : Outside E) (s : Settings) (r : ExecutionRunRequest) (role again : String)
    (w : World E) {response : ExecutionRunResponse}
    → (control_of r.job_id w.db).cancelled ≡ false
    → latest r.job_id (execution_key o s r) w.db.execution_idempotency ≡ none
    → (execute_job o s r.job_id r role w).0 ≡ ok response
    → MayReplay again
    → let w' = (execute_job o s r.job_id r role w).1 in
      Replayed o s r (execution_key o s r) response w' (execute_job o s r.job_id r again w')
execute-execute o s r role again w {response} live fresh h may =
    Answered-Replayed o s r again _ may (
      subst (λ p. Answered r.job_id key response p.1.db) (sym same)
        (run_fresh-Answered o s r.job_id r key w live (subst (λ p. p.0 ≡ ok response) same h)))
  where
    key : String
    key = execution_key o s r

    same : execute_job o s r.job_id r role w ≡ run_fresh o s r.job_id r key w
    same =
        execute-dispatch o s r role w live
        ∙ (unfold dispatch in ap (λ x. dispatch o s r.job_id r key role x w) fresh)
