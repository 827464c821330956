-- ===== src/Conductor/Routes/Replay.antt =====
-- The idempotency of `execute_job`: what a second request with the same key finds.
use mathlib.Core.Path.{subst}
use agentic_coding_stack.Prelude.{
  ℕ, ◌+◌, or_else, String, ◌≡◌, refl, sym, ap, ◌∙◌, false, some, eq_refl,
}
use agentic_coding_stack.Base.Exec.{Error, Result, ok, err, bind-eq}
use agentic_coding_stack.Base.Table.{find, find-store_self}
use agentic_coding_stack.Shared.Schemas.{ExecutionRunRequest, ExecutionRunResponse}
use agentic_coding_stack.Conductor.Db.{
  IdempotencyRow, text_of, malformed, latest, latest-complete, as_completed,
}
use agentic_coding_stack.Conductor.World.{Db, World, read_clock, query, write}
use agentic_coding_stack.Conductor.Outside.{Outside, Settings}
use agentic_coding_stack.Conductor.Reliability.{emit}
use agentic_coding_stack.Conductor.Escalation.{observe_execution_outcome}
use agentic_coding_stack.Conductor.Execution.Run.{RunResult, run_single_candidate}
use agentic_coding_stack.Conductor.Execution.Quiet.{others, others-run}
use agentic_coding_stack.Conductor.Routes.Execute.{
  control_of, set_checkpoint, not_cancelled, begin_execution, complete_execution, after_timeout,
  response_of, conclude, run_fresh,
}

-- The latest execution of the job with the key is completed with this response, and the job is not
-- cancelled.
pub record Answered (job key : String) (response : ExecutionRunResponse) (db : Db) : Type 0 where
  pub row : IdempotencyRow ExecutionRunResponse
  pub found : latest job key db.execution_idempotency ≡ some row
  pub completed : row.status ≡ "completed"
  pub payload : row.response_payload ≡ text_of response
  pub live : (control_of job db).cancelled ≡ false

latest-begin :
    (job key : String) (now : ℕ) (db : Db)
    → latest job key (begin_execution job key now db).execution_idempotency
      ≡ some (record {
        job_id = job;
        idempotency_key = key;
        status = "in_progress";
        cause_code = "EXEC_IN_PROGRESS";
        response_payload = malformed "{}";
        updated_at = now;
      })
unfolding latest begin_execution
latest-begin job key now db = rw (eq_refl job, eq_refl key) refl

-- The latest execution of the job with the key is in progress, and the job is not cancelled.
pub record Open (job key : String) (db : Db) : Type 0 where
  pub row : IdempotencyRow ExecutionRunResponse
  pub found : latest job key db.execution_idempotency ≡ some row
  pub in_progress : row.status ≡ "in_progress"
  pub live : (control_of job db).cancelled ≡ false

Open-others :
    {job key : String} {d d' : Db} → others d' ≡ others d → Open job key d → Open job key d'
unfolding control_of
Open-others {job} {key} e p = record {
  row = p.row;
  found = ap (λ (x : Db). latest job key x.execution_idempotency) e ∙ p.found;
  in_progress = p.in_progress;
  live = ap (λ (x : Db). (or_else (find job x.job_control) not_cancelled).cancelled) e ∙ p.live;
}

Open-begin :
    (job key : String) (now : ℕ) (db : Db)
    → (control_of job db).cancelled ≡ false
    → Open job key (begin_execution job key now db)
unfolding control_of begin_execution
Open-begin job key now db live = record {
  row = _;
  found = latest-begin job key now db;
  in_progress = refl;
  live = live;
}

module _ {E : Type 0} (o : Outside E) (s : Settings) (job : String) (r : ExecutionRunRequest)
    (key : String) where
  -- Concluding a run answers its key, if it was in progress.
  conclude-Answered :
      (result : RunResult) (w : World E)
      → Open job key w.db
      → Answered job key (response_of key result) (conclude o s job key result w).1.db
  unfolding conclude read_clock write emit observe_execution_outcome query complete_execution
      set_checkpoint control_of
  conclude-Answered result w p = record {
    row = record (p.row) {
      status = "completed";
      cause_code = result.cause_code;
      response_payload = text_of (response_of key result);
      updated_at = o.clock w.reads;
    };
    found =
        latest-complete job key result.cause_code (response_of key result) (o.clock w.reads)
          w.db.execution_idempotency
        ∙ ap (as_completed result.cause_code (response_of key result) (o.clock w.reads)) p.found;
    completed = refl;
    payload = refl;
    live = rw find-store_self p.live;
  }

  conclude_ok :
      (result : RunResult) (w : World E)
      → (conclude o s job key result w).0 ≡ ok (response_of key result)
  unfolding conclude read_clock write emit observe_execution_outcome query
  conclude_ok result w = refl

  -- The world in which the run of a fresh key begins, and what the run makes of it.
  abbrev pub begun : World E → World E
  begun w = record w {
    db = begin_execution job key (o.clock w.reads) w.db;
    reads = w.reads + 1 + 1;
  }

  abbrev pub ran : World E → Result Error RunResult × World E
  ran w = run_single_candidate o job r (begun w)

  pub ran-Open : (w : World E) → (control_of job w.db).cancelled ≡ false → Open job key (ran w).1.db
  ran-Open w live = Open-others (others-run o job r (begun w)) (Open-begin job key _ w.db live)

  -- What follows the run, from its outcome.
  abbrev follow : ℕ → Result Error RunResult → World E → Result Error ExecutionRunResponse × World E
  follow started (ok result) w =
      conclude o s job key
        (after_timeout o.seconds r.timeout_seconds started (o.clock w.reads) result)
        (record w { reads = w.reads + 1 })
  follow started (err e) w = (err e, w)

  run_fresh-eq :
      (w : World E) → run_fresh o s job r key w ≡ follow (o.clock (w.reads + 1)) (ran w).0 (ran w).1
  unfolding run_fresh read_clock write
  run_fresh-eq w = go (ran w).0 (ran w).1 refl
    where
      go :
          (x : Result Error RunResult) (w' : World E)
          → ran w ≡ (x, w')
          → run_fresh o s job r key w ≡ follow (o.clock (w.reads + 1)) x w'
      go (ok a) w' e = bind-eq (run_single_candidate o job r) _ (begun w) e
      go (err x) w' e = bind-eq (run_single_candidate o job r) _ (begun w) e

  follow-Answered :
      (started : ℕ) (x : Result Error RunResult) (w : World E) {response : ExecutionRunResponse}
      → Open job key w.db
      → (follow started x w).0 ≡ ok response
      → Answered job key response (follow started x w).1.db
  follow-Answered started (err e) w p h = cc
  follow-Answered started (ok result) w {response} p h =
      let result' = after_timeout o.seconds r.timeout_seconds started (o.clock w.reads) result in
      let w' : World E = record w { reads = w.reads + 1 } in
      subst (λ x. Answered job key x (conclude o s job key result' w').1.db)
        (cc (conclude_ok result' w')) (conclude-Answered result' w' p)

  pub run_fresh-Answered :
      (w : World E) {response : ExecutionRunResponse}
      → (control_of job w.db).cancelled ≡ false
      → (run_fresh o s job r key w).0 ≡ ok response
      → Answered job key response (run_fresh o s job r key w).1.db
  run_fresh-Answered w {response} live h =
      subst (λ p. Answered job key response p.1.db) (sym (run_fresh-eq w))
        (follow-Answered _ _ _ (ran-Open w live) (rw run_fresh-eq at h))

  -- A run that raises leaves its key in progress.
  pub run_fresh-Open :
      (w : World E) {e : Error}
      → (control_of job w.db).cancelled ≡ false
      → (ran w).0 ≡ err e
      → ((run_fresh o s job r key w).0 ≡ err e) × Open job key (run_fresh o s job r key w).1.db
  run_fresh-Open w {e} live h =
      let same = run_fresh-eq w ∙ ap (λ x. follow (o.clock (w.reads + 1)) x (ran w).1) h in
      (ap (λ p. p.0) same, subst (λ p. Open job key p.1.db) (sym same) (ran-Open w live))
