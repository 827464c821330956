-- ===== src/Conductor/Routes/Attempts.antt =====
-- Requests for an execution that are refused: what they keep, whichever route they take.

use agentic_coding_stack.Prelude.{
  String, ◌≡◌, refl, ◌∙◌, not, ◌||◌, List, [], ◌∷◌, eq_refl, one_of, Bool-cases, inl, inr,
}
use agentic_coding_stack.Base.Exec.{Error, Result, ok, err, ◌>>◌, continue}
use agentic_coding_stack.Shared.Schemas.{ExecutionRunRequest, ExecutionRunResponse}
use agentic_coding_stack.Conductor.World.{World, Action, read_clock, query, write}
use agentic_coding_stack.Conductor.Outside.{Outside, Settings}
use agentic_coding_stack.Conductor.Governance.{
  allowed_roles, enforce_role, authorize_action, ledger,
}
use agentic_coding_stack.Conductor.Reliability.{emit}
use agentic_coding_stack.Conductor.ControlPlane.{
  resume_validate_and_record, retry_execute_record, text_or_empty, valid_checkpoints, stages_of,
}
use agentic_coding_stack.Conductor.Routes.Execute.{execute_job, resume_execute, retry_execute}

-- Nothing was sent outside, and the executions and the controls of the jobs are as they were.
pub record Kept {E : Type 0} (w w' : World E) : Type 0 where
  pub ext_eq : w'.ext ≡ w.ext
  pub rows_eq : w'.db.execution_idempotency ≡ w.db.execution_idempotency
  pub control_eq : w'.db.job_control ≡ w.db.job_control

pub Kept-trans : {E : Type 0} {a b c : World E} → Kept a b → Kept b c → Kept a c
Kept-trans p q = record {
  ext_eq = q.ext_eq ∙ p.ext_eq;
  rows_eq = q.rows_eq ∙ p.rows_eq;
  control_eq = q.control_eq ∙ p.control_eq;
}

abbrev pub Failed : {A : Type 0} → Result Error A → Type 0
Failed (ok a) = ⊥
Failed (err e) = Unit

-- A request that failed and kept the world.
abbrev pub Refused : {E A : Type 0} → World E → Result Error A × World E → Type 0
Refused w out = Failed out.0 × Kept w out.1

module _ {E : Type 0} (o : Outside E) (s : Settings) (r : ExecutionRunRequest) where
  -- A record of a request in front of the request itself.
  then-Refused :
      {B : Type 0} (m : Action E (Unit {0})) (f : Action E B) (w : World E)
      → Kept w (m w).1
      → ((v : World E) → Kept w v → Refused v (f v))
      → Refused w ((m >> f) w)
  then-Refused {B} m f w k refused = go (m w).0 (m w).1 k
    where
      go :
          (x : Result Error (Unit {0})) (v : World E)
          → Kept w v
          → Refused w (continue {B = B} x (λ _. f) v)
      go (err e) v k = (tt, k)
      go (ok a) v k = let h = refused v k in (h.0, Kept-trans k h.1)

  retry-Kept :
      (key role : String) (w : World E)
      → Kept w (retry_execute_record o.clock r.job_id key role w).1
  unfolding retry_execute_record authorize_action enforce_role ledger emit read_clock write
  retry-Kept key role w = elim (Bool-cases (one_of role (allowed_roles "retry_execute"))) [
    | inl may ↦ rw may (record { ext_eq = refl; rows_eq = refl; control_eq = refl })
    | inr may ↦ rw may (record { ext_eq = refl; rows_eq = refl; control_eq = refl })
  ]

  resume-Kept :
      (stage key role : String) (w : World E)
      → Kept w (resume_validate_and_record o.clock r.job_id stage key role w).1
  unfolding resume_validate_and_record authorize_action enforce_role ledger emit read_clock query
      write
  resume-Kept stage key role w =
      elim (Bool-cases
        (not (one_of stage valid_checkpoints) || not (one_of stage (stages_of r.job_id w.db)))) [
          | inl bad ↦ rw bad (record { ext_eq = refl; rows_eq = refl; control_eq = refl })
          | inr good ↦ elim (Bool-cases (one_of role (allowed_roles "resume_execute"))) [
            | inl may ↦ rw (good, may) (record { ext_eq = refl; rows_eq = refl; control_eq = refl })
            | inr may ↦ rw (good, may) (record { ext_eq = refl; rows_eq = refl; control_eq = refl })
          ]
        ]

-- A later request for the same execution, by the route that it takes.
pub data Attempt : Type 0 where
  execute_again : (role : String) → Attempt
  retry_again : (role : String) → Attempt
  resume_from : (stage role : String) → Attempt

module _ {E : Type 0} (o : Outside E) (s : Settings) (r : ExecutionRunRequest) where
  abbrev pub attempt_again : Attempt → Action E ExecutionRunResponse
  attempt_again (execute_again role) = execute_job o s r.job_id r role
  attempt_again (retry_again role) = retry_execute o s r.job_id r role
  attempt_again (resume_from stage role) =
      resume_execute o s r.job_id (record { execute_request = r; checkpoint_stage = stage }) role

  abbrev pub after_attempts : List Attempt → World E → World E
  after_attempts [] w = w
  after_attempts (a ∷ rest) w = after_attempts rest (attempt_again a w).1

  -- Where `P` survives what keeps the executions and refuses executions, it refuses every attempt.
  module _ (P : World E → Type 0) (lasts : (v v' : World E) → Kept v v' → P v → P v')
      (refused : (role : String) (v : World E)
        → P v
        → Refused v (execute_job o s r.job_id r role v)) where
    pub attempt-Refused : (a : Attempt) (w : World E) → P w → Refused w (attempt_again a w)
    unfolding retry_execute resume_execute
    attempt-Refused (execute_again role) w p = refused role w p
    attempt-Refused (retry_again role) w p = rw (eq_refl r.job_id) (
        then-Refused o s r
          (retry_execute_record o.clock r.job_id (text_or_empty r.idempotency_key) role)
          (execute_job o s r.job_id r role) w
          (retry-Kept o s r (text_or_empty r.idempotency_key) role w)
          (λ v k. refused role v (lasts w v k p)))
    attempt-Refused (resume_from stage role) w p = rw (eq_refl r.job_id) (
        then-Refused o s r
          (resume_validate_and_record o.clock r.job_id stage (text_or_empty r.idempotency_key) role)
          (execute_job o s r.job_id r role) w
          (resume-Kept o s r stage (text_or_empty r.idempotency_key) role w)
          (λ v k. refused role v (lasts w v k p)))

    pub after_attempts-Kept :
        (earlier : List Attempt) (w : World E) → P w → Kept w (after_attempts earlier w)
    after_attempts-Kept [] w p = record { ext_eq = refl; rows_eq = refl; control_eq = refl }
    after_attempts-Kept (a ∷ rest) w p =
        let k = (attempt-Refused a w p).1 in
        Kept-trans k (after_attempts-Kept rest (attempt_again a w).1 (lasts w _ k p))
