-- ===== src/Shared/Schemas.antt =====
-- shared/schemas/models.py: the records that the services exchange.
use agentic_coding_stack.Prelude.{ℕ, String, Bool, List, Option}
use agentic_coding_stack.Base.Number.{ℤ, Float}
use agentic_coding_stack.Base.Json.{Fields}

pub record ObjectiveVector : Type 0 where
  pub correctness_confidence : Float
  pub reversibility : Float
  pub locality : Float
  pub maintainability : Float
  pub delivery_speed : Float

pub record MicroTargets : Type 0 where
  pub files : List String
  pub tests : List String
  pub migration : Bool
  pub config : Bool
  pub endpoint : Bool
  pub env_var : Bool

pub record CandidatePlan : Type 0 where
  pub title : String
  pub summary : String
  pub role : String
  pub macro_vec : List ℤ
  pub meso_tags : List String
  pub micro_targets : MicroTargets
  pub objective_vec : ObjectiveVector
  pub rollback_plan : String
  pub test_plan : List String
  pub implementation_outline : List String
  pub risk_notes : List String

pub record FeasibilityCertificate : Type 0 where
  pub macro_pass : Bool
  pub meso_pass : Bool
  pub micro_pass : Bool
  pub lint_plan_valid : Bool
  pub test_plan_valid : Bool
  pub rollback_plan_valid : Bool
  pub migration_policy_pass : Bool
  pub security_policy_pass : Bool
  pub scope_policy_pass : Bool
  pub notes : List String

-- `created_at` is in microseconds, as every time of the model.
pub record DecisionState : Type 0 where
  pub repo : String
  pub task_id : String
  pub issue_summary : String
  pub macro_constraints : List String
  pub meso_context : List String
  pub micro_context : List String
  pub created_at : ℕ

pub data Verdict : Type 0 where
  approve block revise : Verdict

pub record ReviewerVerdict : Type 0 where
  pub verdict : Verdict
  pub blocking_issues : List String
  pub non_blocking_issues : List String
  pub suggested_repairs : List String
  pub confidence : Float

pub record ExecutionRunRequest : Type 0 where
  pub job_id : String
  pub repo : String
  pub task_id : String
  pub base_branch : String
  pub idempotency_key : Option String
  pub timeout_seconds : Option ℕ
  pub decision_state : DecisionState
  pub selected_candidate : CandidatePlan

pub record ExecutionRunResponse : Type 0 where
  pub job_id : String
  pub stage : String
  pub status : String
  pub artifacts : Fields
  pub reviewer_verdict : ReviewerVerdict
  pub repair_result : Fields
  pub cause_code : Option String
  pub replayed : Bool
  pub idempotency_key : Option String

pub record ExecutionPackageRequest : Type 0 where
  pub job_id : String
  pub repo : String
  pub idempotency_key : Option String
  pub decision_state : DecisionState
  pub chosen_candidate : CandidatePlan
  pub feasible_unchosen_candidates : List CandidatePlan
  pub execution_result : ExecutionRunResponse

pub record DraftPrPayload : Type 0 where
  pub title : String
  pub body : String
  pub metadata : Fields

pub record MemoryWriteReport : Type 0 where
  pub chosen_written : Bool
  pub frontier_written : ℕ
  pub residual_written : Bool
  pub surprise_reasons : List String

pub record ExecutionPackageResponse : Type 0 where
  pub job_id : String
  pub draft_pr : DraftPrPayload
  pub memory_report : MemoryWriteReport
  pub cause_code : Option String
  pub replayed : Bool
  pub idempotency_key : Option String

pub record ResumeExecuteRequest : Type 0 where
  pub execute_request : ExecutionRunRequest
  pub checkpoint_stage : String

pub record RetryPackageRequest : Type 0 where
  pub package_request : ExecutionPackageRequest
  pub allow_duplicate_side_effects : Bool
  pub approval_token : Option String
  pub approval_reason_code : Option String

pub record JobControlResponse : Type 0 where
  pub job_id : String
  pub cancelled : Bool
  pub reason : Option String
  pub updated_at : ℕ

pub record MemoryQueryRequest : Type 0 where
  pub repo : String
  pub query : String
  pub alias_name : Option String
  pub pair_key : Option String
  pub top_k : ℕ

pub record MemoryHit : Type 0 where
  pub source : String
  pub record_id : ℕ
  pub text : String
  pub score : Float
  pub metadata : Fields

pub record MemoryQueryResponse : Type 0 where
  pub hits : List MemoryHit
  pub applied_overlays : List String

pub record OverlayRecord : Type 0 where
  pub repo : String
  pub scope : String
  pub name : String
  pub summary : String
  pub guidance : List String
  pub applies_to_tasks : List String
  pub tags : List String

pub record AliasOverlayUpsertRequest : Type 0 where
  pub repo : String
  pub alias_name : String
  pub summary : String
  pub guidance : List String
  pub applies_to_tasks : List String
  pub tags : List String

pub record PairOverlayUpsertRequest : Type 0 where
  pub repo : String
  pub pair_key : String
  pub summary : String
  pub guidance : List String
  pub applies_to_tasks : List String
  pub tags : List String

pub record DecisionStateBuildRequest : Type 0 where
  pub repo : String
  pub task_id : String
  pub title : String
  pub body : String
  pub changed_files_hint : List String

pub record CandidateGenerationRequest : Type 0 where
  pub decision_state : DecisionState
  pub alias_name : Option String
  pub pair_key : Option String

pub record CandidateGenerationResponse : Type 0 where
  pub candidates : List CandidatePlan
  pub rejected : List Fields
  pub feasible_count : ℕ
  pub infeasible_count : ℕ
  pub active_overlays : List String
