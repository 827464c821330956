-- ===== src/Conductor/Db.antt =====
-- apps/conductor/db/models.py: the tables that the routes and the services read and write.
-- A table with a unique `job_id` is a `Table`; the others are lists with the newest row first, so
-- that `ORDER BY id DESC LIMIT 1` is the first match.
use agentic_coding_stack.Prelude.{
  ℕ, String, ◌≡◌, refl, inl, inr, Bool-cases, Bool, ◌&&◌, Option, none, some, List, [], ◌∷◌, str_eq,
  if◌then◌else◌,
}
use agentic_coding_stack.Base.Json.{Json, Fields}
use agentic_coding_stack.Shared.Schemas.{CandidatePlan}

-- A text column that holds JSON: NULL, a text from which no `A` is read, or the text of a value,
-- known by the value.
pub data JsonText (A : Type 0) : Type 0 where
  absent : JsonText A
  malformed : String → JsonText A
  text_of : A → JsonText A

pub record Transition : Type 0 where
  pub stage : String
  pub status : String
  pub at : ℕ
  pub note : String

pub record ExecutionState : Type 0 where
  pub repo : String
  pub task_id : String
  pub stage : String
  pub status : String
  pub selected_candidate : CandidatePlan
  pub artifacts : Fields
  pub transitions : JsonText (List Transition)
  pub updated_at : ℕ

-- `execution_idempotency` and `package_idempotency`, whose payloads are responses of type `R`.
pub record IdempotencyRow (R : Type 0) : Type 0 where
  pub job_id : String
  pub idempotency_key : String
  pub status : String
  pub cause_code : String
  pub response_payload : JsonText R
  pub updated_at : ℕ

pub record TelemetryEvent : Type 0 where
  pub job_id : String
  pub route : String
  pub phase : String
  pub status : String
  pub cause_code : String
  pub replayed : Bool
  pub idempotency_key : String
  pub details : Fields
  pub created_at : ℕ

pub record JobControl : Type 0 where
  pub cancelled : Bool
  pub reason : String
  pub updated_at : ℕ

pub record LedgerEntry : Type 0 where
  pub job_id : String
  pub actor_role : String
  pub action : String
  pub reason_code : String
  pub approved : Bool
  pub cause_code : String
  pub details : Fields
  pub created_at : ℕ

pub record JobEscalation : Type 0 where
  pub failure_streak : ℕ
  pub escalated : Bool
  pub level : ℕ
  pub reason_code : String
  pub updated_at : ℕ

-- A row of `chosen_memory`, `frontier_memory` or `residual_memory`.
pub record MemoryRow : Type 0 where
  pub repo : String
  pub payload : Fields
  pub summary_text : String

-- `alias_memory_state` and `pair_memory_state`, the oldest row first: `name` is `alias_name` or
-- `pair_key`.
pub record OverlayRow : Type 0 where
  pub id : ℕ
  pub repo : String
  pub name : String
  pub payload : JsonText Json

pub record DecisionRow : Type 0 where
  pub repo : String
  pub task_id : String
  pub payload : JsonText Json
  pub created_at : ℕ

pub record OutcomeRow : Type 0 where
  pub repo : String
  pub notes : String

-- A row of the full-text table `memory_fts`, the oldest first. Its columns hold what was bound.
pub record FtsRow : Type 0 where
  pub source : String
  pub record_id : ℕ
  pub text : Json
  pub metadata : JsonText Json

module _ {R : Type 0} where
  -- SELECT ... WHERE job_id = :job_id AND idempotency_key = :key ORDER BY id DESC LIMIT 1
  unfoldable pub latest : String → String → List (IdempotencyRow R) → Option (IdempotencyRow R)
  latest job key [] = none
  latest job key (row ∷ rows) =
      if str_eq row.job_id job && str_eq row.idempotency_key key
      then some row
      else latest job key rows

  -- UPDATE ... SET status = 'completed', ... WHERE job_id = :job_id AND idempotency_key = :key
  unfoldable pub complete :
      String → String → String → R → ℕ → List (IdempotencyRow R) → List (IdempotencyRow R)
  complete job key cause payload now [] = []
  complete job key cause payload now (row ∷ rows) =
      (if str_eq row.job_id job && str_eq row.idempotency_key key
        then record row {
          status = "completed";
          cause_code = cause;
          response_payload = text_of payload;
          updated_at = now;
        }
        else row)
      ∷ complete job key cause payload now rows

  -- A completed row answers for its job and key as `complete` left it.
  abbrev pub as_completed : String → R → ℕ → Option (IdempotencyRow R) → Option (IdempotencyRow R)
  as_completed cause payload now none = none
  as_completed cause payload now (some row) = some (record row {
    status = "completed";
    cause_code = cause;
    response_payload = text_of payload;
    updated_at = now;
  })

  pub latest-complete :
      (job key cause : String) (payload : R) (now : ℕ) (rows : List (IdempotencyRow R))
      → latest job key (complete job key cause payload now rows)
        ≡ as_completed cause payload now (latest job key rows)
  unfolding latest complete
  latest-complete job key cause payload now [] = refl
  latest-complete job key cause payload now (row ∷ rows) =
      elim (Bool-cases (str_eq row.job_id job && str_eq row.idempotency_key key)) [
        | inl same ↦ rw (same, same)
        | inr other ↦ rw (other, other) (latest-complete job key cause payload now rows)
      ]
