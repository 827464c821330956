-- ===== src/Conductor/World.antt =====
-- What a route acts on: the database, the outside (worker and models) and the clock.
use agentic_coding_stack.Prelude.{ℕ, ◌+◌, String, List}
use agentic_coding_stack.Base.Table.{Table}
use agentic_coding_stack.Base.Exec.{Result, ok, err, Error, crash, Exec}
use agentic_coding_stack.Shared.Schemas.{ExecutionRunResponse, ExecutionPackageResponse}
use agentic_coding_stack.Conductor.Db.{
  ExecutionState, IdempotencyRow, TelemetryEvent, JobControl, LedgerEntry, JobEscalation, MemoryRow,
  OverlayRow, DecisionRow, OutcomeRow, FtsRow,
}

pub record Db : Type 0 where
  pub execution_state : Table ExecutionState
  pub execution_idempotency : List (IdempotencyRow ExecutionRunResponse)
  pub package_idempotency : List (IdempotencyRow ExecutionPackageResponse)
  pub telemetry_event : List TelemetryEvent
  pub job_control : Table JobControl
  pub operator_action_ledger : List LedgerEntry
  pub job_escalation : Table JobEscalation
  pub chosen_memory : List MemoryRow
  pub frontier_memory : List MemoryRow
  pub residual_memory : List MemoryRow
  pub alias_memory_state : List OverlayRow
  pub pair_memory_state : List OverlayRow
  pub decision_state : List DecisionRow
  pub outcome_memory : List OutcomeRow
  pub memory_fts : List FtsRow

-- `E` is the state of all that is reached over HTTP; `reads` counts the readings of the clock.
pub record World (E : Type 0) : Type 0 where
  pub db : Db
  pub ext : E
  pub reads : ℕ

-- A call over HTTP: an answer, or the text of the exception that it raised.
abbrev pub Call : Type 0 → Type 0 → Type 0
Call E A = Exec E String A

abbrev pub Action : Type 0 → Type 0 → Type 0
Action E A = Exec (World E) Error A

abbrev pub raised : {A : Type 0} → Result String A → Result Error A
raised (ok a) = ok a
raised (err x) = err (crash x)

module _ {E : Type 0} where
  -- `datetime.now(timezone.utc)`: the clock may show anything at each reading.
  unfoldable pub read_clock : (ℕ → ℕ) → Action E ℕ
  read_clock clock w = (ok (clock w.reads), record w { reads = w.reads + 1 })

  -- A committed change of the database.
  unfoldable pub write : (Db → Db) → Action E (Unit {0})
  write f w = (ok tt, record w { db = f w.db })

  unfoldable pub query : {A : Type 0} → (Db → A) → Action E A
  query f w = (ok (f w.db), w)

  -- A call whose exception is not caught.
  unfoldable pub remote : {A : Type 0} → Call E A → Action E A
  remote m w = (raised (m w.ext).0, record w { ext = (m w.ext).1 })

  -- A call under `try: ... except Exception`.
  unfoldable pub attempt : {A : Type 0} → Call E A → Action E (Result String A)
  attempt m w = (ok (m w.ext).0, record w { ext = (m w.ext).1 })
