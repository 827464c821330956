-- ===== src/Conductor/Escalation.antt =====
-- apps/conductor/services/escalation.py: streaks of failed executions.
pub mod Streak
use agentic_coding_stack.Prelude.{
  ℕ, ◌+◌, String, Bool, true, false, [], ◌∷◌, one_of, ltb, leb, min, or_else, if◌then◌else◌,
}
use agentic_coding_stack.Base.Exec.{◌>>=◌}
use agentic_coding_stack.Base.Table.{find, store}
use agentic_coding_stack.Conductor.Db.{JobEscalation}
use agentic_coding_stack.Conductor.World.{Action, read_clock, query, write}

-- The counters of a job that has no row.
abbrev pub no_escalation : JobEscalation
no_escalation = record {
  failure_streak = 0;
  escalated = false;
  level = 0;
  reason_code = "";
  updated_at = 0;
}

-- The row of a failed or of another outcome, before the threshold is looked at.
unfoldable pub count_outcome : Bool → JobEscalation → JobEscalation
count_outcome true row = record row { failure_streak = row.failure_streak + 1 }
count_outcome false row = record row { failure_streak = 0; escalated = false; level = 0 }

-- The row that is written.
unfoldable pub escalate : ℕ → String → ℕ → JobEscalation → JobEscalation
escalate threshold cause now row =
    if leb threshold row.failure_streak
    then record {
      failure_streak = row.failure_streak;
      escalated = true;
      level = min (if ltb 0 row.level then row.level + 1 else 1) 2;
      reason_code = "ESCALATION_FAILURE_STREAK";
      updated_at = now;
    }
    else record row { reason_code = cause; updated_at = now }

unfoldable pub next_escalation : JobEscalation → String → String → ℕ → ℕ → JobEscalation
next_escalation row status cause threshold now =
    escalate threshold cause now (count_outcome (one_of status ("blocked" ∷ "failed" ∷ [])) row)

module _ {E : Type 0} (clock : ℕ → ℕ) where
  unfoldable pub observe_execution_outcome : String → String → String → ℕ → Action E (Unit {0})
  unfolding read_clock query write next_escalation
  observe_execution_outcome job status cause threshold = do
    row ← query (λ db. find job db.job_escalation)
    now ← read_clock clock
    write λ db. record db {
      job_escalation =
          store job (next_escalation (or_else row no_escalation) status cause threshold now)
            db.job_escalation;
    }
