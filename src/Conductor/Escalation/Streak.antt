-- ===== src/Conductor/Escalation/Streak.antt =====
-- The escalation of a job as a function of the outcomes that were observed.
use agentic_coding_stack.Prelude.{
  ℕ, ◌+◌, ◌-◌, ◌≤◌, String, ◌≡◌, refl, Bool, true, false, List, [], ◌∷◌, one_of, leb, min, none,
  or_else, arith, if◌then◌else◌,
}
use agentic_coding_stack.Conductor.Db.{JobEscalation}
use agentic_coding_stack.Base.Table.{find, find-store_self}
use agentic_coding_stack.Conductor.World.{World}
use agentic_coding_stack.Conductor.Escalation.{
  no_escalation, count_outcome, escalate, next_escalation, observe_execution_outcome,
}

-- An outcome: its status and its cause code.
pub record Outcome : Type 0 where
  pub status : String
  pub cause : String

abbrev pub is_failure : Outcome → Bool
is_failure x = one_of x.status ("blocked" ∷ "failed" ∷ [])

-- How many of the newest outcomes are failures in a row.
abbrev pub streak : List Outcome → ℕ
streak [] = 0
streak (x ∷ earlier) = let n = streak earlier in if is_failure x then n + 1 else 0

abbrev Escalates : ℕ → ℕ → JobEscalation → Type 0
Escalates threshold n row =
    (row.failure_streak ≡ n)
    × (row.escalated ≡ leb threshold n)
    × (row.level ≡ min (n + 1 - threshold) 2)

escalate-Escalates :
    (threshold : ℕ) (b : Bool) (n : ℕ) (cause : String) (now : ℕ) (row : JobEscalation)
    → 1 ≤ threshold
    → Escalates threshold n row
    → Escalates threshold
        (if b then n + 1 else 0)
        (escalate threshold cause now (count_outcome b row))
unfolding escalate count_outcome
escalate-Escalates threshold true n cause now row h e = ground arith
escalate-Escalates threshold false n cause now row h e = ground arith

module _ {E : Type 0} (clock : ℕ → ℕ) (threshold : ℕ) (job : String) where
  -- The world after outcomes of the job were observed, the newest first.
  abbrev pub observe_all : List Outcome → World E → World E
  observe_all [] w = w
  observe_all (x ∷ earlier) w =
      (observe_execution_outcome clock job x.status x.cause threshold (observe_all earlier w)).1

  abbrev pub row_of : World E → JobEscalation
  row_of w = or_else (find job w.db.job_escalation) no_escalation

  row_of-observe :
      (x : Outcome) (w : World E)
      → row_of (observe_execution_outcome clock job x.status x.cause threshold w).1
        ≡ escalate threshold x.cause (clock w.reads) (count_outcome (is_failure x) (row_of w))
  unfolding observe_execution_outcome next_escalation
  row_of-observe x w = rw find-store_self refl

-- Whatever outcomes of a job without a row are observed, with a threshold of at least 1: the row of
-- the job counts the failures in a row up to now, it is escalated exactly if they reach the
-- threshold, and its level is how many times in a row they did, but at most 2.
pub escalation_of_streak :
    {E : Type 0} (clock : ℕ → ℕ) (threshold : ℕ) (job : String) (outcomes : List Outcome)
    (w : World E)
    → 1 ≤ threshold
    → find job w.db.job_escalation ≡ none
    → let row = row_of clock threshold job (observe_all clock threshold job outcomes w) in
      (row.failure_streak ≡ streak outcomes)
      × (row.escalated ≡ leb threshold (streak outcomes))
      × (row.level ≡ min (streak outcomes + 1 - threshold) 2)
escalation_of_streak clock threshold job [] w h fresh = rw fresh (ground arith)
escalation_of_streak clock threshold job (x ∷ earlier) w h fresh =
    rw (row_of-observe clock threshold job x) (
      escalate-Escalates threshold (is_failure x) (streak earlier) x.cause _ _ h
        (escalation_of_streak clock threshold job earlier w h fresh))
