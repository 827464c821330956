-- ===== src/Conductor/Execution/Stages.antt =====
-- The stages of a run as an automaton, and the history of a job as a walk through it.
use mathlib.Core.List.{map-append}
use agentic_coding_stack.Prelude.{
  ℕ, String, ◌≡◌, refl, Bool, true, false, List, [], ◌∷◌, ◌++◌, map, one_of, str_eq, Option, none,
  some, if◌then◌else◌,
}
use agentic_coding_stack.Base.Json.{Fields}
use agentic_coding_stack.Base.Table.{find, find-store_self}
use agentic_coding_stack.Shared.Schemas.{CandidatePlan}
use agentic_coding_stack.Conductor.Db.{Transition, ExecutionState}
use agentic_coding_stack.Conductor.World.{Db}
use agentic_coding_stack.Conductor.Execution.Save.{history, saved, upsert_state}

-- A stage and the status that is saved with it.
abbrev pub Step : Type 0
Step = String × String

abbrev pub is_final : String → Bool
is_final s = one_of s ("completed" ∷ "blocked" ∷ "failed" ∷ [])

-- The status that goes with a stage: a final stage is its own status.
abbrev pub status_of : String → String
status_of s = if is_final s then s else "running"

-- The stages that may follow one; no stage precedes "queued".
abbrev pub successors : String → List String
successors s =
    if str_eq s ""
    then "queued" ∷ []
    else if str_eq s "queued"
    then "prepared" ∷ []
    else if str_eq s "prepared"
    then "implementing" ∷ []
    else if str_eq s "implementing"
    then "validating" ∷ []
    else if str_eq s "validating"
    then "reviewing" ∷ "failed" ∷ []
    else if str_eq s "reviewing"
    then "repairing" ∷ "finalizing" ∷ []
    else if str_eq s "repairing"
    then "finalizing" ∷ []
    else if str_eq s "finalizing"
    then "completed" ∷ "blocked" ∷ "failed" ∷ []
    else []

abbrev pub Follows : String → Step → Type 0
Follows s (t, status) = (one_of t (successors s) ≡ true) × (status ≡ status_of t)

-- A walk from one stage to a final one.
abbrev pub Walk : String → String → List Step → Type 0
Walk s final [] = (s ≡ final) × (is_final s ≡ true)
Walk s final (x ∷ xs) = Follows s x × Walk x.0 final xs

-- A walk that has not ended.
abbrev pub Partial : String → List Step → Type 0
Partial s [] = is_final s ≡ false
Partial s (x ∷ xs) = Follows s x × Partial x.0 xs

abbrev pub step_of : Transition → Step
step_of t = (t.stage, t.status)

-- The walk that the table shows for a job.
unfoldable pub steps : String → Db → List Step
steps job db = map step_of (history (find job db.execution_state))

history-upsert :
    (repo task stage status : String) (c : CandidatePlan) (a : Fields) (h : List Transition)
    (now : ℕ) (row : Option ExecutionState)
    → history (some (upsert_state repo task stage status c a h now row)) ≡ h
unfolding history upsert_state
history-upsert repo task stage status c a h now none = refl
history-upsert repo task stage status c a h now (some row) = refl

-- Saving a state appends one step to the walk of its job.
pub steps-saved :
    (job repo task stage status : String) (c : CandidatePlan) (a : Fields) (note : String) (now : ℕ)
    (db : Db)
    → steps job (saved job repo task stage status c a note now db)
      ≡ steps job db ++ (stage, status) ∷ []
unfolding steps saved
steps-saved job repo task stage status c a note now db =
    simp (find-store_self, history-upsert, map-append)
