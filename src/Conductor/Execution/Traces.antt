-- ===== src/Conductor/Execution/Traces.antt =====
-- The calls of a run between its stages: what they leave of the history of the job.
use mathlib.Core.List.{append_assoc}
use agentic_coding_stack.Prelude.{
  ℕ, String, ◌≡◌, refl, ap, ◌∙◌, Bool, true, false, List, [], ◌∷◌, ◌++◌, Option, none, some,
}
use agentic_coding_stack.Base.Json.{Fields}
use agentic_coding_stack.Base.Exec.{Result, ok, err, ◌>>◌}
use agentic_coding_stack.Base.Table.{find, find-store_self}
use agentic_coding_stack.Base.Triple.{Post, Triple, Triple-bind, Triple-pure}
use agentic_coding_stack.Shared.Schemas.{
  CandidatePlan, Verdict, approve, block, revise, ExecutionRunRequest,
}
use agentic_coding_stack.Conductor.Db.{Transition, ExecutionState}
use agentic_coding_stack.Conductor.World.{
  Db, World, Call, Action, remote, attempt, raised, read_clock, query, write,
}
use agentic_coding_stack.Conductor.Outside.{Outside}
use agentic_coding_stack.Conductor.Execution.Save.{history, save_state, saved, upsert_state}
use agentic_coding_stack.Conductor.Execution.Repair.{is_state}
use agentic_coding_stack.Conductor.Execution.Run.{ending, save, validate_worktree}
use agentic_coding_stack.Conductor.Execution.Stages.{
  Step, Partial, Follows, is_final, steps, steps-saved,
}

-- What `GET /jobs/{id}/execution-state` shows after a run is what the run returned.
pub record Shows (job stage status : String) (artifacts : Fields) (db : Db) : Type 0 where
  pub row : ExecutionState
  pub stored : find job db.execution_state ≡ some row
  pub stage_eq : row.stage ≡ stage
  pub status_eq : row.status ≡ status
  pub artifacts_eq : row.artifacts ≡ artifacts

upsert_columns :
    (repo task stage status : String) (c : CandidatePlan) (a : Fields) (h : List Transition)
    (now : ℕ) (row : Option ExecutionState)
    → let new = upsert_state repo task stage status c a h now row in
      (new.stage ≡ stage) × (new.status ≡ status) × (new.artifacts ≡ a)
unfolding upsert_state
upsert_columns repo task stage status c a h now none = (refl, refl, refl)
upsert_columns repo task stage status c a h now (some row) = (refl, refl, refl)

Shows-saved :
    (job repo task stage status : String) (c : CandidatePlan) (a : Fields) (note : String) (now : ℕ)
    (db : Db)
    → Shows job stage status a (saved job repo task stage status c a note now db)
unfolding saved
Shows-saved job repo task stage status c a note now db =
    let row = find job db.execution_state in
    let h =
      history row ++ (record { stage = stage; status = status; at = now; note = note }) ∷ [] in
    let (e, f, g) = upsert_columns repo task stage status c a h now row in
    record {
      row = upsert_state repo task stage status c a h now row;
      stored = find-store_self job _ db.execution_state;
      stage_eq = e;
      status_eq = f;
      artifacts_eq = g;
    }

module _ {E : Type 0} (o : Outside E) (job : String) (r : ExecutionRunRequest)
    (old : List Step) where
  -- The steps since the run began.
  abbrev pub Traced : List Step → World E → Type 0
  Traced t w = steps job w.db ≡ old ++ t

  -- The run was cut short by an exception.
  abbrev pub Interrupted : World E → Type 0
  Interrupted w = (t : List Step) × Traced t w × Partial "" t

  pub save-Traced :
      (t : List Step) (stage status : String) (a : Fields) (note : String)
      → Triple
          (Traced t)
          (save o job r stage status a note)
          (λ _ w. Traced (t ++ (stage, status) ∷ []) w × Shows job stage status a w.db)
          Interrupted
  unfolding save save_state read_clock query write
  save-Traced t stage status a note = record {
    at = λ w h. (
      steps-saved job r.repo r.task_id stage status r.selected_candidate a note (o.clock w.reads)
            w.db
          ∙ (ap (λ s. s ++ (stage, status) ∷ []) h ∙ append_assoc old t ((stage, status) ∷ [])),
      Shows-saved job r.repo r.task_id stage status r.selected_candidate a note (o.clock w.reads)
          w.db,
    );
  }

  -- A call that raises interrupts the run where it stands.
  pub remote-Traced :
      {A : Type 0} (t : List Step) (m : Call E A)
      → Partial "" t
      → Triple (Traced t) (remote m) (λ _. Traced t) Interrupted
  unfolding remote
  remote-Traced {A} t m p = record { at = λ w h. go (m w.ext).0 (m w.ext).1 w h }
    where
      go :
          (x : Result String A) (e : E) (w : World E)
          → Traced t w
          → Post (λ _. Traced t) Interrupted (raised x) (record w { ext = e })
      go (ok a) e w h = h
      go (err x) e w h = (t, h, p)

  pub attempt-Traced :
      {A : Type 0} (t : List Step) (m : Call E A)
      → Triple (Traced t) (attempt m) (λ _. Traced t) Interrupted
  unfolding attempt
  attempt-Traced t m = record { at = λ w h. h }

  -- A save in front of more of the run.
  pub save_then :
      {A : Type 0} (t : List Step) (stage status : String) (a : Fields) (note : String)
      {m : Action E A} {Q : A → World E → Type 0}
      → Triple (Traced (t ++ (stage, status) ∷ [])) m Q Interrupted
      → Triple (Traced t) (save o job r stage status a note >> m) Q Interrupted
  save_then t stage status a note k =
      Triple-bind (save-Traced t stage status a note) λ _. record { at = λ w h. k.at w h.0 }

  pub validate_worktree-Traced :
      (t : List Step) (a : Fields)
      → Partial "" t
      → Triple (Traced t) (validate_worktree o job r a) (λ _. Traced t) Interrupted
  unfolding validate_worktree
  validate_worktree-Traced t a p = Triple-bind (remote-Traced t _ p) λ _.
      Triple-bind (remote-Traced t _ p) λ _.
        Triple-bind (remote-Traced t _ p)
          λ _. Triple-bind (remote-Traced t _ p) λ _. Triple-pure _ (λ w h. h)

-- Every ending is a stage that may follow "finalizing".
pub ending-Follows :
    (repair : Fields) (v : Verdict)
    → let f = (ending repair v).final in Follows "finalizing" (f, f) × (is_final f ≡ true)
unfolding ending
ending-Follows repair v = go (is_state repair "repair_failed") v refl
  where
    go :
        (b : Bool) (v : Verdict)
        → is_state repair "repair_failed" ≡ b
        → let f = (ending repair v).final in Follows "finalizing" (f, f) × (is_final f ≡ true)
    go true v e = rw (e, ending) ((refl, refl), refl)
    go false approve e = rw (e, ending) ((refl, refl), refl)
    go false block e = rw (e, ending) ((refl, refl), refl)
    go false revise e = rw (e, ending) ((refl, refl), refl)
