-- ===== src/Conductor/Routes/Reads/Reached.antt =====
-- A run that returned can be seen in the checkpoints of its job.
use agentic_coding_stack.Prelude.{
  String, ◌≡◌, refl, sym, ap, ◌∙◌, inl, inr, true, Option, none, some, List, [], ◌∷◌, ◌++◌, map, In,
  In-keep, one_of, arith,
}
use mathlib.Core.Path.{subst}
use agentic_coding_stack.Base.Exec.{Result, ok, err, Error}
use agentic_coding_stack.Base.Triple.{Post}
use agentic_coding_stack.Base.Table.{find}
use agentic_coding_stack.Shared.Schemas.{ExecutionRunRequest}
use agentic_coding_stack.Conductor.Db.{Transition, ExecutionState}
use agentic_coding_stack.Conductor.World.{World, query}
use agentic_coding_stack.Conductor.Outside.{Outside}
use agentic_coding_stack.Conductor.ControlPlane.{valid_checkpoints}
use agentic_coding_stack.Conductor.Execution.Save.{history}
use agentic_coding_stack.Conductor.Execution.Run.{RunResult, run_single_candidate}
use agentic_coding_stack.Conductor.Execution.Stages.{Step, is_final, Walk, step_of, steps}
use agentic_coding_stack.Conductor.Execution.Walks.{Finished, run_walks}
use agentic_coding_stack.Conductor.Execution.Traces.{Interrupted}
use agentic_coding_stack.Conductor.Routes.Reads.{
  CheckpointResponse, found_or_404, checkpoints_of, checkpoints_of_row, get_checkpoints,
}

final_is_checkpoint : (s : String) → is_final s ≡ true → one_of s valid_checkpoints ≡ true
final_is_checkpoint s h = ground (arith, h)

-- A stage of a walk.
abbrev Visits : String → List Step → Type 0
Visits stage walk = In stage (map (λ x. x.0) walk)

Walk-Visits :
    (s final : String) (x : Step) (xs : List Step) → Walk s final (x ∷ xs) → Visits final (x ∷ xs)
Walk-Visits s final x [] w = inl (sym w.1.0)
Walk-Visits s final x (y ∷ ys) w = inr (Walk-Visits x.0 final y ys w.1)

append-Visits : (stage : String) (xs ys : List Step) → Visits stage ys → Visits stage (xs ++ ys)
append-Visits stage [] ys v = v
append-Visits stage (x ∷ xs) ys v = inr (append-Visits stage xs ys v)

Walk-final : (s final : String) (xs : List Step) → Walk s final xs → is_final final ≡ true
Walk-final s final [] w = ap is_final (sym w.0) ∙ w.1
Walk-final s final (x ∷ xs) w = Walk-final x.0 final xs w.1

stages-steps : (ts : List Transition) → map (λ t. t.stage) ts ≡ map (λ x. x.0) (map step_of ts)
stages-steps [] = refl
stages-steps (t ∷ ts) = ap (λ ss. t.stage ∷ ss) (stages-steps ts)

nothing_visited : (stage : String) → Visits stage (map step_of (history none)) → ⊥
unfolding history
nothing_visited stage v = elim v [ ]

-- A stage that a job has visited is among its checkpoints, if it is one.
visited_checkpoint :
    {E : Type 0} (job stage : String) (w : World E)
    → Visits stage (steps job w.db)
    → one_of stage valid_checkpoints ≡ true
    → (response : CheckpointResponse) × (get_checkpoints job w ≡ (ok response, w))
      × In stage response.checkpoints
unfolding get_checkpoints query steps checkpoints_of_row checkpoints_of
visited_checkpoint {E} job stage w v h = go (find job w.db.execution_state) refl
  where
    found :
        (row : ExecutionState)
        → Path
            (Result Error CheckpointResponse × World E)
            (found_or_404 (checkpoints_of_row job (some row)) w)
            (ok (record { job_id = job; checkpoints = checkpoints_of (history (some row)) }), w)
    found row = refl

    listed : (ts : List Transition) → Visits stage (map step_of ts) → In stage (checkpoints_of ts)
    listed ts v' =
        In-keep (λ s. one_of s valid_checkpoints) (map (λ t. t.stage) ts) stage
          (subst (In stage) (sym (stages-steps ts)) v') h

    go :
        (row : Option ExecutionState)
        → find job w.db.execution_state ≡ row
        → (response : CheckpointResponse) × (get_checkpoints job w ≡ (ok response, w))
          × In stage response.checkpoints
    go none e =
        elim (nothing_visited stage
          (subst (λ row. Visits stage (map step_of (history row))) e v)) [ ]
    go (some row) e = (
      record { job_id = job; checkpoints = checkpoints_of (history (some row)) },
      ap (λ row'. found_or_404 (checkpoints_of_row job row') w) e ∙ found row,
      listed (history (some row)) (subst (λ row'. Visits stage (map step_of (history row'))) e v),
    )

ends_visited :
    (old : List Step) (final : String) (walk : List Step)
    → Walk "" final walk
    → Visits final (old ++ walk)
ends_visited old final [] walks = cc (walks.1)
ends_visited old final (x ∷ xs) walks =
    append-Visits final old (x ∷ xs) (Walk-Visits "" final x xs walks)

-- After a run of a candidate that returns, `get_checkpoints` answers for its job, leaves the state as
-- it is, and lists the final stage that the result names; so the check of a resumption knows it.
pub checkpoint_reached :
    {E : Type 0} (o : Outside E) (job : String) (r : ExecutionRunRequest) (w : World E)
    {result : RunResult}
    → (run_single_candidate o job r w).0 ≡ ok result
    → let w' = (run_single_candidate o job r w).1 in
      (response : CheckpointResponse) × (get_checkpoints job w' ≡ (ok response, w'))
      × In result.stage response.checkpoints
checkpoint_reached {E} o job r w {result} h =
    go (run_single_candidate o job r w).0 _ h (run_walks o job r w)
  where
    go :
        (out : Result Error RunResult) (w' : World E)
        → out ≡ ok result
        → Post (Finished o job r (steps job w.db)) (Interrupted o job r (steps job w.db)) out w'
        → (response : CheckpointResponse) × (get_checkpoints job w' ≡ (ok response, w'))
          × In result.stage response.checkpoints
    go (ok x) w' e q =
        let same : x.stage ≡ result.stage = cc e in
        let final = Walk-final "" x.stage q.walk q.walks in
        let seen = ends_visited (steps job w.db) x.stage q.walk q.walks in
        subst
          (λ stage.
            (response : CheckpointResponse) × (get_checkpoints job w' ≡ (ok response, w'))
            × In stage response.checkpoints)
          same
          (visited_checkpoint job x.stage w' (subst (Visits x.stage) (sym q.traced) seen)
            (final_is_checkpoint x.stage final))
    go (err x) w' e q = cc e
