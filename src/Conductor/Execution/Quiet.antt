-- ===== src/Conductor/Execution/Quiet.antt =====
-- A run changes no table but `execution_state`.
use agentic_coding_stack.Prelude.{String, ◌≡◌, refl, [], Bool-cases, inl, inr}
use agentic_coding_stack.Base.Json.{Fields}
use agentic_coding_stack.Base.Exec.{Error, Result, ok, err}
use agentic_coding_stack.Base.Triple.{Post, Triple-bind, Triple-pure}
use agentic_coding_stack.Shared.Schemas.{
  ReviewerVerdict, Verdict, approve, block, revise, ExecutionRunRequest,
}
use agentic_coding_stack.Conductor.World.{
  Db, World, Call, remote, attempt, raised, read_clock, query, write,
}
use agentic_coding_stack.Conductor.Outside.{Outside}
use agentic_coding_stack.Conductor.Execution.Save.{save_state, saved}
use agentic_coding_stack.Conductor.Execution.Repair.{is_state}
use agentic_coding_stack.Conductor.Execution.Run.{
  RunResult, Reviewed, save, review_now, validate_worktree, revalidate, repair_phase,
  repair_if_blocked, finalize, fail_review, after_review, run_single_candidate,
}
use agentic_coding_stack.Conductor.Execution.Frame.{Keeps}

-- The database without the table of execution states.
abbrev pub others : Db → Db
others db = record db { execution_state = [] }

module _ {E : Type 0} (o : Outside E) (job : String) (r : ExecutionRunRequest) (d : Db) where
  abbrev Same : World E → Type 0
  Same w = others w.db ≡ d

  save-Same :
      (stage status : String) (a : Fields) (note : String)
      → Keeps Same (save o job r stage status a note)
  unfolding save save_state read_clock query write saved
  save-Same stage status a note = record { at = λ w h. h }

  remote-Same : {A : Type 0} (m : Call E A) → Keeps Same (remote m)
  unfolding remote
  remote-Same {A} m = record { at = λ w h. go (m w.ext).0 (m w.ext).1 w h }
    where
      go :
          (x : Result String A) (e : E) (w : World E)
          → Same w
          → Post (λ _. Same) Same (raised x) (record w { ext = e })
      go (ok a) e w h = h
      go (err x) e w h = h

  review_now-Same : (a : Fields) → Keeps Same (review_now o job r a)
  unfolding review_now attempt
  review_now-Same a = record { at = λ w h. h }

  validate_worktree-Same : (a : Fields) → Keeps Same (validate_worktree o job r a)
  unfolding validate_worktree
  validate_worktree-Same a = Triple-bind (remote-Same _) λ _. Triple-bind (remote-Same _) λ _.
      Triple-bind (remote-Same _) λ _. Triple-bind (remote-Same _) λ _. Triple-pure _ (λ w h. h)

  revalidate-Same :
      (v : ReviewerVerdict) (a repair : Fields) → Keeps Same (revalidate o job r v a repair)
  unfolding revalidate
  revalidate-Same v a repair = elim (Bool-cases (is_state repair "repair_failed")) [
    | inl e ↦ rw e (Triple-pure _ (λ w h. h))
    | inr e ↦ rw e (
        Triple-bind (validate_worktree-Same a)
          λ a'. Triple-bind (review_now-Same a') λ second. Triple-pure _ (λ w h. h))
  ]

  repair_if_blocked-Same :
      (v : ReviewerVerdict) (a : Fields) → Keeps Same (repair_if_blocked o job r v a)
  unfolding repair_if_blocked repair_phase
  repair_if_blocked-Same v a = go v.verdict refl
    where
      go : (x : Verdict) → v.verdict ≡ x → Keeps Same (repair_if_blocked o job r v a)
      go block e =
          rw (e, repair_if_blocked)
            (Triple-bind (save-Same _ _ _ _)
              λ _. Triple-bind (remote-Same _) λ repair. revalidate-Same v _ repair)
      go approve e = rw (e, repair_if_blocked) (Triple-pure _ (λ w h. h))
      go revise e = rw (e, repair_if_blocked) (Triple-pure _ (λ w h. h))

  finalize-Same : (v : Reviewed) → Keeps Same (finalize o job r v)
  unfolding finalize
  finalize-Same v =
      Triple-bind (save-Same _ _ _ _)
        λ _. Triple-bind (save-Same _ _ _ _) λ _. Triple-pure _ (λ w h. h)

  after_review-Same :
      (a : Fields) (answer : Result String ReviewerVerdict)
      → Keeps Same (after_review o job r a answer)
  unfolding after_review fail_review
  after_review-Same a (err text) = Triple-bind (save-Same _ _ _ _) λ _. Triple-pure _ (λ w h. h)
  after_review-Same a (ok v) =
      Triple-bind (save-Same _ _ _ _)
        λ _. Triple-bind (repair_if_blocked-Same v _) λ reviewed. finalize-Same reviewed

  run-Same : Keeps Same (run_single_candidate o job r)
  unfolding run_single_candidate
  run-Same = Triple-bind (save-Same _ _ _ _) λ _. Triple-bind (remote-Same _) λ _.
      Triple-bind (save-Same _ _ _ _) λ _. Triple-bind (save-Same _ _ _ _) λ _.
        Triple-bind (validate_worktree-Same _) λ a.
          Triple-bind (save-Same _ _ _ _)
            λ _. Triple-bind (review_now-Same a) λ answer. after_review-Same a answer

pub others-run :
    {E : Type 0} (o : Outside E) (job : String) (r : ExecutionRunRequest) (w : World E)
    → others (run_single_candidate o job r w).1.db ≡ others w.db
others-run {E} o job r w =
    go (run_single_candidate o job r w).0 (run_single_candidate o job r w).1
      ((run-Same o job r (others w.db)).at w refl)
  where
    go :
        (x : Result Error RunResult) (w' : World E)
        → Post (λ _. Same o job r (others w.db)) (Same o job r (others w.db)) x w'
        → others w'.db ≡ others w.db
    go (ok a) w' p = p
    go (err e) w' p = p
