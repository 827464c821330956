-- ===== src/Conductor/Execution/Walks.antt =====
-- Every run of a candidate is a walk through the stages, whatever the worker and the models do.
use mathlib.Core.List.{append-nil}
use agentic_coding_stack.Prelude.{
  String, ◌≡◌, refl, sym, true, ◌⊎◌, inl, inr, List, [], ◌∷◌, ◌++◌, Bool-cases,
}
use agentic_coding_stack.Base.Json.{Fields}
use agentic_coding_stack.Base.Exec.{Result, ok, err}
use agentic_coding_stack.Base.Triple.{Post, Triple, Triple-bind, Triple-pure}
use agentic_coding_stack.Shared.Schemas.{
  ReviewerVerdict, Verdict, approve, block, revise, ExecutionRunRequest,
}
use agentic_coding_stack.Conductor.World.{World}
use agentic_coding_stack.Conductor.Outside.{Outside}
use agentic_coding_stack.Conductor.Execution.Repair.{is_state}
use agentic_coding_stack.Conductor.Execution.Run.{
  RunResult, Reviewed, review_now, revalidate, repair_phase, repair_if_blocked, finalize,
  fail_review, after_review, run_single_candidate,
}
use agentic_coding_stack.Conductor.Execution.Stages.{Step, Walk, Follows, is_final, steps}
use agentic_coding_stack.Conductor.Execution.Traces.{
  Shows, Traced, Interrupted, save-Traced, remote-Traced, attempt-Traced, save_then,
  validate_worktree-Traced, ending-Follows,
}

abbrev running : String → Step
running s = (s, "running")

-- The steps in front of the review, of the repair and of the end.
abbrev until_validating : List Step
until_validating =
    running "queued" ∷ running "prepared" ∷ running "implementing" ∷ running "validating" ∷ []

abbrev until_reviewing : List Step
until_reviewing = until_validating ++ running "reviewing" ∷ []

abbrev until_repairing : List Step
until_repairing = until_reviewing ++ running "repairing" ∷ []

module _ {E : Type 0} (o : Outside E) (job : String) (r : ExecutionRunRequest)
    (old : List Step) where
  -- A run that returned: its steps are a whole walk, and the row of the job shows its result.
  pub record Finished (res : RunResult) (w : World E) : Type 0 where
    pub walk : List Step
    pub traced : steps job w.db ≡ old ++ walk
    pub walks : Walk "" res.stage walk
    pub status_eq : res.status ≡ res.stage
    pub shown : Shows job res.stage res.status res.artifacts w.db

  -- In front of the end: reviewed, with or without a repair.
  abbrev Ready : World E → Type 0
  Ready w = Traced o job r old until_reviewing w ⊎ Traced o job r old until_repairing w

  abbrev Cut : World E → Type 0
  Cut = Interrupted o job r old

  finalize-Finished :
      (t : List Step)
      → ((f : String)
          → Follows "finalizing" (f, f)
          → is_final f ≡ true
          → Walk "" f ((t ++ running "finalizing" ∷ []) ++ (f, f) ∷ []))
      → (v : Reviewed) → Triple (Traced o job r old t) (finalize o job r v) Finished Cut
  unfolding finalize
  finalize-Finished t close v =
      let (next, final) = ending-Follows v.repair_result v.verdict.verdict in
      save_then o job r old t "finalizing" "running" v.artifacts "finalizing" (
        Triple-bind (save-Traced o job r old (t ++ running "finalizing" ∷ []) _ _ _ _) λ _.
          Triple-pure _ λ w h. record {
            walk = _;
            traced = h.0;
            walks = close _ next final;
            status_eq = refl;
            shown = h.1;
          })

  finalize-Ready : (v : Reviewed) → Triple Ready (finalize o job r v) Finished Cut
  finalize-Ready v = record {
    at = λ w. elim [
      | inl h ↦
          (finalize-Finished until_reviewing
              (λ f n e. (
                (refl, refl),
                (
                  (refl, refl),
                  ((refl, refl), ((refl, refl), ((refl, refl), ((refl, refl), (n, (refl, e)))))),
                ),
              ))
              v).at
            w h
      | inr h ↦
          (finalize-Finished until_repairing
              (λ f n e. (
                (refl, refl),
                (
                  (refl, refl),
                  (
                    (refl, refl),
                    ((refl, refl), ((refl, refl), ((refl, refl), ((refl, refl), (n, (refl, e)))))),
                  ),
                ),
              ))
              v).at
            w h
    ];
  }

  revalidate-Ready :
      (verdict : ReviewerVerdict) (a repair : Fields)
      → Triple
          (Traced o job r old until_repairing)
          (revalidate o job r verdict a repair)
          (λ _. Ready)
          Cut
  unfolding revalidate review_now
  revalidate-Ready verdict a repair = elim (Bool-cases (is_state repair "repair_failed")) [
    | inl e ↦ rw e (Triple-pure _ (λ w h. inr h))
    | inr e ↦ rw e (
        Triple-bind
          (validate_worktree-Traced o job r old until_repairing a (
            (refl, refl),
            ((refl, refl), ((refl, refl), ((refl, refl), ((refl, refl), ((refl, refl), refl))))),
          ))
          λ _.
            Triple-bind (attempt-Traced o job r old until_repairing _)
              λ _. Triple-pure _ (λ w h. inr h))
  ]

  repair_if_blocked-Ready :
      (verdict : ReviewerVerdict) (a : Fields)
      → Triple
          (Traced o job r old until_reviewing)
          (repair_if_blocked o job r verdict a)
          (λ _. Ready)
          Cut
  unfolding repair_if_blocked repair_phase
  repair_if_blocked-Ready verdict a = go verdict.verdict refl
    where
      go :
          (v : Verdict)
          → verdict.verdict ≡ v
          → Triple
              (Traced o job r old until_reviewing)
              (repair_if_blocked o job r verdict a)
              (λ _. Ready)
              Cut
      go block e =
          rw (e, repair_if_blocked)
            (save_then o job r old until_reviewing "repairing" "running" a "repair_started" (
              Triple-bind
                (remote-Traced o job r old until_repairing _ (
                  (refl, refl),
                  (
                    (refl, refl),
                    ((refl, refl), ((refl, refl), ((refl, refl), ((refl, refl), refl)))),
                  ),
                ))
                λ repair. revalidate-Ready verdict _ repair))
      go approve e = rw (e, repair_if_blocked) (Triple-pure _ (λ w h. inl h))
      go revise e = rw (e, repair_if_blocked) (Triple-pure _ (λ w h. inl h))

  after_review-Finished :
      (a : Fields) (answer : Result String ReviewerVerdict)
      → Triple (Traced o job r old until_validating) (after_review o job r a answer) Finished Cut
  unfolding after_review fail_review
  after_review-Finished a (err text) =
      Triple-bind (save-Traced o job r old until_validating "failed" "failed" _ _) λ _.
        Triple-pure _ λ w h. record {
          walk = until_validating ++ ("failed", "failed") ∷ [];
          traced = h.0;
          walks = (
            (refl, refl),
            ((refl, refl), ((refl, refl), ((refl, refl), ((refl, refl), (refl, refl))))),
          );
          status_eq = refl;
          shown = h.1;
        }
  after_review-Finished a (ok verdict) =
      save_then o job r old until_validating "reviewing" "running" _ "review_completed"
        (Triple-bind (repair_if_blocked-Ready verdict _) λ v. finalize-Ready v)

  pub run-Finished : Triple (Traced o job r old []) (run_single_candidate o job r) Finished Cut
  unfolding run_single_candidate review_now
  run-Finished = save_then o job r old [] "queued" "running" _ "job_queued" (
      Triple-bind (remote-Traced o job r old (running "queued" ∷ []) _ ((refl, refl), refl)) λ _.
        save_then o job r old (running "queued" ∷ []) "prepared" "running" _ "worktree_prepared" (
          save_then o job r old (running "queued" ∷ running "prepared" ∷ []) "implementing"
            "running" _ "implementation_started"
            (Triple-bind
              (validate_worktree-Traced o job r old
                (running "queued" ∷ running "prepared" ∷ running "implementing" ∷ []) _
                ((refl, refl), ((refl, refl), ((refl, refl), refl))))
              λ a.
                save_then o job r old
                  (running "queued" ∷ running "prepared" ∷ running "implementing" ∷ []) "validating"
                  "running" _ "validation_completed"
                  (Triple-bind (attempt-Traced o job r old until_validating _)
                    λ answer. after_review-Finished _ answer))))

-- Whatever the worker, the models and the clock do: a run of a candidate that returns has appended
-- to the history of its job one walk through the stages, each saved with the status that goes with
-- it, from "queued" to the final stage that the result names, at most one repair on the way, and
-- the row of the job shows the stage, the status and the artifacts of the result. A run that raises
-- has appended a walk that stops at a stage that is not final.
pub run_walks :
    {E : Type 0} (o : Outside E) (job : String) (r : ExecutionRunRequest) (w : World E)
    → Post
        (Finished o job r (steps job w.db))
        (Interrupted o job r (steps job w.db))
        (run_single_candidate o job r w).0
        (run_single_candidate o job r w).1
run_walks o job r w =
    (run-Finished o job r (steps job w.db)).at w (sym (append-nil (steps job w.db)))
