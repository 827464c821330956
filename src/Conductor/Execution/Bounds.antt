-- ===== src/Conductor/Execution/Bounds.antt =====
-- A run writes only files that the plan names or that the worker reports changed.
use agentic_coding_stack.Prelude.{
  String, ◌≡◌, refl, sym, false, [], str_eq, or_else, All, Bool-cases, inl, inr,
}
use mathlib.Core.Path.{subst}
use agentic_coding_stack.Base.Json.{Json, arr, nil, Fields, put, get-put}
use agentic_coding_stack.Base.Exec.{Error, Result, ok, err}
use agentic_coding_stack.Base.Triple.{Post, Triple, Triple-bind, Triple-pure}
use agentic_coding_stack.Shared.Schemas.{
  ReviewerVerdict, Verdict, approve, block, revise, ExecutionRunRequest,
}
use agentic_coding_stack.Conductor.World.{
  World, Call, remote, attempt, raised, read_clock, query, write,
}
use agentic_coding_stack.Conductor.Outside.{Diff, Outside}
use agentic_coding_stack.Conductor.Execution.Save.{save_state}
use agentic_coding_stack.Conductor.Execution.Repair.{get_or, texts_of, is_state}
use agentic_coding_stack.Conductor.Execution.Run.{
  RunResult, Reviewed, save, review_now, observed, validate_worktree, revalidate, repair_phase,
  repair_if_blocked, finalize, fail_review, after_review, run_single_candidate,
}
use agentic_coding_stack.Conductor.Execution.Frame.{
  Keeps, Respects, Reported, At, texts-strs, review-Keeps, attempt_single_repair-Keeps,
}

changed_of_put :
    (a : Fields) (k : String) (v : Json)
    → str_eq k "changed_files" ≡ false
    → texts_of (get_or (put a k v) "changed_files" (arr nil))
      ≡ texts_of (get_or a "changed_files" (arr nil))
changed_of_put a k v e = rw (get-put a k "changed_files" v, e) refl

changed_of_report :
    (a : Fields) (d : Diff) (lint typecheck test : Fields)
    → texts_of (get_or (observed a d lint typecheck test) "changed_files" (arr nil))
      ≡ or_else d.changed_files []
unfolding texts_of observed
changed_of_report a d lint typecheck test = simp (get-put, texts-strs)

module _ {E : Type 0} {I : E → Type 0} where
  remote-At :
      {A : Type 0} {m : Call E A} {Q : A → E → Type 0}
      → Triple I m Q I
      → Triple (At I) (remote m) (λ a w. Q a w.ext) (At I)
  unfolding remote
  remote-At {A} {m} {Q} t = record { at = λ w h. go (m w.ext).0 (m w.ext).1 w (t.at w.ext h) }
    where
      go :
          (x : Result String A) (e : E) (w : World E)
          → Post Q I x e
          → Post (λ a w'. Q a w'.ext) (At I) (raised x) (record w { ext = e })
      go (ok a) e w h = h
      go (err x) e w h = h

  attempt-At : {A : Type 0} {m : Call E A} → Keeps I m → Keeps (At I) (attempt m)
  unfolding attempt
  attempt-At {A} {m} t = record { at = λ w h. go (m w.ext).0 (m w.ext).1 (t.at w.ext h) }
    where
      go : (x : Result String A) (e : E) → Post (λ _. I) I x e → I e
      go (ok a) e h = h
      go (err x) e h = h

save-At :
    {E : Type 0} (I : E → Type 0) (o : Outside E) (job : String) (r : ExecutionRunRequest)
    (stage status : String) (a : Fields) (note : String)
    → Keeps (At I) (save o job r stage status a note)
unfolding save save_state read_clock query write
save-At I o job r stage status a note = record { at = λ w h. h }

module _ {E : Type 0} (o : Outside E) (job : String) (r : ExecutionRunRequest)
    {Allowed : String → Type 0} {I : E → Type 0} (k : Respects o r.repo r.task_id Allowed I) where
  validate_worktree-At :
      (a : Fields)
      → Triple (At I) (validate_worktree o job r a) (λ a' w. I w.ext × Reported Allowed a') (At I)
  unfolding validate_worktree
  validate_worktree-At a = Triple-bind (remote-At k.keeps_lint) λ lint.
      Triple-bind (remote-At k.keeps_typecheck) λ typecheck.
        Triple-bind (remote-At (k.keeps_tests _)) λ test. Triple-bind (remote-At k.keeps_diff) λ d.
          Triple-pure _
            λ w h. (h.0, subst (All Allowed) (sym (changed_of_report a d lint typecheck test)) h.1)

  review_now-At : (a : Fields) → Keeps (At I) (review_now o job r a)
  unfolding review_now
  review_now-At a = attempt-At (review-Keeps k _ _ _)

  revalidate-At :
      (v : ReviewerVerdict) (a repair : Fields) → Keeps (At I) (revalidate o job r v a repair)
  unfolding revalidate
  revalidate-At v a repair = elim (Bool-cases (is_state repair "repair_failed")) [
    | inl e ↦ rw e (Triple-pure _ (λ w h. h))
    | inr e ↦ rw e (
        Triple-bind (validate_worktree-At a) λ a'.
          Triple-bind (record { at = λ w h. (review_now-At a').at w h.0 })
            λ second. Triple-pure _ (λ w h. h))
  ]

  finalize-At : (v : Reviewed) → Keeps (At I) (finalize o job r v)
  unfolding finalize
  finalize-At v =
      Triple-bind (save-At I o job r _ _ _ _)
        λ _. Triple-bind (save-At I o job r _ _ _ _) λ _. Triple-pure _ (λ w h. h)

module _ {E : Type 0} (o : Outside E) (job : String) (r : ExecutionRunRequest)
    {Allowed : String → Type 0} {I : E → Type 0} (k : Respects o r.repo r.task_id Allowed I)
    (files : All Allowed r.selected_candidate.micro_targets.files)
    (tests : All Allowed r.selected_candidate.micro_targets.tests) where
  repair_phase-At :
      (v : ReviewerVerdict) (a : Fields)
      → Reported Allowed a
      → Keeps (At I) (repair_phase o job r v a)
  unfolding repair_phase
  repair_phase-At v a reported = Triple-bind (save-At I o job r _ _ _ _) λ _.
      Triple-bind (remote-At (attempt_single_repair-Keeps k _ _ _ _ files tests reported))
        λ repair. revalidate-At o job r k v _ repair

  repair_if_blocked-At :
      (v : ReviewerVerdict) (a : Fields)
      → Reported Allowed a
      → Keeps (At I) (repair_if_blocked o job r v a)
  unfolding repair_if_blocked
  repair_if_blocked-At v a reported = go v.verdict refl
    where
      go : (x : Verdict) → v.verdict ≡ x → Keeps (At I) (repair_if_blocked o job r v a)
      go block e = rw (e, repair_if_blocked) (repair_phase-At v a reported)
      go approve e = rw (e, repair_if_blocked) (Triple-pure _ (λ w h. h))
      go revise e = rw (e, repair_if_blocked) (Triple-pure _ (λ w h. h))

  after_review-At :
      (a : Fields) (answer : Result String ReviewerVerdict)
      → Reported Allowed a
      → Keeps (At I) (after_review o job r a answer)
  unfolding after_review fail_review
  after_review-At a (err text) reported =
      Triple-bind (save-At I o job r _ _ _ _) λ _. Triple-pure _ (λ w h. h)
  after_review-At a (ok v) reported = Triple-bind (save-At I o job r _ _ _ _) λ _.
      Triple-bind
        (repair_if_blocked-At v _
          (subst (All Allowed) (sym (changed_of_put a "reviewer_verdict" _ refl)) reported))
        λ reviewed. finalize-At o job r k reviewed

  run-At : Keeps (At I) (run_single_candidate o job r)
  unfolding run_single_candidate
  run-At = Triple-bind (save-At I o job r _ _ _ _) λ _.
      Triple-bind (remote-At (k.keeps_prepare _)) λ _. Triple-bind (save-At I o job r _ _ _ _) λ _.
        Triple-bind (save-At I o job r _ _ _ _) λ _.
          Triple-bind (validate_worktree-At o job r k _) λ a. record {
            at = λ w h.
                (Triple-bind (save-At I o job r _ _ _ _) λ _.
                    Triple-bind (review_now-At o job r k a)
                      λ answer. after_review-At a answer h.1).at
                  w h.0;
          }

-- Say which files are allowed, `Allowed`: those of the plan's micro targets are, and those that
-- `git diff` of the worker reports as changed. A property of the outside that every call keeps,
-- save that a write has to keep it for allowed files alone, holds after the run of a candidate if it
-- held before, on every path, exceptions included. So no write outside the allowed files is sent.
pub run-Keeps :
    {E : Type 0} (o : Outside E) (job : String) (r : ExecutionRunRequest)
    (Allowed : String → Type 0) (I : E → Type 0)
    → Respects o r.repo r.task_id Allowed I
    → All Allowed r.selected_candidate.micro_targets.files
    → All Allowed r.selected_candidate.micro_targets.tests
    → (w : World E) → I w.ext
    → I (run_single_candidate o job r w).1.ext
run-Keeps {E} o job r Allowed I k files tests w h =
    go (run_single_candidate o job r w).0 (run_single_candidate o job r w).1
      ((run-At o job r k files tests).at w h)
  where
    go : (x : Result Error RunResult) (w' : World E) → Post (λ _. At I) (At I) x w' → I w'.ext
    go (ok a) w' p = p
    go (err e) w' p = p
