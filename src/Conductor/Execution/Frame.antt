-- ===== src/Conductor/Execution/Frame.antt =====
-- What a repair may touch: a property of the outside that survives writes of the allowed files
-- survives the run.
use mathlib.Core.Path.{subst}
use agentic_coding_stack.Prelude.{
  String, ◌≡◌, refl, sym, ap, true, inl, inr, List, [], ◌∷◌, one_of, str_eq, eq_iff, or_else, All,
  All-append, Bool-cases,
}
use agentic_coding_stack.Base.Json.{Json, arr, obj, Items, nil, Fields, end, strs}
use agentic_coding_stack.Base.Exec.{Result, ok, err, Exec, pure, lift}
use agentic_coding_stack.Base.Triple.{Post, Triple, Triple-bind, Triple-pure}
use agentic_coding_stack.Shared.Schemas.{CandidatePlan, DecisionState, ReviewerVerdict}
use agentic_coding_stack.Shared.Parsing.{message_content, parse_model_json_content}
use agentic_coding_stack.Conductor.World.{World, Call}
use agentic_coding_stack.Conductor.Outside.{Diff, Outside}
use agentic_coding_stack.Conductor.Execution.Repair.{
  get_or, texts, texts_of, Modification, caught, out_of_bounds, review, generate_repair_plan,
  write_all, give_up, after_diff, after_writes, after_write_loop, modifications, allowed_paths,
  apply_plan, with_plan, attempt_single_repair,
}

abbrev pub Keeps : {S X A : Type 0} → (S → Type 0) → Exec S X A → Type 0
Keeps I m = Triple I m (λ _. I) I

-- The calls keep `I`, a write of an allowed path does, and `git diff` reports allowed paths.
pub record Respects {E : Type 0} (o : Outside E) (repo task : String) (Allowed : String → Type 0)
    (I : E → Type 0) : Type 0 where
  pub keeps_prepare : (base : String) → Keeps I (o.worker.prepare_repo repo task base)
  pub keeps_reset : Keeps I (o.worker.reset_repo repo task)
  pub keeps_lint : Keeps I (o.worker.run_lint repo task)
  pub keeps_typecheck : Keeps I (o.worker.run_typecheck repo task)
  pub keeps_tests : (tests : List String) → Keeps I (o.worker.run_tests repo task tests)
  pub keeps_diff :
      Triple I
        (o.worker.git_diff repo task)
        (λ d e. I e × All Allowed (or_else d.changed_files []))
        I
  pub keeps_read : (path : String) → Keeps I (o.worker.read_file repo task path)
  pub keeps_write :
      (path content : String) → Allowed path → Keeps I (o.worker.write_file repo task path content)
  pub keeps_chat : (alias system : String) (user : Json) → Keeps I (o.chat alias system user)

-- The artifacts name only allowed files as changed.
abbrev pub Reported : (String → Type 0) → Fields → Type 0
Reported Allowed a = All Allowed (texts_of (get_or a "changed_files" (arr nil)))

-- A property of the outside, of the world.
abbrev pub At : {E : Type 0} → (E → Type 0) → World E → Type 0
At I w = I w.ext

module _ {S X A : Type 0} {I : S → Type 0} where
  Keeps-pure : (a : A) → Keeps {X = X} I (pure a)
  Keeps-pure a = Triple-pure a (λ s h. h)

  Keeps-lift : (r : Result X A) → Keeps I (lift r)
  Keeps-lift (ok a) = record { at = λ s h. h }
  Keeps-lift (err e) = record { at = λ s h. h }

Keeps-caught : {E A : Type 0} {I : E → Type 0} {m : Call E A} → Keeps I m → Keeps I (caught m)
unfolding caught
Keeps-caught {E} {A} {I} {m} k = record { at = λ e h. go (m e).0 (m e).1 (k.at e h) }
  where
    go : (r : Result String A) (e : E) → Post (λ _. I) I r e → I e
    go (ok a) e h = h
    go (err x) e h = h

allowed_of :
    (Allowed : String → Type 0) (p : String) (xs : List String)
    → All Allowed xs
    → one_of p xs ≡ true
    → Allowed p
allowed_of Allowed p [] h e = cc
allowed_of Allowed p (x ∷ xs) h e = elim (Bool-cases (str_eq p x)) [
  | inl same ↦ subst Allowed (sym ((eq_iff p x).0 same)) h.0
  | inr other ↦ allowed_of Allowed p xs h.1 (rw other at e)
]

pub texts-strs : (xs : List String) → texts (strs xs) ≡ xs
unfolding texts
texts-strs [] = refl
texts-strs (x ∷ xs) = ap (λ t. x ∷ t) (texts-strs xs)

module _ {E : Type 0} {o : Outside E} {repo task : String} {Allowed : String → Type 0}
    {I : E → Type 0} (k : Respects o repo task Allowed I) where
  pub review-Keeps :
      (d : DecisionState) (c : CandidatePlan) (a : Fields) → Keeps I (review o repo task d c a)
  unfolding review
  review-Keeps d c a = Triple-bind (k.keeps_chat _ _ _) λ response.
      Triple-bind {A = Json} (Keeps-lift (message_content response (obj end)))
        λ content. Keeps-lift (o.validate_verdict (parse_model_json_content o.loads content))

  generate_repair_plan-Keeps : (context : Json) → Keeps I (generate_repair_plan o repo task context)
  unfolding generate_repair_plan
  generate_repair_plan-Keeps context = Triple-bind (k.keeps_chat _ _ _) λ response.
      Triple-bind {A = Json} (Keeps-lift (message_content response (obj end))) λ content.
        Keeps-lift (
          modifications o.repr
            (get_or (parse_model_json_content o.loads content) "modifications" (arr nil)))

  give_up-Keeps : (reason : String) (rest : Fields) → Keeps I (give_up o repo task reason rest)
  unfolding give_up
  give_up-Keeps reason rest = Triple-bind k.keeps_reset λ _. Keeps-pure _

  write_all-Keeps :
      (plan : List Modification) (writes : Items)
      → All (λ m. Allowed m.path) plan
      → Keeps I (write_all o repo task writes plan)
  unfolding write_all
  write_all-Keeps [] writes h = Keeps-pure _
  write_all-Keeps (m ∷ ms) writes h =
      Triple-bind (k.keeps_read m.path) λ before.
        Triple-bind (k.keeps_write m.path m.content h.0) λ written. write_all-Keeps ms _ h.1

  after_diff-Keeps :
      (plan : List Modification) (writes : Items) (d : Diff) (changed : List String)
      → Keeps I (after_diff o repo task plan writes d changed)
  unfolding after_diff
  after_diff-Keeps plan writes d [] = give_up-Keeps _ _
  after_diff-Keeps plan writes d (f ∷ fs) = Keeps-pure _

  after_write_loop-Keeps :
      (plan : List Modification) (r : Result String Items)
      → Keeps I (after_write_loop o repo task plan r)
  unfolding after_write_loop after_writes
  after_write_loop-Keeps plan (err text) = give_up-Keeps _ _
  after_write_loop-Keeps plan (ok writes) =
      Triple-bind k.keeps_diff
        λ d. record { at = λ e h. (after_diff-Keeps plan writes d _).at e h.0 }

  -- A plan with no path out of bounds has allowed paths.
  plan_allowed :
      (allowed : List String) (plan : List Modification)
      → All Allowed allowed
      → out_of_bounds allowed plan ≡ []
      → All (λ m. Allowed m.path) plan
  unfolding out_of_bounds
  plan_allowed allowed [] h e = tt
  plan_allowed allowed (m ∷ ms) h e = elim (Bool-cases (one_of m.path allowed)) [
    | inl inside ↦
        (allowed_of Allowed m.path allowed h inside, plan_allowed allowed ms h (rw inside at e))
    | inr outside ↦ cc (rw outside at e)
  ]

  with_plan-Keeps :
      (allowed : List String) (plan : Result String (List Modification))
      → All Allowed allowed
      → Keeps I (with_plan o repo task allowed plan)
  unfolding with_plan
  with_plan-Keeps allowed (err text) h = give_up-Keeps _ _
  with_plan-Keeps allowed (ok plan) h = go (out_of_bounds allowed plan) refl
    where
      go :
          (bad : List String)
          → out_of_bounds allowed plan ≡ bad
          → Keeps I (apply_plan o repo task allowed plan bad)
      go [] e =
          unfold apply_plan in
          Triple-bind (Keeps-caught (write_all-Keeps plan nil (plan_allowed allowed plan h e)))
            λ r. after_write_loop-Keeps plan r
      go (p ∷ ps) e = unfold apply_plan in give_up-Keeps _ _

  pub attempt_single_repair-Keeps :
      (d : DecisionState) (c : CandidatePlan) (v : ReviewerVerdict) (a : Fields)
      → All Allowed c.micro_targets.files
      → All Allowed c.micro_targets.tests
      → Reported Allowed a
      → Keeps I (attempt_single_repair o repo task d c v a)
  unfolding attempt_single_repair allowed_paths
  attempt_single_repair-Keeps d c v a files tests reported =
      Triple-bind (Keeps-caught (generate_repair_plan-Keeps _)) λ plan.
        with_plan-Keeps _ plan
          (All-append Allowed _ _ files (All-append Allowed _ _ tests reported))
