-- ===== src/Conductor/Execution/Repair.antt =====
-- `ExecutionService._review`, `_generate_repair_plan` and `_attempt_single_repair`: calls of the
-- reviewer and of the worker.
use agentic_coding_stack.Prelude.{
  String, Bool, true, false, not, some, List, [], ◌∷◌, ◌++◌, one_of, str_eq, or_else, if◌then◌else◌,
}
use agentic_coding_stack.Base.Number.{pos}
use agentic_coding_stack.Base.Json.{
  Json, bool, int, str, arr, obj, Items, nil, cons, Fields, end, field, get, strs,
}
use agentic_coding_stack.Base.Text.{strip, truthy, count_chars, sorted_set}
use agentic_coding_stack.Base.Exec.{Result, ok, err, pure, lift, ◌>>=◌, ◌>>◌}
use agentic_coding_stack.Shared.Schemas.{CandidatePlan, DecisionState, ReviewerVerdict}
use agentic_coding_stack.Shared.Parsing.{parse_model_json_content, message_content}
use agentic_coding_stack.Conductor.World.{Call}
use agentic_coding_stack.Conductor.Outside.{Diff, Outside}

-- `artifacts.get(key, default)`
abbrev pub get_or : Fields → String → Json → Json
get_or d k default = or_else (get d k) default

-- The texts of a list; the run only stores lists of texts under `changed_files`.
unfoldable pub texts : Items → List String
texts nil = []
texts (cons (str s) r) = s ∷ texts r
texts (cons j r) = texts r

unfoldable pub texts_of : Json → List String
unfolding texts
texts_of (arr r) = texts r
texts_of j = []

pub record Modification : Type 0 where
  pub path : String
  pub content : String
  pub rationale : String

-- The fields that the prompts of the review and of the repair share, the diff under its own key.
unfoldable pub evidence : String → Fields → Fields → Fields
evidence key artifacts rest = field key (get_or artifacts "diff" (str "")) (
    field "changed_files" (get_or artifacts "changed_files" (arr nil)) (
      field "lint_output" (get_or artifacts "lint_output" (obj end)) (
        field "typecheck_output" (get_or artifacts "typecheck_output" (obj end))
          (field "test_output" (get_or artifacts "test_output" (obj end)) rest))))

module _ {E : Type 0} where
  -- `try: m  except Exception`
  unfoldable pub caught : {A : Type 0} → Call E A → Call E (Result String A)
  caught m e = (ok (m e).0, (m e).1)

-- `str(item.get(key, ""))`
unfoldable pub text_field : (Json → String) → Fields → String → String
text_field repr item key = elim (get_or item key (str "")) [ str s ↦ s | j ↦ repr j ]

-- The loop of `_generate_repair_plan`.
unfoldable pub validated : (Json → String) → Items → Result String (List Modification)
unfolding text_field
validated repr nil = ok []
validated repr (cons (obj item) rest) =
    let path = strip (text_field repr item "path") in
    let others = validated repr rest in
    if not (truthy path) then err "repair modification missing path" else elim others [
      | err e ↦ err e
      | ok ms ↦ ok (
          (record {
            path = path;
            content = text_field repr item "content";
            rationale = strip (text_field repr item "rationale");
          })
          ∷ ms)
    ]
validated repr (cons j rest) = err "repair modification must be object"

unfoldable pub modifications : (Json → String) → Json → Result String (List Modification)
unfolding validated
modifications repr (arr (cons j r)) = validated repr (cons j r)
modifications repr _ = err "repair plan missing modifications"

-- The result of a repair that is given up.
unfoldable pub repair_failed : String → Fields → Fields
repair_failed reason rest =
    field "attempted" (bool true)
      (field "state" (str "repair_failed") (field "reason" (str reason) rest))

abbrev pub is_state : Fields → String → Bool
is_state result s = elim (get result "state") [ some (str t) ↦ str_eq t s | _ ↦ false ]

unfoldable pub out_of_bounds : List String → List Modification → List String
out_of_bounds allowed [] = []
out_of_bounds allowed (m ∷ ms) =
    if one_of m.path allowed then out_of_bounds allowed ms else m.path ∷ out_of_bounds allowed ms

unfoldable pub snoc : Items → Json → Items
snoc nil j = cons j nil
snoc (cons i r) j = cons i (snoc r j)

unfoldable pub plan_items : List Modification → Items
plan_items [] = nil
plan_items (m ∷ ms) =
    cons (obj (field "path" (str m.path) (field "rationale" (str m.rationale) end))) (plan_items ms)

module _ {E : Type 0} (o : Outside E) (repo task : String) where
  -- `_review`
  unfoldable pub review : DecisionState → CandidatePlan → Fields → Call E ReviewerVerdict
  unfolding evidence
  review decision candidate artifacts = do
    response ← o.chat "reviewer" "Return strict JSON for reviewer verdict." (
        obj (
          field "decision_state_summary" (str decision.issue_summary) (
            field "selected_candidate" (o.dump_candidate candidate)
              (evidence "diff" artifacts end))))
    content ← lift (message_content response (obj end))
    lift (o.validate_verdict (parse_model_json_content o.loads content))

  -- `_generate_repair_plan`
  unfoldable pub generate_repair_plan : Json → Call E (List Modification)
  unfolding modifications
  generate_repair_plan context = do
    response ←
        o.chat "builder"
          "Return strict JSON with key 'modifications'. Each item: {'path': str, 'content': str, 'rationale': str}. Only modify files that already appear in changed_files or candidate micro targets."
          context
    content ← lift (message_content response (obj end))
    lift (
        modifications o.repr
          (get_or (parse_model_json_content o.loads content) "modifications" (arr nil)))

  unfoldable pub repair_context : DecisionState → CandidatePlan → ReviewerVerdict → Fields → Json
  unfolding evidence
  repair_context decision candidate verdict artifacts = obj (
      field "decision_state_summary" (str decision.issue_summary) (
        field "selected_candidate" (o.dump_candidate candidate) (
          field "blocking_issues" (arr (strs verdict.blocking_issues)) (
            evidence "current_diff" artifacts
              (field "active_overlays" (get_or artifacts "active_overlays" (arr nil)) end)))))

  -- The loop of reads and writes; the result lists what was written.
  unfoldable pub write_all : Items → List Modification → Call E Items
  unfolding snoc
  write_all writes [] = pure writes
  write_all writes (m ∷ ms) = do
    before ← o.worker.read_file repo task m.path
    written ← o.worker.write_file repo task m.path m.content
    write_all
        (snoc writes (
          obj (
            field "path" (str m.path) (
              field "before_len" (int (pos (count_chars (or_else before ""))))
                (field "bytes_written" (int (pos (or_else written 0))) end)))))
        ms

  -- The worktree is reset and the repair is given up.
  unfoldable pub give_up : String → Fields → Call E Fields
  unfolding repair_failed
  give_up reason rest = do o.worker.reset_repo repo task; pure (repair_failed reason rest)

  -- By the files that the worker reports changed.
  unfoldable pub after_diff : List Modification → Items → Diff → List String → Call E Fields
  unfolding plan_items
  after_diff plan writes diff [] =
      give_up "repair_produced_no_diff" (field "writes" (arr writes) end)
  after_diff plan writes diff (f ∷ fs) = pure (
      field "attempted" (bool true) (
        field "state" (str "repaired_but_still_blocked") (
          field "writes" (arr writes) (
            field "repair_plan" (arr (plan_items plan)) (
              field "repair_diff" (str (or_else diff.diff ""))
                (field "repair_changed_files" (arr (strs (f ∷ fs))) end))))))

  unfoldable pub after_writes : List Modification → Items → Call E Fields
  after_writes plan writes = do
    diff ← o.worker.git_diff repo task
    after_diff plan writes diff (or_else diff.changed_files [])

  unfoldable pub after_write_loop : List Modification → Result String Items → Call E Fields
  after_write_loop plan (err text) = give_up "repair_write_failed" (field "error" (str text) end)
  after_write_loop plan (ok writes) = after_writes plan writes

  -- The paths that a repair may write.
  unfoldable pub allowed_paths : CandidatePlan → Fields → List String
  unfolding texts_of
  allowed_paths candidate artifacts =
      candidate.micro_targets.files
      ++ (candidate.micro_targets.tests ++ texts_of (get_or artifacts "changed_files" (arr nil)))

  -- By the paths of the plan that are out of bounds.
  unfoldable pub apply_plan : List String → List Modification → List String → Call E Fields
  apply_plan allowed plan [] = do result ← caught (write_all nil plan); after_write_loop plan result
  apply_plan allowed plan (p ∷ ps) = give_up "repair_path_out_of_bounds" (
      field "invalid_paths" (arr (strs (p ∷ ps)))
        (field "allowed_paths" (arr (strs (sorted_set allowed))) end))

  unfoldable pub with_plan : List String → Result String (List Modification) → Call E Fields
  with_plan allowed (err text) = give_up "repair_plan_parse_failed" (field "error" (str text) end)
  with_plan allowed (ok plan) = apply_plan allowed plan (out_of_bounds allowed plan)

  -- `_attempt_single_repair`
  unfoldable pub attempt_single_repair :
      DecisionState → CandidatePlan → ReviewerVerdict → Fields → Call E Fields
  attempt_single_repair decision candidate verdict artifacts = do
    plan ← caught (generate_repair_plan (repair_context decision candidate verdict artifacts))
    with_plan (allowed_paths candidate artifacts) plan
