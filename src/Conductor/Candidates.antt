-- ===== src/Conductor/Candidates.antt =====
-- apps/conductor/services/candidate_generation.py, and the route `generate_candidates` of
-- apps/conductor/main.py.
pub mod Bounded
use agentic_coding_stack.Prelude.{
  ℕ, String, Bool, not, Option, none, some, List, [], ◌∷◌, ◌++◌, map, keep, length, one_of,
  if◌then◌else◌,
}
use agentic_coding_stack.Base.Text.{join, concat}
use agentic_coding_stack.Base.Json.{Json, null, str, arr, obj, Fields, end, field, get, put, strs}
use agentic_coding_stack.Base.Exec.{Result, ok, err, pure, lift, ◌>>=◌}
use agentic_coding_stack.Shared.Schemas.{
  CandidatePlan, DecisionState, MemoryHit, CandidateGenerationRequest, CandidateGenerationResponse,
}
use agentic_coding_stack.Shared.Parsing.{parse_model_json_content, message_content}
use agentic_coding_stack.Conductor.World.{Call, Action, query, remote}
use agentic_coding_stack.Conductor.Outside.{Outside}
use agentic_coding_stack.Conductor.Feasibility.{FeasibilityResult, gate}
use agentic_coding_stack.Conductor.Frontier.{Floats}
use agentic_coding_stack.Conductor.Overlay.Service.{OverlayResolution, as_prompt_lines, resolve}
use agentic_coding_stack.Conductor.Retrieval.Search.{Finder, RetrievalBundle}
use agentic_coding_stack.Conductor.Retrieval.Query.{search}

abbrev pub builder_roles : List String
builder_roles =
    "minimal_patch" ∷ "test_first" ∷ "rollback_first" ∷ "refactor_first" ∷ "architecture_clean"
    ∷ "perf_aware" ∷ []

pub record CandidateGenerationResult : Type 0 where
  pub valid_candidates : List CandidatePlan
  pub rejected_candidates : List Fields

-- `payload.setdefault("role", role)`
abbrev pub set_default : Fields → String → Json → Fields
set_default d k v = elim (get d k) [ some j ↦ d | none ↦ put d k v ]

unfoldable pub overlay_lines : (Json → String) → Option OverlayResolution → List String
unfolding concat as_prompt_lines
overlay_lines repr none = []
overlay_lines repr (some r) =
    concat ("active_overlays=" ∷ repr (arr (strs r.active_overlays)) ∷ []) ∷ as_prompt_lines repr r

abbrev system_prompt : String
system_prompt =
    "Generate exactly one CandidatePlan JSON object for the assigned fixed role. Do not use weighted scalar frontier scoring; keep objective_vec as 5 separate values. Workers execute code only; do not delegate policy decisions to workers."

-- The message of the user in `_build_messages`.
unfoldable pub user_message :
    (Json → String) → DecisionState → String → Option OverlayResolution → String
unfolding overlay_lines concat join
user_message repr d role overlays = concat (
    "role="
    ∷ role
    ∷ "\nrepo="
    ∷ d.repo
    ∷ "\ntask_id="
    ∷ d.task_id
    ∷ "\nissue_summary="
    ∷ d.issue_summary
    ∷ "\nmacro_constraints="
    ∷ repr (arr (strs d.macro_constraints))
    ∷ "\nmeso_context="
    ∷ repr (arr (strs d.meso_context))
    ∷ "\nmicro_context="
    ∷ repr (arr (strs d.micro_context))
    ∷ "\n"
    ∷ join "\n" (overlay_lines repr overlays)
    ∷ [])

abbrev pub refused_by_gate : FeasibilityResult → Fields
refused_by_gate r =
    field "role" (str r.candidate.role) (
      field "reason" (str "feasibility_failed")
        (field "notes" (arr (strs r.certificate.notes)) end))

-- `validate` is `CandidatePlan.model_validate`, and gives `exc.errors()` of a ValidationError.
module _ {E : Type 0} (o : Outside E) (validate : Fields → Result Json CandidatePlan) where
  unfoldable pub extract_candidate_payload : Fields → String → Result String Fields
  extract_candidate_payload response role = elim (message_content response null) [
    | ok content ↦ ok (set_default (parse_model_json_content o.loads content) "role" (str role))
    | err text ↦ err text
  ]

  unfoldable pub sorted_out :
      String
      → Fields
      → Result Json CandidatePlan
      → CandidateGenerationResult
      → CandidateGenerationResult
  sorted_out role payload (ok candidate) r = record r {
    valid_candidates = r.valid_candidates ++ candidate ∷ [];
  }
  sorted_out role payload (err errors) r = record r {
    rejected_candidates =
        r.rejected_candidates
        ++ (field "role" (str role) (
            field "reason" (str "schema_validation_failed")
              (field "errors" errors (field "raw_payload" (obj payload) end))))
          ∷ [];
  }

  -- The loop of `generate`, from what is sorted out so far.
  unfoldable pub generate_from :
      DecisionState
      → Option OverlayResolution
      → List String
      → CandidateGenerationResult
      → Call E CandidateGenerationResult
  unfolding extract_candidate_payload user_message sorted_out
  generate_from decision overlays [] r = pure r
  generate_from decision overlays (role ∷ roles) r = do
    response ← o.chat "builder" system_prompt (str (user_message o.repr decision role overlays))
    payload ← lift (extract_candidate_payload response role)
    generate_from decision overlays roles (sorted_out role payload (validate payload) r)

  unfoldable pub generate :
      DecisionState → Option OverlayResolution → Call E CandidateGenerationResult
  unfolding generate_from
  generate decision overlays =
      generate_from decision overlays builder_roles
        (record { valid_candidates = []; rejected_candidates = [] })

  abbrev is_global : MemoryHit → Bool
  is_global hit = not (one_of hit.source ("alias_overlay" ∷ "pair_overlay" ∷ []))

  unfoldable pub generate_candidates :
      Floats → Finder E → CandidateGenerationRequest → Action E CandidateGenerationResponse
  unfolding query remote search resolve generate gate
  generate_candidates f p r = do
    let decision = r.decision_state
    rows ← query (λ db. db.memory_fts)
    bundle ← remote (
        search f p rows decision.issue_summary 3 (some decision.repo) (some decision.task_id)
          r.alias_name r.pair_key)
    overlays ←
        resolve o.repr decision.repo decision.task_id decision.macro_constraints
          (map (λ hit. hit.text) (keep is_global bundle.reranked)) r.alias_name r.pair_key
    generated ← remote (generate decision (some overlays))
    let (feasible, infeasible) = gate generated.valid_candidates
    pure (record {
      candidates = map (λ item. item.candidate) feasible;
      rejected = generated.rejected_candidates ++ map refused_by_gate infeasible;
      feasible_count = length feasible;
      infeasible_count = length infeasible;
      active_overlays = overlays.active_overlays;
    })
