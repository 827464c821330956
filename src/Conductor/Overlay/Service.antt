-- ===== src/Conductor/Overlay/Service.antt =====
-- apps/conductor/services/overlay_state.py: the upserts and the resolution.
use agentic_coding_stack.Prelude.{
  String, Option, none, some, List, [], ◌∷◌, ◌++◌, one_of, if◌then◌else◌,
}
use agentic_coding_stack.Base.Text.{truthy, concat}
use agentic_coding_stack.Base.Json.{Json, str, arr, Fields, end, field, strs}
use agentic_coding_stack.Base.Exec.{Result, ok, err, Error, crash, pure, lift, ◌>>=◌, ◌>>◌}
use agentic_coding_stack.Shared.Schemas.{
  OverlayRecord, AliasOverlayUpsertRequest, PairOverlayUpsertRequest,
}
use agentic_coding_stack.Conductor.Db.{OverlayRow}
use agentic_coding_stack.Conductor.World.{Action, query, write}
use agentic_coding_stack.Conductor.Overlay.Rows.{select_overlay, upsert_rows}
use agentic_coding_stack.Conductor.Overlay.Guidance.{decode_payload, guidance_for, payload_of}

pub record OverlayResolution : Type 0 where
  pub active_overlays : List String
  pub global_constraints : List String
  pub global_memory : List String
  pub alias_guidance : List String
  pub pair_guidance : List String

unfoldable pub as_prompt_lines : (Json → String) → OverlayResolution → List String
unfolding concat
as_prompt_lines repr r =
    concat ("global_constraints=" ∷ repr (arr (strs r.global_constraints)) ∷ [])
    ∷ concat ("global_memory=" ∷ repr (arr (strs r.global_memory)) ∷ [])
    ∷ concat ("alias_overlay=" ∷ repr (arr (strs r.alias_guidance)) ∷ [])
    ∷ concat ("pair_overlay=" ∷ repr (arr (strs r.pair_guidance)) ∷ [])
    ∷ []

-- `{k: v for k, v in payload.items() if k not in blocked_keys}`
unfoldable pub sanitize_overlay_payload : Fields → Fields
sanitize_overlay_payload end = end
sanitize_overlay_payload (field k v r) =
    let rest = sanitize_overlay_payload r in
    if one_of k ("messages" ∷ "prompt" ∷ "transcript" ∷ []) then rest else field k v rest

unfoldable pub overlay_payload : String → List String → List String → List String → Fields
unfolding sanitize_overlay_payload
overlay_payload summary guidance applies_to_tasks tags = sanitize_overlay_payload (
    field "summary" (str summary) (
      field "guidance" (arr (strs guidance)) (
        field "applies_to_tasks" (arr (strs applies_to_tasks))
          (field "tags" (arr (strs tags)) end))))

abbrev raised_as : {A : Type 0} → Result String A → Result Error A
raised_as (ok a) = ok a
raised_as (err text) = err (crash text)

-- `if alias_name:` and what is under it, for one of the two tables.
unfoldable pub resolve_overlay :
    (Json → String)
    → String
    → String
    → String
    → Option String
    → List OverlayRow
    → Result Error (List String × List String)
unfolding select_overlay guidance_for decode_payload
resolve_overlay repr repo task scope none rows = ok ([], [])
resolve_overlay repr repo task scope (some name) rows =
    if truthy name
    then raised_as (guidance_for repr task scope name (payload_of (select_overlay repo name rows)))
    else ok ([], [])

module _ {E : Type 0} where
  unfoldable pub upsert_alias_overlay : AliasOverlayUpsertRequest → Action E OverlayRecord
  unfolding write
  upsert_alias_overlay r = do
    let payload = overlay_payload r.summary r.guidance r.applies_to_tasks r.tags
    write λ db. record db {
      alias_memory_state = upsert_rows r.repo r.alias_name payload db.alias_memory_state;
    }
    pure (record {
      repo = r.repo;
      scope = "alias_local";
      name = r.alias_name;
      summary = r.summary;
      guidance = r.guidance;
      applies_to_tasks = r.applies_to_tasks;
      tags = r.tags;
    })

  unfoldable pub upsert_pair_overlay : PairOverlayUpsertRequest → Action E OverlayRecord
  unfolding write
  upsert_pair_overlay r = do
    let payload = overlay_payload r.summary r.guidance r.applies_to_tasks r.tags
    write λ db. record db {
      pair_memory_state = upsert_rows r.repo r.pair_key payload db.pair_memory_state;
    }
    pure (record {
      repo = r.repo;
      scope = "pair_local";
      name = r.pair_key;
      summary = r.summary;
      guidance = r.guidance;
      applies_to_tasks = r.applies_to_tasks;
      tags = r.tags;
    })

  unfoldable pub resolve :
      (Json → String)
      → String
      → String
      → List String
      → List String
      → Option String
      → Option String
      → Action E OverlayResolution
  unfolding query
  resolve repr repo task macro_constraints global_memory alias_name pair_key = do
    alias_rows ← query (λ db. db.alias_memory_state)
    (alias_guidance, alias_active) ←
        lift (resolve_overlay repr repo task "alias-local" alias_name alias_rows)
    pair_rows ← query (λ db. db.pair_memory_state)
    (pair_guidance, pair_active) ←
        lift (resolve_overlay repr repo task "pair-local" pair_key pair_rows)
    pure (record {
      active_overlays = alias_active ++ pair_active;
      global_constraints = macro_constraints;
      global_memory = global_memory;
      alias_guidance = alias_guidance;
      pair_guidance = pair_guidance;
    })
