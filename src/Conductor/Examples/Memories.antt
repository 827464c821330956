-- ===== src/Conductor/Examples/Memories.antt =====
-- Examples of the overlays, of retrieval and of the generation of candidates.
use agentic_coding_stack.Prelude.{
  ℕ, String, ◌≡◌, refl, true, false, str_eq, none, some, List, [], ◌∷◌, keep, map, arith,
  if◌then◌else◌,
}
use agentic_coding_stack.Base.Number.{pos, Float}
use agentic_coding_stack.Base.Text.{concat, strip, join, count_chars}
use agentic_coding_stack.Base.Json.{Json, null, int, str, obj, Fields, end, field, get}
use agentic_coding_stack.Base.Exec.{Result, ok, err, Error, pure}
use agentic_coding_stack.Shared.Schemas.{
  CandidatePlan, AliasOverlayUpsertRequest, PairOverlayUpsertRequest, MemoryHit, MemoryQueryRequest,
  CandidateGenerationRequest, CandidateGenerationResponse,
}
use agentic_coding_stack.Conductor.Db.{OverlayRow, FtsRow, text_of}
use agentic_coding_stack.Conductor.World.{World}
use agentic_coding_stack.Conductor.Overlay.Rows.{upsert_rows}
use agentic_coding_stack.Conductor.Overlay.Service.{
  upsert_alias_overlay, upsert_pair_overlay, resolve, resolve_overlay,
}
use agentic_coding_stack.Shared.Parsing.{message_content, parse_model_json_content}
use agentic_coding_stack.Conductor.Feasibility.{certify}
use agentic_coding_stack.Conductor.Overlay.Kept.{
  DistinctIds, payload_at, same_key, payload_at-upsert_rows,
}
use agentic_coding_stack.Conductor.Overlay.Resolved.{resolve-upsert_overlays}
use agentic_coding_stack.Conductor.Retrieval.Index.{refresh_fts_from_memory_tables}
use agentic_coding_stack.Conductor.Retrieval.Refresh.{is_other, refresh-refresh}
use agentic_coding_stack.Conductor.Retrieval.Search.{
  Finder, hits_of, relevant_hits, sort_hits, mapped_hits,
}
use agentic_coding_stack.Conductor.Retrieval.Query.{query_memory}
use agentic_coding_stack.Conductor.Retrieval.Relevant.{Answer, query_memory-Answer}
use agentic_coding_stack.Conductor.Candidates.{generate_candidates}
use agentic_coding_stack.Conductor.Candidates.Bounded.{Promised, generate_candidates-Promised}
use agentic_coding_stack.Conductor.Examples.Worlds.{
  Written, float_of, outside, candidate, decision, world, floats,
}

abbrev overlay : ℕ → String → OverlayRow
overlay id name = record {
  id = id;
  repo = "repo";
  name = name;
  payload = text_of (obj (field "a" null end));
}

abbrev overlays : List OverlayRow
overlays = overlay 1 "builder" ∷ overlay 2 "reviewer" ∷ []

ids_differ : DistinctIds overlays
ids_differ = ((omega arith, tt), (tt, tt))

abbrev payload : Fields
payload = field "b" null end

payload_at-upsert_rows_example :
    DistinctIds (upsert_rows "repo" "reviewer" payload overlays)
    × ((repo' name' : String)
        → payload_at repo' name' (upsert_rows "repo" "reviewer" payload overlays) ≡ (
            if same_key "repo" "reviewer" repo' name'
            then payload
            else payload_at repo' name' overlays))
payload_at-upsert_rows_example =
    payload_at-upsert_rows "repo" "reviewer" payload overlays ids_differ

abbrev alias_request : AliasOverlayUpsertRequest
alias_request = record {
  repo = "repo";
  alias_name = "builder";
  summary = " small diffs ";
  guidance = "no renames" ∷ " " ∷ [];
  applies_to_tasks = "task" ∷ [];
  tags = [];
}

abbrev pair_request : PairOverlayUpsertRequest
pair_request = record {
  repo = "repo";
  pair_key = "builder:reviewer";
  summary = "";
  guidance = "explain" ∷ [];
  applies_to_tasks = "other" ∷ [];
  tags = [];
}

abbrev guided : World Written
guided = record world { db = record world.db { alias_memory_state = overlays } }

resolve-upsert_overlays_example :
    let w' = (upsert_pair_overlay pair_request (upsert_alias_overlay alias_request guided).1).1 in
    (resolve
      (λ j. "")
      "repo"
      "task"
      ("rule" ∷ [])
      []
      (some "builder")
      (some "builder:reviewer")
      w').0
    ≡ ok (record {
      active_overlays = "alias-local:builder" ∷ [];
      global_constraints = "rule" ∷ [];
      global_memory = [];
      alias_guidance = "small diffs" ∷ "no renames" ∷ [];
      pair_guidance = [];
    })
unfolding concat strip
resolve-upsert_overlays_example =
    resolve-upsert_overlays (λ j. "") "task" ("rule" ∷ []) [] alias_request pair_request guided
      ids_differ tt refl refl refl

abbrev row : String → String → FtsRow
row repo text = record {
  source = "chosen_memory";
  record_id = 1;
  text = str text;
  metadata = text_of (obj (field "repo" (str repo) end));
}

-- A chosen memory and an overlay to be found, and two rows of the full-text table.
abbrev remembering : World Written
remembering = record guided {
  db = record guided.db {
    chosen_memory = (record { repo = "repo"; payload = end; summary_text = "chosen" }) ∷ [];
    alias_memory_state =
        (record {
          id = 3;
          repo = "repo";
          name = "builder";
          payload = text_of (obj (field "summary" (str "small") end));
        })
        ∷ [];
    memory_fts = row "else" "kept" ∷ row "repo" "old" ∷ [];
  };
}

abbrev shown_as_nothing : Json → String
shown_as_nothing j = ""

refreshes : (refresh_fts_from_memory_tables shown_as_nothing "repo" remembering).0 ≡ ok 2
unfolding refresh_fts_from_memory_tables strip join
refreshes = refl

abbrev refreshed_world : World Written
refreshed_world = (refresh_fts_from_memory_tables shown_as_nothing "repo" remembering).1

refresh-refresh_example :
    (refresh_fts_from_memory_tables shown_as_nothing "repo" refreshed_world
      ≡ (ok 2, refreshed_world))
    × (keep (is_other "repo") refreshed_world.db.memory_fts
        ≡ keep (is_other "repo") remembering.db.memory_fts)
    × ((record refreshed_world {
      db = record refreshed_world.db { memory_fts = remembering.db.memory_fts };
    })
        ≡ remembering)
refresh-refresh_example = refresh-refresh shown_as_nothing "repo" remembering refreshes

-- Every row is found; the model ranks the second hit first.
abbrev finder : Finder Written
finder = record {
  ranked = λ q k rows. ok (map (λ r. (r, float_of 1)) rows);
  embed = λ alias texts. pure ((float_of 1 ∷ []) ∷ []);
  rerank = λ alias q texts. pure (
      obj (field "index" (int (pos 1)) (field "score" null end))
      ∷ obj (field "index" (int (pos 0)) (field "score" null end))
      ∷ []);
  to_float = λ j. ok (float_of 3);
  square_root = λ x. x;
}

-- The overlay of another alias stands in front of two memories.
abbrev searched : World Written
searched = record world {
  db = record world.db {
    memory_fts =
        (record {
          source = "alias_overlay";
          record_id = 7;
          text = str "foreign";
          metadata = text_of (obj (field "alias_name" (str "reviewer") end));
        })
        ∷ row "repo" "one"
        ∷ row "repo" "two"
        ∷ [];
  };
}

abbrev memory_request : MemoryQueryRequest
memory_request = record {
  repo = "repo";
  query = "plan";
  alias_name = some "builder";
  pair_key = none;
  top_k = 2;
}

abbrev hit : String → MemoryHit
hit text = record {
  source = "chosen_memory";
  record_id = 1;
  text = text;
  score = float_of 3;
  metadata = field "repo" (str "repo") end;
}

queried :
    (query_memory floats finder memory_request searched).0
    ≡ ok (record {
      hits = hit "two" ∷ hit "one" ∷ [];
      applied_overlays = "alias-local:builder" ∷ [];
    })
unfolding query_memory concat hits_of relevant_hits sort_hits mapped_hits
queried = refl

lt_asym : (x y : Float) → floats.lt x y ≡ true → floats.lt y x ≡ false
lt_asym x y h = ground (arith, h)

query_memory-Answer_example :
    Answer floats.lt (some "repo") (some "builder") none 2 (hit "two" ∷ hit "one" ∷ [])
query_memory-Answer_example =
    query_memory-Answer floats finder lt_asym memory_request searched queried

abbrev generation_request : CandidateGenerationRequest
generation_request = record {
  decision_state = decision;
  alias_name = some "builder";
  pair_key = none;
}

-- The schema refuses what one role answers, and two plans are refused by the gate.
abbrev validate : Fields → Result Json CandidatePlan
validate d = elim (get d "role") [
  | some (str role) ↦
      if str_eq role "test_first"
      then err null
      else ok (
          if str_eq role "perf_aware"
          then record (candidate role 1 1) { test_plan = [] }
          else candidate role 1 1)
  | _ ↦ err null
]

abbrev generation : Result Error CandidateGenerationResponse
generation =
    (generate_candidates (outside true) validate floats finder generation_request searched).0

abbrev answered : Result Error CandidateGenerationResponse → CandidateGenerationResponse
answered (ok response) = response
answered (err e) = record {
  candidates = [];
  rejected = [];
  feasible_count = 0;
  infeasible_count = 0;
  active_overlays = [];
}

generates : generation ≡ ok (answered generation)
unfolding generate_candidates hits_of relevant_hits sort_hits mapped_hits resolve_overlay
    message_content
generates = refl

generate_candidates-Promised_example : Promised (outside true) validate (answered generation)
generate_candidates-Promised_example =
    generate_candidates-Promised (outside true) validate floats finder generation_request searched
      generates

four_pass : (answered generation).feasible_count ≡ 4
unfolding generate_candidates hits_of relevant_hits sort_hits mapped_hits resolve_overlay
    message_content parse_model_json_content certify strip count_chars
four_pass = refl
