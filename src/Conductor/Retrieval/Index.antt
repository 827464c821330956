-- ===== src/Conductor/Retrieval/Index.antt =====
-- apps/conductor/services/retrieval.py: `refresh_fts_from_memory_tables` and what it reads.
use agentic_coding_stack.Prelude.{
  ℕ, ◌+◌, String, Bool, true, false, not, ◌&&◌, ◌||◌, Option, none, some, List, [], ◌∷◌, ◌++◌, keep,
  map, length, str_eq, if◌then◌else◌,
}
use agentic_coding_stack.Base.Number.{pos}
use agentic_coding_stack.Base.Text.{strip, truthy, join}
use agentic_coding_stack.Base.Json.{
  Json, null, bool, int, str, arr, obj, Items, nil, cons, Fields, end, field, get,
}
use agentic_coding_stack.Base.Exec.{Result, ok, err, pure, lift, ◌>>=◌, ◌>>◌}
use agentic_coding_stack.Base.Chain.{◌>>>=◌}
use agentic_coding_stack.Shared.Parsing.{not_object}
use agentic_coding_stack.Conductor.Db.{
  JsonText, malformed, text_of, MemoryRow, OverlayRow, DecisionRow, FtsRow,
}
use agentic_coding_stack.Conductor.World.{Db, Action, query, write, raised}
use agentic_coding_stack.Conductor.Execution.Repair.{get_or}
use agentic_coding_stack.Conductor.Draft.{shown}
use agentic_coding_stack.Conductor.Overlay.Guidance.{is_falsy}

-- `_decode_metadata`
unfoldable pub decode_metadata : JsonText Json → Fields
decode_metadata (text_of (obj d)) = d
decode_metadata (malformed raw) = field "raw" (str raw) end
decode_metadata _ = end

-- `value or default`
abbrev pub or_value : Option Json → Json → Json
or_value none default = default
or_value (some j) default = if is_falsy j then default else j

-- What SQLite binds of a value; a list and a dict are refused.
unfoldable pub bind_text : Json → Result String Json
bind_text (bool true) = ok (int (pos 1))
bind_text (bool false) = ok (int (pos 0))
bind_text (arr items) = err "Error binding parameter: type 'list' is not supported"
bind_text (obj d) = err "Error binding parameter: type 'dict' is not supported"
bind_text j = ok j

-- `json_extract(metadata, '$.repo') = :repo`, which raises for a text that is not JSON.
abbrev pub names : Option Json → String → Bool
names (some (str s)) repo = str_eq s repo
names _ repo = false

unfoldable pub has_repo : String → JsonText Json → Result String Bool
has_repo repo (malformed raw) = err "malformed JSON"
has_repo repo (text_of (obj d)) = ok (names (get d "repo") repo)
has_repo repo _ = ok false

-- DELETE FROM memory_fts WHERE json_extract(metadata, '$.repo') = :repo
unfoldable pub delete_repo : String → List FtsRow → Result String (List FtsRow)
unfolding has_repo
delete_repo repo [] = ok []
delete_repo repo (row ∷ rows) = has_repo repo row.metadata >>>= λ gone.
    delete_repo repo rows >>>= λ rest. ok (if gone then rest else row ∷ rest)

-- The rows of a table that only grows, the oldest first, each under the id that it was given.
unfoldable pub numbered : {A : Type 0} → List A → List (ℕ × A)
numbered [] = []
numbered (newest ∷ older) = numbered older ++ (length older + 1, newest) ∷ []

abbrev pub metadata_of : String → String → Fields → JsonText Json
metadata_of repo table more =
    text_of (obj (field "repo" (str repo) (field "table" (str table) more)))

-- The rows of one of `table_specs`, from the repository and the text of each row.
unfoldable pub memory_rows :
    {A : Type 0} → String → String → (A → String) → (A → String) → List (ℕ × A) → List FtsRow
memory_rows repo table repo_of text_col [] = []
memory_rows repo table repo_of text_col ((id, row) ∷ rows) =
    let rest = memory_rows repo table repo_of text_col rows in
    if str_eq (repo_of row) repo && truthy (strip (text_col row))
    then (record {
      source = table;
      record_id = id;
      text = str (text_col row);
      metadata = metadata_of (repo_of row) table end;
    })
      ∷ rest
    else rest

unfoldable pub decision_rows : String → List (ℕ × DecisionRow) → List FtsRow
unfolding decode_metadata
decision_rows repo [] = []
decision_rows repo ((id, row) ∷ rows) =
    let issue_summary = get_or (decode_metadata row.payload) "issue_summary" null in
    let rest = decision_rows repo rows in
    if str_eq row.repo repo && not (is_falsy issue_summary)
    then (record {
      source = "decision_state";
      record_id = id;
      text = issue_summary;
      metadata = metadata_of row.repo "decision_state" end;
    })
      ∷ rest
    else rest

-- `for item in value`: the items of a list, the keys of a dict, the characters of a text.
unfoldable pub items_of : Items → List Json
items_of nil = []
items_of (cons x r) = x ∷ items_of r

unfoldable pub keys_of : Fields → List Json
keys_of end = []
keys_of (field k v r) = str k ∷ keys_of r

unfoldable pub chars_of : String → List Json
chars_of String.[] = []
chars_of (String.◌∷◌ c s) = str (String.◌∷◌ c String.[]) ∷ chars_of s

unfoldable pub iterate : Json → Result String (List Json)
unfolding items_of keys_of chars_of
iterate (arr items) = ok (items_of items)
iterate (obj d) = ok (keys_of d)
iterate (str s) = ok (chars_of s)
iterate j = err (not_object j "is not iterable")

-- `"\n".join([summary, *lines]).strip()`
abbrev joined : List String → Json → Result String String
joined lines (str summary) = ok (strip (join "\n" (summary ∷ lines)))
joined lines j = err "sequence item 0: expected str instance"

unfoldable pub text_blob : (Json → String) → Fields → Result String String
unfolding iterate
text_blob repr payload =
    let summary = or_value (get payload "summary") (str "") in
    iterate (or_value (get payload "guidance") (arr nil)) >>>= λ items.
    joined (keep (λ s. truthy (strip s)) (map (shown repr) items)) summary

-- The loop over `alias_rows` or `pair_rows`.
unfoldable pub overlay_rows :
    (Json → String)
    → String
    → String
    → String
    → String
    → List OverlayRow
    → Result String (List FtsRow)
unfolding decode_metadata text_blob
overlay_rows repr repo source table name_key [] = ok []
overlay_rows repr repo source table name_key (row ∷ rows) =
    let payload = decode_metadata row.payload in
    let rest = overlay_rows repr repo source table name_key rows in
    if not (str_eq row.repo repo) || is_falsy (obj payload)
    then rest
    else text_blob repr payload >>>= λ blob. rest >>>= λ others. ok (
        if truthy blob
        then (record {
          source = source;
          record_id = row.id;
          text = str blob;
          metadata = metadata_of row.repo table (
              field name_key (str row.name)
                (field "applies_to_tasks" (get_or payload "applies_to_tasks" (arr nil)) end));
        })
          ∷ others
        else others)

-- The rows that `refresh_fts_from_memory_tables` collects.
unfoldable pub collected : (Json → String) → String → Db → Result String (List FtsRow)
unfolding memory_rows decision_rows overlay_rows numbered
collected repr repo db =
    let summary : MemoryRow → String = λ row. row.summary_text in
    let repo_of : MemoryRow → String = λ row. row.repo in
    overlay_rows repr repo "alias_overlay" "alias_memory_state" "alias_name" db.alias_memory_state
    >>>= λ alias_rows.
        overlay_rows repr repo "pair_overlay" "pair_memory_state" "pair_key" db.pair_memory_state
        >>>= λ pair_rows. ok (
            memory_rows repo "chosen_memory" repo_of summary (numbered db.chosen_memory)
            ++ (memory_rows repo "frontier_memory" repo_of summary (numbered db.frontier_memory)
                ++ (memory_rows repo "residual_memory" repo_of summary (numbered db.residual_memory)
                    ++ (memory_rows repo "outcome_memory" (λ row. row.repo) (λ row. row.notes)
                          (numbered db.outcome_memory)
                        ++ (decision_rows repo (numbered db.decision_state)
                            ++ (alias_rows ++ pair_rows))))))

-- The loop of `ingest_memory_rows`: one INSERT for each row, with the text as it is bound.
unfoldable pub bound_rows : List FtsRow → Result String (List FtsRow)
unfolding bind_text
bound_rows [] = ok []
bound_rows (row ∷ rows) = bind_text row.text >>>= λ bound.
    bound_rows rows >>>= λ rest. ok ((record row { text = bound }) ∷ rest)

-- The deletion and the insertions are one transaction: a raise leaves the table as it was.
unfoldable pub refreshed : (Json → String) → String → Db → Result String (List FtsRow × ℕ)
unfolding delete_repo collected bound_rows
refreshed repr repo db = delete_repo repo db.memory_fts >>>= λ others.
    collected repr repo db >>>= λ rows.
    bound_rows rows >>>= λ added. ok (others ++ added, length added)

module _ {E : Type 0} where
  unfoldable pub refresh_fts_from_memory_tables : (Json → String) → String → Action E ℕ
  unfolding refreshed query write
  refresh_fts_from_memory_tables repr repo = do
    outcome ← query (refreshed repr repo)
    (rows, count) ← lift (raised outcome)
    write λ db. record db { memory_fts = rows }
    pure count
