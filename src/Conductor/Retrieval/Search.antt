-- ===== src/Conductor/Retrieval/Search.antt =====
-- apps/conductor/services/retrieval.py: the search, and the routes of apps/conductor/main.py over it.
use agentic_coding_stack.Prelude.{
  ℕ, ◌+◌, ◌-◌, String, Bool, true, false, not, ◌&&◌, ◌||◌, Option, none, some, List, [], ◌∷◌,
  length, get_elem?, one_of, str_eq, leb, if◌then◌else◌,
}
use agentic_coding_stack.Base.Number.{ℤ, pos, negsuc, Float}
use agentic_coding_stack.Base.Text.{truthy}
use agentic_coding_stack.Base.Json.{Json, bool, int, str, arr, obj, nil, Fields, get}
use agentic_coding_stack.Base.Exec.{Result, ok, err}
use agentic_coding_stack.Base.Chain.{◌>>>=◌}
use agentic_coding_stack.Shared.Schemas.{MemoryHit}
use agentic_coding_stack.Shared.Parsing.{not_object}
use agentic_coding_stack.Conductor.Db.{FtsRow}
use agentic_coding_stack.Conductor.World.{Call}
use agentic_coding_stack.Conductor.Execution.Repair.{get_or}
use agentic_coding_stack.Conductor.Overlay.Guidance.{is_falsy, in_set}
use agentic_coding_stack.Conductor.Retrieval.Index.{decode_metadata}

-- What the search takes from elsewhere: `ranked q k` is the MATCH query ordered by rank, with
-- -rank as a float beside each row; `embed` and `rerank` are the calls of `OMLXClient`; `to_float` is
-- Python's `float`, `square_root` is `x ** 0.5`.
pub record Finder (E : Type 0) : Type 0 where
  pub ranked : String → ℕ → List FtsRow → Result String (List (FtsRow × Float))
  pub embed : String → List String → Call E (List (List Float))
  pub rerank : String → String → List String → Call E (List Json)
  pub to_float : Json → Result String Float
  pub square_root : Float → Float

pub record RetrievalBundle : Type 0 where
  pub lexical : List MemoryHit
  pub embedding : List MemoryHit
  pub reranked : List MemoryHit

-- `MemoryHit(...)`, whose text has to be a text.
unfoldable pub hit_of : FtsRow × Float → Result String MemoryHit
unfolding decode_metadata
hit_of (row, score) = elim row.text [
  | str s ↦ ok (record {
    source = row.source;
    record_id = row.record_id;
    text = s;
    score = score;
    metadata = decode_metadata row.metadata;
  })
  | j ↦ err "validation error for MemoryHit"
]

unfoldable pub hits_of : List (FtsRow × Float) → Result String (List MemoryHit)
unfolding hit_of
hits_of [] = ok []
hits_of (row ∷ rows) = hit_of row >>>= λ hit. hits_of rows >>>= λ hits. ok (hit ∷ hits)

abbrev pub given : Option String → Bool
given none = false
given (some s) = truthy s

-- `metadata.get(key) == name` for a name that is given.
abbrev pub holds_name : Fields → String → Option String → Bool
holds_name metadata key none = false
holds_name metadata key (some name) = elim (get metadata key) [
  | some (str s) ↦ truthy name && str_eq s name
  | _ ↦ false
]

-- `repo and metadata.get("repo") and metadata.get("repo") != repo`
abbrev pub is_foreign : Fields → Option String → Bool
is_foreign metadata none = false
is_foreign metadata (some repo) = elim (get metadata "repo") [
  | none ↦ false
  | some (str s) ↦ truthy repo && truthy s && not (str_eq s repo)
  | some j ↦ truthy repo && not (is_falsy j)
]

-- `tasks and task_id and task_id not in set(tasks)`
unfoldable pub is_for_others : Json → Option String → Result String Bool
unfolding in_set
is_for_others tasks none = ok false
is_for_others tasks (some task) =
    if is_falsy tasks || not (truthy task)
    then ok false
    else in_set task tasks >>>= λ found. ok (not found)

unfoldable pub is_overlay_hit_relevant :
    MemoryHit → Option String → Option String → Option String → Option String → Result String Bool
unfolding is_for_others
is_overlay_hit_relevant hit repo task alias_name pair_key =
    if not (one_of hit.source ("alias_overlay" ∷ "pair_overlay" ∷ []))
    then ok true
    else if is_foreign hit.metadata repo
    then ok false
    else is_for_others (get_or hit.metadata "applies_to_tasks" (arr nil)) task >>>= λ others. ok (
        not others
        && (if str_eq hit.source "alias_overlay"
            then holds_name hit.metadata "alias_name" alias_name
            else holds_name hit.metadata "pair_key" pair_key))

unfoldable pub relevant_hits :
    Option String
    → Option String
    → Option String
    → Option String
    → List MemoryHit
    → Result String (List MemoryHit)
unfolding is_overlay_hit_relevant
relevant_hits repo task alias_name pair_key [] = ok []
relevant_hits repo task alias_name pair_key (hit ∷ hits) =
    is_overlay_hit_relevant hit repo task alias_name pair_key >>>= λ relevant.
    relevant_hits repo task alias_name pair_key hits >>>= λ rest.
    ok (if relevant then hit ∷ rest else rest)

-- `hit.model_copy(update={"score": score})`
abbrev pub rescored : Float → MemoryHit → MemoryHit
rescored score hit = record hit { score = score }

-- `hits.sort(key=lambda h: h.score, reverse=True)`, which is stable: a hit goes in front of the first
-- one with a smaller score.
unfoldable pub insert_hit : (Float → Float → Bool) → MemoryHit → List MemoryHit → List MemoryHit
insert_hit lt hit [] = hit ∷ []
insert_hit lt hit (h ∷ hs) =
    if lt h.score hit.score then hit ∷ (h ∷ hs) else h ∷ insert_hit lt hit hs

unfoldable pub sort_from : (Float → Float → Bool) → List MemoryHit → List MemoryHit → List MemoryHit
unfolding insert_hit
sort_from lt sorted [] = sorted
sort_from lt sorted (hit ∷ hits) = sort_from lt (insert_hit lt hit sorted) hits

unfoldable pub sort_hits : (Float → Float → Bool) → List MemoryHit → List MemoryHit
unfolding sort_from
sort_hits lt hits = sort_from lt [] hits

abbrev pub entry : Option MemoryHit → Result String MemoryHit
entry none = err "list index out of range"
entry (some hit) = ok hit

-- `hits[item["index"]]`: a negative index counts from the end, and True is 1.
unfoldable pub hit_at : List MemoryHit → ℤ → Result String MemoryHit
hit_at hits (pos n) = entry (get_elem? hits n)
hit_at hits (negsuc n) =
    if leb (n + 1) (length hits) then entry (get_elem? hits (length hits - (n + 1))) else entry none

abbrev pub index_of : Json → Result String ℤ
index_of (int i) = ok i
index_of (bool b) = ok (pos (if b then 1 else 0))
index_of j = err (not_object j "is not a list index")

abbrev pub key_of : Json → String → Result String Json
key_of (obj d) k = elim (get d k) [ some v ↦ ok v | none ↦ err k ]
key_of j k = err (not_object j "is not subscriptable")

-- The loop of `rerank`.
unfoldable pub mapped_hits :
    (Json → Result String Float) → List MemoryHit → List Json → Result String (List MemoryHit)
unfolding hit_at
mapped_hits to_float hits [] = ok []
mapped_hits to_float hits (item ∷ items) = key_of item "index" >>>= λ j. index_of j >>>= λ i.
    hit_at hits i >>>= λ original. key_of item "score" >>>= λ s. to_float s >>>= λ score.
    mapped_hits to_float hits items >>>= λ rest. ok (rescored score original ∷ rest)
