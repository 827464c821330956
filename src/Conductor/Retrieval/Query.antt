-- ===== src/Conductor/Retrieval/Query.antt =====
-- apps/conductor/services/retrieval.py: the three stages of a query, and in apps/conductor/main.py
-- the routes `query_memory` and `ingest_memory`.
use agentic_coding_stack.Prelude.{
  ℕ, ◌*◌, String, ◌&&◌, ◌||◌, Option, none, some, List, [], ◌∷◌, ◌++◌, map, take, str_eq,
  if◌then◌else◌,
}
use agentic_coding_stack.Base.Number.{Float}
use agentic_coding_stack.Base.Text.{truthy, concat}
use agentic_coding_stack.Base.Json.{Json}
use agentic_coding_stack.Base.Exec.{Result, ok, err, pure, lift, ◌>>=◌}
use agentic_coding_stack.Shared.Schemas.{MemoryHit, MemoryQueryRequest, MemoryQueryResponse}
use agentic_coding_stack.Conductor.Db.{FtsRow}
use agentic_coding_stack.Conductor.World.{Call, Action, query, remote}
use agentic_coding_stack.Conductor.Frontier.{Floats, products}
use agentic_coding_stack.Conductor.Retrieval.Index.{refresh_fts_from_memory_tables}
use agentic_coding_stack.Conductor.Retrieval.Search.{
  Finder, RetrievalBundle, hits_of, given, relevant_hits, rescored, sort_hits, mapped_hits,
}

-- `self.omlx_client.embed("mem-embed", [text])[0]`
abbrev first_vector : List (List Float) → Result String (List Float)
first_vector [] = err "list index out of range"
first_vector (v ∷ vs) = ok v

module _ {E : Type 0} (f : Floats) (p : Finder E) where
  unfoldable pub cosine : List Float → List Float → Float
  cosine lhs rhs =
      let dot = f.sum_of (products f lhs rhs) in
      let l_norm = p.square_root (f.sum_of (map (λ a. f.mul a a) lhs)) in
      let r_norm = p.square_root (f.sum_of (map (λ b. f.mul b b) rhs)) in
      if f.eq l_norm (f.of_ℕ 0) || f.eq r_norm (f.of_ℕ 0)
      then f.of_ratio 0 1
      else f.div dot (f.mul l_norm r_norm)

  unfoldable pub lexical_search : List FtsRow → String → ℕ → Result String (List MemoryHit)
  lexical_search rows text top_k = elim (p.ranked text top_k rows) [
    | ok found ↦ hits_of (take top_k found)
    | err problem ↦ err problem
  ]

  unfoldable pub embed_one : String → Call E (List Float)
  embed_one text = do vectors ← p.embed "mem-embed" (text ∷ []); lift (first_vector vectors)

  -- The loop of `embedding_search`.
  unfoldable pub rescored_hits : List Float → List MemoryHit → Call E (List MemoryHit)
  unfolding embed_one cosine
  rescored_hits query_embedding [] = pure []
  rescored_hits query_embedding (hit ∷ hits) = do
    reference ← embed_one hit.text
    rest ← rescored_hits query_embedding hits
    pure (rescored (cosine query_embedding reference) hit ∷ rest)

  unfoldable pub embedding_search : String → List MemoryHit → ℕ → Call E (List MemoryHit)
  unfolding rescored_hits
  embedding_search text [] top_k = pure []
  embedding_search text (hit ∷ hits) top_k = do
    query_embedding ← embed_one text
    all_rescored ← rescored_hits query_embedding (hit ∷ hits)
    pure (take top_k (sort_hits f.lt all_rescored))

  -- `MemoryRetrievalService.rerank`
  unfoldable pub rerank_hits : String → List MemoryHit → ℕ → Call E (List MemoryHit)
  rerank_hits text [] top_k = pure []
  rerank_hits text (hit ∷ hits) top_k = do
    items ← p.rerank "mem-rerank" text (map (λ h. h.text) (hit ∷ hits))
    lift (mapped_hits p.to_float (hit ∷ hits) (take top_k items))

  unfoldable pub boost : Option String → Option String → MemoryHit → MemoryHit
  boost alias_name pair_key hit =
      let score =
        if str_eq hit.source "alias_overlay" && given alias_name
        then f.add hit.score (f.of_ratio 10 100)
        else hit.score in
      rescored
        (if str_eq hit.source "pair_overlay" && given pair_key
          then f.add score (f.of_ratio 15 100)
          else score)
        hit

  unfoldable pub apply_overlay_boosts :
      Option String → Option String → List MemoryHit → List MemoryHit
  unfolding boost
  apply_overlay_boosts alias_name pair_key hits = map (boost alias_name pair_key) hits

  -- `MemoryRetrievalService.query`, over the rows of the full-text table.
  unfoldable pub search :
      List FtsRow
      → String
      → ℕ
      → Option String
      → Option String
      → Option String
      → Option String
      → Call E RetrievalBundle
  unfolding lexical_search embedding_search rerank_hits apply_overlay_boosts
  search rows text top_k repo task alias_name pair_key = do
    found ← lift (lexical_search rows text (top_k * 2))
    lexical ← lift (relevant_hits repo task alias_name pair_key found)
    embedding ← embedding_search text lexical (top_k * 2)
    reranked ← rerank_hits text embedding top_k
    pure (record {
      lexical = lexical;
      embedding = embedding;
      reranked = sort_hits f.lt (apply_overlay_boosts alias_name pair_key reranked);
    })

  abbrev overlay_label : String → Option String → List String
  overlay_label scope none = []
  overlay_label scope (some name) = if truthy name then concat (scope ∷ name ∷ []) ∷ [] else []

  unfoldable pub query_memory : MemoryQueryRequest → Action E MemoryQueryResponse
  unfolding query remote search concat
  query_memory r = do
    rows ← query (λ db. db.memory_fts)
    bundle ← remote (search rows r.query r.top_k (some r.repo) none r.alias_name r.pair_key)
    pure (record {
      hits = bundle.reranked;
      applied_overlays =
          overlay_label "alias-local:" r.alias_name ++ overlay_label "pair-local:" r.pair_key;
    })

-- The number of rows that `/memory/ingest` reports.
unfoldable pub ingest_memory : {E : Type 0} → (Json → String) → String → Action E ℕ
unfolding refresh_fts_from_memory_tables
ingest_memory repr repo = refresh_fts_from_memory_tables repr repo
