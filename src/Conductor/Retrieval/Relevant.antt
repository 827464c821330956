-- ===== src/Conductor/Retrieval/Relevant.antt =====
-- What a query answers: how many hits, in which order, and whose overlays.
use mathlib.Core.Path.{subst}
use agentic_coding_stack.Prelude.{
  ℕ, ◌≤◌, ◌+◌, ◌*◌, String, ◌≡◌, refl, Bool, true, false, not, ◌&&◌, Bool-cases, inl, inr, Option,
  none, some, List, [], ◌∷◌, All, length, str_eq, eq_iff, arith, if◌then◌else◌, one_of,
}
use agentic_coding_stack.Base.Number.{Float}
use agentic_coding_stack.Base.Json.{arr, nil}
use agentic_coding_stack.Conductor.Execution.Repair.{get_or}
use agentic_coding_stack.Base.Exec.{Result, ok, err, lift}
use agentic_coding_stack.Base.Chain.{◌>>>=◌, Gives, Gives-ok, Gives-at, Gives-chain}
use agentic_coding_stack.Base.Triple.{
  Post, Triple, Triple-bind, Triple-pure, Triple-any, Triple-lift, Triple-begin,
}
use agentic_coding_stack.Shared.Schemas.{MemoryHit, MemoryQueryRequest, MemoryQueryResponse}
use agentic_coding_stack.Conductor.World.{World, query, remote}
use agentic_coding_stack.Conductor.Frontier.{Floats}
use agentic_coding_stack.Conductor.Db.{FtsRow}
use agentic_coding_stack.Conductor.Retrieval.Stages.{
  sort_from-All, embedding_search-All, rerank_hits-All, boosted-All,
}
use agentic_coding_stack.Conductor.Retrieval.Search.{
  Finder, RetrievalBundle, holds_name, is_foreign, is_for_others, is_overlay_hit_relevant,
  relevant_hits, rescored, insert_hit, sort_from, sort_hits,
}
use agentic_coding_stack.Conductor.Retrieval.Query.{
  apply_overlay_boosts, lexical_search, search, query_memory,
}

-- An alias overlay is of the alias, a pair overlay of the pair, neither of another repository.
pub record Fits (repo alias_name pair_key : Option String) (hit : MemoryHit) : Type 0 where
  pub of_alias :
      str_eq hit.source "alias_overlay" ≡ true
      → holds_name hit.metadata "alias_name" alias_name ≡ true
  pub of_pair :
      str_eq hit.source "pair_overlay" ≡ true → holds_name hit.metadata "pair_key" pair_key ≡ true
  pub at_home :
      one_of hit.source ("alias_overlay" ∷ "pair_overlay" ∷ []) ≡ true
      → is_foreign hit.metadata repo ≡ false

eq_true : (s t : String) → str_eq s t ≡ true → s ≡ t
eq_true s t e = ground (arith, e, eq_iff s t)

right_true : (a b : Bool) → a && b ≡ true → b ≡ true
right_true true b h = h
right_true false b h = cc

unless_others :
    {P : Type 0} (checked : Result String Bool) (b : Bool)
    → (b ≡ true → P)
    → Gives (λ c. c ≡ true → P) (checked >>>= λ others. ok (not others && b))
unless_others checked b k =
    Gives-at checked (λ others e. Gives-ok _ (λ h. k (right_true (not others) b h)))

relevant-Fits :
    (repo task alias_name pair_key : Option String) (hit : MemoryHit)
    → Gives
        (λ b. b ≡ true → Fits repo alias_name pair_key hit)
        (is_overlay_hit_relevant hit repo task alias_name pair_key)
unfolding is_overlay_hit_relevant
relevant-Fits repo task alias_name pair_key hit =
    let tasks = get_or hit.metadata "applies_to_tasks" (arr nil) in
    let FitsHit : Type 0 = Fits repo alias_name pair_key hit in
    let refused : Gives (λ c. c ≡ true → FitsHit) (ok false) = Gives-ok false (λ h. cc) in
    elim (Bool-cases (str_eq hit.source "alias_overlay")) [
      | inl a ↦
          let p : str_eq hit.source "pair_overlay" ≡ false =
            rw (eq_true hit.source "alias_overlay" a) refl in
          elim (Bool-cases (is_foreign hit.metadata repo)) [
            | inl e ↦ rw (a, e) refused
            | inr e ↦
                rw (a, e)
                  (unless_others (is_for_others tasks task)
                    (holds_name hit.metadata "alias_name" alias_name)
                    (λ q. record { of_alias = λ u. q; of_pair = λ u. cc; at_home = λ u. e }))
          ]
      | inr a ↦ elim (Bool-cases (str_eq hit.source "pair_overlay")) [
        | inl p ↦ elim (Bool-cases (is_foreign hit.metadata repo)) [
          | inl e ↦ rw (a, p, e) refused
          | inr e ↦
              rw (a, p, e)
                (unless_others (is_for_others tasks task)
                  (holds_name hit.metadata "pair_key" pair_key)
                  (λ q. record { of_alias = λ u. cc; of_pair = λ u. q; at_home = λ u. e }))
        ]
        | inr p ↦
            rw (a, p)
              (Gives-ok true (λ h. record {
                of_alias = λ q. cc;
                of_pair = λ q. cc;
                at_home = λ q. cc (rw (a, p) at q);
              }))
      ]
    ]

relevant_hits-Fits :
    (repo task alias_name pair_key : Option String) (hits : List MemoryHit)
    → Gives (All (Fits repo alias_name pair_key)) (relevant_hits repo task alias_name pair_key hits)
unfolding relevant_hits
relevant_hits-Fits repo task alias_name pair_key [] = Gives-ok [] tt
relevant_hits-Fits repo task alias_name pair_key (hit ∷ hits) =
    Gives-chain (relevant-Fits repo task alias_name pair_key hit) (λ relevant fits.
      Gives-chain (relevant_hits-Fits repo task alias_name pair_key hits)
        (λ rest all. Gives-ok _ (joined relevant rest fits all)))
  where
    joined :
        (b : Bool) (rest : List MemoryHit)
        → (b ≡ true → Fits repo alias_name pair_key hit)
        → All (Fits repo alias_name pair_key) rest
        → All (Fits repo alias_name pair_key) (if b then hit ∷ rest else rest)
    joined true rest fits all = (fits refl, all)
    joined false rest fits all = all

-- From the largest score to the smallest one.
abbrev pub Descending : (Float → Float → Bool) → List MemoryHit → Type 0
Descending lt [] = Unit
Descending lt (h ∷ []) = Unit
Descending lt (h ∷ (k ∷ ks)) = (lt h.score k.score ≡ false) × Descending lt (k ∷ ks)

module _ (lt : Float → Float → Bool) (asym : (x y : Float) → lt x y ≡ true → lt y x ≡ false) where
  -- A hit is inserted behind `h`, which is not smaller.
  insert_behind :
      (h hit : MemoryHit) (hits : List MemoryHit)
      → lt h.score hit.score ≡ false
      → Descending lt (h ∷ hits)
      → Descending lt (h ∷ insert_hit lt hit hits)
  unfolding insert_hit
  insert_behind h hit [] e d = (e, tt)
  insert_behind h hit (k ∷ ks) e d = elim (Bool-cases (lt k.score hit.score)) [
    | inl s ↦ rw s (e, (asym k.score hit.score s, d.1))
    | inr s ↦ rw s (d.0, insert_behind k hit ks s d.1)
  ]

  insert-Descending :
      (hit : MemoryHit) (hits : List MemoryHit)
      → Descending lt hits
      → Descending lt (insert_hit lt hit hits)
  unfolding insert_hit
  insert-Descending hit [] d = tt
  insert-Descending hit (h ∷ hs) d = elim (Bool-cases (lt h.score hit.score)) [
    | inl s ↦ rw s (asym h.score hit.score s, d)
    | inr s ↦ rw s (insert_behind h hit hs s d)
  ]

  sort_from-Descending :
      (sorted hits : List MemoryHit)
      → Descending lt sorted
      → Descending lt (sort_from lt sorted hits)
  unfolding sort_from
  sort_from-Descending sorted [] d = d
  sort_from-Descending sorted (hit ∷ hits) d =
      sort_from-Descending (insert_hit lt hit sorted) hits (insert-Descending hit sorted d)

length-insert :
    (lt : Float → Float → Bool) (hit : MemoryHit) (hits : List MemoryHit)
    → length (insert_hit lt hit hits) ≡ length hits + 1
unfolding insert_hit
length-insert lt hit [] = omega arith
length-insert lt hit (h ∷ hs) = ground (arith, length-insert lt hit hs)

length-sort_from :
    (lt : Float → Float → Bool) (sorted hits : List MemoryHit)
    → length (sort_from lt sorted hits) ≡ length sorted + length hits
unfolding sort_from
length-sort_from lt sorted [] = omega arith
length-sort_from lt sorted (hit ∷ hits) =
    omega (arith, length-sort_from lt (insert_hit lt hit sorted) hits, length-insert lt hit sorted)

-- What `search` promises of the hits that it returns.
pub record Answer (lt : Float → Float → Bool) (repo alias_name pair_key : Option String) (top_k : ℕ)
    (hits : List MemoryHit) : Type 0 where
  pub at_most : length hits ≤ top_k
  pub descending : Descending lt hits
  pub fitting : All (Fits repo alias_name pair_key) hits

Fits-rescored :
    (repo alias_name pair_key : Option String) (hit : MemoryHit) (x : Float)
    → Fits repo alias_name pair_key hit
    → Fits repo alias_name pair_key (rescored x hit)
Fits-rescored repo alias_name pair_key hit x p = record {
  of_alias = p.of_alias;
  of_pair = p.of_pair;
  at_home = p.at_home;
}

module _ {E : Type 0} (f : Floats) (p : Finder E)
    (asym : (x y : Float) → f.lt x y ≡ true → f.lt y x ≡ false) where
  search-Answer :
      (rows : List FtsRow) (text : String) (top_k : ℕ)
      (repo task alias_name pair_key : Option String)
      → Triple
          (λ _. Unit)
          (search f p rows text top_k repo task alias_name pair_key)
          (λ bundle s. Answer f.lt repo alias_name pair_key top_k bundle.reranked)
          (λ _. Unit)
  unfolding search sort_hits
  search-Answer rows text top_k repo task alias_name pair_key =
      let P : MemoryHit → Type 0 = Fits repo alias_name pair_key in
      let keeps : (hit : MemoryHit) (x : Float) → P hit → P (rescored x hit) =
        Fits-rescored repo alias_name pair_key in
      Triple-bind (Triple-any (lift (lexical_search f p rows text (top_k * 2)))) (λ found.
        Triple-bind (Triple-lift (relevant_hits-Fits repo task alias_name pair_key found).holds)
          (λ lexical. Triple-begin (λ all.
            Triple-bind (embedding_search-All P keeps f p text lexical (top_k * 2) all)
              (λ embedding. Triple-begin (λ all'.
                Triple-bind (rerank_hits-All P keeps f p text embedding top_k all') (λ reranked.
                  let boosted = apply_overlay_boosts f p alias_name pair_key reranked in
                  Triple-pure _ (λ s h.
                    let (fits, same) = boosted-All P keeps f p alias_name pair_key reranked h.0 in
                    record {
                      at_most = omega (arith, length-sort_from f.lt [] boosted, same, h.1);
                      descending = sort_from-Descending f.lt asym [] boosted tt;
                      fitting = sort_from-All P keeps f.lt [] boosted tt fits;
                    })))))))

-- What `/memory/query` answers, if it answers, and if no float is both smaller and larger than
-- another: at most `top_k` hits, by descending score; among them an overlay of an alias only if it is
-- the alias of the request, an overlay of a pair only if it is the pair of the request, and no
-- overlay whose metadata names another repository.
pub query_memory-Answer :
    {E : Type 0} (f : Floats) (p : Finder E)
    → ((x y : Float) → f.lt x y ≡ true → f.lt y x ≡ false)
    → (r : MemoryQueryRequest) (w : World E) {response : MemoryQueryResponse}
    → (query_memory f p r w).0 ≡ ok response
    → Answer f.lt (some r.repo) r.alias_name r.pair_key r.top_k response.hits
unfolding query_memory query remote
query_memory-Answer {E} f p asym r w {response} h =
    go (found w.ext) refl
      ((search-Answer f p asym w.db.memory_fts r.query r.top_k (some r.repo) none r.alias_name
          r.pair_key).at
        w.ext tt)
      h
  where
    found : E → Result String RetrievalBundle × E
    found = search f p w.db.memory_fts r.query r.top_k (some r.repo) none r.alias_name r.pair_key

    go :
        (out : Result String RetrievalBundle × E)
        → found w.ext ≡ out
        → Post
            (λ bundle s. Answer f.lt (some r.repo) r.alias_name r.pair_key r.top_k bundle.reranked)
            (λ _. Unit {0})
            out.0
            out.1
        → (query_memory f p r w).0 ≡ ok response
        → Answer f.lt (some r.repo) r.alias_name r.pair_key r.top_k response.hits
    go (ok bundle, s) e a h' =
        let same : bundle.reranked ≡ response.hits = cc (rw e at h') in
        subst (Answer f.lt (some r.repo) r.alias_name r.pair_key r.top_k) same a
    go (err x, s) e a h' = cc (rw e at h')
