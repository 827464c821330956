-- ===== src/Conductor/Retrieval/Stages.antt =====
-- The later stages of a query keep what does not depend on the scores, and the bound.
use mathlib.Core.Path.{subst}
use agentic_coding_stack.Prelude.{
  ℕ, zero, suc, ◌≤◌, ◌+◌, ◌-◌, String, ◌≡◌, refl, Bool, Bool-cases, inl, inr, Option, none, some,
  List, [], ◌∷◌, All, length, length-take-le, take, get_elem?, leb, arith,
}
use agentic_coding_stack.Base.Number.{Float, ℤ, pos, negsuc}
use agentic_coding_stack.Base.Json.{Json}
use agentic_coding_stack.Base.Exec.{Result, ok, err}
use agentic_coding_stack.Base.Chain.{Gives, Gives-ok, Gives-at, Gives-chain}
use agentic_coding_stack.Base.Triple.{Post, Triple, Triple-bind, Triple-pure, Triple-any}
use agentic_coding_stack.Shared.Schemas.{MemoryHit}
use agentic_coding_stack.Conductor.Frontier.{Floats}
use agentic_coding_stack.Conductor.Retrieval.Search.{
  Finder, rescored, insert_hit, sort_from, sort_hits, entry, hit_at, key_of, index_of, mapped_hits,
}
use agentic_coding_stack.Conductor.Retrieval.Query.{
  embed_one, rescored_hits, embedding_search, rerank_hits, boost, apply_overlay_boosts,
}

-- A predicate that does not look at the score goes with a hit through the later stages.
module _ (P : MemoryHit → Type 0)
    (rescore : (hit : MemoryHit) (x : Float) → P hit → P (rescored x hit)) where
  insert-All :
      (lt : Float → Float → Bool) (hit : MemoryHit) (hits : List MemoryHit)
      → P hit
      → All P hits
      → All P (insert_hit lt hit hits)
  unfolding insert_hit
  insert-All lt hit [] p all = (p, tt)
  insert-All lt hit (h ∷ hs) p all = elim (Bool-cases (lt h.score hit.score)) [
    | inl e ↦ rw e (p, all)
    | inr e ↦ rw e (all.0, insert-All lt hit hs p all.1)
  ]

  pub sort_from-All :
      (lt : Float → Float → Bool) (sorted hits : List MemoryHit)
      → All P sorted
      → All P hits
      → All P (sort_from lt sorted hits)
  unfolding sort_from
  sort_from-All lt sorted [] s all = s
  sort_from-All lt sorted (hit ∷ hits) s all =
      sort_from-All lt (insert_hit lt hit sorted) hits (insert-All lt hit sorted all.0 s) all.1

  take-All : (n : ℕ) (hits : List MemoryHit) → All P hits → All P (take n hits)
  take-All zero hits all = tt
  take-All (suc n) [] all = tt
  take-All (suc n) (h ∷ hs) all = (all.0, take-All n hs all.1)

  get-All :
      (hits : List MemoryHit) (n : ℕ) {h : MemoryHit} → All P hits → get_elem? hits n ≡ some h → P h
  get-All [] n all e = cc
  get-All (x ∷ xs) zero all e = subst P (cc e) all.0
  get-All (x ∷ xs) (suc n) all e = get-All xs n all.1 e

  get-Gives : (hits : List MemoryHit) (n : ℕ) → All P hits → Gives P (entry (get_elem? hits n))
  get-Gives hits n all = go (get_elem? hits n) refl
    where
      go : (o : Option MemoryHit) → get_elem? hits n ≡ o → Gives P (entry o)
      go none e = record { holds = λ a h. cc }
      go (some h) e = Gives-ok h (get-All hits n all e)

  hit_at-All : (hits : List MemoryHit) (i : ℤ) → All P hits → Gives P (hit_at hits i)
  unfolding hit_at
  hit_at-All hits (pos n) all = get-Gives hits n all
  hit_at-All hits (negsuc n) all = elim (Bool-cases (leb (n + 1) (length hits))) [
    | inl e ↦ rw e (get-Gives hits (length hits - (n + 1)) all)
    | inr e ↦ rw e (record { holds = λ a h. cc })
  ]

  -- As many hits as items, each with the predicate.
  mapped_hits-All :
      (to_float : Json → Result String Float) (hits : List MemoryHit) (items : List Json)
      → All P hits
      → Gives
          (λ mapped. All P mapped × (length mapped ≡ length items))
          (mapped_hits to_float hits items)
  unfolding mapped_hits
  mapped_hits-All to_float hits [] all = Gives-ok [] (tt, refl)
  mapped_hits-All to_float hits (item ∷ items) all = Gives-at (key_of item "index") (λ j e1.
      Gives-at (index_of j) (λ i e2. Gives-chain (hit_at-All hits i all) (λ original p.
        Gives-at (key_of item "score") (λ s e3. Gives-at (to_float s) (λ score e4.
          Gives-chain (mapped_hits-All to_float hits items all) (λ rest more.
            Gives-ok _ ((rescore original score p, more.0), omega (arith, more.1))))))))

  pub boosted-All :
      (f : Floats) {E : Type 0} (p : Finder E) (alias_name pair_key : Option String)
      (hits : List MemoryHit)
      → All P hits
      → All P (apply_overlay_boosts f p alias_name pair_key hits)
        × (length (apply_overlay_boosts f p alias_name pair_key hits) ≡ length hits)
  unfolding apply_overlay_boosts boost
  boosted-All f p alias_name pair_key [] all = (tt, refl)
  boosted-All f p alias_name pair_key (hit ∷ hits) all =
      let (more, same) = boosted-All f p alias_name pair_key hits all.1 in
      ((rescore hit _ all.0, more), omega (arith, same))

  module _ {E : Type 0} (f : Floats) (p : Finder E) where
    abbrev pub Any : {S : Type 0} → S → Type 0
    Any s = Unit {0}

    abbrev pub AllOf : List MemoryHit → E → Type 0
    AllOf hits s = All P hits

    rescored_hits-All :
        (vector : List Float) (hits : List MemoryHit)
        → All P hits
        → Triple Any (rescored_hits f p vector hits) AllOf Any
    unfolding rescored_hits
    rescored_hits-All vector [] all = Triple-pure [] (λ s u. tt)
    rescored_hits-All vector (hit ∷ hits) all =
        Triple-bind (Triple-any (embed_one f p hit.text)) (λ reference.
          Triple-bind (rescored_hits-All vector hits all.1)
            (λ rest. Triple-pure _ (λ s more. (rescore hit _ all.0, more))))

    pub embedding_search-All :
        (text : String) (hits : List MemoryHit) (n : ℕ)
        → All P hits
        → Triple Any (embedding_search f p text hits n) AllOf Any
    unfolding embedding_search sort_hits
    embedding_search-All text [] n all = Triple-pure [] (λ s u. tt)
    embedding_search-All text (hit ∷ hits) n all =
        Triple-bind (Triple-any (embed_one f p text)) (λ vector.
          Triple-bind (rescored_hits-All vector (hit ∷ hits) all)
            (λ found. Triple-pure _ (λ s more. take-All n _ (sort_from-All f.lt [] found tt more))))

    -- The reranked hits are at most as many as asked for.
    pub rerank_hits-All :
        (text : String) (hits : List MemoryHit) (n : ℕ)
        → All P hits
        → Triple Any (rerank_hits f p text hits n) (λ found s. All P found × (length found ≤ n)) Any
    unfolding rerank_hits
    rerank_hits-All text [] n all = Triple-pure [] (λ s u. (tt, omega arith))
    rerank_hits-All text (hit ∷ hits) n all =
        Triple-bind (Triple-any (p.rerank "mem-rerank" text _)) (λ items. record {
          at = λ s u.
              outcome _ (mapped_hits-All p.to_float (hit ∷ hits) (take n items) all)
                (length-take-le n items) s;
        })
      where
        outcome :
            (m : Result String (List MemoryHit)) {k : ℕ}
            → Gives (λ found. All P found × (length found ≡ k)) m
            → k ≤ n
            → (s : E) → Post (λ found s. All P found × (length found ≤ n)) Any m s
        outcome (ok found) g le s =
            let (more, same) = g.holds found refl in (more, omega (arith, same, le))
        outcome (err e) g le s = tt
