-- ===== src/Conductor/Frontier/Medoids.antt =====
-- `FrontierService.select_medoids` with `max_k` = 3, as every caller has it, and `build_frontier`.
pub mod Choices
pub mod Scores
pub mod Chosen
use agentic_coding_stack.Prelude.{
  ℕ, zero, suc, ◌+◌, String, Bool, Option, none, some, List, [], ◌∷◌, ◌++◌, map, length, get_elem?,
  leb, or_else, if◌then◌else◌,
}
use agentic_coding_stack.Base.Number.{Float}
use agentic_coding_stack.Base.Exec.{Result, ok, err}
use agentic_coding_stack.Shared.Schemas.{CandidatePlan}
use agentic_coding_stack.Conductor.Frontier.{Floats, pareto_filter, dedupe, gram_matrix}

pub record FrontierResult : Type 0 where
  pub pareto_candidates : List CandidatePlan
  pub deduped_candidates : List CandidatePlan
  pub gram_matrix : List (List Float)
  pub medoid_candidates : List CandidatePlan

-- `range(start, start + count)`
abbrev pub range_from : ℕ → ℕ → List ℕ
range_from start zero = []
range_from start (suc count) = start ∷ range_from (start + 1) count

-- `itertools.combinations(xs, k)`, in its order.
abbrev pub combinations : ℕ → List ℕ → List (List ℕ)
combinations zero xs = [] ∷ []
combinations (suc k) [] = []
combinations (suc k) (x ∷ xs) = map (λ c. x ∷ c) (combinations k xs) ++ combinations (suc k) xs

-- `[candidates[index] for index in combo]`, whose indices are all in range.
abbrev pub at_indices : List CandidatePlan → List ℕ → List CandidatePlan
at_indices cs [] = []
at_indices cs (i ∷ combo) =
    let others = at_indices cs combo in
    elim (get_elem? cs i) [ none ↦ others | some c ↦ c ∷ others ]

module _ (f : Floats) where
  abbrev pub entry : List Float → ℕ → Float
  entry row m = or_else (get_elem? row m) f.negative_infinity

  -- `max(gram[i][m] for m in combo)`; a combination is not empty.
  abbrev pub largest_from : List Float → Float → List ℕ → Float
  largest_from row best [] = best
  largest_from row best (m ∷ combo) =
      largest_from row (if f.lt best (entry row m) then entry row m else best) combo

  abbrev pub largest : List Float → List ℕ → Float
  largest row [] = f.negative_infinity
  largest row (m ∷ combo) = largest_from row (entry row m) combo

  unfoldable pub score_from : Float → List ℕ → List (List Float) → Float
  score_from score combo [] = score
  score_from score combo (row ∷ rows) = score_from (f.add score (largest row combo)) combo rows

  abbrev pub score : List (List Float) → List ℕ → Float
  score gram combo = score_from (f.of_ratio 0 1) combo gram

  -- The loop over the combinations, from the best score and combination so far.
  unfoldable pub best_from :
      List (List Float) → Float → Option (List ℕ) → List (List ℕ) → Option (List ℕ)
  unfolding score_from
  best_from gram best_score best_combo [] = best_combo
  best_from gram best_score best_combo (combo ∷ combos) =
      let better = f.lt best_score (score gram combo) in
      best_from gram (if better then score gram combo else best_score)
        (if better then some combo else best_combo) combos

  abbrev pub picked : List CandidatePlan → Option (List ℕ) → Result String (List CandidatePlan)
  picked cs none = err ""
  picked cs (some combo) = ok (at_indices cs combo)

  -- An AssertionError has no text.
  unfoldable pub select_medoids : List CandidatePlan → Result String (List CandidatePlan)
  unfolding best_from
  select_medoids cs =
      if leb (length cs) 3
      then ok cs
      else picked cs (
          best_from (gram_matrix f cs) f.negative_infinity none
            (combinations 3 (range_from 0 (length cs))))

  unfoldable pub build_frontier : List CandidatePlan → Result String FrontierResult
  build_frontier candidates =
      let pareto = pareto_filter f candidates in
      let deduped = dedupe f pareto in
      elim (select_medoids deduped) [
        | err text ↦ err text
        | ok medoids ↦ ok (record {
          pareto_candidates = pareto;
          deduped_candidates = deduped;
          gram_matrix = gram_matrix f deduped;
          medoid_candidates = medoids;
        })
      ]
