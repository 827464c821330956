-- ===== src/Conductor/Frontier.antt =====
-- apps/conductor/services/frontier.py: Pareto filter, near duplicates, medoids.
-- The arithmetic of doubles is a parameter; what the theorems need of the comparisons is named
-- where they are stated.
pub mod Pareto
pub mod Dedupe
pub mod Medoids
use agentic_coding_stack.Prelude.{
  ℕ, zero, suc, ◌+◌, String, Bool, true, false, not, ◌&&◌, ◌||◌, Option, none, some, List, [], ◌∷◌,
  ◌++◌, map, length, any, all, one_of, get_elem?, ◌==◌, leb, min, if◌then◌else◌,
}
use agentic_coding_stack.Base.Number.{ℤ, Float}
use agentic_coding_stack.Shared.Schemas.{CandidatePlan, ObjectiveVector}

-- Python's operations on floats. `sum_of` is the builtin `sum`, `round n` rounds to n digits; `of_ratio m n` is the literal m / n.
pub record Floats : Type 0 where
  pub le : Float → Float → Bool
  pub lt : Float → Float → Bool
  pub eq : Float → Float → Bool
  pub add : Float → Float → Float
  pub sub : Float → Float → Float
  pub mul : Float → Float → Float
  pub div : Float → Float → Float
  pub sqrt : Float → Float
  pub abs : Float → Float
  pub round : ℕ → Float → Float
  pub sum_of : List Float → Float
  pub of_ℕ : ℕ → Float
  pub of_ℤ : ℤ → Float
  pub of_ratio : ℕ → ℕ → Float
  pub negative_infinity : Float

abbrev pub meso_taxonomy : List String
meso_taxonomy =
    "auth" ∷ "billing" ∷ "api" ∷ "schema_data" ∷ "frontend" ∷ "ci_build" ∷ "infra" ∷ "security"
    ∷ "observability" ∷ "docs_devex" ∷ "shared_lib" ∷ "tooling" ∷ []

-- `objective_vec.model_dump()`, the values in the order of the fields.
unfoldable pub objectives : CandidatePlan → List Float
objectives c =
    let v = c.objective_vec in
    v.correctness_confidence ∷ v.reversibility ∷ v.locality ∷ v.maintainability ∷ v.delivery_speed
    ∷ []

-- `all(l[key] >= r[key] for key in l)` and `any(l[key] > r[key] for key in l)`, over the values of
-- two dicts with the same keys.
abbrev pub all_ge : (Float → Float → Bool) → List Float → List Float → Bool
all_ge le [] rs = true
all_ge le (l ∷ ls) [] = false
all_ge le (l ∷ ls) (r ∷ rs) = le r l && all_ge le ls rs

abbrev pub any_gt : (Float → Float → Bool) → List Float → List Float → Bool
any_gt lt [] rs = false
any_gt lt (l ∷ ls) [] = false
any_gt lt (l ∷ ls) (r ∷ rs) = lt r l || any_gt lt ls rs

module _ (f : Floats) where
  unfoldable pub dominates : CandidatePlan → CandidatePlan → Bool
  unfolding objectives
  dominates lhs rhs =
      all_ge f.le (objectives lhs) (objectives rhs) && any_gt f.lt (objectives lhs) (objectives rhs)

  -- The inner loop: is the candidate at `idx` dominated by one at another index, from `jdx` on?
  unfoldable pub dominated_from : ℕ → CandidatePlan → ℕ → List CandidatePlan → Bool
  dominated_from idx c jdx [] = false
  dominated_from idx c jdx (other ∷ rest) =
      not (idx == jdx) && dominates other c || dominated_from idx c (jdx + 1) rest

  -- The outer loop, from `idx` on.
  unfoldable pub pareto_from : List CandidatePlan → ℕ → List CandidatePlan → List CandidatePlan
  unfolding dominated_from
  pareto_from candidates idx [] = []
  pareto_from candidates idx (c ∷ rest) =
      let kept = pareto_from candidates (idx + 1) rest in
      if dominated_from idx c 0 candidates then kept else c ∷ kept

  unfoldable pub pareto_filter : List CandidatePlan → List CandidatePlan
  pareto_filter candidates = pareto_from candidates 0 candidates

  unfoldable pub norm : List Float → Float
  norm values = f.sqrt (f.sum_of (map (λ v. f.mul v v) values))

  unfoldable pub normalize : List Float → List Float
  unfolding norm
  normalize values =
      if f.eq (norm values) (f.of_ℕ 0) then values else map (λ v. f.div v (norm values)) values

  abbrev pub flag : Bool → Float
  flag b = if b then f.of_ratio 1 1 else f.of_ratio 0 1

  unfoldable pub feature_vector : CandidatePlan → List Float
  unfolding normalize objectives
  feature_vector c =
      let t = c.micro_targets in
      normalize (map f.of_ℤ c.macro_vec)
      ++ (normalize (map (λ tag. flag (one_of tag c.meso_tags)) meso_taxonomy)
          ++ (normalize (
                f.of_ℕ (length t.files)
                ∷ f.of_ℕ (length t.tests)
                ∷ flag t.migration
                ∷ flag t.config
                ∷ flag t.endpoint
                ∷ flag t.env_var
                ∷ [])
              ++ normalize (objectives c)))

  -- `zip(lhs, rhs, strict=False)`, multiplied
  abbrev pub products : List Float → List Float → List Float
  products [] rs = []
  products (l ∷ ls) [] = []
  products (l ∷ ls) (r ∷ rs) = f.mul l r ∷ products ls rs

  unfoldable pub cosine : List Float → List Float → Float
  unfolding norm
  cosine lhs rhs =
      if f.eq (norm lhs) (f.of_ℕ 0) || f.eq (norm rhs) (f.of_ℕ 0)
      then f.of_ratio 0 1
      else f.div (f.sum_of (products lhs rhs)) (f.mul (norm lhs) (norm rhs))

  abbrev pub differences : List Float → List Float → List Float
  differences [] rs = []
  differences (l ∷ ls) [] = []
  differences (l ∷ ls) (r ∷ rs) = f.abs (f.sub l r) ∷ differences ls rs

  unfoldable pub objective_l1 : CandidatePlan → CandidatePlan → Float
  unfolding objectives
  objective_l1 lhs rhs = f.sum_of (differences (objectives lhs) (objectives rhs))

  unfoldable pub is_near_duplicate : CandidatePlan → CandidatePlan → Bool
  unfolding cosine feature_vector objective_l1
  is_near_duplicate lhs rhs =
      if f.lt (cosine (feature_vector lhs) (feature_vector rhs)) (f.of_ratio 985 1000)
      then false
      else f.le (objective_l1 lhs rhs) (f.of_ratio 5 100)

  -- The loop of `dedupe`, from what is kept so far; nothing duplicates an empty list.
  unfoldable pub dedupe_from : List CandidatePlan → List CandidatePlan → List CandidatePlan
  dedupe_from kept [] = kept
  dedupe_from kept (c ∷ rest) =
      dedupe_from (if any (is_near_duplicate c) kept then kept else kept ++ c ∷ []) rest

  unfoldable pub dedupe : List CandidatePlan → List CandidatePlan
  dedupe candidates = dedupe_from [] candidates

  unfoldable pub gram_matrix : List CandidatePlan → List (List Float)
  unfolding cosine feature_vector
  gram_matrix candidates =
      let vectors = map feature_vector candidates in map (λ a. map (cosine a) vectors) vectors
