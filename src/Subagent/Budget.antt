-- ===== src/Subagent/Budget.antt =====
-- glm-as-subagent/src/glm_mcp/resource_budget.py: the bytes that one delegation may write.
use agentic_coding_stack.Prelude.{ℕ, ◌+◌, ◌*◌, Bool, false, Option, none, some, leb, if◌then◌else◌}
use agentic_coding_stack.Base.Number.{ℤ, pos, negsuc}
use agentic_coding_stack.Base.Exec.{Result, ok, err, Exec}

abbrev pub max_mutation_bytes_per_run : ℕ
max_mutation_bytes_per_run = 64 * 1024 * 1024

pub record MutationBudget : Type 0 where
  pub limit : ℕ
  pub used : ℕ

abbrev pub new_budget : MutationBudget
new_budget = record { limit = max_mutation_bytes_per_run; used = 0 }

-- `ResourceBudgetExceeded`, or what the operation raises.
pub data MutationError (X : Type 0) : Type 0 where
  exceeded : MutationError X
  raised : X → MutationError X

-- `byte_count > limit - used` is `used + byte_count > limit`, also where used is above the limit.
abbrev pub fits : MutationBudget → ℤ → Bool
fits budget (pos n) = leb (budget.used + n) budget.limit
fits budget (negsuc n) = false

abbrev pub bytes_of : ℤ → ℕ
bytes_of (pos n) = n
bytes_of (negsuc n) = 0

-- The budget inside `reserve`, which is not given back when the operation ends.
abbrev pub reserved : MutationBudget → ℤ → MutationBudget
reserved budget count = record budget { used = budget.used + bytes_of count }

abbrev pub Operation : Type 0 → Type 0 → Type 0
Operation E X = Exec E X (Unit {0})

abbrev outcome_of : {X : Type 0} → Result X (Unit {0}) → Result (MutationError X) (Unit {0})
outcome_of (ok u) = ok u
outcome_of (err x) = err (raised x)

module _ {E X : Type 0} where
  -- `apply_mutation` under a budget.
  unfoldable pub apply_budgeted :
      ℤ → Operation E X → Exec (MutationBudget × E) (MutationError X) (Unit {0})
  apply_budgeted count operation (budget, e) =
      if fits budget count
      then (outcome_of (operation e).0, (reserved budget count, (operation e).1))
      else (err exceeded, (budget, e))

  abbrev unbudgeted :
      Operation E X → E → Result (MutationError X) (Unit {0}) × (Option MutationBudget × E)
  unbudgeted operation e = (outcome_of (operation e).0, (none, (operation e).1))

  abbrev with_budget :
      Result (MutationError X) (Unit {0}) × (MutationBudget × E)
      → Result (MutationError X) (Unit {0}) × (Option MutationBudget × E)
  with_budget out = (out.0, (some out.1.0, out.1.1))

  -- `apply_mutation`, where the budget may be None.
  unfoldable pub apply_mutation :
      ℤ → Operation E X → Exec (Option MutationBudget × E) (MutationError X) (Unit {0})
  unfolding apply_budgeted
  apply_mutation count operation (none, e) = unbudgeted operation e
  apply_mutation count operation (some budget, e) =
      with_budget (apply_budgeted count operation (budget, e))
