-- ===== src/Subagent/Spent.antt =====
-- What the mutations of one delegation can write together.
use mathlib.Core.Path.{subst}
use agentic_coding_stack.Prelude.{
  ℕ, ◌+◌, ◌≤◌, ◌≡◌, refl, sym, ◌∙◌, Bool-cases, inl, inr, Option, none, some, List, [], ◌∷◌, All,
  leb, arith,
}
use agentic_coding_stack.Base.Number.{ℤ, pos, negsuc}
use agentic_coding_stack.Subagent.Budget.{
  MutationBudget, bytes_of, reserved, Operation, apply_budgeted, apply_mutation,
}

-- The mutations of a delegation one after the other; each may be refused or raise, and the agent
-- goes on.
abbrev pub apply_all :
    {E X : Type 0}
    → List (ℤ × Operation E X)
    → Option MutationBudget × E
    → Option MutationBudget × E
apply_all [] s = s
apply_all ((count, operation) ∷ rest) s = apply_all rest (apply_mutation count operation s).1

-- An operation that writes no more than it announces, whether it succeeds or raises.
abbrev pub IsHonest : {E X : Type 0} → (E → ℕ) → ℤ × Operation E X → Type 0
IsHonest {E} written (count, operation) =
    (e : E) → written (operation e).1 ≤ written e + bytes_of count

module _ {E : Type 0} (written : E → ℕ) where
  -- A state reached under a budget: the limit is kept, nothing is refunded, and what was written
  -- since is covered by what was reserved.
  pub record Within (budget : MutationBudget) (e : E) (after : Option MutationBudget × E)
      : Type 0 where
    pub now : MutationBudget
    pub kept : after.0 ≡ some now
    pub same_limit : now.limit ≡ budget.limit
    pub below : now.used ≤ now.limit
    pub grown : budget.used ≤ now.used
    pub covered : written after.1 + budget.used ≤ written e + now.used

  apply_mutation-Within :
      {X : Type 0} (count : ℤ) (operation : Operation E X) (budget : MutationBudget) (e : E)
      → IsHonest written (count, operation)
      → budget.used ≤ budget.limit
      → Within budget e (apply_mutation count operation (some budget, e)).1
  unfolding apply_mutation apply_budgeted
  apply_mutation-Within (negsuc n) operation budget e honest ok_so_far = record {
    now = budget;
    kept = refl;
    same_limit = refl;
    below = ok_so_far;
    grown = omega arith;
    covered = omega arith;
  }
  apply_mutation-Within (pos n) operation budget e honest ok_so_far =
      elim (Bool-cases (leb (budget.used + n) budget.limit)) [
        | inl h ↦ rw h (record {
          now = reserved budget (pos n);
          kept = refl;
          same_limit = refl;
          below = ground (arith, h);
          grown = omega arith;
          covered = omega (arith, honest e);
        })
        | inr h ↦ rw h (record {
          now = budget;
          kept = refl;
          same_limit = refl;
          below = ok_so_far;
          grown = omega arith;
          covered = omega arith;
        })
      ]

  Within-trans :
      (budget : MutationBudget) (e : E) (after last : Option MutationBudget × E)
      → (first : Within budget e after) → Within first.now after.1 last
      → Within budget e last
  Within-trans budget e after last first then_ = record {
    now = then_.now;
    kept = then_.kept;
    same_limit = then_.same_limit ∙ first.same_limit;
    below = then_.below;
    grown = omega (arith, first.grown, then_.grown);
    covered = omega (arith, first.covered, then_.covered);
  }

  apply_all-Within :
      {X : Type 0} (mutations : List (ℤ × Operation E X)) (budget : MutationBudget) (e : E)
      → All (IsHonest written) mutations
      → budget.used ≤ budget.limit
      → Within budget e (apply_all mutations (some budget, e))
  apply_all-Within [] budget e honest below = record {
    now = budget;
    kept = refl;
    same_limit = refl;
    below = below;
    grown = omega arith;
    covered = omega arith;
  }
  apply_all-Within {X} ((count, operation) ∷ rest) budget e honest below =
      go (apply_mutation count operation (some budget, e)).1
        (apply_mutation-Within count operation budget e honest.0 below)
        (λ b e' h. apply_all-Within rest b e' honest.1 h)
    where
      go :
          (after : Option MutationBudget × E)
          → Within budget e after
          → ((b : MutationBudget) (e' : E)
              → b.used ≤ b.limit
              → Within b e' (apply_all rest (some b, e')))
          → Within budget e (apply_all rest after)
      go (none, e') first more = cc (first.kept)
      go (some b, e') first more =
          let same : b ≡ first.now = cc (first.kept) in
          Within-trans budget e (some b, e') (apply_all rest (some b, e')) first
            (subst (λ q. Within q e' (apply_all rest (some b, e'))) same
              (more b e' (subst (λ q. q.used ≤ q.limit) (sym same) first.below)))

  -- However many mutations an agent tries, what they write together is bounded. From a budget that is
  -- not overdrawn, and with operations that write at most the bytes they announce, also where they
  -- raise, any sequence of mutations under the budget writes at most what was left of it, and leaves
  -- a budget with the same limit that is not overdrawn either.
  pub apply_all-le :
      {X : Type 0} (mutations : List (ℤ × Operation E X)) (budget : MutationBudget) (e : E)
      → All (IsHonest written) mutations
      → budget.used ≤ budget.limit
      → let after = apply_all mutations (some budget, e) in
        (written after.1 + budget.used ≤ written e + budget.limit) × Within budget e after
  apply_all-le mutations budget e honest below =
      let w = apply_all-Within mutations budget e honest below in
      (omega (arith, w.covered, w.below, w.same_limit), w)
