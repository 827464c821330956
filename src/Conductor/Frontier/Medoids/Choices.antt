-- ===== src/Conductor/Frontier/Medoids/Choices.antt =====
-- The combinations of the indices of a list, against the choices of so many of them in order.
use mathlib.Core.Path.{subst}
use agentic_coding_stack.Prelude.{
  ℕ, zero, suc, ◌+◌, ◌≤◌, ◌<◌, ◌≡◌, refl, sym, ap, inl, inr, List, [], ◌∷◌, map, leb, In,
  In-append_left, In-append_right, All, All-append, Bool-cases, arith,
}
use agentic_coding_stack.Conductor.Frontier.Medoids.{range_from, combinations}

-- So many indices from `lo` on and below n, each greater than the one before it.
abbrev pub Ascending : ℕ → ℕ → ℕ → List ℕ → Type 0
Ascending lo n zero [] = Unit
Ascending lo n zero (i ∷ c) = ⊥
Ascending lo n (suc k) [] = ⊥
Ascending lo n (suc k) (i ∷ c) = (lo ≤ i) × (i < n) × Ascending (i + 1) n k c

Ascending-from : (lo lo' n k : ℕ) (c : List ℕ) → lo' ≤ lo → Ascending lo n k c → Ascending lo' n k c
Ascending-from lo lo' n zero [] h a = tt
Ascending-from lo lo' n zero (i ∷ c) h a = a
Ascending-from lo lo' n (suc k) [] h a = a
Ascending-from lo lo' n (suc k) (i ∷ c) h (from, below, more) = (omega arith, below, more)

All-from :
    (lo lo' n k : ℕ) (cs : List (List ℕ))
    → lo' ≤ lo
    → All (Ascending lo n k) cs
    → All (Ascending lo' n k) cs
All-from lo lo' n k [] h a = tt
All-from lo lo' n k (c ∷ cs) h a = (Ascending-from lo lo' n k c h a.0, All-from lo lo' n k cs h a.1)

prefixed :
    (n k i : ℕ) (cs : List (List ℕ))
    → i < n
    → All (Ascending (i + 1) n k) cs
    → All (Ascending i n (suc k)) (map (λ c. i ∷ c) cs)
prefixed n k i [] h a = tt
prefixed n k i (c ∷ cs) h a = ((omega arith, h, a.0), prefixed n k i cs h a.1)

-- Every combination is such a choice.
pub combinations-Ascending :
    (n k lo count : ℕ)
    → lo + count ≡ n
    → All (Ascending lo n k) (combinations k (range_from lo count))
combinations-Ascending n zero lo zero h = (tt, tt)
combinations-Ascending n zero lo (suc count) h = (tt, tt)
combinations-Ascending n (suc k) lo zero h = tt
combinations-Ascending n (suc k) lo (suc count) h =
    All-append (Ascending lo n (suc k))
      (map (λ c. lo ∷ c) (combinations k (range_from (lo + 1) count)))
      (combinations (suc k) (range_from (lo + 1) count))
      (prefixed n k lo (combinations k (range_from (lo + 1) count)) (omega (arith, h))
        (combinations-Ascending n k (lo + 1) count (omega (arith, h))))
      (All-from (lo + 1) lo n (suc k) (combinations (suc k) (range_from (lo + 1) count))
        (omega arith) (combinations-Ascending n (suc k) (lo + 1) count (omega (arith, h))))

In-prefixed : (i : ℕ) (c : List ℕ) (cs : List (List ℕ)) → In c cs → In (i ∷ c) (map (λ d. i ∷ d) cs)
In-prefixed i c [] m = elim m [ ]
In-prefixed i c (d ∷ cs) (inl e) = inl (ap (λ q. i ∷ q) e)
In-prefixed i c (d ∷ cs) (inr m) = inr (In-prefixed i c cs m)

-- Every such choice is a combination.
pub Ascending-combinations :
    (n k lo count : ℕ) (c : List ℕ)
    → lo + count ≡ n
    → Ascending lo n k c
    → In c (combinations k (range_from lo count))
Ascending-combinations n zero lo zero [] h a = inl refl
Ascending-combinations n zero lo (suc count) [] h a = inl refl
Ascending-combinations n zero lo count (i ∷ c) h a = elim a [ ]
Ascending-combinations n (suc k) lo count [] h a = elim a [ ]
Ascending-combinations n (suc k) lo zero (i ∷ c) h (from, below, more) =
    let absurd : ⊥ = omega (arith, h) in elim absurd [ ]
Ascending-combinations n (suc k) lo (suc count) (i ∷ c) h (from, below, more) =
    elim (Bool-cases (leb i lo)) [
      | inl least ↦
          let same : i ≡ lo = ground (arith, least) in
          subst (λ j. In (j ∷ c) (combinations (suc k) (range_from lo (suc count)))) (sym same)
            (In-append_left _ _ (lo ∷ c) (
              In-prefixed lo c (combinations k (range_from (lo + 1) count)) (
                Ascending-combinations n k (lo + 1) count c (omega (arith, h))
                  (Ascending-from (i + 1) (lo + 1) n k c (omega arith) more))))
      | inr later ↦ In-append_right _ _ (i ∷ c) (
          Ascending-combinations n (suc k) (lo + 1) count (i ∷ c) (omega (arith, h))
            (ground (arith, later), below, more))
    ]
