-- ===== src/Conductor/Frontier/Medoids/Scores.antt =====
-- The score of a combination of indices, and the best one of several.
use agentic_coding_stack.Prelude.{
  ℕ, ◌≡◌, refl, sym, ap, true, false, ◌⊎◌, inl, inr, none, some, List, [], ◌∷◌, In, All, Bool-cases,
}
use agentic_coding_stack.Base.Number.{Float}
use agentic_coding_stack.Conductor.Frontier.{Floats}
use agentic_coding_stack.Conductor.Frontier.Medoids.{
  entry, largest_from, largest, score_from, score, best_from,
}

-- The comparison of doubles is strict, also with a NaN, which is below nothing and above nothing.
pub record Strict (f : Floats) : Type 0 where
  pub irreflexive : (a : Float) → f.lt a a ≡ false
  pub transitive : (a b c : Float) → f.lt a b ≡ true → f.lt b c ≡ true → f.lt a c ≡ true

module _ (f : Floats) where
  -- The largest entry of a row among the indices: one of the entries, and no other is above it.
  pub record IsMax (row : List Float) (combo : List ℕ) (x : Float) : Type 0 where
    pub index : ℕ
    pub chosen : In index combo
    pub value : entry f row index ≡ x
    pub top : All (λ m. f.lt x (entry f row m) ≡ false) combo

  -- A score: what is added up, for each row its largest entry among the indices.
  pub data IsScore (combo : List ℕ) : Float → List (List Float) → Float → Type 0 where
    no_rows : (sum : Float) → IsScore combo sum [] sum
    with_row :
        (sum x total : Float) (row : List Float) (rows : List (List Float))
        → IsMax row combo x
        → IsScore combo (f.add sum x) rows total
        → IsScore combo sum (row ∷ rows) total

  -- The value of the loop of `max`, from the best one so far.
  record Leads (row : List Float) (best : Float) (combo : List ℕ) (x : Float) : Type 0 where
    from : (x ≡ best) ⊎ ((m : ℕ) × In m combo × (entry f row m ≡ x))
    top : All (λ m. f.lt x (entry f row m) ≡ false) combo
    above : (y : Float) → f.lt best y ≡ false → f.lt x y ≡ false

  module _ (strict : Strict f) where
    -- What is not above x is not above what is not below x.
    not_above : (a b y : Float) → f.lt a b ≡ true → f.lt a y ≡ false → f.lt b y ≡ false
    not_above a b y below h = elim (Bool-cases (f.lt b y)) [
      | inr e ↦ e
      | inl e ↦ cc (strict.transitive a b y below e, h)
    ]

    largest_from-Leads :
        (row : List Float) (best : Float) (combo : List ℕ)
        → Leads row best combo (largest_from f row best combo)
    largest_from-Leads row best [] = record { from = inl refl; top = tt; above = λ y h. h }
    largest_from-Leads row best (m ∷ combo) = elim (Bool-cases (f.lt best (entry f row m))) [
      | inl e ↦
          let next = largest_from-Leads row (entry f row m) combo in
          rw e (record {
            from = elim next.from [
              | inl q ↦ inr (m, inl refl, sym q)
              | inr (k, i, q) ↦ inr (k, inr i, q)
            ];
            top = (next.above (entry f row m) (strict.irreflexive (entry f row m)), next.top);
            above = λ y h. next.above y (not_above best (entry f row m) y e h);
          })
      | inr e ↦
          let next = largest_from-Leads row best combo in
          rw e (record {
            from = elim next.from [ inl q ↦ inl q | inr (k, i, q) ↦ inr (k, inr i, q) ];
            top = (next.above (entry f row m) e, next.top);
            above = next.above;
          })
    ]

    largest-IsMax :
        (row : List Float) (m : ℕ) (combo : List ℕ)
        → IsMax row (m ∷ combo) (largest f row (m ∷ combo))
    largest-IsMax row m combo =
        let all = largest_from-Leads row (entry f row m) combo in
        let first = all.above (entry f row m) (strict.irreflexive (entry f row m)) in
        elim all.from [
          | inl e ↦ record { index = m; chosen = inl refl; value = sym e; top = (first, all.top) }
          | inr (k, i, e) ↦ record { index = k; chosen = inr i; value = e; top = (first, all.top) }
        ]

    pub score_from-IsScore :
        (m : ℕ) (combo : List ℕ) (sum : Float) (rows : List (List Float))
        → IsScore (m ∷ combo) sum rows (score_from f sum (m ∷ combo) rows)
    unfolding score_from
    score_from-IsScore m combo sum [] = no_rows sum
    score_from-IsScore m combo sum (row ∷ rows) =
        with_row sum (largest f row (m ∷ combo)) _ row rows (largest-IsMax row m combo)
          (score_from-IsScore m combo (f.add sum (largest f row (m ∷ combo))) rows)

    module _ (gram : List (List Float)) where
      abbrev of : List ℕ → Float
      of c = score f gram c

      -- The combination at the end, from a bound: none of the others scores above it, and nothing
      -- that is not above the bound is above it.
      abbrev pub Tops : Float → List (List ℕ) → List ℕ → Type 0
      Tops bound combos c =
          All (λ d. f.lt (of c) (of d) ≡ false) combos
          × ((y : Float) → f.lt bound y ≡ false → f.lt (of c) y ≡ false)

      best_from-later :
          (combo : List ℕ) (combos : List (List ℕ))
          → (c : List ℕ) × (best_from f gram (of combo) (some combo) combos ≡ some c)
            × ((c ≡ combo) ⊎ In c combos)
            × Tops (of combo) combos c
      unfolding best_from
      best_from-later combo [] = (combo, refl, inl refl, (tt, λ y h. h))
      best_from-later combo (d ∷ combos) = elim (Bool-cases (f.lt (of combo) (of d))) [
        | inl above ↦
            let (c, e, from, (all, top)) = best_from-later d combos in
            rw above (
              c,
              e,
              inr from,
              (
                (top (of d) (strict.irreflexive (of d)), all),
                λ y h. top y (not_above (of combo) (of d) y above h),
              ),
            )
        | inr below ↦
            let (c, e, from, (all, top)) = best_from-later combo combos in
            rw below (
              c,
              e,
              elim from [ inl q ↦ inl q | inr q ↦ inr (inr q) ],
              ((top (of d) below, all), top),
            )
      ]

      -- Where some combination scores above the bound, one is found, and none scores above it.
      pub best_from-Tops :
          (bound : Float) (combos : List (List ℕ)) (some_combo : List ℕ)
          → In some_combo combos
          → f.lt bound (of some_combo) ≡ true
          → (c : List ℕ) × (best_from f gram bound none combos ≡ some c)
            × In c combos
            × Tops bound combos c
      unfolding best_from
      best_from-Tops bound [] some_combo i h = elim i [ ]
      best_from-Tops bound (d ∷ combos) some_combo i h = elim (Bool-cases (f.lt bound (of d))) [
        | inl above ↦
            let (c, e, from, (all, top)) = best_from-later d combos in
            rw above (
              c,
              e,
              from,
              (
                (top (of d) (strict.irreflexive (of d)), all),
                λ y q. top y (not_above bound (of d) y above q),
              ),
            )
        | inr below ↦
            let (c, e, from, (all, top)) =
              best_from-Tops bound combos some_combo (rest i below) h in
            rw below (c, e, inr from, ((top (of d) below, all), top))
      ]
        where
          rest :
              (some_combo ≡ d) ⊎ In some_combo combos
              → f.lt bound (of d) ≡ false
              → In some_combo combos
          rest (inl same) below = cc (ap (λ q. f.lt bound (of q)) same, h, below)
          rest (inr j) below = j
