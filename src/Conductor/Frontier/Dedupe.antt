-- ===== src/Conductor/Frontier/Dedupe.antt =====
-- Near duplicates: what `dedupe` keeps, and what it drops.
use agentic_coding_stack.Prelude.{
  ◌≡◌, refl, ap, ◌∙◌, Bool, true, false, ◌||◌, ◌⊎◌, inl, inr, List, [], ◌∷◌, ◌++◌, any, any-In, In,
  In-append_left, In-append_right, All, All-append, Bool-cases,
}
use agentic_coding_stack.Shared.Schemas.{CandidatePlan}
use agentic_coding_stack.Conductor.Frontier.{Floats, is_near_duplicate, dedupe_from, dedupe}

not_any :
    (p : CandidatePlan → Bool) (xs : List CandidatePlan)
    → any p xs ≡ false
    → All (λ x. p x ≡ false) xs
not_any p [] h = tt
not_any p (x ∷ xs) h = elim (Bool-cases (p x)) [
  | inl e ↦ let b : true || any p xs ≡ false = rw e at h in cc
  | inr e ↦ (e, not_any p xs (rw e at h))
]

pub All-self : (xs : List CandidatePlan) → All (λ c. In c xs) xs
All-self [] = tt
All-self (x ∷ xs) = (inl refl, weaken xs (All-self xs))
  where
    weaken : (ys : List CandidatePlan) → All (λ c. In c xs) ys → All (λ c. In c (x ∷ xs)) ys
    weaken [] h = tt
    weaken (y ∷ ys) h = (inr h.0, weaken ys h.1)

module _ (f : Floats) where
  -- No candidate is a near duplicate of an earlier one.
  abbrev pub Apart : List CandidatePlan → Type 0
  Apart [] = Unit
  Apart (c ∷ cs) = All (λ d. is_near_duplicate f d c ≡ false) cs × Apart cs

  -- Adding a candidate that is new to a list at its end.
  pub Apart-append :
      (xs : List CandidatePlan) (a : CandidatePlan)
      → Apart xs
      → any (is_near_duplicate f a) xs ≡ false
      → Apart (xs ++ a ∷ [])
  Apart-append xs a h new = go xs h (not_any (is_near_duplicate f a) xs new)
    where
      go :
          (xs : List CandidatePlan)
          → Apart xs
          → All (λ x. is_near_duplicate f a x ≡ false) xs
          → Apart (xs ++ a ∷ [])
      go [] h k = (tt, tt)
      go (x ∷ xs) h k = (
        All-append (λ d. is_near_duplicate f d x ≡ false) xs (a ∷ []) h.0 (k.0, tt),
        go xs h.1 k.1,
      )

  -- A candidate is kept, or is a near duplicate of a kept one.
  abbrev pub Represented : List CandidatePlan → CandidatePlan → Type 0
  Represented kept c =
      In c kept ⊎ ((d : CandidatePlan) × In d kept × (is_near_duplicate f c d ≡ true))

  Represented-append :
      (kept : List CandidatePlan) (a c : CandidatePlan)
      → Represented kept c
      → Represented (kept ++ a ∷ []) c
  Represented-append kept a c (inl i) = inl (In-append_left kept (a ∷ []) c i)
  Represented-append kept a c (inr (d, i, e)) = inr (d, In-append_left kept (a ∷ []) d i, e)

  -- What the loop makes of the candidates that it has seen.
  dedupe_from-Represented :
      (kept rest : List CandidatePlan) (c : CandidatePlan)
      → Represented kept c ⊎ In c rest
      → Represented (dedupe_from f kept rest) c
  unfolding dedupe_from
  dedupe_from-Represented kept [] c (inl h) = h
  dedupe_from-Represented kept [] c (inr i) = elim i [ ]
  dedupe_from-Represented kept (a ∷ rest) c h =
      elim (Bool-cases (any (is_near_duplicate f a) kept)) [
        | inl e ↦ rw e (dedupe_from-Represented kept rest c (dropped e h))
        | inr e ↦ rw e (dedupe_from-Represented (kept ++ a ∷ []) rest c (added h))
      ]
    where
      dropped :
          any (is_near_duplicate f a) kept ≡ true
          → Represented kept c ⊎ In c (a ∷ rest)
          → Represented kept c ⊎ In c rest
      dropped e (inl h) = inl h
      dropped e (inr (inr i)) = inr i
      dropped e (inr (inl same)) =
          let (d, i, near) = any-In (is_near_duplicate f a) kept e in
          inl (inr (d, i, ap (λ x. is_near_duplicate f x d) same ∙ near))

      added : Represented kept c ⊎ In c (a ∷ rest) → Represented (kept ++ a ∷ []) c ⊎ In c rest
      added (inl h) = inl (Represented-append kept a c h)
      added (inr (inl same)) = inl (inl (In-append_right kept (a ∷ []) c (inl same)))
      added (inr (inr i)) = inr i

  dedupe_from-Apart :
      (P : CandidatePlan → Type 0) (kept rest : List CandidatePlan)
      → Apart kept × All P kept
      → All P rest
      → Apart (dedupe_from f kept rest) × All P (dedupe_from f kept rest)
  unfolding dedupe_from
  dedupe_from-Apart P kept [] h k = h
  dedupe_from-Apart P kept (a ∷ rest) h k = elim (Bool-cases (any (is_near_duplicate f a) kept)) [
    | inl e ↦ rw e (dedupe_from-Apart P kept rest h k.1)
    | inr e ↦ rw e (
        dedupe_from-Apart P (kept ++ a ∷ []) rest
          (Apart-append kept a h.0 e, All-append P kept (a ∷ []) h.1 (k.0, tt)) k.1)
  ]

  -- `dedupe` keeps candidates of the list, none of them a near duplicate of one kept before it, and
  -- every candidate of the list is kept or is a near duplicate of a kept one.
  pub dedupe-Represented :
      (cs : List CandidatePlan) (c : CandidatePlan)
      → In c cs
      → (Apart (dedupe f cs) × All (λ d. In d cs) (dedupe f cs)) × Represented (dedupe f cs) c
  unfolding dedupe
  dedupe-Represented cs c i = (
    dedupe_from-Apart (λ d. In d cs) [] cs (tt, tt) (All-self cs),
    dedupe_from-Represented [] cs c (inr i),
  )
