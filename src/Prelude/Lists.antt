-- ===== src/Prelude/Lists.antt =====
-- Lists measured and indexed by native numbers, under the library's names.
use Prim.Native.Nat.{ℕ, zero, suc, ◌+◌, ◌≤◌, ◌<◌}
use mathlib.Core.Path.{◌≡◌, refl, sym, ap, ◌∙◌, subst}
use mathlib.Core.Logic.{◌⊎◌, inl, inr}
use agentic_coding_stack.Prelude.Tests.{Bool-cases, if◌then◌else◌}
use mathlib.Core.Bool.{Bool, true, false, ◌&&◌, ◌||◌}
use mathlib.Core.List.{List, [], ◌∷◌, ◌++◌}
use mathlib.Core.Option.{Option, none, some}
use native.Mathlib.Omega.{arith}

or_true : (b : Bool) → b || true ≡ true
or_true true = refl
or_true false = refl

module _ {ℓ} {A : Type ℓ} where
  abbrev pub length : List A → ℕ
  length [] = 0
  length (x ∷ xs) = suc (length xs)

  abbrev pub get_elem? : List A → ℕ → Option A
  get_elem? [] i = none
  get_elem? (x ∷ xs) zero = some x
  get_elem? (x ∷ xs) (suc i) = get_elem? xs i

  abbrev pub take : ℕ → List A → List A
  take zero xs = []
  take (suc n) [] = []
  take (suc n) (x ∷ xs) = x ∷ take n xs

  -- `any(p(x) for x in xs)` and `all(p(x) for x in xs)`.
  abbrev pub any : (A → Bool) → List A → Bool
  any p [] = false
  any p (x ∷ xs) = p x || any p xs

  abbrev pub all : (A → Bool) → List A → Bool
  all p [] = true
  all p (x ∷ xs) = p x && all p xs

  pub length-append : (xs ys : List A) → length (xs ++ ys) ≡ length xs + length ys
  length-append [] ys = omega arith
  length-append (x ∷ xs) ys = omega (arith, length-append xs ys)

  pub length-take-le : (n : ℕ) (xs : List A) → length (take n xs) ≤ n
  length-take-le zero xs = omega arith
  length-take-le (suc n) [] = omega arith
  length-take-le (suc n) (x ∷ xs) = omega (arith, length-take-le n xs)

  -- A predicate on every element.
  abbrev pub All {κ} : (A → Type κ) → List A → Type κ
  All P [] = Unit
  All P (x ∷ xs) = P x × All P xs

  pub All-append {κ} : (P : A → Type κ) (xs ys : List A) → All P xs → All P ys → All P (xs ++ ys)
  All-append P [] ys hx hy = hy
  All-append P (x ∷ xs) ys hx hy = (hx.0, All-append P xs ys hx.1 hy)

module _ {A : Type 0} where
  -- Membership in a list, as data.
  abbrev pub In : A → List A → Type 0
  In a [] = ⊥
  In a (x ∷ xs) = (a ≡ x) ⊎ In a xs

  pub In-append_left : (xs ys : List A) (a : A) → In a xs → In a (xs ++ ys)
  In-append_left [] ys a i = elim i [ ]
  In-append_left (x ∷ xs) ys a (inl e) = inl e
  In-append_left (x ∷ xs) ys a (inr i) = inr (In-append_left xs ys a i)

  pub In-append_right : (xs ys : List A) (a : A) → In a ys → In a (xs ++ ys)
  In-append_right [] ys a i = i
  In-append_right (x ∷ xs) ys a i = inr (In-append_right xs ys a i)

  abbrev pub count : (A → Bool) → List A → ℕ
  count p [] = 0
  count p (x ∷ xs) = let n = count p xs in if p x then suc n else n

  abbrev pub keep : (A → Bool) → List A → List A
  keep p [] = []
  keep p (x ∷ xs) = let rest = keep p xs in if p x then x ∷ rest else rest

  pub any-In : (p : A → Bool) (xs : List A) → any p xs ≡ true → (a : A) × In a xs × (p a ≡ true)
  any-In p [] h = cc
  any-In p (x ∷ xs) h = elim (Bool-cases (p x)) [
    | inl e ↦ (x, inl refl, e)
    | inr e ↦ let (a, i, q) = any-In p xs (rw e at h) in (a, inr i, q)
  ]

  pub In-any : (p : A → Bool) (xs : List A) (a : A) → In a xs → p a ≡ true → any p xs ≡ true
  In-any p [] a i e = elim i [ ]
  In-any p (x ∷ xs) a (inl same) e = rw (ap p (sym same) ∙ e) refl
  In-any p (x ∷ xs) a (inr i) e = rw (In-any p xs a i e) (or_true (p x))

  pub any_mono :
      (p q : A → Bool) (xs : List A)
      → ((a : A) → In a xs → p a ≡ true → q a ≡ true)
      → any p xs ≡ true
      → any q xs ≡ true
  any_mono p q xs h e = let (a, i, pa) = any-In p xs e in In-any q xs a i (h a i pa)

  pub In-keep : (p : A → Bool) (xs : List A) (a : A) → In a xs → p a ≡ true → In a (keep p xs)
  In-keep p [] a i e = elim i [ ]
  In-keep p (x ∷ xs) a (inl same) e = rw (ap p (sym same) ∙ e) (inl same)
  In-keep p (x ∷ xs) a (inr i) e = elim (Bool-cases (p x)) [
    | inl q ↦ rw q (inr (In-keep p xs a i e))
    | inr q ↦ rw q (In-keep p xs a i e)
  ]

  pub keep-In : (p : A → Bool) (xs : List A) (a : A) → In a (keep p xs) → In a xs × (p a ≡ true)
  keep-In p [] a i = elim i [ ]
  keep-In p (x ∷ xs) a i = elim (Bool-cases (p x)) [
    | inl q ↦ elim (let j : (a ≡ x) ⊎ In a (keep p xs) = rw q at i in j) [
      | inl same ↦ (inl same, ap p same ∙ q)
      | inr j ↦ let (k, e) = keep-In p xs a j in (inr k, e)
    ]
    | inr q ↦ let (k, e) = keep-In p xs a (rw q at i) in (inr k, e)
  ]

  pub All-In {κ} : (P : A → Type κ) (xs : List A) (a : A) → All P xs → In a xs → P a
  All-In P [] a h i = elim i [ ]
  All-In P (x ∷ xs) a h (inl same) = subst P (sym same) h.0
  All-In P (x ∷ xs) a h (inr i) = All-In P xs a h.1 i

  count_mono :
      (p q : A → Bool) (xs : List A)
      → ((a : A) → In a xs → p a ≡ true → q a ≡ true)
      → count p xs ≤ count q xs
  count_mono p q [] h = omega arith
  count_mono p q (x ∷ xs) h = ground (arith, h x (inl refl), count_mono p q xs (λ a i. h a (inr i)))

  -- A stronger test that fails where a weaker one passes counts fewer.
  pub count-lt :
      (p q : A → Bool) (xs : List A) (d : A)
      → ((a : A) → In a xs → p a ≡ true → q a ≡ true)
      → In d xs
      → p d ≡ false
      → q d ≡ true
      → count p xs < count q xs
  count-lt p q [] d h i e e' = elim i [ ]
  count-lt p q (x ∷ xs) d h (inl same) e e' =
      ground (arith, ap p same, ap q same, count_mono p q xs (λ a i. h a (inr i)))
  count-lt p q (x ∷ xs) d h (inr i) e e' =
      ground (arith, h x (inl refl), count-lt p q xs d (λ a i. h a (inr i)) i e e')
