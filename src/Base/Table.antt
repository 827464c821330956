-- ===== src/Base/Table.antt =====
-- A table with a unique text column, such as `job_id`, as an association list.
use agentic_coding_stack.Prelude.{
  String, ◌≡◌, refl, Option, none, some, List, [], ◌∷◌, arith, str_eq, eq_iff, eq_refl,
  if◌then◌else◌,
}

abbrev pub Table {ℓ} : Type ℓ → Type ℓ
Table V = List (String × V)

module _ {ℓ} {V : Type ℓ} where
  -- SELECT ... WHERE key = :k
  unfoldable pub find : String → Table V → Option V
  find k [] = none
  find k ((j, v) ∷ t) = if str_eq j k then some v else find k t

  -- The row of the key is replaced where it is, or a row is added at the end.
  unfoldable pub store : String → V → Table V → Table V
  store k v [] = (k, v) ∷ []
  store k v ((j, w) ∷ t) = if str_eq j k then (j, v) ∷ t else (j, w) ∷ store k v t

  pub find-store :
      (k j : String) (v : V) (t : Table V)
      → find j (store k v t) ≡ (if str_eq k j then some v else find j t)
  unfolding find store
  find-store k j v [] = refl
  find-store k j v ((i, w) ∷ t) =
      ground (arith, eq_iff k j, eq_iff i k, eq_iff i j, find-store k j v t)

  pub find-store_self : (k : String) (v : V) (t : Table V) → find k (store k v t) ≡ some v
  find-store_self k v t = simp (find-store, eq_refl)
