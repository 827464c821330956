-- ===== src/Conductor/Memory/Remembered.antt =====
-- `write_package` as changes of the database, one for each transaction.
use agentic_coding_stack.Prelude.{
  String, ◌≡◌, refl, ◌∙◌, ◌⊎◌, inl, inr, Bool, true, false, Option, none, some, List, [], ◌∷◌,
  length, if◌then◌else◌,
}
use agentic_coding_stack.Base.Exec.{Error, crash, Result, ok, err, pure, ◌>>◌, bind-eq}
use agentic_coding_stack.Shared.Schemas.{CandidatePlan, ExecutionPackageRequest, MemoryWriteReport}
use agentic_coding_stack.Conductor.World.{Db, World, Action, write}
use agentic_coding_stack.Conductor.Outside.{Outside}
use agentic_coding_stack.Conductor.Package.{classify_package_status}
use agentic_coding_stack.Conductor.Frontier.{Floats, pareto_filter, pareto_from}
use agentic_coding_stack.Conductor.Memory.{
  some_issue, detect_surprise, stored_alternatives, chosen_row, residual_row, add_alternatives,
  filter_materially_distinct, distinct_from, add_chosen, add_frontier, add_residual, commit,
  commit_frontier, write_chosen, write_frontier, write_residual, write_chosen_if, write_residual_if,
  write_package,
}

abbrev pub is_canonical : ExecutionPackageRequest → Bool
is_canonical r = (classify_package_status r.execution_result.status).canonical_memory_allowed

module _ {E : Type 0} (o : Outside E) (f : Floats) (r : ExecutionPackageRequest) where
  abbrev alternatives : List CandidatePlan
  alternatives = stored_alternatives f r.chosen_candidate r.feasible_unchosen_candidates

  abbrev reasons : List String
  reasons = detect_surprise r.execution_result

  abbrev add_chosen_if : Bool → Db → Db
  add_chosen_if b db = record db {
    chosen_memory = if b then chosen_row o f r ∷ db.chosen_memory else db.chosen_memory;
  }

  abbrev add_residual_if : List String → Db → Db
  add_residual_if xs db = record db {
    residual_memory =
        if some_issue xs then residual_row o f r xs ∷ db.residual_memory else db.residual_memory;
  }

  -- The database after the first transaction of a request, after the second and after the last.
  abbrev pub remember_chosen : Db → Db
  remember_chosen db = add_chosen_if (is_canonical r) db

  abbrev pub remember_frontier : Db → Db
  remember_frontier db = add_frontier o f r alternatives (remember_chosen db)

  abbrev pub remember : Db → Db
  remember db = add_residual_if reasons (remember_frontier db)

  abbrev pub memory_report : MemoryWriteReport
  memory_report = record {
    chosen_written = is_canonical r;
    frontier_written = length alternatives;
    residual_written = some_issue (detect_surprise r.execution_result);
    surprise_reasons = detect_surprise r.execution_result;
  }

  -- A step that returns a value and changes the database, or raises what the transaction on the table
  -- raises and changes nothing.
  abbrev Either :
      {A : Type 0} → String → A → (Db → Db) → World E → Result Error A × World E → Type 0
  Either table a change w out =
      (out ≡ (ok a, record w { db = change w.db }))
      ⊎ ((text : String) × (o.commit_error table w.reads ≡ some text)
          × (out ≡ (err (crash text), w)))

  commit-Either :
      (table : String) (change : Db → Db) (w : World E)
      → Either table tt change w (commit o f table change w)
  unfolding commit write
  commit-Either table change w = go (o.commit_error table w.reads) refl
    where
      go :
          (x : Option String)
          → o.commit_error table w.reads ≡ x
          → Either table tt change w (commit o f table change w)
      go none e = inl (rw (commit, e) refl)
      go (some text) e = inr (text, e, rw (commit, e) refl)

  then-Either :
      {A : Type 0} (table : String) (m : Action E (Unit {0})) (a : A) (change : Db → Db)
      (w : World E)
      → Either table tt change w (m w)
      → Either table a change w ((m >> pure a) w)
  then-Either table m a change w (inl e) = inl (bind-eq m (λ _. pure a) w e)
  then-Either table m a change w (inr (text, why, e)) = inr (text, why, bind-eq m (λ _. pure a) w e)

  write_chosen_if-Either :
      (b : Bool) (w : World E)
      → Either "chosen_memory" b (add_chosen_if b) w (write_chosen_if o f b r w)
  unfolding write_chosen_if write_chosen
  write_chosen_if-Either true w =
      then-Either "chosen_memory" (commit o f "chosen_memory" (add_chosen o f r)) true
        (add_chosen o f r) w (commit-Either "chosen_memory" (add_chosen o f r) w)
  write_chosen_if-Either false w = inl refl

  write_frontier-Either :
      (cs : List CandidatePlan) (w : World E)
      → let stored = stored_alternatives f r.chosen_candidate cs in
        Either "frontier_memory"
          (length stored)
          (add_frontier o f r stored)
          w
          (write_frontier o f r cs w)
  unfolding write_frontier commit_frontier stored_alternatives filter_materially_distinct
      distinct_from pareto_filter pareto_from add_alternatives
  write_frontier-Either [] w = inl refl
  write_frontier-Either (c ∷ cs) w =
      let stored = stored_alternatives f r.chosen_candidate (c ∷ cs) in
      then-Either "frontier_memory" (commit o f "frontier_memory" (add_frontier o f r stored))
        (length stored) (add_frontier o f r stored) w
        (commit-Either "frontier_memory" (add_frontier o f r stored) w)

  write_residual_if-Either :
      (xs : List String) (w : World E)
      → Either "residual_memory"
          (some_issue xs)
          (add_residual_if xs)
          w
          (write_residual_if o f xs r w)
  unfolding write_residual_if write_residual
  write_residual_if-Either [] w = inl refl
  write_residual_if-Either (x ∷ xs) w =
      then-Either "residual_memory" (commit o f "residual_memory" (add_residual o f r (x ∷ xs)))
        true (add_residual o f r (x ∷ xs)) w
        (commit-Either "residual_memory" (add_residual o f r (x ∷ xs)) w)

  -- What `write_package` does: all its transactions, with a report, or those before the one that
  -- raises.
  pub data Written (w : World E) (out : Result Error MemoryWriteReport × World E) : Type 0 where
    all_written : out ≡ (ok memory_report, record w { db = remember w.db }) → Written w out
    chosen_raises :
        (text : String)
        → o.commit_error "chosen_memory" w.reads ≡ some text
        → out ≡ (err (crash text), w)
        → Written w out
    frontier_raises :
        (text : String)
        → o.commit_error "frontier_memory" w.reads ≡ some text
        → out ≡ (err (crash text), record w { db = remember_chosen w.db })
        → Written w out
    residual_raises :
        (text : String)
        → o.commit_error "residual_memory" w.reads ≡ some text
        → out ≡ (err (crash text), record w { db = remember_frontier w.db })
        → Written w out

  pub write_package-Written : (w : World E) → Written w (write_package o f r w)
  unfolding write_package
  write_package-Written w = elim (write_chosen_if-Either (is_canonical r) w) [
    | inr (text, why, e) ↦
        chosen_raises text why (bind-eq (write_chosen_if o f (is_canonical r) r) _ w e)
    | inl e ↦
        let w1 : World E = record w { db = remember_chosen w.db } in
        let one = bind-eq (write_chosen_if o f (is_canonical r) r) _ w e in
        elim (write_frontier-Either r.feasible_unchosen_candidates w1) [
          | inr (text, why, e') ↦
              frontier_raises text why
                (one ∙ bind-eq (write_frontier o f r r.feasible_unchosen_candidates) _ w1 e')
          | inl e' ↦
              let w2 : World E = record w { db = remember_frontier w.db } in
              let two = bind-eq (write_frontier o f r r.feasible_unchosen_candidates) _ w1 e' in
              elim (write_residual_if-Either reasons w2) [
                | inr (text, why, e'') ↦
                    residual_raises text why
                      (one ∙ (two ∙ bind-eq (write_residual_if o f reasons r) _ w2 e''))
                | inl e'' ↦
                    all_written (one ∙ (two ∙ bind-eq (write_residual_if o f reasons r) _ w2 e''))
              ]
        ]
  ]

  -- Where no transaction raises, all of it is written.
  pub write_package-eq :
      (w : World E)
      → ((table : String) → o.commit_error table w.reads ≡ none)
      → write_package o f r w ≡ (ok memory_report, record w { db = remember w.db })
  write_package-eq w fine = elim (write_package-Written w) [
    | all_written e ↦ e
    | chosen_raises text why e ↦ cc (fine "chosen_memory", why)
    | frontier_raises text why e ↦ cc (fine "frontier_memory", why)
    | residual_raises text why e ↦ cc (fine "residual_memory", why)
  ]
