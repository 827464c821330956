-- ===== src/Conductor/Routes/Package/Gating.antt =====
-- What a packaging request does to the memories, on every path.
use mathlib.Core.Path.{subst}
use agentic_coding_stack.Prelude.{
  ◌+◌, String, ◌≡◌, refl, sym, ap, ◌∙◌, false, inl, inr, Option, none, some, List, [], ◌∷◌, str_eq,
  eq_iff, one_of, Bool-cases,
}
use agentic_coding_stack.Base.Json.{str, end, field}
use agentic_coding_stack.Base.Exec.{Error, crash, Result, ok, err, bind-eq}
use agentic_coding_stack.Shared.Schemas.{ExecutionPackageRequest, ExecutionPackageResponse}
use agentic_coding_stack.Conductor.Db.{
  JsonText, absent, malformed, text_of, IdempotencyRow, MemoryRow, latest,
}
use agentic_coding_stack.Conductor.World.{Db, World, read_clock, query, write}
use agentic_coding_stack.Conductor.Outside.{Outside, Settings}
use agentic_coding_stack.Conductor.Governance.{
  allowed_roles, enforce_role, authorize_action, ledger,
}
use agentic_coding_stack.Conductor.Reliability.{emit}
use agentic_coding_stack.Conductor.Package.{classify_package_status}
use agentic_coding_stack.Conductor.Frontier.{Floats}
use agentic_coding_stack.Conductor.Memory.{write_package}
use agentic_coding_stack.Conductor.Memory.Remembered.{
  remember, remember_chosen, remember_frontier, memory_report, is_canonical, all_written,
  chosen_raises, frontier_raises, residual_raises, write_package-Written, write_package-eq,
}
use agentic_coding_stack.Conductor.Routes.Attempts.{Failed}
use agentic_coding_stack.Conductor.Routes.Package.{
  begin_package, complete_package, package_mode, package_cause, package_response, reject_status,
  package_again, replay_package, refuse_package_in_progress, package_fresh, dispatch_package,
  package_checked, package_key, package_execution,
}

abbrev pub memories : Db → List MemoryRow × (List MemoryRow × List MemoryRow)
memories db = (db.chosen_memory, (db.frontier_memory, db.residual_memory))

-- A part of the transactions of a request: none, the first, or the first two.
pub data Partly {E : Type 0} (o : Outside E) (f : Floats) (r : ExecutionPackageRequest)
    (db db' : Db) : Type 0 where
  none_kept : db' ≡ db → Partly o f r db db'
  chosen_kept : db' ≡ remember_chosen o f r db → Partly o f r db db'
  frontier_kept : db' ≡ remember_frontier o f r db → Partly o f r db db'

module _ {E : Type 0} (o : Outside E) (f : Floats) (s : Settings) (job : String)
    (r : ExecutionPackageRequest) (key : String) where
  -- The world in which the row of a fresh package is in progress.
  abbrev pub begun : World E → World E
  begun w = record w { db = begin_package job key (o.clock w.reads) w.db; reads = w.reads + 1 }

  -- The world in which a fresh package was written to the memories.
  abbrev pub packaged : World E → World E
  packaged w = record w {
    db = remember o f r (begin_package job key (o.clock w.reads) w.db);
    reads = w.reads + 1;
  }

  -- The world after that.
  abbrev pub finished : World E → World E
  finished w =
      (emit o.clock job "package" "final" "completed" (package_cause r) false key
        (field "package_mode" (str (package_mode r)) end)
        (record (packaged w) {
          db =
              complete_package job key (package_cause r)
                (package_response o f s r key (memory_report o f r)) (o.clock (packaged w).reads)
                (packaged w).db;
          reads = (packaged w).reads + 1;
        })).1

  pub package_fresh-eq :
      (w : World E)
      → ((table : String) → o.commit_error table (w.reads + 1) ≡ none)
      → package_fresh o f s job r key w
        ≡ (ok (package_response o f s r key (memory_report o f r)), finished w)
  unfolding package_fresh read_clock write emit
  package_fresh-eq w fine =
      bind-eq (write_package o f r) _ _ (write_package-eq o f r (begun w) fine)

  -- A fresh package is made, or a transaction on the memories raises and the row stays in progress.
  pub data Made (w : World E) (out : Result Error ExecutionPackageResponse × World E) : Type 0 where
    made : out ≡ (ok (package_response o f s r key (memory_report o f r)), finished w) → Made w out
    breaks_off :
        (text : String) (db' : Db)
        → Partly o f r (begun w).db db'
        → out ≡ (err (crash text), record (begun w) { db = db' })
        → Made w out

  pub package_fresh-Made : (w : World E) → Made w (package_fresh o f s job r key w)
  unfolding package_fresh read_clock write emit
  package_fresh-Made w = elim (write_package-Written o f r (begun w)) [
    | all_written e ↦ made (bind-eq (write_package o f r) _ (begun w) e)
    | chosen_raises text why e ↦
        breaks_off text (begun w).db (none_kept refl) (bind-eq (write_package o f r) _ (begun w) e)
    | frontier_raises text why e ↦
        breaks_off text (remember_chosen o f r (begun w).db) (chosen_kept refl)
          (bind-eq (write_package o f r) _ (begun w) e)
    | residual_raises text why e ↦
        breaks_off text (remember_frontier o f r (begun w).db) (frontier_kept refl)
          (bind-eq (write_package o f r) _ (begun w) e)
  ]

abbrev pub Succeeded : {A : Type 0} → Result Error A → Type 0
Succeeded (ok a) = Unit
Succeeded (err e) = ⊥

-- The three memories are as they were, and the request failed or the latest row of its key is
-- completed; or a packageable execution was remembered once, and the request
-- succeeded; or a transaction raised, and they hold what the transactions before it wrote.
pub data Effect {E : Type 0} (o : Outside E) (f : Floats) (s : Settings) (job : String)
    (r : ExecutionPackageRequest) (w : World E)
    (out : Result Error ExecutionPackageResponse × World E) : Type 0 where
  refuses : Failed out.0 → memories out.1.db ≡ memories w.db → Effect o f s job r w out
  replays :
      (row : IdempotencyRow ExecutionPackageResponse)
      → latest job (package_key o f s r) w.db.package_idempotency ≡ some row
      → row.status ≡ "completed"
      → memories out.1.db ≡ memories w.db
      → Effect o f s job r w out
  remembers :
      (classify_package_status r.execution_result.status).rejected ≡ false
      → Succeeded out.0
      → memories out.1.db ≡ memories (remember o f r w.db)
      → Effect o f s job r w out
  stops_after_chosen :
      (classify_package_status r.execution_result.status).rejected ≡ false
      → Failed out.0
      → memories out.1.db ≡ memories (remember_chosen o f r w.db)
      → Effect o f s job r w out
  stops_after_frontier :
      (classify_package_status r.execution_result.status).rejected ≡ false
      → Failed out.0
      → memories out.1.db ≡ memories (remember_frontier o f r w.db)
      → Effect o f s job r w out

module _ {E : Type 0} (o : Outside E) (f : Floats) (s : Settings) (job : String)
    (r : ExecutionPackageRequest) (key : String) where
  reject_status-keeps :
      (w : World E)
      → memories (reject_status o f s job key r.execution_result.status w).1.db ≡ memories w.db
  unfolding reject_status emit read_clock write
  reject_status-keeps w = refl

  package_again-keeps :
      (x : JsonText ExecutionPackageResponse) (w : World E)
      → memories (package_again o f s key x w).1.db ≡ memories w.db
  unfolding package_again
  package_again-keeps absent w = refl
  package_again-keeps (malformed s) w = refl
  package_again-keeps (text_of x) w = refl

  replay_package-keeps :
      (role : String) (row : IdempotencyRow ExecutionPackageResponse) (w : World E)
      → memories (replay_package o f s job key role row w).1.db ≡ memories w.db
  unfolding replay_package authorize_action enforce_role ledger emit read_clock write
  replay_package-keeps role row w =
      elim (Bool-cases (one_of role (allowed_roles "replay_package"))) [
        | inl may ↦ rw may (package_again-keeps row.response_payload _)
        | inr may ↦ rw may refl
      ]

  in_progress-keeps :
      (role : String) (w : World E)
      → memories (refuse_package_in_progress o f s job key role w).1.db ≡ memories w.db
  unfolding refuse_package_in_progress enforce_role emit read_clock write
  in_progress-keeps role w = elim (Bool-cases (one_of role (allowed_roles "replay_package"))) [
    | inl may ↦ rw may refl
    | inr may ↦ rw may refl
  ]

  reject_status-Failed :
      (w : World E) → Failed (reject_status o f s job key r.execution_result.status w).0
  unfolding reject_status emit read_clock write
  reject_status-Failed w = tt

  in_progress-Failed :
      (role : String) (w : World E) → Failed (refuse_package_in_progress o f s job key role w).0
  unfolding refuse_package_in_progress enforce_role emit read_clock write
  in_progress-Failed role w = elim (Bool-cases (one_of role (allowed_roles "replay_package"))) [
    | inl may ↦ rw may tt
    | inr may ↦ rw may tt
  ]

  pub finished-remembers :
      (w : World E) → memories (finished o f s job r key w).db ≡ memories (remember o f r w.db)
  unfolding emit read_clock write begin_package complete_package
  finished-remembers w = refl

  pub finished-ext : (w : World E) → (finished o f s job r key w).ext ≡ w.ext
  unfolding emit read_clock write
  finished-ext w = refl

  Made-Effect :
      (w : World E) (out : Result Error ExecutionPackageResponse × World E)
      → (classify_package_status r.execution_result.status).rejected ≡ false
      → Made o f s job r key w out
      → Effect o f s job r w out
  unfolding begin_package
  Made-Effect w out h (made e) =
      subst (Effect o f s job r w) (sym e) (remembers h tt (finished-remembers w))
  Made-Effect w out h (breaks_off text db' (none_kept q) e) =
      subst (Effect o f s job r w) (sym e) (refuses tt (ap memories q))
  Made-Effect w out h (breaks_off text db' (chosen_kept q) e) =
      subst (Effect o f s job r w) (sym e) (stops_after_chosen h tt (ap memories q))
  Made-Effect w out h (breaks_off text db' (frontier_kept q) e) =
      subst (Effect o f s job r w) (sym e) (stops_after_frontier h tt (ap memories q))

  package_fresh-Effect :
      (w : World E)
      → (classify_package_status r.execution_result.status).rejected ≡ false
      → Effect o f s job r w (package_fresh o f s job r key w)
  package_fresh-Effect w h = Made-Effect w _ h (package_fresh-Made o f s job r key w)

module _ {E : Type 0} (o : Outside E) (f : Floats) (s : Settings) (job : String)
    (r : ExecutionPackageRequest) where
  abbrev key_of : String
  key_of = package_key o f s r

  dispatch_package-Effect :
      (role : String) (x : Option (IdempotencyRow ExecutionPackageResponse)) (w : World E)
      → latest job key_of w.db.package_idempotency ≡ x
      → (classify_package_status r.execution_result.status).rejected ≡ false
      → Effect o f s job r w (dispatch_package o f s job r key_of role x w)
  unfolding dispatch_package
  dispatch_package-Effect role none w same h = package_fresh-Effect o f s job r key_of w h
  dispatch_package-Effect role (some row) w same h =
      elim (Bool-cases (str_eq row.status "completed")) [
        | inl e ↦ rw e (
            replays row same ((eq_iff row.status "completed").0 e)
              (replay_package-keeps o f s job r key_of role row w))
        | inr e ↦ elim (Bool-cases (str_eq row.status "in_progress")) [
          | inl e' ↦
              rw (e, e')
                (refuses (in_progress-Failed o f s job r key_of role w)
                  (in_progress-keeps o f s job r key_of role w))
          | inr e' ↦ rw (e, e') (package_fresh-Effect o f s job r key_of w h)
        ]
      ]

-- What a packaging request leaves in the chosen, the frontier and the residual memory, whatever it
-- finds, whoever sends it and whichever of the three transactions raises. Either they stay as they
-- were, and the request fails or the latest row of its key is completed; or the execution has a
-- status that may be packaged, the request succeeds, and they hold, besides what they held, the rows
-- of this one request; or the status may be packaged, the request fails, and they hold, besides what
-- they held, the chosen row of this request where the status allows one, and either nothing else or
-- also its frontier rows.
pub package_execution-Effect :
    {E : Type 0} (o : Outside E) (f : Floats) (s : Settings) (job : String)
    (r : ExecutionPackageRequest) (role : String) (w : World E)
    → Effect o f s job r w (package_execution o f s job r role w)
unfolding package_execution package_checked query
package_execution-Effect o f s job r role w = elim (Bool-cases (str_eq r.job_id job)) [
  | inr other ↦ rw other (refuses tt refl)
  | inl same ↦ elim (Bool-cases (classify_package_status r.execution_result.status).rejected) [
    | inl e ↦
        rw (same, e)
          (refuses (reject_status-Failed o f s job r (package_key o f s r) w)
            (reject_status-keeps o f s job r (package_key o f s r) w))
    | inr e ↦ rw (same, e) (dispatch_package-Effect o f s job r role _ w refl e)
  ]
]

not_canonical :
    (status : String)
    → str_eq status "completed" ≡ false
    → (classify_package_status status).canonical_memory_allowed ≡ false
unfolding classify_package_status
not_canonical status h = elim (Bool-cases (one_of status ("blocked" ∷ "failed" ∷ []))) [
  | inl e ↦ rw (h, e) refl
  | inr e ↦ rw (h, e) refl
]

-- No packaging request for an execution that is not completed adds to the chosen memory, on any
-- path.
pub unfinished-chosen_memory :
    {E : Type 0} (o : Outside E) (f : Floats) (s : Settings) (job : String)
    (r : ExecutionPackageRequest) (role : String) (w : World E)
    → str_eq r.execution_result.status "completed" ≡ false
    → (package_execution o f s job r role w).1.db.chosen_memory ≡ w.db.chosen_memory
unfinished-chosen_memory {E} o f s job r role w h =
    go (package_execution o f s job r role w) (package_execution-Effect o f s job r role w)
  where
    drop : is_canonical r ≡ false
    drop = not_canonical r.execution_result.status h

    go :
        (out : Result Error ExecutionPackageResponse × World E)
        → Effect o f s job r w out
        → out.1.db.chosen_memory ≡ w.db.chosen_memory
    go out (refuses bad e) = ap (λ m. m.0) e
    go out (replays row x done e) = ap (λ m. m.0) e
    go out (remembers a ok_so e) = ap (λ m. m.0) e ∙ rw drop refl
    go out (stops_after_chosen a bad e) = ap (λ m. m.0) e ∙ rw drop refl
    go out (stops_after_frontier a bad e) = ap (λ m. m.0) e ∙ rw drop refl
