-- ===== src/Conductor/Invariants/Gated.antt =====
-- Packaging keeps what the memory check of an invariant report looks for.
use mathlib.Core.Path.{subst}
use agentic_coding_stack.Prelude.{
  ℕ, String, ◌≡◌, refl, sym, ap, true, false, inl, inr, Option, none, some, List, [], ◌∷◌, All,
  str_eq, one_of, Bool-cases, ◌&&◌,
}
use agentic_coding_stack.Base.Json.{Json, obj, end}
use agentic_coding_stack.Base.Exec.{Error, Result, ok, err}
use agentic_coding_stack.Base.Chain.{◌>>>=◌}
use agentic_coding_stack.Shared.Schemas.{ExecutionPackageRequest, ExecutionPackageResponse}
use agentic_coding_stack.Shared.Parsing.{get_from}
use agentic_coding_stack.Conductor.Db.{
  JsonText, absent, malformed, text_of, IdempotencyRow, complete,
}
use agentic_coding_stack.Conductor.World.{Db, World, read_clock, query, write}
use agentic_coding_stack.Conductor.Outside.{Outside, Settings}
use agentic_coding_stack.Conductor.Governance.{
  allowed_roles, enforce_role, authorize_action, ledger,
}
use agentic_coding_stack.Conductor.Reliability.{emit}
use agentic_coding_stack.Conductor.Package.{mode, classify_package_status}
use agentic_coding_stack.Conductor.Frontier.{Floats}
use agentic_coding_stack.Conductor.Memory.Remembered.{memory_report, is_canonical}
use agentic_coding_stack.Conductor.Routes.Package.{
  begin_package, complete_package, package_mode, package_cause, package_response, reject_status,
  package_again, replay_package, refuse_package_in_progress, package_fresh, dispatch_package,
  package_checked, package_key, package_execution,
}
use agentic_coding_stack.Conductor.Routes.Package.Gating.{
  Partly, none_kept, chosen_kept, frontier_kept, begun, finished, Made, made, breaks_off,
  package_fresh-Made,
}
use agentic_coding_stack.Conductor.Invariants.{
  InvariantCheck, dump_package, package_payload, newest_of, gating, check, remark, memory_checks,
}

abbrev pub Row : Type 0
Row = IdempotencyRow ExecutionPackageResponse

-- The response under which a row is stored passes the check of the gating.
abbrev pub IsGated : (String → Option Json) → Row → Type 0
IsGated loads row = gating (package_payload loads row.response_payload) ≡ ok true

-- The memory checks of a job all pass.
abbrev pub Passes : Result String (List InvariantCheck) → Type 0
Passes (ok checks) = All (λ item. item.ok_flag ≡ true) checks
Passes (err text) = ⊥

memory_checks-Passes :
    (loads : String → Option Json) (job : String) (db : Db)
    → All (IsGated loads) db.package_idempotency
    → Passes (memory_checks loads job db)
unfolding memory_checks newest_of
memory_checks-Passes loads job db all = go db.package_idempotency all
  where
    go :
        (rows : List Row)
        → All (IsGated loads) rows
        → Passes (elim (newest_of job rows) [
          | none ↦ ok (remark "memory_gating_optional" true none "no package payload" ∷ [])
          | some row ↦ gating (package_payload loads row.response_payload) >>>= λ passed.
              ok (check "memory_canonical_gating" passed "INVAR_MEMORY_GATING_VIOLATION" ∷ [])
        ])
    go [] all = (refl, tt)
    go (row ∷ rows) all = elim (Bool-cases (str_eq row.job_id job)) [
      | inl e ↦ rw (e, all.0) (refl, tt)
      | inr e ↦ rw e (go rows all.1)
    ]

gating-empty : gating (obj end) ≡ ok true
unfolding gating get_from
gating-empty = refl

complete-All :
    (P : Row → Type 0) (job key cause : String) (response : ExecutionPackageResponse) (now : ℕ)
    (rows : List Row)
    → ((row : Row)
        → P (record row {
          status = "completed";
          cause_code = cause;
          response_payload = text_of response;
          updated_at = now;
        }))
    → All P rows
    → All P (complete job key cause response now rows)
unfolding complete
complete-All P job key cause response now [] done all = tt
complete-All P job key cause response now (row ∷ rows) done all =
    let rest = complete-All P job key cause response now rows done all.1 in
    elim (Bool-cases (str_eq row.job_id job && str_eq row.idempotency_key key)) [
      | inl e ↦ rw e (done row, rest)
      | inr e ↦ rw e (all.0, rest)
    ]

module _ {E : Type 0} (o : Outside E) (f : Floats) (s : Settings) (job : String)
    (r : ExecutionPackageRequest) (key : String) where
  canonical_cause :
      (classify_package_status r.execution_result.status).rejected ≡ false
      → is_canonical r ≡ true
      → package_cause r ≡ "PACKAGE_OK_CANONICAL"
  unfolding package_cause package_mode mode
  canonical_cause accepted e = rw (accepted, e) refl

  -- The response to a packageable execution says so where the chosen memory was written.
  response-IsGated :
      (classify_package_status r.execution_result.status).rejected ≡ false
      → gating (obj (dump_package (package_response o f s r key (memory_report o f r)))) ≡ ok true
  unfolding gating get_from dump_package package_response
  response-IsGated accepted = elim (Bool-cases (is_canonical r)) [
    | inl e ↦ rw (canonical_cause accepted e, e) refl
    | inr e ↦ rw e refl
  ]

  -- json.loads reads {} from the text that a row in progress holds.
  module _ (loads_empty : o.loads "{}" ≡ some (obj end)) where
    abbrev Gated : World E → Type 0
    Gated w = All (IsGated o.loads) w.db.package_idempotency

    reject_status-Gated :
        (w : World E) → Gated w → Gated (reject_status o f s job key r.execution_result.status w).1
    unfolding reject_status emit read_clock write
    reject_status-Gated w all = all

    package_again-Gated :
        (x : JsonText ExecutionPackageResponse) (w : World E)
        → Gated w
        → Gated (package_again o f s key x w).1
    unfolding package_again
    package_again-Gated absent w all = all
    package_again-Gated (malformed raw) w all = all
    package_again-Gated (text_of x) w all = all

    replay_package-Gated :
        (role : String) (row : Row) (w : World E)
        → Gated w
        → Gated (replay_package o f s job key role row w).1
    unfolding replay_package authorize_action enforce_role ledger emit read_clock write
    replay_package-Gated role row w all =
        elim (Bool-cases (one_of role (allowed_roles "replay_package"))) [
          | inl may ↦ rw may (package_again-Gated row.response_payload _ all)
          | inr may ↦ rw may all
        ]

    in_progress-Gated :
        (role : String) (w : World E)
        → Gated w
        → Gated (refuse_package_in_progress o f s job key role w).1
    unfolding refuse_package_in_progress enforce_role emit read_clock write
    in_progress-Gated role w all =
        elim (Bool-cases (one_of role (allowed_roles "replay_package"))) [
          | inl may ↦ rw may all
          | inr may ↦ rw may all
        ]

    finished-Gated :
        (w : World E)
        → (classify_package_status r.execution_result.status).rejected ≡ false
        → Gated w
        → Gated (finished o f s job r key w)
    unfolding emit read_clock write begin_package complete_package package_payload
    finished-Gated w accepted all =
        complete-All (IsGated o.loads) job key (package_cause r)
          (package_response o f s r key (memory_report o f r)) _ _
          (λ row. response-IsGated accepted) (begun, all)
      where
        begun : gating (package_payload o.loads (malformed "{}")) ≡ ok true
        begun = rw (package_payload, loads_empty) gating-empty

    -- A row in progress passes, and a part of the transactions leaves the rows of the packages.
    begun-Gated : (w : World E) → Gated w → Gated (begun o f s job r key w)
    unfolding begin_package package_payload
    begun-Gated w all = (rw (package_payload, loads_empty) gating-empty, all)

    Partly-rows :
        (db db' : Db) → Partly o f r db db' → db'.package_idempotency ≡ db.package_idempotency
    Partly-rows db db' (none_kept e) = ap (λ q. q.package_idempotency) e
    Partly-rows db db' (chosen_kept e) = ap (λ q. q.package_idempotency) e
    Partly-rows db db' (frontier_kept e) = ap (λ q. q.package_idempotency) e

    Made-Gated :
        (w : World E) (out : Result Error ExecutionPackageResponse × World E)
        → (classify_package_status r.execution_result.status).rejected ≡ false
        → Gated w
        → Made o f s job r key w out
        → Gated out.1
    Made-Gated w out accepted all (made e) =
        subst (λ p. Gated p.1) (sym e) (finished-Gated w accepted all)
    Made-Gated w out accepted all (breaks_off text db' part e) =
        subst (λ p. Gated p.1) (sym e)
          (subst (All (IsGated o.loads)) (sym (Partly-rows _ db' part)) (begun-Gated w all))

    package_fresh-Gated :
        (w : World E)
        → (classify_package_status r.execution_result.status).rejected ≡ false
        → Gated w
        → Gated (package_fresh o f s job r key w).1
    package_fresh-Gated w accepted all =
        Made-Gated w _ accepted all (package_fresh-Made o f s job r key w)

    dispatch_package-Gated :
        (role : String) (x : Option Row) (w : World E)
        → (classify_package_status r.execution_result.status).rejected ≡ false
        → Gated w
        → Gated (dispatch_package o f s job r key role x w).1
    unfolding dispatch_package
    dispatch_package-Gated role none w h all = package_fresh-Gated w h all
    dispatch_package-Gated role (some row) w h all =
        elim (Bool-cases (str_eq row.status "completed")) [
          | inl e ↦ rw e (replay_package-Gated role row w all)
          | inr e ↦ elim (Bool-cases (str_eq row.status "in_progress")) [
            | inl e' ↦ rw (e, e') (in_progress-Gated role w all)
            | inr e' ↦ rw (e, e') (package_fresh-Gated w h all)
          ]
        ]

package_execution-Gated :
    {E : Type 0} (o : Outside E) (f : Floats) (s : Settings) (job : String)
    (r : ExecutionPackageRequest) (role : String) (w : World E)
    → o.loads "{}" ≡ some (obj end)
    → All (IsGated o.loads) w.db.package_idempotency
    → All (IsGated o.loads) (package_execution o f s job r role w).1.db.package_idempotency
unfolding package_execution package_checked query
package_execution-Gated o f s job r role w empty all = elim (Bool-cases (str_eq r.job_id job)) [
  | inr other ↦ rw other all
  | inl same ↦ elim (Bool-cases (classify_package_status r.execution_result.status).rejected) [
    | inl e ↦ rw (same, e) (reject_status-Gated o f s job r (package_key o f s r) empty w all)
    | inr e ↦
        rw (same, e) (dispatch_package-Gated o f s job r (package_key o f s r) empty role _ w e all)
  ]
]

-- The gating of the chosen memory is an invariant of packaging. Let json.loads read {} from "{}", and
-- let every stored packaging response that says the chosen memory was written have the cause
-- PACKAGE_OK_CANONICAL. After any packaging request, on every path and under every role, all stored
-- responses are still like that, and the memory check of an invariant report passes for every job.
pub package_execution-IsGated :
    {E : Type 0} (o : Outside E) (f : Floats) (s : Settings) (job : String)
    (r : ExecutionPackageRequest) (role : String) (w : World E)
    → o.loads "{}" ≡ some (obj end)
    → All (IsGated o.loads) w.db.package_idempotency
    → let db' = (package_execution o f s job r role w).1.db in
      All (IsGated o.loads) db'.package_idempotency
      × ((job' : String) → Passes (memory_checks o.loads job' db'))
package_execution-IsGated o f s job r role w empty all =
    let kept = package_execution-Gated o f s job r role w empty all in
    (kept, λ job'. memory_checks-Passes o.loads job' _ kept)
