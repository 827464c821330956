-- ===== src/Conductor/Routes/Package/Once.antt =====
-- What `package_execution` does with a key that was used before.
use mathlib.Core.Path.{subst}
use agentic_coding_stack.Prelude.{
  ℕ, ◌+◌, String, ◌≡◌, refl, sym, ap, ◌∙◌, true, false, none, some, one_of, eq_refl,
}
use agentic_coding_stack.Base.Exec.{Error, Result, ok}
use agentic_coding_stack.Shared.Schemas.{ExecutionPackageRequest, ExecutionPackageResponse}
use agentic_coding_stack.Conductor.Db.{text_of, IdempotencyRow, latest, complete}
use agentic_coding_stack.Conductor.World.{World, read_clock, query, write}
use agentic_coding_stack.Conductor.Outside.{Outside, Settings}
use agentic_coding_stack.Conductor.Governance.{
  allowed_roles, enforce_role, authorize_action, ledger,
}
use agentic_coding_stack.Conductor.Reliability.{emit}
use agentic_coding_stack.Conductor.Package.{classify_package_status}
use agentic_coding_stack.Conductor.Frontier.{Floats}
use agentic_coding_stack.Conductor.Memory.Remembered.{remember, memory_report}
use agentic_coding_stack.Conductor.Routes.Package.{
  begin_package, complete_package, package_cause, package_response, package_again, replay_package,
  dispatch_package, package_checked, package_key, package_execution,
}
use agentic_coding_stack.Conductor.Routes.Package.Gating.{
  memories, finished, package_fresh-eq, finished-remembers, finished-ext,
}

abbrev pub MayReplayPackage : String → Type 0
MayReplayPackage role = one_of role (allowed_roles "replay_package") ≡ true

module _ {E : Type 0} (o : Outside E) (f : Floats) (s : Settings)
    (r : ExecutionPackageRequest) where
  abbrev response : ExecutionPackageResponse
  response = package_response o f s r (package_key o f s r) (memory_report o f r)

  package-dispatch :
      (role : String) (w : World E)
      → (classify_package_status r.execution_result.status).rejected ≡ false
      → package_execution o f s r.job_id r role w
        ≡ dispatch_package o f s r.job_id r
            (package_key o f s r)
            role
            (latest r.job_id (package_key o f s r) w.db.package_idempotency)
            w
  unfolding package_execution package_checked query
  package-dispatch role w h = rw (eq_refl r.job_id, h) refl

  abbrev completed_at : World E → ℕ
  completed_at w = o.clock (w.reads + 1)

  abbrev completed_row : World E → IdempotencyRow ExecutionPackageResponse
  completed_row w = record {
    job_id = r.job_id;
    idempotency_key = package_key o f s r;
    status = "completed";
    cause_code = package_cause r;
    response_payload = text_of response;
    updated_at = completed_at w;
  }

  finished-latest :
      (w : World E)
      → latest r.job_id
          (package_key o f s r)
          (finished o f s r.job_id r (package_key o f s r) w).db.package_idempotency
        ≡ some (completed_row w)
  unfolding begin_package complete_package emit read_clock write latest complete
  finished-latest w =
      rw (eq_refl r.job_id, eq_refl (package_key o f s r))
        (rw (eq_refl r.job_id, eq_refl (package_key o f s r)) refl)

  first-eq :
      (role : String) (w : World E)
      → (classify_package_status r.execution_result.status).rejected ≡ false
      → latest r.job_id (package_key o f s r) w.db.package_idempotency ≡ none
      → ((table : String) → o.commit_error table (w.reads + 1) ≡ none)
      → package_execution o f s r.job_id r role w
        ≡ (ok response, finished o f s r.job_id r (package_key o f s r) w)
  unfolding dispatch_package
  first-eq role w h fresh fine =
      package-dispatch role w h
      ∙ (ap (λ x. dispatch_package o f s r.job_id r (package_key o f s r) role x w) fresh
          ∙ package_fresh-eq o f s r.job_id r (package_key o f s r) w fine)

  -- A replay answers with the stored response and adds nothing to the memories.
  pub record PackageReplayed (w : World E) (out : Result Error ExecutionPackageResponse × World E)
      : Type 0 where
    pub outcome :
        out.0
        ≡ ok (record response { replayed = true; idempotency_key = some (package_key o f s r) })
    pub memories_eq : memories out.1.db ≡ memories w.db
    pub rows_eq : out.1.db.package_idempotency ≡ w.db.package_idempotency
    pub ext_eq : out.1.ext ≡ w.ext

  replay-PackageReplayed :
      (role : String) (row : IdempotencyRow ExecutionPackageResponse) (w : World E)
      → MayReplayPackage role
      → row.response_payload ≡ text_of response
      → PackageReplayed w (replay_package o f s r.job_id (package_key o f s r) role row w)
  unfolding replay_package authorize_action enforce_role ledger emit package_again read_clock write
  replay-PackageReplayed role row w may p =
      rw (may, p) (record { outcome = refl; memories_eq = refl; rows_eq = refl; ext_eq = refl })

  second-PackageReplayed :
      (role : String) (w : World E)
      → (classify_package_status r.execution_result.status).rejected ≡ false
      → MayReplayPackage role
      → let w' = finished o f s r.job_id r (package_key o f s r) w in
        PackageReplayed w' (package_execution o f s r.job_id r role w')
  second-PackageReplayed role w h may =
      let w' = finished o f s r.job_id r (package_key o f s r) w in
      subst (PackageReplayed w')
        (sym (
          package-dispatch role w' h
          ∙ (ap (λ x. dispatch_package o f s r.job_id r (package_key o f s r) role x w')
                (finished-latest w)
              ∙ completed-dispatch)))
        (replay-PackageReplayed role (completed_row w) w' may refl)
    where
      completed-dispatch :
          let w' = finished o f s r.job_id r (package_key o f s r) w in
          dispatch_package o f s r.job_id r (package_key o f s r) role (some (completed_row w)) w'
          ≡ replay_package o f s r.job_id (package_key o f s r) role (completed_row w) w'
      completed-dispatch = unfold dispatch_package in refl

-- A package is made once. Where the status of the execution may be packaged, the key of the request
-- is new to the job and no transaction on the memories raises at the first call, `package_execution`
-- succeeds whatever the role: it answers with the draft and the report, adds the rows of the request to the memories and calls nothing outside. The
-- same request sent again, by any role that may replay, gets that response marked as replayed, with
-- the key, and leaves the memories, the rows of the packages and the outside as they are.
pub package-package :
    {E : Type 0} (o : Outside E) (f : Floats) (s : Settings) (r : ExecutionPackageRequest)
    (role again : String) (w : World E)
    → (classify_package_status r.execution_result.status).rejected ≡ false
    → latest r.job_id (package_key o f s r) w.db.package_idempotency ≡ none
    → ((table : String) → o.commit_error table (w.reads + 1) ≡ none)
    → MayReplayPackage again
    → let (outcome, w') = package_execution o f s r.job_id r role w in
      ((outcome ≡ ok (package_response o f s r (package_key o f s r) (memory_report o f r)))
        × (memories w'.db ≡ memories (remember o f r w.db))
        × (w'.ext ≡ w.ext))
      × PackageReplayed o f s r w' (package_execution o f s r.job_id r again w')
package-package {E} o f s r role again w h fresh fine may =
    let same = first-eq o f s r role w h fresh fine in
    (
      (
        ap (λ p. p.0) same,
        ap (λ p. memories p.1.db) same
            ∙ finished-remembers o f s r.job_id r (package_key o f s r) w,
        ap (λ p. p.1.ext) same ∙ finished-ext o f s r.job_id r (package_key o f s r) w,
      ),
      subst (λ p. PackageReplayed o f s r p.1 (package_execution o f s r.job_id r again p.1))
          (sym same) (second-PackageReplayed o f s r again w h may),
    )
