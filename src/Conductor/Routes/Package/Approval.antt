-- ===== src/Conductor/Routes/Package/Approval.antt =====
-- When a package may be made again.
use agentic_coding_stack.Prelude.{
  ℕ, ◌≤◌, String, ◌≡◌, refl, Bool, false, not, ◌&&◌, inl, inr, one_of, ◌==◌, eq_refl, Bool-cases,
  arith,
}
use agentic_coding_stack.Base.Exec.{Error, Result, ok, err, continue}
use agentic_coding_stack.Shared.Schemas.{ExecutionPackageResponse, RetryPackageRequest}
use agentic_coding_stack.Conductor.World.{World, Action, read_clock, query, write}
use agentic_coding_stack.Conductor.Outside.{Outside, Settings}
use agentic_coding_stack.Conductor.Governance.{
  allowed_roles, approval_reason_codes, is_empty, same, is_one_of, enforce_role,
  require_retry_package_approval, ledger,
}
use agentic_coding_stack.Conductor.Reliability.{emit}
use agentic_coding_stack.Conductor.Frontier.{Floats}
use agentic_coding_stack.Conductor.ControlPlane.{
  text_or_empty, block_retry_package, retry_package_validate_and_record,
}
use agentic_coding_stack.Conductor.Routes.Attempts.{Failed}
use agentic_coding_stack.Conductor.Routes.Package.{
  count_completed, package_execution, retry_package,
}
use agentic_coding_stack.Conductor.Routes.Package.Gating.{memories}

-- An admin asks for duplicates, with the configured token and a known reason.
abbrev pub approved : Settings → RetryPackageRequest → String → Bool
approved s q role =
    one_of role (allowed_roles "retry_package")
    && (q.allow_duplicate_side_effects
        && (not (is_empty q.approval_token)
            && (same q.approval_token s.approval_token
                && is_one_of q.approval_reason_code approval_reason_codes)))

-- Nothing was packaged: the memories and the rows of the packages are as they were.
pub record NotPackaged {E : Type 0} (w : World E)
    (out : Result Error ExecutionPackageResponse × World E) : Type 0 where
  pub failed : Failed out.0
  pub memories_eq : memories out.1.db ≡ memories w.db
  pub rows_eq : out.1.db.package_idempotency ≡ w.db.package_idempotency
  pub ext_eq : out.1.ext ≡ w.ext

module _ {E : Type 0} (o : Outside E) (s : Settings) where
  -- The check in front of a retry raises, and changes the ledger and the telemetry at most.
  pub record Refuses (w : World E) (out : Result Error (Unit {0}) × World E) : Type 0 where
    pub failed : Failed out.0
    pub memories_eq : memories out.1.db ≡ memories w.db
    pub rows_eq : out.1.db.package_idempotency ≡ w.db.package_idempotency
    pub ext_eq : out.1.ext ≡ w.ext

  validate-Refuses :
      (job key role : String) (existing : ℕ) (q : RetryPackageRequest) (w : World E)
      → 1 ≤ existing
      → approved s q role ≡ false
      → Refuses w (
          retry_package_validate_and_record o.clock s job role key existing
            q.allow_duplicate_side_effects q.approval_token q.approval_reason_code w)
  unfolding retry_package_validate_and_record enforce_role block_retry_package
      require_retry_package_approval ledger emit read_clock write
  validate-Refuses job key role existing q w some_done h =
      let done : (existing == 0) ≡ false = ground arith in
      elim (Bool-cases (one_of role (allowed_roles "retry_package"))) [
        | inr bad ↦
            rw bad (record { failed = tt; memories_eq = refl; rows_eq = refl; ext_eq = refl })
        | inl may ↦ elim (Bool-cases q.allow_duplicate_side_effects) [
          | inr bad ↦
              rw (may, done, bad)
                (record { failed = tt; memories_eq = refl; rows_eq = refl; ext_eq = refl })
          | inl allow ↦ elim (Bool-cases (is_empty q.approval_token)) [
            | inl bad ↦
                rw (may, done, allow, bad)
                  (record { failed = tt; memories_eq = refl; rows_eq = refl; ext_eq = refl })
            | inr given ↦ elim (Bool-cases (same q.approval_token s.approval_token)) [
              | inr bad ↦
                  rw (may, done, allow, given, bad)
                    (record { failed = tt; memories_eq = refl; rows_eq = refl; ext_eq = refl })
              | inl right ↦
                  let bad : is_one_of q.approval_reason_code approval_reason_codes ≡ false =
                    rw (may, allow, given, right) at h in
                  rw (may, done, allow, given, right, bad)
                    (record { failed = tt; memories_eq = refl; rows_eq = refl; ext_eq = refl })
            ]
          ]
        ]
      ]

-- A retry does not package again without approval. Where the job of the request has a completed package
-- already, a retry is refused unless an admin asks for duplicates with the configured token and a
-- known reason: it fails, and leaves the memories, the rows of the packages and the outside as they
-- were.
pub retry_package-NotPackaged :
    {E : Type 0} (o : Outside E) (f : Floats) (s : Settings) (q : RetryPackageRequest)
    (role : String) (w : World E)
    → 1 ≤ count_completed q.package_request.job_id w.db.package_idempotency
    → approved s q role ≡ false
    → NotPackaged w (retry_package o f s q.package_request.job_id q role w)
unfolding retry_package query
retry_package-NotPackaged {E} o f s q role w some_done h =
    rw (eq_refl job)
      (go (checked w).0 (checked w).1 (validate-Refuses o s job key role existing q w some_done h))
  where
    job : String
    job = q.package_request.job_id

    key : String
    key = text_or_empty q.package_request.idempotency_key

    existing : ℕ
    existing = count_completed job w.db.package_idempotency

    checked : Action E (Unit {0})
    checked =
        retry_package_validate_and_record o.clock s job role key existing
          q.allow_duplicate_side_effects q.approval_token q.approval_reason_code

    go :
        (x : Result Error (Unit {0})) (v : World E)
        → Refuses o s w (x, v)
        → NotPackaged w (continue x (λ _. package_execution o f s job q.package_request role) v)
    go (ok a) v p = elim p.failed [ ]
    go (err e) v p = record {
      failed = tt;
      memories_eq = p.memories_eq;
      rows_eq = p.rows_eq;
      ext_eq = p.ext_eq;
    }
