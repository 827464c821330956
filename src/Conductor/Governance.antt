-- ===== src/Conductor/Governance.antt =====
-- apps/conductor/services/governance.py: roles, approvals, the operator ledger.
use agentic_coding_stack.Prelude.{
  ℕ, String, Bool, true, false, not, ◌||◌, Option, none, some, List, [], ◌∷◌, str_eq, one_of, ◌==◌,
  if◌then◌else◌,
}
use agentic_coding_stack.Base.Json.{Json, str, obj, Fields, end, field}
use agentic_coding_stack.Base.Exec.{http, pure, raise, ◌>>=◌, ◌>>◌}
use agentic_coding_stack.Base.Text.{truthy}
use agentic_coding_stack.Conductor.World.{Action, read_clock, write}

-- `ALLOWED_ROLES.get(action, {"admin"})`
unfoldable pub allowed_roles : String → List String
allowed_roles action =
    if one_of action ("cancel" ∷ "resume_execute" ∷ "retry_execute" ∷ [])
    then "operator" ∷ "admin" ∷ []
    else if one_of action ("replay_execute" ∷ "replay_package" ∷ [])
    then "system" ∷ "operator" ∷ "admin" ∷ []
    else "admin" ∷ []

abbrev pub approval_reason_codes : List String
approval_reason_codes = "ops_override" ∷ "security_override" ∷ "incident_recovery" ∷ []

abbrev pub cause : String → Json
cause c = obj (field "cause_code" (str c) end)

-- `not approval_token`
abbrev pub is_empty : Option String → Bool
is_empty none = true
is_empty (some s) = not (truthy s)

abbrev pub same : Option String → String → Bool
same none s = false
same (some t) s = str_eq t s

abbrev pub is_one_of : Option String → List String → Bool
is_one_of none xs = false
is_one_of (some s) xs = one_of s xs

module _ {E : Type 0} where
  unfoldable pub enforce_role : String → String → Action E (Unit {0})
  unfolding allowed_roles
  enforce_role action role =
      if one_of role (allowed_roles action)
      then pure tt
      else raise (
          http 403 (
            obj (
              field "cause_code" (str "POLICY_ROLE_FORBIDDEN")
                (field "action" (str action) (field "actor_role" (str role) end)))))

  unfoldable pub require_retry_package_approval :
      Bool → ℕ → Option String → String → Option String → Action E (Unit {0})
  require_retry_package_approval allow existing token configured reason =
      if existing == 0 || not allow
      then pure tt
      else if is_empty token
      then raise (http 409 (cause "APPROVAL_REQUIRED_FOR_DUPLICATE_PACKAGE_RETRY"))
      else if not (same token configured)
      then raise (http 409 (cause "APPROVAL_TOKEN_INVALID"))
      else if not (is_one_of reason approval_reason_codes)
      then raise (http 409 (cause "APPROVAL_REASON_CODE_INVALID"))
      else pure tt

module _ {E : Type 0} (clock : ℕ → ℕ) where
  unfoldable pub ledger :
      String → String → String → String → Bool → String → Fields → Action E (Unit {0})
  unfolding read_clock write
  ledger job role action reason approved cause details = do
    now ← read_clock clock
    write λ db. record db {
      operator_action_ledger =
          (record {
            job_id = job;
            actor_role = role;
            action = action;
            reason_code = reason;
            approved = approved;
            cause_code = cause;
            details = details;
            created_at = now;
          })
          ∷ db.operator_action_ledger;
    }

  unfoldable pub authorize_action :
      String → String → String → String → String → Fields → Action E (Unit {0})
  unfolding enforce_role ledger
  authorize_action job role action reason cause details = do
    enforce_role action role
    ledger job role action reason true cause details
