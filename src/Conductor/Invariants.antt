-- ===== src/Conductor/Invariants.antt =====
-- apps/conductor/services/invariants.py, and the route `invariant_report` of apps/conductor/main.py.
pub mod Gated
use agentic_coding_stack.Prelude.{
  ℕ, String, Bool, true, false, not, ◌||◌, Option, none, some, List, [], ◌∷◌, ◌++◌, all, keep, map,
  str_eq, if◌then◌else◌,
}
use agentic_coding_stack.Base.Number.{pos}
use agentic_coding_stack.Base.Text.{strip, truthy}
use agentic_coding_stack.Base.Json.{
  Json, null, bool, int, str, arr, obj, nil, cons, Fields, end, field, get, strs,
}
use agentic_coding_stack.Base.Table.{find}
use agentic_coding_stack.Base.Exec.{Result, ok, err, pure, lift, ◌>>=◌}
use agentic_coding_stack.Base.Chain.{◌>>>=◌}
use agentic_coding_stack.Shared.Schemas.{ExecutionPackageResponse}
use agentic_coding_stack.Shared.Parsing.{get_from, not_object}
use agentic_coding_stack.Conductor.Db.{
  JsonText, absent, malformed, text_of, Transition, ExecutionState, IdempotencyRow, TelemetryEvent,
}
use agentic_coding_stack.Conductor.World.{Db, Action, query, raised}
use agentic_coding_stack.Conductor.Overlay.Guidance.{is_falsy}

pub record InvariantCheck : Type 0 where
  pub name : String
  pub ok_flag : Bool
  pub cause_code : Option String
  pub details : String

pub record InvariantReportResponse : Type 0 where
  pub job_id : String
  pub ok_flag : Bool
  pub checks : List InvariantCheck

abbrev pub or_null : Option String → Json
or_null none = null
or_null (some s) = str s

-- `response.model_dump(mode="json")`, which is what is stored of a packaging response.
unfoldable pub dump_package : ExecutionPackageResponse → Fields
dump_package r = field "job_id" (str r.job_id) (
    field "draft_pr"
      (obj (
        field "title" (str r.draft_pr.title)
          (field "body" (str r.draft_pr.body) (field "metadata" (obj r.draft_pr.metadata) end))))
      (field "memory_report"
        (obj (
          field "chosen_written" (bool r.memory_report.chosen_written) (
            field "frontier_written" (int (pos r.memory_report.frontier_written)) (
              field "residual_written" (bool r.memory_report.residual_written)
                (field "surprise_reasons" (arr (strs r.memory_report.surprise_reasons)) end)))))
        (field "cause_code" (or_null r.cause_code) (
          field "replayed" (bool r.replayed)
            (field "idempotency_key" (or_null r.idempotency_key) end)))))

-- A check that sets its cause code where it fails.
abbrev pub check : String → Bool → String → InvariantCheck
check name passed code = record {
  name = name;
  ok_flag = passed;
  cause_code = if passed then none else some code;
  details = "";
}

abbrev pub remark : String → Bool → Option String → String → InvariantCheck
remark name passed code details = record {
  name = name;
  ok_flag = passed;
  cause_code = code;
  details = details;
}

-- SELECT ... FROM package_idempotency WHERE job_id = :job_id ORDER BY id DESC LIMIT 1
unfoldable pub newest_of :
    String
    → List (IdempotencyRow ExecutionPackageResponse)
    → Option (IdempotencyRow ExecutionPackageResponse)
newest_of job [] = none
newest_of job (row ∷ rows) = if str_eq row.job_id job then some row else newest_of job rows

abbrev has_job_id : Json → Bool
has_job_id (obj d) = elim (get d "job_id") [ some v ↦ true | none ↦ false ]
has_job_id j = false

abbrev is_canonical_cause : Json → Bool
is_canonical_cause (str s) = str_eq s "PACKAGE_OK_CANONICAL"
is_canonical_cause j = false

-- `payload.get("memory_report", {}) if isinstance(payload, dict) else {}`
abbrev report_of : Json → Json
report_of (obj d) = elim (get d "memory_report") [ some j ↦ j | none ↦ obj end ]
report_of j = obj end

-- Whether the chosen memory was written under the canonical cause alone.
unfoldable pub gating : Json → Result String Bool
unfolding get_from
gating payload = get_from (report_of payload) "chosen_written" null >>>= λ chosen_written.
    get_from payload "cause_code" (str "") >>>= λ cause.
    ok (is_falsy chosen_written || is_canonical_cause cause)

abbrev telemetry_of : List TelemetryEvent → List InvariantCheck
telemetry_of [] = remark "telemetry_optional" true none "no telemetry rows" ∷ []
telemetry_of (row ∷ rows) =
    check "telemetry_cause_codes_present"
      (all (λ event. truthy (strip event.cause_code)) (row ∷ rows))
      "INVAR_TELEMETRY_CAUSE_CODE_MISSING"
    ∷ []

unfoldable pub telemetry_checks : String → Db → List InvariantCheck
telemetry_checks job db = telemetry_of (keep (λ event. str_eq event.job_id job) db.telemetry_event)

-- `loads` is `json.loads`.
module _ (loads : String → Option Json) where
  -- `stable_json_loads(raw, fallback={})` of a stored response.
  unfoldable pub package_payload : JsonText ExecutionPackageResponse → Json
  unfolding dump_package
  package_payload absent = obj end
  package_payload (malformed raw) = elim (loads raw) [ some j ↦ j | none ↦ obj end ]
  package_payload (text_of r) = obj (dump_package r)

  -- `isinstance(transitions, list) and len(transitions) > 0`
  unfoldable pub has_transitions : JsonText (List Transition) → Bool
  has_transitions absent = false
  has_transitions (malformed raw) = elim (loads raw) [ some (arr (cons x xs)) ↦ true | _ ↦ false ]
  has_transitions (text_of []) = false
  has_transitions (text_of (t ∷ ts)) = true

  unfoldable pub execution_checks : String → Db → List InvariantCheck
  unfolding has_transitions
  execution_checks job db = elim (find job db.execution_state) [
    | none ↦
        remark "execution_exists" false (some "INVAR_EXECUTION_MISSING")
          "execution_state row missing"
        ∷ []
    | some row ↦
        check "execution_transitions_present" (has_transitions row.transitions)
          "INVAR_EXECUTION_TRANSITIONS_EMPTY"
        ∷ []
  ]

  unfoldable pub package_checks : String → Db → List InvariantCheck
  unfolding newest_of package_payload
  package_checks job db = elim (newest_of job db.package_idempotency) [
    | none ↦ remark "package_optional" true none "package not invoked" ∷ []
    | some row ↦
        check "package_response_payload_valid" (has_job_id (package_payload row.response_payload))
          "INVAR_PACKAGE_PAYLOAD_INVALID"
        ∷ []
  ]

  unfoldable pub memory_checks : String → Db → Result String (List InvariantCheck)
  unfolding newest_of gating package_payload
  memory_checks job db = elim (newest_of job db.package_idempotency) [
    | none ↦ ok (remark "memory_gating_optional" true none "no package payload" ∷ [])
    | some row ↦ gating (package_payload row.response_payload) >>>= λ passed.
        ok (check "memory_canonical_gating" passed "INVAR_MEMORY_GATING_VIOLATION" ∷ [])
  ]

  unfoldable pub validate_job : String → Db → Result String (List InvariantCheck)
  unfolding execution_checks package_checks memory_checks telemetry_checks
  validate_job job db = memory_checks job db >>>= λ memory.
      ok (execution_checks job db ++ (package_checks job db ++ (memory ++ telemetry_checks job db)))

  unfoldable pub invariant_report : {E : Type 0} → String → Action E InvariantReportResponse
  unfolding query validate_job
  invariant_report job = do
    outcome ← query (validate_job job)
    checks ← lift (raised outcome)
    pure (record { job_id = job; ok_flag = all (λ item. item.ok_flag) checks; checks = checks })
