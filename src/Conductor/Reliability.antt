-- ===== src/Conductor/Reliability.antt =====
-- apps/conductor/services/reliability.py: JSON columns, idempotency keys, telemetry.
use agentic_coding_stack.Prelude.{ℕ, String, Bool, Option, none, some, ◌∷◌, ◌&&◌, if◌then◌else◌}
use agentic_coding_stack.Base.Json.{Fields}
use agentic_coding_stack.Base.Exec.{◌>>=◌}
use agentic_coding_stack.Base.Text.{strip, truthy}
use agentic_coding_stack.Conductor.Db.{JsonText, absent, malformed, text_of}
use agentic_coding_stack.Conductor.World.{Action, read_clock, write}

-- `stable_json_loads(raw, fallback)`
abbrev pub stable_json_loads : {A : Type 0} → JsonText A → A → A
stable_json_loads absent fallback = fallback
stable_json_loads (malformed s) fallback = fallback
stable_json_loads (text_of a) fallback = a

-- `digest route` is the route, a colon and 24 digits of the SHA-256 of the request.
unfoldable pub derive_idempotency_key : (String → String) → String → Option String → String
derive_idempotency_key digest route none = digest route
derive_idempotency_key digest route (some key) =
    if truthy key && truthy (strip key) then strip key else digest route

module _ {E : Type 0} (clock : ℕ → ℕ) where
  -- `TelemetryService.emit`
  unfoldable pub emit :
      String → String → String → String → String → Bool → String → Fields → Action E (Unit {0})
  unfolding read_clock write
  emit job route phase status cause replayed key details = do
    now ← read_clock clock
    write λ db. record db {
      telemetry_event =
          (record {
            job_id = job;
            route = route;
            phase = phase;
            status = status;
            cause_code = cause;
            replayed = replayed;
            idempotency_key = key;
            details = details;
            created_at = now;
          })
          ∷ db.telemetry_event;
    }
