-- ===== src/Subagent/Retry.antt =====
-- glm-as-subagent/src/glm_mcp/provider_retry.py: how often a request to the provider is repeated.
-- Durations are microseconds.
use agentic_coding_stack.Prelude.{
  ℕ, zero, suc, ◌+◌, ◌*◌, String, Bool, true, false, Option, none, some, [], ◌∷◌, ltb, min, str_eq,
  if◌then◌else◌,
}
use agentic_coding_stack.Base.Number.{ℤ, pos, negsuc}
use agentic_coding_stack.Base.Text.{concat}
use agentic_coding_stack.Base.Exec.{Result, ok, err, Exec, pure, raise, ◌>>=◌, ◌>>◌}

abbrev pub api_retry_attempts : ℕ
api_retry_attempts = 2

abbrev pub backoff_time : ℕ → ℕ
backoff_time attempt = 2000000 * (attempt + 1)

-- What `request_in_subprocess` raises.
pub data RequestError : Type 0 where
  request_cancelled : RequestError
  request_deadline : RequestError
  request_failed : String → RequestError

-- `AgentLoopError`, its subclass `AgentLoopCancelled`, and any other exception.
pub data LoopError : Type 0 where
  loop_error : String → LoopError
  loop_cancelled : String → LoopError
  other_error : String → LoopError

-- `CancellationSignal`
pub record Signal (E : Type 0) : Type 0 where
  pub is_set : E → Bool × E
  pub wait : ℕ → E → Bool × E

-- What a request gives: the response, or none with a summary, and whether a retry may help.
pub record Reply (R : Type 0) : Type 0 where
  pub response : Option R
  pub summary : String
  pub retryable : Bool

-- `request_in_subprocess` with the arguments of the call, `cancel_signal`, the remaining time of the
-- deadline, and `time.sleep`.
pub record Provider (E R : Type 0) : Type 0 where
  pub request : Exec E RequestError (Reply R)
  pub cancel_signal : Option (Signal E)
  pub deadline : Option (E → ℤ × E)
  pub sleep : ℕ → E → E
  pub max_run_seconds : String

abbrev pub cancelled_by_parent : LoopError
cancelled_by_parent = loop_cancelled "GLM job cancelled by parent agent"

abbrev pub stop_if : {E : Type 0} → Bool × E → Result LoopError (Unit {0}) × E
stop_if (true, e) = (err cancelled_by_parent, e)
stop_if (false, e) = (ok tt, e)

unfoldable pub check_cancel : {E : Type 0} → Option (Signal E) → Exec E LoopError (Unit {0})
check_cancel none e = (ok tt, e)
check_cancel (some signal) e = stop_if (signal.is_set e)

abbrev pub time_left : {E : Type 0} → ℤ × E → Result LoopError ℕ × E
time_left (pos (suc n), e) = (ok (suc n), e)
time_left (pos zero, e) = (err (loop_error "run time budget exceeded"), e)
time_left (negsuc n, e) = (err (loop_error "run time budget exceeded"), e)

unfoldable pub remaining_seconds : {E : Type 0} → (E → ℤ × E) → Exec E LoopError ℕ
remaining_seconds deadline e = time_left (deadline e)

module _ {E R : Type 0} (p : Provider E R) where
  unfoldable pub wait_before_retry : ℕ → Option (Signal E) → Exec E LoopError (Unit {0})
  wait_before_retry delay none e = (ok tt, p.sleep delay e)
  wait_before_retry delay (some signal) e = stop_if (signal.wait delay e)

  -- `remaining` in `_backoff`
  unfoldable pub remaining_for : ℕ → Option (E → ℤ × E) → Exec E LoopError ℕ
  unfolding remaining_seconds
  remaining_for wait none = pure wait
  remaining_for wait (some deadline) = remaining_seconds deadline

  unfoldable pub backoff : ℕ → Exec E LoopError (Unit {0})
  unfolding remaining_for wait_before_retry
  backoff attempt = do
    remaining ← remaining_for (backoff_time attempt) p.deadline
    wait_before_retry (min (backoff_time attempt) remaining) p.cancel_signal

  abbrev pub told : Result RequestError (Reply R) → Result LoopError (Reply R)
  told (ok reply) = ok reply
  told (err request_cancelled) = err cancelled_by_parent
  told (err request_deadline) =
      err (loop_error (concat ("run time budget exceeded (" ∷ p.max_run_seconds ∷ "s)" ∷ [])))
  told (err (request_failed text)) = err (other_error text)

  unfoldable pub request_once : Exec E LoopError (Reply R)
  unfolding concat
  request_once e = (told (p.request e).0, (p.request e).1)

  unfoldable pub refusal : String → String → LoopError
  unfolding concat
  refusal turn summary = loop_error (
      concat (
        "GLM "
        ∷ (if str_eq summary "category=client" then "client" else "API")
        ∷ " error on turn "
        ∷ turn
        ∷ ": "
        ∷ summary
        ∷ []))

  unfoldable pub unreachable : String → String → LoopError
  unfolding concat
  unreachable turn last_summary =
      loop_error
        (concat ("GLM API unreachable after 3 attempts on turn " ∷ turn ∷ ": " ∷ last_summary ∷ []))

  unfoldable pub pause : ℕ → Exec E LoopError (Unit {0})
  unfolding backoff
  pause attempt = if ltb attempt api_retry_attempts then backoff attempt else pure tt

  -- The loop with so many attempts left, from attempt number `attempt`.
  unfoldable pub attempts_left : ℕ → ℕ → String → String → Exec E LoopError R
  unfolding check_cancel request_once refusal unreachable pause
  attempts_left zero attempt turn last_summary = raise (unreachable turn last_summary)
  attempts_left (suc n) attempt turn last_summary =
      check_cancel p.cancel_signal
      >> (request_once >>= λ reply. elim reply.response [
        | some response ↦ pure response
        | none ↦
            if reply.retryable
            then pause attempt >> attempts_left n (attempt + 1) turn reply.summary
            else raise (refusal turn reply.summary)
      ])

  -- `call_with_retry` on the turn that prints as `turn`.
  unfoldable pub call_with_retry : String → Exec E LoopError R
  unfolding attempts_left
  call_with_retry turn = attempts_left (1 + api_retry_attempts) 0 turn "category=api"
