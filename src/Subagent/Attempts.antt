-- ===== src/Subagent/Attempts.antt =====
-- How many requests a call of the provider sends, and where its answer comes from.
use agentic_coding_stack.Prelude.{
  ℕ, zero, suc, ◌+◌, ◌≤◌, String, ◌≡◌, refl, sym, ap, ◌∙◌, Bool, true, false, Option, none, some,
  ltb, arith, if◌then◌else◌,
}
use agentic_coding_stack.Base.Number.{ℤ, pos, negsuc}
use agentic_coding_stack.Base.Exec.{Result, ok, err, Exec, continue, pure, raise, ◌>>=◌, ◌>>◌}
use agentic_coding_stack.Subagent.Retry.{
  api_retry_attempts, RequestError, request_cancelled, request_deadline, request_failed, LoopError,
  Signal, Reply, Provider, stop_if, check_cancel, time_left, remaining_seconds, wait_before_retry,
  remaining_for, backoff, backoff_time, told, request_once, refusal, pause, attempts_left,
  call_with_retry,
}

-- A count of the requests that were sent, which only `request` changes.
pub record Counts {E R : Type 0} (p : Provider E R) (sent : E → ℕ) : Type 0 where
  pub one : (e : E) → sent (p.request e).1 ≡ sent e + 1
  pub by_sleep : (n : ℕ) (e : E) → sent (p.sleep n e) ≡ sent e
  pub by_test : (s : Signal E) (e : E) → p.cancel_signal ≡ some s → sent (s.is_set e).1 ≡ sent e
  pub by_wait :
      (s : Signal E) (n : ℕ) (e : E) → p.cancel_signal ≡ some s → sent (s.wait n e).1 ≡ sent e
  pub by_clock : (d : E → ℤ × E) (e : E) → p.deadline ≡ some d → sent (d e).1 ≡ sent e

module _ {E R : Type 0} (p : Provider E R) (sent : E → ℕ) where
  -- A response that a request gave, with nothing done after it.
  pub record IsAnswer (response : R) (after : E) : Type 0 where
    pub asked : E
    pub reply : Reply R
    pub given : p.request asked ≡ (ok reply, after)
    pub same : reply.response ≡ some response

  abbrev pub AnswerOf : Result LoopError R → E → Type 0
  AnswerOf (ok response) after = IsAnswer response after
  AnswerOf (err x) after = Unit {0}

  -- At most n requests since `e`, and an answer only from the last of them.
  abbrev pub Within : ℕ → E → Result LoopError R × E → Type 0
  Within n e out = (sent out.1 ≤ sent e + n) × AnswerOf out.0 out.1

  abbrev IsSilent : {A : Type 0} → Exec E LoopError A → Type 0
  IsSilent m = (e : E) → sent (m e).1 ≡ sent e

  Within-after :
      {A : Type 0} (m : Exec E LoopError A) (f : A → Exec E LoopError R) (n : ℕ) (e : E)
      → sent (m e).1 ≡ sent e
      → ((a : A) (e' : E) → Within n e' (f a e'))
      → Within n e ((m >>= f) e)
  Within-after {A} m f n e quiet k = go (m e) quiet
    where
      go : (o : Result LoopError A × E) → sent o.1 ≡ sent e → Within n e (continue o.0 f o.1)
      go (ok a, e') q = (omega (arith, (k a e').0), (k a e').1)
      go (err x, e') q = (omega arith, tt)

  IsSilent-after :
      {A B : Type 0} (m : Exec E LoopError A) (f : A → Exec E LoopError B)
      → IsSilent m
      → ((a : A) → IsSilent (f a))
      → IsSilent (m >>= f)
  IsSilent-after {A} m f quiet k e = go (m e) (quiet e)
    where
      go : (o : Result LoopError A × E) → sent o.1 ≡ sent e → sent (continue o.0 f o.1).1 ≡ sent e
      go (ok a, e') q = k a e' ∙ q
      go (err x, e') q = q

  stop_if-after : (o : Bool × E) → (stop_if o).1 ≡ o.1
  stop_if-after (true, e) = refl
  stop_if-after (false, e) = refl

  time_left-after : (o : ℤ × E) → (time_left o).1 ≡ o.1
  time_left-after (pos zero, e) = refl
  time_left-after (pos (suc n), e) = refl
  time_left-after (negsuc n, e) = refl

  module _ (c : Counts p sent) where
    check_cancel-IsSilent :
        (signal : Option (Signal E)) → p.cancel_signal ≡ signal → IsSilent (check_cancel signal)
    unfolding check_cancel
    check_cancel-IsSilent none same e = refl
    check_cancel-IsSilent (some s) same e =
        ap sent (stop_if-after (s.is_set e)) ∙ c.by_test s e same

    wait-IsSilent :
        (n : ℕ) (signal : Option (Signal E))
        → p.cancel_signal ≡ signal
        → IsSilent (wait_before_retry p n signal)
    unfolding wait_before_retry
    wait-IsSilent n none same e = c.by_sleep n e
    wait-IsSilent n (some s) same e = ap sent (stop_if-after (s.wait n e)) ∙ c.by_wait s n e same

    remaining_for-IsSilent :
        (n : ℕ) (d : Option (E → ℤ × E)) → p.deadline ≡ d → IsSilent (remaining_for p n d)
    unfolding remaining_for remaining_seconds
    remaining_for-IsSilent n none same e = refl
    remaining_for-IsSilent n (some d) same e = ap sent (time_left-after (d e)) ∙ c.by_clock d e same

    backoff-IsSilent : (n : ℕ) → IsSilent (backoff p n)
    unfolding backoff
    backoff-IsSilent n =
        IsSilent-after (remaining_for p (backoff_time n) p.deadline) _
          (remaining_for-IsSilent (backoff_time n) p.deadline refl)
          (λ r. wait-IsSilent _ p.cancel_signal refl)

    pause-IsSilent : (n : ℕ) → IsSilent (pause p n)
    unfolding pause
    pause-IsSilent n = go (ltb n api_retry_attempts)
      where
        go : (b : Bool) → IsSilent (if b then backoff p n else pure tt)
        go true = backoff-IsSilent n
        go false = λ e. refl

    sent-request :
        (e : E) (o : Result RequestError (Reply R) × E) → p.request e ≡ o → sent o.1 ≡ sent e + 1
    sent-request e o same = ap (λ q. sent q.1) (sym same) ∙ c.one e

    -- A request, and what follows from its reply.
    Within-request :
        (f : Reply R → Exec E LoopError R) (n : ℕ) (e : E)
        → ((reply : Reply R) (e' : E) → p.request e ≡ (ok reply, e') → Within n e' (f reply e'))
        → Within (suc n) e ((request_once p >>= f) e)
    unfolding request_once
    Within-request f n e k = go (p.request e) refl (sent-request e (p.request e) refl)
      where
        go :
            (o : Result RequestError (Reply R) × E)
            → p.request e ≡ o
            → sent o.1 ≡ sent e + 1
            → Within (suc n) e (continue (told p o.0) f o.1)
        go (ok reply, e') same grown =
            let rest = k reply e' same in (omega (arith, grown, rest.0), rest.1)
        go (err request_cancelled, e') same grown = (omega (arith, grown), tt)
        go (err request_deadline, e') same grown = (omega (arith, grown), tt)
        go (err (request_failed text), e') same grown = (omega (arith, grown), tt)

    retry_or_refuse-Within :
        (b : Bool) (n attempt : ℕ) (more : Exec E LoopError R) (x : LoopError) (e : E)
        → ((e' : E) → Within n e' (more e'))
        → Within n e ((if b then pause p attempt >> more else raise x) e)
    retry_or_refuse-Within true n attempt more x e k =
        Within-after (pause p attempt) _ n e (pause-IsSilent attempt e) (λ u e'. k e')
    retry_or_refuse-Within false n attempt more x e k = (omega arith, tt)

    answer_or-Within :
        (n : ℕ) (other : Exec E LoopError R) (asked : E) (reply : Reply R) (e : E)
        → p.request asked ≡ (ok reply, e)
        → Within n e (other e)
        → (found : Option R) → reply.response ≡ found
        → Within n e (
            elim found as (λ x. Exec E LoopError R) [ some response ↦ pure response | none ↦ other ]
              e)
    answer_or-Within n other asked reply e given h (some response) same =
        (omega arith, record { asked = asked; reply = reply; given = given; same = same })
    answer_or-Within n other asked reply e given h none same = h

    attempts_left-Within :
        (n attempt : ℕ) (turn summary : String) (e : E)
        → Within n e (attempts_left p n attempt turn summary e)
    unfolding attempts_left
    attempts_left-Within zero attempt turn summary e = (omega arith, tt)
    attempts_left-Within (suc n) attempt turn summary e =
        Within-after (check_cancel p.cancel_signal) _ (suc n) e
          (check_cancel-IsSilent p.cancel_signal refl e)
          (λ u e1. Within-request _ n e1 (λ reply e2 given.
            answer_or-Within n _ e1 reply e2 given
              (retry_or_refuse-Within reply.retryable n attempt _ (refusal p turn reply.summary) e2
                (λ e3. attempts_left-Within n (attempt + 1) turn reply.summary e3))
              reply.response refl))

    -- A call of the provider ends after at most three requests, whatever is answered. Where nothing
    -- but `request` changes the count of what was sent, the call sends at most three requests; and a
    -- response that it returns is the response of its last request, with nothing done after that
    -- request.
    pub call_with_retry-Within :
        (turn : String) (e : E)
        → (sent (call_with_retry p turn e).1 ≤ sent e + 3)
          × AnswerOf (call_with_retry p turn e).0 (call_with_retry p turn e).1
    unfolding call_with_retry
    call_with_retry-Within turn e = attempts_left-Within 3 0 turn "category=api" e
