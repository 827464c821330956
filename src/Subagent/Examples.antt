-- ===== src/Subagent/Examples.antt =====
-- A budget of ten bytes with an output that counts what is written, two records of
-- mutations, a provider that answers the third request, and a response.
use agentic_coding_stack.Prelude.{
  Bool, ℕ, zero, suc, true, false, ◌+◌, ◌≤◌, ◌≡◌, refl, String, List, [], ◌∷◌, none, some, arith,
}
use agentic_coding_stack.Base.Number.{ℤ, pos}
use agentic_coding_stack.Base.Exec.{Result, ok, err}
use agentic_coding_stack.Subagent.Budget.{MutationBudget, Operation, apply_mutation}
use agentic_coding_stack.Base.Json.{arr, obj, str, Fields, field, end, put}
use agentic_coding_stack.Subagent.Mutations.{
  MutationRecord, mutation_record, shorten, payload, records_from_result, warning_notice,
}
use agentic_coding_stack.Subagent.Recovered.{Made, records_from_result-payload}
use agentic_coding_stack.Subagent.Retry.{Reply, Provider, call_with_retry}
use agentic_coding_stack.Subagent.Attempts.{Counts, AnswerOf, call_with_retry-Within}
use agentic_coding_stack.Base.Json.{int, cons, nil}
use agentic_coding_stack.Base.Chain.{Gives}
use agentic_coding_stack.Subagent.Response.{ResponseError, ProviderResponse, from_payload}
use agentic_coding_stack.Subagent.Accepted.{IsComplete, from_payload-IsComplete}
use agentic_coding_stack.Subagent.Spent.{apply_all, Within, apply_all-le}

abbrev ten : MutationBudget
ten = record { limit = 10; used = 0 }

-- An operation that writes six bytes, and one that writes four and then raises.
abbrev six : Operation ℕ String
six n = (ok tt, n + 6)

abbrev four : Operation ℕ String
four n = (err "fsync failed", n + 4)

abbrev mutations : List (ℤ × Operation ℕ String)
mutations = (pos 6, six) ∷ (pos 6, six) ∷ (pos 4, four) ∷ (pos 4, four) ∷ []

refuses_second : (apply_all mutations (some ten, 0)).1 ≡ 10
unfolding apply_mutation
refuses_second = refl

apply_all-le_example :
    let after = apply_all mutations (some ten, 0) in
    (after.1 + 0 ≤ 10) × Within (λ n. n) ten 0 after
apply_all-le_example =
    apply_all-le (λ n. n) mutations ten 0
      ((λ n. omega arith), ((λ n. omega arith), ((λ n. omega arith), ((λ n. omega arith), tt))))
      (omega arith)

abbrev written_file : MutationRecord
written_file = record {
  transaction_id = "t1";
  tool = "write_file";
  status = "committed";
  warning = none;
}

abbrev edited_file : MutationRecord
edited_file = record {
  transaction_id = "t2";
  tool = "edit_file";
  status = "uncertain";
  warning = some "fsync failed";
}

abbrev failed_result : Fields
failed_result = field "status" (str "failed") (field "mutations" (str "pending") end)

written_file-Made : Made written_file
unfolding mutation_record
written_file-Made = record { asked = some ""; made = refl }

edited_file-Made : Made edited_file
unfolding mutation_record shorten
edited_file-Made = record { asked = some "fsync failed"; made = refl }

warns_of_second :
    warning_notice (written_file ∷ edited_file ∷ [])
    ≡ some "[glm-mcp transaction safety] outcome uncertain (fsync failed); transaction t2"
unfolding warning_notice
warns_of_second = refl

records_from_result-payload_example :
    records_from_result
      (obj (put failed_result "mutations" (arr (payload (written_file ∷ edited_file ∷ [])))))
    ≡ written_file ∷ edited_file ∷ []
records_from_result-payload_example =
    records_from_result-payload (written_file ∷ edited_file ∷ []) failed_result
      (written_file-Made, (edited_file-Made, tt))

abbrev reply_to : ℕ → Reply String
reply_to zero = record { response = none; summary = "category=timeout"; retryable = true }
reply_to (suc zero) = record { response = none; summary = "category=api"; retryable = true }
reply_to (suc (suc n)) = record { response = some "done"; summary = ""; retryable = false }

-- The state is the number of the requests so far.
abbrev third_time : Provider ℕ String
third_time = record {
  request = λ n. (ok (reply_to n), n + 1);
  cancel_signal = none;
  deadline = none;
  sleep = λ t n. n;
  max_run_seconds = "600";
}

third_time-Counts : Counts third_time (λ n. n)
third_time-Counts = record {
  one = λ n. refl;
  by_sleep = λ t n. refl;
  by_test = λ s n e. cc e;
  by_wait = λ s t n e. cc e;
  by_clock = λ d n e. cc e;
}

answered_third : call_with_retry third_time "1" 0 ≡ (ok "done", 3)
unfolding call_with_retry
answered_third = refl

call_with_retry-Within_example :
    ((call_with_retry third_time "1" 0).1 ≤ 0 + 3)
    × AnswerOf third_time
        (λ n. n)
        (call_with_retry third_time "1" 0).0
        (call_with_retry third_time "1" 0).1
call_with_retry-Within_example = call_with_retry-Within third_time (λ n. n) third_time-Counts "1" 0

abbrev any_text : String → Bool
any_text s = true

abbrev listing_call : Fields
listing_call =
    field "id" (str "c1")
      (field "function" (obj (field "name" (str "Glob") (field "arguments" (str "{}") end))) end)

abbrev listing : Fields
listing =
    field "usage"
      (obj (field "prompt_tokens" (int (pos 7)) (field "completion_tokens" (int (pos 0)) end)))
      (field "choices"
        (arr (
          cons
            (obj (
              field "finish_reason" (str "tool_calls") (
                field "message" (obj (field "tool_calls" (arr (cons (obj listing_call) nil)) end))
                  end)))
            nil))
        end)

abbrev prompt_of : Result ResponseError ProviderResponse → ℕ
prompt_of (ok r) = r.usage.prompt_tokens
prompt_of (err e) = 0

accepts_listing : prompt_of (from_payload any_text (obj listing)) ≡ 7
unfolding from_payload
accepts_listing = refl

from_payload-IsComplete_example :
    Gives (IsComplete any_text listing) (from_payload any_text (obj listing))
from_payload-IsComplete_example = from_payload-IsComplete any_text listing
