-- ===== src/Subagent/Response.antt =====
-- glm-as-subagent/src/glm_mcp/provider_response.py: what is accepted as a response of the provider.
use agentic_coding_stack.Prelude.{
  ℕ, suc, String, Bool, true, false, Option, none, some, List, [], ◌∷◌, one_of, str_eq,
  if◌then◌else◌,
}
use agentic_coding_stack.Base.Number.{pos}
use agentic_coding_stack.Base.Text.{concat}
use agentic_coding_stack.Base.Json.{
  Json, null, int, str, arr, obj, Items, nil, cons, Fields, end, field, get,
}
use agentic_coding_stack.Base.Exec.{Result, ok, err}
use agentic_coding_stack.Base.Chain.{◌>>>=◌}

-- `ProviderResponseError` and its subclass `ProviderRetryableResponseError`.
pub data ResponseError : Type 0 where
  response_error : String → ResponseError
  retryable_error : String → ResponseError

pub record ProviderUsage : Type 0 where
  pub prompt_tokens : ℕ
  pub completion_tokens : ℕ

pub record ProviderFunction : Type 0 where
  pub name : String
  pub arguments : String

pub record ProviderToolCall : Type 0 where
  pub id : String
  pub function : ProviderFunction

pub record ProviderMessage : Type 0 where
  pub content : Option String
  pub tool_calls : Option (List ProviderToolCall)

pub record ProviderChoice : Type 0 where
  pub message : ProviderMessage
  pub finish_reason : String

pub record ProviderResponse : Type 0 where
  pub raw : Fields
  pub usage : ProviderUsage
  pub choices : List ProviderChoice

abbrev pub Checked : Type 0 → Type 0
Checked A = Result ResponseError A

abbrev refused : {A : Type 0} → String → Checked A
refused text = err (response_error text)

-- Two counters: the first is above 0, and the second is not below it. A bool is no counter.
abbrev pub counters : Option Json → Option Json → Checked ProviderUsage
counters (some (int (pos (suc p)))) (some (int (pos c))) =
    ok (record { prompt_tokens = suc p; completion_tokens = c })
counters prompt completion = refused "provider usage counters are invalid"

unfoldable pub usage_of : Option Json → Checked ProviderUsage
usage_of (some (obj d)) = counters (get d "prompt_tokens") (get d "completion_tokens")
usage_of j = refused "provider usage is missing or invalid"

-- `bool(message.tool_calls)`
abbrev pub calls_tools : ProviderMessage → Bool
calls_tools m = elim m.tool_calls [
  | none ↦ false
  | some calls ↦ elim calls [ [] ↦ false | c ∷ cs ↦ true ]
]

abbrev pub expected_reason : ProviderMessage → String
expected_reason m = if calls_tools m then "tool_calls" else "stop"

abbrev pub reasons : List String
reasons = "stop" ∷ "length" ∷ "content_filter" ∷ "tool_calls" ∷ []

unfoldable pub finish_reason_of : Option Json → ProviderMessage → Checked String
unfolding concat
finish_reason_of (some (str value)) m =
    if one_of value reasons
    then if str_eq value (expected_reason m)
      then ok value
      else refused (concat ("provider response ended with " ∷ value ∷ []))
    else refused "provider finish reason is missing or invalid"
finish_reason_of j m = refused "provider finish reason is missing or invalid"

-- `value is None`, also where the key is missing.
abbrev pub present : Option Json → Option Json
present none = none
present (some null) = none
present (some j) = some j

-- `encodes` is whether `encode("utf-8")` succeeds on a text.
module _ (encodes : String → Bool) where
  unfoldable pub strict_text : Option Json → String → Checked String
  unfolding concat
  strict_text (some (str value)) label =
      if encodes value
      then ok value
      else refused (concat (label ∷ " is not valid Unicode text" ∷ []))
  strict_text j label = refused (concat (label ∷ " is invalid" ∷ []))

  unfoldable pub optional_text : Option Json → String → Checked (Option String)
  unfolding strict_text
  optional_text none label = ok none
  optional_text (some j) label = strict_text (some j) label >>>= λ s. ok (some s)

  unfoldable pub call_of : Fields → Option Json → Checked ProviderToolCall
  unfolding strict_text
  call_of d (some (obj function)) = strict_text (get d "id") "provider tool call id" >>>= λ id.
      strict_text (get function "name") "provider tool name" >>>= λ name.
      strict_text (get function "arguments") "provider tool arguments" >>>= λ arguments.
      ok (record { id = id; function = record { name = name; arguments = arguments } })
  call_of d j = refused "provider tool call is invalid"

  unfoldable pub tool_call : Json → Checked ProviderToolCall
  unfolding call_of
  tool_call (obj d) = call_of d (get d "function")
  tool_call j = refused "provider tool call is invalid"

  unfoldable pub tool_calls_of : Items → Checked (List ProviderToolCall)
  unfolding tool_call
  tool_calls_of nil = ok []
  tool_calls_of (cons call calls) =
      tool_call call >>>= λ c. tool_calls_of calls >>>= λ cs. ok (c ∷ cs)

  unfoldable pub message_with : Option String → Option Json → Checked ProviderMessage
  unfolding tool_calls_of
  message_with content none = ok (record { content = content; tool_calls = none })
  message_with content (some (arr calls)) =
      tool_calls_of calls >>>= λ cs. ok (record { content = content; tool_calls = some cs })
  message_with content (some j) = refused "provider tool calls are invalid"

  unfoldable pub message_of : Fields → Checked ProviderMessage
  unfolding optional_text message_with
  message_of value =
      optional_text (present (get value "content")) "provider message content" >>>= λ content.
      optional_text (present (get value "reasoning_content")) "provider reasoning content"
      >>>= λ reasoning. message_with content (present (get value "tool_calls"))

  abbrev pub is_starved : Option Json → Bool
  is_starved (some (str reason)) = str_eq reason "insufficient_system_resource"
  is_starved j = false

  unfoldable pub respond : Fields → Fields → Fields → Checked ProviderResponse
  unfolding message_of finish_reason_of usage_of
  respond payload first message =
      if is_starved (get first "finish_reason")
      then err (retryable_error "provider inference resources were insufficient")
      else message_of message >>>= λ m.
          finish_reason_of (get first "finish_reason") m >>>= λ reason.
          usage_of (get payload "usage") >>>= λ usage. ok (record {
            raw = payload;
            usage = usage;
            choices = record { message = m; finish_reason = reason } ∷ [];
          })

  unfoldable pub with_message : Fields → Fields → Option Json → Checked ProviderResponse
  unfolding respond
  with_message payload first (some (obj message)) = respond payload first message
  with_message payload first j = refused "provider response message is invalid"

  unfoldable pub first_choice : Fields → Option Json → Checked ProviderResponse
  unfolding with_message
  first_choice payload (some (arr (cons (obj first) rest))) =
      with_message payload first (get first "message")
  first_choice payload (some (arr (cons j rest))) = refused "provider response message is invalid"
  first_choice payload j = refused "provider response has no choices"

  unfoldable pub from_payload : Json → Checked ProviderResponse
  unfolding first_choice
  from_payload (obj payload) = first_choice payload (get payload "choices")
  from_payload j = refused "provider response must be an object"

mutual
  pub without_none : Json → Json
  without_none (obj d) = obj (without_none_fields d)
  without_none (arr items) = arr (without_none_items items)
  without_none j = j

  pub without_none_items : Items → Items
  without_none_items nil = nil
  without_none_items (cons j items) = cons (without_none j) (without_none_items items)

  pub without_none_fields : Fields → Fields
  without_none_fields end = end
  without_none_fields (field k null d) = without_none_fields d
  without_none_fields (field k j d) = field k (without_none j) (without_none_fields d)

unfoldable pub model_dump : Bool → ProviderResponse → Json
model_dump true r = without_none (obj r.raw)
model_dump false r = obj r.raw
