-- ===== src/Subagent/Accepted.antt =====
-- What a response of the provider is like, once it is accepted.
use agentic_coding_stack.Prelude.{
  suc, ◌≤◌, String, ◌≡◌, refl, Bool, true, Bool-cases, inl, inr, Option, none, some, List, [], ◌∷◌,
  All, one_of, str_eq, eq_iff, arith,
}
use agentic_coding_stack.Base.Number.{pos}
use agentic_coding_stack.Base.Json.{Json, int, str, arr, obj, Items, nil, cons, Fields, get}
use agentic_coding_stack.Base.Chain.{Gives, Gives-ok, Gives-err, Gives-chain}
use agentic_coding_stack.Subagent.Response.{
  Checked, counters, optional_text, call_of, message_with, present, is_starved, with_message,
  first_choice, ProviderToolCall, ProviderMessage, ProviderResponse, expected_reason, reasons,
  usage_of, finish_reason_of, strict_text, tool_call, tool_calls_of, message_of, respond,
  from_payload,
}

module _ (encodes : String → Bool) where
  abbrev IsText : String → Type 0
  IsText s = encodes s ≡ true

  abbrev Texts : ProviderToolCall → Type 0
  Texts c = IsText c.id × IsText c.function.name × IsText c.function.arguments

  abbrev ContentTexts : Option String → Type 0
  ContentTexts none = Unit {0}
  ContentTexts (some s) = IsText s

  abbrev CallTexts : Option (List ProviderToolCall) → Type 0
  CallTexts none = Unit {0}
  CallTexts (some calls) = All Texts calls

  abbrev MessageTexts : ProviderMessage → Type 0
  MessageTexts m = ContentTexts m.content × CallTexts m.tool_calls

  -- A response to a payload: it keeps the payload, counts some tokens of the prompt, and has one
  -- choice, whose texts encode and whose finish reason says whether tools are called.
  pub record IsComplete (payload : Fields) (r : ProviderResponse) : Type 0 where
    pub kept : r.raw ≡ payload
    pub counted : 1 ≤ r.usage.prompt_tokens
    pub message : ProviderMessage
    pub one_choice :
        r.choices ≡ record { message = message; finish_reason = expected_reason message } ∷ []
    pub texts : MessageTexts message

  strict_text-IsText :
      (j : Option Json) (label : String) → Gives IsText (strict_text encodes j label)
  unfolding strict_text
  strict_text-IsText (some (str value)) label = elim (Bool-cases (encodes value)) [
    | inl h ↦ rw h (Gives-ok value h)
    | inr h ↦ rw h (Gives-err _)
  ]
  strict_text-IsText j label = Gives-err _

  optional_text-ContentTexts :
      (j : Option Json) (label : String) → Gives ContentTexts (optional_text encodes j label)
  unfolding optional_text
  optional_text-ContentTexts none label = Gives-ok none tt
  optional_text-ContentTexts (some j) label =
      Gives-chain (strict_text-IsText (some j) label) (λ s h. Gives-ok (some s) h)

  call_of-Texts : (d : Fields) (j : Option Json) → Gives Texts (call_of encodes d j)
  unfolding call_of
  call_of-Texts d (some (obj function)) = Gives-chain (strict_text-IsText (get d "id") _) (λ id h.
      Gives-chain (strict_text-IsText (get function "name") _) (λ name h'.
        Gives-chain (strict_text-IsText (get function "arguments") _)
          (λ arguments h''. Gives-ok _ (h, h', h''))))
  call_of-Texts d j = Gives-err _

  tool_call-Texts : (j : Json) → Gives Texts (tool_call encodes j)
  unfolding tool_call
  tool_call-Texts (obj d) = call_of-Texts d (get d "function")
  tool_call-Texts j = Gives-err _

  tool_calls_of-Texts : (calls : Items) → Gives (All Texts) (tool_calls_of encodes calls)
  unfolding tool_calls_of
  tool_calls_of-Texts nil = Gives-ok [] tt
  tool_calls_of-Texts (cons call calls) =
      Gives-chain (tool_call-Texts call)
        (λ c h. Gives-chain (tool_calls_of-Texts calls) (λ cs hs. Gives-ok (c ∷ cs) (h, hs)))

  message_with-MessageTexts :
      (content : Option String) (j : Option Json)
      → ContentTexts content
      → Gives MessageTexts (message_with encodes content j)
  unfolding message_with
  message_with-MessageTexts content none h = Gives-ok _ (h, tt)
  message_with-MessageTexts content (some (arr calls)) h =
      Gives-chain (tool_calls_of-Texts calls) (λ cs hs. Gives-ok _ (h, hs))
  message_with-MessageTexts content (some j) h = Gives-err _

  message_of-MessageTexts : (value : Fields) → Gives MessageTexts (message_of encodes value)
  unfolding message_of
  message_of-MessageTexts value =
      Gives-chain (optional_text-ContentTexts (present (get value "content")) _) (λ content h.
        Gives-chain (optional_text-ContentTexts (present (get value "reasoning_content")) _)
          (λ reasoning h'. message_with-MessageTexts content (present (get value "tool_calls")) h))

counters-Counted : (p c : Option Json) → Gives (λ u. 1 ≤ u.prompt_tokens) (counters p c)
counters-Counted (some (int (pos (suc p)))) (some (int (pos c))) = Gives-ok _ (omega arith)
counters-Counted p c = Gives-err _

usage_of-Counted : (j : Option Json) → Gives (λ u. 1 ≤ u.prompt_tokens) (usage_of j)
unfolding usage_of
usage_of-Counted (some (obj d)) =
    counters-Counted (get d "prompt_tokens") (get d "completion_tokens")
usage_of-Counted j = Gives-err _

finish_reason_of-expected :
    (j : Option Json) (m : ProviderMessage)
    → Gives (λ r. r ≡ expected_reason m) (finish_reason_of j m)
unfolding finish_reason_of
finish_reason_of-expected (some (str value)) m = elim (Bool-cases (one_of value reasons)) [
  | inl h ↦ rw h (elim (Bool-cases (str_eq value (expected_reason m))) [
    | inl same ↦ rw same (Gives-ok value ((eq_iff value (expected_reason m)).0 same))
    | inr other ↦ rw other (Gives-err _)
  ])
  | inr h ↦ rw h (Gives-err _)
]
finish_reason_of-expected j m = Gives-err _

module _ (encodes : String → Bool) (payload : Fields) where
  abbrev Complete : Checked ProviderResponse → Type 0
  Complete m = Gives (IsComplete encodes payload) m

  respond-Complete : (first message : Fields) → Complete (respond encodes payload first message)
  unfolding respond
  respond-Complete first message =
      elim (Bool-cases (is_starved encodes (get first "finish_reason"))) [
        | inl h ↦ rw h (Gives-err _)
        | inr h ↦ rw h (
            Gives-chain (message_of-MessageTexts encodes message) (λ m texts.
              Gives-chain (finish_reason_of-expected (get first "finish_reason") m) (λ reason said.
                Gives-chain (usage_of-Counted (get payload "usage")) (λ usage counted.
                  Gives-ok _ (record {
                    kept = refl;
                    counted = counted;
                    message = m;
                    one_choice = rw said refl;
                    texts = texts;
                  })))))
      ]

  with_message-Complete :
      (first : Fields) (j : Option Json) → Complete (with_message encodes payload first j)
  unfolding with_message
  with_message-Complete first (some (obj message)) = respond-Complete first message
  with_message-Complete first j = Gives-err _

  first_choice-Complete : (j : Option Json) → Complete (first_choice encodes payload j)
  unfolding first_choice
  first_choice-Complete (some (arr (cons (obj first) rest))) =
      with_message-Complete first (get first "message")
  first_choice-Complete j = Gives-err _

  -- What is accepted of the provider is well formed, whatever it sends. A response that
  -- `from_payload` makes of an object keeps the object, counts at least one token of the prompt, and
  -- has exactly one choice. Its content and the ids, names and arguments of its tool calls encode as
  -- UTF-8, and its finish reason is "tool_calls" where it has tool calls and "stop" otherwise.
  pub from_payload-IsComplete :
      Gives (IsComplete encodes payload) (from_payload encodes (obj payload))
  unfolding from_payload
  from_payload-IsComplete = first_choice-Complete (get payload "choices")
