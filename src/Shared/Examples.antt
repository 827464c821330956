-- ===== src/Shared/Examples.antt =====
-- Examples of the token check and of the retries.
use agentic_coding_stack.Prelude.{ℕ, ◌+◌, ◌≡◌, refl, ◌⊎◌, ◌↔◌, some, [], ◌∷◌, ◌==◌, if◌then◌else◌}
use agentic_coding_stack.Base.Number.{pos}
use agentic_coding_stack.Base.Text.{concat}
use agentic_coding_stack.Base.Json.{Json, null, obj, end}
use agentic_coding_stack.Base.Table.{find}
use agentic_coding_stack.Base.Exec.{ok, err}
use agentic_coding_stack.Shared.Auth.{require_bearer, Carries, require_bearer_iff}
use agentic_coding_stack.Shared.Settings.{ConductorSettings}
use agentic_coding_stack.Shared.Clients.{
  HttpClient, base_url_for_alias, post_alias, bearer, request_failed,
}
use agentic_coding_stack.Shared.Clients.Retries.{Answered, GaveUp, post_alias_lem}

require_bearer_iff_example :
    (require_bearer "t" (some "Bearer t ") ≡ ok tt) ↔ Carries "t" (some "Bearer t ")
require_bearer_iff_example = require_bearer_iff "t" (some "Bearer t ")

-- The state counts the requests; the first one fails.
abbrev client : HttpClient ℕ Json
client = record {
  post = λ url payload authorization n. (if n == 0 then err "timeout" else ok (obj end), n + 1);
  fetch = λ url authorization n. (ok null, n);
  raise_for_status = λ response. ok tt;
  json = λ response. ok response;
}

abbrev settings : ConductorSettings
settings = record {
  api_token = "t";
  omlx_mem_embed_url = "u";
  omlx_mem_rerank_url = "u";
  omlx_builder_url = "http://builder";
  omlx_reviewer_url = "u";
  omlx_arbiter_url = "u";
  retry_count = pos 2;
}

known : base_url_for_alias client settings "builder" ≡ ok "http://builder"
unfolding base_url_for_alias find
known = refl

second_answers : post_alias client settings "builder" "/chat" null 0 ≡ (ok (obj end), 2)
unfolding post_alias find
second_answers = refl

post_alias_lem_example :
    let url = concat ("http://builder" ∷ "/chat" ∷ []) in
    let outcome = post_alias client settings "builder" "/chat" null 0 in
    Answered client url null (bearer client settings) 3 0 "None" outcome
    ⊎ GaveUp client url null
        (bearer client settings)
        3
        (request_failed client settings "builder")
        0
        "None"
        outcome
post_alias_lem_example =
    post_alias_lem client settings 2 "builder" "/chat" "http://builder" null 0 refl known
