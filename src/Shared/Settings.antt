-- ===== src/Shared/Settings.antt =====
-- shared/config/settings.py: the endpoints of the models and what the worker allows.
-- The settings come from the environment; `pydantic_settings` reads them.
use Prim.Native.Char.{Char, code}
use agentic_coding_stack.Prelude.{
  String, Option, none, some, List, [], ◌∷◌, map, keep, ◌==◌, if◌then◌else◌,
}
use agentic_coding_stack.Base.Number.{ℤ}
use agentic_coding_stack.Base.Text.{strip, truthy}
use agentic_coding_stack.Base.Json.{Json, str, arr, obj, Items, nil, cons, Fields, end, field}
use agentic_coding_stack.Base.Table.{Table}

-- `request_timeout_seconds` belongs to the HTTP library.
pub record ConductorSettings : Type 0 where
  pub api_token : String
  pub omlx_mem_embed_url : String
  pub omlx_mem_rerank_url : String
  pub omlx_builder_url : String
  pub omlx_reviewer_url : String
  pub omlx_arbiter_url : String
  pub retry_count : ℤ

unfoldable pub omlx_endpoints : ConductorSettings → Table String
omlx_endpoints s =
    ("mem_embed", s.omlx_mem_embed_url)
    ∷ ("mem_rerank", s.omlx_mem_rerank_url)
    ∷ ("builder", s.omlx_builder_url)
    ∷ ("reviewer", s.omlx_reviewer_url)
    ∷ ("arbiter", s.omlx_arbiter_url)
    ∷ []

pub record WorkerSettings : Type 0 where
  pub worker_token : String
  pub allowed_repos : String
  pub allowed_commands_json : String

-- `text.split(",")`
abbrev put_first : Char → List String → List String
put_first c [] = String.◌∷◌ c String.[] ∷ []
put_first c (s ∷ ss) = String.◌∷◌ c s ∷ ss

unfoldable pub split_commas : String → List String
split_commas String.[] = "" ∷ []
split_commas (String.◌∷◌ c s) =
    let rest = split_commas s in if code c == 44 then "" ∷ rest else put_first c rest

unfoldable pub allowed_repos_list : WorkerSettings → List String
unfolding split_commas
allowed_repos_list s = map strip (keep (λ path. truthy (strip path)) (split_commas s.allowed_repos))

-- `all(isinstance(v, str) for v in value)`, with the texts.
unfoldable pub all_texts : Items → Option (List String)
all_texts nil = some []
all_texts (cons (str s) r) = elim (all_texts r) [ some ss ↦ some (s ∷ ss) | none ↦ none ]
all_texts (cons j r) = none

unfoldable pub clean : Fields → Table (List String)
unfolding all_texts
clean end = []
clean (field key (arr items) r) =
    let rest = clean r in
    elim (all_texts items) [ some command ↦ (key, command) ∷ rest | none ↦ rest ]
clean (field key j r) = clean r

abbrev default_commands : Table (List String)
default_commands =
    ("lint", "echo" ∷ "lint" ∷ [])
    ∷ ("typecheck", "echo" ∷ "typecheck" ∷ [])
    ∷ ("test", "echo" ∷ "test" ∷ [])
    ∷ []

abbrev clean_loaded : Option Json → Table (List String)
clean_loaded (some (obj d)) = clean d
clean_loaded _ = []

-- `contents path` is the text of a file, `none` if it does not exist; `loads` is `json.loads`.
unfoldable pub command_allowlist :
    (String → Option String) → (String → Option Json) → WorkerSettings → Table (List String)
unfolding clean
command_allowlist contents loads s =
    if truthy s.allowed_commands_json
    then elim (contents s.allowed_commands_json) [
      | none ↦ []
      | some text ↦ clean_loaded (loads text)
    ]
    else default_commands
