-- ===== src/Shared/Clients.antt =====
-- shared/clients/: the clients of the models and of the worker, over an HTTP client.
pub mod Retries
pub mod WorkerClient
use Prim.Native.Char.{Char, code}
use Prim.Native.String.{◌++◌ as str_append}
use agentic_coding_stack.Prelude.{
  ℕ, zero, suc, ◌+◌, String, Option, none, some, List, [], ◌∷◌, ◌==◌, if◌then◌else◌,
}
use agentic_coding_stack.Base.Number.{ℤ, pos, negsuc}
use agentic_coding_stack.Base.Text.{concat}
use agentic_coding_stack.Base.Json.{
  Json, str, arr, obj, Items, nil, cons, Fields, end, field, get, strs,
}
use agentic_coding_stack.Base.Table.{find}
use agentic_coding_stack.Base.Exec.{Result, ok, err, Exec, pure, raise, lift, ◌>>=◌, ◌>>◌}
use agentic_coding_stack.Shared.Parsing.{get_from, not_object}
use agentic_coding_stack.Shared.Settings.{ConductorSettings, omlx_endpoints}

-- httpx: `post url payload authorization` sends a request, `fetch` a GET; a response of type `R` may
-- be refused by `raise_for_status` and is read by `json`. The errors are the texts of exceptions.
pub record HttpClient (E R : Type 0) : Type 0 where
  pub post : String → Json → String → Exec E String R
  pub fetch : String → String → Exec E String R
  pub raise_for_status : R → Result String (Unit {0})
  pub json : R → Result String Json

-- `alias.replace("-", "_")`
unfoldable pub underscored : String → String
underscored String.[] = String.[]
underscored (String.◌∷◌ c s) =
    let rest = underscored s in if code c == 45 then str_append "_" rest else String.◌∷◌ c rest

-- `len(range(n + 1))`
abbrev pub range_length : ℤ → ℕ
range_length (pos n) = suc n
range_length (negsuc n) = zero

-- `item["embedding"]`
abbrev pub embedding_of : Json → Result String Json
embedding_of (obj d) = elim (get d "embedding") [ some v ↦ ok v | none ↦ err "embedding" ]
embedding_of j = err (not_object j "is not subscriptable")

-- `[item["embedding"] for item in items]`
unfoldable pub embeddings_of : Items → Result String (List Json)
embeddings_of nil = ok []
embeddings_of (cons item items) = elim (embedding_of item) [
  | err text ↦ err text
  | ok v ↦ elim (embeddings_of items) [ ok vs ↦ ok (v ∷ vs) | err text ↦ err text ]
]

abbrev pub all_embeddings : Json → Result String (List Json)
all_embeddings (arr items) = embeddings_of items
all_embeddings j = err (not_object j "is not a list of embeddings")

-- `try: return ... except Exception as exc`, and what follows with the text of the exception.
abbrev pub retried :
    {E : Type 0}
    → Result String Json × E
    → (String → E → Result String Json × E)
    → Result String Json × E
retried (ok answer, e) k = (ok answer, e)
retried (err text, e) k = k text e

module _ {E R : Type 0} (h : HttpClient E R) where
  -- A request and the reading of its response.
  unfoldable pub exchange : String → Json → String → Exec E String Json
  exchange url payload authorization = do
    response ← h.post url payload authorization
    lift (h.raise_for_status response)
    lift (h.json response)

  -- The loop of `OMLXClient._post` with so many rounds left; `last_error` is the text of the last
  -- exception.
  unfoldable pub post_rounds :
      ℕ → (String → String) → String → String → Json → String → Exec E String Json
  unfolding exchange
  post_rounds zero failure last_error url payload authorization e = (err (failure last_error), e)
  post_rounds (suc n) failure last_error url payload authorization e =
      retried (exchange url payload authorization e)
        (λ text e'. post_rounds n failure text url payload authorization e')

  module _ (s : ConductorSettings) where
    abbrev pub bearer : String
    bearer = concat ("Bearer " ∷ s.api_token ∷ [])

    abbrev pub request_failed : String → String → String
    request_failed alias last_error =
        concat ("oMLX request failed for alias=" ∷ alias ∷ ": " ∷ last_error ∷ [])

    -- `OMLXClient._base_url_for_alias`
    unfoldable pub base_url_for_alias : String → Result String String
    unfolding omlx_endpoints underscored concat
    base_url_for_alias alias = elim (find (underscored alias) (omlx_endpoints s)) [
      | some url ↦ ok url
      | none ↦ err (concat ("Unknown alias: " ∷ alias ∷ []))
    ]

    -- `OMLXClient._post`
    unfoldable pub post_alias : String → String → Json → Exec E String Json
    unfolding base_url_for_alias post_rounds concat
    post_alias alias path payload = do
      base_url ← lift (base_url_for_alias alias)
      post_rounds (range_length s.retry_count) (request_failed alias) "None"
          (concat (base_url ∷ path ∷ [])) payload bearer

    -- `messages` and what else the caller adds to the payload.
    unfoldable pub chat : String → Json → (Fields → Fields) → Exec E String Json
    unfolding post_alias
    chat alias messages more =
        post_alias alias "/chat/completions"
          (obj (more (field "model" (str alias) (field "messages" messages end))))

    unfoldable pub embed : String → List String → Exec E String (List Json)
    unfolding post_alias embeddings_of
    embed alias inputs = do
      response ←
          post_alias alias "/embeddings"
            (obj (field "model" (str alias) (field "input" (arr (strs inputs)) end)))
      data_items ← lift (get_from response "data" (arr nil))
      lift (all_embeddings data_items)

    unfoldable pub rerank : String → String → List String → Exec E String Json
    unfolding post_alias
    rerank alias text documents = do
      response ← post_alias alias "/rerank" (
          obj (
            field "model" (str alias)
              (field "query" (str text) (field "documents" (arr (strs documents)) end))))
      lift (get_from response "results" (arr nil))

    unfoldable pub list_models : String → Exec E String Json
    unfolding concat
    list_models base_url = do
      response ← h.fetch (concat (base_url ∷ "/models" ∷ [])) bearer
      lift (h.raise_for_status response)
      lift (h.json response)
