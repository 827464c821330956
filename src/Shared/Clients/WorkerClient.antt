-- ===== src/Shared/Clients/WorkerClient.antt =====
-- shared/clients/worker_client.py: the calls of the worker.
use Prim.Native.Char.{code}
use agentic_coding_stack.Prelude.{String, Bool, true, ◌&&◌, List, [], ◌∷◌, ◌==◌, if◌then◌else◌}
use agentic_coding_stack.Base.Text.{concat}
use agentic_coding_stack.Base.Json.{Json, str, arr, obj, Fields, end, field, strs}
use agentic_coding_stack.Base.Exec.{Exec, lift, ◌>>=◌, ◌>>◌}
use agentic_coding_stack.Shared.Clients.{HttpClient, exchange}

abbrev all_slashes : String → Bool
all_slashes String.[] = true
all_slashes (String.◌∷◌ c s) = code c == 47 && all_slashes s

-- `url.rstrip("/")`
unfoldable pub without_slashes : String → String
without_slashes String.[] = String.[]
without_slashes (String.◌∷◌ c s) =
    let rest = without_slashes s in
    if all_slashes (String.◌∷◌ c s) then String.[] else String.◌∷◌ c rest

pub record WorkerAt : Type 0 where
  pub base_url : String
  pub token : String

-- `WorkerClient(base_url, token)`
unfoldable pub worker_client : String → String → WorkerAt
unfolding without_slashes
worker_client base_url token = record { base_url = without_slashes base_url; token = token }

module _ {E R : Type 0} (h : HttpClient E R) (w : WorkerAt) where
  abbrev authorization : String
  authorization = concat ("Bearer " ∷ w.token ∷ [])

  -- `WorkerClient._post`
  unfoldable pub post_worker : String → Fields → Exec E String Json
  unfolding exchange concat
  post_worker path payload =
      exchange h (concat (w.base_url ∷ path ∷ [])) (obj payload) authorization

  unfoldable pub health : Exec E String Json
  unfolding concat
  health = do
    response ← h.fetch (concat (w.base_url ∷ "/health" ∷ [])) authorization
    lift (h.raise_for_status response)
    lift (h.json response)

  abbrev task_fields : String → String → Fields → Fields
  task_fields repo task more = field "repo" (str repo) (field "task_id" (str task) more)

  unfoldable pub prepare_repo : String → String → String → Exec E String Json
  unfolding post_worker
  prepare_repo repo task base_branch =
      post_worker "/repo/prepare"
        (task_fields repo task (field "base_branch" (str base_branch) end))

  unfoldable pub reset_repo : String → String → Exec E String Json
  unfolding post_worker
  reset_repo repo task = post_worker "/repo/reset" (task_fields repo task end)

  unfoldable pub run_command : String → String → String → List String → Exec E String Json
  unfolding post_worker
  run_command repo task command_key args = post_worker "/run/command" (
      task_fields repo task
        (field "command_key" (str command_key) (field "args" (arr (strs args)) end)))

  unfoldable pub read_file : String → String → String → Exec E String Json
  unfolding post_worker
  read_file repo task path =
      post_worker "/artifact/read_file" (task_fields repo task (field "path" (str path) end))

  unfoldable pub write_file : String → String → String → String → Exec E String Json
  unfolding post_worker
  write_file repo task path content =
      post_worker "/artifact/write_file"
        (task_fields repo task (field "path" (str path) (field "content" (str content) end)))

  unfoldable pub run_lint : String → String → Exec E String Json
  unfolding post_worker
  run_lint repo task = post_worker "/run/lint" (task_fields repo task end)

  unfoldable pub run_typecheck : String → String → Exec E String Json
  unfolding post_worker
  run_typecheck repo task = post_worker "/run/typecheck" (task_fields repo task end)

  unfoldable pub run_tests : String → String → List String → Exec E String Json
  unfolding post_worker
  run_tests repo task tests =
      post_worker "/run/tests" (task_fields repo task (field "tests" (arr (strs tests)) end))

  unfoldable pub git_diff : String → String → Exec E String Json
  unfolding post_worker
  git_diff repo task = post_worker "/git/diff" (task_fields repo task end)
