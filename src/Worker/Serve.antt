-- ===== src/Worker/Serve.antt =====
-- The routes of apps/worker/main.py behind their token, and what they refuse.
use agentic_coding_stack.Prelude.{
  String, ◌≡◌, refl, false, Option, none, some, List, Bool-cases, inl, inr, ◌⊎◌,
}
use agentic_coding_stack.Base.Json.{Fields, str}
use agentic_coding_stack.Base.Exec.{err, Error, http, Exec, lift, ◌>>=◌, ◌>>◌}
use agentic_coding_stack.Shared.Auth.{
  require_bearer, Carries, require_bearer_iff, require_bearer-cases,
}
use agentic_coding_stack.Shared.Settings.{WorkerSettings}
use agentic_coding_stack.Worker.Handlers.{
  Os, is_allowed_repo, ensure_allowed_repo, health, repo_prepare, repo_reset, artifact_read_file,
  artifact_write_file, run_command, run_tool, run_tests, git_diff, git_commit, git_push,
}

-- A request to one of the routes, with the fields that its handler reads.
pub data Request : Type 0 where
  get_health : Request
  post_prepare : String → String → Request
  post_reset : String → String → Request
  post_read : String → String → Request
  post_write : String → String → String → Request
  post_command : String → String → List String → Request
  post_lint : String → String → Request
  post_typecheck : String → String → Request
  post_tests : String → String → List String → Request
  post_diff : String → String → Request
  post_commit : String → String → Request
  post_push : String → String → Request

-- The repository of a request.
abbrev pub repo_of : Request → Option String
repo_of get_health = none
repo_of (post_prepare repo task) = some repo
repo_of (post_reset repo task) = some repo
repo_of (post_read repo path) = some repo
repo_of (post_write repo path content) = some repo
repo_of (post_command repo key args) = some repo
repo_of (post_lint repo task) = some repo
repo_of (post_typecheck repo task) = some repo
repo_of (post_tests repo task tests) = some repo
repo_of (post_diff repo task) = some repo
repo_of (post_commit repo message) = some repo
repo_of (post_push repo task) = some repo

module _ {E : Type 0} (os : Os E) (s : WorkerSettings) where
  unfoldable pub handle : Request → Exec E Error Fields
  unfolding health repo_prepare repo_reset artifact_read_file artifact_write_file run_command
      run_tool run_tests git_diff git_commit git_push
  handle get_health = health os s
  handle (post_prepare repo task) = repo_prepare os s repo task
  handle (post_reset repo task) = repo_reset os s repo task
  handle (post_read repo path) = artifact_read_file os s repo path
  handle (post_write repo path content) = artifact_write_file os s repo path content
  handle (post_command repo key args) = run_command os s repo key args
  handle (post_lint repo task) = run_tool os s "lint" repo task
  handle (post_typecheck repo task) = run_tool os s "typecheck" repo task
  handle (post_tests repo task tests) = run_tests os s repo task tests
  handle (post_diff repo task) = git_diff os s repo task
  handle (post_commit repo message) = git_commit os s repo message
  handle (post_push repo task) = git_push os s repo task

  -- `Depends(_auth)` runs in front of every handler.
  unfoldable pub serve : Option String → Request → Exec E Error Fields
  unfolding handle
  serve authorization request = do
    lift (require_bearer s.worker_token authorization)
    handle request

  -- The request names a repository outside the allowed roots.
  abbrev pub IsOutside : Request → Type 0
  IsOutside request =
      (repo : String) × (repo_of request ≡ some repo) × (is_allowed_repo os s repo ≡ false)

  -- Behind the first guard nothing is reached.
  first_guard :
      (asked repo : String) (k : Unit {0} → Exec E Error Fields) (e : E)
      → some asked ≡ some repo
      → is_allowed_repo os s repo ≡ false
      → (ensure_allowed_repo os s asked >>= k) e ≡ (err (http 403 (str "repo not allowed")), e)
  unfolding ensure_allowed_repo
  first_guard asked repo k e same bad =
      let denied : is_allowed_repo os s asked ≡ false = cc in rw denied refl

  handle-IsOutside :
      (request : Request) (e : E)
      → IsOutside request
      → handle request e ≡ (err (http 403 (str "repo not allowed")), e)
  unfolding handle repo_prepare repo_reset artifact_read_file artifact_write_file run_command
      run_tool run_tests git_diff git_commit git_push
  handle-IsOutside get_health e (repo, h, bad) = cc
  handle-IsOutside (post_prepare r task) e (repo, h, bad) = first_guard r repo _ e h bad
  handle-IsOutside (post_reset r task) e (repo, h, bad) = first_guard r repo _ e h bad
  handle-IsOutside (post_read r path) e (repo, h, bad) = first_guard r repo _ e h bad
  handle-IsOutside (post_write r path content) e (repo, h, bad) = first_guard r repo _ e h bad
  handle-IsOutside (post_command r key args) e (repo, h, bad) = first_guard r repo _ e h bad
  handle-IsOutside (post_lint r task) e (repo, h, bad) = first_guard r repo _ e h bad
  handle-IsOutside (post_typecheck r task) e (repo, h, bad) = first_guard r repo _ e h bad
  handle-IsOutside (post_tests r task tests) e (repo, h, bad) = first_guard r repo _ e h bad
  handle-IsOutside (post_diff r task) e (repo, h, bad) = first_guard r repo _ e h bad
  handle-IsOutside (post_commit r message) e (repo, h, bad) = first_guard r repo _ e h bad
  handle-IsOutside (post_push r task) e (repo, h, bad) = first_guard r repo _ e h bad

  handle_cases : (request : Request) → IsOutside request ⊎ (¬ IsOutside request)
  handle_cases request = go (repo_of request) refl
    where
      go : (o : Option String) → repo_of request ≡ o → IsOutside request ⊎ (¬ IsOutside request)
      go none e = inr (λ out. cc (e, out.1))
      go (some repo) e = elim (Bool-cases (is_allowed_repo os s repo)) [
        | inl inside ↦
            inr (λ out. let same : out.0 ≡ repo = cc (e, out.1) in cc (inside, out.2, same))
        | inr bad ↦ inl (repo, e, bad)
      ]

  -- Every route of the worker is guarded, and a guard that refuses leaves the state as it was. A
  -- request whose header does not carry the token gets a 401. One that carries it and names a
  -- repository which is neither an allowed root nor below one gets a 403. Any other request reaches
  -- its handler.
  pub serve_lem :
      (authorization : Option String) (request : Request) (e : E)
      → ((¬ Carries s.worker_token authorization)
          × (detail : String) × (serve authorization request e ≡ (err (http 401 (str detail)), e)))
        ⊎ (Carries s.worker_token authorization
            × IsOutside request
            × (serve authorization request e ≡ (err (http 403 (str "repo not allowed")), e)))
        ⊎ (Carries s.worker_token authorization
            × (¬ IsOutside request)
            × (serve authorization request e ≡ handle request e))
  unfolding serve
  serve_lem authorization request e =
      let passes = require_bearer_iff s.worker_token authorization in
      elim (require_bearer-cases s.worker_token authorization) [
        | inr (detail, refused) ↦
            inl (λ token. cc (refused, passes.1 token), detail, rw refused refl)
        | inl passed ↦ inr (elim (handle_cases request) [
          | inl out ↦ inl (passes.0 passed, out, rw passed (handle-IsOutside request e out))
          | inr inside ↦ inr (passes.0 passed, inside, rw passed refl)
        ])
      ]
