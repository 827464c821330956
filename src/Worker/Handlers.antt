-- ===== src/Worker/Handlers.antt =====
-- apps/worker/main.py: the routes of the worker, each behind its guards.

use agentic_coding_stack.Prelude.{
  ℕ, String, Bool, true, false, ◌&&◌, Option, none, some, List, [], ◌∷◌, ◌++◌, any, str_eq,
  if◌then◌else◌,
}
use agentic_coding_stack.Base.Number.{pos}
use agentic_coding_stack.Base.Text.{concat}
use agentic_coding_stack.Base.Json.{Json, bool, int, str, arr, nil, Fields, end, field, strs}
use agentic_coding_stack.Base.Table.{find}
use agentic_coding_stack.Base.Exec.{ok, err, Error, http, crash, Exec, pure, raise, ◌>>=◌, ◌>>◌}
use agentic_coding_stack.Shared.Settings.{WorkerSettings, allowed_repos_list, command_allowlist}

-- A resolved path: its parts below the root, the outermost first.
abbrev pub PathParts : Type 0
PathParts = List String

-- pathlib and the file system, with state `E`: `resolve` is `Path(p).resolve()`, `resolve_below root p`
-- is `(root / p).resolve()`; `byte_length` is the length in UTF-8, `loads` is `json.loads`. What
-- raises gives the text of its exception.
pub record Os (E : Type 0) : Type 0 where
  pub resolve : String → PathParts
  pub resolve_below : PathParts → String → PathParts
  pub exists : PathParts → E → Bool
  pub read_text : PathParts → Exec E String String
  pub make_parents : PathParts → Exec E String (Unit {0})
  pub write_text : PathParts → String → Exec E String (Unit {0})
  pub shown : PathParts → String
  pub byte_length : String → ℕ
  pub settings_file : String → Option String
  pub loads : String → Option Json

-- `path == root or root in path.parents`
unfoldable pub is_within : PathParts → PathParts → Bool
is_within [] path = true
is_within (r ∷ root) [] = false
is_within (r ∷ root) (p ∷ path) = str_eq r p && is_within root path

module _ {E : Type 0} (os : Os E) (s : WorkerSettings) where
  abbrev Handler : Type 0 → Type 0
  Handler A = Exec E Error A

  -- A call whose exception is not caught.
  unfoldable pub uncaught : {A : Type 0} → Exec E String A → Handler A
  uncaught m e = (elim (m e).0 [ ok a ↦ ok a | err text ↦ err (crash text) ], (m e).1)

  unfoldable pub is_allowed_repo : String → Bool
  unfolding is_within allowed_repos_list
  is_allowed_repo repo =
      any (λ root. is_within (os.resolve root) (os.resolve repo)) (allowed_repos_list s)

  unfoldable pub ensure_allowed_repo : String → Handler (Unit {0})
  unfolding is_allowed_repo
  ensure_allowed_repo repo =
      if is_allowed_repo repo then pure tt else raise (http 403 (str "repo not allowed"))

  unfoldable pub safe_repo_file_path : String → String → Handler PathParts
  unfolding is_within
  safe_repo_file_path repo rel_path =
      let repo_path = os.resolve repo in
      let path = os.resolve_below repo_path rel_path in
      if is_within repo_path path then pure path else raise (http 400 (str "path escapes repo"))

  unfoldable pub ensure_command_allowed : String → Handler (List String)
  unfolding command_allowlist
  ensure_command_allowed key = elim (find key (command_allowlist os.settings_file os.loads s)) [
    | some command ↦ pure command
    | none ↦ raise (http 403 (str "command_key not allowlisted"))
  ]

  unfoldable pub health : Handler Fields
  health = pure (
      field "allowed_repos" (arr (strs (allowed_repos_list s)))
        (field "busy" (bool false) (field "current_worktrees" (arr nil) end)))

  unfoldable pub repo_prepare : String → String → Handler Fields
  unfolding ensure_allowed_repo concat
  repo_prepare repo task = do
    ensure_allowed_repo repo
    pure (
        field "worktree_path" (str (concat ("/tmp/" ∷ task ∷ [])))
          (field "branch_name" (str (concat ("task/" ∷ task ∷ []))) end))

  unfoldable pub repo_reset : String → String → Handler Fields
  unfolding ensure_allowed_repo
  repo_reset repo task = do
    ensure_allowed_repo repo
    pure (field "ok" (bool true) (field "task_id" (str task) end))

  -- `safe_path.read_text() if safe_path.exists() else ""`
  unfoldable pub content_of : PathParts → Handler String
  unfolding uncaught
  content_of path e = (if os.exists path e then uncaught (os.read_text path) else pure "") e

  unfoldable pub artifact_read_file : String → String → Handler Fields
  unfolding ensure_allowed_repo safe_repo_file_path content_of
  artifact_read_file repo path = do
    ensure_allowed_repo repo
    safe_path ← safe_repo_file_path repo path
    content ← content_of safe_path
    pure (field "content" (str content) (field "path" (str (os.shown safe_path)) end))

  unfoldable pub artifact_write_file : String → String → String → Handler Fields
  unfolding ensure_allowed_repo safe_repo_file_path uncaught
  artifact_write_file repo path content = do
    ensure_allowed_repo repo
    safe_path ← safe_repo_file_path repo path
    uncaught (os.make_parents safe_path)
    uncaught (os.write_text safe_path content)
    pure (
        field "ok" (bool true) (
          field "path" (str (os.shown safe_path))
            (field "bytes_written" (int (pos (os.byte_length content))) end)))

  unfoldable pub run_command : String → String → List String → Handler Fields
  unfolding ensure_allowed_repo ensure_command_allowed
  run_command repo key args = do
    ensure_allowed_repo repo
    template ← ensure_command_allowed key
    pure (
        field "ok" (bool true) (
          field "command_key" (str key) (
            field "command" (arr (strs (template ++ args)))
              (field "stdout" (str "") (field "stderr" (str "") end)))))

  -- `run_lint` and `run_typecheck`
  unfoldable pub run_tool : String → String → String → Handler Fields
  unfolding ensure_allowed_repo ensure_command_allowed
  run_tool tool repo task = do
    ensure_allowed_repo repo
    ensure_command_allowed tool
    pure (field "ok" (bool true) (field "task_id" (str task) (field "tool" (str tool) end)))

  unfoldable pub run_tests : String → String → List String → Handler Fields
  unfolding ensure_allowed_repo ensure_command_allowed
  run_tests repo task tests = do
    ensure_allowed_repo repo
    ensure_command_allowed "test"
    pure
        (field "ok" (bool true) (field "task_id" (str task) (field "tests" (arr (strs tests)) end)))

  unfoldable pub git_diff : String → String → Handler Fields
  unfolding ensure_allowed_repo
  git_diff repo task = do
    ensure_allowed_repo repo
    pure (field "diff" (str "") (field "changed_files" (arr nil) (field "task_id" (str task) end)))

  unfoldable pub git_commit : String → String → Handler Fields
  unfolding ensure_allowed_repo
  git_commit repo message = do
    ensure_allowed_repo repo
    pure (field "ok" (bool true) (field "commit" (str "stub") (field "message" (str message) end)))

  unfoldable pub git_push : String → String → Handler Fields
  unfolding ensure_allowed_repo
  git_push repo task = do
    ensure_allowed_repo repo
    pure (field "ok" (bool true) (field "remote" (str "origin") (field "task_id" (str task) end)))
