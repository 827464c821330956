-- ===== src/Worker/Contained.antt =====
-- Which paths the worker reads and writes.
use agentic_coding_stack.Prelude.{
  String, ◌≡◌, refl, ◌⊎◌, true, false, Option, none, some, List, [], ◌∷◌, In, any-In, Bool-cases,
  inl, inr, eq_iff, arith,
}
use agentic_coding_stack.Base.Json.{Fields}
use agentic_coding_stack.Base.Table.{find}
use agentic_coding_stack.Base.Exec.{Result, ok, err, Error, crash, Exec, lift, pure, ◌>>=◌}
use agentic_coding_stack.Base.Triple.{Post, Triple, Triple-bind, Triple-pure, Triple-with}
use agentic_coding_stack.Shared.Auth.{require_bearer}
use agentic_coding_stack.Shared.Settings.{WorkerSettings, allowed_repos_list, command_allowlist}
use agentic_coding_stack.Worker.Handlers.{
  PathParts, Os, is_within, uncaught, is_allowed_repo, ensure_allowed_repo, safe_repo_file_path,
  ensure_command_allowed, health, repo_prepare, repo_reset, content_of, artifact_read_file,
  artifact_write_file, run_command, run_tool, run_tests, git_diff, git_commit, git_push,
}
use agentic_coding_stack.Worker.Serve.{
  Request, get_health, post_prepare, post_reset, post_read, post_write, post_command, post_lint,
  post_typecheck, post_tests, post_diff, post_commit, post_push, handle, serve,
}

within_trans :
    (a b c : PathParts) → is_within a b ≡ true → is_within b c ≡ true → is_within a c ≡ true
unfolding is_within
within_trans [] b c h k = refl
within_trans (x ∷ a) [] c h k = cc
within_trans (x ∷ a) (y ∷ b) [] h k = cc
within_trans (x ∷ a) (y ∷ b) (z ∷ c) h k =
    ground (arith, h, k, eq_iff x y, eq_iff y z, eq_iff x z, within_trans a b c)

module _ {E : Type 0} (os : Os E) (s : WorkerSettings) where
  -- The path is an allowed root or lies below one.
  abbrev pub IsAllowed : PathParts → Type 0
  IsAllowed path =
      (root : String) × In root (allowed_repos_list s) × (is_within (os.resolve root) path ≡ true)

  module _ (P : E → Type 0) where
    -- What is done to a path keeps `P`.
    pub record Keeps (path : PathParts) : Type 0 where
      pub reads : (e : E) → P e → P (os.read_text path e).1
      pub makes : (e : E) → P e → P (os.make_parents path e).1
      pub writes : (content : String) (e : E) → P e → P (os.write_text path content e).1

    abbrev Safe : {A : Type 0} → Exec E Error A → Type 0
    Safe m = Triple P m (λ a e. P e) P

    uncaught-Safe :
        {A : Type 0} (m : Exec E String A) → ((e : E) → P e → P (m e).1) → Safe (uncaught os s m)
    unfolding uncaught
    uncaught-Safe {A} m h = record { at = λ e p. go (m e) (h e p) }
      where
        go :
            (out : Result String A × E)
            → P out.1
            → Post (λ a e. P e) P (elim out.0 [ ok a ↦ ok a | err text ↦ err (crash text) ]) out.1
        go (ok a, e) p = p
        go (err text, e) p = p

    allowed-Safe :
        (repo : String)
        → Triple P
            (ensure_allowed_repo os s repo)
            (λ a e. P e × (is_allowed_repo os s repo ≡ true))
            P
    unfolding ensure_allowed_repo
    allowed-Safe repo = elim (Bool-cases (is_allowed_repo os s repo)) [
      | inl yes_allowed ↦ rw yes_allowed (Triple-pure tt (λ e p. (p, refl)))
      | inr denied ↦ rw denied (record { at = λ e p. p })
    ]

    module _ (keeps : (path : PathParts) → IsAllowed path → Keeps path) where
      -- A path below an allowed repository.
      below-IsAllowed :
          (repo : String) (path : PathParts)
          → is_allowed_repo os s repo ≡ true
          → is_within (os.resolve repo) path ≡ true
          → IsAllowed path
      unfolding is_allowed_repo
      below-IsAllowed repo path h k =
          let (root, i, e) = any-In _ (allowed_repos_list s) h in
          (root, i, within_trans (os.resolve root) (os.resolve repo) path e k)

      safe-Keeps :
          (repo rel_path : String)
          → is_allowed_repo os s repo ≡ true
          → Triple P (safe_repo_file_path os s repo rel_path) (λ path e. P e × Keeps path) P
      unfolding safe_repo_file_path
      safe-Keeps repo rel_path h =
          let path = os.resolve_below (os.resolve repo) rel_path in
          elim (Bool-cases (is_within (os.resolve repo) path)) [
            | inl k ↦
                rw k (Triple-pure path (λ e p. (p, keeps path (below-IsAllowed repo path h k))))
            | inr k ↦ rw k (record { at = λ e p. p })
          ]

      content-Safe : (path : PathParts) → Keeps path → Safe (content_of os s path)
      unfolding content_of
      content-Safe path k = record { at = λ e p. go e p (Bool-cases (os.exists path e)) }
        where
          go :
              (e : E)
              → P e
              → (os.exists path e ≡ true) ⊎ (os.exists path e ≡ false)
              → Post (λ a s'. P s') P (content_of os s path e).0 (content_of os s path e).1
          go e p (inl there) = rw there ((uncaught-Safe (os.read_text path) k.reads).at e p)
          go e p (inr missing) = rw missing p

      read-Safe : (repo path : String) → Safe (artifact_read_file os s repo path)
      unfolding artifact_read_file
      read-Safe repo path = Triple-bind (allowed-Safe repo) (λ u. Triple-with (λ h.
          Triple-bind (safe-Keeps repo path h) (λ safe_path.
            Triple-with
              (λ k. Triple-bind (content-Safe safe_path k) (λ content. Triple-pure _ (λ e p. p))))))

      write-Safe : (repo path content : String) → Safe (artifact_write_file os s repo path content)
      unfolding artifact_write_file
      write-Safe repo path content = Triple-bind (allowed-Safe repo) (λ u. Triple-with (λ h.
          Triple-bind (safe-Keeps repo path h) (λ safe_path. Triple-with (λ k.
            Triple-bind (uncaught-Safe (os.make_parents safe_path) k.makes) (λ u'.
              Triple-bind (uncaught-Safe (os.write_text safe_path content) (k.writes content))
                (λ u''. Triple-pure _ (λ e p. p)))))))

      command-Safe : (key : String) → Safe (ensure_command_allowed os s key)
      unfolding ensure_command_allowed
      command-Safe key = record { at = λ e p. go e p (find key _) refl }
        where
          go :
              (e : E)
              → P e
              → (o : Option (List String))
              → find key (command_allowlist os.settings_file os.loads s) ≡ o
              → Post
                  (λ a s'. P s')
                  P
                  (ensure_command_allowed os s key e).0
                  (ensure_command_allowed os s key e).1
          go e p none same = rw (ensure_command_allowed, same) p
          go e p (some command) same = rw (ensure_command_allowed, same) p

      -- A handler that only checks the repository.
      checked-Safe :
          (repo : String) (answer : Fields)
          → Safe (ensure_allowed_repo os s repo >>= λ u. pure answer)
      checked-Safe repo answer =
          Triple-bind (allowed-Safe repo) (λ u. Triple-pure answer (λ e p. p.0))

      -- A handler that also checks a command.
      tool-Safe :
          (repo key : String) (answer : List String → Fields)
          → Safe (
              ensure_allowed_repo os s repo >>= λ u.
              ensure_command_allowed os s key >>= λ command. pure (answer command))
      tool-Safe repo key answer = Triple-bind (allowed-Safe repo) (λ u.
          Triple-with (λ h. Triple-bind (command-Safe key) (λ command. Triple-pure _ (λ e p. p))))

      handle-Safe : (request : Request) → Safe (handle os s request)
      unfolding handle health repo_prepare repo_reset run_command run_tool run_tests git_diff
          git_commit git_push
      handle-Safe get_health = Triple-pure _ (λ e p. p)
      handle-Safe (post_prepare repo task) = checked-Safe repo _
      handle-Safe (post_reset repo task) = checked-Safe repo _
      handle-Safe (post_read repo path) = read-Safe repo path
      handle-Safe (post_write repo path content) = write-Safe repo path content
      handle-Safe (post_command repo key args) = tool-Safe repo key _
      handle-Safe (post_lint repo task) = tool-Safe repo "lint" _
      handle-Safe (post_typecheck repo task) = tool-Safe repo "typecheck" _
      handle-Safe (post_tests repo task tests) = tool-Safe repo "test" _
      handle-Safe (post_diff repo task) = checked-Safe repo _
      handle-Safe (post_commit repo message) = checked-Safe repo _
      handle-Safe (post_push repo task) = checked-Safe repo _

      bearer-Safe :
          (authorization : Option String)
          → Safe (lift (require_bearer s.worker_token authorization))
      bearer-Safe authorization = record {
        at = λ e p. go e p (require_bearer s.worker_token authorization);
      }
        where
          go : (e : E) → P e → (r : Result Error (Unit {0})) → Post (λ a s'. P s') P r e
          go e p (ok u) = p
          go e p (err x) = p

      -- Whatever a request asks for, the worker reads and writes, and makes directories for, nothing
      -- but paths that are allowed roots or lie below one: a property of the state that such reads and
      -- writes keep is kept by every request, whether it succeeds or is refused or raises.
      pub serve-Keeps :
          (authorization : Option String) (request : Request) (e : E)
          → P e
          → P (serve os s authorization request e).1
      unfolding serve
      serve-Keeps authorization request e p =
          after _ ((Triple-bind (bearer-Safe authorization) (λ u. handle-Safe request)).at e p)
        where
          after : (out : Result Error Fields × E) → Post (λ a s'. P s') P out.0 out.1 → P out.1
          after (ok a, e') q = q
          after (err x, e') q = q
