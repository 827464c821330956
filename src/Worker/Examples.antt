-- ===== src/Worker/Examples.antt =====
-- A worker with one allowed root, and the list of the paths that it touches.
use mathlib.Core.Path.{subst}
use agentic_coding_stack.Prelude.{
  String, ◌≡◌, refl, ◌⊎◌, inl, inr, true, none, some, List, [], ◌∷◌, ◌++◌, All, In, str_eq,
  if◌then◌else◌,
}
use agentic_coding_stack.Base.Text.{strip}
use agentic_coding_stack.Base.Json.{str}
use agentic_coding_stack.Base.Exec.{ok, err, http, pure}
use agentic_coding_stack.Shared.Auth.{require_bearer, Carries}
use agentic_coding_stack.Shared.Settings.{WorkerSettings, allowed_repos_list}
use agentic_coding_stack.Worker.Handlers.{PathParts, Os, is_within}
use agentic_coding_stack.Worker.Serve.{
  Request, post_write, post_push, IsOutside, handle, serve, serve_lem,
}
use agentic_coding_stack.Worker.Contained.{IsAllowed, Keeps, serve-Keeps}

abbrev Touched : Type 0
Touched = List PathParts

-- The root is "root"; a path "up" leads out of it.
abbrev os : Os Touched
os = record {
  resolve = λ p. p ∷ [];
  resolve_below = λ root p. if str_eq p "up" then [] else root ++ p ∷ [];
  exists = λ path touched. true;
  read_text = λ path touched. (ok "text", path ∷ touched);
  make_parents = λ path. pure tt;
  write_text = λ path content touched. (ok tt, path ∷ touched);
  shown = λ path. "";
  byte_length = λ text. 1;
  settings_file = λ path. none;
  loads = λ text. none;
}

abbrev settings : WorkerSettings
settings = record { worker_token = "t"; allowed_repos = " root , "; allowed_commands_json = "" }

one_root : allowed_repos_list settings ≡ "root" ∷ []
unfolding allowed_repos_list strip
one_root = refl

abbrev IsClean : Touched → Type 0
IsClean touched = All (λ path. is_within ("root" ∷ []) path ≡ true) touched

path-IsClean : (path : PathParts) → IsAllowed os settings path → is_within ("root" ∷ []) path ≡ true
path-IsClean path (root, i, e) =
    let j : In root ("root" ∷ []) = rw one_root at i in
    elim j [
      | inl same ↦ subst (λ r. is_within (r ∷ []) path ≡ true) same e
      | inr none_left ↦ elim none_left [ ]
    ]

IsClean-Keeps : (path : PathParts) → IsAllowed os settings path → Keeps os settings IsClean path
IsClean-Keeps path h = record {
  reads = λ touched all. (path-IsClean path h, all);
  makes = λ touched all. all;
  writes = λ content touched all. (path-IsClean path h, all);
}

abbrev write_request : Request
write_request = post_write "root" "file" "x"

writes_inside :
    (serve os settings (some "Bearer t") write_request []).1 ≡ ("root" ∷ "file" ∷ []) ∷ []
unfolding serve require_bearer strip
writes_inside = refl

refuses_escape : (serve os settings (some "Bearer t") (post_write "root" "up" "x") []).1 ≡ []
unfolding serve require_bearer strip
refuses_escape = refl

serve-Keeps_example : IsClean (serve os settings (some "Bearer t") write_request []).1
serve-Keeps_example =
    serve-Keeps os settings IsClean IsClean-Keeps (some "Bearer t") write_request [] tt

abbrev foreign_request : Request
foreign_request = post_push "elsewhere" "task"

serve_lem_example :
    ((¬ Carries "t" (some "Bearer t"))
      × (detail : String) × (serve os settings (some "Bearer t") foreign_request []
          ≡ (err (http 401 (str detail)), [])))
    ⊎ (Carries "t" (some "Bearer t")
        × IsOutside os settings foreign_request
        × (serve os settings (some "Bearer t") foreign_request []
            ≡ (err (http 403 (str "repo not allowed")), [])))
    ⊎ (Carries "t" (some "Bearer t")
        × (¬ IsOutside os settings foreign_request)
        × (serve os settings (some "Bearer t") foreign_request []
            ≡ handle os settings foreign_request []))
serve_lem_example = serve_lem os settings (some "Bearer t") foreign_request []
