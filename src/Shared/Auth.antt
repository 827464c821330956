-- ===== src/Shared/Auth.antt =====
-- shared/utils/auth.py: the bearer token of a request.
use mathlib.Core.Path.{subst}
use Prim.Native.String.{◌++◌ as str_append}
use Prim.Native.String.append
use Prim.Native.Char.{code}
use text.Mathlib.Text.{starts_with}
use text.Mathlib.TextEquality.{starts_with_iff}
use text.Mathlib.TextPositions.{starts_with-append}
use agentic_coding_stack.Prelude.{
  String, ◌≡◌, refl, sym, ap, ◌∙◌, ◌↔◌, ◌⊎◌, Bool, true, false, not, ◌==◌, Bool-cases, inl, inr,
  Option, none, some, str_eq, eq_iff, eq_refl, if◌then◌else◌,
}
use agentic_coding_stack.Base.Text.{strip, truthy}
use agentic_coding_stack.Base.Json.{str}
use agentic_coding_stack.Base.Exec.{Result, ok, err, Error, http}

-- `text.split(" ", 1)[1]`, for a text with a space.
unfoldable pub after_space : String → String
after_space String.[] = String.[]
after_space (String.◌∷◌ c s) = if code c == 32 then s else after_space s

unfoldable pub require_bearer : String → Option String → Result Error (Unit {0})
unfolding after_space
require_bearer expected none = err (http 401 (str "missing bearer token"))
require_bearer expected (some authorization) =
    if starts_with authorization "Bearer "
    then if str_eq (strip (after_space authorization)) expected
      then ok tt
      else err (http 401 (str "invalid bearer token"))
    else err (http 401 (str "missing bearer token"))

-- A header that carries the token, with white space around it.
abbrev pub Carries : String → Option String → Type 0
Carries expected authorization =
    (rest : String) × (authorization ≡ some (str_append "Bearer " rest)) × (strip rest ≡ expected)

-- A word and one space behind it.
abbrev ends_in_space : String → Bool
ends_in_space String.[] = false
ends_in_space (String.◌∷◌ c s) = if code c == 32 then not (truthy s) else ends_in_space s

after_space-append :
    (s rest : String) → ends_in_space s ≡ true → after_space (str_append s rest) ≡ rest
unfolding after_space
after_space-append String.[] rest h = cc
after_space-append (String.◌∷◌ c String.[]) rest h = elim (Bool-cases (code c == 32)) [
  | inl e ↦ rw (append.cons c String.[] rest, e, append.nil rest) refl
  | inr e ↦ cc (rw e at h)
]
after_space-append (String.◌∷◌ c (String.◌∷◌ d s)) rest h = elim (Bool-cases (code c == 32)) [
  | inl e ↦ cc (rw e at h)
  | inr e ↦
      rw (append.cons c (String.◌∷◌ d s) rest, e)
        (after_space-append (String.◌∷◌ d s) rest (rw e at h))
]

after-Bearer : (rest : String) → after_space (str_append "Bearer " rest) ≡ rest
after-Bearer rest = after_space-append "Bearer " rest refl

passed-Carries :
    (expected : String) (authorization : Option String)
    → require_bearer expected authorization ≡ ok tt
    → Carries expected authorization
unfolding require_bearer
passed-Carries expected none h = cc
passed-Carries expected (some s) h = elim (Bool-cases (starts_with s "Bearer ")) [
  | inr e ↦ cc (rw e at h)
  | inl e ↦
      let (rest, same) = (starts_with_iff s "Bearer ").0 e in
      let token : after_space s ≡ rest = ap after_space (sym same) ∙ after-Bearer rest in
      elim (Bool-cases (str_eq (strip (after_space s)) expected)) [
        | inr e' ↦ cc (rw (e, e') at h)
        | inl e' ↦ (
          rest,
          ap some (sym same),
          ap strip (sym token) ∙ (eq_iff (strip (after_space s)) expected).0 e',
        )
      ]
]

Carries-passed :
    (expected rest : String)
    → strip rest ≡ expected
    → require_bearer expected (some (str_append "Bearer " rest)) ≡ ok tt
unfolding require_bearer
Carries-passed expected rest e =
    rw (starts_with-append "Bearer " rest, after-Bearer rest, e, eq_refl expected) refl

-- A request passes exactly if its header is "Bearer ", the expected token and white space around the
-- token.
pub require_bearer_iff :
    (expected : String) (authorization : Option String)
    → (require_bearer expected authorization ≡ ok tt) ↔ Carries expected authorization
require_bearer_iff expected authorization = (
  passed-Carries expected authorization,
  λ c.
      subst (λ header. require_bearer expected header ≡ ok tt) (sym c.1)
        (Carries-passed expected c.0 c.2),
)

pub require_bearer-cases :
    (expected : String) (authorization : Option String)
    → (require_bearer expected authorization ≡ ok tt)
      ⊎ ((detail : String) × (require_bearer expected authorization ≡ err (http 401 (str detail))))
unfolding require_bearer
require_bearer-cases expected none = inr ("missing bearer token", refl)
require_bearer-cases expected (some s) = elim (Bool-cases (starts_with s "Bearer ")) [
  | inr e ↦ rw e (inr ("missing bearer token", refl))
  | inl e ↦ elim (Bool-cases (str_eq (strip (after_space s)) expected)) [
    | inl e' ↦ rw (e, e') (inl refl)
    | inr e' ↦ rw (e, e') (inr ("invalid bearer token", refl))
  ]
]
