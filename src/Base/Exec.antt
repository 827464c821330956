-- ===== src/Base/Exec.antt =====
-- Python code that changes a state and may raise: what was done before a raise stays done.
use agentic_coding_stack.Prelude.{ℕ, String, ◌≡◌, ap}
use agentic_coding_stack.Base.Json.{Json}

-- `http` is an HTTPException with its status and detail, `crash` any other exception with its text.
pub data Error : Type 0 where
  http : ℕ → Json → Error
  crash : String → Error

pub data Result (X A : Type 0) : Type 0 where
  ok : A → Result X A
  err : X → Result X A

abbrev pub Exec : Type 0 → Type 0 → Type 0 → Type 0
Exec S X A = S → Result X A × S

module _ {S X A : Type 0} where
  abbrev pub pure : A → Exec S X A
  pure a s = (ok a, s)

  abbrev pub raise : X → Exec S X A
  raise e s = (err e, s)

  abbrev pub lift : Result X A → Exec S X A
  lift r s = (r, s)

module _ {S X A B : Type 0} where
  abbrev pub continue : Result X A → (A → Exec S X B) → Exec S X B
  continue (ok a) f s = f a s
  continue (err e) f s = (err e, s)

  infixl 10 ◌>>=◌ ◌>>◌
  abbrev pub ◌>>=◌ : Exec S X A → (A → Exec S X B) → Exec S X B
  ◌>>=◌ m f s = continue (m s).0 f (m s).1

  abbrev pub ◌>>◌ : Exec S X A → Exec S X B → Exec S X B
  m >> n = m >>= λ _. n

  -- A bind, from the outcome of its first part.
  pub bind-eq :
      (m : Exec S X A) (f : A → Exec S X B) (s : S) {r : Result X A} {s' : S}
      → m s ≡ (r, s')
      → (m >>= f) s ≡ continue r f s'
  bind-eq m f s e = ap (λ (p : Result X A × S). continue p.0 f p.1) e
