-- ===== src/Base/Chain.antt =====
-- Calculations that may fail, in a row, and what holds of their value.
use mathlib.Core.Path.{subst}
use agentic_coding_stack.Prelude.{◌≡◌, refl}
use agentic_coding_stack.Base.Exec.{Result, ok, err}

infixl 10 ◌>>>=◌
abbrev pub ◌>>>=◌ : {X A B : Type 0} → Result X A → (A → Result X B) → Result X B
ok a >>>= f = f a
err e >>>= f = err e

-- What holds of a value, if there is one.
pub record Gives {X A : Type 0} (P : A → Type 0) (m : Result X A) : Type 0 where
  pub holds : (a : A) → m ≡ ok a → P a

pub Gives-ok : {X A : Type 0} {P : A → Type 0} (a : A) → P a → Gives {X = X} P (ok a)
Gives-ok {X} {A} {P} a p = record { holds = λ b e. subst P (cc e) p }

pub Gives-at :
    {X A B : Type 0} {Q : B → Type 0} (m : Result X A) {f : A → Result X B}
    → ((a : A) → m ≡ ok a → Gives Q (f a))
    → Gives Q (m >>>= f)
Gives-at (ok a) k = k a refl
Gives-at (err e) k = record { holds = λ b h. cc }

pub Gives-chain :
    {X A B : Type 0} {P : A → Type 0} {Q : B → Type 0} {m : Result X A} {f : A → Result X B}
    → Gives P m
    → ((a : A) → P a → Gives Q (f a))
    → Gives Q (m >>>= f)
Gives-chain {m = m} t k = Gives-at m (λ a e. k a (t.holds a e))

pub Gives-err : {X A : Type 0} {P : A → Type 0} (x : X) → Gives P (err x)
Gives-err x = record { holds = λ a e. cc e }
