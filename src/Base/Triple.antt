-- ===== src/Base/Triple.antt =====
-- Hoare triples for code that changes a state and may raise.
use agentic_coding_stack.Prelude.{◌≡◌, refl}
use agentic_coding_stack.Base.Exec.{Result, ok, err, Exec, pure, lift, ◌>>=◌}

-- What holds of the outcome: `Q` of a returned value, `X` after a raise.
abbrev pub Post : {S X A : Type 0} → (A → S → Type 0) → (S → Type 0) → Result X A → S → Type 0
Post Q R (ok a) s = Q a s
Post Q R (err e) s = R s

pub record Triple {S X A : Type 0} (P : S → Type 0) (m : Exec S X A) (Q : A → S → Type 0)
    (R : S → Type 0) : Type 0 where
  pub at : (s : S) → P s → Post Q R (m s).0 (m s).1

module _ {S X A B : Type 0} where
  bind_at :
      {Q : A → S → Type 0} {Q' : B → S → Type 0} {R : S → Type 0} (r : Result X A)
      (f : A → Exec S X B) (s : S)
      → Post Q R r s
      → ((a : A) → Triple (Q a) (f a) Q' R)
      → Post Q' R ((lift r >>= f) s).0 ((lift r >>= f) s).1
  bind_at (ok a) f s h k = (k a).at s h
  bind_at (err e) f s h k = h

  pub Triple-bind :
      {P : S → Type 0} {Q : A → S → Type 0} {Q' : B → S → Type 0} {R : S → Type 0} {m : Exec S X A}
      {f : A → Exec S X B}
      → Triple P m Q R
      → ((a : A) → Triple (Q a) (f a) Q' R)
      → Triple P (m >>= f) Q' R
  Triple-bind {m} {f} t k = record { at = λ s h. bind_at (m s).0 f (m s).1 (t.at s h) k }

module _ {S X A : Type 0} where
  pub Triple-pure :
      {P : S → Type 0} {Q : A → S → Type 0} {R : S → Type 0} (a : A)
      → ((s : S) → P s → Q a s)
      → Triple {X = X} P (pure a) Q R
  Triple-pure a h = record { at = h }

  -- Nothing is claimed of a call.
  pub Triple-any : {P : S → Type 0} (m : Exec S X A) → Triple P m (λ _ _. Unit) (λ _. Unit)
  Triple-any m = record { at = λ s h. go (m s).0 (m s).1 }
    where
      go : (r : Result X A) (s : S) → Post (λ _ _. Unit) (λ _. Unit) r s
      go (ok a) s = tt
      go (err e) s = tt

  -- A calculation that leaves the state alone.
  pub Triple-lift :
      {Q : A → Type 0} {m : Result X A}
      → ((a : A) → m ≡ ok a → Q a)
      → Triple {S = S} (λ _. Unit {0}) (lift m) (λ a s. Q a) (λ _. Unit {0})
  Triple-lift {Q} {m} h = record { at = λ s u. go m refl s }
    where
      go : (r : Result X A) → m ≡ r → (s : S) → Post (λ a s. Q a) (λ _. Unit {0}) r s
      go (ok a) e s = h a e
      go (err x) e s = tt

  -- What holds at the start and does not look at the state may be assumed.
  pub Triple-begin :
      {P : Type 0} {m : Exec S X A} {Q : A → S → Type 0} {R : S → Type 0}
      → (P → Triple (λ _. Unit {0}) m Q R)
      → Triple (λ _. P) m Q R
  Triple-begin k = record { at = λ s p. (k p).at s tt }

  -- Nothing is claimed of a calculation.
  pub Triple-value :
      (m : Result X A) → Triple {S = S} (λ _. Unit) (lift m) (λ _ _. Unit) (λ _. Unit)
  Triple-value m = Triple-any (lift m)

  -- A fact beside the precondition may be assumed.
  pub Triple-with :
      {P : S → Type 0} {K : Type 0} {m : Exec S X A} {Q : A → S → Type 0} {R : S → Type 0}
      → (K → Triple P m Q R)
      → Triple (λ s. P s × K) m Q R
  Triple-with t = record { at = λ s h. (t h.1).at s h.0 }
