-- ===== src/Shared/Clients/Retries.antt =====
-- How often `OMLXClient._post` sends a request, and when it gives up.
use agentic_coding_stack.Prelude.{
  ℕ, zero, suc, ◌<◌, String, ◌≡◌, refl, ◌⊎◌, inl, inr, [], ◌∷◌, arith,
}
use agentic_coding_stack.Base.Number.{pos}
use agentic_coding_stack.Base.Text.{concat}
use agentic_coding_stack.Base.Json.{Json}
use agentic_coding_stack.Base.Exec.{Result, ok, err}
use agentic_coding_stack.Shared.Settings.{ConductorSettings}
use agentic_coding_stack.Shared.Clients.{
  HttpClient, exchange, post_rounds, bearer, request_failed, base_url_for_alias, post_alias,
}

-- The result of a call and the state after it.
abbrev pub Outcome : Type 0 → Type 0
Outcome E = Result String Json × E

module _ {E R : Type 0} (h : HttpClient E R) (url : String) (payload : Json)
    (authorization : String) where
  -- So many exchanges in a row that fail, the text before them and that of the last one.
  pub data Fails : ℕ → E → E → String → String → Type 0 where
    no_more : (e : E) (text : String) → Fails zero e e text text
    and_then :
        (n : ℕ) (e e' e'' : E) (before text last : String)
        → exchange h url payload authorization e ≡ (err text, e')
        → Fails n e' e'' text last
        → Fails (suc n) e e'' before last

  -- The first exchange that is answered, after fewer than n failures.
  pub record Answered (n : ℕ) (e : E) (before : String) (outcome : Outcome E) : Type 0 where
    pub failures : ℕ
    pub fewer : failures < n
    pub at_last : E
    pub last : String
    pub failed : Fails failures e at_last before last
    pub answer : Json
    pub answered : exchange h url payload authorization at_last ≡ (ok answer, outcome.1)
    pub returned : outcome.0 ≡ ok answer

  -- All n exchanges fail, and the text of the last failure is reported.
  pub record GaveUp (n : ℕ) (failure : String → String) (e : E) (before : String)
      (outcome : Outcome E) : Type 0 where
    pub last : String
    pub failed : Fails n e outcome.1 before last
    pub reported : outcome.0 ≡ err (failure last)

  post_rounds_lem :
      (n : ℕ) (failure : String → String) (e : E) (before : String)
      → let outcome = post_rounds h n failure before url payload authorization e in
        Answered n e before outcome ⊎ GaveUp n failure e before outcome
  unfolding post_rounds
  post_rounds_lem zero failure e before =
      inr (record { last = before; failed = no_more e before; reported = refl })
  post_rounds_lem (suc n) failure e before =
      go (λ text e'. post_rounds_lem n failure e' text) (exchange h url payload authorization e)
        refl
    where
      go :
          ((text : String) (e' : E)
            → let outcome = post_rounds h n failure text url payload authorization e' in
              Answered n e' text outcome ⊎ GaveUp n failure e' text outcome)
          → (first : Outcome E) → exchange h url payload authorization e ≡ first
          → let outcome = post_rounds h (suc n) failure before url payload authorization e in
            Answered (suc n) e before outcome ⊎ GaveUp (suc n) failure e before outcome
      go more (ok a, e') same =
          rw (post_rounds, same)
            (inl (record {
              failures = 0;
              fewer = omega arith;
              at_last = e;
              last = before;
              failed = no_more e before;
              answer = a;
              answered = same;
              returned = refl;
            }))
      go more (err text, e') same =
          rw (post_rounds, same)
            (elim (more text e') [
              | inl q ↦ inl (record {
                failures = suc q.failures;
                fewer = omega (arith, q.fewer);
                at_last = q.at_last;
                last = q.last;
                failed = and_then q.failures e e' q.at_last before text q.last same q.failed;
                answer = q.answer;
                answered = q.answered;
                returned = q.returned;
              })
              | inr q ↦ inr (record {
                last = q.last;
                failed = and_then n e e' _ before text q.last same q.failed;
                reported = q.reported;
              })
            ])

-- What a call of a model does for an alias that has an endpoint, with n retries. It ends, after at
-- most n + 1 exchanges: either an exchange is answered after at most n failed ones, and its answer is
-- the result and nothing is sent after it, or all n + 1 fail, and the error has the text of the last
-- failure. In both cases the state is the one that the exchanges leave.
pub post_alias_lem :
    {E R : Type 0} (h : HttpClient E R) (s : ConductorSettings) (n : ℕ) (alias path url : String)
    (payload : Json) (e : E)
    → s.retry_count ≡ pos n
    → base_url_for_alias h s alias ≡ ok url
    → let outcome = post_alias h s alias path payload e in
      Answered h (concat (url ∷ path ∷ [])) payload (bearer h s) (suc n) e "None" outcome
      ⊎ GaveUp h
          (concat (url ∷ path ∷ []))
          payload
          (bearer h s)
          (suc n)
          (request_failed h s alias)
          e
          "None"
          outcome
unfolding post_alias
post_alias_lem h s n alias path url payload e retries known =
    rw (known, retries)
      (post_rounds_lem h (concat (url ∷ path ∷ [])) payload (bearer h s) (suc n)
        (request_failed h s alias) e "None")
