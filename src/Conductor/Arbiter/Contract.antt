-- ===== src/Conductor/Arbiter/Contract.antt =====
-- What the arbiter may select.
use mathlib.Core.Path.{subst}
use agentic_coding_stack.Prelude.{
  ℕ, zero, suc, String, ◌≡◌, refl, ◌⊎◌, inl, inr, Option, none, some, List, [], ◌∷◌, get_elem?, In,
  Bool-cases, or_else,
}
use agentic_coding_stack.Base.Number.{ℤ, pos, negsuc}
use agentic_coding_stack.Base.Json.{Json, str, obj, Fields, end, field, get}
use agentic_coding_stack.Base.Exec.{Result, ok, err, lift}
use agentic_coding_stack.Base.Triple.{Post, Triple, Triple-bind, Triple-any}
use agentic_coding_stack.Shared.Schemas.{CandidatePlan, DecisionState}
use agentic_coding_stack.Shared.Parsing.{parse_model_json_content, message_content}
use agentic_coding_stack.Conductor.Outside.{Outside}
use agentic_coding_stack.Conductor.Feasibility.{certify}
use agentic_coding_stack.Conductor.Feasibility.Policy.{Meets, feasible_iff}
use agentic_coding_stack.Conductor.Arbiter.{
  ArbiterOutcome, Readers, select, outcome_of_index, synthesis, choose, is_text, judge, decide,
}

In-get_elem? : {A : Type 0} (xs : List A) (i : ℕ) {a : A} → get_elem? xs i ≡ some a → In a xs
In-get_elem? [] i h = cc
In-get_elem? (x ∷ xs) zero h = inl (cc)
In-get_elem? (x ∷ xs) (suc i) h = inr (In-get_elem? xs i h)

-- An outcome is either a rejection without a candidate, or the choice of a frontier candidate or of
-- one that meets the feasibility policy.
pub data Sound (frontier : List CandidatePlan) (x : ArbiterOutcome) : Type 0 where
  rejects : x.status ≡ "rejected" → x.selected_candidate ≡ none → Sound frontier x
  chooses :
      (c : CandidatePlan)
      → x.status ≡ "chosen"
      → x.selected_candidate ≡ some c
      → In c frontier ⊎ Meets c
      → Sound frontier x

select-Sound :
    (frontier : List CandidatePlan) (i : ℤ) → Sound frontier (outcome_of_index (select frontier i))
select-Sound frontier (negsuc n) = rejects refl refl
select-Sound frontier (pos n) = go (get_elem? frontier n) refl
  where
    go : (x : Option CandidatePlan) → get_elem? frontier n ≡ x → Sound frontier (outcome_of_index x)
    go none e = rejects refl refl
    go (some c) e = chooses c refl refl (inl (In-get_elem? frontier n e))

synthesis-Sound :
    (frontier : List CandidatePlan) (x : Result String CandidatePlan) → Sound frontier (synthesis x)
unfolding synthesis
synthesis-Sound frontier (err text) = rejects refl refl
synthesis-Sound frontier (ok c) = elim (Bool-cases (certify c).feasible) [
  | inl e ↦ rw e (chooses c refl refl (inr ((feasible_iff c).0 e)))
  | inr e ↦ rw e (rejects refl refl)
]

abbrev SoundResult : List CandidatePlan → Result String ArbiterOutcome → Type 0
SoundResult frontier (ok x) = Sound frontier x
SoundResult frontier (err text) = Unit

choose-Sound :
    (frontier : List CandidatePlan) (x : Result String ℤ) → SoundResult frontier (choose frontier x)
unfolding choose
choose-Sound frontier (err text) = tt
choose-Sound frontier (ok i) = select-Sound frontier i

judge-Sound :
    (p : Readers) (frontier : List CandidatePlan) (content : Fields)
    → SoundResult frontier (judge p frontier content)
unfolding judge
judge-Sound p frontier end = rejects refl refl
judge-Sound p frontier (field k v r) =
    let decision = or_else (get (field k v r) "decision_type") (str "reject") in
    elim (Bool-cases (is_text decision "choose")) [
      | inl e ↦ rw e (choose-Sound frontier _)
      | inr e ↦ elim (Bool-cases (is_text decision "synthesis")) [
        | inl f ↦ rw (e, f) (synthesis-Sound frontier _)
        | inr f ↦ rw (e, f) (rejects refl refl)
      ]
    ]

lift-Sound :
    {E : Type 0} (frontier : List CandidatePlan) (x : Result String ArbiterOutcome)
    → SoundResult frontier x
    → Triple {S = E} (λ _. Unit) (lift x) (λ y _. Sound frontier y) (λ _. Unit)
lift-Sound frontier (ok y) h = record { at = λ _ _. h }
lift-Sound frontier (err text) h = record { at = λ _ _. tt }

decide-Triple :
    {E : Type 0} (o : Outside E) (p : Readers) (d : DecisionState) (frontier : List CandidatePlan)
    (n : ℕ)
    → Triple (λ _. Unit) (decide o p d frontier n) (λ y _. Sound frontier y) (λ _. Unit)
unfolding decide
decide-Triple o p d frontier n = Triple-bind (Triple-any _) λ response.
    Triple-bind {A = Json} (Triple-any (lift (message_content response (obj end)))) λ content.
      lift-Sound frontier _ (judge-Sound p frontier (parse_model_json_content o.loads content))

-- Whatever the model answers: an outcome of `decide` is a rejection without a candidate, or it
-- chooses a candidate of the filtered frontier or a synthesis that meets the feasibility policy.
pub decide-Sound :
    {E : Type 0} (o : Outside E) (p : Readers) (d : DecisionState) (frontier : List CandidatePlan)
    (rejected_count : ℕ) (e : E) {x : ArbiterOutcome}
    → (decide o p d frontier rejected_count e).0 ≡ ok x
    → Sound frontier x
decide-Sound {E} o p d frontier n e {x} h =
    go (decide o p d frontier n e).0 (decide o p d frontier n e).1 h
      ((decide-Triple o p d frontier n).at e tt)
  where
    go :
        (y : Result String ArbiterOutcome) (e' : E)
        → y ≡ ok x
        → Post (λ z _. Sound frontier z) (λ _. Unit) y e'
        → Sound frontier x
    go (ok y) e' h s = subst (Sound frontier) (cc) s
    go (err text) e' h s = cc
