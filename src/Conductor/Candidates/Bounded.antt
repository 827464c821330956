-- ===== src/Conductor/Candidates/Bounded.antt =====
-- What a generation of candidates answers.
use mathlib.Core.Path.{subst}
use agentic_coding_stack.Prelude.{
  ℕ, ◌+◌, ◌≤◌, String, ◌≡◌, refl, Option, some, List, [], ◌∷◌, map, length, length-append, All,
  All-append, Bool-cases, inl, inr, arith,
}
use agentic_coding_stack.Base.Json.{Json, Fields}
use agentic_coding_stack.Base.Exec.{Result, ok, err, Error}
use agentic_coding_stack.Base.Triple.{
  Post, Triple, Triple-bind, Triple-pure, Triple-any, Triple-value,
}
use agentic_coding_stack.Shared.Schemas.{
  CandidatePlan, DecisionState, CandidateGenerationRequest, CandidateGenerationResponse,
}
use agentic_coding_stack.Conductor.World.{World, Call, query, remote, raised}
use agentic_coding_stack.Conductor.Outside.{Outside}
use agentic_coding_stack.Conductor.Feasibility.{FeasibilityResult, certify, gate}
use agentic_coding_stack.Conductor.Feasibility.Policy.{Meets, gate_verdicts}
use agentic_coding_stack.Conductor.Frontier.{Floats}
use agentic_coding_stack.Conductor.Overlay.Service.{OverlayResolution}
use agentic_coding_stack.Conductor.Retrieval.Search.{Finder}
use agentic_coding_stack.Conductor.Retrieval.Query.{search}
use agentic_coding_stack.Conductor.Candidates.{
  CandidateGenerationResult, extract_candidate_payload, sorted_out, generate_from, generate,
  generate_candidates, builder_roles, refused_by_gate,
}

-- The gate keeps a property of the candidates.
gate-All :
    (P : CandidatePlan → Type 0) (cs : List CandidatePlan)
    → All P cs
    → All P (map (λ item. item.candidate) (gate cs).0)
unfolding gate certify
gate-All P [] all = tt
gate-All P (c ∷ cs) all = elim (Bool-cases (certify c).feasible) [
  | inl e ↦ rw e (all.0, gate-All P cs all.1)
  | inr e ↦ rw e (gate-All P cs all.1)
]

map-All :
    (P : CandidatePlan → Type 0) (rs : List FeasibilityResult)
    → All (λ r. P r.candidate) rs
    → All P (map (λ item. item.candidate) rs)
map-All P [] all = tt
map-All P (r ∷ rs) all = (all.0, map-All P rs all.1)

length-map : {A B : Type 0} (g : A → B) (xs : List A) → length (map g xs) ≡ length xs
length-map g [] = refl
length-map g (x ∷ xs) = omega (arith, length-map g xs)

module _ {E : Type 0} (o : Outside E) (validate : Fields → Result Json CandidatePlan) where
  -- A plan that the schema accepted.
  abbrev pub IsValid : CandidatePlan → Type 0
  IsValid c = (payload : Fields) × (validate payload ≡ ok c)

  -- Each of the first n roles has given one candidate or one rejection.
  record SortedOut (n : ℕ) (r : CandidateGenerationResult) : Type 0 where
    all_valid : All IsValid r.valid_candidates
    one_each : length r.valid_candidates + length r.rejected_candidates ≡ n

  sorted_out-SortedOut :
      (role : String) (payload : Fields) (n : ℕ) (r : CandidateGenerationResult)
      → SortedOut n r
      → SortedOut (n + 1) (sorted_out o validate role payload (validate payload) r)
  unfolding sorted_out
  sorted_out-SortedOut role payload n r s = go (validate payload) refl
    where
      go :
          (v : Result Json CandidatePlan)
          → validate payload ≡ v
          → SortedOut (n + 1) (sorted_out o validate role payload v r)
      go (ok c) e = record {
        all_valid = All-append IsValid r.valid_candidates (c ∷ []) s.all_valid ((payload, e), tt);
        one_each = omega (arith, s.one_each, length-append r.valid_candidates (c ∷ []));
      }
      go (err x) e = record {
        all_valid = s.all_valid;
        one_each = omega (arith, s.one_each, length-append r.rejected_candidates (_ ∷ []));
      }

  generate_from-SortedOut :
      (d : DecisionState) (overlays : Option OverlayResolution) (roles : List String) (n m : ℕ)
      (r : CandidateGenerationResult)
      → n + length roles ≡ m
      → SortedOut n r
      → Triple
          (λ _. Unit {0})
          (generate_from o validate d overlays roles r)
          (λ r' s. SortedOut m r')
          (λ _. Unit {0})
  unfolding generate_from
  generate_from-SortedOut d overlays [] n m r e s =
      Triple-pure r (λ st u. subst (λ k. SortedOut k r) (omega (arith, e)) s)
  generate_from-SortedOut d overlays (role ∷ roles) n m r e s =
      Triple-bind (Triple-any (o.chat "builder" _ _)) (λ response.
        Triple-bind (Triple-value (extract_candidate_payload o validate response role)) (λ payload.
          generate_from-SortedOut d overlays roles (n + 1) m
            (sorted_out o validate role payload (validate payload) r) (omega (arith, e))
            (sorted_out-SortedOut role payload n r s)))

  -- A call over HTTP keeps its promise as a step of a route.
  remote-Triple :
      {A : Type 0} {Q : A → Type 0} {m : Call E A}
      → Triple (λ _. Unit {0}) m (λ a s. Q a) (λ _. Unit {0})
      → Triple (λ _. Unit {0}) (remote m) (λ a s. Q a) (λ _. Unit {0})
  unfolding remote
  remote-Triple {A} {Q} {m} t = record { at = λ w u. go w (m w.ext) (t.at w.ext tt) }
    where
      go :
          (w : World E) (out : Result String A × E)
          → Post (λ a s. Q a) (λ _. Unit {0}) out.0 out.1
          → Post (λ a s. Q a) (λ _. Unit {0}) (raised out.0) (record w { ext = out.1 })
      go w (ok a, s) q = q
      go w (err x, s) q = tt

  -- What a response promises.
  pub record Promised (response : CandidateGenerationResponse) : Type 0 where
    pub meet : All Meets response.candidates
    pub valid : All IsValid response.candidates
    pub counted : length response.candidates ≡ response.feasible_count
    pub six : response.feasible_count + length response.rejected ≡ 6
    pub infeasible : response.infeasible_count ≤ length response.rejected

  generate_candidates-Triple :
      (f : Floats) (p : Finder E) (r : CandidateGenerationRequest)
      → Triple
          (λ _. Unit {0})
          (generate_candidates o validate f p r)
          (λ response w. Promised response)
          (λ _. Unit {0})
  unfolding generate_candidates generate
  generate_candidates-Triple f p r =
      let d = r.decision_state in
      Triple-bind (Triple-any (query (λ db. db.memory_fts))) (λ rows.
        Triple-bind
          (Triple-any (
            remote (
              search f p rows d.issue_summary 3 (some d.repo) (some d.task_id) r.alias_name
                r.pair_key)))
          (λ bundle. Triple-bind (Triple-any _) (λ overlays.
            Triple-bind
              (remote-Triple (
                generate_from-SortedOut d (some overlays) builder_roles 0 6
                  (record { valid_candidates = []; rejected_candidates = [] }) refl
                  (record { all_valid = tt; one_each = refl })))
              (λ generated. Triple-pure _ (λ w sorted.
                let cs = generated.valid_candidates in
                let (good, bad, count) = gate_verdicts cs in
                let more =
                  length-append generated.rejected_candidates (map refused_by_gate (gate cs).1) in
                let same = length-map refused_by_gate (gate cs).1 in
                record {
                  meet = map-All Meets (gate cs).0 good;
                  valid = gate-All IsValid cs sorted.all_valid;
                  counted = length-map (λ item. item.candidate) (gate cs).0;
                  six = omega (arith, sorted.one_each, count, more, same);
                  infeasible = omega (arith, more, same);
                })))))

-- What `/candidates/generate` answers, if it answers, whatever the models and the memories say.
-- Every candidate meets the policy and is a plan that the schema accepted; `feasible_count` is the
-- number of candidates; candidates and rejections are six together, one for each builder role; and
-- `infeasible_count` is at most the number of rejections.
pub generate_candidates-Promised :
    {E : Type 0} (o : Outside E) (validate : Fields → Result Json CandidatePlan) (f : Floats)
    (p : Finder E) (r : CandidateGenerationRequest) (w : World E)
    {response : CandidateGenerationResponse}
    → (generate_candidates o validate f p r w).0 ≡ ok response
    → Promised o validate response
generate_candidates-Promised {E} o validate f p r w {response} h =
    go (generate_candidates o validate f p r w).0 _ h
      ((generate_candidates-Triple o validate f p r).at w tt)
  where
    go :
        (out : Result Error CandidateGenerationResponse) (w' : World E)
        → out ≡ ok response
        → Post (λ x s. Promised o validate x) (λ _. Unit {0}) out w'
        → Promised o validate response
    go (ok x) w' e q = subst (Promised o validate) (cc e) q
    go (err x) w' e q = cc e
