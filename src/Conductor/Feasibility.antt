-- ===== src/Conductor/Feasibility.antt =====
-- apps/conductor/services/feasibility.py: certificates of candidates, and the gate.
pub mod Policy
use agentic_coding_stack.Prelude.{
  ℕ, suc, ◌≤◌, ◌<◌, String, ◌≡◌, refl, Bool, true, false, not, ◌&&◌, ◌||◌, List, [], ◌∷◌, ◌++◌,
  length, ltb, leb, ◌==◌, map, if◌then◌else◌, Bool-cases, inl, inr, ◌↔◌, arith,
}
use agentic_coding_stack.Base.Text.{strip, count_chars}
use agentic_coding_stack.Shared.Schemas.{CandidatePlan, FeasibilityCertificate}

pub record FeasibilityResult : Type 0 where
  pub candidate : CandidatePlan
  pub certificate : FeasibilityCertificate
  pub feasible : Bool

-- `if not passed: notes.append(note)`
abbrev pub note_unless : Bool → String → List String
note_unless passed note = if passed then [] else note ∷ []

abbrev pub or_all_passed : List String → List String
or_all_passed [] = "all_feasibility_checks_passed" ∷ []
or_all_passed (n ∷ ns) = n ∷ ns

abbrev pub macro_ok : CandidatePlan → Bool
macro_ok c = ltb 0 (length c.macro_vec) && length c.macro_vec == 6

abbrev pub rollback_ok : CandidatePlan → Bool
rollback_ok c = ltb 4 (count_chars (strip c.rollback_plan))

unfoldable pub certificate_of : CandidatePlan → FeasibilityCertificate
certificate_of c =
    let macro_pass = macro_ok c in
    let meso_pass = ltb 0 (length c.meso_tags) in
    let micro_pass = ltb 0 (length c.micro_targets.files) in
    let test_plan_valid = ltb 0 (length c.test_plan) in
    let rollback_plan_valid = rollback_ok c in
    let migration_policy_pass = not c.micro_targets.migration || rollback_plan_valid in
    let scope_policy_pass = leb (length c.micro_targets.files) 12 in
    record {
      macro_pass = macro_pass;
      meso_pass = meso_pass;
      micro_pass = micro_pass;
      lint_plan_valid = true;
      test_plan_valid = test_plan_valid;
      rollback_plan_valid = rollback_plan_valid;
      migration_policy_pass = migration_policy_pass;
      security_policy_pass = true;
      scope_policy_pass = scope_policy_pass;
      notes = or_all_passed (
          note_unless macro_pass "macro_fail: macro_vec must have 6 axes"
          ++ (note_unless meso_pass "meso_fail: at least one meso tag is required"
              ++ (note_unless micro_pass "micro_fail: at least one file target is required"
                  ++ (note_unless test_plan_valid "test_plan_fail: test_plan cannot be empty"
                      ++ (note_unless rollback_plan_valid
                            "rollback_fail: rollback_plan is missing or too short"
                          ++ (note_unless migration_policy_pass
                                "migration_policy_fail: migration=true requires strong rollback plan"
                              ++ note_unless scope_policy_pass
                                  "scope_policy_fail: candidate touches too many files for v1"))))));
    }

unfoldable pub all_passed : FeasibilityCertificate → Bool
all_passed c =
    c.macro_pass && c.meso_pass && c.micro_pass && c.lint_plan_valid && c.test_plan_valid
    && c.rollback_plan_valid && c.migration_policy_pass && c.security_policy_pass
    && c.scope_policy_pass

unfoldable pub certify : CandidatePlan → FeasibilityResult
unfolding certificate_of all_passed
certify c = record {
  candidate = c;
  certificate = certificate_of c;
  feasible = all_passed (certificate_of c);
}

-- `gate`: the two lists that its loop fills.
unfoldable pub gate : List CandidatePlan → List FeasibilityResult × List FeasibilityResult
gate [] = ([], [])
gate (c ∷ cs) =
    let (feasible, infeasible) = gate cs in
    let result = certify c in
    if result.feasible then (result ∷ feasible, infeasible) else (feasible, result ∷ infeasible)
