-- ===== src/Conductor/Package.antt =====
-- apps/conductor/services/package_semantics.py: what may be packaged, by execution status.
use agentic_coding_stack.Prelude.{String, Bool, true, false, [], ◌∷◌, one_of, if◌then◌else◌}

pub record PackageSemantics : Type 0 where
  pub status : String
  pub draft_allowed : Bool
  pub canonical_memory_allowed : Bool
  pub rejected : Bool

unfoldable pub mode : PackageSemantics → String
mode s =
    if s.rejected
    then "rejected"
    else if s.canonical_memory_allowed
    then "canonical"
    else "draft_only"

unfoldable pub classify_package_status : String → PackageSemantics
classify_package_status s =
    if one_of s ("completed" ∷ [])
    then record {
      status = s;
      draft_allowed = true;
      canonical_memory_allowed = true;
      rejected = false;
    }
    else if one_of s ("blocked" ∷ "failed" ∷ [])
    then record {
      status = s;
      draft_allowed = true;
      canonical_memory_allowed = false;
      rejected = false;
    }
    else record {
      status = s;
      draft_allowed = false;
      canonical_memory_allowed = false;
      rejected = true;
    }
