-- ===== src/Conductor/Examples/Packages.antt =====
-- Examples of packaging.
use agentic_coding_stack.Prelude.{
  ◌≤◌, ◌≡◌, refl, true, false, none, some, [], ◌∷◌, All, length, str_eq, arith, if◌then◌else◌,
}
use agentic_coding_stack.Base.Exec.{Error, Result, ok}
use agentic_coding_stack.Shared.Schemas.{ExecutionPackageResponse, RetryPackageRequest}
use agentic_coding_stack.Conductor.Db.{malformed, latest}
use agentic_coding_stack.Conductor.World.{World, query, read_clock, write}
use agentic_coding_stack.Conductor.Governance.{allowed_roles}
use agentic_coding_stack.Conductor.Package.{classify_package_status}
use agentic_coding_stack.Conductor.Memory.{
  stored_alternatives, commit, write_chosen_if, write_chosen, write_frontier, commit_frontier,
  write_package,
}
use agentic_coding_stack.Conductor.Memory.Remembered.{remember, memory_report}
use agentic_coding_stack.Conductor.Memory.Alternatives.{Stored, stored_alternatives-Stored}
use agentic_coding_stack.Conductor.Frontier.Dedupe.{Apart}
use agentic_coding_stack.Conductor.Routes.Package.{
  begin_package, count_completed, package_response, package_key, package_checked, dispatch_package,
  package_fresh, package_execution, retry_package,
}
use agentic_coding_stack.Conductor.Routes.Package.Gating.{
  memories, Effect, package_execution-Effect, unfinished-chosen_memory,
}
use agentic_coding_stack.Conductor.Routes.Package.Once.{
  MayReplayPackage, PackageReplayed, package-package,
}
use agentic_coding_stack.Conductor.Routes.Package.Approval.{
  NotPackaged, approved, retry_package-NotPackaged,
}
use agentic_coding_stack.Conductor.Invariants.{memory_checks}
use agentic_coding_stack.Conductor.Invariants.Gated.{IsGated, Passes, package_execution-IsGated}
use agentic_coding_stack.Base.Json.{obj, end}
use agentic_coding_stack.Conductor.World.{Db}
use agentic_coding_stack.Conductor.Outside.{Outside}
use agentic_coding_stack.Prelude.{String}
use agentic_coding_stack.Conductor.Examples.Worlds.{
  Written, outside, settings, candidate, package_request, world, floats,
}

stored_alternatives-Stored_example :
    let offered = candidate "other" 1 2 ∷ candidate "worse" 1 1 ∷ [] in
    let stored = stored_alternatives floats (candidate "plan" 2 1) offered in
    (length stored ≤ 2)
    × (All (Stored floats (candidate "plan" 2 1) offered) stored × Apart floats stored)
stored_alternatives-Stored_example =
    stored_alternatives-Stored floats (candidate "plan" 2 1)
      (candidate "other" 1 2 ∷ candidate "worse" 1 1 ∷ [])

-- An outside where the transaction on the frontier memory raises.
abbrev full_disk : Outside Written
full_disk = record (outside true) {
  commit_error = λ table n. if str_eq table "frontier_memory" then some "disk is full" else none;
}

abbrev broken_off : Result Error ExecutionPackageResponse × World Written
broken_off =
    package_execution full_disk floats settings "job" (package_request "completed") "system" world

keeps_the_chosen :
    (length broken_off.1.db.chosen_memory ≡ 1) × (length broken_off.1.db.frontier_memory ≡ 0)
unfolding package_execution package_checked dispatch_package package_fresh begin_package
    write_package write_chosen_if write_chosen write_frontier commit_frontier commit
    classify_package_status query latest read_clock write
keeps_the_chosen = (refl, refl)

package_execution-Effect_example :
    Effect full_disk floats settings "job" (package_request "completed") world broken_off
package_execution-Effect_example =
    package_execution-Effect full_disk floats settings "job" (package_request "completed") "system"
      world

unfinished-chosen_memory_example :
    (package_execution
      (outside true)
      floats
      settings
      "job"
      (package_request "blocked")
      "admin"
      world).1.db.chosen_memory
    ≡ []
unfinished-chosen_memory_example =
    unfinished-chosen_memory (outside true) floats settings "job" (package_request "blocked")
      "admin" world refl

is_packageable : (classify_package_status "completed").rejected ≡ false
unfolding classify_package_status
is_packageable = refl

key_is_new :
    latest "job"
      (package_key (outside true) floats settings (package_request "completed"))
      world.db.package_idempotency
    ≡ none
unfolding latest
key_is_new = refl

system_may_replay : MayReplayPackage "system"
unfolding allowed_roles
system_may_replay = refl

abbrev first : Result Error ExecutionPackageResponse × World Written
first =
    package_execution (outside true) floats settings "job" (package_request "completed") "admin"
      world

package-package_example :
    ((first.0
        ≡ ok (
            package_response
              (outside true)
              floats
              settings
              (package_request "completed")
              (package_key (outside true) floats settings (package_request "completed"))
              (memory_report (outside true) floats (package_request "completed"))))
      × (memories first.1.db
          ≡ memories (remember (outside true) floats (package_request "completed") world.db))
      × (first.1.ext ≡ []))
    × PackageReplayed (outside true) floats settings (package_request "completed") first.1 (
        package_execution
          (outside true)
          floats
          settings
          "job"
          (package_request "completed")
          "system"
          first.1)
package-package_example =
    package-package (outside true) floats settings (package_request "completed") "admin" "system"
      world is_packageable key_is_new (λ table. refl) system_may_replay

-- A job with a completed package, and a retry with a wrong token.
abbrev packaged_world : World Written
packaged_world = record world {
  db = record (world.db) {
    package_idempotency =
        (record {
          job_id = "job";
          idempotency_key = "package";
          status = "completed";
          cause_code = "PACKAGE_OK_CANONICAL";
          response_payload = malformed "{}";
          updated_at = 0;
        })
        ∷ [];
  };
}

abbrev retry_request : RetryPackageRequest
retry_request = record {
  package_request = package_request "completed";
  allow_duplicate_side_effects = true;
  approval_token = some "guess";
  approval_reason_code = some "ops_override";
}

one_completed : count_completed "job" packaged_world.db.package_idempotency ≡ 1
unfolding count_completed
one_completed = refl

has_completed : 1 ≤ count_completed "job" packaged_world.db.package_idempotency
has_completed = omega (arith, one_completed)

not_approved : approved settings retry_request "admin" ≡ false
unfolding allowed_roles
not_approved = refl

retry_package-NotPackaged_example :
    NotPackaged packaged_world
      (retry_package (outside true) floats settings "job" retry_request "admin" packaged_world)
retry_package-NotPackaged_example =
    retry_package-NotPackaged (outside true) floats settings retry_request "admin" packaged_world
      has_completed not_approved

-- An outside that reads every text as {}.
abbrev reading : Outside Written
reading = record (outside true) { loads = λ text. some (obj end) }

abbrev packaged_db : Db
packaged_db =
    (package_execution reading floats settings "job" (package_request "completed") "system"
      world).1.db

package_execution-IsGated_example :
    All (IsGated reading.loads) packaged_db.package_idempotency
    × ((job' : String) → Passes (memory_checks reading.loads job' packaged_db))
package_execution-IsGated_example =
    package_execution-IsGated reading floats settings "job" (package_request "completed") "system"
      world refl tt
