-- ===== src/Subagent/Mutations.antt =====
-- glm-as-subagent/src/glm_mcp/mutation_outcome.py: the records of what a delegation changed, which
-- outlive a later failure of its run.
use agentic_coding_stack.Prelude.{
  ℕ, zero, suc, String, Option, none, some, List, [], ◌∷◌, ◌++◌, map, length, leb, one_of, str_eq,
  if◌then◌else◌,
}
use agentic_coding_stack.Base.Text.{truthy, join, concat}
use agentic_coding_stack.Base.Json.{
  Json, null, str, arr, obj, Items, nil, cons, Fields, end, field, get,
}
use agentic_coding_stack.Base.Exec.{Result, ok, err}

abbrev pub max_mutation_records : ℕ
max_mutation_records = 128

abbrev pub max_warning_chars : ℕ
max_warning_chars = 4096

-- `text[:n]`
unfoldable pub shorten : ℕ → String → String
shorten zero s = String.[]
shorten (suc n) String.[] = String.[]
shorten (suc n) (String.◌∷◌ c s) = String.◌∷◌ c (shorten n s)

pub record MutationRecord : Type 0 where
  pub transaction_id : String
  pub tool : String
  pub status : String
  pub warning : Option String

-- `if self.warning`
abbrev pub shown : Option String → Option String
shown none = none
shown (some w) = if truthy w then some w else none

abbrev pub warning_fields : Option String → Fields
warning_fields none = end
warning_fields (some w) = field "warning" (str w) end

abbrev pub as_dict : MutationRecord → Fields
as_dict r =
    field "transaction_id" (str r.transaction_id)
      (field "tool" (str r.tool) (field "status" (str r.status) (warning_fields (shown r.warning))))

abbrev detail : Option String → String
detail none = ""
detail (some w) = concat (" (" ∷ w ∷ ")" ∷ [])

unfoldable pub summary : MutationRecord → String
unfolding concat
summary r = concat (
    (if str_eq r.status "committed" then "update committed" else "outcome uncertain")
    ∷ detail (shown r.warning)
    ∷ "; transaction "
    ∷ r.transaction_id
    ∷ [])

unfoldable pub summaries : List MutationRecord → String
unfolding summary join
summaries records = join "; " (map summary records)

-- `MutationAccumulator.add`
abbrev pub add : MutationRecord → List MutationRecord → Result String (List MutationRecord)
add r records =
    if leb max_mutation_records (length records)
    then err "mutation record capacity exceeded"
    else ok (records ++ (r ∷ []))

unfoldable pub payload : List MutationRecord → Items
payload [] = nil
payload (r ∷ records) = cons (obj (as_dict r)) (payload records)

unfoldable pub with_warning : List MutationRecord → List MutationRecord
with_warning [] = []
with_warning (r ∷ records) =
    let rest = with_warning records in elim (shown r.warning) [ some w ↦ r ∷ rest | none ↦ rest ]

abbrev warned : List MutationRecord → Option String
unfolding summaries
warned [] = none
warned (r ∷ records) =
    some (concat ("[glm-mcp transaction safety] " ∷ summaries (r ∷ records) ∷ []))

unfoldable pub warning_notice : List MutationRecord → Option String
unfolding with_warning summaries
warning_notice records = warned (with_warning records)

unfoldable pub recovery_notice : List MutationRecord → Option String
unfolding join concat
recovery_notice [] = none
recovery_notice (r ∷ records) = some (
    concat (
      "[glm-mcp recovery required] Workspace mutations were journaled ("
      ∷ join ", " (map (λ q. q.transaction_id) (r ∷ records))
      ∷ "). Call get_glm_recovery, verify every reported file, then call "
      ∷ "acknowledge_glm_mutations before delegating again."
      ∷ []))

abbrev pub safe_warning : Option String → Option String
safe_warning none = none
safe_warning (some w) = if truthy w then some (shorten max_warning_chars w) else none

unfoldable pub mutation_record :
    String → String → String → Option String → Result String MutationRecord
mutation_record transaction_id tool status warning =
    if one_of status ("committed" ∷ "uncertain" ∷ [])
    then ok (record {
      transaction_id = transaction_id;
      tool = tool;
      status = status;
      warning = safe_warning warning;
    })
    else err "invalid mutation status"

unfoldable pub mutation_failure_message : List MutationRecord → String → String
unfolding summaries concat
mutation_failure_message records reason = concat (
    "workspace mutation requires review: "
    ∷ summaries records
    ∷ "; call get_glm_recovery, verify the files, then call "
    ∷ "acknowledge_glm_mutations; DO NOT RETRY; subsequent execution stopped: "
    ∷ reason
    ∷ [])

abbrev text_in : Option Json → Option String
text_in (some (str s)) = some s
text_in j = none

-- A warning that is missing or None, or a text; anything else is not a warning.
abbrev pub warning_in : Option Json → Option (Option String)
warning_in none = some none
warning_in (some null) = some none
warning_in (some (str s)) = some (some s)
warning_in (some j) = none

abbrev accepted : Result String MutationRecord → Option MutationRecord
accepted (ok r) = some r
accepted (err e) = none

unfoldable pub read_record :
    Option String → Option String → Option String → Option (Option String) → Option MutationRecord
unfolding mutation_record
read_record (some transaction_id) (some tool) (some status) (some warning) =
    accepted (mutation_record transaction_id tool status warning)
read_record transaction_id tool status warning = none

unfoldable pub record_of : Json → Option MutationRecord
unfolding read_record
record_of (obj d) =
    read_record (text_in (get d "transaction_id")) (text_in (get d "tool"))
      (text_in (get d "status")) (warning_in (get d "warning"))
record_of j = none

abbrev add_found : Option MutationRecord → List MutationRecord → List MutationRecord
add_found none records = records
add_found (some r) records = r ∷ records

unfoldable pub records_of : Items → List MutationRecord
unfolding record_of
records_of nil = []
records_of (cons value values) = add_found (record_of value) (records_of values)

abbrev mutations_in : Option Json → List MutationRecord
unfolding records_of
mutations_in (some (arr items)) = records_of items
mutations_in j = []

unfoldable pub records_from_result : Json → List MutationRecord
unfolding records_of
records_from_result (obj d) = mutations_in (get d "mutations")
records_from_result j = []
