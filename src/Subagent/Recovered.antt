-- ===== src/Subagent/Recovered.antt =====
-- What is read back of the mutation records that a result carries.
use agentic_coding_stack.Prelude.{
  ℕ, zero, suc, String, ◌≡◌, refl, sym, ap, ◌∙◌, Bool, true, Bool-cases, inl, inr, Option, none,
  some, List, [], ◌∷◌, All, one_of,
}
use agentic_coding_stack.Base.Text.{truthy}
use agentic_coding_stack.Base.Json.{arr, obj, Fields, get, put, get-put}
use agentic_coding_stack.Base.Exec.{Result, ok, err}
use agentic_coding_stack.Subagent.Mutations.{
  MutationRecord, max_warning_chars, shorten, as_dict, payload, safe_warning, warning_in,
  warning_fields, shown, mutation_record, read_record, record_of, records_of, records_from_result,
}

-- A record as `mutation_record` makes it, from some warning.
pub record Made (r : MutationRecord) : Type 0 where
  pub asked : Option String
  pub made : mutation_record r.transaction_id r.tool r.status asked ≡ ok r

shorten-shorten : (n : ℕ) (s : String) → shorten n (shorten n s) ≡ shorten n s
unfolding shorten
shorten-shorten zero s = refl
shorten-shorten (suc n) String.[] = refl
shorten-shorten (suc n) (String.◌∷◌ c s) = ap (String.◌∷◌ c) (shorten-shorten n s)

truthy-shorten : (n : ℕ) (s : String) → truthy (shorten (suc n) s) ≡ truthy s
unfolding shorten
truthy-shorten n String.[] = refl
truthy-shorten n (String.◌∷◌ c s) = refl

safe_warning-safe_warning : (w : Option String) → safe_warning (safe_warning w) ≡ safe_warning w
safe_warning-safe_warning none = refl
safe_warning-safe_warning (some w) = elim (Bool-cases (truthy w)) [
  | inl h ↦
      let still : truthy (shorten max_warning_chars w) ≡ true = truthy-shorten 4095 w ∙ h in
      rw (h, still, shorten-shorten max_warning_chars w) refl
  | inr h ↦ rw h refl
]

-- What is read of the warning of a record.
warning_in-warning_fields :
    (w : Option String)
    → safe_warning w ≡ w
    → warning_in (get (warning_fields (shown w)) "warning") ≡ some w
warning_in-warning_fields none e = refl
warning_in-warning_fields (some w) e = elim (Bool-cases (truthy w)) [
  | inl h ↦ rw h refl
  | inr h ↦ let dropped : safe_warning (some w) ≡ none = rw h refl in cc (e, dropped)
]

abbrev warning_or_none : Result String MutationRecord → Option String
warning_or_none (ok r) = r.warning
warning_or_none (err e) = none

abbrev is_status : String → Bool
is_status s = one_of s ("committed" ∷ "uncertain" ∷ [])

Made-origin :
    (r : MutationRecord) (m : Made r)
    → (is_status r.status ≡ true) × (r.warning ≡ safe_warning m.asked)
unfolding mutation_record
Made-origin r m = elim (Bool-cases (is_status r.status)) [
  | inl h ↦
      let e : mutation_record r.transaction_id r.tool r.status m.asked
          ≡ ok (record {
            transaction_id = r.transaction_id;
            tool = r.tool;
            status = r.status;
            warning = safe_warning m.asked;
          }) =
        rw h refl in
      (h, ap warning_or_none (sym m.made ∙ e))
  | inr h ↦
      let e : mutation_record r.transaction_id r.tool r.status m.asked
          ≡ err "invalid mutation status" =
        rw h refl in
      cc (m.made, e)
]

record_of-as_dict : (r : MutationRecord) → Made r → record_of (obj (as_dict r)) ≡ some r
unfolding record_of read_record mutation_record
record_of-as_dict r m =
    let from = Made-origin r m in
    let safe : safe_warning r.warning ≡ r.warning =
      ap safe_warning from.1 ∙ safe_warning-safe_warning m.asked ∙ sym from.1 in
    rw (warning_in-warning_fields r.warning safe, from.0, safe) refl

records_of-payload :
    (records : List MutationRecord) → All Made records → records_of (payload records) ≡ records
unfolding records_of payload
records_of-payload [] all = refl
records_of-payload (r ∷ records) all =
    rw (record_of-as_dict r all.0, records_of-payload records all.1) refl

-- The records of a run that failed are not lost on their way to the one who asked for it. If each of
-- the records was made by `mutation_record`, with any warning, then `records_from_result` reads
-- exactly these records, in order, from every result whose "mutations" are set to their payload.
pub records_from_result-payload :
    (records : List MutationRecord) (result : Fields)
    → All Made records
    → records_from_result (obj (put result "mutations" (arr (payload records)))) ≡ records
unfolding records_from_result
records_from_result-payload records result all =
    rw (get-put result "mutations" "mutations" (arr (payload records)))
      (records_of-payload records all)
