-- ===== src/Conductor/Overlay/Guidance.antt =====
-- apps/conductor/services/overlay_state.py: what of a stored overlay applies to a task.
use agentic_coding_stack.Prelude.{
  String, Bool, true, false, not, ◌||◌, Option, none, some, List, [], ◌∷◌, ◌++◌, str_eq, ◌==◌,
  if◌then◌else◌,
}
use agentic_coding_stack.Base.Number.{pos}
use agentic_coding_stack.Base.Text.{strip, truthy, concat}
use agentic_coding_stack.Base.Json.{
  Json, null, bool, int, float, str, arr, obj, Items, nil, cons, Fields, end, field,
}
use agentic_coding_stack.Base.Exec.{Result, ok, err}
use agentic_coding_stack.Shared.Parsing.{not_object}
use agentic_coding_stack.Conductor.Db.{JsonText, text_of, OverlayRow}
use agentic_coding_stack.Conductor.Execution.Repair.{get_or}
use agentic_coding_stack.Conductor.Draft.{shown}

-- `not value`
abbrev pub is_falsy : Json → Bool
is_falsy null = true
is_falsy (bool b) = not b
is_falsy (int (pos n)) = n == 0
is_falsy (int j) = false
is_falsy (float x) = x.bits == 0 || x.bits == 0x8000000000000000
is_falsy (str s) = not (truthy s)
is_falsy (arr nil) = true
is_falsy (arr (cons x xs)) = false
is_falsy (obj end) = true
is_falsy (obj (field k v r)) = false

-- `task in set(items)`, where a list or a dict among the items cannot be put into a set.
unfoldable pub in_items : String → Items → Result String Bool
in_items task nil = ok false
in_items task (cons (str s) r) = elim (in_items task r) [
  | ok found ↦ ok (str_eq s task || found)
  | err text ↦ err text
]
in_items task (cons (arr x) r) = err "unhashable type: 'list'"
in_items task (cons (obj d) r) = err "unhashable type: 'dict'"
in_items task (cons j r) = in_items task r

unfoldable pub in_keys : String → Fields → Bool
in_keys task end = false
in_keys task (field k v r) = str_eq k task || in_keys task r

-- A text is the set of its characters.
unfoldable pub in_chars : String → String → Bool
in_chars task String.[] = false
in_chars task (String.◌∷◌ c s) = str_eq (String.◌∷◌ c String.[]) task || in_chars task s

-- `task in set(value)`
unfoldable pub in_set : String → Json → Result String Bool
unfolding in_items in_keys in_chars
in_set task (arr items) = in_items task items
in_set task (obj d) = ok (in_keys task d)
in_set task (str s) = ok (in_chars task s)
in_set task j = err (not_object j "is not iterable")

unfoldable pub task_matches : String → Json → Result String Bool
unfolding in_set
task_matches task applies = if is_falsy applies then ok true else in_set task applies

-- `str(item) for item in items if str(item).strip()`
unfoldable pub shown_items : (Json → String) → Items → List String
shown_items repr nil = []
shown_items repr (cons x xs) =
    let rest = shown_items repr xs in
    if truthy (strip (shown repr x)) then shown repr x ∷ rest else rest

abbrev pub summary_line : Json → List String
summary_line (str s) = if truthy (strip s) then strip s ∷ [] else []
summary_line j = []

abbrev pub guidance_lines : (Json → String) → Json → List String
guidance_lines repr (arr items) = shown_items repr items
guidance_lines repr j = []

unfoldable pub flatten_guidance : (Json → String) → Fields → List String
unfolding shown_items
flatten_guidance repr payload =
    summary_line (get_or payload "summary" null)
    ++ guidance_lines repr (get_or payload "guidance" (arr nil))

unfoldable pub decode_payload : JsonText Json → Fields
decode_payload (text_of (obj d)) = d
decode_payload _ = end

abbrev pub payload_of : Option OverlayRow → Fields
payload_of none = end
payload_of (some row) = decode_payload row.payload

-- The guidance of one overlay and its line under `active_overlays`, from the payload of its row.
unfoldable pub guidance_for :
    (Json → String) → String → String → String → Fields → Result String (List String × List String)
unfolding task_matches flatten_guidance concat
guidance_for repr task scope name end = ok ([], [])
guidance_for repr task scope name (field k v r) =
    let payload = field k v r in
    elim (task_matches task (get_or payload "applies_to_tasks" (arr nil))) [
      | ok true ↦ ok (flatten_guidance repr payload, concat (scope ∷ ":" ∷ name ∷ []) ∷ [])
      | ok false ↦ ok ([], [])
      | err text ↦ err text
    ]
