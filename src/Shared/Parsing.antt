-- ===== src/Shared/Parsing.antt =====
-- shared/utils/parsing.py: the JSON object in what a model answered, and the access to the answer
-- that its callers share. `loads` is `json.loads`, with `none` for a JSONDecodeError.
use Prim.Native.Char.{Char, code}
use Prim.Native.String.{◌++◌ as str_append}
use agentic_coding_stack.Prelude.{
  String, ◌≡◌, refl, str_eq, Bool, ◌&&◌, ◌||◌, ◌==◌, Option, none, some, if◌then◌else◌,
}
use agentic_coding_stack.Base.Text.{strip, truthy}
use agentic_coding_stack.Base.Json.{
  Json, null, bool, int, float, str, arr, obj, nil, cons, Fields, end, field, get,
}
use agentic_coding_stack.Base.Exec.{Result, ok, err}

-- The code point of the fence character.
abbrev is_tick : Char → Bool
is_tick c = code c == 96

-- The text behind the first fence of three ticks.
unfoldable pub after_fence : String → Option String
after_fence (String.◌∷◌ a (String.◌∷◌ b (String.◌∷◌ c s))) =
    let next = after_fence (String.◌∷◌ b (String.◌∷◌ c s)) in
    if is_tick a && is_tick b && is_tick c then some s else next
after_fence _ = none

abbrev prepend : Char → Option String → Option String
prepend c none = none
prepend c (some s) = some (String.◌∷◌ c s)

-- The text in front of the first fence; `none` where there is no fence.
unfoldable pub before_fence : String → Option String
before_fence (String.◌∷◌ a (String.◌∷◌ b (String.◌∷◌ c s))) =
    let rest = prepend a (before_fence (String.◌∷◌ b (String.◌∷◌ c s))) in
    if is_tick a && is_tick b && is_tick c then some String.[] else rest
before_fence _ = none

-- `(?:json)?` under IGNORECASE, which also folds U+017F to s.
unfoldable pub skip_json : String → String
skip_json (String.◌∷◌ j (String.◌∷◌ s (String.◌∷◌ o (String.◌∷◌ n rest)))) =
    if (code j == 106 || code j == 74)
      && (code s == 115 || code s == 83 || code s == 0x17f)
      && (code o == 111 || code o == 79)
      && (code n == 110 || code n == 78)
    then rest
    else String.◌∷◌ j (String.◌∷◌ s (String.◌∷◌ o (String.◌∷◌ n rest)))
skip_json s = s

-- The group of the fence pattern: the shortest text between two fences, its language tag left out.
unfoldable pub fenced : String → Option String
unfolding after_fence before_fence skip_json
fenced s = elim (after_fence s) [ none ↦ none | some rest ↦ before_fence (skip_json rest) ]

abbrev dict_of : Option Json → Option Fields
dict_of (some (obj d)) = some d
dict_of _ = none

abbrev from_fence : (String → Option Json) → Option String → Fields
from_fence loads none = end
from_fence loads (some s) = elim (dict_of (loads (strip s))) [ some d ↦ d | none ↦ end ]

unfoldable pub parse_text : (String → Option Json) → String → Fields
unfolding fenced
parse_text loads stripped =
    if truthy stripped
    then elim (dict_of (loads stripped)) [ some d ↦ d | none ↦ from_fence loads (fenced stripped) ]
    else end

unfoldable pub parse_model_json_content : (String → Option Json) → Json → Fields
unfolding parse_text
parse_model_json_content loads (obj d) = d
parse_model_json_content loads (str s) = parse_text loads (strip s)
parse_model_json_content loads _ = end

-- The name of a value's Python type, as error texts show it.
abbrev pub type_name : Json → String
type_name null = "NoneType"
type_name (bool _) = "bool"
type_name (int _) = "int"
type_name (float _) = "float"
type_name (str _) = "str"
type_name (arr _) = "list"
type_name (obj _) = "dict"

abbrev pub not_object : Json → String → String
not_object j problem = str_append "'" (str_append (type_name j) (str_append "' object " problem))

-- `j.get(key, default)` where `j` need not be a dict.
unfoldable pub get_from : Json → String → Json → Result String Json
get_from (obj d) k default = elim (get d k) [ some v ↦ ok v | none ↦ ok default ]
get_from j k default = err (not_object j "has no attribute 'get'")

-- `j[0]`
unfoldable pub first_of_json : Json → Result String Json
first_of_json (arr nil) = err "list index out of range"
first_of_json (arr (cons x xs)) = ok x
first_of_json (obj d) = err "0"
first_of_json (str String.[]) = err "string index out of range"
first_of_json (str (String.◌∷◌ c s)) = ok (str (String.◌∷◌ c String.[]))
first_of_json j = err (not_object j "is not subscriptable")

infixl 10 ◌>>=◌
abbrev ◌>>=◌ : {A B : Type 0} → Result String A → (A → Result String B) → Result String B
ok a >>= f = f a
err e >>= f = err e

-- `response.get("choices", [{}])[0].get("message", {}).get("content", default)`
unfoldable pub message_content : Fields → Json → Result String Json
unfolding get_from first_of_json
message_content response default = do
  choices ← get_from (obj response) "choices" (arr (cons (obj end) nil))
  choice ← first_of_json choices
  message ← get_from choice "message" (obj end)
  get_from message "content" default

fence_test :
    parse_text
      (λ s. if str_eq s "{}" then some (obj (field "a" null end)) else none)
      "x ```JSON {} ``` y"
    ≡ field "a" null end
unfolding parse_text strip
fence_test = refl
