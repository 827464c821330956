-- ===== src/Base/Text.antt =====
-- What the program uses of Python's `str`: `strip`, truth, length and order, over the characters of the native texts.
use Prim.Native.Char.{code}
use Prim.Native.String.{◌++◌ as str_append}
use agentic_coding_stack.Prelude.{
  ℕ, ◌+◌, String, ◌≡◌, refl, Bool, true, false, ◌&&◌, ◌||◌, leb, ltb, ◌==◌, str_eq, List, [], ◌∷◌,
  if◌then◌else◌,
}

-- `str.isspace` of one code point, which is also what `\s` matches in a text pattern.
unfoldable pub is_space : ℕ → Bool
is_space c =
    leb 9 c && leb c 13
    || leb 28 c && leb c 32
    || c == 133
    || c == 160
    || c == 0x1680
    || leb 0x2000 c && leb c 0x200a
    || c == 0x2028
    || c == 0x2029
    || c == 0x202f
    || c == 0x205f
    || c == 0x3000

-- `s.lstrip()`
unfoldable pub strip_left : String → String
strip_left String.[] = String.[]
strip_left (String.◌∷◌ c s) = if is_space (code c) then strip_left s else String.◌∷◌ c s

unfoldable pub all_space : String → Bool
all_space String.[] = true
all_space (String.◌∷◌ c s) = is_space (code c) && all_space s

-- `s.rstrip()`
unfoldable pub strip_right : String → String
strip_right String.[] = String.[]
strip_right (String.◌∷◌ c s) =
    let rest = strip_right s in if all_space (String.◌∷◌ c s) then String.[] else String.◌∷◌ c rest

unfoldable pub strip : String → String
unfolding strip_left strip_right all_space is_space
strip s = strip_right (strip_left s)

-- `bool(s)`
abbrev pub truthy : String → Bool
truthy String.[] = false
truthy (String.◌∷◌ c s) = true

unfoldable pub count_chars : String → ℕ
count_chars String.[] = 0
count_chars (String.◌∷◌ c s) = count_chars s + 1

-- `s < t`, by code points.
unfoldable pub text_lt : String → String → Bool
text_lt s String.[] = false
text_lt String.[] (String.◌∷◌ d t) = true
text_lt (String.◌∷◌ c s) (String.◌∷◌ d t) = ltb (code c) (code d) || code c == code d && text_lt s t

unfoldable pub insert_sorted : String → List String → List String
insert_sorted s [] = s ∷ []
insert_sorted s (t ∷ ts) =
    if str_eq s t then t ∷ ts else if text_lt s t then s ∷ t ∷ ts else t ∷ insert_sorted s ts

-- `sorted(set(texts))`
unfoldable pub sorted_set : List String → List String
unfolding insert_sorted text_lt
sorted_set [] = []
sorted_set (s ∷ ss) = insert_sorted s (sorted_set ss)

strip_test : strip "  a b \n" ≡ "a b"
unfolding strip
strip_test = refl

sorted_set_test : sorted_set ("b" ∷ "a" ∷ "b" ∷ []) ≡ "a" ∷ "b" ∷ []
unfolding sorted_set
sorted_set_test = refl

-- `separator.join(texts)`
unfoldable pub join : String → List String → String
join separator [] = ""
join separator (s ∷ []) = s
join separator (s ∷ (t ∷ rest)) =
    let more = join separator (t ∷ rest) in str_append s (str_append separator more)

-- Texts one after the other, as an f-string puts them.
unfoldable pub concat : List String → String
unfolding join
concat texts = join "" texts
