-- ===== src/Extraction/Response.antt =====
-- The reading of the model's answer: `content_to_text`, and the part of `parse_extraction` that cuts the
-- JSON out of the text.
-- Byte offsets are offsets in characters here: the code cuts at ASCII characters only.
pub mod Panic
use personal_knowledge_os.Prelude.{
  ℕ, zero, suc, ◌+◌, ◌-◌, ◌≤◌, ◌<◌, ◌≡◌, ◌≢◌, refl, ◌⊎◌, inl, inr, Bool, true, false, List, [], ◌∷◌,
  ◌++◌, Option, none, some, arith, leb, ltb, ◌==◌, if◌then◌else◌, length, slice, is_empty, All,
  Bool-cases,
}
use personal_knowledge_os.Text.{Text, codes, trim, starts_with, strip_prefix, rposition}
use personal_knowledge_os.Values.{Value, Items, nil, cons, string, array, get_key, as_str, as_array}
use personal_knowledge_os.Extraction.Verifier.{join}

-- the text of one item, in `filter_map`
unfoldable pub item_text : Value → Option Text
item_text item = elim (get_key (codes "text") item) [
  | none ↦ other
  | some v ↦ elim (as_str v) [ some t ↦ some t | none ↦ other ]
]
  where
    other : Option Text
    other = elim (get_key (codes "content") item) [ none ↦ none | some v ↦ as_str v ]

unfoldable pub item_texts : Items → List Text
unfolding item_text
item_texts nil = []
item_texts (cons v vs) =
    let rest = item_texts vs in elim (item_text v) [ none ↦ rest | some t ↦ t ∷ rest ]

unfoldable pub parts_text : List Text → Option Text
parts_text parts = if is_empty parts then none else some (join (0xa ∷ []) parts)

-- `content_to_text`
unfoldable pub content_to_text : Value → Option Text
unfolding item_texts parts_text
content_to_text content = elim (as_str content) [
  | some text ↦ some text
  | none ↦ elim (as_array content) [ none ↦ none | some items ↦ parts_text (item_texts items) ]
]

-- `str::find` of a character: its first index
unfoldable pub position_of : ℕ → Text → Option ℕ
position_of c [] = none
position_of c (d ∷ s) =
    if d == c then some 0 else elim (position_of c s) [ none ↦ none | some i ↦ some (suc i) ]

-- `str::rfind` of a character: its last index
unfoldable pub last_position_of : ℕ → Text → Option ℕ
last_position_of c s = rposition (λ d. d == c) s

-- `str::split_once('\n')`, the part behind
unfoldable pub after_newline : Text → Option Text
after_newline [] = none
after_newline (c ∷ s) = if c == 0xa then some s else after_newline s

-- `str::strip_suffix`
unfoldable pub strip_suffix : Text → Text → Option Text
strip_suffix [] p = if is_empty p then some [] else none
strip_suffix (c ∷ s) p =
    let rest = strip_suffix s p in
    if is_empty p then some (c ∷ s) else elim rest [
      | some r ↦ some (c ∷ r)
      | none ↦ elim (strip_prefix (c ∷ s) p) [ some [] ↦ some [] | _ ↦ none ]
    ]

abbrev pub or_else {ℓ} : {A : Type ℓ} → Option A → A → A
or_else none a = a
or_else (some b) a = b

unfoldable pub fence : Text
fence = codes "```"

-- `&trimmed[start..=end]`: a panic, `none`, if the range ends before it starts
unfoldable pub cut_inclusive : Text → ℕ → ℕ → Option Text
cut_inclusive s start end = if leb start (end + 1) then some (slice s start (end + 1)) else none

-- what is found between the first brace and the last
unfoldable pub cut_braces : Text → Option ℕ → Option ℕ → Option Text
cut_braces s (some start) (some end) = cut_inclusive s start end
cut_braces s _ _ = some s

-- the text that `parse_extraction` hands to serde_json; `none` is a panic
unfoldable pub extraction_json : Text → Option Text
unfolding position_of after_newline strip_suffix cut_braces cut_inclusive fence last_position_of
extraction_json raw =
    let trimmed = trim raw in
    if starts_with trimmed fence
    then (let without_open = or_else (after_newline trimmed) trimmed in
        some (trim (or_else (strip_suffix without_open fence) without_open)))
    else cut_braces trimmed (position_of b'{' trimmed) (last_position_of b'}' trimmed)
