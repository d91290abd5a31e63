-- ===== src/Api/Graph.antt =====
-- src/api/graph.rs: the validation of names and the normalisation of aliases.
-- `sort_unstable_by_key` is by keys that are all different, so its order is the only one; texts are
-- ordered by their characters, which is the order of their UTF-8 bytes.
pub mod Aliases
pub mod Handlers
use personal_knowledge_os.Prelude.{
  ℕ, Bool, true, false, ◌||◌, List, [], ◌∷◌, ◌++◌, ltb, ◌==◌, if◌then◌else◌, length, any, is_empty,
}
use personal_knowledge_os.Text.{Text, codes, trim, text_eq}
use personal_knowledge_os.AppError.{Result, ok, err, bad_request}
use personal_knowledge_os.Db.Sql.{order_by}

-- `a <= b` on texts
unfoldable pub text_leb : Text → Text → Bool
text_leb [] t = true
text_leb (c ∷ s) [] = false
text_leb (c ∷ s) (d ∷ t) = ltb c d || (if c == d then text_leb s t else false)

-- `normalized.push`
unfoldable pub push_alias : Text → Result (List Text) → Result (List Text)
push_alias alias (ok rest) = ok (alias ∷ rest)
push_alias alias (err e) = err e

-- the `for alias in aliases` loop, with the keys seen so far
unfoldable pub collect_aliases : (Text → Text) → Text → List Text → List Text → Result (List Text)
unfolding push_alias
collect_aliases to_lowercase canonical_key seen [] = ok []
collect_aliases to_lowercase canonical_key seen (alias ∷ aliases) =
    let trimmed = trim alias in
    let key = to_lowercase trimmed in
    let skipped = collect_aliases to_lowercase canonical_key seen aliases in
    let taken =
      push_alias trimmed (collect_aliases to_lowercase canonical_key (key ∷ seen) aliases) in
    if is_empty trimmed
    then skipped
    else if ltb 256 (length trimmed)
    then err (bad_request (codes "each alias must be at most 256 characters"))
    else if text_eq key canonical_key || any (text_eq key) seen
    then skipped
    else taken

-- `normalized.sort_unstable_by_key(|value| value.to_lowercase())`
unfoldable pub sort_aliases : (Text → Text) → Result (List Text) → Result (List Text)
sort_aliases to_lowercase (ok aliases) =
    ok (order_by (λ a b. text_leb (to_lowercase a) (to_lowercase b)) aliases)
sort_aliases to_lowercase (err e) = err e

-- `normalize_aliases`
unfoldable pub normalize_aliases : (Text → Text) → List Text → Text → Result (List Text)
unfolding collect_aliases sort_aliases
normalize_aliases to_lowercase aliases canonical_name =
    if ltb 100 (length aliases)
    then err (bad_request (codes "aliases must contain at most 100 values"))
    else sort_aliases to_lowercase
        (collect_aliases to_lowercase (to_lowercase canonical_name) [] aliases)

-- `validate_nonempty`; the limit in the message is the caller's text of the number
unfoldable pub validate_nonempty : Text → Text → ℕ → Text → Result (Unit {0})
validate_nonempty field value max_chars max_text =
    if length value == 0 || ltb max_chars (length value)
    then err (bad_request (field ++ codes " must be 1..=" ++ max_text ++ codes " characters"))
    else ok tt
