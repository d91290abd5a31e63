-- ===== src/Extraction/Verifier.antt =====
-- `validate_candidate` and what it calls: the checks that a proposed memory has to pass.
mod Words
pub mod Sound
pub mod Sensitive
unfoldable pub use Words.{split_whitespace, join, normalize_whitespace}
use personal_knowledge_os.Prelude.{
  ℕ, Bool, true, false, not, ◌&&◌, ◌||◌, List, [], ◌∷◌, Option, any, leb, ltb, if◌then◌else◌,
  length, is_empty,
}
use personal_knowledge_os.Text.{Text, codes, text_eq, trim, contains, to_ascii_lowercase}
use personal_knowledge_os.Values.{F32, is_finite, in_unit}
use personal_knowledge_os.Models.{SourceRecord}

pub record ExtractedMemory : Type 0 where
  pub memory_type : Text
  pub statement : Text
  pub evidence_quote : Text
  pub confidence : F32
  pub importance : F32
  pub valid_from : Option Text
  pub supersedes_memory_id : Option Text

-- `Result<(), &'static str>`
pub data Verdict : Type 0 where
  accepted : Verdict
  discarded : Text → Verdict

-- the pattern of `matches!`
unfoldable pub memory_types : List Text
memory_types =
    codes "preference"
    ∷ codes "decision"
    ∷ codes "goal"
    ∷ codes "constraint"
    ∷ codes "project"
    ∷ codes "person"
    ∷ codes "fact"
    ∷ codes "experience"
    ∷ codes "routine"
    ∷ codes "skill"
    ∷ []

unfoldable pub is_supported : Text → Bool
is_supported memory_type = any (λ t. text_eq memory_type t) memory_types

-- the needles of `contains_sensitive_material`
unfoldable pub needles : List Text
needles =
    codes "password:"
    ∷ codes "password ="
    ∷ codes "api_key"
    ∷ codes "api key:"
    ∷ codes "access_token"
    ∷ codes "access token:"
    ∷ codes "bearer "
    ∷ codes "private key"
    ∷ codes "-----begin private"
    ∷ codes "client_secret"
    ∷ codes "refresh_token"
    ∷ []

-- `contains_sensitive_material`
unfoldable pub contains_sensitive_material : Text → Bool
contains_sensitive_material value =
    let lower = to_ascii_lowercase value in any (λ needle. contains lower needle) needles

-- `evidence_is_grounded`
unfoldable pub evidence_is_grounded : Text → Text → Bool
evidence_is_grounded source quote =
    contains source quote || contains (normalize_whitespace source) (normalize_whitespace quote)

-- `validate_candidate`
unfoldable pub validate_candidate : SourceRecord → ExtractedMemory → Verdict
validate_candidate source c =
    let statement = trim c.statement in
    let quote = trim c.evidence_quote in
    if not (is_supported (trim c.memory_type))
    then discarded (codes "unsupported memory type")
    else if is_empty statement || ltb 1000 (length statement)
    then discarded (codes "invalid statement length")
    else if not (is_finite c.confidence)
        || not (is_finite c.importance)
        || not (in_unit c.confidence)
        || not (in_unit c.importance)
    then discarded (codes "invalid confidence or importance")
    else if ltb (length quote) 4 || not (evidence_is_grounded source.content quote)
    then discarded (codes "evidence quote is not grounded in source")
    else if contains_sensitive_material statement || contains_sensitive_material quote
    then discarded (codes "candidate may contain secret material")
    else accepted
