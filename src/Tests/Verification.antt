-- ===== src/Tests/Verification.antt =====
-- The verifier and the reading of an answer, at concrete texts.
use personal_knowledge_os.Prelude.{◌≡◌, refl, ◌↔◌, [], ◌∷◌, none, false}
use personal_knowledge_os.Text.{Text, codes, trim, is_whitespace, starts_with}
use personal_knowledge_os.Values.{f32_0_8, f32_0_5}
use personal_knowledge_os.Models.{SourceRecord}
use personal_knowledge_os.Storage.Rows.{source_from_row}
use personal_knowledge_os.Extraction.Verifier.{ExtractedMemory, validate_candidate, accepted}
use personal_knowledge_os.Extraction.Verifier.Sound.{IsAcceptable, validate_candidate_iff}
use personal_knowledge_os.Extraction.Response.{extraction_json, fence}
use personal_knowledge_os.Extraction.Response.Panic.{extraction_json_panics}
use personal_knowledge_os.Tests.Setup.{source_example}

abbrev proposal : ExtractedMemory
proposal = record {
  memory_type = codes "fact";
  statement = codes "Uses Bifrost";
  evidence_quote = codes "I use Bifrost.";
  confidence = f32_0_8;
  importance = f32_0_5;
  valid_from = none;
  supersedes_memory_id = none;
}

abbrev source_record : SourceRecord
source_record = source_from_row (source_example 10)

validate_candidate_iff_example :
    (validate_candidate source_record proposal ≡ accepted) ↔ IsAcceptable source_record proposal
validate_candidate_iff_example = validate_candidate_iff source_record proposal

-- an answer whose braces are the wrong way round
abbrev backwards : Text
backwards = b'}' ∷ b'x' ∷ b'{' ∷ []

backwards_trimmed : trim backwards ≡ backwards
unfolding trim is_whitespace
backwards_trimmed = refl

backwards_plain : starts_with (trim backwards) fence ≡ false
unfolding trim starts_with fence codes is_whitespace
backwards_plain = refl

extraction_json_panics_example : extraction_json backwards ≡ none
extraction_json_panics_example =
    extraction_json_panics backwards [] (b'x' ∷ []) [] backwards_trimmed backwards_plain
      (refl, (refl, tt)) (refl, (refl, tt)) (λ e. cc)
