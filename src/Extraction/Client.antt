-- ===== src/Extraction/Client.antt =====
-- `MemoryExtractionClient`: what it asks the language model, and what it makes of the answer.
pub mod Prompt
use personal_knowledge_os.Prelude.{
  ℕ, Bool, true, false, ◌&&◌, List, [], ◌∷◌, ◌++◌, Option, none, some, is_some, take, if◌then◌else◌,
}
use personal_knowledge_os.Text.{Text, codes}
use personal_knowledge_os.Values.{Value}
use personal_knowledge_os.AppError.{AppError, Result, ok, err, upstream}
use personal_knowledge_os.Models.{SourceRecord, MemoryRecord}
use personal_knowledge_os.Config.{Config}
use personal_knowledge_os.Db.Libs.{Libs}
use personal_knowledge_os.Db.Action.{Action, ◌>>=◌, ◌>>◌, pure, throw, lift_result}
use personal_knowledge_os.Services.{
  Services, Sent, not_sent, answered, Response, Decoded, decoded, undecodable, is_success, call,
}
use personal_knowledge_os.Extraction.Verifier.{ExtractedMemory}
use personal_knowledge_os.Extraction.Response.{content_to_text, extraction_json}
use personal_knowledge_os.Extraction.Client.Prompt.{MemoryExtractionClient, chat_request}

-- `new`, whose HTTP client cannot fail to build with these options
unfoldable pub new : Config → MemoryExtractionClient
new config = record {
  base_url = config.memory_base_url;
  api_key = config.memory_api_key;
  model = config.memory_model;
  max_candidates = config.memory_max_candidates_per_source;
}

-- `enabled`
unfoldable pub enabled : MemoryExtractionClient → Bool
enabled client = is_some client.base_url && is_some client.api_key

-- the choices of the answer
unfoldable pub choices_of : Sent (List Value) → Result (List Value)
unfolding is_success
choices_of (not_sent text) = err (upstream text)
choices_of (answered response) =
    if is_success response.status
    then elim response.body [
      | decoded choices ↦ ok choices
      | undecodable text ↦ err (upstream text)
    ]
    else err (upstream (codes "memory provider returned " ++ response.status_text))

-- the text of the first choice
unfoldable pub text_of : List Value → Result Text
unfolding content_to_text
text_of [] = err (upstream (codes "memory response contained no choices"))
text_of (content ∷ _) = elim (content_to_text content) [
  | none ↦ err (upstream (codes "memory response contained no text"))
  | some text ↦ ok text
]

-- What a task comes to that does not return an error: it ends, or it panics and is gone.
pub data Outcome (A : Type 0) : Type 0 where
  finished : A → Outcome A
  panicked : Outcome A

-- `parse_extraction`
unfoldable pub parse_extraction : Services → Text → Result (Outcome (List ExtractedMemory))
unfolding extraction_json
parse_extraction services raw = elim (extraction_json raw) [
  | none ↦ ok panicked
  | some candidate ↦ elim (services.parse_envelope candidate) [
    | decoded memories ↦ ok (finished memories)
    | undecodable text ↦ err (upstream (codes "invalid memory extraction JSON: " ++ text))
  ]
]

-- `parsed.memories.truncate(self.max_candidates)`
unfoldable pub truncate : ℕ → Outcome (List ExtractedMemory) → Outcome (List ExtractedMemory)
truncate n (finished memories) = finished (take n memories)
truncate n panicked = panicked

-- what `extract` makes of the answer
unfoldable pub read_answer :
    Services → ℕ → Sent (List Value) → Result (Outcome (List ExtractedMemory))
unfolding choices_of text_of parse_extraction truncate
read_answer services max_candidates sent = elim (choices_of sent) [
  | err e ↦ err e
  | ok choices ↦ elim (text_of choices) [
    | err e ↦ err e
    | ok text ↦ elim (parse_extraction services text) [
      | err e ↦ err e
      | ok parsed ↦ ok (truncate max_candidates parsed)
    ]
  ]
]

-- `extract`, with its provider
unfoldable pub extract_with :
    Services
    → MemoryExtractionClient
    → SourceRecord
    → List MemoryRecord
    → Option Text
    → Option Text
    → Action (Outcome (List ExtractedMemory))
unfolding read_answer
extract_with services client source active_memories (some base_url) (some api_key) = do
  sent ← λ env.
      call
        (λ tick.
          services.chat tick
            (chat_request services env.libs client base_url api_key source active_memories))
        env
  lift_result (read_answer services client.max_candidates sent)
extract_with services client source active_memories _ _ = pure (finished [])

-- `extract`
unfoldable pub extract :
    Services
    → MemoryExtractionClient
    → SourceRecord
    → List MemoryRecord
    → Action (Outcome (List ExtractedMemory))
unfolding extract_with
extract services client source active_memories =
    extract_with services client source active_memories client.base_url client.api_key
