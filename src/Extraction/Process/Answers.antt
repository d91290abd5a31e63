-- ===== src/Extraction/Process/Answers.antt =====
-- Which proposals the extraction goes through: those of an answer of the model.
use personal_knowledge_os.Prelude.{
  ℕ, ◌≡◌, refl, ap, inl, inr, List, [], ◌∷◌, Option, none, some, All, All-imp, Any, arith,
}
use personal_knowledge_os.Text.{Text}
use personal_knowledge_os.AppError.{Result, ok}
use personal_knowledge_os.Models.{SourceRecord, MemoryRecord}
use personal_knowledge_os.Db.Libs.{Libs}
use personal_knowledge_os.Db.Action.{Env, World}
use personal_knowledge_os.Extraction.Verifier.{ExtractedMemory}
use personal_knowledge_os.Extraction.Client.{
  new, extract, extract_with, read_answer, Outcome, finished,
}
use personal_knowledge_os.Extraction.Client.Prompt.{chat_request}
use personal_knowledge_os.Extraction.Process.{AppState}

-- The proposal is one of those read from the model's answer to a request about the source, which was made
-- with the provider of the configuration.
pub record IsAnswered (state : AppState) (libs : Libs) (source : SourceRecord) (m : ExtractedMemory)
    : Type 0 where
  pub tick : ℕ
  pub base_url : Text
  pub api_key : Text
  pub active_memories : List MemoryRecord
  pub proposals : List ExtractedMemory
  pub read :
      read_answer state.services state.config.memory_max_candidates_per_source (
        state.services.chat tick (
          chat_request state.services libs
            (new state.config)
            base_url
            api_key
            source
            active_memories))
      ≡ ok (finished proposals)
  pub among : Any (λ p. p ≡ m) proposals

-- Each element is among the list.
each_among : (ms : List ExtractedMemory) → All (λ m. Any (λ p. p ≡ m) ms) ms
each_among [] = tt
each_among (m ∷ ms) = (
  inl refl,
  All-imp (λ n. Any (λ p. p ≡ n) ms) (λ n. Any (λ p. p ≡ n) (m ∷ ms)) (λ n h. inr h) ms
      (each_among ms),
)

pub extract-IsAnswered :
    (state : AppState) (source : SourceRecord) (active_memories : List MemoryRecord) (env : Env)
    (w : World) (ms : List ExtractedMemory) (w' : World)
    → extract state.services (new state.config) source active_memories env w
      ≡ (ok (finished ms), w')
    → All (IsAnswered state env.libs source) ms
unfolding extract new extract_with
extract-IsAnswered state source active_memories env w ms w' =
    with_provider state.config.memory_base_url state.config.memory_api_key
  where
    none_read :
        (ms : List ExtractedMemory)
        → finished [] ≡ finished ms
        → All (IsAnswered state env.libs source) ms
    none_read [] h = tt
    none_read (m ∷ ms) h = cc

    with_provider :
        (base_url api_key : Option Text)
        → extract_with state.services
            (new state.config)
            source
            active_memories
            base_url
            api_key
            env
            w
          ≡ (ok (finished ms), w')
        → All (IsAnswered state env.libs source) ms
    with_provider (some base_url) (some api_key) h =
        All-imp (λ m. Any (λ p. p ≡ m) ms) (IsAnswered state env.libs source)
          (λ m member. record {
            tick = w.tick;
            base_url = base_url;
            api_key = api_key;
            active_memories = active_memories;
            proposals = ms;
            read = ap (λ (s : Result (Outcome (List ExtractedMemory)) × World). s.0) h;
            among = member;
          })
          ms (each_among ms)
    with_provider (some base_url) none h = none_read ms (ground arith)
    with_provider none api_key h = none_read ms (ground arith)
