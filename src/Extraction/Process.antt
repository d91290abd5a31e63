-- ===== src/Extraction/Process.antt =====
-- `process_source`: the memories that the model proposes for a source are verified one by one, and then
-- reinforce, promote or create a memory.
pub mod Answers
pub mod Keeps
pub mod Singly
pub mod Vetted
use personal_knowledge_os.Prelude.{
  ℕ, Bool, true, false, not, ◌&&◌, ◌||◌, List, [], ◌∷◌, Option, none, some, is_some, if◌then◌else◌,
}
use personal_knowledge_os.Text.{Text, codes, trim}
use personal_knowledge_os.Values.{Uuid, DateTime, le_f32}
use personal_knowledge_os.AppError.{config}
use personal_knowledge_os.Config.{Config}
use personal_knowledge_os.Models.{SourceRecord, MemoryRecord}
use personal_knowledge_os.Db.Libs.{Libs}
use personal_knowledge_os.Db.Tables.{MemoryStatus, candidate, active}
use personal_knowledge_os.Db.Action.{Action, ◌>>=◌, ◌>>◌, pure, throw}
use personal_knowledge_os.Services.{Services}
use personal_knowledge_os.Storage.Sources.{get_source}
use personal_knowledge_os.Storage.Memories.{list_memories, create_memory_candidate, approve_memory}
use personal_knowledge_os.Storage.Memories.Bodies.{MemoryCandidateInput}
use personal_knowledge_os.Extraction.Verifier.{
  ExtractedMemory, validate_candidate, accepted, discarded, Verdict,
}
use personal_knowledge_os.Extraction.Client.{new, enabled, extract, Outcome, finished, panicked}
use personal_knowledge_os.Extraction.Statements.{
  find_existing_memory, reinforce_existing_memory, resolve_supersedes,
}

-- `AppState`
pub record AppState : Type 0 where
  pub config : Config
  pub services : Services

-- `should_auto_promote`
unfoldable pub should_auto_promote : Config → ExtractedMemory → Bool
should_auto_promote c m =
    c.memory_auto_promote_enabled
    && le_f32 c.memory_auto_promote_min_confidence m.confidence
    && le_f32 c.memory_auto_promote_min_importance m.importance

-- `supersedes_memory_id.is_some() && supersedes.is_none()`
abbrev pub lost_supersedes : ExtractedMemory → Option Uuid → Bool
lost_supersedes m supersedes = is_some m.supersedes_memory_id && not (is_some supersedes)

-- `if supersedes_memory_id.is_some() && supersedes.is_none()`, then the approval
unfoldable pub approve_unless_lost : AppState → Bool → Uuid → Option Uuid → Action (Unit {0})
approve_unless_lost state true id supersedes = pure tt
approve_unless_lost state false id supersedes = do
  approve_memory state.config.owner_id id supersedes
  pure tt

-- an existing candidate is approved, if the new proposal is good enough
unfoldable pub promote_existing : AppState → ExtractedMemory → Uuid → Action (Unit {0})
unfolding should_auto_promote approve_unless_lost
promote_existing state m existing_id =
    if should_auto_promote state.config m
    then (do
      supersedes ← resolve_supersedes state.config.owner_id m.supersedes_memory_id
      approve_unless_lost state (lost_supersedes m supersedes) existing_id supersedes)
    else pure tt

-- `.and_then(|value| DateTime::parse_from_rfc3339(value).ok())….or(source.occurred_at)`
unfoldable pub valid_from_of : Libs → ExtractedMemory → SourceRecord → Option DateTime
valid_from_of libs m source =
    elim (elim m.valid_from as (λ _. Option DateTime) [
      | none ↦ none
      | some text ↦ libs.time_parse text
    ]) [ some t ↦ some t | none ↦ source.occurred_at ]

-- the input of `create_memory_candidate`
unfoldable pub memory_input : Libs → ExtractedMemory → SourceRecord → MemoryCandidateInput
unfolding valid_from_of
memory_input libs m source = record {
  memory_type = trim m.memory_type;
  statement = trim m.statement;
  confidence = m.confidence;
  importance = m.importance;
  valid_from = valid_from_of libs m source;
  evidence = source.id ∷ [];
}

-- `if auto_promote`
unfoldable pub promote_new : AppState → Bool → Uuid → Option Uuid → Action (Unit {0})
promote_new state true id supersedes = do
  approve_memory state.config.owner_id id supersedes
  pure tt
promote_new state false id supersedes = pure tt

-- a memory with a new statement, unless what it supersedes is lost
unfoldable pub create_unless_lost :
    AppState → SourceRecord → ExtractedMemory → Bool → Option Uuid → Action (Unit {0})
unfolding promote_new memory_input
create_unless_lost state source m true supersedes = pure tt
create_unless_lost state source m false supersedes = do
  memory ← λ env. create_memory_candidate state.config.owner_id (memory_input env.libs m source) env
  promote_new state (should_auto_promote state.config m) memory.id supersedes

-- a memory with a new statement
unfoldable pub create_new : AppState → SourceRecord → ExtractedMemory → Action (Unit {0})
unfolding create_unless_lost
create_new state source m =
    if state.config.memory_auto_promote_enabled
      && not (should_auto_promote state.config m)
      && not state.config.memory_keep_unpromoted_candidates
    then pure tt
    else (do
      supersedes ← resolve_supersedes state.config.owner_id m.supersedes_memory_id
      create_unless_lost state source m (lost_supersedes m supersedes) supersedes)

-- what follows `find_existing_memory`
unfoldable pub with_existing :
    AppState → SourceRecord → ExtractedMemory → Option (Uuid × MemoryStatus) → Action (Unit {0})
unfolding promote_existing create_new
with_existing state source m (some (existing_id, active)) =
    reinforce_existing_memory state.config.owner_id existing_id source.id
with_existing state source m (some (existing_id, candidate)) = promote_existing state m existing_id
with_existing state source m _ = create_new state source m

-- what follows the verdict
unfoldable pub process_verdict :
    AppState → SourceRecord → ExtractedMemory → Verdict → Action (Unit {0})
unfolding with_existing
process_verdict state source m (discarded reason) = pure tt
process_verdict state source m accepted = do
  existing ← find_existing_memory state.config.owner_id (trim m.statement)
  with_existing state source m existing

-- one round of `for candidate in extracted`
unfoldable pub process_candidate : AppState → SourceRecord → ExtractedMemory → Action (Unit {0})
unfolding process_verdict
process_candidate state source m = process_verdict state source m (validate_candidate source m)

-- the loop; an error ends it
unfoldable pub process_candidates :
    AppState → SourceRecord → List ExtractedMemory → Action (Unit {0})
unfolding process_candidate
process_candidates state source [] = pure tt
process_candidates state source (m ∷ ms) =
    process_candidate state source m >> process_candidates state source ms

-- the rest of `process_source`, after the model's answer
unfoldable pub process_answer :
    AppState → SourceRecord → Outcome (List ExtractedMemory) → Action (Outcome (Unit {0}))
unfolding process_candidates
process_answer state source panicked = pure panicked
process_answer state source (finished extracted) = do
  process_candidates state source extracted
  pure (finished tt)

-- `process_source`
unfoldable pub process_source : AppState → Uuid → Action (Outcome (Unit {0}))
unfolding process_answer
process_source state source_id =
    if not state.config.memory_extraction_enabled
    then pure (finished tt)
    else if not (enabled (new state.config))
    then throw (
        config
          (codes "automatic memory extraction is enabled without a configured memory provider"))
    else (do
      source ← get_source state.config.owner_id source_id
      active_memories ←
          list_memories state.config.owner_id (some (codes "active"))
            state.config.memory_context_limit
      answer ← extract state.services (new state.config) source active_memories
      process_answer state source answer)
