-- ===== src/Api/Memories.antt =====
-- src/api/memories.rs: the handlers of the memory routes.
pub mod Checks
use personal_knowledge_os.Prelude.{
  ℕ, Bool, ◌&&◌, not, List, Option, none, some, leb, length, is_empty,
}
use personal_knowledge_os.Text.{Text, codes, trim, byte_len}
use personal_knowledge_os.Values.{Uuid, F32, f32_0_8, f32_0_5, clamp_unit, pos, clamp_ℤ}
use personal_knowledge_os.AppError.{bad_request}
use personal_knowledge_os.Models.{
  MemoryRecord, ApproveMemoryRequest, CreateMemoryCandidateRequest, ListMemoriesQuery,
}
use personal_knowledge_os.Db.Sql.{coalesce}
use personal_knowledge_os.Db.Action.{Action, ◌>>=◌, ◌>>◌, ensure}
use personal_knowledge_os.Storage.Memories.Bodies.{MemoryCandidateInput}
use personal_knowledge_os.Storage.Memories as StorageMemories
use personal_knowledge_os.Api.Sources.{State}

-- the input that `create_candidate` builds
unfoldable pub candidate_input : CreateMemoryCandidateRequest → MemoryCandidateInput
candidate_input request = record {
  memory_type = trim request.memory_type;
  statement = trim request.statement;
  confidence = clamp_unit (coalesce request.confidence f32_0_8);
  importance = clamp_unit (coalesce request.importance f32_0_5);
  valid_from = request.valid_from;
  evidence = request.evidence_source_ids;
}

-- `create_candidate`
unfoldable pub create_candidate : State → CreateMemoryCandidateRequest → Action MemoryRecord
create_candidate state request = do
  ensure (not (is_empty (trim request.memory_type)) && leb (byte_len (trim request.memory_type)) 64)
      (bad_request (codes "memory_type must be 1..=64 bytes"))
  ensure (not (is_empty (trim request.statement)) && leb (length (trim request.statement)) 4000)
      (bad_request (codes "statement must be 1..=4000 characters"))
  StorageMemories.create_memory_candidate state.owner_id (candidate_input request)

-- `approve_memory`
unfoldable pub approve_memory : State → Uuid → ApproveMemoryRequest → Action MemoryRecord
approve_memory state id request =
    StorageMemories.approve_memory state.owner_id id request.supersedes_id

-- `reject_memory`
unfoldable pub reject_memory : State → Uuid → Action MemoryRecord
reject_memory state id = StorageMemories.reject_memory state.owner_id id

-- `get_memory`
unfoldable pub get_memory : State → Uuid → Action MemoryRecord
get_memory state id = StorageMemories.get_memory state.owner_id id

-- `list_memories`
unfoldable pub list_memories : State → ListMemoriesQuery → Action (List MemoryRecord)
list_memories state query =
    StorageMemories.list_memories state.owner_id query.status
      (pos (clamp_ℤ 1 200 (coalesce query.limit (pos 50))))
