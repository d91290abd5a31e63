-- ===== src/Storage/Memories.antt =====
-- The memory methods of src/storage.rs: candidates, approval with supersession, rejection and reading.
-- `Bodies` has what each runs inside its transaction.
pub mod Bodies
pub mod Effects
pub mod Reads
pub mod Keys
pub mod Lifecycle
pub mod Grounding
pub mod Rejection
pub mod Evidence
use personal_knowledge_os.Prelude.{
  ℕ, Bool, List, [], ◌∷◌, Option, none, some, not, map, ◌==◌, ◌&&◌, is_empty, take, select,
}
use personal_knowledge_os.Text.{Text, codes}
use personal_knowledge_os.Values.{Uuid, Vector, ℤ}
use personal_knowledge_os.AppError.{bad_request, conflict, not_found}
use personal_knowledge_os.Models.{MemoryRecord}
use personal_knowledge_os.Db.Tables.{Db, MemoryRow, MemoryStatus, candidate}
use personal_knowledge_os.Db.Action.{Action, ◌>>=◌, ◌>>◌, ensure, transaction}
use personal_knowledge_os.Storage.Memories.Bodies.{
  MemoryCandidateInput, create_memory_candidate_tx, approve_memory_tx, reject_memory_tx,
  audit_rejection_tx, get_memory_tx, list_memories_tx, load_memory_statement_tx,
  set_memory_embedding_tx,
}

-- `get_memory`
unfoldable pub get_memory : Uuid → Uuid → Action MemoryRecord
get_memory owner_id id = transaction (λ cx. get_memory_tx owner_id id)

-- `create_memory_candidate`
unfoldable pub create_memory_candidate : Uuid → MemoryCandidateInput → Action MemoryRecord
unfolding get_memory
create_memory_candidate owner_id input = do
  ensure (not (is_empty input.evidence))
      (bad_request (codes "memory requires at least one evidence source"))
  id ← transaction (λ cx. create_memory_candidate_tx cx owner_id input)
  get_memory owner_id id

-- `approve_memory`
unfoldable pub approve_memory : Uuid → Uuid → Option Uuid → Action MemoryRecord
unfolding get_memory
approve_memory owner_id id supersedes_id = do
  transaction (λ cx. approve_memory_tx cx owner_id id supersedes_id)
  get_memory owner_id id

-- `reject_memory`: the update and the audit record are two statements outside of a transaction
unfoldable pub reject_memory : Uuid → Uuid → Action MemoryRecord
unfolding get_memory
reject_memory owner_id id = do
  rows_affected ← transaction (λ cx. reject_memory_tx cx owner_id id)
  ensure (rows_affected == 1) (conflict (codes "memory must be in candidate status"))
  transaction (λ cx. audit_rejection_tx cx owner_id id)
  get_memory owner_id id

-- `list_memories`
unfoldable pub list_memories : Uuid → Option Text → ℤ → Action (List MemoryRecord)
list_memories owner_id status limit = transaction (λ cx. list_memories_tx owner_id status limit)

-- `load_memory_statement`
unfoldable pub load_memory_statement : Uuid → Uuid → Action Text
load_memory_statement owner_id id = transaction (λ cx. load_memory_statement_tx owner_id id)

-- `set_memory_embedding`
unfoldable pub set_memory_embedding : Uuid → Uuid → Vector → Text → Action (Unit {0})
set_memory_embedding owner_id id vector model =
    transaction (λ cx. set_memory_embedding_tx cx owner_id id vector model)
