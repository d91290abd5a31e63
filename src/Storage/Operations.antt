-- ===== src/Storage/Operations.antt =====
-- The methods of src/storage.rs that write sources, chunks, memories and jobs, as one type: a client of the
-- storage is a list of them.
pub mod Jobs
pub mod Memories
pub mod Trace
pub mod Queue
pub mod Lifecycle
use personal_knowledge_os.Prelude.{ℕ, List, [], ◌∷◌, Option}
use personal_knowledge_os.Text.{Text}
use personal_knowledge_os.Values.{Uuid, Vector, ℤ}
use personal_knowledge_os.Db.Action.{Env, World}
use personal_knowledge_os.Storage.Sources.{SourceInput, ingest_source, set_chunk_embedding}
use personal_knowledge_os.Storage.Memories.{
  create_memory_candidate, approve_memory, reject_memory, set_memory_embedding,
}
use personal_knowledge_os.Storage.Memories.Bodies.{MemoryCandidateInput}
use personal_knowledge_os.Storage.Jobs.{lease_jobs, complete_job, fail_job}

pub data Operation : Type 0 where
  ingest : Uuid → SourceInput → Operation
  embed_chunk : Uuid → Uuid → Vector → Text → Operation
  create : Uuid → MemoryCandidateInput → Operation
  approve : Uuid → Uuid → Option Uuid → Operation
  reject : Uuid → Uuid → Operation
  embed_memory : Uuid → Uuid → Vector → Text → Operation
  lease : Uuid → ℤ → Operation
  complete : Uuid → Operation
  fail : Uuid → ℕ → Text → Operation

-- The world after an operation, whether it succeeded or not.
unfoldable pub perform : Operation → Env → World → World
perform (ingest owner_id input) env w = (ingest_source owner_id input env w).1
perform (embed_chunk owner_id id vector model) env w =
    (set_chunk_embedding owner_id id vector model env w).1
perform (create owner_id input) env w = (create_memory_candidate owner_id input env w).1
perform (approve owner_id id supersedes_id) env w =
    (approve_memory owner_id id supersedes_id env w).1
perform (reject owner_id id) env w = (reject_memory owner_id id env w).1
perform (embed_memory owner_id id vector model) env w =
    (set_memory_embedding owner_id id vector model env w).1
perform (lease owner_id limit) env w = (lease_jobs owner_id limit env w).1
perform (complete id) env w = (complete_job id env w).1
perform (fail id attempts error) env w = (fail_job id attempts error env w).1

unfoldable pub run : List Operation → Env → World → World
unfolding perform
run [] env w = w
run (op ∷ ops) env w = run ops env (perform op env w)
