-- ===== src/Storage/Operations/Jobs.antt =====
-- The methods of the job queue, and embeddings of chunks, leave the sources and the memories alone.
use personal_knowledge_os.Prelude.{ℕ, List}
use personal_knowledge_os.Text.{Text}
use personal_knowledge_os.Values.{Uuid, Vector, ℤ, pos, negsuc}
use personal_knowledge_os.Db.Tables.{Db, SourceRow, EvidenceRow, MemoryRow}
use personal_knowledge_os.Db.Keeps.{Keeps, transaction-Keeps, execute-Keeps}
use personal_knowledge_os.Storage.Sources.{set_chunk_embedding, set_chunk_embedding_tx}
use personal_knowledge_os.Storage.Jobs.{lease_jobs, complete_job, fail_job}
use personal_knowledge_os.Storage.Jobs.Statements.{lease_jobs_tx, complete_job_tx, fail_job_tx}
use personal_knowledge_os.Storage.Jobs.Lease.{lease_jobs_tx_lem}

-- What can be said of the sources, the evidence and the memories.
abbrev pub OfMemories : (List SourceRow → List EvidenceRow → List MemoryRow → Type 0) → Db → Type 0
OfMemories Q db = Q db.sources db.memory_evidence db.memories

module _ (Q : List SourceRow → List EvidenceRow → List MemoryRow → Type 0) where
  pub lease_jobs-Keeps :
      (owner_id : Uuid) (limit : ℤ) → Keeps (OfMemories Q) (lease_jobs owner_id limit)
  unfolding lease_jobs lease_jobs_tx
  lease_jobs-Keeps owner_id (pos limit) =
      transaction-Keeps (OfMemories Q) (λ cx. lease_jobs_tx cx.now owner_id (pos limit))
        (λ cx db a db' h e. rw (lease_jobs_tx_lem cx.now owner_id limit db e).0 h)
  lease_jobs-Keeps owner_id (negsuc n) =
      transaction-Keeps (OfMemories Q) (λ cx. lease_jobs_tx cx.now owner_id (negsuc n))
        (λ cx db a db' h e. cc)

  pub complete_job-Keeps : (id : Uuid) → Keeps (OfMemories Q) (complete_job id)
  unfolding complete_job complete_job_tx
  complete_job-Keeps id = execute-Keeps (OfMemories Q) _ (λ cx db h. h)

  pub fail_job-Keeps :
      (id : Uuid) (attempts : ℕ) (error : Text) → Keeps (OfMemories Q) (fail_job id attempts error)
  unfolding fail_job fail_job_tx
  fail_job-Keeps id attempts error = execute-Keeps (OfMemories Q) _ (λ cx db h. h)

  pub set_chunk_embedding-Keeps :
      (owner_id id : Uuid) (vector : Vector) (model : Text)
      → Keeps (OfMemories Q) (set_chunk_embedding owner_id id vector model)
  unfolding set_chunk_embedding set_chunk_embedding_tx
  set_chunk_embedding-Keeps owner_id id vector model = execute-Keeps (OfMemories Q) _ (λ cx db h. h)
