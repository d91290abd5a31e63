-- ===== src/Storage/Operations/Queue.antt =====
-- What the methods of src/storage.rs keep of the single jobs: a job's kind and payload never change.
use personal_knowledge_os.Prelude.{
  ℕ, ◌+◌, ◌≡◌, inl, inr, true, false, List, [], ◌∷◌, Option, arith, All, Bool, All-append, ◌==◌,
}
use personal_knowledge_os.Text.{Text, codes}
use personal_knowledge_os.Values.{Uuid, Value, Vector, ℤ, pos, negsuc, null}
use personal_knowledge_os.Chunking.{Chunk}
use personal_knowledge_os.Db.Tables.{JobRow}
use personal_knowledge_os.Db.Sql.{All-update_where}
use personal_knowledge_os.Db.Tx.{bind_ok, pure as done}
use personal_knowledge_os.Db.Action.{Env, World, context, transaction, ◌>>◌}
use personal_knowledge_os.Db.Keeps.{
  Keeps, transaction-Keeps, execute-Keeps, bind-Keeps, ensure-Keeps,
}
use personal_knowledge_os.Storage.Rows.{add_audit, add_job, insert_audit_lem}
use personal_knowledge_os.Storage.Sources.{
  SourceInput, ingest_source, set_chunk_embedding, set_chunk_embedding_tx, id_payload,
}
use personal_knowledge_os.Storage.Sources.Ingestion.{
  ingest_source_exact, new_job, embed_jobs, extraction_jobs, after_chunks,
}
use personal_knowledge_os.Storage.Memories.{
  get_memory, approve_memory, create_memory_candidate, reject_memory, set_memory_embedding,
}
use personal_knowledge_os.Storage.Memories.Bodies.{
  MemoryCandidateInput, is_memory, is_candidate_memory, rejected_row, embedded_row,
  reject_memory_tx, audit_rejection_tx, set_memory_embedding_tx, update_memories,
}
use personal_knowledge_os.Storage.Memories.Effects.{
  update_memories_lem, approve_memory_tx_lem, create_memory_candidate_tx_lem,
}
use personal_knowledge_os.Storage.Memories.Reads.{
  get_memory_reads, approve_memory_lem, create_memory_candidate_lem,
}
use personal_knowledge_os.Storage.Jobs.{lease_jobs, complete_job, fail_job}
use personal_knowledge_os.Storage.Jobs.Statements.{
  lease_jobs_tx, complete_job_tx, fail_job_tx, leased_row, completed_row, failed_row,
}
use personal_knowledge_os.Storage.Jobs.Lease.{lease_jobs_tx_lem}
use personal_knowledge_os.Storage.Operations.{
  Operation, ingest, embed_chunk, create, approve, reject, embed_memory, lease, complete, fail,
  perform, run,
}
use personal_knowledge_os.Storage.Operations.Memories.{refuse, recorded}

-- A property of the kind and the payload of a job, that the jobs have which this environment writes.
module _ (R : Text → Value → Type 0) (env : Env)
    (chunk_job : (id : Uuid) → R (codes "embed_chunk") (id_payload env.libs (codes "chunk_id") id))
    (source_job : (id : Uuid)
      → R (codes "extract_memories") (id_payload env.libs (codes "source_id") id))
    (memory_job : (id : Uuid)
      → R (codes "embed_memory") (id_payload env.libs (codes "memory_id") id)) where
  abbrev AllJobs : List JobRow → Type 0
  AllJobs = All (λ (j : JobRow). R j.kind j.payload)

  embed_jobs-AllJobs :
      (tick : ℕ) (owner_id : Uuid) (n : ℕ) (chunks : List Chunk)
      → AllJobs (embed_jobs (context env tick) owner_id n chunks)
  unfolding embed_jobs new_job
  embed_jobs-AllJobs tick owner_id n [] = tt
  embed_jobs-AllJobs tick owner_id n (chunk ∷ chunks) =
      (chunk_job (env.fresh tick n), embed_jobs-AllJobs tick owner_id (n + 2) chunks)

  ingest_source-AllJobs :
      (owner_id : Uuid) (input : SourceInput) (w : World)
      → AllJobs w.db.jobs
      → AllJobs (ingest_source owner_id input env w).1.db.jobs
  unfolding add_audit new_job
  ingest_source-AllJobs owner_id input w h = elim (ingest_source_exact owner_id input env w) [
    | inl (e, failed, same) ↦ rw same h
    | inr (returned, made) ↦ rw made (
        All-append (λ (j : JobRow). R j.kind j.payload) _ _
          (All-append (λ (j : JobRow). R j.kind j.payload) w.db.jobs _ h
            (embed_jobs-AllJobs w.tick owner_id 1 input.chunks))
          (extraction (after_chunks input.chunks) input.schedule_memory_extraction))
  ]
    where
      extraction :
          (n : ℕ) (wanted : Bool)
          → AllJobs (extraction_jobs (context env w.tick) owner_id (env.fresh w.tick 0) n wanted)
      extraction n false = tt
      extraction n true = (source_job (env.fresh w.tick 0), tt)

  approve_memory-AllJobs :
      (owner_id id : Uuid) (supersedes_id : Option Uuid) (w : World)
      → AllJobs w.db.jobs
      → AllJobs (approve_memory owner_id id supersedes_id env w).1.db.jobs
  unfolding add_audit add_job id_payload
  approve_memory-AllJobs owner_id id supersedes_id w h =
      elim (approve_memory_lem owner_id id supersedes_id env w) [
        | inl same ↦ rw same h
        | inr body ↦
            let (was, one, made) =
              approve_memory_tx_lem (context env w.tick) owner_id id supersedes_id w.db body in
            rw made
              (All-append (λ (j : JobRow). R j.kind j.payload) w.db.jobs _ h (memory_job id, tt))
      ]

  create_memory_candidate-AllJobs :
      (owner_id : Uuid) (input : MemoryCandidateInput) (w : World)
      → AllJobs w.db.jobs
      → AllJobs (create_memory_candidate owner_id input env w).1.db.jobs
  unfolding add_audit
  create_memory_candidate-AllJobs owner_id input w h =
      elim (create_memory_candidate_lem owner_id input env w) [
        | inl same ↦ rw same h
        | inr (given, id, body) ↦
            let (known, unused, _, made) =
              create_memory_candidate_tx_lem (context env w.tick) owner_id input w.db body in
            rw made h
      ]

  reject_memory-AllJobs :
      (owner_id id : Uuid) → Keeps (λ db. AllJobs db.jobs) (reject_memory owner_id id)
  unfolding reject_memory reject_memory_tx audit_rejection_tx add_audit
  reject_memory-AllJobs owner_id id =
      bind-Keeps (λ db. AllJobs db.jobs) (transaction (λ cx. reject_memory_tx cx owner_id id))
        (λ n. refuse n >> recorded owner_id id)
        (transaction-Keeps (λ db. AllJobs db.jobs) (λ cx. reject_memory_tx cx owner_id id)
          (λ cx db n db' h e.
            rw (update_memories_lem (is_candidate_memory owner_id id) (rejected_row cx.now) db e).0
              h))
        (λ n.
          bind-Keeps (λ db. AllJobs db.jobs) (refuse n) (λ _. recorded owner_id id)
            (ensure-Keeps (λ db. AllJobs db.jobs) (n == 1) _)
            (λ u.
              bind-Keeps (λ db. AllJobs db.jobs)
                (transaction (λ cx. audit_rejection_tx cx owner_id id))
                (λ _. get_memory owner_id id)
                (transaction-Keeps (λ db. AllJobs db.jobs) (λ cx. audit_rejection_tx cx owner_id id)
                  (λ cx db u db' h e.
                    rw
                      (insert_audit_lem (cx.ids 0) owner_id (codes "memory.rejected")
                        (codes "memory") id null db e)
                      h))
                (λ u env' w' h. rw (get_memory_reads owner_id id env' w') h)))

  set_memory_embedding-AllJobs :
      (owner_id id : Uuid) (vector : Vector) (model : Text)
      → Keeps (λ db. AllJobs db.jobs) (set_memory_embedding owner_id id vector model)
  unfolding set_memory_embedding set_memory_embedding_tx
  set_memory_embedding-AllJobs owner_id id vector model =
      transaction-Keeps (λ db. AllJobs db.jobs)
        (λ cx. set_memory_embedding_tx cx owner_id id vector model)
        (λ cx db u db' h e.
          bind_ok (update_memories (is_memory owner_id id) (embedded_row cx.now vector model))
            (λ n. done tt) db e
            λ n mid e1 k.
              let unchanged : db' ≡ mid = ground arith in
              rw
                (
                  unchanged,
                  (update_memories_lem (is_memory owner_id id) (embedded_row cx.now vector model) db
                      e1).0,
                )
                h)

  lease_jobs-AllJobs :
      (owner_id : Uuid) (limit : ℤ) → Keeps (λ db. AllJobs db.jobs) (lease_jobs owner_id limit)
  unfolding lease_jobs lease_jobs_tx leased_row
  lease_jobs-AllJobs owner_id (pos limit) =
      transaction-Keeps (λ db. AllJobs db.jobs) (λ cx. lease_jobs_tx cx.now owner_id (pos limit))
        (λ cx db a db' h e. rw (lease_jobs_tx_lem cx.now owner_id limit db e).0 (
          All-update_where (λ (j : JobRow). R j.kind j.payload) _ (leased_row cx.now) (λ j hit k. k)
            db.jobs h))
  lease_jobs-AllJobs owner_id (negsuc n) =
      transaction-Keeps (λ db. AllJobs db.jobs) (λ cx. lease_jobs_tx cx.now owner_id (negsuc n))
        (λ cx db a db' h e. cc)

  perform-AllJobs :
      (op : Operation) (w : World) → AllJobs w.db.jobs → AllJobs (perform op env w).db.jobs
  unfolding perform set_chunk_embedding set_chunk_embedding_tx complete_job complete_job_tx fail_job
      fail_job_tx completed_row failed_row
  perform-AllJobs (ingest owner_id input) = ingest_source-AllJobs owner_id input
  perform-AllJobs (embed_chunk owner_id id vector model) =
      execute-Keeps (λ db. AllJobs db.jobs) _ (λ cx db h. h) env
  perform-AllJobs (create owner_id input) = create_memory_candidate-AllJobs owner_id input
  perform-AllJobs (approve owner_id id supersedes_id) =
      approve_memory-AllJobs owner_id id supersedes_id
  perform-AllJobs (reject owner_id id) = reject_memory-AllJobs owner_id id env
  perform-AllJobs (embed_memory owner_id id vector model) =
      set_memory_embedding-AllJobs owner_id id vector model env
  perform-AllJobs (lease owner_id limit) = lease_jobs-AllJobs owner_id limit env
  perform-AllJobs (complete id) =
      execute-Keeps (λ db. AllJobs db.jobs) _
        (λ cx db.
          All-update_where (λ (j : JobRow). R j.kind j.payload) _ (completed_row cx.now)
            (λ j hit k. k) db.jobs)
        env
  perform-AllJobs (fail id attempts error) =
      execute-Keeps (λ db. AllJobs db.jobs) _
        (λ cx db.
          All-update_where (λ (j : JobRow). R j.kind j.payload) _ (failed_row cx.now attempts error)
            (λ j hit k. k) db.jobs)
        env

  pub run-AllJobs :
      (ops : List Operation) (w : World) → AllJobs w.db.jobs → AllJobs (run ops env w).db.jobs
  unfolding run
  run-AllJobs [] w h = h
  run-AllJobs (op ∷ ops) w h = run-AllJobs ops (perform op env w) (perform-AllJobs op w h)
