-- ===== src/Worker/Keeps.antt =====
-- What the methods of the storage keep, the worker keeps that calls them.
use personal_knowledge_os.Prelude.{inl, inr, List, [], ◌∷◌, Option, none, some, arith, Bool-cases}
use personal_knowledge_os.Text.{Text, codes, text_eq}
use personal_knowledge_os.Values.{Uuid, Vector, Value}
use personal_knowledge_os.AppError.{Result, ok, err, to_string}
use personal_knowledge_os.Models.{JobRecord}
use personal_knowledge_os.Db.Tables.{Db, SourceRow, EvidenceRow, MemoryRow}
use personal_knowledge_os.Db.Action.{Action, ◌>>=◌, ◌>>◌, pure, lift_result}
use personal_knowledge_os.Db.Keeps.{Keeps, reads-Keeps, bind-Keeps}
use personal_knowledge_os.Services.{Services}
use personal_knowledge_os.Storage.Sources.{load_chunk_content, load_chunk_content_tx}
use personal_knowledge_os.Storage.Memories.{load_memory_statement}
use personal_knowledge_os.Storage.Memories.Bodies.{load_memory_statement_tx}
use personal_knowledge_os.Storage.Jobs.{lease_jobs, complete_job, fail_job}
use personal_knowledge_os.Storage.Operations.Jobs.{
  OfMemories, lease_jobs-Keeps, complete_job-Keeps, fail_job-Keeps, set_chunk_embedding-Keeps,
}
use personal_knowledge_os.Storage.Operations.Memories.{set_memory_embedding-Keeps}
use personal_knowledge_os.Embedding as Embedding
use personal_knowledge_os.Embedding.{EmbeddingClient, embed, embed_with}
use personal_knowledge_os.Extraction.Client.{Outcome, finished, panicked}
use personal_knowledge_os.Extraction.Process.{AppState, process_source}
use personal_knowledge_os.Extraction.Process.Keeps.{IsKept, process_source-Keeps}
use personal_knowledge_os.Worker.{
  parse_uuid, store_chunk_vector, store_memory_vector, process_chunk, process_memory,
  process_extraction, process, settle, run_job, unless_panicked, run_jobs, work, round,
}

-- The embedding provider changes no table.
pub embed-Keeps :
    (P : Db → Type 0) (services : Services) (client : EmbeddingClient) (input : Text)
    → Keeps P (embed services client input)
unfolding embed embed_with
embed-Keeps P services client input = with_provider client.base_url client.api_key
  where
    with_provider :
        (base_url api_key : Option Text)
        → Keeps P (embed_with services client input base_url api_key)
    with_provider (some base_url) (some api_key) env w h = h
    with_provider (some base_url) none env w h = h
    with_provider none api_key env w h = h

load_chunk_content-Keeps :
    (P : Db → Type 0) (owner_id id : Uuid) → Keeps P (load_chunk_content owner_id id)
unfolding load_chunk_content load_chunk_content_tx
load_chunk_content-Keeps P owner_id id =
    reads-Keeps P (λ cx. load_chunk_content_tx owner_id id) (λ cx db a db' h. ground arith)

load_memory_statement-Keeps :
    (P : Db → Type 0) (owner_id id : Uuid) → Keeps P (load_memory_statement owner_id id)
unfolding load_memory_statement load_memory_statement_tx
load_memory_statement-Keeps P owner_id id =
    reads-Keeps P (λ cx. load_memory_statement_tx owner_id id) (λ cx db a db' h. ground arith)

module _ {Q : List SourceRow → List EvidenceRow → List MemoryRow → Type 0}
    (k : IsKept Q (λ input. Unit) Unit) (state : AppState) where
  store_chunk_vector-Keeps :
      (id : Uuid) (vector : Option Vector)
      → Keeps (OfMemories Q) (store_chunk_vector state id vector)
  unfolding store_chunk_vector
  store_chunk_vector-Keeps id none = λ env w h. h
  store_chunk_vector-Keeps id (some vector) =
      set_chunk_embedding-Keeps Q state.config.owner_id id vector state.config.embedding_model

  store_memory_vector-Keeps :
      (id : Uuid) (vector : Option Vector)
      → Keeps (OfMemories Q) (store_memory_vector state id vector)
  unfolding store_memory_vector
  store_memory_vector-Keeps id none = λ env w h. h
  store_memory_vector-Keeps id (some vector) =
      set_memory_embedding-Keeps Q k.updates state.config.owner_id id vector
        state.config.embedding_model

  -- what follows the id in the payload
  parsed-Keeps :
      {A : Type 0} (payload : Value) (key : Text) (f : Uuid → Action A)
      → ((id : Uuid) → Keeps (OfMemories Q) (f id))
      → Keeps (OfMemories Q) ((λ env. lift_result (parse_uuid env.libs payload key) env) >>= f)
  parsed-Keeps payload key f keeps =
      bind-Keeps (OfMemories Q) (λ env. lift_result (parse_uuid env.libs payload key) env) f
        (λ env w h. h) keeps

  process_chunk-Keeps : (payload : Value) → Keeps (OfMemories Q) (process_chunk state payload)
  unfolding process_chunk
  process_chunk-Keeps payload =
      parsed-Keeps payload (codes "chunk_id")
        (λ id. load_chunk_content state.config.owner_id id >>= λ content.
          embed state.services (Embedding.new state.config) content >>= λ vector.
          store_chunk_vector state id vector >> pure (finished tt))
        (λ id.
          bind-Keeps (OfMemories Q) (load_chunk_content state.config.owner_id id)
            (λ content. embed state.services (Embedding.new state.config) content >>= λ vector.
              store_chunk_vector state id vector >> pure (finished tt))
            (load_chunk_content-Keeps (OfMemories Q) state.config.owner_id id)
            (λ content.
              bind-Keeps (OfMemories Q) (embed state.services (Embedding.new state.config) content)
                (λ vector. store_chunk_vector state id vector >> pure (finished tt))
                (embed-Keeps (OfMemories Q) state.services (Embedding.new state.config) content)
                (λ vector.
                  bind-Keeps (OfMemories Q) (store_chunk_vector state id vector)
                    (λ _. pure (finished tt)) (store_chunk_vector-Keeps id vector)
                    (λ u env w h. h))))

  process_memory-Keeps : (payload : Value) → Keeps (OfMemories Q) (process_memory state payload)
  unfolding process_memory
  process_memory-Keeps payload =
      parsed-Keeps payload (codes "memory_id")
        (λ id. load_memory_statement state.config.owner_id id >>= λ statement.
          embed state.services (Embedding.new state.config) statement >>= λ vector.
          store_memory_vector state id vector >> pure (finished tt))
        (λ id.
          bind-Keeps (OfMemories Q) (load_memory_statement state.config.owner_id id)
            (λ statement. embed state.services (Embedding.new state.config) statement >>= λ vector.
              store_memory_vector state id vector >> pure (finished tt))
            (load_memory_statement-Keeps (OfMemories Q) state.config.owner_id id)
            (λ statement.
              bind-Keeps (OfMemories Q)
                (embed state.services (Embedding.new state.config) statement)
                (λ vector. store_memory_vector state id vector >> pure (finished tt))
                (embed-Keeps (OfMemories Q) state.services (Embedding.new state.config) statement)
                (λ vector.
                  bind-Keeps (OfMemories Q) (store_memory_vector state id vector)
                    (λ _. pure (finished tt)) (store_memory_vector-Keeps id vector)
                    (λ u env w h. h))))

  process_extraction-Keeps :
      (payload : Value) → Keeps (OfMemories Q) (process_extraction state payload)
  unfolding process_extraction
  process_extraction-Keeps payload =
      parsed-Keeps payload (codes "source_id") (process_source state) (λ source_id env w.
        process_source-Keeps k state source_id env w (λ source db' e libs m answered passed. tt)
          (λ m good. tt))

  -- One of the branches of `process`, or none of them.
  process-Keeps :
      (kind : Text) (payload : Value) → Keeps (OfMemories Q) (process state kind payload)
  unfolding process
  process-Keeps kind payload env w h = elim (Bool-cases (text_eq kind (codes "embed_chunk"))) [
    | inl chunk ↦ rw chunk (process_chunk-Keeps payload env w h)
    | inr e1 ↦ elim (Bool-cases (text_eq kind (codes "embed_memory"))) [
      | inl memory ↦ rw (e1, memory) (process_memory-Keeps payload env w h)
      | inr e2 ↦ elim (Bool-cases (text_eq kind (codes "extract_memories"))) [
        | inl extraction ↦ rw (e1, e2, extraction) (process_extraction-Keeps payload env w h)
        | inr e3 ↦ rw (e1, e2, e3) h
      ]
    ]
  ]

  settle-Keeps :
      (job : JobRecord) (result : Result (Outcome (Unit {0})))
      → Keeps (OfMemories Q) (settle job result)
  unfolding settle
  settle-Keeps job (ok panicked) = λ env w h. h
  settle-Keeps job (ok (finished u)) =
      bind-Keeps (OfMemories Q) (complete_job job.id) (λ _. pure (finished tt))
        (complete_job-Keeps Q job.id) (λ u env w h. h)
  settle-Keeps job (err e) =
      bind-Keeps (OfMemories Q) (fail_job job.id job.attempts (to_string e))
        (λ _. pure (finished tt)) (fail_job-Keeps Q job.id job.attempts (to_string e))
        (λ u env w h. h)

  run_job-Keeps : (job : JobRecord) → Keeps (OfMemories Q) (run_job state job)
  unfolding run_job
  run_job-Keeps job env w h =
      let done = process state job.kind job.payload env w in
      settle-Keeps job done.0 env done.1 (process-Keeps job.kind job.payload env w h)

  unless_panicked-Keeps :
      (m : Action (Outcome (Unit {0}))) (outcome : Outcome (Unit {0}))
      → Keeps (OfMemories Q) m
      → Keeps (OfMemories Q) (unless_panicked m outcome)
  unless_panicked-Keeps m panicked keeps = λ env w h. h
  unless_panicked-Keeps m (finished u) keeps = keeps

  run_jobs-Keeps : (jobs : List JobRecord) → Keeps (OfMemories Q) (run_jobs state jobs)
  unfolding run_jobs
  run_jobs-Keeps [] = λ env w h. h
  run_jobs-Keeps (job ∷ jobs) =
      bind-Keeps (OfMemories Q) (run_job state job) (unless_panicked (run_jobs state jobs))
        (run_job-Keeps job)
        (λ o. unless_panicked-Keeps (run_jobs state jobs) o (run_jobs-Keeps jobs))

  work-Keeps : (jobs : List JobRecord) → Keeps (OfMemories Q) (work state jobs)
  unfolding work
  work-Keeps [] = λ env w h. h
  work-Keeps (job ∷ jobs) = run_jobs-Keeps (job ∷ jobs)

  -- A round of the worker.
  pub round-Keeps : Keeps (OfMemories Q) (round state)
  unfolding round
  round-Keeps =
      bind-Keeps (OfMemories Q) (lease_jobs state.config.owner_id state.config.worker_batch_size)
        (work state) (lease_jobs-Keeps Q state.config.owner_id state.config.worker_batch_size)
        work-Keeps
