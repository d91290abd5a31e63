-- ===== src/Worker/Dispatch.antt =====
-- What the worker does with the jobs that the storage writes.
use personal_knowledge_os.Prelude.{◌≡◌, refl, ap, ◌⊎◌, inl, inr, false, List, some, All}
use personal_knowledge_os.Text.{Text, codes, text_eq, text_eq_refl}
use personal_knowledge_os.Values.{Uuid, Value}
use personal_knowledge_os.AppError.{Result, ok, err}
use personal_knowledge_os.Db.Tables.{JobRow, empty_db}
use personal_knowledge_os.Db.Action.{Env, World, Action, ◌>>=◌, ◌>>◌, pure, lift_result}
use personal_knowledge_os.Storage.Sources.{load_chunk_content, id_payload}
use personal_knowledge_os.Storage.Memories.{load_memory_statement}
use personal_knowledge_os.Storage.Operations.{Operation, run}
use personal_knowledge_os.Storage.Operations.Queue.{run-AllJobs}
use personal_knowledge_os.Embedding as Embedding
use personal_knowledge_os.Embedding.{embed}
use personal_knowledge_os.Extraction.Client.{Outcome, finished}
use personal_knowledge_os.Extraction.Process.{AppState, process_source}
use personal_knowledge_os.Worker.{
  parse_uuid, store_chunk_vector, store_memory_vector, process, process_chunk, process_memory,
  process_extraction,
}
use personal_knowledge_os.Worker.Liveness.{parse_uuid-id_payload}

-- To embed the chunk with this id.
abbrev pub embed_the_chunk : AppState → Uuid → Action (Outcome (Unit {0}))
embed_the_chunk state id = do
  content ← load_chunk_content state.config.owner_id id
  vector ← embed state.services (Embedding.new state.config) content
  store_chunk_vector state id vector
  pure (finished tt)

-- To embed the memory with this id.
abbrev pub embed_the_memory : AppState → Uuid → Action (Outcome (Unit {0}))
embed_the_memory state id = do
  statement ← load_memory_statement state.config.owner_id id
  vector ← embed state.services (Embedding.new state.config) statement
  store_memory_vector state id vector
  pure (finished tt)

-- The worker takes the job for one of three tasks, for the id that its payload names: its kind is known,
-- its payload has the id under the key of the kind, and the id parses.
abbrev pub IsTask : AppState → Env → Text → Value → Type 0
IsTask state env kind payload =
    ((id : Uuid) × (payload ≡ id_payload env.libs (codes "chunk_id") id)
      × ((w : World) → process state kind payload env w ≡ embed_the_chunk state id env w))
    ⊎ ((id : Uuid) × (payload ≡ id_payload env.libs (codes "memory_id") id)
        × ((w : World) → process state kind payload env w ≡ embed_the_memory state id env w))
    ⊎ ((id : Uuid) × (payload ≡ id_payload env.libs (codes "source_id") id)
        × ((w : World) → process state kind payload env w ≡ process_source state id env w))

-- What follows the id of a payload that has it.
after_id :
    (k : Uuid → Action (Outcome (Unit {0}))) (key : Text) (id : Uuid) (env : Env) (w : World)
    → ((u : Uuid) → env.libs.uuid_parse (env.libs.uuid_text u) ≡ some u)
    → (((λ env. lift_result (parse_uuid env.libs (id_payload env.libs key id) key) env) >>= k) env
        w)
      ≡ k id env w
after_id k key id env w law =
    ap
      (λ (r : Result Uuid). elim r as (λ _. Result (Outcome (Unit {0})) × World) [
        | ok a ↦ k a env w
        | err e ↦ (err e, w)
      ])
      (parse_uuid-id_payload env.libs key id law)

module _ (state : AppState) (env : Env)
    (law : (u : Uuid) → env.libs.uuid_parse (env.libs.uuid_text u) ≡ some u) where
  process_chunk-IsTask :
      (id : Uuid)
      → IsTask state env (codes "embed_chunk") (id_payload env.libs (codes "chunk_id") id)
  unfolding process process_chunk
  process_chunk-IsTask id = inl (
    id,
    refl,
    (λ w.
        rw (text_eq_refl (codes "embed_chunk"))
          (after_id (embed_the_chunk state) (codes "chunk_id") id env w law)),
  )

  other_kinds :
      (text_eq (codes "embed_memory") (codes "embed_chunk") ≡ false)
      × (text_eq (codes "extract_memories") (codes "embed_chunk") ≡ false)
      × (text_eq (codes "extract_memories") (codes "embed_memory") ≡ false)
  unfolding text_eq codes
  other_kinds = (refl, refl, refl)

  process_memory-IsTask :
      (id : Uuid)
      → IsTask state env (codes "embed_memory") (id_payload env.libs (codes "memory_id") id)
  unfolding process process_memory
  process_memory-IsTask id =
      let (other, _, _) = other_kinds in
      inr (
        inl (
          id,
          refl,
          (λ w.
              rw (other, text_eq_refl (codes "embed_memory"))
                (after_id (embed_the_memory state) (codes "memory_id") id env w law)),
        ))

  process_extraction-IsTask :
      (id : Uuid)
      → IsTask state env (codes "extract_memories") (id_payload env.libs (codes "source_id") id)
  unfolding process process_extraction
  process_extraction-IsTask id =
      let (_, other, another) = other_kinds in
      inr (
        inr (
          id,
          refl,
          (λ w.
              rw (other, another, text_eq_refl (codes "extract_memories"))
                (after_id (process_source state) (codes "source_id") id env w law)),
        ))

-- If every UUID written as a text parses to that UUID: whatever the storage is asked to do from an empty
-- database on, in whatever order and wherever the database fails, the worker takes each job that is in
-- the queue for one of its tasks, embedding a chunk or a memory or extracting from a source, with the id
-- that the job was written with; it is never of an unknown kind, nor without an id that parses.
pub run-IsTask :
    (state : AppState) (ops : List Operation) (env : Env)
    → ((u : Uuid) → env.libs.uuid_parse (env.libs.uuid_text u) ≡ some u)
    → All
        (λ (j : JobRow). IsTask state env j.kind j.payload)
        (run ops env (record { db = empty_db; tick = 0 })).db.jobs
run-IsTask state ops env law =
    run-AllJobs (IsTask state env) env (process_chunk-IsTask state env law)
      (process_extraction-IsTask state env law) (process_memory-IsTask state env law) ops
      (record { db = empty_db; tick = 0 }) tt
