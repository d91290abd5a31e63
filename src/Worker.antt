-- ===== src/Worker.antt =====
-- src/services/worker.rs: the loop that leases jobs, runs them and settles them.
-- A round of the loop is a function; `run` is the loop for a number of rounds, as the source never leaves
-- it but by an error or a panic.
pub mod Keeps
pub mod Liveness
pub mod Dispatch
use personal_knowledge_os.Prelude.{
  ℕ, zero, suc, Bool, List, [], ◌∷◌, ◌++◌, Option, none, some, if◌then◌else◌,
}
use personal_knowledge_os.Text.{Text, codes, text_eq}
use personal_knowledge_os.Values.{Uuid, Vector, Value, get_key, as_str}
use personal_knowledge_os.AppError.{AppError, Result, ok, err, bad_request, to_string}
use personal_knowledge_os.Models.{JobRecord}
use personal_knowledge_os.Db.Libs.{Libs}
use personal_knowledge_os.Db.Action.{Env, World, Action, ◌>>=◌, ◌>>◌, pure, throw, lift_result}
use personal_knowledge_os.Storage.Sources.{load_chunk_content, set_chunk_embedding}
use personal_knowledge_os.Storage.Memories.{load_memory_statement, set_memory_embedding}
use personal_knowledge_os.Storage.Jobs.{lease_jobs, complete_job, fail_job}
use personal_knowledge_os.Embedding as Embedding
use personal_knowledge_os.Embedding.{embed}
use personal_knowledge_os.Extraction.Client.{Outcome, finished, panicked}
use personal_knowledge_os.Extraction.Process.{AppState, process_source}

-- `.parse().map_err(…)`
unfoldable pub parsed_uuid : Option Uuid → Text → Result Uuid
parsed_uuid none key = err (bad_request (codes "invalid " ++ key))
parsed_uuid (some id) key = ok id

-- `payload.get(key).and_then(|v| v.as_str())`
unfoldable pub payload_text : Value → Text → Option Text
unfolding get_key as_str
payload_text payload key = elim (get_key key payload) as (λ _. Option Text) [
  | none ↦ none
  | some v ↦ as_str v
]

-- `parse_uuid`
unfoldable pub parse_uuid : Libs → Value → Text → Result Uuid
unfolding payload_text parsed_uuid
parse_uuid libs payload key = elim (payload_text payload key) [
  | none ↦ err (bad_request (codes "job payload missing " ++ key))
  | some text ↦ parsed_uuid (libs.uuid_parse text) key
]

-- `if let Some(vector) = …`, of a chunk
unfoldable pub store_chunk_vector : AppState → Uuid → Option Vector → Action (Unit {0})
store_chunk_vector state id none = pure tt
store_chunk_vector state id (some vector) =
    set_chunk_embedding state.config.owner_id id vector state.config.embedding_model

-- `if let Some(vector) = …`, of a memory
unfoldable pub store_memory_vector : AppState → Uuid → Option Vector → Action (Unit {0})
store_memory_vector state id none = pure tt
store_memory_vector state id (some vector) =
    set_memory_embedding state.config.owner_id id vector state.config.embedding_model

-- "embed_chunk"
unfoldable pub process_chunk : AppState → Value → Action (Outcome (Unit {0}))
unfolding parse_uuid store_chunk_vector
process_chunk state payload = do
  id ← λ env. lift_result (parse_uuid env.libs payload (codes "chunk_id")) env
  content ← load_chunk_content state.config.owner_id id
  vector ← embed state.services (Embedding.new state.config) content
  store_chunk_vector state id vector
  pure (finished tt)

-- "embed_memory"
unfoldable pub process_memory : AppState → Value → Action (Outcome (Unit {0}))
unfolding parse_uuid store_memory_vector
process_memory state payload = do
  id ← λ env. lift_result (parse_uuid env.libs payload (codes "memory_id")) env
  statement ← load_memory_statement state.config.owner_id id
  vector ← embed state.services (Embedding.new state.config) statement
  store_memory_vector state id vector
  pure (finished tt)

-- "extract_memories"
unfoldable pub process_extraction : AppState → Value → Action (Outcome (Unit {0}))
unfolding parse_uuid
process_extraction state payload = do
  source_id ← λ env. lift_result (parse_uuid env.libs payload (codes "source_id")) env
  process_source state source_id

-- `process`
unfoldable pub process : AppState → Text → Value → Action (Outcome (Unit {0}))
unfolding process_chunk process_memory process_extraction
process state kind payload =
    if text_eq kind (codes "embed_chunk")
    then process_chunk state payload
    else if text_eq kind (codes "embed_memory")
    then process_memory state payload
    else if text_eq kind (codes "extract_memories")
    then process_extraction state payload
    else throw (bad_request (codes "unknown job kind: " ++ kind))

-- `match result`; a panic of `process` is one of the worker's task
unfoldable pub settle : JobRecord → Result (Outcome (Unit {0})) → Action (Outcome (Unit {0}))
settle job (ok panicked) = pure panicked
settle job (ok (finished u)) = do complete_job job.id; pure (finished tt)
settle job (err e) = do fail_job job.id job.attempts (to_string e); pure (finished tt)

-- one round of `for job in jobs`
unfoldable pub run_job : AppState → JobRecord → Action (Outcome (Unit {0}))
unfolding process settle
run_job state job env w =
    let (result, w') = process state job.kind job.payload env w in settle job result env w'

-- what follows a job or a round, unless the task is gone
abbrev pub unless_panicked :
    Action (Outcome (Unit {0})) → Outcome (Unit {0}) → Action (Outcome (Unit {0}))
unless_panicked k panicked = pure panicked
unless_panicked k (finished u) = k

-- `for job in jobs`
unfoldable pub run_jobs : AppState → List JobRecord → Action (Outcome (Unit {0}))
unfolding run_job
run_jobs state [] = pure (finished tt)
run_jobs state (job ∷ jobs) = run_job state job >>= unless_panicked (run_jobs state jobs)

-- `tokio::time::sleep`: time passes
abbrev pub sleep : Action (Outcome (Unit {0}))
sleep env w = (ok (finished tt), record w { tick = suc w.tick })

-- `if jobs.is_empty()`
unfoldable pub work : AppState → List JobRecord → Action (Outcome (Unit {0}))
unfolding run_jobs
work state [] = sleep
work state (job ∷ jobs) = run_jobs state (job ∷ jobs)

-- one round of `loop`
unfoldable pub round : AppState → Action (Outcome (Unit {0}))
unfolding work
round state = do
  jobs ← lease_jobs state.config.owner_id state.config.worker_batch_size
  work state jobs

-- `run`, for a number of rounds
unfoldable pub run : ℕ → AppState → Action (Outcome (Unit {0}))
unfolding round
run zero state = pure (finished tt)
run (suc n) state = round state >>= unless_panicked (run n state)
