-- ===== src/Tests/Worker.antt =====
-- The worker, alone and between requests.
use personal_knowledge_os.Prelude.{suc, All, ◌≡◌, refl, ◌⊎◌, List, [], ◌∷◌, none, some}
use personal_knowledge_os.Text.{Text, codes, text_eq}
use personal_knowledge_os.Values.{Uuid, f32_0_8, f32_0_5, object, end}
use personal_knowledge_os.AppError.{ok, err, conflict}
use personal_knowledge_os.Models.{JobRecord}
use personal_knowledge_os.Db.Libs.{Libs}
use personal_knowledge_os.Db.Tables.{JobRow, empty_db}
use personal_knowledge_os.Storage.Rows.{insert_job, insert_audit, source_from_row}
use personal_knowledge_os.Storage.Sources.{
  SourceInput, ingest_source, ingest_source_tx, map_conflict, insert_source, clashes, source_row,
  source_check, insert_chunks, insert_chunk, chunk_row, chunk_check, chunk_clashes, schedule,
}
use personal_knowledge_os.Storage.Memories.Bodies.{MemoryCandidateInput}
use personal_knowledge_os.System.Once.{ingest_source_once}
use personal_knowledge_os.Worker.Dispatch.{IsTask, run-IsTask}
use personal_knowledge_os.Storage.Operations.{ingest, create, approve, run as run_storage}
use personal_knowledge_os.Storage.Memories.Keys.{UniqueIds}
use personal_knowledge_os.Storage.Memories.Grounding.{IsGrounded}
use personal_knowledge_os.Storage.Jobs.Statements.{job_from_row, fail_job_tx}
use personal_knowledge_os.Storage.Jobs.{fail_job}
use personal_knowledge_os.Db.Action.{Env, transaction}
use personal_knowledge_os.Extraction.Client.{finished, panicked}
use personal_knowledge_os.Worker.{run, run_job, process}
use personal_knowledge_os.Worker.Liveness.{run_goes_on, IsSettled, run_job_settles}
use personal_knowledge_os.Storage.Graph.Invariant.{add_entity}
use personal_knowledge_os.System.{Turn, request, graph, retrieve, background, take_turns}
use personal_knowledge_os.System.Trace.{take_turns-IsGrounded}
use personal_knowledge_os.Tests.Setup.{env_alive, world_example, job_example, libs_example}
use personal_knowledge_os.Tests.Handlers.{fresh_delivery, session}
use personal_knowledge_os.Tests.Extraction.{state_example}
use personal_knowledge_os.Tests.Retrieval.{searcher_example, request_example}

run_goes_on_example :
    ((run 3 state_example env_alive world_example).0 ≡ ok (finished tt))
    ⊎ ((run 3 state_example env_alive world_example).0 ≡ ok panicked)
run_goes_on_example = run_goes_on state_example 8 3 env_alive world_example refl (λ tick. refl)

abbrev broken_job : JobRecord
broken_job = record (job_from_row job_example) { kind = codes "unknown" }

broken_runs : (run_job state_example broken_job env_alive world_example).0 ≡ ok (finished tt)
unfolding run_job process text_eq codes fail_job transaction fail_job_tx
broken_runs = refl

run_job_settles_example :
    IsSettled 30 (run_job state_example broken_job env_alive world_example).1.db.jobs
unfolding job_from_row
run_job_settles_example =
    run_job_settles state_example broken_job env_alive world_example broken_runs

abbrev first_code : Text → Text → Uuid
first_code [] t = 0
first_code (c ∷ s) t = c

abbrev libs_reading : Libs
libs_reading = record libs_example { uuid_parse = λ s. some (first_code s s) }

abbrev env_reading : Env
env_reading = record env_alive { libs = libs_reading }

run-IsTask_example :
    All
      (λ (j : JobRow). IsTask state_example env_reading j.kind j.payload)
      (run_storage session env_reading (record { db = empty_db; tick = 0 })).db.jobs
run-IsTask_example = run-IsTask state_example session env_reading (λ u. refl)

-- a memory that rests on the source of `fresh_delivery`, whose id is the first
abbrev proposed_example : MemoryCandidateInput
proposed_example = record {
  memory_type = codes "fact";
  statement = codes "Uses Bifrost";
  confidence = f32_0_8;
  importance = f32_0_5;
  valid_from = none;
  evidence = 100 ∷ [];
}

abbrev turns_example : List Turn
turns_example =
    request (ingest 1 fresh_delivery)
    ∷ request (create 1 proposed_example)
    ∷ background state_example
    ∷ request (approve 1 110 none)
    ∷ graph (add_entity 1 (codes "person") (codes "Ada") (object end) [])
    ∷ retrieve searcher_example state_example request_example
    ∷ background state_example
    ∷ []

take_turns-IsGrounded_example :
    let db = (take_turns turns_example env_alive (record { db = empty_db; tick = 0 })).db in
    IsGrounded db × UniqueIds db.memories
take_turns-IsGrounded_example = take_turns-IsGrounded turns_example env_alive

abbrev named_delivery : SourceInput
named_delivery = record fresh_delivery { external_id = some (codes "new") }

delivered :
    (ingest_source 1 named_delivery env_alive world_example).0
    ≡ ok (source_from_row (source_row 1000 100 1 named_delivery))
unfolding ingest_source transaction ingest_source_tx map_conflict insert_source clashes source_row
    source_check insert_chunks insert_chunk chunk_row chunk_check chunk_clashes schedule insert_job
    insert_audit source_from_row text_eq codes
delivered = refl

ingest_source_once_example :
    let later =
      take_turns turns_example env_alive
        (ingest_source 1 named_delivery env_alive world_example).1 in
    ingest_source 1 (record named_delivery { content = codes "other" }) env_alive later ≡ (
      err (conflict (codes "source external_id already exists")),
      record later { tick = suc later.tick },
    )
ingest_source_once_example =
    ingest_source_once 1 named_delivery (record named_delivery { content = codes "other" })
      (codes "new") turns_example env_alive world_example
      (source_from_row (source_row 1000 100 1 named_delivery)) delivered refl refl refl
      (unfold codes in refl) refl
