-- ===== src/Storage/Operations/Trace.antt =====
-- What holds of every database that the storage can reach from an empty one.
use personal_knowledge_os.Prelude.{
  ◌≡◌, refl, inl, inr, Bool, List, [], ◌∷◌, ◌++◌, Option, none, some, All, All-imp, Any-imp,
  Any-append_left,
}
use personal_knowledge_os.Values.{Uuid, DateTime}
use personal_knowledge_os.Db.Tables.{SourceRow, EvidenceRow, MemoryRow, empty_db}
use personal_knowledge_os.Db.Sql.{update_where, All-update_where}
use personal_knowledge_os.Db.Action.{Env, World, context}
use personal_knowledge_os.Db.Keeps.{Keeps}
use personal_knowledge_os.Storage.Rows.{add_audit, add_job}
use personal_knowledge_os.Storage.Sources.{SourceInput, ingest_source}
use personal_knowledge_os.Storage.Sources.Ingestion.{ingest_source_exact}
use personal_knowledge_os.Storage.Memories.{approve_memory, create_memory_candidate}
use personal_knowledge_os.Storage.Memories.Bodies.{
  MemoryCandidateInput, is_memory, is_active_memory, superseded_row, activated_row, candidate_row,
}
use personal_knowledge_os.Storage.Memories.Effects.{
  superseded_memories, approve_memory_tx_lem, create_memory_candidate_tx_lem,
}
use personal_knowledge_os.Storage.Memories.Reads.{approve_memory_lem, create_memory_candidate_lem}
use personal_knowledge_os.Storage.Memories.Keys.{
  UniqueIds, update_where-UniqueIds, insert-UniqueIds,
}
use personal_knowledge_os.Storage.Memories.Grounding.{
  IsGrounded, RestsOn, CitesSource, approve_memory-IsGrounded, create_memory_candidate-IsGrounded,
}
use personal_knowledge_os.Storage.Operations.Jobs.{
  OfMemories, lease_jobs-Keeps, complete_job-Keeps, fail_job-Keeps, set_chunk_embedding-Keeps,
}
use personal_knowledge_os.Storage.Operations.Memories.{
  reject_memory-Keeps, set_memory_embedding-Keeps, IsKeptByUpdates,
}
use personal_knowledge_os.Storage.Operations.{
  Operation, ingest, embed_chunk, create, approve, reject, embed_memory, lease, complete, fail,
  perform, run,
}

abbrev pub Grounded : List SourceRow → List EvidenceRow → List MemoryRow → Type 0
Grounded ss es = All (λ (m : MemoryRow). RestsOn ss es m.id m.owner_id)

abbrev pub Unique : List SourceRow → List EvidenceRow → List MemoryRow → Type 0
Unique ss es = UniqueIds

Grounded-kept :
    (ss : List SourceRow) (es : List EvidenceRow) (ms : List MemoryRow) (p : MemoryRow → Bool)
    (f : MemoryRow → MemoryRow)
    → ((r : MemoryRow) → (f r).id ≡ r.id)
    → ((r : MemoryRow) → (f r).owner_id ≡ r.owner_id)
    → Grounded ss es ms
    → Grounded ss es (update_where p f ms)
Grounded-kept ss es ms p f ids owners =
    All-update_where (λ (m : MemoryRow). RestsOn ss es m.id m.owner_id) p f
      (λ r hit h. rw (ids r, owners r) h) ms

Unique-kept :
    (ss : List SourceRow) (es : List EvidenceRow) (ms : List MemoryRow) (p : MemoryRow → Bool)
    (f : MemoryRow → MemoryRow)
    → ((r : MemoryRow) → (f r).id ≡ r.id)
    → ((r : MemoryRow) → (f r).owner_id ≡ r.owner_id)
    → Unique ss es ms
    → Unique ss es (update_where p f ms)
Unique-kept ss es ms p f ids owners = update_where-UniqueIds p f ids ms

pub Grounded-updated : IsKeptByUpdates Grounded
Grounded-updated ss es ms p f same =
    Grounded-kept ss es ms p f (λ r. (same r).same_id) (λ r. (same r).same_owner)

pub Unique-updated : IsKeptByUpdates Unique
Unique-updated ss es ms p f same =
    Unique-kept ss es ms p f (λ r. (same r).same_id) (λ r. (same r).same_owner)

-- A new source takes no evidence away.
Grounded-more :
    (ss new : List SourceRow) (es : List EvidenceRow) (ms : List MemoryRow)
    → Grounded ss es ms
    → Grounded (ss ++ new) es ms
Grounded-more ss new es ms =
    All-imp (λ (m : MemoryRow). RestsOn ss es m.id m.owner_id)
      (λ (m : MemoryRow). RestsOn (ss ++ new) es m.id m.owner_id)
      (λ m.
        Any-imp (λ (e : EvidenceRow). (e.memory_id ≡ m.id) × CitesSource ss m.owner_id e)
          (λ (e : EvidenceRow). (e.memory_id ≡ m.id) × CitesSource (ss ++ new) m.owner_id e)
          (λ e c. (
            c.0,
            Any-append_left (λ (s : SourceRow). (s.id ≡ e.source_id) × (s.owner_id ≡ m.owner_id)) ss
                new c.1,
          ))
          es)
      ms

ingest_source-IsGrounded :
    (owner_id : Uuid) (input : SourceInput) → Keeps IsGrounded (ingest_source owner_id input)
unfolding add_audit
ingest_source-IsGrounded owner_id input env w g = elim (ingest_source_exact owner_id input env w) [
  | inl (e, failed, same) ↦ rw same g
  | inr (done, made) ↦ rw made (Grounded-more w.db.sources _ w.db.memory_evidence w.db.memories g)
]

ingest_source-UniqueIds :
    (owner_id : Uuid) (input : SourceInput)
    → Keeps (OfMemories Unique) (ingest_source owner_id input)
unfolding add_audit
ingest_source-UniqueIds owner_id input env w u = elim (ingest_source_exact owner_id input env w) [
  | inl (e, failed, same) ↦ rw same u
  | inr (done, made) ↦ rw made u
]

pub create_memory_candidate-UniqueIds :
    (owner_id : Uuid) (input : MemoryCandidateInput)
    → Keeps (OfMemories Unique) (create_memory_candidate owner_id input)
unfolding add_audit candidate_row
create_memory_candidate-UniqueIds owner_id input env w u =
    elim (create_memory_candidate_lem owner_id input env w) [
      | inl same ↦ rw same u
      | inr (given, id, body) ↦
          let (known, unused, _, made) =
            create_memory_candidate_tx_lem (context env w.tick) owner_id input w.db body in
          rw made (
            insert-UniqueIds (candidate_row (env.now w.tick) (env.fresh w.tick 0) owner_id input)
              w.db.memories unused u)
    ]

superseded-UniqueIds :
    (now : DateTime) (owner_id : Uuid) (supersedes_id : Option Uuid) (ms : List MemoryRow)
    → UniqueIds ms
    → UniqueIds (superseded_memories now owner_id supersedes_id ms)
unfolding superseded_row
superseded-UniqueIds now owner_id none ms u = u
superseded-UniqueIds now owner_id (some previous) ms u =
    update_where-UniqueIds (is_active_memory owner_id previous) (superseded_row now) (λ r. refl) ms
      u

pub approve_memory-UniqueIds :
    (owner_id id : Uuid) (supersedes_id : Option Uuid)
    → Keeps (OfMemories Unique) (approve_memory owner_id id supersedes_id)
unfolding add_audit add_job activated_row
approve_memory-UniqueIds owner_id id supersedes_id env w u =
    elim (approve_memory_lem owner_id id supersedes_id env w) [
      | inl same ↦ rw same u
      | inr body ↦
          let (was, one, made) =
            approve_memory_tx_lem (context env w.tick) owner_id id supersedes_id w.db body in
          rw made (
            update_where-UniqueIds (is_memory owner_id id)
              (activated_row (env.now w.tick) supersedes_id) (λ r. refl) _
              (superseded-UniqueIds (env.now w.tick) owner_id supersedes_id w.db.memories u))
    ]

pub perform-IsGrounded :
    (op : Operation) (env : Env) (w : World) → IsGrounded w.db → IsGrounded (perform op env w).db
unfolding perform
perform-IsGrounded (ingest owner_id input) = ingest_source-IsGrounded owner_id input
perform-IsGrounded (embed_chunk owner_id id vector model) =
    set_chunk_embedding-Keeps Grounded owner_id id vector model
perform-IsGrounded (create owner_id input) = create_memory_candidate-IsGrounded owner_id input
perform-IsGrounded (approve owner_id id supersedes_id) =
    approve_memory-IsGrounded owner_id id supersedes_id
perform-IsGrounded (reject owner_id id) = reject_memory-Keeps Grounded Grounded-kept owner_id id
perform-IsGrounded (embed_memory owner_id id vector model) =
    set_memory_embedding-Keeps Grounded Grounded-updated owner_id id vector model
perform-IsGrounded (lease owner_id limit) = lease_jobs-Keeps Grounded owner_id limit
perform-IsGrounded (complete id) = complete_job-Keeps Grounded id
perform-IsGrounded (fail id attempts error) = fail_job-Keeps Grounded id attempts error

pub perform-UniqueIds :
    (op : Operation) (env : Env) (w : World)
    → UniqueIds w.db.memories
    → UniqueIds (perform op env w).db.memories
unfolding perform
perform-UniqueIds (ingest owner_id input) = ingest_source-UniqueIds owner_id input
perform-UniqueIds (embed_chunk owner_id id vector model) =
    set_chunk_embedding-Keeps Unique owner_id id vector model
perform-UniqueIds (create owner_id input) = create_memory_candidate-UniqueIds owner_id input
perform-UniqueIds (approve owner_id id supersedes_id) =
    approve_memory-UniqueIds owner_id id supersedes_id
perform-UniqueIds (reject owner_id id) = reject_memory-Keeps Unique Unique-kept owner_id id
perform-UniqueIds (embed_memory owner_id id vector model) =
    set_memory_embedding-Keeps Unique Unique-updated owner_id id vector model
perform-UniqueIds (lease owner_id limit) = lease_jobs-Keeps Unique owner_id limit
perform-UniqueIds (complete id) = complete_job-Keeps Unique id
perform-UniqueIds (fail id attempts error) = fail_job-Keeps Unique id attempts error

run_from :
    (ops : List Operation) (env : Env) (w : World)
    → IsGrounded w.db
    → UniqueIds w.db.memories
    → IsGrounded (run ops env w).db × UniqueIds (run ops env w).db.memories
unfolding run
run_from [] env w g u = (g, u)
run_from (op ∷ ops) env w g u =
    run_from ops env (perform op env w) (perform-IsGrounded op env w g)
      (perform-UniqueIds op env w u)

-- Whatever the storage is asked to do from an empty database on, in whatever order and wherever the
-- database fails: every memory has evidence that is a stored source of its owner, and no two memories
-- have the same id.
pub run-IsGrounded :
    (ops : List Operation) (env : Env)
    → let db = (run ops env (record { db = empty_db; tick = 0 })).db in
      IsGrounded db × UniqueIds db.memories
run-IsGrounded ops env = run_from ops env (record { db = empty_db; tick = 0 }) tt tt
