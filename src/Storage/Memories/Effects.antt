-- ===== src/Storage/Memories/Effects.antt =====
-- What a successful body of a memory transaction found, and what it did to the tables.
use personal_knowledge_os.Prelude.{
  ℕ, ◌≡◌, refl, ◌∙◌, Bool, true, false, List, [], ◌∷◌, ◌++◌, Option, none, some, ◌==◌, length,
  arith, any,
}
use personal_knowledge_os.Text.{codes}
use personal_knowledge_os.Values.{Uuid, DateTime, null, object, field, end, string}
use personal_knowledge_os.AppError.{ok}
use personal_knowledge_os.Db.Tables.{Db, MemoryRow, MemoryStatus, candidate}
use personal_knowledge_os.Db.Sql.{update_where, count_where}
use personal_knowledge_os.Db.Tx.{Context, bind_ok, ensure_lem, ensure}
use personal_knowledge_os.Storage.Rows.{insert_job, insert_audit, add_job, add_audit}
use personal_knowledge_os.Storage.Memories.Bodies.{
  MemoryCandidateInput, is_memory, is_active_memory, update_memories, insert_memory, candidate_row,
  create_memory_candidate_tx, count_sources, add_evidence_all, status_of_memory, superseded_row,
  supersede_tx, activated_row, approve_memory_tx, uuid_json, is_some_candidate,
}

-- The rows after the supersession step.
abbrev pub superseded_memories : DateTime → Uuid → Option Uuid → List MemoryRow → List MemoryRow
superseded_memories now owner_id none ms = ms
superseded_memories now owner_id (some previous) ms =
    update_where (is_active_memory owner_id previous) (superseded_row now) ms

-- One row, active, was hit by it.
abbrev pub SupersedesOne : Uuid → Option Uuid → List MemoryRow → Type 0
SupersedesOne owner_id none ms = Unit
SupersedesOne owner_id (some previous) ms = count_where (is_active_memory owner_id previous) ms ≡ 1

pub update_memories_lem :
    (p : MemoryRow → Bool) (f : MemoryRow → MemoryRow) (db : Db) {n : ℕ} {db' : Db}
    → update_memories p f db ≡ ok (n, db')
    → (db' ≡ record db { memories = update_where p f db.memories })
      × (n ≡ count_where p db.memories)
unfolding update_memories
update_memories_lem p f db h = ground arith

pub insert_memory_lem :
    (row : MemoryRow) (db : Db) {u : Unit} {db' : Db}
    → insert_memory row db ≡ ok (u, db')
    → (any (λ (r : MemoryRow). r.id == row.id) db.memories ≡ false)
      × (db' ≡ record db { memories = db.memories ++ row ∷ [] })
unfolding insert_memory
insert_memory_lem row db h = ground arith

pub supersede_tx_lem :
    (now : DateTime) (owner_id : Uuid) (supersedes_id : Option Uuid) (db : Db) {u : Unit} {db' : Db}
    → supersede_tx now owner_id supersedes_id db ≡ ok (u, db')
    → (db' ≡ record db { memories = superseded_memories now owner_id supersedes_id db.memories })
      × SupersedesOne owner_id supersedes_id db.memories
unfolding supersede_tx
supersede_tx_lem now owner_id none db h = ground arith
supersede_tx_lem now owner_id (some previous) db h =
    bind_ok (update_memories (is_active_memory owner_id previous) (superseded_row now)) _ db h
      λ n mid e k.
        let (one, same) = ensure_lem (n == 1) _ mid k in
        let (rows, hits) =
          update_memories_lem (is_active_memory owner_id previous) (superseded_row now) db e in
        (same ∙ rows, ground arith)

-- The tables after an approval.
abbrev pub approved_memories : Context → Uuid → Uuid → Option Uuid → List MemoryRow → List MemoryRow
approved_memories cx owner_id id supersedes_id ms =
    update_where (is_memory owner_id id) (activated_row cx.now supersedes_id)
      (superseded_memories cx.now owner_id supersedes_id ms)

abbrev pub approved_db : Context → Uuid → Uuid → Option Uuid → Db → Db
approved_db cx owner_id id supersedes_id db =
    add_audit (cx.ids 1) owner_id (codes "memory.approved") (codes "memory") id
      (object (field (codes "supersedes_id") (uuid_json cx.libs supersedes_id) end))
      (add_job cx.now (cx.ids 0) owner_id (codes "embed_memory")
        (object (field (codes "memory_id") (string (cx.libs.uuid_text id)) end))
        (record db { memories = approved_memories cx owner_id id supersedes_id db.memories }))

pub is_some_candidate_lem :
    (o : Option MemoryStatus) → is_some_candidate o ≡ true → o ≡ some candidate
is_some_candidate_lem none h = cc
is_some_candidate_lem (some candidate) h = refl
is_some_candidate_lem (some _) h = cc

-- A successful approval found a candidate, and superseded one active memory if it was to; then it
-- activated the candidate, scheduled its embedding and wrote one audit record.
pub approve_memory_tx_lem :
    (cx : Context) (owner_id id : Uuid) (supersedes_id : Option Uuid) (db : Db) {u : Unit}
    {db' : Db}
    → approve_memory_tx cx owner_id id supersedes_id db ≡ ok (u, db')
    → (status_of_memory owner_id id db.memories ≡ some candidate)
      × SupersedesOne owner_id supersedes_id db.memories
      × (db' ≡ approved_db cx owner_id id supersedes_id db)
unfolding approve_memory_tx insert_job insert_audit
approve_memory_tx_lem cx owner_id id supersedes_id db h =
    bind_ok (ensure (is_some_candidate current) _) _ db h λ u1 db1 e1 k1.
      bind_ok (supersede_tx cx.now owner_id supersedes_id) _ db1 k1 λ u2 db2 e2 k2.
        bind_ok (update_memories (is_memory owner_id id) (activated_row cx.now supersedes_id)) _ db2
          k2
          λ n db3 e3 k3.
            let (was, same) = ensure_lem (is_some_candidate current) _ db e1 in
            let (rows, one) = supersede_tx_lem cx.now owner_id supersedes_id db1 e2 in
            let (rows', hits) =
              update_memories_lem (is_memory owner_id id) (activated_row cx.now supersedes_id) db2
                e3 in
            (is_some_candidate_lem current was, rw same at one, ground arith)
  where
    current : Option MemoryStatus
    current = status_of_memory owner_id id db.memories

-- The tables after a new candidate.
abbrev pub candidate_db : Context → Uuid → MemoryCandidateInput → Db → Db
candidate_db cx owner_id input db =
    add_audit (cx.ids 1) owner_id (codes "memory.candidate_created") (codes "memory") (cx.ids 0)
      null
      (record db {
        memories = db.memories ++ candidate_row cx.now (cx.ids 0) owner_id input ∷ [];
        memory_evidence = add_evidence_all (cx.ids 0) input.evidence db.memory_evidence;
      })

abbrev pub has_memory : Uuid → List MemoryRow → Bool
has_memory id ms = any (λ (r : MemoryRow). r.id == id) ms

-- A successful creation counted as many sources as it was given, and found its new id unused.
pub create_memory_candidate_tx_lem :
    (cx : Context) (owner_id : Uuid) (input : MemoryCandidateInput) (db : Db) {id : Uuid} {db' : Db}
    → create_memory_candidate_tx cx owner_id input db ≡ ok (id, db')
    → (count_sources owner_id input.evidence db.sources ≡ length input.evidence)
      × (has_memory (cx.ids 0) db.memories ≡ false)
      × (id ≡ cx.ids 0)
      × (db' ≡ candidate_db cx owner_id input db)
unfolding create_memory_candidate_tx candidate_row insert_audit
create_memory_candidate_tx_lem cx owner_id input db h =
    bind_ok (ensure (count == length input.evidence) _) _ db h λ u1 db1 e1 k1.
      bind_ok (insert_memory row) _ db1 k1 λ u2 db2 e2 k2.
        let (known, same) = ensure_lem (count == length input.evidence) _ db e1 in
        let (unused, rows) = insert_memory_lem row db1 e2 in
        (ground arith, rw same at unused, ground arith, ground arith)
  where
    count : ℕ
    count = count_sources owner_id input.evidence db.sources

    row : MemoryRow
    row = candidate_row cx.now (cx.ids 0) owner_id input
