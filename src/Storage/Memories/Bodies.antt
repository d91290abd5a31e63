-- ===== src/Storage/Memories/Bodies.antt =====
-- The statements of the memory methods, and the bodies of their transactions.
use personal_knowledge_os.Prelude.{
  ℕ, Bool, true, false, ◌&&◌, not, List, [], ◌∷◌, ◌++◌, Option, none, some, map, leb, ◌==◌,
  if◌then◌else◌, length, select, find, any, all, take,
}
use personal_knowledge_os.Text.{Text, codes, text_eq}
use personal_knowledge_os.Values.{
  Uuid, DateTime, F32, Vector, Value, ℤ, pos, negsuc, null, string, object, end, field, in_unit,
}
use personal_knowledge_os.AppError.{bad_request, conflict, not_found, database, database_error}
use personal_knowledge_os.Models.{MemoryRecord}
use personal_knowledge_os.Db.Tables.{
  Db, SourceRow, MemoryRow, EvidenceRow, MemoryStatus, candidate, active, superseded, rejected,
  disputed,
}
use personal_knowledge_os.Db.Sql.{update_where, count_where, order_by, elem, coalesce}
use personal_knowledge_os.Db.Libs.{Libs}
use personal_knowledge_os.Db.Tx.{
  Tx, Context, ◌>>=◌, ◌>>◌, pure, throw, query, execute, ensure, ok_or,
}
use personal_knowledge_os.Storage.Rows.{
  unique_violation, check_violation, insert_job, insert_audit, memory_from_row,
}

pub record MemoryCandidateInput : Type 0 where
  pub memory_type : Text
  pub statement : Text
  pub confidence : F32
  pub importance : F32
  pub valid_from : Option DateTime
  pub evidence : List Uuid

abbrev pub is_candidate : MemoryStatus → Bool
is_candidate candidate = true
is_candidate _ = false

abbrev pub is_active : MemoryStatus → Bool
is_active active = true
is_active _ = false

-- the text in the column
unfoldable pub status_text : MemoryStatus → Text
status_text candidate = codes "candidate"
status_text active = codes "active"
status_text superseded = codes "superseded"
status_text rejected = codes "rejected"
status_text disputed = codes "disputed"

-- `WHERE owner_id=$1 AND id=$2`
unfoldable pub is_memory : Uuid → Uuid → MemoryRow → Bool
is_memory owner_id id r = r.owner_id == owner_id && r.id == id

-- `… AND status='active'`
unfoldable pub is_active_memory : Uuid → Uuid → MemoryRow → Bool
unfolding is_memory
is_active_memory owner_id id r = is_memory owner_id id r && is_active r.status

-- `… AND status='candidate'`
unfoldable pub is_candidate_memory : Uuid → Uuid → MemoryRow → Bool
unfolding is_memory
is_candidate_memory owner_id id r = is_memory owner_id id r && is_candidate r.status

-- the CHECK on the validity interval
unfoldable pub interval_ok : Option DateTime → Option DateTime → Bool
interval_ok (some from) (some until) = leb from until
interval_ok _ _ = true

-- the CHECK constraints of `memories`
unfoldable pub memory_check : MemoryRow → Bool
memory_check r =
    leb 1 (length r.memory_type)
    && leb (length r.memory_type) 64
    && in_unit r.confidence
    && in_unit r.importance
    && leb 1 r.recurrence_count
    && interval_ok r.valid_from r.valid_until

-- `UPDATE memories SET f WHERE p`, and the number of rows affected
unfoldable pub update_memories : (MemoryRow → Bool) → (MemoryRow → MemoryRow) → Tx ℕ
update_memories p f = do
  rows ← query (λ (db : Db). db.memories)
  ensure (all (λ r. memory_check (f r)) (select p rows)) check_violation
  execute (λ (db : Db). record db { memories = update_where p f db.memories })
  pure (count_where p rows)

-- `INSERT INTO memories`
unfoldable pub insert_memory : MemoryRow → Tx (Unit {0})
insert_memory row = do
  ensure (memory_check row) check_violation
  rows ← query (λ (db : Db). db.memories)
  ensure (not (any (λ (r : MemoryRow). r.id == row.id) rows)) unique_violation
  execute (λ (db : Db). record db { memories = db.memories ++ row ∷ [] })

-- `INSERT INTO memory_evidence … ON CONFLICT DO NOTHING`
unfoldable pub add_evidence : Uuid → Uuid → List EvidenceRow → List EvidenceRow
add_evidence memory_id source_id rows =
    if any (λ (e : EvidenceRow). e.memory_id == memory_id && e.source_id == source_id) rows
    then rows
    else rows ++ record { memory_id = memory_id; source_id = source_id } ∷ []

-- `for source_id in input.evidence`
unfoldable pub add_evidence_all : Uuid → List Uuid → List EvidenceRow → List EvidenceRow
unfolding add_evidence
add_evidence_all memory_id [] rows = rows
add_evidence_all memory_id (s ∷ ss) rows =
    add_evidence_all memory_id ss (add_evidence memory_id s rows)

-- `SELECT count(*) FROM sources WHERE owner_id=$1 AND id=ANY($2)`
unfoldable pub count_sources : Uuid → List Uuid → List SourceRow → ℕ
unfolding elem
count_sources owner_id ids = count_where (λ s. s.owner_id == owner_id && elem s.id ids)

-- the row that `create_memory_candidate` inserts
unfoldable pub candidate_row : DateTime → Uuid → Uuid → MemoryCandidateInput → MemoryRow
candidate_row now id owner_id input = record {
  id = id;
  owner_id = owner_id;
  memory_type = input.memory_type;
  statement = input.statement;
  status = candidate;
  confidence = input.confidence;
  importance = input.importance;
  recurrence_count = 1;
  valid_from = input.valid_from;
  valid_until = none;
  supersedes_id = none;
  embedding = none;
  embedding_model = none;
  embedded_at = none;
  created_at = now;
  updated_at = now;
}

-- `create_memory_candidate`, from BEGIN to COMMIT
unfoldable pub create_memory_candidate_tx : Context → Uuid → MemoryCandidateInput → Tx Uuid
create_memory_candidate_tx cx owner_id input = do
  count ← query (λ db. count_sources owner_id input.evidence db.sources)
  ensure (count == length input.evidence)
      (bad_request (codes "one or more evidence sources do not exist"))
  insert_memory (candidate_row cx.now (cx.ids 0) owner_id input)
  execute (λ (db : Db). record db {
    memory_evidence = add_evidence_all (cx.ids 0) input.evidence db.memory_evidence;
  })
  insert_audit (cx.ids 1) owner_id (codes "memory.candidate_created") (codes "memory") (cx.ids 0)
      null
  pure (cx.ids 0)

-- `SELECT status FROM memories WHERE owner_id=$1 AND id=$2 FOR UPDATE`
unfoldable pub status_of_memory : Uuid → Uuid → List MemoryRow → Option MemoryStatus
unfolding is_memory
status_of_memory owner_id id [] = none
status_of_memory owner_id id (r ∷ rs) =
    if is_memory owner_id id r then some r.status else status_of_memory owner_id id rs

abbrev pub is_some_candidate : Option MemoryStatus → Bool
is_some_candidate (some s) = is_candidate s
is_some_candidate none = false

-- SET status='superseded', valid_until=COALESCE(valid_until,now()), updated_at=now()
unfoldable pub superseded_row : DateTime → MemoryRow → MemoryRow
superseded_row now r = record r {
  status = superseded;
  valid_until = some (coalesce r.valid_until now);
  updated_at = now;
}

-- the `if let Some(previous) = supersedes_id` of `approve_memory`
unfoldable pub supersede_tx : DateTime → Uuid → Option Uuid → Tx (Unit {0})
supersede_tx now owner_id none = pure tt
supersede_tx now owner_id (some previous) = do
  rows_affected ← update_memories (is_active_memory owner_id previous) (superseded_row now)
  ensure (rows_affected == 1) (conflict (codes "superseded memory must exist and be active"))

-- SET status='active', supersedes_id=$3, valid_from=COALESCE(valid_from,now()), updated_at=now()
unfoldable pub activated_row : DateTime → Option Uuid → MemoryRow → MemoryRow
activated_row now supersedes_id r = record r {
  status = active;
  supersedes_id = supersedes_id;
  valid_from = some (coalesce r.valid_from now);
  updated_at = now;
}

-- a nullable UUID in JSON
abbrev pub uuid_json : Libs → Option Uuid → Value
uuid_json libs none = null
uuid_json libs (some id) = string (libs.uuid_text id)

-- `approve_memory`, from BEGIN to COMMIT
unfoldable pub approve_memory_tx : Context → Uuid → Uuid → Option Uuid → Tx (Unit {0})
approve_memory_tx cx owner_id id supersedes_id = do
  current ← query (λ db. status_of_memory owner_id id db.memories)
  ensure (is_some_candidate current) (conflict (codes "memory must be in candidate status"))
  supersede_tx cx.now owner_id supersedes_id
  update_memories (is_memory owner_id id) (activated_row cx.now supersedes_id)
  insert_job cx.now (cx.ids 0) owner_id (codes "embed_memory")
      (object (field (codes "memory_id") (string (cx.libs.uuid_text id)) end))
  insert_audit (cx.ids 1) owner_id (codes "memory.approved") (codes "memory") id
      (object (field (codes "supersedes_id") (uuid_json cx.libs supersedes_id) end))

-- SET status='rejected', updated_at=now()
unfoldable pub rejected_row : DateTime → MemoryRow → MemoryRow
rejected_row now r = record r { status = rejected; updated_at = now }

-- the UPDATE of `reject_memory`
unfoldable pub reject_memory_tx : Context → Uuid → Uuid → Tx ℕ
reject_memory_tx cx owner_id id =
    update_memories (is_candidate_memory owner_id id) (rejected_row cx.now)

-- the audit record of `reject_memory`
unfoldable pub audit_rejection_tx : Context → Uuid → Uuid → Tx (Unit {0})
audit_rejection_tx cx owner_id id =
    insert_audit (cx.ids 0) owner_id (codes "memory.rejected") (codes "memory") id null

-- the SELECT of `get_memory`
unfoldable pub get_memory_tx : Uuid → Uuid → Tx MemoryRecord
get_memory_tx owner_id id = do
  row ← query (λ (db : Db). find (is_memory owner_id id) db.memories)
  memory ← ok_or row (not_found (codes "memory"))
  query (λ (db : Db). memory_from_row db.memory_evidence memory)

-- `$2::text IS NULL OR m.status=$2`
unfoldable pub status_matches : Option Text → MemoryStatus → Bool
unfolding status_text
status_matches none s = true
status_matches (some t) s = text_eq (status_text s) t

-- the SELECT of `list_memories`; a negative LIMIT is an error of the database (SQLSTATE 2201W)
unfoldable pub list_memories_tx : Uuid → Option Text → ℤ → Tx (List MemoryRecord)
list_memories_tx owner_id status (negsuc n) = throw (database (database_error (codes "2201W")))
list_memories_tx owner_id status (pos limit) = query (λ (db : Db).
    map (memory_from_row db.memory_evidence) (
      take limit (
        order_by (λ (a : MemoryRow) (b : MemoryRow). leb b.updated_at a.updated_at)
          (select (λ (r : MemoryRow). r.owner_id == owner_id && status_matches status r.status)
            db.memories))))

-- the SELECT of `load_memory_statement`
unfoldable pub load_memory_statement_tx : Uuid → Uuid → Tx Text
load_memory_statement_tx owner_id id = do
  row ← query (λ (db : Db). find (is_active_memory owner_id id) db.memories)
  memory ← ok_or row (not_found (codes "active memory"))
  pure memory.statement

-- the UPDATE of `set_memory_embedding`
unfoldable pub embedded_row : DateTime → Vector → Text → MemoryRow → MemoryRow
embedded_row now vector model r = record r {
  embedding = some vector;
  embedding_model = some model;
  embedded_at = some now;
  updated_at = now;
}

unfoldable pub set_memory_embedding_tx : Context → Uuid → Uuid → Vector → Text → Tx (Unit {0})
set_memory_embedding_tx cx owner_id id vector model = do
  update_memories (is_memory owner_id id) (embedded_row cx.now vector model)
  pure tt
