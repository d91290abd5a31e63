-- ===== src/Storage/Rows.antt =====
-- What several methods of src/storage.rs share: inserting jobs and audit records, and the conversion of
-- rows into records.
use personal_knowledge_os.Prelude.{
  ◌≡◌, arith, List, [], ◌∷◌, ◌++◌, none, any, not, ◌==◌, if◌then◌else◌,
}
use personal_knowledge_os.Text.{Text, codes}
use personal_knowledge_os.Values.{Uuid, DateTime, Value}
use personal_knowledge_os.AppError.{AppError, ok, database, database_error}
use personal_knowledge_os.Models.{SourceRecord, MemoryRecord}
use personal_knowledge_os.Db.Tx.{Tx, ◌>>=◌, ◌>>◌, query, ensure, execute}
use personal_knowledge_os.Db.Tables.{
  Db, JobRow, AuditRow, SourceRow, MemoryRow, EvidenceRow, pending,
}

-- SQLSTATE 23505, a primary key or a unique index; 23514, a CHECK
unfoldable pub unique_violation : AppError
unique_violation = database (database_error (codes "23505"))

unfoldable pub check_violation : AppError
check_violation = database (database_error (codes "23514"))

-- the table with a new job, whose other columns have their defaults
unfoldable pub add_job : DateTime → Uuid → Uuid → Text → Value → Db → Db
add_job now id owner_id kind payload db = record db {
  jobs =
      db.jobs
      ++ record {
        id = id;
        owner_id = owner_id;
        kind = kind;
        payload = payload;
        status = pending;
        attempts = 0;
        available_at = now;
        lease_until = none;
        last_error = none;
        created_at = now;
        updated_at = now;
      }
        ∷ [];
}

-- the table with a new audit record
unfoldable pub add_audit : Uuid → Uuid → Text → Text → Uuid → Value → Db → Db
add_audit id owner_id event_type subject_type subject_id details db = record db {
  audit_log =
      db.audit_log
      ++ record {
        id = id;
        owner_id = owner_id;
        event_type = event_type;
        subject_type = subject_type;
        subject_id = subject_id;
        details = details;
      }
        ∷ [];
}

-- `INSERT INTO jobs (id, owner_id, kind, payload)`, with the primary key
unfoldable pub insert_job : DateTime → Uuid → Uuid → Text → Value → Tx (Unit {0})
unfolding add_job
insert_job now id owner_id kind payload = do
  rows ← query (λ (db : Db). db.jobs)
  ensure (not (any (λ (j : JobRow). j.id == id) rows)) unique_violation
  execute (add_job now id owner_id kind payload)

-- `audit_tx` and `audit`, with the primary key
unfoldable pub insert_audit : Uuid → Uuid → Text → Text → Uuid → Value → Tx (Unit {0})
unfolding add_audit
insert_audit id owner_id event_type subject_type subject_id details = do
  rows ← query (λ (db : Db). db.audit_log)
  ensure (not (any (λ (a : AuditRow). a.id == id) rows)) unique_violation
  execute (add_audit id owner_id event_type subject_type subject_id details)

-- An insertion that succeeds appends its row.
pub insert_job_lem :
    (now : DateTime) (id owner_id : Uuid) (kind : Text) (payload : Value) (db : Db) {u : Unit}
    {db' : Db}
    → insert_job now id owner_id kind payload db ≡ ok (u, db')
    → db' ≡ add_job now id owner_id kind payload db
unfolding insert_job
insert_job_lem now id owner_id kind payload db h = ground arith

pub insert_audit_lem :
    (id owner_id : Uuid) (event_type subject_type : Text) (subject_id : Uuid) (details : Value)
    (db : Db) {u : Unit} {db' : Db}
    → insert_audit id owner_id event_type subject_type subject_id details db ≡ ok (u, db')
    → db' ≡ add_audit id owner_id event_type subject_type subject_id details db
unfolding insert_audit
insert_audit_lem id owner_id event_type subject_type subject_id details db h = ground arith

-- `source_from_row`
unfoldable pub source_from_row : SourceRow → SourceRecord
source_from_row r = record {
  id = r.id;
  kind = r.kind;
  title = r.title;
  content = r.content;
  external_id = r.external_id;
  source_uri = r.source_uri;
  sha256 = r.sha256;
  occurred_at = r.occurred_at;
  ingested_at = r.ingested_at;
  metadata = r.metadata;
}

-- `array_agg(me.source_id)` over the evidence of a memory
unfoldable pub evidence_of : Uuid → List EvidenceRow → List Uuid
evidence_of id [] = []
evidence_of id (e ∷ es) =
    let rest = evidence_of id es in if e.memory_id == id then e.source_id ∷ rest else rest

-- `memory_from_row`, with the aggregated evidence
unfoldable pub memory_from_row : List EvidenceRow → MemoryRow → MemoryRecord
unfolding evidence_of
memory_from_row evidence r = record {
  id = r.id;
  memory_type = r.memory_type;
  statement = r.statement;
  status = r.status;
  confidence = r.confidence;
  importance = r.importance;
  recurrence_count = r.recurrence_count;
  valid_from = r.valid_from;
  valid_until = r.valid_until;
  supersedes_id = r.supersedes_id;
  created_at = r.created_at;
  updated_at = r.updated_at;
  evidence_source_ids = evidence_of r.id evidence;
}
