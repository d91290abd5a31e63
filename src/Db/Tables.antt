-- ===== src/Db/Tables.antt =====
-- The rows of the database. The columns that name a status are the values of their CHECK constraints.
use personal_knowledge_os.Prelude.{ℕ, Bool, List, [], Option}
use personal_knowledge_os.Text.{Text}
use personal_knowledge_os.Values.{Uuid, DateTime, F32, Vector, Value}

pub record SourceRow : Type 0 where
  pub id : Uuid
  pub owner_id : Uuid
  pub kind : Text
  pub title : Option Text
  pub content : Text
  pub external_id : Option Text
  pub source_uri : Option Text
  pub sha256 : Text
  pub occurred_at : Option DateTime
  pub ingested_at : DateTime
  pub metadata : Value

pub record ChunkRow : Type 0 where
  pub id : Uuid
  pub owner_id : Uuid
  pub source_id : Uuid
  pub position : ℕ
  pub char_start : ℕ
  pub char_end : ℕ
  pub content : Text
  pub embedding : Option Vector
  pub embedding_model : Option Text
  pub embedded_at : Option DateTime

pub data MemoryStatus : Type 0 where
  candidate active superseded rejected disputed : MemoryStatus

pub record MemoryRow : Type 0 where
  pub id : Uuid
  pub owner_id : Uuid
  pub memory_type : Text
  pub statement : Text
  pub status : MemoryStatus
  pub confidence : F32
  pub importance : F32
  pub recurrence_count : ℕ
  pub valid_from : Option DateTime
  pub valid_until : Option DateTime
  pub supersedes_id : Option Uuid
  pub embedding : Option Vector
  pub embedding_model : Option Text
  pub embedded_at : Option DateTime
  pub created_at : DateTime
  pub updated_at : DateTime

pub record EvidenceRow : Type 0 where
  pub memory_id : Uuid
  pub source_id : Uuid

pub record EntityRow : Type 0 where
  pub id : Uuid
  pub owner_id : Uuid
  pub entity_type : Text
  pub canonical_name : Text
  pub attributes : Value
  pub created_at : DateTime
  pub updated_at : DateTime

pub record AliasRow : Type 0 where
  pub entity_id : Uuid
  pub alias : Text

pub record RelationRow : Type 0 where
  pub id : Uuid
  pub owner_id : Uuid
  pub subject_entity_id : Uuid
  pub predicate : Text
  pub object_entity_id : Uuid
  pub valid_from : Option DateTime
  pub valid_until : Option DateTime
  pub confidence : F32
  pub source_id : Option Uuid
  pub created_at : DateTime

pub data JobStatus : Type 0 where
  pending running done failed : JobStatus

pub record JobRow : Type 0 where
  pub id : Uuid
  pub owner_id : Uuid
  pub kind : Text
  pub payload : Value
  pub status : JobStatus
  pub attempts : ℕ
  pub available_at : DateTime
  pub lease_until : Option DateTime
  pub last_error : Option Text
  pub created_at : DateTime
  pub updated_at : DateTime

pub record AuditRow : Type 0 where
  pub id : Uuid
  pub owner_id : Uuid
  pub event_type : Text
  pub subject_type : Text
  pub subject_id : Uuid
  pub details : Value

pub record RetrievalRow : Type 0 where
  pub id : Uuid
  pub owner_id : Uuid
  pub query : Text
  pub methods : List Text
  pub degraded : Bool
  pub latency_ms : ℕ
  pub top_k : ℕ

pub record Db : Type 0 where
  pub sources : List SourceRow
  pub chunks : List ChunkRow
  pub memories : List MemoryRow
  pub memory_evidence : List EvidenceRow
  pub entities : List EntityRow
  pub entity_aliases : List AliasRow
  pub relations : List RelationRow
  pub jobs : List JobRow
  pub audit_log : List AuditRow
  pub retrieval_runs : List RetrievalRow

abbrev pub empty_db : Db
empty_db = record {
  sources = [];
  chunks = [];
  memories = [];
  memory_evidence = [];
  entities = [];
  entity_aliases = [];
  relations = [];
  jobs = [];
  audit_log = [];
  retrieval_runs = [];
}
