-- ===== src/Models.antt =====
-- src/models.rs: the requests and responses of the API, and the records that the storage returns.
-- `Option` fields and `#[serde(default)]` fields are as deserialised.
use personal_knowledge_os.Prelude.{ℕ, Bool, true, List, Option}
use personal_knowledge_os.Text.{Text, codes}
use personal_knowledge_os.Values.{Uuid, DateTime, F32, F64, Value, ℤ}
use personal_knowledge_os.Db.Tables.{MemoryStatus}

pub record CreateSourceRequest : Type 0 where
  pub kind : Text
  pub title : Option Text
  pub content : Text
  pub external_id : Option Text
  pub source_uri : Option Text
  pub occurred_at : Option DateTime
  pub metadata : Value

pub record SourceRecord : Type 0 where
  pub id : Uuid
  pub kind : Text
  pub title : Option Text
  pub content : Text
  pub external_id : Option Text
  pub source_uri : Option Text
  pub sha256 : Text
  pub occurred_at : Option DateTime
  pub ingested_at : DateTime
  pub metadata : Value

pub record CaptureMessage : Type 0 where
  pub role : Text
  pub content : Text
  pub name : Option Text

pub record CreateCaptureRequest : Type 0 where
  pub kind : Text
  pub title : Option Text
  pub provider : Option Text
  pub session_id : Option Text
  pub external_id : Option Text
  pub source_uri : Option Text
  pub occurred_at : Option DateTime
  pub messages : List CaptureMessage
  pub metadata : Value

pub default_capture_kind : Text
default_capture_kind = codes "conversation"

pub record CaptureResponse : Type 0 where
  pub source : SourceRecord
  pub memory_extraction_scheduled : Bool

pub record SearchRequest : Type 0 where
  pub query : Text
  pub limit : Option ℕ
  pub include_memories : Bool

pub default_true : Bool
default_true = true

pub record CreateMemoryCandidateRequest : Type 0 where
  pub memory_type : Text
  pub statement : Text
  pub confidence : Option F32
  pub importance : Option F32
  pub valid_from : Option DateTime
  pub evidence_source_ids : List Uuid

pub record ApproveMemoryRequest : Type 0 where
  pub supersedes_id : Option Uuid

pub record MemoryRecord : Type 0 where
  pub id : Uuid
  pub memory_type : Text
  pub statement : Text
  pub status : MemoryStatus
  pub confidence : F32
  pub importance : F32
  pub recurrence_count : ℕ
  pub valid_from : Option DateTime
  pub valid_until : Option DateTime
  pub supersedes_id : Option Uuid
  pub created_at : DateTime
  pub updated_at : DateTime
  pub evidence_source_ids : List Uuid

pub record ListMemoriesQuery : Type 0 where
  pub status : Option Text
  pub limit : Option ℤ

pub record CreateEntityRequest : Type 0 where
  pub entity_type : Text
  pub canonical_name : Text
  pub attributes : Value
  pub aliases : List Text

pub record ListEntitiesQuery : Type 0 where
  pub query : Option Text
  pub entity_type : Option Text
  pub limit : Option ℤ

pub record EntityRecord : Type 0 where
  pub id : Uuid
  pub entity_type : Text
  pub canonical_name : Text
  pub attributes : Value
  pub aliases : List Text
  pub created_at : DateTime
  pub updated_at : DateTime

pub record CreateRelationRequest : Type 0 where
  pub subject_entity_id : Uuid
  pub predicate : Text
  pub object_entity_id : Uuid
  pub valid_from : Option DateTime
  pub valid_until : Option DateTime
  pub confidence : Option F32
  pub source_id : Option Uuid

pub record CloseRelationRequest : Type 0 where
  pub valid_until : Option DateTime

pub record RelationRecord : Type 0 where
  pub id : Uuid
  pub subject_entity_id : Uuid
  pub predicate : Text
  pub object_entity_id : Uuid
  pub valid_from : Option DateTime
  pub valid_until : Option DateTime
  pub confidence : F32
  pub source_id : Option Uuid
  pub created_at : DateTime

pub record EntityGraphQuery : Type 0 where
  pub as_of : Option DateTime
  pub include_historical : Bool

pub record EntityGraphResponse : Type 0 where
  pub entity : EntityRecord
  pub outgoing : List RelationRecord
  pub incoming : List RelationRecord

pub record TimelineQuery : Type 0 where
  pub limit : Option ℤ
  pub before : Option DateTime

pub record TimelineItem : Type 0 where
  pub source_id : Uuid
  pub kind : Text
  pub title : Option Text
  pub occurred_at : Option DateTime
  pub ingested_at : DateTime
  pub preview : Text

pub record HealthResponse : Type 0 where
  pub status : Text
  pub database : Text

pub record JobRecord : Type 0 where
  pub id : Uuid
  pub kind : Text
  pub payload : Value
  pub attempts : ℕ

pub record SearchHit : Type 0 where
  pub kind : Text
  pub id : Uuid
  pub source_id : Option Uuid
  pub title : Option Text
  pub content : Text
  pub score : F64
  pub lexical_score : Option F64
  pub dense_score : Option F64
  pub occurred_at : Option DateTime
  pub evidence_source_ids : List Uuid

pub record SearchResponse : Type 0 where
  pub query : Text
  pub hits : List SearchHit
  pub degraded : Bool
  pub methods : List Text

pub record RankedChunk : Type 0 where
  pub chunk_id : Uuid
  pub source_id : Uuid
  pub title : Option Text
  pub content : Text
  pub occurred_at : Option DateTime
  pub score : F64

pub record RankedMemory : Type 0 where
  pub memory_id : Uuid
  pub statement : Text
  pub score : F64
  pub evidence_source_ids : List Uuid
  pub valid_from : Option DateTime
